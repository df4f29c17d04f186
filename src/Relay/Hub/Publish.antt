-- ===== src/Relay/Hub/Publish.antt =====
-- What Publish of stream-relay/relay/hub.go brings to each subscriber, and the numbers of NextSequence.
use shipmates_oss.Prelude.{
  ℕ, ◌+◌, ◌≡◌, refl, sym, ◌∙◌, ap, inl, inr, String, Bool, true, false, List, [], ◌∷◌, ◌++◌, map,
  ltb, ◌==◌, if◌then◌else◌, str_eq, exists, count, length, All, Bool-cases, if_cases, ==_iff, arith,
  str_eq→eq, str_ne, str_eq_ne,
}
use shipmates_oss.Relay.Hub.{
  Hub, Subscriber, Sent, bytes, Counter, subs_of, update_sub, deliver, deliver_to, publish,
  has_room, counter_of, bump, next_sequence,
}
use shipmates_oss.Relay.Hub.Rooms.{IsPointers}

-- What a message does to a subscriber: nothing if it is closed, else it is the last in the channel, or, where
-- the channel is full, it is lost and counted.
abbrev pub receive : Sent → Subscriber → Subscriber
receive m s =
    if s.done
    then s
    else if ltb (length s.send) 256
    then record s { send = s.send ++ (m ∷ []) }
    else record s { drops = s.drops + 1 }

-- The marker does not fit in a channel that is still full.
deliver-receive : (session : String) (m : Sent) (s : Subscriber) → deliver session m s ≡ receive m s
deliver-receive session m s = elim (Bool-cases s.done) [
  | inl d ↦ rw d
  | inr d ↦ elim (Bool-cases (has_room s)) [ inl r ↦ rw (d, r) | inr r ↦ simp (d, r) ]
]

receive_pointer : (m : Sent) (s : Subscriber) → (receive m s).pointer ≡ s.pointer
receive_pointer m s =
    if_cases (λ t. t.pointer ≡ s.pointer) s.done s _ (λ e. refl)
      (λ e.
        if_cases {A = Subscriber} (λ t. t.pointer ≡ s.pointer) (has_room s) _ _ (λ r. refl)
          (λ r. refl))

abbrev pub is_among : ℕ → List ℕ → Bool
is_among p = exists (λ q. q == p)

abbrev pub receive_among : Sent → List ℕ → Subscriber → Subscriber
receive_among m ps s = if is_among s.pointer ps then receive m s else s

if_true : {A : Type 0} (x y : A) (b : Bool) → b ≡ true → (if b then x else y) ≡ x
if_true x y b e = rw e

if_false : {A : Type 0} (x y : A) (b : Bool) → b ≡ false → (if b then x else y) ≡ y
if_false x y b e = rw e

absent : (p : ℕ) (ps : List ℕ) → All (λ q. (q == p) ≡ false) ps → is_among p ps ≡ false
absent p [] h = refl
absent p (q ∷ ps) h = rw (h.0, absent p ps h.1)

map_then :
    (f g k : Subscriber → Subscriber)
    → ((s : Subscriber) → g (f s) ≡ k s)
    → (ss : List Subscriber) → map g (map f ss) ≡ map k ss
map_then f g k h [] = refl
map_then f g k h (s ∷ ss) = rw (h s, map_then f g k h ss)

map_same : (ss : List Subscriber) → map (λ s. s) ss ≡ ss
map_same [] = refl
map_same (s ∷ ss) = rw (map_same ss)

module _ (session : String) (m : Sent) where
  one_first :
      (p : ℕ) (ps : List ℕ) (s : Subscriber)
      → All (λ q. (q == p) ≡ false) ps
      → receive_among m ps (if s.pointer == p then deliver session m s else s)
        ≡ receive_among m (p ∷ ps) s
  one_first p ps s apart = elim (Bool-cases (s.pointer == p)) [
    | inl e ↦
        let same : s.pointer ≡ p = (==_iff s.pointer p).0 e in
        let gone : is_among s.pointer ps ≡ false = rw same (absent p ps apart) in
        let back : (p == s.pointer) ≡ true = (==_iff p s.pointer).1 (sym same) in
        let sent : (if s.pointer == p then deliver session m s else s) ≡ receive m s =
          if_true _ _ (s.pointer == p) e ∙ deliver-receive session m s in
        let past : is_among (receive m s).pointer ps ≡ false =
          ap (λ q. is_among q ps) (receive_pointer m s) ∙ gone in
        let there : is_among s.pointer (p ∷ ps) ≡ true = rw back in
        ap (receive_among m ps) sent
        ∙ if_false _ _ (is_among (receive m s).pointer ps) past
        ∙ sym (if_true _ _ (is_among s.pointer (p ∷ ps)) there)
    | inr e ↦ let back : (p == s.pointer) ≡ false = ground (arith, e) in simp (e, back)
  ]

  deliver_to_lem :
      (n : ℕ) (ps : List ℕ) (h : Hub)
      → IsPointers n ps
      → (deliver_to session m ps h).subscribers ≡ map (receive_among m ps) h.subscribers
  unfolding deliver_to
  deliver_to_lem n [] h d = sym (map_same h.subscribers)
  deliver_to_lem n (p ∷ ps) h d =
      deliver_to_lem n ps (update_sub p (deliver session m) h) d.2
      ∙ map_then _ _ _ (λ s. one_first p ps s d.1) h.subscribers

-- Where the pointers in the set of a session differ,
-- Publish brings the message to each subscriber of the session once, in whatever order the map gives
-- them, and to no other subscriber: it is the last in an open channel with room, it is lost and counted
-- where the channel is full, and a closed subscriber is as it was. No drop marker fits in a channel from
-- which nothing was taken in between.
pub publish_reaches :
    (session chunk : String) (n : ℕ) (h : Hub)
    → IsPointers n (subs_of session h.sessions)
    → (publish session chunk h).subscribers
      ≡ map (receive_among (bytes chunk) (subs_of session h.sessions)) h.subscribers
unfolding publish
publish_reaches session chunk n h d =
    deliver_to_lem session (bytes chunk) n (subs_of session h.sessions) h d

-- The sessions that took a number, one after another.
unfoldable pub numbered : List String → Hub → Hub
numbered [] h = h
numbered (s ∷ ss) h = numbered ss (next_sequence s h).1

bumped :
    (s t : String) (cs : List Counter)
    → counter_of t (bump s cs) ≡ counter_of t cs + (if str_eq s t then 1 else 0)
bumped s t [] = elim (Bool-cases (str_eq s t)) [ inl e ↦ rw e | inr e ↦ rw e ]
bumped s t (c ∷ cs) = elim (Bool-cases (str_eq c.session_id s)) [
  | inl e ↦
      let same : str_eq c.session_id t ≡ str_eq s t =
        ap (λ x. str_eq x t) (str_eq→eq c.session_id s e) in
      rw (e, same) (elim (Bool-cases (str_eq s t)) [ inl q ↦ rw q | inr q ↦ rw q (omega arith) ])
  | inr e ↦ rw e (elim (Bool-cases (str_eq c.session_id t)) [
    | inl q ↦
        let apart : str_eq s t ≡ false =
          str_eq_ne s t (λ k. str_ne c.session_id s e (str_eq→eq c.session_id t q ∙ sym k)) in
        rw (q, apart) (omega arith)
    | inr q ↦ rw q (bumped s t cs)
  ])
]

-- NextSequence counts: after any calls for any sessions on a hub, the next number of a session is its last one, more by
-- its calls and by one, whatever the other sessions did.
pub next_sequence_counts :
    (ss : List String) (t : String) (h : Hub)
    → (next_sequence t (numbered ss h)).0
      ≡ counter_of t h.sequence_map + count (λ s. str_eq s t) ss + 1
unfolding next_sequence numbered
next_sequence_counts [] t h = omega arith
next_sequence_counts (s ∷ ss) t h =
    omega (arith, next_sequence_counts ss t (next_sequence s h).1, bumped s t h.sequence_map)
