-- ===== src/Conversation/History/Bounded.antt =====
-- How large the history of bot/conversation/history.go grows.
use shipmates_oss.Prelude.{
  ℕ, suc, ◌+◌, ◌-◌, ◌≤◌, ◌<◌, ◌≡◌, refl, ap, inl, inr, ◌↔◌, true, false, not, List, [], ◌∷◌, ◌++◌,
  map, leb, ltb, ◌==◌, if◌then◌else◌, length, length-take, length-select-le, take, drop, Bool-cases,
  In, All, exists-In, All-select, arith,
}
use shipmates_oss.Prelude.Bytes.{Bytes, bytes_eq}
use shipmates_oss.Prelude.Prefixes.{bytes_eq_refl}
use shipmates_oss.Conversation.History.{
  ChatMessage, HistoryEntry, max_history_keys, max_messages_per_agent, get_history_key, has_key,
  change, get, without, delete_each, last_only, appended, evict_oldest_locked, with_entry, add,
  Call, gets, adds, after_call, run,
}

-- No more entries than the limit, and no entry with more messages than the limit.
pub record IsBounded (h : List HistoryEntry) : Type 0 where
  pub few_keys : length h ≤ max_history_keys
  pub few_messages : All (λ (e : HistoryEntry). length e.messages ≤ max_messages_per_agent) h

abbrev IsShort : HistoryEntry → Type 0
IsShort e = length e.messages ≤ max_messages_per_agent

length-map : {A B : Type 0} (f : A → B) (xs : List A) → length (map f xs) ≡ length xs
length-map f [] = refl
length-map f (x ∷ xs) = ap suc (length-map f xs)

pub change-All :
    (P : HistoryEntry → Type 0) (k : Bytes) (f : HistoryEntry → HistoryEntry)
    → ((e : HistoryEntry) → P e → P (f e))
    → (h : List HistoryEntry) → All P h
    → All P (change k f h)
change-All P k f g [] p = tt
change-All P k f g (e ∷ h) p = elim (Bool-cases (bytes_eq e.key k)) [
  | inl q ↦ rw q (g e p.0, change-All P k f g h p.1)
  | inr q ↦ rw q (p.0, change-All P k f g h p.1)
]

change-IsBounded :
    (k : Bytes) (f : HistoryEntry → HistoryEntry)
    → ((e : HistoryEntry) → IsShort e → IsShort (f e))
    → (h : List HistoryEntry) → IsBounded h
    → IsBounded (change k f h)
change-IsBounded k f g h b = record {
  few_keys =
      let l = b.few_keys in
      omega (arith, l, length-map (λ (e : HistoryEntry). if bytes_eq e.key k then f e else e) h);
  few_messages = change-All IsShort k f g h b.few_messages;
}

length-last_only : (ms : List ChatMessage) → length (last_only ms) ≤ 20
length-last_only ms = elim (Bool-cases (ltb 20 (length ms))) [
  | inl e ↦ rw e (omega (arith, length-take 20 (drop (length ms - 20) ms)))
  | inr e ↦ rw e (ground arith)
]

length-without :
    (k : Bytes) (h : List HistoryEntry) → has_key k h ≡ true → length (without k h) < length h
length-without k [] p = cc
length-without k (e ∷ h) p = elim (Bool-cases (bytes_eq e.key k)) [
  | inl q ↦
      let l = length-select-le (λ (e : HistoryEntry). not (bytes_eq e.key k)) h in
      rw q (omega (arith, l))
  | inr q ↦ let l = length-without k h (rw q at p) in rw q (omega (arith, l))
]

length-delete_each : (es h : List HistoryEntry) → length (delete_each es h) ≤ length h
length-delete_each [] h = omega arith
length-delete_each (e ∷ es) h =
    let one = length-select-le (λ (x : HistoryEntry). not (bytes_eq x.key e.key)) h in
    let rest = length-delete_each es (without e.key h) in omega (arith, one, rest)

delete_each-All :
    (P : HistoryEntry → Type 0) (es h : List HistoryEntry) → All P h → All P (delete_each es h)
delete_each-All P [] h p = p
delete_each-All P (e ∷ es) h p = delete_each-All P es (without e.key h) (All-select P _ h p)

module _ (sort : List HistoryEntry → List HistoryEntry)
    (same_entries : (h : List HistoryEntry) (e : HistoryEntry) → In e (sort h) ↔ In e h) where
  delete_first :
      (h es : List HistoryEntry)
      → 0 < length h
      → ((e : HistoryEntry) → In e es ↔ In e h)
      → (n : ℕ) → length (delete_each (take (suc n) es) h) < length h
  delete_first [] es p same n = absurd (omega (arith, p))
  delete_first (x ∷ h) [] p same n = elim ((same x).1 (inl refl)) [ ]
  delete_first (x ∷ h) (e ∷ es) p same n =
      let there : In e (x ∷ h) = (same e).0 (inl refl) in
      let found =
        exists-In (λ (y : HistoryEntry). bytes_eq y.key e.key) (x ∷ h) there
          (bytes_eq_refl e.key) in
      let one = length-without e.key (x ∷ h) found in
      let rest = length-delete_each (take n es) (without e.key (x ∷ h)) in omega (arith, one, rest)

  -- A full map has room after an eviction.
  length-evict :
      (h : List HistoryEntry) → 0 < length h → length (evict_oldest_locked sort h) < length h
  unfolding evict_oldest_locked
  length-evict [] p = absurd (omega (arith, p))
  length-evict (x ∷ h) p =
      let h' = x ∷ h in
      let one : length h' - 1000 + 1 ≡ suc (length h' - 1000) = omega arith in
      let some_key : (length h' == 0) ≡ false = ground arith in
      rw (some_key, one) (delete_first h' (sort h') p (same_entries h') (length h' - 1000))

  evict-All :
      (P : HistoryEntry → Type 0) (h : List HistoryEntry)
      → All P h
      → All P (evict_oldest_locked sort h)
  unfolding evict_oldest_locked
  evict-All P h p = elim (Bool-cases (length h == 0)) [
    | inl e ↦ rw e p
    | inr e ↦ rw e (delete_each-All P (take (length h - 1000 + 1) (sort h)) h p)
  ]

  with_entry-IsBounded :
      (k : Bytes) (now : ℕ) (h : List HistoryEntry)
      → IsBounded h
      → IsBounded (with_entry sort k now h)
  unfolding with_entry
  with_entry-IsBounded k now h b = elim (Bool-cases (has_key k h)) [
    | inl e ↦ rw e b
    | inr e ↦ elim (Bool-cases (leb 1000 (length h))) [
      | inl full ↦
          let pos : 0 < length h = ground arith in
          let l = length-evict h pos in
          let m = b.few_keys in
          rw (e, full)
            (record {
              few_keys = omega (arith, l, m);
              few_messages = (omega arith, evict-All IsShort h b.few_messages);
            })
      | inr free ↦
          let m : length h < 1000 = ground arith in
          rw (e, free)
            (record { few_keys = omega (arith, m); few_messages = (omega arith, b.few_messages) })
    ]
  ]

  call-IsBounded :
      (c : Call) (h : List HistoryEntry) → IsBounded h → IsBounded (after_call sort c h)
  unfolding get add
  call-IsBounded (gets w u a now) h b = change-IsBounded (get_history_key w u a) _ (λ e s. s) h b
  call-IsBounded (adds w u a role content now) h b =
      let k = get_history_key w u a in
      let m : ChatMessage = record { role = role; content = content } in
      change-IsBounded k (appended m now) (λ e s. length-last_only (e.messages ++ (m ∷ [])))
        (with_entry sort k now h) (with_entry-IsBounded k now h b)

  -- Where sort.Slice keeps the elements of a slice, no sequence of calls of get and add, at whatever times, takes
  -- a history of at most 1000 keys with at most 20 messages each, such as the empty one, beyond these limits.
  pub run-IsBounded :
      (cs : List Call) (h : List HistoryEntry) → IsBounded h → IsBounded (run sort cs h)
  run-IsBounded [] h b = b
  run-IsBounded (c ∷ cs) h b = run-IsBounded cs (after_call sort c h) (call-IsBounded c h b)
