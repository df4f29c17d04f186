-- ===== src/Relay/Hub/Bounded.antt =====
-- The bounds that the hub keeps (stream-relay/relay/hub.go) whatever the goroutines do, in whatever
-- order their steps come.
use shipmates_oss.Prelude.{
  ℕ, ◌+◌, ◌-◌, ◌≤◌, ◌≡◌, refl, String, Bool, true, false, not, ◌&&◌, Option, List, [], ◌∷◌, ◌++◌,
  map, ltb, leb, ◌==◌, if◌then◌else◌, length, All, if_cases, &&→both, arith, length-append,
}
use shipmates_oss.Relay.Hub.{
  Hub, Subscriber, Sent, new_hub, is_sub, subscribe, forget, update_sub, close, offer, mark,
  has_room, next_sequence, cleanup_sequence, cleanup_orphaned_sequences, sum_subs,
  total_subscribers,
}
use shipmates_oss.Relay.Hub.Rooms.{
  IsRoom, add_sub-All, add_sub_sum, one_if, remove_sub_sum, remove_sub-All,
}

abbrev pub FitsBuffer : Subscriber → Type 0
FitsBuffer s = length s.send ≤ 256

-- The count is the number of the subscribers, which is within the limit; no session has an empty set;
-- no channel holds more than its 256 messages.
pub record IsBounded (h : Hub) : Type 0 where
  pub counted : h.active_conns ≡ total_subscribers h
  pub within : h.active_conns ≤ h.max_conns
  pub rooms : All (IsRoom h.next_pointer) h.sessions
  pub buffers : All FitsBuffer h.subscribers

-- The steps of the goroutines. A subscriber is one that the hub returned, so the sets never hold a
-- pointer to nothing.
pub data HubStep : Type 0 where
  subscribes : String → HubStep
  -- the two parts of Unsubscribe
  forgets : String → ℕ → HubStep
  closes : ℕ → HubStep
  -- the two parts of a delivery
  offers : ℕ → Sent → HubStep
  marks : ℕ → String → HubStep
  -- a connection takes the oldest message of its subscriber
  takes : ℕ → HubStep
  counts : String → HubStep
  cleans : String → HubStep
  cleans_orphans : HubStep

abbrev pub without_oldest : List Sent → List Sent
without_oldest [] = []
without_oldest (m ∷ ms) = ms

abbrev pub take_one : Subscriber → Subscriber
take_one s = record s { send = without_oldest s.send }

unfoldable pub hub_step : HubStep → Hub → Hub
hub_step (subscribes s) h = (subscribe s h).1
hub_step (forgets s p) h = forget s p h
hub_step (closes p) h = update_sub p close h
hub_step (offers p m) h = update_sub p (offer m) h
hub_step (marks p s) h = update_sub p (mark s) h
hub_step (takes p) h = update_sub p take_one h
hub_step (counts s) h = (next_sequence s h).1
hub_step (cleans s) h = cleanup_sequence s h
hub_step cleans_orphans h = cleanup_orphaned_sequences h

unfoldable pub hub_run : Hub → List HubStep → Hub
hub_run h [] = h
hub_run h (x ∷ xs) = hub_run (hub_step x h) xs

update_sub-IsBounded :
    (p : ℕ) (f : Subscriber → Subscriber)
    → ((s : Subscriber) → FitsBuffer s → FitsBuffer (f s))
    → (h : Hub) → IsBounded h
    → IsBounded (update_sub p f h)
update_sub-IsBounded p f keeps h b = record {
  counted = b.counted;
  within = b.within;
  rooms = b.rooms;
  buffers = go h.subscribers b.buffers;
}
  where
    go :
        (ss : List Subscriber)
        → All FitsBuffer ss
        → All FitsBuffer (map (λ s. if s.pointer == p then f s else s) ss)
    go [] hs = tt
    go (s ∷ ss) hs =
        (if_cases FitsBuffer (s.pointer == p) (f s) s (λ e. keeps s hs.0) (λ e. hs.0), go ss hs.1)

subscribe-IsBounded : (s : String) (h : Hub) → IsBounded h → IsBounded (subscribe s h).1
unfolding subscribe
subscribe-IsBounded s h b =
    if_cases {A = Option ℕ × Hub} (λ r. IsBounded r.1) (leb h.max_conns h.active_conns) _ _ (λ e. b)
      (λ e. record {
        counted = omega (arith, add_sub_sum s h.next_pointer h.sessions, b.counted);
        within = ground (arith, e);
        rooms = add_sub-All s h.next_pointer h.sessions b.rooms;
        buffers = (omega arith, b.buffers);
      })

one_less : (b : Bool) (a t u : ℕ) → u + one_if b ≡ t → a ≡ t → (if b then a - 1 else a) ≡ u
one_less true a t u h e = omega (arith, h, e)
one_less false a t u h e = omega (arith, h, e)

at_most : (b : Bool) (a n : ℕ) → a ≤ n → (if b then a - 1 else a) ≤ n
at_most true a n h = omega (arith, h)
at_most false a n h = h

forget-IsBounded : (s : String) (p : ℕ) (h : Hub) → IsBounded h → IsBounded (forget s p h)
unfolding forget
forget-IsBounded s p h b = record {
  counted =
      one_less (is_sub s p h.sessions) h.active_conns (sum_subs h.sessions) _
        (remove_sub_sum h.next_pointer s p h.sessions b.rooms) b.counted;
  within = at_most (is_sub s p h.sessions) h.active_conns h.max_conns b.within;
  rooms = remove_sub-All h.next_pointer s p h.sessions b.rooms;
  buffers = b.buffers;
}

pushed : (m : Sent) (ms : List Sent) → ltb (length ms) 256 ≡ true → length (ms ++ (m ∷ [])) ≤ 256
pushed m ms h = ground (arith, length-append ms (m ∷ []))

offer-Fits : (m : Sent) (s : Subscriber) → FitsBuffer s → FitsBuffer (offer m s)
offer-Fits m s h =
    if_cases FitsBuffer s.done s _ (λ e. h)
      (λ e.
        if_cases FitsBuffer (has_room s) (record s { send = s.send ++ (m ∷ []) })
          (record s { drops = s.drops + 1 }) (λ r. pushed m s.send r) (λ r. h))

mark-Fits : (session : String) (s : Subscriber) → FitsBuffer s → FitsBuffer (mark session s)
mark-Fits session s h =
    if_cases FitsBuffer (not s.done && has_room s) _ s
      (λ r. pushed _ s.send (&&→both (not s.done) _ r).1) (λ r. h)

take_one-Fits : (s : Subscriber) → FitsBuffer s → FitsBuffer (take_one s)
take_one-Fits s h = shorter s.send h
  where
    shorter : (ms : List Sent) → length ms ≤ 256 → length (without_oldest ms) ≤ 256
    shorter [] k = k
    shorter (m ∷ ms) k = omega (arith, k)

hub_step-IsBounded : (x : HubStep) (h : Hub) → IsBounded h → IsBounded (hub_step x h)
unfolding hub_step next_sequence cleanup_sequence cleanup_orphaned_sequences
hub_step-IsBounded (subscribes s) h b = subscribe-IsBounded s h b
hub_step-IsBounded (forgets s p) h b = forget-IsBounded s p h b
hub_step-IsBounded (closes p) h b = update_sub-IsBounded p close (λ s k. k) h b
hub_step-IsBounded (offers p m) h b = update_sub-IsBounded p (offer m) (offer-Fits m) h b
hub_step-IsBounded (marks p s) h b = update_sub-IsBounded p (mark s) (mark-Fits s) h b
hub_step-IsBounded (takes p) h b = update_sub-IsBounded p take_one take_one-Fits h b
hub_step-IsBounded (counts s) h b = record {
  counted = b.counted;
  within = b.within;
  rooms = b.rooms;
  buffers = b.buffers;
}
hub_step-IsBounded (cleans s) h b = record {
  counted = b.counted;
  within = b.within;
  rooms = b.rooms;
  buffers = b.buffers;
}
hub_step-IsBounded cleans_orphans h b = record {
  counted = b.counted;
  within = b.within;
  rooms = b.rooms;
  buffers = b.buffers;
}

hub_run-IsBounded : (h : Hub) (xs : List HubStep) → IsBounded h → IsBounded (hub_run h xs)
unfolding hub_run
hub_run-IsBounded h [] b = b
hub_run-IsBounded h (x ∷ xs) b = hub_run-IsBounded (hub_step x h) xs (hub_step-IsBounded x h b)

-- Whatever the goroutines do with a new hub, in whatever order, ActiveConnections is TotalSubscribers and is
-- within the limit, no session is kept with an empty set, and no channel holds more than 256 messages.
pub new_hub-IsBounded : (max : ℕ) (xs : List HubStep) → IsBounded (hub_run (new_hub max) xs)
new_hub-IsBounded max xs =
    hub_run-IsBounded (new_hub max) xs
      (record { counted = refl; within = omega arith; rooms = tt; buffers = tt })
