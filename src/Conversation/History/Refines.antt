-- ===== src/Conversation/History/Refines.antt =====
-- The history of bot/conversation/history.go as a function from keys to logs.
use shipmates_oss.Prelude.{
  ℕ, ◌≤◌, ◌≡◌, refl, sym, ap, ◌∙◌, inl, inr, true, false, List, [], ◌∷◌, ◌++◌, append-nil,
  append_assoc, leb, length, Bool-cases, All, arith,
}
use shipmates_oss.Prelude.Bytes.{Bytes, bytes_eq}
use shipmates_oss.Prelude.Prefixes.{bytes_eq_refl, bytes_eq→eq}
use shipmates_oss.Conversation.History.{
  ChatMessage, HistoryEntry, get_history_key, has_key, messages_of, change, touched, get, appended,
  with_entry, add, Call, gets, adds, after_call, run,
}
use shipmates_oss.Conversation.History.Bounded.{change-All}
use shipmates_oss.Conversation.History.Recent.{
  recent, last_only-recent, recent-append, logged, log, messages_without, change_here,
  change-touched, change_elsewhere,
}
use shipmates_oss.Conversation.History.Room.{IsAmong, Distinct, Within, room_for, change-Distinct}

-- The key of an add is among some keys.
abbrev pub AddsTo : List Bytes → Call → Type 0
AddsTo ks (gets w u a now) = Unit
AddsTo ks (adds w u a role content now) = IsAmong ks (get_history_key w u a)

-- The entries stand for the logs: each key once, of the allowed ones, and with the last 20 messages of its log.
record StandsFor (ks : List Bytes) (logs : Bytes → List ChatMessage) (h : List HistoryEntry)
    : Type 0 where
  each_once : Distinct h
  allowed : Within ks h
  holds : (k : Bytes) → messages_of k h ≡ recent (logs k)

module _ (sort : List HistoryEntry → List HistoryEntry) (ks : List Bytes)
    (few : length ks ≤ 1000) where
  with_entry-StandsFor :
      (k : Bytes) (now : ℕ) (logs : Bytes → List ChatMessage) (h : List HistoryEntry)
      → IsAmong ks k
      → StandsFor ks logs h
      → StandsFor ks logs (with_entry sort k now h) × (has_key k (with_entry sort k now h) ≡ true)
  unfolding with_entry
  with_entry-StandsFor k now logs h among s = elim (Bool-cases (has_key k h)) [
    | inl e ↦ rw e (s, e)
    | inr e ↦
        let l = room_for k ks h e among s.each_once s.allowed in
        let free : leb 1000 (length h) ≡ false = ground arith in
        rw (e, free)
          (
            record {
              each_once = (e, s.each_once);
              allowed = (among, s.allowed);
              holds = λ x. elim (Bool-cases (bytes_eq k x)) [
                | inl q ↦ rw q (
                    sym (messages_without x h (ap (λ y. has_key y h) (sym (bytes_eq→eq k x q)) ∙ e))
                    ∙ s.holds x)
                | inr q ↦ rw q (s.holds x)
              ];
            },
            rw (bytes_eq_refl k) refl,
          )
  ]

  call-StandsFor :
      (c : Call) (logs : Bytes → List ChatMessage) (h : List HistoryEntry)
      → AddsTo ks c
      → StandsFor ks logs h
      → StandsFor ks (λ k. logs k ++ logged k c) (after_call sort c h)
  unfolding get add
  call-StandsFor (gets w u a now) logs h among s =
      let k = get_history_key w u a in
      record {
        each_once = change-Distinct (touched now) (λ e. refl) k h s.each_once;
        allowed =
            change-All (λ (e : HistoryEntry). IsAmong ks e.key) k (touched now) (λ e p. p) h
              s.allowed;
        holds = λ x. change-touched k x now h ∙ s.holds x ∙ ap recent (sym (append-nil (logs x)));
      }
  call-StandsFor (adds w u a role content now) logs h among s =
      let k = get_history_key w u a in
      let m : ChatMessage = record { role = role; content = content } in
      let made = with_entry sort k now h in
      let (t, there) = with_entry-StandsFor k now logs h among s in
      record {
        each_once = change-Distinct (appended m now) (λ e. refl) k made t.each_once;
        allowed =
            change-All (λ (e : HistoryEntry). IsAmong ks e.key) k (appended m now) (λ e p. p) made
              t.allowed;
        holds = λ x. elim (Bool-cases (bytes_eq k x)) [
          | inl q ↦ rw q (
              ap (λ y. messages_of y (change k (appended m now) made)) (sym (bytes_eq→eq k x q))
              ∙ change_here k m now made there
              ∙ last_only-recent (messages_of k made ++ (m ∷ []))
              ∙ ap (λ ms. recent (ms ++ (m ∷ [])))
                  (ap (λ y. messages_of y made) (bytes_eq→eq k x q) ∙ t.holds x)
              ∙ recent-append (logs x) m)
          | inr q ↦ rw q (
              change_elsewhere k x m now made q ∙ t.holds x ∙ ap recent (sym (append-nil (logs x))))
        ];
      }

  run-StandsFor :
      (cs : List Call) (logs : Bytes → List ChatMessage) (h : List HistoryEntry)
      → All (AddsTo ks) cs
      → StandsFor ks logs h
      → (k : Bytes) → messages_of k (run sort cs h) ≡ recent (logs k ++ log k cs)
  run-StandsFor [] logs h within s k = s.holds k ∙ ap recent (sym (append-nil (logs k)))
  run-StandsFor (c ∷ cs) logs h within s k =
      run-StandsFor cs (λ x. logs x ++ logged x c) (after_call sort c h) within.1
        (call-StandsFor c logs h within.0 s) k
      ∙ ap recent (append_assoc (logs k) (logged k c) (log k cs))

  -- As long as all messages go to keys of a list of at most 1000, however sort.Slice orders the entries, the
  -- history is a log for each key: after any calls of get and add that start from an empty history, get
  -- answers the last 20 messages that were added under its key, in their order, whatever happened under
  -- the other keys in between.
  pub get-recent :
      (cs : List Call)
      → All (AddsTo ks) cs
      → (workspace_id user_id agent_name : Bytes) (now : ℕ)
      → (get workspace_id user_id agent_name now (run sort cs [])).0
        ≡ recent (log (get_history_key workspace_id user_id agent_name) cs)
  unfolding get
  get-recent cs within w u a now =
      run-StandsFor cs (λ k. []) [] within
        (record { each_once = tt; allowed = tt; holds = λ k. refl }) (get_history_key w u a)
