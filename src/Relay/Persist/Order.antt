-- ===== src/Relay/Persist/Order.antt =====
-- What becomes of the jobs of a worker (stream-relay/main.go).
use shipmates_oss.Prelude.{
  ℕ, ◌≡◌, refl, sym, ap, ◌∙◌, inl, inr, Bool, true, false, List, [], ◌∷◌, ◌++◌, append-nil,
  append_assoc, leb, ◌==◌, if◌then◌else◌, length, Bool-cases, All, arith,
}
use shipmates_oss.Relay.Persist.{
  PersistJob, flush_batch, Phase, serving, draining, returned, Worker, Event, enqueues, receives,
  ticks, is_done, drains, has_room, enqueue_persist, flushed, kept, receive, drain, persist_worker,
  step, run, start,
}
use shipmates_oss.Relay.Persist.Groups.{concat, IsStatement, flush_batch_lem}

-- The jobs that a worker has, in their order: in executed statements, in its batch and in its channel.
abbrev pub jobs_of : Worker → List PersistJob
jobs_of w = concat w.executed ++ (w.batch ++ w.channel)

concat-append :
    {A : Type 0} (xss yss : List (List A)) → concat (xss ++ yss) ≡ concat xss ++ concat yss
concat-append [] yss = refl
concat-append (xs ∷ xss) yss =
    ap (λ t. xs ++ t) (concat-append xss yss) ∙ sym (append_assoc xs (concat xss) (concat yss))

All-append : {A : Type 0} (P : A → Type 0) (xs ys : List A) → All P xs → All P ys → All P (xs ++ ys)
All-append P [] ys p q = q
All-append P (x ∷ xs) ys p q = (p.0, All-append P xs ys p.1 q)

abbrev IsNext : Worker → List PersistJob → Worker → Type 0
IsNext w more v =
    (jobs_of v ≡ jobs_of w ++ more) × (All IsStatement w.executed → All IsStatement v.executed)

-- A flush moves what it flushes.
flushed-IsNext :
    (w : Worker) (batch rest : List PersistJob) (next : Phase)
    → batch ++ rest ≡ w.batch ++ w.channel
    → IsNext w [] (flushed rest batch w next)
flushed-IsNext w batch rest next same =
    let (whole, sizes) = flush_batch_lem batch in
    (
      ap (λ t. t ++ rest)
            (concat-append w.executed (flush_batch batch) ∙ ap (λ t. concat w.executed ++ t) whole)
          ∙ append_assoc (concat w.executed) batch rest
          ∙ ap (λ t. concat w.executed ++ t) same
          ∙ sym (append-nil (jobs_of w)),
      λ p. All-append IsStatement w.executed (flush_batch batch) p sizes,
    )

kept-IsNext :
    (w : Worker) (batch rest : List PersistJob)
    → batch ++ rest ≡ w.batch ++ w.channel
    → IsNext w [] (kept rest batch w)
kept-IsNext w batch rest same =
    (ap (λ t. concat w.executed ++ t) same ∙ sym (append-nil (jobs_of w)), λ p. p)

same-IsNext : (w : Worker) → IsNext w [] w
same-IsNext w = (sym (append-nil (jobs_of w)), λ p. p)

one_over :
    (w : Worker) (job : PersistJob) (rest : List PersistJob)
    → w.channel ≡ job ∷ rest
    → (w.batch ++ (job ∷ [])) ++ rest ≡ w.batch ++ w.channel
one_over w job rest e = append_assoc w.batch (job ∷ []) rest ∙ ap (λ t. w.batch ++ t) (sym e)

receive-IsNext : (w : Worker) (ch : List PersistJob) → w.channel ≡ ch → IsNext w [] (receive w ch)
receive-IsNext w [] e = same-IsNext w
receive-IsNext w (job ∷ rest) e = elim (Bool-cases (leb 50 (length (w.batch ++ (job ∷ []))))) [
  | inl q ↦ rw q (flushed-IsNext w (w.batch ++ (job ∷ [])) rest serving (one_over w job rest e))
  | inr q ↦ rw q (kept-IsNext w (w.batch ++ (job ∷ [])) rest (one_over w job rest e))
]

nil_of : {A : Type 0} (xs : List A) → (length xs == 0) ≡ true → xs ≡ []
nil_of [] h = refl
nil_of (x ∷ xs) h = absurd (ground arith)

drain-IsNext : (w : Worker) (ch : List PersistJob) → w.channel ≡ ch → IsNext w [] (drain w ch)
drain-IsNext w [] e = elim (Bool-cases (length w.batch == 0)) [
  | inl q ↦
      rw q (flushed-IsNext w [] [] returned (sym (ap (λ t. t ++ w.channel) (nil_of w.batch q) ∙ e)))
  | inr q ↦ rw q (flushed-IsNext w w.batch [] returned (ap (λ t. w.batch ++ t) (sym e)))
]
drain-IsNext w (job ∷ rest) e = kept-IsNext w (w.batch ++ (job ∷ [])) rest (one_over w job rest e)

-- The jobs that find room in the channel.
abbrev pub taken : Event → Worker → List PersistJob
taken (enqueues job) w = if has_room w then job ∷ [] else []
taken _ w = []

abbrev pub accepted : List Event → Worker → List PersistJob
accepted [] w = []
accepted (e ∷ es) w = taken e w ++ accepted es (step e w)

enqueue-IsNext :
    (job : PersistJob) (w : Worker) → IsNext w (taken (enqueues job) w) (enqueue_persist job w)
unfolding enqueue_persist
enqueue-IsNext job w = elim (Bool-cases (has_room w)) [
  | inl q ↦ rw q (
    ap (λ t. concat w.executed ++ t) (sym (append_assoc w.batch w.channel (job ∷ [])))
        ∙ sym (append_assoc (concat w.executed) (w.batch ++ w.channel) (job ∷ [])),
    λ p. p,
  )
  | inr q ↦ rw q (sym (append-nil (jobs_of w)), λ p. p)
]

step-IsNext :
    (e : Event) (phase : Phase) (w : Worker) → IsNext w (taken e w) (persist_worker e phase w)
step-IsNext (enqueues job) phase w = enqueue-IsNext job w
step-IsNext receives serving w = receive-IsNext w w.channel refl
step-IsNext receives draining w = same-IsNext w
step-IsNext receives returned w = same-IsNext w
step-IsNext ticks serving w = elim (Bool-cases (length w.batch == 0)) [
  | inl q ↦ rw q (same-IsNext w)
  | inr q ↦ rw q (flushed-IsNext w w.batch w.channel serving refl)
]
step-IsNext ticks draining w = same-IsNext w
step-IsNext ticks returned w = same-IsNext w
step-IsNext is_done serving w = same-IsNext w
step-IsNext is_done draining w = same-IsNext w
step-IsNext is_done returned w = same-IsNext w
step-IsNext drains serving w = same-IsNext w
step-IsNext drains draining w = drain-IsNext w w.channel refl
step-IsNext drains returned w = same-IsNext w

run-IsNext : (es : List Event) (w : Worker) → IsNext w (accepted es w) (run es w)
run-IsNext [] w = same-IsNext w
run-IsNext (e ∷ es) w =
    let one = step-IsNext e w.phase w in
    let rest = run-IsNext es (step e w) in
    (
      rest.0
          ∙ ap (λ t. t ++ accepted es (step e w)) one.0
          ∙ append_assoc (jobs_of w) (taken e w) (accepted es (step e w)),
      λ p. rest.1 (one.1 p),
    )

-- Whatever the order of the events, the jobs that found room in the channel are, each once and in the order in
-- which they came, first those in the statements that the worker has executed, then those in its batch, then
-- those in the channel; and every statement has 1 to 50 rows. Whether a statement fails makes no difference.
pub persist_in_order :
    (es : List Event)
    → (concat (run es start).executed ++ ((run es start).batch ++ (run es start).channel)
        ≡ accepted es start)
      × All IsStatement (run es start).executed
persist_in_order es = let r = run-IsNext es start in (r.0, r.1 tt)

-- A receive for each job that waits, and a tick.
abbrev pub rounds_of : List PersistJob → List Event
rounds_of [] = ticks ∷ []
rounds_of (job ∷ ch) = receives ∷ rounds_of ch

abbrev pub IsIdle : Worker → Type 0
IsIdle w = (w.phase ≡ serving) × (w.channel ≡ []) × (w.batch ≡ [])

abbrev serving_with : List PersistJob → List PersistJob → List (List PersistJob) → ℕ → Worker
serving_with ch batch executed drops = record {
  channel = ch;
  batch = batch;
  executed = executed;
  drops = drops;
  phase = serving;
}

either-IsIdle :
    (b : Bool) (es : List Event) (v w : Worker)
    → IsIdle (run es v)
    → IsIdle (run es w)
    → IsIdle (run es (if b then v else w))
either-IsIdle true es v w h k = h
either-IsIdle false es v w h k = k

rounds-IsIdle :
    (ch batch : List PersistJob) (executed : List (List PersistJob)) (drops : ℕ)
    → IsIdle (run (rounds_of ch) (serving_with ch batch executed drops))
rounds-IsIdle [] batch executed drops = elim (Bool-cases (length batch == 0)) [
  | inl q ↦ rw q (refl, refl, nil_of batch q)
  | inr q ↦ rw q (refl, refl, refl)
]
rounds-IsIdle (job ∷ ch) batch executed drops =
    either-IsIdle (leb 50 (length (batch ++ (job ∷ [])))) (rounds_of ch)
      (serving_with ch [] (executed ++ flush_batch (batch ++ (job ∷ []))) drops)
      (serving_with ch (batch ++ (job ∷ [])) executed drops)
      (rounds-IsIdle ch [] (executed ++ flush_batch (batch ++ (job ∷ []))) drops)
      (rounds-IsIdle ch (batch ++ (job ∷ [])) executed drops)

accepts_none : (ch : List PersistJob) (w : Worker) → accepted (rounds_of ch) w ≡ []
accepts_none [] w = refl
accepts_none (job ∷ ch) w = accepts_none ch (step receives w)

-- A worker that serves, once no more jobs come, has executed all that it had, in its order, after one receive for
-- each job that waits and one tick; its channel and its batch are empty then, and it still serves.
pub persist_worker_catches_up :
    (w : Worker)
    → w.phase ≡ serving
    → IsIdle (run (rounds_of w.channel) w)
      × (concat (run (rounds_of w.channel) w).executed
          ≡ concat w.executed ++ (w.batch ++ w.channel))
persist_worker_catches_up w e =
    let v = serving_with w.channel w.batch w.executed w.drops in
    let (on, no_channel, no_batch) = rounds-IsIdle w.channel w.batch w.executed w.drops in
    let moved = (run-IsNext (rounds_of w.channel) v).0 in
    let none_more = ap (λ t. jobs_of v ++ t) (accepts_none w.channel v) in
    let last = (run (rounds_of w.channel) v).executed in
    let all_there : concat last ++ ([] ++ []) ≡ jobs_of v ++ accepted (rounds_of w.channel) v =
      rw (no_channel, no_batch) at moved in
    rw e (
      (on, no_channel, no_batch),
      sym (append-nil (concat last)) ∙ all_there ∙ none_more ∙ append-nil (jobs_of v),
    )
