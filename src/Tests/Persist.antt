-- ===== src/Tests/Persist.antt =====
-- A worker that writes to the database.
use shipmates_oss.Prelude.{ℕ, ◌≡◌, refl, List, [], ◌∷◌, ◌++◌, All, replicate}
use shipmates_oss.Prelude.Bytes.{codes}
use shipmates_oss.Relay.Persist.{
  PersistJob, flush_batch, serving, Worker, Event, enqueues, receives, ticks, enqueue_persist, run,
  start,
}
use shipmates_oss.Relay.Persist.Groups.{concat, IsStatement, flush_batch_lem}
use shipmates_oss.Relay.Persist.Order.{
  accepted, IsIdle, rounds_of, persist_in_order, persist_worker_catches_up,
}

abbrev job : ℕ → PersistJob
job n = record { session_id = codes "s"; sequence = n; content = codes "x" }

abbrev events : List Event
events = enqueues (job 1) ∷ enqueues (job 2) ∷ receives ∷ ticks ∷ enqueues (job 3) ∷ receives ∷ []

one_executed : (run events start).executed ≡ (job 1 ∷ []) ∷ []
unfolding enqueue_persist flush_batch
one_executed = refl

flush_batch_lem_example :
    (concat (flush_batch (replicate 60 (job 1))) ≡ replicate 60 (job 1))
    × All IsStatement (flush_batch (replicate 60 (job 1)))
flush_batch_lem_example = flush_batch_lem (replicate 60 (job 1))

persist_in_order_example :
    (concat (run events start).executed ++ ((run events start).batch ++ (run events start).channel)
      ≡ accepted events start)
    × All IsStatement (run events start).executed
persist_in_order_example = persist_in_order events

abbrev waiting : Worker
waiting = record {
  channel = job 2 ∷ job 3 ∷ [];
  batch = job 1 ∷ [];
  executed = [];
  drops = 0;
  phase = serving;
}

persist_worker_catches_up_example :
    IsIdle (run (rounds_of waiting.channel) waiting)
    × (concat (run (rounds_of waiting.channel) waiting).executed ≡ job 1 ∷ job 2 ∷ job 3 ∷ [])
persist_worker_catches_up_example = persist_worker_catches_up waiting refl
