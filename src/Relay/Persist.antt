-- ===== src/Relay/Persist.antt =====
-- stream-relay/main.go: the output of the sessions goes to the database. This is one of the workers, with its
-- channel: a session's jobs all go to the one that its hash names. A select on it is one step.
pub mod Groups
pub mod Order
use shipmates_oss.Prelude.{
  ℕ, zero, suc, ◌+◌, Bool, true, false, not, List, [], ◌∷◌, ◌++◌, ltb, leb, ◌==◌, if◌then◌else◌,
  length, take, drop,
}
use shipmates_oss.Prelude.Bytes.{Bytes}

pub record PersistJob : Type 0 where
  pub session_id : Bytes
  pub sequence : ℕ
  pub content : Bytes

abbrev pub channel_size : ℕ
channel_size = 1024

abbrev pub batch_size : ℕ
batch_size = 50

-- The statements that flushBatch executes, each with its rows. The calls are as many as the first number at most.
unfoldable pub flush_from : ℕ → List PersistJob → List (List PersistJob)
flush_from zero batch = []
flush_from (suc calls) batch =
    let rest = flush_from calls (drop batch_size batch) in
    let size = if ltb batch_size (length batch) then batch_size else length batch in
    let later = if ltb batch_size (length batch) then rest else [] in
    if length batch == 0 then [] else take size batch ∷ later

unfoldable pub flush_batch : List PersistJob → List (List PersistJob)
unfolding flush_from
flush_batch batch = flush_from (length batch) batch

-- In the outer loop, in the loop after done, and after it.
pub data Phase : Type 0 where
  serving : Phase
  draining : Phase
  returned : Phase

pub record Worker : Type 0 where
  pub channel : List PersistJob
  pub batch : List PersistJob
  -- what db.Exec was called with
  pub executed : List (List PersistJob)
  pub drops : ℕ
  pub phase : Phase

pub data Event : Type 0 where
  enqueues : PersistJob → Event
  receives : Event
  ticks : Event
  -- persistDone is closed, which no code does
  is_done : Event
  drains : Event

abbrev pub has_room : Worker → Bool
has_room w = ltb (length w.channel) channel_size

-- enqueuePersist: it does not wait.
unfoldable pub enqueue_persist : PersistJob → Worker → Worker
enqueue_persist job w =
    if has_room w
    then record {
      channel = w.channel ++ (job ∷ []);
      batch = w.batch;
      executed = w.executed;
      drops = w.drops;
      phase = w.phase;
    }
    else record {
      channel = w.channel;
      batch = w.batch;
      executed = w.executed;
      drops = w.drops + 1;
      phase = w.phase;
    }

abbrev pub flushed : List PersistJob → List PersistJob → Worker → Phase → Worker
flushed rest batch w next = record {
  channel = rest;
  batch = [];
  executed = w.executed ++ flush_batch batch;
  drops = w.drops;
  phase = next;
}

abbrev pub kept : List PersistJob → List PersistJob → Worker → Worker
kept rest batch w = record {
  channel = rest;
  batch = batch;
  executed = w.executed;
  drops = w.drops;
  phase = w.phase;
}

abbrev pub receive : Worker → List PersistJob → Worker
receive w [] = w
receive w (job ∷ rest) =
    let batch = w.batch ++ (job ∷ []) in
    if leb batch_size (length batch) then flushed rest batch w serving else kept rest batch w

abbrev pub drain : Worker → List PersistJob → Worker
drain w [] = if length w.batch == 0 then flushed [] [] w returned else flushed [] w.batch w returned
drain w (job ∷ rest) = kept rest (w.batch ++ (job ∷ [])) w

-- A step that is not enabled changes nothing.
abbrev pub persist_worker : Event → Phase → Worker → Worker
persist_worker (enqueues job) phase w = enqueue_persist job w
persist_worker receives serving w = receive w w.channel
persist_worker ticks serving w =
    if length w.batch == 0 then w else flushed w.channel w.batch w serving
persist_worker is_done serving w = record {
  channel = w.channel;
  batch = w.batch;
  executed = w.executed;
  drops = w.drops;
  phase = draining;
}
persist_worker drains draining w = drain w w.channel
persist_worker _ _ w = w

abbrev pub step : Event → Worker → Worker
step e w = persist_worker e w.phase w

abbrev pub run : List Event → Worker → Worker
run [] w = w
run (e ∷ es) w = run es (step e w)

abbrev pub start : Worker
start = record { channel = []; batch = []; executed = []; drops = 0; phase = serving }
