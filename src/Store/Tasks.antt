-- ===== src/Store/Tasks.antt =====
-- go-shared/delegated_tasks.go: each method is one SQL statement over the table `delegated_tasks`.
-- Where an ORDER BY leaves ties, the order of the table decides.
pub mod Claim
pub mod Insert
use shipmates_oss.Prelude.{
  ℕ, ◌+◌, zero, suc, String, ◌≡◌, Bool, true, false, not, ◌&&◌, ◌||◌, Option, none, some, List, [],
  ◌∷◌, map, ltb, leb, ◌==◌, if◌then◌else◌, str_eq, length, take, drop, select, exists, first,
}
use shipmates_oss.Prelude.Int.{ℤ, ltb_ℤ, leb_ℤ}
use shipmates_oss.Store.Types.{
  DelegatedTask, DelegatedTaskStatus, pending, claimed, running, done, failed, cancelled,
  is_pending, is_done, is_claimed, is_terminal,
}
use shipmates_oss.Store.World.{
  World, M, Result, ok, err, Error, unique_violation, statement, pure, generate_id, now, wrapping,
  ◌>>=◌, ◌>>◌,
}

-- Two values of a nullable column with a unique index clash if both are there and equal.
abbrev pub clash : Option String → Option String → Bool
clash (some a) (some b) = str_eq a b
clash _ _ = false

-- delegated_tasks_pkey, delegated_tasks_parent_session_id_key, delegated_tasks_child_session_id_key
abbrev pub violates : DelegatedTask → DelegatedTask → Bool
violates t u =
    str_eq t.id u.id
    || clash t.parent_session_id u.parent_session_id
    || clash t.child_session_id u.child_session_id

-- The row that CreateDelegatedTask inserts: `claimed_at` and `completed_at` are not among its columns.
abbrev pub new_row : DelegatedTask → String → ℕ → DelegatedTask
new_row t id at = record t { id = id; created_at = at; claimed_at = none; completed_at = none }

unfoldable pub insert_task : DelegatedTask → M (Unit {0})
insert_task row w =
    if exists (violates row) w.tasks
    then (err unique_violation, w)
    else (ok tt, record w { tasks = row ∷ w.tasks })

unfoldable pub create_delegated_task : DelegatedTask → M DelegatedTask
create_delegated_task t = do
  id ← generate_id
  at ← now
  wrapping "create delegated task" (statement (insert_task (new_row t id at)))
  pure (record t { id = id; created_at = at })

-- WHERE id = $1 AND user_id = $2
abbrev pub owned : String → String → DelegatedTask → Bool
owned id user_id t = str_eq t.id id && str_eq t.user_id user_id

abbrev pub find_task : String → String → List DelegatedTask → Option DelegatedTask
find_task id user_id tasks = first (select (owned id user_id) tasks)

unfoldable pub get_delegated_task : String → String → M (Option DelegatedTask)
get_delegated_task id user_id =
    wrapping "get delegated task" (statement (λ w. (ok (find_task id user_id w.tasks), w)))

unfoldable pub get_delegated_task_by_id : String → String → M (Option DelegatedTask)
get_delegated_task_by_id id user_id =
    wrapping "get delegated task by id" (statement (λ w. (ok (find_task id user_id w.tasks), w)))

abbrev pub same_status : DelegatedTaskStatus → DelegatedTaskStatus → Bool
same_status pending pending = true
same_status claimed claimed = true
same_status running running = true
same_status done done = true
same_status failed failed = true
same_status cancelled cancelled = true
same_status _ _ = false

abbrev pub has_status : Option DelegatedTaskStatus → DelegatedTask → Bool
has_status none t = true
has_status (some s) t = same_status t.status s

-- ORDER BY created_at DESC
abbrev pub insert_newest : DelegatedTask → List DelegatedTask → List DelegatedTask
insert_newest t [] = t ∷ []
insert_newest t (u ∷ us) =
    let rest = insert_newest t us in if leb u.created_at t.created_at then t ∷ u ∷ us else u ∷ rest

abbrev pub newest_first : List DelegatedTask → List DelegatedTask
newest_first [] = []
newest_first (t ∷ ts) = insert_newest t (newest_first ts)

abbrev pub page : ℕ → ℕ → List DelegatedTask → List DelegatedTask × ℕ
page limit offset rows = (take limit (drop offset rows), length rows)

-- The count comes with the rows, so it is lost with an empty page.
abbrev pub reported : List DelegatedTask × ℕ → List DelegatedTask × ℕ
reported ([], total) = ([], 0)
reported (t ∷ ts, total) = (t ∷ ts, total)

abbrev pub wanted : String → Option DelegatedTaskStatus → DelegatedTask → Bool
wanted user_id status t = str_eq t.user_id user_id && has_status status t

unfoldable pub list_delegated_tasks :
    String → Option DelegatedTaskStatus → ℕ → ℕ → M (List DelegatedTask × ℕ)
list_delegated_tasks user_id status limit offset = wrapping "list delegated tasks" (
    statement (λ w. (
      ok (reported (page limit offset (newest_first (select (wanted user_id status) w.tasks)))),
      w,
    )))

-- UPDATE … SET f WHERE p
abbrev pub update_where :
    (DelegatedTask → Bool)
    → (DelegatedTask → DelegatedTask)
    → List DelegatedTask
    → List DelegatedTask
update_where p f = map (λ t. if p t then f t else t)

-- claimed_at and completed_at are among the SET columns only for the statuses that they go with.
abbrev pub set_status : DelegatedTaskStatus → Option String → ℕ → DelegatedTask → DelegatedTask
set_status status error_message at t = record t {
  status = status;
  error_message = error_message;
  claimed_at = if is_claimed status then some at else t.claimed_at;
  completed_at = if is_terminal status then some at else t.completed_at;
}

abbrev pub update_tasks : (List DelegatedTask → List DelegatedTask) → M (Unit {0})
update_tasks f w = (ok tt, record w { tasks = f w.tasks })

unfoldable pub update_delegated_task_status :
    String → String → DelegatedTaskStatus → Option String → M (Unit {0})
update_delegated_task_status id user_id status error_message = do
  at ← now
  wrapping "update delegated task status" (
      statement
        (update_tasks (update_where (owned id user_id) (set_status status error_message at))))

-- The rows other than the updated one that already have the child session.
abbrev pub child_taken : String → String → String → List DelegatedTask → Bool
child_taken id user_id child =
    exists (λ t. not (owned id user_id t) && clash t.child_session_id (some child))

unfoldable pub update_delegated_task_child : String → String → String → M (Unit {0})
update_delegated_task_child id user_id child = wrapping "update delegated task child" (
    statement (λ w.
      if exists (owned id user_id) w.tasks && child_taken id user_id child w.tasks
      then (err unique_violation, w)
      else update_tasks
          (update_where (owned id user_id) (λ t. record t { child_session_id = some child })) w))

unfoldable pub update_delegated_task_cost : String → String → ℤ → M (Unit {0})
update_delegated_task_cost id user_id cost = wrapping "update delegated task cost" (
    statement (
      update_tasks
        (update_where (owned id user_id) (λ t. record t { actual_cost_usd = some cost }))))

unfoldable pub update_delegated_task_priority : String → ℤ → M (Unit {0})
update_delegated_task_priority id priority = wrapping "update delegated task priority" (
    statement
      (update_tasks (update_where (λ t. str_eq t.id id) (λ t. record t { priority = priority }))))

abbrev pub complete_row : ℕ → Option ℤ → DelegatedTask → DelegatedTask
complete_row at cost t = record t { status = done; completed_at = some at; actual_cost_usd = cost }

unfoldable pub complete_task : String → String → Option ℤ → M (Unit {0})
complete_task id user_id cost = do
  at ← now
  wrapping "complete task"
      (statement (update_tasks (update_where (owned id user_id) (complete_row at cost))))

-- A task waits for the blockers that are in the table and not done.
abbrev pub unfinished : List DelegatedTask → String → Bool
unfinished tasks blocker = exists (λ u. str_eq u.id blocker && not (is_done u.status)) tasks

abbrev pub is_blocked : List DelegatedTask → DelegatedTask → Bool
is_blocked tasks t = exists (unfinished tasks) t.blocked_by

abbrev pub claimable : List DelegatedTask → String → DelegatedTask → Bool
claimable tasks to_agent_id t =
    str_eq t.to_agent_id to_agent_id && is_pending t.status && not (is_blocked tasks t)

-- ORDER BY priority DESC, created_at ASC
abbrev pub precedes : DelegatedTask → DelegatedTask → Bool
precedes t u =
    ltb_ℤ u.priority t.priority
    || (leb_ℤ u.priority t.priority && leb_ℤ t.priority u.priority && ltb t.created_at u.created_at)

abbrev pub better : DelegatedTask → Option DelegatedTask → DelegatedTask
better t none = t
better t (some u) = if precedes u t then u else t

-- … LIMIT 1
unfoldable pub front : List DelegatedTask → Option DelegatedTask
front [] = none
front (t ∷ ts) = some (better t (front ts))

abbrev pub claim_row : ℕ → DelegatedTask → DelegatedTask
claim_row at t = record t { status = claimed; claimed_at = some at }

-- FOR UPDATE SKIP LOCKED passes over the rows that other transactions hold; their ids are `held`.
unfoldable pub candidates : List String → String → List DelegatedTask → List DelegatedTask
candidates held to_agent_id tasks =
    select (λ t. claimable tasks to_agent_id t && not (exists (str_eq t.id) held)) tasks

abbrev pub claim_found : Option DelegatedTask → M (Option DelegatedTask)
claim_found none w = (ok none, w)
claim_found (some t) w = (
  ok (some (claim_row w.clock t)),
  record w { tasks = update_where (λ u. str_eq u.id t.id) (claim_row w.clock) w.tasks },
)

unfoldable pub claim_next_task : List String → String → M (Option DelegatedTask)
claim_next_task held to_agent_id =
    wrapping "claim next task"
      (statement (λ w. claim_found (front (candidates held to_agent_id w.tasks)) w))
