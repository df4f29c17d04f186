-- ===== src/Delegation/Scheduler.antt =====
-- bot/delegation/scheduler.go: tasks enter the table, lose the dependencies that are over, and are
-- cancelled.
pub mod Effects
pub mod Bound
pub mod Closing
pub mod Cancel
use shipmates_oss.Prelude.{
  ℕ, String, Bool, true, false, not, ◌&&◌, Option, none, some, List, [], ◌∷◌, map, leb,
  if◌then◌else◌, str_eq, select, exists, count,
}
use shipmates_oss.Prelude.Int.{ℤ}
use shipmates_oss.Store.Types.{
  DelegatedTask, DelegatedTaskStatus, Session, SessionStatus, is_active, is_pending, is_cancellable,
}
use shipmates_oss.Store.World.{
  World, M, ok, err, task_limit_reached, statement, raise, pure, attempt, wrapping, ◌>>=◌, ◌>>◌,
}
use shipmates_oss.Store.Tasks.{
  create_delegated_task, get_delegated_task_by_id, update_delegated_task_status, update_tasks,
  update_where,
}

abbrev pub max_tasks_per_user : ℕ
max_tasks_per_user = 100

-- The context is JSON already: encoding it cannot fail for a value of its Go type.
pub record EnqueueTaskOptions : Type 0 where
  pub user_id : String
  pub from_agent_id : String
  pub to_agent_id : String
  pub parent_session_id : Option String
  pub description : String
  pub priority : ℤ
  pub blocked_by : List String
  pub context : String
  pub max_cost_usd : Option ℤ

abbrev pub active_of : String → DelegatedTask → Bool
active_of user_id t = str_eq t.user_id user_id && is_active t.status

abbrev pub task_of : EnqueueTaskOptions → DelegatedTask
task_of opts = record {
  id = "";
  user_id = opts.user_id;
  parent_session_id = opts.parent_session_id;
  child_session_id = none;
  from_agent_id = opts.from_agent_id;
  to_agent_id = opts.to_agent_id;
  description = opts.description;
  priority = opts.priority;
  status = DelegatedTaskStatus.pending;
  error_message = none;
  blocked_by = opts.blocked_by;
  context = opts.context;
  max_cost_usd = opts.max_cost_usd;
  actual_cost_usd = none;
  claimed_at = none;
  completed_at = none;
  created_at = 0;
}

abbrev pub count_active : String → M ℕ
count_active user_id = statement (λ w. (ok (count (active_of user_id) w.tasks), w))

unfoldable pub enqueue_task : EnqueueTaskOptions → M DelegatedTask
enqueue_task opts = do
  existing ← wrapping "count active tasks" (count_active opts.user_id)
  if leb max_tasks_per_user existing
      then raise (task_limit_reached existing)
      else wrapping "create delegated task" (create_delegated_task (task_of opts))

-- array_remove(blocked_by, $1)
abbrev pub array_remove : String → List String → List String
array_remove x = select (λ y. not (str_eq y x))

-- WHERE user_id = $2 AND status = 'pending' AND $1 = ANY(blocked_by)
abbrev pub waits_for : String → String → DelegatedTask → Bool
waits_for task_id user_id t =
    str_eq t.user_id user_id && (is_pending t.status && exists (λ b. str_eq b task_id) t.blocked_by)

abbrev pub resolve_row : String → DelegatedTask → DelegatedTask
resolve_row task_id t = record t { blocked_by = array_remove task_id t.blocked_by }

unfoldable pub resolve_dependencies : String → String → M (Unit {0})
resolve_dependencies completed_task_id user_id =
    wrapping "remove completed task from blocked_by arrays" (
      statement (
        update_tasks
          (update_where (waits_for completed_task_id user_id) (resolve_row completed_task_id))))

abbrev pub cancel_sessions : String → List Session → List Session
cancel_sessions child = map (λ (s : Session).
    if str_eq s.id child && is_cancellable s.status
    then record s { status = SessionStatus.cancelling }
    else s)

abbrev pub cancel_child : Option String → M (Unit {0})
cancel_child none = pure tt
cancel_child (some child) = do
  attempt (statement (λ w. (ok tt, record w { sessions = cancel_sessions child w.sessions })))
  pure tt

abbrev pub cancel_found : String → String → Option DelegatedTask → M (Unit {0})
cancel_found task_id user_id none = pure tt
cancel_found task_id user_id (some task) = if not (is_active task.status) then pure tt else do
  wrapping "update task status"
      (update_delegated_task_status task_id user_id DelegatedTaskStatus.cancelled none)
  cancel_child task.child_session_id
  wrapping "resolve dependencies" (resolve_dependencies task_id task.user_id)

unfoldable pub cancel_task : String → String → M (Unit {0})
cancel_task task_id user_id = do
  task ← wrapping "get task" (get_delegated_task_by_id task_id user_id)
  cancel_found task_id user_id task
