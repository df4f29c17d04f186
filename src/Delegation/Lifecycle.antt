-- ===== src/Delegation/Lifecycle.antt =====
-- bot/delegation/delegation.go: a delegation is validated, recorded and closed.
pub mod Outcomes
pub mod Authorized
use Prim.Native.String.{String, len, slice}
use shipmates_oss.Prelude.{
  ℕ, Bool, true, false, not, ◌&&◌, ◌||◌, Option, none, some, List, [], ◌∷◌, ◌++◌, map, leb, ltb,
  if◌then◌else◌, str_eq, select, exists, count,
}
use shipmates_oss.Prelude.Int.{ℤ, pos}
use shipmates_oss.Store.Types.{DelegatedTask, DelegatedTaskStatus, Agent, Session}
use shipmates_oss.Store.World.{
  World, M, Result, ok, err, Error, message, statement, raise, pure, attempt, wrapping, ◌>>=◌, ◌>>◌,
}
use shipmates_oss.Store.Tasks.{
  get_delegated_task_by_id, list_delegated_tasks, update_delegated_task_status, complete_task,
}
use shipmates_oss.Store.Rows.{get_agent, get_session}
use shipmates_oss.Delegation.Cycle.{TaskForCycle, detect_cycles_in_blocked_by}
use shipmates_oss.Delegation.Validator.{
  AgentForValidation, ValidationResult, Reason, DelegationChainRow, validate_delegation,
  validate_delegation_depth,
}
use shipmates_oss.Delegation.Scheduler.{EnqueueTaskOptions, enqueue_task, resolve_dependencies}
use shipmates_oss.Delegation.Events.{LogDelegationOptions, log_delegation, truncate}

pub record DelegateOptions : Type 0 where
  pub from_session_id : String
  pub from_agent_id : String
  pub to_agent_id : String
  pub user_id : String
  pub description : String
  pub priority : Option ℤ
  pub blocked_by : List String
  pub max_cost_usd : Option ℤ
  pub context_mode : String

pub record DelegationResponse : Type 0 where
  pub task_id : String
  pub status : DelegatedTaskStatus
  pub to_agent_id : String
  pub description : String
  pub priority : ℤ

-- What Delegate takes from elsewhere: the order of rows that PostgreSQL chooses, the limit on a logged cost
-- in the unit of the costs, BuildDelegationContext (bot/delegation/context.go), which asks a language
-- model, and the text of a refusal.
pub record Environment : Type 0 where
  pub row_order : List DelegationChainRow → List DelegationChainRow
  pub most_cost : ℕ
  pub build_context : DelegateOptions → String → M String
  pub reason_text : Reason → String

abbrev pub or_fail : {A : Type 0} → Error → Option A → M A
or_fail e none = raise e
or_fail e (some a) = pure a

abbrev pub ensure : Bool → Error → M (Unit {0})
ensure true e = pure tt
ensure false e = raise e

abbrev pub for_validation : Agent → AgentForValidation
for_validation a = record {
  id = a.id;
  role = a.role;
  max_cost_per_task = a.max_cost_per_task;
  max_delegation_depth = a.max_delegation_depth;
  can_delegate_to = a.can_delegate_to;
}

abbrev pub tasks_for_cycle : List DelegatedTask → List TaskForCycle
tasks_for_cycle = map (λ (t : DelegatedTask). record { id = t.id; blocked_by = t.blocked_by })

-- session, err := db.GetSession(…); if err != nil || session == nil
abbrev pub session_or_fail : Result (Option Session) → M Session
session_or_fail (ok (some s)) = pure s
session_or_fail _ = raise (message "parent session not found")

module _ (env : Environment) where
  unfoldable pub check_session : DelegateOptions → Agent → M (Unit {0})
  check_session opts from = if str_eq opts.from_session_id "" then pure tt else do
    found ← attempt (get_session opts.from_session_id opts.user_id)
    session ← session_or_fail found
    ensure (str_eq session.user_id opts.user_id)
        (message "not authorized to delegate from this session")
    depth ← wrapping "validate delegation depth" (
        validate_delegation_depth env.row_order opts.from_session_id opts.user_id
          from.max_delegation_depth)
    ensure depth.allowed (message (env.reason_text depth.reason))

abbrev pub is_cyclic : Option Bool → Bool
is_cyclic (some true) = true
is_cyclic _ = false

unfoldable pub check_cycle : DelegateOptions → List String → M (Unit {0})
check_cycle opts [] = pure tt
check_cycle opts (b ∷ bs) = do
  pendings ←
      wrapping "list pending tasks"
        (list_delegated_tasks opts.user_id (some DelegatedTaskStatus.pending) 500 0)
  claimeds ←
      wrapping "list claimed tasks"
        (list_delegated_tasks opts.user_id (some DelegatedTaskStatus.claimed) 500 0)
  runnings ←
      wrapping "list running tasks"
        (list_delegated_tasks opts.user_id (some DelegatedTaskStatus.running) 500 0)
  ensure
      (not (
        is_cyclic (
          detect_cycles_in_blocked_by "new-task" (b ∷ bs)
            (tasks_for_cycle (pendings.0 ++ (claimeds.0 ++ runnings.0))))))
      (message "circular dependency detected in task dependencies. This would create a deadlock")

abbrev pub or_default : Option ℤ → ℤ → ℤ
or_default none d = d
or_default (some p) d = p

abbrev pub optional_id : String → Option String
optional_id id = if str_eq id "" then none else some id

abbrev pub id_or_empty : Option String → String
id_or_empty none = ""
id_or_empty (some id) = id

abbrev pub context_mode_or_summary : String → String
context_mode_or_summary mode = if str_eq mode "" then "summary" else mode

-- agent, err := db.GetAgent(…), with its two errors
unfoldable pub find_agent : String → String → String → String → M Agent
find_agent text missing id user_id = do
  found ← wrapping text (get_agent id user_id)
  or_fail (message missing) found

-- The end of Delegate, once nothing stands against the delegation.
unfoldable pub record_delegation : Environment → DelegateOptions → M DelegationResponse
record_delegation env opts = do
  context ←
      wrapping "build delegation context"
        (env.build_context opts (context_mode_or_summary opts.context_mode))
  task ← wrapping "enqueue task" (
      enqueue_task (record {
        user_id = opts.user_id;
        from_agent_id = opts.from_agent_id;
        to_agent_id = opts.to_agent_id;
        parent_session_id = optional_id opts.from_session_id;
        description = opts.description;
        priority = or_default opts.priority (pos 50);
        blocked_by = opts.blocked_by;
        context = context;
        max_cost_usd = opts.max_cost_usd;
      }))
  attempt (
      log_delegation env.most_cost (record {
        user_id = opts.user_id;
        from_session_id = opts.from_session_id;
        to_session_id = none;
        from_agent_id = opts.from_agent_id;
        to_agent_id = opts.to_agent_id;
        action = "delegated";
        reason = truncate 500 opts.description;
        cost_usd = none;
      }))
  pure (record {
    task_id = task.id;
    status = task.status;
    to_agent_id = opts.to_agent_id;
    description = opts.description;
    priority = task.priority;
  })

-- Delegate between two agents that are there.
unfoldable pub delegate_between :
    Environment → DelegateOptions → Agent → Agent → M DelegationResponse
delegate_between env opts from to = do
  ensure (str_eq from.user_id opts.user_id)
      (message "you don't have access to the delegating agent")
  ensure (str_eq to.user_id opts.user_id) (message "you don't have access to the target agent")
  let verdict =
      validate_delegation (for_validation from) (for_validation to) opts.description
        opts.max_cost_usd
  ensure verdict.allowed (message (env.reason_text verdict.reason))
  check_session env opts from
  check_cycle opts opts.blocked_by
  record_delegation env opts

unfoldable pub delegate : Environment → DelegateOptions → M DelegationResponse
delegate env opts = do
  from ← find_agent "get from agent" "delegating agent not found" opts.from_agent_id opts.user_id
  to ← find_agent "get to agent" "target agent not found" opts.to_agent_id opts.user_id
  delegate_between env opts from to

abbrev pub log_end : ℕ → DelegatedTask → String → String → Option ℤ → M (Unit {0})
log_end most task action reason cost = do
  attempt (
      log_delegation most (record {
        user_id = task.user_id;
        from_session_id = id_or_empty task.parent_session_id;
        to_session_id = task.child_session_id;
        from_agent_id = task.from_agent_id;
        to_agent_id = task.to_agent_id;
        action = action;
        reason = reason;
        cost_usd = cost;
      }))
  pure tt

abbrev pub complete_found : ℕ → String → String → Option ℤ → Option DelegatedTask → M (Unit {0})
complete_found most task_id user_id cost none = pure tt
complete_found most task_id user_id cost (some task) = do
  wrapping "complete task" (complete_task task_id user_id cost)
  wrapping "resolve dependencies" (resolve_dependencies task_id task.user_id)
  log_end most task "completed" "" cost

unfoldable pub on_task_complete : ℕ → String → String → Option ℤ → M (Unit {0})
on_task_complete most task_id user_id cost = do
  task ← wrapping "get task" (get_delegated_task_by_id task_id user_id)
  complete_found most task_id user_id cost task

abbrev pub fail_found : ℕ → String → String → String → Option DelegatedTask → M (Unit {0})
fail_found most task_id user_id text none = pure tt
fail_found most task_id user_id text (some task) = do
  wrapping "update task status"
      (update_delegated_task_status task_id user_id DelegatedTaskStatus.failed (some text))
  wrapping "resolve dependencies" (resolve_dependencies task_id task.user_id)
  log_end most task "failed" text none

unfoldable pub on_task_failed : ℕ → String → String → String → M (Unit {0})
on_task_failed most task_id user_id error_msg = do
  task ← wrapping "get task" (get_delegated_task_by_id task_id user_id)
  fail_found most task_id user_id (truncate 500 error_msg) task
