-- ===== src/Tests/Scheduler.antt =====
-- Tasks that enter the table, end and free their dependants.
use shipmates_oss.Prelude.{◌≤◌, ◌≡◌, refl, none, [], ◌∷◌, arith}
use shipmates_oss.Prelude.Int.{pos}
use shipmates_oss.Store.Types.{DelegatedTaskStatus, pending, running}
use shipmates_oss.Store.World.{World, ok, statement}
use shipmates_oss.Store.Tasks.{
  get_delegated_task_by_id, complete_task, update_delegated_task_status,
}
use shipmates_oss.Store.Rows.{create_delegation_event}
use shipmates_oss.Delegation.Events.{log_delegation}
use shipmates_oss.Delegation.Scheduler.{
  EnqueueTaskOptions, enqueue_task, resolve_dependencies, cancel_task, max_tasks_per_user,
}
use shipmates_oss.Delegation.Scheduler.Closing.{IsOver}
use shipmates_oss.Delegation.Scheduler.Cancel.{cancel_task_closes}
use shipmates_oss.Delegation.Scheduler.Effects.{IsResolved, resolve_dependencies_resolves}
use shipmates_oss.Delegation.Scheduler.Bound.{active_tasks, enqueue_task_bounded}
use shipmates_oss.Delegation.Lifecycle.{on_task_complete, on_task_failed}
use shipmates_oss.Delegation.Lifecycle.Outcomes.{on_task_complete_closes, on_task_failed_closes}
use shipmates_oss.Tests.Tasks.{task, with_tasks}

-- t2 waits for t1 and t9.
abbrev two : World
two = with_tasks (task "t1" 50 1 running [] ∷ task "t2" 50 2 pending ("t1" ∷ "t9" ∷ []) ∷ [])

resolves : (resolve_dependencies "t1" "u" two).0 ≡ ok tt
unfolding resolve_dependencies statement
resolves = refl

resolve_dependencies_resolves_example :
    IsResolved "t1" "u" two.tasks (resolve_dependencies "t1" "u" two).1.tasks
resolve_dependencies_resolves_example = resolve_dependencies_resolves "t1" "u" two resolves

abbrev opts : EnqueueTaskOptions
opts = record {
  user_id = "u";
  from_agent_id = "lead";
  to_agent_id = "ann";
  parent_session_id = none;
  description = "work";
  priority = pos 50;
  blocked_by = [];
  context = "{}";
  max_cost_usd = none;
}

enqueue_task_bounded_example : active_tasks "u" (enqueue_task opts two).1.tasks ≤ max_tasks_per_user
enqueue_task_bounded_example = enqueue_task_bounded opts two "u" (omega arith)

completes : (on_task_complete 1000 "t1" "u" none two).0 ≡ ok tt
unfolding on_task_complete get_delegated_task_by_id complete_task resolve_dependencies
    log_delegation create_delegation_event statement
completes = refl

on_task_complete_closes_example :
    IsOver DelegatedTaskStatus.done "t1" "u" (on_task_complete 1000 "t1" "u" none two).1.tasks
on_task_complete_closes_example =
    on_task_complete_closes 1000 "t1" "u" none two (task "t1" 50 1 running []) refl completes

ends : (on_task_failed 1000 "t1" "u" "no network" two).0 ≡ ok tt
unfolding on_task_failed get_delegated_task_by_id update_delegated_task_status resolve_dependencies
    log_delegation create_delegation_event statement
ends = refl

on_task_failed_closes_example :
    IsOver DelegatedTaskStatus.failed "t1" "u"
      (on_task_failed 1000 "t1" "u" "no network" two).1.tasks
on_task_failed_closes_example =
    on_task_failed_closes 1000 "t1" "u" "no network" two (task "t1" 50 1 running []) refl ends

cancels : (cancel_task "t1" "u" two).0 ≡ ok tt
unfolding cancel_task get_delegated_task_by_id update_delegated_task_status resolve_dependencies
    statement
cancels = refl

cancel_task_closes_example :
    IsOver DelegatedTaskStatus.cancelled "t1" "u" (cancel_task "t1" "u" two).1.tasks
cancel_task_closes_example =
    cancel_task_closes "t1" "u" two (task "t1" 50 1 running []) refl refl cancels
