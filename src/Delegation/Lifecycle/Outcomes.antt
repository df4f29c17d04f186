-- ===== src/Delegation/Lifecycle/Outcomes.antt =====
-- What OnTaskComplete and OnTaskFailed of bot/delegation/delegation.go leave behind.
use shipmates_oss.Prelude.{
  ℕ, ◌≡◌, refl, String, Bool, true, false, Option, none, some, if◌then◌else◌, All,
}
use shipmates_oss.Prelude.Int.{ℤ}
use shipmates_oss.Store.Types.{DelegatedTask, DelegatedTaskStatus, DelegationEvent}
use shipmates_oss.Store.World.{
  World, M, pure, other_ids, ok, statement_ok, statement_tasks, wrap_result_ok, bind_ok, wrapping,
  ◌>>=◌, ◌>>◌,
}
use shipmates_oss.Store.Tasks.{find_task, complete_task, complete_row, update_delegated_task_status}
use shipmates_oss.Delegation.Scheduler.{resolve_dependencies}
use shipmates_oss.Delegation.Scheduler.Closing.{
  IsOver, IsClosed, closes, resolved-IsOver, with_task_found, found_owner, IsOver-owner,
  update_status_closes,
}
use shipmates_oss.Delegation.Events.{
  LogDelegationOptions, log_delegation, event_of, truncate, cost_out_of_range,
}
use shipmates_oss.Store.Rows.{create_delegation_event}
use shipmates_oss.Delegation.Lifecycle.{
  on_task_complete, on_task_failed, complete_found, fail_found, log_end,
}

log_event_tasks :
    (c : Bool) (e : DelegationEvent) (w : World)
    → ((if c then pure tt else wrapping "create delegation event" (create_delegation_event e))
        w).1.tasks
      ≡ w.tasks
unfolding create_delegation_event
log_event_tasks true e w = refl
log_event_tasks false e w =
    statement_tasks _ (record w { fresh_ids = other_ids w.fresh_ids }) (λ v. refl)

pub log_delegation_tasks :
    (most : ℕ) (opts : LogDelegationOptions) (w : World)
    → (log_delegation most opts w).1.tasks ≡ w.tasks
unfolding log_delegation
log_delegation_tasks most opts w =
    log_event_tasks (cost_out_of_range most opts.cost_usd) (event_of opts) w

module _ (most : ℕ) (id user_id : String) where
  -- The end that both have: the row is updated, the dependants are freed, the end is logged.
  abbrev finish : M (Unit {0}) → DelegatedTask → String → String → Option ℤ → String → M (Unit {0})
  finish update task action reason cost text = do
    wrapping text update
    wrapping "resolve dependencies" (resolve_dependencies id task.user_id)
    log_end most task action reason cost

  finish-IsOver :
      (status : DelegatedTaskStatus) (update : M (Unit {0})) (task : DelegatedTask)
      (action reason text : String) (cost : Option ℤ) (w : World)
      → ((update w).0 ≡ ok tt → All (IsClosed status id task.user_id) (update w).1.tasks)
      → (finish update task action reason cost text w).0 ≡ ok tt
      → IsOver status id task.user_id (finish update task action reason cost text w).1.tasks
  finish-IsOver status update task action reason text cost w closes h =
      let v = (update w).1 in
      let freed : M (Unit {0}) =
        wrapping "resolve dependencies" (resolve_dependencies id task.user_id) in
      let logged : M (Unit {0}) = log_end most task action reason cost in
      let (u, hu, eu) = bind_ok (wrapping text update) (λ _. freed >>= λ _. logged) w h in
      let h2 : ((freed >>= λ _. logged) v).0 ≡ ok tt = rw eu at h in
      let (x, hx, ex) = bind_ok freed (λ _. logged) v h2 in
      let over =
        resolved-IsOver status id task.user_id v (closes (wrap_result_ok text _ hu))
          (wrap_result_ok _ _ hx) in
      rw (eu, ex, log_delegation_tasks most _ (freed v).1) over

complete_task_closes :
    (id user_id : String) (cost : Option ℤ) (w : World)
    → (complete_task id user_id cost w).0 ≡ ok tt
    → All (IsClosed DelegatedTaskStatus.done id user_id) (complete_task id user_id cost w).1.tasks
unfolding complete_task
complete_task_closes id user_id cost w h =
    let (rest, c, le, e) = statement_ok _ w (wrap_result_ok _ _ h) in
    rw e
      (closes DelegatedTaskStatus.done id user_id (complete_row w.clock cost) (λ t. refl) w.tasks)

-- OnTaskComplete, called on a task that the table has, closes it as done where it returns, and no pending
-- task of the user waits for it any longer.
pub on_task_complete_closes :
    (most : ℕ) (id user_id : String) (cost : Option ℤ) (w : World) (t : DelegatedTask)
    → find_task id user_id w.tasks ≡ some t
    → (on_task_complete most id user_id cost w).0 ≡ ok tt
    → IsOver DelegatedTaskStatus.done id user_id (on_task_complete most id user_id cost w).1.tasks
unfolding on_task_complete
on_task_complete_closes most id user_id cost w t there h =
    let mine = found_owner id user_id w.tasks there in
    let e = with_task_found id user_id (complete_found most id user_id cost) w t there h in
    rw e (
      IsOver-owner mine (
        finish-IsOver most id user_id DelegatedTaskStatus.done (complete_task id user_id cost) t
          "completed" "" "complete task" cost _
          (λ k. rw mine (complete_task_closes id user_id cost _ k)) (rw e at h)))

-- OnTaskFailed, called on a task that the table has, closes it as failed where it returns, and the tasks of the
-- user that waited for it wait no longer.
pub on_task_failed_closes :
    (most : ℕ) (id user_id error_msg : String) (w : World) (t : DelegatedTask)
    → find_task id user_id w.tasks ≡ some t
    → (on_task_failed most id user_id error_msg w).0 ≡ ok tt
    → IsOver DelegatedTaskStatus.failed id user_id
        (on_task_failed most id user_id error_msg w).1.tasks
unfolding on_task_failed
on_task_failed_closes most id user_id error_msg w t there h =
    let mine = found_owner id user_id w.tasks there in
    let text = truncate 500 error_msg in
    let e = with_task_found id user_id (fail_found most id user_id text) w t there h in
    rw e (
      IsOver-owner mine (
        finish-IsOver most id user_id DelegatedTaskStatus.failed
          (update_delegated_task_status id user_id DelegatedTaskStatus.failed (some text)) t
          "failed" text "update task status" none _
          (λ k.
            rw mine (update_status_closes DelegatedTaskStatus.failed id user_id (some text) _ k))
          (rw e at h)))
