-- ===== src/Delegation/Scheduler/Cancel.antt =====
-- What CancelTask of bot/delegation/scheduler.go leaves behind.
use shipmates_oss.Prelude.{◌≡◌, refl, ◌∙◌, String, true, Option, none, some}
use shipmates_oss.Store.Types.{DelegatedTask, DelegatedTaskStatus, is_active}
use shipmates_oss.Store.World.{
  World, M, ok, statement_tasks, wrap_result_ok, bind_ok, wrapping, ◌>>◌,
}
use shipmates_oss.Store.Tasks.{find_task, update_delegated_task_status, get_delegated_task_by_id}
use shipmates_oss.Delegation.Scheduler.{
  resolve_dependencies, cancel_task, cancel_found, cancel_child,
}
use shipmates_oss.Delegation.Scheduler.Closing.{
  IsOver, resolved-IsOver, with_task_found, found_owner, IsOver-owner, update_status_closes,
}

cancel_child_tasks : (o : Option String) (w : World) → (cancel_child o w).1.tasks ≡ w.tasks
cancel_child_tasks none w = refl
cancel_child_tasks (some child) w = statement_tasks _ w (λ v. refl)

cancel_child_ok : (o : Option String) (w : World) → (cancel_child o w).0 ≡ ok tt
cancel_child_ok none w = refl
cancel_child_ok (some child) w = refl

module _ (id user_id : String) (t : DelegatedTask) where
  abbrev marked : M (Unit {0})
  marked =
      wrapping "update task status"
        (update_delegated_task_status id user_id DelegatedTaskStatus.cancelled none)

  abbrev freed : M (Unit {0})
  freed = wrapping "resolve dependencies" (resolve_dependencies id t.user_id)

  abbrev closing : M (Unit {0})
  closing = marked >> (cancel_child t.child_session_id >> freed)

  closing-IsOver :
      (w : World)
      → t.user_id ≡ user_id
      → (closing w).0 ≡ ok tt
      → IsOver DelegatedTaskStatus.cancelled id user_id (closing w).1.tasks
  closing-IsOver w mine h =
      let after = cancel_child t.child_session_id >> freed in
      let v = (marked w).1 in
      let (x, hx, ex) = bind_ok marked (λ _. after) w h in
      let h2 : (after v).0 ≡ ok tt = rw ex at h in
      let (y, hy, ey) = bind_ok (cancel_child t.child_session_id) (λ _. freed) v h2 in
      let u = (cancel_child t.child_session_id v).1 in
      let h3 : (freed u).0 ≡ ok tt = rw ey at h2 in
      let marks =
        update_status_closes DelegatedTaskStatus.cancelled id user_id none w
          (wrap_result_ok _ _ hx) in
      rw (ex, ey)
        (IsOver-owner mine (
          resolved-IsOver DelegatedTaskStatus.cancelled id t.user_id u
            (rw (cancel_child_tasks t.child_session_id v, mine) marks) (wrap_result_ok _ _ h3)))

  cancel_active :
      (w : World) → is_active t.status ≡ true → cancel_found id user_id (some t) w ≡ closing w
  cancel_active w e = rw e

-- CancelTask, called on a task that is pending, claimed or running, closes it as cancelled where it returns, and
-- no pending task of the user waits for it any longer.
pub cancel_task_closes :
    (id user_id : String) (w : World) (t : DelegatedTask)
    → find_task id user_id w.tasks ≡ some t
    → is_active t.status ≡ true
    → (cancel_task id user_id w).0 ≡ ok tt
    → IsOver DelegatedTaskStatus.cancelled id user_id (cancel_task id user_id w).1.tasks
unfolding cancel_task
cancel_task_closes id user_id w t there active h =
    let mine = found_owner id user_id w.tasks there in
    let v = (get_delegated_task_by_id id user_id w).1 in
    let e =
      with_task_found id user_id (cancel_found id user_id) w t there h
      ∙ cancel_active id user_id t v active in
    rw e (closing-IsOver id user_id t v mine (rw e at h))
