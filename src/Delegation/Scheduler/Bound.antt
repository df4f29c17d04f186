-- ===== src/Delegation/Scheduler/Bound.antt =====
-- The limit that EnqueueTask (bot/delegation/scheduler.go) keeps on a user's active tasks.
use shipmates_oss.Prelude.{
  ℕ, ◌≤◌, ◌≡◌, ap, inl, inr, String, false, List, ◌∷◌, leb, count, Bool-cases, str_eq→eq, str_eq,
  arith,
}
use shipmates_oss.Store.Types.{DelegatedTask}
use shipmates_oss.Store.World.{World, ok, statement_cases}
use shipmates_oss.Store.Tasks.{new_row, create_delegated_task}
use shipmates_oss.Store.Tasks.Insert.{create_delegated_task_cases}
use shipmates_oss.Delegation.Scheduler.{
  EnqueueTaskOptions, active_of, task_of, enqueue_task, max_tasks_per_user,
}

abbrev pub active_tasks : String → List DelegatedTask → ℕ
active_tasks user_id tasks = count (active_of user_id) tasks

module _ (opts : EnqueueTaskOptions) where
  grown :
      (id : String) (at : ℕ) (tasks : List DelegatedTask) (u : String)
      → active_tasks u tasks ≤ max_tasks_per_user
      → leb max_tasks_per_user (active_tasks opts.user_id tasks) ≡ false
      → active_tasks u (new_row (task_of opts) id at ∷ tasks) ≤ max_tasks_per_user
  grown id at tasks u h room = elim (Bool-cases (str_eq opts.user_id u)) [
    | inl e ↦
        let same : active_tasks opts.user_id tasks ≡ active_tasks u tasks =
          ap (λ x. active_tasks x tasks) (str_eq→eq opts.user_id u e) in
        rw e (ground arith)
    | inr e ↦ rw e (omega (arith, h))
  ]

  after_create :
      (w : World) (u : String)
      → active_tasks u w.tasks ≤ max_tasks_per_user
      → leb max_tasks_per_user (active_tasks opts.user_id w.tasks) ≡ false
      → active_tasks u (create_delegated_task (task_of opts) w).1.tasks ≤ max_tasks_per_user
  after_create w u h room = elim (create_delegated_task_cases (task_of opts) w) [
    | inl r ↦ rw r.2 h
    | inr a ↦ rw a.3 (grown a.0 a.1 w.tasks u h room)
  ]

-- Where a user has at most 100 active tasks, any call of EnqueueTask, by that user or another, leaves at most
-- 100, whether its statements run or fail.
pub enqueue_task_bounded :
    (opts : EnqueueTaskOptions) (w : World) (u : String)
    → active_tasks u w.tasks ≤ max_tasks_per_user
    → active_tasks u (enqueue_task opts w).1.tasks ≤ max_tasks_per_user
unfolding enqueue_task
enqueue_task_bounded opts w u h =
    elim (statement_cases (λ v. (ok (count (active_of opts.user_id) v.tasks), v)) w) [
      | inl (rest, e) ↦ rw e h
      | inr (rest, c, le, e) ↦
          elim (Bool-cases (leb max_tasks_per_user (active_tasks opts.user_id w.tasks))) [
            | inl full ↦ rw (e, full) h
            | inr room ↦
                rw (e, room) (after_create opts (record w { clock = c; turns = rest }) u h room)
          ]
    ]
