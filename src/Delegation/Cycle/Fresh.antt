-- ===== src/Delegation/Cycle/Fresh.antt =====
-- The check as Delegate makes it (bot/delegation/delegation.go), under an id that no task has yet.
use shipmates_oss.Prelude.{
  String, ◌≡◌, ◌≢◌, sym, subst, inl, inr, false, some, List, [], str_eq, In, Bool-cases, str_eq→eq,
}
use shipmates_oss.Delegation.Cycle.{
  dependencies, add_tasks, adjacency_of, TaskForCycle, detect_cycles_in_blocked_by,
}
use shipmates_oss.Delegation.Cycle.Correct.{Steps, one, more, detect_cycles_exact}

module _ (task_id : String) (blocked_by : List String) (existing : List TaskForCycle)
    (itself : ¬ In task_id blocked_by)
    (unknown : (n : String) → ¬ In task_id (dependencies (add_tasks [] existing) n)) where
  target_known :
      (a : String) → In task_id (dependencies (adjacency_of task_id blocked_by existing) a) → ⊥
  target_known a m = elim (Bool-cases (str_eq task_id a)) [
    | inl e ↦ itself (rw e at m)
    | inr e ↦ unknown a (rw e at m)
  ]

  Steps-ne : {a b : String} → Steps (adjacency_of task_id blocked_by existing) a b → b ≢ task_id
  Steps-ne {a} (one e) p =
      target_known a
        (subst (λ z. In z (dependencies (adjacency_of task_id blocked_by existing) a)) p e)
  Steps-ne (more {b = m} s e) p =
      target_known m
        (subst (λ z. In z (dependencies (adjacency_of task_id blocked_by existing) m)) p e)

  other_dependencies :
      (a b : String)
      → a ≢ task_id
      → In b (dependencies (adjacency_of task_id blocked_by existing) a)
      → In b (dependencies (add_tasks [] existing) a)
  other_dependencies a b new m = elim (Bool-cases (str_eq task_id a)) [
    | inl e ↦ absurd (new (sym (str_eq→eq _ _ e)))
    | inr e ↦ rw e at m
  ]

  -- What starts at another task stays among the existing tasks.
  Steps-existing :
      {a b : String}
      → Steps (adjacency_of task_id blocked_by existing) a b
      → a ≢ task_id
      → Steps (add_tasks [] existing) a b
  Steps-existing (one e) new = one (other_dependencies _ _ new e)
  Steps-existing (more s e) new =
      more (Steps-existing s new) (other_dependencies _ _ (Steps-ne s) e)

-- A task under an id that no task waits for, itself included, closes no cycle: where the existing
-- tasks have none, the check lets it pass.
pub fresh_task_passes :
    (task_id : String) (blocked_by : List String) (existing : List TaskForCycle)
    → ¬ In task_id blocked_by
    → ((n : String) → ¬ In task_id (dependencies (add_tasks [] existing) n))
    → ((n : String) → ¬ Steps (add_tasks [] existing) n n)
    → detect_cycles_in_blocked_by task_id blocked_by existing ≡ some false
fresh_task_passes task_id blocked_by existing itself unknown acyclic =
    elim (detect_cycles_exact task_id blocked_by existing) [
      | inl (e, c) ↦ absurd (
          acyclic c.node (
            Steps-existing task_id blocked_by existing itself unknown c.returns
              (Steps-ne task_id blocked_by existing itself unknown c.returns)))
      | inr (e, h) ↦ e
    ]
