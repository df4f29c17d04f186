-- ===== src/Store/Tasks/Insert.antt =====
-- The two ways in which CreateDelegatedTask (go-shared/delegated_tasks.go) ends.
use shipmates_oss.Prelude.{ℕ, ◌≡◌, ◌⊎◌, inl, inr, String, false, ◌∷◌, exists, Bool-cases}
use shipmates_oss.Store.Types.{DelegatedTask}
use shipmates_oss.Store.World.{
  World, ok, err, Error, wrap, fault, unique_violation, statement_cases, next_id, other_ids,
}
use shipmates_oss.Store.Tasks.{create_delegated_task, insert_task, new_row, violates}

-- The table is as it was and the call fails, or the new row stands in front of a table in which
-- nothing clashes with it.
abbrev pub Refuses : DelegatedTask → World → Type 0
Refuses t w =
    (e : Error) × ((create_delegated_task t w).0 ≡ err e)
    × ((create_delegated_task t w).1.tasks ≡ w.tasks)

abbrev pub Adds : DelegatedTask → World → Type 0
Adds t w =
    (id : String) × (at : ℕ) × ((create_delegated_task t w).0
      ≡ ok (record t { id = id; created_at = at }))
    × ((create_delegated_task t w).1.tasks ≡ new_row t id at ∷ w.tasks)
    × (exists (violates (new_row t id at)) w.tasks ≡ false)

module _ (t : DelegatedTask) (w : World) where
  abbrev drawn : World
  drawn = record w { fresh_ids = other_ids w.fresh_ids }

  abbrev row : DelegatedTask
  row = new_row t (next_id w.fresh_ids) w.clock

  pub create_delegated_task_cases : Refuses t w ⊎ Adds t w
  unfolding create_delegated_task insert_task
  create_delegated_task_cases = elim (statement_cases (insert_task row) drawn) [
    | inl (rest, e) ↦ inl (wrap "create delegated task" fault, rw e, rw e)
    | inr (rest, c, le, e) ↦ elim (Bool-cases (exists (violates row) w.tasks)) [
      | inl v ↦ inl (wrap "create delegated task" unique_violation, rw (e, v), rw (e, v))
      | inr v ↦ inr (next_id w.fresh_ids, w.clock, rw (e, v), rw (e, v), v)
    ]
  ]
