-- ===== src/Delegation/Scheduler/Closing.antt =====
-- How a task is closed: its row is updated, and ResolveDependencies (bot/delegation/scheduler.go) frees
-- the tasks that wait for it.
use shipmates_oss.Prelude.{
  ◌≡◌, inl, inr, refl, sym, ◌∙◌, ap, subst, String, Bool, true, false, Option, some, List, [], ◌∷◌,
  map, first, select, Bool-cases, if_cases, &&→both, str_eq→eq, str_eq, All,
}
use shipmates_oss.Store.Types.{DelegatedTask, DelegatedTaskStatus}
use shipmates_oss.Store.World.{World, M, ok, statement_ok, wrap_result_ok, bind_ok, wrapping, ◌>>=◌}
use shipmates_oss.Store.Tasks.{
  update_where, owned, find_task, get_delegated_task_by_id, update_delegated_task_status,
  set_status,
}
use shipmates_oss.Delegation.Scheduler.{waits_for, resolve_dependencies}
use shipmates_oss.Delegation.Scheduler.Effects.{apart_from_blockers, resolve_dependencies_resolves}

-- The task is closed with this status, and no pending task of its user waits for it.
pub record IsOver (status : DelegatedTaskStatus) (id user_id : String) (after : List DelegatedTask)
    : Type 0 where
  pub closed : All (λ t. owned id user_id t ≡ true → t.status ≡ status) after
  pub none_waits : All (λ t. waits_for id user_id t ≡ false) after

get_found :
    (id user_id : String) (w : World) (o : Option DelegatedTask)
    → (get_delegated_task_by_id id user_id w).0 ≡ ok o
    → (o ≡ find_task id user_id w.tasks)
      × ((get_delegated_task_by_id id user_id w).1.tasks ≡ w.tasks)
unfolding get_delegated_task_by_id
get_found id user_id w o h =
    let (rest, c, le, e) = statement_ok _ w (wrap_result_ok _ _ h) in
    let h' : ok (find_task id user_id w.tasks) ≡ ok o = rw e at h in (cc, rw e)

first-select :
    {A : Type 0} (p : A → Bool) (xs : List A) {a : A} → first (select p xs) ≡ some a → p a ≡ true
first-select p [] h = cc
first-select p (x ∷ xs) {a} h = elim (Bool-cases (p x)) [
  | inl e ↦ let h' : some x ≡ some a = rw e at h in let q : x ≡ a = cc in rw (ap p (sym q) ∙ e)
  | inr e ↦ first-select p xs (let h' : first (select p xs) ≡ some a = rw e at h in h')
]

-- The row of the task is closed.
abbrev pub IsClosed : DelegatedTaskStatus → String → String → DelegatedTask → Type 0
IsClosed status id user_id t = owned id user_id t ≡ true → t.status ≡ status

module _ (status : DelegatedTaskStatus) (id user_id : String) where
  pub closes :
      (f : DelegatedTask → DelegatedTask)
      → ((t : DelegatedTask) → (f t).status ≡ status)
      → (ts : List DelegatedTask)
      → All (IsClosed status id user_id) (update_where (owned id user_id) f ts)
  closes f h [] = tt
  closes f h (t ∷ ts) = (
    if_cases (IsClosed status id user_id) (owned id user_id t) (f t) t (λ e o. h t) (λ e o. cc),
    closes f h ts,
  )

  -- The blockers of a row say nothing about whether it is closed.
  with_blockers :
      (ts : List DelegatedTask)
      → All (IsClosed status id user_id) (map apart_from_blockers ts)
      → All (IsClosed status id user_id) ts
  with_blockers [] h = tt
  with_blockers (t ∷ ts) h = (h.0, with_blockers ts h.1)

  without_blockers :
      (ts : List DelegatedTask)
      → All (IsClosed status id user_id) ts
      → All (IsClosed status id user_id) (map apart_from_blockers ts)
  without_blockers [] h = tt
  without_blockers (t ∷ ts) h = (h.0, without_blockers ts h.1)

  pub resolved-IsOver :
      (w : World)
      → All (IsClosed status id user_id) w.tasks
      → (resolve_dependencies id user_id w).0 ≡ ok tt
      → IsOver status id user_id (resolve_dependencies id user_id w).1.tasks
  resolved-IsOver w h r =
      let res = resolve_dependencies_resolves id user_id w r in
      record {
        closed = with_blockers _ (
            subst (All (IsClosed status id user_id)) (sym res.same_rows)
              (without_blockers w.tasks h));
        none_waits = res.none_waits;
      }

-- The handlers read the task first.
abbrev pub with_task : String → String → (Option DelegatedTask → M (Unit {0})) → M (Unit {0})
with_task id user_id f = wrapping "get task" (get_delegated_task_by_id id user_id) >>= f

pub with_task_found :
    (id user_id : String) (f : Option DelegatedTask → M (Unit {0})) (w : World) (t : DelegatedTask)
    → find_task id user_id w.tasks ≡ some t
    → (with_task id user_id f w).0 ≡ ok tt
    → with_task id user_id f w ≡ f (some t) (get_delegated_task_by_id id user_id w).1
with_task_found id user_id f w t there h =
    let (o, ho, eo) = bind_ok (wrapping "get task" (get_delegated_task_by_id id user_id)) f w h in
    let (found, same) = get_found id user_id w o (wrap_result_ok _ _ ho) in
    eo ∙ ap (λ x. f x (get_delegated_task_by_id id user_id w).1) (found ∙ there)

pub found_owner :
    (id user_id : String) (ts : List DelegatedTask) {t : DelegatedTask}
    → find_task id user_id ts ≡ some t
    → t.user_id ≡ user_id
found_owner id user_id ts {t} h =
    str_eq→eq _ _ (&&→both (str_eq t.id id) _ (first-select (owned id user_id) ts h)).1

pub IsOver-owner :
    {status : DelegatedTaskStatus} {id a b : String} {ts : List DelegatedTask}
    → a ≡ b
    → IsOver status id a ts
    → IsOver status id b ts
IsOver-owner {status} {id} {a} {b} {ts} e h = subst (λ u. IsOver status id u ts) e h

pub update_status_closes :
    (status : DelegatedTaskStatus) (id user_id : String) (text : Option String) (w : World)
    → (update_delegated_task_status id user_id status text w).0 ≡ ok tt
    → All
        (IsClosed status id user_id)
        (update_delegated_task_status id user_id status text w).1.tasks
unfolding update_delegated_task_status
update_status_closes status id user_id text w h =
    let (rest, c, le, e) = statement_ok _ w (wrap_result_ok _ _ h) in
    rw e (closes status id user_id (set_status status text w.clock) (λ t. refl) w.tasks)
