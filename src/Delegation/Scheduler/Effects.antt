-- ===== src/Delegation/Scheduler/Effects.antt =====
-- What EnqueueTask, ResolveDependencies and CancelTask of bot/delegation/scheduler.go leave behind.
use shipmates_oss.Prelude.{
  ◌≡◌, refl, inl, inr, String, Bool, false, List, [], ◌∷◌, map, select, not, ◌&&◌, true,
  if◌then◌else◌, str_eq, exists, Bool-cases, if_cases, All, All-imp, arith,
}
use shipmates_oss.Store.Types.{DelegatedTask, is_pending}
use shipmates_oss.Store.World.{World, ok, statement_ok, wrap_result_ok}
use shipmates_oss.Delegation.Scheduler.{array_remove, waits_for, resolve_row, resolve_dependencies}

-- The row without what it waits for.
abbrev pub apart_from_blockers : DelegatedTask → DelegatedTask
apart_from_blockers t = record t { blocked_by = [] }

-- What a row waits for besides one task, in order.
abbrev pub other_blockers : String → DelegatedTask → List String
other_blockers id t = select (λ b. not (str_eq b id)) t.blocked_by

-- A pending row of the user.
abbrev pub is_pending_of : String → DelegatedTask → Bool
is_pending_of user_id t = str_eq t.user_id user_id && is_pending t.status

-- `after` is the table `before` once nothing pending of the user waits for `id`: row for row only what a row waits for
-- differs, that only by `id`, and that only in a pending row of the user.
pub record IsResolved (id user_id : String) (before after : List DelegatedTask) : Type 0 where
  pub none_waits : All (λ t. waits_for id user_id t ≡ false) after
  pub none_blocked :
      All (λ t. (is_pending_of user_id t && exists (λ b. str_eq b id) t.blocked_by) ≡ false) after
  pub same_rows : map apart_from_blockers after ≡ map apart_from_blockers before
  pub same_blockers : map (other_blockers id) after ≡ map (other_blockers id) before
  pub same_others :
      select (λ t. not (is_pending_of user_id t)) after
      ≡ select (λ t. not (is_pending_of user_id t)) before

removed_absent :
    (x : String) (bs : List String) → exists (λ b. str_eq b x) (array_remove x bs) ≡ false
removed_absent x [] = refl
removed_absent x (b ∷ bs) = elim (Bool-cases (str_eq b x)) [
  | inl e ↦ rw (e, removed_absent x bs)
  | inr e ↦ rw (e, removed_absent x bs, e)
]

removed_others :
    (x : String) (bs : List String)
    → select (λ b. not (str_eq b x)) (array_remove x bs) ≡ select (λ b. not (str_eq b x)) bs
removed_others x [] = refl
removed_others x (b ∷ bs) = elim (Bool-cases (str_eq b x)) [
  | inl e ↦ rw (e, removed_others x bs) refl
  | inr e ↦ rw (e, e, removed_others x bs) refl
]

and_regroup : (a b c : Bool) → (a && (b && c)) ≡ false → ((a && b) && c) ≡ false
and_regroup true b c h = h
and_regroup false b c h = h

module _ (id user_id : String) where
  abbrev resolve : DelegatedTask → DelegatedTask
  resolve t = if waits_for id user_id t then resolve_row id t else t

  resolve_waits : (t : DelegatedTask) → waits_for id user_id (resolve t) ≡ false
  resolve_waits t =
      if_cases (λ u. waits_for id user_id u ≡ false) (waits_for id user_id t) _ t
        (λ e. rw (removed_absent id t.blocked_by) (ground arith)) (λ e. e)

  resolve_apart : (t : DelegatedTask) → apart_from_blockers (resolve t) ≡ apart_from_blockers t
  resolve_apart t =
      if_cases (λ u. apart_from_blockers u ≡ apart_from_blockers t) (waits_for id user_id t) _ t
        (λ e. refl) (λ e. refl)

  resolve_others : (t : DelegatedTask) → other_blockers id (resolve t) ≡ other_blockers id t
  resolve_others t =
      if_cases (λ u. other_blockers id u ≡ other_blockers id t) (waits_for id user_id t) _ t
        (λ e. removed_others id t.blocked_by) (λ e. refl)

  resolve_pending :
      (t : DelegatedTask) → is_pending_of user_id (resolve t) ≡ is_pending_of user_id t
  resolve_pending t =
      if_cases (λ u. is_pending_of user_id u ≡ is_pending_of user_id t) (waits_for id user_id t) _ t
        (λ e. refl) (λ e. refl)

  -- A row that is not pending, or not of the user, stays as it is.
  resolve_kept : (t : DelegatedTask) → is_pending_of user_id t ≡ false → resolve t ≡ t
  resolve_kept t h = let e : waits_for id user_id t ≡ false = waits_pending t h in rw e refl
    where
      waits_pending :
          (u : DelegatedTask) → is_pending_of user_id u ≡ false → waits_for id user_id u ≡ false
      waits_pending u k = apart (str_eq u.user_id user_id) (is_pending u.status) _ k
        where
          apart : (a b d : Bool) → (a && b) ≡ false → (a && (b && d)) ≡ false
          apart true true d k = cc
          apart true false d k = refl
          apart false b d k = refl

  select-resolve :
      (ts : List DelegatedTask)
      → select (λ t. not (is_pending_of user_id t)) (map resolve ts)
        ≡ select (λ t. not (is_pending_of user_id t)) ts
  select-resolve [] = refl
  select-resolve (t ∷ ts) = elim (Bool-cases (is_pending_of user_id t)) [
    | inl e ↦ rw (resolve_pending t, e) (select-resolve ts)
    | inr e ↦ rw (resolve_kept t e, e, select-resolve ts) refl
  ]

  map-resolve_None :
      (ts : List DelegatedTask) → All (λ t. waits_for id user_id t ≡ false) (map resolve ts)
  map-resolve_None [] = tt
  map-resolve_None (t ∷ ts) = (resolve_waits t, map-resolve_None ts)

  map-resolve_same :
      {A : Type 0} (f : DelegatedTask → A)
      → ((t : DelegatedTask) → f (resolve t) ≡ f t)
      → (ts : List DelegatedTask) → map f (map resolve ts) ≡ map f ts
  map-resolve_same f h [] = refl
  map-resolve_same f h (t ∷ ts) = rw (h t, map-resolve_same f h ts)

  pub map-resolve-IsResolved : (ts : List DelegatedTask) → IsResolved id user_id ts (map resolve ts)
  map-resolve-IsResolved ts = record {
    none_waits = map-resolve_None ts;
    none_blocked =
        All-imp (λ t. waits_for id user_id t ≡ false)
          (λ t. (is_pending_of user_id t && exists (λ b. str_eq b id) t.blocked_by) ≡ false)
          (map resolve ts) (λ t h. and_regroup (str_eq t.user_id user_id) (is_pending t.status) _ h)
          (map-resolve_None ts);
    same_rows = map-resolve_same apart_from_blockers resolve_apart ts;
    same_blockers = map-resolve_same (other_blockers id) resolve_others ts;
    same_others = select-resolve ts;
  }

-- ResolveDependencies, where it returns, leaves no pending task of the user waiting for the task that is
-- over. Row for row it changes nothing but what a pending task of the user waits for, and there it takes out that
-- task only and keeps the others in order.
pub resolve_dependencies_resolves :
    (id user_id : String) (w : World)
    → (resolve_dependencies id user_id w).0 ≡ ok tt
    → IsResolved id user_id w.tasks (resolve_dependencies id user_id w).1.tasks
unfolding resolve_dependencies
resolve_dependencies_resolves id user_id w h =
    let (rest, c, le, e) = statement_ok _ w (wrap_result_ok _ _ h) in
    rw e (map-resolve-IsResolved id user_id w.tasks)
