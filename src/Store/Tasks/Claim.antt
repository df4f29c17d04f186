-- ===== src/Store/Tasks/Claim.antt =====
-- What ClaimNextTask (go-shared/delegated_tasks.go) claims: the order on the candidates, and the
-- effect of a claim on the table.
use shipmates_oss.Prelude.{
  String, ◌≡◌, inl, inr, refl, subst, true, false, not, ◌&&◌, Option, none, some, List, [], ◌∷◌,
  arith, All, All-In, All-imp, In, In-select, select-In, exists, str_eq, if◌then◌else◌, Bool-cases,
  Option-cases, str_eq_refl, str_eq→eq, eq_iff, &&→both, exists-In, map-In, ◌≢◌,
}
use shipmates_oss.Store.Types.{DelegatedTask, pending, done, is_done}
use shipmates_oss.Store.World.{World, ok, statement, statement_ok, wrap_result_ok, M}
use shipmates_oss.Store.Tasks.{
  precedes, front, candidates, claimable, is_blocked, unfinished, claim_row, claim_found,
  claim_next_task, update_where,
}

-- Nothing precedes a task that precedes it in turn.
precedes_asym : (t u : DelegatedTask) → precedes t u ≡ true → precedes u t ≡ false
precedes_asym t u h = ground arith

precedes_irrefl : (t : DelegatedTask) → precedes t t ≡ false
precedes_irrefl t = ground arith

abbrev pub NoneBefore : DelegatedTask → List DelegatedTask → Type 0
NoneBefore t = All (λ u. precedes u t ≡ false)

-- Being preceded by nothing carries over to a task that precedes.
precedes_trans :
    (t u v : DelegatedTask) → precedes v u ≡ false → precedes u t ≡ false → precedes v t ≡ false
precedes_trans t u v h k = ground arith

pub front-In : (ts : List DelegatedTask) (t : DelegatedTask) → front ts ≡ some t → In t ts
unfolding front
front-In [] t h = cc
front-In (x ∷ xs) t h = elim (Option-cases (front xs)) [
  | inl e ↦ inl (ground arith)
  | inr (u, e) ↦ elim (Bool-cases (precedes u x)) [
    | inl p ↦ inr (front-In xs t (ground arith))
    | inr p ↦ inl (ground arith)
  ]
]

front-none : (ts : List DelegatedTask) → front ts ≡ none → ts ≡ []
unfolding front
front-none [] h = refl
front-none (x ∷ xs) h = cc

pub front_first :
    (ts : List DelegatedTask) (t : DelegatedTask) → front ts ≡ some t → NoneBefore t ts
unfolding front
front_first [] t h = tt
front_first (x ∷ xs) t h = elim (Option-cases (front xs)) [
  | inl e ↦
      let e' : x ≡ t = ground arith in
      rw (front-none xs e) (subst (λ z. NoneBefore z (x ∷ [])) e' (precedes_irrefl x, tt))
  | inr (u, e) ↦ elim (Bool-cases (precedes u x)) [
    | inl p ↦
        let e' : u ≡ t = ground arith in
        subst (λ z. NoneBefore z (x ∷ xs)) e' (precedes_asym u x p, front_first xs u e)
    | inr p ↦
        let e' : x ≡ t = ground arith in
        subst (λ z. NoneBefore z (x ∷ xs)) e'
          (precedes_irrefl x, All-imp _ _ xs (λ v q. precedes_trans x u v q p) (front_first xs u e))
  ]
]

-- The same as a claim on a table: the row that is returned, and the table after it.
claim_found_ok :
    (o : Option DelegatedTask) (v : World) (t' : DelegatedTask)
    → (claim_found o v).0 ≡ ok (some t')
    → (t : DelegatedTask) × (o ≡ some t)
      × (t' ≡ claim_row v.clock t)
      × ((claim_found o v).1.tasks
          ≡ update_where (λ u. str_eq u.id t.id) (claim_row v.clock) v.tasks)
      × ((claim_found o v).1.clock ≡ v.clock)
claim_found_ok none v t' h = cc
claim_found_ok (some t) v t' h = (t, refl, cc, refl, refl)

claim_found-none :
    (o : Option DelegatedTask) (v : World)
    → (claim_found o v).0 ≡ ok none
    → (o ≡ none) × ((claim_found o v).1.tasks ≡ v.tasks)
claim_found-none none v h = (refl, refl)
claim_found-none (some t) v h = absurd (cc)

abbrev claim_statement : List String → String → M (Option DelegatedTask)
claim_statement held agent w = claim_found (front (candidates held agent w.tasks)) w

-- What ran in the end: the row that was claimed, and when.
claim_ran :
    (held : List String) (agent : String) (w : World) (t' : DelegatedTask)
    → (claim_next_task held agent w).0 ≡ ok (some t')
    → (t : DelegatedTask) × (front (candidates held agent w.tasks) ≡ some t)
      × (t' ≡ claim_row (claim_next_task held agent w).1.clock t)
      × ((claim_next_task held agent w).1.tasks
          ≡ update_where
              (λ u. str_eq u.id t.id)
              (claim_row (claim_next_task held agent w).1.clock)
              w.tasks)
unfolding claim_next_task
claim_ran held agent w t' h =
    let h' = wrap_result_ok "claim next task" (statement (claim_statement held agent) w).0 h in
    let (rest, c, le, e) = statement_ok (claim_statement held agent) w h' in
    let (t, f, p, q, k) =
      claim_found_ok (front (candidates held agent w.tasks)) (record w { turns = rest; clock = c })
        t' (rw e at h') in
    rw e (t, f, rw k p, rw k q)

-- A candidate is a claimable row that no other transaction holds.
candidates-In :
    (held : List String) (agent : String) (tasks : List DelegatedTask) (u : DelegatedTask)
    → In u tasks
    → claimable tasks agent u ≡ true
    → exists (str_eq u.id) held ≡ false
    → In u (candidates held agent tasks)
unfolding candidates
candidates-In held agent tasks u m h k = In-select _ tasks m (rw (h, k))

In-candidates :
    (held : List String) (agent : String) (tasks : List DelegatedTask) (t : DelegatedTask)
    → In t (candidates held agent tasks)
    → In t tasks × (claimable tasks agent t ≡ true)
unfolding candidates
In-candidates held agent tasks t m =
    let (here, test) = select-In _ tasks m in (here, (&&→both _ _ test).0)

-- What the three conjuncts of the WHERE clause say.
claimable_facts :
    (tasks : List DelegatedTask) (agent : String) (t : DelegatedTask)
    → claimable tasks agent t ≡ true
    → (t.to_agent_id ≡ agent) × (t.status ≡ pending) × (is_blocked tasks t ≡ false)
claimable_facts tasks agent t h = (str_eq→eq _ _ (ground arith), ground arith, ground arith)

unblocked_done :
    (tasks : List DelegatedTask) (t u : DelegatedTask)
    → is_blocked tasks t ≡ false
    → In u tasks
    → In u.id t.blocked_by
    → u.status ≡ done
unblocked_done tasks t u h m b = elim (Bool-cases (is_done u.status)) [
  | inl e ↦ ground arith
  | inr e ↦
      let waits = exists-In (unfinished tasks) t.blocked_by b (
        exists-In (λ v. str_eq v.id u.id && not (is_done v.status)) tasks m
          (rw (str_eq_refl u.id, e))) in
      cc
]

-- `t'` is the row `t` of a pending task of the agent, all of whose blockers in the table are done, with
-- the status claimed and the time of the statement; nothing that was claimable and not held by
-- another transaction precedes it; and in the table just the row with its id is updated.
abbrev pub IsClaimOf : DelegatedTask → DelegatedTask → List String → String → World → Type 0
IsClaimOf t t' held agent w =
    let w' = (claim_next_task held agent w).1 in
    In t w.tasks
    × (t.to_agent_id ≡ agent)
    × (t.status ≡ pending)
    × ((u : DelegatedTask) → In u w.tasks → In u.id t.blocked_by → u.status ≡ done)
    × ((u : DelegatedTask)
        → In u w.tasks
        → claimable w.tasks agent u ≡ true
        → exists (str_eq u.id) held ≡ false
        → precedes u t ≡ false)
    × (t' ≡ claim_row w'.clock t)
    × (w'.tasks ≡ update_where (λ u. str_eq u.id t.id) (claim_row w'.clock) w.tasks)

-- A claim that returns a task returns the first claimable row of the agent: pending, with all its
-- blockers in the table done, and preceded (higher priority, or the same and older) by no claimable
-- row that other transactions leave free; and it updates just the rows with that id.
pub claim_takes_first :
    (held : List String) (agent : String) (w : World) (t' : DelegatedTask)
    → (claim_next_task held agent w).0 ≡ ok (some t')
    → (t : DelegatedTask) × IsClaimOf t t' held agent w
claim_takes_first held agent w t' h =
    let (t, f, p, q) = claim_ran held agent w t' h in
    let (m, k) = In-candidates held agent w.tasks t (front-In _ t f) in
    let (ours, waiting, free) = claimable_facts w.tasks agent t k in
    (
      t,
      (
        m,
        ours,
        waiting,
        λ u mu b. unblocked_done w.tasks t u free mu b,
        λ u mu c n.
            All-In (λ v. precedes v t ≡ false) _ (front_first _ t f)
              (candidates-In held agent w.tasks u mu c n),
        p,
        q,
      ),
    )

-- A claim that returns no task found every claimable task of the agent held by another transaction,
-- and left the table as it was.
pub claim_none_left :
    (held : List String) (agent : String) (w : World)
    → (claim_next_task held agent w).0 ≡ ok none
    → ((u : DelegatedTask)
        → In u w.tasks
        → claimable w.tasks agent u ≡ true
        → exists (str_eq u.id) held ≡ true)
      × ((claim_next_task held agent w).1.tasks ≡ w.tasks)
unfolding claim_next_task
claim_none_left held agent w h =
    let h' = wrap_result_ok "claim next task" (statement (claim_statement held agent) w).0 h in
    let (rest, c, le, e) = statement_ok (claim_statement held agent) w h' in
    let (f, q) =
      claim_found-none (front (candidates held agent w.tasks))
        (record w { turns = rest; clock = c }) (rw e at h') in
    (
      λ u m k. elim (Bool-cases (exists (str_eq u.id) held)) [
        | inl y ↦ y
        | inr n ↦
            elim (subst (In u) (front-none _ f) (candidates-In held agent w.tasks u m k n)) [ ]
      ],
      rw e q,
    )

-- Two claims in a row never return the same task, whichever agents make them.
pub claim_exclusive :
    (held held' : List String) (agent agent' : String) (w : World) (t' u' : DelegatedTask)
    → (claim_next_task held agent w).0 ≡ ok (some t')
    → (claim_next_task held' agent' (claim_next_task held agent w).1).0 ≡ ok (some u')
    → u'.id ≢ t'.id
claim_exclusive held held' agent agent' w t' u' h k same =
    let w' = (claim_next_task held agent w).1 in
    let (t, c) = claim_takes_first held agent w t' h in
    let (u, d) = claim_takes_first held' agent' w' u' k in
    let (v, mv, ev) =
      map-In (λ (z : DelegatedTask). if str_eq z.id t.id then claim_row w'.clock z else z) w.tasks
        (rw c.6 at d.0) in
    ground (arith, eq_iff v.id t.id, c.5, d.5, d.2)
