-- ===== src/Delegation/Validator/Depth.antt =====
-- The depth check of ValidateDelegationDepth (bot/delegation/validator.go). The set `visited` starts with
-- the parent session, and the first row of the chain has that session as its child.
use shipmates_oss.Prelude.{
  ℕ, zero, suc, String, ◌≡◌, ◌≢◌, ◌⊎◌, inl, inr, refl, sym, ap, subst, true, false, Option, none,
  some, List, [], ◌∷◌, map, arith, str_eq, exists, In, In-select, select-In, str_eq_refl, str_eq→eq,
  str_eq_ne, &&→both,
}
use shipmates_oss.Prelude.Int.{ℤ}
use shipmates_oss.Store.Types.{DelegatedTask, Session}
use shipmates_oss.Store.World.{World, statement, ok}
use shipmates_oss.Store.Rows.{get_session, find_session}
use shipmates_oss.Prelude.Bytes.{codes}
use shipmates_oss.Delegation.Validator.{
  DelegationChainRow, allow, refuse, circular_delegation, revisits, judge, chain, chain_row,
  children_of, max_depth_queries, validate_delegation_depth, is_session_id, is_zero, is_some_of,
  or_empty,
}

-- Wherever it stands, a row whose child was visited before is found.
revisits-In :
    (visited : List String) (rs : List DelegationChainRow) (r : DelegationChainRow)
    → In r rs
    → str_eq r.child_session_id "" ≡ false
    → exists (λ v. str_eq v r.child_session_id) visited ≡ true
    → revisits visited rs ≡ true
unfolding revisits
revisits-In visited [] r m e h = elim m [ ]
revisits-In visited (x ∷ xs) r (inl p) e h =
    let ex = subst (λ z. str_eq z.child_session_id "" ≡ false) p e in
    let hx = subst (λ z. exists (λ v. str_eq v z.child_session_id) visited ≡ true) p h in
    rw (ex, hx)
revisits-In visited (x ∷ xs) r (inr m) e h =
    let deeper = revisits-In (x.child_session_id ∷ visited) xs r m e (rw h (ground arith)) in
    let rest = revisits-In visited xs r m e h in ground arith

chain_empty :
    (depth : ℕ) (tasks : List DelegatedTask) (user_id : String) → chain depth tasks user_id [] ≡ []
unfolding chain
chain_empty zero tasks user_id = refl
chain_empty (suc depth) tasks user_id = chain_empty depth tasks user_id

no_members : (rs : List DelegationChainRow) → ((r : DelegationChainRow) → ¬ In r rs) → rs ≡ []
no_members [] h = refl
no_members (r ∷ rs) h = absurd (h r (inl refl))

judge_revisit :
    (p : String) (d : ℤ) (rs : List DelegationChainRow) (r : DelegationChainRow)
    → In r rs
    → r.child_session_id ≡ p
    → p ≢ ""
    → judge p d rs ≡ refuse circular_delegation
judge_revisit p d [] r m e h = elim m [ ]
judge_revisit p d (x ∷ xs) r m e h =
    let found =
      revisits-In (p ∷ []) (x ∷ xs) r m (rw e (str_eq_ne p "" h)) (rw (e, str_eq_refl p) refl) in
    rw found

-- The check on a chain that was read, from the first level of the chain.
module _ (order : List DelegationChainRow → List DelegationChainRow)
    (onto : (rows : List DelegationChainRow) (r : DelegationChainRow)
      → In r rows
      → In r (order rows))
    (only : (rows : List DelegationChainRow) (r : DelegationChainRow)
      → In r (order rows)
      → In r rows)
    (p user_id : String) (d : ℤ) (tasks : List DelegatedTask) (nonempty : p ≢ "") where
  child_is :
      (t : DelegatedTask) → In t (children_of tasks user_id p) → (chain_row t).child_session_id ≡ p
  child_is t m = of_column t.child_session_id (&&→both _ _ (select-In _ tasks m).1).0
    where
      of_column : (c : Option String) → is_some_of c p ≡ true → or_empty c ≡ p
      of_column none h = cc
      of_column (some c) h = str_eq→eq c p h

  rows_of : List DelegatedTask → List DelegationChainRow
  rows_of level = order (map chain_row (chain max_depth_queries tasks user_id level))

  judged :
      (level : List DelegatedTask)
      → level ≡ children_of tasks user_id p
      → ((judge p d (rows_of level) ≡ refuse circular_delegation)
          × ((t : DelegatedTask) × In t (children_of tasks user_id p)))
        ⊎ ((judge p d (rows_of level) ≡ allow) × (children_of tasks user_id p ≡ []))
  unfolding rows_of
  judged [] e =
      let none : rows_of [] ≡ [] = no_members (rows_of []) (λ r m.
        elim (subst (In r) (ap (map chain_row) (chain_empty max_depth_queries tasks user_id))
          (only _ r m)) [ ]) in
      inr (rw none refl, sym e)
  judged (t ∷ ts) e =
      let m : In t (children_of tasks user_id p) = subst (In t) e (inl refl) in
      inl (
        judge_revisit p d (rows_of (t ∷ ts)) (chain_row t)
            (onto _ (chain_row t) (unfold chain in inl refl)) (child_is t m) nonempty,
        (t, m),
      )

is_session_id-ne : (p : String) → is_session_id (codes p) ≡ true → p ≢ ""
unfolding is_session_id
is_session_id-ne p h e =
    let h' : false ≡ true = subst (λ z. is_session_id (codes z) ≡ true) e h in cc

is_child :
    (tasks : List DelegatedTask) (user_id p : String) (t : DelegatedTask)
    → In t (children_of tasks user_id p)
    → In t tasks × (t.child_session_id ≡ some p) × (t.user_id ≡ user_id)
is_child tasks user_id p t m =
    let (here, test) = select-In _ tasks m in
    let both = &&→both _ _ test in (here, column t.child_session_id both.0, str_eq→eq _ _ both.1)
  where
    column : (c : Option String) → is_some_of c p ≡ true → c ≡ some p
    column none h = cc
    column (some c) h = ap some (str_eq→eq c p h)

child_is_In :
    (tasks : List DelegatedTask) (user_id p : String) (t : DelegatedTask)
    → In t tasks
    → t.child_session_id ≡ some p
    → t.user_id ≡ user_id
    → In t (children_of tasks user_id p)
child_is_In tasks user_id p t m c u =
    In-select _ tasks m (rw (c, u, str_eq_refl p, str_eq_refl user_id))

-- With every statement running, a parent session that exists and whose id has the form of an id, 20 to 36
-- lower-case letters and digits, and a limit other than 0, the depth check has two outcomes, whatever the limit and
-- in whatever order the rows come: it reports a circular delegation when the parent session is the child session of
-- some delegated task of the user, and it allows the delegation when the session is the child of none.
pub depth_check_exact :
    (order : List DelegationChainRow → List DelegationChainRow) (p user_id : String) (d : ℤ)
    (w : World) (s : Session)
    → ((rows : List DelegationChainRow) (r : DelegationChainRow) → In r rows → In r (order rows))
    → ((rows : List DelegationChainRow) (r : DelegationChainRow) → In r (order rows) → In r rows)
    → is_session_id (codes p) ≡ true
    → is_zero d ≡ false
    → find_session p user_id w.sessions ≡ some s
    → let r = (validate_delegation_depth order p user_id d (record w { turns = [] })).0 in
      ((r ≡ ok (refuse circular_delegation))
        × ((t : DelegatedTask) × In t w.tasks
            × (t.child_session_id ≡ some p)
            × (t.user_id ≡ user_id)))
      ⊎ ((r ≡ ok allow)
          × ((t : DelegatedTask)
              → In t w.tasks
              → t.child_session_id ≡ some p
              → t.user_id ≢ user_id))
unfolding validate_delegation_depth get_session statement
depth_check_exact order p user_id d w s onto only valid limit found =
    let ne = is_session_id-ne p valid in
    let runs = judged order onto only p user_id d w.tasks ne (children_of w.tasks user_id p) refl in
    rw (str_eq_ne p "" ne, limit, valid, found)
      (elim runs [
        | inl (e, (t, m)) ↦
            let (here, child, user) = is_child w.tasks user_id p t m in
            inl (ap ok (unfold rows_of in e), (t, here, child, user))
        | inr (e, childless) ↦ inr (
          ap ok (unfold rows_of in e),
          λ t m c u. elim (subst (In t) childless (child_is_In w.tasks user_id p t m c u)) [ ],
        )
      ])
