-- ===== src/Delegation/Cycle/Correct.antt =====
-- The search of DetectCyclesInBlockedBy answers whether a cycle of dependencies can be reached.
use shipmates_oss.Prelude.{
  ℕ, zero, suc, ◌+◌, ◌≤◌, ◌<◌, String, ◌≡◌, refl, sym, ap, ◌∙◌, subst, ◌⊎◌, inl, inr, Bool, true,
  false, Option, none, some, List, [], ◌∷◌, arith, str_eq, if◌then◌else◌, length, In, Bool-cases,
  exists-In, exists-witness, str_eq_refl, str_eq→eq,
}
use shipmates_oss.Delegation.Cycle.{
  Adjacency, dependencies, adjacency_of, TaskForCycle, Search, has, delete, visit_all, enter, leave,
  has_cycle, answer, unvisited, proceed, detect_cycles_in_blocked_by,
}

has-In : (xs : List String) (n : String) → has xs n ≡ true → In n xs
has-In xs n h =
    let (x, m, e) = exists-witness (λ x. str_eq x n) xs h in
    subst (λ z. In z xs) (str_eq→eq x n e) m

In-has : (xs : List String) (n : String) → In n xs → has xs n ≡ true
In-has xs n m = exists-In (λ x. str_eq x n) xs m (str_eq_refl n)

-- Deleting what is not there changes nothing.
delete_absent : (xs : List String) (n : String) → has xs n ≡ false → delete xs n ≡ xs
delete_absent [] n h = refl
delete_absent (x ∷ xs) n h = ground (arith, delete_absent xs n)

delete-cons : (xs : List String) (n : String) → has xs n ≡ false → delete (n ∷ xs) n ≡ xs
delete-cons xs n h = rw (str_eq_refl n) (delete_absent xs n h)

-- How many keys have not been visited.
budget : Adjacency → Search → ℕ
budget [] s = 0
budget ((k, ds) ∷ m) s = (if has s.visited k then 0 else 1) + budget m s

budget_mono :
    (m : Adjacency) (s t : Search)
    → ((x : String) → has s.visited x ≡ true → has t.visited x ≡ true)
    → budget m t ≤ budget m s
unfolding budget
budget_mono [] s t h = omega arith
budget_mono ((k, ds) ∷ m) s t h = ground (arith, h k, budget_mono m s t h)

budget-le-length : (m : Adjacency) (s : Search) → budget m s ≤ length m
unfolding budget
budget-le-length [] s = omega arith
budget-le-length ((k, ds) ∷ m) s = ground (arith, budget-le-length m s)

visited-enter :
    (n : String) (s : Search) (x : String)
    → has s.visited x ≡ true
    → has (enter n s).visited x ≡ true
visited-enter n s x h = rw h (ground arith)

-- Entering a new node either meets no dependency, or uses up a key.
budget-enter :
    (m : Adjacency) (n : String) (s : Search)
    → has s.visited n ≡ false
    → (dependencies m n ≡ []) ⊎ (budget m (enter n s) < budget m s)
unfolding budget
budget-enter [] n s h = inl refl
budget-enter ((k, ds) ∷ m) n s h = elim (Bool-cases (str_eq k n)) [
  | inl e ↦ inr (
      subst (λ z. budget ((z, ds) ∷ m) (enter n s) < budget ((z, ds) ∷ m) s) (sym (str_eq→eq k n e))
        (ground (arith, h, str_eq_refl n, budget_mono m s (enter n s) (visited-enter n s))))
  | inr e ↦ elim (budget-enter m n s h) [ inl d ↦ inl (rw e d) | inr l ↦ inr (ground (arith, l)) ]
]

module _ (adj : Adjacency) where
  -- At least one step along the dependencies.
  pub data Steps (a : String) : String → Type 0 where
    one : {b : String} → In b (dependencies adj a) → Steps a b
    more : {b c : String} → Steps a b → In c (dependencies adj b) → Steps a c

  -- A node on a cycle is `a` itself, or is reached from it.
  pub record Cyclic (a : String) : Type 0 where
    pub node : String
    pub reached : (a ≡ node) ⊎ Steps a node
    pub returns : Steps node node

  before : {a b c : String} → In b (dependencies adj a) → Steps b c → Steps a c
  before e (one f) = more (one e) f
  before e (more s f) = more (before e s) f

  Cyclic-before : {a b : String} → In b (dependencies adj a) → Cyclic b → Cyclic a
  Cyclic-before {a} {b} e c = record {
    node = c.node;
    reached = elim c.reached [
      | inl p ↦ inr (one (subst (λ z. In z (dependencies adj a)) p e))
      | inr s ↦ inr (before e s)
    ];
    returns = c.returns;
  }

  -- No chain of dependencies from here goes on for ever.
  data Safe : String → Type 0 where
    safe : {a : String} → ((b : String) → In b (dependencies adj a) → Safe b) → Safe a

  Safe-before : {a : String} → Safe a → (b : String) → In b (dependencies adj a) → Safe b
  Safe-before (safe f) = f

  Safe-Steps : {a b : String} → Steps a b → Safe a → Safe b
  Safe-Steps (one e) h = Safe-before h _ e
  Safe-Steps (more s e) h = Safe-before (Safe-Steps s h) _ e

  first_step :
      {a c : String} → Steps a c → (b : String) × In b (dependencies adj a) × ((b ≡ c) ⊎ Steps b c)
  first_step {c = c} (one e) = (c, e, inl refl)
  first_step {c = c} (more s e) =
      let (b, f, rest) = first_step s in
      (
        b,
        f,
        elim rest [
          | inl p ↦ inr (one (subst (λ z. In c (dependencies adj z)) (sym p) e))
          | inr r ↦ inr (more r e)
        ],
      )

  Safe-acyclic : {a : String} → Safe a → Steps a a → ⊥
  Safe-acyclic {a} (safe f) s =
      let (b, e, rest) = first_step s in
      Safe-acyclic (f b e) (elim rest [
        | inl p ↦ one (subst (λ z. In b (dependencies adj z)) (sym p) e)
        | inr r ↦ more r e
      ])

  Safe-not-Cyclic : {a : String} → Safe a → Cyclic a → ⊥
  Safe-not-Cyclic {a} h c = elim c.reached [
    | inl p ↦ Safe-acyclic (subst Safe p h) c.returns
    | inr s ↦ Safe-acyclic (Safe-Steps s h) c.returns
  ]

  -- What is known when a node is visited: every node on the stack reaches it, and a node that was
  -- visited before is on the stack or safe.
  record Ready (n : String) (s : Search) : Type 0 where
    below : (x : String) → In x s.in_stack → Steps x n
    settled : (x : String) → In x s.visited → In x s.in_stack ⊎ Safe x

  -- What an answer says: `true` that a cycle was found, `false` that the node is safe; then the
  -- stack is as before, and no node has been forgotten.
  abbrev Answers : String → Search → Option (Bool × Search) → Type 0
  Answers n s none = ⊥
  Answers n s (some (true, s')) = Cyclic n
  Answers n s (some (false, s')) =
      Safe n
      × (s'.in_stack ≡ s.in_stack)
      × ((x : String) → In x s'.visited → In x s.in_stack ⊎ Safe x)
      × ((x : String) → has s.visited x ≡ true → has s'.visited x ≡ true)

  abbrev AnswersAll : String → List String → List String → Search → Option (Bool × Search) → Type 0
  AnswersAll n ds stack s none = ⊥
  AnswersAll n ds stack s (some (true, s')) = Cyclic n
  AnswersAll n ds stack s (some (false, s')) =
      ((d : String) → In d ds → Safe d)
      × (s'.in_stack ≡ stack)
      × ((x : String) → In x s'.visited → In x stack ⊎ Safe x)
      × ((x : String) → has s.visited x ≡ true → has s'.visited x ≡ true)

  -- One dependency, then the others.
  proceed-Answers :
      (n d : String) (ds stack : List String) (s : Search)
      → In d (dependencies adj n)
      → s.in_stack ≡ stack
      → (r : Option (Bool × Search)) → Answers d s r
      → (rest : Search → Option (Bool × Search))
      → ((s' : Search)
          → s'.in_stack ≡ stack
          → ((x : String) → In x s'.visited → In x stack ⊎ Safe x)
          → ((x : String) → has s.visited x ≡ true → has s'.visited x ≡ true)
          → AnswersAll n ds stack s' (rest s'))
      → AnswersAll n (d ∷ ds) stack s (proceed r rest)
  proceed-Answers n d ds stack s edge same none a rest later = a
  proceed-Answers n d ds stack s edge same (some (true, s')) a rest later = Cyclic-before edge a
  proceed-Answers n d ds stack s edge same (some (false, s')) a rest later =
      joined (rest s')
        (later s' (a.1 ∙ same) (λ x m. subst (λ z. In x z ⊎ Safe x) same (a.2 x m)) a.3)
    where
      joined :
          (r : Option (Bool × Search))
          → AnswersAll n ds stack s' r
          → AnswersAll n (d ∷ ds) stack s r
      joined none b = b
      joined (some (true, s'')) b = b
      joined (some (false, s'')) b = (
        λ c m. elim m [ inl e ↦ subst Safe (sym e) a.0 | inr m' ↦ b.0 c m' ],
        b.1,
        b.2,
        λ x h. b.3 x (a.3 x h),
      )

  -- The loop, from a rule for one dependency.
  visit_all-Answers :
      (fuel : ℕ) (n : String) (stack : List String)
      → ((d : String) (s : Search)
          → Ready d s
          → budget adj s < fuel
          → Answers d s (has_cycle fuel adj d s))
      → ((d : String) → In d (dependencies adj n) → (x : String) → In x stack → Steps x d)
      → (ds : List String) → ((d : String) → In d ds → In d (dependencies adj n))
      → (s : Search) → s.in_stack ≡ stack
      → ((x : String) → In x s.visited → In x stack ⊎ Safe x)
      → budget adj s < fuel
      → AnswersAll n ds stack s (visit_all (has_cycle fuel adj) ds s)
  unfolding visit_all
  visit_all-Answers fuel n stack visits below [] among s same settled enough =
      (λ d m. elim m [ ], same, settled, λ x h. h)
  visit_all-Answers fuel n stack visits below (d ∷ ds) among s same settled enough =
      proceed-Answers n d ds stack s edge same (has_cycle fuel adj d s) (visits d s ready enough)
        (visit_all (has_cycle fuel adj) ds)
        λ s' same' settled' grown.
          visit_all-Answers fuel n stack visits below ds (λ c m. among c (inr m)) s' same' settled'
            (omega (arith, budget_mono adj s s' grown))
    where
      edge : In d (dependencies adj n)
      edge = among d (inl refl)

      ready : Ready d s
      ready = record {
        below = λ x m. below d edge x (subst (In x) same m);
        settled = λ x m. subst (λ z. In x z ⊎ Safe x) (sym same) (settled x m);
      }

  -- The whole visit of a new node, from a rule for the nested visits.
  enter-Answers :
      (fuel : ℕ) (n : String) (s : Search)
      → Ready n s
      → has s.in_stack n ≡ false
      → (r : Option (Bool × Search))
      → AnswersAll n (dependencies adj n) (n ∷ s.in_stack) (enter n s) r
      → Answers n s (leave n r)
  enter-Answers fuel n s ready fresh none a = a
  enter-Answers fuel n s ready fresh (some (true, s')) a = a
  enter-Answers fuel n s ready fresh (some (false, s')) a =
      let done : Safe n = safe a.0 in
      (
        done,
        ap (λ z. delete z n) a.1 ∙ delete-cons s.in_stack n fresh,
        λ x m. elim (a.2 x m) [
          | inl q ↦ elim q [ inl e ↦ inr (subst Safe (sym e) done) | inr old ↦ inl old ]
          | inr q ↦ inr q
        ],
        λ x h. a.3 x (visited-enter n s x h),
      )

  entered_settled :
      (n : String) (s : Search)
      → Ready n s
      → (x : String) → In x (n ∷ s.visited)
      → In x (n ∷ s.in_stack) ⊎ Safe x
  entered_settled n s ready x (inl e) = inl (inl e)
  entered_settled n s ready x (inr m) = elim (ready.settled x m) [
    | inl old ↦ inl (inr old)
    | inr h ↦ inr h
  ]

  entered_below :
      (n : String) (s : Search)
      → Ready n s
      → (d : String) → In d (dependencies adj n)
      → (x : String) → In x (n ∷ s.in_stack)
      → Steps x d
  entered_below n s ready d edge x (inl e) =
      one (subst (λ z. In d (dependencies adj z)) (sym e) edge)
  entered_below n s ready d edge x (inr m) = more (ready.below x m) edge

  -- A node with no dependency needs no fuel for them.
  no_dependency :
      (visit : String → Search → Option (Bool × Search)) (n : String) (s : Search)
      → Ready n s
      → (ds : List String) → ds ≡ []
      → AnswersAll n ds (n ∷ s.in_stack) (enter n s) (visit_all visit ds (enter n s))
  unfolding visit_all
  no_dependency visit n s ready [] e =
      (λ d m. elim m [ ], refl, entered_settled n s ready, λ x h. h)
  no_dependency visit n s ready (d ∷ ds) e = absurd (cc)

  -- With more fuel than unvisited keys the search answers, and the answer is right.
  has_cycle-Answers :
      (fuel : ℕ) (n : String) (s : Search)
      → Ready n s
      → budget adj s < fuel
      → Answers n s (has_cycle fuel adj n s)
  unfolding has_cycle
  has_cycle-Answers zero n s ready enough = absurd (omega arith)
  has_cycle-Answers (suc fuel) n s ready enough = elim (Bool-cases (has s.in_stack n)) [
    | inl on ↦
        rw on (record { node = n; reached = inl refl; returns = ready.below n (has-In _ n on) })
    | inr off ↦ elim (Bool-cases (has s.visited n)) [
      | inl old ↦
          rw (off, old)
            (elim (ready.settled n (has-In _ n old)) [
              | inl on ↦ let h = In-has _ n on in absurd (cc)
              | inr h ↦ (h, refl, ready.settled, λ x h. h)
            ])
      | inr new ↦
          rw (off, new)
            (enter-Answers fuel n s ready off _ (elim (budget-enter adj n s new) [
              | inl d ↦ no_dependency (has_cycle fuel adj) n s ready (dependencies adj n) d
              | inr l ↦
                  visit_all-Answers fuel n (n ∷ s.in_stack) (has_cycle-Answers fuel)
                    (entered_below n s ready) (dependencies adj n) (λ d m. m) (enter n s) refl
                    (entered_settled n s ready) (omega arith)
            ]))
    ]
  ]

  -- The answer at the root of a search.
  search_answers :
      (fuel : ℕ) (n : String)
      → length adj < fuel
      → ((answer (has_cycle fuel adj n unvisited) ≡ some true) × Cyclic n)
        ⊎ ((answer (has_cycle fuel adj n unvisited) ≡ some false) × (Cyclic n → ⊥))
  search_answers fuel n enough = decided (has_cycle fuel adj n unvisited) (
      has_cycle-Answers fuel n unvisited
        (record { below = λ x m. elim m [ ]; settled = λ x m. elim m [ ] })
        (omega (arith, budget-le-length adj unvisited)))
    where
      decided :
          (r : Option (Bool × Search))
          → Answers n unvisited r
          → ((answer r ≡ some true) × Cyclic n) ⊎ ((answer r ≡ some false) × (Cyclic n → ⊥))
      decided none a = elim a [ ]
      decided (some (true, s)) a = inl (refl, a)
      decided (some (false, s)) a = inr (refl, Safe-not-Cyclic a.0)

-- The search always answers: `true` exactly when a cycle of dependencies can be reached from the
-- task, and `false` exactly when none can.
pub detect_cycles_exact :
    (task_id : String) (blocked_by : List String) (existing : List TaskForCycle)
    → let adj = adjacency_of task_id blocked_by existing in
      ((detect_cycles_in_blocked_by task_id blocked_by existing ≡ some true) × Cyclic adj task_id)
      ⊎ ((detect_cycles_in_blocked_by task_id blocked_by existing ≡ some false)
          × ¬ Cyclic adj task_id)
unfolding detect_cycles_in_blocked_by
detect_cycles_exact task_id blocked_by existing =
    let adj = adjacency_of task_id blocked_by existing in
    search_answers adj (suc (length adj)) task_id (omega arith)
