-- ===== src/Store/World.antt =====
-- The database as the Go code meets it. A statement is atomic; before it runs, the environment takes
-- a turn: time passes, or the statement fails and writes nothing. PostgreSQL and the driver are not
-- modelled beyond that. `GenerateID` (go-shared/id.go) draws random bytes: the identifiers that
-- it will return are a list of the world.
use shipmates_oss.Prelude.{ℕ, ◌+◌, ◌≤◌, ◌≡◌, refl, ◌⊎◌, inl, inr, String, List, [], ◌∷◌, arith}
use shipmates_oss.Store.Types.{DelegatedTask, TaskLock, Session, Agent, DelegationEvent}

pub data Error : Type 0 where
  -- the statement failed: connection, timeout
  fault : Error
  unique_violation : Error
  -- fmt.Errorf("…: %w", err)
  wrap : String → Error → Error
  message : String → Error
  task_limit_reached : ℕ → Error

pub data Result {ℓ} (A : Type ℓ) : Type ℓ where
  ok : A → Result A
  err : Error → Result A

pub data Turn : Type 0 where
  fails : Turn
  -- the statement runs, this many milliseconds after the last one
  runs : ℕ → Turn

pub record World : Type 0 where
  pub tasks : List DelegatedTask
  pub locks : List TaskLock
  pub sessions : List Session
  pub agents : List Agent
  pub events : List DelegationEvent
  pub clock : ℕ
  pub turns : List Turn
  pub fresh_ids : List String

abbrev pub M : Type 0 → Type 0
M A = World → Result A × World

abbrev pub pure : {A : Type 0} → A → M A
pure a w = (ok a, w)

abbrev pub raise : {A : Type 0} → Error → M A
raise e w = (err e, w)

abbrev pub continue : {A B : Type 0} → Result A → (A → M B) → M B
continue (ok a) f w = f a w
continue (err e) f w = (err e, w)

infixl 5 ◌>>=◌ ◌>>◌
abbrev pub ◌>>=◌ : {A B : Type 0} → M A → (A → M B) → M B
◌>>=◌ m f w = let (r, w') = m w in continue r f w'

abbrev pub ◌>>◌ : {A B : Type 0} → M A → M B → M B
m >> k = m >>= λ _. k

-- `a, err := m()` where the code goes on in both cases.
abbrev pub attempt : {A : Type 0} → M A → M (Result A)
attempt m w = let (r, w') = m w in (ok r, w')

abbrev pub wrap_result : {A : Type 0} → String → Result A → Result A
wrap_result text (ok a) = ok a
wrap_result text (err e) = err (wrap text e)

-- if err != nil { return nil, fmt.Errorf("text: %w", err) }
abbrev pub wrapping : {A : Type 0} → String → M A → M A
wrapping text m w = let (r, w') = m w in (wrap_result text r, w')

abbrev pub take_turn : {A : Type 0} → List Turn → M A → M A
take_turn [] m w = m (record w { turns = [] })
take_turn (fails ∷ rest) m w = (err fault, record w { turns = rest })
take_turn (runs d ∷ rest) m w = m (record w { turns = rest; clock = w.clock + d })

-- One statement.
unfoldable pub statement : {A : Type 0} → M A → M A
statement m w = take_turn w.turns m w

take_turn_cases :
    {A : Type 0} (ts : List Turn) (m : M A) (w : World)
    → ((rest : List Turn) × (take_turn ts m w ≡ (err fault, record w { turns = rest })))
      ⊎ ((rest : List Turn) × (c : ℕ) × (w.clock ≤ c)
          × (take_turn ts m w ≡ m (record w { turns = rest; clock = c })))
take_turn_cases [] m w = inr ([], w.clock, omega arith, refl)
take_turn_cases (fails ∷ rest) m w = inl (rest, refl)
take_turn_cases (runs d ∷ rest) m w = inr (rest, w.clock + d, omega arith, refl)

-- A statement fails and writes nothing, or it runs, no earlier than it was called.
pub statement_cases :
    {A : Type 0} (m : M A) (w : World)
    → ((rest : List Turn) × (statement m w ≡ (err fault, record w { turns = rest })))
      ⊎ ((rest : List Turn) × (c : ℕ) × (w.clock ≤ c)
          × (statement m w ≡ m (record w { turns = rest; clock = c })))
unfolding statement
statement_cases m w = take_turn_cases w.turns m w

abbrev pub next_id : List String → String
next_id [] = ""
next_id (i ∷ rest) = i

abbrev pub other_ids : List String → List String
other_ids [] = []
other_ids (i ∷ rest) = rest

-- GenerateID
abbrev pub generate_id : M String
generate_id w = (ok (next_id w.fresh_ids), record w { fresh_ids = other_ids w.fresh_ids })

abbrev pub now : M ℕ
now w = (ok w.clock, w)

-- What a statement that returned did: it ran, no earlier than it was called.
pub statement_ok :
    {A : Type 0} {a : A} (m : M A) (w : World)
    → (statement m w).0 ≡ ok a
    → (rest : List Turn) × (c : ℕ) × (w.clock ≤ c)
      × (statement m w ≡ m (record w { turns = rest; clock = c }))
statement_ok {a = a} m w h = elim (statement_cases m w) [
  | inl (rest, e) ↦ let h' : err fault ≡ ok a = rw e at h in cc
  | inr r ↦ r
]

pub wrap_result_ok :
    {A : Type 0} {a : A} (text : String) (r : Result A) → wrap_result text r ≡ ok a → r ≡ ok a
wrap_result_ok text (ok a) h = h
wrap_result_ok text (err e) h = cc

-- A chain that returned: its first action returned, and the rest went on from there.
pub continue_ok :
    {A B : Type 0} {b : B} (r : Result A) (f : A → M B) (w : World)
    → (continue r f w).0 ≡ ok b
    → (a : A) × (r ≡ ok a) × (continue r f w ≡ f a w)
continue_ok (ok a) f w h = (a, refl, refl)
continue_ok {b = b} (err e) f w h = let h' : err e ≡ ok b = h in cc

pub bind_ok :
    {A B : Type 0} {b : B} (m : M A) (f : A → M B) (w : World)
    → ((m >>= f) w).0 ≡ ok b
    → (a : A) × ((m w).0 ≡ ok a) × ((m >>= f) w ≡ f a (m w).1)
bind_ok m f w h = continue_ok (m w).0 f (m w).1 h

-- A statement that does not write to the tasks leaves them.
pub statement_tasks :
    {A : Type 0} (m : M A) (w : World)
    → ((v : World) → (m v).1.tasks ≡ v.tasks)
    → (statement m w).1.tasks ≡ w.tasks
statement_tasks m w h = elim (statement_cases m w) [
  | inl (rest, e) ↦ rw e
  | inr (rest, c, le, e) ↦ rw e (h (record w { turns = rest; clock = c }))
]
