-- ===== src/Delegation/Cycle.antt =====
-- DetectCyclesInBlockedBy (bot/delegation/validator.go): depth-first search with the sets `visited`
-- and `inStack`. Go's maps are association lists with the latest entry first; a missing key reads as
-- the empty slice. The recursion runs on fuel; `none` means that the fuel ran out, which the module
-- `Correct` excludes.
pub mod Correct
pub mod Fresh
use shipmates_oss.Prelude.{
  ℕ, zero, suc, String, Bool, true, false, not, Option, none, some, List, [], ◌∷◌, str_eq,
  if◌then◌else◌, exists, select, length,
}

pub record TaskForCycle : Type 0 where
  pub id : String
  pub blocked_by : List String

abbrev pub Adjacency : Type 0
Adjacency = List (String × List String)

abbrev pub dependencies : Adjacency → String → List String
dependencies [] n = []
dependencies ((k, ds) ∷ rest) n = if str_eq k n then ds else dependencies rest n

-- for _, task := range existingTasks { adjacency[task.ID] = task.BlockedBy }
abbrev pub add_tasks : Adjacency → List TaskForCycle → Adjacency
add_tasks m [] = m
add_tasks m (t ∷ ts) = add_tasks ((t.id, t.blocked_by) ∷ m) ts

abbrev pub adjacency_of : String → List String → List TaskForCycle → Adjacency
adjacency_of task_id blocked_by existing = (task_id, blocked_by) ∷ add_tasks [] existing

pub record Search : Type 0 where
  pub visited : List String
  pub in_stack : List String

abbrev pub has : List String → String → Bool
has xs n = exists (λ x. str_eq x n) xs

abbrev pub delete : List String → String → List String
delete xs n = select (λ x. not (str_eq x n)) xs

-- The loop over the dependencies, up to the first cycle.
abbrev pub proceed :
    Option (Bool × Search) → (Search → Option (Bool × Search)) → Option (Bool × Search)
proceed none rest = none
proceed (some (true, s)) rest = some (true, s)
proceed (some (false, s)) rest = rest s

unfoldable pub visit_all :
    (String → Search → Option (Bool × Search)) → List String → Search → Option (Bool × Search)
visit_all visit [] s = some (false, s)
visit_all visit (d ∷ ds) s = proceed (visit d s) (visit_all visit ds)

abbrev pub enter : String → Search → Search
enter n s = record { visited = n ∷ s.visited; in_stack = n ∷ s.in_stack }

abbrev pub leave : String → Option (Bool × Search) → Option (Bool × Search)
leave n none = none
leave n (some (true, s)) = some (true, s)
leave n (some (false, s)) = some (false, record s { in_stack = delete s.in_stack n })

unfoldable pub has_cycle : ℕ → Adjacency → String → Search → Option (Bool × Search)
has_cycle zero adj n s = none
has_cycle (suc fuel) adj n s =
    let deeper = leave n (visit_all (has_cycle fuel adj) (dependencies adj n) (enter n s)) in
    if has s.in_stack n then some (true, s) else if has s.visited n then some (false, s) else deeper

abbrev pub answer : Option (Bool × Search) → Option Bool
answer none = none
answer (some (found, s)) = some found

abbrev pub unvisited : Search
unvisited = record { visited = []; in_stack = [] }

-- Every nested call marks a node, and a node with dependencies is a key of the map.
unfoldable pub detect_cycles_in_blocked_by : String → List String → List TaskForCycle → Option Bool
unfolding has_cycle visit_all
detect_cycles_in_blocked_by task_id blocked_by existing =
    let adj = adjacency_of task_id blocked_by existing in
    answer (has_cycle (suc (length adj)) adj task_id unvisited)
