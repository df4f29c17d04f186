-- ===== src/Delegation/Validator.antt =====
-- bot/delegation/validator.go. A reason is a constructor for each message that the code formats.
pub mod Allowed
pub mod Depth
use Prim.Native.String.{String, len}
use shipmates_oss.Prelude.{
  ℕ, zero, suc, Bool, true, false, not, ◌&&◌, ◌||◌, Option, none, some, List, [], ◌∷◌, ◌++◌, map,
  ltb, leb, ◌==◌, if◌then◌else◌, str_eq, select, exists, length,
}
use shipmates_oss.Prelude.Int.{ℤ, pos, ltb_ℤ, leb_ℤ}
use shipmates_oss.Store.Types.{DelegatedTask}
use shipmates_oss.Store.World.{World, M, ok, statement, wrapping, pure, ◌>>=◌, ◌>>◌}
use shipmates_oss.Store.Rows.{get_session}
use shipmates_oss.Prelude.Bytes.{codes}

abbrev pub description_min_length : ℕ
description_min_length = 1

abbrev pub description_max_length : ℕ
description_max_length = 2000

abbrev pub max_depth_queries : ℕ
max_depth_queries = 20

abbrev pub role_hierarchy : String → Option ℕ
role_hierarchy role =
    if str_eq role "lead"
    then some 2
    else if str_eq role "senior"
    then some 1
    else if str_eq role "junior"
    then some 0
    else none

-- roleCanDelegateTo[from][to]; a missing key of either map reads as false.
abbrev pub role_can_delegate_to : String → String → Bool
role_can_delegate_to from to =
    if str_eq from "lead"
    then str_eq to "senior" || str_eq to "junior"
    else if str_eq from "senior"
    then str_eq to "junior"
    else false

pub record AgentForValidation : Type 0 where
  pub id : String
  pub role : String
  pub max_cost_per_task : ℤ
  pub max_delegation_depth : ℤ
  pub can_delegate_to : List String

pub data Reason : Type 0 where
  no_reason : Reason
  self_delegation : Reason
  junior_cannot_delegate : Reason
  role_mismatch : String → String → Reason
  not_in_allowlist : Reason
  cost_exceeds : ℤ → ℤ → Reason
  description_required : Reason
  description_too_long : ℕ → Reason
  agent_cannot_delegate : Reason
  parent_not_found : Reason
  circular_delegation : Reason
  depth_exceeded : ℤ → Reason

pub record ValidationResult : Type 0 where
  pub allowed : Bool
  pub reason : Reason

abbrev pub allow : ValidationResult
allow = record { allowed = true; reason = no_reason }

abbrev pub refuse : Reason → ValidationResult
refuse r = record { allowed = false; reason = r }

-- !fromLevelExists || fromLevel == 0
abbrev pub is_lowest : Option ℕ → Bool
is_lowest none = true
is_lowest (some level) = level == 0

abbrev pub exceeds : Option ℤ → ℤ → Bool
exceeds none limit = false
exceeds (some cost) limit = ltb_ℤ limit cost

abbrev pub refuse_cost : Option ℤ → ℤ → ValidationResult
refuse_cost none limit = refuse no_reason
refuse_cost (some cost) limit = refuse (cost_exceeds cost limit)

-- len(fromAgent.CanDelegateTo) > 0 and the loop over it
abbrev pub off_allowlist : List String → String → Bool
off_allowlist [] to = false
off_allowlist (a ∷ rest) to = not (exists (λ id. str_eq id to) (a ∷ rest))

unfoldable pub validate_delegation :
    AgentForValidation → AgentForValidation → String → Option ℤ → ValidationResult
validate_delegation from to description max_cost_usd =
    if str_eq from.id to.id
    then refuse self_delegation
    else if is_lowest (role_hierarchy from.role)
    then refuse junior_cannot_delegate
    else if not (role_can_delegate_to from.role to.role)
    then refuse (role_mismatch from.role to.role)
    else if off_allowlist from.can_delegate_to to.id
    then refuse not_in_allowlist
    else if exceeds max_cost_usd from.max_cost_per_task
    then refuse_cost max_cost_usd from.max_cost_per_task
    else if ltb (len description) description_min_length
    then refuse description_required
    else if ltb description_max_length (len description)
    then refuse (description_too_long (len description))
    else allow

-- ^[a-z0-9]{20,36}$
abbrev pub is_id_char : ℕ → Bool
is_id_char c = (leb b'a' c && leb c b'z') || (leb b'0' c && leb c b'9')

unfoldable pub is_session_id : List ℕ → Bool
is_session_id s = leb 20 (length s) && leb (length s) 36 && not (exists (λ c. not (is_id_char c)) s)

pub record DelegationChainRow : Type 0 where
  pub parent_session_id : String
  pub child_session_id : String

-- A NULL column is scanned into the empty text.
abbrev pub or_empty : Option String → String
or_empty none = ""
or_empty (some s) = s

abbrev pub chain_row : DelegatedTask → DelegationChainRow
chain_row t = record {
  parent_session_id = or_empty t.parent_session_id;
  child_session_id = or_empty t.child_session_id;
}

abbrev pub is_some_of : Option String → String → Bool
is_some_of none s = false
is_some_of (some c) s = str_eq c s

-- WHERE child_session_id = $1 AND user_id = $2
abbrev pub children_of : List DelegatedTask → String → String → List DelegatedTask
children_of tasks user_id session_id =
    select (λ t. is_some_of t.child_session_id session_id && str_eq t.user_id user_id) tasks

-- The tasks that the recursive part joins to a row: child_session_id = c.parent_session_id.
abbrev pub above : List DelegatedTask → String → Option String → List DelegatedTask
above tasks user_id none = []
above tasks user_id (some session_id) = children_of tasks user_id session_id

abbrev pub next_level : List DelegatedTask → String → List DelegatedTask → List DelegatedTask
next_level tasks user_id [] = []
next_level tasks user_id (t ∷ ts) =
    above tasks user_id t.parent_session_id ++ next_level tasks user_id ts

-- The rows of depth 1, 2, … up to the bound of the recursive query.
unfoldable pub chain : ℕ → List DelegatedTask → String → List DelegatedTask → List DelegatedTask
chain zero tasks user_id level = []
chain (suc depth) tasks user_id level =
    level ++ chain depth tasks user_id (next_level tasks user_id level)

-- The loop over the ancestors with the set `visited`.
unfoldable pub revisits : List String → List DelegationChainRow → Bool
revisits visited [] = false
revisits visited (r ∷ rs) =
    let rest = revisits visited rs in
    let marked = revisits (r.child_session_id ∷ visited) rs in
    if str_eq r.child_session_id ""
    then rest
    else if exists (λ v. str_eq v r.child_session_id) visited
    then true
    else marked

abbrev pub judge : String → ℤ → List DelegationChainRow → ValidationResult
judge parent_session_id max_depth [] = allow
judge parent_session_id max_depth (r ∷ rs) =
    if revisits (parent_session_id ∷ []) (r ∷ rs)
    then refuse circular_delegation
    else if leb_ℤ max_depth (pos (length (r ∷ rs)))
    then refuse (depth_exceeded max_depth)
    else allow

-- The query has no ORDER BY: `order` is the order in which PostgreSQL returns the rows.
abbrev pub chain_rows :
    (List DelegationChainRow → List DelegationChainRow)
    → String
    → String
    → M (List DelegationChainRow)
chain_rows order parent_session_id user_id = statement (λ w. (
  ok (
      order (
        map chain_row (
          chain max_depth_queries w.tasks user_id
            (children_of w.tasks user_id parent_session_id)))),
  w,
))

abbrev pub validate_with_parent :
    {A : Type 0}
    → (List DelegationChainRow → List DelegationChainRow)
    → String
    → String
    → ℤ
    → Option A
    → M ValidationResult
validate_with_parent order parent_session_id user_id max_depth none = pure (refuse parent_not_found)
validate_with_parent order parent_session_id user_id max_depth (some parent) = do
  rows ← wrapping "query delegation chain" (chain_rows order parent_session_id user_id)
  pure (judge parent_session_id max_depth rows)

abbrev pub is_zero : ℤ → Bool
is_zero (pos n) = n == 0
is_zero _ = false

unfoldable pub validate_delegation_depth :
    (List DelegationChainRow → List DelegationChainRow) → String → String → ℤ → M ValidationResult
validate_delegation_depth order parent_session_id user_id max_depth =
    if str_eq parent_session_id ""
    then pure allow
    else if is_zero max_depth
    then pure (refuse agent_cannot_delegate)
    else if not (is_session_id (codes parent_session_id))
    then pure allow
    else do
      parent ← wrapping "check parent session" (get_session parent_session_id user_id)
      validate_with_parent order parent_session_id user_id max_depth parent
