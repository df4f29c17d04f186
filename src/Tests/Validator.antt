-- ===== src/Tests/Validator.antt =====
-- Delegations that are allowed, and a depth check on a small table.
use shipmates_oss.Prelude.{String, ◌≡◌, ◌≢◌, ◌⊎◌, ◌↔◌, refl, true, false, some, none, [], ◌∷◌, In}
use shipmates_oss.Prelude.Int.{pos}
use shipmates_oss.Store.Types.{DelegatedTask, Session, SessionStatus, DelegatedTaskStatus}
use shipmates_oss.Store.World.{World, ok}
use shipmates_oss.Prelude.Bytes.{codes}
use shipmates_oss.Delegation.Validator.{
  AgentForValidation, validate_delegation, validate_delegation_depth, refuse, allow,
  circular_delegation, is_session_id,
}
use shipmates_oss.Delegation.Validator.Allowed.{MayDelegate, validate_delegation_exact}
use shipmates_oss.Delegation.Validator.Depth.{depth_check_exact}
use shipmates_oss.Tests.Tasks.{task, with_tasks}

abbrev lead : AgentForValidation
lead = record {
  id = "a1";
  role = "lead";
  max_cost_per_task = pos 500;
  max_delegation_depth = pos 3;
  can_delegate_to = "a2" ∷ [];
}

abbrev junior : AgentForValidation
junior = record lead { id = "a2"; role = "junior"; can_delegate_to = [] }

lead_may : (validate_delegation lead junior "fix it" (some (pos 500))).allowed ≡ true
unfolding validate_delegation
lead_may = refl

junior_may_not : (validate_delegation junior lead "fix it" none).allowed ≡ false
unfolding validate_delegation
junior_may_not = refl

validate_delegation_exact_example :
    ((validate_delegation lead junior "fix it" (some (pos 500))).allowed ≡ true)
    ↔ MayDelegate lead junior "fix it" (some (pos 500))
validate_delegation_exact_example = validate_delegation_exact lead junior "fix it" (some (pos 500))

abbrev child : String
child = "abcdefghijklmnopqrst"

abbrev child_session : Session
child_session = record {
  id = child;
  user_id = "u";
  agent_id = "a1";
  task = "work";
  status = SessionStatus.running;
  repo = none;
  created_at = 1;
}

abbrev one_child : World
one_child =
    record (with_tasks (
      record (task "t1" 50 1 DelegatedTaskStatus.running []) { child_session_id = some child }
      ∷ [])) { sessions = child_session ∷ [] }

child_valid : is_session_id (codes child) ≡ true
unfolding is_session_id
child_valid = refl

depth_check_exact_example :
    let r =
      (validate_delegation_depth
        (λ rows. rows)
        child
        "u"
        (pos 3)
        (record one_child { turns = [] })).0 in
    ((r ≡ ok (refuse circular_delegation))
      × ((t : DelegatedTask) × In t one_child.tasks
          × (t.child_session_id ≡ some child)
          × (t.user_id ≡ "u")))
    ⊎ ((r ≡ ok allow)
        × ((t : DelegatedTask)
            → In t one_child.tasks
            → t.child_session_id ≡ some child
            → t.user_id ≢ "u"))
depth_check_exact_example =
    depth_check_exact (λ rows. rows) child "u" (pos 3) one_child child_session (λ rows r m. m)
      (λ rows r m. m) child_valid refl refl
