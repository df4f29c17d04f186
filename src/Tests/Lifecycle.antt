-- ===== src/Tests/Lifecycle.antt =====
-- A lead hands a task to a junior.
use shipmates_oss.Prelude.{◌≡◌, refl, none, some, [], ◌∷◌}
use shipmates_oss.Prelude.Int.{pos}
use shipmates_oss.Store.Types.{Agent, DelegatedTaskStatus}
use shipmates_oss.Store.World.{World, ok, statement}
use shipmates_oss.Store.Tasks.{create_delegated_task, insert_task}
use shipmates_oss.Store.Rows.{get_agent, create_delegation_event}
use shipmates_oss.Delegation.Validator.{validate_delegation}
use shipmates_oss.Delegation.Validator.Allowed.{MayDelegate}
use shipmates_oss.Delegation.Events.{log_delegation}
use shipmates_oss.Delegation.Scheduler.{enqueue_task}
use shipmates_oss.Delegation.Lifecycle.{
  Environment, DelegateOptions, DelegationResponse, for_validation, check_session, check_cycle,
  find_agent, record_delegation, delegate_between, delegate,
}
use shipmates_oss.Delegation.Lifecycle.Authorized.{agent_of, delegate_authorized}
use shipmates_oss.Tests.Tasks.{with_tasks}

abbrev lead : Agent
lead = record {
  id = "a1";
  user_id = "u";
  name = "Lea";
  role = "lead";
  api_key_id = none;
  can_delegate_to = [];
  max_cost_per_task = pos 500;
  max_delegation_depth = pos 3;
}

abbrev staffed : World
staffed = record (with_tasks []) { agents = lead ∷ record lead { id = "a2"; role = "junior" } ∷ [] }

abbrev opts : DelegateOptions
opts = record {
  from_session_id = "";
  from_agent_id = "a1";
  to_agent_id = "a2";
  user_id = "u";
  description = "fix it";
  priority = none;
  blocked_by = [];
  max_cost_usd = none;
  context_mode = "";
}

abbrev env : Environment
env = record {
  row_order = λ rows. rows;
  most_cost = 1000000;
  build_context = λ o mode w. (ok "{}", w);
  reason_text = λ r. "refused";
}

abbrev response : DelegationResponse
response = record {
  task_id = "n1";
  status = DelegatedTaskStatus.pending;
  to_agent_id = "a2";
  description = "fix it";
  priority = pos 50;
}

delegates : (delegate env opts staffed).0 ≡ ok response
unfolding delegate delegate_between find_agent get_agent validate_delegation check_session
    check_cycle record_delegation enqueue_task create_delegated_task insert_task log_delegation
    create_delegation_event statement
delegates = refl

delegate_authorized_example :
    (from : Agent) × (to : Agent) × (agent_of "a1" "u" staffed.agents ≡ some from)
    × (agent_of "a2" "u" staffed.agents ≡ some to)
    × MayDelegate (for_validation from) (for_validation to) "fix it" none
delegate_authorized_example = delegate_authorized env opts staffed response delegates
