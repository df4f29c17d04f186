-- ===== src/Store/Types.antt =====
-- The rows of the tables that the delegation subsystem reads and writes (go-shared/models.go,
-- go-shared/types.go, columns and unique indexes of database/init.sql). Costs are Go `float64`s: they
-- are integers here, counted in one fixed unit, and a time is a number of milliseconds.
use shipmates_oss.Prelude.{ℕ, String, Bool, true, false, Option, List}
use shipmates_oss.Prelude.Int.{ℤ}

pub data DelegatedTaskStatus : Type 0 where
  pending claimed running done failed cancelled : DelegatedTaskStatus

abbrev pub is_pending : DelegatedTaskStatus → Bool
is_pending pending = true
is_pending _ = false

abbrev pub is_done : DelegatedTaskStatus → Bool
is_done done = true
is_done _ = false

-- status IN ('pending', 'claimed', 'running')
abbrev pub is_active : DelegatedTaskStatus → Bool
is_active pending = true
is_active claimed = true
is_active running = true
is_active _ = false

-- The statuses that write `completed_at`.
abbrev pub is_terminal : DelegatedTaskStatus → Bool
is_terminal done = true
is_terminal failed = true
is_terminal cancelled = true
is_terminal _ = false

abbrev pub is_claimed : DelegatedTaskStatus → Bool
is_claimed claimed = true
is_claimed _ = false

pub record DelegatedTask : Type 0 where
  pub id : String
  pub user_id : String
  pub parent_session_id : Option String
  pub child_session_id : Option String
  pub from_agent_id : String
  pub to_agent_id : String
  pub description : String
  pub priority : ℤ
  pub status : DelegatedTaskStatus
  pub error_message : Option String
  pub blocked_by : List String
  pub context : String
  pub max_cost_usd : Option ℤ
  pub actual_cost_usd : Option ℤ
  pub claimed_at : Option ℕ
  pub completed_at : Option ℕ
  pub created_at : ℕ

pub record TaskLock : Type 0 where
  pub id : String
  pub user_id : String
  pub session_id : String
  pub agent_id : String
  pub file_path : String
  pub locked_at : ℕ
  pub expires_at : ℕ

pub data SessionStatus : Type 0 where
  pending running done error waiting_for_clarification cancelling cancelled partial : SessionStatus

-- status IN ('pending', 'running', 'waiting_for_clarification'), of CancelTask
abbrev pub is_cancellable : SessionStatus → Bool
is_cancellable pending = true
is_cancellable running = true
is_cancellable waiting_for_clarification = true
is_cancellable _ = false

-- status IN ('done', 'error', 'cancelled'), of runDelegatedTask
abbrev pub is_finished : SessionStatus → Bool
is_finished done = true
is_finished error = true
is_finished cancelled = true
is_finished _ = false

-- The columns of `sessions` that this subsystem reads.
pub record Session : Type 0 where
  pub id : String
  pub user_id : String
  pub agent_id : String
  pub task : String
  pub status : SessionStatus
  pub repo : Option String
  pub created_at : ℕ

-- The columns of `agents` that this subsystem reads.
pub record Agent : Type 0 where
  pub id : String
  pub user_id : String
  pub name : String
  pub role : String
  pub api_key_id : Option String
  pub can_delegate_to : List String
  pub max_cost_per_task : ℤ
  pub max_delegation_depth : ℤ

pub record DelegationEvent : Type 0 where
  pub id : String
  pub user_id : String
  pub from_session_id : String
  pub to_session_id : Option String
  pub from_agent_id : String
  pub to_agent_id : String
  pub action : String
  pub reason : Option String
  pub cost_usd : Option ℤ
  pub timestamp : ℕ
