-- ===== src/Store/Rows.antt =====
-- The other statements that the delegation subsystem makes: go-shared/agents.go, sessions.go and
-- delegation_events.go.
use shipmates_oss.Prelude.{
  ℕ, String, Bool, true, false, ◌&&◌, Option, List, ◌∷◌, str_eq, select, first, count,
}
use shipmates_oss.Store.Types.{Agent, Session, SessionStatus, DelegationEvent}
use shipmates_oss.Store.World.{M, ok, statement, generate_id, now, wrapping, ◌>>=◌}

unfoldable pub get_agent : String → String → M (Option Agent)
get_agent id user_id = wrapping "get agent" (
    statement
      (λ w. (ok (first (select (λ a. str_eq a.id id && str_eq a.user_id user_id) w.agents)), w)))

abbrev pub find_session : String → String → List Session → Option Session
find_session id user_id sessions =
    first (select (λ s. str_eq s.id id && str_eq s.user_id user_id) sessions)

unfoldable pub get_session : String → String → M (Option Session)
get_session id user_id =
    wrapping "get session" (statement (λ w. (ok (find_session id user_id w.sessions), w)))

unfoldable pub get_session_by_id : String → M (Option Session)
get_session_by_id id =
    wrapping "get session by id"
      (statement (λ w. (ok (first (select (λ s. str_eq s.id id) w.sessions)), w)))

abbrev pub counts_as_active : SessionStatus → Bool
counts_as_active SessionStatus.pending = true
counts_as_active SessionStatus.running = true
counts_as_active SessionStatus.waiting_for_clarification = true
counts_as_active SessionStatus.cancelling = true
counts_as_active _ = false

unfoldable pub count_active_sessions : String → M ℕ
count_active_sessions user_id =
    statement
      (λ w. (ok (count (λ s. str_eq s.user_id user_id && counts_as_active s.status) w.sessions), w))

-- The caller's event without its id and time.
unfoldable pub create_delegation_event : DelegationEvent → M (Unit {0})
create_delegation_event e = do
  id ← generate_id
  at ← now
  wrapping "create delegation event" (
      statement
        (λ w. (ok tt, record w { events = record e { id = id; timestamp = at } ∷ w.events })))
