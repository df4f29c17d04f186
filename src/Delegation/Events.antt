-- ===== src/Delegation/Events.antt =====
-- LogDelegation (bot/delegation/events.go). A text is a `String`; the two regular expressions drop the
-- control characters and then what is not printable ASCII, and the newline is itself a control
-- character.
use Prim.Native.Char.{code}
use Prim.Native.String.{String, len, slice}
use shipmates_oss.Prelude.{
  ℕ, Bool, false, not, ◌&&◌, ◌||◌, Option, none, some, ltb, leb, ◌==◌, if◌then◌else◌, str_eq,
}
use shipmates_oss.Prelude.Int.{ℤ, pos, ltb_ℤ}
use shipmates_oss.Store.Types.{DelegationEvent}
use shipmates_oss.Store.World.{M, pure, wrapping}
use shipmates_oss.Store.Rows.{create_delegation_event}

pub record LogDelegationOptions : Type 0 where
  pub user_id : String
  pub from_session_id : String
  pub to_session_id : Option String
  pub from_agent_id : String
  pub to_agent_id : String
  pub action : String
  pub reason : String
  pub cost_usd : Option ℤ

-- [\x00-\x1F\x7F]
abbrev pub is_control : ℕ → Bool
is_control c = leb c 31 || c == 127

-- [^\x20-\x7E\n]
abbrev pub is_nonprintable : ℕ → Bool
is_nonprintable c = not ((leb 32 c && leb c 126) || c == 10)

-- ReplaceAllString(s, "") of a class of characters
unfoldable pub remove_chars : (ℕ → Bool) → String → String
remove_chars p String.[] = String.[]
remove_chars p (String.◌∷◌ c s) =
    let rest = remove_chars p s in if p (code c) then rest else String.◌∷◌ c rest

-- s[:n] where len(s) > n
abbrev pub truncate : ℕ → String → String
truncate n s = if ltb n (len s) then slice s 0 n else s

unfoldable pub sanitize_reason : String → String
unfolding remove_chars
sanitize_reason reason =
    truncate 4000 (remove_chars is_nonprintable (remove_chars is_control reason))

abbrev pub if_nonempty : String → Option String
if_nonempty s = if str_eq s "" then none else some s

-- 10000 dollars, in the unit of a cost: `dollar` says how many units a dollar has.
abbrev pub cost_out_of_range : ℕ → Option ℤ → Bool
cost_out_of_range most none = false
cost_out_of_range most (some c) = ltb_ℤ c (pos 0) || ltb_ℤ (pos most) c

abbrev pub event_of : LogDelegationOptions → DelegationEvent
event_of opts = record {
  id = "";
  user_id = opts.user_id;
  from_session_id = opts.from_session_id;
  to_session_id = opts.to_session_id;
  from_agent_id = opts.from_agent_id;
  to_agent_id = opts.to_agent_id;
  action = opts.action;
  reason = if_nonempty (sanitize_reason opts.reason);
  cost_usd = opts.cost_usd;
  timestamp = 0;
}

-- The first argument is 10000 dollars in the unit of the costs.
unfoldable pub log_delegation : ℕ → LogDelegationOptions → M (Unit {0})
log_delegation most opts =
    if cost_out_of_range most opts.cost_usd
    then pure tt
    else wrapping "create delegation event" (create_delegation_event (event_of opts))
