-- ===== src/Delegation/Lifecycle/Authorized.antt =====
-- Which delegations Delegate of bot/delegation/delegation.go accepts, and what it writes.
use shipmates_oss.Prelude.{
  ◌≡◌, refl, String, Bool, true, false, Option, none, some, List, str_eq, ◌&&◌, first, select,
}
use shipmates_oss.Store.Types.{Agent}
use shipmates_oss.Store.World.{
  World, M, ok, err, Error, statement_ok, wrap_result_ok, bind_ok, message, wrapping, ◌>>=◌, ◌>>◌,
}
use shipmates_oss.Store.Rows.{get_agent}
use shipmates_oss.Delegation.Validator.{validate_delegation}
use shipmates_oss.Delegation.Validator.Allowed.{MayDelegate, validate_delegation_exact}
use shipmates_oss.Delegation.Lifecycle.{
  Environment, DelegateOptions, DelegationResponse, delegate, delegate_between, record_delegation,
  check_session, check_cycle, find_agent, or_fail, ensure, for_validation,
}

abbrev pub agent_of : String → String → List Agent → Option Agent
agent_of id user_id agents = first (select (λ a. str_eq a.id id && str_eq a.user_id user_id) agents)

or_fail_ok :
    {A : Type 0} {a : A} (e : Error) (o : Option A) (w : World)
    → (or_fail e o w).0 ≡ ok a
    → o ≡ some a
or_fail_ok {a = a} e none w h = let h' : err e ≡ ok a = h in cc
or_fail_ok {a = a} e (some b) w h = let h' : ok b ≡ ok a = h in cc

or_fail_world : {A : Type 0} (e : Error) (o : Option A) (w : World) → (or_fail e o w).1 ≡ w
or_fail_world e none w = refl
or_fail_world e (some b) w = refl

-- What stands after an `ensure` ran, if the whole returned.
ensure_then :
    {B : Type 0} {b : B} (c : Bool) (e : Error) (k : M B) (w : World)
    → ((ensure c e >> k) w).0 ≡ ok b
    → (c ≡ true) × ((ensure c e >> k) w ≡ k w)
ensure_then true e k w h = (refl, refl)
ensure_then {b = b} false e k w h = let h' : err e ≡ ok b = h in cc

find_agent_ok :
    (text missing id user_id : String) (w : World) {a : Agent}
    → (find_agent text missing id user_id w).0 ≡ ok a
    → (agent_of id user_id w.agents ≡ some a)
      × ((find_agent text missing id user_id w).1.agents ≡ w.agents)
unfolding find_agent get_agent
find_agent_ok text missing id user_id w {a} h =
    let (o, h1, e1) =
      bind_ok (wrapping text (get_agent id user_id)) (or_fail (message missing)) w h in
    let (rest, c, le, e) =
      statement_ok (λ v. (ok (agent_of id user_id v.agents), v)) w
        (wrap_result_ok _ _ (wrap_result_ok _ _ h1)) in
    let v = (wrapping text (get_agent id user_id) w).1 in
    let same : v.agents ≡ w.agents = rw e in
    let got : (or_fail (message missing) o v).0 ≡ ok a = rw e1 at h in
    let h2 : ok (agent_of id user_id w.agents) ≡ ok o =
      rw e at (wrap_result_ok _ _ (wrap_result_ok _ _ h1)) in
    let there = or_fail_ok (message missing) o v got in
    (cc, rw (e1, or_fail_world (message missing) o v, same))

delegate_between_ok :
    (env : Environment) (opts : DelegateOptions) (from to : Agent) (w : World)
    (r : DelegationResponse)
    → (delegate_between env opts from to w).0 ≡ ok r
    → MayDelegate (for_validation from) (for_validation to) opts.description opts.max_cost_usd
unfolding delegate_between
delegate_between_ok env opts from to w r h =
    let verdict =
      validate_delegation (for_validation from) (for_validation to) opts.description
        opts.max_cost_usd in
    let last =
      check_session env opts from
      >> (check_cycle opts opts.blocked_by >> record_delegation env opts) in
    let judged = ensure verdict.allowed (message (env.reason_text verdict.reason)) >> last in
    let theirs =
      ensure (str_eq to.user_id opts.user_id) (message "you don't have access to the target agent")
      >> judged in
    let (a, ea) =
      ensure_then (str_eq from.user_id opts.user_id)
        (message "you don't have access to the delegating agent") theirs w h in
    let ha : (theirs w).0 ≡ ok r = rw ea at h in
    let (b, eb) =
      ensure_then (str_eq to.user_id opts.user_id)
        (message "you don't have access to the target agent") judged w ha in
    let hb : (judged w).0 ≡ ok r = rw eb at ha in
    let (c, ec) =
      ensure_then verdict.allowed (message (env.reason_text verdict.reason)) last w hb in
    (validate_delegation_exact (for_validation from) (for_validation to) opts.description
        opts.max_cost_usd).0
      c

-- Delegate succeeds only between two agents of the user, and only where MayDelegate holds of them.
pub delegate_authorized :
    (env : Environment) (opts : DelegateOptions) (w : World) (r : DelegationResponse)
    → (delegate env opts w).0 ≡ ok r
    → (from : Agent) × (to : Agent) × (agent_of opts.from_agent_id opts.user_id w.agents
        ≡ some from)
      × (agent_of opts.to_agent_id opts.user_id w.agents ≡ some to)
      × MayDelegate (for_validation from) (for_validation to) opts.description opts.max_cost_usd
unfolding delegate
delegate_authorized env opts w r h =
    let first_look =
      find_agent "get from agent" "delegating agent not found" opts.from_agent_id opts.user_id in
    let second_look =
      find_agent "get to agent" "target agent not found" opts.to_agent_id opts.user_id in
    let (from, hf, ef) =
      bind_ok first_look (λ from. second_look >>= delegate_between env opts from) w h in
    let v = (first_look w).1 in
    let h2 : ((second_look >>= delegate_between env opts from) v).0 ≡ ok r = rw ef at h in
    let (to, ht, et) = bind_ok second_look (delegate_between env opts from) v h2 in
    let h3 : (delegate_between env opts from to (second_look v).1).0 ≡ ok r = rw et at h2 in
    let (af, kept) = find_agent_ok _ _ _ _ w hf in
    let (at, kept2) = find_agent_ok _ _ _ _ v ht in
    (from, to, af, rw⁻¹ kept at, delegate_between_ok env opts from to _ r h3)
