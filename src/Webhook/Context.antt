-- ===== src/Webhook/Context.antt =====
-- webhook-router/store.go: whose repository an event is about. The query gives rows, in an order, or fails; the
-- scope of an agent is what json.Unmarshal makes of it; strings.EqualFold is a parameter.
pub mod Named
use shipmates_oss.Prelude.{
  ℕ, Bool, false, Option, none, some, List, [], ◌∷◌, ltb, ◌==◌, if◌then◌else◌, exists, length, take,
}
use shipmates_oss.Prelude.Bytes.{Bytes, codes}

pub record GithubConnectionRow : Type 0 where
  pub id : Bytes
  pub user_id : Bytes
  pub github_token : Bytes
  pub webhook_secret : Option Bytes
  pub issue_label : Option Bytes

pub record AgentRow : Type 0 where
  pub id : Bytes
  pub name : Bytes
  pub role : Bytes
  pub personality : Bytes
  -- the repositories of its scope; none where the scope is not JSON
  pub repos : Option (List Bytes)

pub record ApiKeyRow : Type 0 where
  pub id : Bytes
  pub provider : Bytes
  pub api_key : Bytes
  pub base_url : Option Bytes
  pub model_id : Option Bytes

pub record Row : Type 0 where
  pub connection : GithubConnectionRow
  pub agent : Option AgentRow
  pub key : Option ApiKeyRow

pub record WebhookContext : Type 0 where
  pub user_id : Bytes
  pub agent_id : Bytes
  pub agent_name : Bytes
  pub agent_role : Bytes
  pub personality : Bytes
  pub github_token : Bytes
  pub api_key_id : Bytes
  pub provider : Bytes
  pub encrypted_key : Bytes
  pub base_url : Bytes
  pub model_id : Bytes
  pub webhook_secret : Bytes
  pub issue_label : Bytes

pub data Resolved : Type 0 where
  failed : Resolved
  not_found : Bytes → Resolved
  found : WebhookContext → Resolved

-- The last row's; of no row the empty one.
abbrev pub connection_of : Option GithubConnectionRow → List Row → Option GithubConnectionRow
connection_of c [] = c
connection_of c (r ∷ rs) = connection_of (some r.connection) rs

abbrev pub onto_agents : Option AgentRow → List AgentRow → List AgentRow
onto_agents none as' = as'
onto_agents (some a) as' = a ∷ as'

abbrev pub agents_of : List Row → List AgentRow
agents_of [] = []
agents_of (r ∷ rs) = onto_agents r.agent (agents_of rs)

abbrev pub or_key : Option ApiKeyRow → Option ApiKeyRow → Option ApiKeyRow
or_key none k = k
or_key (some k) l = some k

abbrev pub key_of : List Row → Option ApiKeyRow
key_of [] = none
key_of (r ∷ rs) = or_key r.key (key_of rs)

abbrev pub text_or : Bytes → Option Bytes → Bytes
text_or s none = s
text_or s (some t) = t

abbrev pub is_empty : Bytes → Bool
is_empty s = length s == 0

abbrev pub label_of : Option Bytes → Bytes
label_of none = codes "shipmates"
label_of (some s) = if is_empty s then codes "shipmates" else s

module _ (equal_fold : Bytes → Bytes → Bool) where
  abbrev pub names : Bytes → Option (List Bytes) → Bool
  names repo none = false
  names repo (some repos) = exists (λ r. equal_fold r repo) repos

  -- The loop over the agents: the first, unless a later one names the repository, then the last that does.
  abbrev pub select_agent : Bytes → AgentRow → List AgentRow → AgentRow
  select_agent repo selected [] = selected
  select_agent repo selected (a ∷ as') =
      select_agent repo (if names repo a.repos then a else selected) as'

  abbrev pub context_of : GithubConnectionRow → AgentRow → ApiKeyRow → WebhookContext
  context_of c a k = record {
    user_id = c.user_id;
    agent_id = a.id;
    agent_name = a.name;
    agent_role = a.role;
    personality = a.personality;
    github_token = c.github_token;
    api_key_id = k.id;
    provider = k.provider;
    encrypted_key = k.api_key;
    base_url = text_or [] k.base_url;
    model_id = text_or [] k.model_id;
    webhook_secret = text_or [] c.webhook_secret;
    issue_label = label_of c.issue_label;
  }

  abbrev pub resolved :
      Bytes → Option GithubConnectionRow → List AgentRow → Option ApiKeyRow → Resolved
  resolved repo none as' k = not_found (codes "no matching github connection")
  resolved repo (some c) [] k =
      if is_empty c.id
      then not_found (codes "no matching github connection")
      else not_found (codes "no agent configured")
  resolved repo (some c) (a ∷ as') none =
      if is_empty c.id
      then not_found (codes "no matching github connection")
      else not_found (codes "no API key configured")
  resolved repo (some c) (a ∷ as') (some k) =
      if is_empty c.id
      then not_found (codes "no matching github connection")
      else found (context_of c (select_agent repo a as') k)

  unfoldable pub resolve_webhook_context : Bytes → Option (List Row) → Resolved
  resolve_webhook_context repo none = failed
  resolve_webhook_context repo (some rows) =
      resolved repo (connection_of none rows) (agents_of rows) (key_of rows)

pub record IssuePipeline : Type 0 where
  pub user_id : Bytes
  pub agent_id : Bytes
  pub repo : Bytes
  pub issue_number : ℕ
  pub issue_title : Bytes
  pub issue_body : Bytes
  pub labels : List Bytes

-- What createIssuePipeline inserts, as pending.
abbrev pub create_issue_pipeline :
    WebhookContext → Bytes → ℕ → Bytes → Bytes → List Bytes → IssuePipeline
create_issue_pipeline x repo number title body labels = record {
  user_id = x.user_id;
  agent_id = x.agent_id;
  repo = repo;
  issue_number = number;
  issue_title = title;
  issue_body = if ltb 10000 (length body) then take 10000 body else body;
  labels = labels;
}
