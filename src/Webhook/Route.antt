-- ===== src/Webhook/Route.antt =====
-- What the handler of webhook-router/main.go reads, answers and forwards.
use shipmates_oss.Prelude.{
  ℕ, ◌+◌, Bool, false, Option, none, some, List, [], ◌∷◌, ltb, if◌then◌else◌, exists,
}
use shipmates_oss.Prelude.Bytes.{Bytes, codes, bytes_eq, split_on, trim_space}
use shipmates_oss.Engine.Json.{Numbers, Json, Fields, array, object, cons, get, text_of, number_of}
use shipmates_oss.Shared.Crypto.{Ciphers}
use shipmates_oss.Webhook.Limits.{Limits}
use shipmates_oss.Webhook.Context.{WebhookContext, text_or, is_empty, IssuePipeline}
use shipmates_oss.Webhook.Credentials.{CachedKey, decrypt_aes256_gcm}

pub record Request : Type 0 where
  pub user_agent : Bytes
  pub forwarded_for : Bytes
  -- the host of RemoteAddr; none where it has no port
  pub remote_host : Option Bytes
  -- none where it is longer than 1 MiB
  pub body : Option Bytes
  pub event : Bytes
  pub signature : Bytes

pub record RoutePayload : Type 0 where
  pub user_id : Bytes
  pub agent_id : Bytes
  pub agent_name : Bytes
  pub agent_role : Bytes
  pub personality : Bytes
  pub github_token : Bytes
  pub provider : Bytes
  pub api_key : Bytes
  pub base_url : Bytes
  pub model_id : Bytes

pub record ReviewRequest : Type 0 where
  pub route : RoutePayload
  pub repo : Bytes
  pub pr_number : ℕ
  pub pr_title : Bytes
  pub pr_body : Bytes
  pub action : Bytes

pub record DiagnosisRequest : Type 0 where
  pub route : RoutePayload
  pub repo : Bytes
  pub pr_number : ℕ
  pub commit_sha : Bytes
  pub workflow_name : Bytes
  pub run_id : ℕ

pub data Effect : Type 0 where
  review : ReviewRequest → Effect
  diagnose : DiagnosisRequest → Effect
  queue : IssuePipeline → Effect

pub data Reply : Type 0 where
  ignored : Reply
  forwarded : Reply
  queued : Reply
  error : ℕ → Bytes → Reply

abbrev pub forward_slots : ℕ
forward_slots = 50

-- Where the client is.
abbrev pub first_of : List Bytes → Bytes
first_of [] = []
first_of (s ∷ ss) = s

abbrev pub ip_of : Request → Bytes
ip_of r =
    if is_empty r.forwarded_for
    then text_or (codes "unknown") r.remote_host
    else trim_space (first_of (split_on b',' r.forwarded_for))

abbrev pub is_one_of : List Bytes → Bytes → Bool
is_one_of ss s = exists (bytes_eq s) ss

abbrev pub events : List Bytes
events = codes "pull_request" ∷ codes "check_suite" ∷ codes "check_run" ∷ codes "issues" ∷ []

abbrev pub is_mac : Bytes → Option Bytes → Bool
is_mac mac none = false
is_mac mac (some expected) = bytes_eq expected mac

module _ (c : Ciphers) where
  pub record Router : Type 0 where
    pub limits : Limits
    pub keys : List (CachedKey c)
    -- the forwards on their way
    pub forwarding : ℕ

  pub record Outcome : Type 0 where
    pub reply : Reply
    pub effects : List Effect
    pub router : Router

  abbrev pub answer : Reply → Router → Outcome
  answer reply s = record { reply = reply; effects = []; router = s }

  abbrev pub with_keys : List (CachedKey c) → Router → Router
  with_keys keys s = record { limits = s.limits; keys = keys; forwarding = s.forwarding }

  -- boundedForward drops what finds no slot; the answer is the same.
  abbrev pub bounded_forward : Effect → Router → Outcome
  bounded_forward e s =
      if ltb s.forwarding forward_slots
      then record {
        reply = forwarded;
        effects = e ∷ [];
        router = record { limits = s.limits; keys = s.keys; forwarding = s.forwarding + 1 };
      }
      else answer forwarded s

  module _ (encryption_key : Bytes) where
    abbrev pub route_of : WebhookContext → Bytes → Bytes → RoutePayload
    route_of x github_token api_key = record {
      user_id = x.user_id;
      agent_id = x.agent_id;
      agent_name = x.agent_name;
      agent_role = x.agent_role;
      personality = x.personality;
      github_token = github_token;
      provider = x.provider;
      api_key = api_key;
      base_url = x.base_url;
      model_id = x.model_id;
    }

    abbrev pub with_api_key :
        WebhookContext
        → Bytes
        → Option Bytes × List (CachedKey c)
        → Option RoutePayload × List (CachedKey c)
    with_api_key x github_token (none, keys) = (none, keys)
    with_api_key x github_token (some api_key, keys) =
        (some (route_of x github_token api_key), keys)

    abbrev pub with_token :
        WebhookContext
        → Option Bytes × List (CachedKey c)
        → Option RoutePayload × List (CachedKey c)
    with_token x (none, keys) = (none, keys)
    with_token x (some github_token, keys) =
        with_api_key x github_token (decrypt_aes256_gcm c x.encrypted_key encryption_key keys)

    unfoldable pub build_route_payload :
        WebhookContext → List (CachedKey c) → Option RoutePayload × List (CachedKey c)
    unfolding decrypt_aes256_gcm
    build_route_payload x keys =
        with_token x (decrypt_aes256_gcm c x.github_token encryption_key keys)

    abbrev pub forward_to :
        (RoutePayload → Effect) → Option RoutePayload × List (CachedKey c) → Router → Outcome
    forward_to e (none, keys) s =
        answer (error 500 (codes "failed to decrypt credentials")) (with_keys keys s)
    forward_to e (some route, keys) s = bounded_forward (e route) (with_keys keys s)

    module _ (n : Numbers) where
      abbrev pub object_of : Option (Json n) → Option (Fields n)
      object_of (some (object m)) = some m
      object_of _ = none

      -- A read of a map that may be nil
      abbrev pub at_key : Bytes → Option (Fields n) → Option (Json n)
      at_key key none = none
      at_key key (some m) = get n key m

      abbrev pub text_at : Bytes → Option (Fields n) → Bytes
      text_at key m = text_or [] (text_of n (at_key key m))

      abbrev pub whole : Option n.Number → ℕ
      whole none = 0
      whole (some x) = n.to_int x

      abbrev pub number_at : Bytes → Option (Fields n) → ℕ
      number_at key m = whole (number_of n (at_key key m))

      abbrev pub first_item : Option (Json n) → Option (Json n)
      first_item (some (array (cons v vs))) = some v
      first_item _ = none

      -- The number of the first pull request of a check suite
      abbrev pub first_pr : Option (Fields n) → ℕ
      first_pr suite =
          number_at (codes "number") (object_of (first_item (at_key (codes "pull_requests") suite)))
