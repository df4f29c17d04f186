-- ===== src/Webhook/Handler.antt =====
-- The handler of webhook-router/main.go, from a request to its answer and to what it forwards or queues.
-- json.Unmarshal, HMAC-SHA256 and the database are parameters. A call of the handler is one step.
pub mod Authentic
use shipmates_oss.Prelude.{
  ℕ, ◌+◌, ◌-◌, Bool, true, false, not, ◌&&◌, ◌||◌, Option, none, some, List, [], ◌∷◌, ◌++◌, ltb,
  ◌==◌, if◌then◌else◌, exists, length, drop,
}
use shipmates_oss.Prelude.Bytes.{Bytes, codes, bytes_eq, has_prefix, split_on, trim_space}
use shipmates_oss.Prelude.Hex.{decode}
use shipmates_oss.Engine.Json.{
  Numbers, Json, Items, Fields, null, boolean, number, text, array, object, nil, cons, end, field,
  get, text_of, number_of,
}
use shipmates_oss.Shared.Crypto.{Ciphers}
use shipmates_oss.Webhook.Limits.{Limits, check_rate_limit}
use shipmates_oss.Webhook.Context.{
  Row, WebhookContext, Resolved, failed, not_found, found, text_or, is_empty,
  resolve_webhook_context, IssuePipeline, create_issue_pipeline,
}
use shipmates_oss.Webhook.Route.{
  Request, RoutePayload, Effect, review, diagnose, queue, Reply, ignored, forwarded, queued, error,
  ip_of, is_one_of, events, is_mac, Router, Outcome, answer, build_route_payload, forward_to,
  object_of, at_key, text_at, number_at, first_pr,
}

-- The two cases of a pointer to a map
abbrev pub on_object : {A B : Type 0} → Option A → B → B → B
on_object none b b' = b
on_object (some a) b b' = b'

module _ (c : Ciphers) (key : Bytes) (n : Numbers) where
  unfoldable pub handle_pull_request : Fields n → WebhookContext → Router c → Outcome c
  unfolding build_route_payload
  handle_pull_request payload x s =
      let action = text_at c key n (codes "action") (some payload) in
      let pr = object_of c key n (at_key c key n (codes "pull_request") (some payload)) in
      let request = λ (route : RoutePayload). review (record {
        route = route;
        repo =
            text_at c key n (codes "full_name")
              (object_of c key n (at_key c key n (codes "repository") (some payload)));
        pr_number = number_at c key n (codes "number") pr;
        pr_title = text_at c key n (codes "title") pr;
        pr_body = text_at c key n (codes "body") pr;
        action = action;
      }) in
      if not (is_one_of (codes "opened" ∷ codes "synchronize" ∷ []) action)
      then answer c ignored s
      else on_object pr (answer c (error 400 (codes "missing pull_request data")) s)
          (forward_to c key request (build_route_payload c key x s.keys) s)

  abbrev pub diagnosis :
      Fields n
      → WebhookContext
      → Bytes
      → Option (Fields n)
      → Option (Fields n)
      → Bytes
      → Router c
      → Outcome c
  diagnosis payload x repo run suite name s =
      let request = λ (route : RoutePayload). diagnose (record {
        route = route;
        repo = repo;
        pr_number = first_pr c key n suite;
        commit_sha = text_at c key n (codes "head_sha") run;
        workflow_name = name;
        run_id = 0;
      }) in
      if not (bytes_eq (text_at c key n (codes "action") (some payload)) (codes "completed"))
      then answer c ignored s
      else on_object run (answer c ignored s) (
          if not (bytes_eq (text_at c key n (codes "conclusion") run) (codes "failure"))
          then answer c ignored s
          else forward_to c key request (build_route_payload c key x s.keys) s)

  unfoldable pub handle_check_suite : Fields n → WebhookContext → Bytes → Router c → Outcome c
  unfolding build_route_payload
  handle_check_suite payload x repo s =
      let suite = object_of c key n (at_key c key n (codes "check_suite") (some payload)) in
      diagnosis payload x repo suite suite (codes "check_suite") s

  unfoldable pub handle_check_run : Fields n → WebhookContext → Bytes → Router c → Outcome c
  unfolding build_route_payload
  handle_check_run payload x repo s =
      let run = object_of c key n (at_key c key n (codes "check_run") (some payload)) in
      let suite = object_of c key n (at_key c key n (codes "check_suite") run) in
      diagnosis payload x repo run suite (text_at c key n (codes "name") run) s

  abbrev pub onto_name : Option Bytes → List Bytes → List Bytes
  onto_name none ss = ss
  onto_name (some s) ss = s ∷ ss

  -- The names of the labels that have one
  abbrev pub names_of : Items n → List Bytes
  names_of nil = []
  names_of (cons v vs) =
      onto_name (text_of n (at_key c key n (codes "name") (object_of c key n (some v))))
        (names_of vs)

  abbrev pub labels_of : Option (Json n) → List Bytes
  labels_of (some (array vs)) = names_of vs
  labels_of _ = []

  abbrev pub is_label : Bytes → Option Bytes → Bool
  is_label label none = false
  is_label label (some s) = bytes_eq s label

  -- The label was set, or the issue was opened with it.
  abbrev pub should_queue : Fields n → WebhookContext → List Bytes → Bool
  should_queue payload x labels =
      let action = text_at c key n (codes "action") (some payload) in
      let set = is_label x.issue_label (
        text_of n (
          at_key c key n (codes "name")
            (object_of c key n (at_key c key n (codes "label") (some payload))))) in
      if bytes_eq action (codes "labeled")
      then set
      else if bytes_eq action (codes "opened")
      then is_one_of labels x.issue_label
      else false

  module _ (inserts : IssuePipeline → Bool) where
    abbrev pub insert : IssuePipeline → Router c → Outcome c
    insert p s =
        if inserts p
        then record { reply = queued; effects = queue p ∷ []; router = s }
        else answer c (error 500 (codes "failed to queue issue")) s

    unfoldable pub handle_issues : Fields n → WebhookContext → Bytes → Router c → Outcome c
    handle_issues payload x repo s =
        let issue = object_of c key n (at_key c key n (codes "issue") (some payload)) in
        let labels = labels_of (at_key c key n (codes "labels") issue) in
        let pipeline =
          create_issue_pipeline x repo (number_at c key n (codes "number") issue)
            (text_at c key n (codes "title") issue) (text_at c key n (codes "body") issue) labels in
        on_object issue (answer c (error 400 (codes "missing issue data")) s)
          (if should_queue payload x labels then insert pipeline s else answer c ignored s)

    module _ (unmarshal : Bytes → Option (Fields n)) (hmac_sha256 : Bytes → Bytes → Bytes)
        (equal_fold : Bytes → Bytes → Bool) (query : Bytes → Option (List Row)) where
      unfoldable pub verify_hmac_signature : Bytes → Bytes → Bytes → Bool
      verify_hmac_signature payload signature secret =
          if has_prefix signature (codes "sha256=")
          then is_mac (hmac_sha256 secret payload)
              (decode (drop (length (codes "sha256=")) signature))
          else false

      abbrev pub dispatch : Bytes → Fields n → WebhookContext → Bytes → Router c → Outcome c
      dispatch event payload x repo s =
          if bytes_eq event (codes "pull_request")
          then handle_pull_request payload x s
          else if bytes_eq event (codes "check_suite")
          then handle_check_suite payload x repo s
          else if bytes_eq event (codes "check_run")
          then handle_check_run payload x repo s
          else handle_issues payload x repo s

      abbrev pub verified : Bytes → Request → Fields n → Bytes → Resolved → Router c → Outcome c
      verified body r payload repo failed s =
          answer c (error 500 (codes "failed to resolve webhook context")) s
      verified body r payload repo (not_found message) s = answer c (error 404 message) s
      verified body r payload repo (found x) s =
          if verify_hmac_signature body r.signature x.webhook_secret
          then dispatch r.event payload x repo s
          else answer c (error 401 (codes "invalid signature")) s

      abbrev pub on_payload : Bytes → Request → Option (Fields n) → Router c → Outcome c
      on_payload body r none s = answer c (error 400 (codes "invalid JSON payload")) s
      on_payload body r (some payload) s =
          let repo =
            text_at c key n (codes "full_name")
              (object_of c key n (at_key c key n (codes "repository") (some payload))) in
          if is_empty repo
          then answer c (error 400 (codes "missing repository")) s
          else verified body r payload repo (resolve_webhook_context equal_fold repo (query repo)) s

      abbrev pub on_body : Request → Option Bytes → Router c → Outcome c
      on_body r none s = answer c (error 400 (codes "request body too large")) s
      on_body r (some body) s =
          if is_one_of events r.event
          then on_payload body r (unmarshal body) s
          else answer c ignored s

      abbrev pub limited : Request → Bool × Limits → Router c → Outcome c
      limited r (false, l) s =
          answer c (error 429 (codes "rate limit exceeded, retry after 60 seconds"))
            (record { limits = l; keys = s.keys; forwarding = s.forwarding })
      limited r (true, l) s =
          on_body r r.body (record { limits = l; keys = s.keys; forwarding = s.forwarding })

      unfoldable pub handle_webhook : Request → ℕ → Router c → Outcome c
      unfolding check_rate_limit verify_hmac_signature handle_pull_request handle_check_suite
          handle_check_run handle_issues resolve_webhook_context
      handle_webhook r now s =
          if has_prefix r.user_agent (codes "GitHub-Hookshot/")
          then limited r (check_rate_limit (ip_of r) now s.limits) s
          else answer c (error 403 (codes "invalid User-Agent")) s
