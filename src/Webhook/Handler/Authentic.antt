-- ===== src/Webhook/Handler/Authentic.antt =====
-- Which events of the handler of webhook-router/main.go have an effect.
use shipmates_oss.Prelude.{
  ℕ, ◌≡◌, refl, ap, inl, inr, Bool, true, false, not, Option, none, some, List, [], ◌∷◌, ltb,
  if◌then◌else◌, drop, All, All-imp, Bool-cases, if_cases,
}
use shipmates_oss.Prelude.Bytes.{Bytes, codes, bytes_eq, has_prefix}
use shipmates_oss.Prelude.Prefixes.{bytes_eq→eq}
use shipmates_oss.Prelude.Hex.{decode}
use shipmates_oss.Engine.Json.{Numbers, Fields}
use shipmates_oss.Shared.Crypto.{Ciphers}
use shipmates_oss.Webhook.Limits.{Limits, check_rate_limit}
use shipmates_oss.Webhook.Context.{
  Row, WebhookContext, Resolved, failed, not_found, found, is_empty, resolve_webhook_context,
  IssuePipeline,
}
use shipmates_oss.Webhook.Context.Named.{IsNamedBy, resolve_webhook_context-IsNamedBy}
use shipmates_oss.Webhook.Credentials.{CachedKey, decrypt_aes256_gcm}
use shipmates_oss.Webhook.Route.{
  Request, RoutePayload, Effect, review, diagnose, queue, ip_of, is_one_of, events, is_mac, Router,
  Outcome, answer, bounded_forward, with_keys, route_of, with_api_key, with_token,
  build_route_payload, forward_to, object_of, at_key, text_at,
}
use shipmates_oss.Webhook.Handler.{
  on_object, handle_pull_request, diagnosis, handle_check_suite, handle_check_run, labels_of,
  should_queue, handle_issues, verify_hmac_signature, dispatch, verified, on_payload, on_body,
  limited, handle_webhook,
}

-- The effect is one of the user, the agent and the repository.
abbrev pub IsOf : WebhookContext → Bytes → Effect → Type 0
IsOf x repo (review q) =
    (q.route.user_id ≡ x.user_id) × (q.route.agent_id ≡ x.agent_id) × (q.repo ≡ repo)
IsOf x repo (diagnose q) =
    (q.route.user_id ≡ x.user_id) × (q.route.agent_id ≡ x.agent_id) × (q.repo ≡ repo)
IsOf x repo (queue p) = (p.user_id ≡ x.user_id) × (p.agent_id ≡ x.agent_id) × (p.repo ≡ repo)

module _ (c : Ciphers) (key : Bytes) (n : Numbers) where
  abbrev Effects : (Effect → Type 0) → Outcome c → Type 0
  Effects P o = All P o.effects

  module _ (P : Effect → Type 0) where
    bounded-Effects : (e : Effect) (s : Router c) → P e → Effects P (bounded_forward c e s)
    bounded-Effects e s p =
        if_cases (Effects P) (ltb s.forwarding 50) _ (answer c _ s) (λ q. (p, tt)) (λ q. tt)

    module _ (x : WebhookContext) (e : RoutePayload → Effect) (s : Router c)
        (p : (token api_key : Bytes) → P (e (route_of c key x token api_key))) where
      api_key-Effects :
          (token : Bytes) (r : Option Bytes × List (CachedKey c))
          → Effects P (forward_to c key e (with_api_key c key x token r) s)
      api_key-Effects token (none, keys) = tt
      api_key-Effects token (some api_key, keys) =
          bounded-Effects (e (route_of c key x token api_key)) (with_keys c keys s)
            (p token api_key)

      token-Effects :
          (r : Option Bytes × List (CachedKey c))
          → Effects P (forward_to c key e (with_token c key x r) s)
      token-Effects (none, keys) = tt
      token-Effects (some token, keys) =
          api_key-Effects token (decrypt_aes256_gcm c x.encrypted_key key keys)

      forward-Effects : Effects P (forward_to c key e (build_route_payload c key x s.keys) s)
      unfolding build_route_payload
      forward-Effects = token-Effects (decrypt_aes256_gcm c x.github_token key s.keys)

    object-Effects :
        {A : Type 0} (o : Option A) (a b : Outcome c)
        → Effects P a
        → Effects P b
        → Effects P (on_object o a b)
    object-Effects none a b p q = p
    object-Effects (some m) a b p q = q

    either-Effects :
        (t : Bool) (a b : Outcome c) → Effects P a → Effects P b → Effects P (if t then a else b)
    either-Effects true a b p q = p
    either-Effects false a b p q = q

  pull_request-IsOf :
      (payload : Fields n) (x : WebhookContext) (s : Router c)
      → Effects
          (IsOf x (
            text_at c key n
              (codes "full_name")
              (object_of c key n (at_key c key n (codes "repository") (some payload)))))
          (handle_pull_request c key n payload x s)
  unfolding handle_pull_request
  pull_request-IsOf payload x s =
      either-Effects _
        (not (
          is_one_of (codes "opened" ∷ codes "synchronize" ∷ [])
            (text_at c key n (codes "action") (some payload))))
        _ _ tt
        (object-Effects _ (object_of c key n (at_key c key n (codes "pull_request") (some payload)))
          _ _ tt (forward-Effects _ x _ s λ token api_key. (refl, refl, refl)))

  diagnosis-IsOf :
      (payload : Fields n) (x : WebhookContext) (repo : Bytes) (run suite : Option (Fields n))
      (name : Bytes) (s : Router c)
      → Effects (IsOf x repo) (diagnosis c key n payload x repo run suite name s)
  diagnosis-IsOf payload x repo run suite name s =
      either-Effects _
        (not (bytes_eq (text_at c key n (codes "action") (some payload)) (codes "completed"))) _ _
        tt
        (object-Effects _ run _ _ tt (
          either-Effects _
            (not (bytes_eq (text_at c key n (codes "conclusion") run) (codes "failure"))) _ _ tt
            (forward-Effects _ x _ s λ token api_key. (refl, refl, refl))))

  check_suite-IsOf :
      (payload : Fields n) (x : WebhookContext) (repo : Bytes) (s : Router c)
      → Effects (IsOf x repo) (handle_check_suite c key n payload x repo s)
  unfolding handle_check_suite
  check_suite-IsOf payload x repo s =
      let suite = object_of c key n (at_key c key n (codes "check_suite") (some payload)) in
      diagnosis-IsOf payload x repo suite suite (codes "check_suite") s

  check_run-IsOf :
      (payload : Fields n) (x : WebhookContext) (repo : Bytes) (s : Router c)
      → Effects (IsOf x repo) (handle_check_run c key n payload x repo s)
  unfolding handle_check_run
  check_run-IsOf payload x repo s =
      let run = object_of c key n (at_key c key n (codes "check_run") (some payload)) in
      diagnosis-IsOf payload x repo run
        (object_of c key n (at_key c key n (codes "check_suite") run))
        (text_at c key n (codes "name") run) s

  module _ (inserts : IssuePipeline → Bool) where
    issues-IsOf :
        (payload : Fields n) (x : WebhookContext) (repo : Bytes) (s : Router c)
        → Effects (IsOf x repo) (handle_issues c key n inserts payload x repo s)
    unfolding handle_issues
    issues-IsOf payload x repo s =
        let issue = object_of c key n (at_key c key n (codes "issue") (some payload)) in
        let labels = labels_of c key n (at_key c key n (codes "labels") issue) in
        object-Effects _ issue _ _ tt (
          either-Effects _ (should_queue c key n payload x labels) _ _
            (either-Effects _ (inserts _) _ _ ((refl, refl, refl), tt) tt) tt)

    module _ (unmarshal : Bytes → Option (Fields n)) (hmac_sha256 : Bytes → Bytes → Bytes)
        (equal_fold : Bytes → Bytes → Bool) (query : Bytes → Option (List Row)) where
      abbrev pub repository_of : Fields n → Bytes
      repository_of payload =
          text_at c key n (codes "full_name")
            (object_of c key n (at_key c key n (codes "repository") (some payload)))

      -- The event says that it comes from GitHub and is within the limits of its address; its body names a repository,
      -- and its signature is the hexadecimal HMAC of the body under the secret of that repository's connection.
      pub record IsAuthentic (r : Request) (now : ℕ) (s : Router c) (e : Effect) : Type 0 where
        pub agent : has_prefix r.user_agent (codes "GitHub-Hookshot/") ≡ true
        pub passed : (check_rate_limit (ip_of r) now s.limits).0 ≡ true
        pub event : is_one_of events r.event ≡ true
        pub body : Bytes
        pub payload : Fields n
        pub context : WebhookContext
        pub read : r.body ≡ some body
        pub parsed : unmarshal body ≡ some payload
        pub resolved :
            resolve_webhook_context equal_fold
              (repository_of payload)
              (query (repository_of payload))
            ≡ found context
        pub rows : List Row
        pub answered : query (repository_of payload) ≡ some rows
        pub named : IsNamedBy rows context
        pub prefix : has_prefix r.signature (codes "sha256=") ≡ true
        pub signed : decode (drop 7 r.signature) ≡ some (hmac_sha256 context.webhook_secret body)
        pub owner : IsOf context (repository_of payload) e

      dispatch-IsOf :
          (event : Bytes) (payload : Fields n) (x : WebhookContext) (s : Router c)
          → Effects (IsOf x (repository_of payload)) (
              dispatch c key n inserts unmarshal hmac_sha256 equal_fold query event payload x
                (repository_of payload)
                s)
      dispatch-IsOf event payload x s =
          let repo = repository_of payload in
          let one = handle_pull_request c key n payload x s in
          let two = handle_check_suite c key n payload x repo s in
          let three = handle_check_run c key n payload x repo s in
          let four = handle_issues c key n inserts payload x repo s in
          let last = if bytes_eq event (codes "check_run") then three else four in
          let later = if bytes_eq event (codes "check_suite") then two else last in
          either-Effects (IsOf x repo) (bytes_eq event (codes "pull_request")) one later
            (pull_request-IsOf payload x s)
            (either-Effects (IsOf x repo) (bytes_eq event (codes "check_suite")) two last
              (check_suite-IsOf payload x repo s)
              (either-Effects (IsOf x repo) (bytes_eq event (codes "check_run")) three four
                (check_run-IsOf payload x repo s) (issues-IsOf payload x repo s)))

      mac_of : (mac : Bytes) (o : Option Bytes) → is_mac mac o ≡ true → o ≡ some mac
      mac_of mac none h = cc
      mac_of mac (some expected) h = ap (λ (m : Bytes). some m) (bytes_eq→eq expected mac h)

      abbrev IsSigned : Bytes → Bytes → Bytes → Type 0
      IsSigned body signature secret =
          (has_prefix signature (codes "sha256=") ≡ true)
          × (decode (drop 7 signature) ≡ some (hmac_sha256 secret body))

      verify-IsSigned :
          (body signature secret : Bytes)
          → verify_hmac_signature c key n inserts unmarshal hmac_sha256 equal_fold query body
              signature secret
            ≡ true
          → IsSigned body signature secret
      unfolding verify_hmac_signature
      verify-IsSigned body signature secret h =
          elim (Bool-cases (has_prefix signature (codes "sha256="))) [
            | inl e ↦ (e, mac_of (hmac_sha256 secret body) (decode (drop 7 signature)) (rw e at h))
            | inr e ↦ let h' : false ≡ true = rw e at h in cc
          ]

      module _ (r : Request) (now : ℕ) (s : Router c) where
        abbrev IsJust : Outcome c → Type 0
        IsJust = Effects (IsAuthentic r now s)

        module _ (agent : has_prefix r.user_agent (codes "GitHub-Hookshot/") ≡ true)
            (passed : (check_rate_limit (ip_of r) now s.limits).0 ≡ true) (v : Router c) where
          verified-IsJust :
              (body : Bytes) (payload : Fields n) (q : Resolved)
              → r.body ≡ some body
              → unmarshal body ≡ some payload
              → is_one_of events r.event ≡ true
              → resolve_webhook_context equal_fold
                  (repository_of payload)
                  (query (repository_of payload))
                ≡ q
              → IsJust (
                  verified c key n inserts unmarshal hmac_sha256 equal_fold query body r payload
                    (repository_of payload)
                    q
                    v)
          verified-IsJust body payload failed read parsed event resolved = tt
          verified-IsJust body payload (not_found message) read parsed event resolved = tt
          verified-IsJust body payload (found x) read parsed event resolved =
              elim (Bool-cases (
                verify_hmac_signature c key n inserts unmarshal hmac_sha256 equal_fold query body
                  r.signature x.webhook_secret)) [
                    | inr e ↦ rw e tt
                    | inl e ↦
                        let (prefix, signed) =
                          verify-IsSigned body r.signature x.webhook_secret e in
                        let done = dispatch-IsOf r.event payload x v in
                        let from =
                          resolve_webhook_context-IsNamedBy equal_fold (repository_of payload)
                            (query (repository_of payload)) x resolved in
                        rw e (
                          All-imp (IsOf x (repository_of payload)) (IsAuthentic r now s) _
                            (λ f owner. record {
                              agent = agent;
                              passed = passed;
                              event = event;
                              body = body;
                              payload = payload;
                              context = x;
                              read = read;
                              parsed = parsed;
                              resolved = resolved;
                              rows = from.0;
                              answered = from.1;
                              named = from.2;
                              prefix = prefix;
                              signed = signed;
                              owner = owner;
                            })
                            done)
                  ]

          payload-IsJust :
              (body : Bytes) (o : Option (Fields n))
              → r.body ≡ some body
              → unmarshal body ≡ o
              → is_one_of events r.event ≡ true
              → IsJust
                  (on_payload c key n inserts unmarshal hmac_sha256 equal_fold query body r o v)
          payload-IsJust body none read parsed event = tt
          payload-IsJust body (some payload) read parsed event =
              elim (Bool-cases (is_empty (repository_of payload))) [
                | inl e ↦ rw e tt
                | inr e ↦ rw e (
                    verified-IsJust body payload
                      (resolve_webhook_context equal_fold (repository_of payload)
                        (query (repository_of payload)))
                      read parsed event refl)
              ]

          body-IsJust :
              (o : Option Bytes)
              → r.body ≡ o
              → IsJust (on_body c key n inserts unmarshal hmac_sha256 equal_fold query r o v)
          body-IsJust none read = tt
          body-IsJust (some body) read = elim (Bool-cases (is_one_of events r.event)) [
            | inl e ↦ rw e (payload-IsJust body (unmarshal body) read refl e)
            | inr e ↦ rw e tt
          ]

        limited-IsJust :
            (l : Bool × Limits)
            → check_rate_limit (ip_of r) now s.limits ≡ l
            → has_prefix r.user_agent (codes "GitHub-Hookshot/") ≡ true
            → IsJust (limited c key n inserts unmarshal hmac_sha256 equal_fold query r l s)
        limited-IsJust (false, l) e agent = tt
        limited-IsJust (true, l) e agent =
            body-IsJust agent (ap (λ (p : Bool × Limits). p.0) e) _ r.body refl

        -- Whatever a call of the handler forwards to a service or queues comes from an event that says it is GitHub's,
        -- that passes checkRateLimit, and that is signed with the secret of the connection in the last row that the
        -- database has for the repository of the event. It is for this repository, for the user of that connection, and
        -- for an agent of one of the rows, which need not be that of the last.
        pub handle_webhook-IsAuthentic :
            All
              (IsAuthentic r now s)
              (handle_webhook c key n inserts unmarshal hmac_sha256 equal_fold query r now
                s).effects
        unfolding handle_webhook
        handle_webhook-IsAuthentic =
            elim (Bool-cases (has_prefix r.user_agent (codes "GitHub-Hookshot/"))) [
              | inl e ↦ rw e (limited-IsJust (check_rate_limit (ip_of r) now s.limits) refl e)
              | inr e ↦ rw e tt
            ]
