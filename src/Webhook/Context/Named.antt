-- ===== src/Webhook/Context/Named.antt =====
-- What resolveWebhookContext (webhook-router/store.go) takes from the rows of its query.
use shipmates_oss.Prelude.{
  ◌≡◌, refl, sym, ap, subst, inl, inr, Bool, true, false, Option, none, some, List, [], ◌∷◌, ◌++◌,
  map, In, Bool-cases, if◌then◌else◌,
}
use shipmates_oss.Prelude.Bytes.{Bytes}
use shipmates_oss.Webhook.Context.{
  GithubConnectionRow, AgentRow, ApiKeyRow, Row, WebhookContext, not_found, found, connection_of,
  onto_agents, agents_of, or_key, key_of, text_or, is_empty, names, select_agent, context_of,
  resolved, resolve_webhook_context,
}

-- The user, the token and the secret are those of the connection in the last row; the agent and the key are of some
-- row.
pub record IsNamedBy (rows : List Row) (x : WebhookContext) : Type 0 where
  pub earlier : List Row
  pub last : Row
  pub order : rows ≡ earlier ++ (last ∷ [])
  pub user : x.user_id ≡ last.connection.user_id
  pub token : x.github_token ≡ last.connection.github_token
  pub secret : x.webhook_secret ≡ text_or [] last.connection.webhook_secret
  pub agent : AgentRow
  pub agent_row : In (some agent) (map (λ (r : Row). r.agent) rows)
  pub agent_id : x.agent_id ≡ agent.id
  pub key : ApiKeyRow
  pub key_row : In (some key) (map (λ (r : Row). r.key) rows)
  pub encrypted_key : x.encrypted_key ≡ key.api_key

abbrev IsLast : List Row → GithubConnectionRow → Type 0
IsLast rows c =
    (earlier : List Row) × (last : Row) × (rows ≡ earlier ++ (last ∷ [])) × (last.connection ≡ c)

connection_later :
    (r : Row) (rows : List Row) (c : GithubConnectionRow)
    → connection_of (some r.connection) rows ≡ some c
    → IsLast (r ∷ rows) c
connection_later r [] c h = ([], r, refl, ap (λ o. or_this o) h)
  where
    or_this : Option GithubConnectionRow → GithubConnectionRow
    or_this none = r.connection
    or_this (some k) = k
connection_later r (q ∷ rows) c h =
    let (earlier, last, order, same) = connection_later q rows c h in
    (r ∷ earlier, last, ap (λ l. r ∷ l) order, same)

connection_of-IsLast :
    (rows : List Row) (c : GithubConnectionRow) → connection_of none rows ≡ some c → IsLast rows c
connection_of-IsLast [] c h = cc
connection_of-IsLast (r ∷ rows) c h = connection_later r rows c h

onto_agents-In :
    (a : AgentRow) (o : Option AgentRow) (as' : List AgentRow) (os : List (Option AgentRow))
    → (In a as' → In (some a) os)
    → In a (onto_agents o as')
    → In (some a) (o ∷ os)
onto_agents-In a none as' os h m = inr (h m)
onto_agents-In a (some b) as' os h (inl e) = inl (ap some e)
onto_agents-In a (some b) as' os h (inr m) = inr (h m)

agents_of-In :
    (a : AgentRow) (rows : List Row)
    → In a (agents_of rows)
    → In (some a) (map (λ (r : Row). r.agent) rows)
agents_of-In a [] m = elim m [ ]
agents_of-In a (r ∷ rows) m =
    onto_agents-In a r.agent (agents_of rows) (map (λ (q : Row). q.agent) rows)
      (agents_of-In a rows) m

or_key-In :
    (k : ApiKeyRow) (o l : Option ApiKeyRow) (os : List (Option ApiKeyRow))
    → (l ≡ some k → In (some k) os)
    → or_key o l ≡ some k
    → In (some k) (o ∷ os)
or_key-In k none l os h e = inr (h e)
or_key-In k (some j) l os h e = inl (sym e)

key_of-In :
    (k : ApiKeyRow) (rows : List Row)
    → key_of rows ≡ some k
    → In (some k) (map (λ (r : Row). r.key) rows)
key_of-In k [] h = cc
key_of-In k (r ∷ rows) h =
    or_key-In k r.key (key_of rows) (map (λ (q : Row). q.key) rows) (key_of-In k rows) h

either-In :
    {x a b : AgentRow} (as' : List AgentRow) (t : Bool)
    → In x ((if t then b else a) ∷ as')
    → In x (a ∷ b ∷ as')
either-In as' true m = inr m
either-In as' false (inl e) = inl e
either-In as' false (inr m) = inr (inr m)

module _ (equal_fold : Bytes → Bytes → Bool) where
  select_agent-In :
      (repo : Bytes) (a : AgentRow) (as' : List AgentRow)
      → In (select_agent equal_fold repo a as') (a ∷ as')
  select_agent-In repo a [] = inl refl
  select_agent-In repo a (b ∷ as') =
      either-In as' (names equal_fold repo b.repos)
        (select_agent-In repo (if names equal_fold repo b.repos then b else a) as')

  resolved-IsNamedBy :
      (repo : Bytes) (rows : List Row) (c : Option GithubConnectionRow) (as' : List AgentRow)
      (k : Option ApiKeyRow) (x : WebhookContext)
      → connection_of none rows ≡ c
      → agents_of rows ≡ as'
      → key_of rows ≡ k
      → resolved equal_fold repo c as' k ≡ found x
      → IsNamedBy rows x
  resolved-IsNamedBy repo rows none as' k x hc ha hk h = cc
  resolved-IsNamedBy repo rows (some c) [] k x hc ha hk h = elim (Bool-cases (is_empty c.id)) [
    | inl e ↦ let h' : not_found _ ≡ found x = rw e at h in cc
    | inr e ↦ let h' : not_found _ ≡ found x = rw e at h in cc
  ]
  resolved-IsNamedBy repo rows (some c) (a ∷ as') none x hc ha hk h =
      elim (Bool-cases (is_empty c.id)) [
        | inl e ↦ let h' : not_found _ ≡ found x = rw e at h in cc
        | inr e ↦ let h' : not_found _ ≡ found x = rw e at h in cc
      ]
  resolved-IsNamedBy repo rows (some c) (a ∷ as') (some k) x hc ha hk h =
      elim (Bool-cases (is_empty c.id)) [
        | inl e ↦ let h' : not_found _ ≡ found x = rw e at h in cc
        | inr e ↦
            let chosen = select_agent equal_fold repo a as' in
            let h' : found (context_of equal_fold c chosen k) ≡ found x = rw e at h in
            let same : context_of equal_fold c chosen k ≡ x = cc in
            let (earlier, last, order, connection) = connection_of-IsLast rows c hc in
            subst (IsNamedBy rows) same (record {
              earlier = earlier;
              last = last;
              order = order;
              user = ap (λ (r : GithubConnectionRow). r.user_id) (sym connection);
              token = ap (λ (r : GithubConnectionRow). r.github_token) (sym connection);
              secret =
                  ap (λ (r : GithubConnectionRow). text_or [] r.webhook_secret) (sym connection);
              agent = chosen;
              agent_row =
                  agents_of-In chosen rows
                    (subst (In chosen) (sym ha) (select_agent-In repo a as'));
              agent_id = refl;
              key = k;
              key_row = key_of-In k rows hk;
              encrypted_key = refl;
            })
      ]

  -- A context that is found comes from the rows of the query.
  pub resolve_webhook_context-IsNamedBy :
      (repo : Bytes) (answer : Option (List Row)) (x : WebhookContext)
      → resolve_webhook_context equal_fold repo answer ≡ found x
      → (rows : List Row) × (answer ≡ some rows) × IsNamedBy rows x
  unfolding resolve_webhook_context
  resolve_webhook_context-IsNamedBy repo none x h = cc
  resolve_webhook_context-IsNamedBy repo (some rows) x h = (
    rows,
    refl,
    resolved-IsNamedBy repo rows (connection_of none rows) (agents_of rows) (key_of rows) x refl
        refl refl h,
  )
