-- ===== src/Conversation/Router/Sticky.antt =====
-- Who gets the messages that name no agent (bot/conversation/router.go).
use shipmates_oss.Prelude.{
  ℕ, ◌≡◌, refl, ap, ◌∙◌, ◌⊎◌, inl, inr, true, false, Option, none, some, List, [], ◌∷◌, ◌==◌,
  length, exists, Bool-cases, All, In, arith,
}
use shipmates_oss.Prelude.Bytes.{Bytes, bytes_eq, trim_space}
use shipmates_oss.Prelude.Prefixes.{bytes_eq_refl, bytes_eq→eq}
use shipmates_oss.Conversation.Router.{
  AgentConfig, LastAddressed, get_last_agent_key, RoutingResult, find_first, agent_name_of, change,
  address, extract_words, first_named, result_of, to_last, routed, route_message,
}

-- A call of RouteMessage
pub record Message : Type 0 where
  pub text : Bytes
  pub agents : List AgentConfig
  pub guild_id : Bytes
  pub user_id : Bytes
  pub now : ℕ

abbrev pub sender : Message → Bytes
sender m = get_last_agent_key m.guild_id m.user_id

change_names :
    (k l : Bytes) (f : LastAddressed → LastAddressed)
    → ((e : LastAddressed) → (f e).key ≡ e.key)
    → ((e : LastAddressed) → (f e).agent_name ≡ e.agent_name)
    → (es : List LastAddressed) → agent_name_of l (change k f es) ≡ agent_name_of l es
change_names k l f same_key same_name [] = refl
change_names k l f same_key same_name (e ∷ es) = elim (Bool-cases (bytes_eq e.key k)) [
  | inl q ↦ rw (q, same_key e, same_name e, change_names k l f same_key same_name es) refl
  | inr q ↦ rw (q, change_names k l f same_key same_name es) refl
]

module _ (name : Bytes) (now : ℕ) where
  abbrev set_entry : LastAddressed → LastAddressed
  set_entry e = record { key = e.key; agent_name = name; last_accessed = now }

  change_to :
      (k : Bytes) (es : List LastAddressed)
      → exists (λ (e : LastAddressed). bytes_eq e.key k) es ≡ true
      → agent_name_of k (change k set_entry es) ≡ some name
  change_to k [] h = cc
  change_to k (e ∷ es) h = elim (Bool-cases (bytes_eq e.key k)) [
    | inl q ↦ rw (q, q) refl
    | inr q ↦ rw (q, q) (change_to k es (rw q at h))
  ]

  address_to :
      (k : Bytes) (es : List LastAddressed) → agent_name_of k (address k name now es) ≡ some name
  unfolding address
  address_to k es = elim (Bool-cases (exists (λ (e : LastAddressed). bytes_eq e.key k) es)) [
    | inl q ↦ rw q (change_to k es q)
    | inr q ↦ rw (q, bytes_eq_refl k) refl
  ]

  change_others :
      (k l : Bytes) (es : List LastAddressed)
      → bytes_eq k l ≡ false
      → agent_name_of l (change k set_entry es) ≡ agent_name_of l es
  change_others k l [] d = refl
  change_others k l (e ∷ es) d = elim (Bool-cases (bytes_eq e.key k)) [
    | inl q ↦
        let other : bytes_eq e.key l ≡ false = ap (λ x. bytes_eq x l) (bytes_eq→eq e.key k q) ∙ d in
        rw (q, other, change_others k l es d) refl
    | inr q ↦ rw (q, change_others k l es d) refl
  ]

  address_others :
      (k l : Bytes) (es : List LastAddressed)
      → bytes_eq k l ≡ false
      → agent_name_of l (address k name now es) ≡ agent_name_of l es
  unfolding address
  address_others k l es d =
      elim (Bool-cases (exists (λ (e : LastAddressed). bytes_eq e.key k) es)) [
        | inl q ↦ rw q (change_others k l es d)
        | inr q ↦ rw (q, d) refl
      ]

find_named :
    (a : AgentConfig) (agents : List AgentConfig)
    → In a agents
    → (b : AgentConfig) × In b agents
      × (b.name ≡ a.name)
      × (find_first (λ (c : AgentConfig). bytes_eq c.name a.name) agents ≡ some b)
find_named a [] m = elim m [ ]
find_named a (c ∷ agents) m = elim (Bool-cases (bytes_eq c.name a.name)) [
  | inl q ↦ (c, inl refl, bytes_eq→eq c.name a.name q, rw q refl)
  | inr q ↦ elim m [
    | inl e ↦ absurd (
        let same = ap (λ (x : AgentConfig). bytes_eq x.name a.name) e ∙ q in
        let r = bytes_eq_refl a.name in ground arith)
    | inr there ↦
        let (b, at_b, n, found) = find_named a agents there in (b, inr at_b, n, rw q found)
  ]
]

module _ (to_lower to_upper : Bytes → Bytes) where
  abbrev pub named : Message → Option AgentConfig
  named m =
      first_named to_lower to_upper m.agents (extract_words to_lower to_upper (trim_space m.text))

  abbrev pub send : Message → List LastAddressed → Option RoutingResult × List LastAddressed
  send m es = route_message to_lower to_upper m.text m.agents m.guild_id m.user_id m.now es

  abbrev pub send_all : List Message → List LastAddressed → List LastAddressed
  send_all [] es = es
  send_all (m ∷ ms) es = send_all ms (send m es).1

  -- Of another sender, or without the name of an agent.
  abbrev pub IsNeutral : Bytes → Message → Type 0
  IsNeutral k m = (bytes_eq (sender m) k ≡ false) ⊎ (named m ≡ none)

  to_last_keeps :
      (message : Bytes) (agents : List AgentConfig) (k l : Bytes) (now : ℕ) (o : Option Bytes)
      (es : List LastAddressed)
      → agent_name_of l (to_last to_lower to_upper message agents k now o es).1 ≡ agent_name_of l es
  to_last_keeps message agents k l now none es = refl
  to_last_keeps message agents k l now (some name) es =
      change_names k l _ (λ e. refl) (λ e. refl) es

  routed_keeps :
      (message : Bytes) (agents : List AgentConfig) (k l : Bytes) (now : ℕ) (o : Option AgentConfig)
      (es : List LastAddressed)
      → (bytes_eq k l ≡ false) ⊎ (o ≡ none)
      → agent_name_of l (routed to_lower to_upper message agents k now o es).1 ≡ agent_name_of l es
  routed_keeps message agents k l now none es d =
      to_last_keeps message agents k l now (agent_name_of k es) es
  routed_keeps message agents k l now (some a) es (inl d) = address_others a.name now k l es d
  routed_keeps message agents k l now (some a) es (inr e) = let e' : some a ≡ none = e in cc

  send_keeps :
      (k : Bytes) (m : Message) (es : List LastAddressed)
      → IsNeutral k m
      → agent_name_of k (send m es).1 ≡ agent_name_of k es
  unfolding route_message
  send_keeps k m es d = elim (Bool-cases (length (trim_space m.text) == 0)) [
    | inl e ↦ rw e refl
    | inr e ↦ rw e (routed_keeps (trim_space m.text) m.agents (sender m) k m.now (named m) es d)
  ]

  send_all_keeps :
      (k : Bytes) (ms : List Message) (es : List LastAddressed)
      → All (IsNeutral k) ms
      → agent_name_of k (send_all ms es) ≡ agent_name_of k es
  send_all_keeps k [] es d = refl
  send_all_keeps k (m ∷ ms) es d = send_all_keeps k ms (send m es).1 d.1 ∙ send_keeps k m es d.0

  -- A message that says something and names an agent, or none.
  abbrev pub Calls : Message → Option AgentConfig → Type 0
  Calls m o = ((length (trim_space m.text) == 0) ≡ false) × (named m ≡ o)

  send_named :
      (m : Message) (a : AgentConfig) (es : List LastAddressed)
      → Calls m (some a)
      → agent_name_of (sender m) (send m es).1 ≡ some a.name
  unfolding route_message
  send_named m a es c = rw (c.0, c.1) (address_to a.name m.now (sender m) es)

  send_unnamed :
      (m : Message) (name : Bytes) (es : List LastAddressed)
      → Calls m none
      → agent_name_of (sender m) es ≡ some name
      → (send m es).0
        ≡ result_of to_lower to_upper
            (trim_space m.text)
            (find_first (λ (c : AgentConfig). bytes_eq c.name name) m.agents)
  unfolding route_message
  send_unnamed m name es c h = rw (c.0, c.1, h) refl

  -- After a message that names an agent, a message of the same user and guild that names none goes, with its text
  -- trimmed, to an agent of the same name, if the agent is still there: whatever messages others send in
  -- between, and whatever else the user says that names no agent. No cleanup comes in between.
  pub route_message_sticky :
      (asks : Message) (a : AgentConfig) (between : List Message) (follows : Message)
      (es : List LastAddressed)
      → Calls asks (some a)
      → All (IsNeutral (sender asks)) between
      → sender follows ≡ sender asks
      → Calls follows none
      → In a follows.agents
      → (b : AgentConfig) × In b follows.agents
        × (b.name ≡ a.name)
        × ((send follows (send_all between (send asks es).1)).0
            ≡ some (record { agent = b; message = trim_space follows.text }))
  route_message_sticky asks a between follows es named_a neutral same none_named there =
      let last =
        ap (λ k. agent_name_of k (send_all between (send asks es).1)) same
        ∙ send_all_keeps (sender asks) between (send asks es).1 neutral
        ∙ send_named asks a es named_a in
      let (b, at_b, n, found) = find_named a follows.agents there in
      (
        b,
        at_b,
        n,
        send_unnamed follows a.name (send_all between (send asks es).1) none_named last
            ∙ ap (result_of to_lower to_upper (trim_space follows.text)) found,
      )
