-- ===== src/Conversation/Router.antt =====
-- bot/conversation/router.go: which agent a message goes to. The texts in another case are parameters; what
-- sort.Slice makes of the entries, in the order in which the map gave them, is one too.
pub mod Code
pub mod Sticky
use shipmates_oss.Prelude.{
  ℕ, zero, suc, ◌+◌, ◌-◌, Bool, true, false, not, ◌&&◌, ◌||◌, Option, none, some, List, [], ◌∷◌,
  ◌++◌, map, leb, ltb, ◌==◌, if◌then◌else◌, length, take, select, exists, first,
}
use shipmates_oss.Prelude.Bytes.{Bytes, codes, bytes_eq, split_on, trim_space}

-- What the router reads of an agent.
pub record AgentConfig : Type 0 where
  pub id : Bytes
  pub name : Bytes

-- An entry of lastAddressed, and its key
pub record LastAddressed : Type 0 where
  pub key : Bytes
  pub agent_name : Bytes
  pub last_accessed : ℕ

abbrev pub last_addressed_ttl : ℕ
last_addressed_ttl = 3600

abbrev pub last_addressed_max_size : ℕ
last_addressed_max_size = 10000

abbrev pub remove_each : List LastAddressed → List LastAddressed → List LastAddressed
remove_each [] l = l
remove_each (e ∷ es) l =
    remove_each es (select (λ (x : LastAddressed). not (bytes_eq x.key e.key)) l)

-- Times are seconds since 1970, and the first hour of it is over.
unfoldable pub cleanup :
    (List LastAddressed → List LastAddressed) → ℕ → List LastAddressed → List LastAddressed
cleanup sort now l =
    let recent =
      select (λ (e : LastAddressed). not (ltb e.last_accessed (now - last_addressed_ttl))) l in
    let to_delete = length recent - last_addressed_max_size in
    if ltb last_addressed_max_size (length recent)
    then remove_each (take to_delete (sort recent)) recent
    else recent

abbrev among : ℕ → Bytes → Bool
among c s = exists (λ d. d == c) s

-- soundexCodeMap; 0 stands for no code.
abbrev pub soundex_code : ℕ → ℕ
soundex_code c =
    if among c (codes "BFPV")
    then b'1'
    else if among c (codes "CGJKQSXZ")
    then b'2'
    else if among c (codes "DT")
    then b'3'
    else if among c (codes "L")
    then b'4'
    else if among c (codes "MN")
    then b'5'
    else if among c (codes "R")
    then b'6'
    else 0

-- The loop: how many digits are still wanted, and the last code.
unfoldable pub soundex_digits : ℕ → ℕ → Bytes → Bytes
soundex_digits zero last s = []
soundex_digits (suc room) last [] = []
soundex_digits (suc room) last (c ∷ s) =
    let code = soundex_code c in
    let taken = code ∷ soundex_digits room code s in
    let passed = soundex_digits (suc room) (if code == 0 then last else code) s in
    if not (code == 0) && not (code == last) then taken else passed

abbrev pub is_upper : ℕ → Bool
is_upper c = leb b'A' c && leb c b'Z'

abbrev pub is_lower : ℕ → Bool
is_lower c = leb b'a' c && leb c b'z'

abbrev pub soundex_of : Bytes → Bytes
soundex_of [] = codes "0000"
soundex_of (c ∷ s) = take 4 ((c ∷ soundex_digits 3 (soundex_code c) s) ++ codes "0000")

abbrev pub get_last_agent_key : Bytes → Bytes → Bytes
get_last_agent_key guild_id user_id = guild_id ++ (b':' ∷ user_id)

pub record RoutingResult : Type 0 where
  pub agent : AgentConfig
  pub message : Bytes

abbrev pub find_first : (AgentConfig → Bool) → List AgentConfig → Option AgentConfig
find_first p [] = none
find_first p (a ∷ as') = let rest = find_first p as' in if p a then some a else rest

abbrev pub or_else : Option AgentConfig → Option AgentConfig → Option AgentConfig
or_else none o = o
or_else (some a) o = some a

abbrev pub agent_name_of : Bytes → List LastAddressed → Option Bytes
agent_name_of k [] = none
agent_name_of k (e ∷ es) =
    let rest = agent_name_of k es in if bytes_eq e.key k then some e.agent_name else rest

abbrev pub change :
    Bytes → (LastAddressed → LastAddressed) → List LastAddressed → List LastAddressed
change k f = map (λ (e : LastAddressed). if bytes_eq e.key k then f e else e)

-- The entry of a key is set, or there is a new one.
unfoldable pub address : Bytes → Bytes → ℕ → List LastAddressed → List LastAddressed
address k name now l =
    if exists (λ (e : LastAddressed). bytes_eq e.key k) l
    then change k (λ e. record { key = e.key; agent_name = name; last_accessed = now }) l
    else record { key = k; agent_name = name; last_accessed = now } ∷ l

module _ (to_lower to_upper : Bytes → Bytes) where
  unfoldable pub soundex : Bytes → Bytes
  unfolding soundex_digits
  soundex str = soundex_of (select is_upper (to_upper str))

  unfoldable pub extract_words : Bytes → List Bytes
  extract_words text =
      select (λ w. not (length w == 0))
        (split_on 32 (select (λ c. is_lower c || c == 32) (to_lower text)))

  unfoldable pub find_agent_by_sound : Bytes → List AgentConfig → Option AgentConfig
  unfolding soundex
  find_agent_by_sound word agents =
      or_else (find_first (λ (a : AgentConfig). bytes_eq (to_lower word) (to_lower a.name)) agents)
        (find_first (λ (a : AgentConfig). bytes_eq (soundex a.name) (soundex word)) agents)

  -- The agent of the first word that names one.
  abbrev pub first_named : List AgentConfig → List Bytes → Option AgentConfig
  first_named agents [] = none
  first_named agents (w ∷ ws) = or_else (find_agent_by_sound w agents) (first_named agents ws)

  abbrev pub result_of : Bytes → Option AgentConfig → Option RoutingResult
  result_of message none = none
  result_of message (some a) = some (record { agent = a; message = message })

  abbrev pub to_last :
      Bytes
      → List AgentConfig
      → Bytes
      → ℕ
      → Option Bytes
      → List LastAddressed
      → Option RoutingResult × List LastAddressed
  to_last message agents k now none l = (none, l)
  to_last message agents k now (some name) l = (
    result_of message (find_first (λ (a : AgentConfig). bytes_eq a.name name) agents),
    change k (λ e. record { key = e.key; agent_name = e.agent_name; last_accessed = now }) l,
  )

  abbrev pub routed :
      Bytes
      → List AgentConfig
      → Bytes
      → ℕ
      → Option AgentConfig
      → List LastAddressed
      → Option RoutingResult × List LastAddressed
  routed message agents k now (some a) l =
      (some (record { agent = a; message = message }), address k a.name now l)
  routed message agents k now none l = to_last message agents k now (agent_name_of k l) l

  unfoldable pub route_message :
      Bytes
      → List AgentConfig
      → Bytes
      → Bytes
      → ℕ
      → List LastAddressed
      → Option RoutingResult × List LastAddressed
  unfolding address extract_words find_agent_by_sound
  route_message text agents guild_id user_id now l =
      let trimmed = trim_space text in
      let k = get_last_agent_key guild_id user_id in
      let r = routed trimmed agents k now (first_named agents (extract_words trimmed)) l in
      if length trimmed == 0 then (none, l) else r
