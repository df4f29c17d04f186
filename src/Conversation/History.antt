-- ===== src/Conversation/History.antt =====
-- bot/conversation/history.go: the last messages of each talk. The map is a list of entries, each key once; what
-- sort.Slice makes of them, in the order in which the map gave them, is a parameter. A call is one step.
pub mod Bounded
pub mod Recent
pub mod Room
pub mod Refines
use shipmates_oss.Prelude.{
  ℕ, ◌+◌, ◌-◌, Bool, true, false, not, ◌||◌, List, [], ◌∷◌, ◌++◌, map, leb, ltb, ◌==◌,
  if◌then◌else◌, length, take, drop, select, exists,
}
use shipmates_oss.Prelude.Bytes.{Bytes, bytes_eq}

pub record ChatMessage : Type 0 where
  pub role : Bytes
  pub content : Bytes

pub record HistoryEntry : Type 0 where
  pub key : Bytes
  pub messages : List ChatMessage
  pub last_accessed : ℕ

abbrev pub max_history_keys : ℕ
max_history_keys = 1000

abbrev pub max_messages_per_agent : ℕ
max_messages_per_agent = 20

abbrev pub get_history_key : Bytes → Bytes → Bytes → Bytes
get_history_key workspace_id user_id agent_name =
    workspace_id ++ (b':' ∷ (user_id ++ (b':' ∷ agent_name)))

abbrev pub has_key : Bytes → List HistoryEntry → Bool
has_key k = exists (λ (e : HistoryEntry). bytes_eq e.key k)

-- What a key holds; nothing where there is no entry.
abbrev pub messages_of : Bytes → List HistoryEntry → List ChatMessage
messages_of k [] = []
messages_of k (e ∷ es) =
    let rest = messages_of k es in if bytes_eq e.key k then e.messages else rest

abbrev pub change : Bytes → (HistoryEntry → HistoryEntry) → List HistoryEntry → List HistoryEntry
change k f = map (λ (e : HistoryEntry). if bytes_eq e.key k then f e else e)

abbrev pub touched : ℕ → HistoryEntry → HistoryEntry
touched now e = record { key = e.key; messages = e.messages; last_accessed = now }

-- The messages of a call, and the map after it.
unfoldable pub get :
    Bytes → Bytes → Bytes → ℕ → List HistoryEntry → List ChatMessage × List HistoryEntry
get workspace_id user_id agent_name now h =
    let k = get_history_key workspace_id user_id agent_name in
    (messages_of k h, change k (touched now) h)

abbrev pub without : Bytes → List HistoryEntry → List HistoryEntry
without k = select (λ (e : HistoryEntry). not (bytes_eq e.key k))

abbrev pub delete_each : List HistoryEntry → List HistoryEntry → List HistoryEntry
delete_each [] h = h
delete_each (e ∷ es) h = delete_each es (without e.key h)

abbrev pub last_only : List ChatMessage → List ChatMessage
last_only messages =
    let excess = length messages - max_messages_per_agent in
    if ltb max_messages_per_agent (length messages)
    then take max_messages_per_agent (drop excess messages)
    else messages

abbrev pub appended : ChatMessage → ℕ → HistoryEntry → HistoryEntry
appended m now e = record {
  key = e.key;
  messages = last_only (e.messages ++ (m ∷ []));
  last_accessed = now;
}

pub data Call : Type 0 where
  gets : Bytes → Bytes → Bytes → ℕ → Call
  adds : Bytes → Bytes → Bytes → Bytes → Bytes → ℕ → Call

module _ (sort : List HistoryEntry → List HistoryEntry) where
  unfoldable pub evict_oldest_locked : List HistoryEntry → List HistoryEntry
  evict_oldest_locked h =
      let to_delete = length h - max_history_keys + 1 in
      if length h == 0 then h else delete_each (take to_delete (sort h)) h

  unfoldable pub with_entry : Bytes → ℕ → List HistoryEntry → List HistoryEntry
  unfolding evict_oldest_locked
  with_entry k now h =
      let room = if leb max_history_keys (length h) then evict_oldest_locked h else h in
      if has_key k h then h else record { key = k; messages = []; last_accessed = now } ∷ room

  unfoldable pub add :
      Bytes → Bytes → Bytes → Bytes → Bytes → ℕ → List HistoryEntry → List HistoryEntry
  unfolding with_entry
  add workspace_id user_id agent_name role content now h =
      let k = get_history_key workspace_id user_id agent_name in
      change k (appended (record { role = role; content = content }) now) (with_entry k now h)

  -- Calls in the order in which they take the mutex.
  abbrev pub after_call : Call → List HistoryEntry → List HistoryEntry
  after_call (gets w u a now) h = (get w u a now h).1
  after_call (adds w u a role content now) h = add w u a role content now h

  abbrev pub run : List Call → List HistoryEntry → List HistoryEntry
  run [] h = h
  run (c ∷ cs) h = run cs (after_call c h)
