-- ===== src/Relay/Hub.antt =====
-- stream-relay/relay: hub.go and session.go. A pointer to a Subscriber is a number; the subscribers that
-- were ever allocated are a list, so that one that has left the hub is still there for those that hold
-- it. What the hub does under its mutex is one step, and so is each attempt to send.
pub mod Rooms
pub mod Bounded
pub mod Publish
use shipmates_oss.Prelude.{
  ℕ, zero, suc, ◌+◌, ◌-◌, String, Bool, true, false, not, ◌&&◌, Option, none, some, List, [], ◌∷◌,
  ◌++◌, map, ltb, leb, ◌==◌, if◌then◌else◌, str_eq, select, exists, length,
}

-- NewSubscriber(256)
abbrev pub buffer_size : ℕ
buffer_size = 256

-- What is in a channel: a chunk's bytes, or a drop marker, whose bytes buildDropMarker encodes.
pub data Sent : Type 0 where
  bytes : String → Sent
  drop_marker : String → Sent

pub record Subscriber : Type 0 where
  pub pointer : ℕ
  pub send : List Sent
  pub done : Bool
  pub drops : ℕ

pub record Room : Type 0 where
  pub session_id : String
  pub subs : List ℕ

pub record Counter : Type 0 where
  pub session_id : String
  pub value : ℕ

pub record Hub : Type 0 where
  pub sessions : List Room
  pub sequence_map : List Counter
  pub max_conns : ℕ
  pub active_conns : ℕ
  pub subscribers : List Subscriber
  -- the next pointer that an allocation returns
  pub next_pointer : ℕ

abbrev pub new_hub : ℕ → Hub
new_hub max = record {
  sessions = [];
  sequence_map = [];
  max_conns = max;
  active_conns = 0;
  subscribers = [];
  next_pointer = 0;
}

abbrev pub new_subscriber : ℕ → Subscriber
new_subscriber p = record { pointer = p; send = []; done = false; drops = 0 }

-- h.sessions[sessionID], the empty set where the key is missing
unfoldable pub subs_of : String → List Room → List ℕ
subs_of s [] = []
subs_of s (m ∷ ms) = let rest = subs_of s ms in if str_eq m.session_id s then m.subs else rest

unfoldable pub add_sub : String → ℕ → List Room → List Room
add_sub s p [] = record { session_id = s; subs = p ∷ [] } ∷ []
add_sub s p (m ∷ ms) =
    let rest = add_sub s p ms in
    if str_eq m.session_id s then record m { subs = p ∷ m.subs } ∷ ms else m ∷ rest

abbrev pub keep_nonempty : Room → List Room → List Room
keep_nonempty m ms = if length m.subs == 0 then ms else m ∷ ms

unfoldable pub remove_sub : String → ℕ → List Room → List Room
remove_sub s p [] = []
remove_sub s p (m ∷ ms) =
    let rest = remove_sub s p ms in
    if str_eq m.session_id s
    then keep_nonempty (record m { subs = select (λ q. not (q == p)) m.subs }) ms
    else m ∷ rest

abbrev pub is_sub : String → ℕ → List Room → Bool
is_sub s p rooms = exists (λ q. q == p) (subs_of s rooms)

-- none: max connections reached
unfoldable pub subscribe : String → Hub → Option ℕ × Hub
subscribe s h = if leb h.max_conns h.active_conns then (none, h) else (
  some h.next_pointer,
  record h {
    active_conns = h.active_conns + 1;
    sessions = add_sub s h.next_pointer h.sessions;
    subscribers = new_subscriber h.next_pointer ∷ h.subscribers;
    next_pointer = h.next_pointer + 1;
  },
)

-- The subscriber behind a pointer changes.
abbrev pub update_sub : ℕ → (Subscriber → Subscriber) → Hub → Hub
update_sub p f h = record h {
  subscribers = map (λ s. if s.pointer == p then f s else s) h.subscribers;
}

abbrev pub close : Subscriber → Subscriber
close s = record s { done = true }

-- The part of Unsubscribe under the mutex.
unfoldable pub forget : String → ℕ → Hub → Hub
forget s p h = record h {
  active_conns = if is_sub s p h.sessions then h.active_conns - 1 else h.active_conns;
  sessions = remove_sub s p h.sessions;
}

unfoldable pub unsubscribe : String → ℕ → Hub → Hub
unfolding forget
unsubscribe s p h = update_sub p close (forget s p h)

abbrev pub has_room : Subscriber → Bool
has_room s = ltb (length s.send) buffer_size

-- The selects of Publish for one subscriber, as far as the count of drops.
abbrev pub offer : Sent → Subscriber → Subscriber
offer m s =
    if s.done
    then s
    else if has_room s
    then record s { send = s.send ++ (m ∷ []) }
    else record s { drops = s.drops + 1 }

-- The select of sendDropMarker.
abbrev pub mark : String → Subscriber → Subscriber
mark session s =
    if not s.done && has_room s then record s { send = s.send ++ (drop_marker session ∷ []) } else s

abbrev pub is_dropping : Subscriber → Bool
is_dropping s = not s.done && not (has_room s)

-- One subscriber of Publish with no other goroutine in between.
abbrev pub deliver : String → Sent → Subscriber → Subscriber
deliver session m s = if is_dropping s then mark session (offer m s) else offer m s

unfoldable pub deliver_to : String → Sent → List ℕ → Hub → Hub
deliver_to session m [] h = h
deliver_to session m (p ∷ ps) h = deliver_to session m ps (update_sub p (deliver session m) h)

unfoldable pub publish : String → String → Hub → Hub
unfolding deliver_to subs_of
publish session chunk h = deliver_to session (bytes chunk) (subs_of session h.sessions) h

-- counter.Add(1), from 0 where the key is missing
abbrev pub bump : String → List Counter → List Counter
bump s [] = record { session_id = s; value = 1 } ∷ []
bump s (c ∷ cs) =
    let rest = bump s cs in
    if str_eq c.session_id s then record c { value = c.value + 1 } ∷ cs else c ∷ rest

abbrev pub counter_of : String → List Counter → ℕ
counter_of s [] = 0
counter_of s (c ∷ cs) =
    let rest = counter_of s cs in if str_eq c.session_id s then c.value else rest

unfoldable pub next_sequence : String → Hub → ℕ × Hub
next_sequence s h =
    (counter_of s h.sequence_map + 1, record h { sequence_map = bump s h.sequence_map })

unfoldable pub cleanup_sequence : String → Hub → Hub
cleanup_sequence s h = record h {
  sequence_map = select (λ c. not (str_eq c.session_id s)) h.sequence_map;
}

unfoldable pub subscriber_count : String → Hub → ℕ
unfolding subs_of
subscriber_count s h = length (subs_of s h.sessions)

abbrev pub sum_subs : List Room → ℕ
sum_subs [] = 0
sum_subs (m ∷ ms) = length m.subs + sum_subs ms

abbrev pub total_subscribers : Hub → ℕ
total_subscribers h = sum_subs h.sessions

-- Range over the counters; a session may gain a subscriber between its count and its deletion, which
-- the code allows too.
unfoldable pub cleanup_orphaned_sequences : Hub → Hub
unfolding subs_of
cleanup_orphaned_sequences h = record h {
  sequence_map = select (λ c. not (length (subs_of c.session_id h.sessions) == 0)) h.sequence_map;
}
