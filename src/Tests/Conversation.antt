-- ===== src/Tests/Conversation.antt =====
-- Talks of a user with two agents.
use shipmates_oss.Prelude.{
  ◌≡◌, refl, ◌↔◌, some, List, [], ◌∷◌, map, leb, ◌&&◌, ◌+◌, ◌-◌, if◌then◌else◌, In, arith, inl, inr,
}
use shipmates_oss.Prelude.Bytes.{Bytes, codes}
use shipmates_oss.Conversation.History.{
  HistoryEntry, get_history_key, get, add, Call, gets, adds, run,
}
use shipmates_oss.Conversation.History.Bounded.{IsBounded, run-IsBounded}
use shipmates_oss.Conversation.History.Recent.{recent, log}
use shipmates_oss.Conversation.History.Refines.{get-recent}
use shipmates_oss.Conversation.Router.{AgentConfig, soundex, extract_words, find_agent_by_sound}
use shipmates_oss.Conversation.Router.Sticky.{Message, send, send_all, route_message_sticky}

abbrev as_it_is : List HistoryEntry → List HistoryEntry
as_it_is h = h

abbrev calls : List Call
calls =
    adds (codes "w") (codes "u") (codes "ada") (codes "user") (codes "hello") 1
    ∷ adds (codes "w") (codes "u") (codes "bob") (codes "user") (codes "hi") 2
    ∷ gets (codes "w") (codes "u") (codes "bob") 3
    ∷ adds (codes "w") (codes "u") (codes "ada") (codes "assistant") (codes "yes?") 4
    ∷ []

abbrev two_keys : List Bytes
two_keys = codes "w:u:ada" ∷ codes "w:u:bob" ∷ []

two_messages :
    (get (codes "w") (codes "u") (codes "ada") 5 (run as_it_is calls [])).0
    ≡ record { role = codes "user"; content = codes "hello" }
      ∷ record { role = codes "assistant"; content = codes "yes?" }
      ∷ []
unfolding get add
two_messages = refl

get-recent_example :
    (get (codes "w") (codes "u") (codes "ada") 5 (run as_it_is calls [])).0
    ≡ recent (log (get_history_key (codes "w") (codes "u") (codes "ada")) calls)
get-recent_example =
    get-recent as_it_is two_keys (omega arith) calls (refl, (refl, (tt, (refl, tt)))) (codes "w")
      (codes "u") (codes "ada") 5

same_elements : (h : List HistoryEntry) (e : HistoryEntry) → In e (as_it_is h) ↔ In e h
same_elements h e = (λ m. m, λ m. m)

nothing_yet : IsBounded []
nothing_yet = record { few_keys = omega arith; few_messages = tt }

run-IsBounded_example : IsBounded (run as_it_is calls [])
run-IsBounded_example = run-IsBounded as_it_is same_elements calls [] nothing_yet

abbrev lower : Bytes → Bytes
lower = map (λ c. if leb b'A' c && leb c b'Z' then c + 32 else c)

abbrev upper : Bytes → Bytes
upper = map (λ c. if leb b'a' c && leb c b'z' then c - 32 else c)

soundex_robert : soundex lower upper (codes "Robert") ≡ codes "R163"
unfolding soundex
soundex_robert = refl

abbrev ada : AgentConfig
ada = record { id = codes "1"; name = codes "Ada" }

abbrev bob : AgentConfig
bob = record { id = codes "2"; name = codes "Bob" }

abbrev both : List AgentConfig
both = bob ∷ ada ∷ []

abbrev to_ada : Message
to_ada = record {
  text = codes "Ada, look";
  agents = both;
  guild_id = codes "g";
  user_id = codes "u";
  now = 1;
}

abbrev to_bob : Message
to_bob = record {
  text = codes "bob go";
  agents = both;
  guild_id = codes "g";
  user_id = codes "v";
  now = 2;
}

abbrev goes_on : Message
goes_on = record {
  text = codes " and test it ";
  agents = both;
  guild_id = codes "g";
  user_id = codes "u";
  now = 3;
}

route_message_sticky_example :
    (b : AgentConfig) × In b both
    × (b.name ≡ codes "Ada")
    × ((send lower upper goes_on
          (send_all lower upper (to_bob ∷ []) (send lower upper to_ada []).1)).0
        ≡ some (record { agent = b; message = codes "and test it" }))
unfolding extract_words find_agent_by_sound soundex
route_message_sticky_example =
    route_message_sticky lower upper to_ada ada (to_bob ∷ []) goes_on [] (refl, refl) (inl refl, tt)
      refl (refl, refl) (inr (inl refl))
