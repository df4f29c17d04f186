-- ===== src/Tests/Relay.antt =====
-- A hub with two subscribers.
use shipmates_oss.Prelude.{◌≡◌, refl, List, [], ◌∷◌, map, arith}
use shipmates_oss.Relay.Hub.{
  Hub, bytes, new_hub, subs_of, add_sub, remove_sub, subscribe, forget, publish,
}
use shipmates_oss.Relay.Hub.Rooms.{IsPointers}
use shipmates_oss.Relay.Hub.Bounded.{
  HubStep, subscribes, forgets, closes, offers, IsBounded, hub_step, hub_run, new_hub-IsBounded,
}
use shipmates_oss.Relay.Hub.Publish.{receive_among, publish_reaches}

-- A third subscriber is refused, one of the two leaves, and what comes late for it is dropped.
abbrev steps : List HubStep
steps =
    subscribes "s"
    ∷ subscribes "s"
    ∷ subscribes "t"
    ∷ forgets "s" 0
    ∷ closes 0
    ∷ offers 0 (bytes "x")
    ∷ offers 1 (bytes "x")
    ∷ []

one_left : (hub_run (new_hub 2) steps).active_conns ≡ 1
unfolding hub_run hub_step subscribe add_sub forget remove_sub subs_of
one_left = refl

new_hub-IsBounded_example : IsBounded (hub_run (new_hub 2) steps)
new_hub-IsBounded_example = new_hub-IsBounded 2 steps

abbrev two : Hub
two = (subscribe "s" (subscribe "s" (new_hub 5)).1).1

two_apart : IsPointers 2 (subs_of "s" two.sessions)
unfolding subscribe add_sub subs_of
two_apart = (omega arith, (refl, tt), (omega arith, tt, tt))

publish_reaches_example :
    (publish "s" "hello" two).subscribers
    ≡ map (receive_among (bytes "hello") (subs_of "s" two.sessions)) two.subscribers
publish_reaches_example = publish_reaches "s" "hello" 2 two two_apart
