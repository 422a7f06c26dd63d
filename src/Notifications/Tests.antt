-- ===== src/Notifications/Tests.antt =====
-- The subscribers at concrete calls: two connections join a room, and one of them is dead.
use lan_secure_file_system.Common.{ℕ, ◌≡◌, Bool, false, List, [], ◌∷◌, ◌==◌}
use lan_secure_file_system.World.{Event, new_file}
use lan_secure_file_system.Notifications.{Subscribers, room_of, Call, subscribe, publish, call_all}
use lan_secure_file_system.Notifications.Relation.{is_subscribed, subscribers_refine_relation}

abbrev is_dead : ℕ → Bool
is_dead connection = connection == 8

abbrev event : Event
event = new_file 5 6 7 1

abbrev calls : List Call
calls = subscribe 5 8 ∷ subscribe 5 9 ∷ publish is_dead event ∷ []

abbrev both : Subscribers
both = call_all (subscribe 5 8 ∷ subscribe 5 9 ∷ []) []

subscribers_refine_relation_example : is_subscribed 5 8 (call_all calls []) ≡ false
unfolding room_of
subscribers_refine_relation_example = subscribers_refine_relation calls 5 8
