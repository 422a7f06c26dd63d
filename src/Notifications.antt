-- ===== src/Notifications.antt =====
-- notification/notification_service.py: which connections hear of which room. A connection is a number, a
-- set a list in which none is named twice; whether a message to a connection can be sent is a parameter.
pub mod Relation
pub mod Tidiness
mod Tests
use lan_secure_file_system.Common.{
  ℕ, Bool, true, false, not, Option, none, some, List, [], ◌∷◌, any, keep, Dict, lookup, insert,
  erase, ◌==◌, if◌then◌else◌,
}
use lan_secure_file_system.World.{
  Event, member_added, member_removed, role_updated, file_deleted, new_file, Role,
}

-- `_subscribers`
abbrev pub Subscribers : Type 0
Subscribers = Dict (List ℕ)

abbrev pub is_member : ℕ → List ℕ → Bool
is_member c s = any (λ i. i == c) s

abbrev pub with_member : ℕ → List ℕ → List ℕ
with_member c s = if is_member c s then s else c ∷ s

abbrev pub discard : ℕ → List ℕ → List ℕ
discard c s = keep (λ i. not (i == c)) s

abbrev pub is_nobody : List ℕ → Bool
is_nobody [] = true
is_nobody (c ∷ s) = false

-- `self._subscribers.get(room_id, set())`
abbrev pub subscribers_of : ℕ → Subscribers → List ℕ
subscribers_of room d = elim (lookup room d) [ none ↦ [] | some s ↦ s ]

unfoldable pub add_subscriber : (room connection : ℕ) → Subscribers → Subscribers
add_subscriber room connection d = insert room (with_member connection (subscribers_of room d)) d

unfoldable pub remove_subscriber : (room connection : ℕ) → Subscribers → Subscribers
remove_subscriber room connection d = elim (lookup room d) [
  | none ↦ d
  | some s ↦
      if is_nobody (discard connection s)
      then erase room d
      else insert room (discard connection s) d
]

unfoldable pub remove_subscriber_from_all_rooms : (connection : ℕ) → Subscribers → Subscribers
remove_subscriber_from_all_rooms connection [] = []
remove_subscriber_from_all_rooms connection ((room, s) ∷ d) =
    let rest = remove_subscriber_from_all_rooms connection d in
    if is_member connection s
    then (if is_nobody (discard connection s) then rest else (room, discard connection s) ∷ rest)
    else (room, s) ∷ rest

-- The room that the five `broadcast_…` hand on with their event
unfoldable pub room_of : Event → ℕ
room_of (member_added room_id user_id username role) = room_id
room_of (member_removed room_id user_id username) = room_id
room_of (role_updated room_id user_id username role) = room_id
room_of (file_deleted room_id file_id file_name deleted_by) = room_id
room_of (new_file room_id file_id file_name uploader) = room_id

-- The loop over `dead_connections`
unfoldable pub remove_dead : List ℕ → Subscribers → Subscribers
remove_dead [] d = d
remove_dead (c ∷ dead) d = remove_dead dead (remove_subscriber_from_all_rooms c d)

-- `_broadcast_event`, where a message to a connection fails as `fails` says: the connections that it
-- reached, and the subscribers after it. The source releases its lock between the copy of the subscribers and
-- the pruning; here both are one step.
unfoldable pub broadcast_event : (fails : ℕ → Bool) → Event → Subscribers → List ℕ × Subscribers
broadcast_event fails event d =
    let listeners = subscribers_of (room_of event) d in
    (keep (λ c. not (fails c)) listeners, remove_dead (keep fails listeners) d)

-- What the server does to the subscribers
pub data Call : Type 0 where
  subscribe unsubscribe : (room connection : ℕ) → Call
  disconnect : (connection : ℕ) → Call
  publish : (fails : ℕ → Bool) → Event → Call

unfoldable pub call_subscribers : Call → Subscribers → Subscribers
call_subscribers (subscribe room connection) d = add_subscriber room connection d
call_subscribers (unsubscribe room connection) d = remove_subscriber room connection d
call_subscribers (disconnect connection) d = remove_subscriber_from_all_rooms connection d
call_subscribers (publish fails event) d = (broadcast_event fails event d).1

-- The calls one after the other
unfoldable pub call_all : List Call → Subscribers → Subscribers
call_all [] d = d
call_all (c ∷ cs) d = call_all cs (call_subscribers c d)
