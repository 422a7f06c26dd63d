-- ===== src/Notifications/Relation.antt =====
-- What the map of subscribers stands for: a relation between rooms and connections, which each call changes
-- in the way that one expects.
use lan_secure_file_system.Common.{
  ℕ, ◌≡◌, refl, Bool, true, false, not, ◌&&◌, ◌||◌, inl, inr, List, [], ◌∷◌, keep, lookup, ◌==◌,
  ==_iff, lookup-insert, lookup-erase, Unique, Bool-cases, Option-cases, arith,
}
use lan_secure_file_system.World.{Event}
use lan_secure_file_system.Notifications.{
  Subscribers, is_member, with_member, discard, is_nobody, subscribers_of, add_subscriber,
  remove_subscriber, remove_subscriber_from_all_rooms, remove_dead, broadcast_event, Call,
  subscribe, unsubscribe, disconnect, publish, call_subscribers, call_all, room_of,
}
use lan_secure_file_system.Notifications.Tidiness.{
  IsTidy, dropped-IsTidy, dropped_absent, call-IsTidy,
}

-- The connection hears of the room.
abbrev pub is_subscribed : (room connection : ℕ) → Subscribers → Bool
is_subscribed room connection d = is_member connection (subscribers_of room d)

-- Who hears of what
abbrev pub Relation : Type 0
Relation = (room connection : ℕ) → Bool

-- What each call means
abbrev pub change_relation : Call → Relation → Relation
change_relation (subscribe r c) is room connection =
    (room == r) && (connection == c) || is room connection
change_relation (unsubscribe r c) is room connection =
    is room connection && not ((room == r) && (connection == c))
change_relation (disconnect c) is room connection = is room connection && not (connection == c)
change_relation (publish fails event) is room connection =
    is room connection && not (fails connection && is (room_of event) connection)

abbrev pub change_all : List Call → Relation → Relation
change_all [] is = is
change_all (c ∷ cs) is = change_all cs (change_relation c is)

nobody_left :
    (c i : ℕ) (s : List ℕ)
    → is_nobody (discard c s) ≡ true
    → (is_member i s && not (i == c)) ≡ false
nobody_left c i [] n = refl
nobody_left c i (j ∷ s) n = ground (arith, nobody_left c i s)

member_left : (c i : ℕ) (s : List ℕ) → is_member i (discard c s) ≡ (is_member i s && not (i == c))
member_left c i [] = refl
member_left c i (j ∷ s) = ground (arith, member_left c i s)

not_member :
    (c i : ℕ) (s : List ℕ) → is_member c s ≡ false → (is_member i s && not (i == c)) ≡ is_member i s
not_member c i [] h = refl
not_member c i (j ∷ s) h = ground (arith, not_member c i s)

is_subscribed-dropped :
    (c room connection : ℕ) (d : Subscribers)
    → Unique d
    → is_subscribed room connection (remove_subscriber_from_all_rooms c d)
      ≡ (is_subscribed room connection d && not (connection == c))
unfolding remove_subscriber_from_all_rooms
is_subscribed-dropped c room connection [] u = refl
is_subscribed-dropped c room connection ((j, s) ∷ d) u = ground (
  arith,
  is_subscribed-dropped c room connection d u.1,
  nobody_left c connection s,
  member_left c connection s,
  not_member c connection s,
  dropped_absent c j d u.0,
  ==_iff j room,
)

is_subscribed-add :
    (r c room connection : ℕ) (d : Subscribers)
    → is_subscribed room connection (add_subscriber r c d)
      ≡ ((room == r) && (connection == c) || is_subscribed room connection d)
unfolding add_subscriber
is_subscribed-add r c room connection d =
    ground (arith, lookup-insert r room (with_member c (subscribers_of r d)) d)

is_subscribed-remove :
    (r c room connection : ℕ) (d : Subscribers)
    → is_subscribed room connection (remove_subscriber r c d)
      ≡ (is_subscribed room connection d && not ((room == r) && (connection == c)))
unfolding remove_subscriber
is_subscribed-remove r c room connection d = elim (Option-cases (lookup r d)) [
  | inl e ↦ rw (remove_subscriber, e) (ground (arith, e, ==_iff room r))
  | inr (s, e) ↦ elim (Bool-cases (is_nobody (discard c s))) [
    | inl n ↦
        rw (remove_subscriber, e, n)
          (ground (arith, e, ==_iff room r, lookup-erase r room d, nobody_left c connection s n))
    | inr n ↦
        rw (remove_subscriber, e, n)
          (ground (
            arith,
            e,
            ==_iff room r,
            lookup-insert r room (discard c s) d,
            member_left c connection s,
          ))
  ]
]

is_member-keep :
    (p : ℕ → Bool) (c : ℕ) (s : List ℕ) → is_member c (keep p s) ≡ (p c && is_member c s)
is_member-keep p c [] = ground arith
is_member-keep p c (i ∷ s) = ground (arith, is_member-keep p c s, ==_iff i c)

is_subscribed-dead :
    (room connection : ℕ) (dead : List ℕ) (d : Subscribers)
    → IsTidy d
    → is_subscribed room connection (remove_dead dead d)
      ≡ (is_subscribed room connection d && not (is_member connection dead))
unfolding remove_dead
is_subscribed-dead room connection [] d h = ground arith
is_subscribed-dead room connection (c ∷ dead) d h =
    let rest = is_subscribed-dead room connection dead _ (dropped-IsTidy c d h) in
    ground (arith, rest, is_subscribed-dropped c room connection d h.unique)

call-change :
    (c : Call) (d : Subscribers) (is : Relation)
    → IsTidy d
    → ((room connection : ℕ) → is_subscribed room connection d ≡ is room connection)
    → (room connection : ℕ)
    → is_subscribed room connection (call_subscribers c d) ≡ change_relation c is room connection
unfolding call_subscribers broadcast_event
call-change (subscribe r c) d is h same room connection =
    rw (← same) (is_subscribed-add r c room connection d)
call-change (unsubscribe r c) d is h same room connection =
    rw (← same) (is_subscribed-remove r c room connection d)
call-change (disconnect c) d is h same room connection =
    rw (← same) (is_subscribed-dropped c room connection d h.unique)
call-change (publish fails event) d is h same room connection =
    rw (← same, ← same, ← is_member-keep fails connection)
      (is_subscribed-dead room connection (keep fails (subscribers_of (room_of event) d)) d h)

-- However connections join, leave, are lost and are sent events, beginning with no subscribers: a connection
-- hears of a room exactly when the calls, read as changes of a relation, say so. Joining adds one pair,
-- leaving takes it, a disconnect takes the connection from every room, and so does an event that cannot be
-- sent to a subscriber of its room.
pub subscribers_refine_relation :
    (calls : List Call) (room connection : ℕ)
    → is_subscribed room connection (call_all calls [])
      ≡ change_all calls (λ _ _. false) room connection
unfolding call_all
subscribers_refine_relation calls =
    all calls [] (λ _ _. false) (record { unique = tt; kept = tt }) (λ room connection. refl)
  where
    all :
        (cs : List Call) (d : Subscribers) (is : Relation)
        → IsTidy d
        → ((room connection : ℕ) → is_subscribed room connection d ≡ is room connection)
        → (room connection : ℕ)
        → is_subscribed room connection (call_all cs d) ≡ change_all cs is room connection
    all [] d is h same = same
    all (c ∷ cs) d is h same = all cs _ _ (call-IsTidy c d h) (call-change c d is h same)

-- An event reaches exactly the subscribers of its room to whom it can be sent.
pub broadcast_event-reaches :
    (fails : ℕ → Bool) (event : Event) (d : Subscribers) (connection : ℕ)
    → is_member connection ((broadcast_event fails event d).0)
      ≡ (not (fails connection) && is_subscribed (room_of event) connection d)
unfolding broadcast_event
broadcast_event-reaches fails event d connection =
    is_member-keep (λ c. not (fails c)) connection (subscribers_of (room_of event) d)
