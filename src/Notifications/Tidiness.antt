-- ===== src/Notifications/Tidiness.antt =====
-- The map of subscribers keeps no room that nobody listens to, and names nobody twice.
use mathlib.Core.Path.{subst}
use lan_secure_file_system.Common.{
  ℕ, ◌≡◌, refl, false, inl, inr, Option, none, some, List, [], ◌∷◌, lookup, insert, erase,
  if◌then◌else◌, ◌==◌, Unique, insert-Unique, erase-Unique, Bool-cases, Option-cases, arith,
}
use lan_secure_file_system.Notifications.{
  Subscribers, is_member, with_member, discard, is_nobody, subscribers_of, add_subscriber,
  remove_subscriber, remove_subscriber_from_all_rooms, remove_dead, broadcast_event, Call,
  subscribe, unsubscribe, disconnect, publish, call_subscribers, call_all,
}

-- Nobody is named twice.
abbrev pub Once : List ℕ → Type 0
Once [] = Unit
Once (c ∷ s) = (is_member c s ≡ false) × Once s

-- A set of subscribers that is kept
abbrev pub IsKept : List ℕ → Type 0
IsKept s = (is_nobody s ≡ false) × Once s

abbrev pub AllKept : Subscribers → Type 0
AllKept [] = Unit
AllKept ((room, s) ∷ d) = IsKept s × AllKept d

-- Each room has one entry, with somebody in it.
pub record IsTidy (d : Subscribers) : Type 0 where
  pub unique : Unique d
  pub kept : AllKept d

pub is_member-discard :
    (c i : ℕ) (s : List ℕ) → is_member i (discard c s) ≡ (if c == i then false else is_member i s)
is_member-discard c i [] = ground arith
is_member-discard c i (j ∷ s) = ground (arith, is_member-discard c i s)

with_member-IsKept : (c : ℕ) (s : List ℕ) → Once s → IsKept (with_member c s)
with_member-IsKept c [] h = (refl, (refl, tt))
with_member-IsKept c (i ∷ s) h = elim (Bool-cases (is_member c (i ∷ s))) [
  | inl e ↦ rw e (refl, h)
  | inr e ↦ rw e (refl, (e, h))
]

discard-Once : (c : ℕ) (s : List ℕ) → Once s → Once (discard c s)
discard-Once c [] h = tt
discard-Once c (i ∷ s) h = elim (Bool-cases (i == c)) [
  | inl e ↦ rw e (discard-Once c s h.1)
  | inr e ↦ rw e (ground (arith, is_member-discard c i s), discard-Once c s h.1)
]

insert-AllKept :
    (room : ℕ) (s : List ℕ) (d : Subscribers) → IsKept s → AllKept d → AllKept (insert room s d)
insert-AllKept room s [] k h = (k, tt)
insert-AllKept room s ((j, t) ∷ d) k h = elim (Bool-cases (j == room)) [
  | inl e ↦ rw e (k, h.1)
  | inr e ↦ rw e (h.0, insert-AllKept room s d k h.1)
]

erase-AllKept : (room : ℕ) (d : Subscribers) → AllKept d → AllKept (erase room d)
erase-AllKept room [] h = tt
erase-AllKept room ((j, t) ∷ d) h = elim (Bool-cases (j == room)) [
  | inl e ↦ rw e (erase-AllKept room d h.1)
  | inr e ↦ rw e (h.0, erase-AllKept room d h.1)
]

abbrev KeptIf : Option (List ℕ) → Type 0
KeptIf none = Unit
KeptIf (some s) = IsKept s

lookup-KeptIf : (room : ℕ) (d : Subscribers) → AllKept d → KeptIf (lookup room d)
lookup-KeptIf room [] h = tt
lookup-KeptIf room ((j, t) ∷ d) h = elim (Bool-cases (j == room)) [
  | inl e ↦ rw e h.0
  | inr e ↦ rw e (lookup-KeptIf room d h.1)
]

subscribers_of-Once : (room : ℕ) (d : Subscribers) → AllKept d → Once (subscribers_of room d)
subscribers_of-Once room d h = once (lookup room d) (lookup-KeptIf room d h)
  where
    once : (o : Option (List ℕ)) → KeptIf o → Once (elim o [ none ↦ [] | some s ↦ s ])
    once none k = tt
    once (some s) k = k.1

-- No room is added by leaving.
pub dropped_absent :
    (c room : ℕ) (d : Subscribers)
    → lookup room d ≡ none
    → lookup room (remove_subscriber_from_all_rooms c d) ≡ none
unfolding remove_subscriber_from_all_rooms
dropped_absent c room [] h = refl
dropped_absent c room ((j, s) ∷ d) h = ground (arith, dropped_absent c room d)

pub dropped-IsTidy :
    (c : ℕ) (d : Subscribers) → IsTidy d → IsTidy (remove_subscriber_from_all_rooms c d)
unfolding remove_subscriber_from_all_rooms
dropped-IsTidy c [] h = h
dropped-IsTidy c ((j, s) ∷ d) h =
    let rest = dropped-IsTidy c d (record { unique = h.unique.1; kept = h.kept.1 }) in
    let absent = dropped_absent c j d h.unique.0 in
    elim (Bool-cases (is_member c s)) [
      | inl e ↦ elim (Bool-cases (is_nobody (discard c s))) [
        | inl n ↦ rw (remove_subscriber_from_all_rooms, e, n) rest
        | inr n ↦
            rw (remove_subscriber_from_all_rooms, e, n)
              (record {
                unique = (absent, rest.unique);
                kept = ((n, discard-Once c s h.kept.0.1), rest.kept);
              })
      ]
      | inr e ↦
          rw (remove_subscriber_from_all_rooms, e)
            (record { unique = (absent, rest.unique); kept = (h.kept.0, rest.kept) })
    ]

removed-IsTidy : (room c : ℕ) (d : Subscribers) → IsTidy d → IsTidy (remove_subscriber room c d)
unfolding remove_subscriber
removed-IsTidy room c d h = elim (Option-cases (lookup room d)) [
  | inl e ↦ rw (remove_subscriber, e) h
  | inr (s, e) ↦ elim (Bool-cases (is_nobody (discard c s))) [
    | inl n ↦
        rw (remove_subscriber, e, n)
          (record { unique = erase-Unique room d h.unique; kept = erase-AllKept room d h.kept })
    | inr n ↦
        rw (remove_subscriber, e, n)
          (record {
            unique = insert-Unique room _ d h.unique;
            kept =
                insert-AllKept room _ d
                  (n, discard-Once c s (subst KeptIf e (lookup-KeptIf room d h.kept)).1) h.kept;
          })
  ]
]

remove_dead-IsTidy : (dead : List ℕ) (d : Subscribers) → IsTidy d → IsTidy (remove_dead dead d)
unfolding remove_dead
remove_dead-IsTidy [] d h = h
remove_dead-IsTidy (c ∷ dead) d h = remove_dead-IsTidy dead _ (dropped-IsTidy c d h)

pub call-IsTidy : (c : Call) (d : Subscribers) → IsTidy d → IsTidy (call_subscribers c d)
unfolding call_subscribers add_subscriber broadcast_event
call-IsTidy (subscribe room c) d h = record {
  unique = insert-Unique room _ d h.unique;
  kept =
      insert-AllKept room _ d
        (with_member-IsKept c (subscribers_of room d) (subscribers_of-Once room d h.kept)) h.kept;
}
call-IsTidy (unsubscribe room c) d h = removed-IsTidy room c d h
call-IsTidy (disconnect c) d h = dropped-IsTidy c d h
call-IsTidy (publish fails event) d h = remove_dead-IsTidy _ d h

-- However connections join, leave, are lost and are sent events, beginning with no subscribers: each room
-- has one entry, with at least one connection, and names none twice.
pub subscribers_stay-IsTidy : (calls : List Call) → IsTidy (call_all calls [])
unfolding call_all
subscribers_stay-IsTidy calls = all calls [] (record { unique = tt; kept = tt })
  where
    all : (cs : List Call) (d : Subscribers) → IsTidy d → IsTidy (call_all cs d)
    all [] d h = h
    all (c ∷ cs) d h = all cs _ (call-IsTidy c d h)
