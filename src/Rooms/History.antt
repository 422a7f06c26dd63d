-- ===== src/Rooms/History.antt =====
-- What the room service keeps true of the members, whatever it is asked to do and in whatever order.
use lan_secure_file_system.Common.{
  not, keep, change, [], Bool-cases, inl, inr, ℕ, ◌≤◌, ◌≡◌, false, List, ◌∷◌, Text, count, ◌==◌,
  arith,
}
use lan_secure_file_system.World.{Role, is_admin, Member, World, weaken, final}
use lan_secure_file_system.Rooms.{is_owner_of, owner_count, create, add, remove, set_member_role}
use lan_secure_file_system.Rooms.Creation.{first_owner, create-Runs}
use lan_secure_file_system.Rooms.Granting.{add-Runs, set_member_role-Runs}
use lan_secure_file_system.Rooms.Membership.{remove-Runs}
use lan_secure_file_system.Access.{is_row_of}
use lan_secure_file_system.Rooms.Ownership.{remove-owner_count, set_member_role-owner_count}
use lan_secure_file_system.Rooms.Tables.{
  IsKeyed, IsKeyed-create, IsKeyed-add, IsKeyed-remove, IsKeyed-set_member_role,
}

-- One call of the service, however it ends. A role is changed by a caller who is no global administrator.
pub data Step (w : World) : World → Type 0 where
  creates : (user : ℕ) (role : Role) (name : Text) → Step w (create user role name w).1
  adds :
      (user : ℕ) (role : Role) (room target : ℕ) (new_role : Role)
      → Step w (add user role room target new_role w).1
  removes : (user : ℕ) (role : Role) (room target : ℕ) → Step w (remove user role room target w).1
  changes :
      (user : ℕ) (role : Role) (room target : ℕ) (new_role : Role)
      → is_admin role ≡ false
      → Step w (set_member_role user role room target new_role w).1

pub data Reach (w : World) : World → Type 0 where
  start : Reach w w
  next : {p q : World} → Reach w p → Step p q → Reach w q

Step-IsKeyed : {w q : World} → Step w q → IsKeyed w.members → IsKeyed q.members
Step-IsKeyed {w} (creates user role name) k = IsKeyed-create user role name w k
Step-IsKeyed {w} (adds user role room target new_role) k =
    IsKeyed-add user role room target new_role w k
Step-IsKeyed {w} (removes user role room target) k = IsKeyed-remove user role room target w k
Step-IsKeyed {w} (changes user role room target new_role e) k =
    IsKeyed-set_member_role user role room target new_role w k

-- One more row takes no owner away.
one_more :
    (room : ℕ) (m : Member) (ms : List Member)
    → 1 ≤ count (is_owner_of room) ms
    → 1 ≤ count (is_owner_of room) (m ∷ ms)
one_more room m ms h = ground arith

create-owned :
    (user : ℕ) (role : Role) (name : Text) (room : ℕ) (w : World)
    → 1 ≤ owner_count room w.db
    → 1 ≤ owner_count room (create user role name w).1.db
create-owned user role name room w h =
    final (λ q. 1 ≤ owner_count room q.db)
      (weaken (create-Runs user role name w)
        (λ r q c. rw c.owned (one_more room (first_owner user w) w.members h))
        (λ code q e. rw e.0 h))

add-owned :
    (user : ℕ) (role : Role) (in_room target : ℕ) (new_role : Role) (room : ℕ) (w : World)
    → 1 ≤ owner_count room w.db
    → 1 ≤ owner_count room (add user role in_room target new_role w).1.db
add-owned user role in_room target new_role room w h =
    final (λ q. 1 ≤ owner_count room q.db)
      (weaken (add-Runs user role in_room target new_role w)
        (λ t q c. rw c.added (
          one_more room
            (record { room_id = in_room; user_id = target; role = new_role; added_at = w.now })
            w.members h))
        (λ code q e. rw e.0 h))

-- What happens in one room leaves the owners of the others alone.
keep_elsewhere :
    (room other target : ℕ) (ms : List Member)
    → (other == room) ≡ false
    → count (is_owner_of room) (keep (λ m. not (is_row_of other target m)) ms)
      ≡ count (is_owner_of room) ms
keep_elsewhere room other target [] d = omega arith
keep_elsewhere room other target (m ∷ ms) d = ground (arith, keep_elsewhere room other target ms d)

change_elsewhere :
    (room other target : ℕ) (role : Role) (ms : List Member)
    → (other == room) ≡ false
    → count (is_owner_of room) (change (is_row_of other target) (λ m. record m { role = role }) ms)
      ≡ count (is_owner_of room) ms
change_elsewhere room other target role [] d = omega arith
change_elsewhere room other target role (m ∷ ms) d =
    ground (arith, change_elsewhere room other target role ms d)

remove-owned :
    (user : ℕ) (role : Role) (in_room target room : ℕ) (w : World)
    → IsKeyed w.members
    → 1 ≤ owner_count room w.db
    → 1 ≤ owner_count room (remove user role in_room target w).1.db
remove-owned user role in_room target room w k h = elim (Bool-cases (in_room == room)) [
  | inl e ↦
      let same : in_room ≡ room = ground arith in
      rw same
        (final (λ q. 1 ≤ owner_count room q.db) (remove-owner_count user role room target w k h))
  | inr e ↦
      final (λ q. 1 ≤ owner_count room q.db)
        (weaken (remove-Runs user role in_room target w)
          (λ t q r. rw (r.removed, keep_elsewhere room in_room target w.members e) h)
          (λ code q r. rw r.0 h))
]

change-owned :
    (user : ℕ) (role : Role) (in_room target : ℕ) (new_role : Role) (room : ℕ) (w : World)
    → is_admin role ≡ false
    → 1 ≤ owner_count room w.db
    → 1 ≤ owner_count room (set_member_role user role in_room target new_role w).1.db
change-owned user role in_room target new_role room w a h = elim (Bool-cases (in_room == room)) [
  | inl e ↦
      let same : in_room ≡ room = ground arith in
      rw same (
        final (λ q. 1 ≤ owner_count room q.db)
          (set_member_role-owner_count user role room target new_role w a h))
  | inr e ↦
      final (λ q. 1 ≤ owner_count room q.db)
        (weaken (set_member_role-Runs user role in_room target new_role w)
          (λ t q r. rw (r.changed, change_elsewhere room in_room target new_role w.members e) h)
          (λ code q r. rw r.0 h))
]

Step-owned :
    {w q : World} (room : ℕ)
    → Step w q
    → IsKeyed w.members
    → 1 ≤ owner_count room w.db
    → 1 ≤ owner_count room q.db
Step-owned {w} room (creates user role name) k h = create-owned user role name room w h
Step-owned {w} room (adds user role in_room target new_role) k h =
    add-owned user role in_room target new_role room w h
Step-owned {w} room (removes user role in_room target) k h =
    remove-owned user role in_room target room w k h
Step-owned {w} room (changes user role in_room target new_role a) k h =
    change-owned user role in_room target new_role room w a h

-- Whatever calls of create_room, add_member, remove_member and, by callers who are no global
-- administrators, set_role there were, failed ones included: the table of members respects its primary key,
-- and every room that had an owner has one, if both held at first for the table and the room.
pub rooms_stay_owned :
    {w q : World} (room : ℕ)
    → Reach w q
    → IsKeyed w.members
    → 1 ≤ owner_count room w.db
    → IsKeyed q.members × (1 ≤ owner_count room q.db)
rooms_stay_owned room start k h = (k, h)
rooms_stay_owned room (next r s) k h =
    let (keyed, owned) = rooms_stay_owned room r k h in
    (Step-IsKeyed s keyed, Step-owned room s keyed owned)
