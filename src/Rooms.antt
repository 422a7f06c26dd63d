-- ===== src/Rooms.antt =====
-- coordinator-server/room/room_service.py: rooms and their members.
pub mod Tables
pub mod Membership
pub mod Granting
pub mod Creation
pub mod Ownership
pub mod History
pub mod Listing
pub mod Moves
mod Tests
use lan_secure_file_system.Common.{
  ℕ, suc, ◌+◌, Bool, true, false, ◌&&◌, ◌||◌, not, Option, none, some, List, [], ◌∷◌, Text, strip,
  is_empty, find, keep, change, count, any, sort, leb, ◌==◌, if◌then◌else◌,
}
use lan_secure_file_system.World.{
  Role, admin, owner, member, viewer, other_role, is_admin, is_owner, User, Room, Member, Db, World,
  AuditAction, AuditEntry, Event, create_room, add_member, remove_member, set_role, member_added,
  member_removed, role_updated, Action, permission_denied, invalid_input, invalid_role,
  user_not_found, already_member, user_not_member, cannot_remove_last_owner, cannot_change_own_role,
  database_error, pure, ◌>>=◌, ◌>>◌, attempt, fail, clock, require, present, when, query, update,
  insert_row, new_uuid, audit, broadcast,
}
use lan_secure_file_system.Access.{
  is_row_of, membership, found, can_manage_members, has_room_access,
}

abbrev pub user_of : ℕ → Db → Option User
user_of id db = find (λ u. u.id == id) db.users

abbrev pub has_user : ℕ → Db → Bool
has_user id db = any (λ u. u.id == id) db.users

abbrev pub has_room : ℕ → Db → Bool
has_room id db = any (λ r. r.id == id) db.rooms

-- `INSERT INTO rooms`: the creator must be a user, and the id a new one.
abbrev pub insert_room : Room → Db → Option Db
insert_room r db =
    if has_room r.id db || not (has_user r.created_by db)
    then none
    else some (record db { rooms = r ∷ db.rooms })

-- `INSERT INTO room_members`: one row for each room and user, both of which exist
-- (migrations 002 and 003).
abbrev pub insert_member : Member → Db → Option Db
insert_member m db =
    if any (is_row_of m.room_id m.user_id) db.members
      || not (has_room m.room_id db && has_user m.user_id db)
    then none
    else some (record db { members = m ∷ db.members })

-- `DELETE FROM room_members WHERE room_id = … AND user_id = …`
abbrev delete_member : ℕ → ℕ → Db → Db
delete_member room user db = record db {
  members = keep (λ m. not (is_row_of room user m)) db.members;
}

-- `UPDATE room_members SET role = …`
abbrev write_role : ℕ → ℕ → Role → Db → Db
write_role room user role db = record db {
  members = change (is_row_of room user) (λ m. record m { role = role }) db.members;
}

-- `SELECT COUNT(*) … WHERE room_id = … AND role = 'OWNER'`
abbrev pub is_owner_of : ℕ → Member → Bool
is_owner_of room m = (m.room_id == room) && is_owner m.role

abbrev pub owner_count : ℕ → Db → ℕ
owner_count room db = count (is_owner_of room) db.members

-- `role in ['OWNER', 'MEMBER', 'VIEWER']`
abbrev pub is_room_role : Role → Bool
is_room_role owner = true
is_room_role member = true
is_room_role viewer = true
is_room_role admin = false
is_room_role (other_role text) = false

abbrev entry : ℕ → AuditAction → ℕ → ℕ → AuditEntry
entry user action target room = record {
  actor_id = some user;
  action = action;
  target_id = target;
  room_id = some room;
  succeeded = true;
}

-- The database part of `create_room`: two statements, and the audit log.
pub store_room : Room → ℕ → Action (Unit {0})
store_room r now = do
  insert_row (insert_room r)
  insert_row (
      insert_member
        (record { room_id = r.id; user_id = r.created_by; role = owner; added_at = now }))
  audit (entry r.created_by create_room r.id r.id)

-- `create_room`. The reply carries the name as it was asked for.
pub create : ℕ → Role → Text → Action Room
create user role name = do
  require (is_admin role) permission_denied
  require (not (is_empty name || is_empty (strip name))) invalid_input
  id ← new_uuid
  now ← clock
  attempt
      (do
        store_room (record { id = id; name = strip name; created_by = user; created_at = now }) now
        pure (record { id = id; name = name; created_by = user; created_at = now }))
      (fail database_error)

-- `add_member`, after its checks
pub add_user : (user room target username : ℕ) → Role → Action (Unit {0})
add_user user room target username role = do
  now ← clock
  attempt
      (do
        insert_row (
            insert_member
              (record { room_id = room; user_id = target; role = role; added_at = now }))
        broadcast (member_added room target username role)
        audit (entry user add_member target room))
      (fail database_error)

pub add : ℕ → Role → ℕ → ℕ → Role → Action (Unit {0})
add user role room target new_role = do
  allowed ← can_manage_members user role room
  require allowed permission_denied
  require (is_room_role new_role) invalid_role
  row ← query (user_of target)
  u ← present row user_not_found
  existing ← query (membership room target)
  require (not (found existing)) already_member
  add_user user room target u.username new_role

-- The join of a membership with its user.
abbrev pub member_user : ℕ → ℕ → Db → Option (Member × User)
member_user room user db = elim (membership room user db) [
  | none ↦ none
  | some m ↦ elim (user_of user db) [ none ↦ none | some u ↦ some (m, u) ]
]

-- `remove_member`, after its checks
pub remove_user : (user room target username : ℕ) → Action (Unit {0})
remove_user user room target username =
    attempt
      (do
        update (delete_member room target)
        broadcast (member_removed room target username)
        audit (entry user remove_member target room))
      (fail database_error)

-- The count of the owners, before one of them is removed.
abbrev keeps_owner : ℕ → Action (Unit {0})
keeps_owner room = do
  owners ← query (owner_count room)
  require (not (leb owners 1)) cannot_remove_last_owner

pub remove : ℕ → Role → ℕ → ℕ → Action (Unit {0})
remove user role room target = do
  allowed ← can_manage_members user role room
  require allowed permission_denied
  row ← query (member_user room target)
  (m, u) ← present row user_not_member
  when (is_owner m.role) (keeps_owner room)
  remove_user user room target u.username

-- `set_role`, after its checks
pub change_role : (user room target username : ℕ) → Role → Action (Unit {0})
change_role user room target username role =
    attempt
      (do
        update (write_role room target role)
        broadcast (role_updated room target username role)
        audit (entry user set_role target room))
      (fail database_error)

pub set_member_role : ℕ → Role → ℕ → ℕ → Role → Action (Unit {0})
set_member_role user role room target new_role = do
  allowed ← can_manage_members user role room
  require allowed permission_denied
  require (not (user == target)) cannot_change_own_role
  require (is_room_role new_role) invalid_role
  row ← query (member_user room target)
  (m, u) ← present row user_not_member
  change_role user room target u.username new_role
