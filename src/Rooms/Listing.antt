-- ===== src/Rooms/Listing.antt =====
-- The lists of the room service: list_members and list_rooms of coordinator-server/room/room_service.py.
use lan_secure_file_system.Common.{
  ℕ, ◌&&◌, Option, none, some, List, [], ◌∷◌, keep, sort, leb, ◌==◌, if◌then◌else◌,
}
use lan_secure_file_system.World.{
  Role, is_admin, Room, Member, Db, Action, permission_denied, database_error, ◌>>=◌, ◌>>◌, attempt,
  fail, require, query,
}
use lan_secure_file_system.Access.{membership, has_room_access}
use lan_secure_file_system.Rooms.{has_user}

-- `list_members`: the rows of the room whose user exists, oldest first. The order of rows that were
-- added at one time is left to the database; here it is that of the table.
abbrev members_of : ℕ → Db → List Member
members_of room db =
    sort (λ m n. leb m.added_at n.added_at)
      (keep (λ m. (m.room_id == room) && has_user m.user_id db) db.members)

unfoldable pub list_members : ℕ → Role → ℕ → Action (List Member)
list_members user role room = do
  allowed ← has_room_access user role room
  require allowed permission_denied
  attempt (query (members_of room)) (fail database_error)

-- `list_rooms`: the rooms whose creator exists, newest first; for a caller who is no global administrator
-- those that he is a member of, with his role.
abbrev role_in : ℕ → Role → Db → Room → Option (Option Role)
role_in user role db r =
    if is_admin role
    then some none
    else elim (membership r.id user db) [ none ↦ none | some m ↦ some (some m.role) ]

abbrev rooms_with : ℕ → Role → Db → List Room → List (Room × Option Role)
rooms_with user role db [] = []
rooms_with user role db (r ∷ rs) =
    let rest = rooms_with user role db rs in
    if has_user r.created_by db
    then (elim (role_in user role db r) [ none ↦ rest | some o ↦ (r, o) ∷ rest ])
    else rest

abbrev rooms_of : ℕ → Role → Db → List (Room × Option Role)
rooms_of user role db =
    rooms_with user role db (sort (λ r s. leb s.created_at r.created_at) db.rooms)

unfoldable pub list_rooms : ℕ → Role → Action (List (Room × Option Role))
list_rooms user role = attempt (query (rooms_of user role)) (fail database_error)
