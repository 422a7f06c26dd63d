-- ===== src/Access.antt =====
-- coordinator-server/auth/authorization_service.py: the permission matrix and the check against it,
-- with the membership tests that the room and file services repeat.
pub mod Matrix
pub mod Checks
pub mod Moves
mod Tests
use lan_secure_file_system.Common.{
  ℕ, Bool, true, false, not, ◌&&◌, Option, none, some, List, find, ◌==◌, if◌then◌else◌,
}
use lan_secure_file_system.World.{
  Role, admin, owner, member, viewer, other_role, is_admin, is_owner, Member, Db, Action, pure,
  choose, maybe, query, ◌>>=◌,
}

-- The action texts of the matrix, and any other text.
pub data Permission : Type 0 where
  create_room add_member remove_member change_role : Permission
  upload_file download_file view_files create_share_token delete_file : Permission
  other_action : ℕ → Permission

-- `PERMISSION_MATRIX`, with `False` for a role or an action that it does not list
-- (`_check_permission_matrix`)
pub allows : Role → Permission → Bool
allows admin (other_action text) = false
allows admin create_room = true
allows admin add_member = true
allows admin remove_member = true
allows admin change_role = true
allows admin upload_file = true
allows admin download_file = true
allows admin view_files = true
allows admin create_share_token = true
allows admin delete_file = true
allows owner (other_action text) = false
allows owner create_room = false
allows owner add_member = true
allows owner remove_member = true
allows owner change_role = true
allows owner upload_file = true
allows owner download_file = true
allows owner view_files = true
allows owner create_share_token = true
allows owner delete_file = true
allows member (other_action text) = false
allows member create_room = false
allows member add_member = false
allows member remove_member = false
allows member change_role = false
allows member upload_file = true
allows member download_file = true
allows member view_files = true
allows member create_share_token = true
allows member delete_file = false
allows viewer (other_action text) = false
allows viewer create_room = false
allows viewer add_member = false
allows viewer remove_member = false
allows viewer change_role = false
allows viewer upload_file = false
allows viewer download_file = true
allows viewer view_files = true
allows viewer create_share_token = false
allows viewer delete_file = false
allows (other_role text) action = false

abbrev pub is_create_room : Permission → Bool
is_create_room create_room = true
is_create_room add_member = false
is_create_room remove_member = false
is_create_room change_role = false
is_create_room upload_file = false
is_create_room download_file = false
is_create_room view_files = false
is_create_room create_share_token = false
is_create_room delete_file = false
is_create_room (other_action text) = false

-- `WHERE room_id = … AND user_id = …`
abbrev pub is_row_of : ℕ → ℕ → Member → Bool
is_row_of room user m = (m.room_id == room) && (m.user_id == user)

-- The first row of the membership query.
abbrev pub membership : ℕ → ℕ → Db → Option Member
membership room user db = find (is_row_of room user) db.members

-- The end of `check_permission`, on the row that the query found.
abbrev pub allowed_by : Option Member → Permission → Bool
allowed_by none action = false
allowed_by (some m) action = allows m.role action

-- `check_permission`
unfoldable pub check_permission : ℕ → Role → Option ℕ → Permission → Action Bool
check_permission user role room action = choose (is_admin role) (pure true) (
    choose (is_create_room action) (pure false)
      (maybe room (pure false) (λ r. do m ← query (membership r user); pure (allowed_by m action))))

-- `get_user_role_in_room`
unfoldable get_user_role_in_room : ℕ → ℕ → Action (Option Role)
get_user_role_in_room user room = do
  m ← query (membership room user)
  pure (elim m [ none ↦ none | some row ↦ some row.role ])

abbrev pub owns : Option Member → Bool
owns none = false
owns (some m) = is_owner m.role

abbrev pub found : Option Member → Bool
found none = false
found (some m) = true

-- `_can_manage_members` of room_service.py
pub can_manage_members : ℕ → Role → ℕ → Action Bool
can_manage_members user role room =
    choose (is_admin role) (pure true) (do m ← query (membership room user); pure (owns m))

-- `_has_room_access` of room_service.py and of file_service.py
pub has_room_access : ℕ → Role → ℕ → Action Bool
has_room_access user role room =
    choose (is_admin role) (pure true) (do m ← query (membership room user); pure (found m))

-- `_can_delete_file` of file_service.py
unfoldable pub can_delete_file : ℕ → Role → ℕ → ℕ → Action Bool
can_delete_file user role room uploader = choose (is_admin role) (pure true) (
    choose (not (uploader == 0) && (uploader == user)) (pure true)
      (do m ← query (membership room user); pure (owns m)))
