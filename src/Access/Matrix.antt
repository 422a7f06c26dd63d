-- ===== src/Access/Matrix.antt =====
-- What the permission matrix grants, and how the checks that the services wrote out relate to it.
use lan_secure_file_system.Common.{
  ℕ, ◌≤◌, ◌≡◌, Bool, true, false, ◌&&◌, ◌||◌, Option, none, some, arith, Option-cases, leb, not,
  if◌then◌else◌, refl, sym, inl, inr,
}
use lan_secure_file_system.World.{
  Role, admin, owner, member, viewer, other_role, is_admin, is_owner, Member, Db, World, returned,
  raised, choose, maybe, query, call, pure, ◌>>=◌,
}
use lan_secure_file_system.Access.{
  Permission, create_room, add_member, remove_member, change_role, upload_file, download_file,
  view_files, create_share_token, delete_file, other_action, allows, membership, check_permission,
  can_manage_members, owns, allowed_by, is_create_room,
}

-- The order of the roles: a role that is not listed is below all.
abbrev rank : Role → ℕ
rank admin = 4
rank owner = 3
rank member = 2
rank viewer = 1
rank (other_role text) = 0

-- A higher role may do whatever a lower role may.
pub allows_mono :
    (low high : Role) (action : Permission)
    → rank low ≤ rank high
    → allows low action ≡ true
    → allows high action ≡ true
unfolding allows
allows_mono low high action h e = ground arith

-- The least role that the matrix lets do an action.
abbrev required : Permission → ℕ
required create_room = 4
required add_member = 3
required remove_member = 3
required change_role = 3
required delete_file = 3
required upload_file = 2
required create_share_token = 2
required download_file = 1
required view_files = 1
required (other_action text) = 5

-- The matrix is a threshold on the rank of the role, for listed roles.
allows-eq-leb :
    (role : Role) (action : Permission) → allows role action ≡ leb (required action) (rank role)
unfolding allows
allows-eq-leb role action = ground arith

-- The actions on the members of a room.
abbrev is_on_members : Permission → Bool
is_on_members add_member = true
is_on_members remove_member = true
is_on_members change_role = true
is_on_members create_room = false
is_on_members upload_file = false
is_on_members download_file = false
is_on_members view_files = false
is_on_members create_share_token = false
is_on_members delete_file = false
is_on_members (other_action text) = false

-- No row of the membership table has the role ADMIN, as `add_member` and `set_role` see to.
abbrev HasRoomRole : Option Member → Type 0
HasRoomRole none = Unit {0}
HasRoomRole (some m) = is_admin m.role ≡ false

allows-is_owner :
    (role : Role) (action : Permission)
    → is_admin role ≡ false
    → is_on_members action ≡ true
    → allows role action ≡ is_owner role
unfolding allows
allows-is_owner role action h e = ground arith

owns-allowed_by :
    (m : Option Member) (action : Permission)
    → HasRoomRole m
    → is_on_members action ≡ true
    → owns m ≡ allowed_by m action
owns-allowed_by none action h e = refl
owns-allowed_by (some m) action h e = sym (allows-is_owner m.role action h e)

-- The check of the room service on who may manage members is the check of the matrix, for each of
-- the three actions on members: the same answer or exception, and the same world after it.
pub can_manage_members-eq-check_permission :
    (user : ℕ) (role : Role) (room : ℕ) (action : Permission) (w : World)
    → is_on_members action ≡ true
    → HasRoomRole (membership room user w.db)
    → can_manage_members user role room w ≡ check_permission user role (some room) action w
unfolding can_manage_members check_permission choose maybe query call pure ◌>>=◌
can_manage_members-eq-check_permission user role room action w h k =
    ground (arith, owns-allowed_by (membership room user w.db) action k h)

-- Whether a user may do an action, read off the tables.
abbrev granted : ℕ → Role → Option ℕ → Permission → Db → Bool
granted user role room action db = is_admin role || (elim room [
  | none ↦ false
  | some r ↦ elim (membership r user db) [
    | none ↦ false
    | some m ↦ not (is_create_room action) && leb (required action) (rank m.role)
  ]
])

-- Whether the check has to ask the database.
abbrev asks : Role → Option ℕ → Permission → Bool
asks role none action = false
asks role (some r) action = not (is_admin role) && not (is_create_room action)

-- `check_permission` answers by the rank of the caller: yes for a global administrator, and for a
-- member of the room whose role reaches the rank that the action requires, but never for CREATE_ROOM.
-- It raises exactly if its one query does, and it changes no table.
pub check_permission-eq-granted :
    (user : ℕ) (role : Role) (room : Option ℕ) (action : Permission) (w : World)
    → ((check_permission user role room action w).0 ≡ (
        if asks role room action && w.faults w.calls
        then raised
        else returned (granted user role room action w.db)))
      × ((check_permission user role room action w).1.db ≡ w.db)
unfolding check_permission choose maybe query call pure ◌>>=◌
check_permission-eq-granted user role none action w = (ground arith, ground arith)
check_permission-eq-granted user role (some r) action w =
    elim (Option-cases (membership r user w.db)) [
      | inl e ↦ (ground arith, ground arith)
      | inr (m, e) ↦ (ground (arith, allows-eq-leb m.role action), ground arith)
    ]
