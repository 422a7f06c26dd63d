-- ===== src/Access/Moves.antt =====
-- The checks of access leave the registry alone.
use lan_secure_file_system.Common.{ℕ, Option}
use lan_secure_file_system.World.{Role}
use lan_secure_file_system.World.Moves.{Moves, Always, moves}
use lan_secure_file_system.Access.{
  Permission, check_permission, can_manage_members, has_room_access, can_delete_file,
}

pub Moves-check_permission :
    (user : ℕ) (role : Role) (room : Option ℕ) (action : Permission)
    → Moves Always (check_permission user role room action)
unfolding check_permission
Moves-check_permission user role room action = search moves depth 20

pub Moves-can_manage_members :
    (user : ℕ) (role : Role) (room : ℕ) → Moves Always (can_manage_members user role room)
unfolding can_manage_members
Moves-can_manage_members user role room = search moves depth 20

pub Moves-has_room_access :
    (user : ℕ) (role : Role) (room : ℕ) → Moves Always (has_room_access user role room)
unfolding has_room_access
Moves-has_room_access user role room = search moves depth 20

pub Moves-can_delete_file :
    (user : ℕ) (role : Role) (room uploader : ℕ)
    → Moves Always (can_delete_file user role room uploader)
unfolding can_delete_file
Moves-can_delete_file user role room uploader = search moves depth 20
