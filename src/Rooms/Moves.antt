-- ===== src/Rooms/Moves.antt =====
-- The room service leaves the registry alone.
use lan_secure_file_system.Common.{ℕ, Text}
use lan_secure_file_system.World.{Role}
use lan_secure_file_system.World.Moves.{Moves, Always, moves}
use lan_secure_file_system.Access.Moves.{Moves-can_manage_members, Moves-has_room_access}
use lan_secure_file_system.Rooms.{
  store_room, create, add_user, add, remove_user, remove, change_role, set_member_role,
}
use lan_secure_file_system.Rooms.Listing.{list_rooms, list_members}

pub Moves-create : (user : ℕ) (role : Role) (name : Text) → Moves Always (create user role name)
unfolding create store_room
Moves-create user role name = search moves depth 40

pub Moves-add :
    (user : ℕ) (role : Role) (room target : ℕ) (new_role : Role)
    → Moves Always (add user role room target new_role)
unfolding add add_user
Moves-add user role room target new_role = search (moves, Moves-can_manage_members) depth 40

pub Moves-remove :
    (user : ℕ) (role : Role) (room target : ℕ) → Moves Always (remove user role room target)
unfolding remove remove_user
Moves-remove user role room target = search (moves, Moves-can_manage_members) depth 40

pub Moves-set_member_role :
    (user : ℕ) (role : Role) (room target : ℕ) (new_role : Role)
    → Moves Always (set_member_role user role room target new_role)
unfolding set_member_role change_role
Moves-set_member_role user role room target new_role =
    search (moves, Moves-can_manage_members) depth 40

pub Moves-list_rooms : (user : ℕ) (role : Role) → Moves Always (list_rooms user role)
unfolding list_rooms
Moves-list_rooms user role = search moves depth 20

pub Moves-list_members :
    (user : ℕ) (role : Role) (room : ℕ) → Moves Always (list_members user role room)
unfolding list_members
Moves-list_members user role room = search (moves, Moves-has_room_access) depth 20
