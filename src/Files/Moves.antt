-- ===== src/Files/Moves.antt =====
-- The file service leaves the registry alone.
use lan_secure_file_system.Common.{ℕ}
use lan_secure_file_system.World.{Role}
use lan_secure_file_system.World.Moves.{Moves, Always, moves}
use lan_secure_file_system.Access.Moves.{Moves-has_room_access, Moves-can_delete_file}
use lan_secure_file_system.Files.{list_files, get_file_detail, get_file_versions, delete}

pub Moves-list_files :
    (user : ℕ) (role : Role) (room : ℕ) → Moves Always (list_files user role room)
unfolding list_files
Moves-list_files user role room = search (moves, Moves-has_room_access) depth 20

pub Moves-get_file_detail :
    (user : ℕ) (role : Role) (id : ℕ) → Moves Always (get_file_detail user role id)
unfolding get_file_detail
Moves-get_file_detail user role id = search (moves, Moves-has_room_access) depth 20

pub Moves-get_file_versions :
    (user : ℕ) (role : Role) (room name : ℕ) → Moves Always (get_file_versions user role room name)
unfolding get_file_versions
Moves-get_file_versions user role room name = search (moves, Moves-has_room_access) depth 20

pub Moves-delete : (user : ℕ) (role : Role) (id : ℕ) → Moves Always (delete user role id)
unfolding delete
Moves-delete user role id = search (moves, Moves-can_delete_file) depth 40
