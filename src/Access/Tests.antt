-- ===== src/Access/Tests.antt =====
-- The theorems about access at a concrete world: room 7 has the owner 1 and the viewer 2.
use lan_secure_file_system.Common.{◌≡◌, false, some, [], ◌∷◌}
use lan_secure_file_system.World.{owner, viewer, other_role, World, returned}
use lan_secure_file_system.World.Samples.{blank}
use lan_secure_file_system.Access.{upload_file, check_permission}
use lan_secure_file_system.Access.Matrix.{check_permission-eq-granted}

abbrev shared : World
shared = record blank {
  db = record blank.db {
    members =
        record { room_id = 7; user_id = 1; role = owner; added_at = 0 }
        ∷ record { room_id = 7; user_id = 2; role = viewer; added_at = 0 }
        ∷ [];
  };
}

check_permission-eq-granted_example :
    ((check_permission 2 (other_role 3) (some 7) upload_file shared).0 ≡ returned false)
    × ((check_permission 2 (other_role 3) (some 7) upload_file shared).1.db ≡ shared.db)
check_permission-eq-granted_example =
    check_permission-eq-granted 2 (other_role 3) (some 7) upload_file shared
