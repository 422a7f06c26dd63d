-- ===== src/Rooms/Tests.antt =====
-- The theorems about rooms in a room with one owner and one viewer.
use lan_secure_file_system.Common.{◌≤◌, ◌≡◌, refl, [], ◌∷◌, arith}
use lan_secure_file_system.World.{World, admin, owner, other_role, member, viewer, Runs}
use lan_secure_file_system.World.Samples.{populated}
use lan_secure_file_system.Rooms.{owner_count, create, add, remove, set_member_role}
use lan_secure_file_system.Rooms.Creation.{Created, CreateError, create-Runs}
use lan_secure_file_system.Rooms.Membership.{Removal, RemoveError, remove-Runs}
use lan_secure_file_system.Rooms.Granting.{
  Addition, AddError, add-Runs, Change, ChangeError, set_member_role-Runs,
}
use lan_secure_file_system.Rooms.History.{Reach, start, next, adds, removes, rooms_stay_owned}
use lan_secure_file_system.Rooms.Ownership.{set_member_role-orphans}
use lan_secure_file_system.Rooms.Tables.{IsKeyed}

create-Runs_example :
    Runs
      (create 1 admin (104 ∷ 105 ∷ []))
      populated
      (λ r q. Created 1 admin (104 ∷ 105 ∷ []) populated r q.db)
      (λ code q.
        (q.members ≡ populated.members) × CreateError 1 admin (104 ∷ 105 ∷ []) populated q.db code)
create-Runs_example = create-Runs 1 admin (104 ∷ 105 ∷ []) populated

remove-Runs_example :
    Runs
      (remove 2 member 5 3)
      populated
      (λ t q. Removal 2 member 5 3 populated.db q.db)
      (λ code q. (q.members ≡ populated.members) × RemoveError 2 member 5 3 populated code)
remove-Runs_example = remove-Runs 2 member 5 3 populated

add-Runs_example :
    Runs
      (add 2 member 5 1 viewer)
      populated
      (λ t q. Addition 2 member 5 1 viewer populated q.db)
      (λ code q. (q.members ≡ populated.members) × AddError 2 member 5 1 viewer populated code)
add-Runs_example = add-Runs 2 member 5 1 viewer populated

set_member_role-Runs_example :
    Runs
      (set_member_role 2 member 5 3 owner)
      populated
      (λ t q. Change 2 member 5 3 owner populated.db q.db)
      (λ code q. (q.members ≡ populated.members) × ChangeError 2 member 5 3 owner populated code)
set_member_role-Runs_example = set_member_role-Runs 2 member 5 3 owner populated

populated-IsKeyed : IsKeyed populated.members
populated-IsKeyed room user = ground arith

-- The administrator 1 demotes the owner 2.
set_member_role-orphans_example :
    Runs
      (set_member_role 1 admin 5 2 viewer)
      populated
      (λ t q. owner_count 5 q.db ≡ 0)
      (λ code q. ⊥)
set_member_role-orphans_example =
    set_member_role-orphans 1 5 2 viewer populated
      (record { room_id = 5; user_id = 2; role = owner; added_at = 10 })
      (record { id = 2; username = 12; email = 62; password_hash = 73; global_role = other_role 1 })
      refl refl refl refl (λ e. omega arith) refl refl (λ n. refl)

-- The owner 2 lets the administrator 1 in and puts the viewer 3 out.
abbrev moved : World
moved = (remove 2 member 5 3 (add 2 member 5 1 viewer populated).1).1

moved-Reach : Reach populated moved
moved-Reach = next (next start (adds 2 member 5 1 viewer)) (removes 2 member 5 3)

rooms_stay_owned_example : IsKeyed moved.members × (1 ≤ owner_count 5 moved.db)
rooms_stay_owned_example = rooms_stay_owned 5 moved-Reach populated-IsKeyed (omega arith)
