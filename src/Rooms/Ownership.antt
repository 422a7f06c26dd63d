-- ===== src/Rooms/Ownership.antt =====
-- Which operations of the room service leave a room with an owner, and which do not.
use lan_secure_file_system.Common.{
  ℕ, suc, ◌≤◌, ◌+◌, ◌≡◌, ◌⊎◌, inl, inr, true, false, not, refl, Option, some, List, [], ◌∷◌, keep,
  count, find, arith, change, ◌≢◌, Option-cases,
}
use lan_secure_file_system.World.{
  Role, admin, is_admin, is_owner, Member, User, World, ErrorCode, Runs, weaken,
}
use lan_secure_file_system.Access.{is_row_of, membership}
use lan_secure_file_system.Rooms.{
  is_room_role, user_of, is_owner_of, owner_count, remove, set_member_role,
}
use lan_secure_file_system.Rooms.Membership.{remove-Runs}
use lan_secure_file_system.Rooms.Granting.{
  ChangeError, not_manager, own_role, not_a_role, not_member, not_stored, broken,
  set_member_role-Runs,
}
use lan_secure_file_system.Rooms.Tables.{IsKeyed}
use lan_secure_file_system.Access.Checks.{Manages}

-- The owners of a room are those in the rows of a user, and those in the others.
split_owners :
    (room user : ℕ) (ms : List Member)
    → count (is_owner_of room) ms
      ≤ count (is_owner_of room) (keep (λ m. not (is_row_of room user m)) ms)
        + count (is_row_of room user) ms
split_owners room user [] = omega arith
split_owners room user (m ∷ ms) = ground (arith, split_owners room user ms)

keep_owners :
    (room user : ℕ) (ms : List Member) (m : Member)
    → find (is_row_of room user) ms ≡ some m
    → is_owner m.role ≡ false
    → count (is_row_of room user) ms ≤ 1
    → count (is_owner_of room) ms
      ≤ count (is_owner_of room) (keep (λ m. not (is_row_of room user m)) ms)
keep_owners room user [] m f h k = ground arith
keep_owners room user (n ∷ ms) m f h k =
    ground (arith, split_owners room user ms, keep_owners room user ms m)

-- A removal that succeeds leaves the room with an owner, if it had one, for a table that respects its
-- primary key; a removal that fails changes no member.
pub remove-owner_count :
    (user : ℕ) (role : Role) (room target : ℕ) (w : World)
    → IsKeyed w.members
    → 1 ≤ owner_count room w.db
    → Runs
        (remove user role room target)
        w
        (λ t q. 1 ≤ owner_count room q.db)
        (λ code q. 1 ≤ owner_count room q.db)
remove-owner_count user role room target w keyed has =
    weaken (remove-Runs user role room target w)
      (λ t q r. rw r.removed (left_owner r.row r.was_member r.not_last)) (λ code q h. rw h.0 has)
  where
    left_owner :
        (row : Member)
        → membership room target w.db ≡ some row
        → (is_owner row.role ≡ false) ⊎ (2 ≤ owner_count room w.db)
        → 1 ≤ count (is_owner_of room) (keep (λ m. not (is_row_of room target m)) w.members)
    left_owner row m l = elim l [
      | inl other ↦
          omega (arith, keep_owners room target w.members row m other (keyed room target), has)
      | inr two ↦ omega (arith, split_owners room target w.members, keyed room target)
    ]

-- A change of another user's role leaves an owner his own.
other_owner :
    (room user target : ℕ) (new_role : Role) (ms : List Member) (m : Member)
    → find (is_row_of room user) ms ≡ some m
    → is_owner m.role ≡ true
    → user ≢ target
    → 1
      ≤ count
          (is_owner_of room)
          (change (is_row_of room target) (λ n. record n { role = new_role }) ms)
other_owner room user target new_role [] m f h d = ground arith
other_owner room user target new_role (n ∷ ms) m f h d =
    ground (arith, other_owner room user target new_role ms m)

-- Owners who are demoted count as if they were gone.
demoted_owners :
    (room target : ℕ) (new_role : Role) (ms : List Member)
    → is_owner new_role ≡ false
    → count
        (is_owner_of room)
        (change (is_row_of room target) (λ n. record n { role = new_role }) ms)
      ≡ count (is_owner_of room) (keep (λ m. not (is_row_of room target m)) ms)
demoted_owners room target new_role [] h = omega arith
demoted_owners room target new_role (n ∷ ms) h =
    ground (arith, demoted_owners room target new_role ms h)

kept_fewer :
    (room target : ℕ) (ms : List Member)
    → count (is_owner_of room) (keep (λ m. not (is_row_of room target m)) ms)
      ≤ count (is_owner_of room) ms
kept_fewer room target [] = omega arith
kept_fewer room target (n ∷ ms) = ground (arith, kept_fewer room target ms)

one_fewer :
    (room target : ℕ) (ms : List Member) (m : Member)
    → find (is_row_of room target) ms ≡ some m
    → is_owner m.role ≡ true
    → suc (count (is_owner_of room) (keep (λ m. not (is_row_of room target m)) ms))
      ≤ count (is_owner_of room) ms
one_fewer room target [] m f h = ground arith
one_fewer room target (n ∷ ms) m f h =
    ground (arith, kept_fewer room target ms, one_fewer room target ms m)

-- A change of role by an owner who is no global administrator leaves the room with an owner: himself.
pub set_member_role-owner_count :
    (user : ℕ) (role : Role) (room target : ℕ) (new_role : Role) (w : World)
    → is_admin role ≡ false
    → 1 ≤ owner_count room w.db
    → Runs
        (set_member_role user role room target new_role)
        w
        (λ t q. 1 ≤ owner_count room q.db)
        (λ code q. 1 ≤ owner_count room q.db)
set_member_role-owner_count user role room target new_role w not_admin has =
    weaken (set_member_role-Runs user role room target new_role w)
      (λ t q c. rw c.changed (still_owner c.by_manager c.not_own)) (λ code q h. rw h.0 has)
  where
    still_owner :
        Manages user role room w.db
        → user ≢ target
        → 1
          ≤ count
              (is_owner_of room)
              (change (is_row_of room target) (λ n. record n { role = new_role }) w.members)
    still_owner by d = elim (Option-cases (membership room user w.db)) [
      | inl e ↦ ground arith
      | inr (m, e) ↦ other_owner room user target new_role w.members m e (ground arith) d
    ]

-- Nothing keeps a global administrator from demoting the last owner of a room, another user than himself:
-- where no call fails, `set_role` with any other role of rooms succeeds, and no owner is left.
pub set_member_role-orphans :
    (user : ℕ) (room target : ℕ) (new_role : Role) (w : World) (row : Member) (u : User)
    → membership room target w.db ≡ some row
    → user_of target w.db ≡ some u
    → is_owner row.role ≡ true
    → owner_count room w.db ≡ 1
    → user ≢ target
    → is_room_role new_role ≡ true
    → is_owner new_role ≡ false
    → ((n : ℕ) → w.faults n ≡ false)
    → Runs
        (set_member_role user admin room target new_role)
        w
        (λ t q. owner_count room q.db ≡ 0)
        (λ code q. ⊥)
set_member_role-orphans user room target new_role w row u m is_user o one other valid r works =
    weaken (set_member_role-Runs user admin room target new_role w)
      (λ t q c. rw c.changed (
        omega (
          arith,
          demoted_owners room target new_role w.members r,
          one_fewer room target w.members row m o,
          one,
        )))
      (λ code q h. refused code h.1)
  where
    refused : (code : Option ErrorCode) → ChangeError user admin room target new_role w code → ⊥
    refused _ (not_manager n) = n (inl refl)
    refused _ (own_role e) = other e
    refused _ (not_a_role e) = cc
    refused _ (not_member e) = ground arith
    refused _ (not_stored (n, e)) = let never = works n in cc
    refused _ (broken (n, e)) = let never = works n in cc
