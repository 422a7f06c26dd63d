-- ===== src/Rooms/Tables.antt =====
-- The table of members keeps its primary key whatever the room service does.
use lan_secure_file_system.Common.{
  any, false, Text, ℕ, suc, ◌≤◌, ◌≡◌, Bool, not, ◌&&◌, none, List, [], ◌∷◌, keep, change, find,
  count, arith, ◌==◌, if◌then◌else◌,
}
use lan_secure_file_system.World.{Role, Member, World, weaken, final}
use lan_secure_file_system.Access.{is_row_of}
use lan_secure_file_system.Rooms.{create, add, remove, set_member_role}
use lan_secure_file_system.Rooms.Creation.{create-Runs}
use lan_secure_file_system.Rooms.Membership.{remove-Runs}
use lan_secure_file_system.Rooms.Granting.{add-Runs, set_member_role-Runs}

-- The primary key of the table: at most one row for a room and a user.
abbrev pub IsKeyed : List Member → Type 0
IsKeyed ms = (room user : ℕ) → count (is_row_of room user) ms ≤ 1

count-keep : {A : Type 0} (p q : A → Bool) (xs : List A) → count p (keep q xs) ≤ count p xs
count-keep p q [] = omega arith
count-keep p q (x ∷ xs) = ground (arith, count-keep p q xs)

count-set_role :
    (a b room target : ℕ) (role : Role) (ms : List Member)
    → count (is_row_of a b) (change (is_row_of room target) (λ m. record m { role = role }) ms)
      ≡ count (is_row_of a b) ms
count-set_role a b room target role [] = omega arith
count-set_role a b room target role (m ∷ ms) =
    ground (arith, count-set_role a b room target role ms)

count-find-none : {A : Type 0} (p : A → Bool) (xs : List A) → find p xs ≡ none → count p xs ≡ 0
count-find-none p [] h = omega arith
count-find-none p (x ∷ xs) h = ground (arith, count-find-none p xs)

pub IsKeyed-remove :
    (user : ℕ) (role : Role) (room target : ℕ) (w : World)
    → IsKeyed w.members
    → IsKeyed (remove user role room target w).1.members
IsKeyed-remove user role room target w keyed =
    final (λ q. IsKeyed q.members)
      (weaken (remove-Runs user role room target w)
        (λ t q r. λ a b. rw r.removed (
          omega (
            arith,
            count-keep (is_row_of a b) (λ m. not (is_row_of room target m)) w.members,
            keyed a b,
          )))
        (λ code q h. rw h.0 keyed))

pub IsKeyed-set_member_role :
    (user : ℕ) (role : Role) (room target : ℕ) (new_role : Role) (w : World)
    → IsKeyed w.members
    → IsKeyed (set_member_role user role room target new_role w).1.members
IsKeyed-set_member_role user role room target new_role w keyed =
    final (λ q. IsKeyed q.members)
      (weaken (set_member_role-Runs user role room target new_role w)
        (λ t q c. λ a b.
          rw c.changed
            (omega (arith, count-set_role a b room target new_role w.members, keyed a b)))
        (λ code q h. rw h.0 keyed))

-- `add_member` keeps the primary key of the table, however it ends.
pub IsKeyed-add :
    (user : ℕ) (role : Role) (room target : ℕ) (new_role : Role) (w : World)
    → IsKeyed w.members
    → IsKeyed (add user role room target new_role w).1.members
IsKeyed-add user role room target new_role w keyed =
    final (λ q. IsKeyed q.members)
      (weaken (add-Runs user role room target new_role w)
        (λ t q c. λ a b. rw c.added (one_more a b c.was_no_member)) (λ code q h. rw h.0 keyed))
  where
    one_more :
        (a b : ℕ)
        → find (is_row_of room target) w.members ≡ none
        → (if (room == a) && (target == b)
            then suc (count (is_row_of a b) w.members)
            else count (is_row_of a b) w.members)
          ≤ 1
    one_more a b f = ground (arith, keyed a b, count-find-none (is_row_of room target) w.members f)

count-any-none : {A : Type 0} (p : A → Bool) (xs : List A) → any p xs ≡ false → count p xs ≡ 0
count-any-none p [] h = omega arith
count-any-none p (x ∷ xs) h = ground (arith, count-any-none p xs)

pub IsKeyed-create :
    (user : ℕ) (role : Role) (name : Text) (w : World)
    → IsKeyed w.members
    → IsKeyed (create user role name w).1.members
IsKeyed-create user role name w keyed =
    final (λ q. IsKeyed q.members)
      (weaken (create-Runs user role name w)
        (λ r q c. λ a b. rw c.owned (one_more a b c.was_no_row)) (λ code q h. rw h.0 keyed))
  where
    one_more :
        (a b : ℕ)
        → any (is_row_of w.next_uuid user) w.members ≡ false
        → (if (w.next_uuid == a) && (user == b)
            then suc (count (is_row_of a b) w.members)
            else count (is_row_of a b) w.members)
          ≤ 1
    one_more a b f =
        ground (arith, keyed a b, count-any-none (is_row_of w.next_uuid user) w.members f)
