-- ===== src/Rooms/Granting.antt =====
-- How members and their roles come about: what add_member and set_role of the room service do to the
-- table of members, on whose behalf, and why they refuse.
use lan_secure_file_system.Common.{
  ℕ, ◌≡◌, refl, ◌⊎◌, inl, inr, Bool, true, false, not, Option, none, some, List, [], ◌∷◌, find,
  change, any, arith, ◌==◌, ◌≢◌, ◌∙◌,
}
use lan_secure_file_system.World.{
  Role, User, Member, Db, World, ErrorCode, permission_denied, user_not_member, database_error,
  cannot_change_own_role, invalid_role, user_not_found, already_member, Fault, Runs, tick, bind,
  on_attempt, on_audit, on_broadcast, on_fail, on_insert_row, on_present, on_query, on_require,
  on_update, on_clock,
}
use lan_secure_file_system.Access.{is_row_of, membership, found}
use lan_secure_file_system.Access.Checks.{Manages, on_can_manage_members}
use lan_secure_file_system.Rooms.{
  is_room_role, has_room, has_user, user_of, member_user, add, add_user, set_member_role,
  change_role, insert_member,
}
use lan_secure_file_system.Rooms.Membership.{member_user-membership, members-audited-announced}

-- A member that was added: on behalf of a manager, a user who was no member, in a role of rooms.
pub record Addition (user : ℕ) (role : Role) (room target : ℕ) (new_role : Role) (w : World)
    (after : Db) : Type 0 where
  pub by_manager : Manages user role room w.db
  pub new_role_IsValid : is_room_role new_role ≡ true
  pub was_no_member : membership room target w.db ≡ none
  pub is_a_user : has_user target w.db ≡ true
  pub added :
      after.members
      ≡ record { room_id = room; user_id = target; role = new_role; added_at = w.now } ∷ w.members

-- Why an addition is refused: `none` is an exception.
pub data AddError (user : ℕ) (role : Role) (room target : ℕ) (new_role : Role) (w : World)
    : Option ErrorCode → Type 0 where
  not_manager :
      ¬ Manages user role room w.db
      → AddError user role room target new_role w (some permission_denied)
  not_a_role :
      is_room_role new_role ≡ false → AddError user role room target new_role w (some invalid_role)
  no_user :
      user_of target w.db ≡ none → AddError user role room target new_role w (some user_not_found)
  a_member :
      found (membership room target w.db) ≡ true
      → AddError user role room target new_role w (some already_member)
  no_room :
      has_room room w.db ≡ false → AddError user role room target new_role w (some database_error)
  not_stored : Fault w → AddError user role room target new_role w (some database_error)
  broken : Fault w → AddError user role room target new_role w none

-- A role that was changed: on behalf of a manager other than the member.
pub record Change (user : ℕ) (role : Role) (room target : ℕ) (new_role : Role) (before after : Db)
    : Type 0 where
  pub by_manager : Manages user role room before
  pub not_own : user ≢ target
  pub new_role_IsValid : is_room_role new_role ≡ true
  pub row : Member
  pub was_member : membership room target before ≡ some row
  pub changed :
      after.members
      ≡ change (is_row_of room target) (λ m. record m { role = new_role }) before.members

-- Why a change is refused: `none` is an exception.
pub data ChangeError (user : ℕ) (role : Role) (room target : ℕ) (new_role : Role) (w : World)
    : Option ErrorCode → Type 0 where
  not_manager :
      ¬ Manages user role room w.db
      → ChangeError user role room target new_role w (some permission_denied)
  own_role :
      user ≡ target → ChangeError user role room target new_role w (some cannot_change_own_role)
  not_a_role :
      is_room_role new_role ≡ false
      → ChangeError user role room target new_role w (some invalid_role)
  not_member :
      member_user room target w.db ≡ none
      → ChangeError user role room target new_role w (some user_not_member)
  not_stored : Fault w → ChangeError user role room target new_role w (some database_error)
  broken : Fault w → ChangeError user role room target new_role w none

any-find : {A : Type 0} (p : A → Bool) (xs : List A) (a : A) → find p xs ≡ some a → any p xs ≡ true
any-find p [] a h = ground arith
any-find p (x ∷ xs) a h = ground (arith, any-find p xs a)

any-find-none : {A : Type 0} (p : A → Bool) (xs : List A) → find p xs ≡ none → any p xs ≡ false
any-find-none p [] h = refl
any-find-none p (x ∷ xs) h = ground (arith, any-find-none p xs)

-- A new member is stored, unless there is no room.
insert_member-cases :
    (m : Member) (db : Db) (u : User)
    → user_of m.user_id db ≡ some u
    → membership m.room_id m.user_id db ≡ none
    → ((insert_member m db ≡ none) × (has_room m.room_id db ≡ false))
      ⊎ (insert_member m db ≡ some (record db { members = m ∷ db.members }))
insert_member-cases m db u hu hm = ground (
  arith,
  any-find (λ v. v.id == m.user_id) db.users u hu,
  any-find-none (is_row_of m.room_id m.user_id) db.members hm,
)

on_add_user :
    (user room target username : ℕ) (new_role : Role) (w : World) {good : Unit {0} → World → Type 0}
    {bad : Option ErrorCode → World → Type 0} (u : User)
    → user_of target w.db ≡ some u
    → membership room target w.db ≡ none
    → ((q : World)
        → q.members
          ≡ record { room_id = room; user_id = target; role = new_role; added_at = w.now }
            ∷ w.members
        → good tt q)
    → (Fault w ⊎ (has_room room w.db ≡ false) → bad (some database_error) (tick w))
    → Runs (add_user user room target username new_role) w good bad
unfolding add_user
on_add_user user room target username new_role w u hu hm g b = bind (
    on_clock (
      on_attempt _ _ (
        bind (
          on_insert_row _ (λ f. on_fail _ (b (inl f))) (λ e. on_fail _ (b (inr (refused e))))
            (λ db e. bind (
              on_broadcast _
                (on_audit _ (g _ (members-audited-announced _ _ _ ∙ stored db e)))))))))
  where
    row : Member
    row = record { room_id = room; user_id = target; role = new_role; added_at = w.now }

    refused : insert_member row w.db ≡ none → has_room room w.db ≡ false
    refused e = elim (insert_member-cases row w.db u hu hm) [ inl c ↦ c.1 | inr c ↦ ground arith ]

    stored : (db : Db) → insert_member row w.db ≡ some db → db.members ≡ row ∷ w.members
    stored db e = elim (insert_member-cases row w.db u hu hm) [
      | inl c ↦ ground arith
      | inr c ↦ ground arith
    ]

-- `add_member` succeeds only for a manager, and then adds one row: the target, who was a user and no
-- member, in the role that was asked for, one of the three of rooms. Otherwise it changes no member, and
-- the error is the true one.
pub add-Runs :
    (user : ℕ) (role : Role) (room target : ℕ) (new_role : Role) (w : World)
    → Runs
        (add user role room target new_role)
        w
        (λ t q. Addition user role room target new_role w q.db)
        (λ code q. (q.members ≡ w.members) × AddError user role room target new_role w code)
unfolding add
add-Runs user role room target new_role w = bind (
    on_can_manage_members user role room w (λ f. (refl, broken f))
      (λ n allowed yes no. bind (
        on_require _ _ (λ e. (refl, not_manager (no e)))
          (λ ok. bind (
            on_require _ _ (λ e. (refl, not_a_role e))
              (λ valid. bind (
                on_query _ (λ f. (refl, broken f))
                  (bind (
                    on_present _ _ (λ e. (refl, no_user e))
                      (λ u is_user. bind (
                        on_query _ (λ f. (refl, broken f))
                          (bind (
                            on_require _ _ (λ e. (refl, a_member (already e)))
                              (λ new.
                                on_add_user user room target _ new_role _ u is_user (fresh new)
                                  (λ q h. record {
                                    by_manager = yes ok;
                                    new_role_IsValid = valid;
                                    was_no_member = fresh new;
                                    is_a_user = any-find (λ v. v.id == target) w.users u is_user;
                                    added = h;
                                  })
                                  (λ c. (
                                    refl,
                                    elim c [ inl f ↦ not_stored f | inr e ↦ no_room e ],
                                  ))))))))))))))))
  where
    already :
        not (found (membership room target w.db)) ≡ false
        → found (membership room target w.db) ≡ true
    already h = ground arith

    fresh : not (found (membership room target w.db)) ≡ true → membership room target w.db ≡ none
    fresh h = ground arith

on_change_role :
    (user room target username : ℕ) (new_role : Role) (w : World) {good : Unit {0} → World → Type 0}
    {bad : Option ErrorCode → World → Type 0}
    → ((q : World)
        → q.members ≡ change (is_row_of room target) (λ m. record m { role = new_role }) w.members
        → good tt q)
    → (Fault w → bad (some database_error) (tick w))
    → Runs (change_role user room target username new_role) w good bad
unfolding change_role
on_change_role user room target username new_role w g b = on_attempt _ _ (
    bind (
      on_update _ (λ f. on_fail _ (b f))
        (bind (on_broadcast _ (on_audit _ (g _ (members-audited-announced _ _ _)))))))

-- `set_role` succeeds only for a manager who is not the target, and then gives the row of the target,
-- who was a member, the role that was asked for, one of the three of rooms. Otherwise it changes no
-- member, and the error is the true one.
pub set_member_role-Runs :
    (user : ℕ) (role : Role) (room target : ℕ) (new_role : Role) (w : World)
    → Runs
        (set_member_role user role room target new_role)
        w
        (λ t q. Change user role room target new_role w.db q.db)
        (λ code q. (q.members ≡ w.members) × ChangeError user role room target new_role w code)
unfolding set_member_role
set_member_role-Runs user role room target new_role w = bind (
    on_can_manage_members user role room w (λ f. (refl, broken f))
      (λ n allowed yes no. bind (
        on_require _ _ (λ e. (refl, not_manager (no e)))
          (λ ok. bind (
            on_require _ _ (λ e. (refl, own_role (same e)))
              (λ other. bind (
                on_require _ _ (λ e. (refl, not_a_role e))
                  (λ valid. bind (
                    on_query _ (λ f. (refl, broken f))
                      (bind (
                        on_present _ _ (λ e. (refl, not_member e))
                          (λ row e.
                            on_change_role user room target _ new_role _
                              (λ q h. record {
                                by_manager = yes ok;
                                not_own = different other;
                                new_role_IsValid = valid;
                                row = row.0;
                                was_member = member_user-membership room target w.db _ _ e;
                                changed = h;
                              })
                              (λ f. (refl, not_stored f))))))))))))))
  where
    same : not (user == target) ≡ false → user ≡ target
    same h = ground arith

    different : not (user == target) ≡ true → user ≢ target
    different h e = ground arith
