-- ===== src/Rooms/Membership.antt =====
-- What each operation of the room service does to the table of members, on whose behalf, and why it
-- refuses.
use lan_secure_file_system.Common.{
  ℕ, ◌≤◌, ◌≡◌, refl, ◌⊎◌, inl, inr, true, false, not, Option, none, some, keep, arith, leb,
}
use lan_secure_file_system.World.{
  Role, is_owner, User, Member, Db, World, ErrorCode, permission_denied, user_not_member,
  cannot_remove_last_owner, database_error, audited, announced, Fault, Runs, tick, bind, on_attempt,
  on_audit, on_broadcast, on_fail, on_present, on_query, on_require, on_update, on_when,
  members-audited, db-announced,
}
use lan_secure_file_system.Access.{is_row_of, membership}
use lan_secure_file_system.Access.Checks.{Manages, on_can_manage_members}
use lan_secure_file_system.Rooms.{owner_count, member_user, remove, remove_user}

-- Why a removal is refused: `none` is an exception.
pub data RemoveError (user : ℕ) (role : Role) (room target : ℕ) (w : World)
    : Option ErrorCode → Type 0 where
  not_manager :
      ¬ Manages user role room w.db → RemoveError user role room target w (some permission_denied)
  not_member :
      member_user room target w.db ≡ none
      → RemoveError user role room target w (some user_not_member)
  last_owner :
      (row : Member)
      → membership room target w.db ≡ some row
      → is_owner row.role ≡ true
      → owner_count room w.db ≤ 1
      → RemoveError user role room target w (some cannot_remove_last_owner)
  not_stored : Fault w → RemoveError user role room target w (some database_error)
  broken : Fault w → RemoveError user role room target w none

-- A removal that happened: on behalf of a manager, of a member who was not the last owner.
pub record Removal (user : ℕ) (role : Role) (room target : ℕ) (before after : Db) : Type 0 where
  pub by_manager : Manages user role room before
  pub row : Member
  pub was_member : membership room target before ≡ some row
  pub not_last : (is_owner row.role ≡ false) ⊎ (2 ≤ owner_count room before)
  pub removed : after.members ≡ keep (λ m. not (is_row_of room target m)) before.members

pub member_user-membership :
    (room target : ℕ) (db : Db) (m : Member) (u : User)
    → member_user room target db ≡ some (m, u)
    → membership room target db ≡ some m
member_user-membership room target db m u h = ground arith

-- The audit log and a broadcast write nothing to the members.
pub members-audited-announced :
    (e : _) (ev : _) (w : World) → (audited e (announced ev w)).members ≡ w.members
members-audited-announced e ev w = rw (members-audited (announced ev w) e, db-announced w ev) refl

on_remove_user :
    (user room target username : ℕ) (w : World) {good : Unit {0} → World → Type 0}
    {bad : Option ErrorCode → World → Type 0}
    → ((q : World) → q.members ≡ keep (λ m. not (is_row_of room target m)) w.members → good tt q)
    → (Fault w → bad (some database_error) (tick w))
    → Runs (remove_user user room target username) w good bad
unfolding remove_user
on_remove_user user room target username w g b = on_attempt _ _ (
    bind (
      on_update _ (λ f. on_fail _ (b f))
        (bind (on_broadcast _ (on_audit _ (g _ (members-audited-announced _ _ _)))))))

few_owners : {n : ℕ} → not (leb n 1) ≡ false → n ≤ 1
few_owners h = ground arith

two_owners : {n : ℕ} → not (leb n 1) ≡ true → 2 ≤ n
two_owners h = ground arith

removal :
    {user : ℕ} {role : Role} {room target : ℕ} {before after : Db} {row : Member}
    → Manages user role room before
    → membership room target before ≡ some row
    → (is_owner row.role ≡ false) ⊎ (2 ≤ owner_count room before)
    → after.members ≡ keep (λ m. not (is_row_of room target m)) before.members
    → Removal user role room target before after
removal {row} by m l h = record {
  by_manager = by;
  row = row;
  was_member = m;
  not_last = l;
  removed = h;
}

-- `remove_member` succeeds only for a manager, and then deletes the row of the target, who was a
-- member and not the last owner. Otherwise it changes no member, and the error is the true one.
pub remove-Runs :
    (user : ℕ) (role : Role) (room target : ℕ) (w : World)
    → Runs
        (remove user role room target)
        w
        (λ t q. Removal user role room target w.db q.db)
        (λ code q. (q.members ≡ w.members) × RemoveError user role room target w code)
unfolding remove
remove-Runs user role room target w = bind (
    on_can_manage_members user role room w (λ f. (refl, broken f))
      (λ n allowed yes no. bind (
        on_require _ _ (λ e. (refl, not_manager (no e)))
          (λ ok. bind (
            on_query _ (λ f. (refl, broken f))
              (bind (
                on_present _ _ (λ e. (refl, not_member e))
                  (λ row e. bind (
                    on_when _ _
                      (λ is. bind (
                        on_query _ (λ f. (refl, broken f))
                          (on_require _ _
                            (λ few. (
                              refl,
                              last_owner _ (member_user-membership room target w.db _ _ e) is
                                  (few_owners few),
                            ))
                            (λ enough.
                              on_remove_user user room target _ _
                                (λ q h.
                                  removal (yes ok) (member_user-membership room target w.db _ _ e)
                                    (inr (two_owners enough)) h)
                                (λ f. (refl, not_stored f))))))
                      (λ is_not.
                        on_remove_user user room target _ _
                          (λ q h.
                            removal (yes ok) (member_user-membership room target w.db _ _ e)
                              (inl is_not) h)
                          (λ f. (refl, not_stored f))))))))))))
