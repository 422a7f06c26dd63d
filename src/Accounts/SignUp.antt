-- ===== src/Accounts/SignUp.antt =====
-- Who is signed up: signup of auth_service.py.
use lan_secure_file_system.Common.{
  ℕ, ◌≡◌, refl, ◌⊎◌, inl, inr, true, false, not, ◌&&◌, ◌||◌, Option, none, some, List, [], ◌∷◌, any,
  arith, ◌==◌,
}
use lan_secure_file_system.World.{
  User, Db, World, ErrorCode, invalid_input, duplicate_username, duplicate_email, internal_error,
  database_error, users-audited, Fault, Runs, bind, on_attempt, on_audit, on_choose, on_fail,
  on_insert_row, on_look, on_maybe, on_new_uuid, on_pure, on_query, on_require,
}
use lan_secure_file_system.Accounts.{has_name, has_email, new_user, insert_user, store_user, signup}

-- A user that was signed up.
pub record SignedUp (username email password : ℕ) (w : World) (id : ℕ) (q : World) : Type 0 where
  pub password_hash : ℕ
  pub complete : not (username == 0) && (not (email == 0) && not (password == 0)) ≡ true
  pub hashed : w.config.hash_password password w.draws.0 ≡ some password_hash
  pub no_namesake : any (has_name username) w.users ≡ false
  pub no_address : any (has_email email) w.users ≡ false
  pub new_id : id ≡ w.next_uuid
  pub stored : q.users ≡ new_user id username email password_hash ∷ w.users

-- Why a sign-up is refused; `none` is an exception.
pub data SignUpError (username email password : ℕ) (w : World) : Option ErrorCode → Type 0 where
  incomplete :
      not (username == 0) && (not (email == 0) && not (password == 0)) ≡ false
      → SignUpError username email password w (some invalid_input)
  name_taken :
      any (has_name username) w.users ≡ true
      → SignUpError username email password w (some duplicate_username)
  address_taken :
      any (has_email email) w.users ≡ true
      → SignUpError username email password w (some duplicate_email)
  no_hash :
      w.config.hash_password password w.draws.0 ≡ none
      → SignUpError username email password w (some internal_error)
  not_stored :
      Fault w ⊎ (any (λ v. v.id == w.next_uuid) w.users ≡ true)
      → SignUpError username email password w (some database_error)
  broken : Fault w → SignUpError username email password w none

-- A user that is refused, although nobody has the name or the address, has an id that is taken.
same_id :
    (id username email : ℕ) (vs : List User)
    → any (has_name username) vs ≡ false
    → any (has_email email) vs ≡ false
    → any (λ v. (v.id == id) || (has_name username v || has_email email v)) vs ≡ true
    → any (λ v. v.id == id) vs ≡ true
same_id id username email [] n e h = cc
same_id id username email (v ∷ vs) n e h = ground (arith, same_id id username email vs)

insert_user-none :
    (id username email password_hash : ℕ) (w : World)
    → any (has_name username) w.users ≡ false
    → any (has_email email) w.users ≡ false
    → insert_user (new_user id username email password_hash) w.db ≡ none
    → any (λ v. v.id == id) w.users ≡ true
insert_user-none id username email password_hash w n e h =
    same_id id username email w.users n e (ground arith)

insert_user-some :
    (u : User) (w : World) (db : Db) → insert_user u w.db ≡ some db → db.users ≡ u ∷ w.users
insert_user-some u w db h = ground arith

-- `signup` stores one user, with a new id, the hash of the password and the role USER, where the name, the
-- address and the password are not empty and nobody had the name or the address. Otherwise it changes no user, and the error is the true one: a name or an address
-- that is taken, input that is missing, a hash or a statement that failed.
pub signup-Runs :
    (username email password : ℕ) (w : World)
    → Runs
        (signup username email password)
        w
        (λ id q. SignedUp username email password w id q)
        (λ code q. SignUpError username email password w code × (q.users ≡ w.users))
unfolding signup store_user
signup-Runs username email password w = bind (
    on_require _ _ (λ e. (incomplete e, refl))
      (λ all. bind (
        on_query _ (λ f. (broken f, refl))
          (on_choose _ _ _ (λ n. bind (on_audit _ (on_fail _ (name_taken n, users-audited _ _))))
            (λ n. bind (
              on_query _ (λ f. (broken f, refl))
                (on_choose _ _ _
                  (λ a. bind (on_audit _ (on_fail _ (address_taken a, users-audited _ _))))
                  (λ a. bind (
                    on_look _ (
                      on_maybe _ _ _ (λ h. on_fail _ (no_hash h, refl))
                        (λ h is. bind (
                          on_new_uuid (
                            on_attempt _ _ (
                              bind (
                                on_insert_row _ (λ f. on_fail _ (not_stored (inl f), refl))
                                  (λ c. on_fail _ (
                                    not_stored (
                                        inr
                                          (insert_user-none w.next_uuid username email h w n a c)),
                                    refl,
                                  ))
                                  (λ db d. bind (
                                    on_audit _ (
                                      on_pure _ (record {
                                        password_hash = h;
                                        complete = all;
                                        hashed = is;
                                        no_namesake = n;
                                        no_address = a;
                                        new_id = refl;
                                        stored = rw (users-audited _ _) (
                                            insert_user-some (new_user w.next_uuid username email h)
                                              w db d);
                                      })))))))))))))))))))
