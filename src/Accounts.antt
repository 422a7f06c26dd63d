-- ===== src/Accounts.antt =====
-- coordinator-server/auth/auth_service.py, with the checks of auth/password_hasher.py and the guard of
-- auth/auth_middleware.py: sign-up, log-in, the validation of a token and log-out. Sessions stand in
-- Redis, which answers as `session_of` of the configuration says.
pub mod SignUp
pub mod LogIn
pub mod Validation
pub mod Sessions
pub mod Moves
mod Tests
use lan_secure_file_system.Common.{
  ℕ, ◌+◌, Bool, true, false, not, ◌&&◌, ◌||◌, Option, none, some, List, ◌∷◌, find, any, ◌==◌,
  if◌then◌else◌,
}
use lan_secure_file_system.World.{
  Role, admin, owner, member, viewer, other_role, User, Db, AuditEntry, sign_up, log_in, Session,
  Action, invalid_input, duplicate_username, duplicate_email, internal_error, database_error,
  invalid_credentials, redis_error, invalid_token, auth_required, pure, fail, ◌>>=◌, ◌>>◌, attempt,
  maybe, require, choose, query, insert_row, look, clock, new_uuid, audit, set_session, get_session,
  delete_session,
}

-- The truth value of a role text
abbrev pub is_named : Role → Bool
is_named admin = true
is_named owner = true
is_named member = true
is_named viewer = true
is_named (other_role text) = not (text == 0)

abbrev pub has_name : ℕ → User → Bool
has_name username u = u.username == username

abbrev pub has_email : ℕ → User → Bool
has_email email u = u.email == email

-- A row of `audit_logs` on the target type `user`
abbrev account_entry : Option ℕ → Bool → ℕ → Bool → AuditEntry
account_entry actor signs_up target succeeded = record {
  actor_id = actor;
  action = if signs_up then sign_up else log_in;
  target_id = target;
  room_id = none;
  succeeded = succeeded;
}

-- `PasswordHasher.verify`
pub verifies : (ℕ → ℕ → Bool) → ℕ → ℕ → Bool
verifies check password password_hash =
    not (password == 0) && (not (password_hash == 0) && check password password_hash)

-- `INSERT INTO users …`, where names and addresses are unique and the new user's role is `USER`
abbrev pub user_role : Role
user_role = other_role 1

abbrev pub new_user : (id username email password_hash : ℕ) → User
new_user id username email password_hash = record {
  id = id;
  username = username;
  email = email;
  password_hash = password_hash;
  global_role = user_role;
}

abbrev pub insert_user : User → Db → Option Db
insert_user u db =
    if any (λ v. (v.id == u.id) || (has_name u.username v || has_email u.email v)) db.users
    then none
    else some (record db { users = u ∷ db.users })

-- The end of `signup`, once the password is hashed
pub store_user : (username email password_hash : ℕ) → Action ℕ
store_user username email password_hash = do
  id ← new_uuid
  attempt
      (do
        insert_row (insert_user (new_user id username email password_hash))
        audit (account_entry (some id) true id true)
        pure id)
      (fail database_error)

-- `signup`; `draws` salts the hash.
pub signup : (username email password : ℕ) → Action ℕ
signup username email password = do
  require (not (username == 0) && (not (email == 0) && not (password == 0))) invalid_input
  namesake ← query (λ db. any (has_name username) db.users)
  choose namesake (do audit (account_entry none true username false); fail duplicate_username)
      (do
        taken ← query (λ db. any (has_email email) db.users)
        choose taken (do audit (account_entry none true email false); fail duplicate_email)
            (do
              hashed ← look (λ w. w.config.hash_password password w.draws.0)
              maybe hashed (fail internal_error) (store_user username email)))

-- The profile that a log-in answers
pub record Profile : Type 0 where
  pub id : ℕ
  pub username : ℕ
  pub email : ℕ
  pub global_role : Role

-- `_load_user_profile`: a query that fails leaves the e-mail empty.
pub load_user_profile : User → Action (ℕ × ℕ)
load_user_profile u =
    attempt
      (do
        row ← query (λ db. find (λ v. v.id == u.id) db.users)
        maybe row (pure (u.username, 0)) (λ v. pure (v.username, v.email)))
      (pure (u.username, 0))

-- What `_authenticate_and_create_session` answers
pub record Login : Type 0 where
  pub token : ℕ
  pub expires_at : ℕ
  pub profile : Profile

-- The end of `_authenticate_and_create_session`, for a user whose password is right
pub create_session : User → Action Login
create_session u = do
  token ← new_uuid
  now ← clock
  ttl ← look (λ w. w.config.session_ttl)
  named ← load_user_profile u
  attempt
      (do
        set_session token (record { user_id = u.id; global_role = u.global_role; created_at = now })
            ttl
        audit (account_entry (some u.id) false u.id true)
        pure (record {
          token = token;
          expires_at = now + ttl;
          profile = record {
            id = u.id;
            username = named.0;
            email = named.1;
            global_role = u.global_role;
          };
        }))
      (fail redis_error)

-- `_authenticate_and_create_session`, which `login` and `login_with_profile` pass on
pub login : (username password : ℕ) → Action Login
login username password = do
  row ← query (λ db. find (has_name username) db.users)
  maybe row (do audit (account_entry none false username false); fail invalid_credentials)
      (λ u. do
        right ← look (λ w. verifies w.config.check_password password u.password_hash)
        choose right (create_session u)
            (do audit (account_entry (some u.id) false u.id false); fail invalid_credentials))

-- `{"userId": …, "globalRole": …}`
pub record Identity : Type 0 where
  pub user_id : ℕ
  pub global_role : Role

abbrev pub is_complete : Session → Bool
is_complete s = not (s.user_id == 0) && is_named s.global_role

abbrev pub identity : Session → Identity
identity s = record { user_id = s.user_id; global_role = s.global_role }

-- `validate_token`
pub validate_token : ℕ → Action Identity
validate_token token = do
  require (not (token == 0)) invalid_token
  attempt
      (do
        row ← get_session token
        maybe row (fail invalid_token)
            (λ s. do require (is_complete s) invalid_token; pure (identity s)))
      (fail redis_error)

-- `logout`: a session that is not there is no error.
pub logout : ℕ → Action (Unit {0})
logout token = do
  require (not (token == 0)) invalid_token
  attempt (delete_session token) (fail redis_error)

-- `validate_request` and `require_auth` of auth_middleware.py: the handler gets the identity of the
-- token, or is not called.
unfoldable pub require_auth : {A : Type 0} → (Identity → Action A) → Option ℕ → Action A
require_auth handler none = fail auth_required
require_auth handler (some token) =
    if token == 0 then fail auth_required else validate_token token >>= handler
