-- ===== src/Accounts/Tests.antt =====
-- The theorems about accounts at a concrete world, with a key store that keeps the newest command of a key.
use lan_secure_file_system.Common.{◌<◌, ◌≡◌, refl, ◌⊎◌, some, arith}
use lan_secure_file_system.World.{
  User, World, other_role, ◌>>=◌, query, call, maybe, look, choose, new_uuid, clock, attempt,
  set_session, audit, audited, write_audit_log, pure, update, require, delete_session, returned,
  invalid_token, redis_error, Fault, Runs,
}
use lan_secure_file_system.World.Samples.{blank-IsKeyStore, populated}
use lan_secure_file_system.Accounts.{
  Login, create_session, load_user_profile, verifies, signup, login, logout, validate_token,
}
use lan_secure_file_system.World.Keys.{IsKeyStore}
use lan_secure_file_system.Accounts.SignUp.{SignedUp, SignUpError, signup-Runs}
use lan_secure_file_system.Accounts.LogIn.{LoggedIn, LoginError, Quiet, login-Runs}
use lan_secure_file_system.Accounts.Sessions.{
  Reach, start, next, logs_in, logs_out, elapses, Others, Anyone, login_lasts, logout_is_final,
}

signup-Runs_example :
    Runs
      (signup 44 64 55)
      populated
      (λ id q. SignedUp 44 64 55 populated id q)
      (λ code q. SignUpError 44 64 55 populated code × (q.users ≡ populated.users))
signup-Runs_example = signup-Runs 44 64 55 populated

login-Runs_example :
    Runs
      (login 12 72)
      populated
      (λ l q. LoggedIn 12 72 populated l q)
      (λ code q. LoginError 12 72 populated code × Quiet populated q)
login-Runs_example = login-Runs 12 72 populated

abbrev user_2 : User
user_2 = record {
  id = 2;
  username = 12;
  email = 62;
  password_hash = 73;
  global_role = other_role 1;
}

-- User 2 logs in, user 3 logs in and out, and a day less a moment passes.
abbrev session : Login
session = record {
  token = 1000;
  expires_at = 86500;
  profile = record { id = 2; username = 12; email = 62; global_role = other_role 1 };
}

abbrev logged_in : World
logged_in = (login 12 72 populated).1

abbrev both_in : World
both_in = (login 13 73 logged_in).1

abbrev much_later : World
much_later = record (logout 1001 both_in).1 { now = 86499 }

much_later-Reach : Reach (Others 1000) logged_in much_later
unfolding login
much_later-Reach =
    next (next (next start (logs_in 13 73)) (logs_out 1001 (λ e. omega arith)))
      (elapses refl (omega arith) (λ t n. refl))

logged_in_returned : (login 12 72 populated).0 ≡ returned session
unfolding login create_session load_user_profile verifies ◌>>=◌ query call maybe look choose
    new_uuid clock attempt set_session audit audited write_audit_log pure update
logged_in_returned = refl

login_lasts_example :
    Runs
      (validate_token 1000)
      much_later
      (λ i p. i ≡ record { user_id = 2; global_role = other_role 1 })
      (λ code p. (code ≡ some redis_error) × Fault much_later)
login_lasts_example =
    login_lasts 12 72 populated session user_2 blank-IsKeyStore (omega arith) logged_in_returned
      refl refl much_later-Reach (omega arith)

abbrev logged_out : World
logged_out = (logout 1000 logged_in).1

abbrev in_and_out : World
in_and_out = (logout 1000 (login 13 73 logged_out).1).1

in_and_out-Reach : Reach Anyone logged_out in_and_out
in_and_out-Reach = next (next start (logs_in 13 73)) (logs_out 1000 tt)

logged_in-IsKeyStore : IsKeyStore logged_in.config
unfolding login create_session load_user_profile verifies ◌>>=◌ query call maybe look choose
    new_uuid clock attempt set_session audit audited write_audit_log pure update
logged_in-IsKeyStore = blank-IsKeyStore

token_given : 1000 < logged_in.next_uuid
unfolding login create_session load_user_profile verifies ◌>>=◌ query call maybe look choose
    new_uuid clock attempt set_session audit audited write_audit_log pure update
token_given = omega arith

logged_out_returned : (logout 1000 logged_in).0 ≡ returned tt
unfolding login create_session load_user_profile verifies ◌>>=◌ query call maybe look choose
    new_uuid clock attempt set_session audit audited write_audit_log pure update logout require
    delete_session
logged_out_returned = refl

logout_is_final_example :
    Runs
      (validate_token 1000)
      in_and_out
      (λ i p. ⊥)
      (λ code p. (code ≡ some invalid_token) ⊎ ((code ≡ some redis_error) × Fault in_and_out))
logout_is_final_example =
    logout_is_final 1000 logged_in logged_in-IsKeyStore token_given logged_out_returned
      in_and_out-Reach
