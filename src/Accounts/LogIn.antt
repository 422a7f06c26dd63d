-- ===== src/Accounts/LogIn.antt =====
-- Who is logged in, and with which session: login of auth_service.py.
use lan_secure_file_system.Common.{
  ℕ, suc, ◌+◌, ◌≤◌, ◌≡◌, refl, ◌∙◌, true, false, Option, none, some, ◌∷◌, find, arith,
}
use lan_secure_file_system.World.{
  User, World, AuditEntry, Session, session_stored, ErrorCode, invalid_credentials, redis_error,
  redis-audited, config-audited, now-audited, next_uuid-audited, users-audited, audited, tick,
  Fault, Runs, bind, on_attempt, on_audit, on_choose, on_clock, on_fail, on_look, on_maybe,
  on_new_uuid, on_pure, on_query, on_set_session,
}
use lan_secure_file_system.Accounts.{
  has_name, verifies, load_user_profile, Login, create_session, login,
}

-- What a call leaves alone that sends no command to Redis.
pub record Quiet (w q : World) : Type 0 where
  pub same_redis : q.redis ≡ w.redis
  pub same_config : q.config ≡ w.config
  pub same_now : q.now ≡ w.now
  pub same_users : q.users ≡ w.users
  pub uuid_grows : w.next_uuid ≤ q.next_uuid

pub Quiet-audited : (e : AuditEntry) (w q : World) → Quiet w q → Quiet w (audited e q)
Quiet-audited e w q s = record {
  same_redis = redis-audited q e ∙ s.same_redis;
  same_config = config-audited q e ∙ s.same_config;
  same_now = now-audited q e ∙ s.same_now;
  same_users = users-audited q e ∙ s.same_users;
  uuid_grows = rw (next_uuid-audited q e) s.uuid_grows;
}

pub quiet :
    (w : World) (n u : ℕ) → w.next_uuid ≤ u → Quiet w (record w { calls = n; next_uuid = u })
quiet w n u h = record {
  same_redis = refl;
  same_config = refl;
  same_now = refl;
  same_users = refl;
  uuid_grows = h;
}

abbrev pub session_for : User → ℕ → Session
session_for u now = record { user_id = u.id; global_role = u.global_role; created_at = now }

-- A log-in that succeeded.
pub record LoggedIn (username password : ℕ) (w : World) (l : Login) (q : World) : Type 0 where
  pub user : User
  pub is_user : find (has_name username) w.users ≡ some user
  pub right_password : verifies w.config.check_password password user.password_hash ≡ true
  pub new_token : l.token ≡ w.next_uuid
  pub until : l.expires_at ≡ w.now + w.config.session_ttl
  pub as_user : l.profile.id ≡ user.id
  pub in_role : l.profile.global_role ≡ user.global_role
  pub stored :
      q.redis ≡ session_stored l.token (session_for user w.now) w.config.session_ttl w.now ∷ w.redis
  pub same_config : q.config ≡ w.config
  pub same_now : q.now ≡ w.now
  pub same_users : q.users ≡ w.users
  pub token_spent : q.next_uuid ≡ suc w.next_uuid

-- Why a log-in is refused; `none` is an exception.
pub data LoginError (username password : ℕ) (w : World) : Option ErrorCode → Type 0 where
  unknown_user :
      find (has_name username) w.users ≡ none
      → LoginError username password w (some invalid_credentials)
  wrong_password :
      (u : User)
      → find (has_name username) w.users ≡ some u
      → verifies w.config.check_password password u.password_hash ≡ false
      → LoginError username password w (some invalid_credentials)
  not_stored : Fault w → LoginError username password w (some redis_error)
  broken : Fault w → LoginError username password w none

-- The profile is only read.
on_load_user_profile :
    (u : User) (w : World) {good : ℕ × ℕ → World → Type 0} {bad : Option ErrorCode → World → Type 0}
    → ((named : ℕ × ℕ) (n : ℕ) → good named (record w { calls = n }))
    → Runs (load_user_profile u) w good bad
unfolding load_user_profile
on_load_user_profile u w g = on_attempt _ _ (
    bind (
      on_query _ (λ f. on_pure _ (g _ _))
        (on_maybe _ _ _ (λ _. on_pure _ (g _ _)) (λ v _. on_pure _ (g _ _)))))

-- A session for a user whose password was right.
create_session-Runs :
    (username password : ℕ) (w : World) (u : User)
    → find (has_name username) w.users ≡ some u
    → verifies w.config.check_password password u.password_hash ≡ true
    → Runs
        (create_session u)
        (tick w)
        (λ l q. LoggedIn username password w l q)
        (λ code q. LoginError username password w code × Quiet w q)
unfolding create_session
create_session-Runs username password w u is right = bind (
    on_new_uuid (
      bind (
        on_clock (
          bind (
            on_look _ (
              bind (
                on_load_user_profile _ _ (λ named n. on_attempt _ _ (
                  bind (
                    on_set_session _ _ _ (λ f. on_fail _ (not_stored f, quiet w _ _ (omega arith)))
                      (bind (
                        on_audit _ (
                          on_pure _ (record {
                            user = u;
                            is_user = is;
                            right_password = right;
                            new_token = refl;
                            until = refl;
                            as_user = refl;
                            in_role = refl;
                            stored = redis-audited _ _;
                            same_config = config-audited _ _;
                            same_now = now-audited _ _;
                            same_users = users-audited _ _;
                            token_spent = next_uuid-audited _ _;
                          }))))))))))))))

-- `login` succeeds only for a user of the name with the right password. It then answers a new token and
-- stores, under it and for the time of a session, the user's id and role. Otherwise it sends Redis nothing;
-- INVALID_CREDENTIALS is the answer for an unknown name and for a wrong password, and any other failure
-- is a statement that failed.
pub login-Runs :
    (username password : ℕ) (w : World)
    → Runs
        (login username password)
        w
        (λ l q. LoggedIn username password w l q)
        (λ code q. LoginError username password w code × Quiet w q)
unfolding login
login-Runs username password w = bind (
    on_query _ (λ f. (broken f, quiet w _ _ (omega arith)))
      (on_maybe _ _ _
        (λ n. bind (
          on_audit _ (on_fail _ (unknown_user n, Quiet-audited _ _ _ (quiet w _ _ (omega arith))))))
        (λ u is. bind (
          on_look _ (
            on_choose _ _ _ (create_session-Runs username password w u is) (λ wrong. bind (
              on_audit _ (
                on_fail _ (
                  wrong_password u is wrong,
                  Quiet-audited _ _ _ (quiet w _ _ (omega arith)),
                )))))))))
