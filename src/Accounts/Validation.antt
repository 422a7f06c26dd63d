-- ===== src/Accounts/Validation.antt =====
-- Whose requests are served: validate_token and logout of auth_service.py, and the guard of
-- auth_middleware.py.
use lan_secure_file_system.Common.{
  ℕ, ◌≡◌, refl, ◌⊎◌, inl, inr, true, false, not, Option, none, some, ◌∷◌, arith, ◌==◌,
}
use lan_secure_file_system.World.{
  World, Session, session_dropped, ErrorCode, invalid_token, redis_error, Fault, Runs, bind,
  on_attempt, on_delete_session, on_fail, on_get_session, on_maybe, on_pure, on_require,
}
use lan_secure_file_system.Accounts.{Identity, identity, is_complete, validate_token, logout}
use lan_secure_file_system.Accounts.LogIn.{Quiet, quiet}

-- The session that Redis keeps under a token now.
pub record Validated (token : ℕ) (w : World) (i : Identity) : Type 0 where
  pub session : Session
  pub is_kept : w.config.session_of w.redis token w.now ≡ some session
  pub complete : is_complete session ≡ true
  pub is_its : i ≡ identity session

-- Why a token is refused
pub data TokenError (token : ℕ) (w : World) : Option ErrorCode → Type 0 where
  empty : token ≡ 0 → TokenError token w (some invalid_token)
  not_kept :
      w.config.session_of w.redis token w.now ≡ none → TokenError token w (some invalid_token)
  incomplete :
      (s : Session)
      → w.config.session_of w.redis token w.now ≡ some s
      → is_complete s ≡ false
      → TokenError token w (some invalid_token)
  unread : Fault w → TokenError token w (some redis_error)

not_empty : (token : ℕ) → not (token == 0) ≡ false → token ≡ 0
not_empty token h = ground arith

-- `validate_token` never raises and changes nothing. It answers the user and the role of the session that
-- Redis keeps under the token, and refuses with INVALID_TOKEN a token that is empty, that has no session or
-- whose session lacks one of the two; REDIS_ERROR is a call that failed.
pub validate_token-Runs :
    (token : ℕ) (w : World)
    → Runs
        (validate_token token)
        w
        (λ i q. Validated token w i × ((n : ℕ) × (q ≡ record w { calls = n })))
        (λ code q. TokenError token w code × ((n : ℕ) × (q ≡ record w { calls = n })))
unfolding validate_token
validate_token-Runs token w = bind (
    on_require _ _ (λ e. (empty (not_empty token e), (_, refl)))
      (λ _. on_attempt _ _ (
        bind (
          on_get_session _ (λ f. on_fail _ (unread f, (_, refl)))
            (on_maybe _ _ _ (λ n. on_fail _ (not_kept n, (_, refl)))
              (λ s is. bind (
                on_require _ _ (λ e. (incomplete s is e, (_, refl)))
                  (λ e. on_pure _ (
                    record { session = s; is_kept = is; complete = e; is_its = refl },
                    (_, refl),
                  )))))))))

-- A log-out with a token drops its session; a log-out never raises.
pub logout-Runs :
    (token : ℕ) (w : World)
    → Runs
        (logout token)
        w
        (λ t q.
          (q.redis ≡ session_dropped token w.now ∷ w.redis)
          × (q.config ≡ w.config)
          × (q.now ≡ w.now)
          × (q.next_uuid ≡ w.next_uuid))
        (λ code q.
          (((code ≡ some invalid_token) × (token ≡ 0)) ⊎ ((code ≡ some redis_error) × Fault w))
          × Quiet w q)
unfolding logout
logout-Runs token w = bind (
    on_require _ _ (λ e. (inl (refl, not_empty token e), quiet w _ _ (omega arith)))
      (λ _. on_attempt _ _ (
        on_delete_session _ (λ f. on_fail _ (inr (refl, f), quiet w _ _ (omega arith)))
          (refl, refl, refl, refl))))
