-- ===== src/Accounts/Sessions.antt =====
-- What becomes of a session: it lasts as long as it was promised, whoever logs in or out meanwhile, and a
-- log-out is final.
use lan_secure_file_system.Common.{
  ℕ, ◌≤◌, ◌<◌, ◌≡◌, ◌≢◌, refl, ◌∙◌, ap, ◌⊎◌, inl, inr, true, Option, none, some, ◌∷◌, find, arith,
  ltb, ◌==◌, if◌then◌else◌,
}
use lan_secure_file_system.World.{
  User, World, Session, session_dropped, ErrorCode, returned, invalid_token, redis_error, Fault,
  Runs, weaken, final, on_returned,
}
use lan_secure_file_system.Accounts.{
  has_name, Login, Identity, identity, is_complete, login, logout, validate_token,
}
use lan_secure_file_system.World.Keys.{IsKeyStore}
use lan_secure_file_system.Accounts.LogIn.{LoggedIn, session_for, login-Runs}
use lan_secure_file_system.Accounts.Validation.{
  Validated, TokenError, empty, not_kept, incomplete, unread, validate_token-Runs, logout-Runs,
}

-- A log-in, however it ends, a log-out with a token that is allowed, or any time of other work that leaves
-- the sessions alone.
pub data Step (Allowed : ℕ → Type 0) (w : World) : World → Type 0 where
  logs_in : (username password : ℕ) → Step Allowed w (login username password w).1
  logs_out : (token : ℕ) → Allowed token → Step Allowed w (logout token w).1
  elapses :
      {q : World}
      → q.config ≡ w.config
      → w.next_uuid ≤ q.next_uuid
      → ((t n : ℕ) → w.config.session_of q.redis t n ≡ w.config.session_of w.redis t n)
      → Step Allowed w q

pub data Reach (Allowed : ℕ → Type 0) (w : World) : World → Type 0 where
  start : Reach Allowed w w
  next : {p q : World} → Reach Allowed w p → Step Allowed p q → Reach Allowed w q

-- The token was given out, and Redis answers `v` for it.
record Answers (t : ℕ) (v : ℕ → Option Session) (q : World) : Type 0 where
  keys : IsKeyStore q.config
  spent : t < q.next_uuid
  answer : (n : ℕ) → q.config.session_of q.redis t n ≡ v n

-- The same configuration, and the same answer.
module _ (t : ℕ) (v : ℕ → Option Session) (w q : World) (a : Answers t v w)
    (same : q.config ≡ w.config) (grows : w.next_uuid ≤ q.next_uuid) where
  Answers-same :
      ((n : ℕ) → w.config.session_of q.redis t n ≡ w.config.session_of w.redis t n) → Answers t v q
  Answers-same h = record {
    keys = rw same a.keys;
    spent = omega (arith, a.spent);
    answer = λ n. rw same (h n ∙ a.answer n);
  }

login-Answers :
    (t : ℕ) (v : ℕ → Option Session) (username password : ℕ) (w : World)
    → Answers t v w
    → Answers t v (login username password w).1
login-Answers t v username password w a = final (Answers t v) (
    weaken (login-Runs username password w)
      (λ l q g. Answers-same t v w q a g.same_config (omega (arith, g.token_spent)) (λ n.
        rw g.stored (
          a.keys.session_set w.redis (session_for g.user w.now) l.token w.config.session_ttl w.now t
            n
          ∙ ground (arith, g.new_token, a.spent))))
      (λ code q e. Answers-same t v w q a e.1.same_config e.1.uuid_grows (λ n. rw e.1.same_redis)))

logout-Answers :
    (t other : ℕ) (v : ℕ → Option Session) (w : World)
    → ((n : ℕ) → (if other == t then none else v n) ≡ v n)
    → Answers t v w
    → Answers t v (logout other w).1
logout-Answers t other v w h a = final (Answers t v) (
    weaken (logout-Runs other w)
      (λ r q g. Answers-same t v w q a g.1 (omega (arith, g.3)) (λ n.
        rw g.0 (a.keys.session_deleted w.redis other w.now t n ∙ ground (arith, h n, a.answer n))))
      (λ code q e. Answers-same t v w q a e.1.same_config e.1.uuid_grows (λ n. rw e.1.same_redis)))

Reach-Answers :
    {Allowed : ℕ → Type 0} {w q : World} (t : ℕ) (v : ℕ → Option Session)
    → ((other n : ℕ) → Allowed other → (if other == t then none else v n) ≡ v n)
    → Reach Allowed w q
    → Answers t v w
    → Answers t v q
Reach-Answers t v h start a = a
Reach-Answers t v h (next {p} r (logs_in username password)) a =
    login-Answers t v username password p (Reach-Answers t v h r a)
Reach-Answers t v h (next {p} r (logs_out other may)) a =
    logout-Answers t other v p (λ n. h other n may) (Reach-Answers t v h r a)
Reach-Answers t v h (next {p} {q} r (elapses same grows answers)) a =
    Answers-same t v p q (Reach-Answers t v h r a) same grows (λ n. answers t n)

abbrev pub Others : ℕ → ℕ → Type 0
Others t other = other ≢ t

abbrev pub Anyone : ℕ → Type 0
Anyone other = Unit {0}

-- A session ends when its time is over.
abbrev until : Session → ℕ → ℕ → Option Session
until s end n = if ltb n end then some s else none

after_login :
    {username password : ℕ} {w q : World} {l : Login} (g : LoggedIn username password w l q)
    → IsKeyStore w.config
    → Answers l.token (until (session_for g.user w.now) l.expires_at) q
after_login {w = w} {q} {l} g k = record {
  keys = rw g.same_config k;
  spent = omega (arith, g.token_spent, g.new_token);
  answer = λ n.
      rw (g.same_config, g.stored)
        (k.session_set w.redis (session_for g.user w.now) l.token w.config.session_ttl w.now l.token
            n
          ∙ ground (arith, g.until));
}

-- A user who logged in stays logged in: until the promised time, and whoever logs in, or out with another
-- token, meanwhile, the token stands for the id and the role of that user, and its validation is refused
-- only if the call to Redis fails. (Ids that uuid4 gives, and the user's id and role, are not empty.)
pub login_lasts :
    (username password : ℕ) (w : World) (l : Login) (u : User) {q : World}
    → IsKeyStore w.config
    → 0 < w.next_uuid
    → (login username password w).0 ≡ returned l
    → find (has_name username) w.users ≡ some u
    → is_complete (session_for u w.now) ≡ true
    → Reach (Others l.token) (login username password w).1 q
    → q.now < l.expires_at
    → Runs
        (validate_token l.token)
        q
        (λ i p. i ≡ record { user_id = u.id; global_role = u.global_role })
        (λ code p. (code ≡ some redis_error) × Fault q)
login_lasts username password w l u {q} k pos e is complete r early =
    let g = on_returned l (login-Runs username password w) e in
    let same : g.user ≡ u = cc (g.is_user) in
    let a = Reach-Answers l.token _ (λ other n h. ground arith) r (after_login g k) in
    let kept : q.config.session_of q.redis l.token q.now ≡ some (session_for u w.now) =
      a.answer q.now ∙ ground arith in
    weaken (validate_token-Runs l.token q)
      (λ i p v.
        let s : v.0.session ≡ session_for u w.now = cc (v.0.is_kept) in v.0.is_its ∙ ap identity s)
      (λ code p t. refused (g.new_token) kept code t.0)
  where
    refused :
        l.token ≡ w.next_uuid
        → q.config.session_of q.redis l.token q.now ≡ some (session_for u w.now)
        → (code : Option ErrorCode) → TokenError l.token q code
        → (code ≡ some redis_error) × Fault q
    refused new kept _ (empty z) = absurd (omega arith)
    refused new kept _ (not_kept n) = cc
    refused new kept _ (incomplete s is' c) = cc
    refused new kept _ (unread f) = (refl, f)

-- A log-out is final: once a token that was given out is logged out, it is never valid again, whoever logs in
-- or out afterwards and whatever time passes; no token is given out twice.
pub logout_is_final :
    (token : ℕ) (w : World) {q : World}
    → IsKeyStore w.config
    → token < w.next_uuid
    → (logout token w).0 ≡ returned tt
    → Reach Anyone (logout token w).1 q
    → Runs
        (validate_token token)
        q
        (λ i p. ⊥)
        (λ code p. (code ≡ some invalid_token) ⊎ ((code ≡ some redis_error) × Fault q))
logout_is_final token w {q} k given e r =
    let g = on_returned tt (logout-Runs token w) e in
    let a = Reach-Answers token (λ _. none) (λ other n h. ground arith) r (gone g) in
    weaken (validate_token-Runs token q) (λ i p v. absurd' (a.answer q.now) v.0)
      (λ code p t. refused code t.0)
  where
    gone :
        ((logout token w).1.redis ≡ session_dropped token w.now ∷ w.redis)
          × ((logout token w).1.config ≡ w.config)
          × ((logout token w).1.now ≡ w.now)
          × ((logout token w).1.next_uuid ≡ w.next_uuid)
        → Answers token (λ _. none) (logout token w).1
    gone g = record {
      keys = rw g.1 k;
      spent = omega (arith, g.3);
      answer = λ n. rw (g.1, g.0) (k.session_deleted w.redis token w.now token n ∙ ground arith);
    }

    absurd' :
        {i : Identity} → q.config.session_of q.redis token q.now ≡ none → Validated token q i → ⊥
    absurd' n v = cc (v.is_kept)

    refused :
        (code : Option ErrorCode)
        → TokenError token q code
        → (code ≡ some invalid_token) ⊎ ((code ≡ some redis_error) × Fault q)
    refused _ (empty z) = inl refl
    refused _ (not_kept n) = inl refl
    refused _ (incomplete s is' c) = inl refl
    refused _ (unread f) = inr (refl, f)
