-- ===== src/World/Actions.antt =====
-- Python code over the world: it returns, answers an error code or raises, and what it wrote before
-- stays written, since each statement of coordinator-server/database.py commits on its own.
use lan_secure_file_system.Common.{
  ℕ, suc, Bool, true, false, Option, none, some, ◌∷◌, if◌then◌else◌,
}
use mathlib.Core.Path.{◌≡◌}
use native.Mathlib.Omega.{arith}
use lan_secure_file_system.Registry.{Registry}
use lan_secure_file_system.World.Rows.{
  AuditEntry, Event, Ticket, Session, ticket_stored, ticket_dropped, session_stored,
  session_dropped,
}
use lan_secure_file_system.World.State.{World, Db}

-- The error codes that the services return.
pub data ErrorCode : Type 0 where
  permission_denied invalid_input invalid_role user_not_found already_member : ErrorCode
  user_not_member cannot_remove_last_owner cannot_change_own_role database_error : ErrorCode
  file_not_found file_not_ready duplicate_file_in_room storage_node_unavailable : ErrorCode
  storage_node_mismatch hash_mismatch file_not_on_node : ErrorCode
  invalid_share_token share_token_expired share_token_exhausted : ErrorCode
  duplicate_username duplicate_email invalid_credentials invalid_token auth_required : ErrorCode
  ticket_not_found ticket_expired internal_error redis_error invalid_request : ErrorCode

-- `return True, value, None`, `return False, None, code`, and an exception.
pub data Outcome (A : Type 0) : Type 0 where
  returned : A → Outcome A
  failed : ErrorCode → Outcome A
  raised : Outcome A

abbrev pub Action : Type 0 → Type 0
Action A = World → Outcome A × World

unfoldable pub pure : {A : Type 0} → A → Action A
pure a w = (returned a, w)

unfoldable pub fail : {A : Type 0} → ErrorCode → Action A
fail code w = (failed code, w)

infixl 5 ◌>>=◌ ◌>>◌
unfoldable pub ◌>>=◌ : {A B : Type 0} → Action A → (A → Action B) → Action B
◌>>=◌ m f w =
    let (r, q) = m w in
    elim r [ returned a ↦ f a q | failed code ↦ (failed code, q) | raised ↦ (raised, q) ]

abbrev pub ◌>>◌ : {A B : Type 0} → Action A → Action B → Action B
m >> k = m >>= λ _. k

-- `try: … except Exception: …`
unfoldable pub attempt : {A : Type 0} → Action A → Action A → Action A
attempt m handler w =
    let (r, q) = m w in
    elim r [ returned a ↦ (returned a, q) | failed code ↦ (failed code, q) | raised ↦ handler q ]

-- `success, value, code = …`, and what follows in each case
unfoldable pub settle :
    {A B : Type 0} → Action A → (A → Action B) → (ErrorCode → Action B) → Action B
settle m k h w =
    let (r, q) = m w in
    elim r [ returned a ↦ k a q | failed code ↦ h code q | raised ↦ (raised, q) ]

-- `raise`
unfoldable pub throw : {A : Type 0} → Action A
throw w = (raised, w)

-- `if row: … else: …`
unfoldable pub maybe : {A B : Type 0} → Option B → Action A → (B → Action A) → Action A
maybe row m k w = elim row [ none ↦ m w | some b ↦ k b w ]

-- `if not test: return False, None, code`
unfoldable pub require : Bool → ErrorCode → Action (Unit {0})
require test code w = elim test [ true ↦ (returned tt, w) | false ↦ (failed code, w) ]

-- `if not row: return False, None, code`
unfoldable pub present : {A : Type 0} → Option A → ErrorCode → Action A
present row code w = elim row [ none ↦ (failed code, w) | some a ↦ (returned a, w) ]

-- `if test: … else: …`
unfoldable pub choose : {A : Type 0} → Bool → Action A → Action A → Action A
choose test m k w = elim test [ true ↦ m w | false ↦ k w ]

-- `if test: …`
unfoldable pub when : Bool → Action (Unit {0}) → Action (Unit {0})
when test m w = elim test [ true ↦ m w | false ↦ (returned tt, w) ]

-- One call to the database or to Redis.
unfoldable pub call : {A : Type 0} → Action A → Action A
call m w =
    let q = record w { calls = suc w.calls } in
    elim (w.faults w.calls) [ true ↦ (raised, q) | false ↦ m q ]

-- `execute_query`
unfoldable pub query : {A : Type 0} → (Db → A) → Action A
unfolding call
query f = call (λ w. (returned (f w.db), w))

-- `execute_update`
unfoldable pub update : (Db → Db) → Action (Unit {0})
unfolding call
update f = call (λ w. (returned tt, record w { db = f w.db }))

-- An insertion that a constraint of the schema may refuse.
unfoldable pub insert_row : (Db → Option Db) → Action (Unit {0})
unfolding call
insert_row f =
    call (λ w. elim (f w.db) [ none ↦ (raised, w) | some db ↦ (returned tt, record w { db = db }) ])

-- `time.time()`
unfoldable pub clock : Action ℕ
clock w = (returned w.now, w)

-- What the code reads of its own state, and of the registry.
unfoldable pub look : {A : Type 0} → (World → A) → Action A
look f w = (returned (f w), w)

-- A call of a method of the registry.
unfoldable pub manage : {A : Type 0} → (World → Registry × A) → Action A
manage f w = let (r, a) = f w in (returned a, record w { registry = r })

-- `UPDATE … RETURNING …`
unfoldable pub update_returning : {A : Type 0} → (Db → Db × A) → Action A
unfolding call
update_returning f = call (λ w. let (db, a) = f w.db in (returned a, record w { db = db }))

-- `redis.set_ticket`
unfoldable pub set_ticket : ℕ → Ticket → ℕ → Action (Unit {0})
unfolding call
set_ticket id ticket ttl =
    call (λ w. (returned tt, record w { redis = ticket_stored id ticket ttl w.now ∷ w.redis }))

-- `redis.get_ticket`, `redis.delete_ticket`, and the same for sessions; what a deletion answers is only
-- logged.
unfoldable pub get_ticket : ℕ → Action (Option Ticket)
unfolding call
get_ticket id = call (λ w. (returned (w.config.ticket_of w.redis id w.now), w))

unfoldable pub delete_ticket : ℕ → Action (Unit {0})
unfolding call
delete_ticket id = call (λ w. (returned tt, record w { redis = ticket_dropped id w.now ∷ w.redis }))

unfoldable pub set_session : ℕ → Session → ℕ → Action (Unit {0})
unfolding call
set_session token session ttl =
    call (λ w. (returned tt, record w { redis = session_stored token session ttl w.now ∷ w.redis }))

unfoldable pub get_session : ℕ → Action (Option Session)
unfolding call
get_session token = call (λ w. (returned (w.config.session_of w.redis token w.now), w))

unfoldable pub delete_session : ℕ → Action (Unit {0})
unfolding call
delete_session token =
    call (λ w. (returned tt, record w { redis = session_dropped token w.now ∷ w.redis }))

-- `str(uuid.uuid4())`, which never repeats an id
unfoldable pub new_uuid : Action ℕ
new_uuid w = (returned w.next_uuid, record w { next_uuid = suc w.next_uuid })

-- `AuditService.write_audit_log`: a failed write is logged and answered by `False`.
unfoldable pub write_audit_log : AuditEntry → Action Bool
write_audit_log entry =
    attempt (update (λ db. record db { audit_logs = entry ∷ db.audit_logs }) >> pure true)
      (pure false)

-- The world after `if self.audit: self.audit.write_audit_log(…)`, whose answer is not used.
unfoldable pub audited : AuditEntry → World → World
audited entry w = elim w.config.has_audit [ true ↦ (write_audit_log entry w).1 | false ↦ w ]

unfoldable pub audit : AuditEntry → Action (Unit {0})
audit entry w = (returned tt, audited entry w)

-- The world after `if self.notification: self.notification.broadcast_…(…)`; a broadcast does not
-- raise.
unfoldable pub announced : Event → World → World
announced event w = if w.config.has_notification then record w { events = event ∷ w.events } else w

unfoldable pub broadcast : Event → Action (Unit {0})
broadcast event w = (returned tt, announced event w)

-- The audit log and the broadcasts leave the other tables alone.
module _ (w : World) where
  pub users-audited : (e : AuditEntry) → (audited e w).users ≡ w.users
  unfolding audited write_audit_log ◌>>=◌ attempt update call pure
  users-audited e = ground arith

  pub rooms-audited : (e : AuditEntry) → (audited e w).rooms ≡ w.rooms
  unfolding audited write_audit_log ◌>>=◌ attempt update call pure
  rooms-audited e = ground arith

  pub members-audited : (e : AuditEntry) → (audited e w).members ≡ w.members
  unfolding audited write_audit_log ◌>>=◌ attempt update call pure
  members-audited e = ground arith

  pub files-audited : (e : AuditEntry) → (audited e w).files ≡ w.files
  unfolding audited write_audit_log ◌>>=◌ attempt update call pure
  files-audited e = ground arith

  pub share_tokens-audited : (e : AuditEntry) → (audited e w).share_tokens ≡ w.share_tokens
  unfolding audited write_audit_log ◌>>=◌ attempt update call pure
  share_tokens-audited e = ground arith

  pub registry-audited : (e : AuditEntry) → (audited e w).registry ≡ w.registry
  unfolding audited write_audit_log ◌>>=◌ attempt update call pure
  registry-audited e = ground arith

  pub redis-audited : (e : AuditEntry) → (audited e w).redis ≡ w.redis
  unfolding audited write_audit_log ◌>>=◌ attempt update call pure
  redis-audited e = ground arith

  pub config-audited : (e : AuditEntry) → (audited e w).config ≡ w.config
  unfolding audited write_audit_log ◌>>=◌ attempt update call pure
  config-audited e = ground arith

  pub now-audited : (e : AuditEntry) → (audited e w).now ≡ w.now
  unfolding audited write_audit_log ◌>>=◌ attempt update call pure
  now-audited e = ground arith

  pub next_uuid-audited : (e : AuditEntry) → (audited e w).next_uuid ≡ w.next_uuid
  unfolding audited write_audit_log ◌>>=◌ attempt update call pure
  next_uuid-audited e = ground arith

  pub db-announced : (e : Event) → (announced e w).db ≡ w.db
  unfolding announced
  db-announced e = ground arith

  pub registry-announced : (e : Event) → (announced e w).registry ≡ w.registry
  unfolding announced
  registry-announced e = ground arith

pub ruleset side_effects = (
  users-audited, rooms-audited, members-audited, files-audited, share_tokens-audited,
  registry-audited, db-announced, registry-announced,
)
