-- ===== src/World/Steps.antt =====
-- The actions of the services one by one, on each way that they end.
use lan_secure_file_system.Common.{ℕ, suc, Bool, true, false, Option, none, some, ◌∷◌}
use mathlib.Core.Path.{◌≡◌, refl}
use lan_secure_file_system.World.Rows.{
  AuditEntry, Event, Ticket, Session, ticket_stored, ticket_dropped, session_stored,
  session_dropped,
}
use lan_secure_file_system.Registry.{Registry}
use lan_secure_file_system.World.State.{World, Db}
use lan_secure_file_system.World.Actions.{
  returned, raised, Action, ErrorCode, pure, fail, attempt, settle, require, present, when, choose,
  call, query, update, insert_row, clock, new_uuid, look, manage, update_returning, set_ticket,
  get_ticket, delete_ticket, set_session, get_session, delete_session, throw, maybe, audit,
  broadcast, audited, announced,
}
use lan_secure_file_system.World.Endings.{Meets, Meets-attempt, Meets-settle, Runs, tick, Fault}

Meets-call :
    {A : Type 0} (good : A → World → Type 0) (bad : Option ErrorCode → World → Type 0)
    (m : Action A) (w : World)
    → (Fault w → bad none (tick w))
    → Meets good bad (m (tick w))
    → (b : Bool) → w.faults w.calls ≡ b
    → Meets good bad (elim b [ true ↦ (raised, tick w) | false ↦ m (tick w) ])
Meets-call good bad m w f h true e = f (w.calls, e)
Meets-call good bad m w f h false e = h

Meets-call_exactly :
    {A : Type 0} (good : A → World → Type 0) (bad : Option ErrorCode → World → Type 0)
    (m : Action A) (w : World) (b : Bool)
    → (b ≡ true → bad none (tick w))
    → (b ≡ false → Meets good bad (m (tick w)))
    → Meets good bad (elim b [ true ↦ (raised, tick w) | false ↦ m (tick w) ])
Meets-call_exactly good bad m w true f h = f refl
Meets-call_exactly good bad m w false f h = h refl

Meets-insert_row :
    (good : Unit {0} → World → Type 0) (bad : Option ErrorCode → World → Type 0) (w : World)
    (row : Option Db)
    → (row ≡ none → bad none (tick w))
    → ((db : Db) → row ≡ some db → good tt (record (tick w) { db = db }))
    → Meets good bad (elim row [
      | none ↦ (raised, tick w)
      | some db ↦ (returned tt, record (tick w) { db = db })
    ])
Meets-insert_row good bad w none n g = n refl
Meets-insert_row good bad w (some db) n g = g db refl

-- Each action of the services, on each way that it ends.
module _ {A : Type 0} {good : A → World → Type 0} {bad : Option ErrorCode → World → Type 0}
    {w : World} where
  pub on_pure : (a : A) → good a w → Runs (pure a) w good bad
  unfolding pure
  on_pure a h = record { ends = h }

  pub on_fail : (code : ErrorCode) → bad (some code) w → Runs (fail {A = A} code) w good bad
  unfolding fail
  on_fail code h = record { ends = h }

  pub on_query :
      (f : Db → A)
      → (Fault w → bad none (tick w))
      → good (f w.db) (tick w)
      → Runs (query f) w good bad
  unfolding query call
  on_query f b g = record {
    ends = Meets-call good bad (λ q. (returned (f q.db), q)) w b g (w.faults w.calls) refl;
  }

  -- A query whose own call fails or not
  pub on_query_exactly :
      (f : Db → A)
      → (w.faults w.calls ≡ true → bad none (tick w))
      → (w.faults w.calls ≡ false → good (f w.db) (tick w))
      → Runs (query f) w good bad
  unfolding query call
  on_query_exactly f b g = record {
    ends = Meets-call_exactly good bad (λ q. (returned (f q.db), q)) w (w.faults w.calls) b g;
  }

  pub on_present :
      (row : Option A) (code : ErrorCode)
      → (row ≡ none → bad (some code) w)
      → ((a : A) → row ≡ some a → good a w)
      → Runs (present row code) w good bad
  unfolding present
  on_present none code b g = record { ends = b refl }
  on_present (some a) code b g = record { ends = g a refl }

  pub on_choose :
      (test : Bool) (m k : Action A)
      → (test ≡ true → Runs m w good bad)
      → (test ≡ false → Runs k w good bad)
      → Runs (choose test m k) w good bad
  unfolding choose
  on_choose true m k t f = record { ends = (t refl).ends }
  on_choose false m k t f = record { ends = (f refl).ends }

  pub on_attempt :
      (m handler : Action A)
      → Runs m w good
          (λ code q. elim code [ none ↦ Runs handler q good bad | some c ↦ bad (some c) q ])
      → Runs (attempt m handler) w good bad
  unfolding attempt
  on_attempt m handler h = record { ends = Meets-attempt good bad (m w) handler h.ends }

module _ {A : Type 0} {good : A → World → Type 0} {bad : Option ErrorCode → World → Type 0}
    {w : World} where
  pub on_throw : bad none w → Runs (throw {A = A}) w good bad
  unfolding throw
  on_throw h = record { ends = h }

  pub on_settle :
      {B : Type 0} (m : Action B) (k : B → Action A) (h : ErrorCode → Action A)
      → Runs m w
          (λ b q. Runs (k b) q good bad)
          (λ code q. elim code [ none ↦ bad none q | some c ↦ Runs (h c) q good bad ])
      → Runs (settle m k h) w good bad
  unfolding settle
  on_settle m k h r = record { ends = Meets-settle good bad (m w) k h r.ends }

  pub on_maybe :
      {B : Type 0} (row : Option B) (m : Action A) (k : B → Action A)
      → (row ≡ none → Runs m w good bad)
      → ((b : B) → row ≡ some b → Runs (k b) w good bad)
      → Runs (maybe row m k) w good bad
  unfolding maybe
  on_maybe none m k n s = record { ends = (n refl).ends }
  on_maybe (some b) m k n s = record { ends = (s b refl).ends }

  pub on_some :
      {B : Type 0} (b : B) (m : Action A) (k : B → Action A)
      → Runs (k b) w good bad
      → Runs (maybe (some b) m k) w good bad
  unfolding maybe
  on_some b m k h = record { ends = h.ends }

  pub on_look : (f : World → A) → good (f w) w → Runs (look f) w good bad
  unfolding look
  on_look f h = record { ends = h }

  pub on_manage :
      (f : World → Registry × A)
      → good (f w).1 (record w { registry = (f w).0 })
      → Runs (manage f) w good bad
  unfolding manage
  on_manage f h = record { ends = h }

  pub on_update_returning :
      (f : Db → Db × A)
      → (Fault w → bad none (tick w))
      → good (f w.db).1 (record (tick w) { db = (f w.db).0 })
      → Runs (update_returning f) w good bad
  unfolding update_returning call
  on_update_returning f b g = record {
    ends =
        Meets-call good bad (λ q. (returned (f q.db).1, record q { db = (f q.db).0 })) w b g
          (w.faults w.calls) refl;
  }

module _ {good : Unit {0} → World → Type 0} {bad : Option ErrorCode → World → Type 0}
    {w : World} where
  pub on_set_ticket :
      (id : ℕ) (ticket : Ticket) (ttl : ℕ)
      → (Fault w → bad none (tick w))
      → good tt (record (tick w) { redis = ticket_stored id ticket ttl w.now ∷ w.redis })
      → Runs (set_ticket id ticket ttl) w good bad
  unfolding set_ticket call
  on_set_ticket id ticket ttl b g = record {
    ends =
        Meets-call good bad
          (λ q. (returned tt, record q { redis = ticket_stored id ticket ttl q.now ∷ q.redis })) w b
          g (w.faults w.calls) refl;
  }

module _ {bad : Option ErrorCode → World → Type 0} {w : World} where
  pub on_delete_ticket :
      {good : Unit {0} → World → Type 0} (id : ℕ)
      → (Fault w → bad none (tick w))
      → good tt (record (tick w) { redis = ticket_dropped id w.now ∷ w.redis })
      → Runs (delete_ticket id) w good bad
  unfolding delete_ticket call
  on_delete_ticket {good} id b g = record {
    ends =
        Meets-call good bad
          (λ q. (returned tt, record q { redis = ticket_dropped id q.now ∷ q.redis })) w b g
          (w.faults w.calls) refl;
  }

  pub on_set_session :
      {good : Unit {0} → World → Type 0} (token : ℕ) (session : Session) (ttl : ℕ)
      → (Fault w → bad none (tick w))
      → good tt (record (tick w) { redis = session_stored token session ttl w.now ∷ w.redis })
      → Runs (set_session token session ttl) w good bad
  unfolding set_session call
  on_set_session {good} token session ttl b g = record {
    ends =
        Meets-call good bad
          (λ q.
            (returned tt, record q { redis = session_stored token session ttl q.now ∷ q.redis }))
          w b g (w.faults w.calls) refl;
  }

  pub on_delete_session :
      {good : Unit {0} → World → Type 0} (token : ℕ)
      → (Fault w → bad none (tick w))
      → good tt (record (tick w) { redis = session_dropped token w.now ∷ w.redis })
      → Runs (delete_session token) w good bad
  unfolding delete_session call
  on_delete_session {good} token b g = record {
    ends =
        Meets-call good bad
          (λ q. (returned tt, record q { redis = session_dropped token q.now ∷ q.redis })) w b g
          (w.faults w.calls) refl;
  }

  pub on_get_ticket :
      {good : Option Ticket → World → Type 0} (id : ℕ)
      → (Fault w → bad none (tick w))
      → good (w.config.ticket_of w.redis id w.now) (tick w)
      → Runs (get_ticket id) w good bad
  unfolding get_ticket call
  on_get_ticket {good} id b g = record {
    ends =
        Meets-call good bad (λ q. (returned (q.config.ticket_of q.redis id q.now), q)) w b g
          (w.faults w.calls) refl;
  }

  pub on_get_session :
      {good : Option Session → World → Type 0} (token : ℕ)
      → (Fault w → bad none (tick w))
      → good (w.config.session_of w.redis token w.now) (tick w)
      → Runs (get_session token) w good bad
  unfolding get_session call
  on_get_session {good} token b g = record {
    ends =
        Meets-call good bad (λ q. (returned (q.config.session_of q.redis token q.now), q)) w b g
          (w.faults w.calls) refl;
  }

module _ {good : Unit {0} → World → Type 0} {bad : Option ErrorCode → World → Type 0}
    {w : World} where
  pub on_update :
      (f : Db → Db)
      → (Fault w → bad none (tick w))
      → good tt (record (tick w) { db = f w.db })
      → Runs (update f) w good bad
  unfolding update call
  on_update f b g = record {
    ends =
        Meets-call good bad (λ q. (returned tt, record q { db = f q.db })) w b g (w.faults w.calls)
          refl;
  }

  pub on_insert_row :
      (f : Db → Option Db)
      → (Fault w → bad none (tick w))
      → (f w.db ≡ none → bad none (tick w))
      → ((db : Db) → f w.db ≡ some db → good tt (record (tick w) { db = db }))
      → Runs (insert_row f) w good bad
  unfolding insert_row call
  on_insert_row f b n g = record {
    ends =
        Meets-call good bad
          (λ q. elim (f q.db) [
            | none ↦ (raised, q)
            | some db ↦ (returned tt, record q { db = db })
          ])
          w b (Meets-insert_row good bad w (f w.db) n g) (w.faults w.calls) refl;
  }

  pub on_require :
      (test : Bool) (code : ErrorCode)
      → (test ≡ false → bad (some code) w)
      → (test ≡ true → good tt w)
      → Runs (require test code) w good bad
  unfolding require
  on_require true code b g = record { ends = g refl }
  on_require false code b g = record { ends = b refl }

  pub on_when :
      (test : Bool) (m : Action (Unit {0}))
      → (test ≡ true → Runs m w good bad)
      → (test ≡ false → good tt w)
      → Runs (when test m) w good bad
  unfolding when
  on_when true m t f = record { ends = (t refl).ends }
  on_when false m t f = record { ends = f refl }

  pub on_audit : (e : AuditEntry) → good tt (audited e w) → Runs (audit e) w good bad
  unfolding audit
  on_audit e h = record { ends = h }

  pub on_broadcast : (e : Event) → good tt (announced e w) → Runs (broadcast e) w good bad
  unfolding broadcast
  on_broadcast e h = record { ends = h }

module _ {good : ℕ → World → Type 0} {bad : Option ErrorCode → World → Type 0} {w : World} where
  pub on_clock : good w.now w → Runs clock w good bad
  unfolding clock
  on_clock h = record { ends = h }

  pub on_new_uuid :
      good w.next_uuid (record w { next_uuid = suc w.next_uuid }) → Runs new_uuid w good bad
  unfolding new_uuid
  on_new_uuid h = record { ends = h }
