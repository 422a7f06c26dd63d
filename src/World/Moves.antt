-- ===== src/World/Moves.antt =====
-- How a call moves the registry: by a sequence of the registry's own operations.
use lan_secure_file_system.Common.{ℕ, Bool, true, false, Option, none, some, arith}
use mathlib.Core.Path.{◌≡◌}
use lan_secure_file_system.Registry.{Registry}
use lan_secure_file_system.Registry.History.{Reach, start, Reach-trans}
use lan_secure_file_system.World.Rows.{AuditEntry, Event, Ticket, Session}
use lan_secure_file_system.World.State.{World, Db}
use lan_secure_file_system.World.Actions.{
  Outcome, returned, failed, raised, Action, ErrorCode, pure, fail, ◌>>=◌, attempt, settle, throw,
  maybe, require, present, choose, when, call, query, update, insert_row, clock, look, manage,
  update_returning, set_ticket, get_ticket, delete_ticket, set_session, get_session, delete_session,
  new_uuid, audit, broadcast, registry-audited, registry-announced,
}

-- Where the registry satisfies `P`, the call leads it by its own steps.
pub record Moves (P : Registry → Type 0) {A : Type 0} (m : Action A) : Type 0 where
  pub follows : (w : World) → P w.registry → Reach w.registry (m w).1.registry

abbrev pub Always : Registry → Type 0
Always r = Unit {0}

same_Reach : {r q : Registry} → q ≡ r → Reach r q
same_Reach e = rw e start

pub stays :
    {P : Registry → Type 0} {A : Type 0} {m : Action A}
    → ((w : World) → (m w).1.registry ≡ w.registry)
    → Moves P m
stays h = record { follows = λ w p. same_Reach (h w) }

-- The rules for each action, for any condition on the registry
module _ {P : Registry → Type 0} {A : Type 0} where
  pub Moves-pure : (a : A) → Moves P (pure a)
  unfolding pure
  Moves-pure a = record { follows = λ w p. start }

  pub Moves-fail : (code : ErrorCode) → Moves P (fail {A = A} code)
  unfolding fail
  Moves-fail code = record { follows = λ w p. start }

  pub Moves-look : (f : World → A) → Moves P (look f)
  unfolding look
  Moves-look f = record { follows = λ w p. start }

  pub Moves-throw : Moves P (throw {A = A})
  unfolding throw
  Moves-throw = record { follows = λ w p. start }

  pub Moves-query : (f : Db → A) → Moves P (query f)
  unfolding query call
  Moves-query f = stays (λ w. ground arith)

  pub Moves-update_returning : (f : Db → Db × A) → Moves P (update_returning f)
  unfolding update_returning call
  Moves-update_returning f = stays (λ w. ground arith)

  pub Moves-present : (row : Option A) (code : ErrorCode) → Moves P (present row code)
  unfolding present
  Moves-present none code = record { follows = λ w p. start }
  Moves-present (some a) code = record { follows = λ w p. start }

  pub Moves-choose :
      (test : Bool) (m k : Action A) → Moves P m → Moves P k → Moves P (choose test m k)
  unfolding choose
  Moves-choose true m k h g = record { follows = h.follows }
  Moves-choose false m k h g = record { follows = g.follows }

  pub Moves-maybe :
      {B : Type 0} (row : Option B) (m : Action A) (k : B → Action A)
      → Moves P m
      → ((b : B) → Moves P (k b))
      → Moves P (maybe row m k)
  unfolding maybe
  Moves-maybe none m k h g = record { follows = h.follows }
  Moves-maybe (some b) m k h g = record { follows = (g b).follows }

  pub Moves-manage :
      (f : World → Registry × A)
      → ((w : World) → P w.registry → Reach w.registry (f w).0)
      → Moves P (manage f)
  unfolding manage
  Moves-manage f h = record { follows = h }

module _ {P : Registry → Type 0} where
  pub Moves-require : (test : Bool) (code : ErrorCode) → Moves P (require test code)
  unfolding require
  Moves-require true code = record { follows = λ w p. start }
  Moves-require false code = record { follows = λ w p. start }

  pub Moves-when : (test : Bool) (m : Action (Unit {0})) → Moves P m → Moves P (when test m)
  unfolding when
  Moves-when true m h = record { follows = h.follows }
  Moves-when false m h = record { follows = λ w p. start }

  pub Moves-update : (f : Db → Db) → Moves P (update f)
  unfolding update call
  Moves-update f = stays (λ w. ground arith)

  pub Moves-insert_row : (f : Db → Option Db) → Moves P (insert_row f)
  unfolding insert_row call
  Moves-insert_row f = stays (λ w. ground arith)

  pub Moves-clock : Moves P clock
  unfolding clock
  Moves-clock = record { follows = λ w p. start }

  pub Moves-new_uuid : Moves P new_uuid
  unfolding new_uuid
  Moves-new_uuid = record { follows = λ w p. start }

  pub Moves-set_ticket : (id : ℕ) (ticket : Ticket) (ttl : ℕ) → Moves P (set_ticket id ticket ttl)
  unfolding set_ticket call
  Moves-set_ticket id ticket ttl = stays (λ w. ground arith)

  pub Moves-get_ticket : (id : ℕ) → Moves P (get_ticket id)
  unfolding get_ticket call
  Moves-get_ticket id = stays (λ w. ground arith)

  pub Moves-delete_ticket : (id : ℕ) → Moves P (delete_ticket id)
  unfolding delete_ticket call
  Moves-delete_ticket id = stays (λ w. ground arith)

  pub Moves-set_session : (token : ℕ) (s : Session) (ttl : ℕ) → Moves P (set_session token s ttl)
  unfolding set_session call
  Moves-set_session token s ttl = stays (λ w. ground arith)

  pub Moves-get_session : (token : ℕ) → Moves P (get_session token)
  unfolding get_session call
  Moves-get_session token = stays (λ w. ground arith)

  pub Moves-delete_session : (token : ℕ) → Moves P (delete_session token)
  unfolding delete_session call
  Moves-delete_session token = stays (λ w. ground arith)

  pub Moves-audit : (e : AuditEntry) → Moves P (audit e)
  unfolding audit
  Moves-audit e = stays (λ w. registry-audited w e)

  pub Moves-broadcast : (e : Event) → Moves P (broadcast e)
  unfolding broadcast
  Moves-broadcast e = stays (λ w. registry-announced w e)

-- One call after another: the condition is that of the first.
after :
    {A B : Type 0} (o : Outcome A × World) (f : A → Action B)
    → ((a : A) → Moves Always (f a))
    → Reach o.1.registry
        (elim o.0 as (λ _. Outcome B × World) [
          | returned a ↦ f a o.1
          | failed code ↦ (failed code, o.1)
          | raised ↦ (raised, o.1)
        ]).1.registry
after (returned a, q) f h = (h a).follows q tt
after (failed code, q) f h = start
after (raised, q) f h = start

after_attempt :
    {A : Type 0} (o : Outcome A × World) (handler : Action A)
    → Moves Always handler
    → Reach o.1.registry
        (elim o.0 as (λ _. Outcome A × World) [
          | returned a ↦ (returned a, o.1)
          | failed code ↦ (failed code, o.1)
          | raised ↦ handler o.1
        ]).1.registry
after_attempt (returned a, q) handler h = start
after_attempt (failed code, q) handler h = start
after_attempt (raised, q) handler h = h.follows q tt

after_settle :
    {A B : Type 0} (o : Outcome A × World) (f : A → Action B) (g : ErrorCode → Action B)
    → ((a : A) → Moves Always (f a))
    → ((c : ErrorCode) → Moves Always (g c))
    → Reach o.1.registry
        (elim o.0 as (λ _. Outcome B × World) [
          | returned a ↦ f a o.1
          | failed code ↦ g code o.1
          | raised ↦ (raised, o.1)
        ]).1.registry
after_settle (returned a, q) f g h k = (h a).follows q tt
after_settle (failed code, q) f g h k = (k code).follows q tt
after_settle (raised, q) f g h k = start

module _ {P : Registry → Type 0} {A B : Type 0} where
  pub Moves-bind :
      {m : Action A} {f : A → Action B}
      → Moves P m
      → ((a : A) → Moves Always (f a))
      → Moves P (m >>= f)
  unfolding ◌>>=◌
  Moves-bind {m} {f} h g = record { follows = λ w p. Reach-trans (h.follows w p) (after (m w) f g) }

  pub Moves-settle :
      {m : Action A} {f : A → Action B} {g : ErrorCode → Action B}
      → Moves P m
      → ((a : A) → Moves Always (f a))
      → ((c : ErrorCode) → Moves Always (g c))
      → Moves P (settle m f g)
  unfolding settle
  Moves-settle {m} {f} {g} h k j = record {
    follows = λ w p. Reach-trans (h.follows w p) (after_settle (m w) f g k j);
  }

  -- What is only read keeps the condition.
  pub Moves-bind_look :
      (g : World → A) {f : A → Action B} → ((a : A) → Moves P (f a)) → Moves P (look g >>= f)
  unfolding ◌>>=◌ look
  Moves-bind_look g h = record { follows = λ w p. (h (g w)).follows w p }

module _ {P : Registry → Type 0} {A : Type 0} where
  pub Moves-attempt :
      {m handler : Action A} → Moves P m → Moves Always handler → Moves P (attempt m handler)
  unfolding attempt
  Moves-attempt {m} {handler} h g = record {
    follows = λ w p. Reach-trans (h.follows w p) (after_attempt (m w) handler g);
  }

pub ruleset moves = (
  Moves-pure, Moves-fail, Moves-look, Moves-throw, Moves-query, Moves-update_returning,
  Moves-present, Moves-choose, Moves-maybe, Moves-require, Moves-when, Moves-update,
  Moves-insert_row, Moves-clock, Moves-new_uuid, Moves-set_ticket, Moves-get_ticket,
  Moves-delete_ticket, Moves-set_session, Moves-get_session, Moves-delete_session, Moves-audit,
  Moves-broadcast, Moves-bind, Moves-settle, Moves-attempt,
)
