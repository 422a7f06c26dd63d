-- ===== src/World/Keys.antt =====
-- What the coordinator relies on of Redis, behind coordinator-server/redis_client.py: `SETEX` keeps a
-- value under its key for its time to live, `DEL` removes it, and keys do not touch each other.
use lan_secure_file_system.Common.{ℕ, ◌+◌, ◌≡◌, none, some, List, [], ◌∷◌, ltb, ◌==◌, if◌then◌else◌}
use lan_secure_file_system.World.Rows.{
  Ticket, Session, RedisCommand, ticket_stored, ticket_dropped, session_stored, session_dropped,
}
use lan_secure_file_system.World.State.{Config}

pub record IsKeyStore (c : Config) : Type 0 where
  pub no_session : (token now : ℕ) → c.session_of [] token now ≡ none
  pub session_set :
      (log : List RedisCommand) (s : Session) (token ttl at other now : ℕ)
      → c.session_of (session_stored token s ttl at ∷ log) other now ≡ (
          if token == other
          then (if ltb now (at + ttl) then some s else none)
          else c.session_of log other now)
  pub session_deleted :
      (log : List RedisCommand) (token at other now : ℕ)
      → c.session_of (session_dropped token at ∷ log) other now
        ≡ (if token == other then none else c.session_of log other now)
  pub no_ticket : (id now : ℕ) → c.ticket_of [] id now ≡ none
  pub ticket_set :
      (log : List RedisCommand) (t : Ticket) (id ttl at other now : ℕ)
      → c.ticket_of (ticket_stored id t ttl at ∷ log) other now ≡ (
          if id == other
          then (if ltb now (at + ttl) then some t else none)
          else c.ticket_of log other now)
  pub ticket_deleted :
      (log : List RedisCommand) (id at other now : ℕ)
      → c.ticket_of (ticket_dropped id at ∷ log) other now
        ≡ (if id == other then none else c.ticket_of log other now)
  -- the keys of sessions and of tickets differ
  pub session_apart :
      (log : List RedisCommand) (t : Ticket) (id ttl at other now : ℕ)
      → c.session_of (ticket_stored id t ttl at ∷ log) other now ≡ c.session_of log other now
  pub session_apart_deleted :
      (log : List RedisCommand) (id at other now : ℕ)
      → c.session_of (ticket_dropped id at ∷ log) other now ≡ c.session_of log other now
  pub ticket_apart :
      (log : List RedisCommand) (s : Session) (token ttl at other now : ℕ)
      → c.ticket_of (session_stored token s ttl at ∷ log) other now ≡ c.ticket_of log other now
  pub ticket_apart_deleted :
      (log : List RedisCommand) (token at other now : ℕ)
      → c.ticket_of (session_dropped token at ∷ log) other now ≡ c.ticket_of log other now
