-- ===== src/World/State.antt =====
-- The coordinator's world: its tables, the registry of storage nodes, what it has sent out, and the
-- environment that it meets.
use lan_secure_file_system.Common.{ℕ, Bool, List, Option}
use lan_secure_file_system.Registry.{Registry, Address}
use lan_secure_file_system.World.Rows.{
  User, Room, Member, File, ShareToken, AuditEntry, Event, Ticket, Session, RedisCommand,
}

pub record Db : Type 0 where
  pub users : List User
  pub rooms : List Room
  pub members : List Member
  pub files : List File
  pub share_tokens : List ShareToken
  pub audit_logs : List AuditEntry

-- The constructor arguments of the services. An optional service is there or not. `sign` is the
-- keyed hash of the standard library's `hmac`, applied to the payload of a ticket. `hash_password` and
-- `check_password` are those of `bcrypt`; a hash that raises is `none`. `ticket_of` and `session_of` are
-- what Redis answers to `GET ticket:…` and `GET session:…` after the commands that it was sent, newest
-- first, at a time.
pub record Config : Type 0 where
  pub has_audit : Bool
  pub has_notification : Bool
  pub has_registry : Bool
  pub chunk_size : ℕ
  pub upload_ticket_ttl : ℕ
  pub download_ticket_ttl : ℕ
  pub slot_reservation_ttl : ℕ
  pub storage_address : Address
  pub default_storage_node_id : ℕ
  pub sign : (session_id file_id node_id expiry : ℕ) → ℕ
  pub has_reconciliation : Bool
  pub shared_secret : ℕ
  pub session_ttl : ℕ
  pub hash_password : (password salt : ℕ) → Option ℕ
  pub check_password : (password password_hash : ℕ) → Bool
  pub ticket_of : List RedisCommand → (id now : ℕ) → Option Ticket
  pub session_of : List RedisCommand → (token now : ℕ) → Option Session

-- `redis` are the commands that Redis was sent, newest first. `now` is
-- the clock, `next_uuid` the next id that `uuid4` gives, `draws` the random numbers. The call number
-- `n` to the database or to Redis raises an exception, and does nothing else, if `faults n` holds.
pub record World : Type 0 where
  pub config : Config
  pub db : Db
  pub open db use *
  pub registry : Registry
  pub redis : List RedisCommand
  pub events : List Event
  pub now : ℕ
  pub next_uuid : ℕ
  pub draws : ℕ × ℕ
  pub faults : ℕ → Bool
  pub calls : ℕ
