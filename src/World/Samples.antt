-- ===== src/World/Samples.antt =====
-- An empty world for the tests: every optional service is there, and no call fails.
use lan_secure_file_system.Common.{
  ℕ, refl, arith, true, false, List, [], ◌∷◌, ◌+◌, Option, none, some, ◌==◌, ltb, if◌then◌else◌,
}
use lan_secure_file_system.Registry.{Registry, Node, given}
use lan_secure_file_system.World.Rows.{
  File, ShareToken, ready, owner, viewer, admin, other_role, Session, Ticket, RedisCommand,
  ticket_stored, ticket_dropped, session_stored, session_dropped,
}
use lan_secure_file_system.World.State.{World}
use lan_secure_file_system.World.Keys.{IsKeyStore}

abbrev pub blank_node : Node
blank_node = record {
  connection = 0;
  node_id = 0;
  data_host = none;
  data_port = none;
  storage_address = none;
  authenticated = false;
  active_uploads = 0;
  files = [];
  manifest_received = false;
  free_bytes = none;
  last_ping_time = 0;
  connected_at = 0;
}

abbrev pub blank_registry : Registry
blank_registry = record {
  timeout_seconds = 90;
  min_free_bytes = 0;
  objects = λ ref. blank_node;
  next_object = 0;
  nodes_by_connection = [];
  nodes_by_id = [];
  reservations = [];
  closed = [];
}

-- A key store that keeps the newest command of a key, until its time is over.
abbrev newest_ticket : List RedisCommand → ℕ → ℕ → Option Ticket
newest_ticket [] id now = none
newest_ticket (ticket_stored j t ttl at ∷ log) id now =
    let rest = newest_ticket log id now in
    if j == id then (if ltb now (at + ttl) then some t else none) else rest
newest_ticket (ticket_dropped j at ∷ log) id now =
    let rest = newest_ticket log id now in if j == id then none else rest
newest_ticket (session_stored token s ttl at ∷ log) id now = newest_ticket log id now
newest_ticket (session_dropped token at ∷ log) id now = newest_ticket log id now

abbrev newest_session : List RedisCommand → ℕ → ℕ → Option Session
newest_session [] token now = none
newest_session (session_stored j s ttl at ∷ log) token now =
    let rest = newest_session log token now in
    if j == token then (if ltb now (at + ttl) then some s else none) else rest
newest_session (session_dropped j at ∷ log) token now =
    let rest = newest_session log token now in if j == token then none else rest
newest_session (ticket_stored id t ttl at ∷ log) token now = newest_session log token now
newest_session (ticket_dropped id at ∷ log) token now = newest_session log token now

abbrev pub blank : World
blank = record {
  config = record {
    has_audit = true;
    has_notification = true;
    has_registry = true;
    chunk_size = 524288;
    upload_ticket_ttl = 1800;
    download_ticket_ttl = 900;
    slot_reservation_ttl = 60;
    storage_address = given 1;
    default_storage_node_id = 1;
    sign = λ session file node expiry. session + file + node + expiry;
    has_reconciliation = true;
    shared_secret = 7;
    session_ttl = 86400;
    hash_password = λ password salt. some (password + 1);
    check_password = λ password password_hash. password + 1 == password_hash;
    ticket_of = newest_ticket;
    session_of = newest_session;
  };
  db = record {
    users = [];
    rooms = [];
    members = [];
    files = [];
    share_tokens = [];
    audit_logs = [];
  };
  registry = blank_registry;
  redis = [];
  events = [];
  now = 100;
  next_uuid = 1000;
  draws = (0, 0);
  faults = λ n. false;
  calls = 0;
}

pub blank-IsKeyStore : IsKeyStore blank.config
blank-IsKeyStore = record {
  no_session = λ token now. refl;
  session_set = λ log s token ttl at other now. ground arith;
  session_deleted = λ log token at other now. ground arith;
  no_ticket = λ id now. refl;
  ticket_set = λ log t id ttl at other now. ground arith;
  ticket_deleted = λ log id at other now. ground arith;
  session_apart = λ log t id ttl at other now. refl;
  session_apart_deleted = λ log id at other now. refl;
  ticket_apart = λ log s token ttl at other now. refl;
  ticket_apart_deleted = λ log token at other now. refl;
}

-- A room 5 with its owner 2 and a viewer 3, a READY file 9 of 3 in it and a token for one download of that
-- file.
abbrev pub shared_file : File
shared_file = record {
  id = 9;
  room_id = 5;
  original_name = 40;
  stored_name = record { in_room = 5; of_file = 9 };
  version = 1;
  uploader_id = 3;
  size_bytes = 10;
  mime_type = 41;
  sha256_whole = 97 ∷ [];
  total_chunks = 1;
  chunk_size = 524288;
  status = ready;
  storage_node_id = none;
  created_at = 50;
}

abbrev pub one_use : ShareToken
one_use = record {
  id = 20;
  token = 30;
  file_id = 9;
  created_by = 3;
  max_downloads = 1;
  download_count = 0;
  expires_at = 200;
}

abbrev pub populated : World
populated = record blank {
  db = record {
    users =
        record { id = 1; username = 11; email = 61; password_hash = 72; global_role = admin }
        ∷ record {
          id = 2;
          username = 12;
          email = 62;
          password_hash = 73;
          global_role = other_role 1;
        }
        ∷ record {
          id = 3;
          username = 13;
          email = 63;
          password_hash = 74;
          global_role = other_role 1;
        }
        ∷ [];
    rooms = record { id = 5; name = 98 ∷ []; created_by = 2; created_at = 10 } ∷ [];
    members =
        record { room_id = 5; user_id = 2; role = owner; added_at = 10 }
        ∷ record { room_id = 5; user_id = 3; role = viewer; added_at = 11 }
        ∷ [];
    files = shared_file ∷ [];
    share_tokens = one_use ∷ [];
    audit_logs = [];
  };
}
