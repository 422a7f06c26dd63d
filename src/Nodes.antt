-- ===== src/Nodes.antt =====
-- coordinator-server/storage_node/storage_node_server.py: the messages of the storage nodes, with the
-- dispatch of coordinator-server/protocol/socket_server.py. A message is its payload, field by field: a
-- field that is absent or null, a value, or a value of the wrong type. Numbers are natural. A handler is an
-- action that answers the reply that it sends.
pub mod Dispatch
pub mod Admission
pub mod Registration
pub mod Guard
pub mod History
mod Tests
use lan_secure_file_system.Common.{
  ℕ, Bool, true, false, not, ◌&&◌, Option, none, some, List, [], Text, is_empty, is_set, ◌==◌,
  if◌then◌else◌,
}
use lan_secure_file_system.Registry.{Address, Node, get_by_connection}
use lan_secure_file_system.Registry.Connections.{
  Credentials, add_connection, authenticate, remove_connection, heartbeat, update_capacity,
}
use lan_secure_file_system.Registry.Manifest.{set_manifest, apply_manifest_delta, mark_file_added}
use lan_secure_file_system.World.{
  AuditEntry, storage_node_auth, storage_node_disconnect, Ticket, World, Action, ErrorCode, pure,
  ◌>>=◌, ◌>>◌, attempt, settle, maybe, choose, when, look, manage, clock, audit,
}
use lan_secure_file_system.Uploads.Completion.{upload_complete, upload_failed}
use lan_secure_file_system.Upkeep.{reconcile_node}
use lan_secure_file_system.Tickets.{verify_ticket}

-- The connection that sent a message: the object, its id, and the host of its address.
pub record Peer : Type 0 where
  pub connection : ℕ
  pub connection_id : ℕ
  pub host : Option ℕ

-- What `int(…)` makes of a field
pub data Number : Type 0 where
  no_number malformed : Number
  number : ℕ → Number

-- A field that should be a list of hashes
pub data Hashes : Type 0 where
  no_hashes not_a_list : Hashes
  hashes : List Text → Hashes

-- The payload of STORAGE_AUTH
pub record Auth : Type 0 where
  pub secret : Option ℕ
  pub node_id : Option ℕ
  pub data_host : Option ℕ
  pub data_port : Number
  pub storage_address : Option Address
  pub free_bytes : Number
  pub manifest : Hashes

-- The payload of UPLOAD_COMPLETE
pub record Report : Type 0 where
  pub file_id : Option ℕ
  pub sha256_whole : Option Text
  pub stored_name : Option ℕ
  pub final_size : Option ℕ

-- The message types that have a handler, and any other.
pub data NodeMessage : Type 0 where
  storage_auth : Auth → NodeMessage
  ping : Number → NodeMessage
  verify : Option ℕ → NodeMessage
  completed : Report → NodeMessage
  gave_up : Option ℕ → NodeMessage
  manifest_delta : (added removed : Hashes) → NodeMessage
  other_message : ℕ → NodeMessage

-- The error codes of the server itself
pub data NodeError : Type 0 where
  missing_secret invalid_secret invalid_data_port not_authenticated missing_ticket : NodeError
  invalid_payload node_not_found unknown_message_type internal : NodeError

pub data Reply : Type 0 where
  refused : NodeError → Reply
  authenticated_as : ℕ → Reply
  pong : ℕ → Reply
  ticket_valid : Ticket → Reply
  ticket_invalid : ErrorCode → Reply
  ack : Reply
  service_error : ErrorCode → Reply

-- `a or b`
abbrev pub or_else : Option ℕ → ℕ → ℕ
or_else none b = b
or_else (some a) b = if a == 0 then b else a

abbrev pub node_entry : Bool → ℕ → Bool → AuditEntry
node_entry authenticates id succeeded = record {
  actor_id = none;
  action = if authenticates then storage_node_auth else storage_node_disconnect;
  target_id = id;
  room_id = none;
  succeeded = succeeded;
}

-- `_on_connection_established`
unfoldable pub connection_established : Peer → Action (Unit {0})
connection_established peer =
    manage (λ w. (add_connection w.registry w.now peer.connection peer.connection_id, tt))

-- `_on_connection_closed`
unfoldable pub connection_closed : Peer → Action (Unit {0})
connection_closed peer = do
  found ← look (λ w. get_by_connection w.registry peer.connection)
  manage (λ w. (remove_connection w.registry peer.connection, tt))
  maybe found (pure tt)
      (λ node. when node.authenticated (audit (node_entry false node.node_id true)))

abbrev pub id_of : Peer → Auth → ℕ
id_of peer m = or_else m.node_id peer.connection_id

-- `if not data_host: data_host = address[0]`
abbrev pub host_of : Peer → Auth → Option ℕ
host_of peer m = if is_set m.data_host then m.data_host else peer.host

abbrev pub credentials : Peer → Auth → Option ℕ → Credentials
credentials peer m port = record {
  node_id = id_of peer m;
  data_host = host_of peer m;
  data_port = port;
  storage_address = m.storage_address;
}

-- `free_bytes`, once parsed; one that is malformed is ignored. A negative number is not modelled.
abbrev pub parsed : Number → Option ℕ
parsed no_number = none
parsed malformed = none
parsed (number n) = some n

-- The manifest that comes with the authentication
unfoldable pub take_manifest : ℕ → Hashes → Action (Unit {0})
take_manifest id no_hashes = pure tt
take_manifest id not_a_list = pure tt
take_manifest id (hashes shas) = do
  normalized ← manage (λ w. set_manifest w.registry (some id) shas)
  reconciles ← look (λ w. w.config.has_reconciliation)
  maybe normalized (pure tt)
      (λ found. when reconciles (attempt (reconcile_node id found >> pure tt) (pure tt)))

-- The rest of `_handle_storage_auth`, for the right secret and a port that can be read.
unfoldable pub admit_node : Peer → Auth → Option ℕ → Action Reply
admit_node peer m port = do
  manage (λ w. (authenticate w.registry w.now peer.connection (credentials peer m port), tt))
  maybe (parsed m.free_bytes) (pure tt)
      (λ free. manage (λ w. (update_capacity w.registry peer.connection free, tt)))
  audit (node_entry true (id_of peer m) true)
  take_manifest (id_of peer m) m.manifest
  pure (authenticated_as (id_of peer m))

unfoldable pub admit_at : Peer → Auth → Number → Action Reply
admit_at peer m no_number = admit_node peer m none
admit_at peer m malformed = pure (refused invalid_data_port)
admit_at peer m (number port) = admit_node peer m (some port)

unfoldable pub reject : Peer → Auth → NodeError → Action Reply
reject peer m code = do audit (node_entry true (id_of peer m) false); pure (refused code)

abbrev pub is_secret : Option ℕ → ℕ → Bool
is_secret none shared = false
is_secret (some s) shared = s == shared

-- `_handle_storage_auth`
unfoldable pub handle_storage_auth : Peer → Auth → Action Reply
handle_storage_auth peer m =
    choose (is_set m.secret)
      (do
        shared ← look (λ w. w.config.shared_secret)
        choose (is_secret m.secret shared) (admit_at peer m m.data_port)
            (reject peer m invalid_secret))
      (reject peer m missing_secret)

-- The test that the other handlers begin with
unfoldable pub with_node : Peer → (Node → Action Reply) → Action Reply
with_node peer k = do
  found ← look (λ w. get_by_connection w.registry peer.connection)
  maybe found (pure (refused not_authenticated))
      (λ node. choose node.authenticated (k node) (pure (refused not_authenticated)))

-- `_handle_ping`
unfoldable pub handle_ping : Peer → Number → Action Reply
handle_ping peer free = with_node peer (λ node. do
  manage (λ w. (heartbeat w.registry w.now peer.connection (parsed free), tt))
  now ← clock
  pure (pong now))

-- `_handle_verify_ticket`
unfoldable pub answer_ticket : ℕ → Action Reply
answer_ticket id =
    settle (verify_ticket id) (λ t. pure (ticket_valid t)) (λ code. pure (ticket_invalid code))

abbrev pub or_zero : Option ℕ → ℕ
or_zero none = 0
or_zero (some n) = n

unfoldable pub handle_verify_ticket : Peer → Option ℕ → Action Reply
handle_verify_ticket peer ticket = with_node peer (λ node.
    choose (is_set ticket) (answer_ticket (or_zero ticket)) (pure (refused missing_ticket)))

abbrev pub or_empty : Option Text → Text
or_empty none = []
or_empty (some sha) = sha

abbrev pub has_text : Option Text → Bool
has_text none = false
has_text (some sha) = not (is_empty sha)

abbrev pub has_size : Option ℕ → Bool
has_size none = false
has_size (some n) = true

-- `all([file_id, sha256_whole, stored_name, final_size is not None])`
abbrev pub is_full : Report → Bool
is_full m =
    is_set m.file_id && (has_text m.sha256_whole && (is_set m.stored_name && has_size m.final_size))

-- The end of `_handle_upload_complete`; the node counts as holding what it stored at once.
unfoldable pub store_report : Node → Report → Action Reply
store_report node m =
    settle (upload_complete (or_zero m.file_id) (or_empty m.sha256_whole) (some node.node_id))
      (λ done. do
        manage (λ w. (mark_file_added w.registry (some node.node_id) m.sha256_whole, tt))
        pure ack)
      (λ code. pure (service_error code))

-- `_handle_upload_complete`
unfoldable pub handle_upload_complete : Peer → Report → Action Reply
handle_upload_complete peer m =
    with_node peer
      (λ node. choose (is_full m) (store_report node m) (pure (refused invalid_payload)))

-- `_handle_upload_failed`
unfoldable pub store_failure : Node → ℕ → Action Reply
store_failure node id =
    settle (upload_failed id (some node.node_id)) (λ done. pure ack)
      (λ code. pure (service_error code))

unfoldable pub handle_upload_failed : Peer → Option ℕ → Action Reply
handle_upload_failed peer file = with_node peer (λ node.
    choose (is_set file) (store_failure node (or_zero file)) (pure (refused invalid_payload)))

abbrev pub is_list : Hashes → Bool
is_list no_hashes = true
is_list not_a_list = false
is_list (hashes shas) = true

abbrev pub listed : Hashes → List Text
listed no_hashes = []
listed not_a_list = []
listed (hashes shas) = shas

-- The end of `_handle_manifest_delta`
unfoldable pub amend : Node → List Text → List Text → Action Reply
amend node added removed = do
  applied ← manage (λ w. apply_manifest_delta w.registry (some node.node_id) added removed)
  choose applied (pure ack) (pure (refused node_not_found))

-- `_handle_manifest_delta`
unfoldable pub handle_manifest_delta : Peer → Hashes → Hashes → Action Reply
handle_manifest_delta peer added removed = with_node peer (λ node.
    choose (is_list added && is_list removed) (amend node (listed added) (listed removed))
      (pure (refused invalid_payload)))

-- `_register_handlers` and `_dispatch_message`
unfoldable pub handle : Peer → NodeMessage → Action Reply
handle peer (storage_auth m) = handle_storage_auth peer m
handle peer (ping free) = handle_ping peer free
handle peer (verify ticket) = handle_verify_ticket peer ticket
handle peer (completed m) = handle_upload_complete peer m
handle peer (gave_up file) = handle_upload_failed peer file
handle peer (manifest_delta added removed) = handle_manifest_delta peer added removed
handle peer (other_message type) = pure (refused unknown_message_type)

-- `_run_handler`
unfoldable pub run_handler : Peer → NodeMessage → Action Reply
run_handler peer m = attempt (handle peer m) (pure (refused internal))
