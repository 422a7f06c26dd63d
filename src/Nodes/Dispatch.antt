-- ===== src/Nodes/Dispatch.antt =====
-- What the messages of the storage nodes do to the registry: each is a sequence of its own operations.
use lan_secure_file_system.Common.{ℕ, Option, none, some}
use lan_secure_file_system.Registry.{Registry, Node}
use lan_secure_file_system.Registry.Connections.{update_capacity}
use lan_secure_file_system.Registry.History.{
  start, next, connects, authenticates, disconnects, pings, reports, lists, amends, stores, IsNew,
}
use lan_secure_file_system.World.{Action, manage}
use lan_secure_file_system.World.Moves.{
  Moves, Always, moves, Moves-bind, Moves-manage, Moves-pure, Moves-bind_look, Moves-choose,
  Moves-attempt, Moves-settle, Moves-look,
}
use lan_secure_file_system.Upkeep.Moves.{Moves-reconcile_node}
use lan_secure_file_system.Uploads.Moves.{Moves-upload_complete, Moves-upload_failed}
use lan_secure_file_system.Tickets.{verify_ticket}
use lan_secure_file_system.Nodes.{
  Peer, Auth, Number, no_number, malformed, number, Hashes, no_hashes, not_a_list, hashes, Report,
  NodeMessage, storage_auth, ping, verify, completed, gave_up, manifest_delta, other_message,
  connection_established, connection_closed, take_manifest, admit_node, admit_at, reject,
  handle_storage_auth, with_node, handle_ping, answer_ticket, handle_verify_ticket, store_report,
  handle_upload_complete, store_failure, handle_upload_failed, amend, handle_manifest_delta, handle,
  run_handler, Reply,
}

Moves-verify_ticket : (id : ℕ) → Moves Always (verify_ticket id)
unfolding verify_ticket
Moves-verify_ticket id = search moves depth 20

-- The handlers, on a connection that has authenticated or not
Moves-with_node :
    (peer : Peer) (k : Node → Action Reply)
    → ((node : Node) → Moves Always (k node))
    → Moves Always (with_node peer k)
unfolding with_node
Moves-with_node peer k h = search (moves, h) depth 20

Moves-handle_ping : (peer : Peer) (free : Number) → Moves Always (handle_ping peer free)
unfolding handle_ping
Moves-handle_ping peer free =
    Moves-with_node peer _
      (λ node. Moves-bind (Moves-manage _ (λ w p. next start (pings _ _ _))) (λ t. search moves))

Moves-handle_verify_ticket :
    (peer : Peer) (ticket : Option ℕ) → Moves Always (handle_verify_ticket peer ticket)
unfolding handle_verify_ticket answer_ticket
Moves-handle_verify_ticket peer ticket =
    Moves-with_node peer _ (λ node. search (moves, Moves-verify_ticket) depth 20)

Moves-handle_upload_complete :
    (peer : Peer) (m : Report) → Moves Always (handle_upload_complete peer m)
unfolding handle_upload_complete store_report
Moves-handle_upload_complete peer m = Moves-with_node peer _ (λ node.
    Moves-choose _ _ _
      (Moves-settle (Moves-upload_complete _ _ _)
        (λ done. Moves-bind (Moves-manage _ (λ w p. next start (stores _ _))) (λ t. Moves-pure _))
        (λ code. Moves-pure _))
      (Moves-pure _))

Moves-handle_upload_failed :
    (peer : Peer) (file : Option ℕ) → Moves Always (handle_upload_failed peer file)
unfolding handle_upload_failed store_failure
Moves-handle_upload_failed peer file =
    Moves-with_node peer _ (λ node. search (moves, Moves-upload_failed) depth 20)

Moves-handle_manifest_delta :
    (peer : Peer) (added removed : Hashes) → Moves Always (handle_manifest_delta peer added removed)
unfolding handle_manifest_delta amend
Moves-handle_manifest_delta peer added removed = Moves-with_node peer _ (λ node.
    Moves-choose _ _ _
      (Moves-bind (Moves-manage _ (λ w p. next start (amends _ _ _)))
        (λ applied. search (moves) depth 20))
      (Moves-pure _))

pub Moves-connection_established : (peer : Peer) → Moves Always (connection_established peer)
unfolding connection_established
Moves-connection_established peer = Moves-manage _ (λ w p. next start (connects _ _ _))

pub Moves-connection_closed : (peer : Peer) → Moves Always (connection_closed peer)
unfolding connection_closed
Moves-connection_closed peer = Moves-bind (Moves-look _) (λ found.
    Moves-bind (Moves-manage _ (λ w p. next start (disconnects _))) (λ t. search moves depth 20))

-- The authentication of a connection that has not authenticated yet
Moves-take_manifest : (id : ℕ) (m : Hashes) → Moves Always (take_manifest id m)
unfolding take_manifest
Moves-take_manifest id no_hashes = Moves-pure tt
Moves-take_manifest id not_a_list = Moves-pure tt
Moves-take_manifest id (hashes shas) =
    Moves-bind (Moves-manage _ (λ w p. next start (lists _ _)))
      (λ found. search (moves, Moves-reconcile_node) depth 20)

-- The registry knows the connection not at all, or as one that has not authenticated.
abbrev pub Newcomer : Peer → Registry → Type 0
Newcomer peer r = IsNew r peer.connection

Moves-update_capacity :
    (peer : Peer) (free : ℕ)
    → Moves Always (manage (λ w. (update_capacity w.registry peer.connection free, tt)))
Moves-update_capacity peer free = Moves-manage _ (λ w p. next start (reports _ _))

Moves-admit_node :
    (peer : Peer) (m : Auth) (port : Option ℕ) → Moves (Newcomer peer) (admit_node peer m port)
unfolding admit_node
Moves-admit_node peer m port =
    Moves-bind (Moves-manage _ (λ w p. next start (authenticates _ _ _ p)))
      (λ t. search (moves, Moves-take_manifest, Moves-update_capacity) depth 20)

Moves-admit_at :
    (peer : Peer) (m : Auth) (port : Number) → Moves (Newcomer peer) (admit_at peer m port)
unfolding admit_at
Moves-admit_at peer m no_number = Moves-admit_node peer m none
Moves-admit_at peer m malformed = Moves-pure _
Moves-admit_at peer m (number port) = Moves-admit_node peer m (some port)

Moves-handle_storage_auth :
    (peer : Peer) (m : Auth) → Moves (Newcomer peer) (handle_storage_auth peer m)
unfolding handle_storage_auth reject
Moves-handle_storage_auth peer m =
    Moves-choose _ _ _
      (Moves-bind_look _
        (λ shared. Moves-choose _ _ _ (Moves-admit_at peer m m.data_port) (search moves depth 20)))
      (search moves depth 20)

-- What a message may ask of its connection: only STORAGE_AUTH asks something.
abbrev pub Asks : Peer → NodeMessage → Registry → Type 0
Asks peer (storage_auth m) r = Newcomer peer r
Asks peer (ping free) r = Unit {0}
Asks peer (verify ticket) r = Unit {0}
Asks peer (completed m) r = Unit {0}
Asks peer (gave_up file) r = Unit {0}
Asks peer (manifest_delta added removed) r = Unit {0}
Asks peer (other_message type) r = Unit {0}

Moves-handle : (peer : Peer) (m : NodeMessage) → Moves (Asks peer m) (handle peer m)
unfolding handle
Moves-handle peer (storage_auth m) = Moves-handle_storage_auth peer m
Moves-handle peer (ping free) = Moves-handle_ping peer free
Moves-handle peer (verify ticket) = Moves-handle_verify_ticket peer ticket
Moves-handle peer (completed m) = Moves-handle_upload_complete peer m
Moves-handle peer (gave_up file) = Moves-handle_upload_failed peer file
Moves-handle peer (manifest_delta added removed) = Moves-handle_manifest_delta peer added removed
Moves-handle peer (other_message type) = Moves-pure _

pub Moves-run_handler : (peer : Peer) (m : NodeMessage) → Moves (Asks peer m) (run_handler peer m)
unfolding run_handler
Moves-run_handler peer m = Moves-attempt (Moves-handle peer m) (Moves-pure _)
