-- ===== src/Lib.antt =====
-- A LAN file system: a model of the control plane in coordinator-server/ and of the client's half of the data
-- plane in coordinator-node/network/, with the theorems that make them correct.
--
-- The program: clients and storage nodes talk to the coordinator in frames (protocol/frame_codec.py,
-- protocol/socket_server.py of coordinator-server/, as all paths below that do not begin with coordinator-node/).
-- Its services keep users, rooms, members, files and share tokens in a
-- database, check each caller against the members of a room, and hand out tickets with which clients move
-- the content to or from a storage node themselves. A registry in memory follows the nodes, charges them
-- for uploads by reservations that expire, and knows from manifests which content a node holds. Sessions and
-- tickets are kept in Redis, under keys that expire. A client goes on with an upload or a download where a lost
-- connection has left it.
--
-- The files, and the code that each is about:
--   Frame, Frame/*       protocol/frame_codec.py (FrameCodec, FrameBuffer), and _process_buffer and
--                        _handle_client_data of protocol/socket_server.py
--   Registry, Registry/* storage_node/registry.py: the state in Registry, connections and heartbeats in
--                        Connections, load balancing and reservations in Balancing, manifests in Manifest;
--                        the other files hold proofs
--   World, World/*       what the services share: Rows and State for the tables (alembic/versions) and the
--                        environment, Actions for statements, exceptions and error codes (database.py),
--                        the audit log (audit/audit_service.py) and broadcasts; Endings is the program
--                        logic that the proofs use, Keys says what Redis promises, and Moves which calls
--                        change the registry by its own steps only
--   Access, Access/*     auth/authorization_service.py, and the membership tests of the other services
--   Accounts, Accounts/*  auth/auth_service.py, verify of auth/password_hasher.py, auth/auth_middleware.py
--   Rooms, Rooms/*       room/room_service.py: create, add, remove, set_member_role (set_role), list_members,
--                        list_rooms
--   Files, Files/*       file/file_service.py
--   Uploads, Uploads/*   upload/upload_service.py and upload/dedup_checker.py; Completion has the reports of
--                        the storage nodes, Slots what the release of a slot does
--   Downloads, Downloads/*  download/download_service.py and ticket/hmac_ticket.py
--   Upkeep, Upkeep/*     cleanup/cleanup_service.py and storage_node/reconciliation_service.py
--   Tickets, Tickets/*   verify_ticket and delete_ticket of ticket/ticket_service.py
--   Nodes, Nodes/*       storage_node/storage_node_server.py: its handlers, and _dispatch_message and
--                        _run_handler of protocol/socket_server.py; Nodes/History joins all that changes the
--                        registry
--   Notifications, Notifications/*  notification/notification_service.py
--   Clients, Clients/*   client_socket_server.py and the handlers that it calls, in auth/, room/, file/, upload/,
--                        download/ and notification/
--   Transfer, Transfer/* coordinator-node/network/storage_node_data_plane.py: frames in Wire, download_file in
--                        Download, upload_file in Upload, the key exchange in Crypto
--   Common, Common/*     lists, texts, dictionaries and tests on native numbers
--
-- How code is modelled: a method of a service is an action, a function from the world to an outcome and a
-- world. An outcome is a value, an error code, or an exception. Every statement commits on its own, and any
-- of them may raise, as `faults` says; what was written before stays. `Runs m w good bad` says that from the
-- world w the action m ends well with `good`, or with an error code or an exception with `bad`. Nothing is
-- assumed about when statements fail. One handler runs after another.
--
-- Bounds: the loop over a buffer recurses on its length, which is enough, as is proved; sizes are below
-- 2^53, where the float division of `math.ceil` is exact. Ids, names and tokens are numbers, 0 for the empty
-- text, times are numbers, and a handler reads the clock once. uuid4 gives a new number each time;
-- random.sample is a function of two drawn numbers. Texts that are stripped or lowered are ASCII.
--
-- The loops over attempts recurse on max_attempts, those over chunks on the chunks that are left.
--
-- Parameters: bcrypt, the keyed hash of a ticket, SHA-256, the key agreements and the ciphers of the data
-- plane are functions. What Redis answers is a function of the commands it got; theorems that need it assume
-- that it keeps the newest command of a key until its expiry. Of a storage node there is what it does on
-- each connection; theorems name what they assume of it.
--
-- Not modelled: sockets, TLS and threads; JSON; logging; the waits between attempts of the
-- client; the free-form details of the audit log; the storage nodes; PING and STATUS of a client; the
-- application of the client beside its data plane (coordinator-node/ui, coordinator-node/services and
-- coordinator-node/network/backend_client_sdk.py).
mod Common
pub mod Frame
pub mod Registry
pub mod World
pub mod Access
pub mod Accounts
pub mod Rooms
pub mod Files
pub mod Uploads
pub mod Downloads
pub mod Tickets
pub mod Upkeep
pub mod Nodes
pub mod Transfer
pub mod Notifications
pub mod Clients
