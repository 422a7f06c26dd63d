-- ===== src/Registry.antt =====
-- coordinator-server/storage_node/registry.py: the state of the registry of storage nodes.
-- `StorageNodeInfo` objects are shared: two dictionaries hold references to them and the methods
-- change them in place, so the objects stand on a heap and the dictionaries hold their addresses.
-- Ids, connections and host names are numbers, 0 for the empty text; the numbers stand in the
-- alphabetical order of the ids, which breaks the last tie of the load balancer. `time.time()` is the
-- argument `now`.
pub mod Connections
pub mod Balancing
pub mod Manifest
pub mod Eligibility
pub mod Filing
pub mod Selection
pub mod Slots
pub mod Charging
pub mod Upkeep
pub mod Reservations
pub mod Holdings
pub mod History
pub mod Enrolment
pub mod Exactness
pub mod Rejoining
pub mod Agreement
mod Tests
use lan_secure_file_system.Common.{
  ℕ, suc, ◌+◌, ◌-◌, Bool, true, false, not, ◌&&◌, ◌||◌, Option, none, some, List, [], Text, Dict,
  lookup, ltb, ◌==◌, if◌then◌else◌, is_set,
}

-- A storage address: a text that the node gave, or `f"{data_host}:{data_port}"`.
pub data Address : Type 0 where
  given : ℕ → Address
  host_port : ℕ → ℕ → Address

-- `_Reservation`
pub record Reservation : Type 0 where
  pub id : ℕ
  pub node_id : ℕ
  pub expires_at : ℕ

-- `StorageNodeInfo`; the set of hashes is a list without repetition.
pub record Node : Type 0 where
  pub connection : ℕ
  pub node_id : ℕ
  pub data_host : Option ℕ
  pub data_port : Option ℕ
  pub storage_address : Option Address
  pub authenticated : Bool
  pub active_uploads : ℕ
  pub files : List Text
  pub manifest_received : Bool
  pub free_bytes : Option ℕ
  pub last_ping_time : ℕ
  pub connected_at : ℕ

-- `StorageNodeRegistry`: `objects` is the heap and `next_object` its first free address; `closed`
-- lists the connections that the registry has closed.
pub record Registry : Type 0 where
  pub timeout_seconds : ℕ
  pub min_free_bytes : ℕ
  pub objects : ℕ → Node
  pub next_object : ℕ
  pub nodes_by_connection : Dict ℕ
  pub nodes_by_id : Dict ℕ
  pub reservations : Dict Reservation
  pub closed : List ℕ

-- `StorageNodeInfo(connection=…, node_id=…)`
unfoldable pub new_node : ℕ → ℕ → ℕ → Node
new_node connection node_id now = record {
  connection = connection;
  node_id = node_id;
  data_host = none;
  data_port = none;
  storage_address = none;
  authenticated = false;
  active_uploads = 0;
  files = [];
  manifest_received = false;
  free_bytes = none;
  last_ping_time = now;
  connected_at = now;
}

-- `StorageNodeRegistry(timeout_seconds, min_free_bytes)`
unfoldable pub new_registry : ℕ → ℕ → Registry
unfolding new_node
new_registry timeout min_free = record {
  timeout_seconds = timeout;
  min_free_bytes = min_free;
  objects = λ _. new_node 0 0 0;
  next_object = 0;
  nodes_by_connection = [];
  nodes_by_id = [];
  reservations = [];
  closed = [];
}

abbrev pub write : ℕ → Node → (ℕ → Node) → ℕ → Node
write ref node objects q = if ref == q then node else objects q

-- `node.is_healthy(timeout_seconds)`
unfoldable pub is_healthy : ℕ → ℕ → Node → Bool
is_healthy timeout now node = node.authenticated && ltb now (node.last_ping_time + timeout)

-- `_nodes_by_id.get(node_id)` behind the test `if not node_id`
abbrev pub node_at : Registry → Option ℕ → Option ℕ
node_at r none = none
node_at r (some k) = if k == 0 then none else lookup k r.nodes_by_id

-- `get_by_connection`
unfoldable pub get_by_connection : Registry → ℕ → Option Node
get_by_connection r connection = elim (lookup connection r.nodes_by_connection) [
  | none ↦ none
  | some ref ↦ some (r.objects ref)
]

-- `get_node`
unfoldable pub get_node : Registry → Option ℕ → Option Node
get_node r id = elim (node_at r id) [ none ↦ none | some ref ↦ some (r.objects ref) ]

-- `is_node_healthy`
unfoldable is_node_healthy : Registry → ℕ → Option ℕ → Bool
unfolding get_node is_healthy
is_node_healthy r now id = elim (get_node r id) [
  | none ↦ false
  | some node ↦ is_healthy r.timeout_seconds now node
]

-- `get_storage_address`
unfoldable pub get_storage_address : Registry → ℕ → Option ℕ → Option Address
unfolding get_node is_healthy
get_storage_address r now id = elim (get_node r id) [
  | none ↦ none
  | some node ↦ if is_healthy r.timeout_seconds now node then node.storage_address else none
]

-- The truth value of an optional address.
abbrev pub has_address : Option Address → Bool
has_address none = false
has_address (some (given text)) = if text == 0 then false else true
has_address (some (host_port host port)) = true
