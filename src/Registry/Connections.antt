-- ===== src/Registry/Connections.antt =====
-- The connections of storage nodes: `add_connection`, `authenticate`, `remove_connection`,
-- `heartbeat` and `update_capacity` of registry.py.
use lan_secure_file_system.Common.{
  ℕ, suc, true, false, Option, none, some, [], ◌∷◌, lookup, insert, erase, ◌==◌, if◌then◌else◌,
}
use lan_secure_file_system.Registry.{
  Address, host_port, Node, Registry, new_node, write, has_address,
}

-- A new object for a connection, in its table.
abbrev pub create : Registry → Node → Registry
create r node = record r {
  objects = write r.next_object node r.objects;
  next_object = suc r.next_object;
  nodes_by_connection = insert node.connection r.next_object r.nodes_by_connection;
}

-- `add_connection`; until it authenticates, a node goes by its connection's id.
unfoldable pub add_connection : Registry → ℕ → ℕ → ℕ → Registry
unfolding new_node
add_connection r now connection connection_id = create r (new_node connection connection_id now)

-- `_format_address`
unfoldable pub format_address : Option ℕ → Option ℕ → Option Address
format_address (some host) (some port) =
    if host == 0 then none else if port == 0 then none else some (host_port host port)
format_address none port = none
format_address (some host) none = none

-- What a storage node says of itself in STORAGE_AUTH.
pub record Credentials : Type 0 where
  pub node_id : ℕ
  pub data_host : Option ℕ
  pub data_port : Option ℕ
  pub storage_address : Option Address

-- The object that `authenticate` works on: the connection's, or a new one.
unfoldable pub ensure_object : Registry → ℕ → ℕ → ℕ → Registry × ℕ
ensure_object r now connection node_id = elim (lookup connection r.nodes_by_connection) [
  | none ↦ (create r (new_node connection node_id now), r.next_object)
  | some ref ↦ (r, ref)
]

-- The old connection of the same node id is dropped and closed.
unfoldable pub drop_old : Registry → ℕ → ℕ → Registry
drop_old r connection node_id = elim (lookup node_id r.nodes_by_id) [
  | none ↦ r
  | some old ↦
      let old_connection = (r.objects old).connection in
      if old_connection == connection then r else record r {
        nodes_by_connection = erase old_connection r.nodes_by_connection;
        closed = old_connection ∷ r.closed;
      }
]

-- The fields that `authenticate` sets; the manifest is forgotten until a new one comes.
unfoldable pub admit : Node → Credentials → ℕ → Node
admit node c now = record node {
  node_id = c.node_id;
  data_host = c.data_host;
  data_port = c.data_port;
  storage_address =
      if has_address c.storage_address
      then c.storage_address
      else format_address c.data_host c.data_port;
  authenticated = true;
  last_ping_time = now;
  files = [];
  manifest_received = false;
}

-- `authenticate`
unfoldable pub authenticate : Registry → ℕ → ℕ → Credentials → Registry
authenticate r now connection c =
    let (found, ref) = ensure_object r now connection c.node_id in
    let cleared = drop_old found connection c.node_id in
    record cleared {
      objects = write ref (admit (cleared.objects ref) c now) cleared.objects;
      nodes_by_id = insert c.node_id ref cleared.nodes_by_id;
    }

-- `remove_connection`: the id is freed only if it still belongs to the connection's object.
unfoldable pub remove_connection : Registry → ℕ → Registry
remove_connection r connection = elim (lookup connection r.nodes_by_connection) [
  | none ↦ r
  | some ref ↦
      let id = (r.objects ref).node_id in
      let rest = record r { nodes_by_connection = erase connection r.nodes_by_connection } in
      elim (lookup id r.nodes_by_id) [
        | none ↦ rest
        | some owner ↦
            if owner == ref then record rest { nodes_by_id = erase id r.nodes_by_id } else rest
      ]
]

-- `heartbeat`: a ping without `free_bytes` keeps the capacity that was known.
unfoldable pub heartbeat : Registry → ℕ → ℕ → Option ℕ → Registry
heartbeat r now connection free = elim (lookup connection r.nodes_by_connection) [
  | none ↦ r
  | some ref ↦
      let node = record (r.objects ref) { last_ping_time = now } in
      record r {
        objects =
            write ref (elim free [ none ↦ node | some n ↦ record node { free_bytes = some n } ])
              r.objects;
      }
]

-- `update_capacity`
unfoldable pub update_capacity : Registry → ℕ → ℕ → Registry
update_capacity r connection free = elim (lookup connection r.nodes_by_connection) [
  | none ↦ r
  | some ref ↦ record r {
    objects = write ref (record (r.objects ref) { free_bytes = some free }) r.objects;
  }
]
