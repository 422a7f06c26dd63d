-- ===== src/Registry/Upkeep.antt =====
-- Events that touch a node's time, room or hashes, and leave the accounting of slots alone.
use lan_secure_file_system.Common.{
  ℕ, ◌≡◌, refl, inl, inr, Option, none, some, List, Text, lookup, lookup-erase, arith, Option-cases,
}
use lan_secure_file_system.Registry.{Registry, Node, write, node_at}
use lan_secure_file_system.Registry.Connections.{drop_old, heartbeat, update_capacity}
use lan_secure_file_system.Registry.Manifest.{
  usable, set_manifest, apply_manifest_delta, mark_file_added,
}
use lan_secure_file_system.Registry.Slots.{IsSound}

-- A change of the registry that leaves alone what the accounting of slots reads.
pub record SameSlots (r q : Registry) : Type 0 where
  pub same_ids : q.nodes_by_id ≡ r.nodes_by_id
  pub same_reservations : q.reservations ≡ r.reservations
  pub same_next : q.next_object ≡ r.next_object
  pub fewer_connections :
      (c ref : ℕ)
      → lookup c q.nodes_by_connection ≡ some ref
      → lookup c r.nodes_by_connection ≡ some ref
  pub same_node : (ref : ℕ) → (q.objects ref).node_id ≡ (r.objects ref).node_id
  pub same_auth : (ref : ℕ) → (q.objects ref).authenticated ≡ (r.objects ref).authenticated
  pub same_load : (ref : ℕ) → (q.objects ref).active_uploads ≡ (r.objects ref).active_uploads

pub SameSlots-IsSound : (r q : Registry) → SameSlots r q → IsSound r → IsSound q
SameSlots-IsSound r q s v = record {
  keyed = λ k ref e. ground (arith, s.same_node ref, v.keyed k ref);
  known = λ k ref e. ground (arith, s.same_auth ref, v.known k ref);
  id_allocated = λ k ref e. ground (arith, v.id_allocated k ref);
  connection_allocated =
      λ c ref e. ground (arith, v.connection_allocated c ref, s.fewer_connections c ref);
  idle = λ ref e. ground (arith, s.same_auth ref, s.same_load ref, v.idle ref);
  tagged = λ i w e. ground (arith, v.tagged i w);
  unique = rw s.same_reservations v.unique;
  ids_unique = rw s.same_ids v.ids_unique;
  bounded = λ k ref e. ground (arith, s.same_load ref, v.bounded k ref);
}

-- A write to one object that keeps its id, its state and its load.
write-SameSlots :
    (r : Registry) (ref : ℕ) (node : Node)
    → node.node_id ≡ (r.objects ref).node_id
    → node.authenticated ≡ (r.objects ref).authenticated
    → node.active_uploads ≡ (r.objects ref).active_uploads
    → SameSlots r (record r { objects = write ref node r.objects })
write-SameSlots r ref node hi ha hl = record {
  same_ids = refl;
  same_reservations = refl;
  same_next = refl;
  fewer_connections = λ c q e. e;
  same_node = λ q. ground arith;
  same_auth = λ q. ground arith;
  same_load = λ q. ground arith;
}

write-IsSound :
    (r : Registry) (ref : ℕ) (node : Node)
    → IsSound r
    → node.node_id ≡ (r.objects ref).node_id
    → node.authenticated ≡ (r.objects ref).authenticated
    → node.active_uploads ≡ (r.objects ref).active_uploads
    → IsSound (record r { objects = write ref node r.objects })
write-IsSound r ref node v hi ha hl = SameSlots-IsSound r _ (write-SameSlots r ref node hi ha hl) v

SameSlots-refl : (r : Registry) → SameSlots r r
SameSlots-refl r = record {
  same_ids = refl;
  same_reservations = refl;
  same_next = refl;
  fewer_connections = λ c ref e. e;
  same_node = λ ref. refl;
  same_auth = λ ref. refl;
  same_load = λ ref. refl;
}

pub heartbeat-IsSound :
    (r : Registry) (now connection : ℕ) (free : Option ℕ)
    → IsSound r
    → IsSound (heartbeat r now connection free)
unfolding heartbeat
heartbeat-IsSound r now connection none v =
    elim (Option-cases (lookup connection r.nodes_by_connection)) [
      | inl e ↦ rw (e, heartbeat) v
      | inr (ref, e) ↦ rw (e, heartbeat) (write-IsSound r ref _ v refl refl refl)
    ]
heartbeat-IsSound r now connection (some free) v =
    elim (Option-cases (lookup connection r.nodes_by_connection)) [
      | inl e ↦ rw (e, heartbeat) v
      | inr (ref, e) ↦ rw (e, heartbeat) (write-IsSound r ref _ v refl refl refl)
    ]

pub update_capacity-IsSound :
    (r : Registry) (connection free : ℕ) → IsSound r → IsSound (update_capacity r connection free)
unfolding update_capacity
update_capacity-IsSound r connection free v =
    elim (Option-cases (lookup connection r.nodes_by_connection)) [
      | inl e ↦ rw (e, update_capacity) v
      | inr (ref, e) ↦ rw (e, update_capacity) (write-IsSound r ref _ v refl refl refl)
    ]

pub set_manifest-IsSound :
    (r : Registry) (id : Option ℕ) (shas : List Text)
    → IsSound r
    → IsSound (set_manifest r id shas).0
unfolding set_manifest
set_manifest-IsSound r id shas v = elim (Option-cases (node_at r id)) [
  | inl e ↦ rw (e, set_manifest) v
  | inr (ref, e) ↦ rw (e, set_manifest) (write-IsSound r ref _ v refl refl refl)
]

pub apply_manifest_delta-IsSound :
    (r : Registry) (id : Option ℕ) (added removed : List Text)
    → IsSound r
    → IsSound (apply_manifest_delta r id added removed).0
unfolding apply_manifest_delta
apply_manifest_delta-IsSound r id added removed v = elim (Option-cases (node_at r id)) [
  | inl e ↦ rw (e, apply_manifest_delta) v
  | inr (ref, e) ↦ rw (e, apply_manifest_delta) (write-IsSound r ref _ v refl refl refl)
]

pub mark_file_added-IsSound :
    (r : Registry) (id : Option ℕ) (sha : Option Text)
    → IsSound r
    → IsSound (mark_file_added r id sha)
unfolding mark_file_added
mark_file_added-IsSound r id sha v = elim (Option-cases (usable sha)) [
  | inl e ↦ rw (e, mark_file_added) v
  | inr (norm, f) ↦ elim (Option-cases (node_at r id)) [
    | inl e ↦ rw (f, mark_file_added, e) v
    | inr (ref, e) ↦ rw (f, mark_file_added, e) (write-IsSound r ref _ v refl refl refl)
  ]
]

pub drop_old-SameSlots :
    (r : Registry) (connection node_id : ℕ) → SameSlots r (drop_old r connection node_id)
unfolding drop_old
drop_old-SameSlots r connection node_id = elim (Option-cases (lookup node_id r.nodes_by_id)) [
  | inl e ↦ rw (e, drop_old) (SameSlots-refl r)
  | inr (old, e) ↦ record {
    same_ids = ground arith;
    same_reservations = ground arith;
    same_next = ground arith;
    fewer_connections =
        λ c ref q. ground (arith, lookup-erase (r.objects old).connection c r.nodes_by_connection);
    same_node = λ ref. ground arith;
    same_auth = λ ref. ground arith;
    same_load = λ ref. ground arith;
  }
]
