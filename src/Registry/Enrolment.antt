-- ===== src/Registry/Enrolment.antt =====
-- What the registry knows of a node that has just authenticated, and after what it told of itself.
use lan_secure_file_system.Common.{
  ℕ, ◌≡◌, ◌∙◌, inl, inr, true, false, not, ◌||◌, some, List, [], Text, lookup, lookup-insert,
  lookup-erase, arith, ◌==◌, Option-cases,
}
use lan_secure_file_system.Registry.{Registry, new_node}
use lan_secure_file_system.Registry.Connections.{
  Credentials, ensure_object, drop_old, admit, authenticate, update_capacity,
}
use lan_secure_file_system.Registry.Manifest.{member, add_each, set_manifest}
use lan_secure_file_system.Registry.Holdings.{reported, member-add_each}

-- A connection and an id lead to one node, which has authenticated under this id at some time.
pub record Enrolled (connection id now ref : ℕ) (r : Registry) : Type 0 where
  pub by_connection : lookup connection r.nodes_by_connection ≡ some ref
  pub by_id : lookup id r.nodes_by_id ≡ some ref
  pub named : (r.objects ref).node_id ≡ id
  pub known : (r.objects ref).authenticated ≡ true
  pub pinged : (r.objects ref).last_ping_time ≡ now

ensure_object-lookup :
    (r : Registry) (now connection id : ℕ)
    → let (found, ref) = ensure_object r now connection id in
      lookup connection found.nodes_by_connection ≡ some ref
unfolding ensure_object new_node
ensure_object-lookup r now connection id =
    ground (arith, lookup-insert connection connection r.next_object r.nodes_by_connection)

drop_old-lookup :
    (r : Registry) (connection id : ℕ)
    → lookup connection (drop_old r connection id).nodes_by_connection
      ≡ lookup connection r.nodes_by_connection
unfolding drop_old
drop_old-lookup r connection id = elim (Option-cases (lookup id r.nodes_by_id)) [
  | inl e ↦ ground arith
  | inr (old, e) ↦
      ground (arith, lookup-erase (r.objects old).connection connection r.nodes_by_connection)
]

pub authenticate-Enrolled :
    (r : Registry) (now connection : ℕ) (c : Credentials)
    → (ref : ℕ) × Enrolled connection c.node_id now ref (authenticate r now connection c)
      × (((authenticate r now connection c).objects ref).manifest_received ≡ false)
unfolding authenticate admit
authenticate-Enrolled r now connection c =
    let (found, ref) = ensure_object r now connection c.node_id in
    let cleared = drop_old found connection c.node_id in
    (
      ref,
      record {
        by_connection =
            drop_old-lookup found connection c.node_id
            ∙ ensure_object-lookup r now connection c.node_id;
        by_id = ground (arith, lookup-insert c.node_id c.node_id ref cleared.nodes_by_id);
        named = ground arith;
        known = ground arith;
        pinged = ground arith;
      },
      ground arith,
    )

module _ (connection id now ref : ℕ) (r : Registry) (e : Enrolled connection id now ref r) where
  pub update_capacity-Enrolled :
      (free : ℕ)
      → Enrolled connection id now ref (update_capacity r connection free)
        × (((update_capacity r connection free).objects ref).free_bytes ≡ some free)
        × (((update_capacity r connection free).objects ref).manifest_received
            ≡ (r.objects ref).manifest_received)
  unfolding update_capacity
  update_capacity-Enrolled free = (
    record {
      by_connection = ground (arith, e.by_connection);
      by_id = ground (arith, e.by_id);
      named = ground (arith, e.by_connection, e.named);
      known = ground (arith, e.by_connection, e.known);
      pinged = ground (arith, e.by_connection, e.pinged);
    },
    ground (arith, e.by_connection),
    ground (arith, e.by_connection),
  )

  pub set_manifest-Enrolled :
      (shas : List Text)
      → Enrolled connection id now ref (set_manifest r (some id) shas).0
        × (((set_manifest r (some id) shas).0.objects ref).free_bytes ≡ (r.objects ref).free_bytes)
  unfolding set_manifest
  set_manifest-Enrolled shas = (
    record {
      by_connection = ground (arith, e.by_connection);
      by_id = ground (arith, e.by_id);
      named = ground (arith, e.by_id, e.named);
      known = ground (arith, e.by_id, e.known);
      pinged = ground (arith, e.by_id, e.pinged);
    },
    ground (arith, e.by_id),
  )

  -- A node with an id holds what its manifest reports.
  pub set_manifest-lists :
      (shas : List Text)
      → not (id == 0) ≡ true
      → (((set_manifest r (some id) shas).0.objects ref).manifest_received ≡ true)
        × ((norm : Text)
            → member norm ((set_manifest r (some id) shas).0.objects ref).files
              ≡ reported norm shas)
  unfolding set_manifest member
  set_manifest-lists shas h = (
    ground (arith, e.by_id),
    λ norm. stored norm ∙ member-add_each norm shas [] ∙ nothing_else norm,
  )
    where
      stored :
          (norm : Text)
          → member norm ((set_manifest r (some id) shas).0.objects ref).files
            ≡ member norm (add_each shas [])
      stored norm = ground (arith, e.by_id)

      nothing_else : (norm : Text) → reported norm shas || member norm [] ≡ reported norm shas
      nothing_else norm = ground arith
