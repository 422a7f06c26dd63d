-- ===== src/Registry/History.antt =====
-- The registry over time: every event that reaches it keeps the accounting of slots.
use lan_secure_file_system.Common.{
  ℕ, ◌≤◌, ◌<◌, ◌≡◌, refl, inl, inr, true, false, Option, some, List, Text, lookup, insert, erase,
  insert-Unique, erase-Unique, lookup-insert, lookup-erase, arith, Option-cases,
}
use lan_secure_file_system.Registry.{Registry, Node, write, new_registry, new_node}
use lan_secure_file_system.Registry.Connections.{
  create, Credentials, add_connection, ensure_object, drop_old, admit, authenticate,
  remove_connection, heartbeat, update_capacity,
}
use lan_secure_file_system.Registry.Manifest.{set_manifest, apply_manifest_delta, mark_file_added}
use lan_secure_file_system.Registry.Balancing.{select_for_upload, release_reservation}
use lan_secure_file_system.Registry.Slots.{IsSound, held, new_registry-IsSound}
use lan_secure_file_system.Registry.Charging.{
  select_for_upload-IsSound, release_reservation-IsSound,
}
use lan_secure_file_system.Registry.Upkeep.{
  SameSlots-IsSound, heartbeat-IsSound, update_capacity-IsSound, set_manifest-IsSound,
  apply_manifest_delta-IsSound, mark_file_added-IsSound, drop_old-SameSlots,
}

-- A new object, which no table named before, carries no upload.
create-IsSound :
    (r : Registry) (node : Node)
    → IsSound r
    → node.authenticated ≡ false
    → node.active_uploads ≡ 0
    → IsSound (create r node)
create-IsSound r node v ha hl = record {
  keyed = λ k ref e. ground (arith, v.keyed k ref, v.id_allocated k ref);
  known = λ k ref e. ground (arith, v.known k ref, v.id_allocated k ref);
  id_allocated = λ k ref e. ground (arith, v.id_allocated k ref);
  connection_allocated = λ c ref e. ground (
    arith,
    v.connection_allocated c ref,
    lookup-insert node.connection c r.next_object r.nodes_by_connection,
  );
  idle = λ ref e. ground (arith, v.idle ref);
  tagged = v.tagged;
  unique = v.unique;
  ids_unique = v.ids_unique;
  bounded = λ k ref e. ground (arith, v.bounded k ref, v.id_allocated k ref);
}

add_connection-IsSound :
    (r : Registry) (now connection id : ℕ)
    → IsSound r
    → IsSound (add_connection r now connection id)
unfolding add_connection
add_connection-IsSound r now connection id v = create-IsSound r _ v refl refl

-- An object that has not authenticated takes a node id.
register-IsSound :
    (r : Registry) (ref now : ℕ) (c : Credentials)
    → IsSound r
    → ref < r.next_object
    → (r.objects ref).authenticated ≡ false
    → IsSound (record r {
      objects = write ref (admit (r.objects ref) c now) r.objects;
      nodes_by_id = insert c.node_id ref r.nodes_by_id;
    })
unfolding admit
register-IsSound r ref now c v below fresh = record {
  keyed = λ k q e.
      ground (arith, v.keyed k q, v.known k q, lookup-insert c.node_id k ref r.nodes_by_id);
  known = λ k q e. ground (arith, v.known k q, lookup-insert c.node_id k ref r.nodes_by_id);
  id_allocated =
      λ k q e. ground (arith, v.id_allocated k q, lookup-insert c.node_id k ref r.nodes_by_id);
  connection_allocated = λ k q e. ground (arith, v.connection_allocated k q);
  idle = λ q e. ground (arith, v.idle q);
  tagged = v.tagged;
  unique = v.unique;
  ids_unique = insert-Unique c.node_id ref r.nodes_by_id v.ids_unique;
  bounded = λ k q e. ground (
    arith,
    v.bounded k q,
    v.known k q,
    v.idle ref fresh,
    lookup-insert c.node_id k ref r.nodes_by_id,
  );
}

-- The connection has not authenticated yet: the registry has no object for it, or a fresh one.
abbrev pub IsNew : Registry → ℕ → Type 0
IsNew r connection =
    (ref : ℕ)
    → lookup connection r.nodes_by_connection ≡ some ref
    → (r.objects ref).authenticated ≡ false

pub ensure_object-fresh :
    (r : Registry) (now connection id : ℕ)
    → IsSound r
    → IsNew r connection
    → let (q, ref) = ensure_object r now connection id in
      IsSound q × (ref < q.next_object) × ((q.objects ref).authenticated ≡ false)
unfolding ensure_object
ensure_object-fresh r now connection id v new =
    elim (Option-cases (lookup connection r.nodes_by_connection)) [
      | inl e ↦
          rw (e, ensure_object)
            (
              create-IsSound r (new_node connection id now) v (unfold new_node in refl)
                  (unfold new_node in refl),
              omega arith,
              unfold new_node in ground arith,
            )
      | inr (ref, e) ↦ rw (e, ensure_object) (v, v.connection_allocated connection ref e, new ref e)
    ]

authenticate-IsSound :
    (r : Registry) (now connection : ℕ) (c : Credentials)
    → IsSound r
    → IsNew r connection
    → IsSound (authenticate r now connection c)
authenticate-IsSound r now connection c v new =
    let found = ensure_object r now connection c.node_id in
    let (sound, below, fresh) = ensure_object-fresh r now connection c.node_id v new in
    let same = drop_old-SameSlots found.0 connection c.node_id in
    unfold authenticate in
    register-IsSound (drop_old found.0 connection c.node_id) found.1 now c
      (SameSlots-IsSound found.0 _ same sound) (rw same.same_next below)
      (rw (same.same_auth found.1) fresh)

erase_connection-IsSound :
    (r : Registry) (connection : ℕ)
    → IsSound r
    → IsSound (record r { nodes_by_connection = erase connection r.nodes_by_connection })
erase_connection-IsSound r connection v = record {
  keyed = v.keyed;
  known = v.known;
  id_allocated = v.id_allocated;
  connection_allocated = λ c ref e.
      ground (arith, v.connection_allocated c ref, lookup-erase connection c r.nodes_by_connection);
  idle = v.idle;
  tagged = v.tagged;
  unique = v.unique;
  ids_unique = v.ids_unique;
  bounded = v.bounded;
}

erase_id-IsSound :
    (r : Registry) (id : ℕ)
    → IsSound r
    → IsSound (record r { nodes_by_id = erase id r.nodes_by_id })
erase_id-IsSound r id v = record {
  keyed = λ k ref e. ground (arith, v.keyed k ref, lookup-erase id k r.nodes_by_id);
  known = λ k ref e. ground (arith, v.known k ref, lookup-erase id k r.nodes_by_id);
  id_allocated = λ k ref e. ground (arith, v.id_allocated k ref, lookup-erase id k r.nodes_by_id);
  connection_allocated = v.connection_allocated;
  idle = v.idle;
  tagged = v.tagged;
  unique = v.unique;
  ids_unique = erase-Unique id r.nodes_by_id v.ids_unique;
  bounded = λ k ref e. ground (arith, v.bounded k ref, lookup-erase id k r.nodes_by_id);
}

remove_connection-IsSound :
    (r : Registry) (connection : ℕ) → IsSound r → IsSound (remove_connection r connection)
unfolding remove_connection
remove_connection-IsSound r connection v =
    elim (Option-cases (lookup connection r.nodes_by_connection)) [
      | inl e ↦ rw (e, remove_connection) v
      | inr (ref, e) ↦
          let id = (r.objects ref).node_id in
          let rest = erase_connection-IsSound r connection v in
          elim (Option-cases (lookup id r.nodes_by_id)) [
            | inl f ↦ rw (e, remove_connection, f) rest
            | inr (owner, f) ↦
                rw (e, remove_connection, f)
                  (ground (
                    arith,
                    rest,
                    erase_id-IsSound
                        (record r { nodes_by_connection = erase connection r.nodes_by_connection })
                        id rest,
                  ))
          ]
    ]

-- What may happen to the registry, at any time and in any order. A connection authenticates once, as
-- the storage nodes do.
pub data Step (r : Registry) : Registry → Type 0 where
  connects : (now connection id : ℕ) → Step r (add_connection r now connection id)
  authenticates :
      (now connection : ℕ) (c : Credentials)
      → IsNew r connection
      → Step r (authenticate r now connection c)
  disconnects : (connection : ℕ) → Step r (remove_connection r connection)
  pings : (now connection : ℕ) (free : Option ℕ) → Step r (heartbeat r now connection free)
  reports : (connection free : ℕ) → Step r (update_capacity r connection free)
  lists : (id : Option ℕ) (shas : List Text) → Step r (set_manifest r id shas).0
  amends :
      (id : Option ℕ) (added removed : List Text)
      → Step r (apply_manifest_delta r id added removed).0
  stores : (id : Option ℕ) (sha : Option Text) → Step r (mark_file_added r id sha)
  selects :
      (now : ℕ) (draws : ℕ × ℕ) (id : Option ℕ) (ttl : ℕ)
      → Step r (select_for_upload r now draws id ttl).0
  releases : (id : Option ℕ) → Step r (release_reservation r id).0

pub Step-IsSound : {r q : Registry} → Step r q → IsSound r → IsSound q
Step-IsSound {r} (connects now connection id) v = add_connection-IsSound r now connection id v
Step-IsSound {r} (authenticates now connection c new) v =
    authenticate-IsSound r now connection c v new
Step-IsSound {r} (disconnects connection) v = remove_connection-IsSound r connection v
Step-IsSound {r} (pings now connection free) v = heartbeat-IsSound r now connection free v
Step-IsSound {r} (reports connection free) v = update_capacity-IsSound r connection free v
Step-IsSound {r} (lists id shas) v = set_manifest-IsSound r id shas v
Step-IsSound {r} (amends id added removed) v = apply_manifest_delta-IsSound r id added removed v
Step-IsSound {r} (stores id sha) v = mark_file_added-IsSound r id sha v
Step-IsSound {r} (selects now draws id ttl) v = select_for_upload-IsSound r now draws id ttl v
Step-IsSound {r} (releases id) v = release_reservation-IsSound r id v

pub data Reach (r : Registry) : Registry → Type 0 where
  start : Reach r r
  next : {p q : Registry} → Reach r p → Step p q → Reach r q

pub Reach-trans : {r p q : Registry} → Reach r p → Reach p q → Reach r q
Reach-trans h start = h
Reach-trans h (next k s) = next (Reach-trans h k) s

pub Reach-IsSound : {r q : Registry} → IsSound r → Reach r q → IsSound q
Reach-IsSound v start = v
Reach-IsSound v (next h s) = Step-IsSound s (Reach-IsSound v h)

-- Whatever happened since the registry was made, where each connection authenticated once: an id
-- leads to an authenticated node of that id, and this node is charged for no more uploads than
-- there are reservations on the id.
pub active_uploads_bounded :
    (timeout min_free : ℕ) {r : Registry} (k ref : ℕ)
    → Reach (new_registry timeout min_free) r
    → lookup k r.nodes_by_id ≡ some ref
    → ((r.objects ref).node_id ≡ k)
      × ((r.objects ref).authenticated ≡ true)
      × ((r.objects ref).active_uploads ≤ held k r.reservations)
active_uploads_bounded timeout min_free k ref h e =
    let v = Reach-IsSound (new_registry-IsSound timeout min_free) h in
    (v.keyed k ref e, v.known k ref e, v.bounded k ref e)
