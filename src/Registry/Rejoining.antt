-- ===== src/Registry/Rejoining.antt =====
-- What the events that reach the registry do to a node that is charged for every reservation on its id.
use lan_secure_file_system.Common.{
  ℕ, suc, zero, ◌+◌, ◌≡◌, ◌⊎◌, inl, inr, false, Option, none, some, List, Text, lookup, insert,
  count_values-insert, lookup-insert, lookup-erase, arith, ◌==◌, Option-cases, Bool-cases, values,
}
use lan_secure_file_system.Registry.{Registry, Node, write}
use lan_secure_file_system.Registry.Connections.{
  create, Credentials, add_connection, ensure_object, drop_old, admit, authenticate,
  remove_connection, heartbeat, update_capacity,
}
use lan_secure_file_system.Registry.Manifest.{set_manifest, apply_manifest_delta, mark_file_added}
use lan_secure_file_system.Registry.Balancing.{
  reap_expired, release_existing, reserve, release_reservation, select_for_upload, pick, eligible,
  is_eligible,
}
use lan_secure_file_system.Registry.Selection.{pick-Chosen, Chosen-At, get_elem?-keep}
use lan_secure_file_system.Registry.Slots.{
  IsSound, held, release_existing-IsSound, lookup-release_existing, reap_expired-IsSound,
}
use lan_secure_file_system.Registry.Charging.{
  nodes_by_id-release_existing, lookup_of_At, release_reservation-held, release_reservation-free,
}
use lan_secure_file_system.Registry.Upkeep.{drop_old-SameSlots, SameSlots-IsSound}
use lan_secure_file_system.Registry.History.{ensure_object-fresh}
use lan_secure_file_system.Registry.Exactness.{
  IsCharged, SameSlots-IsCharged, release_locked-IsCharged, reap_expired-IsCharged,
  release_existing-IsCharged,
}

module _ (k : ℕ) where
  charge-IsCharged :
      (r : Registry) (now ttl ref id home : ℕ)
      → IsSound r
      → lookup home r.nodes_by_id ≡ some ref
      → lookup id r.reservations ≡ none
      → IsCharged k r
      → IsCharged k (
          let node = r.objects ref in
          record r {
            reservations =
                insert id
                  (record { id = id; node_id = node.node_id; expires_at = now + ttl })
                  r.reservations;
            objects =
                write ref (record node { active_uploads = suc node.active_uploads }) r.objects;
          })
  charge-IsCharged r now ttl ref id home sound is free c q e = ground (
    arith,
    c q,
    sound.keyed k q,
    sound.keyed home ref,
    count_values-insert (λ w. w.node_id == k) id
        (record { id = id; node_id = (r.objects ref).node_id; expires_at = now + ttl })
        r.reservations free,
  )

  reserve-IsCharged :
      (r : Registry) (now ttl ref id home : ℕ)
      → IsSound r
      → lookup home r.nodes_by_id ≡ some ref
      → IsCharged k r
      → IsCharged k (reserve r now ttl ref id)
  unfolding reserve
  reserve-IsCharged r now ttl ref id home sound is c =
      charge-IsCharged (release_existing r id) now ttl ref id home
        (release_existing-IsSound r id sound) (rw (nodes_by_id-release_existing r id) is)
        (lookup-release_existing r id sound) (release_existing-IsCharged k r id sound c)

  pub select-IsCharged :
      (r : Registry) (now : ℕ) (draws : ℕ × ℕ) (id : Option ℕ) (ttl : ℕ)
      → IsSound r
      → IsCharged k r
      → IsCharged k (select_for_upload r now draws id ttl).0
  unfolding select_for_upload
  select-IsCharged r now draws none ttl sound c =
      let reaped_too = reap_expired-IsCharged k r now sound c in
      elim (Option-cases (pick (reap_expired r now) (eligible (reap_expired r now) now) draws)) [
        | inl e ↦ rw (e, select_for_upload) reaped_too
        | inr (ref, e) ↦ rw (e, select_for_upload) reaped_too
      ]
  select-IsCharged r now draws (some id) ttl sound c =
      let reaped = reap_expired r now in
      let ok = reap_expired-IsSound r now sound in
      let reaped_too = reap_expired-IsCharged k r now sound c in
      elim (Option-cases (pick reaped (eligible reaped now) draws)) [
        | inl e ↦ rw (e, select_for_upload) reaped_too
        | inr (ref, e) ↦
            let at =
              Chosen-At reaped (eligible reaped now)
                (pick-Chosen reaped (eligible reaped now) draws ref e) in
            let kept =
              get_elem?-keep (is_eligible reaped now) (values reaped.nodes_by_id) at.0 at.1 in
            let home = lookup_of_At reaped.nodes_by_id kept.1.0 ok.ids_unique kept.1.1 in
            let then_reserved =
              reserve-IsCharged reaped now ttl ref id home.0 ok home.1 reaped_too in
            elim (Bool-cases (id == 0)) [
              | inl z ↦ rw (e, select_for_upload, z) reaped_too
              | inr z ↦ rw (e, select_for_upload, z) then_reserved
            ]
      ]

  pub release_reservation-IsCharged :
      (r : Registry) (id : Option ℕ)
      → IsSound r
      → IsCharged k r
      → IsCharged k (release_reservation r id).0
  release_reservation-IsCharged r none sound c = unfold release_reservation in c
  release_reservation-IsCharged r (some zero) sound c = unfold release_reservation in c
  release_reservation-IsCharged r (some (suc n)) sound c =
      elim (Option-cases (lookup (suc n) r.reservations)) [
        | inl e ↦ rw (release_reservation-free r (suc n) e) c
        | inr (v, e) ↦
            let same : v.id ≡ suc n = sound.tagged (suc n) v e in
            rw (release_reservation-held r (suc n) v (omega arith) same e)
              (release_locked-IsCharged k r v sound (ground arith) c)
      ]

  create-IsCharged :
      (r : Registry) (node : Node) → IsSound r → IsCharged k r → IsCharged k (create r node)
  create-IsCharged r node sound c ref e = ground (arith, c ref, sound.id_allocated k ref)

  pub add_connection-IsCharged :
      (r : Registry) (now connection id : ℕ)
      → IsSound r
      → IsCharged k r
      → IsCharged k (add_connection r now connection id)
  unfolding add_connection
  add_connection-IsCharged r now connection id sound c = create-IsCharged r _ sound c

  ensure_object-IsCharged :
      (r : Registry) (now connection id : ℕ)
      → IsSound r
      → IsCharged k r
      → IsCharged k (ensure_object r now connection id).0
  unfolding ensure_object
  ensure_object-IsCharged r now connection id sound c =
      elim (Option-cases (lookup connection r.nodes_by_connection)) [
        | inl e ↦ rw (e, ensure_object) (create-IsCharged r _ sound c)
        | inr (ref, e) ↦ rw (e, ensure_object) c
      ]

  register-IsCharged :
      (r : Registry) (ref now : ℕ) (c : Credentials)
      → IsSound r
      → (r.objects ref).authenticated ≡ false
      → (c.node_id == k ≡ false) ⊎ (held k r.reservations ≡ 0)
      → IsCharged k r
      → IsCharged k (record r {
        objects = write ref (admit (r.objects ref) c now) r.objects;
        nodes_by_id = insert c.node_id ref r.nodes_by_id;
      })
  unfolding admit
  register-IsCharged r ref now c sound fresh (inl other) charged q e =
      ground (arith, charged q, sound.known k q, lookup-insert c.node_id k ref r.nodes_by_id)
  register-IsCharged r ref now c sound fresh (inr idle) charged q e = omega (arith, idle)

  pub remove_connection-IsCharged :
      (r : Registry) (connection : ℕ) → IsCharged k r → IsCharged k (remove_connection r connection)
  unfolding remove_connection
  remove_connection-IsCharged r connection c ref e =
      elim (Option-cases (lookup connection r.nodes_by_connection)) [
        | inl f ↦ ground (arith, c ref)
        | inr (own, f) ↦ ground (arith, c ref, lookup-erase (r.objects own).node_id k r.nodes_by_id)
      ]

  pub heartbeat-IsCharged :
      (r : Registry) (now connection : ℕ) (free : Option ℕ)
      → IsCharged k r
      → IsCharged k (heartbeat r now connection free)
  unfolding heartbeat
  heartbeat-IsCharged r now connection free c ref e = ground (arith, c ref)

  pub update_capacity-IsCharged :
      (r : Registry) (connection free : ℕ)
      → IsCharged k r
      → IsCharged k (update_capacity r connection free)
  unfolding update_capacity
  update_capacity-IsCharged r connection free c ref e = ground (arith, c ref)

  pub set_manifest-IsCharged :
      (r : Registry) (id : Option ℕ) (shas : List Text)
      → IsCharged k r
      → IsCharged k (set_manifest r id shas).0
  unfolding set_manifest
  set_manifest-IsCharged r id shas c ref e = ground (arith, c ref)

  pub apply_manifest_delta-IsCharged :
      (r : Registry) (id : Option ℕ) (added removed : List Text)
      → IsCharged k r
      → IsCharged k (apply_manifest_delta r id added removed).0
  unfolding apply_manifest_delta
  apply_manifest_delta-IsCharged r id added removed c ref e = ground (arith, c ref)

  pub mark_file_added-IsCharged :
      (r : Registry) (id : Option ℕ) (sha : Option Text)
      → IsCharged k r
      → IsCharged k (mark_file_added r id sha)
  unfolding mark_file_added
  mark_file_added-IsCharged r id sha c ref e = ground (arith, c ref)

  pub authenticate-IsCharged :
      (r : Registry) (now connection : ℕ) (c : Credentials)
      → IsSound r
      → ((ref : ℕ)
          → lookup connection r.nodes_by_connection ≡ some ref
          → (r.objects ref).authenticated ≡ false)
      → (c.node_id == k ≡ false) ⊎ (held k r.reservations ≡ 0)
      → IsCharged k r
      → IsCharged k (authenticate r now connection c)
  authenticate-IsCharged r now connection c sound new free charged =
      let found = ensure_object r now connection c.node_id in
      let (well, below, fresh) = ensure_object-fresh r now connection c.node_id sound new in
      let same = drop_old-SameSlots found.0 connection c.node_id in
      let kept : found.0.reservations ≡ r.reservations = unfold ensure_object in ground arith in
      unfold authenticate in
      register-IsCharged (drop_old found.0 connection c.node_id) found.1 now c
        (SameSlots-IsSound found.0 _ same well) (rw (same.same_auth found.1) fresh)
        (rw (same.same_reservations, kept) free)
        (SameSlots-IsCharged k found.0 _ same
          (ensure_object-IsCharged r now connection c.node_id sound charged))
