-- ===== src/Registry/Charging.antt =====
-- The slots that a selection charges and a release gives back.
use lan_secure_file_system.Common.{
  ℕ, suc, ◌+◌, ◌≡◌, refl, ◌≢◌, inl, inr, true, false, Option, none, some, [], ◌∷◌, Dict, lookup,
  insert, Unique, insert-Unique, count_values-insert, lookup-insert, arith, ◌==◌, Option-cases,
  values, get_elem?, zero,
}
use lan_secure_file_system.Registry.{Registry, Reservation, write}
use lan_secure_file_system.Registry.Balancing.{
  release_locked, release_reservation, reap_expired, reserve, release_existing, select_for_upload,
  pick, eligible, is_eligible,
}
use lan_secure_file_system.Registry.Selection.{pick-Chosen, Chosen-At, get_elem?-keep}
use lan_secure_file_system.Registry.Slots.{
  IsSound, release_locked-IsSound, release_existing-IsSound, lookup-release_existing,
  reap_expired-IsSound,
}

-- A charge with its reservation: the node is the one that its id leads to.
module _ (r : Registry) (sound : IsSound r) (now ttl ref id : ℕ) where
  charge : Registry
  charge =
      let node = r.objects ref in
      record r {
        reservations =
            insert id (record { id = id; node_id = node.node_id; expires_at = now + ttl })
              r.reservations;
        objects = write ref (record node { active_uploads = suc node.active_uploads }) r.objects;
      }

  charge-IsSound :
      (k : ℕ) → lookup k r.nodes_by_id ≡ some ref → lookup id r.reservations ≡ none → IsSound charge
  unfolding charge
  charge-IsSound key home free = record {
    keyed = λ k q e. ground (arith, sound.keyed k q);
    known = λ k q e. ground (arith, sound.known k q);
    id_allocated = λ k q e. ground (arith, sound.id_allocated k q);
    connection_allocated = λ c q e. ground (arith, sound.connection_allocated c q);
    idle = λ q e. ground (arith, sound.idle q, sound.known key ref);
    tagged = λ i w e. ground (
      arith,
      sound.tagged i w,
      lookup-insert id i
          (record { id = id; node_id = (r.objects ref).node_id; expires_at = now + ttl })
          r.reservations,
    );
    unique = insert-Unique id _ r.reservations sound.unique;
    ids_unique = sound.ids_unique;
    bounded = λ k q e. ground (
      arith,
      sound.bounded k q,
      sound.keyed k q,
      count_values-insert (λ w. w.node_id == k) id
          (record { id = id; node_id = (r.objects ref).node_id; expires_at = now + ttl })
          r.reservations free,
    );
  }

nodes_by_id-release_locked :
    (r : Registry) (v : Reservation) → (release_locked r v).nodes_by_id ≡ r.nodes_by_id
unfolding release_locked
nodes_by_id-release_locked r v = ground arith

pub nodes_by_id-release_existing :
    (r : Registry) (id : ℕ) → (release_existing r id).nodes_by_id ≡ r.nodes_by_id
unfolding release_existing
nodes_by_id-release_existing r id = elim (Option-cases (lookup id r.reservations)) [
  | inl e ↦ rw (e, release_existing)
  | inr (v, e) ↦ rw (e, release_existing) (nodes_by_id-release_locked r v)
]

reserve-IsSound :
    (r : Registry) (now ttl ref id k : ℕ)
    → IsSound r
    → lookup k r.nodes_by_id ≡ some ref
    → IsSound (reserve r now ttl ref id)
unfolding reserve charge
reserve-IsSound r now ttl ref id k sound home =
    charge-IsSound (release_existing r id) (release_existing-IsSound r id sound) now ttl ref id k
      (rw (nodes_by_id-release_existing r id) home) (lookup-release_existing r id sound)

-- A value of a dictionary stands under some key.
pub lookup_of_At :
    (d : Dict ℕ) (j : ℕ) {ref : ℕ}
    → Unique d
    → get_elem? (values d) j ≡ some ref
    → (k : ℕ) × (lookup k d ≡ some ref)
lookup_of_At [] j u h = cc
lookup_of_At ((k, q) ∷ d) zero u h = (k, ground arith)
lookup_of_At ((k, q) ∷ d) (suc j) {ref} u h =
    let (i, e) = lookup_of_At d j {ref = ref} u.1 h in (i, ground arith)

pub select_for_upload-IsSound :
    (r : Registry) (now : ℕ) (draws : ℕ × ℕ) (id : Option ℕ) (ttl : ℕ)
    → IsSound r
    → IsSound (select_for_upload r now draws id ttl).0
unfolding select_for_upload
select_for_upload-IsSound r now draws none ttl sound =
    ground (arith, reap_expired-IsSound r now sound)
select_for_upload-IsSound r now draws (some id) ttl sound =
    let reaped = reap_expired r now in
    let ok = reap_expired-IsSound r now sound in
    elim (Option-cases (pick reaped (eligible reaped now) draws)) [
      | inl e ↦ rw (e, select_for_upload) ok
      | inr (ref, e) ↦
          let chosen = pick-Chosen reaped (eligible reaped now) draws ref e in
          let at = Chosen-At reaped (eligible reaped now) chosen in
          let kept =
            get_elem?-keep (is_eligible reaped now) (values reaped.nodes_by_id) at.0 at.1 in
          let home = lookup_of_At reaped.nodes_by_id kept.1.0 ok.ids_unique kept.1.1 in
          rw (e, select_for_upload)
            (ground (arith, ok, reserve-IsSound reaped now ttl ref id home.0 ok home.1))
    ]

-- What `release_reservation` does on a slot that is held.
pub release_reservation-held :
    (r : Registry) (id : ℕ) (v : Reservation)
    → id ≢ 0
    → v.id ≡ id
    → lookup id r.reservations ≡ some v
    → release_reservation r (some id) ≡ (release_locked r v, true)
unfolding release_reservation release_locked
release_reservation-held r id v set same e = ground arith

-- And on one that is not, or without an id.
pub release_reservation-free :
    (r : Registry) (id : ℕ)
    → lookup id r.reservations ≡ none
    → release_reservation r (some id) ≡ (r, false)
unfolding release_reservation
release_reservation-free r id e = ground arith

release_reservation-zero : (r : Registry) → release_reservation r (some 0) ≡ (r, false)
unfolding release_reservation
release_reservation-zero r = refl

pub release_reservation-IsSound :
    (r : Registry) (id : Option ℕ) → IsSound r → IsSound (release_reservation r id).0
release_reservation-IsSound r none sound = unfold release_reservation in sound
release_reservation-IsSound r (some zero) sound = rw (release_reservation-zero r) sound
release_reservation-IsSound r (some (suc n)) sound =
    elim (Option-cases (lookup (suc n) r.reservations)) [
      | inl e ↦ rw (release_reservation-free r (suc n) e) sound
      | inr (v, e) ↦
          let same : v.id ≡ suc n = sound.tagged (suc n) v e in
          rw (release_reservation-held r (suc n) v (omega arith) same e)
            (release_locked-IsSound r sound v (ground arith))
    ]
