-- ===== src/Uploads/Slots.antt =====
-- What `_release_slot` does to the reservations and to the counters of the nodes.
use lan_secure_file_system.Common.{
  ℕ, ◌-◌, ◌≡◌, ◌⊎◌, inl, inr, false, true, not, ◌&&◌, none, some, lookup, lookup-erase, arith, ◌==◌,
  if◌then◌else◌, Bool-cases,
}
use lan_secure_file_system.Registry.{Registry, Reservation}
use lan_secure_file_system.Registry.Balancing.{release_slot, release_reservation}
use lan_secure_file_system.World.{World}
use lan_secure_file_system.Uploads.{released}

-- The reservation under an id is gone, the others are there, and the node of a reservation that was there is
-- charged one upload less.
pub record IsFree (id : ℕ) (r s : Registry) : Type 0 where
  pub reserved :
      (j : ℕ) → lookup j s.reservations ≡ (if id == j then none else lookup j r.reservations)
  pub charged :
      (v : Reservation) (ref : ℕ)
      → lookup id r.reservations ≡ some v
      → lookup v.node_id r.nodes_by_id ≡ some ref
      → (s.objects ref).active_uploads ≡ (r.objects ref).active_uploads - 1

-- The slot of an upload was released, as far as there is a registry and an id.
pub record Released (id : ℕ) (w q : World) : Type 0 where
  pub registry_after : q.registry ≡ released id w
  pub freed : (w.config.has_registry && not (id == 0) ≡ false) ⊎ IsFree id w.registry q.registry

release_reservation-IsFree :
    (r : Registry) (id : ℕ) → not (id == 0) ≡ true → IsFree id r (release_reservation r (some id)).0
unfolding release_reservation release_slot
release_reservation-IsFree r id h = record {
  reserved = λ j. ground (arith, lookup-erase id j r.reservations);
  charged = λ v ref e k. ground arith;
}

pub released-Released : {id : ℕ} {w q : World} → q.registry ≡ released id w → Released id w q
released-Released {id} {w} {q} e = record {
  registry_after = e;
  freed = elim (Bool-cases (w.config.has_registry && not (id == 0))) [
    | inr n ↦ inl n
    | inl y ↦
        let named : not (id == 0) ≡ true = ground arith in
        let same : released id w ≡ (release_reservation w.registry (some id)).0 = ground arith in
        inr (rw (e, same) (release_reservation-IsFree w.registry id named))
  ];
}
