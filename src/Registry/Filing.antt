-- ===== src/Registry/Filing.antt =====
-- The reservation that `select_for_upload` files.
use lan_secure_file_system.Common.{
  ℕ, suc, ◌+◌, ◌≡◌, inl, inr, Option, none, some, arith, Bool-cases, Option-cases, ◌⊎◌, lookup,
  lookup-insert, ◌==◌,
}
use lan_secure_file_system.Registry.{Registry, Reservation}
use lan_secure_file_system.Registry.Balancing.{
  release_existing, release_locked, release_slot, reserve, pick, eligible, reap_expired,
  select_for_upload,
}

-- What a selection leaves in the registry: without an id for the upload nothing new; otherwise a reservation
-- under this id on the node, which is charged one upload more, where the upload had no slot before.
pub data Filed (r : Registry) (now ttl ref : ℕ) (after : Registry) : Option ℕ → Type 0 where
  no_id : after ≡ r → Filed r now ttl ref after none
  empty_id : after ≡ r → Filed r now ttl ref after (some 0)
  filed :
      (k : ℕ)
      → lookup k after.reservations
        ≡ some (record { id = k; node_id = (r.objects ref).node_id; expires_at = now + ttl })
      → ((v : Reservation) × (lookup k r.reservations ≡ some v))
        ⊎ ((after.objects ref).active_uploads ≡ suc (r.objects ref).active_uploads)
      → Filed r now ttl ref after (some k)

node_id-release_existing :
    (r : Registry) (ref k : ℕ)
    → ((release_existing r k).objects ref).node_id ≡ (r.objects ref).node_id
unfolding release_existing release_locked release_slot
node_id-release_existing r ref k = ground arith

reserve-Filed :
    (r : Registry) (now ttl ref k : ℕ) → Filed r now ttl ref (reserve r now ttl ref k) (some k)
unfolding reserve release_existing
reserve-Filed r now ttl ref k =
    filed k
      (ground (
        arith,
        lookup-insert k k
            (record {
              id = k;
              node_id = ((release_existing r k).objects ref).node_id;
              expires_at = now + ttl;
            })
            (release_existing r k).reservations,
        node_id-release_existing r ref k,
      ))
      (elim (Option-cases (lookup k r.reservations)) [
        | inl e ↦ inr (ground arith)
        | inr held ↦ inl held
      ])

pub select-Filed :
    (r : Registry) (now : ℕ) (draws : ℕ × ℕ) (id : Option ℕ) (ttl ref : ℕ)
    → pick (reap_expired r now) (eligible (reap_expired r now) now) draws ≡ some ref
    → Filed (reap_expired r now) now ttl ref (select_for_upload r now draws id ttl).0 id
unfolding select_for_upload
select-Filed r now draws none ttl ref h = no_id (ground arith)
select-Filed r now draws (some k) ttl ref h = elim (Bool-cases (k == 0)) [
  | inl e ↦ let zero_id : k ≡ 0 = ground arith in rw zero_id (empty_id (ground arith))
  | inr e ↦
      let same : (select_for_upload r now draws (some k) ttl).0
          ≡ reserve (reap_expired r now) now ttl ref k =
        ground arith in
      rw same (reserve-Filed (reap_expired r now) now ttl ref k)
]
