-- ===== src/Registry/Reservations.antt =====
-- What becomes of each reservation: expiry, retry and release.
use lan_secure_file_system.Common.{
  ℕ, zero, suc, ◌+◌, ◌≡◌, refl, ◌≢◌, inl, inr, Bool, true, false, Option, none, some, List, [], ◌∷◌,
  Dict, lookup, erase, Unique, lookup-insert, lookup-erase, arith, ◌==◌, leb, if◌then◌else◌,
  Option-cases, keep, values, ap, ◌∙◌,
}
use lan_secure_file_system.Registry.{Registry, Reservation}
use lan_secure_file_system.Registry.Balancing.{
  release_locked, release_reservation, release_each, reap_expired, reserve, is_expired,
  release_existing, select_for_upload,
}
use lan_secure_file_system.Registry.Slots.{
  Tagged-tail, IsSound, Tagged, reservations-release_locked, reap_expired-IsSound,
}
use lan_secure_file_system.Registry.Charging.{release_reservation-free, release_reservation-held}

abbrev erase_each : List Reservation → Dict Reservation → Dict Reservation
erase_each [] d = d
erase_each (v ∷ vs) d = erase_each vs (erase v.id d)

reservations-release_each :
    (r : Registry) (vs : List Reservation)
    → (release_each r vs).reservations ≡ erase_each vs r.reservations
unfolding release_each
reservations-release_each r [] = refl
reservations-release_each r (v ∷ vs) =
    reservations-release_each (release_locked r v) vs
    ∙ ap (erase_each vs) (reservations-release_locked r v)

-- The ids among some reservations.
abbrev has_id : ℕ → List Reservation → Bool
has_id i [] = false
has_id i (v ∷ vs) = if v.id == i then true else has_id i vs

lookup-erase_each :
    (i : ℕ) (vs : List Reservation) (d : Dict Reservation)
    → lookup i (erase_each vs d) ≡ (if has_id i vs then none else lookup i d)
lookup-erase_each i [] d = refl
lookup-erase_each i (v ∷ vs) d =
    ground (arith, lookup-erase_each i vs (erase v.id d), lookup-erase v.id i d)

-- Read through `lookup`, the ids that a filter keeps are those of the entries that pass it.
has_id-keep :
    (p : Reservation → Bool) (i : ℕ) (d : Dict Reservation)
    → Unique d
    → Tagged d
    → has_id i (keep p (values d)) ≡ (elim (lookup i d) [ none ↦ false | some v ↦ p v ])
has_id-keep p i [] u t = refl
has_id-keep p i ((j, w) ∷ d) u t =
    ground (arith, t j w, has_id-keep p i d u.1 (Tagged-tail j w d u.0 t))

-- Reaping drops exactly the reservations whose time is up, and leaves the others as they were.
pub reap_expired_exact :
    (r : Registry) (now i : ℕ)
    → IsSound r
    → lookup i (reap_expired r now).reservations ≡ (elim (lookup i r.reservations) [
      | none ↦ none
      | some v ↦ if leb v.expires_at now then none else some v
    ])
unfolding reap_expired
reap_expired_exact r now i v =
    let expired = keep (is_expired now) (values r.reservations) in
    ap (lookup i) (reservations-release_each r expired)
    ∙ lookup-erase_each i expired r.reservations
    ∙ ground (arith, has_id-keep (is_expired now) i r.reservations v.unique v.tagged)

lookup-release_existing_ne :
    (r : Registry) (id j : ℕ)
    → IsSound r
    → j ≢ id
    → lookup j (release_existing r id).reservations ≡ lookup j r.reservations
unfolding release_existing
lookup-release_existing_ne r id j v ne = elim (Option-cases (lookup id r.reservations)) [
  | inl e ↦ rw (e, release_existing)
  | inr (w, e) ↦
      let same : w.id ≡ id = v.tagged id w e in
      rw (e, release_existing)
        (rw (reservations-release_locked r w) (ground (arith, lookup-erase w.id j r.reservations)))
]

node_id-release_locked :
    (r : Registry) (v : Reservation) (ref : ℕ)
    → ((release_locked r v).objects ref).node_id ≡ (r.objects ref).node_id
unfolding release_locked
node_id-release_locked r v ref = ground arith

-- What `reserve` leaves under each id.
lookup-reserve :
    (r : Registry) (now ttl ref id j : ℕ)
    → IsSound r
    → lookup j (reserve r now ttl ref id).reservations ≡ (
        if id == j
        then some (record {
          id = id;
          node_id = ((reserve r now ttl ref id).objects ref).node_id;
          expires_at = now + ttl;
        })
        else lookup j r.reservations)
unfolding reserve
lookup-reserve r now ttl ref id j v = ground (
  arith,
  lookup-release_existing_ne r id j v,
  lookup-insert id j
      (record {
        id = id;
        node_id = ((release_existing r id).objects ref).node_id;
        expires_at = now + ttl;
      })
      (release_existing r id).reservations,
)

select_for_upload-reserve :
    (r : Registry) (now : ℕ) (draws : ℕ × ℕ) (id ttl ref : ℕ)
    → id ≢ 0
    → (select_for_upload r now draws (some id) ttl).1 ≡ some ref
    → select_for_upload r now draws (some id) ttl
      ≡ (reserve (reap_expired r now) now ttl ref id, some ref)
unfolding select_for_upload
select_for_upload-reserve r now draws id ttl ref ne h = ground arith

-- A selection for an upload with an id files one reservation under that id, on the node that it
-- returns and until `ttl` from now; every other reservation is the one that reaping left.
pub select_for_upload-reserves :
    (r : Registry) (now : ℕ) (draws : ℕ × ℕ) (id ttl ref j : ℕ)
    → IsSound r
    → id ≢ 0
    → (select_for_upload r now draws (some id) ttl).1 ≡ some ref
    → let q = (select_for_upload r now draws (some id) ttl).0 in
      lookup j q.reservations ≡ (
        if id == j
        then some (record { id = id; node_id = (q.objects ref).node_id; expires_at = now + ttl })
        else lookup j (reap_expired r now).reservations)
select_for_upload-reserves r now draws id ttl ref j v ne h =
    rw (select_for_upload-reserve r now draws id ttl ref ne h)
      (lookup-reserve (reap_expired r now) now ttl ref id j (reap_expired-IsSound r now v))

-- A slot is given back once: a second release of the same id changes nothing and says so.
pub release_reservation_twice :
    (r : Registry) (id : Option ℕ)
    → IsSound r
    → let q = (release_reservation r id).0 in release_reservation q id ≡ (q, false)
release_reservation_twice r none v = unfold release_reservation in refl
release_reservation_twice r (some zero) v = unfold release_reservation in refl
release_reservation_twice r (some (suc n)) v = elim (Option-cases (lookup (suc n) r.reservations)) [
  | inl e ↦ rw (release_reservation-free r (suc n) e) (release_reservation-free r (suc n) e)
  | inr (w, e) ↦
      let same : w.id ≡ suc n = v.tagged (suc n) w e in
      rw (release_reservation-held r (suc n) w (omega arith) same e) (
        release_reservation-free (release_locked r w) (suc n) (
          rw (reservations-release_locked r w)
            (ground (arith, lookup-erase w.id (suc n) r.reservations))))
]
