-- ===== src/Registry/Exactness.antt =====
-- The other half of the accounting of slots: a node is charged for every reservation on its id.
use lan_secure_file_system.Common.{
  ℕ, ◌≤◌, ◌≡◌, refl, inl, inr, Bool, false, none, some, List, [], ◌∷◌, Dict, lookup, erase, Unique,
  count_values-erase, lookup-erase, arith, ◌==◌, Option-cases, Bool-cases, keep, values, any,
}
use lan_secure_file_system.Registry.{Registry, Reservation}
use lan_secure_file_system.Registry.Balancing.{
  release_locked, release_each, reap_expired, release_existing, is_expired,
}
use lan_secure_file_system.Registry.Slots.{
  IsSound, held, Tagged, Tagged-tail, release_locked-IsSound, reservations-release_locked,
}
use lan_secure_file_system.Registry.Upkeep.{SameSlots}

-- The node under an id is charged for at least the reservations on the id.
abbrev pub IsCharged : ℕ → Registry → Type 0
IsCharged k r =
    (ref : ℕ)
    → lookup k r.nodes_by_id ≡ some ref
    → held k r.reservations ≤ (r.objects ref).active_uploads

module _ (k : ℕ) where
  pub SameSlots-IsCharged : (r q : Registry) → SameSlots r q → IsCharged k r → IsCharged k q
  SameSlots-IsCharged r q s c ref e = ground (arith, s.same_load ref, c ref)

  pub release_locked-IsCharged :
      (r : Registry) (v : Reservation)
      → IsSound r
      → lookup v.id r.reservations ≡ some v
      → IsCharged k r
      → IsCharged k (release_locked r v)
  unfolding release_locked
  release_locked-IsCharged r v sound h c ref e = ground (
    arith,
    c ref,
    sound.keyed k ref,
    sound.keyed v.node_id ref,
    count_values-erase (λ w. w.node_id == k) v.id v r.reservations sound.unique h,
  )

  -- Reservations under distinct ids, all of them still filed
  abbrev AllFiled : Dict Reservation → List Reservation → Type 0
  AllFiled d [] = Unit {0}
  AllFiled d (v ∷ vs) =
      (lookup v.id d ≡ some v) × (any (λ w. w.id == v.id) vs ≡ false) × AllFiled d vs

  AllFiled-erase :
      (j : ℕ) (d : Dict Reservation) (vs : List Reservation)
      → any (λ w. w.id == j) vs ≡ false
      → AllFiled d vs
      → AllFiled (erase j d) vs
  AllFiled-erase j d [] e h = tt
  AllFiled-erase j d (v ∷ vs) e h =
      (ground (arith, lookup-erase j v.id d, h.0), h.1, AllFiled-erase j d vs (ground arith) h.2)

  AllFiled-cons :
      (j : ℕ) (w : Reservation) (d : Dict Reservation) (vs : List Reservation)
      → lookup j d ≡ none
      → AllFiled d vs
      → AllFiled ((j, w) ∷ d) vs
  AllFiled-cons j w d [] e h = tt
  AllFiled-cons j w d (v ∷ vs) e h = (ground (arith, h.0), h.1, AllFiled-cons j w d vs e h.2)

  -- No value stands under an id that is no key.
  values-apart :
      (p : Reservation → Bool) (j : ℕ) (d : Dict Reservation)
      → Unique d
      → Tagged d
      → lookup j d ≡ none
      → any (λ w. w.id == j) (keep p (values d)) ≡ false
  values-apart p j [] u t e = refl
  values-apart p j ((i, w) ∷ d) u t e =
      let id : w.id ≡ i = t i w (ground arith) in
      ground (arith, values-apart p j d u.1 (Tagged-tail i w d u.0 t))

  AllFiled-values :
      (p : Reservation → Bool) (d : Dict Reservation)
      → Unique d
      → Tagged d
      → AllFiled d (keep p (values d))
  AllFiled-values p [] u t = tt
  AllFiled-values p ((j, w) ∷ d) u t =
      let rest = Tagged-tail j w d u.0 t in
      let ih = AllFiled-cons j w d (keep p (values d)) u.0 (AllFiled-values p d u.1 rest) in
      let id : w.id ≡ j = t j w (ground arith) in
      let apart = values-apart p j d u.1 rest u.0 in
      elim (Bool-cases (p w)) [ inl e ↦ rw e (ground arith, rw id apart, ih) | inr e ↦ rw e ih ]

  release_each-IsCharged :
      (r : Registry) (vs : List Reservation)
      → IsSound r
      → AllFiled r.reservations vs
      → IsCharged k r
      → IsCharged k (release_each r vs)
  unfolding release_each
  release_each-IsCharged r [] sound h c = c
  release_each-IsCharged r (v ∷ vs) sound h c =
      release_each-IsCharged (release_locked r v) vs (release_locked-IsSound r sound v h.0)
        (rw (reservations-release_locked r v) (AllFiled-erase v.id r.reservations vs h.1 h.2))
        (release_locked-IsCharged r v sound h.0 c)

  pub reap_expired-IsCharged :
      (r : Registry) (now : ℕ) → IsSound r → IsCharged k r → IsCharged k (reap_expired r now)
  unfolding reap_expired
  reap_expired-IsCharged r now sound =
      release_each-IsCharged r _ sound
        (AllFiled-values (is_expired now) r.reservations sound.unique sound.tagged)

  pub release_existing-IsCharged :
      (r : Registry) (id : ℕ) → IsSound r → IsCharged k r → IsCharged k (release_existing r id)
  unfolding release_existing
  release_existing-IsCharged r id sound c = elim (Option-cases (lookup id r.reservations)) [
    | inl e ↦ rw (e, release_existing) c
    | inr (v, e) ↦
        let same : v.id ≡ id = sound.tagged id v e in
        rw (e, release_existing) (release_locked-IsCharged r v sound (ground arith) c)
  ]
