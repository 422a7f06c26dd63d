-- ===== src/Registry/Slots.antt =====
-- The accounting of upload slots: no node is charged for more uploads than it has reservations, in
-- any order of connections, heartbeats, selections, releases and expiries.
use lan_secure_file_system.Common.{
  ℕ, ◌≤◌, ◌<◌, ◌≡◌, refl, ◌⊎◌, inl, inr, Bool, true, false, none, some, List, [], ◌∷◌, Dict, lookup,
  erase, Unique, erase-Unique, count_values, count_values-erase, erase_absent, lookup-erase, arith,
  ◌==◌, Option-cases, keep, values,
}
use lan_secure_file_system.Registry.{Registry, Reservation, new_registry}
use lan_secure_file_system.Registry.Balancing.{
  release_locked, release_each, reap_expired, release_existing, is_expired,
}

-- The number of slots that are held on a node id.
abbrev pub held : ℕ → Dict Reservation → ℕ
held k d = count_values (λ v. v.node_id == k) d

pub record IsSound (r : Registry) : Type 0 where
  -- an id leads to an authenticated node of that id
  pub keyed : (k ref : ℕ) → lookup k r.nodes_by_id ≡ some ref → (r.objects ref).node_id ≡ k
  pub known : (k ref : ℕ) → lookup k r.nodes_by_id ≡ some ref → (r.objects ref).authenticated ≡ true
  pub id_allocated : (k ref : ℕ) → lookup k r.nodes_by_id ≡ some ref → ref < r.next_object
  pub connection_allocated :
      (c ref : ℕ) → lookup c r.nodes_by_connection ≡ some ref → ref < r.next_object
  -- a node that has not authenticated carries no upload
  pub idle : (ref : ℕ) → (r.objects ref).authenticated ≡ false → (r.objects ref).active_uploads ≡ 0
  -- reservations are filed under their own id, once
  pub tagged : (i : ℕ) (v : Reservation) → lookup i r.reservations ≡ some v → v.id ≡ i
  pub unique : Unique r.reservations
  pub ids_unique : Unique r.nodes_by_id
  -- no node is charged for more uploads than slots are held on it
  pub bounded :
      (k ref : ℕ)
      → lookup k r.nodes_by_id ≡ some ref
      → (r.objects ref).active_uploads ≤ held k r.reservations

pub new_registry-IsSound : (timeout min_free : ℕ) → IsSound (new_registry timeout min_free)
unfolding new_registry
new_registry-IsSound timeout min_free = record {
  keyed = λ k ref h. cc;
  known = λ k ref h. cc;
  id_allocated = λ k ref h. cc;
  connection_allocated = λ k ref h. cc;
  idle = λ ref h. refl;
  tagged = λ i v h. cc;
  unique = tt;
  ids_unique = tt;
  bounded = λ k ref h. cc;
}

-- A slot of `v` is given back: the entry of `v` goes, and the node of `v` is charged one less.
module _ (r : Registry) (sound : IsSound r) (v : Reservation) where
  pub release_locked-IsSound : lookup v.id r.reservations ≡ some v → IsSound (release_locked r v)
  unfolding release_locked
  release_locked-IsSound h = record {
    keyed = λ k ref e. ground (arith, sound.keyed k ref);
    known = λ k ref e. ground (arith, sound.known k ref);
    id_allocated = λ k ref e. ground (arith, sound.id_allocated k ref);
    connection_allocated = λ c ref e. ground (arith, sound.connection_allocated c ref);
    idle = λ ref e. ground (arith, sound.idle ref);
    tagged = λ i w e. ground (arith, sound.tagged i w, lookup-erase v.id i r.reservations);
    unique = ground (arith, erase-Unique v.id r.reservations sound.unique);
    ids_unique = ground (arith, sound.ids_unique);
    bounded = λ k ref e. ground (
      arith,
      sound.bounded k ref,
      sound.keyed k ref,
      sound.keyed v.node_id ref,
      count_values-erase (λ w. w.node_id == k) v.id v r.reservations sound.unique h,
    );
  }

-- The entry that a reservation was read from is still there, or gone.
abbrev IsCurrent : Dict Reservation → Reservation → Type 0
IsCurrent d v = (lookup v.id d ≡ none) ⊎ (lookup v.id d ≡ some v)

-- Giving back a slot that nobody holds charges the node one less, or nothing.
release_locked-IsSound_absent :
    (r : Registry) (v : Reservation)
    → IsSound r
    → lookup v.id r.reservations ≡ none
    → IsSound (release_locked r v)
unfolding release_locked
release_locked-IsSound_absent r v sound h = record {
  keyed = λ k ref e. ground (arith, sound.keyed k ref);
  known = λ k ref e. ground (arith, sound.known k ref);
  id_allocated = λ k ref e. ground (arith, sound.id_allocated k ref);
  connection_allocated = λ c ref e. ground (arith, sound.connection_allocated c ref);
  idle = λ ref e. ground (arith, sound.idle ref);
  tagged = λ i w e. ground (arith, sound.tagged i w, lookup-erase v.id i r.reservations);
  unique = ground (arith, erase-Unique v.id r.reservations sound.unique);
  ids_unique = ground (arith, sound.ids_unique);
  bounded = λ k ref e. ground (arith, sound.bounded k ref, erase_absent v.id r.reservations h);
}

release_locked-current :
    (r : Registry) (v : Reservation)
    → IsSound r
    → IsCurrent r.reservations v
    → IsSound (release_locked r v)
release_locked-current r v sound (inl h) = release_locked-IsSound_absent r v sound h
release_locked-current r v sound (inr h) = release_locked-IsSound r sound v h

pub reservations-release_locked :
    (r : Registry) (v : Reservation) → (release_locked r v).reservations ≡ erase v.id r.reservations
unfolding release_locked
reservations-release_locked r v = ground arith

-- Entries that were read together stay current while some of them are released.
abbrev AllCurrent : Dict Reservation → List Reservation → Type 0
AllCurrent d [] = Unit {0}
AllCurrent d (v ∷ vs) = IsCurrent d v × AllCurrent d vs

AllCurrent-erase :
    (k : ℕ) (d : Dict Reservation) (vs : List Reservation)
    → AllCurrent d vs
    → AllCurrent (erase k d) vs
AllCurrent-erase k d [] h = tt
AllCurrent-erase k d (v ∷ vs) h =
    (ground (arith, lookup-erase k v.id d), AllCurrent-erase k d vs h.1)

release_each-IsSound :
    (r : Registry) (vs : List Reservation)
    → IsSound r
    → AllCurrent r.reservations vs
    → IsSound (release_each r vs)
unfolding release_each
release_each-IsSound r [] sound h = sound
release_each-IsSound r (v ∷ vs) sound h =
    release_each-IsSound (release_locked r v) vs (release_locked-current r v sound h.0)
      (rw (reservations-release_locked r v) (AllCurrent-erase v.id r.reservations vs h.1))

abbrev pub Tagged : Dict Reservation → Type 0
Tagged d = (i : ℕ) (v : Reservation) → lookup i d ≡ some v → v.id ≡ i

abbrev AllHeld : Dict Reservation → List Reservation → Type 0
AllHeld d [] = Unit {0}
AllHeld d (v ∷ vs) = (lookup v.id d ≡ some v) × AllHeld d vs

AllHeld-cons :
    (j : ℕ) (w : Reservation) (d : Dict Reservation) (vs : List Reservation)
    → lookup j d ≡ none
    → AllHeld d vs
    → AllHeld ((j, w) ∷ d) vs
AllHeld-cons j w d [] e h = tt
AllHeld-cons j w d (v ∷ vs) e h = (ground arith, AllHeld-cons j w d vs e h.1)

pub Tagged-tail :
    (j : ℕ) (w : Reservation) (d : Dict Reservation)
    → lookup j d ≡ none
    → Tagged ((j, w) ∷ d)
    → Tagged d
Tagged-tail j w d e h i v q = ground (arith, h i v)

-- The reservations that a filter reads are filed under their ids.
AllHeld-values :
    (p : Reservation → Bool) (d : Dict Reservation)
    → Unique d
    → Tagged d
    → AllHeld d (keep p (values d))
AllHeld-values p [] u t = tt
AllHeld-values p ((j, w) ∷ d) u t =
    let ih =
      AllHeld-cons j w d (keep p (values d)) u.0
        (AllHeld-values p d u.1 (Tagged-tail j w d u.0 t)) in
    let id : w.id ≡ j = t j w (ground arith) in ground (arith, ih)

AllCurrent-held : (d : Dict Reservation) (vs : List Reservation) → AllHeld d vs → AllCurrent d vs
AllCurrent-held d [] h = tt
AllCurrent-held d (v ∷ vs) h = (inr h.0, AllCurrent-held d vs h.1)

pub reap_expired-IsSound : (r : Registry) (now : ℕ) → IsSound r → IsSound (reap_expired r now)
unfolding reap_expired
reap_expired-IsSound r now sound =
    release_each-IsSound r _ sound (
      AllCurrent-held _ _
        (AllHeld-values (is_expired now) r.reservations sound.unique sound.tagged))

pub release_existing-IsSound : (r : Registry) (id : ℕ) → IsSound r → IsSound (release_existing r id)
unfolding release_existing
release_existing-IsSound r id sound = elim (Option-cases (lookup id r.reservations)) [
  | inl e ↦ rw (e, release_existing) sound
  | inr (v, e) ↦
      let same : v.id ≡ id = sound.tagged id v e in
      rw (e, release_existing) (release_locked-IsSound r sound v (ground arith))
]

pub lookup-release_existing :
    (r : Registry) (id : ℕ) → IsSound r → lookup id (release_existing r id).reservations ≡ none
unfolding release_existing
lookup-release_existing r id sound = elim (Option-cases (lookup id r.reservations)) [
  | inl e ↦ rw (e, release_existing) e
  | inr (v, e) ↦
      let same : v.id ≡ id = sound.tagged id v e in
      rw (e, release_existing)
        (rw (reservations-release_locked r v) (ground (arith, lookup-erase v.id id r.reservations)))
]
