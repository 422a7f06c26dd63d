-- ===== src/Registry/Balancing.antt =====
-- The load balancer of registry.py: `select_for_upload` with its reservations, and their release.
use lan_secure_file_system.Common.{
  ℕ, suc, ◌+◌, ◌-◌, ◌%◌, Bool, true, false, ◌&&◌, ◌||◌, Option, none, some, List, [], ◌∷◌, lookup,
  insert, erase, values, keep, length, get_elem?, ltb, leb, ◌==◌, if◌then◌else◌,
}
use lan_secure_file_system.Registry.{Node, Registry, Reservation, write, is_healthy, has_address}

-- `_release_reservation_locked`
unfoldable pub release_slot : Registry → ℕ → Registry
release_slot r node_id = elim (lookup node_id r.nodes_by_id) [
  | none ↦ r
  | some ref ↦
      let node = r.objects ref in
      if ltb 0 node.active_uploads
      then record r {
        objects = write ref (record node { active_uploads = node.active_uploads - 1 }) r.objects;
      }
      else r
]

unfoldable pub release_locked : Registry → Reservation → Registry
unfolding release_slot
release_locked r v = release_slot (record r { reservations = erase v.id r.reservations }) v.node_id

-- `release_reservation`, with the result that it returns
unfoldable pub release_reservation : Registry → Option ℕ → Registry × Bool
release_reservation r none = (r, false)
release_reservation r (some id) = if id == 0 then (r, false) else elim (lookup id r.reservations) [
  | none ↦ (r, false)
  | some v ↦ (release_slot (record r { reservations = erase id r.reservations }) v.node_id, true)
]

abbrev pub is_expired : ℕ → Reservation → Bool
is_expired now v = leb v.expires_at now

unfoldable pub release_each : Registry → List Reservation → Registry
release_each r [] = r
release_each r (v ∷ vs) = release_each (release_locked r v) vs

-- `_reap_expired_locked`
unfoldable pub reap_expired : Registry → ℕ → Registry
reap_expired r now = release_each r (keep (is_expired now) (values r.reservations))

-- `_has_enough_capacity`
unfoldable pub has_enough_capacity : ℕ → Node → Bool
has_enough_capacity min_free node =
    if leb min_free 0
    then true
    else elim node.free_bytes [ none ↦ true | some free ↦ leb min_free free ]

-- The filter of `select_for_upload`
unfoldable pub is_eligible : Registry → ℕ → ℕ → Bool
unfolding is_healthy has_enough_capacity
is_eligible r now ref =
    let node = r.objects ref in
    is_healthy r.timeout_seconds now node
    && (has_address node.storage_address && has_enough_capacity r.min_free_bytes node)

-- One field of `_upload_score`: more free bytes first, and `None` counts as infinitely many.
abbrev pub more_free : Option ℕ → Option ℕ → Bool
more_free none none = false
more_free none (some b) = true
more_free (some a) none = false
more_free (some a) (some b) = ltb b a

-- `_upload_score(a) < _upload_score(b)`
unfoldable pub score_lt : Node → Node → Bool
score_lt a b =
    ltb a.active_uploads b.active_uploads
    || ((a.active_uploads == b.active_uploads)
        && (more_free a.free_bytes b.free_bytes
            || (if more_free b.free_bytes a.free_bytes then false else ltb a.node_id b.node_id)))

-- `random.sample(xs, 2)` from two random numbers: each pair of distinct positions arises.
unfoldable pub sample_positions : ℕ → ℕ × ℕ → ℕ × ℕ
sample_positions n (a, b) = let i = a % n in (i, (i + 1 + b % (n - 1)) % n)

-- `min(two, key=self._upload_score)`: the first of the two, unless the second is strictly better.
unfoldable pub better : Registry → Option ℕ → Option ℕ → Option ℕ
better r (some x) (some y) = if score_lt (r.objects y) (r.objects x) then some y else some x
better r (some x) none = some x
better r none y = y

-- The node that `select_for_upload` picks from the eligible ones.
unfoldable pub pick : Registry → List ℕ → ℕ × ℕ → Option ℕ
pick r [] draws = none
pick r (x ∷ []) draws = some x
pick r (x ∷ y ∷ rest) draws =
    let refs = x ∷ y ∷ rest in
    let (i, j) = sample_positions (length refs) draws in
    better r (get_elem? refs i) (get_elem? refs j)

-- The retry path: a slot that the same upload already holds is given back.
unfoldable pub release_existing : Registry → ℕ → Registry
release_existing r id = elim (lookup id r.reservations) [ none ↦ r | some v ↦ release_locked r v ]

-- A slot for the upload `id`; an earlier slot under the same id is given back first.
unfoldable pub reserve : Registry → ℕ → ℕ → ℕ → ℕ → Registry
reserve r now ttl ref id =
    let freed = release_existing r id in
    let node = freed.objects ref in
    record freed {
      reservations =
          insert id (record { id = id; node_id = node.node_id; expires_at = now + ttl })
            freed.reservations;
      objects = write ref (record node { active_uploads = suc node.active_uploads }) freed.objects;
    }

abbrev pub eligible : Registry → ℕ → List ℕ
eligible r now = keep (is_eligible r now) (values r.nodes_by_id)

-- `select_for_upload`: the address of the node that it picks.
unfoldable pub select_for_upload : Registry → ℕ → ℕ × ℕ → Option ℕ → ℕ → Registry × Option ℕ
select_for_upload r now draws reservation_id ttl =
    let reaped = reap_expired r now in
    elim (pick reaped (eligible reaped now) draws) [
      | none ↦ (reaped, none)
      | some ref ↦ elim reservation_id [
        | none ↦ (reaped, some ref)
        | some id ↦ (if id == 0 then reaped else reserve reaped now ttl ref id, some ref)
      ]
    ]

-- `increment_active_uploads` and `decrement_active_uploads`, which the coordinator no longer calls
unfoldable increment_active_uploads : Registry → Option ℕ → Registry
increment_active_uploads r none = r
increment_active_uploads r (some id) = if id == 0 then r else elim (lookup id r.nodes_by_id) [
  | none ↦ r
  | some ref ↦
      let node = r.objects ref in
      record r {
        objects = write ref (record node { active_uploads = suc node.active_uploads }) r.objects;
      }
]

unfoldable decrement_active_uploads : Registry → Option ℕ → Registry
decrement_active_uploads r none = r
decrement_active_uploads r (some id) = if id == 0 then r else release_slot r id
