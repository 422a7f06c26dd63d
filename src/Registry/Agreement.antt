-- ===== src/Registry/Agreement.antt =====
-- When the counter of a node and the reservations on its id agree.
use lan_secure_file_system.Common.{ℕ, ◌≤◌, ◌≡◌, ◌⊎◌, inl, inr, true, arith, ◌==◌, Bool-cases}
use lan_secure_file_system.Registry.{Registry, new_registry}
use lan_secure_file_system.Registry.Connections.{Credentials, authenticate}
use lan_secure_file_system.Registry.Slots.{IsSound, held}
use lan_secure_file_system.Registry.Exactness.{IsCharged}
use lan_secure_file_system.Registry.Rejoining.{
  select-IsCharged, release_reservation-IsCharged, add_connection-IsCharged,
  remove_connection-IsCharged, heartbeat-IsCharged, update_capacity-IsCharged,
  set_manifest-IsCharged, apply_manifest_delta-IsCharged, mark_file_added-IsCharged,
  authenticate-IsCharged,
}
use lan_secure_file_system.Registry.History.{
  IsNew, Step, connects, authenticates, disconnects, pings, reports, lists, amends, stores, selects,
  releases, Reach, start, next, Reach-IsSound,
}

-- At some time a node authenticated under an id while there were reservations on it: the counter of the node
-- began at 0.
pub record Rejoined (k : ℕ) (r q : Registry) : Type 0 where
  pub before : Registry
  pub now : ℕ
  pub connection : ℕ
  pub credentials : Credentials
  pub earlier : Reach r before
  pub same_id : credentials.node_id == k ≡ true
  pub outstanding : 1 ≤ held k before.reservations
  pub later : Reach (authenticate before now connection credentials) q

module _ (k : ℕ) {r : Registry} where
  rejoin :
      {p : Registry} (now connection : ℕ) (c : Credentials)
      → Reach r p
      → IsSound p
      → IsNew p connection
      → IsCharged k p
      → IsCharged k (authenticate p now connection c)
        ⊎ Rejoined k r (authenticate p now connection c)
  rejoin {p} now connection c h sound new charged = elim (Bool-cases (c.node_id == k)) [
    | inr other ↦ inl (authenticate-IsCharged k p now connection c sound new (inl other) charged)
    | inl same ↦ elim (Bool-cases (held k p.reservations == 0)) [
      | inl idle ↦
          inl (authenticate-IsCharged k p now connection c sound new (inr (ground arith)) charged)
      | inr busy ↦ inr (record {
        before = p;
        now = now;
        connection = connection;
        credentials = c;
        earlier = h;
        same_id = same;
        outstanding = ground arith;
        later = start;
      })
    ]
  ]

  Step-IsCharged :
      {p q : Registry}
      → Reach r p
      → IsSound p
      → IsCharged k p
      → Step p q
      → IsCharged k q ⊎ Rejoined k r q
  Step-IsCharged {p} h v c (connects now connection id) =
      inl (add_connection-IsCharged k p now connection id v c)
  Step-IsCharged {p} h v c (authenticates now connection credentials new) =
      rejoin now connection credentials h v new c
  Step-IsCharged {p} h v c (disconnects connection) =
      inl (remove_connection-IsCharged k p connection c)
  Step-IsCharged {p} h v c (pings now connection free) =
      inl (heartbeat-IsCharged k p now connection free c)
  Step-IsCharged {p} h v c (reports connection free) =
      inl (update_capacity-IsCharged k p connection free c)
  Step-IsCharged {p} h v c (lists id shas) = inl (set_manifest-IsCharged k p id shas c)
  Step-IsCharged {p} h v c (amends id added removed) =
      inl (apply_manifest_delta-IsCharged k p id added removed c)
  Step-IsCharged {p} h v c (stores id sha) = inl (mark_file_added-IsCharged k p id sha c)
  Step-IsCharged {p} h v c (selects now draws id ttl) =
      inl (select-IsCharged k p now draws id ttl v c)
  Step-IsCharged {p} h v c (releases id) = inl (release_reservation-IsCharged k p id v c)

  later_still : {p q : Registry} → Rejoined k r p → Step p q → Rejoined k r q
  later_still j s = record {
    before = j.before;
    now = j.now;
    connection = j.connection;
    credentials = j.credentials;
    earlier = j.earlier;
    same_id = j.same_id;
    outstanding = j.outstanding;
    later = next j.later s;
  }

  -- Whatever happened to the registry, the node under an id is still charged for every reservation on the
  -- id, unless one rejoined.
  pub Reach-IsCharged :
      {q : Registry} → IsSound r → IsCharged k r → Reach r q → IsCharged k q ⊎ Rejoined k r q
  Reach-IsCharged v c start = inl c
  Reach-IsCharged v c (next h s) = elim (Reach-IsCharged v c h) [
    | inl charged ↦ Step-IsCharged h (Reach-IsSound v h) charged s
    | inr j ↦ inr (later_still j s)
  ]

-- A new registry has no node.
pub new_registry-IsCharged : (timeout min_free k : ℕ) → IsCharged k (new_registry timeout min_free)
unfolding new_registry
new_registry-IsCharged timeout min_free k ref e = cc
