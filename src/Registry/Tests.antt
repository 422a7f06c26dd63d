-- ===== src/Registry/Tests.antt =====
-- The theorems about the registry on one storage node, 3, that authenticated on connection 5 and was
-- charged for the upload 8.
use lan_secure_file_system.Common.{Selects, ◌≡◌, refl, true, some, none, [], ◌∷◌, lookup, values}
use lan_secure_file_system.Registry.{Registry, new_registry, new_node, is_healthy, node_at}
use lan_secure_file_system.Registry.Connections.{
  Credentials, authenticate, ensure_object, admit, drop_old, format_address,
}
use lan_secure_file_system.Registry.Balancing.{
  select_for_upload, reap_expired, eligible, is_eligible, pick, reserve, release_each,
  release_existing, has_enough_capacity,
}
use lan_secure_file_system.Registry.Manifest.{add_each, set_manifest, usable, normalize}
use lan_secure_file_system.Registry.Slots.{IsSound, new_registry-IsSound}
use lan_secure_file_system.Registry.History.{
  Reach, start, next, authenticates, selects, Reach-IsSound,
}
use lan_secure_file_system.Registry.Eligibility.{MayTake}
use lan_secure_file_system.Registry.Filing.{Filed}
use lan_secure_file_system.Registry.Selection.{At, Chosen, select_for_upload-Chosen}

abbrev credentials : Credentials
credentials = record {
  node_id = 3;
  data_host = some 7;
  data_port = some 9001;
  storage_address = none;
}

abbrev joined : Registry
joined = authenticate (new_registry 90 0) 10 5 credentials

joined-Reach : Reach (new_registry 90 0) joined
joined-Reach = next start (authenticates 10 5 credentials (λ ref h. unfold new_registry in refl))

abbrev charged : Registry
charged = (select_for_upload joined 20 (0, 0) (some 8) 60).0

charged-Reach : Reach (new_registry 90 0) charged
charged-Reach = next joined-Reach (selects 20 (0, 0) (some 8) 60)

charged-IsSound : IsSound charged
charged-IsSound = Reach-IsSound (new_registry-IsSound 90 0) charged-Reach

joined-IsSound : IsSound joined
joined-IsSound = Reach-IsSound (new_registry-IsSound 90 0) joined-Reach

charged-home : lookup 3 charged.nodes_by_id ≡ some 0
unfolding select_for_upload reap_expired release_each pick reserve release_existing is_eligible
    is_healthy has_enough_capacity authenticate ensure_object admit drop_old new_registry new_node
    format_address
charged-home = refl

joined-selects : (select_for_upload joined 20 (0, 0) (some 8) 60).1 ≡ some 0
unfolding select_for_upload reap_expired release_each pick reserve release_existing is_eligible
    is_healthy has_enough_capacity authenticate ensure_object admit drop_old new_registry new_node
    format_address
joined-selects = refl

joined-home : node_at joined (some 3) ≡ some 0
unfolding authenticate ensure_object admit drop_old new_registry new_node format_address
joined-home = refl

joined-is_healthy : is_healthy joined.timeout_seconds 20 (joined.objects 0) ≡ true
unfolding is_healthy authenticate ensure_object admit drop_old new_registry new_node format_address
joined-is_healthy = refl

select_for_upload-Chosen_example :
    Selects
      (λ q. MayTake (reap_expired joined 20) 20 ((reap_expired joined 20).objects q))
      (values (reap_expired joined 20).nodes_by_id)
      (eligible (reap_expired joined 20) 20)
    × MayTake (reap_expired joined 20) 20 ((reap_expired joined 20).objects 0)
    × At (values (reap_expired joined 20).nodes_by_id) 0
    × Chosen (reap_expired joined 20) (eligible (reap_expired joined 20) 20) 0
    × Filed
        (reap_expired joined 20)
        20
        60
        0
        (select_for_upload joined 20 (0, 0) (some 8) 60).0
        (some 8)
select_for_upload-Chosen_example =
    select_for_upload-Chosen joined 20 (0, 0) (some 8) 60 0 joined-selects

usable-a : usable (some (65 ∷ [])) ≡ some (97 ∷ [])
unfolding usable normalize
usable-a = refl

-- After the first manifest the node reports that it has stored one more file and lost the first.
abbrev listed : Registry
listed = (set_manifest joined (some 3) ((97 ∷ []) ∷ [])).0

listed-home : node_at listed (some 3) ≡ some 0
unfolding set_manifest add_each authenticate ensure_object admit drop_old new_registry new_node
    format_address
listed-home = refl

listed-is_healthy : is_healthy listed.timeout_seconds 20 (listed.objects 0) ≡ true
unfolding set_manifest add_each is_healthy authenticate ensure_object admit drop_old new_registry
    new_node format_address
listed-is_healthy = refl

listed-manifest_received : (listed.objects 0).manifest_received ≡ true
unfolding set_manifest add_each authenticate ensure_object admit drop_old new_registry new_node
    format_address
listed-manifest_received = refl
