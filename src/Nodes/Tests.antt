-- ===== src/Nodes/Tests.antt =====
-- The theorems about storage nodes at concrete messages: a node that connects, authenticates and reports.
use lan_secure_file_system.Common.{◌⊎◌, ◌≤◌, ◌≡◌, refl, true, none, some, [], ◌∷◌, lookup, arith}
use lan_secure_file_system.Registry.{Node, get_by_connection, new_node, new_registry}
use lan_secure_file_system.Registry.Connections.{
  add_connection, authenticate, ensure_object, drop_old, admit,
}
use lan_secure_file_system.Registry.Slots.{held}
use lan_secure_file_system.World.{
  World, returned, Runs, manage, attempt, choose, look, ◌>>=◌, maybe, audit, audited,
  write_audit_log, update, call, pure,
}
use lan_secure_file_system.World.Samples.{blank_node, blank_registry, populated}
use lan_secure_file_system.Registry.Agreement.{Rejoined}
use lan_secure_file_system.Nodes.{
  Peer, Auth, no_number, number, no_hashes, hashes, Report, refused, not_authenticated,
  storage_auth, ping, completed, connection_established, handle, handle_storage_auth, admit_at,
  admit_node, take_manifest, run_handler,
}
use lan_secure_file_system.Nodes.Dispatch.{Newcomer}
use lan_secure_file_system.Nodes.Guard.{ReportAnswer, stranger_is_refused, report_is_answered}
use lan_secure_file_system.Nodes.Registration.{AuthAnswer, storage_auth_is_answered}
use lan_secure_file_system.Nodes.History.{start, next, connects, sends, uploads_stay_bounded}

abbrev peer : Peer
peer = record { connection = 4; connection_id = 44; host = some 5 }

abbrev hello : Auth
hello = record {
  secret = some 7;
  node_id = some 8;
  data_host = none;
  data_port = number 9000;
  storage_address = none;
  free_bytes = no_number;
  manifest = hashes ((97 ∷ []) ∷ []);
}

stranger_is_refused_example :
    run_handler peer (ping (number 3)) populated ≡ (returned (refused not_authenticated), populated)
unfolding get_by_connection
stranger_is_refused_example = stranger_is_refused peer (ping (number 3)) populated refl refl

storage_auth_is_answered_example :
    Runs
      (run_handler peer (storage_auth hello))
      populated
      (λ reply q. AuthAnswer peer hello populated q reply)
      (λ code q. ⊥)
storage_auth_is_answered_example = storage_auth_is_answered peer hello populated

abbrev node : Node
node = record blank_node { connection = 4; node_id = 8; authenticated = true }

abbrev with_one_node : World
with_one_node = record populated {
  registry = record blank_registry {
    objects = λ ref. node;
    next_object = 1;
    nodes_by_connection = (4, 0) ∷ [];
    nodes_by_id = (8, 0) ∷ [];
  };
}

abbrev report : Report
report = record {
  file_id = some 9;
  sha256_whole = some (97 ∷ []);
  stored_name = some 6;
  final_size = some 10;
}

report_is_answered_example :
    Runs
      (run_handler peer (completed report))
      with_one_node
      (λ reply q. ReportAnswer report node with_one_node q reply)
      (λ code q. ⊥)
unfolding get_by_connection
report_is_answered_example = report_is_answered peer report with_one_node node refl refl

-- A node connects and authenticates.
abbrev started : World
started = record populated { registry = new_registry 90 0 }

abbrev plain : Auth
plain = record hello { manifest = no_hashes }

abbrev connected : World
connected = (connection_established peer started).1

abbrev admitted_world : World
admitted_world = (run_handler peer (storage_auth plain) connected).1

newcomer : Newcomer peer connected.registry
unfolding connection_established manage add_connection new_node new_registry
newcomer ref h = ground arith

known : lookup 8 admitted_world.registry.nodes_by_id ≡ some 0
unfolding connection_established manage add_connection new_node new_registry run_handler attempt
    handle handle_storage_auth choose look ◌>>=◌ admit_at admit_node authenticate ensure_object
    drop_old admit maybe audit audited write_audit_log update call pure take_manifest
known = refl

uploads_stay_bounded_example :
    ((admitted_world.registry.objects 0).node_id ≡ 8)
    × ((admitted_world.registry.objects 0).authenticated ≡ true)
    × ((admitted_world.registry.objects 0).active_uploads
        ≤ held 8 admitted_world.registry.reservations)
    × (((admitted_world.registry.objects 0).active_uploads
          ≡ held 8 admitted_world.registry.reservations)
        ⊎ Rejoined 8 started.registry admitted_world.registry)
uploads_stay_bounded_example =
    uploads_stay_bounded 90 0 started 8 0 refl
      (next (next start (connects peer)) (sends peer (storage_auth plain) newcomer)) known
