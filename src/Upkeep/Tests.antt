-- ===== src/Upkeep/Tests.antt =====
-- The cleanup and the reconciliation of a table with one file.
use lan_secure_file_system.Common.{◌≡◌, none, [], ◌∷◌, some}
use lan_secure_file_system.World.{World, Runs, Fault, uploading}
use lan_secure_file_system.World.Samples.{populated, shared_file}
use lan_secure_file_system.Upkeep.{cleanup_orphaned_uploads, reconcile_node}
use lan_secure_file_system.Upkeep.Orphans.{Cleaned, cleanup_orphaned_uploads-Runs}
use lan_secure_file_system.Upkeep.Losses.{Reconciled, reconcile_node-Runs}

-- An hour after an upload began.
abbrev stale : World
stale = record populated {
  db = record populated.db { files = record shared_file { status = uploading } ∷ [] };
  now = 3650;
}

cleanup_orphaned_uploads-Runs_example :
    Runs cleanup_orphaned_uploads stale
      (λ n q. Cleaned stale n q)
      (λ code q. (code ≡ none) × Fault stale × (q.db ≡ stale.db) × (q.registry ≡ stale.registry))
cleanup_orphaned_uploads-Runs_example = cleanup_orphaned_uploads-Runs stale

-- A manifest that lists nothing.
abbrev on_a_node : World
on_a_node = record populated {
  db = record populated.db { files = record shared_file { storage_node_id = some 4 } ∷ [] };
}

reconcile_node-Runs_example :
    Runs
      (reconcile_node 4 [])
      on_a_node
      (λ lost q. Reconciled 4 [] on_a_node q lost × (q.registry ≡ on_a_node.registry))
      (λ code q. ⊥)
reconcile_node-Runs_example = reconcile_node-Runs 4 [] on_a_node
