-- ===== src/Upkeep.antt =====
-- What keeps the table of files in step with the storage nodes:
-- coordinator-server/cleanup/cleanup_service.py and storage_node/reconciliation_service.py.
pub mod Orphans
pub mod Losses
pub mod Moves
mod Tests
use lan_secure_file_system.Common.{
  ℕ, ◌+◌, Bool, true, false, ◌&&◌, ◌||◌, not, Option, none, some, List, [], ◌∷◌, Text, strip, lower,
  is_empty, keep, change, ltb, ◌==◌, if◌then◌else◌,
}
use lan_secure_file_system.Registry.{Registry}
use lan_secure_file_system.Registry.Balancing.{release_reservation}
use lan_secure_file_system.Registry.Manifest.{member}
use lan_secure_file_system.World.{
  FileStatus, is_ready, is_uploading, deleted, missing, File, Db, World, Action, pure, ◌>>=◌, ◌>>◌,
  attempt, maybe, choose, clock, manage, query, update, update_returning,
}
use lan_secure_file_system.Uploads.{is_some}

-- An upload that is older than 35 minutes
abbrev pub is_orphan : ℕ → File → Bool
is_orphan now f = is_uploading f.status && ltb (f.created_at + 2100) now

abbrev pub set_deleted : File → File
set_deleted f = record f { status = deleted }

-- `UPDATE files SET status = 'DELETED' WHERE … RETURNING id, storage_node_id`
abbrev sweep : ℕ → Db → Db × List File
sweep now db = (
  record db { files = change (is_orphan now) set_deleted db.files },
  keep (is_orphan now) db.files,
)

-- `for record in cleaned_records: … release_reservation(str(record_id))`
unfoldable pub release_all : List File → Registry → Registry
release_all [] r = r
release_all (f ∷ fs) r =
    release_all fs (if f.id == 0 then r else (release_reservation r (some f.id)).0)

abbrev pub count_files : List File → ℕ
count_files [] = 0
count_files (f ∷ fs) = count_files fs + 1

-- `cleanup_orphaned_uploads`: an exception goes on to the loop of the thread.
unfoldable pub cleanup_orphaned_uploads : Action ℕ
cleanup_orphaned_uploads = do
  now ← clock
  swept ← update_returning (sweep now)
  manage (λ w. (if w.config.has_registry then release_all swept w.registry else w.registry, tt))
  pure (count_files swept)

-- `sha.strip().lower()` of the texts that are not empty
abbrev pub reported_hashes : List Text → List Text
reported_hashes [] = []
reported_hashes (s ∷ ss) =
    let rest = reported_hashes ss in if is_empty s then rest else lower (strip s) ∷ rest

-- `sha and sha not in normalized`
abbrev pub is_lost : List Text → File → Bool
is_lost reported f =
    let sha = lower (strip f.sha256_whole) in
    not (is_empty sha) && not (member sha (reported_hashes reported))

abbrev pub on_node : ℕ → File → Bool
on_node node f = (elim f.storage_node_id [ none ↦ false | some k ↦ k == node ]) && is_ready f.status

-- `UPDATE files SET status = 'MISSING' WHERE id = … AND status = 'READY'`
abbrev mark_missing : ℕ → Db → Db
mark_missing id db = record db {
  files =
      change (λ f. (f.id == id) && is_ready f.status) (λ f. record f { status = missing }) db.files;
}

-- A statement that fails is logged, and the loop goes on.
unfoldable pub mark_all : List File → Action (Unit {0})
mark_all [] = pure tt
mark_all (f ∷ fs) = attempt (update (mark_missing f.id)) (pure tt) >> mark_all fs

-- `reconcile_node`: the files that were found lost
unfoldable pub reconcile_node : ℕ → List Text → Action (List File)
reconcile_node node reported = choose (node == 0) (pure []) (do
  rows ← attempt (query (λ db. some (keep (on_node node) db.files))) (pure none)
  maybe rows (pure [])
      (λ found. mark_all (keep (is_lost reported) found) >> pure (keep (is_lost reported) found)))
