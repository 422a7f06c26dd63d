-- ===== src/Uploads/Completion.antt =====
-- The reports of a storage node on an upload: handle_upload_complete and handle_upload_failed of
-- coordinator-server/upload/upload_service.py.
use lan_secure_file_system.Common.{
  ℕ, Bool, true, false, ◌&&◌, not, Option, none, some, Text, text_eq, change, ◌==◌,
}
use lan_secure_file_system.World.{
  ready, deleted, is_uploading, File, Db, file_deleted, new_file, Action, database_error,
  file_not_found, storage_node_mismatch, hash_mismatch, pure, fail, ◌>>=◌, ◌>>◌, attempt, maybe,
  choose, query, update, audit, broadcast,
}
use lan_secure_file_system.Files.{file_of, set_status}
use lan_secure_file_system.Uploads.{release_slot, upload_entry}

-- `assigned and reporter and assigned != reporter`
abbrev pub differ : Option ℕ → Option ℕ → Bool
differ none reporter = false
differ (some a) none = false
differ (some a) (some b) = (not (a == 0) && not (b == 0)) && not (a == b)

-- `UPDATE files SET status = 'DELETED' WHERE id = … AND status = 'UPLOADING'`
abbrev pub abandon : ℕ → Db → Db
abandon id db = record db {
  files =
      change (λ f. (f.id == id) && is_uploading f.status) (λ f. record f { status = deleted })
        db.files;
}

-- A report on a file that is not there.
unfoldable pub unknown_file : ℕ → Action (Unit {0})
unknown_file id = do release_slot id; audit (upload_entry none id none false); fail file_not_found

-- A report by another node than the assigned one
unfoldable pub complete_by_other : ℕ → File → Action (Unit {0})
complete_by_other id f = do
  attempt (update (abandon id)) (pure tt)
  audit (upload_entry (some f.uploader_id) id (some f.room_id) false)
  fail storage_node_mismatch

-- Content that is not what was announced
unfoldable pub complete_with_other_hash : ℕ → File → Action (Unit {0})
complete_with_other_hash id f = do
  update (set_status id deleted)
  audit (upload_entry (some f.uploader_id) id (some f.room_id) false)
  broadcast (file_deleted f.room_id id f.original_name none)
  fail hash_mismatch

unfoldable pub complete_with : ℕ → File → Action (Unit {0})
complete_with id f = do
  update (set_status id ready)
  broadcast (new_file f.room_id id f.original_name f.uploader_id)
  audit (upload_entry (some f.uploader_id) id (some f.room_id) true)

-- The part of `handle_upload_complete` after the file is found
unfoldable pub complete_file : ℕ → Text → Option ℕ → File → Action (Unit {0})
complete_file id sha reporter f = do
  release_slot id
  choose (differ f.storage_node_id reporter) (complete_by_other id f)
      (choose (text_eq sha f.sha256_whole) (complete_with id f) (complete_with_other_hash id f))

-- `handle_upload_complete`; the path and the size that the node reports only go into the audit log.
unfoldable pub upload_complete : ℕ → Text → Option ℕ → Action (Unit {0})
upload_complete id sha reporter =
    attempt
      (do row ← query (file_of id); maybe row (unknown_file id) (complete_file id sha reporter))
      (do audit (upload_entry none id none false); fail database_error)

unfoldable pub failed_by_other : ℕ → File → Action (Unit {0})
failed_by_other id f = do
  audit (upload_entry (some f.uploader_id) id (some f.room_id) false)
  fail storage_node_mismatch

unfoldable pub give_up : ℕ → File → Action (Unit {0})
give_up id f = do
  update (set_status id deleted)
  audit (upload_entry (some f.uploader_id) id (some f.room_id) false)
  broadcast (file_deleted f.room_id id f.original_name none)

-- The part of `handle_upload_failed` after the file is found
unfoldable pub fail_file : ℕ → Option ℕ → File → Action (Unit {0})
fail_file id reporter f = do
  release_slot id
  choose (differ f.storage_node_id reporter) (failed_by_other id f) (give_up id f)

-- `handle_upload_failed`; the reason that the node reports only goes into the audit log.
unfoldable pub upload_failed : ℕ → Option ℕ → Action (Unit {0})
upload_failed id reporter =
    attempt (do row ← query (file_of id); maybe row (unknown_file id) (fail_file id reporter))
      (do audit (upload_entry none id none false); fail database_error)
