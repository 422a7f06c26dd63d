-- ===== src/Uploads/Failures.antt =====
-- What a storage node's report of a failed upload does to the file, to the slot and to the answer.
use lan_secure_file_system.Common.{ℕ, ◌≡◌, true, false, Option, none, some}
use lan_secure_file_system.World.{
  deleted, File, World, ErrorCode, file_not_found, storage_node_mismatch, database_error, Fault,
  Runs, bind, on_attempt, on_audit, on_broadcast, on_choose, on_fail, on_manage, on_maybe,
  on_query_exactly, on_update, files-audited, registry-audited,
}
use lan_secure_file_system.Files.{file_of, set_status}
use lan_secure_file_system.Uploads.{release_slot}
use lan_secure_file_system.Uploads.Slots.{Released, released-Released}
use lan_secure_file_system.Uploads.Completion.{
  differ, unknown_file, failed_by_other, give_up, fail_file, upload_failed,
}
use lan_secure_file_system.Uploads.Outcomes.{files-announced-audited, registry-announced-audited}

-- A failure that was accepted.
pub record GivenUp (id : ℕ) (reporter : Option ℕ) (w q : World) : Type 0 where
  pub file : File
  pub is_the_file : file_of id w.db ≡ some file
  pub same_node : differ file.storage_node_id reporter ≡ false
  pub is_deleted : q.files ≡ (set_status id deleted w.db).files
  pub slot_released : Released id w q

pub data FailError (id : ℕ) (reporter : Option ℕ) (w q : World) : Option ErrorCode → Type 0 where
  unknown :
      file_of id w.db ≡ none
      → q.files ≡ w.files
      → Released id w q
      → FailError id reporter w q (some file_not_found)
  other_node :
      (f : File)
      → file_of id w.db ≡ some f
      → differ f.storage_node_id reporter ≡ true
      → q.files ≡ w.files
      → Released id w q
      → FailError id reporter w q (some storage_node_mismatch)
  not_asked :
      w.faults w.calls ≡ true
      → q.files ≡ w.files
      → q.registry ≡ w.registry
      → FailError id reporter w q (some database_error)
  not_stored :
      (f : File)
      → file_of id w.db ≡ some f
      → differ f.storage_node_id reporter ≡ false
      → Fault w
      → q.files ≡ w.files
      → Released id w q
      → FailError id reporter w q (some database_error)

-- A storage node's UPLOAD_FAILED never raises. It succeeds only for a file that exists and from the
-- assigned node, and then the file is DELETED. Any other report changes no file. The slot of the upload
-- is released, in each of these cases, unless the query for the file itself failed.
pub upload_failed-Runs :
    (id : ℕ) (reporter : Option ℕ) (w : World)
    → Runs
        (upload_failed id reporter)
        w
        (λ t q. GivenUp id reporter w q)
        (λ code q. FailError id reporter w q code)
unfolding upload_failed unknown_file fail_file failed_by_other give_up release_slot
upload_failed-Runs id reporter w = on_attempt _ _ (
    bind (
      on_query_exactly _
        (λ f.
          bind (on_audit _ (on_fail _ (not_asked f (files-audited _ _) (registry-audited _ _)))))
        (λ asked.
          on_maybe _ _ _
            (λ e. bind (
              on_manage _ (
                bind (
                  on_audit _ (
                    on_fail _ (
                      unknown e (files-audited _ _) (released-Released (registry-audited _ _))))))))
            (λ f e. bind (
              on_manage _ (
                on_choose _ _ _
                  (λ d. bind (
                    on_audit _ (
                      on_fail _ (
                        other_node f e d (files-audited _ _)
                          (released-Released (registry-audited _ _))))))
                  (λ d. bind (
                    on_update _
                      (λ fault. bind (
                        on_audit _ (
                          on_fail _ (
                            not_stored f e d fault (files-audited _ _)
                              (released-Released (registry-audited _ _))))))
                      (bind (
                        on_audit _ (
                          on_broadcast _ (record {
                            file = f;
                            is_the_file = e;
                            same_node = d;
                            is_deleted = files-announced-audited _ _ _;
                            slot_released = released-Released (registry-announced-audited _ _ _);
                          }))))))))))))
