-- ===== src/Uploads/Outcomes.antt =====
-- What the report of a storage node does to the file, to the slot of the upload and to the answer.
use lan_secure_file_system.Common.{
  ℕ, ◌≡◌, refl, ◌∙◌, ◌⊎◌, inl, inr, true, false, Option, none, some, Text, text_eq, arith,
}
use lan_secure_file_system.World.{
  ready, deleted, File, World, AuditEntry, Event, ErrorCode, file_not_found, storage_node_mismatch,
  hash_mismatch, database_error, audited, announced, Fault, Runs, bind, weaken, on_attempt,
  on_audit, on_broadcast, on_choose, on_fail, on_manage, on_maybe, on_pure, on_query_exactly,
  on_update, files-audited, db-announced, registry-audited, registry-announced,
}
use lan_secure_file_system.Files.{file_of, set_status}
use lan_secure_file_system.Uploads.{release_slot}
use lan_secure_file_system.Uploads.Slots.{Released, released-Released}
use lan_secure_file_system.Uploads.Completion.{
  differ, abandon, unknown_file, complete_by_other, complete_with_other_hash, complete_with,
  complete_file, upload_complete,
}

-- The audit log and the broadcasts write no file, and leave the registry alone.
files-audited-announced :
    (e : AuditEntry) (ev : Event) (w : World) → (audited e (announced ev w)).files ≡ w.files
files-audited-announced e ev w = rw (files-audited (announced ev w) e, db-announced w ev) refl

pub files-announced-audited :
    (ev : Event) (e : AuditEntry) (w : World) → (announced ev (audited e w)).files ≡ w.files
files-announced-audited ev e w = rw (db-announced (audited e w) ev, files-audited w e) refl

registry-audited-announced :
    (e : AuditEntry) (ev : Event) (w : World) → (audited e (announced ev w)).registry ≡ w.registry
registry-audited-announced e ev w = registry-audited (announced ev w) e ∙ registry-announced w ev

pub registry-announced-audited :
    (ev : Event) (e : AuditEntry) (w : World) → (announced ev (audited e w)).registry ≡ w.registry
registry-announced-audited ev e w = registry-announced (audited e w) ev ∙ registry-audited w e

-- A report that was accepted.
pub record Completed (id : ℕ) (sha : Text) (reporter : Option ℕ) (w q : World) : Type 0 where
  pub file : File
  pub is_the_file : file_of id w.db ≡ some file
  pub same_hash : text_eq sha file.sha256_whole ≡ true
  pub same_node : differ file.storage_node_id reporter ≡ false
  pub is_ready : q.files ≡ (set_status id ready w.db).files
  pub slot_released : Released id w q

-- Why a report is refused, and what it does all the same. There is no case for an exception.
pub data CompleteError (id : ℕ) (sha : Text) (reporter : Option ℕ) (w q : World)
    : Option ErrorCode → Type 0 where
  unknown :
      file_of id w.db ≡ none
      → q.files ≡ w.files
      → Released id w q
      → CompleteError id sha reporter w q (some file_not_found)
  other_node :
      (f : File)
      → file_of id w.db ≡ some f
      → differ f.storage_node_id reporter ≡ true
      → (q.files ≡ (abandon id w.db).files) ⊎ (Fault w × (q.files ≡ w.files))
      → Released id w q
      → CompleteError id sha reporter w q (some storage_node_mismatch)
  other_hash :
      (f : File)
      → file_of id w.db ≡ some f
      → differ f.storage_node_id reporter ≡ false
      → text_eq sha f.sha256_whole ≡ false
      → q.files ≡ (set_status id deleted w.db).files
      → Released id w q
      → CompleteError id sha reporter w q (some hash_mismatch)
  not_asked :
      w.faults w.calls ≡ true
      → q.files ≡ w.files
      → q.registry ≡ w.registry
      → CompleteError id sha reporter w q (some database_error)
  not_stored :
      (f : File)
      → file_of id w.db ≡ some f
      → differ f.storage_node_id reporter ≡ false
      → Fault w
      → q.files ≡ w.files
      → Released id w q
      → CompleteError id sha reporter w q (some database_error)

-- A storage node's UPLOAD_COMPLETE never raises. It succeeds only for a file that exists, with the
-- announced hash and from the assigned node, and then the file is READY. A wrong hash marks the file
-- DELETED, another node abandons it if it is still UPLOADING, an unknown file or a failed statement changes
-- no file. The slot of the upload is released, in each of these cases, unless the query for the file itself
-- failed.
pub upload_complete-Runs :
    (id : ℕ) (sha : Text) (reporter : Option ℕ) (w : World)
    → Runs
        (upload_complete id sha reporter)
        w
        (λ t q. Completed id sha reporter w q)
        (λ code q. CompleteError id sha reporter w q code)
unfolding upload_complete unknown_file complete_file complete_by_other complete_with
    complete_with_other_hash release_slot
upload_complete-Runs id sha reporter w = on_attempt _ _ (
    bind (
      on_query_exactly _
        (λ f.
          bind (on_audit _ (on_fail _ (not_asked f (files-audited _ _) (registry-audited _ _)))))
        (λ asked.
          on_maybe _ _ _
            (λ e. bind (
              on_manage _ (
                bind (
                  on_audit _ (
                    on_fail _ (
                      unknown e (files-audited _ _) (released-Released (registry-audited _ _))))))))
            (λ f e. bind (
              on_manage _ (
                on_choose _ _ _
                  (λ d. bind (
                    on_attempt _ _ (
                      on_update _
                        (λ fault. on_pure _ (
                          bind (
                            on_audit _ (
                              on_fail _ (
                                other_node f e d (inr (fault, files-audited _ _))
                                  (released-Released (registry-audited _ _)))))))
                        (bind (
                          on_audit _ (
                            on_fail _ (
                              other_node f e d (inl (files-audited _ _))
                                (released-Released (registry-audited _ _)))))))))
                  (λ d.
                    on_choose _ _ _
                      (λ h. bind (
                        on_update _
                          (λ fault. bind (
                            on_audit _ (
                              on_fail _ (
                                not_stored f e d fault (files-audited _ _)
                                  (released-Released (registry-audited _ _))))))
                          (bind (
                            on_broadcast _ (
                              on_audit _ (record {
                                file = f;
                                is_the_file = e;
                                same_hash = h;
                                same_node = d;
                                is_ready = files-audited-announced _ _ _;
                                slot_released =
                                    released-Released (registry-audited-announced _ _ _);
                              }))))))
                      (λ h. bind (
                        on_update _
                          (λ fault. bind (
                            on_audit _ (
                              on_fail _ (
                                not_stored f e d fault (files-audited _ _)
                                  (released-Released (registry-audited _ _))))))
                          (bind (
                            on_audit _ (
                              bind (
                                on_broadcast _ (
                                  on_fail _ (
                                    other_hash f e d h (files-announced-audited _ _ _) (
                                      released-Released
                                        (registry-announced-audited _ _ _)))))))))))))))))

error-Fault :
    (id : ℕ) (sha : Text) (reporter : Option ℕ) (w q : World) (f : File) (code : Option ErrorCode)
    → file_of id w.db ≡ some f
    → differ f.storage_node_id reporter ≡ false
    → text_eq sha f.sha256_whole ≡ true
    → CompleteError id sha reporter w q code
    → Fault w × (q.files ≡ w.files)
error-Fault id sha reporter w q f _ e d h (unknown n files r) = ground arith
error-Fault id sha reporter w q f _ e d h (other_node g e' d' files r) = ground arith
error-Fault id sha reporter w q f _ e d h (other_hash g e' d' h' files r) = ground arith
error-Fault id sha reporter w q f _ e d h (not_asked failed files r) = ((w.calls, failed), files)
error-Fault id sha reporter w q f _ e d h (not_stored g e' d' fault files r) = (fault, files)

-- A completed report does not look at the status: with the right hash, from the assigned node, a file
-- that was deleted is READY again, unless a statement fails.
pub upload_complete-revives :
    (id : ℕ) (sha : Text) (reporter : Option ℕ) (w : World) (f : File)
    → file_of id w.db ≡ some f
    → f.status ≡ deleted
    → differ f.storage_node_id reporter ≡ false
    → text_eq sha f.sha256_whole ≡ true
    → Runs
        (upload_complete id sha reporter)
        w
        (λ t q. q.files ≡ (set_status id ready w.db).files)
        (λ code q. Fault w × (q.files ≡ w.files))
upload_complete-revives id sha reporter w f e s d h =
    weaken (upload_complete-Runs id sha reporter w) (λ t q c. c.is_ready)
      (λ code q c. error-Fault id sha reporter w q f code e d h c)
