-- ===== src/Uploads/Moves.antt =====
-- What the upload service does to the registry: it takes slots and gives them back.
use lan_secure_file_system.Common.{ℕ, not, ◌&&◌, Option, some, Text, ◌==◌, inl, inr, Bool-cases}
use lan_secure_file_system.Registry.{Address}
use lan_secure_file_system.Registry.History.{Reach, start, next, selects, releases}
use lan_secure_file_system.World.{Role, File, World}
use lan_secure_file_system.World.Moves.{Moves, Always, moves, Moves-manage}
use lan_secure_file_system.Access.Moves.{Moves-check_permission}
use lan_secure_file_system.Uploads.{
  release_slot, released, choose_node, select_storage_node, ticket_fields, upload_deduplicated,
  upload_fresh, Upload, FileInfo, find_same_room_duplicate, find_deduplication_candidates,
  next_version, init_upload,
}
use lan_secure_file_system.Uploads.Completion.{
  unknown_file, complete_by_other, complete_with_other_hash, complete_with, complete_file,
  upload_complete, failed_by_other, give_up, fail_file, upload_failed,
}

pub released-Reach : (id : ℕ) (w : World) → Reach w.registry (released id w)
released-Reach id w = elim (Bool-cases (w.config.has_registry && not (id == 0))) [
  | inl e ↦ rw e (next start (releases (some id)))
  | inr e ↦ rw e start
]

pub Moves-release_slot : (id : ℕ) → Moves Always (release_slot id)
unfolding release_slot
Moves-release_slot id = Moves-manage _ (λ w p. released-Reach id w)

Moves-complete_file :
    (id : ℕ) (sha : Text) (reporter : Option ℕ) (f : File)
    → Moves Always (complete_file id sha reporter f)
unfolding complete_file complete_by_other complete_with complete_with_other_hash
Moves-complete_file id sha reporter f = search (moves, Moves-release_slot) depth 20

pub Moves-upload_complete :
    (id : ℕ) (sha : Text) (reporter : Option ℕ) → Moves Always (upload_complete id sha reporter)
unfolding upload_complete unknown_file
Moves-upload_complete id sha reporter =
    search (moves, Moves-release_slot, Moves-complete_file) depth 20

pub Moves-upload_failed : (id : ℕ) (reporter : Option ℕ) → Moves Always (upload_failed id reporter)
unfolding upload_failed unknown_file fail_file failed_by_other give_up
Moves-upload_failed id reporter = search (moves, Moves-release_slot) depth 20

choose_node-Reach :
    (address : Option Address) (id : ℕ) (w : World) → Reach w.registry (choose_node address id w).0
choose_node-Reach address id w = elim (Bool-cases w.config.has_registry) [
  | inl e ↦ rw e (next start (selects w.now w.draws (some id) w.config.slot_reservation_ttl))
  | inr e ↦ rw e start
]

Moves-select_storage_node :
    (address : Option Address) (id : ℕ) → Moves Always (select_storage_node address id)
unfolding select_storage_node
Moves-select_storage_node address id = Moves-manage _ (λ w p. choose_node-Reach address id w)

pub Moves-ticket_fields :
    (file : ℕ) (holder : Option ℕ) (ttl : ℕ) → Moves Always (ticket_fields file holder ttl)
unfolding ticket_fields
Moves-ticket_fields file holder ttl = search moves depth 20

Moves-upload_fresh : (u : Upload) (address : Option Address) → Moves Always (upload_fresh u address)
unfolding upload_fresh
Moves-upload_fresh u address =
    search (moves, Moves-select_storage_node, Moves-release_slot, Moves-ticket_fields) depth 40

Moves-upload_deduplicated :
    (u : Upload) (f : File) (address : Option Address)
    → Moves Always (upload_deduplicated u f address)
unfolding upload_deduplicated
Moves-upload_deduplicated u f address = search moves depth 20

pub Moves-init_upload :
    (user : ℕ) (role : Role) (room : ℕ) (info : FileInfo) (address : Option Address)
    → Moves Always (init_upload user role room info address)
unfolding init_upload find_same_room_duplicate find_deduplication_candidates next_version
Moves-init_upload user role room info address =
    search (moves, Moves-check_permission, Moves-upload_fresh, Moves-upload_deduplicated) depth 40
