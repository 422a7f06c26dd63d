-- ===== src/Files.antt =====
-- coordinator-server/file/file_service.py and the table of files (alembic/versions/004, 008).
pub mod Listing
pub mod Deletion
pub mod Moves
mod Tests
use lan_secure_file_system.Common.{
  ℕ, suc, Bool, true, false, ◌&&◌, ◌||◌, not, Option, none, some, List, [], ◌∷◌, find, keep, change,
  any, sort, leb, ◌==◌, if◌then◌else◌,
}
use lan_secure_file_system.World.{
  Role, FileStatus, ready, uploading, deleted, is_ready, is_uploading, User, File, Db, World,
  AuditEntry, delete_file, file_deleted, Action, permission_denied, file_not_found, database_error,
  pure, fail, ◌>>=◌, ◌>>◌, attempt, require, present, query, update, audit, broadcast,
}
use lan_secure_file_system.Access.{has_room_access, can_delete_file}
use lan_secure_file_system.Rooms.{has_room, has_user, user_of}

abbrev pub file_of : ℕ → Db → Option File
file_of id db = find (λ f. f.id == id) db.files

-- `UPDATE files SET status = … WHERE id = …`
abbrev pub set_status : ℕ → FileStatus → Db → Db
set_status id status db = record db {
  files = change (λ f. f.id == id) (λ f. record f { status = status }) db.files;
}

-- `INSERT INTO files`: a new id, in a room and by a user that exist.
abbrev pub insert_file : File → Db → Option Db
insert_file f db =
    if any (λ g. g.id == f.id) db.files || not (has_room f.room_id db && has_user f.uploader_id db)
    then none
    else some (record db { files = f ∷ db.files })

-- A file joined with the name of its uploader.
abbrev with_uploader : Db → File → Option (File × ℕ)
with_uploader db f = elim (user_of f.uploader_id db) [ none ↦ none | some u ↦ some (f, u.username) ]

abbrev pub join_uploaders : Db → List File → List (File × ℕ)
join_uploaders db [] = []
join_uploaders db (f ∷ fs) =
    let rest = join_uploaders db fs in
    elim (with_uploader db f) [ none ↦ rest | some row ↦ row ∷ rest ]

-- The query of `list_files`: the READY files of the room, newest first.
abbrev pub ready_files : ℕ → Db → List (File × ℕ)
ready_files room db = join_uploaders db (
    sort (λ f g. leb g.created_at f.created_at)
      (keep (λ f. (f.room_id == room) && is_ready f.status) db.files))

pub list_files : ℕ → Role → ℕ → Action (List (File × ℕ))
list_files user role room = do
  allowed ← has_room_access user role room
  require allowed permission_denied
  attempt (query (ready_files room)) (fail database_error)

abbrev file_row : ℕ → Db → Option (File × ℕ)
file_row id db = elim (file_of id db) [ none ↦ none | some f ↦ with_uploader db f ]

unfoldable pub get_file_detail : ℕ → Role → ℕ → Action (File × ℕ)
get_file_detail user role id =
    attempt
      (do
        found ← query (file_row id)
        row ← present found file_not_found
        allowed ← has_room_access user role row.0.room_id
        require allowed permission_denied
        pure row)
      (fail database_error)

-- The query of `get_file_versions`: every file of that name in the room, whatever its status, the highest
-- version first.
abbrev named_files : ℕ → ℕ → Db → List (File × ℕ)
named_files room name db = join_uploaders db (
    sort (λ f g. leb g.version f.version)
      (keep (λ f. (f.room_id == room) && (f.original_name == name)) db.files))

unfoldable pub get_file_versions : ℕ → Role → ℕ → ℕ → Action (List (File × ℕ))
get_file_versions user role room name = do
  allowed ← has_room_access user role room
  require allowed permission_denied
  attempt (query (named_files room name)) (fail database_error)

abbrev delete_entry : ℕ → File → AuditEntry
delete_entry user f = record {
  actor_id = some user;
  action = delete_file;
  target_id = f.id;
  room_id = some f.room_id;
  succeeded = true;
}

-- `delete_file`, which marks the row
pub delete : ℕ → Role → ℕ → Action (Unit {0})
delete user role id =
    attempt
      (do
        found ← query (file_of id)
        f ← present found file_not_found
        allowed ← can_delete_file user role f.room_id f.uploader_id
        require allowed permission_denied
        update (set_status id deleted)
        broadcast (file_deleted f.room_id id f.original_name (some user))
        audit (delete_entry user f))
      (fail database_error)

-- `SELECT MAX(version)`
abbrev pub max_version : List File → Option ℕ
max_version [] = none
max_version (f ∷ fs) = elim (max_version fs) [
  | none ↦ some f.version
  | some m ↦ some (if leb f.version m then m else f.version)
]

abbrev pub version_after : Option ℕ → ℕ
version_after none = 1
version_after (some m) = suc m

abbrev pub is_live : FileStatus → Bool
is_live s = is_ready s || is_uploading s

-- `calculate_next_version`: only the READY and UPLOADING files count.
unfoldable calculate_next_version : ℕ → ℕ → Action ℕ
calculate_next_version room name =
    attempt
      (do
        m ← query (λ db. max_version (
            keep (λ f. ((f.room_id == room) && (f.original_name == name)) && is_live f.status)
              db.files))
        pure (version_after m))
      (pure 1)
