-- ===== src/Files/Deletion.antt =====
-- Who may delete a file, and what a deletion does.
use lan_secure_file_system.Common.{ℕ, ◌≡◌, ◌⊎◌, true, not, ◌&&◌, Option, none, some, ◌==◌}
use lan_secure_file_system.World.{
  Role, is_admin, deleted, File, Db, World, ErrorCode, permission_denied, file_not_found,
  database_error, Fault,
}
use lan_secure_file_system.Access.{membership, owns}
use lan_secure_file_system.Files.{file_of, set_status}

-- A global administrator, the uploader, or an owner of the room.
abbrev MayDelete : ℕ → Role → File → Db → Type 0
MayDelete user role f db =
    (is_admin role ≡ true)
    ⊎ ((not (f.uploader_id == 0) && (f.uploader_id == user) ≡ true)
        ⊎ (owns (membership f.room_id user db) ≡ true))

pub record Deletion (user : ℕ) (role : Role) (id : ℕ) (w q : World) : Type 0 where
  pub file : File
  pub is_the_file : file_of id w.db ≡ some file
  pub permitted : MayDelete user role file w.db
  pub is_deleted : q.files ≡ (set_status id deleted w.db).files

-- Why a deletion is refused. There is no case for an exception.
pub data DeleteError (user : ℕ) (role : Role) (id : ℕ) (w : World) : Option ErrorCode → Type 0 where
  no_file : file_of id w.db ≡ none → DeleteError user role id w (some file_not_found)
  not_permitted :
      (f : File)
      → file_of id w.db ≡ some f
      → ¬ MayDelete user role f w.db
      → DeleteError user role id w (some permission_denied)
  broken : Fault w → DeleteError user role id w (some database_error)
