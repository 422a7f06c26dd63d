-- ===== src/Uploads/Initiation.antt =====
-- The whole of INIT_UPLOAD: whom it admits, what it looks up, and which of the two ways it takes.
use lan_secure_file_system.Common.{
  ℕ, ◌≡◌, ◌⊎◌, true, ◌&&◌, Option, none, some, List, [], Text, text_eq, first, keep, sort, leb,
  ◌==◌,
}
use lan_secure_file_system.Registry.{Address, has_address}
use lan_secure_file_system.World.{
  Role, is_ready, File, World, ErrorCode, permission_denied, invalid_input, duplicate_file_in_room,
  database_error, Fault,
}
use lan_secure_file_system.Access.{upload_file}
use lan_secure_file_system.Access.Checks.{May}
use lan_secure_file_system.Files.{max_version, version_after}
use lan_secure_file_system.Uploads.{
  FileInfo, given_size, Plan, Upload, room_duplicates, count_chunks, is_reusable_dedup_node,
}
use lan_secure_file_system.Uploads.Admission.{Shared, Fresh, FreshError, Refused}
use lan_secure_file_system.Uploads.Lookups.{all, is_unusable, oldest_twenty}

-- The world after some calls that changed nothing.
abbrev after_calls : ℕ → World → World
after_calls n w = record w { calls = n }

-- The oldest rows of the room with that content, newest first
abbrev newest_duplicate : ℕ → Text → World → Option File
newest_duplicate room sha w =
    first (sort (λ f g. leb g.created_at f.created_at) (room_duplicates room sha w.db))

-- A stored object that the upload may share: of a READY file with the same content, on a usable node.
pub record Sharable (sha : Text) (w : World) (f : File) (address : Option Address) : Type 0 where
  pub same_content : text_eq f.sha256_whole sha && is_ready f.status ≡ true
  pub usable : is_reusable_dedup_node w f.storage_node_id f.sha256_whole ≡ true
  pub reachable : has_address address ≡ true

pub record Admitted (user : ℕ) (role : Role) (room : ℕ) (info : FileInfo) (address : Option Address)
    (w : World) (plan : Plan) (q : World) : Type 0 where
  pub permitted : May user role room upload_file w.db
  pub size : ℕ
  pub is_complete : given_size info ≡ some size
  pub no_duplicate : (room_duplicates room info.sha256_whole w.db ≡ []) ⊎ Fault w
  pub version : ℕ
  pub is_next :
      (version
        ≡ version_after (
            max_version
              (keep (λ f. (f.room_id == room) && (f.original_name == info.original_name)) w.files)))
      ⊎ (Fault w × (version ≡ 1))
  pub candidates : List File
  pub are_candidates :
      (candidates ≡ oldest_twenty info.sha256_whole w) ⊎ (Fault w × (candidates ≡ []))
  pub stored :
      let u : Upload = record {
        user = user;
        room = room;
        info = info;
        size = size;
        version = version;
        chunks = count_chunks size w.config.chunk_size;
      } in
      (n : ℕ) × (((f : File) × (a : Option Address) × (m : ℕ) × Sharable info.sha256_whole
            (after_calls m w)
            f
            a
          × Shared u f a (after_calls n w) plan q)
        ⊎ ((m : ℕ) × ((all (is_unusable (after_calls m w) address) candidates ≡ true)
              × Fresh u address (after_calls n w) plan q)))

-- Why an upload is not admitted, or not stored: `none` is an exception.
pub data InitError (user : ℕ) (role : Role) (room : ℕ) (info : FileInfo) (address : Option Address)
    (w q : World) : Option ErrorCode → Type 0 where
  broken : Fault w → q.files ≡ w.files → InitError user role room info address w q none
  not_permitted :
      ¬ May user role room upload_file w.db
      → q.files ≡ w.files
      → InitError user role room info address w q (some permission_denied)
  incomplete :
      given_size info ≡ none
      → q.files ≡ w.files
      → InitError user role room info address w q (some invalid_input)
  duplicate :
      (f : File)
      → newest_duplicate room info.sha256_whole w ≡ some f
      → q.files ≡ w.files
      → InitError user role room info address w q (some duplicate_file_in_room)
  not_shared :
      Fault w ⊎ Refused room user w
      → q.files ≡ w.files
      → q.registry ≡ w.registry
      → InitError user role room info address w q (some database_error)
  not_begun :
      (u : Upload) (n : ℕ) (code : ErrorCode)
      → FreshError u address (after_calls n w) q (some code)
      → InitError user role room info address w q (some code)
  not_stored :
      (u : Upload) (n : ℕ)
      → FreshError u address (after_calls n w) q none
      → InitError user role room info address w q (some database_error)
