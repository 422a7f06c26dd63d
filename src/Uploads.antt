-- ===== src/Uploads.antt =====
-- coordinator-server/upload/upload_service.py and dedup_checker.py: the control plane of an upload.
pub mod Completion
pub mod Slots
pub mod Outcomes
pub mod Failures
pub mod Lookups
pub mod Admission
pub mod Initiation
pub mod Moves
mod Tests
use lan_secure_file_system.Common.{
  ℕ, suc, ◌+◌, ◌-◌, Bool, true, false, ◌&&◌, ◌||◌, not, Option, none, some, List, [], ◌∷◌, Text,
  is_empty, text_eq, first, keep, take, change, sort, leb, ltb, ◌==◌, if◌then◌else◌,
}
use Prim.Native.Nat.{◌/◌}
use lan_secure_file_system.Registry.{Address, Registry, has_address, get_storage_address}
use lan_secure_file_system.Registry.Balancing.{select_for_upload, release_reservation}
use lan_secure_file_system.Registry.Manifest.{node_has_file}
use lan_secure_file_system.World.{
  Role, FileStatus, ready, uploading, deleted, is_ready, is_uploading, File, StoredName, Db, World,
  AuditEntry, upload, Event, file_deleted, new_file, TicketFields, Ticket, Action,
  permission_denied, invalid_input, duplicate_file_in_room, storage_node_unavailable,
  database_error, file_not_found, storage_node_mismatch, hash_mismatch, pure, fail, throw, ◌>>=◌,
  ◌>>◌, attempt, require, present, maybe, choose, look, manage, clock, query, update, insert_row,
  new_uuid, set_ticket, audit, broadcast,
}
use lan_secure_file_system.Access.{check_permission, upload_file}
use lan_secure_file_system.Files.{
  file_of, set_status, insert_file, max_version, version_after, is_live,
}

-- The truth value of an optional id: neither `None` nor empty.
abbrev pub is_named : Option ℕ → Bool
is_named none = false
is_named (some k) = not (k == 0)

-- `node_id or self.default_storage_node_id`
abbrev pub id_or : Option ℕ → ℕ → ℕ
id_or none default = default
id_or (some k) default = if k == 0 then default else k

-- `storage_address or self.storage_address`
abbrev address_or : Option Address → Address → Option Address
address_or given default = if has_address given then given else some default

-- `_is_reusable_dedup_node`
unfoldable pub is_reusable_dedup_node : World → Option ℕ → Text → Bool
is_reusable_dedup_node w id sha =
    not (is_named id) || (not w.config.has_registry || node_has_file w.registry w.now id (some sha))

-- `_dedup_storage_address`
unfoldable pub dedup_storage_address : World → Option ℕ → Option Address → Option Address
dedup_storage_address w id address =
    if is_named id && w.config.has_registry
    then get_storage_address w.registry w.now id
    else address_or address w.config.storage_address

-- `_pick_reusable_dedup`
pub pick_reusable_dedup : World → List File → Option Address → Option (File × Option Address)
pick_reusable_dedup w [] address = none
pick_reusable_dedup w (c ∷ cs) address =
    let rest = pick_reusable_dedup w cs address in
    let resolved = dedup_storage_address w c.storage_node_id address in
    if is_reusable_dedup_node w c.storage_node_id c.sha256_whole && has_address resolved
    then some (c, resolved)
    else rest

-- The node that an upload goes to.
pub record Selected : Type 0 where
  pub node_id : ℕ
  pub storage_address : Option Address

abbrev pub choose_node : Option Address → ℕ → World → Registry × Option Selected
choose_node address id w =
    if w.config.has_registry
    then (let (r, picked) =
          select_for_upload w.registry w.now w.draws (some id) w.config.slot_reservation_ttl in
        (
          r,
          elim picked [
            | none ↦ none
            | some ref ↦ some (record {
              node_id = (r.objects ref).node_id;
              storage_address = (r.objects ref).storage_address;
            })
          ],
        ))
    else (
      w.registry,
      some (record {
        node_id = w.config.default_storage_node_id;
        storage_address = address_or address w.config.storage_address;
      }),
    )

-- `_select_storage_node`, with `_legacy_node`
pub select_storage_node : Option Address → ℕ → Action (Option Selected)
select_storage_node address id = manage (choose_node address id)

-- `_release_slot`
abbrev pub released : ℕ → World → Registry
released id w =
    if w.config.has_registry && not (id == 0)
    then (release_reservation w.registry (some id)).0
    else w.registry

unfoldable pub release_slot : ℕ → Action (Unit {0})
release_slot id = manage (λ w. (released id w, tt))

-- `_ticket_fields`, with `create_hmac_ticket_fields` of ticket/hmac_ticket.py
unfoldable pub ticket_fields : ℕ → Option ℕ → ℕ → Action TicketFields
ticket_fields file node ttl = do
  session ← new_uuid
  look (λ w.
      let id = id_or node w.config.default_storage_node_id in
      record {
        session_id = session;
        ticket_node_id = id;
        ticket_expiry = w.now + ttl;
        ticket_signature = w.config.sign session file id (w.now + ttl);
      })

-- `find_same_room_duplicate`: a failed query is logged and counts as no duplicate.
abbrev pub room_duplicates : ℕ → Text → Db → List File
room_duplicates room sha db =
    keep (λ f. ((f.room_id == room) && text_eq f.sha256_whole sha) && is_live f.status) db.files

pub find_same_room_duplicate : ℕ → Text → Action (Option File)
find_same_room_duplicate room sha =
    attempt
      (query
        (λ db. first (sort (λ f g. leb g.created_at f.created_at) (room_duplicates room sha db))))
      (pure none)

-- `find_deduplication_candidates`: the oldest twenty READY files with that content.
abbrev pub same_content : Text → Db → List File
same_content sha db = keep (λ f. text_eq f.sha256_whole sha && is_ready f.status) db.files

pub find_deduplication_candidates : Text → Action (List File)
find_deduplication_candidates sha =
    attempt
      (query (λ db. take 20 (sort (λ f g. leb f.created_at g.created_at) (same_content sha db))))
      (pure [])

-- `check_deduplication`, which the coordinator no longer calls
unfoldable check_deduplication : Text → Action (Option File)
check_deduplication sha = attempt (query (λ db. first (same_content sha db))) (pure none)

-- `_calculate_next_version`: every file of that name in the room counts.
pub next_version : ℕ → ℕ → Action ℕ
next_version room name =
    attempt
      (do
        m ← query (λ db.
            max_version (keep (λ f. (f.room_id == room) && (f.original_name == name)) db.files))
        pure (version_after m))
      (pure 1)

-- `math.ceil(size_bytes / chunk_size) if size_bytes > 0 else 1`
abbrev pub count_chunks : ℕ → ℕ → ℕ
count_chunks size chunk = if size == 0 then 1 else (size + chunk - 1) / chunk

-- `file_info`; a missing field is 0, `none` or the empty text.
pub record FileInfo : Type 0 where
  pub original_name : ℕ
  pub size_bytes : Option ℕ
  pub mime_type : ℕ
  pub sha256_whole : Text

abbrev pub given_size : FileInfo → Option ℕ
given_size info =
    if (info.original_name == 0) || ((info.mime_type == 0) || is_empty info.sha256_whole)
    then none
    else info.size_bytes

-- The upload plan; a deduplicated one has no ticket.
pub record Plan : Type 0 where
  pub file_id : ℕ
  pub ticket : Option (ℕ × TicketFields)
  pub storage_address : Option Address
  pub storage_node_id : Option ℕ
  pub chunk_size : ℕ
  pub total_chunks : ℕ
  pub deduplicated : Bool

-- What both ways of an upload store.
pub record Upload : Type 0 where
  pub user : ℕ
  pub room : ℕ
  pub info : FileInfo
  pub size : ℕ
  pub version : ℕ
  pub chunks : ℕ

abbrev pub upload_row : Upload → ℕ → StoredName → FileStatus → Option ℕ → World → File
upload_row u id stored status node w = record {
  id = id;
  room_id = u.room;
  original_name = u.info.original_name;
  stored_name = stored;
  version = u.version;
  uploader_id = u.user;
  size_bytes = u.size;
  mime_type = u.info.mime_type;
  sha256_whole = u.info.sha256_whole;
  total_chunks = u.chunks;
  chunk_size = w.config.chunk_size;
  status = status;
  storage_node_id = node;
  created_at = w.now;
}

abbrev pub upload_entry : Option ℕ → ℕ → Option ℕ → Bool → AuditEntry
upload_entry actor file room ok = record {
  actor_id = actor;
  action = upload;
  target_id = file;
  room_id = room;
  succeeded = ok;
}

-- The content is there already: a READY row that shares its stored object.
pub upload_deduplicated : Upload → File → Option Address → Action Plan
upload_deduplicated u existing address = do
  id ← new_uuid
  row ← look (upload_row u id existing.stored_name ready existing.storage_node_id)
  insert_row (insert_file row)
  audit (upload_entry (some u.user) id (some u.room) true)
  pure (record {
    file_id = id;
    ticket = none;
    storage_address = address;
    storage_node_id = existing.storage_node_id;
    chunk_size = row.chunk_size;
    total_chunks = u.chunks;
    deduplicated = true;
  })

-- New content: a slot on a node, an UPLOADING row and a ticket.
pub upload_fresh : Upload → Option Address → Action Plan
upload_fresh u address = do
  id ← new_uuid
  picked ← select_storage_node address id
  node ← present picked storage_node_unavailable
  row ←
      look
        (upload_row u id (record { in_room = u.room; of_file = id }) uploading (some node.node_id))
  attempt (insert_row (insert_file row)) (release_slot id >> throw)
  ticket ← new_uuid
  ttl ← look (λ w. w.config.upload_ticket_ttl)
  now ← clock
  fields ← ticket_fields id (some node.node_id) ttl
  set_ticket ticket
      (record {
        for_upload = true;
        file_id = id;
        issued_to = some u.user;
        of_room = some u.room;
        total_chunks = u.chunks;
        chunk_size = row.chunk_size;
        sha256_whole = u.info.sha256_whole;
        stored_name = row.stored_name;
        storage_node_id = some node.node_id;
        storage_address = node.storage_address;
        fields = fields;
        expires_at = now + ttl;
      })
      ttl
  pure (record {
    file_id = id;
    ticket = some (ticket, fields);
    storage_address = node.storage_address;
    storage_node_id = some node.node_id;
    chunk_size = row.chunk_size;
    total_chunks = u.chunks;
    deduplicated = false;
  })

abbrev pub is_some : {A : Type 0} → Option A → Bool
is_some none = false
is_some (some a) = true

-- `handle_init_upload`
pub init_upload : ℕ → Role → ℕ → FileInfo → Option Address → Action Plan
init_upload user role room info address = do
  allowed ← check_permission user role (some room) upload_file
  require allowed permission_denied
  size ← present (given_size info) invalid_input
  duplicate ← find_same_room_duplicate room info.sha256_whole
  require (not (is_some duplicate)) duplicate_file_in_room
  candidates ← find_deduplication_candidates info.sha256_whole
  existing ← look (λ w. pick_reusable_dedup w candidates address)
  version ← next_version room info.original_name
  chunks ← look (λ w. count_chunks size w.config.chunk_size)
  attempt
      (let u : Upload = record {
        user = user;
        room = room;
        info = info;
        size = size;
        version = version;
        chunks = chunks;
      } in
        maybe existing (upload_fresh u address) (λ (f, resolved). upload_deduplicated u f resolved))
      (fail database_error)
