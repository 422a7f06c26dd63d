-- ===== src/Downloads.antt =====
-- coordinator-server/download/download_service.py: direct downloads, share tokens and their use.
pub mod Sharing
pub mod Serving
pub mod Delivery
pub mod Refusals
pub mod Use
pub mod Charges
pub mod History
pub mod Tokens
pub mod Moves
mod Tests
use lan_secure_file_system.Common.{
  ℕ, suc, ◌+◌, ◌-◌, Bool, true, false, ◌&&◌, ◌||◌, not, Option, none, some, List, [], ◌∷◌, Text,
  first, find, keep, any, change, sort, leb, ltb, ◌==◌, if◌then◌else◌,
}
use lan_secure_file_system.Registry.{Address, has_address, get_storage_address}
use lan_secure_file_system.Registry.Manifest.{node_has_file}
use lan_secure_file_system.World.{
  Role, is_ready, File, ShareToken, Db, World, AuditEntry, download, create_share_token,
  use_share_token, TicketFields, Action, ErrorCode, permission_denied, file_not_found,
  file_not_ready, storage_node_unavailable, file_not_on_node, invalid_share_token,
  share_token_expired, share_token_exhausted, database_error, pure, fail, ◌>>=◌, ◌>>◌, attempt,
  require, present, maybe, choose, look, clock, query, update, update_returning, insert_row,
  new_uuid, set_ticket, audit,
}
use lan_secure_file_system.Access.{check_permission, download_file, create_share_token as sharing}
use lan_secure_file_system.Rooms.{has_user}
use lan_secure_file_system.Files.{file_of}
use lan_secure_file_system.Uploads.{is_named, ticket_fields}

-- What `_resolve_storage_node` finds: an address, or why there is none.
pub data Resolved : Type 0 where
  resolved : Option Address → Resolved
  unresolved : ErrorCode → Resolved

pub resolve_storage_node : File → World → Resolved
resolve_storage_node f w =
    if is_named f.storage_node_id && w.config.has_registry
    then (let address = get_storage_address w.registry w.now f.storage_node_id in
        if not (has_address address)
        then unresolved storage_node_unavailable
        else if not (node_has_file w.registry w.now f.storage_node_id (some f.sha256_whole))
        then unresolved file_not_on_node
        else resolved address)
    else resolved (some w.config.storage_address)

pub record DownloadPlan : Type 0 where
  pub file_id : ℕ
  pub ticket : ℕ
  pub storage_address : Option Address
  pub storage_node_id : Option ℕ
  pub file_name : ℕ
  pub file_size : ℕ
  pub sha256_whole : Text
  pub total_chunks : ℕ
  pub chunk_size : ℕ
  pub fields : TicketFields

-- The ticket and the plan of a download.
pub issue : File → Option Address → Action DownloadPlan
issue f address = do
  ticket ← new_uuid
  ttl ← look (λ w. w.config.download_ticket_ttl)
  now ← clock
  fields ← ticket_fields f.id f.storage_node_id ttl
  set_ticket ticket
      (record {
        for_upload = false;
        file_id = f.id;
        issued_to = none;
        of_room = none;
        total_chunks = f.total_chunks;
        chunk_size = f.chunk_size;
        sha256_whole = f.sha256_whole;
        stored_name = f.stored_name;
        storage_node_id = f.storage_node_id;
        storage_address = address;
        fields = fields;
        expires_at = now + ttl;
      })
      ttl
  pure (record {
    file_id = f.id;
    ticket = ticket;
    storage_address = address;
    storage_node_id = f.storage_node_id;
    file_name = f.original_name;
    file_size = f.size_bytes;
    sha256_whole = f.sha256_whole;
    total_chunks = f.total_chunks;
    chunk_size = f.chunk_size;
    fields = fields;
  })

abbrev pub deliver_resolved : Resolved → Action (Option Address)
deliver_resolved (resolved address) = pure address
deliver_resolved (unresolved code) = fail code

abbrev is_version : Option ℕ → File → Bool
is_version none f = true
is_version (some v) f = f.version == v

abbrev pub file_at_version : ℕ → Option ℕ → Db → Option File
file_at_version id version db = find (λ f. (f.id == id) && is_version version f) db.files

-- `handle_init_download_direct`
pub init_download_direct : ℕ → Role → ℕ → Option ℕ → Action DownloadPlan
init_download_direct user role id version =
    attempt
      (do
        row ← query (file_at_version id version)
        f ← present row file_not_found
        require (is_ready f.status) file_not_ready
        allowed ← check_permission user role (some f.room_id) download_file
        require allowed permission_denied
        found ← look (resolve_storage_node f)
        address ← deliver_resolved found
        plan ← issue f address
        audit (record {
          actor_id = some user;
          action = download;
          target_id = id;
          room_id = some f.room_id;
          succeeded = true;
        })
        pure plan)
      (fail database_error)

-- `INSERT INTO share_tokens`: a new id and a new token, for a file and by a user that exist.
abbrev pub insert_token : ShareToken → Db → Option Db
insert_token t db =
    if any (λ s. (s.id == t.id) || (s.token == t.token)) db.share_tokens
      || not (any (λ f. f.id == t.file_id) db.files && has_user t.created_by db)
    then none
    else some (record db { share_tokens = t ∷ db.share_tokens })

-- `create_share_token`; `secret` is the text that `secrets.token_bytes(32).hex()` gives.
pub share : ℕ → Role → ℕ → ℕ → ℕ → ℕ → Action ℕ
share user role id max_downloads expires_at secret =
    attempt
      (do
        row ← query (file_of id)
        f ← present row file_not_found
        allowed ← check_permission user role (some f.room_id) sharing
        require allowed permission_denied
        token_id ← new_uuid
        insert_row (
            insert_token (record {
              id = token_id;
              token = secret;
              file_id = id;
              created_by = user;
              max_downloads = max_downloads;
              download_count = 0;
              expires_at = expires_at;
            }))
        audit (record {
          actor_id = some user;
          action = create_share_token;
          target_id = token_id;
          room_id = some f.room_id;
          succeeded = true;
        })
        pure secret)
      (fail database_error)

-- The row that the atomic UPDATE may consume.
abbrev pub is_usable : ℕ → ℕ → ℕ → ShareToken → Bool
is_usable token file now t =
    ((t.token == token) && (t.file_id == file))
    && (ltb t.download_count t.max_downloads && ltb now t.expires_at)

abbrev pub count_one : ShareToken → ShareToken
count_one t = record t { download_count = suc t.download_count }

-- `UPDATE share_tokens SET download_count = download_count + 1 WHERE … RETURNING …`
abbrev pub consume : ℕ → ℕ → ℕ → Db → Db × Option ShareToken
consume token file now db = (
  record db { share_tokens = change (is_usable token file now) count_one db.share_tokens },
  elim (find (is_usable token file now) db.share_tokens) [
    | none ↦ none
    | some t ↦ some (count_one t)
  ],
)

-- `UPDATE share_tokens SET download_count = download_count - 1 WHERE id = … AND download_count > 0`
abbrev pub give_back : ℕ → Db → Db
give_back id db = record db {
  share_tokens =
      change (λ t. (t.id == id) && ltb 0 t.download_count)
        (λ t. record t { download_count = t.download_count - 1 }) db.share_tokens;
}

-- `_refund_share_download`: a failed statement is logged.
pub refund : ℕ → Action (Unit {0})
refund id = attempt (update (give_back id)) (pure tt)

-- Why a token was not consumed
pub explain : ℕ → ℕ → ℕ → Action DownloadPlan
explain token file now = do
  row ← query (λ db. find (λ t. t.token == token) db.share_tokens)
  t ← present row invalid_share_token
  require (t.file_id == file) invalid_share_token
  require (ltb now t.expires_at) share_token_expired
  require (ltb t.download_count t.max_downloads) share_token_exhausted
  fail invalid_share_token

-- The delivery, once the file and its node are there
pub deliver_shared : ShareToken → File → Option Address → Action DownloadPlan
deliver_shared t f address = do
  plan ← issue f address
  audit (record {
    actor_id = some t.created_by;
    action = use_share_token;
    target_id = t.id;
    room_id = some f.room_id;
    succeeded = true;
  })
  pure plan

abbrev pub deliver_found : ShareToken → File → Resolved → Action DownloadPlan
deliver_found t f (resolved address) = deliver_shared t f address
deliver_found t f (unresolved code) = refund t.id >> fail code

-- The delivery, once a download of the token is consumed: each way out but the last refunds it.
pub use_consumed : ShareToken → ℕ → Action DownloadPlan
use_consumed t file = do
  row ← query (file_of file)
  maybe row (refund t.id >> fail file_not_found) (λ f.
      choose (is_ready f.status) (do found ← look (resolve_storage_node f); deliver_found t f found)
        (refund t.id >> fail file_not_ready))

-- `handle_init_download_share`
pub init_download_share : ℕ → ℕ → Action DownloadPlan
init_download_share token file =
    attempt
      (do
        now ← clock
        taken ← update_returning (consume token file now)
        maybe taken (explain token file now)
            (λ t. attempt (use_consumed t file) (refund t.id >> fail database_error)))
      (fail database_error)

-- `select_file_version`, which the coordinator does not call
unfoldable select_file_version : ℕ → ℕ → Option ℕ → Action File
select_file_version room name version =
    attempt
      (do
        row ← query (λ db. first (
            sort (λ f g. leb g.version f.version)
              (keep
                (λ f. ((f.room_id == room) && (f.original_name == name)) && is_version version f)
                db.files)))
        present row file_not_found)
      (fail database_error)
