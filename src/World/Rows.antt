-- ===== src/World/Rows.antt =====
-- The rows of the coordinator's tables (coordinator-server/alembic/versions), and what it sends out.
-- Ids, names, tokens and hashes of passwords are numbers, 0 for the empty text: the code only
-- compares them. Content hashes and room names are texts. Times are numbers.
use lan_secure_file_system.Common.{ℕ, Bool, true, false, Option, Text}
use lan_secure_file_system.Registry.{Address}

-- The role texts that the code compares with, and any other text.
pub data Role : Type 0 where
  admin owner member viewer : Role
  other_role : ℕ → Role

abbrev pub is_admin : Role → Bool
is_admin admin = true
is_admin owner = false
is_admin member = false
is_admin viewer = false
is_admin (other_role text) = false

abbrev pub is_owner : Role → Bool
is_owner owner = true
is_owner admin = false
is_owner member = false
is_owner viewer = false
is_owner (other_role text) = false

-- `files.status`
pub data FileStatus : Type 0 where
  ready uploading deleted missing : FileStatus

abbrev pub is_ready : FileStatus → Bool
is_ready ready = true
is_ready uploading = false
is_ready deleted = false
is_ready missing = false

abbrev pub is_uploading : FileStatus → Bool
is_uploading uploading = true
is_uploading ready = false
is_uploading deleted = false
is_uploading missing = false

pub record User : Type 0 where
  pub id : ℕ
  pub username : ℕ
  pub email : ℕ
  pub password_hash : ℕ
  pub global_role : Role

pub record Room : Type 0 where
  pub id : ℕ
  pub name : Text
  pub created_by : ℕ
  pub created_at : ℕ

pub record Member : Type 0 where
  pub room_id : ℕ
  pub user_id : ℕ
  pub role : Role
  pub added_at : ℕ

-- `f"{room_id}/{file_id}"`
pub record StoredName : Type 0 where
  pub in_room : ℕ
  pub of_file : ℕ

pub record File : Type 0 where
  pub id : ℕ
  pub room_id : ℕ
  pub original_name : ℕ
  pub stored_name : StoredName
  pub version : ℕ
  pub uploader_id : ℕ
  pub size_bytes : ℕ
  pub mime_type : ℕ
  pub sha256_whole : Text
  pub total_chunks : ℕ
  pub chunk_size : ℕ
  pub status : FileStatus
  pub storage_node_id : Option ℕ
  pub created_at : ℕ

pub record ShareToken : Type 0 where
  pub id : ℕ
  pub token : ℕ
  pub file_id : ℕ
  pub created_by : ℕ
  pub max_downloads : ℕ
  pub download_count : ℕ
  pub expires_at : ℕ

pub data AuditAction : Type 0 where
  create_room add_member remove_member set_role : AuditAction
  upload download delete_file create_share_token use_share_token : AuditAction
  sign_up log_in storage_node_auth storage_node_disconnect : AuditAction

-- A row of `audit_logs`, without the free-form detail.
pub record AuditEntry : Type 0 where
  pub actor_id : Option ℕ
  pub action : AuditAction
  pub target_id : ℕ
  pub room_id : Option ℕ
  pub succeeded : Bool

-- What is broadcast to the subscribers of a room; the deleter `none` is the text `system`.
pub data Event : Type 0 where
  member_added : (room_id user_id username : ℕ) (role : Role) → Event
  member_removed : (room_id user_id username : ℕ) → Event
  role_updated : (room_id user_id username : ℕ) (role : Role) → Event
  file_deleted : (room_id file_id file_name : ℕ) (deleted_by : Option ℕ) → Event
  new_file : (room_id file_id file_name uploader : ℕ) → Event

-- The fields of `create_hmac_ticket_fields`
pub record TicketFields : Type 0 where
  pub session_id : ℕ
  pub ticket_node_id : ℕ
  pub ticket_expiry : ℕ
  pub ticket_signature : ℕ

-- The metadata of a ticket; the uploader and the room are those of an upload ticket.
pub record Ticket : Type 0 where
  pub for_upload : Bool
  pub file_id : ℕ
  pub issued_to : Option ℕ
  pub of_room : Option ℕ
  pub total_chunks : ℕ
  pub chunk_size : ℕ
  pub sha256_whole : Text
  pub stored_name : StoredName
  pub storage_node_id : Option ℕ
  pub storage_address : Option Address
  pub fields : TicketFields
  pub expires_at : ℕ

-- The data of a session
pub record Session : Type 0 where
  pub user_id : ℕ
  pub global_role : Role
  pub created_at : ℕ

-- The commands that coordinator-server/redis_client.py sends to Redis, with the time: `SETEX` and `DEL`
-- of the keys `ticket:…` and `session:…`.
pub data RedisCommand : Type 0 where
  ticket_stored : (id : ℕ) (ticket : Ticket) (ttl at : ℕ) → RedisCommand
  ticket_dropped : (id at : ℕ) → RedisCommand
  session_stored : (token : ℕ) (session : Session) (ttl at : ℕ) → RedisCommand
  session_dropped : (token at : ℕ) → RedisCommand
