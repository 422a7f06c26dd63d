-- ===== src/Clients.antt =====
-- coordinator-server/client_socket_server.py and the handlers that it calls (auth/auth_handlers.py,
-- room/room_handlers.py, file/file_handlers.py, upload/upload_handlers.py, download/download_handlers.py):
-- how a client's message becomes a call of a service. A field that is missing or empty is 0, or the empty
-- text. An error message is the code that it has; the texts beside the code are left out, as are PING
-- and STATUS.
pub mod Guard
pub mod Grants
pub mod Moves
pub mod Subscriptions
mod Tests
use lan_secure_file_system.Common.{
  ℕ, Bool, true, false, not, ◌&&◌, Option, none, some, List, Text, is_empty, ltb, leb, ◌==◌,
}
use lan_secure_file_system.World.{
  Role, Room, Member, File, Action, invalid_input, internal_error, pure, fail, throw, choose, ◌>>=◌,
  ◌>>◌, attempt, maybe, require, clock, look,
}
use lan_secure_file_system.Registry.{Address}
use lan_secure_file_system.Accounts.{Identity, Login, is_named, signup, login, logout, require_auth}
use lan_secure_file_system.Rooms.{create, add, remove, set_member_role}
use lan_secure_file_system.Rooms.Listing.{list_rooms, list_members}
use lan_secure_file_system.Files.{list_files, get_file_detail, get_file_versions, delete}
use lan_secure_file_system.Uploads.{FileInfo, Plan, init_upload}
use lan_secure_file_system.Downloads.{
  DownloadPlan, init_download_direct, init_download_share, share,
}

-- A field that should be a number or the text of a time in ISO 8601: `unreadable` is a value that cannot be
-- parsed, and `mistyped` one that is no text.
pub data Field : Type 0 where
  absent unreadable mistyped : Field
  given : ℕ → Field

-- A message that needs a session
pub data Command : Type 0 where
  to_create_room : (name : Text) → Command
  to_add_member to_set_role : (room_id user_id : ℕ) (role : Role) → Command
  to_remove_member : (room_id user_id : ℕ) → Command
  to_list_rooms : Command
  to_list_members to_list_files : (room_id : ℕ) → Command
  to_see_file to_delete_file : (file_id : ℕ) → Command
  to_see_versions : (room_id file_name : ℕ) → Command
  to_upload :
      (room_id : ℕ) (file_info : Option FileInfo) (storage_address : Option Address) → Command
  to_download : (file_id : ℕ) (version : Option ℕ) → Command
  to_share : (file_id : ℕ) (max_downloads expires_at : Field) → Command

-- A client's message
pub data Request : Type 0 where
  sign_up : (username email password : ℕ) → Request
  log_in : (username password : ℕ) → Request
  log_out : (token : ℕ) → Request
  init_download : (share_token : ℕ) (token : Option ℕ) (file_id : ℕ) (version : Option ℕ) → Request
  command : (token : Option ℕ) → Command → Request

-- The payload of a response
pub data Answer : Type 0 where
  signed_up : (user_id : ℕ) → Answer
  logged_in : Login → Answer
  done : Answer
  room_created : Room → Answer
  rooms : List (Room × Option Role) → Answer
  members : List Member → Answer
  files : List (File × ℕ) → Answer
  file : File × ℕ → Answer
  upload_plan : Plan → Answer
  download_plan : DownloadPlan → Answer
  shared : (share_token : ℕ) → Answer

-- auth_handlers.py; the services test the same fields again.
unfoldable pub handle_signup : (username email password : ℕ) → Action Answer
handle_signup username email password = do
  require (not (username == 0) && (not (email == 0) && not (password == 0))) invalid_input
  id ← signup username email password
  pure (signed_up id)

unfoldable pub handle_login : (username password : ℕ) → Action Answer
handle_login username password = do
  require (not (username == 0) && not (password == 0)) invalid_input
  l ← login username password
  pure (logged_in l)

unfoldable pub handle_logout : (token : ℕ) → Action Answer
handle_logout token = do require (not (token == 0)) invalid_input; logout token; pure done

-- room_handlers.py
unfoldable pub handle_create_room : Identity → Text → Action Answer
handle_create_room i name = do
  require (not (is_empty name)) invalid_input
  room ← create i.user_id i.global_role name
  pure (room_created room)

unfoldable pub handle_add_member : Identity → (room_id user_id : ℕ) → Role → Action Answer
handle_add_member i room_id user_id role = do
  require (not (room_id == 0) && (not (user_id == 0) && is_named role)) invalid_input
  add i.user_id i.global_role room_id user_id role
  pure done

unfoldable pub handle_remove_member : Identity → (room_id user_id : ℕ) → Action Answer
handle_remove_member i room_id user_id = do
  require (not (room_id == 0) && not (user_id == 0)) invalid_input
  remove i.user_id i.global_role room_id user_id
  pure done

unfoldable pub handle_set_role : Identity → (room_id user_id : ℕ) → Role → Action Answer
handle_set_role i room_id user_id role = do
  require (not (room_id == 0) && (not (user_id == 0) && is_named role)) invalid_input
  set_member_role i.user_id i.global_role room_id user_id role
  pure done

unfoldable pub handle_list_rooms : Identity → Action Answer
handle_list_rooms i = do found ← list_rooms i.user_id i.global_role; pure (rooms found)

unfoldable pub handle_list_members : Identity → ℕ → Action Answer
handle_list_members i room_id = do
  require (not (room_id == 0)) invalid_input
  found ← list_members i.user_id i.global_role room_id
  pure (members found)

-- file_handlers.py
unfoldable pub handle_list_files : Identity → ℕ → Action Answer
handle_list_files i room_id = do
  require (not (room_id == 0)) invalid_input
  found ← list_files i.user_id i.global_role room_id
  pure (files found)

unfoldable pub handle_file_detail : Identity → ℕ → Action Answer
handle_file_detail i file_id = do
  require (not (file_id == 0)) invalid_input
  found ← get_file_detail i.user_id i.global_role file_id
  pure (file found)

unfoldable pub handle_file_versions : Identity → (room_id file_name : ℕ) → Action Answer
handle_file_versions i room_id file_name = do
  require (not (room_id == 0) && not (file_name == 0)) invalid_input
  found ← get_file_versions i.user_id i.global_role room_id file_name
  pure (files found)

unfoldable pub handle_delete_file : Identity → ℕ → Action Answer
handle_delete_file i file_id = do
  require (not (file_id == 0)) invalid_input
  delete i.user_id i.global_role file_id
  pure done

-- upload_handlers.py
unfoldable pub handle_init_upload : Identity → ℕ → Option FileInfo → Option Address → Action Answer
handle_init_upload i room_id file_info address = do
  require (not (room_id == 0)) invalid_input
  maybe file_info (fail invalid_input) (λ info. do
    plan ← init_upload i.user_id i.global_role room_id info address
    pure (upload_plan plan))

-- download_handlers.py
unfoldable pub handle_init_download : Identity → ℕ → Option ℕ → Action Answer
handle_init_download i file_id version = do
  require (not (file_id == 0)) invalid_input
  plan ← init_download_direct i.user_id i.global_role file_id version
  pure (download_plan plan)

unfoldable pub handle_init_download_share : (token file_id : ℕ) → Action Answer
handle_init_download_share token file_id = do
  require (not (token == 0) && not (file_id == 0)) invalid_input
  plan ← init_download_share token file_id
  pure (download_plan plan)

abbrev pub is_given : Field → Bool
is_given absent = false
is_given unreadable = true
is_given mistyped = true
is_given (given n) = true

abbrev pub read : Field → Option ℕ
read absent = none
read unreadable = none
read mistyped = none
read (given n) = some n

abbrev pub is_mistyped : Field → Bool
is_mistyped absent = false
is_mistyped unreadable = false
is_mistyped mistyped = true
is_mistyped (given n) = false

-- The end of `handle_create_share_token`; an expiry that is no text has no `replace`, which raises; a time is read after the limit on the uses, and must be to come.
unfoldable pub grant_share : Identity → (file_id max_downloads : ℕ) → Field → Action Answer
grant_share i file_id max_downloads expires_at = do
  require (leb 1 max_downloads && leb max_downloads 10000) invalid_input
  choose (is_mistyped expires_at) throw (
      maybe (read expires_at) (fail invalid_input) (λ expiry. do
        now ← clock
        require (ltb now expiry) invalid_input
        secret ← look (λ w. w.draws.0)
        token ← share i.user_id i.global_role file_id max_downloads expiry secret
        pure (shared token)))

unfoldable pub handle_create_share_token :
    Identity → ℕ → (max_downloads expires_at : Field) → Action Answer
handle_create_share_token i file_id max_downloads expires_at = do
  require (not (file_id == 0) && (is_given max_downloads && is_given expires_at)) invalid_input
  maybe (read max_downloads) (fail invalid_input) (λ n. grant_share i file_id n expires_at)

-- `_handle_create_room` and the others of client_socket_server.py that need a session
unfoldable pub serve : Identity → Command → Action Answer
serve i (to_create_room name) = handle_create_room i name
serve i (to_add_member room_id user_id role) = handle_add_member i room_id user_id role
serve i (to_set_role room_id user_id role) = handle_set_role i room_id user_id role
serve i (to_remove_member room_id user_id) = handle_remove_member i room_id user_id
serve i to_list_rooms = handle_list_rooms i
serve i (to_list_members room_id) = handle_list_members i room_id
serve i (to_list_files room_id) = handle_list_files i room_id
serve i (to_see_file file_id) = handle_file_detail i file_id
serve i (to_delete_file file_id) = handle_delete_file i file_id
serve i (to_see_versions room_id file_name) = handle_file_versions i room_id file_name
serve i (to_upload room_id file_info address) = handle_init_upload i room_id file_info address
serve i (to_download file_id version) = handle_init_download i file_id version
serve i (to_share file_id max_downloads expires_at) =
    handle_create_share_token i file_id max_downloads expires_at

-- `_handle_authenticated_request`
unfoldable pub handle_authenticated_request : (Identity → Action Answer) → Option ℕ → Action Answer
handle_authenticated_request handler token =
    attempt (require_auth handler token) (fail internal_error)

-- `_handle_init_download`, for a share token or a session
unfoldable pub handle_download_request :
    (share_token : ℕ) (token : Option ℕ) (file_id : ℕ) (version : Option ℕ) → Action Answer
handle_download_request share_token token file_id version =
    attempt
      (choose (not (share_token == 0)) (handle_init_download_share share_token file_id)
        (handle_authenticated_request (λ i. serve i (to_download file_id version)) token))
      (fail internal_error)

-- `_register_handlers` and the handlers that it names
unfoldable pub handle_request : Request → Action Answer
handle_request (sign_up username email password) =
    attempt (handle_signup username email password) (fail internal_error)
handle_request (log_in username password) =
    attempt (handle_login username password) (fail internal_error)
handle_request (log_out token) = attempt (handle_logout token) (fail internal_error)
handle_request (init_download token session_token file_id version) =
    handle_download_request token session_token file_id version
handle_request (command token c) = handle_authenticated_request (λ i. serve i c) token
