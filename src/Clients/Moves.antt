-- ===== src/Clients/Moves.antt =====
-- What a client's message does to the registry: INIT_UPLOAD takes a slot, and gives it back where it fails; no
-- other message touches it.
use lan_secure_file_system.Common.{ℕ, Option, none, some, ◌==◌, inl, inr, Bool-cases}
use lan_secure_file_system.World.{Action}
use lan_secure_file_system.World.Moves.{Moves, Always, moves, Moves-attempt, Moves-bind, Moves-fail}
use lan_secure_file_system.Accounts.{Identity, require_auth}
use lan_secure_file_system.Accounts.Moves.{
  Moves-signup, Moves-login, Moves-logout, Moves-validate_token,
}
use lan_secure_file_system.Rooms.Moves.{
  Moves-create, Moves-add, Moves-remove, Moves-set_member_role, Moves-list_rooms,
  Moves-list_members,
}
use lan_secure_file_system.Files.Moves.{
  Moves-list_files, Moves-get_file_detail, Moves-get_file_versions, Moves-delete,
}
use lan_secure_file_system.Uploads.Moves.{Moves-init_upload}
use lan_secure_file_system.Downloads.Moves.{
  Moves-init_download_direct, Moves-init_download_share, Moves-share,
}
use lan_secure_file_system.Clients.{
  Field, Command, to_create_room, to_add_member, to_set_role, to_remove_member, to_list_rooms,
  to_list_members, to_list_files, to_see_file, to_delete_file, to_see_versions, to_upload,
  to_download, to_share, Request, sign_up, log_in, log_out, init_download, command, Answer,
  handle_signup, handle_login, handle_logout, handle_create_room, handle_add_member,
  handle_remove_member, handle_set_role, handle_list_rooms, handle_list_members, handle_list_files,
  handle_file_detail, handle_file_versions, handle_delete_file, handle_init_upload,
  handle_init_download, handle_init_download_share, grant_share, handle_create_share_token, serve,
  handle_authenticated_request, handle_download_request, handle_request,
}

Moves-grant_share :
    (i : Identity) (file_id max_downloads : ℕ) (expires_at : Field)
    → Moves Always (grant_share i file_id max_downloads expires_at)
unfolding grant_share
Moves-grant_share i file_id max_downloads expires_at = search (moves, Moves-share) depth 40

Moves-serve : (i : Identity) (c : Command) → Moves Always (serve i c)
unfolding serve handle_create_room handle_add_member handle_remove_member handle_set_role
    handle_list_rooms handle_list_members handle_list_files handle_file_detail handle_file_versions
    handle_delete_file handle_init_upload handle_init_download handle_create_share_token
Moves-serve i (to_create_room name) = search (moves, Moves-create) depth 20
Moves-serve i (to_add_member room_id user_id role) = search (moves, Moves-add) depth 20
Moves-serve i (to_set_role room_id user_id role) = search (moves, Moves-set_member_role) depth 20
Moves-serve i (to_remove_member room_id user_id) = search (moves, Moves-remove) depth 20
Moves-serve i to_list_rooms = search (moves, Moves-list_rooms) depth 20
Moves-serve i (to_list_members room_id) = search (moves, Moves-list_members) depth 20
Moves-serve i (to_list_files room_id) = search (moves, Moves-list_files) depth 20
Moves-serve i (to_see_file file_id) = search (moves, Moves-get_file_detail) depth 20
Moves-serve i (to_delete_file file_id) = search (moves, Moves-delete) depth 20
Moves-serve i (to_see_versions room_id file_name) = search (moves, Moves-get_file_versions) depth 20
Moves-serve i (to_upload room_id file_info address) = search (moves, Moves-init_upload) depth 20
Moves-serve i (to_download file_id version) = search (moves, Moves-init_download_direct) depth 20
Moves-serve i (to_share file_id max_downloads expires_at) =
    search (moves, Moves-grant_share) depth 20

Moves-require_auth :
    (serves : Identity → Action Answer)
    → ((i : Identity) → Moves Always (serves i))
    → (token : Option ℕ) → Moves Always (require_auth serves token)
unfolding require_auth
Moves-require_auth serves h none = Moves-fail _
Moves-require_auth serves h (some t) = elim (Bool-cases (t == 0)) [
  | inl e ↦ rw (require_auth, e) (Moves-fail _)
  | inr e ↦ rw (require_auth, e) (Moves-bind (Moves-validate_token t) h)
]

Moves-served :
    (token : Option ℕ) (c : Command)
    → Moves Always (handle_authenticated_request (λ i. serve i c) token)
unfolding handle_authenticated_request
Moves-served token c =
    Moves-attempt (Moves-require_auth (λ i. serve i c) (λ i. Moves-serve i c) token) (Moves-fail _)

pub Moves-handle_request : (r : Request) → Moves Always (handle_request r)
unfolding handle_request handle_signup handle_login handle_logout handle_download_request
    handle_init_download_share
Moves-handle_request (sign_up username email password) = search (moves, Moves-signup) depth 20
Moves-handle_request (log_in username password) = search (moves, Moves-login) depth 20
Moves-handle_request (log_out token) = search (moves, Moves-logout) depth 20
Moves-handle_request (init_download token session_token file_id version) =
    search (moves, Moves-init_download_share, Moves-served) depth 20
Moves-handle_request (command token c) = Moves-served token c
