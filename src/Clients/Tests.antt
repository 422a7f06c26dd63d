-- ===== src/Clients/Tests.antt =====
-- The theorems about client messages at a concrete world: user 2 is logged in, and owns the room 5.
use lan_secure_file_system.Common.{◌≡◌, ◌⊎◌, some, []}
use lan_secure_file_system.World.{World, returned, Runs, other_role}
use lan_secure_file_system.World.Samples.{populated}
use lan_secure_file_system.Accounts.{Identity, login}
use lan_secure_file_system.Clients.{
  given, to_remove_member, command, serve, handle_request, handle_create_share_token,
}
use lan_secure_file_system.Clients.Subscriptions.{
  Permitted, handle_subscribe_room, handle_subscribe_room-guards,
}
use lan_secure_file_system.Notifications.{add_subscriber}
use lan_secure_file_system.Clients.Guard.{Served, CommandError, command_is_guarded}
use lan_secure_file_system.Clients.Grants.{Shared, handle_create_share_token-Runs}

abbrev logged_in : World
logged_in = (login 12 72 populated).1

command_is_guarded_example :
    Runs
      (handle_request (command (some 1000) (to_remove_member 5 3)))
      logged_in
      (λ a q. Served (λ i. serve i (to_remove_member 5 3)) (some 1000) logged_in (returned a) q)
      (λ code q. CommandError (λ i. serve i (to_remove_member 5 3)) (some 1000) logged_in q code)
command_is_guarded_example = command_is_guarded (some 1000) (to_remove_member 5 3) logged_in

abbrev user_2 : Identity
user_2 = record { user_id = 2; global_role = other_role 1 }

handle_create_share_token-Runs_example :
    Runs
      (handle_create_share_token user_2 9 (given 3) (given 300))
      populated
      (λ a q. Shared user_2 9 (given 3) (given 300) populated q)
      (λ code q. q.share_tokens ≡ populated.share_tokens)
handle_create_share_token-Runs_example =
    handle_create_share_token-Runs user_2 9 (given 3) (given 300) populated

handle_subscribe_room-guards_example :
    ((handle_subscribe_room 7 (some 1000) 5 logged_in []).1 ≡ [])
    ⊎ (((handle_subscribe_room 7 (some 1000) 5 logged_in []).1 ≡ add_subscriber 5 7 [])
        × Permitted (some 1000) 5 logged_in)
handle_subscribe_room-guards_example = handle_subscribe_room-guards 7 (some 1000) 5 logged_in []
