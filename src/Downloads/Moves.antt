-- ===== src/Downloads/Moves.antt =====
-- The download service leaves the registry alone.
use lan_secure_file_system.Common.{ℕ, Option}
use lan_secure_file_system.Registry.{Address}
use lan_secure_file_system.World.{Role, File, ShareToken}
use lan_secure_file_system.World.Moves.{Moves, Always, moves}
use lan_secure_file_system.Access.Moves.{Moves-check_permission}
use lan_secure_file_system.Uploads.Moves.{Moves-ticket_fields}
use lan_secure_file_system.Downloads.{
  issue, init_download_direct, share, refund, explain, deliver_shared, deliver_found, use_consumed,
  init_download_share, deliver_resolved, Resolved, resolved, unresolved,
}

Moves-issue : (f : File) (address : Option Address) → Moves Always (issue f address)
unfolding issue
Moves-issue f address = search (moves, Moves-ticket_fields) depth 40

Moves-deliver_resolved : (r : Resolved) → Moves Always (deliver_resolved r)
Moves-deliver_resolved (resolved address) = search moves depth 5
Moves-deliver_resolved (unresolved code) = search moves depth 5

pub Moves-init_download_direct :
    (user : ℕ) (role : Role) (id : ℕ) (version : Option ℕ)
    → Moves Always (init_download_direct user role id version)
unfolding init_download_direct
Moves-init_download_direct user role id version =
    search (moves, Moves-check_permission, Moves-issue, Moves-deliver_resolved) depth 40

pub Moves-share :
    (user : ℕ) (role : Role) (id max_downloads expires_at secret : ℕ)
    → Moves Always (share user role id max_downloads expires_at secret)
unfolding share
Moves-share user role id max_downloads expires_at secret =
    search (moves, Moves-check_permission) depth 40

Moves-refund : (id : ℕ) → Moves Always (refund id)
unfolding refund
Moves-refund id = search moves depth 20

Moves-explain : (token file now : ℕ) → Moves Always (explain token file now)
unfolding explain
Moves-explain token file now = search moves depth 20

Moves-deliver_found :
    (t : ShareToken) (f : File) (r : Resolved) → Moves Always (deliver_found t f r)
unfolding deliver_shared
Moves-deliver_found t f (resolved address) = search (moves, Moves-issue) depth 20
Moves-deliver_found t f (unresolved code) = search (moves, Moves-refund) depth 20

Moves-use_consumed : (t : ShareToken) (file : ℕ) → Moves Always (use_consumed t file)
unfolding use_consumed
Moves-use_consumed t file = search (moves, Moves-refund, Moves-deliver_found) depth 40

pub Moves-init_download_share : (token file : ℕ) → Moves Always (init_download_share token file)
unfolding init_download_share
Moves-init_download_share token file =
    search (moves, Moves-explain, Moves-use_consumed, Moves-refund) depth 40
