-- ===== src/Accounts/Moves.antt =====
-- Accounts and sessions leave the registry alone.
use lan_secure_file_system.Common.{ℕ}
use lan_secure_file_system.World.Moves.{Moves, Always, moves}
use lan_secure_file_system.World.{User}
use lan_secure_file_system.Accounts.{
  store_user, signup, load_user_profile, create_session, login, validate_token, logout,
}

pub Moves-signup : (username email password : ℕ) → Moves Always (signup username email password)
unfolding signup store_user
Moves-signup username email password = search moves depth 40

Moves-create_session : (u : User) → Moves Always (create_session u)
unfolding create_session load_user_profile
Moves-create_session u = search moves depth 40

pub Moves-login : (username password : ℕ) → Moves Always (login username password)
unfolding login
Moves-login username password = search (moves, Moves-create_session) depth 40

pub Moves-validate_token : (token : ℕ) → Moves Always (validate_token token)
unfolding validate_token
Moves-validate_token token = search moves depth 20

pub Moves-logout : (token : ℕ) → Moves Always (logout token)
unfolding logout
Moves-logout token = search moves depth 20
