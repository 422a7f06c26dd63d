-- ===== src/Clients/Subscriptions.antt =====
-- notification/notification_handlers.py: who may hear of a room.
use mathlib.Core.Path.{subst}
use lan_secure_file_system.Common.{
  ℕ, ◌≡◌, refl, ◌⊎◌, inl, inr, not, Option, none, some, ◌==◌, Bool-cases,
}
use lan_secure_file_system.World.{
  World, ErrorCode, internal_error, invalid_request, permission_denied, Outcome, returned, failed,
  raised, Action, Meets, Runs, fail, ◌>>=◌, ◌>>◌, attempt, require, bind, weaken, on_attempt,
  on_fail, on_require,
}
use lan_secure_file_system.Access.{check_permission, view_files}
use lan_secure_file_system.Access.Checks.{May, on_check_permission}
use lan_secure_file_system.Accounts.{Identity, require_auth}
use lan_secure_file_system.Accounts.Validation.{Validated, validate_token-Runs}
use lan_secure_file_system.Notifications.{Subscribers, add_subscriber, remove_subscriber}

-- The tests of `handle_subscribe_room`
unfoldable pub may_subscribe : (room_id : ℕ) → Identity → Action (Unit {0})
may_subscribe room_id i = do
  require (not (room_id == 0)) invalid_request
  allowed ← check_permission i.user_id i.global_role (some room_id) view_files
  require allowed permission_denied

-- What follows the tests, where they succeed: a change of the map of subscribers
abbrev pub then_change :
    Outcome (Unit {0}) × World
    → (Subscribers → Subscribers)
    → Subscribers
    → (Outcome (Unit {0}) × World) × Subscribers
then_change (returned u, q) f d = ((returned u, q), f d)
then_change (failed code, q) f d = ((failed code, q), d)
then_change (raised, q) f d = ((raised, q), d)

unfoldable pub handle_subscribe_room :
    (connection : ℕ) (token : Option ℕ) (room_id : ℕ)
    → World
    → Subscribers
    → (Outcome (Unit {0}) × World) × Subscribers
handle_subscribe_room connection token room_id w d =
    then_change (attempt (require_auth (may_subscribe room_id) token) (fail internal_error) w)
      (add_subscriber room_id connection) d

-- To leave a room takes a session, but no role in the room.
unfoldable pub handle_unsubscribe_room :
    (connection : ℕ) (token : Option ℕ) (room_id : ℕ)
    → World
    → Subscribers
    → (Outcome (Unit {0}) × World) × Subscribers
handle_unsubscribe_room connection token room_id w d =
    then_change
      (attempt (require_auth (λ i. require (not (room_id == 0)) invalid_request) token)
        (fail internal_error) w)
      (remove_subscriber room_id connection) d

-- The session under the token is that of a user who may see the files of the room.
pub record Permitted (token : Option ℕ) (room_id : ℕ) (w : World) : Type 0 where
  pub session_token : ℕ
  pub is_token : token ≡ some session_token
  pub identity : Identity
  pub validated : Validated session_token w identity
  pub may_view : May identity.user_id identity.global_role room_id view_files w.db

may_subscribe-Runs :
    (t room_id : ℕ) (w : World) (i : Identity)
    → Validated t w i
    → (n : ℕ) (q : World) → q ≡ record w { calls = n }
    → Runs (may_subscribe room_id i) q (λ u p. Permitted (some t) room_id w) (λ code p. Unit {0})
unfolding may_subscribe
may_subscribe-Runs t room_id w i v n q u = bind (
    on_require _ _ (λ e. tt)
      (λ e. bind (
        on_check_permission i.user_id i.global_role room_id view_files q (λ f. tt)
          (λ m allowed yes no.
            on_require _ _ (λ a. tt)
              (λ a. record {
                session_token = t;
                is_token = refl;
                identity = i;
                validated = v;
                may_view =
                    subst (λ p. May i.user_id i.global_role room_id view_files p.db) u (yes a);
              })))))

authorized-Runs :
    (token : Option ℕ) (room_id : ℕ) (w : World)
    → Runs
        (require_auth (may_subscribe room_id) token)
        w
        (λ u p. Permitted token room_id w)
        (λ code p. Unit {0})
unfolding require_auth
authorized-Runs none room_id w = on_fail _ tt
authorized-Runs (some t) room_id w = elim (Bool-cases (t == 0)) [
  | inl e ↦ rw (require_auth, e) (on_fail _ tt)
  | inr e ↦
      rw (require_auth, e)
        (bind (
          weaken (validate_token-Runs t w)
            (λ i q h. may_subscribe-Runs t room_id w i h.0 h.1.0 q h.1.1) (λ code q h. tt)))
]

refused : (P : Type 0) (code : Option ErrorCode) (q : World) → elim code as (λ _. Type 0) [
  | none ↦ Runs (fail internal_error) q (λ (u : Unit {0}) p. P) (λ c p. Unit {0})
  | some c ↦ Unit {0}
]
refused P none q = on_fail _ tt
refused P (some c) q = tt

subscribing-Runs :
    (token : Option ℕ) (room_id : ℕ) (w : World)
    → Runs
        (attempt (require_auth (may_subscribe room_id) token) (fail internal_error))
        w
        (λ u p. Permitted token room_id w)
        (λ code p. Unit {0})
subscribing-Runs token room_id w = on_attempt _ _ (
    weaken (authorized-Runs token room_id w) (λ u p h. h)
      (λ code q h. refused (Permitted token room_id w) code q))

changed :
    (P : Type 0) (r : Outcome (Unit {0}) × World) (f : Subscribers → Subscribers) (d : Subscribers)
    → Meets (λ u p. P) (λ code p. Unit {0}) r
    → ((then_change r f d).1 ≡ d) ⊎ (((then_change r f d).1 ≡ f d) × P)
changed P (returned u, q) f d h = inr (refl, h)
changed P (failed code, q) f d h = inl refl
changed P (raised, q) f d h = inl refl

-- SUBSCRIBE_ROOM adds its connection to its room only if the token is that of a session whose user may see the
-- files of the room; in every other case the subscribers stay as they are.
pub handle_subscribe_room-guards :
    (connection : ℕ) (token : Option ℕ) (room_id : ℕ) (w : World) (d : Subscribers)
    → ((handle_subscribe_room connection token room_id w d).1 ≡ d)
      ⊎ (((handle_subscribe_room connection token room_id w d).1
            ≡ add_subscriber room_id connection d)
          × Permitted token room_id w)
unfolding handle_subscribe_room
handle_subscribe_room-guards connection token room_id w d =
    changed (Permitted token room_id w) _ (add_subscriber room_id connection) d
      (subscribing-Runs token room_id w).ends
