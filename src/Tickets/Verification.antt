-- ===== src/Tickets/Verification.antt =====
-- Which tickets are accepted.
use lan_secure_file_system.Common.{ℕ, ◌≤◌, ◌<◌, ◌≡◌, refl, Option, none, some, ◌∷◌, arith}
use lan_secure_file_system.World.{
  World, Ticket, ticket_dropped, ErrorCode, ticket_not_found, ticket_expired, internal_error, Fault,
  Runs, bind, on_attempt, on_choose, on_clock, on_delete_ticket, on_fail, on_get_ticket, on_maybe,
  on_pure,
}
use lan_secure_file_system.Tickets.{verify_ticket}

-- Why a ticket is refused, and what that does to Redis
pub data TicketError (id : ℕ) (w q : World) : Option ErrorCode → Type 0 where
  unknown :
      w.config.ticket_of w.redis id w.now ≡ none
      → q.redis ≡ w.redis
      → TicketError id w q (some ticket_not_found)
  expired :
      (t : Ticket)
      → w.config.ticket_of w.redis id w.now ≡ some t
      → t.expires_at ≤ w.now
      → q.redis ≡ ticket_dropped id w.now ∷ w.redis
      → TicketError id w q (some ticket_expired)
  unread : Fault w → q.redis ≡ w.redis → TicketError id w q (some internal_error)

-- `verify_ticket` never raises and leaves the database and the registry alone. It answers the ticket that
-- Redis keeps under the id, if its own expiry is still to come, and sends Redis nothing. A ticket past its
-- expiry is deleted; otherwise the error says that there is none, or that a call failed.
pub verify_ticket-Runs :
    (id : ℕ) (w : World)
    → Runs
        (verify_ticket id)
        w
        (λ t q.
          (w.config.ticket_of w.redis id w.now ≡ some t)
          × (w.now < t.expires_at)
          × (q.redis ≡ w.redis)
          × (q.db ≡ w.db)
          × (q.registry ≡ w.registry))
        (λ code q. TicketError id w q code × (q.db ≡ w.db) × (q.registry ≡ w.registry))
unfolding verify_ticket
verify_ticket-Runs id w = on_attempt _ _ (
    bind (
      on_get_ticket _ (λ f. on_fail _ (unread f refl, refl, refl))
        (on_maybe _ _ _ (λ n. on_fail _ (unknown n refl, refl, refl))
          (λ t is. bind (
            on_clock (
              on_choose _ _ _
                (λ late. bind (
                  on_delete_ticket _ (λ f. on_fail _ (unread f refl, refl, refl))
                    (on_fail _ (expired t is (ground arith) refl, refl, refl))))
                (λ early. on_pure _ (is, ground arith, refl, refl, refl))))))))
