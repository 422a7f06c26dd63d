-- ===== src/Tickets.antt =====
-- coordinator-server/ticket/ticket_service.py: the verification and the deletion of a ticket that an
-- upload or a download stored in Redis. The tickets that `generate_upload_ticket` and
-- `generate_download_ticket` would store are not used by the services, which store their own.
pub mod Verification
mod Tests
use lan_secure_file_system.Common.{ℕ, Bool, true, false, Option, none, some, leb}
use lan_secure_file_system.World.{
  Ticket, Action, ticket_not_found, ticket_expired, internal_error, pure, fail, ◌>>=◌, ◌>>◌,
  attempt, maybe, choose, clock, get_ticket, delete_ticket, look,
}

-- `verify_ticket`: Redis forgets a ticket when its time is over; the expiry in the ticket is checked too.
unfoldable pub verify_ticket : ℕ → Action Ticket
verify_ticket id =
    attempt
      (do
        row ← get_ticket id
        maybe row (fail ticket_not_found) (λ t. do
          now ← clock
          choose (leb t.expires_at now) (do delete_ticket id; fail ticket_expired) (pure t)))
      (fail internal_error)

-- `delete_ticket`: whether Redis had the ticket, and `False` if the call fails
unfoldable drop_ticket : ℕ → Action Bool
drop_ticket id =
    attempt
      (do
        had ←
            look (λ w. elim (w.config.ticket_of w.redis id w.now) [ none ↦ false | some t ↦ true ])
        delete_ticket id
        pure had)
      (pure false)
