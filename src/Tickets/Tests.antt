-- ===== src/Tickets/Tests.antt =====
-- The theorem about tickets, for one that was stored at time 100.
use lan_secure_file_system.Common.{◌<◌, ◌≡◌, false, none, some, [], ◌∷◌}
use lan_secure_file_system.World.{World, Ticket, TicketFields, ticket_stored, session_dropped, Runs}
use lan_secure_file_system.World.Samples.{populated}
use lan_secure_file_system.Tickets.{verify_ticket}
use lan_secure_file_system.Tickets.Verification.{TicketError, verify_ticket-Runs}

abbrev signed : TicketFields
signed = record {
  session_id = 70;
  ticket_node_id = 1;
  ticket_expiry = 1000;
  ticket_signature = 1080;
}

abbrev ticket : Ticket
ticket = record {
  for_upload = false;
  file_id = 9;
  issued_to = none;
  of_room = none;
  total_chunks = 1;
  chunk_size = 524288;
  sha256_whole = 97 ∷ [];
  stored_name = record { in_room = 5; of_file = 9 };
  storage_node_id = none;
  storage_address = none;
  fields = signed;
  expires_at = 1000;
}

-- A ticket that Redis still keeps, a second before its expiry
abbrev later : World
later = record populated {
  redis = session_dropped 3 150 ∷ ticket_stored 71 ticket 900 100 ∷ [];
  now = 999;
}

verify_ticket-Runs_example :
    Runs
      (verify_ticket 71)
      later
      (λ t q.
        (later.config.ticket_of later.redis 71 later.now ≡ some t)
        × (later.now < t.expires_at)
        × (q.redis ≡ later.redis)
        × (q.db ≡ later.db)
        × (q.registry ≡ later.registry))
      (λ code q. TicketError 71 later q code × (q.db ≡ later.db) × (q.registry ≡ later.registry))
verify_ticket-Runs_example = verify_ticket-Runs 71 later
