-- ===== src/Uploads/Admission.antt =====
-- What INIT_UPLOAD admits, and what it stores: handle_init_upload of
-- coordinator-server/upload/upload_service.py.
use lan_secure_file_system.Common.{
  ℕ, ◌≡◌, refl, ◌∙◌, ap, ◌⊎◌, inl, inr, true, false, not, ◌&&◌, ◌||◌, Option, none, some, ◌∷◌, any,
  ◌==◌, arith,
}
use lan_secure_file_system.Registry.{Address}
use lan_secure_file_system.World.{
  ready, uploading, File, Db, World, Ticket, ticket_stored, ErrorCode, storage_node_unavailable,
  Fault, Runs, bind, on_attempt, on_audit, on_clock, on_insert_row, on_look, on_manage, on_new_uuid,
  on_present, on_pure, on_set_ticket, on_throw, files-audited, registry-audited, redis-audited,
}
use lan_secure_file_system.Rooms.{has_room, has_user}
use lan_secure_file_system.Files.{insert_file}
use lan_secure_file_system.Uploads.{
  Plan, Upload, upload_row, Selected, choose_node, select_storage_node, released, release_slot,
  ticket_fields, upload_deduplicated, upload_fresh,
}

-- The row of an upload whose content is new.
abbrev fresh_row : Upload → ℕ → World → File
fresh_row u node w =
    upload_row u w.next_uuid (record { in_room = u.room; of_file = w.next_uuid }) uploading
      (some node) w

-- A row that the constraints of the table refuse
abbrev pub Refused : ℕ → ℕ → World → Type 0
Refused room user w =
    any (λ g. g.id == w.next_uuid) w.files || not (has_room room w.db && has_user user w.db) ≡ true

-- An upload that shares a stored object: a READY row at once, no slot and no ticket.
pub record Shared (u : Upload) (f : File) (address : Option Address) (w : World) (plan : Plan)
    (q : World) : Type 0 where
  pub files_after :
      q.files ≡ upload_row u w.next_uuid f.stored_name ready f.storage_node_id w ∷ w.files
  pub registry_after : q.registry ≡ w.registry
  pub tickets_after : q.redis ≡ w.redis
  pub plan_id : plan.file_id ≡ w.next_uuid
  pub plan_address : plan.storage_address ≡ address
  pub no_ticket : plan.ticket ≡ none
  pub told : plan.deduplicated ≡ true

-- An upload of new content: an UPLOADING row, a slot under the id of the file on the node that was picked,
-- and a ticket for this file on this node.
pub record Fresh (u : Upload) (address : Option Address) (w : World) (plan : Plan) (q : World)
    : Type 0 where
  pub node : Selected
  pub picked : (choose_node address w.next_uuid w).1 ≡ some node
  pub files_after : q.files ≡ fresh_row u node.node_id w ∷ w.files
  pub registry_after : q.registry ≡ (choose_node address w.next_uuid w).0
  pub ticket : Ticket
  pub ticket_id : ℕ
  pub tickets_after :
      q.redis ≡ ticket_stored ticket_id ticket w.config.upload_ticket_ttl w.now ∷ w.redis
  pub plan_ticket : plan.ticket ≡ some (ticket_id, ticket.fields)
  pub of_file : ticket.file_id ≡ w.next_uuid
  pub for_upload : ticket.for_upload ≡ true
  pub to_user : ticket.issued_to ≡ some u.user
  pub on_node : ticket.storage_node_id ≡ some node.node_id
  pub plan_id : plan.file_id ≡ w.next_uuid
  pub told : plan.deduplicated ≡ false

insert_file-cases :
    (f : File) (db db' : Db)
    → insert_file f db ≡ some db'
    → db' ≡ record db { files = f ∷ db.files }
insert_file-cases f db db' e = ground arith

pub on_upload_deduplicated :
    (u : Upload) (f : File) (address : Option Address) (w : World) {good : Plan → World → Type 0}
    {bad : Option ErrorCode → World → Type 0}
    → ((plan : Plan) (q : World) → Shared u f address w plan q → good plan q)
    → ((q : World)
        → Fault w ⊎ Refused u.room u.user w
        → q.files ≡ w.files
        → q.registry ≡ w.registry
        → bad none q)
    → Runs (upload_deduplicated u f address) w good bad
unfolding upload_deduplicated
on_upload_deduplicated u f address w g b = bind (
    on_new_uuid (
      bind (
        on_look _ (
          bind (
            on_insert_row _ (λ fault. b _ (inl fault) refl refl)
              (λ e. b _ (inr (ground arith)) refl refl)
              (λ db e. bind (
                on_audit _ (
                  on_pure _ (
                    g _ _ (record {
                      files_after =
                          files-audited _ _ ∙ ap (λ d. d.files) (insert_file-cases _ w.db db e);
                      registry_after = registry-audited _ _;
                      tickets_after = redis-audited _ _;
                      plan_id = refl;
                      plan_address = refl;
                      no_ticket = refl;
                      told = refl;
                    }))))))))))

-- How an upload of new content fails: no node, no row and the slot given back, or no ticket while the row
-- and the slot stay.
pub data FreshError (u : Upload) (address : Option Address) (w q : World)
    : Option ErrorCode → Type 0 where
  no_node :
      (choose_node address w.next_uuid w).1 ≡ none
      → q.files ≡ w.files
      → q.registry ≡ (choose_node address w.next_uuid w).0
      → FreshError u address w q (some storage_node_unavailable)
  no_row :
      Fault w ⊎ Refused u.room u.user w
      → q.files ≡ w.files
      → q.registry
        ≡ released w.next_uuid (record w { registry = (choose_node address w.next_uuid w).0 })
      → FreshError u address w q none
  no_ticket_stored :
      (node : Selected)
      → (choose_node address w.next_uuid w).1 ≡ some node
      → Fault w
      → q.files ≡ fresh_row u node.node_id w ∷ w.files
      → q.registry ≡ (choose_node address w.next_uuid w).0
      → FreshError u address w q none

pub on_upload_fresh :
    (u : Upload) (address : Option Address) (w : World) {good : Plan → World → Type 0}
    {bad : Option ErrorCode → World → Type 0}
    → ((plan : Plan) (q : World) → Fresh u address w plan q → good plan q)
    → ((code : Option ErrorCode) (q : World) → FreshError u address w q code → bad code q)
    → Runs (upload_fresh u address) w good bad
unfolding upload_fresh select_storage_node release_slot ticket_fields
on_upload_fresh u address w g b = bind (
    on_new_uuid (
      bind (
        on_manage _ (
          bind (
            on_present _ _ (λ e. b _ _ (no_node e refl refl))
              (λ node e. bind (
                on_look _ (
                  bind (
                    on_attempt _ _ (
                      on_insert_row _
                        (λ fault.
                          bind (on_manage _ (on_throw (b _ _ (no_row (inl fault) refl refl)))))
                        (λ r.
                          bind (
                            on_manage _ (on_throw (b _ _ (no_row (inr (ground arith)) refl refl)))))
                        (λ db stored. bind (
                          on_new_uuid (
                            bind (
                              on_look _ (
                                bind (
                                  on_clock (
                                    bind (
                                      bind (
                                        on_new_uuid (
                                          on_look _ (
                                            bind (
                                              on_set_ticket _ _ _
                                                (λ fault. b _ _ (
                                                  no_ticket_stored node e fault
                                                    (ap (λ d. d.files)
                                                      (insert_file-cases _ w.db db stored))
                                                    refl))
                                                (on_pure _ (
                                                  g _ _ (record {
                                                    node = node;
                                                    picked = e;
                                                    files_after =
                                                        ap (λ d. d.files)
                                                          (insert_file-cases _ w.db db stored);
                                                    registry_after = refl;
                                                    ticket = _;
                                                    ticket_id = _;
                                                    tickets_after = refl;
                                                    plan_ticket = refl;
                                                    of_file = refl;
                                                    for_upload = refl;
                                                    to_user = refl;
                                                    on_node = refl;
                                                    plan_id = refl;
                                                    told = refl;
                                                  })))))))))))))))))))))))))
