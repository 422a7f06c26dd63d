-- ===== src/Downloads/Delivery.antt =====
-- What a download hands out: the ticket in Redis and the plan in the reply, for a READY file and one who
-- may have it.
use lan_secure_file_system.Common.{
  ℕ, ◌+◌, ◌≡◌, refl, ◌∙◌, true, false, Option, none, some, List, ◌∷◌,
}
use lan_secure_file_system.Registry.{Address}
use lan_secure_file_system.World.{
  Role, is_ready, File, World, Ticket, RedisCommand, ticket_stored, ErrorCode, permission_denied,
  file_not_found, file_not_ready, database_error, Config, AuditEntry, redis-audited, Fault, Runs,
  bind, on_clock, on_look, on_new_uuid, on_pure, on_set_ticket, audited,
}
use lan_secure_file_system.Access.{download_file}
use lan_secure_file_system.Access.Checks.{May}
use lan_secure_file_system.Uploads.{ticket_fields, id_or}
use lan_secure_file_system.Downloads.{
  unresolved, resolve_storage_node, DownloadPlan, issue, file_at_version,
}
use lan_secure_file_system.Downloads.Serving.{Served}

-- A ticket that was issued for a file: what Redis keeps under the id of the plan, for as long as the
-- configuration says, is a download of this file, with a signature over the session, the file, the node and
-- the expiry.
pub record Issued (f : File) (address : Option Address) (config : Config) (now : ℕ)
    (sent : List RedisCommand) (plan : DownloadPlan) (q : World) : Type 0 where
  pub ticket : Ticket
  pub stored : q.redis ≡ ticket_stored plan.ticket ticket config.download_ticket_ttl now ∷ sent
  pub is_download : ticket.for_upload ≡ false
  pub of_file : ticket.file_id ≡ f.id
  pub at_name : ticket.stored_name ≡ f.stored_name
  pub at_address : ticket.storage_address ≡ address
  pub with_hash : ticket.sha256_whole ≡ f.sha256_whole
  pub same_fields : ticket.fields ≡ plan.fields
  pub until : ticket.expires_at ≡ now + config.download_ticket_ttl
  pub for_node : plan.fields.ticket_node_id ≡ id_or f.storage_node_id config.default_storage_node_id
  pub signed :
      plan.fields.ticket_signature
      ≡ config.sign plan.fields.session_id f.id plan.fields.ticket_node_id plan.fields.ticket_expiry

pub on_issue :
    (f : File) (address : Option Address) (w : World) {good : DownloadPlan → World → Type 0}
    {bad : Option ErrorCode → World → Type 0}
    → ((q : World) → q.db ≡ w.db → (Fault q → Fault w) → Fault w → bad none q)
    → ((plan : DownloadPlan) (q : World)
        → q.db ≡ w.db
        → Issued f address w.config w.now w.redis plan q
        → good plan q)
    → Runs (issue f address) w good bad
unfolding issue ticket_fields
on_issue f address w b g = bind (
    on_new_uuid (
      bind (
        on_look _ (
          bind (
            on_clock (
              bind (
                bind (
                  on_new_uuid (
                    on_look _ (
                      bind (
                        on_set_ticket _ _ _ (b _ refl (λ f. f)) (
                          on_pure _ (
                            g _ _ refl (record {
                              ticket = _;
                              stored = refl;
                              is_download = refl;
                              of_file = refl;
                              at_name = refl;
                              at_address = refl;
                              with_hash = refl;
                              same_fields = refl;
                              until = refl;
                              for_node = refl;
                              signed = refl;
                            }))))))))))))))

-- The audit log changes no ticket.
pub Issued-audited :
    (e : AuditEntry) (f : File) (address : Option Address) (config : Config) (now : ℕ)
    (sent : List RedisCommand) (plan : DownloadPlan) (q : World)
    → Issued f address config now sent plan q
    → Issued f address config now sent plan (audited e q)
Issued-audited e f address config now sent plan q i = record {
  ticket = i.ticket;
  stored = redis-audited q e ∙ i.stored;
  is_download = i.is_download;
  of_file = i.of_file;
  at_name = i.at_name;
  at_address = i.at_address;
  with_hash = i.with_hash;
  same_fields = i.same_fields;
  until = i.until;
  for_node = i.for_node;
  signed = i.signed;
}

-- A direct download that is granted.
pub record Delivered (user : ℕ) (role : Role) (id : ℕ) (version : Option ℕ) (w : World)
    (plan : DownloadPlan) (q : World) : Type 0 where
  pub file : File
  pub is_the_file : file_at_version id version w.db ≡ some file
  pub file_is_ready : is_ready file.status ≡ true
  pub permitted : May user role file.room_id download_file w.db
  pub address : Option Address
  pub served : Served file w address
  pub issued : Issued file address w.config w.now w.redis plan q

-- Why one is refused. There is no case for an exception.
pub data DeliveryError (user : ℕ) (role : Role) (id : ℕ) (version : Option ℕ) (w : World)
    : Option ErrorCode → Type 0 where
  no_file :
      file_at_version id version w.db ≡ none
      → DeliveryError user role id version w (some file_not_found)
  not_ready :
      (f : File)
      → file_at_version id version w.db ≡ some f
      → is_ready f.status ≡ false
      → DeliveryError user role id version w (some file_not_ready)
  not_permitted :
      (f : File)
      → file_at_version id version w.db ≡ some f
      → ¬ May user role f.room_id download_file w.db
      → DeliveryError user role id version w (some permission_denied)
  not_reachable :
      (f : File) (code : ErrorCode)
      → file_at_version id version w.db ≡ some f
      → resolve_storage_node f w ≡ unresolved code
      → DeliveryError user role id version w (some code)
  broken : Fault w → DeliveryError user role id version w (some database_error)
