-- ===== src/Nodes/Guard.antt =====
-- Who is served: before a connection has authenticated, nothing but STORAGE_AUTH has an effect, and
-- STORAGE_AUTH itself has none without the shared secret.
use mathlib.Core.Path.{subst}
use lan_secure_file_system.Common.{
  ℕ, ◌≡◌, refl, ap, Bool, true, false, Option, none, some, Text, text_eq, ◌||◌, arith,
}
use lan_secure_file_system.Registry.{Node, node_at, get_by_connection}
use lan_secure_file_system.Registry.Manifest.{member, usable, mark_file_added}
use lan_secure_file_system.Registry.Holdings.{member-mark_file_added}
use lan_secure_file_system.World.{
  World, Outcome, returned, failed, raised, Action, ErrorCode, pure, ◌>>=◌, maybe, choose, look,
  attempt, Runs, weaken, bind, on_attempt, on_choose, on_look, on_manage, on_maybe, on_pure,
  on_settle,
}
use lan_secure_file_system.Uploads.Outcomes.{
  Completed, CompleteError, unknown, other_node, other_hash, not_asked, not_stored,
  upload_complete-Runs,
}
use lan_secure_file_system.Nodes.{
  Peer, Report, NodeMessage, storage_auth, ping, verify, completed, gave_up, manifest_delta,
  other_message, Reply, refused, ack, service_error, invalid_payload, not_authenticated, is_full,
  or_zero, or_empty, with_node, handle_ping, handle_verify_ticket, store_report,
  handle_upload_complete, handle_upload_failed, handle_manifest_delta, handle, run_handler,
}

-- The registry has no authenticated node for the connection.
abbrev is_known : Option Node → Bool
is_known none = false
is_known (some node) = node.authenticated

abbrev pub IsStranger : Peer → World → Type 0
IsStranger peer w = is_known (get_by_connection w.registry peer.connection) ≡ false

-- The messages that ask for an authenticated node
abbrev pub needs_node : NodeMessage → Bool
needs_node (storage_auth m) = false
needs_node (ping free) = true
needs_node (verify ticket) = true
needs_node (completed m) = true
needs_node (gave_up file) = true
needs_node (manifest_delta added removed) = true
needs_node (other_message type) = false

with_stranger :
    (peer : Peer) (k : Node → Action Reply) (w : World)
    → IsStranger peer w
    → with_node peer k w ≡ (returned (refused not_authenticated), w)
unfolding with_node look ◌>>=◌ maybe choose pure
with_stranger peer k w h = ground arith

attempt_returned :
    {A : Type 0} (m handler : Action A) (a : A) (w q : World)
    → m w ≡ (returned a, q)
    → attempt m handler w ≡ (returned a, q)
unfolding attempt
attempt_returned {A} m handler a w q e =
    ap
      (λ (o : Outcome A × World). elim o.0 as (λ _. Outcome A × World) [
        | returned b ↦ (returned b, o.1)
        | failed c ↦ (failed c, o.1)
        | raised ↦ handler o.1
      ])
      e

-- A ping, a ticket to verify, the report of an upload that completed or failed and a change of the manifest
-- are refused on a connection that has not authenticated: the reply is NOT_AUTHENTICATED, and nothing at all
-- changes.
pub stranger_is_refused :
    (peer : Peer) (m : NodeMessage) (w : World)
    → IsStranger peer w
    → needs_node m ≡ true
    → run_handler peer m w ≡ (returned (refused not_authenticated), w)
unfolding run_handler handle handle_ping handle_verify_ticket handle_upload_complete
    handle_upload_failed handle_manifest_delta
stranger_is_refused peer (storage_auth m) w h e = cc
stranger_is_refused peer (ping free) w h e = attempt_returned _ _ _ _ _ (with_stranger peer _ w h)
stranger_is_refused peer (verify ticket) w h e =
    attempt_returned _ _ _ _ _ (with_stranger peer _ w h)
stranger_is_refused peer (completed m) w h e = attempt_returned _ _ _ _ _ (with_stranger peer _ w h)
stranger_is_refused peer (gave_up file) w h e =
    attempt_returned _ _ _ _ _ (with_stranger peer _ w h)
stranger_is_refused peer (manifest_delta added removed) w h e =
    attempt_returned _ _ _ _ _ (with_stranger peer _ w h)
stranger_is_refused peer (other_message type) w h e = cc

-- What a report of UPLOAD_COMPLETE by a node comes to
pub data ReportAnswer (m : Report) (node : Node) (w q : World) : Reply → Type 0 where
  accepted :
      (p : World)
      → Completed (or_zero m.file_id) (or_empty m.sha256_whole) (some node.node_id) w p
      → q.files ≡ p.files
      → q.registry ≡ mark_file_added p.registry (some node.node_id) m.sha256_whole
      → ((norm x : Text) (ref : ℕ)
          → usable m.sha256_whole ≡ some norm
          → node_at p.registry (some node.node_id) ≡ some ref
          → member x (q.registry.objects ref).files
            ≡ text_eq norm x || member x (p.registry.objects ref).files)
      → ReportAnswer m node w q ack
  rejected :
      (code : ErrorCode)
      → CompleteError
          (or_zero m.file_id)
          (or_empty m.sha256_whole)
          (some node.node_id)
          w
          q
          (some code)
      → ReportAnswer m node w q (service_error code)
  not_full : is_full m ≡ false → q ≡ w → ReportAnswer m node w q (refused invalid_payload)

no_exception :
    {id : ℕ} {sha : Text} {reporter : Option ℕ} {w q : World} (code : Option ErrorCode)
    → code ≡ none
    → ¬ CompleteError id sha reporter w q code
no_exception _ e (unknown n files r) = cc
no_exception _ e (other_node g e' d files r) = cc
no_exception _ e (other_hash g e' d h files r) = cc
no_exception _ e (not_asked stopped files r) = cc
no_exception _ e (not_stored f e' d fault files r) = cc

settled :
    {id : ℕ} {sha : Text} {reporter : Option ℕ} {w q : World} (bad : Type 0)
    (good : (code : ErrorCode) → Type 0) (code : Option ErrorCode)
    → CompleteError id sha reporter w q code
    → ((c : ErrorCode) → CompleteError id sha reporter w q (some c) → good c)
    → elim code as (λ _. Type 0) [ none ↦ bad | some c ↦ good c ]
settled bad good none e g = absurd (no_exception none refl e)
settled bad good (some c) e g = g c e

store_report-Runs :
    (m : Report) (node : Node) (w : World)
    → Runs (store_report node m) w (λ reply q. ReportAnswer m node w q reply) (λ code q. ⊥)
unfolding store_report
store_report-Runs m node w = on_settle _ _ _ (
    weaken (upload_complete-Runs _ _ _ _)
      (λ t p c. bind (
        on_manage _ (
          on_pure _ (
            accepted p c refl refl (λ norm x ref e home.
              member-mark_file_added p.registry (some node.node_id) m.sha256_whole norm x ref e
                home)))))
      (λ code p c. settled _ _ code c (λ k d. on_pure _ (rejected k d))))

-- UPLOAD_COMPLETE from an authenticated node is answered, whatever fails: with ACK only if the upload
-- service accepted the report in the name of that node, and then the registry counts the node as holding the
-- content; with the error of the service; or, for a report with a field missing, with INVALID_PAYLOAD, and
-- nothing changes.
pub report_is_answered :
    (peer : Peer) (m : Report) (w : World) (node : Node)
    → get_by_connection w.registry peer.connection ≡ some node
    → node.authenticated ≡ true
    → Runs
        (run_handler peer (completed m))
        w
        (λ reply q. ReportAnswer m node w q reply)
        (λ code q. ⊥)
unfolding run_handler handle handle_upload_complete with_node
report_is_answered peer m w node e a = on_attempt _ _ (
    bind (
      on_look _ (
        on_maybe _ _ _ (λ n. cc)
          (λ found same.
            let is : found ≡ node = cc in
            weaken (known found (cc)) (λ reply q r. subst (λ n. ReportAnswer m n w q reply) is r)
              (λ code q r. absurd r)))))
  where
    known :
        (found : Node)
        → found.authenticated ≡ true
        → Runs
            (choose found.authenticated
              (choose (is_full m) (store_report found m) (pure (refused invalid_payload)))
              (pure (refused not_authenticated)))
            w
            (λ reply q. ReportAnswer m found w q reply)
            (λ code q. ⊥)
    known found is =
        on_choose found.authenticated _ _
          (λ _.
            on_choose _ _ _ (λ full. store_report-Runs m found w)
              (λ lacks. on_pure _ (not_full lacks refl)))
          (λ never. cc)
