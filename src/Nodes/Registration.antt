-- ===== src/Nodes/Registration.antt =====
-- Who becomes a storage node: the authentication of a connection.
use lan_secure_file_system.Common.{ℕ, ◌≡◌, refl, true, false, Option, none, some, is_set}
use lan_secure_file_system.World.{
  World, files-audited, registry-audited, Runs, weaken, bind, on_attempt, on_audit, on_choose,
  on_look, on_pure,
}
use lan_secure_file_system.Nodes.{
  Peer, Auth, Number, no_number, malformed, number, Reply, refused, authenticated_as,
  missing_secret, invalid_secret, invalid_data_port, id_of, is_secret, admit_at, reject,
  handle_storage_auth, run_handler, handle, storage_auth,
}
use lan_secure_file_system.Nodes.Admission.{
  Admission, registry_after, registry_after-Admission, admit_node-Runs,
}

-- What comes of STORAGE_AUTH
pub data AuthAnswer (peer : Peer) (m : Auth) (w q : World) : Reply → Type 0 where
  admitted :
      (ref : ℕ)
      → is_secret m.secret w.config.shared_secret ≡ true
      → is_set m.secret ≡ true
      → Admission peer m w.now ref q.registry
      → AuthAnswer peer m w q (authenticated_as (id_of peer m))
  no_secret :
      is_set m.secret ≡ false
      → q.registry ≡ w.registry
      → q.files ≡ w.files
      → AuthAnswer peer m w q (refused missing_secret)
  wrong_secret :
      is_secret m.secret w.config.shared_secret ≡ false
      → q.registry ≡ w.registry
      → q.files ≡ w.files
      → AuthAnswer peer m w q (refused invalid_secret)
  bad_port :
      m.data_port ≡ malformed
      → q.registry ≡ w.registry
      → q.files ≡ w.files
      → AuthAnswer peer m w q (refused invalid_data_port)

-- STORAGE_AUTH is always answered. Only the shared secret gets a node admitted: the reply names its id, and
-- then the id and the connection lead to one authenticated node in the registry, which has the free bytes of
-- the message and, where its id is not empty, exactly the hashes of its manifest; without one it counts as not
-- having reported any;
-- without the secret, with another one or with a port that is no number, neither the registry nor a file
-- changes.
pub storage_auth_is_answered :
    (peer : Peer) (m : Auth) (w : World)
    → Runs
        (run_handler peer (storage_auth m))
        w
        (λ reply q. AuthAnswer peer m w q reply)
        (λ code q. ⊥)
unfolding run_handler handle handle_storage_auth reject admit_at
storage_auth_is_answered peer m w = on_attempt _ _ (
    on_choose _ _ _
      (λ given. bind (
        on_look _ (
          on_choose _ _ _
            (λ right.
              weaken (admitted_at m.data_port refl given right) (λ r q a. a) (λ code q b. absurd b))
            (λ wrong. bind (
              on_audit _
                (on_pure _ (wrong_secret wrong (registry-audited _ _) (files-audited _ _))))))))
      (λ none_given.
        bind (
          on_audit _
            (on_pure _ (no_secret none_given (registry-audited _ _) (files-audited _ _))))))
  where
    arrived :
        (port : Option ℕ)
        → is_secret m.secret w.config.shared_secret ≡ true
        → is_set m.secret ≡ true
        → (q : World) → q.registry ≡ registry_after peer m port w
        → AuthAnswer peer m w q (authenticated_as (id_of peer m))
    arrived port right given q e =
        let (ref, a) = registry_after-Admission peer m port w in admitted ref right given (rw e a)

    admitted_at :
        (port : Number)
        → m.data_port ≡ port
        → is_set m.secret ≡ true
        → is_secret m.secret w.config.shared_secret ≡ true
        → Runs (admit_at peer m port) w (λ reply q. AuthAnswer peer m w q reply) (λ code q. ⊥)
    admitted_at no_number e given right = admit_node-Runs peer m none w (arrived none right given)
    admitted_at malformed e given right = on_pure _ (bad_port e refl refl)
    admitted_at (number n) e given right =
        admit_node-Runs peer m (some n) w (arrived (some n) right given)
