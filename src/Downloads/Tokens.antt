-- ===== src/Downloads/Tokens.antt =====
-- How share tokens come about: create_share_token of coordinator-server/download/download_service.py.
use lan_secure_file_system.Common.{
  ℕ, ◌≡◌, refl, ◌∙◌, false, ◌||◌, Option, none, some, ◌∷◌, any, ◌==◌, arith,
}
use lan_secure_file_system.World.{
  Role, File, ShareToken, Db, World, ErrorCode, permission_denied, file_not_found, database_error,
  Fault, Runs, bind, on_attempt, on_audit, on_fail, on_insert_row, on_new_uuid, on_present, on_pure,
  on_query, on_require, share_tokens-audited,
}
use lan_secure_file_system.Access.{create_share_token}
use lan_secure_file_system.Access.Checks.{May, on_check_permission}
use lan_secure_file_system.Files.{file_of}
use lan_secure_file_system.Downloads.{insert_token, share}

abbrev pub new_token : ℕ → ℕ → ℕ → ℕ → ℕ → World → ShareToken
new_token user id max_downloads expires_at secret w = record {
  id = w.next_uuid;
  token = secret;
  file_id = id;
  created_by = user;
  max_downloads = max_downloads;
  download_count = 0;
  expires_at = expires_at;
}

pub record Granted (user : ℕ) (role : Role) (id : ℕ) (t : ShareToken) (w q : World) : Type 0 where
  pub file : File
  pub is_the_file : file_of id w.db ≡ some file
  pub permitted : May user role file.room_id create_share_token w.db
  pub is_new : any (λ s. (s.id == t.id) || (s.token == t.token)) w.share_tokens ≡ false
  pub stored : q.share_tokens ≡ t ∷ w.share_tokens

-- Why no token is granted. There is no case for an exception.
pub data GrantError (user : ℕ) (role : Role) (id : ℕ) (t : ShareToken) (w : World)
    : Option ErrorCode → Type 0 where
  no_file : file_of id w.db ≡ none → GrantError user role id t w (some file_not_found)
  not_permitted :
      (f : File)
      → file_of id w.db ≡ some f
      → ¬ May user role f.room_id create_share_token w.db
      → GrantError user role id t w (some permission_denied)
  refused : insert_token t w.db ≡ none → GrantError user role id t w (some database_error)
  broken : Fault w → GrantError user role id t w (some database_error)

insert_token-stores :
    (t : ShareToken) (db db' : Db)
    → insert_token t db ≡ some db'
    → (any (λ s. (s.id == t.id) || (s.token == t.token)) db.share_tokens ≡ false)
      × (db'.share_tokens ≡ t ∷ db.share_tokens)
insert_token-stores t db db' e = ground arith

-- `create_share_token` never raises. It succeeds only for a file that exists, for a caller whom the matrix
-- allows to share in its room, and then stores one token, new in the table and not yet used. A refusal stores
-- none and tells the true reason.
pub share-Runs :
    (user : ℕ) (role : Role) (id max_downloads expires_at secret : ℕ) (w : World)
    → Runs
        (share user role id max_downloads expires_at secret)
        w
        (λ token q.
          (token ≡ secret)
          × Granted user role id (new_token user id max_downloads expires_at secret w) w q)
        (λ code q.
          (q.share_tokens ≡ w.share_tokens)
          × GrantError user role id (new_token user id max_downloads expires_at secret w) w code)
unfolding share
share-Runs user role id max_downloads expires_at secret w = on_attempt _ _ (
    bind (
      on_query _ (λ f. on_fail _ (refl, broken f))
        (bind (
          on_present _ _ (λ e. (refl, no_file e))
            (λ f e. bind (
              on_check_permission user role f.room_id create_share_token _
                (λ fault. on_fail _ (refl, broken fault))
                (λ n allowed yes no. bind (
                  on_require _ _ (λ a. (refl, not_permitted f e (no a)))
                    (λ a. bind (
                      on_new_uuid (
                        bind (
                          on_insert_row _ (λ fault. on_fail _ (refl, broken fault))
                            (λ r. on_fail _ (refl, refused r))
                            (λ db r. bind (
                              on_audit _ (
                                on_pure _ (
                                  refl,
                                  record {
                                    file = f;
                                    is_the_file = e;
                                    permitted = yes a;
                                    is_new =
                                        (insert_token-stores
                                          (new_token user id max_downloads expires_at secret w) w.db
                                          db r).0;
                                    stored =
                                        share_tokens-audited _ _
                                        ∙ (insert_token-stores
                                            (new_token user id max_downloads expires_at secret w)
                                            w.db db r).1;
                                  },
                                ))))))))))))))))
