-- ===== src/Clients/Grants.antt =====
-- What a client may put into a share token: CREATE_SHARE_TOKEN of download/download_handlers.py.
use lan_secure_file_system.Common.{ℕ, ◌≤◌, ◌<◌, ◌≡◌, refl, some, ltb→lt, arith}
use lan_secure_file_system.World.{
  World, Runs, bind, weaken, on_choose, on_throw, on_clock, on_fail, on_look, on_maybe, on_pure,
  on_require,
}
use lan_secure_file_system.Accounts.{Identity}
use lan_secure_file_system.Downloads.Tokens.{Granted, new_token, share-Runs}
use lan_secure_file_system.Clients.{Field, read, grant_share, handle_create_share_token}

-- The token that was asked for, within its limits
pub record Shared (i : Identity) (file_id : ℕ) (max_downloads expires_at : Field) (w q : World)
    : Type 0 where
  pub uses : ℕ
  pub expiry : ℕ
  pub asks_uses : read max_downloads ≡ some uses
  pub asks_expiry : read expires_at ≡ some expiry
  pub some_use : 1 ≤ uses
  pub few_uses : uses ≤ 10000
  pub to_come : w.now < expiry
  pub granted :
      Granted i.user_id i.global_role file_id
        (new_token i.user_id file_id uses expiry w.draws.0 w)
        w
        q

grant_share-Runs :
    (i : Identity) (file_id uses : ℕ) (max_downloads expires_at : Field) (w : World)
    → read max_downloads ≡ some uses
    → Runs
        (grant_share i file_id uses expires_at)
        w
        (λ a q. Shared i file_id max_downloads expires_at w q)
        (λ code q. q.share_tokens ≡ w.share_tokens)
unfolding grant_share
grant_share-Runs i file_id uses max_downloads expires_at w is_uses = bind (
    on_require _ _ (λ e. refl)
      (λ within.
        on_choose _ _ _ (λ e. on_throw refl)
          (λ e.
            on_maybe (read expires_at) _ _ (λ e. on_fail _ refl)
              (λ expiry is_expiry. bind (
                on_clock (
                  bind (
                    on_require _ _ (λ e. refl)
                      (λ future. bind (
                        on_look _ (
                          bind (
                            weaken (share-Runs i.user_id i.global_role file_id uses expiry _ w)
                              (λ t q h. on_pure _ (record {
                                uses = uses;
                                expiry = expiry;
                                asks_uses = is_uses;
                                asks_expiry = is_expiry;
                                some_use = ground (arith, within);
                                few_uses = ground (arith, within);
                                to_come = ltb→lt w.now expiry future;
                                granted = h.1;
                              }))
                              (λ code q h. h.0))))))))))))

-- CREATE_SHARE_TOKEN succeeds only with a number of uses from 1 to 10000 and an expiry that is to come, and
-- then stores one token with these limits, not yet used, for a file that exists and that the matrix allows the
-- caller to share. In every other case no token is stored.
pub handle_create_share_token-Runs :
    (i : Identity) (file_id : ℕ) (max_downloads expires_at : Field) (w : World)
    → Runs
        (handle_create_share_token i file_id max_downloads expires_at)
        w
        (λ a q. Shared i file_id max_downloads expires_at w q)
        (λ code q. q.share_tokens ≡ w.share_tokens)
unfolding handle_create_share_token
handle_create_share_token-Runs i file_id max_downloads expires_at w = bind (
    on_require _ _ (λ e. refl)
      (λ e.
        on_maybe (read max_downloads) _ _ (λ e. on_fail _ refl)
          (λ n is_n. grant_share-Runs i file_id n max_downloads expires_at w is_n)))
