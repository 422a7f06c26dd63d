-- ===== src/Downloads/Use.antt =====
-- The use of a share token: what is handed out, what it costs, and why it is refused.
use lan_secure_file_system.Common.{
  ℕ, ◌<◌, ◌≡◌, refl, ◌∙◌, ap, ◌⊎◌, inl, inr, true, Option, none, some, find, find-holds, arith,
}
use lan_secure_file_system.World.{
  ShareToken, World, ErrorCode, database_error, Runs, tick, bind, weaken, final, on_attempt,
  on_audit, on_choose, on_clock, on_fail, on_look, on_maybe, on_pure, on_query, on_update_returning,
  share_tokens-audited, fail, attempt, ◌>>◌,
}
use lan_secure_file_system.Downloads.{
  resolve_storage_node, is_usable, count_one, consume, refund, deliver_shared, use_consumed,
  init_download_share,
}
use lan_secure_file_system.Downloads.Delivery.{Issued-audited, on_issue}
use lan_secure_file_system.Downloads.Sharing.{IsKeyed, WithinLimits, consume-WithinLimits}
use lan_secure_file_system.Downloads.Refusals.{
  counted, Used, UseError, on_refund_fail, on_deliver_found, change-none, taken, paid_back, untaken,
  on_explain, no_token, other_file, expired, exhausted, no_file, not_ready, not_reachable, broken,
}

pub init_download_share-Runs :
    (token file : ℕ) (w : World)
    → IsKeyed w.share_tokens
    → Runs
        (init_download_share token file)
        w
        (λ plan q. Used token file w plan q)
        (λ code q. UseError token file w q code)
unfolding init_download_share use_consumed deliver_shared resolve_storage_node
init_download_share-Runs token file w keyed = on_attempt _ _ (
    bind (
      on_clock (
        bind (
          on_update_returning _ (λ f. on_fail _ (broken f (inl refl)))
            (on_maybe _ _ _
              (λ e.
                on_explain token file w _ (uncounted e)
                  (untaken (find (is_usable token file w.now) w.share_tokens) e)
                  (λ f. on_fail _ (broken f (inl (uncounted e)))) (λ code u. u))
              (λ t e.
                delivery t (taken (find (is_usable token file w.now) w.share_tokens) t e)))))))
  where
    uncounted : (consume token file w.now w.db).1 ≡ none → counted token file w ≡ w.share_tokens
    uncounted e =
        change-none (is_usable token file w.now) count_one w.share_tokens
          (untaken (find (is_usable token file w.now) w.share_tokens) e)

    usable_row :
        (s : ShareToken)
        → is_usable token file w.now s ≡ true
        → (s.token ≡ token)
          × (s.file_id ≡ file)
          × (w.now < s.expires_at)
          × (s.download_count < s.max_downloads)
    usable_row s h = ground arith

    delivery :
        (t : ShareToken)
        → ((s : ShareToken) × ((find (is_usable token file w.now) w.share_tokens ≡ some s)
              × (t.id ≡ s.id)))
        → Runs
            (attempt (use_consumed t file) (refund t.id >> fail database_error))
            (record (tick w) { db = (consume token file w.now w.db).0 })
            (Used token file w)
            (λ code q. elim code [
              | none ↦
                  Runs
                    (fail database_error)
                    q
                    (Used token file w)
                    (λ c p. UseError token file w p c)
              | some c ↦ UseError token file w q (some c)
            ])
    delivery t (s, (found, i)) =
        let back = paid_back token file w t s keyed found i in
        on_attempt _ _ (
          bind (
            on_query _
              (λ f. on_refund_fail token file w t.id _ _ back refl (λ x. x) (λ p u. broken f u))
              (on_maybe _ _ _
                (λ n. on_refund_fail token file w t.id _ _ back refl (λ x. x) (λ p u. no_file n u))
                (λ g n.
                  on_choose _ _ _
                    (λ r. bind (
                      on_look _ (
                        on_deliver_found t g _ _
                          (λ code u.
                            on_refund_fail token file w t.id _ _ back refl (λ x. x)
                              (λ p unpaid. not_reachable g code n u unpaid))
                          (λ address u. bind (
                            on_issue g address _
                              (λ q same fault f.
                                on_refund_fail token file w t.id _ _ back same fault
                                  (λ p unpaid. broken f unpaid))
                              (λ plan q same issued. bind (
                                on_audit _ (
                                  on_pure _ (record {
                                    row = s;
                                    was_usable = found;
                                    has_token =
                                        (usable_row s (
                                          find-holds (is_usable token file w.now) w.share_tokens s
                                            found)).0;
                                    for_file =
                                        (usable_row s (
                                          find-holds (is_usable token file w.now) w.share_tokens s
                                            found)).1;
                                    not_expired =
                                        (usable_row s (
                                          find-holds (is_usable token file w.now) w.share_tokens s
                                            found)).2;
                                    not_exhausted =
                                        (usable_row s (
                                          find-holds (is_usable token file w.now) w.share_tokens s
                                            found)).3;
                                    the_file = g;
                                    is_the_file = n;
                                    file_is_ready = r;
                                    address = address;
                                    reachable = u;
                                    issued =
                                        Issued-audited _ g address w.config w.now w.redis plan q
                                          issued;
                                    paid =
                                        share_tokens-audited _ _ ∙ ap (λ db. db.share_tokens) same;
                                  })))))))))
                    (λ r.
                      on_refund_fail token file w t.id _ _ back refl (λ x. x)
                        (λ p u. not_ready g n r u))))))

pub error_tokens :
    (token file : ℕ) (w q : World) (code : Option ErrorCode)
    → UseError token file w q code
    → (q.share_tokens ≡ w.share_tokens) ⊎ (q.share_tokens ≡ counted token file w)
error_tokens token file w q _ (no_token e s) = inl s
error_tokens token file w q _ (other_file t e a s) = inl s
error_tokens token file w q _ (expired t e a s) = inl s
error_tokens token file w q _ (exhausted t e a s) = inl s
error_tokens token file w q _ (no_file e u) = ground arith
error_tokens token file w q _ (not_ready f e r u) = ground arith
error_tokens token file w q _ (not_reachable f code e r u) = ground arith
error_tokens token file w q _ (broken f u) = ground arith

-- However the use of a token ends, even where statements fail, no token has been used more often than it
-- allows.
pub init_download_share-WithinLimits :
    (token file : ℕ) (w : World)
    → IsKeyed w.share_tokens
    → WithinLimits w.share_tokens
    → WithinLimits (init_download_share token file w).1.share_tokens
init_download_share-WithinLimits token file w keyed h =
    final (λ q. WithinLimits q.share_tokens)
      (weaken (init_download_share-Runs token file w keyed)
        (λ plan q u. rw u.paid (consume-WithinLimits token file w.now w.share_tokens h))
        (λ code q e. elim (error_tokens token file w q code e) [
          | inl s ↦ rw s h
          | inr s ↦ rw s (consume-WithinLimits token file w.now w.share_tokens h)
        ]))
