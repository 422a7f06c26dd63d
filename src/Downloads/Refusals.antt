-- ===== src/Downloads/Refusals.antt =====
-- What the use of a share token costs where it gives no download, and why it gives none.
use lan_secure_file_system.Common.{
  ℕ, ◌≤◌, ◌<◌, ◌≡◌, refl, ◌∙◌, ap, sym, ◌⊎◌, inl, inr, Bool, true, false, Option, none, some, List,
  [], ◌∷◌, change, find, find-holds, ltb, ◌==◌, arith,
}
use lan_secure_file_system.World.{
  is_ready, File, ShareToken, World, ErrorCode, file_not_found, file_not_ready, invalid_share_token,
  share_token_expired, share_token_exhausted, database_error, Fault, Runs, tick, bind, on_attempt,
  on_fail, on_present, on_pure, on_query, on_require, on_update, fail, ◌>>◌,
}
use lan_secure_file_system.Files.{file_of}
use lan_secure_file_system.Downloads.{
  Resolved, resolved, unresolved, resolve_storage_node, DownloadPlan, is_usable, count_one, consume,
  give_back, refund, explain, deliver_shared, deliver_found,
}
use lan_secure_file_system.Downloads.Delivery.{Issued}
use lan_secure_file_system.Downloads.Sharing.{IsKeyed, give_back-consume, none_usable}

-- The tokens after the atomic update.
abbrev pub counted : ℕ → ℕ → World → List ShareToken
counted token file w = change (is_usable token file w.now) count_one w.share_tokens

-- Nothing was paid, unless a statement failed that should have paid it back.
abbrev Unpaid : ℕ → ℕ → World → World → Type 0
Unpaid token file w q =
    (q.share_tokens ≡ w.share_tokens) ⊎ (Fault w × (q.share_tokens ≡ counted token file w))

abbrev token_row : ℕ → World → Option ShareToken
token_row token w = find (λ t. t.token == token) w.share_tokens

-- A download by a token.
pub record Used (token file : ℕ) (w : World) (plan : DownloadPlan) (q : World) : Type 0 where
  pub row : ShareToken
  pub was_usable : find (is_usable token file w.now) w.share_tokens ≡ some row
  pub has_token : row.token ≡ token
  pub for_file : row.file_id ≡ file
  pub not_expired : w.now < row.expires_at
  pub not_exhausted : row.download_count < row.max_downloads
  pub the_file : File
  pub is_the_file : file_of file w.db ≡ some the_file
  pub file_is_ready : is_ready the_file.status ≡ true
  pub address : Option _
  pub reachable : resolve_storage_node the_file w ≡ resolved address
  pub issued : Issued the_file address w.config w.now w.redis plan q
  pub paid : q.share_tokens ≡ counted token file w

-- Why a token gives no download, and what it cost. There is no case for an exception.
pub data UseError (token file : ℕ) (w q : World) : Option ErrorCode → Type 0 where
  no_token :
      token_row token w ≡ none
      → q.share_tokens ≡ w.share_tokens
      → UseError token file w q (some invalid_share_token)
  other_file :
      (t : ShareToken)
      → token_row token w ≡ some t
      → (t.file_id == file) ≡ false
      → q.share_tokens ≡ w.share_tokens
      → UseError token file w q (some invalid_share_token)
  expired :
      (t : ShareToken)
      → token_row token w ≡ some t
      → t.expires_at ≤ w.now
      → q.share_tokens ≡ w.share_tokens
      → UseError token file w q (some share_token_expired)
  exhausted :
      (t : ShareToken)
      → token_row token w ≡ some t
      → t.max_downloads ≤ t.download_count
      → q.share_tokens ≡ w.share_tokens
      → UseError token file w q (some share_token_exhausted)
  no_file :
      file_of file w.db ≡ none
      → Unpaid token file w q
      → UseError token file w q (some file_not_found)
  not_ready :
      (f : File)
      → file_of file w.db ≡ some f
      → is_ready f.status ≡ false
      → Unpaid token file w q
      → UseError token file w q (some file_not_ready)
  not_reachable :
      (f : File) (code : ErrorCode)
      → file_of file w.db ≡ some f
      → resolve_storage_node f w ≡ unresolved code
      → Unpaid token file w q
      → UseError token file w q (some code)
  broken : Fault w → Unpaid token file w q → UseError token file w q (some database_error)

on_refund :
    (id : ℕ) (w : World) {good : Unit {0} → World → Type 0}
    {bad : Option ErrorCode → World → Type 0}
    → (Fault w → good tt (tick w))
    → good tt (record (tick w) { db = give_back id w.db })
    → Runs (refund id) w good bad
unfolding refund
on_refund id w f g = on_attempt _ _ (on_update _ (λ fault. on_pure _ (f fault)) g)

pub on_deliver_found :
    (t : ShareToken) (f : File) (found : Resolved) (q : World)
    {good : DownloadPlan → World → Type 0} {bad : Option ErrorCode → World → Type 0}
    → ((code : ErrorCode)
        → found ≡ unresolved code
        → Runs (deliver_found t f (unresolved code)) q good bad)
    → ((address : Option _)
        → found ≡ resolved address
        → Runs (deliver_shared t f address) q good bad)
    → Runs (deliver_found t f found) q good bad
on_deliver_found t f (resolved address) q b g = g address refl
on_deliver_found t f (unresolved code) q b g = b code refl

pub change-none :
    {A : Type 0} (p : A → Bool) (f : A → A) (xs : List A) → find p xs ≡ none → change p f xs ≡ xs
change-none p f [] h = refl
change-none p f (x ∷ xs) h = ground (arith, change-none p f xs)

module _ (token file : ℕ) (w q : World) (same : q.share_tokens ≡ w.share_tokens)
    (unused : find (is_usable token file w.now) w.share_tokens ≡ none) where
  row_here :
      (o : Option ShareToken)
      → find (λ t. t.token == token) q.share_tokens ≡ o
      → token_row token w ≡ o
  row_here o e = sym (ap (find (λ t. t.token == token)) same) ∙ e

  unreachable :
      (t : ShareToken)
      → token_row token w ≡ some t
      → (t.file_id == file) ≡ true
      → ltb w.now t.expires_at ≡ true
      → ltb t.download_count t.max_downloads ≡ true
      → ⊥
  unreachable t e a b c = ground (
    arith,
    none_usable token file w.now w.share_tokens t e unused,
    find-holds (λ s. s.token == token) w.share_tokens t e,
  )

module _ (token file : ℕ) (w q : World) {good : DownloadPlan → World → Type 0}
    {bad : Option ErrorCode → World → Type 0} (same : q.share_tokens ≡ w.share_tokens)
    (unused : find (is_usable token file w.now) w.share_tokens ≡ none)
    (broken_here : Fault q → bad none (tick q))
    (told : (code : ErrorCode)
      → UseError token file w (tick q) (some code)
      → bad (some code) (tick q)) where
  pub on_explain : Runs (explain token file w.now) q good bad
  unfolding explain
  on_explain = bind (
      on_query _ broken_here (
        bind (
          on_present _ _ (λ e. told _ (no_token (row_here token file w q same unused none e) same))
            (λ t e. bind (
              on_require _ _
                (λ a. told _ (other_file t (row_here token file w q same unused (some t) e) a same))
                (λ a. bind (
                  on_require _ _
                    (λ b. told _ (
                      expired t (row_here token file w q same unused (some t) e) (ground arith)
                        same))
                    (λ b. bind (
                      on_require _ _
                        (λ c. told _ (
                          exhausted t (row_here token file w q same unused (some t) e)
                            (ground arith) same))
                        (λ c. on_fail _ (
                          told _ (
                            absurd (
                              unreachable token file w q same unused t
                                (row_here token file w q same unused (some t) e) a b c)))))))))))))

-- The row that was consumed, before it was counted.
pub taken :
    (o : Option ShareToken) (t : ShareToken)
    → (elim o as (λ _. Option ShareToken) [ none ↦ none | some s ↦ some (count_one s) ]) ≡ some t
    → (s : ShareToken) × ((o ≡ some s) × (t.id ≡ s.id))
taken none t e = ground arith
taken (some s) t e = (s, (refl, ground arith))

pub paid_back :
    (token file : ℕ) (w : World) (t s : ShareToken)
    → IsKeyed w.share_tokens
    → find (is_usable token file w.now) w.share_tokens ≡ some s
    → t.id ≡ s.id
    → (give_back t.id (consume token file w.now w.db).0).share_tokens ≡ w.share_tokens
paid_back token file w t s keyed e i = rw i (
    give_back-consume token file w.now w.share_tokens s e (keyed.by_id s.id) (keyed.by_token token))

pub untaken :
    (o : Option ShareToken)
    → (elim o as (λ _. Option ShareToken) [ none ↦ none | some s ↦ some (count_one s) ]) ≡ none
    → o ≡ none
untaken none e = refl
untaken (some s) e = ground arith

-- A refusal after the token was counted.
pub on_refund_fail :
    (token file : ℕ) (w : World) (id : ℕ) (code : ErrorCode) (q : World)
    {good : DownloadPlan → World → Type 0} {bad : Option ErrorCode → World → Type 0}
    → (give_back id (consume token file w.now w.db).0).share_tokens ≡ w.share_tokens
    → q.db ≡ (consume token file w.now w.db).0
    → (Fault q → Fault w)
    → ((p : World) → Unpaid token file w p → bad (some code) p)
    → Runs (refund id >> fail code) q good bad
on_refund_fail token file w id code q back same fault told = bind (
    on_refund id q (λ f. on_fail _ (told _ (inr (fault f, ap (λ db. db.share_tokens) same))))
      (on_fail _ (told _ (inl (ap (λ db. (give_back id db).share_tokens) same ∙ back)))))
