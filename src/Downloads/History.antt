-- ===== src/Downloads/History.antt =====
-- What holds of the share tokens after any sequence of grants and uses.
use lan_secure_file_system.Common.{
  ℕ, ◌+◌, ◌≤◌, ◌≡◌, ◌⊎◌, Bool-cases, refl, inl, inr, false, ◌||◌, List, [], ◌∷◌, change, count, any,
  ◌==◌, arith,
}
use lan_secure_file_system.World.{Role, ShareToken, World, weaken, final}
use lan_secure_file_system.Downloads.{is_usable, count_one, share, init_download_share}
use lan_secure_file_system.Downloads.Refusals.{counted}
use lan_secure_file_system.Downloads.Sharing.{IsKeyed, WithinLimits}
use lan_secure_file_system.Downloads.Charges.{
  charge, allowed, has_token, won, Charged, Charged-same, Charged-trans, charge-allowed,
  share-Charged, use-Charged,
}
use lan_secure_file_system.Downloads.Tokens.{new_token, share-Runs}
use lan_secure_file_system.Downloads.Use.{
  init_download_share-Runs, init_download_share-WithinLimits, error_tokens,
}

-- One call of the service that touches the tokens, however it ends, and how many downloads by the token with
-- the text it handed out.
pub data Step (text : ℕ) (w : World) : ℕ → World → Type 0 where
  grants :
      (user : ℕ) (role : Role) (id max_downloads expires_at secret : ℕ)
      → Step text w 0 (share user role id max_downloads expires_at secret w).1
  uses : (token file : ℕ) → Step text w (won text token file w) (init_download_share token file w).1

-- Any sequence of calls, with the number of those downloads; between two calls the clock, the faults and the
-- rest of the world may change.
pub data Reach (text : ℕ) (w : World) : ℕ → World → Type 0 where
  start : Reach text w 0 w
  next : {m n : ℕ} {p q : World} → Reach text w m p → Step text p n q → Reach text w (m + n) q
  elapses :
      {n : ℕ} {p q : World} → Reach text w n p → q.share_tokens ≡ p.share_tokens → Reach text w n q

by_id_counted :
    (id token file now : ℕ) (ts : List ShareToken)
    → count (λ t. t.id == id) (change (is_usable token file now) count_one ts)
      ≡ count (λ t. t.id == id) ts
by_id_counted id token file now [] = omega arith
by_id_counted id token file now (t ∷ ts) = ground (arith, by_id_counted id token file now ts)

by_token_counted :
    (text token file now : ℕ) (ts : List ShareToken)
    → count (λ t. t.token == text) (change (is_usable token file now) count_one ts)
      ≡ count (λ t. t.token == text) ts
by_token_counted text token file now [] = omega arith
by_token_counted text token file now (t ∷ ts) =
    ground (arith, by_token_counted text token file now ts)

counted-IsKeyed :
    (token file : ℕ) (w : World) → IsKeyed w.share_tokens → IsKeyed (counted token file w)
counted-IsKeyed token file w k = record {
  by_id = λ id. omega (arith, by_id_counted id token file w.now w.share_tokens, k.by_id id);
  by_token =
      λ text. omega (arith, by_token_counted text token file w.now w.share_tokens, k.by_token text);
}

-- A row that shares neither its id nor its text with another
none_with_id :
    (s : ShareToken) (ts : List ShareToken)
    → any (λ t. (t.id == s.id) || (t.token == s.token)) ts ≡ false
    → count (λ t. t.id == s.id) ts ≡ 0
none_with_id s [] h = omega arith
none_with_id s (t ∷ ts) h = ground (arith, none_with_id s ts)

none_with_token :
    (s : ShareToken) (ts : List ShareToken)
    → any (λ t. (t.id == s.id) || (t.token == s.token)) ts ≡ false
    → count (λ t. t.token == s.token) ts ≡ 0
none_with_token s [] h = omega arith
none_with_token s (t ∷ ts) h = ground (arith, none_with_token s ts)

new-IsKeyed :
    (s : ShareToken) (ts : List ShareToken)
    → any (λ t. (t.id == s.id) || (t.token == s.token)) ts ≡ false
    → IsKeyed ts
    → IsKeyed (s ∷ ts)
new-IsKeyed s ts h k = record {
  by_id = λ id. ground (arith, none_with_id s ts h, k.by_id id);
  by_token = λ text. ground (arith, none_with_token s ts h, k.by_token text);
}

-- The tokens respect the keys of their table and their limits.
abbrev pub IsSound : List ShareToken → Type 0
IsSound ts = IsKeyed ts × WithinLimits ts

share-IsSound :
    (user : ℕ) (role : Role) (id max_downloads expires_at secret : ℕ) (w : World)
    → IsSound w.share_tokens
    → IsSound (share user role id max_downloads expires_at secret w).1.share_tokens
share-IsSound user role id max_downloads expires_at secret w h =
    final (λ q. IsSound q.share_tokens)
      (weaken (share-Runs user role id max_downloads expires_at secret w)
        (λ token q g. rw g.1.stored (
          new-IsKeyed (new_token user id max_downloads expires_at secret w) w.share_tokens
              g.1.is_new h.0,
          fits h.1,
        ))
        (λ code q e. rw e.0 h))
  where
    fits :
        WithinLimits w.share_tokens
        → WithinLimits (new_token user id max_downloads expires_at secret w ∷ w.share_tokens)
    fits l = ground arith

use-IsKeyed :
    (token file : ℕ) (w : World)
    → IsKeyed w.share_tokens
    → IsKeyed (init_download_share token file w).1.share_tokens
use-IsKeyed token file w k =
    final (λ q. IsKeyed q.share_tokens)
      (weaken (init_download_share-Runs token file w k)
        (λ plan q u. rw u.paid (counted-IsKeyed token file w k))
        (λ code q e. elim (error_tokens token file w q code e) [
          | inl s ↦ rw s k
          | inr s ↦ rw s (counted-IsKeyed token file w k)
        ]))

Step-IsSound :
    {text : ℕ} {w : World} {n : ℕ} {q : World}
    → Step text w n q
    → IsSound w.share_tokens
    → IsSound q.share_tokens
Step-IsSound {w} (grants user role id max_downloads expires_at secret) h =
    share-IsSound user role id max_downloads expires_at secret w h
Step-IsSound {w} (uses token file) h =
    (use-IsKeyed token file w h.0, init_download_share-WithinLimits token file w h.0 h.1)

Step-Charged :
    {text : ℕ} {w : World} {n : ℕ} {q : World}
    → Step text w n q
    → IsKeyed w.share_tokens
    → Charged text n w.share_tokens q.share_tokens
Step-Charged {text} {w} (grants user role id max_downloads expires_at secret) k =
    share-Charged text user role id max_downloads expires_at secret w
Step-Charged {text} {w} (uses token file) k = use-Charged text token file w k

history-IsSound :
    {text : ℕ} {w : World} {n : ℕ} {q : World}
    → Reach text w n q
    → IsSound w.share_tokens
    → IsSound q.share_tokens
history-IsSound start h = h
history-IsSound (next r s) h = Step-IsSound s (history-IsSound r h)
history-IsSound (elapses r e) h = rw e (history-IsSound r h)

history-Charged :
    {text : ℕ} {w : World} {n : ℕ} {q : World}
    → Reach text w n q
    → IsSound w.share_tokens
    → Charged text n w.share_tokens q.share_tokens
history-Charged {text} start h = Charged-same text refl
history-Charged {text} (next {m} {n} r s) h =
    Charged-trans text m n (history-Charged r h) (Step-Charged s (history-IsSound r h).0)
history-Charged {text} (elapses r e) h = rw e (history-Charged r h)

-- Whatever share tokens are granted and used, in any order, with any calls failing and any time passing
-- between, from a table with its keys in which no token has counted more uses than it allows: this stays so;
-- the limit of a token that was there does not change; and the downloads that were handed out by a token,
-- with the uses that it had counted before, are no more than its limit.
pub uses_stay_bounded :
    {text : ℕ} {w : World} {n : ℕ} {q : World}
    → Reach text w n q
    → IsSound w.share_tokens
    → IsSound q.share_tokens
      × (charge text w.share_tokens + n ≤ allowed text q.share_tokens)
      × ((has_token text w.share_tokens ≡ false)
          ⊎ (allowed text q.share_tokens ≡ allowed text w.share_tokens))
uses_stay_bounded {text} {w} {n} {q} r h =
    let sound = history-IsSound r h in
    let c = history-Charged r h in
    (
      sound,
      omega (arith, c.counts, charge-allowed text q.share_tokens sound.1),
      elim (Bool-cases (has_token text w.share_tokens)) [
        | inl e ↦ inr (c.same_limit e)
        | inr e ↦ inl e
      ],
    )
