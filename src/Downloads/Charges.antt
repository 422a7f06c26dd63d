-- ===== src/Downloads/Charges.antt =====
-- What the table of share tokens says of the uses of one token, and how the services move it.
use lan_secure_file_system.Common.{
  ℕ, suc, ◌+◌, ◌≤◌, ◌≡◌, refl, ◌∙◌, inl, inr, Bool, true, false, ◌||◌, Option, none, some, List, [],
  ◌∷◌, change, count, find, any, ◌==◌, if◌then◌else◌, arith, Bool-cases,
}
use lan_secure_file_system.World.{
  Role, ShareToken, World, Outcome, returned, failed, raised, Meets, final, weaken,
}
use lan_secure_file_system.Downloads.{
  DownloadPlan, is_usable, count_one, share, init_download_share,
}
use lan_secure_file_system.Downloads.Refusals.{Used, UseError}
use lan_secure_file_system.Downloads.Sharing.{IsKeyed, WithinLimits}
use lan_secure_file_system.Downloads.Tokens.{new_token, share-Runs}
use lan_secure_file_system.Downloads.Use.{init_download_share-Runs, error_tokens}

-- The uses that the row of a token has counted
abbrev pub charge : ℕ → List ShareToken → ℕ
charge text [] = 0
charge text (t ∷ ts) = if t.token == text then t.download_count else charge text ts

-- The uses that the row of a token allows
abbrev pub allowed : ℕ → List ShareToken → ℕ
allowed text [] = 0
allowed text (t ∷ ts) = if t.token == text then t.max_downloads else allowed text ts

abbrev pub has_token : ℕ → List ShareToken → Bool
has_token text ts = any (λ t. t.token == text) ts

-- A call that handed out a download
abbrev wins : Outcome DownloadPlan → ℕ
wins (returned plan) = 1
wins (failed code) = 0
wins raised = 0

-- The downloads by a token that the use of some token hands out: one or none
abbrev pub won : (text token file : ℕ) → World → ℕ
won text token file w = if token == text then wins (init_download_share token file w).0 else 0

pub charge-allowed :
    (text : ℕ) (ts : List ShareToken) → WithinLimits ts → charge text ts ≤ allowed text ts
charge-allowed text [] h = omega arith
charge-allowed text (t ∷ ts) h = ground (arith, charge-allowed text ts)

charge-counted :
    (text token file now : ℕ) (ts : List ShareToken)
    → charge text ts ≤ charge text (change (is_usable token file now) count_one ts)
charge-counted text token file now [] = omega arith
charge-counted text token file now (t ∷ ts) = ground (arith, charge-counted text token file now ts)

allowed-counted :
    (text token file now : ℕ) (ts : List ShareToken)
    → allowed text (change (is_usable token file now) count_one ts) ≡ allowed text ts
allowed-counted text token file now [] = refl
allowed-counted text token file now (t ∷ ts) =
    ground (arith, allowed-counted text token file now ts)

has_token-counted :
    (text token file now : ℕ) (ts : List ShareToken)
    → has_token text (change (is_usable token file now) count_one ts) ≡ has_token text ts
has_token-counted text token file now [] = refl
has_token-counted text token file now (t ∷ ts) =
    ground (arith, has_token-counted text token file now ts)

found_has_token :
    (text file now : ℕ) (ts : List ShareToken) (row : ShareToken)
    → find (is_usable text file now) ts ≡ some row
    → 1 ≤ count (λ t. t.token == text) ts
found_has_token text file now [] row h = ground arith
found_has_token text file now (t ∷ ts) row h = ground (arith, found_has_token text file now ts row)

-- The row of a token that is used counts one more.
charge-used :
    (text file now : ℕ) (ts : List ShareToken) (row : ShareToken)
    → count (λ t. t.token == text) ts ≤ 1
    → find (is_usable text file now) ts ≡ some row
    → suc (charge text ts) ≤ charge text (change (is_usable text file now) count_one ts)
charge-used text file now [] row k h = ground arith
charge-used text file now (t ∷ ts) row k h =
    ground (arith, charge-used text file now ts row, found_has_token text file now ts row)

-- A token that is not in the table has counted nothing.
absent-charge : (text : ℕ) (ts : List ShareToken) → has_token text ts ≡ false → charge text ts ≡ 0
absent-charge text [] h = refl
absent-charge text (t ∷ ts) h = ground (arith, absent-charge text ts)

absent_token :
    (s : ShareToken) (ts : List ShareToken)
    → any (λ t. (t.id == s.id) || (t.token == s.token)) ts ≡ false
    → has_token s.token ts ≡ false
absent_token s [] h = refl
absent_token s (t ∷ ts) h = ground (arith, absent_token s ts)

-- From one table to a later one, with so many uses between: the row of a token counts at least these, and
-- a row that is there stays, with the uses that it allows.
pub record Charged (text n : ℕ) (before after : List ShareToken) : Type 0 where
  pub counts : charge text before + n ≤ charge text after
  pub stays : has_token text before ≡ true → has_token text after ≡ true
  pub same_limit : has_token text before ≡ true → allowed text after ≡ allowed text before

pub Charged-same :
    (text : ℕ) {before after : List ShareToken} → after ≡ before → Charged text 0 before after
Charged-same text e = rw e (record { counts = omega arith; stays = λ h. h; same_limit = λ h. refl })

pub Charged-trans :
    (text m n : ℕ) {before between after : List ShareToken}
    → Charged text m before between
    → Charged text n between after
    → Charged text (m + n) before after
Charged-trans text m n c d = record {
  counts = omega (arith, c.counts, d.counts);
  stays = λ h. d.stays (c.stays h);
  same_limit = λ h. d.same_limit (c.stays h) ∙ c.same_limit h;
}

Charged-counted :
    (text token file now : ℕ) (ts : List ShareToken)
    → Charged text 0 ts (change (is_usable token file now) count_one ts)
Charged-counted text token file now ts = record {
  counts = omega (arith, charge-counted text token file now ts);
  stays = λ h. has_token-counted text token file now ts ∙ h;
  same_limit = λ h. allowed-counted text token file now ts;
}

Charged-used :
    (text file now : ℕ) (ts : List ShareToken) (row : ShareToken)
    → count (λ t. t.token == text) ts ≤ 1
    → find (is_usable text file now) ts ≡ some row
    → Charged text 1 ts (change (is_usable text file now) count_one ts)
Charged-used text file now ts row k h = record {
  counts = omega (arith, charge-used text file now ts row k h);
  stays = λ e. has_token-counted text text file now ts ∙ e;
  same_limit = λ e. allowed-counted text text file now ts;
}

Charged-new :
    (text : ℕ) (s : ShareToken) (ts : List ShareToken)
    → any (λ t. (t.id == s.id) || (t.token == s.token)) ts ≡ false
    → Charged text 0 ts (s ∷ ts)
Charged-new text s ts h =
    let gone = absent_token s ts h in
    record {
      counts = ground (arith, absent-charge text ts);
      stays = λ e. ground arith;
      same_limit = λ e. ground arith;
    }

pub share-Charged :
    (text user : ℕ) (role : Role) (id max_downloads expires_at secret : ℕ) (w : World)
    → Charged text 0 w.share_tokens
        (share user role id max_downloads expires_at secret w).1.share_tokens
share-Charged text user role id max_downloads expires_at secret w =
    final (λ q. Charged text 0 w.share_tokens q.share_tokens)
      (weaken (share-Runs user role id max_downloads expires_at secret w)
        (λ token q g. rw g.1.stored (
          Charged-new text (new_token user id max_downloads expires_at secret w) w.share_tokens
            g.1.is_new))
        (λ code q e. Charged-same text e.0))

module _ (text token file : ℕ) (w : World) (keyed : IsKeyed w.share_tokens) where
  lost :
      (code : Option _) (q : World)
      → UseError token file w q code
      → Charged text 0 w.share_tokens q.share_tokens
  lost code q u = elim (error_tokens token file w q code u) [
    | inl s ↦ Charged-same text s
    | inr s ↦ rw s (Charged-counted text token file w.now w.share_tokens)
  ]

  not_won :
      (code : Option _) (q : World)
      → UseError token file w q code
      → Charged text (if token == text then 0 else 0) w.share_tokens q.share_tokens
  not_won code q u = elim (Bool-cases (token == text)) [
    | inl e ↦ rw e (lost code q u)
    | inr e ↦ rw e (lost code q u)
  ]

  use_outcome :
      (o : Outcome DownloadPlan × World)
      → Meets (λ plan q. Used token file w plan q) (λ code q. UseError token file w q code) o
      → Charged text (if token == text then wins o.0 else 0) w.share_tokens o.1.share_tokens
  use_outcome (returned plan, q) u = elim (Bool-cases (token == text)) [
    | inl e ↦
        let same : token ≡ text = ground arith in
        rw (e, u.paid, same)
          (Charged-used text file w.now w.share_tokens u.row (keyed.by_token text)
            (rw (← same) u.was_usable))
    | inr e ↦ rw (e, u.paid) (Charged-counted text token file w.now w.share_tokens)
  ]
  use_outcome (failed code, q) u = not_won (some code) q u
  use_outcome (raised, q) u = not_won none q u

pub use-Charged :
    (text token file : ℕ) (w : World)
    → IsKeyed w.share_tokens
    → Charged text
        (won text token file w)
        w.share_tokens
        (init_download_share token file w).1.share_tokens
use-Charged text token file w keyed =
    use_outcome text token file w keyed (init_download_share token file w)
      (init_download_share-Runs token file w keyed).ends
