-- ===== src/Downloads/Sharing.antt =====
-- What the use of a share token costs it, and when: handle_init_download_share of
-- coordinator-server/download/download_service.py.
use lan_secure_file_system.Common.{
  ℕ, ◌-◌, ◌≤◌, ◌≡◌, refl, ◌∙◌, ap, inl, inr, Bool, false, ◌&&◌, none, some, List, [], ◌∷◌, change,
  find, any, count, ltb, ◌==◌, if◌then◌else◌, arith, Bool-cases,
}
use lan_secure_file_system.World.{ShareToken, Db}
use lan_secure_file_system.Downloads.{is_usable, count_one, give_back}

-- No token is used more often than it allows.
abbrev over_limit : ShareToken → Bool
over_limit t = ltb t.max_downloads t.download_count

abbrev pub WithinLimits : List ShareToken → Type 0
WithinLimits ts = any over_limit ts ≡ false

-- The keys of the table: at most one token of an id, and at most one of a text.
pub record IsKeyed (ts : List ShareToken) : Type 0 where
  pub by_id : (id : ℕ) → count (λ t. t.id == id) ts ≤ 1
  pub by_token : (token : ℕ) → count (λ t. t.token == token) ts ≤ 1

pub consume-WithinLimits :
    (token file now : ℕ) (ts : List ShareToken)
    → WithinLimits ts
    → WithinLimits (change (is_usable token file now) count_one ts)
consume-WithinLimits token file now [] h = refl
consume-WithinLimits token file now (t ∷ ts) h =
    ground (arith, consume-WithinLimits token file now ts)

give_back-WithinLimits :
    (id : ℕ) (db : Db) → WithinLimits db.share_tokens → WithinLimits (give_back id db).share_tokens
give_back-WithinLimits id db h = given db.share_tokens h
  where
    given :
        (ts : List ShareToken)
        → WithinLimits ts
        → WithinLimits (
            change
              (λ t. (t.id == id) && ltb 0 t.download_count)
              (λ t. record t { download_count = t.download_count - 1 })
              ts)
    given [] h = refl
    given (t ∷ ts) h = ground (arith, given ts)

-- Where no row has the token, none is consumed; where none has the id, none is given back.
untouched :
    (token file now : ℕ) (ts : List ShareToken)
    → count (λ t. t.token == token) ts ≡ 0
    → change (is_usable token file now) count_one ts ≡ ts
untouched token file now [] h = refl
untouched token file now (t ∷ ts) h = ground (arith, untouched token file now ts)

abbrev one_back : ShareToken → ShareToken
one_back t = record t { download_count = t.download_count - 1 }

abbrev was_counted : ℕ → ShareToken → Bool
was_counted id t = (t.id == id) && ltb 0 t.download_count

not_given :
    (id : ℕ) (ts : List ShareToken)
    → count (λ t. t.id == id) ts ≡ 0
    → change (was_counted id) one_back ts ≡ ts
not_given id [] h = refl
not_given id (t ∷ ts) h = ground (arith, not_given id ts)

found_counted :
    (token file now : ℕ) (ts : List ShareToken) (t : ShareToken)
    → find (is_usable token file now) ts ≡ some t
    → 1 ≤ count (λ s. s.id == t.id) ts
found_counted token file now [] t f = ground arith
found_counted token file now (s ∷ ts) t f = ground (arith, found_counted token file now ts t)

-- What was consumed and given back is as it was.
pub give_back-consume :
    (token file now : ℕ) (ts : List ShareToken) (t : ShareToken)
    → find (is_usable token file now) ts ≡ some t
    → count (λ s. s.id == t.id) ts ≤ 1
    → count (λ s. s.token == token) ts ≤ 1
    → change (was_counted t.id) one_back (change (is_usable token file now) count_one ts) ≡ ts
give_back-consume token file now [] t f k l = refl
give_back-consume token file now (s ∷ ts) t f k l =
    ap (λ ss. once s ∷ ss) (tail_same (give_back-consume token file now ts t))
    ∙ ap (λ r. r ∷ ts) head_same
  where
    once : ShareToken → ShareToken
    once r =
        let c = if is_usable token file now r then count_one r else r in
        if was_counted t.id c then one_back c else c

    head_same : once s ≡ s
    head_same = elim (Bool-cases (is_usable token file now s)) [
      | inl e ↦ ground arith
      | inr e ↦ ground (arith, found_counted token file now ts t)
    ]

    tail_same :
        (find (is_usable token file now) ts ≡ some t
          → count (λ r. r.id == t.id) ts ≤ 1
          → count (λ r. r.token == token) ts ≤ 1
          → change (was_counted t.id) one_back (change (is_usable token file now) count_one ts)
            ≡ ts)
        → change (was_counted t.id) one_back (change (is_usable token file now) count_one ts) ≡ ts
    tail_same ih = elim (Bool-cases (is_usable token file now s)) [
      | inl e ↦
          ap (change (was_counted t.id) one_back) (untouched token file now ts (ground arith))
          ∙ not_given t.id ts (ground arith)
      | inr e ↦ ih (ground arith) (ground arith) (ground arith)
    ]

-- A token that the atomic update does not take is not usable, whatever row is asked.
pub none_usable :
    (token file now : ℕ) (ts : List ShareToken) (t : ShareToken)
    → find (λ s. s.token == token) ts ≡ some t
    → find (is_usable token file now) ts ≡ none
    → is_usable token file now t ≡ false
none_usable token file now [] t f h = ground arith
none_usable token file now (s ∷ ts) t f h = ground (arith, none_usable token file now ts t)
