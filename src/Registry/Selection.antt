-- ===== src/Registry/Selection.antt =====
-- What `select_for_upload` returns.
use lan_secure_file_system.Common.{
  ℕ, zero, suc, ◌+◌, ◌-◌, ◌%◌, ◌≤◌, ◌<◌, ◌≡◌, refl, ◌≢◌, inl, inr, ◌↔◌, Bool, true, Option, none,
  some, List, [], ◌∷◌, arith, keep, length, get_elem?, values, Bool-cases, Selects, keep-Selects,
  ap, sym, ◌∙◌,
}
use native.Mathlib.Decide.{dec_lt}
use native.Mathlib.Nat.{mod-lt, mod-eq_of_lt, mod-eq-sub-mod}
use lan_secure_file_system.Registry.{Registry}
use lan_secure_file_system.Registry.Balancing.{
  sample_positions, better, pick, score_lt, is_eligible, eligible, reap_expired, select_for_upload,
}
use lan_secure_file_system.Registry.Eligibility.{
  MayTake, Preferred, score_lt-Preferred, not_score_lt-Preferred, is_eligible-MayTake,
  not_eligible-MayTake,
}
use lan_secure_file_system.Registry.Filing.{Filed, select-Filed}

get_elem?-lt {ℓ} :
    {A : Type ℓ} (xs : List A) (i : ℕ) → i < length xs → (a : A) × (get_elem? xs i ≡ some a)
get_elem?-lt [] i h = absurd (omega arith)
get_elem?-lt (x ∷ xs) zero h = (x, refl)
get_elem?-lt (x ∷ xs) (suc i) h = get_elem?-lt xs i (omega arith)

-- What stands in a list, at some position.
abbrev pub At {ℓ} : {A : Type ℓ} → List A → A → Type ℓ
At xs a = (j : ℕ) × (get_elem? xs j ≡ some a)

At-cons {ℓ} : {A : Type ℓ} (x : A) (xs : List A) {a : A} → At xs a → At (x ∷ xs) a
At-cons x xs (j, e) = (suc j, e)

-- What a filter keeps satisfies the test and stood in the list.
pub get_elem?-keep {ℓ} :
    {A : Type ℓ} (p : A → Bool) (xs : List A) (i : ℕ) {a : A}
    → get_elem? (keep p xs) i ≡ some a
    → (p a ≡ true) × At xs a
get_elem?-keep p [] i h = cc
get_elem?-keep p (x ∷ xs) zero {a} h = elim (Bool-cases (p x)) [
  | inr e ↦ let ih = get_elem?-keep p xs zero {a = a} (rw e at h) in (ih.0, At-cons x xs ih.1)
  | inl e ↦ let same : x ≡ a = ground arith in (rw (← same) e, (0, ap some same))
]
get_elem?-keep p (x ∷ xs) (suc i) {a} h = elim (Bool-cases (p x)) [
  | inr e ↦ let ih = get_elem?-keep p xs (suc i) {a = a} (rw e at h) in (ih.0, At-cons x xs ih.1)
  | inl e ↦ let ih = get_elem?-keep p xs i {a = a} (rw e at h) in (ih.0, At-cons x xs ih.1)
]

-- Two positions `d` apart on a circle of `n`, with `d` below `n`, are distinct.
shift_distinct : (n i d : ℕ) → i < n → 1 ≤ d → d < n → ((i + d) % n < n) × (i ≢ (i + d) % n)
shift_distinct n i d h k l = elim (dec_lt (i + d) n) [
  | yes p ↦ rw (mod-eq_of_lt p) (omega arith)
  | no p ↦
      let below : i + d - n < n = omega arith in
      rw (mod-eq-sub-mod {n = i + d} {m = n} (omega arith), mod-eq_of_lt below) (omega arith)
]

sample_positions_distinct :
    (n : ℕ) (a b : ℕ)
    → 2 ≤ n
    → let (i, j) = sample_positions n (a, b) in (i < n) × (j < n) × (i ≢ j)
unfolding sample_positions
sample_positions_distinct n a b h =
    let i = a % n in
    let d = 1 + b % (n - 1) in
    let lt_i : i < n = mod-lt a (omega arith) in
    let lt_d : b % (n - 1) < n - 1 = mod-lt b (omega arith) in
    let (lt_j, ne) = shift_distinct n i d lt_i (omega arith) (omega arith) in
    let e : i + 1 + b % (n - 1) ≡ i + d = omega arith in rw e (lt_i, lt_j, ne)

-- How `pick` chose: the only eligible node, or one of two at distinct positions, and the other is no
-- better.
pub data Chosen (r : Registry) (refs : List ℕ) (ref : ℕ) : Type 0 where
  only : refs ≡ ref ∷ [] → Chosen r refs ref
  one_of_two :
      (i j other : ℕ)
      → i ≢ j
      → get_elem? refs i ≡ some ref
      → get_elem? refs j ≡ some other
      → Preferred (r.objects ref) (r.objects other)
      → Chosen r refs ref

better-Chosen :
    (r : Registry) (refs : List ℕ) (i j x y ref : ℕ)
    → i ≢ j
    → get_elem? refs i ≡ some x
    → get_elem? refs j ≡ some y
    → better r (some x) (some y) ≡ some ref
    → Chosen r refs ref
unfolding better
better-Chosen r refs i j x y ref ne ex ey h =
    elim (Bool-cases (score_lt (r.objects y) (r.objects x))) [
      | inl e ↦
          let same : y ≡ ref = ground arith in
          one_of_two j i x (λ q. ne (sym q)) (rw (← same) ey) ex
            (rw (← same) (score_lt-Preferred (r.objects y) (r.objects x) e))
      | inr e ↦
          let same : x ≡ ref = ground arith in
          one_of_two i j y ne (rw (← same) ex) ey
            (rw (← same) (not_score_lt-Preferred (r.objects y) (r.objects x) e))
    ]

pub pick-Chosen :
    (r : Registry) (refs : List ℕ) (draws : ℕ × ℕ) (ref : ℕ)
    → pick r refs draws ≡ some ref
    → Chosen r refs ref
unfolding pick
pick-Chosen r [] draws ref h = cc
pick-Chosen r (x ∷ []) draws ref h = only (ground arith)
pick-Chosen r (x ∷ y ∷ rest) (a, b) ref h =
    let refs = x ∷ y ∷ rest in
    let (lt_i, lt_j, ne) = sample_positions_distinct (length refs) a b (omega arith) in
    let (i, j) = sample_positions (length refs) (a, b) in
    let (u, eu) = get_elem?-lt refs i lt_i in
    let (v, ev) = get_elem?-lt refs j lt_j in
    better-Chosen r refs i j u v ref ne eu ev (rw (sym eu, sym ev) h)

better-some : (r : Registry) (x y : ℕ) → (z : ℕ) × (better r (some x) (some y) ≡ some z)
unfolding better
better-some r x y = elim (Bool-cases (score_lt (r.objects y) (r.objects x))) [
  | inl e ↦ (y, ground arith)
  | inr e ↦ (x, ground arith)
]

pick-some :
    (r : Registry) (x : ℕ) (rest : List ℕ) (draws : ℕ × ℕ)
    → (ref : ℕ) × (pick r (x ∷ rest) draws ≡ some ref)
unfolding pick
pick-some r x [] draws = (x, refl)
pick-some r x (y ∷ rest) (a, b) =
    let refs = x ∷ y ∷ rest in
    let (lt_i, lt_j, ne) = sample_positions_distinct (length refs) a b (omega arith) in
    let (u, eu) = get_elem?-lt refs _ lt_i in
    let (v, ev) = get_elem?-lt refs _ lt_j in let (z, ez) = better-some r u v in (z, rw (eu, ev) ez)

pub Chosen-At : (r : Registry) (refs : List ℕ) {ref : ℕ} → Chosen r refs ref → At refs ref
Chosen-At r refs (only e) = (0, rw e)
Chosen-At r refs (one_of_two i j other ne ei ej s) = (i, ei)

pick-none :
    (r : Registry) (refs : List ℕ) (draws : ℕ × ℕ) → (pick r refs draws ≡ none) ↔ (refs ≡ [])
pick-none r [] draws = (λ h. refl, λ h. unfold pick in refl)
pick-none r (x ∷ rest) draws = let found = pick-some r x rest draws in (λ h. cc (found.1), λ h. cc)

-- What `select_for_upload` returns is what `pick` picks among the eligible nodes.
select-pick :
    (r : Registry) (now : ℕ) (draws : ℕ × ℕ) (id : Option ℕ) (ttl : ℕ)
    → (select_for_upload r now draws id ttl).1
      ≡ pick (reap_expired r now) (eligible (reap_expired r now) now) draws
unfolding select_for_upload
select-pick r now draws id ttl = ground arith

-- Whatever the random draw, once the expired slots are reaped: the eligible nodes are those under an id that
-- have authenticated, have pinged within the timeout, have an address and, where they told their free
-- bytes, the minimum of them. The node that `select_for_upload` returns is one of these, and the only one, or
-- of the two drawn at distinct positions it has fewer uploads than the other, or as many and no fewer free
-- bytes. With an id that is not empty, a reservation is then filed under it for this node, which is charged
-- one upload more, where the id had no reservation before.
pub select_for_upload-Chosen :
    (r : Registry) (now : ℕ) (draws : ℕ × ℕ) (id : Option ℕ) (ttl ref : ℕ)
    → (select_for_upload r now draws id ttl).1 ≡ some ref
    → Selects
        (λ q. MayTake (reap_expired r now) now ((reap_expired r now).objects q))
        (values (reap_expired r now).nodes_by_id)
        (eligible (reap_expired r now) now)
      × MayTake (reap_expired r now) now ((reap_expired r now).objects ref)
      × At (values (reap_expired r now).nodes_by_id) ref
      × Chosen (reap_expired r now) (eligible (reap_expired r now) now) ref
      × Filed (reap_expired r now) now ttl ref (select_for_upload r now draws id ttl).0 id
select_for_upload-Chosen r now draws id ttl ref h =
    let reaped = reap_expired r now in
    let chosen =
      pick-Chosen reaped (eligible reaped now) draws ref
        (sym (select-pick r now draws id ttl) ∙ h) in
    let (i, e) = Chosen-At reaped (eligible reaped now) chosen in
    let kept = get_elem?-keep (is_eligible reaped now) (values reaped.nodes_by_id) i {a = ref} e in
    (
      keep-Selects (is_eligible reaped now) (values reaped.nodes_by_id)
          (is_eligible-MayTake reaped now) (not_eligible-MayTake reaped now),
      is_eligible-MayTake reaped now ref kept.0,
      kept.1,
      chosen,
      select-Filed r now draws id ttl ref (sym (select-pick r now draws id ttl) ∙ h),
    )

-- No node is returned exactly when none is eligible.
pub select_for_upload-none :
    (r : Registry) (now : ℕ) (draws : ℕ × ℕ) (id : Option ℕ) (ttl : ℕ)
    → ((select_for_upload r now draws id ttl).1 ≡ none) ↔ (eligible (reap_expired r now) now ≡ [])
select_for_upload-none r now draws id ttl =
    rw (select-pick r now draws id ttl)
      (pick-none (reap_expired r now) (eligible (reap_expired r now) now) draws)
