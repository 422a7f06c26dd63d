-- ===== src/Common/Filters.antt =====
-- What a filter leaves of a list, by the property that its test stands for.
use mathlib.Core.Path.{◌≡◌}
use mathlib.Core.Logic.{inl, inr}
use mathlib.Core.Bool.{Bool, true, false}
use mathlib.Core.List.{List, [], ◌∷◌}
use lan_secure_file_system.Common.Tests.{Bool-cases}
use lan_secure_file_system.Common.Lists.{keep}

-- The second list has the elements of the first that satisfy `P`, and no others, in the same order.
pub data Selects {ℓ} {A : Type ℓ} (P : A → Type ℓ) : List A → List A → Type ℓ where
  all_seen : Selects P [] []
  taken : {x : A} {xs ys : List A} → P x → Selects P xs ys → Selects P (x ∷ xs) (x ∷ ys)
  passed : {x : A} {xs ys : List A} → ¬ P x → Selects P xs ys → Selects P (x ∷ xs) ys

pub keep-Selects {ℓ} :
    {A : Type ℓ} {P : A → Type ℓ} (p : A → Bool) (xs : List A)
    → ((x : A) → p x ≡ true → P x)
    → ((x : A) → p x ≡ false → ¬ P x)
    → Selects P xs (keep p xs)
keep-Selects p [] holds fails = all_seen
keep-Selects p (x ∷ xs) holds fails = elim (Bool-cases (p x)) [
  | inl e ↦ rw e (taken (holds x e) (keep-Selects p xs holds fails))
  | inr e ↦ rw e (passed (fails x e) (keep-Selects p xs holds fails))
]

-- A filter after a filter
pub keep-keep-Selects {ℓ} :
    {A : Type ℓ} {P : A → Type ℓ} (p q : A → Bool) (xs : List A)
    → ((x : A) → q x ≡ true → p x ≡ true → P x)
    → ((x : A) → q x ≡ false → ¬ P x)
    → ((x : A) → p x ≡ false → ¬ P x)
    → Selects P xs (keep p (keep q xs))
keep-keep-Selects p q [] holds misses fails = all_seen
keep-keep-Selects p q (x ∷ xs) holds misses fails = elim (Bool-cases (q x)) [
  | inr e ↦ rw e (passed (misses x e) (keep-keep-Selects p q xs holds misses fails))
  | inl e ↦ elim (Bool-cases (p x)) [
    | inl e' ↦ rw (e, e') (taken (holds x e e') (keep-keep-Selects p q xs holds misses fails))
    | inr e' ↦ rw (e, e') (passed (fails x e') (keep-keep-Selects p q xs holds misses fails))
  ]
]
