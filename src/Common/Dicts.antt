-- ===== src/Common/Dicts.antt =====
-- Python's `dict` with number keys, in insertion order.
use Prim.Native.Nat.{ℕ, suc, ◌+◌}
use mathlib.Core.Path.{◌≡◌, refl}
use mathlib.Core.List.{List, [], ◌∷◌}
use mathlib.Core.Bool.{Bool}
use mathlib.Core.Option.{Option, none, some}
use native.Mathlib.Omega.{arith}
use lan_secure_file_system.Common.Tests.{◌==◌, if◌then◌else◌}

abbrev pub Dict {ℓ} : Type ℓ → Type ℓ
Dict V = List (ℕ × V)

module _ {ℓ} {V : Type ℓ} where
  -- `d.get(k)`
  abbrev pub lookup : ℕ → Dict V → Option V
  lookup k [] = none
  lookup k ((j, v) ∷ d) = if j == k then some v else lookup k d

  -- `d[k] = v`
  abbrev pub insert : ℕ → V → Dict V → Dict V
  insert k v [] = (k, v) ∷ []
  insert k v ((j, w) ∷ d) = if j == k then (k, v) ∷ d else (j, w) ∷ insert k v d

  -- `d.pop(k, None)`; a key has one entry, and any others go too
  abbrev pub erase : ℕ → Dict V → Dict V
  erase k [] = []
  erase k ((j, w) ∷ d) = if j == k then erase k d else (j, w) ∷ erase k d

  -- `d.values()`
  abbrev pub values : Dict V → List V
  values [] = []
  values ((j, v) ∷ d) = v ∷ values d

  pub lookup-insert :
      (k j : ℕ) (v : V) (d : Dict V)
      → lookup j (insert k v d) ≡ (if k == j then some v else lookup j d)
  lookup-insert k j v [] = refl
  lookup-insert k j v ((i, w) ∷ d) = ground (arith, lookup-insert k j v d)

  pub lookup-erase :
      (k j : ℕ) (d : Dict V) → lookup j (erase k d) ≡ (if k == j then none else lookup j d)
  lookup-erase k j [] = ground arith
  lookup-erase k j ((i, w) ∷ d) = ground (arith, lookup-erase k j d)

  -- Each key has one entry.
  abbrev pub Unique : Dict V → Type ℓ
  Unique [] = Unit
  Unique ((j, w) ∷ d) = (lookup j d ≡ none) × Unique d

  pub insert-Unique : (k : ℕ) (v : V) (d : Dict V) → Unique d → Unique (insert k v d)
  insert-Unique k v [] u = (refl, tt)
  insert-Unique k v ((j, w) ∷ d) u = ground (arith, insert-Unique k v d u.1, lookup-insert k j v d)

  pub erase-Unique : (k : ℕ) (d : Dict V) → Unique d → Unique (erase k d)
  erase-Unique k [] u = tt
  erase-Unique k ((j, w) ∷ d) u = ground (arith, erase-Unique k d u.1, lookup-erase k j d)

  -- How many values satisfy a test.
  abbrev pub count_values : (V → Bool) → Dict V → ℕ
  count_values p [] = 0
  count_values p ((j, w) ∷ d) = if p w then suc (count_values p d) else count_values p d

  pub erase_absent : (k : ℕ) (d : Dict V) → lookup k d ≡ none → erase k d ≡ d
  erase_absent k [] h = refl
  erase_absent k ((j, w) ∷ d) h = ground (arith, erase_absent k d)

  pub count_values-erase :
      (p : V → Bool) (k : ℕ) (v : V) (d : Dict V)
      → Unique d
      → lookup k d ≡ some v
      → count_values p d ≡ count_values p (erase k d) + (if p v then 1 else 0)
  count_values-erase p k v [] u h = cc
  count_values-erase p k v ((j, w) ∷ d) u h =
      ground (arith, count_values-erase p k v d u.1, erase_absent k d)

  pub count_values-insert :
      (p : V → Bool) (k : ℕ) (v : V) (d : Dict V)
      → lookup k d ≡ none
      → count_values p (insert k v d) ≡ count_values p d + (if p v then 1 else 0)
  count_values-insert p k v [] h = ground arith
  count_values-insert p k v ((j, w) ∷ d) h = ground (arith, count_values-insert p k v d)
