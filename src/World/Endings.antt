-- ===== src/World/Endings.antt =====
-- How a call ends: with a value, with an error code, or with an exception.
use lan_secure_file_system.Common.{ℕ, suc, true, Option, none, some}
use mathlib.Core.Path.{◌≡◌, subst}
use lan_secure_file_system.World.State.{World}
use lan_secure_file_system.World.Actions.{
  Outcome, returned, failed, raised, Action, ErrorCode, ◌>>=◌,
}

-- The post-condition of a value, or that of an error, which is `none` for an exception.
abbrev pub Meets :
    {A : Type 0}
    → (A → World → Type 0)
    → (Option ErrorCode → World → Type 0)
    → Outcome A × World
    → Type 0
Meets good bad (returned a, w) = good a w
Meets good bad (failed code, w) = bad (some code) w
Meets good bad (raised, w) = bad none w

pub record Runs {A : Type 0} (m : Action A) (w : World) (good : A → World → Type 0)
    (bad : Option ErrorCode → World → Type 0) : Type 0 where
  pub ends : Meets good bad (m w)

-- One more call to the database or to Redis.
abbrev pub tick : World → World
tick w = record w { calls = suc w.calls }

-- Some call raises.
abbrev pub Fault : World → Type 0
Fault w = (n : ℕ) × (w.faults n ≡ true)

Meets-bind :
    {A B : Type 0} (good : B → World → Type 0) (bad : Option ErrorCode → World → Type 0)
    → (o : Outcome A × World) (f : A → Action B) → Meets (λ a q. Runs (f a) q good bad) bad o
    → Meets good bad (elim o.0 [
      | returned a ↦ f a o.1
      | failed code ↦ (failed code, o.1)
      | raised ↦ (raised, o.1)
    ])
Meets-bind good bad (returned a, q) f h = h.ends
Meets-bind good bad (failed code, q) f h = h
Meets-bind good bad (raised, q) f h = h

Meets-weaken :
    {A : Type 0} (good good' : A → World → Type 0) (bad bad' : Option ErrorCode → World → Type 0)
    → (o : Outcome A × World) → ((a : A) (q : World) → good a q → good' a q)
    → ((code : Option ErrorCode) (q : World) → bad code q → bad' code q)
    → Meets good bad o
    → Meets good' bad' o
Meets-weaken good good' bad bad' (returned a, q) g b h = g a q h
Meets-weaken good good' bad bad' (failed code, q) g b h = b (some code) q h
Meets-weaken good good' bad bad' (raised, q) g b h = b none q h

pub Meets-attempt :
    {A : Type 0} (good : A → World → Type 0) (bad : Option ErrorCode → World → Type 0)
    → (o : Outcome A × World) (handler : Action A)
    → Meets good
        (λ code q. elim code [ none ↦ Runs handler q good bad | some c ↦ bad (some c) q ])
        o
    → Meets good bad (elim o.0 [
      | returned a ↦ (returned a, o.1)
      | failed c ↦ (failed c, o.1)
      | raised ↦ handler o.1
    ])
Meets-attempt good bad (returned a, q) handler h = h
Meets-attempt good bad (failed c, q) handler h = h
Meets-attempt good bad (raised, q) handler h = h.ends

pub Meets-settle :
    {A B : Type 0} (good : B → World → Type 0) (bad : Option ErrorCode → World → Type 0)
    → (o : Outcome A × World) (k : A → Action B) (h : ErrorCode → Action B)
    → Meets
        (λ a q. Runs (k a) q good bad)
        (λ code q. elim code [ none ↦ bad none q | some c ↦ Runs (h c) q good bad ])
        o
    → Meets good bad
        (elim o.0 [ returned a ↦ k a o.1 | failed c ↦ h c o.1 | raised ↦ (raised, o.1) ])
Meets-settle good bad (returned a, q) k h r = r.ends
Meets-settle good bad (failed c, q) k h r = r.ends
Meets-settle good bad (raised, q) k h r = r

-- What holds at the end whichever way the call ends.
Meets-final :
    {A : Type 0} (P : World → Type 0) (o : Outcome A × World)
    → Meets (λ a q. P q) (λ code q. P q) o
    → P o.1
Meets-final P (returned a, q) h = h
Meets-final P (failed code, q) h = h
Meets-final P (raised, q) h = h

pub final :
    {A : Type 0} (P : World → Type 0) {m : Action A} {w : World}
    → Runs m w (λ a q. P q) (λ code q. P q)
    → P (m w).1
final P {m} {w} h = Meets-final P (m w) h.ends

-- What holds when the call is seen to end with a value.
Meets-returned :
    {A : Type 0} (good : A → World → Type 0) (bad : Option ErrorCode → World → Type 0) (a : A)
    → (o : Outcome A × World) → o.0 ≡ returned a
    → Meets good bad o
    → good a o.1
Meets-returned good bad a (returned b, q) e h =
    let same : b ≡ a = cc in subst (λ c. good c q) same h
Meets-returned good bad a (failed code, q) e h = cc
Meets-returned good bad a (raised, q) e h = cc

pub on_returned :
    {A : Type 0} {good : A → World → Type 0} {bad : Option ErrorCode → World → Type 0}
    {m : Action A} {w : World} (a : A)
    → Runs m w good bad
    → (m w).0 ≡ returned a
    → good a (m w).1
on_returned {good = good} {bad} {m} {w} a h e = Meets-returned good bad a (m w) e h.ends

module _ {A : Type 0} {good : A → World → Type 0} {bad : Option ErrorCode → World → Type 0}
    {w : World} where
  pub bind :
      {B : Type 0} {m : Action B} {f : B → Action A}
      → Runs m w (λ b q. Runs (f b) q good bad) bad
      → Runs (m >>= f) w good bad
  unfolding ◌>>=◌
  bind {m = m} {f} h = record { ends = Meets-bind good bad (m w) f h.ends }

  pub weaken :
      {good' : A → World → Type 0} {bad' : Option ErrorCode → World → Type 0} {m : Action A}
      → Runs m w good' bad'
      → ((a : A) (q : World) → good' a q → good a q)
      → ((code : Option ErrorCode) (q : World) → bad' code q → bad code q)
      → Runs m w good bad
  weaken {good'} {bad'} {m} h g b = record {
    ends = Meets-weaken good' good bad' bad (m w) g b h.ends;
  }
