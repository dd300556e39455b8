-- ===== src/Base/Alike.antt =====
-- Two runs, on different states, that come to the same end.
use mathlib.Core.Bool.{Bool, true, false}
use mathlib.Core.Path.{◌≡◌, refl, ap, subst}
use mcpgos.Base.Tests.{if◌then◌else◌}
use mcpgos.Base.Run.{Reason, Run, Cmd, ok, panic, fault, out_of_fuel, and_then, placed}

-- Both return the same value, in states that agree, or both end in the same other way.
pub data Alike {S T A : Type 0} (Agree : S → T → Type 0) : Run S A → Run T A → Type 0 where
  both_return : (a : A) {s : S} {t : T} → Agree s t → Alike Agree (ok a s) (ok a t)
  both_panic : (r : Reason) → Alike Agree (panic r) (panic r)
  both_fault : Alike Agree fault fault
  both_run_out : Alike Agree out_of_fuel out_of_fuel

module _ {S T : Type 0} {Agree : S → T → Type 0} where
  pub Alike-bind :
      {A B : Type 0} {x : Run S A} {y : Run T A} {k : A → Cmd S B} {l : A → Cmd T B}
      → Alike Agree x y
      → ((a : A) (s : S) (t : T) → Agree s t → Alike Agree (k a s) (l a t))
      → Alike Agree (and_then x k) (and_then y l)
  Alike-bind (both_return a h) f = f a _ _ h
  Alike-bind (both_panic r) f = both_panic r
  Alike-bind both_fault f = both_fault
  Alike-bind both_run_out f = both_run_out

  pub Alike-if :
      {A : Type 0} (b : Bool) (x y : Cmd S A) (z w : Cmd T A) (s : S) (t : T)
      → Alike Agree (x s) (z t)
      → Alike Agree (y s) (w t)
      → Alike Agree
          ((elim b as (λ _. Cmd S A) [ false ↦ y | true ↦ x ]) s)
          ((elim b as (λ _. Cmd T A) [ false ↦ w | true ↦ z ]) t)
  Alike-if true x y z w s t h g = h
  Alike-if false x y z w s t h g = g

module _ {S T : Type 0} {Agree : S → T → Type 0} where
  pub Alike-test :
      {A : Type 0} (b : Bool) (x y : Cmd S A) (z w : Cmd T A) (s : S) (t : T)
      → Alike Agree (x s) (z t)
      → Alike Agree (y s) (w t)
      → Alike Agree ((if b then x else y) s) ((if b then z else w) t)
  Alike-test true x y z w s t h g = h
  Alike-test false x y z w s t h g = g

-- Where the first run returns, the second returns in a state that agrees.
pub Alike-returns :
    {S T A : Type 0} {Agree : S → T → Type 0} {x : Run S A} {y : Run T A} (a : A) (s : S)
    → Alike Agree x y
    → x ≡ ok a s
    → (t : T) × ((y ≡ ok a t) × Agree s t)
Alike-returns {Agree} a s (both_return b {s = u} {t = v} g) e =
    let p : b ≡ a = cc in
    let q : u ≡ s = cc in (v, (ap (λ c. ok c v) p, subst (λ z. Agree z v) q g))
Alike-returns a s (both_panic r) e = cc
Alike-returns a s both_fault e = cc
Alike-returns a s both_run_out e = cc

pub Alike-faults :
    {S T A : Type 0} {Agree : S → T → Type 0} {x : Run S A} {y : Run T A}
    → Alike Agree x y
    → x ≡ fault
    → y ≡ fault
Alike-faults (both_return a g) e = cc
Alike-faults (both_panic r) e = cc
Alike-faults both_fault e = refl
Alike-faults both_run_out e = cc

-- The second run is a call on a part of a larger state.
pub Alike-placed :
    {R S T A : Type 0} {Agree : R → S → Type 0} {Whole : R → T → Type 0} {x : Run R A} {y : Run S A}
    (put : S → T)
    → Alike Agree x y
    → ((r : R) (s : S) → Agree r s → Whole r (put s))
    → Alike Whole x (placed put y)
Alike-placed put (both_return a g) f = both_return a (f _ _ g)
Alike-placed put (both_panic r) f = both_panic r
Alike-placed put both_fault f = both_fault
Alike-placed put both_run_out f = both_run_out
