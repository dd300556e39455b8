-- ===== src/Base/Run.antt =====
-- What a piece of kernel code does: it returns a value and a new state, or it ends in `KPanic`
-- (kernel/src/KPanic.c, which never returns), or it reads or writes through a pointer that it must
-- not use, or a loop has not ended within the rounds that it was given.
use mathlib.Core.Bool.{Bool, true, false}
use mathlib.Core.Path.{◌≡◌, refl, sym, subst}

-- The message that `KPanic` is called with.
pub data Reason : Type 0 where
  no_physical_page : Reason
  free_unused_page : Reason
  no_virtual_pages : Reason
  assertion_failed : Reason

pub data Run (S A : Type 0) : Type 0 where
  ok : A → S → Run S A
  panic : Reason → Run S A
  fault : Run S A
  out_of_fuel : Run S A

abbrev pub Cmd : Type 0 → Type 0 → Type 0
Cmd S A = S → Run S A

module _ {S : Type 0} where
  abbrev pub pure : {A : Type 0} → A → Cmd S A
  pure a s = ok a s

  abbrev pub and_then : {A B : Type 0} → Run S A → (A → Cmd S B) → Run S B
  and_then (ok a s) k = k a s
  and_then (panic r) k = panic r
  and_then fault k = fault
  and_then out_of_fuel k = out_of_fuel

  infixl 5 ◌>>=◌ ◌>>◌
  abbrev pub ◌>>=◌ : {A B : Type 0} → Cmd S A → (A → Cmd S B) → Cmd S B
  ◌>>=◌ m k s = and_then (m s) k

  abbrev pub ◌>>◌ : {A B : Type 0} → Cmd S A → Cmd S B → Cmd S B
  ◌>>◌ m n s = and_then (m s) (λ _. n)

  -- `KAssert(b)` of kernel/include/McpgOS.h.
  abbrev pub assert : Bool → Cmd S (Unit {0})
  assert true s = ok tt s
  assert false s = panic assertion_failed

  -- An access that is a fault outside its array.
  abbrev pub in_bounds : Bool → Cmd S (Unit {0})
  in_bounds true s = ok tt s
  in_bounds false s = fault

  abbrev pub get : {A : Type 0} → (S → A) → Cmd S A
  get f s = ok (f s) s

  abbrev pub modify : (S → S) → Cmd S (Unit {0})
  modify f s = ok tt (f s)

-- The state that a run ends in, or `s` where it does not return.
abbrev pub end_of : {S A : Type 0} → S → Run S A → S
end_of s (ok a t) = t
end_of s (panic r) = s
end_of s fault = s
end_of s out_of_fuel = s

-- A run that returns, and what follows it.
pub then_returns :
    {S A B : Type 0} {r : Run S A} {x : Run S B} (k : A → Cmd S B) (a : A) (s : S)
    → r ≡ ok a s
    → k a s ≡ x
    → and_then r k ≡ x
then_returns {x} k a s e h = subst (λ r. and_then r k ≡ x) (sym e) h

module _ {S A : Type 0} where
  pub true_case :
      (b : Bool) (x y : Cmd S A) (s : S)
      → b ≡ true
      → (elim b as (λ _. Cmd S A) [ true ↦ x | false ↦ y ]) s ≡ x s
  true_case b x y s e =
      subst (λ c. (elim c as (λ _. Cmd S A) [ true ↦ x | false ↦ y ]) s ≡ x s) (sym e) refl

  pub false_case :
      (b : Bool) (x y : Cmd S A) (s : S)
      → b ≡ false
      → (elim b as (λ _. Cmd S A) [ true ↦ x | false ↦ y ]) s ≡ y s
  false_case b x y s e =
      subst (λ c. (elim c as (λ _. Cmd S A) [ true ↦ x | false ↦ y ]) s ≡ y s) (sym e) refl

pub assert-true : {S : Type 0} (b : Bool) (s : S) → b ≡ true → assert b s ≡ ok tt s
assert-true true s e = refl
assert-true false s e = cc

-- A call on a part of the state.
abbrev pub placed : {S T A : Type 0} → (T → S) → Run T A → Run S A
placed put (ok a t) = ok a (put t)
placed put (panic r) = panic r
placed put fault = fault
placed put out_of_fuel = out_of_fuel
