-- ===== src/Base/Ends.antt =====
-- What holds of the runs that return, and that a run ends.
use mathlib.Core.Path.{subst, subst₂}
use mathlib.Core.Path.{◌≡◌, refl, sym}
use mathlib.Core.Bool.{Bool, true, false}
use mathlib.Core.Logic.{◌≢◌}
use mcpgos.Base.Run.{assert, in_bounds, Reason, Run, Cmd, ok, panic, fault, out_of_fuel, and_then}

-- If the run returns, `P` holds of its value and its state.
pub data Ends {S A : Type 0} (P : A → S → Type 0) : Run S A → Type 0 where
  returns : {a : A} {s : S} → P a s → Ends P (ok a s)
  panics : {r : Reason} → Ends P (panic r)
  faults : Ends P fault
  runs_out : Ends P out_of_fuel

-- If the run returns, it has changed nothing.
abbrev pub Reads : {S A : Type 0} → S → Run S A → Type 0
Reads s r = Ends (λ _ t. t ≡ s) r

pub Ends-bind :
    {S A B : Type 0} {P : A → S → Type 0} {Q : B → S → Type 0} {r : Run S A} {k : A → Cmd S B}
    → Ends P r
    → ((a : A) (s : S) → P a s → Ends Q (k a s))
    → Ends Q (and_then r k)
Ends-bind (returns h) f = f _ _ h
Ends-bind panics f = panics
Ends-bind faults f = faults
Ends-bind runs_out f = runs_out

pub Ends-Reads :
    {S A B : Type 0} {Q : B → S → Type 0} {s : S} {r : Run S A} (k : A → Cmd S B)
    → Reads s r
    → ((a : A) → Ends Q (k a s))
    → Ends Q (and_then r k)
Ends-Reads {Q} k h f = Ends-bind h (λ a t e. subst (λ u. Ends Q (k a u)) (sym e) (f a))

pub Ends-mono :
    {S A : Type 0} {P Q : A → S → Type 0} {r : Run S A}
    → Ends P r
    → ((a : A) (s : S) → P a s → Q a s)
    → Ends Q r
Ends-mono (returns h) f = returns (f _ _ h)
Ends-mono panics f = panics
Ends-mono faults f = faults
Ends-mono runs_out f = runs_out

pub Ends-if :
    {S A : Type 0} {Q : A → S → Type 0} (b : Bool) (x y : Cmd S A) (s : S)
    → (b ≡ true → Ends Q (x s))
    → (b ≡ false → Ends Q (y s))
    → Ends Q ((elim b as (λ _. Cmd S A) [ false ↦ y | true ↦ x ]) s)
Ends-if true x y s f g = f refl
Ends-if false x y s f g = g refl

pub Ends-at :
    {S A B : Type 0} {Q : B → S → Type 0} {r : Run S A} (k : A → Cmd S B) (a : A) (s : S)
    → r ≡ ok a s
    → Ends Q (k a s)
    → Ends Q (and_then r k)
Ends-at {Q} k a s e h = subst (λ r. Ends Q (and_then r k)) (sym e) h

pub Ends-fault :
    {S A B : Type 0} {Q : B → S → Type 0} {r : Run S A} (k : A → Cmd S B)
    → r ≡ fault
    → Ends Q (and_then r k)
Ends-fault {Q} k e = subst (λ r. Ends Q (and_then r k)) (sym e) faults

pub Ends-assert :
    {S B : Type 0} {Q : B → S → Type 0} (b : Bool) (s : S) (k : Unit {0} → Cmd S B)
    → Ends Q (k tt s)
    → Ends Q (and_then (assert b s) k)
Ends-assert true s k h = h
Ends-assert false s k h = panics

-- As `Ends-assert`, where what follows needs the assertion.
pub Ends-given :
    {S B : Type 0} {Q : B → S → Type 0} (b : Bool) (s : S) (k : Unit {0} → Cmd S B)
    → (b ≡ true → Ends Q (k tt s))
    → Ends Q (and_then (assert b s) k)
Ends-given true s k h = h refl
Ends-given false s k h = panics

-- What a run that has returned gives.
pub Ends-value :
    {S A : Type 0} {P : A → S → Type 0} {r : Run S A} (a : A) (s : S)
    → Ends P r
    → r ≡ ok a s
    → P a s
Ends-value {P} a s (returns {a = b} {s = t} h) e =
    let p : b ≡ a = cc in let q : t ≡ s = cc in subst₂ P p q h
Ends-value a s panics e = cc
Ends-value a s faults e = cc
Ends-value a s runs_out e = cc

-- Nothing need be known of a run.
pub Ends-any : {S A : Type 0} (r : Run S A) → Ends (λ _ _. Unit {0}) r
Ends-any (ok a s) = returns tt
Ends-any (panic r) = panics
Ends-any fault = faults
Ends-any out_of_fuel = runs_out

-- The run ends within its fuel, and if it returns, `P` holds of its value and its state.
pub data Stops {S A : Type 0} (P : A → S → Type 0) : Run S A → Type 0 where
  stops_ok : {a : A} {s : S} → P a s → Stops P (ok a s)
  stops_panic : {r : Reason} → Stops P (panic r)
  stops_fault : Stops P fault

pub Stops-bind :
    {S A B : Type 0} {P : A → S → Type 0} {Q : B → S → Type 0} {r : Run S A} {k : A → Cmd S B}
    → Stops P r
    → ((a : A) (s : S) → P a s → Stops Q (k a s))
    → Stops Q (and_then r k)
Stops-bind (stops_ok h) f = f _ _ h
Stops-bind stops_panic f = stops_panic
Stops-bind stops_fault f = stops_fault

pub Stops-mono :
    {S A : Type 0} {P Q : A → S → Type 0} {r : Run S A}
    → Stops P r
    → ((a : A) (s : S) → P a s → Q a s)
    → Stops Q r
Stops-mono (stops_ok h) f = stops_ok (f _ _ h)
Stops-mono stops_panic f = stops_panic
Stops-mono stops_fault f = stops_fault

pub Stops-if :
    {S A : Type 0} {Q : A → S → Type 0} (b : Bool) (x y : Cmd S A) (s : S)
    → (b ≡ true → Stops Q (x s))
    → (b ≡ false → Stops Q (y s))
    → Stops Q ((elim b as (λ _. Cmd S A) [ false ↦ y | true ↦ x ]) s)
Stops-if true x y s f g = f refl
Stops-if false x y s f g = g refl

pub Stops-assert :
    {S B : Type 0} {Q : B → S → Type 0} (b : Bool) (s : S) (k : Unit {0} → Cmd S B)
    → Stops Q (k tt s)
    → Stops Q (and_then (assert b s) k)
Stops-assert true s k h = h
Stops-assert false s k h = stops_panic

pub Stops-in_bounds :
    {S B : Type 0} {Q : B → S → Type 0} (b : Bool) (s : S) (k : Unit {0} → Cmd S B)
    → Stops Q (k tt s)
    → Stops Q (and_then (in_bounds b s) k)
Stops-in_bounds true s k h = h
Stops-in_bounds false s k h = stops_fault

pub Stops-Ends : {S A : Type 0} {P : A → S → Type 0} {r : Run S A} → Stops P r → Ends P r
Stops-Ends (stops_ok h) = returns h
Stops-Ends stops_panic = panics
Stops-Ends stops_fault = faults

pub Stops-fuel : {S A : Type 0} {P : A → S → Type 0} {r : Run S A} → Stops P r → r ≢ out_of_fuel
Stops-fuel (stops_ok h) e = cc
Stops-fuel stops_panic e = cc
Stops-fuel stops_fault e = cc
