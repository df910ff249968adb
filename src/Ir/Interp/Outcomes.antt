-- ===== src/Ir/Interp/Outcomes.antt =====
-- What a run without a failed assertion ends in, and the operators on integers of 32 bits that
-- src/ir/IrInterp.cc uses.
use ymsl.Base.{
  suc, ◌*◌, ◌%◌, ltb, leb, ◌==◌, ◌/◌, ◌^◌, ◌≡◌, refl, Bool, true, false, arith, if◌then◌else◌,
  Outcome, ok, fault, not_reached, undefined, no_fuel, ◌>>=◌,
}
use ymsl.Base.Int.{
  ℤ, pos, negsuc, pos_part, neg_part, ◌-ℤ◌, InRange, in_range, in_range-InRange, checked,
}
use ymsl.Base.Int32.{of_word-InRange, bit_neg-InRange}
use ymsl.Base.Int32
use ymsl.Ir.Interp.{on_both, on_both_checked, choose}

-- No assertion fails: a run ends in a value with the property `P`, or in an operation that the
-- language leaves undefined (an overflow, a division by zero, a bad shift).
abbrev pub Fine : {A : Type 0} → (A → Type 0) → Outcome A → Type 0
Fine P (ok a) = P a
Fine P (fault not_reached) = ⊥
Fine P (fault undefined) = Unit
Fine P (fault no_fuel) = ⊥

-- No property.
abbrev pub Any : {A : Type 0} → A → Type 0
Any a = Unit

module _ {A B : Type 0} (P : A → Type 0) (Q : B → Type 0) where
  pub bind-Fine :
      (r : Outcome A) (f : A → Outcome B)
      → Fine P r
      → ((a : A) → P a → Fine Q (f a))
      → Fine Q (r >>= f)
  bind-Fine (ok a) f h k = k a h
  bind-Fine (fault undefined) f h k = tt
  bind-Fine (fault not_reached) f h k = absurd h
  bind-Fine (fault no_fuel) f h k = absurd h

pub choose-Fine :
    {A : Type 0} (P : A → Type 0) (c : Outcome Bool) (x y : Outcome A)
    → Fine Any c
    → Fine P x
    → Fine P y
    → Fine P (choose c x y)
choose-Fine P c x y hc hx hy = bind-Fine Any P c _ hc (λ b _. both b)
  where
    both : (b : Bool) → Fine P (if b then x else y)
    both true = hx
    both false = hy

pub on_both-Fine :
    {A B C : Type 0} (P : A → Type 0) (Q : B → Type 0) (R : C → Type 0) (f : A → B → C)
    (x : Outcome A) (y : Outcome B)
    → ((a : A) (b : B) → R (f a b))
    → Fine P x
    → Fine Q y
    → Fine R (on_both f x y)
on_both-Fine P Q R f x y h hx hy = bind-Fine P R x _ hx (λ a _. bind-Fine Q R y _ hy (λ b _. h a b))

pub on_both_checked-Fine :
    {A B C : Type 0} (P : A → Type 0) (Q : B → Type 0) (R : C → Type 0) (f : A → B → Outcome C)
    (x : Outcome A) (y : Outcome B)
    → ((a : A) (b : B) → P a → Q b → Fine R (f a b))
    → Fine P x
    → Fine Q y
    → Fine R (on_both_checked f x y)
on_both_checked-Fine P Q R f x y h hx hy =
    bind-Fine P R x _ hx (λ a p. bind-Fine Q R y _ hy (λ b q. h a b p q))

pub if_Fine :
    {A : Type 0} (P : A → Type 0) (b : Bool) (x y : Outcome A)
    → (b ≡ true → Fine P x)
    → (b ≡ false → Fine P y)
    → Fine P (if b then x else y)
if_Fine P true x y hx hy = hx refl
if_Fine P false x y hx hy = hy refl

pub checked-Fine : (a : ℤ) → Fine InRange (checked a)
unfolding checked
checked-Fine a =
    if_Fine InRange (in_range a) (ok a) (fault undefined) (λ e. in_range-InRange a e) (λ e. tt)

pub guarded-Fine : (b : Bool) (a : ℤ) → Fine InRange (if b then fault undefined else checked a)
guarded-Fine true a = tt
guarded-Fine false a = checked-Fine a

pub div-Fine : (a b : ℤ) → Fine InRange (Int32.div a b)
unfolding Int32.div
div-Fine a (pos b) = guarded-Fine (b == 0) (pos (pos_part a / b) -ℤ pos (neg_part a / b))
div-Fine a (negsuc b) = checked-Fine (pos (neg_part a / suc b) -ℤ pos (pos_part a / suc b))

pub rem-Fine : (a b : ℤ) → Fine InRange (Int32.rem a b)
unfolding Int32.rem
rem-Fine a (pos b) = guarded-Fine (b == 0) (pos (pos_part a % b) -ℤ pos (neg_part a % b))
rem-Fine a (negsuc b) =
    guarded-Fine (leb (2 ^ 31) (neg_part a / suc b))
      (pos (pos_part a % suc b) -ℤ pos (neg_part a % suc b))

pub lshift-Fine : (a b : ℤ) → Fine InRange (Int32.lshift a b)
unfolding Int32.lshift
lshift-Fine (pos a) (pos k) =
    if_Fine InRange (ltb k 32) (checked (pos (a * 2 ^ k))) (fault undefined)
      (λ e. checked-Fine (pos (a * 2 ^ k))) (λ e. tt)
lshift-Fine (pos a) (negsuc k) = tt
lshift-Fine (negsuc a) b = tt

pub rshift-Fine : (a b : ℤ) → InRange a → Fine InRange (Int32.rshift a b)
unfolding Int32.rshift
rshift-Fine (pos a) (pos k) h =
    if_Fine InRange (ltb k 32) (ok (pos (a / 2 ^ k))) (fault undefined) (λ e. omega arith) (λ e. tt)
rshift-Fine (negsuc a) (pos k) h =
    if_Fine InRange (ltb k 32) (ok (negsuc (a / 2 ^ k))) (fault undefined) (λ e. omega arith)
      (λ e. tt)
rshift-Fine (pos a) (negsuc k) h = tt
rshift-Fine (negsuc a) (negsuc k) h = tt
