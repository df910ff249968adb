-- ===== src/Ir/Elab/Ends.antt =====
-- What a run with enough fuel ends in: every search through the scopes (Scope::find of
-- src/compiler/Scope.cc) and everything that elab_expr of src/ir/IrMgr_expr.cc asks for.
pub mod Types
pub mod Exprs
pub mod Consts
pub mod Values
pub mod Scopes
pub mod Decls
pub mod Funcs
pub mod Steps
pub mod Program
use ymsl.Base.{
  Fault, not_reached, undefined, no_fuel, ℕ, suc, ◌<◌, ◌≡◌, refl, sym, ap, Bool, true, false,
  if◌then◌else◌, arith, Option, none, some, Option-cases, inl, inr, List, length, get_elem?,
  get_elem?-lt, Outcome, ok, fault, ◌>>=◌,
}
use ymsl.Compiler.ShString.{ShString}
use ymsl.Compiler.Scope.{Scope, find}
use ymsl.Compiler.Scope.Resolve.{AreLinked, Resolves, hit, miss, find-Resolves}

-- A run ends in a value with a property, or in a failure that more fuel does not avoid.
pub data Ends {A : Type 0} (P : A → Type 0) : Outcome A → Type 0 where
  returned : {a : A} → P a → Ends P (ok a)
  stopped : {e : Fault} → (e ≡ no_fuel → ⊥) → Ends P (fault e)

-- No property.
abbrev pub Halts : {A : Type 0} → Outcome A → Type 0
Halts = Ends (λ a. Unit)

pub halted : {A : Type 0} (a : A) → Halts (ok a)
halted a = returned tt

pub at_undefined : {A : Type 0} {P : A → Type 0} → Ends P (fault undefined)
at_undefined = stopped (λ e. cc)

pub at_not_reached : {A : Type 0} {P : A → Type 0} → Ends P (fault not_reached)
at_not_reached = stopped (λ e. cc)

pub Ends-then :
    {A B : Type 0} {P : A → Type 0} {Q : B → Type 0} (x : Outcome A) (f : A → Outcome B)
    → Ends P x
    → ((a : A) → P a → Ends Q (f a))
    → Ends Q (x >>= f)
Ends-then (ok a) f (returned p) k = k a p
Ends-then (fault e) f (stopped n) k = stopped n

pub if-Ends :
    {A : Type 0} {P : A → Type 0} (b : Bool) (x y : Outcome A)
    → Ends P x
    → Ends P y
    → Ends P (if b then x else y)
if-Ends true x y h k = h
if-Ends false x y h k = k

pub option-Ends :
    {A B : Type 0} {P : B → Type 0} (o : Option A) (x : Outcome B) (f : A → Outcome B)
    → Ends P x
    → ((a : A) → Ends P (f a))
    → Ends P (elim o [ none ↦ x | some a ↦ f a ])
option-Ends none x f h k = h
option-Ends (some a) x f h k = k a

module _ {S H : Type 0} ⦃str : ShString S⦄ (name : H → S) (scopes : List (Scope S H)) where
  Resolves-Halts : (n : S) (id : ℕ) {r : Outcome (Option H)} → Resolves name n scopes id r → Halts r
  Resolves-Halts n id (hit h e q) = returned tt
  Resolves-Halts n id (miss k) = returned tt

  -- A search with one more fuel than there are scopes, from any number.
  pub find-Halts :
      AreLinked scopes → (id : ℕ) (n : S) → Halts (find name scopes (suc (length scopes)) id n)
  unfolding find
  find-Halts linked id n = elim (Option-cases (get_elem? scopes id)) [
    | inl out ↦ rw (out, find) at_undefined
    | inr (s, e) ↦
        let lt = get_elem?-lt scopes id e in
        Resolves-Halts n id
          (find-Resolves name n scopes linked (suc (length scopes)) id (omega arith) lt)
  ]
