-- ===== src/Ir/Enum/Constants.antt =====
-- Enum constants with well-typed expressions (IrMgr::reg_enum of src/ir/IrMgr_stmt.cc).
use ymsl.Base.{
  Bool-cases, inl, inr, In, ℕ, ◌≡◌, refl, Option, none, some, List, if◌then◌else◌, Outcome, ok,
  fault, undefined, not_reached, no_fuel, ◌>>=◌,
}
use ymsl.Base.Int.{ℤ, InRange}
use ymsl.Compiler.Types.{TypeId}
use ymsl.Ir.Node.{IrNode}
use ymsl.Ir.Interp.{FloatOps, eval_int}
use ymsl.Ir.Interp.Typed.{Typed, value_type-Typed, is_static-Typed}
use ymsl.Ir.Interp.Outcomes.{Fine}
use ymsl.Ir.Interp.Sound.{eval-Typed}
use ymsl.Ir.Enum.Values.{check-In, check-not_In}
use ymsl.Ir.Enum.{check, is_int, elem_value}

-- What the numbering of a constant ends in, by the value of its expression, the values in use and the
-- next number `n`, which does not change.
pub data Numbers (value : Outcome ℤ) (used_val : List ℤ) (n : ℤ)
    : Outcome (Option (ℤ × ℤ)) → Type 0 where
  no_value : value ≡ fault undefined → Numbers value used_val n (fault undefined)
  in_use : (v : ℤ) → value ≡ ok v → InRange v → In v used_val → Numbers value used_val n (ok none)
  unused :
      (v : ℤ)
      → value ≡ ok v
      → InRange v
      → (In v used_val → ⊥)
      → Numbers value used_val n (ok (some (v, n)))

module _ (value : Outcome ℤ) (used_val : List ℤ) (n : ℤ) where
  by_check :
      (v : ℤ)
      → value ≡ ok v
      → InRange v
      → Numbers value used_val n (ok (if check used_val v then none else some (v, n)))
  by_check v q h = elim (Bool-cases (check used_val v)) [
    | inl e ↦ rw e (in_use v q h (check-In used_val v e))
    | inr e ↦ rw e (unused v q h (check-not_In used_val v e))
  ]

  by_value :
      (r : Outcome ℤ)
      → value ≡ r
      → Fine InRange r
      → Numbers value used_val n (r >>= λ v. ok (if check used_val v then none else some (v, n)))
  by_value (ok v) q h = by_check v q h
  by_value (fault undefined) q h = no_value q
  by_value (fault not_reached) q h = absurd h
  by_value (fault no_fuel) q h = absurd h

module _ {F : Type 0} (ops : FloatOps F) where
  -- A constant with a well-typed expression of type int is numbered by the value of the expression,
  -- which is in the range of 32 bits: it gets this value if that is not in use, and is the error of a
  -- value in use only if it is. Only an expression whose value is undefined leaves it undefined; no
  -- assertion fails, and it is not refused as an expression that is no constant or no integer.
  pub elem_value-Typed :
      (fuel : ℕ) (used_val : List ℤ) (n : ℤ) (node : IrNode F)
      → Typed TypeId.int node
      → Numbers (eval_int ops node) used_val n (elem_value ops fuel used_val n (some node))
  unfolding elem_value is_int
  elem_value-Typed fuel used_val n node d =
      rw (is_static-Typed d, value_type-Typed d)
        (by_value (eval_int ops node) used_val n (eval_int ops node) refl (eval-Typed ops node d))
