-- ===== src/Ir/Enum.antt =====
-- The values of the constants of an enum type (`check` and the loop of IrMgr::reg_enum,
-- src/ir/IrMgr_stmt.cc). An element is the elaborated expression of the constant, or `none` where the
-- program gives none. The result `none` is one of the error returns.
pub mod Values
pub mod Constants
use ymsl.Base.{
  ℕ, zero, suc, ◌≡◌, Bool, true, false, not, ◌||◌, Option, none, some, List, [], ◌∷◌, ◌++◌, length,
  if◌then◌else◌, Outcome, ok, fault, no_fuel, ◌>>=◌,
}
use ymsl.Base.Int.{ℤ, pos, eq_ℤ}
use ymsl.Base.Int32
use ymsl.Compiler.Types.{TypeId}
use ymsl.Ir.Node.{IrNode, value_type, is_static}
use ymsl.Ir.Interp.{FloatOps, eval_int}

unfoldable pub check : List ℤ → ℤ → Bool
check [] val = false
check (p ∷ used_val) val = let rest = check used_val val in if eq_ℤ p val then true else rest

-- `while ( check(used_val, next_val) ) ++ next_val;`, on fuel.
unfoldable pub next_free : ℕ → List ℤ → ℤ → Outcome ℤ
unfolding check
next_free zero used_val next_val = fault no_fuel
next_free (suc fuel) used_val next_val =
    let more = Int32.add next_val (pos 1) >>= λ n. next_free fuel used_val n in
    if check used_val next_val then more else ok next_val

-- `type_id() == kIntType`, for the comparison with the one object of this kind.
unfoldable pub is_int : TypeId → Bool
is_int TypeId.int = true
is_int _ = false

module _ {F : Type 0} (ops : FloatOps F) where
  -- The value of one constant, and `next_val` behind it.
  unfoldable pub elem_value : ℕ → List ℤ → ℤ → Option (IrNode F) → Outcome (Option (ℤ × ℤ))
  unfolding next_free is_static is_int value_type eval_int
  elem_value fuel used_val next_val none =
      next_free fuel used_val next_val >>= λ v. Int32.add v (pos 1) >>= λ n. ok (some (v, n))
  elem_value fuel used_val next_val (some node) =
      let value =
        eval_int ops node >>= λ v. ok (if check used_val v then none else some (v, next_val)) in
      if not (is_static node)
      then ok none
      else if not (is_int (value_type node))
      then ok none
      else value

  -- The loop over the constants, with `used_val` and `next_val`; the result is the whole of
  -- `used_val`, which is the list of the values.
  unfoldable pub enum_values : ℕ → List ℤ → ℤ → List (Option (IrNode F)) → Outcome (Option (List ℤ))
  unfolding elem_value
  enum_values fuel used_val next_val [] = ok (some used_val)
  enum_values fuel used_val next_val (e ∷ elems) = elem_value fuel used_val next_val e >>= λ r.
      elim r [ none ↦ ok none | some (v, n) ↦ enum_values fuel (used_val ++ v ∷ []) n elems ]
