-- ===== src/Ir/Elab/Ends/Values.antt =====
-- The values of enum constants (the loop of IrMgr::reg_enum in src/ir/IrMgr_stmt.cc): the fuel
-- of the search for an unused value.
use ymsl.Base.{
  undefined, ℕ, zero, suc, ◌<◌, ◌≡◌, refl, Bool, true, false, Bool-cases, if◌then◌else◌, arith, not,
  Option, none, some, List, length, inl, inr, ok, fault,
}
use ymsl.Base.Int.{ℤ, pos, ◌+ℤ◌, in_range, checked}
use ymsl.Base.Int32
use ymsl.Ir.Node.{IrNode, value_type, is_static}
use ymsl.Ir.Interp.{FloatOps}
use ymsl.Ir.Enum.{check, is_int, next_free, elem_value}
use ymsl.Ir.Enum.Values.{above, above-check, above-le}
use ymsl.Ir.Elab.Ends.{Ends, returned, at_undefined, Ends-then, if-Ends}
use ymsl.Ir.Elab.Ends.Consts.{eval_int-Halts}

-- A number that is not negative.
abbrev pub IsNatural : ℤ → Type 0
IsNatural z = (n : ℕ) × (z ≡ pos n)

add-pos :
    (k : ℕ)
    → Int32.add (pos k) (pos 1)
      ≡ (if in_range (pos (suc k)) then ok (pos (suc k)) else fault undefined)
unfolding Int32.add checked ◌+ℤ◌
add-pos k = ground arith

next_val-Ends : (n : ℕ) → Ends (λ z. z ≡ pos (suc n)) (Int32.add (pos n) (pos 1))
next_val-Ends n = rw (add-pos n) (
    if-Ends (in_range (pos (suc n))) (ok (pos (suc n))) (fault undefined) (returned refl)
      at_undefined)

next_free-Ends :
    (fuel : ℕ) (used_val : List ℤ) (n : ℕ)
    → above n used_val < fuel
    → Ends IsNatural (next_free fuel used_val (pos n))
unfolding next_free
next_free-Ends zero used_val n lt = absurd (omega arith)
next_free-Ends (suc fuel) used_val n lt = elim (Bool-cases (check used_val (pos n))) [
  | inl q ↦
      let less = above-check n used_val q in
      rw q (
        Ends-then _ _ (next_val-Ends n)
          (λ z e. rw e (next_free-Ends fuel used_val (suc n) (omega (arith, less)))))
  | inr q ↦ rw q (returned (n, refl))
]

-- A constant with its value, where the next number is not negative.
abbrev pub NextIsNatural : Option (ℤ × ℤ) → Type 0
NextIsNatural none = Unit
NextIsNatural (some (v, next)) = IsNatural next

module _ {F : Type 0} (ops : FloatOps F) where
  pub elem_value-Ends :
      (used_val : List ℤ) (n : ℕ) (e : Option (IrNode F))
      → Ends NextIsNatural (elem_value ops (suc (length used_val)) used_val (pos n) e)
  unfolding elem_value
  elem_value-Ends used_val n none =
      let le = above-le n used_val in
      Ends-then _ _ (next_free-Ends (suc (length used_val)) used_val n (omega (arith, le)))
        (λ v (k, e). rw e (Ends-then _ _ (next_val-Ends k) (λ z q. returned (suc k, q))))
  elem_value-Ends used_val n (some node) =
      if-Ends (not (is_static node)) (ok none) _ (returned tt) (
        if-Ends (not (is_int (value_type node))) (ok none) _ (returned tt)
          (Ends-then _ _ (eval_int-Halts ops node) (λ v _. unused v (check used_val v))))
    where
      unused : (v : ℤ) (b : Bool) → Ends NextIsNatural (ok (if b then none else some (v, pos n)))
      unused v true = returned tt
      unused v false = returned (n, refl)
