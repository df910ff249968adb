-- ===== src/Ir/Elab/Ends/Consts.antt =====
-- Constant expressions (src/ir/IrInterp.cc): no loop that fuel bounds.
use ymsl.Base.{undefined, suc, Bool, leb, ltb, ◌==◌, ◌/◌, ◌%◌, ◌*◌, ◌^◌, Outcome, ok, fault}
use ymsl.Base.Int.{ℤ, pos, negsuc, ◌+ℤ◌, ◌-ℤ◌, ◌*ℤ◌, pos_part, neg_part, in_range, checked}
use ymsl.Base.Int32
use ymsl.OpCode.{OpCode}
use ymsl.Compiler.Types.{TypeId}
use ymsl.Ir.Node.{
  IrNode, uni_op, bin_op, tri_op, load, other_node, boolean_const, int_const, float_const,
  value_type,
}
use ymsl.Ir.Interp.{
  FloatOps, by_type, choose, on_both, on_both_checked, eval_boolean, eval_int, eval_float,
}
use ymsl.Ir.Elab.Ends.{Halts, halted, at_undefined, at_not_reached, Ends-then, if-Ends}

by_type-Halts :
    {A : Type 0} (t : TypeId) (x y z : Outcome A)
    → Halts x
    → Halts y
    → Halts z
    → Halts (by_type t x y z)
by_type-Halts TypeId.boolean x y z hx hy hz = hx
by_type-Halts TypeId.int x y z hx hy hz = hy
by_type-Halts TypeId.float x y z hx hy hz = hz
by_type-Halts _ x y z hx hy hz = at_not_reached

choose-Halts :
    {A : Type 0} (c : Outcome Bool) (x y : Outcome A)
    → Halts c
    → Halts x
    → Halts y
    → Halts (choose c x y)
choose-Halts c x y hc hx hy = Ends-then c _ hc (λ t _. if-Ends t x y hx hy)

on_both-Halts :
    {A B C : Type 0} (f : A → B → C) (x : Outcome A) (y : Outcome B)
    → Halts x
    → Halts y
    → Halts (on_both f x y)
on_both-Halts f x y hx hy = Ends-then x _ hx (λ a _. Ends-then y _ hy (λ b _. halted _))

on_both_checked-Halts :
    {A B C : Type 0} (f : A → B → Outcome C) (x : Outcome A) (y : Outcome B)
    → ((a : A) (b : B) → Halts (f a b))
    → Halts x
    → Halts y
    → Halts (on_both_checked f x y)
on_both_checked-Halts f x y hf hx hy = Ends-then x _ hx (λ a _. Ends-then y _ hy (λ b _. hf a b))

-- The operators on integers of 32 bits.
checked-Halts : (a : ℤ) → Halts (checked a)
unfolding checked
checked-Halts a = if-Ends (in_range a) (ok a) (fault undefined) (halted a) at_undefined

add-Halts : (a b : ℤ) → Halts (Int32.add a b)
unfolding Int32.add
add-Halts a b = checked-Halts (a +ℤ b)

sub-Halts : (a b : ℤ) → Halts (Int32.sub a b)
unfolding Int32.sub
sub-Halts a b = checked-Halts (a -ℤ b)

mul-Halts : (a b : ℤ) → Halts (Int32.mul a b)
unfolding Int32.mul
mul-Halts a b = checked-Halts (a *ℤ b)

neg-Halts : (a : ℤ) → Halts (Int32.neg a)
unfolding Int32.neg
neg-Halts a = checked-Halts (pos 0 -ℤ a)

div-Halts : (a b : ℤ) → Halts (Int32.div a b)
unfolding Int32.div
div-Halts a (pos b) =
    if-Ends (b == 0) _ _ at_undefined (checked-Halts (pos (pos_part a / b) -ℤ pos (neg_part a / b)))
div-Halts a (negsuc b) = checked-Halts (pos (neg_part a / suc b) -ℤ pos (pos_part a / suc b))

rem-Halts : (a b : ℤ) → Halts (Int32.rem a b)
unfolding Int32.rem
rem-Halts a (pos b) =
    if-Ends (b == 0) _ _ at_undefined (checked-Halts (pos (pos_part a % b) -ℤ pos (neg_part a % b)))
rem-Halts a (negsuc b) =
    if-Ends (leb (2 ^ 31) (neg_part a / suc b)) _ _ at_undefined
      (checked-Halts (pos (pos_part a % suc b) -ℤ pos (neg_part a % suc b)))

lshift-Halts : (a b : ℤ) → Halts (Int32.lshift a b)
unfolding Int32.lshift
lshift-Halts (pos a) (pos k) = if-Ends (ltb k 32) _ _ (checked-Halts (pos (a * 2 ^ k))) at_undefined
lshift-Halts (pos a) (negsuc k) = at_undefined
lshift-Halts (negsuc a) b = at_undefined

rshift-Halts : (a b : ℤ) → Halts (Int32.rshift a b)
unfolding Int32.rshift
rshift-Halts (pos a) (pos k) = if-Ends (ltb k 32) (ok (pos (a / 2 ^ k))) _ (halted _) at_undefined
rshift-Halts (negsuc a) (pos k) =
    if-Ends (ltb k 32) (ok (negsuc (a / 2 ^ k))) _ (halted _) at_undefined
rshift-Halts (pos a) (negsuc k) = at_undefined
rshift-Halts (negsuc a) (negsuc k) = at_undefined

module _ {F : Type 0} (ops : FloatOps F) where
  mutual
    unfolding eval_boolean eval_int eval_float

    pub eval_boolean-Halts : (n : IrNode F) → Halts (eval_boolean ops n)
    eval_boolean-Halts (uni_op OpCode.cast_boolean t a) =
        by_type-Halts (value_type a) _ _ _ (eval_boolean-Halts a)
          (Ends-then _ _ (eval_int-Halts a) (λ n _. halted _))
          (Ends-then _ _ (eval_float-Halts a) (λ x _. halted _))
    eval_boolean-Halts (uni_op OpCode.log_not t a) =
        Ends-then _ _ (eval_boolean-Halts a) (λ x _. halted _)
    eval_boolean-Halts (uni_op _ t a) = at_not_reached
    eval_boolean-Halts (bin_op OpCode.log_and t a b) =
        choose-Halts _ _ _ (eval_boolean-Halts a) (eval_boolean-Halts b) (halted _)
    eval_boolean-Halts (bin_op OpCode.log_or t a b) =
        choose-Halts _ _ _ (eval_boolean-Halts a) (halted _) (eval_boolean-Halts b)
    eval_boolean-Halts (bin_op OpCode.equal t a b) =
        by_type-Halts (value_type a) _ _ _
          (on_both-Halts _ _ _ (eval_boolean-Halts a) (eval_boolean-Halts b))
          (on_both-Halts _ _ _ (eval_int-Halts a) (eval_int-Halts b))
          (on_both-Halts _ _ _ (eval_float-Halts a) (eval_float-Halts b))
    eval_boolean-Halts (bin_op OpCode.not_eq t a b) =
        by_type-Halts (value_type a) _ _ _
          (on_both-Halts _ _ _ (eval_boolean-Halts a) (eval_boolean-Halts b))
          (on_both-Halts _ _ _ (eval_int-Halts a) (eval_int-Halts b))
          (on_both-Halts _ _ _ (eval_float-Halts a) (eval_float-Halts b))
    eval_boolean-Halts (bin_op OpCode.lt t a b) =
        by_type-Halts (value_type a) _ _ _ at_not_reached
          (on_both-Halts _ _ _ (eval_int-Halts a) (eval_int-Halts b))
          (on_both-Halts _ _ _ (eval_float-Halts a) (eval_float-Halts b))
    eval_boolean-Halts (bin_op OpCode.le t a b) =
        by_type-Halts (value_type a) _ _ _ at_not_reached
          (on_both-Halts _ _ _ (eval_int-Halts a) (eval_int-Halts b))
          (on_both-Halts _ _ _ (eval_float-Halts a) (eval_float-Halts b))
    eval_boolean-Halts (bin_op _ t a b) = at_not_reached
    eval_boolean-Halts (tri_op OpCode.ite t c a b) =
        choose-Halts _ _ _ (eval_boolean-Halts c) (eval_boolean-Halts a) (eval_boolean-Halts b)
    eval_boolean-Halts (tri_op _ t c a b) = at_not_reached
    eval_boolean-Halts (load t (boolean_const x)) = halted _
    eval_boolean-Halts (load t _) = at_not_reached
    eval_boolean-Halts (other_node k t) = at_not_reached

    pub eval_int-Halts : (n : IrNode F) → Halts (eval_int ops n)
    eval_int-Halts (uni_op OpCode.cast_int t a) =
        by_type-Halts (value_type a) _ _ _ (Ends-then _ _ (eval_boolean-Halts a) (λ x _. halted _))
          (eval_int-Halts a) at_not_reached
    eval_int-Halts (uni_op OpCode.bit_neg t a) = Ends-then _ _ (eval_int-Halts a) (λ n _. halted _)
    eval_int-Halts (uni_op OpCode.uni_minus t a) =
        Ends-then _ _ (eval_int-Halts a) (λ n _. neg-Halts n)
    eval_int-Halts (uni_op _ t a) = at_not_reached
    eval_int-Halts (bin_op OpCode.bit_and t a b) =
        on_both-Halts _ _ _ (eval_int-Halts a) (eval_int-Halts b)
    eval_int-Halts (bin_op OpCode.bit_or t a b) =
        on_both-Halts _ _ _ (eval_int-Halts a) (eval_int-Halts b)
    eval_int-Halts (bin_op OpCode.bit_xor t a b) =
        on_both-Halts _ _ _ (eval_int-Halts a) (eval_int-Halts b)
    eval_int-Halts (bin_op OpCode.add t a b) =
        on_both_checked-Halts _ _ _ add-Halts (eval_int-Halts a) (eval_int-Halts b)
    eval_int-Halts (bin_op OpCode.sub t a b) =
        on_both_checked-Halts _ _ _ sub-Halts (eval_int-Halts a) (eval_int-Halts b)
    eval_int-Halts (bin_op OpCode.mul t a b) =
        on_both_checked-Halts _ _ _ mul-Halts (eval_int-Halts a) (eval_int-Halts b)
    eval_int-Halts (bin_op OpCode.div t a b) =
        on_both_checked-Halts _ _ _ div-Halts (eval_int-Halts a) (eval_int-Halts b)
    eval_int-Halts (bin_op OpCode.mod_op t a b) =
        on_both_checked-Halts _ _ _ rem-Halts (eval_int-Halts a) (eval_int-Halts b)
    eval_int-Halts (bin_op OpCode.lshift t a b) =
        on_both_checked-Halts _ _ _ lshift-Halts (eval_int-Halts a) (eval_int-Halts b)
    eval_int-Halts (bin_op OpCode.rshift t a b) =
        on_both_checked-Halts _ _ _ rshift-Halts (eval_int-Halts a) (eval_int-Halts b)
    eval_int-Halts (bin_op _ t a b) = at_not_reached
    eval_int-Halts (tri_op OpCode.ite t c a b) =
        choose-Halts _ _ _ (eval_boolean-Halts c) (eval_int-Halts a) (eval_int-Halts b)
    eval_int-Halts (tri_op _ t c a b) = at_not_reached
    eval_int-Halts (load t (int_const x)) = halted _
    eval_int-Halts (load t _) = at_not_reached
    eval_int-Halts (other_node k t) = at_not_reached

    pub eval_float-Halts : (n : IrNode F) → Halts (eval_float ops n)
    eval_float-Halts (uni_op OpCode.cast_float t a) =
        by_type-Halts (value_type a) _ _ _ (Ends-then _ _ (eval_boolean-Halts a) (λ x _. halted _))
          (Ends-then _ _ (eval_int-Halts a) (λ n _. halted _)) (eval_float-Halts a)
    eval_float-Halts (uni_op OpCode.uni_minus t a) =
        Ends-then _ _ (eval_float-Halts a) (λ x _. halted _)
    eval_float-Halts (uni_op _ t a) = at_not_reached
    eval_float-Halts (bin_op OpCode.add t a b) =
        on_both-Halts _ _ _ (eval_float-Halts a) (eval_float-Halts b)
    eval_float-Halts (bin_op OpCode.sub t a b) =
        on_both-Halts _ _ _ (eval_float-Halts a) (eval_float-Halts b)
    eval_float-Halts (bin_op OpCode.mul t a b) =
        on_both-Halts _ _ _ (eval_float-Halts a) (eval_float-Halts b)
    eval_float-Halts (bin_op OpCode.div t a b) =
        on_both-Halts _ _ _ (eval_float-Halts a) (eval_float-Halts b)
    eval_float-Halts (bin_op _ t a b) = at_not_reached
    eval_float-Halts (tri_op OpCode.ite t c a b) =
        choose-Halts _ _ _ (eval_boolean-Halts c) (eval_float-Halts a) (eval_float-Halts b)
    eval_float-Halts (tri_op _ t c a b) = at_not_reached
    eval_float-Halts (load t (float_const x)) = halted _
    eval_float-Halts (load t _) = at_not_reached
    eval_float-Halts (other_node k t) = at_not_reached
