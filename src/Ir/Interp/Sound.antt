-- ===== src/Ir/Interp/Sound.antt =====
-- The evaluation of well-typed constant expressions (src/ir/IrInterp.cc).
use ymsl.Base.{◌≡◌, Bool, true, false, arith, if◌then◌else◌}
use ymsl.Base.Int.{pos, ◌-ℤ◌, InRange}
use ymsl.Base.Int32.{of_word-InRange, bit_neg-InRange}
use ymsl.Base.Int32
use ymsl.OpCode.{OpCode}
use ymsl.Compiler.Types.{TypeId}
use ymsl.Ir.Node.{IrNode, uni_op, tri_op, value_type}
use ymsl.Ir.Interp.{FloatOps, eval_boolean, eval_int, eval_float}
use ymsl.Ir.Interp.Typed.{
  is_number, is_scalar, is_integral, Typed, boolean_load, int_load, float_load, to_boolean, to_int,
  to_float, log_not, bit_neg, uni_minus, int_op, float_op, logical_op, equality, order, ite,
  value_type-Typed,
}
use ymsl.Ir.Interp.Outcomes.{Fine, Any, bind-Fine, choose-Fine, checked-Fine}
use ymsl.Ir.Interp.Operators.{
  Evaluates, int_op-Fine, float_op-Fine, logical_op-Fine, equality-Fine, order-Fine,
}

module _ {F : Type 0} (ops : FloatOps F) where
  to_boolean-Fine :
      (s t : TypeId) (a : IrNode F)
      → is_scalar s ≡ true
      → value_type a ≡ s
      → Evaluates ops s a
      → Fine Any (eval_boolean ops (uni_op OpCode.cast_boolean t a))
  unfolding eval_boolean
  to_boolean-Fine TypeId.boolean t a k e x = rw e x
  to_boolean-Fine TypeId.int t a k e x =
      rw e (bind-Fine InRange Any (eval_int ops a) _ x (λ n _. tt))
  to_boolean-Fine TypeId.float t a k e x =
      rw e (bind-Fine Any Any (eval_float ops a) _ x (λ n _. tt))
  to_boolean-Fine _ t a k e x = cc

  one_or_zero : (b : Bool) → InRange (if b then pos 1 else pos 0)
  one_or_zero true = omega arith
  one_or_zero false = omega arith

  to_int-Fine :
      (s t : TypeId) (a : IrNode F)
      → is_integral s ≡ true
      → value_type a ≡ s
      → Evaluates ops s a
      → Fine InRange (eval_int ops (uni_op OpCode.cast_int t a))
  unfolding eval_int
  to_int-Fine TypeId.boolean t a k e x =
      rw e (bind-Fine Any InRange (eval_boolean ops a) _ x (λ b _. one_or_zero b))
  to_int-Fine TypeId.int t a k e x = rw e x
  to_int-Fine _ t a k e x = cc

  to_float-Fine :
      (s t : TypeId) (a : IrNode F)
      → is_scalar s ≡ true
      → value_type a ≡ s
      → Evaluates ops s a
      → Fine Any (eval_float ops (uni_op OpCode.cast_float t a))
  unfolding eval_float
  to_float-Fine TypeId.boolean t a k e x =
      rw e (bind-Fine Any Any (eval_boolean ops a) _ x (λ n _. tt))
  to_float-Fine TypeId.int t a k e x = rw e (bind-Fine InRange Any (eval_int ops a) _ x (λ n _. tt))
  to_float-Fine TypeId.float t a k e x = rw e x
  to_float-Fine _ t a k e x = cc

  minus-Fine :
      (s : TypeId) (a : IrNode F)
      → is_number s ≡ true
      → Evaluates ops s a
      → Evaluates ops s (uni_op OpCode.uni_minus s a)
  unfolding eval_int eval_float Int32.neg
  minus-Fine TypeId.int a k x =
      bind-Fine InRange InRange (eval_int ops a) _ x (λ n _. checked-Fine (pos 0 -ℤ n))
  minus-Fine TypeId.float a k x = bind-Fine Any Any (eval_float ops a) _ x (λ n _. tt)
  minus-Fine _ a k x = cc

  ite-Fine :
      (s : TypeId) (c a b : IrNode F)
      → Fine Any (eval_boolean ops c)
      → Evaluates ops s a
      → Evaluates ops s b
      → Evaluates ops s (tri_op OpCode.ite s c a b)
  unfolding eval_boolean eval_int eval_float
  ite-Fine TypeId.boolean c a b h x y = choose-Fine Any (eval_boolean ops c) _ _ h x y
  ite-Fine TypeId.int c a b h x y =
      choose-Fine InRange (eval_boolean ops c) (eval_int ops a) (eval_int ops b) h x y
  ite-Fine TypeId.float c a b h x y =
      choose-Fine Any (eval_boolean ops c) (eval_float ops a) (eval_float ops b) h x y
  ite-Fine _ c a b h x y = absurd x

  -- A well-typed expression of constants is evaluated, by the function that belongs to its type,
  -- without reaching a failed assertion: to a value, which is in the range of 32 bits if it is an
  -- integer, or to an operation that the language leaves undefined.
  pub eval-Typed : {s : TypeId} (n : IrNode F) → Typed s n → Evaluates ops s n
  unfolding eval_boolean eval_int eval_float
  eval-Typed _ (boolean_load x) = tt
  eval-Typed _ (int_load n h) = h
  eval-Typed _ (float_load x) = tt
  eval-Typed _ (to_boolean {s} {a} k d) =
      to_boolean-Fine s TypeId.boolean a k (value_type-Typed d) (eval-Typed a d)
  eval-Typed _ (to_int {s} {a} k d) =
      to_int-Fine s TypeId.int a k (value_type-Typed d) (eval-Typed a d)
  eval-Typed _ (to_float {s} {a} k d) =
      to_float-Fine s TypeId.float a k (value_type-Typed d) (eval-Typed a d)
  eval-Typed _ (log_not {a} d) =
      bind-Fine Any Any (eval_boolean ops a) _ (eval-Typed a d) (λ x _. tt)
  eval-Typed _ (bit_neg {a} d) =
      bind-Fine InRange InRange (eval_int ops a) _ (eval-Typed a d) bit_neg-InRange
  eval-Typed _ (uni_minus {s} {a} k d) = minus-Fine s a k (eval-Typed a d)
  eval-Typed _ (int_op {op} {a} {b} k d e) =
      int_op-Fine ops op TypeId.int a b k (eval-Typed a d) (eval-Typed b e)
  eval-Typed _ (float_op {op} {a} {b} k d e) =
      float_op-Fine ops op TypeId.float a b k (eval-Typed a d) (eval-Typed b e)
  eval-Typed _ (logical_op {op} {a} {b} k d e) =
      logical_op-Fine ops op TypeId.boolean a b k (eval-Typed a d) (eval-Typed b e)
  eval-Typed _ (equality {op} {s} {a} {b} k l d e) =
      equality-Fine ops op s TypeId.boolean a b k l (value_type-Typed d) (eval-Typed a d)
        (eval-Typed b e)
  eval-Typed _ (order {op} {s} {a} {b} k l d e) =
      order-Fine ops op s TypeId.boolean a b k l (value_type-Typed d) (eval-Typed a d)
        (eval-Typed b e)
  eval-Typed _ (ite {s} {c} {a} {b} h d e) =
      ite-Fine s c a b (eval-Typed c h) (eval-Typed a d) (eval-Typed b e)
