-- ===== src/Ir/Interp/Operators.antt =====
-- The binary operators in src/ir/IrInterp.cc on operands that are evaluated without a failed
-- assertion.
use ymsl.Base.{◌≡◌, true, false, ok}
use ymsl.Base.Int.{◌+ℤ◌, ◌-ℤ◌, ◌*ℤ◌, InRange}
use ymsl.Base.Int32.{of_word-InRange, bit_neg-InRange}
use ymsl.Base.Int32
use ymsl.OpCode.{OpCode}
use ymsl.Compiler.Types.{TypeId}
use ymsl.Ir.Node.{IrNode, bin_op, value_type}
use ymsl.Ir.Interp.{FloatOps, eval_boolean, eval_int, eval_float}
use ymsl.Ir.Interp.Typed.{
  is_int_op, is_float_op, is_logical_op, is_equality, is_order, is_number, is_scalar,
}
use ymsl.Ir.Interp.Outcomes.{
  Fine, Any, choose-Fine, on_both-Fine, on_both_checked-Fine, checked-Fine, div-Fine, rem-Fine,
  lshift-Fine, rshift-Fine,
}

module _ {F : Type 0} (ops : FloatOps F) where
  pub int_op-Fine :
      (op : OpCode) (t : TypeId) (a b : IrNode F)
      → is_int_op op ≡ true
      → Fine InRange (eval_int ops a)
      → Fine InRange (eval_int ops b)
      → Fine InRange (eval_int ops (bin_op op t a b))
  unfolding eval_int Int32.and Int32.or Int32.xor Int32.add Int32.sub Int32.mul
  int_op-Fine OpCode.bit_and t a b h x y =
      on_both-Fine InRange InRange InRange Int32.and (eval_int ops a) (eval_int ops b)
        (λ m n. of_word-InRange _) x y
  int_op-Fine OpCode.bit_or t a b h x y =
      on_both-Fine InRange InRange InRange Int32.or (eval_int ops a) (eval_int ops b)
        (λ m n. of_word-InRange _) x y
  int_op-Fine OpCode.bit_xor t a b h x y =
      on_both-Fine InRange InRange InRange Int32.xor (eval_int ops a) (eval_int ops b)
        (λ m n. of_word-InRange _) x y
  int_op-Fine OpCode.add t a b h x y =
      on_both_checked-Fine InRange InRange InRange Int32.add (eval_int ops a) (eval_int ops b)
        (λ m n _ _. checked-Fine (m +ℤ n)) x y
  int_op-Fine OpCode.sub t a b h x y =
      on_both_checked-Fine InRange InRange InRange Int32.sub (eval_int ops a) (eval_int ops b)
        (λ m n _ _. checked-Fine (m -ℤ n)) x y
  int_op-Fine OpCode.mul t a b h x y =
      on_both_checked-Fine InRange InRange InRange Int32.mul (eval_int ops a) (eval_int ops b)
        (λ m n _ _. checked-Fine (m *ℤ n)) x y
  int_op-Fine OpCode.div t a b h x y =
      on_both_checked-Fine InRange InRange InRange Int32.div (eval_int ops a) (eval_int ops b)
        (λ m n _ _. div-Fine m n) x y
  int_op-Fine OpCode.mod_op t a b h x y =
      on_both_checked-Fine InRange InRange InRange Int32.rem (eval_int ops a) (eval_int ops b)
        (λ m n _ _. rem-Fine m n) x y
  int_op-Fine OpCode.lshift t a b h x y =
      on_both_checked-Fine InRange InRange InRange Int32.lshift (eval_int ops a) (eval_int ops b)
        (λ m n _ _. lshift-Fine m n) x y
  int_op-Fine OpCode.rshift t a b h x y =
      on_both_checked-Fine InRange InRange InRange Int32.rshift (eval_int ops a) (eval_int ops b)
        (λ m n p _. rshift-Fine m n p) x y
  int_op-Fine _ t a b h x y = cc

  pub float_op-Fine :
      (op : OpCode) (t : TypeId) (a b : IrNode F)
      → is_float_op op ≡ true
      → Fine Any (eval_float ops a)
      → Fine Any (eval_float ops b)
      → Fine Any (eval_float ops (bin_op op t a b))
  unfolding eval_float
  float_op-Fine OpCode.add t a b h x y =
      on_both-Fine Any Any Any ops.add (eval_float ops a) (eval_float ops b) (λ m n. tt) x y
  float_op-Fine OpCode.sub t a b h x y =
      on_both-Fine Any Any Any ops.sub (eval_float ops a) (eval_float ops b) (λ m n. tt) x y
  float_op-Fine OpCode.mul t a b h x y =
      on_both-Fine Any Any Any ops.mul (eval_float ops a) (eval_float ops b) (λ m n. tt) x y
  float_op-Fine OpCode.div t a b h x y =
      on_both-Fine Any Any Any ops.div (eval_float ops a) (eval_float ops b) (λ m n. tt) x y
  float_op-Fine _ t a b h x y = cc

  -- The evaluation that belongs to a type.
  abbrev pub Evaluates : TypeId → IrNode F → Type 0
  Evaluates TypeId.boolean n = Fine Any (eval_boolean ops n)
  Evaluates TypeId.int n = Fine InRange (eval_int ops n)
  Evaluates TypeId.float n = Fine Any (eval_float ops n)
  Evaluates _ n = ⊥

  pub logical_op-Fine :
      (op : OpCode) (t : TypeId) (a b : IrNode F)
      → is_logical_op op ≡ true
      → Fine Any (eval_boolean ops a)
      → Fine Any (eval_boolean ops b)
      → Fine Any (eval_boolean ops (bin_op op t a b))
  unfolding eval_boolean
  logical_op-Fine OpCode.log_and t a b h x y =
      choose-Fine Any (eval_boolean ops a) (eval_boolean ops b) (ok false) x y tt
  logical_op-Fine OpCode.log_or t a b h x y =
      choose-Fine Any (eval_boolean ops a) (ok true) (eval_boolean ops b) x tt y
  logical_op-Fine _ t a b h x y = cc

  pub equality-Fine :
      (op : OpCode) (s t : TypeId) (a b : IrNode F)
      → is_equality op ≡ true
      → is_scalar s ≡ true
      → value_type a ≡ s
      → Evaluates s a
      → Evaluates s b
      → Fine Any (eval_boolean ops (bin_op op t a b))
  unfolding eval_boolean
  equality-Fine OpCode.equal TypeId.boolean t a b h k e x y =
      rw e (on_both-Fine Any Any Any _ (eval_boolean ops a) (eval_boolean ops b) (λ m n. tt) x y)
  equality-Fine OpCode.equal TypeId.int t a b h k e x y =
      rw e (on_both-Fine InRange InRange Any _ (eval_int ops a) (eval_int ops b) (λ m n. tt) x y)
  equality-Fine OpCode.equal TypeId.float t a b h k e x y =
      rw e (on_both-Fine Any Any Any _ (eval_float ops a) (eval_float ops b) (λ m n. tt) x y)
  equality-Fine OpCode.equal _ t a b h k e x y = cc
  equality-Fine OpCode.not_eq TypeId.boolean t a b h k e x y =
      rw e (on_both-Fine Any Any Any _ (eval_boolean ops a) (eval_boolean ops b) (λ m n. tt) x y)
  equality-Fine OpCode.not_eq TypeId.int t a b h k e x y =
      rw e (on_both-Fine InRange InRange Any _ (eval_int ops a) (eval_int ops b) (λ m n. tt) x y)
  equality-Fine OpCode.not_eq TypeId.float t a b h k e x y =
      rw e (on_both-Fine Any Any Any _ (eval_float ops a) (eval_float ops b) (λ m n. tt) x y)
  equality-Fine OpCode.not_eq _ t a b h k e x y = cc
  equality-Fine _ s t a b h k e x y = cc

  pub order-Fine :
      (op : OpCode) (s t : TypeId) (a b : IrNode F)
      → is_order op ≡ true
      → is_number s ≡ true
      → value_type a ≡ s
      → Evaluates s a
      → Evaluates s b
      → Fine Any (eval_boolean ops (bin_op op t a b))
  unfolding eval_boolean
  order-Fine OpCode.lt TypeId.int t a b h k e x y =
      rw e (on_both-Fine InRange InRange Any _ (eval_int ops a) (eval_int ops b) (λ m n. tt) x y)
  order-Fine OpCode.lt TypeId.float t a b h k e x y =
      rw e (on_both-Fine Any Any Any _ (eval_float ops a) (eval_float ops b) (λ m n. tt) x y)
  order-Fine OpCode.lt _ t a b h k e x y = cc
  order-Fine OpCode.le TypeId.int t a b h k e x y =
      rw e (on_both-Fine InRange InRange Any _ (eval_int ops a) (eval_int ops b) (λ m n. tt) x y)
  order-Fine OpCode.le TypeId.float t a b h k e x y =
      rw e (on_both-Fine Any Any Any _ (eval_float ops a) (eval_float ops b) (λ m n. tt) x y)
  order-Fine OpCode.le _ t a b h k e x y = cc
  order-Fine _ s t a b h k e x y = cc
