-- ===== src/Ir/Interp.antt =====
-- IrInterp (src/ir/IrInterp.cc): the value of an expression of constants, one function for each type
-- of the value. The arithmetic of the floating-point numbers is that of the machine, a parameter.
pub mod Typed
pub mod Outcomes
pub mod Operators
pub mod Sound
use ymsl.Base.{
  ℕ, Bool, true, false, ◌&&◌, ◌||◌, not, ◌==◌, if◌then◌else◌, Outcome, ok, fault, not_reached,
  ◌>>=◌,
}
use ymsl.Base.Int.{ℤ, pos, negsuc, lt_ℤ, le_ℤ, eq_ℤ}
use ymsl.Base.Int32
use ymsl.OpCode.{OpCode}
use ymsl.Compiler.Types.{TypeId}
use ymsl.Ir.Node.{
  IrHandle, boolean_const, int_const, float_const, other_handle, IrNode, uni_op, bin_op, tri_op,
  load, other_node, value_type,
}

-- The operators of C++ on `double`, and its conversion from integers, which also makes 0.0 and 1.0.
pub record FloatOps (F : Type 0) : Type 0 where
  pub of_int : ℤ → F
  pub neg : F → F
  pub add : F → F → F
  pub sub : F → F → F
  pub mul : F → F → F
  pub div : F → F → F
  pub equal : F → F → Bool
  pub less : F → F → Bool
  pub less_equal : F → F → Bool

-- `a == b` of two Boolean values.
abbrev pub eq_bool : Bool → Bool → Bool
eq_bool true b = b
eq_bool false b = not b

-- An operator on the values of two operands, and one that may fail itself.
abbrev pub on_both : {A B C : Type 0} → (A → B → C) → Outcome A → Outcome B → Outcome C
on_both f x y = x >>= λ a. y >>= λ b. ok (f a b)

abbrev pub on_both_checked :
    {A B C : Type 0} → (A → B → Outcome C) → Outcome A → Outcome B → Outcome C
on_both_checked f x y = x >>= λ a. y >>= λ b. f a b

-- `c ? x : y`
abbrev pub choose : {A : Type 0} → Outcome Bool → Outcome A → Outcome A → Outcome A
choose c x y = c >>= λ t. if t then x else y

-- A switch on the type of an operand, with the cases for boolean, int and float.
abbrev pub by_type : {A : Type 0} → TypeId → Outcome A → Outcome A → Outcome A → Outcome A
by_type TypeId.boolean x y z = x
by_type TypeId.int x y z = y
by_type TypeId.float x y z = z
by_type _ x y z = fault not_reached

module _ {F : Type 0} (ops : FloatOps F) where
  unfoldable mutual
    unfolding value_type

    pub eval_boolean : IrNode F → Outcome Bool
    eval_boolean (uni_op OpCode.cast_boolean t a) =
        by_type (value_type a) (eval_boolean a) (eval_int a >>= λ n. ok (not (eq_ℤ n (pos 0))))
          (eval_float a >>= λ x. ok (not (ops.equal x (ops.of_int (pos 0)))))
    eval_boolean (uni_op OpCode.log_not t a) = eval_boolean a >>= λ x. ok (not x)
    eval_boolean (uni_op _ t a) = fault not_reached
    eval_boolean (bin_op OpCode.log_and t a b) = choose (eval_boolean a) (eval_boolean b) (ok false)
    eval_boolean (bin_op OpCode.log_or t a b) = choose (eval_boolean a) (ok true) (eval_boolean b)
    eval_boolean (bin_op OpCode.equal t a b) =
        by_type (value_type a) (on_both eq_bool (eval_boolean a) (eval_boolean b))
          (on_both eq_ℤ (eval_int a) (eval_int b)) (on_both ops.equal (eval_float a) (eval_float b))
    eval_boolean (bin_op OpCode.not_eq t a b) =
        by_type (value_type a)
          (on_both (λ x y. not (eq_bool x y)) (eval_boolean a) (eval_boolean b))
          (on_both (λ x y. not (eq_ℤ x y)) (eval_int a) (eval_int b))
          (on_both (λ x y. not (ops.equal x y)) (eval_float a) (eval_float b))
    eval_boolean (bin_op OpCode.lt t a b) =
        by_type (value_type a) (fault not_reached) (on_both lt_ℤ (eval_int a) (eval_int b))
          (on_both ops.less (eval_float a) (eval_float b))
    eval_boolean (bin_op OpCode.le t a b) =
        by_type (value_type a) (fault not_reached) (on_both le_ℤ (eval_int a) (eval_int b))
          (on_both ops.less_equal (eval_float a) (eval_float b))
    eval_boolean (bin_op _ t a b) = fault not_reached
    eval_boolean (tri_op OpCode.ite t c a b) =
        choose (eval_boolean c) (eval_boolean a) (eval_boolean b)
    eval_boolean (tri_op _ t c a b) = fault not_reached
    eval_boolean (load t (boolean_const x)) = ok x
    eval_boolean (load t _) = fault not_reached
    eval_boolean (other_node k t) = fault not_reached

    pub eval_int : IrNode F → Outcome ℤ
    eval_int (uni_op OpCode.cast_int t a) =
        by_type (value_type a) (eval_boolean a >>= λ x. ok (if x then pos 1 else pos 0))
          (eval_int a) (fault not_reached)
    eval_int (uni_op OpCode.bit_neg t a) = eval_int a >>= λ n. ok (Int32.bit_neg n)
    eval_int (uni_op OpCode.uni_minus t a) = eval_int a >>= λ n. Int32.neg n
    eval_int (uni_op _ t a) = fault not_reached
    eval_int (bin_op OpCode.bit_and t a b) = on_both Int32.and (eval_int a) (eval_int b)
    eval_int (bin_op OpCode.bit_or t a b) = on_both Int32.or (eval_int a) (eval_int b)
    eval_int (bin_op OpCode.bit_xor t a b) = on_both Int32.xor (eval_int a) (eval_int b)
    eval_int (bin_op OpCode.add t a b) = on_both_checked Int32.add (eval_int a) (eval_int b)
    eval_int (bin_op OpCode.sub t a b) = on_both_checked Int32.sub (eval_int a) (eval_int b)
    eval_int (bin_op OpCode.mul t a b) = on_both_checked Int32.mul (eval_int a) (eval_int b)
    eval_int (bin_op OpCode.div t a b) = on_both_checked Int32.div (eval_int a) (eval_int b)
    eval_int (bin_op OpCode.mod_op t a b) = on_both_checked Int32.rem (eval_int a) (eval_int b)
    eval_int (bin_op OpCode.lshift t a b) = on_both_checked Int32.lshift (eval_int a) (eval_int b)
    eval_int (bin_op OpCode.rshift t a b) = on_both_checked Int32.rshift (eval_int a) (eval_int b)
    eval_int (bin_op _ t a b) = fault not_reached
    eval_int (tri_op OpCode.ite t c a b) = choose (eval_boolean c) (eval_int a) (eval_int b)
    eval_int (tri_op _ t c a b) = fault not_reached
    eval_int (load t (int_const n)) = ok n
    eval_int (load t _) = fault not_reached
    eval_int (other_node k t) = fault not_reached

    pub eval_float : IrNode F → Outcome F
    eval_float (uni_op OpCode.cast_float t a) =
        by_type (value_type a)
          (eval_boolean a >>= λ x. ok (if x then ops.of_int (pos 1) else ops.of_int (pos 0)))
          (eval_int a >>= λ n. ok (ops.of_int n)) (eval_float a)
    eval_float (uni_op OpCode.uni_minus t a) = eval_float a >>= λ x. ok (ops.neg x)
    eval_float (uni_op _ t a) = fault not_reached
    eval_float (bin_op OpCode.add t a b) = on_both ops.add (eval_float a) (eval_float b)
    eval_float (bin_op OpCode.sub t a b) = on_both ops.sub (eval_float a) (eval_float b)
    eval_float (bin_op OpCode.mul t a b) = on_both ops.mul (eval_float a) (eval_float b)
    eval_float (bin_op OpCode.div t a b) = on_both ops.div (eval_float a) (eval_float b)
    eval_float (bin_op _ t a b) = fault not_reached
    eval_float (tri_op OpCode.ite t c a b) = choose (eval_boolean c) (eval_float a) (eval_float b)
    eval_float (tri_op _ t c a b) = fault not_reached
    eval_float (load t (float_const x)) = ok x
    eval_float (load t _) = fault not_reached
    eval_float (other_node k t) = fault not_reached
