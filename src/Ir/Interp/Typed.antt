-- ===== src/Ir/Interp/Typed.antt =====
-- Well-typed expressions of constants, as src/ir/IrInterp.cc evaluates them: the types are those of
-- TypeMgr, and every cast of an operand is a node of its own.
use ymsl.Base.{◌≡◌, refl, Bool, true, false}
use ymsl.Base.Int.{ℤ, InRange}
use ymsl.OpCode.{OpCode}
use ymsl.Compiler.Types.{TypeId}
use ymsl.Ir.Node.{
  boolean_const, int_const, float_const, IrNode, uni_op, bin_op, tri_op, load, value_type,
  is_static, is_static_handle,
}

-- The operators on two integers with an integer as their value, on two floating-point numbers, on
-- two Boolean values, and the comparisons.
abbrev pub is_int_op : OpCode → Bool
is_int_op OpCode.bit_and = true
is_int_op OpCode.bit_or = true
is_int_op OpCode.bit_xor = true
is_int_op OpCode.add = true
is_int_op OpCode.sub = true
is_int_op OpCode.mul = true
is_int_op OpCode.div = true
is_int_op OpCode.mod_op = true
is_int_op OpCode.lshift = true
is_int_op OpCode.rshift = true
is_int_op _ = false

abbrev pub is_float_op : OpCode → Bool
is_float_op OpCode.add = true
is_float_op OpCode.sub = true
is_float_op OpCode.mul = true
is_float_op OpCode.div = true
is_float_op _ = false

abbrev pub is_logical_op : OpCode → Bool
is_logical_op OpCode.log_and = true
is_logical_op OpCode.log_or = true
is_logical_op _ = false

abbrev pub is_equality : OpCode → Bool
is_equality OpCode.equal = true
is_equality OpCode.not_eq = true
is_equality _ = false

abbrev pub is_order : OpCode → Bool
is_order OpCode.lt = true
is_order OpCode.le = true
is_order _ = false

abbrev pub is_number : TypeId → Bool
is_number TypeId.int = true
is_number TypeId.float = true
is_number _ = false

abbrev pub is_scalar : TypeId → Bool
is_scalar TypeId.boolean = true
is_scalar TypeId.int = true
is_scalar TypeId.float = true
is_scalar _ = false

abbrev pub is_integral : TypeId → Bool
is_integral TypeId.boolean = true
is_integral TypeId.int = true
is_integral _ = false

-- The expressions of constants, with the type of their value.
pub data Typed {F : Type 0} : TypeId → IrNode F → Type 0 where
  boolean_load : (x : Bool) → Typed TypeId.boolean (load TypeId.boolean (boolean_const x))
  int_load : (n : ℤ) → InRange n → Typed TypeId.int (load TypeId.int (int_const n))
  float_load : (x : F) → Typed TypeId.float (load TypeId.float (float_const x))
  to_boolean :
      {s : TypeId} {a : IrNode F}
      → is_scalar s ≡ true
      → Typed s a
      → Typed TypeId.boolean (uni_op OpCode.cast_boolean TypeId.boolean a)
  to_int :
      {s : TypeId} {a : IrNode F}
      → is_integral s ≡ true
      → Typed s a
      → Typed TypeId.int (uni_op OpCode.cast_int TypeId.int a)
  to_float :
      {s : TypeId} {a : IrNode F}
      → is_scalar s ≡ true
      → Typed s a
      → Typed TypeId.float (uni_op OpCode.cast_float TypeId.float a)
  log_not :
      {a : IrNode F}
      → Typed TypeId.boolean a
      → Typed TypeId.boolean (uni_op OpCode.log_not TypeId.boolean a)
  bit_neg :
      {a : IrNode F} → Typed TypeId.int a → Typed TypeId.int (uni_op OpCode.bit_neg TypeId.int a)
  uni_minus :
      {s : TypeId} {a : IrNode F}
      → is_number s ≡ true
      → Typed s a
      → Typed s (uni_op OpCode.uni_minus s a)
  int_op :
      {op : OpCode} {a b : IrNode F}
      → is_int_op op ≡ true
      → Typed TypeId.int a
      → Typed TypeId.int b
      → Typed TypeId.int (bin_op op TypeId.int a b)
  float_op :
      {op : OpCode} {a b : IrNode F}
      → is_float_op op ≡ true
      → Typed TypeId.float a
      → Typed TypeId.float b
      → Typed TypeId.float (bin_op op TypeId.float a b)
  logical_op :
      {op : OpCode} {a b : IrNode F}
      → is_logical_op op ≡ true
      → Typed TypeId.boolean a
      → Typed TypeId.boolean b
      → Typed TypeId.boolean (bin_op op TypeId.boolean a b)
  equality :
      {op : OpCode} {s : TypeId} {a b : IrNode F}
      → is_equality op ≡ true
      → is_scalar s ≡ true
      → Typed s a
      → Typed s b
      → Typed TypeId.boolean (bin_op op TypeId.boolean a b)
  order :
      {op : OpCode} {s : TypeId} {a b : IrNode F}
      → is_order op ≡ true
      → is_number s ≡ true
      → Typed s a
      → Typed s b
      → Typed TypeId.boolean (bin_op op TypeId.boolean a b)
  ite :
      {s : TypeId} {c a b : IrNode F}
      → Typed TypeId.boolean c
      → Typed s a
      → Typed s b
      → Typed s (tri_op OpCode.ite s c a b)

module _ {F : Type 0} where
  pub value_type-Typed : {s : TypeId} {n : IrNode F} → Typed s n → value_type n ≡ s
  unfolding value_type
  value_type-Typed (boolean_load x) = refl
  value_type-Typed (int_load n h) = refl
  value_type-Typed (float_load x) = refl
  value_type-Typed (to_boolean k a) = refl
  value_type-Typed (to_int k a) = refl
  value_type-Typed (to_float k a) = refl
  value_type-Typed (log_not a) = refl
  value_type-Typed (bit_neg a) = refl
  value_type-Typed (uni_minus k a) = refl
  value_type-Typed (int_op k a b) = refl
  value_type-Typed (float_op k a b) = refl
  value_type-Typed (logical_op k a b) = refl
  value_type-Typed (equality k l a b) = refl
  value_type-Typed (order k l a b) = refl
  value_type-Typed (ite c a b) = refl

  pub is_static-Typed : {s : TypeId} {n : IrNode F} → Typed s n → is_static n ≡ true
  unfolding is_static is_static_handle
  is_static-Typed (boolean_load x) = refl
  is_static-Typed (int_load n h) = refl
  is_static-Typed (float_load x) = refl
  is_static-Typed (to_boolean k a) = is_static-Typed a
  is_static-Typed (to_int k a) = is_static-Typed a
  is_static-Typed (to_float k a) = is_static-Typed a
  is_static-Typed (log_not a) = is_static-Typed a
  is_static-Typed (bit_neg a) = is_static-Typed a
  is_static-Typed (uni_minus k a) = is_static-Typed a
  is_static-Typed (int_op k a b) = rw (is_static-Typed a, is_static-Typed b)
  is_static-Typed (float_op k a b) = rw (is_static-Typed a, is_static-Typed b)
  is_static-Typed (logical_op k a b) = rw (is_static-Typed a, is_static-Typed b)
  is_static-Typed (equality k l a b) = rw (is_static-Typed a, is_static-Typed b)
  is_static-Typed (order k l a b) = rw (is_static-Typed a, is_static-Typed b)
  is_static-Typed (ite c a b) = rw (is_static-Typed c, is_static-Typed a, is_static-Typed b)
