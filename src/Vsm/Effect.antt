-- ===== src/Vsm/Effect.antt =====
-- What the instructions do that work on the operand stack only (Vsm::execute of src/vsm/Vsm.cc): they
-- pop up to three values, and push one. The first popped value is the first argument.
use ymsl.Base.{Bool, true, false, not, if◌then◌else◌, Outcome, ok, fault, undefined, ◌>>=◌}
use ymsl.Base.Int.{ℤ, pos, eq_ℤ, lt_ℤ, le_ℤ}
use ymsl.Base.Int32
use ymsl.Vsm.Opcode.{VsmOpcode}
use ymsl.Vsm.Value.{VsmValue, int_value, float_value, obj_value, as_int, as_float, Platform}
use ymsl.Vsm.Stack.{StackOf}

pub data Effect (V : Type 0) : Type 0 where
  skip : Effect V
  pushes : V → Effect V
  unary : (V → Outcome V) → Effect V
  binary : (V → V → Outcome V) → Effect V
  ternary : (V → V → V → Outcome V) → Effect V

-- The effect on a stack.
module _ {V S : Type 0} (st : StackOf V S) where
  unfoldable pub apply : Effect V → S → Outcome S
  apply skip s = ok s
  apply (pushes v) s = st.push v s
  apply (unary f) s = do (a, t) ← st.pop s; v ← f a; st.push v t
  apply (binary f) s = do (a, t) ← st.pop s; (b, u) ← st.pop t; v ← f a b; st.push v u
  apply (ternary f) s = do
    (a, t) ← st.pop s
    (b, u) ← st.pop t
    (c, w) ← st.pop u
    v ← f a b c
    st.push v w

-- A truth value as an int.
abbrev pub of_bool : Bool → ℤ
of_bool true = pos 1
of_bool false = pos 0

module _ {F P : Type 0} where
  abbrev int_unary : (ℤ → Outcome ℤ) → Effect (VsmValue F P)
  int_unary f = unary (λ x. do a ← as_int x; n ← f a; ok (int_value n))

  abbrev int_binary : (ℤ → ℤ → Outcome ℤ) → Effect (VsmValue F P)
  int_binary f = binary (λ x y. do a ← as_int x; b ← as_int y; n ← f a b; ok (int_value n))

  abbrev int_test : (ℤ → ℤ → Bool) → Effect (VsmValue F P)
  int_test f = int_binary (λ a b. ok (of_bool (f a b)))

  abbrev float_binary : (F → F → F) → Effect (VsmValue F P)
  float_binary f = binary (λ x y. do a ← as_float x; b ← as_float y; ok (float_value (f a b)))

  abbrev float_test : (F → F → Bool) → Effect (VsmValue F P)
  float_test f = binary (λ x y. do a ← as_float x; b ← as_float y; ok (int_value (of_bool (f a b))))

  -- The operations on objects push a variable that was never given a value.
  abbrev obj_unary : Effect (VsmValue F P)
  obj_unary = unary (λ x. fault undefined)

  abbrev obj_binary : Effect (VsmValue F P)
  obj_binary = binary (λ x y. fault undefined)

module _ {F P : Type 0} (pf : Platform F P) where
  open pf use {floats, to_int, null}

  -- The conversion of an int to a floating-point number and back is written out where the source
  -- pushes its int result by `push_FLOAT`.
  unfoldable pub effect : VsmOpcode → Effect (VsmValue F P)
  effect VsmOpcode.push_float_zero = pushes (float_value (floats.of_int (pos 0)))
  effect VsmOpcode.push_float_one = pushes (float_value (floats.of_int (pos 1)))
  effect VsmOpcode.push_obj_null = pushes (obj_value null)
  effect VsmOpcode.int_minus = int_unary Int32.neg
  effect VsmOpcode.int_inc = int_unary (λ a. Int32.add a (pos 1))
  effect VsmOpcode.int_dec = int_unary (λ a. Int32.sub a (pos 1))
  effect VsmOpcode.int_not = int_unary (λ a. ok (Int32.bit_neg a))
  effect VsmOpcode.int_to_bool =
      unary
        (λ x. do a ← as_int x; ok (float_value (floats.of_int (of_bool (not (eq_ℤ a (pos 0)))))))
  effect VsmOpcode.int_to_float = unary (λ x. do a ← as_int x; ok (float_value (floats.of_int a)))
  effect VsmOpcode.int_add = int_binary Int32.add
  effect VsmOpcode.int_sub = int_binary Int32.sub
  effect VsmOpcode.int_mul = int_binary Int32.mul
  effect VsmOpcode.int_div = int_binary Int32.div
  effect VsmOpcode.int_mod = int_binary Int32.rem
  effect VsmOpcode.int_lshift = int_binary Int32.lshift
  effect VsmOpcode.int_rshift = int_binary Int32.rshift
  effect VsmOpcode.int_eq = int_test eq_ℤ
  effect VsmOpcode.int_ne = int_test (λ a b. not (eq_ℤ a b))
  effect VsmOpcode.int_lt = int_test lt_ℤ
  effect VsmOpcode.int_le = int_test le_ℤ
  effect VsmOpcode.int_and = int_binary (λ a b. ok (Int32.and a b))
  effect VsmOpcode.int_or = int_binary (λ a b. ok (Int32.or a b))
  effect VsmOpcode.int_xor = int_binary (λ a b. ok (Int32.xor a b))
  effect VsmOpcode.int_ite = ternary (λ x y z. do
    a ← as_int x
    b ← as_int y
    c ← as_int z
    ok (int_value (if eq_ℤ a (pos 0) then c else b)))
  effect VsmOpcode.float_minus = unary (λ x. do a ← as_float x; ok (float_value (floats.neg a)))
  effect VsmOpcode.float_to_bool = unary (λ x. do
    a ← as_float x
    ok (float_value (floats.of_int (of_bool (not (floats.equal a (floats.of_int (pos 0))))))))
  effect VsmOpcode.float_to_int =
      unary (λ x. do a ← as_float x; n ← to_int a; ok (float_value (floats.of_int n)))
  effect VsmOpcode.float_add = float_binary floats.add
  effect VsmOpcode.float_sub = float_binary floats.sub
  effect VsmOpcode.float_mul = float_binary floats.mul
  effect VsmOpcode.float_div = float_binary floats.div
  effect VsmOpcode.float_eq = float_test floats.equal
  effect VsmOpcode.float_ne = float_test (λ a b. not (floats.equal a b))
  effect VsmOpcode.float_lt = float_test floats.less
  effect VsmOpcode.float_le = float_test floats.less_equal
  effect VsmOpcode.float_ite = ternary (λ x y z. do
    a ← as_int x
    b ← as_float y
    c ← as_float z
    ok (float_value (if eq_ℤ a (pos 0) then c else b)))
  effect VsmOpcode.obj_minus = obj_unary
  effect VsmOpcode.obj_inc = obj_unary
  effect VsmOpcode.obj_dec = obj_unary
  effect VsmOpcode.obj_not = obj_unary
  effect VsmOpcode.obj_to_int = obj_unary
  effect VsmOpcode.obj_to_float = obj_unary
  effect VsmOpcode.obj_add = obj_binary
  effect VsmOpcode.obj_sub = obj_binary
  effect VsmOpcode.obj_mul = obj_binary
  effect VsmOpcode.obj_div = obj_binary
  effect VsmOpcode.obj_mod = obj_binary
  effect VsmOpcode.obj_lshift = obj_binary
  effect VsmOpcode.obj_rshift = obj_binary
  effect VsmOpcode.obj_eq = obj_binary
  effect VsmOpcode.obj_ne = obj_binary
  effect VsmOpcode.obj_lt = obj_binary
  effect VsmOpcode.obj_le = obj_binary
  effect VsmOpcode.obj_and = obj_binary
  effect VsmOpcode.obj_or = obj_binary
  effect VsmOpcode.obj_xor = obj_binary
  effect VsmOpcode.obj_ite = ternary (λ x y z. fault undefined)
  effect _ = skip
