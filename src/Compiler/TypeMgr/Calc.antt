-- ===== src/Compiler/TypeMgr/Calc.antt =====
-- The type of an operation from the types of its operands (TypeMgr::calc_type1, calc_type2 and
-- calc_type3 of src/compiler/TypeMgr.cc). A result is the type of the operation with the types that
-- it requires of its operands; `none` is NULL, a type error. Operands are objects of the manager; a
-- virtual call on anything else is undefined.
use ymsl.Base.{
  ℕ, Bool, true, false, ◌&&◌, ◌||◌, Option, none, some, ◌==◌, if◌then◌else◌, get_elem?, Outcome, ok,
  fault, undefined, not_reached, ◌>>=◌,
}
use ymsl.OpCode.{OpCode}
use ymsl.Compiler.Types.{TypeId, TypeDef, type_id, castable_to}
use ymsl.Compiler.TypeMgr.{TypeMgr}

-- `type_id() == kEnumType`
unfoldable pub is_enum_id : TypeId → Bool
is_enum_id TypeId.enum = true
is_enum_id _ = false

-- The type of an operation, and the required types of its operands.
pub record Calc1 : Type 0 where
  pub type : ℕ
  pub req1 : ℕ

pub record Calc2 : Type 0 where
  pub type : ℕ
  pub req1 : ℕ
  pub req2 : ℕ

pub record Calc3 : Type 0 where
  pub type : ℕ
  pub req1 : ℕ
  pub req2 : ℕ
  pub req3 : ℕ

abbrev pub calc2 : ℕ → ℕ → ℕ → Outcome (Option Calc2)
calc2 t q1 q2 = ok (some (record { type = t; req1 = q1; req2 = q2 }))

module _ {S : Type 0} (m : TypeMgr S) where
  open m use {types, boolean_type, int_type, float_type, string_type}

  unfoldable pub object : ℕ → Outcome (TypeDef S)
  object t = elim (get_elem? types t) [ none ↦ fault undefined | some d ↦ ok d ]

  -- `a->castable_to(b)`
  unfoldable pub castable : ℕ → ℕ → Outcome Bool
  unfolding object castable_to
  castable a b = do self ← object a; other ← object b; ok (castable_to a self b other)

  unfoldable pub is_enum : ℕ → Outcome Bool
  unfolding object type_id is_enum_id
  is_enum a = do self ← object a; ok (is_enum_id (type_id self))

  unfoldable pub calc_type1 : OpCode → ℕ → Outcome (Option Calc1)
  unfolding castable
  calc_type1 OpCode.cast_boolean a = ok none
  calc_type1 OpCode.cast_int a = ok none
  calc_type1 OpCode.cast_float a = ok none
  calc_type1 OpCode.bit_neg a =
      ok (if a == int_type then some (record { type = int_type; req1 = a }) else none)
  calc_type1 OpCode.log_not a = do
    c ← castable a boolean_type
    ok (if c then some (record { type = boolean_type; req1 = boolean_type }) else none)
  calc_type1 OpCode.uni_minus a =
      ok (if a == int_type || a == float_type then some (record { type = a; req1 = a }) else none)
  calc_type1 _ a = fault not_reached

  -- (int, int) -> int
  unfoldable pub calc_int : ℕ → ℕ → Outcome (Option Calc2)
  calc_int a b = if a == int_type && b == int_type then calc2 int_type a b else ok none

  -- (boolean, boolean) -> boolean
  unfoldable pub calc_logical : ℕ → ℕ → Outcome (Option Calc2)
  unfolding castable
  calc_logical a b = do
    let second = castable b boolean_type >>= λ d.
        if d then calc2 boolean_type boolean_type boolean_type else ok none
    c ← castable a boolean_type
    if c then second else ok none

  -- The four arithmetic operations; the tests as they are written.
  unfoldable pub calc_arith : ℕ → ℕ → Outcome (Option Calc2)
  calc_arith a b =
      if a == int_type && b == int_type
      then calc2 int_type a b
      else if (a == int_type || b == float_type) && (b == int_type || b == float_type)
      then calc2 float_type float_type float_type
      else ok none

  -- The comparisons; `other` is what follows the tests for numbers and strings.
  unfoldable pub calc_compare : ℕ → ℕ → Outcome (Option Calc2) → Outcome (Option Calc2)
  calc_compare a b other =
      if a == int_type && b == float_type
      then calc2 boolean_type float_type b
      else if b == int_type && a == float_type
      then calc2 boolean_type a float_type
      else if a == int_type && b == int_type
          || (a == float_type && b == float_type || a == string_type && b == string_type)
      then calc2 boolean_type a b
      else other

  unfoldable pub calc_enum : ℕ → ℕ → Outcome (Option Calc2)
  unfolding is_enum
  calc_enum a b =
      let test = is_enum a >>= λ e. if e then calc2 boolean_type a b else ok none in
      if a == b then test else ok none

  unfoldable pub calc_type2 : OpCode → ℕ → ℕ → Outcome (Option Calc2)
  unfolding calc_int calc_logical calc_arith calc_compare calc_enum
  calc_type2 OpCode.bit_and a b = calc_int a b
  calc_type2 OpCode.bit_or a b = calc_int a b
  calc_type2 OpCode.bit_xor a b = calc_int a b
  calc_type2 OpCode.log_and a b = calc_logical a b
  calc_type2 OpCode.log_or a b = calc_logical a b
  calc_type2 OpCode.add a b = calc_arith a b
  calc_type2 OpCode.sub a b = calc_arith a b
  calc_type2 OpCode.mul a b = calc_arith a b
  calc_type2 OpCode.div a b = calc_arith a b
  calc_type2 OpCode.mod_op a b = calc_int a b
  calc_type2 OpCode.lshift a b = calc_int a b
  calc_type2 OpCode.rshift a b = calc_int a b
  calc_type2 OpCode.equal a b = calc_compare a b (calc_enum a b)
  calc_type2 OpCode.not_eq a b = calc_compare a b (calc_enum a b)
  calc_type2 OpCode.lt a b = calc_compare a b (ok none)
  calc_type2 OpCode.le a b = calc_compare a b (ok none)
  calc_type2 _ a b = fault not_reached

  unfoldable pub calc_type3 : OpCode → ℕ → ℕ → ℕ → Outcome (Option Calc3)
  unfolding castable
  calc_type3 OpCode.ite a b c = do
    d ← castable a boolean_type
    ok (
        if d && b == c
        then some (record { type = b; req1 = boolean_type; req2 = b; req3 = c })
        else none)
  calc_type3 _ a b c = fault not_reached
