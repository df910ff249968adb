-- ===== src/Compiler/TypeMgr/Coercions.antt =====
-- What the operation types promise (TypeMgr::calc_type2 of src/compiler/TypeMgr.cc).
use ymsl.Base.{
  ◌==◌, ◌||◌, ==_refl, Option-cases, inl, inr, ap, ℕ, ◌≡◌, ◌≢◌, Bool, true, false, Option, none,
  some, arith, get_elem?, Outcome, ok,
}
use ymsl.OpCode.{OpCode}
use ymsl.Compiler.Types.{
  TypeId, TypeDef, prim_type, array_type, set_type, map_type, func_type, enum_type, castable_to,
  prim_castable, type_id,
}
use ymsl.Compiler.TypeMgr.{TypeMgr}
use ymsl.Compiler.TypeMgr.Calc.{
  Calc1, Calc2, calc2, calc_type1, castable, object, is_enum, is_enum_id, calc_int, calc_logical,
  calc_arith, calc_compare, calc_enum, calc_type2,
}

-- The members for the built-in types are objects of these types, and no primitive type is an enum.
pub record HasBuiltins {S : Type 0} (m : TypeMgr S) : Type 0 where
  pub boolean : get_elem? m.types m.boolean_type ≡ some (prim_type TypeId.boolean)
  pub int : get_elem? m.types m.int_type ≡ some (prim_type TypeId.int)
  pub float : get_elem? m.types m.float_type ≡ some (prim_type TypeId.float)
  pub string : get_elem? m.types m.string_type ≡ some (prim_type TypeId.string)
  pub prims : (i : ℕ) (t : TypeId) → get_elem? m.types i ≡ some (prim_type t) → is_enum_id t ≡ false

abbrev pub is_arith : OpCode → Bool
is_arith OpCode.add = true
is_arith OpCode.sub = true
is_arith OpCode.mul = true
is_arith OpCode.div = true
is_arith _ = false

module _ {S : Type 0} (m : TypeMgr S) where
  -- The operands can be cast to the types that the operation requires of them.
  abbrev pub Castable : ℕ → ℕ → Calc2 → Type 0
  Castable a b r = (castable m a r.req1 ≡ ok true) × (castable m b r.req2 ≡ ok true)

  module _ (h : HasBuiltins m) where
    castable_prim :
        (a b : ℕ) (s t : TypeId)
        → get_elem? m.types a ≡ some (prim_type s)
        → get_elem? m.types b ≡ some (prim_type t)
        → castable m a b ≡ ok (prim_castable s t)
    unfolding castable type_id
    castable_prim a b s t p q = rw (p, object, q)

    calc_int-Castable : (a b : ℕ) {r : Calc2} → calc_int m a b ≡ ok (some r) → Castable a b r
    unfolding calc_int prim_castable
    calc_int-Castable a b e =
        ground (arith, castable_prim m.int_type m.int_type TypeId.int TypeId.int h.int h.int)

    calc_logical-Castable :
        (a b : ℕ) {r : Calc2} → calc_logical m a b ≡ ok (some r) → Castable a b r
    unfolding calc_logical
    calc_logical-Castable a b e = ground arith

    castable_to_self :
        (a : ℕ) (d : TypeDef S)
        → get_elem? m.types a ≡ some d
        → is_enum_id (type_id d) ≡ true
        → castable_to a d a d ≡ true
    unfolding castable_to type_id
    castable_to_self a (prim_type t) p e = let q = h.prims a t p in cc
    castable_to_self a (array_type k) p e = ==_refl a
    castable_to_self a (set_type k) p e = ==_refl a
    castable_to_self a (map_type k l) p e = ==_refl a
    castable_to_self a (func_type k l) p e = ==_refl a
    castable_to_self a (enum_type k l) p e = ==_refl a

    castable_enum : (a : ℕ) → is_enum m a ≡ ok true → castable m a a ≡ ok true
    unfolding is_enum castable object
    castable_enum a e = elim (Option-cases (get_elem? m.types a)) [
      | inl q ↦ ground (arith, q)
      | inr (d, q) ↦ ground (arith, q, castable_to_self a d q)
    ]

    calc_enum-Castable : (a b : ℕ) {r : Calc2} → calc_enum m a b ≡ ok (some r) → Castable a b r
    unfolding calc_enum
    calc_enum-Castable a b e = ground (arith, castable_enum a)

    int-ne-float : m.int_type ≢ m.float_type
    int-ne-float e = cc (h.int, h.float, ap (get_elem? m.types) e)

    calc_compare-Castable :
        (a b : ℕ) (other : Outcome (Option Calc2)) (r : Calc2)
        → (other ≡ ok (some r) → Castable a b r)
        → calc_compare m a b other ≡ ok (some r)
        → Castable a b r
    unfolding calc_compare prim_castable
    calc_compare-Castable a b other r k e = ground (
      arith,
      castable_prim m.int_type m.float_type TypeId.int TypeId.float h.int h.float,
      castable_prim m.float_type m.float_type TypeId.float TypeId.float h.float h.float,
      castable_prim m.int_type m.int_type TypeId.int TypeId.int h.int h.int,
      castable_prim m.string_type m.string_type TypeId.string TypeId.string h.string h.string,
    )

    -- Whenever an operation other than the four arithmetic ones has a type, each operand can be cast
    -- to the type that is required of it.
    pub calc_type2-Castable :
        (op : OpCode) (a b : ℕ) {r : Calc2}
        → is_arith op ≡ false
        → calc_type2 m op a b ≡ ok (some r)
        → Castable a b r
    unfolding calc_type2
    calc_type2-Castable OpCode.bit_and a b n e = calc_int-Castable a b e
    calc_type2-Castable OpCode.bit_or a b n e = calc_int-Castable a b e
    calc_type2-Castable OpCode.bit_xor a b n e = calc_int-Castable a b e
    calc_type2-Castable OpCode.mod_op a b n e = calc_int-Castable a b e
    calc_type2-Castable OpCode.lshift a b n e = calc_int-Castable a b e
    calc_type2-Castable OpCode.rshift a b n e = calc_int-Castable a b e
    calc_type2-Castable OpCode.log_and a b n e = calc_logical-Castable a b e
    calc_type2-Castable OpCode.log_or a b n e = calc_logical-Castable a b e
    calc_type2-Castable OpCode.equal a b {r} n e =
        calc_compare-Castable a b _ r (calc_enum-Castable a b) e
    calc_type2-Castable OpCode.not_eq a b {r} n e =
        calc_compare-Castable a b _ r (calc_enum-Castable a b) e
    calc_type2-Castable OpCode.lt a b {r} n e = calc_compare-Castable a b _ r (λ p. cc) e
    calc_type2-Castable OpCode.le a b {r} n e = calc_compare-Castable a b _ r (λ p. cc) e
    calc_type2-Castable _ a b n e = cc

    -- The arithmetic operations: a right operand of type float makes the operation one of floats
    -- whatever the left operand is, and a left operand of type float is refused beside an int.
    pub calc_type2-arith :
        (op : OpCode)
        → is_arith op ≡ true
        → ((a : ℕ) → calc_type2 m op a m.float_type ≡ calc2 m.float_type m.float_type m.float_type)
          × (calc_type2 m op m.float_type m.int_type ≡ ok none)
    unfolding calc_type2 calc_arith
    calc_type2-arith OpCode.add n =
        (λ a. ground (arith, int-ne-float), ground (arith, int-ne-float))
    calc_type2-arith OpCode.sub n =
        (λ a. ground (arith, int-ne-float), ground (arith, int-ne-float))
    calc_type2-arith OpCode.mul n =
        (λ a. ground (arith, int-ne-float), ground (arith, int-ne-float))
    calc_type2-arith OpCode.div n =
        (λ a. ground (arith, int-ne-float), ground (arith, int-ne-float))
    calc_type2-arith _ n = cc

    castable_number :
        (a : ℕ) → (a == m.int_type || a == m.float_type) ≡ true → castable m a a ≡ ok true
    unfolding prim_castable
    castable_number a e = ground (
      arith,
      castable_prim m.int_type m.int_type TypeId.int TypeId.int h.int h.int,
      castable_prim m.float_type m.float_type TypeId.float TypeId.float h.float h.float,
    )

    -- Whenever a unary operation has a type, its operand can be cast to the type that is required of
    -- it, and that is the type of the operation.
    pub calc_type1-Castable :
        (op : OpCode) (a : ℕ) {r : Calc1}
        → calc_type1 m op a ≡ ok (some r)
        → (castable m a r.req1 ≡ ok true) × (r.type ≡ r.req1)
    unfolding calc_type1
    calc_type1-Castable OpCode.bit_neg a e = ground (arith, castable_number a)
    calc_type1-Castable OpCode.log_not a e = ground arith
    calc_type1-Castable OpCode.uni_minus a e = ground (arith, castable_number a)
    calc_type1-Castable OpCode.cast_boolean a e = cc
    calc_type1-Castable OpCode.cast_int a e = cc
    calc_type1-Castable OpCode.cast_float a e = cc
    calc_type1-Castable _ a e = cc
