-- ===== src/Ir/Elab/Ends/Types.antt =====
-- The typing of operations and the loads of handles, as elab_expr of src/ir/IrMgr_expr.cc uses them
-- (src/compiler/TypeMgr.cc, IrMgr::new_Load of src/ir/IrMgr_node.cc): no loop that fuel bounds.
use ymsl.Base.{
  ℕ, Bool, true, false, if◌then◌else◌, Option, none, some, ok, fault, undefined, ◌&&◌, ◌||◌, ◌==◌,
  get_elem?, Outcome, ◌>>=◌,
}
use ymsl.OpCode.{OpCode}
use ymsl.Compiler.Types.{TypeDef, array_type, set_type, map_type, type_id}
use ymsl.Compiler.TypeMgr.{TypeMgr}
use ymsl.Compiler.TypeMgr.Calc.{
  object, castable, is_enum, Calc2, calc2, calc_type1, calc_int, calc_logical, calc_arith,
  calc_compare, calc_enum, calc_type2, calc_type3,
}
use ymsl.Ir.Code.{
  Handle, scope_handle, global_var, local_var, func_handle, boolean_handle, int_handle,
  float_handle, string_handle, label_handle, type_handle, array_ref, Node, node_type, load_node,
  elem_type, new_load, node_type_id,
}
use ymsl.Ir.Elab.Ends.{Halts, halted, at_undefined, at_not_reached, Ends-then, if-Ends, option-Ends}

-- Three tests in a row, on the way to what follows them.
if_if_if-Halts :
    {A : Type 0} (b c d : Bool) (x y z : A) (r : Outcome A)
    → Halts r
    → Halts (if b then ok x else if c then ok y else if d then ok z else r)
if_if_if-Halts true c d x y z r h = halted x
if_if_if-Halts false true d x y z r h = halted y
if_if_if-Halts false false true x y z r h = halted z
if_if_if-Halts false false false x y z r h = h

module _ {S : Type 0} (m : TypeMgr S) where
  pub object-Halts : (t : ℕ) → Halts (object m t)
  unfolding object
  object-Halts t = option-Ends (get_elem? m.types t) (fault undefined) ok at_undefined halted

  castable-Halts : (a b : ℕ) → Halts (castable m a b)
  unfolding castable
  castable-Halts a b =
      Ends-then _ _ (object-Halts a)
        (λ self _. Ends-then _ _ (object-Halts b) (λ other _. halted _))

  is_enum-Halts : (a : ℕ) → Halts (is_enum m a)
  unfolding is_enum
  is_enum-Halts a = Ends-then _ _ (object-Halts a) (λ self _. halted _)

  pub calc_type1-Halts : (op : OpCode) (a : ℕ) → Halts (calc_type1 m op a)
  unfolding calc_type1
  calc_type1-Halts OpCode.cast_boolean a = halted _
  calc_type1-Halts OpCode.cast_int a = halted _
  calc_type1-Halts OpCode.cast_float a = halted _
  calc_type1-Halts OpCode.bit_neg a = halted _
  calc_type1-Halts OpCode.log_not a =
      Ends-then _ _ (castable-Halts a m.boolean_type) (λ c _. halted _)
  calc_type1-Halts OpCode.uni_minus a = halted _
  calc_type1-Halts _ a = at_not_reached

  calc_int-Halts : (a b : ℕ) → Halts (calc_int m a b)
  unfolding calc_int
  calc_int-Halts a b = if-Ends _ _ _ (halted _) (halted _)

  calc_logical-Halts : (a b : ℕ) → Halts (calc_logical m a b)
  unfolding calc_logical
  calc_logical-Halts a b = Ends-then _ _ (castable-Halts a m.boolean_type) (λ c _.
      if-Ends c _ _
        (Ends-then _ _ (castable-Halts b m.boolean_type)
          (λ d _. if-Ends d _ _ (halted _) (halted _)))
        (halted _))

  calc_arith-Halts : (a b : ℕ) → Halts (calc_arith m a b)
  unfolding calc_arith
  calc_arith-Halts a b =
      if-Ends (a == m.int_type && b == m.int_type) (calc2 m.int_type a b)
        (if (a == m.int_type || b == m.float_type) && (b == m.int_type || b == m.float_type)
          then calc2 m.float_type m.float_type m.float_type
          else ok none)
        (halted _)
        (if-Ends ((a == m.int_type || b == m.float_type) && (b == m.int_type || b == m.float_type))
          (calc2 m.float_type m.float_type m.float_type) (ok none) (halted _) (halted _))

  calc_compare-Halts :
      (a b : ℕ) (other : Outcome (Option Calc2)) → Halts other → Halts (calc_compare m a b other)
  unfolding calc_compare
  calc_compare-Halts a b other h =
      let give = λ (q1 q2 : ℕ). some (record { type = m.boolean_type; req1 = q1; req2 = q2 }) in
      if_if_if-Halts (a == m.int_type && b == m.float_type) (b == m.int_type && a == m.float_type)
        (a == m.int_type && b == m.int_type
          || (a == m.float_type && b == m.float_type || a == m.string_type && b == m.string_type))
        (give m.float_type b) (give a m.float_type) (give a b) other h

  calc_enum-Halts : (a b : ℕ) → Halts (calc_enum m a b)
  unfolding calc_enum
  calc_enum-Halts a b =
      if-Ends _ _ _ (Ends-then _ _ (is_enum-Halts a) (λ e _. if-Ends e _ _ (halted _) (halted _)))
        (halted _)

  pub calc_type2-Halts : (op : OpCode) (a b : ℕ) → Halts (calc_type2 m op a b)
  unfolding calc_type2
  calc_type2-Halts OpCode.bit_and a b = calc_int-Halts a b
  calc_type2-Halts OpCode.bit_or a b = calc_int-Halts a b
  calc_type2-Halts OpCode.bit_xor a b = calc_int-Halts a b
  calc_type2-Halts OpCode.log_and a b = calc_logical-Halts a b
  calc_type2-Halts OpCode.log_or a b = calc_logical-Halts a b
  calc_type2-Halts OpCode.add a b = calc_arith-Halts a b
  calc_type2-Halts OpCode.sub a b = calc_arith-Halts a b
  calc_type2-Halts OpCode.mul a b = calc_arith-Halts a b
  calc_type2-Halts OpCode.div a b = calc_arith-Halts a b
  calc_type2-Halts OpCode.mod_op a b = calc_int-Halts a b
  calc_type2-Halts OpCode.lshift a b = calc_int-Halts a b
  calc_type2-Halts OpCode.rshift a b = calc_int-Halts a b
  calc_type2-Halts OpCode.equal a b = calc_compare-Halts a b _ (calc_enum-Halts a b)
  calc_type2-Halts OpCode.not_eq a b = calc_compare-Halts a b _ (calc_enum-Halts a b)
  calc_type2-Halts OpCode.lt a b = calc_compare-Halts a b _ (halted _)
  calc_type2-Halts OpCode.le a b = calc_compare-Halts a b _ (halted _)
  calc_type2-Halts _ a b = at_not_reached

  pub calc_type3-Halts : (op : OpCode) (a b c : ℕ) → Halts (calc_type3 m op a b c)
  unfolding calc_type3
  calc_type3-Halts OpCode.ite a b c =
      Ends-then _ _ (castable-Halts a m.boolean_type) (λ d _. halted _)
  calc_type3-Halts _ a b c = at_not_reached

  elem_type-Halts : (d : TypeDef S) → Halts (elem_type d)
  unfolding elem_type
  elem_type-Halts (array_type e) = halted e
  elem_type-Halts (set_type e) = halted e
  elem_type-Halts (map_type k e) = halted e
  elem_type-Halts _ = at_not_reached

module _ {S F : Type 0} (m : TypeMgr S) where
  pub node_type_id-Halts : (n : Node S F) → Halts (node_type_id m n)
  unfolding node_type_id
  node_type_id-Halts n =
      option-Ends (node_type n) (fault undefined) (λ t. object m t >>= λ d. ok (type_id d))
        at_undefined (λ t. Ends-then _ _ (object-Halts m t) (λ d _. halted _))

  pub new_load-Halts : (h : Handle S F) → Halts (new_load m h)
  unfolding new_load
  new_load-Halts (scope_handle n s) = at_not_reached
  new_load-Halts (global_var n t k i) = halted _
  new_load-Halts (local_var n t k i) = halted _
  new_load-Halts (func_handle n t k i) = halted _
  new_load-Halts (boolean_handle n v) = halted _
  new_load-Halts (int_handle n v) = halted _
  new_load-Halts (float_handle n v) = halted _
  new_load-Halts (string_handle n v) = halted _
  new_load-Halts (label_handle n l) = at_not_reached
  new_load-Halts (type_handle n t s) = at_not_reached
  new_load-Halts (array_ref b o) =
      option-Ends (node_type b) (fault undefined)
        (λ t. object m t >>= λ d. elem_type d >>= λ e. ok (load_node e (array_ref b o)))
        at_undefined
        (λ t.
          Ends-then _ _ (object-Halts m t)
            (λ d _. Ends-then _ _ (elem_type-Halts m d) (λ e _. halted _)))
