-- ===== src/Ir/Node.antt =====
-- The nodes of the intermediate code that expressions are made of (include/IrNode.h and
-- src/ir/node) and the handles that they load (include/IrHandle.h and src/ir/handle). A node holds
-- the kind of its value type. The nodes that IrInterp evaluates have their operands; of the others
-- only the kind is here. `F` is the type of the floating-point numbers, `double`.
use ymsl.Base.{Bool, true, false, ◌&&◌}
use ymsl.Base.Int.{ℤ}
use ymsl.OpCode.{OpCode}
use ymsl.Compiler.Types.{TypeId}

-- The kinds of the nodes that are no operation and no load; a return is one without a value.
pub data IrType : Type 0 where
  store inplace_uni_op inplace_bin_op func_call return_node jump branch_true branch_false label
        halt :
      IrType

-- The kinds of the handles that are no number.
pub data HandleType : Type 0 where
  scope global_var local_var function string_const label named_type array_ref member_ref
        method_ref :
      HandleType

pub data IrHandle (F : Type 0) : Type 0 where
  boolean_const : Bool → IrHandle F
  int_const : ℤ → IrHandle F
  float_const : F → IrHandle F
  other_handle : HandleType → IrHandle F

pub data IrNode (F : Type 0) : Type 0 where
  uni_op : OpCode → TypeId → IrNode F → IrNode F
  bin_op : OpCode → TypeId → IrNode F → IrNode F → IrNode F
  tri_op : OpCode → TypeId → IrNode F → IrNode F → IrNode F → IrNode F
  load : TypeId → IrHandle F → IrNode F
  other_node : IrType → TypeId → IrNode F

module _ {F : Type 0} where
  -- `value_type()->type_id()`
  unfoldable pub value_type : IrNode F → TypeId
  value_type (uni_op op t a) = t
  value_type (bin_op op t a b) = t
  value_type (tri_op op t a b c) = t
  value_type (load t h) = t
  value_type (other_node k t) = t

-- The virtual `is_static()` of the handles and of the nodes. A node that is no operation and no load
-- is no expression of constants; a jump and a label count as static.
unfoldable pub is_static_handle : {F : Type 0} → IrHandle F → Bool
is_static_handle (boolean_const x) = true
is_static_handle (int_const n) = true
is_static_handle (float_const x) = true
is_static_handle (other_handle HandleType.string_const) = true
is_static_handle (other_handle _) = false

unfoldable pub is_static_kind : IrType → Bool
is_static_kind IrType.jump = true
is_static_kind IrType.branch_true = true
is_static_kind IrType.branch_false = true
is_static_kind IrType.label = true
is_static_kind IrType.return_node = true
is_static_kind _ = false

unfoldable pub is_static : {F : Type 0} → IrNode F → Bool
unfolding is_static_handle is_static_kind
is_static (uni_op op t a) = is_static a
is_static (bin_op op t a b) = is_static a && is_static b
is_static (tri_op op t a b c) = is_static a && (is_static b && is_static c)
is_static (load t h) = is_static_handle h
is_static (other_node k t) = is_static_kind k
