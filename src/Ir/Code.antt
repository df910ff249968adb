-- ===== src/Ir/Code.antt =====
-- The handles and the nodes that IrMgr makes (src/ir/handle, src/ir/node, IrMgr_handle.cc and
-- IrMgr_node.cc of src/ir), with all that they hold. A type is its number in TypeMgr, a scope its
-- number, a label the number of labels that were made before it; a call is known by its place in
-- mFuncCallList. A member of an object is left out: its handle is made from a variable that was never
-- given a value.
use ymsl.Base.{
  ℕ, Bool, Option, none, some, get_elem?, Outcome, ok, fault, undefined, not_reached, ◌>>=◌,
}
use ymsl.Base.Int.{ℤ}
use ymsl.OpCode.{OpCode}
use ymsl.Compiler.Types.{TypeId, TypeDef, array_type, set_type, map_type, type_id}
use ymsl.Compiler.TypeMgr.{TypeMgr}
use ymsl.Compiler.TypeMgr.Calc.{object}
use ymsl.Ir.Node.{IrNode, IrHandle, HandleType, IrType, other_handle, other_node}

mutual
  pub data Handle (S F : Type 0) : Type 0 where
    scope_handle : S → ℕ → Handle S F
    global_var local_var func_handle : S → ℕ → ℕ → ℕ → Handle S F
    boolean_handle : S → Bool → Handle S F
    int_handle : S → ℤ → Handle S F
    float_handle : S → F → Handle S F
    string_handle : S → S → Handle S F
    label_handle : S → ℕ → Handle S F
    type_handle : S → ℕ → ℕ → Handle S F
    array_ref : Node S F → Node S F → Handle S F

  pub data Node (S F : Type 0) : Type 0 where
    uni_node : OpCode → ℕ → Node S F → Node S F
    bin_node : OpCode → ℕ → Node S F → Node S F → Node S F
    tri_node : OpCode → ℕ → Node S F → Node S F → Node S F → Node S F
    load_node : ℕ → Handle S F → Node S F
    store_node : Handle S F → Node S F → Node S F
    inplace_uni : OpCode → Handle S F → Node S F
    inplace_bin : OpCode → Handle S F → Node S F → Node S F
    call_node : ℕ → Nodes S F → Node S F
    return_void : Node S F
    return_value : Node S F → Node S F
    jump_node : ℕ → Node S F
    branch_true_node branch_false_node : ℕ → Node S F → Node S F
    label_node : ℕ → Node S F

  pub data Nodes (S F : Type 0) : Type 0 where
    no_nodes : Nodes S F
    node_and : Node S F → Nodes S F → Nodes S F

module _ {S : Type 0} where
  -- The virtual `elem_type()`.
  unfoldable pub elem_type : TypeDef S → Outcome ℕ
  elem_type (array_type e) = ok e
  elem_type (set_type e) = ok e
  elem_type (map_type k e) = ok e
  elem_type _ = fault not_reached

  -- The kind of a type that is there; an operation and a load have one of those.
  unfoldable pub kind_of : TypeMgr S → ℕ → TypeId
  unfolding type_id
  kind_of m t = elim (get_elem? m.types t) [ none ↦ TypeId.void | some d ↦ type_id d ]

module _ {S F : Type 0} where
  -- The virtual `name()`; the name of a type is that of its handle. `no_name` is `ShString()`.
  unfoldable pub handle_name : S → Handle S F → S
  handle_name no_name (scope_handle n s) = n
  handle_name no_name (global_var n t m i) = n
  handle_name no_name (local_var n t m i) = n
  handle_name no_name (func_handle n t m i) = n
  handle_name no_name (boolean_handle n v) = n
  handle_name no_name (int_handle n v) = n
  handle_name no_name (float_handle n v) = n
  handle_name no_name (string_handle n v) = n
  handle_name no_name (label_handle n l) = n
  handle_name no_name (type_handle n t s) = n
  handle_name no_name (array_ref b o) = no_name

  -- `value_type()`; `none` is NULL.
  unfoldable pub node_type : Node S F → Option ℕ
  node_type (uni_node op t a) = some t
  node_type (bin_node op t a b) = some t
  node_type (tri_node op t a b c) = some t
  node_type (load_node t h) = some t
  node_type _ = none

  -- `value_type()->type_id()`
  unfoldable pub node_type_id : TypeMgr S → Node S F → Outcome TypeId
  unfolding node_type object type_id
  node_type_id m node = elim (node_type node) [
    | none ↦ fault undefined
    | some t ↦ do d ← object m t; ok (type_id d)
  ]

  -- IrMgr::new_Load
  unfoldable pub new_load : TypeMgr S → Handle S F → Outcome (Node S F)
  unfolding node_type object elem_type
  new_load m (global_var n t k i) = ok (load_node t (global_var n t k i))
  new_load m (local_var n t k i) = ok (load_node t (local_var n t k i))
  new_load m (func_handle n t k i) = ok (load_node t (func_handle n t k i))
  new_load m (boolean_handle n v) = ok (load_node m.boolean_type (boolean_handle n v))
  new_load m (int_handle n v) = ok (load_node m.int_type (int_handle n v))
  new_load m (float_handle n v) = ok (load_node m.float_type (float_handle n v))
  new_load m (string_handle n v) = ok (load_node m.string_type (string_handle n v))
  new_load m (array_ref b o) = elim (node_type b) [
    | none ↦ fault undefined
    | some t ↦ do d ← object m t; e ← elem_type d; ok (load_node e (array_ref b o))
  ]
  new_load m _ = fault not_reached

  -- What IrInterp reads of a handle and of a node.
  unfoldable pub handle_view : Handle S F → IrHandle F
  handle_view (boolean_handle n v) = IrHandle.boolean_const v
  handle_view (int_handle n v) = IrHandle.int_const v
  handle_view (float_handle n v) = IrHandle.float_const v
  handle_view (string_handle n v) = other_handle HandleType.string_const
  handle_view (scope_handle n s) = other_handle HandleType.scope
  handle_view (global_var n t k i) = other_handle HandleType.global_var
  handle_view (local_var n t k i) = other_handle HandleType.local_var
  handle_view (func_handle n t k i) = other_handle HandleType.function
  handle_view (label_handle n l) = other_handle HandleType.label
  handle_view (type_handle n t s) = other_handle HandleType.named_type
  handle_view (array_ref b o) = other_handle HandleType.array_ref

  unfoldable pub node_view : TypeMgr S → Node S F → IrNode F
  unfolding handle_view kind_of
  node_view m (uni_node op t a) = IrNode.uni_op op (kind_of m t) (node_view m a)
  node_view m (bin_node op t a b) = IrNode.bin_op op (kind_of m t) (node_view m a) (node_view m b)
  node_view m (tri_node op t a b c) =
      IrNode.tri_op op (kind_of m t) (node_view m a) (node_view m b) (node_view m c)
  node_view m (load_node t h) = IrNode.load (kind_of m t) (handle_view h)
  node_view m (store_node h a) = other_node IrType.store TypeId.void
  node_view m (inplace_uni op h) = other_node IrType.inplace_uni_op TypeId.void
  node_view m (inplace_bin op h a) = other_node IrType.inplace_bin_op TypeId.void
  node_view m (call_node i args) = other_node IrType.func_call TypeId.void
  node_view m return_void = other_node IrType.return_node TypeId.void
  node_view m (return_value a) = other_node IrType.return_node TypeId.void
  node_view m (jump_node l) = other_node IrType.jump TypeId.void
  node_view m (branch_true_node l a) = other_node IrType.branch_true TypeId.void
  node_view m (branch_false_node l a) = other_node IrType.branch_false TypeId.void
  node_view m (label_node l) = other_node IrType.label TypeId.void
