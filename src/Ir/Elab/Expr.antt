-- ===== src/Ir/Elab/Expr.antt =====
-- Expressions and types (IrMgr::elab_expr and elab_primary of src/ir/IrMgr_expr.cc, resolve_type of
-- IrMgr_stmt.cc). A result `none` is NULL. The stubs of calls are threaded through; the scopes and,
-- but for resolve_type, the types only read.
use ymsl.Base.{
  ℕ, true, false, Option, none, some, List, [], ◌∷◌, ◌++◌, length, ◌==◌, if◌then◌else◌, Outcome, ok,
  fault, undefined, not_reached, ◌>>=◌,
}
use ymsl.OpCode.{OpCode}
use ymsl.Compiler.ShString.{ShString}
use ymsl.Compiler.Scope.{Scope}
use ymsl.Compiler.Types.{TypeId}
use ymsl.Compiler.TypeMgr.{TypeMgr}
use ymsl.Compiler.TypeMgr.Calc.{calc_type1, calc_type2, calc_type3}
use ymsl.Ir.Ast.{
  AstExpr, true_const, false_const, int_literal, float_literal, string_literal, symbol_expr,
  array_elem, member, call_expr, unary_expr, binary_expr, ternary_expr, AstArgs, no_args, arg_and,
}
use ymsl.Ir.Code.{
  Handle, scope_handle, global_var, local_var, boolean_handle, int_handle, float_handle,
  string_handle, type_handle, array_ref, Node, uni_node, bin_node, tri_node, call_node, Nodes,
  no_nodes, node_and, node_type, node_type_id, new_load,
}
use ymsl.Ir.Elab.{FuncCallStub, find_in_scope}

-- A result that may be NULL, with the stubs.
abbrev pub Elaborated : Type 0 → Type 0 → Type 0 → Type 0
Elaborated S F A = Outcome (Option A × List (FuncCallStub S F))

-- `if ( x == NULL ) return NULL;`
abbrev pub unless_null :
    {S F A B : Type 0}
    → Elaborated S F A
    → (A → List (FuncCallStub S F) → Elaborated S F B)
    → Elaborated S F B
unless_null x f = x >>= λ r. elim r.0 [ none ↦ ok (none, r.1) | some a ↦ f a r.1 ]

-- NULL as a pointer to a type: the number of no object.
unfoldable pub null_type : {S : Type 0} → TypeMgr S → ℕ
null_type m = length m.types

module _ {S F : Type 0} where
  -- The pointer to the type of an operand.
  unfoldable pub type_number : TypeMgr S → Node S F → ℕ
  unfolding node_type null_type
  type_number m node = elim (node_type node) [ none ↦ null_type m | some t ↦ t ]

  abbrev pub with_calls : {A : Type 0} → Outcome A → List (FuncCallStub S F) → Elaborated S F A
  with_calls x calls = x >>= λ a. ok (some a, calls)

  module _ ⦃str : ShString S⦄ (no_name : S) (scopes : List (Scope S (Handle S F))) (m : TypeMgr S)
      (scope : ℕ) where
    -- The end of the cases of an operation, with the operands. For two operands without a type, the
    -- type of a conditional operation is NULL as well.
    unfoldable pub make_uni :
        OpCode → Node S F → List (FuncCallStub S F) → Elaborated S F (Node S F)
    unfolding calc_type1 type_number
    make_uni op a calls = do
      r ← calc_type1 m op (type_number m a)
      elim r [ none ↦ ok (none, calls) | some c ↦ ok (some (uni_node op c.type a), calls) ]

    unfoldable pub make_bin :
        OpCode → Node S F → Node S F → List (FuncCallStub S F) → Elaborated S F (Node S F)
    unfolding calc_type2 type_number
    make_bin op a b calls = do
      r ← calc_type2 m op (type_number m a) (type_number m b)
      elim r [ none ↦ ok (none, calls) | some c ↦ ok (some (bin_node op c.type a b), calls) ]

    unfoldable pub make_tri :
        OpCode
        → Node S F
        → Node S F
        → Node S F
        → List (FuncCallStub S F)
        → Elaborated S F (Node S F)
    unfolding calc_type3 type_number null_type
    make_tri op a b c calls = do
      r ← calc_type3 m op (type_number m a) (type_number m b) (type_number m c)
      elim r [
        | none ↦ ok (none, calls)
        | some t ↦
            if t.type == null_type m
            then ok (none, calls)
            else ok (some (tri_node op t.type a b c), calls)
      ]

    unfoldable pub find_member : Handle S F → S → Outcome (Option (Handle S F))
    unfolding find_in_scope
    find_member (scope_handle n s) name = find_in_scope no_name scopes s name
    find_member (type_handle n t s) name = find_in_scope no_name scopes s name
    find_member (local_var n t k i) name = fault undefined
    find_member (global_var n t k i) name = fault undefined
    find_member _ name = fault not_reached

    -- The array and the index of an element, both loaded.
    unfoldable pub make_array_ref :
        Node S F → Option (Node S F) → List (FuncCallStub S F) → Elaborated S F (Handle S F)
    unfolding node_type_id
    make_array_ref base none calls = fault undefined
    make_array_ref base (some offset) calls = do
      t ← node_type_id m offset
      elim t [ TypeId.int ↦ ok (some (array_ref base offset), calls) | _ ↦ ok (none, calls) ]

    -- The cases of elab_primary, with the results for the parts of the expression.
    unfoldable pub symbol_handle : S → List (FuncCallStub S F) → Elaborated S F (Handle S F)
    unfolding find_in_scope
    symbol_handle s calls = find_in_scope no_name scopes scope s >>= λ h. ok (h, calls)

    unfoldable pub elem_handle :
        Elaborated S F (Handle S F)
        → (List (FuncCallStub S F) → Elaborated S F (Node S F))
        → Elaborated S F (Handle S F)
    unfolding new_load node_type_id make_array_ref
    elem_handle body index = unless_null body (λ h calls1. do
      base ← new_load m h
      t ← node_type_id m base
      elim t [
        | TypeId.array ↦ index calls1 >>= λ r. make_array_ref base r.0 r.1
        | _ ↦ ok (none, calls1)
      ])

    unfoldable pub member_handle : Elaborated S F (Handle S F) → S → Elaborated S F (Handle S F)
    unfolding find_member
    member_handle body s = body >>= λ r. elim r.0 [
      | none ↦ fault undefined
      | some h ↦ find_member h s >>= λ o. ok (o, r.1)
    ]

    -- `return new_Load(h)`, unless `h` is NULL.
    unfoldable pub load_of : Elaborated S F (Handle S F) → Elaborated S F (Node S F)
    unfolding new_load
    load_of body = unless_null body (λ h. with_calls (new_load m h))

    unfoldable mutual
      unfolding new_load make_uni make_bin make_tri symbol_handle elem_handle member_handle load_of

      pub elab_expr : AstExpr S F → List (FuncCallStub S F) → Elaborated S F (Node S F)
      elab_expr true_const calls = with_calls (new_load m (boolean_handle no_name true)) calls
      elab_expr false_const calls = with_calls (new_load m (boolean_handle no_name false)) calls
      elab_expr (int_literal n) calls = with_calls (new_load m (int_handle no_name n)) calls
      elab_expr (float_literal x) calls = with_calls (new_load m (float_handle no_name x)) calls
      elab_expr (string_literal s) calls = with_calls (new_load m (string_handle no_name s)) calls
      elab_expr (symbol_expr s) calls = load_of (symbol_handle s calls)
      elab_expr (array_elem a i) calls =
          load_of (elem_handle (elab_primary a calls) (λ calls1. elab_expr i calls1))
      elab_expr (member a s) calls = load_of (member_handle (elab_primary a calls) s)
      elab_expr (call_expr f args) calls = unless_null (elab_args args calls) (λ nodes calls2. ok (
        some (call_node (length calls2) nodes),
        calls2 ++ record { func_expr = f; func_scope = scope } ∷ [],
      ))
      elab_expr (unary_expr op a) calls = unless_null (elab_expr a calls) (λ n0. make_uni op n0)
      elab_expr (binary_expr op a b) calls =
          unless_null (elab_expr a calls)
            (λ n0 calls1. unless_null (elab_expr b calls1) (λ n1. make_bin op n0 n1))
      elab_expr (ternary_expr op a b c) calls = unless_null (elab_expr a calls) (λ n0 calls1.
          unless_null (elab_expr b calls1)
            (λ n1 calls2. unless_null (elab_expr c calls2) (λ n2. make_tri op n0 n1 n2)))

      pub elab_args : AstArgs S F → List (FuncCallStub S F) → Elaborated S F (Nodes S F)
      elab_args no_args calls = ok (some no_nodes, calls)
      elab_args (arg_and a args) calls = unless_null (elab_expr a calls) (λ n calls1.
          unless_null (elab_args args calls1) (λ ns calls2. ok (some (node_and n ns), calls2)))

      pub elab_primary : AstExpr S F → List (FuncCallStub S F) → Elaborated S F (Handle S F)
      elab_primary (symbol_expr s) calls = symbol_handle s calls
      elab_primary (array_elem a i) calls =
          elem_handle (elab_primary a calls) (λ calls1. elab_expr i calls1)
      elab_primary (member a s) calls = member_handle (elab_primary a calls) s
      elab_primary _ calls = fault not_reached
