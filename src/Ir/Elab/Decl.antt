-- ===== src/Ir/Elab/Decl.antt =====
-- The types of declarations, constants and enum types (resolve_type, reg_const and reg_enum of
-- src/ir/IrMgr_stmt.cc). A declaration that is in error leaves the state as it is then.
use ymsl.Base.{
  ℕ, suc, if◌then◌else◌, Option, none, some, List, [], ◌∷◌, ◌++◌, length, Outcome, ok, fault,
  not_reached, ◌>>=◌,
}
use ymsl.Base.Int.{ℤ, pos}
use ymsl.Compiler.ShString.{ShString}
use ymsl.Compiler.Types.{TypeId}
use ymsl.Compiler.TypeMgr.{TypeMgr, get_array_type, get_set_type, get_map_type, new_enum_type}
use ymsl.Ir.Ast.{AstExpr, AstType, simple_type, array_of, set_of, map_of, name_of_type}
use ymsl.Ir.Code.{
  Handle, boolean_handle, int_handle, float_handle, type_handle, Node, node_type_id, node_view,
}
use ymsl.Ir.Node.{IrNode, is_static}
use ymsl.Ir.Interp.{FloatOps, eval_boolean, eval_int, eval_float}
use ymsl.Ir.Enum.{elem_value}
use ymsl.Ir.Elab.{Elab, check_name, add_to_scope, push_scope}
use ymsl.Ir.Elab.Expr.{elab_expr, elab_primary}

-- `named_type()` of a handle; `none` is NULL.
abbrev pub named_type : {S F : Type 0} → Handle S F → Option ℕ
named_type (type_handle n t s) = some t
named_type _ = none

-- What follows unless a pointer is NULL: `return;`, and `return NULL;`.
abbrev pub or_return :
    {S F A : Type 0}
    → Outcome (Option A × Elab S F)
    → (A → Elab S F → Outcome (Elab S F))
    → Outcome (Elab S F)
or_return x next = x >>= λ r. elim r.0 [ none ↦ ok r.1 | some a ↦ next a r.1 ]

abbrev pub or_null :
    {S F A B : Type 0}
    → Outcome (Option A × Elab S F)
    → (A → Elab S F → Outcome (Option B × Elab S F))
    → Outcome (Option B × Elab S F)
or_null x next = x >>= λ r. elim r.0 [ none ↦ ok (none, r.1) | some a ↦ next a r.1 ]

module _ {S F : Type 0} ⦃str : ShString S⦄ (no_name : S) where
  -- `if ( !check_name(name, scope) ) return;`
  abbrev pub if_free : S → ℕ → Elab S F → Outcome (Elab S F) → Outcome (Elab S F)
  if_free name scope st next =
      check_name no_name name scope st >>= λ free. if free then next else ok st

  -- An expression in a scope of the state.
  unfoldable pub elab_in : ℕ → AstExpr S F → Elab S F → Outcome (Option (Node S F) × Elab S F)
  unfolding elab_expr
  elab_in scope e st = do
    (n, calls) ← elab_expr no_name st.scopes st.types scope e st.func_calls
    ok (n, record st { func_calls = calls })

  unfoldable pub primary_in : ℕ → AstExpr S F → Elab S F → Outcome (Option (Handle S F) × Elab S F)
  unfolding elab_primary
  primary_in scope e st = do
    (h, calls) ← elab_primary no_name st.scopes st.types scope e st.func_calls
    ok (h, record st { func_calls = calls })

  -- IrMgr::resolve_type. The manager of the state is replaced by the one that the request leaves.
  abbrev request : (ℕ × TypeMgr S) → Elab S F → Outcome (Option ℕ × Elab S F)
  request (t, m) st = ok (some t, record st { types = m })

  unfoldable pub resolve_type : ℕ → AstType S F → Elab S F → Outcome (Option ℕ × Elab S F)
  unfolding primary_in get_array_type get_set_type get_map_type
  resolve_type scope (simple_type TypeId.void) st = ok (some st.types.void_type, st)
  resolve_type scope (simple_type TypeId.boolean) st = ok (some st.types.boolean_type, st)
  resolve_type scope (simple_type TypeId.int) st = ok (some st.types.int_type, st)
  resolve_type scope (simple_type TypeId.float) st = ok (some st.types.float_type, st)
  resolve_type scope (simple_type TypeId.string) st = ok (some st.types.string_type, st)
  resolve_type scope (simple_type _) st = fault not_reached
  resolve_type scope (array_of t) st =
      or_null (resolve_type scope t st) (λ e st1. request (get_array_type st1.types e) st1)
  resolve_type scope (set_of t) st =
      or_null (resolve_type scope t st) (λ e st1. request (get_set_type st1.types e) st1)
  resolve_type scope (map_of k t) st = or_null (resolve_type scope k st) (λ key st1.
      or_null (resolve_type scope t st1) (λ e st2. request (get_map_type st2.types key e) st2))
  resolve_type scope (name_of_type e) st = do
    (h, st1) ← primary_in scope e st
    ok (elim h [ none ↦ none | some g ↦ named_type g ], st1)

  module _ (ops : FloatOps F) where
    -- The handle of the constant, by the type of the expression; a string has none, which is
    -- asserted against.
    unfoldable pub const_handle : S → Node S F → TypeMgr S → Outcome (Handle S F)
    unfolding node_type_id node_view eval_boolean eval_int eval_float
    const_handle name node m = do
      t ← node_type_id m node
      elim t [
        | TypeId.boolean ↦ do v ← eval_boolean ops (node_view m node); ok (boolean_handle name v)
        | TypeId.int ↦ do v ← eval_int ops (node_view m node); ok (int_handle name v)
        | TypeId.float ↦ do v ← eval_float ops (node_view m node); ok (float_handle name v)
        | _ ↦ fault not_reached
      ]

    -- IrMgr::reg_const; first what follows the elaboration of the expression.
    unfoldable pub add_const : S → ℕ → Node S F → Elab S F → Outcome (Elab S F)
    unfolding const_handle add_to_scope node_view is_static
    add_const name scope node st =
        let added = const_handle name node st.types >>= λ h. add_to_scope no_name scope h st in
        if is_static (node_view st.types node) then added else ok st

    unfoldable pub reg_const : S → AstType S F → AstExpr S F → ℕ → Elab S F → Outcome (Elab S F)
    unfolding check_name resolve_type elab_in add_const
    reg_const name ast_type ast_expr scope st = if_free name scope st (
        or_return (resolve_type scope ast_type st)
          (λ t st1. or_return (elab_in scope ast_expr st1) (λ node. add_const name scope node)))

    -- The value of an enum constant, from its elaborated expression, if it has one.
    unfoldable pub elem_number :
        List ℤ → ℤ → Option (Node S F) → Elab S F → Outcome (Option (ℤ × ℤ) × Elab S F)
    unfolding elem_value node_view
    elem_number used_val next_val node st =
        elem_value ops (suc (length used_val)) used_val next_val (viewed node) >>= λ r. ok (r, st)
      where
        viewed : Option (Node S F) → Option (IrNode F)
        viewed none = none
        viewed (some n) = some (node_view st.types n)

    unfoldable pub elem_in :
        ℕ → List ℤ → ℤ → Option (AstExpr S F) → Elab S F → Outcome (Option (ℤ × ℤ) × Elab S F)
    unfolding elab_in elem_number
    elem_in scope used_val next_val none st = elem_number used_val next_val none st
    elem_in scope used_val next_val (some e) st =
        or_null (elab_in scope e st) (λ n. elem_number used_val next_val (some n))

    -- The loop of IrMgr::reg_enum, with the elements so far; `none` is one of the error returns.
    unfoldable pub enum_elems :
        ℕ
        → List (S × Option (AstExpr S F))
        → List ℤ
        → ℤ
        → List (S × ℤ)
        → Elab S F
        → Outcome (Option (List (S × ℤ)) × Elab S F)
    unfolding elem_in add_to_scope
    enum_elems scope [] used_val next_val elem_list st = ok (some elem_list, st)
    enum_elems scope ((name, e) ∷ elems) used_val next_val elem_list st =
        or_null (elem_in scope used_val next_val e st) (λ (v, next) st1.
          add_to_scope no_name scope (int_handle name v) st1 >>= λ st2.
          enum_elems scope elems (used_val ++ v ∷ []) next (elem_list ++ (name, v) ∷ []) st2)

    -- The end of IrMgr::reg_enum, and all of it.
    unfoldable pub add_enum : S → ℕ → ℕ → List (S × ℤ) → Elab S F → Outcome (Elab S F)
    unfolding new_enum_type add_to_scope
    add_enum name scope enum_scope elem_list st =
        let made = new_enum_type st.types name elem_list in
        add_to_scope no_name scope (type_handle name made.0 enum_scope)
          (record st { types = made.1 })

    unfoldable pub reg_enum :
        S → List (S × Option (AstExpr S F)) → ℕ → Elab S F → Outcome (Elab S F)
    unfolding check_name push_scope enum_elems add_enum
    reg_enum name elems scope st = if_free name scope st (
        push_scope no_name (some scope) name st >>= λ (enum_scope, st1).
        or_return (enum_elems enum_scope elems [] (pos 0) [] st1)
          (λ elem_list. add_enum name scope enum_scope elem_list))
