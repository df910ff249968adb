-- ===== src/Ir/Elab/Labels/Decls.antt =====
-- Declarations make no label and no jump (reg_const, reg_enum, the parameters of reg_func and the
-- variables in src/ir/IrMgr_stmt.cc).
use ymsl.Base.{ℕ, ◌+◌, refl, Option, none, some, List, [], ◌∷◌}
use ymsl.Base.Int.{ℤ, pos}
use ymsl.Compiler.ShString.{ShString}
use ymsl.Compiler.TypeMgr.{new_enum_type}
use ymsl.Ir.Node.{is_static}
use ymsl.Ir.Ast.{AstExpr, AstType, AstParam}
use ymsl.Ir.Code.{type_handle, int_handle, local_var, global_var, Node, node_view}
use ymsl.Ir.Interp.{FloatOps}
use ymsl.Ir.Elab.{
  Elab, check_name, scope_at, add_local_var, add_global_var, next_global_index, next_local_index,
}
use ymsl.Ir.Elab.Decl.{
  add_const, const_handle, reg_const, elem_number, elem_in, enum_elems, add_enum, reg_enum,
}
use ymsl.Ir.Elab.Func.{param_types, init_node, param_handles, add_var}
use ymsl.Ir.Elab.Labels.{trace}
use ymsl.Ir.Elab.Labels.Quiet.{
  done, Ensures-then, Ensures-bind, if-Ensures, option-Ensures, Keeps, KeepsWith, or_return-Ensures,
  or_null-KeepsWith, KeepsWith-subst, Keeps-subst, elab_in-KeepsWith, add_to_scope-Keeps,
  push_scope-KeepsWith, if_free-Ensures, resolve_type-KeepsWith,
}

module _ {S F : Type 0} ⦃str : ShString S⦄ (no_name : S) where
  module _ (ops : FloatOps F) where
    add_const-Keeps :
        (name : S) (scope : ℕ) (node : Node S F) (st : Elab S F)
        → Keeps (trace st) (add_const no_name ops name scope node st)
    unfolding add_const
    add_const-Keeps name scope node st =
        if-Ensures (is_static (node_view st.types node)) _ _
          (Ensures-bind (const_handle no_name ops name node st.types) _
            (λ h. add_to_scope-Keeps no_name scope h st))
          (done refl)

    pub reg_const-Keeps :
        (name : S) (a : AstType S F) (e : AstExpr S F) (scope : ℕ) (st : Elab S F)
        → Keeps (trace st) (reg_const no_name ops name a e scope st)
    unfolding reg_const
    reg_const-Keeps name a e scope st = if_free-Ensures no_name _ name scope st _ refl (
        or_return-Ensures _ _ (resolve_type-KeepsWith no_name scope a st) (λ st1 p. p)
          (λ t st1 p.
            or_return-Ensures _ _ (KeepsWith-subst p (elab_in-KeepsWith no_name scope e st1))
              (λ st2 q. q) (λ node st2 q. Keeps-subst q (add_const-Keeps name scope node st2))))

    elem_in-KeepsWith :
        (scope : ℕ) (used_val : List ℤ) (next_val : ℤ) (e : Option (AstExpr S F)) (st : Elab S F)
        → KeepsWith (trace st) (elem_in no_name ops scope used_val next_val e st)
    unfolding elem_in elem_number
    elem_in-KeepsWith scope used_val next_val none st = Ensures-bind _ _ (λ r. done refl)
    elem_in-KeepsWith scope used_val next_val (some e) st =
        or_null-KeepsWith _ _ (elab_in-KeepsWith no_name scope e st)
          (λ n st1 p. Ensures-bind _ _ (λ r. done p))

    enum_elems-KeepsWith :
        (scope : ℕ) (elems : List (S × Option (AstExpr S F))) (used_val : List ℤ) (next_val : ℤ)
        (elem_list : List (S × ℤ)) (st : Elab S F)
        → KeepsWith (trace st) (enum_elems no_name ops scope elems used_val next_val elem_list st)
    unfolding enum_elems
    enum_elems-KeepsWith scope [] used_val next_val elem_list st = done refl
    enum_elems-KeepsWith scope ((name, e) ∷ elems) used_val next_val elem_list st =
        or_null-KeepsWith _ _ (elem_in-KeepsWith scope used_val next_val e st) (λ (v, next) st1 p.
          Ensures-then _ _
            (Keeps-subst p (add_to_scope-Keeps no_name scope (int_handle name v) st1))
            (λ st2 q. KeepsWith-subst q (enum_elems-KeepsWith scope elems _ next _ st2)))

    add_enum-Keeps :
        (name : S) (scope enum_scope : ℕ) (l : List (S × ℤ)) (st : Elab S F)
        → Keeps (trace st) (add_enum no_name ops name scope enum_scope l st)
    unfolding add_enum
    add_enum-Keeps name scope enum_scope l st =
        let made = new_enum_type st.types name l in
        add_to_scope-Keeps no_name scope (type_handle name made.0 enum_scope)
          (record st { types = made.1 })

    pub reg_enum-Keeps :
        (name : S) (elems : List (S × Option (AstExpr S F))) (scope : ℕ) (st : Elab S F)
        → Keeps (trace st) (reg_enum no_name ops name elems scope st)
    unfolding reg_enum
    reg_enum-Keeps name elems scope st = if_free-Ensures no_name _ name scope st _ refl (
        Ensures-then _ _ (push_scope-KeepsWith no_name (some scope) name st) (λ (enum_scope, st1) p.
          or_return-Ensures _ _
            (KeepsWith-subst p (enum_elems-KeepsWith enum_scope elems [] (pos 0) [] st1))
            (λ st2 q. q) (λ l st2 q. Keeps-subst q (add_enum-Keeps name scope enum_scope l st2))))

  pub param_types-KeepsWith :
      (scope func_scope : ℕ) (ps : List (AstParam S F)) (st : Elab S F)
      → KeepsWith (trace st) (param_types no_name scope func_scope ps st)
  unfolding param_types
  param_types-KeepsWith scope func_scope [] st = done refl
  param_types-KeepsWith scope func_scope (p ∷ ps) st =
      Ensures-bind (check_name no_name p.param_name func_scope st) _ (λ free.
        if-Ensures free _ _
          (or_null-KeepsWith _ _ (resolve_type-KeepsWith no_name scope p.param_type st) (λ t st1 e.
            or_null-KeepsWith _ _
              (KeepsWith-subst e (param_types-KeepsWith scope func_scope ps st1))
              (λ l st2 f. done f)))
          (done refl))

  init_node-KeepsWith :
      (scope : ℕ) (e : Option (AstExpr S F)) (st : Elab S F)
      → KeepsWith (trace st) (init_node no_name scope e st)
  unfolding init_node
  init_node-KeepsWith scope none st = done refl
  init_node-KeepsWith scope (some e) st =
      or_null-KeepsWith _ _ (elab_in-KeepsWith no_name scope e st) (λ n st1 p. done p)

  pub param_handles-KeepsWith :
      (scope func_scope i : ℕ) (ps : List (AstParam S F × ℕ)) (st : Elab S F)
      → KeepsWith (trace st) (param_handles no_name scope func_scope i ps st)
  unfolding param_handles
  param_handles-KeepsWith scope func_scope i [] st = done refl
  param_handles-KeepsWith scope func_scope i ((p, t) ∷ ps) st =
      Ensures-then _ _ (add_to_scope-Keeps no_name func_scope (local_var p.param_name t 0 i) st)
        (λ st1 e.
          or_null-KeepsWith _ _ (KeepsWith-subst e (init_node-KeepsWith scope p.param_expr st1))
            (λ n st2 f.
              or_null-KeepsWith _ _
                (KeepsWith-subst f (param_handles-KeepsWith scope func_scope (i + 1) ps st2))
                (λ (hs, ns) st3 g. done g)))

  pub add_var-KeepsWith :
      (name : S) (t scope b : ℕ) (st : Elab S F)
      → KeepsWith (trace st) (add_var no_name name t scope b st)
  unfolding add_var add_global_var add_local_var
  add_var-KeepsWith name t scope b st =
      let global = global_var name t 0 (next_global_index st) in
      let local = local_var name t 0 (next_local_index b st) in
      Ensures-bind (scope_at no_name st scope) _ (λ s.
        option-Ensures s.global_scope _ _
          (Ensures-then _ _ (add_to_scope-Keeps no_name scope global (add_global_var global st))
            (λ st1 p. done p))
          (λ g.
            Ensures-then _ _ (add_to_scope-Keeps no_name scope local (add_local_var b local st))
              (λ st1 p. done p)))
