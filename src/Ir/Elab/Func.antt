-- ===== src/Ir/Elab/Func.antt =====
-- Functions and variables (reg_func and the case of a variable declaration in elab_stmt,
-- src/ir/IrMgr_stmt.cc).
use ymsl.Base.{
  ℕ, suc, ◌+◌, if◌then◌else◌, Option, none, some, List, [], ◌∷◌, map, Outcome, ok, ◌>>=◌,
}
use ymsl.Compiler.ShString.{ShString}
use ymsl.Compiler.TypeMgr.{get_function_type}
use ymsl.Ir.Ast.{AstExpr, AstType, AstParam}
use ymsl.Ir.Code.{Handle, global_var, local_var, func_handle, Node, store_node}
use ymsl.Ir.Elab.{
  Elab, FuncBlock, add_node, next_local_index, add_local_var, next_global_index, add_global_var,
  next_func_index, add_function, scope_at, add_to_scope, push_scope, check_name,
}
use ymsl.Ir.Elab.Decl.{or_return, or_null, if_free, elab_in, resolve_type}

module _ {S F : Type 0} ⦃str : ShString S⦄ (no_name : S) where
  -- The first loop over the parameters: a name must be new in the scope of the function, which has
  -- none of them yet.
  unfoldable pub param_types :
      ℕ → ℕ → List (AstParam S F) → Elab S F → Outcome (Option (List (AstParam S F × ℕ)) × Elab S F)
  unfolding check_name resolve_type
  param_types scope func_scope [] st = ok (some [], st)
  param_types scope func_scope (p ∷ ps) st =
      let rest = or_null (resolve_type no_name scope p.param_type st) (λ t st1.
        or_null (param_types scope func_scope ps st1) (λ l st2. ok (some ((p, t) ∷ l), st2))) in
      check_name no_name p.param_name func_scope st >>= λ free. if free then rest else ok (none, st)

  -- The default value of a parameter.
  unfoldable pub init_node :
      ℕ → Option (AstExpr S F) → Elab S F → Outcome (Option (Option (Node S F)) × Elab S F)
  unfolding elab_in
  init_node scope none st = ok (some none, st)
  init_node scope (some e) st =
      or_null (elab_in no_name scope e st) (λ n st1. ok (some (some n), st1))

  -- The second loop, from the parameter `i` on: the handles, and the default values.
  unfoldable pub param_handles :
      ℕ
      → ℕ
      → ℕ
      → List (AstParam S F × ℕ)
      → Elab S F
      → Outcome (Option (List (Handle S F) × List (Option (Node S F))) × Elab S F)
  unfolding add_to_scope init_node
  param_handles scope func_scope i [] st = ok (some ([], []), st)
  param_handles scope func_scope i ((p, t) ∷ ps) st =
      let h = local_var p.param_name t 0 i in
      add_to_scope no_name func_scope h st >>= λ st1.
      or_null (init_node scope p.param_expr st1) (λ n st2.
        or_null (param_handles scope func_scope (i + 1) ps st2)
          (λ (hs, ns) st3. ok (some (h ∷ hs, n ∷ ns), st3)))

  -- The scope that the scope of a function is in.
  unfoldable pub outer_scope : ℕ → Elab S F → Outcome ℕ
  unfolding scope_at
  outer_scope scope st = do
    s ← scope_at no_name st scope
    ok (elim s.global_scope [ none ↦ scope | some g ↦ g ])

  -- The function behind its parameters; `body` elaborates its statement in a block.
  unfoldable pub add_func :
      S
      → ℕ
      → ℕ
      → (ℕ → Elab S F → Outcome (Elab S F))
      → List (Handle S F) × List (Option (Node S F))
      → Elab S F
      → Outcome (Elab S F)
  unfolding next_func_index add_to_scope add_function
  add_func name scope ftype body (args, inits) st =
      let h = func_handle name ftype 0 (next_func_index st) in
      let f : FuncBlock S F = record {
        arg_list = args;
        arg_init_list = inits;
        func_handle_of = h;
      } in
      add_to_scope no_name scope h st >>= λ st1.
      body (suc (next_func_index st)) (add_function f st1)

  -- IrMgr::reg_func; `body` elaborates the statement of the function in a scope and a block.
  unfoldable pub reg_func :
      S
      → AstType S F
      → List (AstParam S F)
      → (ℕ → ℕ → Elab S F → Outcome (Elab S F))
      → ℕ
      → Elab S F
      → Outcome (Elab S F)
  unfolding check_name outer_scope push_scope resolve_type param_types get_function_type
      param_handles add_func
  reg_func name ast_type params body scope st = if_free no_name name scope st (
      outer_scope scope st >>= λ g. push_scope no_name (some g) no_name st >>= λ (func_scope, st1).
      or_return (resolve_type no_name scope ast_type st1) (λ output st2.
        or_return (param_types scope func_scope params st2) (λ ps st3.
          let made = get_function_type st3.types output (map (λ p. p.1) ps) in
          or_return (param_handles scope func_scope 0 ps (record st3 { types = made.1 }))
            (add_func name scope made.0 (body func_scope)))))

  -- The variable is global in a scope that has no global scope.
  unfoldable pub add_var : S → ℕ → ℕ → ℕ → Elab S F → Outcome (Handle S F × Elab S F)
  unfolding scope_at next_global_index add_global_var next_local_index add_local_var add_to_scope
  add_var name t scope b st =
      let global = global_var name t 0 (next_global_index st) in
      let local = local_var name t 0 (next_local_index b st) in
      let put : Handle S F → Elab S F → Outcome (Handle S F × Elab S F) =
        λ h st1. add_to_scope no_name scope h st1 >>= λ st2. ok (h, st2) in
      scope_at no_name st scope >>= λ s. elim s.global_scope [
        | none ↦ put global (add_global_var global st)
        | some g ↦ put local (add_local_var b local st)
      ]

  unfoldable pub var_init :
      ℕ → ℕ → Handle S F → Option (AstExpr S F) → Elab S F → Outcome (Elab S F)
  unfolding elab_in add_node
  var_init scope b h none st = ok st
  var_init scope b h (some e) st =
      or_return (elab_in no_name scope e st) (λ n st1. ok (add_node b (some (store_node h n)) st1))

  unfoldable pub elab_var :
      S → AstType S F → Option (AstExpr S F) → ℕ → ℕ → Elab S F → Outcome (Elab S F)
  unfolding check_name resolve_type add_var var_init
  elab_var name ast_type e scope b st = if_free no_name name scope st (
      or_return (resolve_type no_name scope ast_type st)
        (λ t st1. add_var name t scope b st1 >>= λ (h, st2). var_init scope b h e st2))
