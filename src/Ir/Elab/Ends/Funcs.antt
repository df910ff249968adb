-- ===== src/Ir/Elab/Ends/Funcs.antt =====
-- Functions and variables (IrMgr::reg_func, and the variables of elab_stmt in
-- src/ir/IrMgr_stmt.cc): the fuel, and the links of the scopes.
use ymsl.Base.{ℕ, suc, ◌+◌, Option, none, some, List, [], ◌∷◌, Outcome, ok, ◌>>=◌}
use ymsl.Compiler.ShString.{ShString}
use ymsl.Ir.Ast.{AstExpr, AstType, AstParam}
use ymsl.Ir.Code.{Handle, local_var, global_var, func_handle, Node}
use ymsl.Ir.Elab.{
  Elab, FuncBlock, add_to_scope, check_name, add_function, next_func_index, next_global_index,
  next_local_index, add_local_var, add_global_var, add_node,
}
use ymsl.Ir.Elab.Func.{
  param_types, init_node, param_handles, outer_scope, add_func, reg_func, add_var, var_init,
  elab_var,
}
use ymsl.Ir.Elab.Ends.{Ends, returned, Halts, halted, Ends-then, if-Ends}
use ymsl.Ir.Elab.Ends.Scopes.{
  IsLinked, IsLinkedWith, or_return-Ends, or_null-Ends, scope_at-Ends, add_to_scope-Ends,
  push_scope-Ends, if_free-Ends, elab_in-Ends, resolve_type-Ends,
}

module _ {S F : Type 0} ⦃str : ShString S⦄ (no_name : S) where
  param_types-Ends :
      (scope func_scope : ℕ) (ps : List (AstParam S F)) (st : Elab S F)
      → IsLinked st
      → Ends IsLinkedWith (param_types no_name scope func_scope ps st)
  unfolding param_types check_name
  param_types-Ends scope func_scope [] st l = returned l
  param_types-Ends scope func_scope (p ∷ ps) st l =
      Ends-then (check_name no_name p.param_name func_scope st) _
        (Ends-then _ _ (scope_at-Ends no_name st func_scope) (λ s _. halted _))
        (λ free _.
          if-Ends free _ (ok (none, st))
            (or_null-Ends _ _ (resolve_type-Ends no_name scope p.param_type st l) (λ t st1 l1.
              or_null-Ends _ _ (param_types-Ends scope func_scope ps st1 l1)
                (λ us st2 l2. returned l2)))
            (returned l))

  init_node-Ends :
      (scope : ℕ) (e : Option (AstExpr S F)) (st : Elab S F)
      → IsLinked st
      → Ends IsLinkedWith (init_node no_name scope e st)
  unfolding init_node
  init_node-Ends scope none st l = returned l
  init_node-Ends scope (some e) st l =
      or_null-Ends _ _ (elab_in-Ends no_name scope e st l) (λ n st1 l1. returned l1)

  param_handles-Ends :
      (scope func_scope i : ℕ) (ps : List (AstParam S F × ℕ)) (st : Elab S F)
      → IsLinked st
      → Ends IsLinkedWith (param_handles no_name scope func_scope i ps st)
  unfolding param_handles
  param_handles-Ends scope func_scope i [] st l = returned l
  param_handles-Ends scope func_scope i ((p, t) ∷ ps) st l =
      Ends-then _ _ (add_to_scope-Ends no_name func_scope (local_var p.param_name t 0 i) st l)
        (λ st1 l1. or_null-Ends _ _ (init_node-Ends scope p.param_expr st1 l1) (λ n st2 l2.
          or_null-Ends _ _ (param_handles-Ends scope func_scope (i + 1) ps st2 l2)
            (λ (hs, ns) st3 l3.
              returned {a = (some (local_var p.param_name t 0 i ∷ hs, n ∷ ns), st3)} l3)))

  outer_scope-Halts : (scope : ℕ) (st : Elab S F) → Halts (outer_scope no_name scope st)
  unfolding outer_scope
  outer_scope-Halts scope st = Ends-then _ _ (scope_at-Ends no_name st scope) (λ s _. halted _)

  add_func-Ends :
      (name : S) (scope ftype : ℕ) (body : ℕ → Elab S F → Outcome (Elab S F))
      (args : List (Handle S F) × List (Option (Node S F))) (st : Elab S F)
      → ((f : ℕ) (st1 : Elab S F) → IsLinked st1 → Ends IsLinked (body f st1))
      → IsLinked st
      → Ends IsLinked (add_func no_name name scope ftype body args st)
  unfolding add_func add_function
  add_func-Ends name scope ftype body (args, inits) st k l =
      let h = func_handle name ftype 0 (next_func_index st) in
      let f : FuncBlock S F = record {
        arg_list = args;
        arg_init_list = inits;
        func_handle_of = h;
      } in
      Ends-then (add_to_scope no_name scope h st)
        (λ st1. body (suc (next_func_index st)) (add_function f st1))
        (add_to_scope-Ends no_name scope h st l)
        (λ st1 l1. k (suc (next_func_index st)) (add_function f st1) l1)

  -- The function is registered where its body can be.
  pub reg_func-Ends :
      (name : S) (t : AstType S F) (ps : List (AstParam S F))
      (body : ℕ → ℕ → Elab S F → Outcome (Elab S F)) (scope : ℕ) (st : Elab S F)
      → ((g f : ℕ) (st1 : Elab S F) → IsLinked st1 → Ends IsLinked (body g f st1))
      → IsLinked st
      → Ends IsLinked (reg_func no_name name t ps body scope st)
  unfolding reg_func
  reg_func-Ends name t ps body scope st k l = if_free-Ends no_name name scope st _ l (
      Ends-then _ _ (outer_scope-Halts scope st) (λ g _.
        Ends-then _ _ (push_scope-Ends no_name (some g) no_name st l) (λ r l1.
          or_return-Ends _ _ (resolve_type-Ends no_name scope t r.1 l1) (λ output st2 l2.
            or_return-Ends _ _ (param_types-Ends scope r.0 ps st2 l2) (λ us st3 l3.
              or_return-Ends _ _ (param_handles-Ends scope r.0 0 us _ l3)
                (λ args st4 l4. add_func-Ends name scope _ (body r.0) args st4 (k r.0) l4))))))

  add_var-Ends :
      (name : S) (t scope b : ℕ) (st : Elab S F)
      → IsLinked st
      → Ends IsLinkedWith (add_var no_name name t scope b st)
  unfolding add_var add_global_var add_local_var
  add_var-Ends name t scope b st l =
      Ends-then _ _ (scope_at-Ends no_name st scope) (λ s _. put s.global_scope)
    where
      put_in :
          (h : Handle S F) (st1 : Elab S F)
          → IsLinked st1
          → Ends IsLinkedWith (add_to_scope no_name scope h st1 >>= λ st2. ok (h, st2))
      put_in h st1 l1 =
          Ends-then _ _ (add_to_scope-Ends no_name scope h st1 l1)
            (λ st2 l2. returned {a = (h, st2)} l2)

      put :
          (o : Option ℕ)
          → Ends IsLinkedWith (elim o [
            | none ↦
                let h = global_var name t 0 (next_global_index st) in
                add_to_scope no_name scope h (add_global_var h st) >>= λ st2. ok (h, st2)
            | some g ↦
                let h = local_var name t 0 (next_local_index b st) in
                add_to_scope no_name scope h (add_local_var b h st) >>= λ st2. ok (h, st2)
          ])
      put none =
          let h = global_var name t 0 (next_global_index st) in put_in h (add_global_var h st) l
      put (some g) =
          let h = local_var name t 0 (next_local_index b st) in put_in h (add_local_var b h st) l

  var_init-Ends :
      (scope b : ℕ) (h : Handle S F) (e : Option (AstExpr S F)) (st : Elab S F)
      → IsLinked st
      → Ends IsLinked (var_init no_name scope b h e st)
  unfolding var_init add_node
  var_init-Ends scope b h none st l = returned l
  var_init-Ends scope b h (some e) st l =
      or_return-Ends _ _ (elab_in-Ends no_name scope e st l) (λ n st1 l1. returned l1)

  pub elab_var-Ends :
      (name : S) (t : AstType S F) (e : Option (AstExpr S F)) (scope b : ℕ) (st : Elab S F)
      → IsLinked st
      → Ends IsLinked (elab_var no_name name t e scope b st)
  unfolding elab_var
  elab_var-Ends name t e scope b st l = if_free-Ends no_name name scope st _ l (
      or_return-Ends _ _ (resolve_type-Ends no_name scope t st l) (λ u st1 l1.
        Ends-then _ _ (add_var-Ends name u scope b st1 l1)
          (λ r l2. var_init-Ends scope b r.0 e r.1 l2)))
