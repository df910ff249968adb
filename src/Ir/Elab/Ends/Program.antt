-- ===== src/Ir/Elab/Ends/Program.antt =====
-- Statements and programs (IrMgr::elab_stmt of src/ir/IrMgr_stmt.cc, IrMgr::elaborate of
-- src/ir/IrMgr.cc), and the fuel of the elaboration.
use ymsl.Base.{
  ℕ, Bool, true, false, if◌then◌else◌, ◌==◌, Option, none, some, List, [], ◌∷◌, length, ok,
}
use ymsl.Compiler.ShString.{ShString}
use ymsl.OpCode.{OpCode}
use ymsl.Ir.Ast.{
  AstStatement, block, break_stmt, continue_stmt, null_stmt, import_stmt, toplevel_stmt, const_decl,
  decr, incr, do_while, while_stmt, for_stmt, if_stmt, switch_stmt, enum_decl, assignment,
  inplace_op, expr_stmt, func_decl, goto_stmt, label_stmt, return_stmt, var_decl, AstStatements,
  no_stmts, stmt_and, AstElse, no_else, else_stmt,
}
use ymsl.Ir.Interp.{FloatOps}
use ymsl.Ir.Code.{Handle, store_node, inplace_bin}
use ymsl.Ir.Elab.{Elab, FuncCallStub, new_label, add_node}
use ymsl.Ir.Elab.Stmt.{place, jump_back, elab_stmt, elab_stmts, elab_else}
use ymsl.Ir.Elab.Root.{new_toplevel, all_defined, resolve_calls, elaborate}
use ymsl.Ir.Elab.Ends.{
  Ends, returned, Halts, halted, at_undefined, at_not_reached, Ends-then, if-Ends,
}
use ymsl.Ir.Elab.Ends.Scopes.{IsLinked, push_scope-Ends, elab_in-Ends, primary_in-Ends}
use ymsl.Ir.Elab.Ends.Decls.{reg_const-Ends, reg_enum-Ends}
use ymsl.Ir.Elab.Ends.Funcs.{reg_func-Ends, elab_var-Ends}
use ymsl.Ir.Elab.Ends.Steps.{
  asserted-Ends, jump_out-IsLinked, elab_goto-Ends, elab_label-Ends, elab_step-Ends,
  elab_store-Ends, elab_return-Ends,
}

module _ {S F : Type 0} where
  -- The state of a result that is not NULL.
  abbrev pub ResultIsLinked : Option (Elab S F × List (Option (Handle S F))) → Type 0
  ResultIsLinked none = Unit
  ResultIsLinked (some (st, hs)) = IsLinked st

module _ {S F : Type 0} ⦃str : ShString S⦄ (no_name : S) where
  module _ (ops : FloatOps F) where
    mutual
      unfolding elab_stmt elab_stmts elab_else place jump_back new_label add_node

      elab_stmt-Ends :
          (x : AstStatement S F) (scope : ℕ) (s e : Option ℕ) (b : ℕ) (st : Elab S F)
          → IsLinked st
          → Ends IsLinked (elab_stmt no_name ops x scope s e b st)
      elab_stmt-Ends (block ss) scope s e b st l =
          Ends-then _ _ (push_scope-Ends no_name (some scope) no_name st l)
            (λ r l1. elab_stmts-Ends ss r.0 s e b r.1 l1)
      elab_stmt-Ends break_stmt scope s e b st l = returned (jump_out-IsLinked e b st l)
      elab_stmt-Ends continue_stmt scope s e b st l = returned (jump_out-IsLinked s b st l)
      elab_stmt-Ends (const_decl name t x) scope s e b st l =
          reg_const-Ends no_name ops name t x scope st l
      elab_stmt-Ends (decr x) scope s e b st l = elab_step-Ends no_name OpCode.dec x scope b st l
      elab_stmt-Ends (incr x) scope s e b st l = elab_step-Ends no_name OpCode.inc x scope b st l
      elab_stmt-Ends (do_while body x) scope s e b st l =
          Ends-then _ _ (elab_stmt-Ends body scope _ _ b _ l) (λ st3 l3.
            asserted-Ends _ _ (elab_in-Ends no_name scope x st3 l3) (λ cond st4 l4. returned l4))
      elab_stmt-Ends (while_stmt x body) scope s e b st l =
          asserted-Ends _ _ (elab_in-Ends no_name scope x _ l) (λ cond st2 l2.
            Ends-then _ _ (elab_stmt-Ends body scope _ _ b _ l2) (λ st4 l4. returned l4))
      elab_stmt-Ends (for_stmt init x next body) scope s e b st l =
          Ends-then _ _ (push_scope-Ends no_name (some scope) no_name st l) (λ r l1.
            Ends-then _ _ (elab_stmt-Ends init r.0 none none b r.1 l1) (λ st2 l2.
              asserted-Ends _ _ (elab_in-Ends no_name r.0 x _ l2) (λ cond st5 l5.
                Ends-then _ _
                  (Ends-then _ _ (elab_stmt-Ends body r.0 _ _ b _ l5)
                    (λ st6 l6. elab_stmt-Ends next r.0 _ _ b st6 l6))
                  (λ st7 l7. returned l7))))
      elab_stmt-Ends (if_stmt x body other) scope s e b st l =
          asserted-Ends _ _ (elab_in-Ends no_name scope x st l) (λ cond st1 l1.
            Ends-then _ _ (elab_stmt-Ends body scope s e b _ l1) (λ st4 l4.
              Ends-then _ _ (elab_else-Ends other scope s e b _ l4) (λ st5 l5. returned l5)))
      elab_stmt-Ends (switch_stmt x cases) scope s e b st l = at_not_reached
      elab_stmt-Ends (enum_decl name elems) scope s e b st l =
          reg_enum-Ends no_name ops name elems scope st l
      elab_stmt-Ends (assignment lhs x) scope s e b st l =
          elab_store-Ends no_name store_node lhs x scope b st l
      elab_stmt-Ends (inplace_op op lhs x) scope s e b st l =
          elab_store-Ends no_name (inplace_bin op) lhs x scope b st l
      elab_stmt-Ends (expr_stmt x) scope s e b st l =
          Ends-then _ _ (elab_in-Ends no_name scope x st l) (λ r l1. returned l1)
      elab_stmt-Ends (func_decl name t params body) scope s e b st l =
          reg_func-Ends no_name name t params _ scope st
            (λ g f st1 l1. elab_stmt-Ends body g none none f st1 l1) l
      elab_stmt-Ends (goto_stmt name) scope s e b st l = elab_goto-Ends no_name name scope b st l
      elab_stmt-Ends (label_stmt name) scope s e b st l = elab_label-Ends no_name name scope b st l
      elab_stmt-Ends null_stmt scope s e b st l = returned l
      elab_stmt-Ends import_stmt scope s e b st l = at_not_reached
      elab_stmt-Ends toplevel_stmt scope s e b st l = at_not_reached
      elab_stmt-Ends (return_stmt x) scope s e b st l = elab_return-Ends no_name x scope b st l
      elab_stmt-Ends (var_decl name t x) scope s e b st l =
          elab_var-Ends no_name name t x scope b st l

      elab_stmts-Ends :
          (xs : AstStatements S F) (scope : ℕ) (s e : Option ℕ) (b : ℕ) (st : Elab S F)
          → IsLinked st
          → Ends IsLinked (elab_stmts no_name ops xs scope s e b st)
      elab_stmts-Ends no_stmts scope s e b st l = returned l
      elab_stmts-Ends (stmt_and x xs) scope s e b st l =
          Ends-then _ _ (elab_stmt-Ends x scope s e b st l)
            (λ st1 l1. elab_stmts-Ends xs scope s e b st1 l1)

      elab_else-Ends :
          (x : AstElse S F) (scope : ℕ) (s e : Option ℕ) (b : ℕ) (st : Elab S F)
          → IsLinked st
          → Ends IsLinked (elab_else no_name ops x scope s e b st)
      elab_else-Ends no_else scope s e b st l = at_undefined
      elab_else-Ends (else_stmt x) scope s e b st l = elab_stmt-Ends x scope s e b st l

  resolve_calls-Halts :
      (cs : List (FuncCallStub S F)) (st : Elab S F)
      → IsLinked st
      → Halts (resolve_calls no_name cs st)
  unfolding resolve_calls
  resolve_calls-Halts [] st l = halted _
  resolve_calls-Halts (c ∷ cs) st l =
      Ends-then _ _ (primary_in-Ends no_name c.func_scope c.func_expr st l) (λ r _.
        if-Ends (length r.1.func_calls == length st.func_calls) _ _
          (Ends-then _ _ (resolve_calls-Halts cs st l) (λ hs _. halted _)) at_undefined)

  -- The elaboration of a program ends, from a state whose scopes point to older ones only: in a
  -- result, which is NULL or a state, or in a failed assertion or undefined behaviour, but never
  -- because a search through the scopes or for an unused enum value runs out of fuel. The scopes of
  -- the state at the end point to older ones only.
  pub elaborate-Ends :
      (ops : FloatOps F) (ss : AstStatements S F) (name : S) (st : Elab S F)
      → IsLinked st
      → Ends ResultIsLinked (elaborate no_name ops ss name st)
  unfolding elaborate new_toplevel
  elaborate-Ends ops ss name st l =
      Ends-then _ _ (push_scope-Ends no_name none name (new_toplevel st) l) (λ r l1.
        Ends-then _ _ (elab_stmts-Ends ops ss r.0 none none 0 r.1 l1) (λ st2 l2.
          Ends-then _ _ (resolve_calls-Halts st2.func_calls st2 l2)
            (λ hs _. result hs st2 l2 (all_defined st2.undef_list st2.defined))))
    where
      result :
          (hs : List (Option (Handle S F))) (st2 : Elab S F) (l2 : IsLinked st2) (d : Bool)
          → Ends ResultIsLinked (ok (if d then some (st2, hs) else none))
      result hs st2 l2 true = returned l2
      result hs st2 l2 false = returned tt
