-- ===== src/Ir/Elab/Stmt.antt =====
-- Statements (IrMgr::elab_stmt of src/ir/IrMgr_stmt.cc), with the labels of the loop that they are
-- in, and the block that takes their nodes.
use ymsl.Base.{ℕ, Option, none, some, Outcome, ok, fault, undefined, not_reached, ◌>>=◌}
use ymsl.OpCode.{OpCode}
use ymsl.Compiler.ShString.{ShString}
use ymsl.Ir.Ast.{
  AstExpr, AstStatement, block, break_stmt, continue_stmt, null_stmt, import_stmt, toplevel_stmt,
  const_decl, decr, incr, do_while, while_stmt, for_stmt, if_stmt, switch_stmt, enum_decl,
  assignment, inplace_op, expr_stmt, func_decl, goto_stmt, label_stmt, return_stmt, var_decl,
  AstStatements, no_stmts, stmt_and, AstElse, no_else, else_stmt,
}
use ymsl.Ir.Code.{
  Handle, label_handle, Node, store_node, inplace_uni, inplace_bin, return_void, return_value,
  jump_node, branch_true_node, branch_false_node, label_node,
}
use ymsl.Ir.Interp.{FloatOps}
use ymsl.Ir.Elab.{
  Elab, add_node, new_label, set_defined, add_undef, find_in_scope, add_to_scope, push_scope,
}
use ymsl.Ir.Elab.Decl.{or_return, elab_in, primary_in, reg_const, reg_enum}
use ymsl.Ir.Elab.Func.{reg_func, elab_var}

module _ {S F : Type 0} where
  -- A pointer that is asserted not to be NULL.
  abbrev pub asserted :
      Outcome (Option (Node S F) × Elab S F)
      → (Node S F → Elab S F → Outcome (Elab S F))
      → Outcome (Elab S F)
  asserted x next = x >>= λ r. elim r.0 [ none ↦ fault not_reached | some a ↦ next a r.1 ]

  -- A jump to the label of the loop, if there is one.
  unfoldable pub jump_out : Option ℕ → ℕ → Elab S F → Elab S F
  unfolding add_node
  jump_out none b st = st
  jump_out (some l) b st = add_node b (some (jump_node l)) st

  unfoldable pub place : ℕ → ℕ → Elab S F → Elab S F
  unfolding add_node
  place b l st = add_node b (some (label_node l)) st

  unfoldable pub jump_back : ℕ → ℕ → Elab S F → Elab S F
  unfolding add_node
  jump_back b l st = add_node b (some (jump_node l)) st

  module _ ⦃str : ShString S⦄ (no_name : S) where
    -- The handle that is found for the name of a label: where it is one of a label, the node that is
    -- used then was never given a value.
    unfoldable pub label_case :
        Option (Handle S F) → Outcome (Elab S F) → Elab S F → Outcome (Elab S F)
    label_case none fresh st = fresh
    label_case (some (label_handle n l)) fresh st = fault undefined
    label_case (some h) fresh st = ok st

    unfoldable pub elab_goto : S → ℕ → ℕ → Elab S F → Outcome (Elab S F)
    unfolding find_in_scope new_label add_to_scope add_undef jump_back label_case
    elab_goto name scope b st =
        let (l, st1) = new_label st in
        let fresh = add_to_scope no_name scope (label_handle name l) st1 >>= λ st2.
        ok (jump_back b l (add_undef l st2)) in
        find_in_scope no_name st.scopes scope name >>= λ o. label_case o fresh st

    unfoldable pub elab_label : S → ℕ → ℕ → Elab S F → Outcome (Elab S F)
    unfolding find_in_scope new_label add_to_scope set_defined place label_case
    elab_label name scope b st =
        let (l, st1) = new_label st in
        let fresh = add_to_scope no_name scope (label_handle name l) st1 >>= λ st2.
        ok (place b l (set_defined l st2)) in
        find_in_scope no_name st.scopes scope name >>= λ o. label_case o fresh st

    -- kIncr and kDecr.
    unfoldable pub elab_step : OpCode → AstExpr S F → ℕ → ℕ → Elab S F → Outcome (Elab S F)
    unfolding primary_in add_node
    elab_step op e scope b st =
        or_return (primary_in no_name scope e st)
          (λ h st1. ok (add_node b (some (inplace_uni op h)) st1))

    -- The right side is elaborated first.
    unfoldable pub elab_store :
        (Handle S F → Node S F → Node S F)
        → AstExpr S F
        → AstExpr S F
        → ℕ
        → ℕ
        → Elab S F
        → Outcome (Elab S F)
    unfolding elab_in primary_in add_node
    elab_store make lhs e scope b st = or_return (elab_in no_name scope e st) (λ rhs st1.
        or_return (primary_in no_name scope lhs st1)
          (λ h st2. ok (add_node b (some (make h rhs)) st2)))

    -- A NULL value becomes a return without a value.
    unfoldable pub elab_return : Option (AstExpr S F) → ℕ → ℕ → Elab S F → Outcome (Elab S F)
    unfolding elab_in add_node
    elab_return none scope b st = ok (add_node b (some return_void) st)
    elab_return (some e) scope b st = elab_in no_name scope e st >>= λ r.
        ok (add_node b (some (elim r.0 [ none ↦ return_void | some n ↦ return_value n ])) r.1)

    module _ (ops : FloatOps F) where
      -- A switch statement has no `expr()` of its own: the one of AstStatement fails its assertion.
      unfoldable mutual
        unfolding push_scope jump_out place jump_back new_label add_node elab_goto elab_label
            elab_step elab_store elab_return elab_in reg_const reg_enum reg_func elab_var

        pub elab_stmt :
            AstStatement S F → ℕ → Option ℕ → Option ℕ → ℕ → Elab S F → Outcome (Elab S F)
        elab_stmt (block ss) scope s e b st =
            push_scope no_name (some scope) no_name st >>= λ (block_scope, st1).
            elab_stmts ss block_scope s e b st1
        elab_stmt break_stmt scope s e b st = ok (jump_out e b st)
        elab_stmt continue_stmt scope s e b st = ok (jump_out s b st)
        elab_stmt (const_decl name t x) scope s e b st = reg_const no_name ops name t x scope st
        elab_stmt (decr x) scope s e b st = elab_step OpCode.dec x scope b st
        elab_stmt (incr x) scope s e b st = elab_step OpCode.inc x scope b st
        elab_stmt (do_while body x) scope s e b st =
            let (start1, st1) = new_label st in
            let (end1, st2) = new_label st1 in
            elab_stmt body scope (some start1) (some end1) b (place b start1 st2) >>= λ st3.
            asserted (elab_in no_name scope x st3)
              (λ cond st4. ok (place b end1 (add_node b (some (branch_true_node start1 cond)) st4)))
        elab_stmt (while_stmt x body) scope s e b st =
            let (start1, st1) = new_label st in
            asserted (elab_in no_name scope x (place b start1 st1)) (λ cond st2.
              let (end1, st3) = new_label st2 in
              elab_stmt body scope (some start1) (some end1) b
                (add_node b (some (branch_false_node end1 cond)) st3)
              >>= λ st4. ok (place b end1 (jump_back b start1 st4)))
        elab_stmt (for_stmt init x next body) scope s e b st =
            push_scope no_name (some scope) no_name st >>= λ (for_scope, st1).
            elab_stmt init for_scope none none b st1 >>= λ st2.
            let (start1, st3) = new_label st2 in
            let (end1, st4) = new_label (place b start1 st3) in
            asserted (elab_in no_name for_scope x st4) (λ cond st5.
              (elab_stmt body for_scope (some start1) (some end1) b
                  (add_node b (some (branch_false_node end1 cond)) st5)
                >>= λ st6. elab_stmt next for_scope (some start1) (some end1) b st6)
              >>= λ st7. ok (place b end1 (jump_back b start1 st7)))
        elab_stmt (if_stmt x body other) scope s e b st =
            asserted (elab_in no_name scope x st) (λ cond st1.
              let (label1, st2) = new_label st1 in
              let (label2, st3) = new_label st2 in
              elab_stmt body scope s e b (add_node b (some (branch_false_node label1 cond)) st3)
              >>= λ st4.
                  elab_else other scope s e b (place b label1 (jump_back b label2 st4)) >>= λ st5.
                  ok (place b label2 st5))
        elab_stmt (switch_stmt x cases) scope s e b st = fault not_reached
        elab_stmt (enum_decl name elems) scope s e b st = reg_enum no_name ops name elems scope st
        elab_stmt (assignment lhs x) scope s e b st = elab_store store_node lhs x scope b st
        elab_stmt (inplace_op op lhs x) scope s e b st =
            elab_store (inplace_bin op) lhs x scope b st
        elab_stmt (expr_stmt x) scope s e b st =
            elab_in no_name scope x st >>= λ r. ok (add_node b r.0 r.1)
        elab_stmt (func_decl name t params body) scope s e b st =
            reg_func no_name name t params
              (λ func_scope f st1. elab_stmt body func_scope none none f st1) scope st
        elab_stmt (goto_stmt name) scope s e b st = elab_goto name scope b st
        elab_stmt (label_stmt name) scope s e b st = elab_label name scope b st
        elab_stmt null_stmt scope s e b st = ok st
        elab_stmt import_stmt scope s e b st = fault not_reached
        elab_stmt toplevel_stmt scope s e b st = fault not_reached
        elab_stmt (return_stmt x) scope s e b st = elab_return x scope b st
        elab_stmt (var_decl name t x) scope s e b st = elab_var no_name name t x scope b st

        pub elab_stmts :
            AstStatements S F → ℕ → Option ℕ → Option ℕ → ℕ → Elab S F → Outcome (Elab S F)
        elab_stmts no_stmts scope s e b st = ok st
        elab_stmts (stmt_and x xs) scope s e b st =
            elab_stmt x scope s e b st >>= λ st1. elab_stmts xs scope s e b st1

        -- An else part that is not there is a NULL pointer, whose virtual function is called.
        pub elab_else : AstElse S F → ℕ → Option ℕ → Option ℕ → ℕ → Elab S F → Outcome (Elab S F)
        elab_else no_else scope s e b st = fault undefined
        elab_else (else_stmt x) scope s e b st = elab_stmt x scope s e b st
