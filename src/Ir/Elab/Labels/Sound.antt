-- ===== src/Ir/Elab/Labels/Sound.antt =====
-- Every statement keeps the invariant of the labels and jumps (IrMgr::elab_stmt of
-- src/ir/IrMgr_stmt.cc).
use ymsl.Base.{In, ℕ, ◌+◌, ◌≡◌, refl, sym, subst, arith, Option, none, some, inl, inr}
use ymsl.OpCode.{OpCode}
use ymsl.Compiler.ShString.{ShString}
use ymsl.Ir.Ast.{
  AstStatement, block, break_stmt, continue_stmt, null_stmt, import_stmt, toplevel_stmt, const_decl,
  decr, incr, do_while, while_stmt, for_stmt, if_stmt, switch_stmt, enum_decl, assignment,
  inplace_op, expr_stmt, func_decl, goto_stmt, label_stmt, return_stmt, var_decl, AstStatements,
  no_stmts, stmt_and, AstElse, no_else, else_stmt,
}
use ymsl.Ir.Code.{store_node, inplace_bin}
use ymsl.Ir.Interp.{FloatOps}
use ymsl.Ir.Elab.{Elab, new_label}
use ymsl.Ir.Elab.Decl.{elab_in}
use ymsl.Ir.Elab.Stmt.{place, elab_stmt, elab_stmts, elab_else}
use ymsl.Ir.Elab.Labels.{Trace, trace}
use ymsl.Ir.Elab.Labels.Fit.{With, LabelsFit, LabelsFit-pending}
use ymsl.Ir.Elab.Labels.Quiet.{
  Ensures, done, failed, Ensures-then, elab_in-KeepsWith, push_scope-KeepsWith,
}
use ymsl.Ir.Elab.Labels.Decls.{reg_const-Keeps, reg_enum-Keeps}
use ymsl.Ir.Elab.Labels.Steps.{
  MayAim, MayAim-Later, Grown, Grown-same, Ensures-from, Ensures-resume, Keeps-Grown,
  asserted-Ensures, In-place,
}
use ymsl.Ir.Elab.Labels.Cases.{
  jump_out-Grown, start-Grown, plain-Grown, elab_goto-Grown, elab_label-Grown, elab_step-Grown,
  elab_store-Grown, elab_return-Grown, elab_var-Grown,
}
use ymsl.Ir.Elab.Labels.Exprs.{elab_in-IsPlain}
use ymsl.Ir.Elab.Labels.Loops.{loop-Grown, reg_func-Grown}
use ymsl.Ir.Elab.Labels.Branches.{if-Grown, do_while-Grown, for-Grown}

same_aim :
    (P : ℕ → ℕ → Type 0) (b : ℕ) {t u : Trace} (o : Option ℕ)
    → u ≡ t
    → MayAim P b t o
    → MayAim P b u o
same_aim P b o e m = subst (λ v. MayAim P b v o) (sym e) m

module _ {S F : Type 0} ⦃str : ShString S⦄ (no_name : S) (ops : FloatOps F) where
  mutual
    unfolding elab_stmt elab_stmts elab_else new_label

    -- A statement, elaborated in a block with the labels of the loop around it.
    pub elab_stmt-Grown :
        (P : ℕ → ℕ → Type 0) (x : AstStatement S F) (scope : ℕ) (s e : Option ℕ) (b : ℕ)
        (st : Elab S F)
        → LabelsFit P (trace st)
        → MayAim P b (trace st) s
        → MayAim P b (trace st) e
        → Ensures (Grown P (trace st)) (elab_stmt no_name ops x scope s e b st)
    elab_stmt-Grown P (block ss) scope s e b st i ms me =
        Ensures-then _ _ (push_scope-KeepsWith no_name (some scope) no_name st) (λ (c, st1) p.
          Ensures-resume st1 _ p i
            (λ j. elab_stmts-Grown P ss c s e b st1 j (same_aim P b s p ms) (same_aim P b e p me)))
    elab_stmt-Grown P break_stmt scope s e b st i ms me = done (jump_out-Grown e b st i me)
    elab_stmt-Grown P continue_stmt scope s e b st i ms me = done (jump_out-Grown s b st i ms)
    elab_stmt-Grown P (const_decl name t x) scope s e b st i ms me =
        Keeps-Grown _ i (reg_const-Keeps no_name ops name t x scope st)
    elab_stmt-Grown P (decr x) scope s e b st i ms me =
        elab_step-Grown no_name OpCode.dec x scope b st i
    elab_stmt-Grown P (incr x) scope s e b st i ms me =
        elab_step-Grown no_name OpCode.inc x scope b st i
    elab_stmt-Grown P (do_while body x) scope s e b st i ms me =
        do_while-Grown b
          (λ u. elab_stmt no_name ops body scope (some st.label_num) (some (st.label_num + 1)) b u)
          (λ u. elab_in no_name scope x u) st
          (λ Q u j a c.
            elab_stmt-Grown Q body scope (some st.label_num) (some (st.label_num + 1)) b u j a c)
          (λ u. elab_in-KeepsWith no_name scope x u) i
    elab_stmt-Grown P (while_stmt x body) scope s e b st i ms me =
        let g = start-Grown b st i in
        let st1 = place b st.label_num (new_label st).1 in
        Ensures-from _ g.later (
          asserted-Ensures _ _ (elab_in-KeepsWith no_name scope x st1) (λ cond st2 p.
            Ensures-resume st2 _ p g.fits (λ j.
              let h : In (b, st.label_num) (trace st2).placed =
                subst (λ u. In (b, st.label_num) u.placed) (sym p)
                  (In-place b st.label_num (new_label st).1) in
              Ensures-from _ (λ c l k. k)
                (loop-Grown b st.label_num st2.label_num cond
                  (λ u.
                    elab_stmt no_name ops body scope (some st.label_num) (some st2.label_num) b u)
                  (new_label st2).1 h (LabelsFit-pending P (trace st2) j b)
                  (λ c k q r. omega (arith, r, j.pending_below c k q))
                  (λ u fit start.
                    elab_stmt-Grown (With P b st2.label_num) body scope (some st.label_num)
                      (some st2.label_num) b u fit (inl start) (inr (inr (refl, refl))))))))
    elab_stmt-Grown P (for_stmt init x next body) scope s e b st i ms me =
        Ensures-then _ _ (push_scope-KeepsWith no_name (some scope) no_name st) (λ (c, st1) p.
          Ensures-resume st1 _ p i (λ j.
            Ensures-then _ _ (elab_stmt-Grown P init c none none b st1 j tt tt) (λ st2 g2.
              Ensures-from _ g2.later (
                for-Grown b
                  (λ u.
                    elab_stmt no_name ops body c (some st2.label_num) (some (st2.label_num + 1)) b
                      u)
                  (λ u.
                    elab_stmt no_name ops next c (some st2.label_num) (some (st2.label_num + 1)) b
                      u)
                  (λ u. elab_in no_name c x u) st2
                  (λ Q u k y z.
                    elab_stmt-Grown Q body c (some st2.label_num) (some (st2.label_num + 1)) b u k y
                      z)
                  (λ Q u k y z.
                    elab_stmt-Grown Q next c (some st2.label_num) (some (st2.label_num + 1)) b u k y
                      z)
                  (λ u. elab_in-KeepsWith no_name c x u) g2.fits))))
    elab_stmt-Grown P (if_stmt x body other) scope s e b st i ms me =
        asserted-Ensures _ _ (elab_in-KeepsWith no_name scope x st) (λ cond st1 p.
          Ensures-resume st1 _ p i (λ j.
            if-Grown b s e cond (λ u. elab_stmt no_name ops body scope s e b u)
              (λ u. elab_else no_name ops other scope s e b u) st1
              (λ Q u k a c. elab_stmt-Grown Q body scope s e b u k a c)
              (λ Q u k a c. elab_else-Grown Q other scope s e b u k a c) j (same_aim P b s p ms)
              (same_aim P b e p me)))
    elab_stmt-Grown P (switch_stmt x cases) scope s e b st i ms me = failed
    elab_stmt-Grown P (enum_decl name elems) scope s e b st i ms me =
        Keeps-Grown _ i (reg_enum-Keeps no_name ops name elems scope st)
    elab_stmt-Grown P (assignment lhs x) scope s e b st i ms me =
        elab_store-Grown no_name store_node lhs x scope b st (λ h n. (refl, refl)) i
    elab_stmt-Grown P (inplace_op op lhs x) scope s e b st i ms me =
        elab_store-Grown no_name (inplace_bin op) lhs x scope b st (λ h n. (refl, refl)) i
    elab_stmt-Grown P (expr_stmt x) scope s e b st i ms me =
        Ensures-then _ _ (elab_in-IsPlain no_name scope x st)
          (λ (r, st1) ((p, q), w). done (plain-Grown r b st1 p q i w))
    elab_stmt-Grown P (func_decl name t params body) scope s e b st i ms me =
        reg_func-Grown no_name name t params (λ c f u. elab_stmt no_name ops body c none none f u)
          scope st (λ c f u j. elab_stmt-Grown P body c none none f u j tt tt) i
    elab_stmt-Grown P (goto_stmt name) scope s e b st i ms me =
        elab_goto-Grown no_name name scope b st i
    elab_stmt-Grown P (label_stmt name) scope s e b st i ms me =
        elab_label-Grown no_name name scope b st i
    elab_stmt-Grown P null_stmt scope s e b st i ms me = done (Grown-same st i refl)
    elab_stmt-Grown P import_stmt scope s e b st i ms me = failed
    elab_stmt-Grown P toplevel_stmt scope s e b st i ms me = failed
    elab_stmt-Grown P (return_stmt x) scope s e b st i ms me =
        elab_return-Grown no_name x scope b st i
    elab_stmt-Grown P (var_decl name t x) scope s e b st i ms me =
        elab_var-Grown no_name name t x scope b st i

    pub elab_stmts-Grown :
        (P : ℕ → ℕ → Type 0) (xs : AstStatements S F) (scope : ℕ) (s e : Option ℕ) (b : ℕ)
        (st : Elab S F)
        → LabelsFit P (trace st)
        → MayAim P b (trace st) s
        → MayAim P b (trace st) e
        → Ensures (Grown P (trace st)) (elab_stmts no_name ops xs scope s e b st)
    elab_stmts-Grown P no_stmts scope s e b st i ms me = done (Grown-same st i refl)
    elab_stmts-Grown P (stmt_and x xs) scope s e b st i ms me =
        Ensures-then _ _ (elab_stmt-Grown P x scope s e b st i ms me) (λ st1 g.
          Ensures-from _ g.later (
            elab_stmts-Grown P xs scope s e b st1 g.fits
              (MayAim-Later P P b (trace st) (trace st1) s (λ c l h. h) g.later ms)
              (MayAim-Later P P b (trace st) (trace st1) e (λ c l h. h) g.later me)))

    elab_else-Grown :
        (P : ℕ → ℕ → Type 0) (x : AstElse S F) (scope : ℕ) (s e : Option ℕ) (b : ℕ) (st : Elab S F)
        → LabelsFit P (trace st)
        → MayAim P b (trace st) s
        → MayAim P b (trace st) e
        → Ensures (Grown P (trace st)) (elab_else no_name ops x scope s e b st)
    elab_else-Grown P no_else scope s e b st i ms me = failed
    elab_else-Grown P (else_stmt x) scope s e b st i ms me =
        elab_stmt-Grown P x scope s e b st i ms me
