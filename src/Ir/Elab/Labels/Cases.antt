-- ===== src/Ir/Elab/Labels/Cases.antt =====
-- The cases of elab_stmt that are no loop and no block (src/ir/IrMgr_stmt.cc).
use ymsl.Base.{
  In, In-left, In-last, ℕ, ◌≡◌, refl, sym, ap, ◌∙◌, subst, arith, Option, none, some, [], ◌∷◌, inl,
  inr, Outcome, ok,
}
use ymsl.OpCode.{OpCode}
use ymsl.Compiler.ShString.{ShString}
use ymsl.Ir.Ast.{AstExpr, AstType}
use ymsl.Ir.Code.{
  Handle, label_handle, Node, store_node, inplace_uni, jump_node, return_void, return_value,
}
use ymsl.Ir.Elab.{Elab, add_node, new_label, add_undef, set_defined, find_in_scope}
use ymsl.Ir.Elab.Func.{var_init, elab_var}
use ymsl.Ir.Elab.Stmt.{
  place, jump_back, jump_out, label_case, elab_goto, elab_label, elab_step, elab_store, elab_return,
}
use ymsl.Ir.Elab.Labels.{Trace, trace, label_of, target_of}
use ymsl.Ir.Elab.Labels.Fit.{
  bump, put_label, put_undef, put_defined, LabelsFit-new, LabelsFit, LabelsFit-pending,
  LabelsFit-undef, LabelsFit-defined,
}
use ymsl.Ir.Elab.Labels.Quiet.{
  Ensures, done, failed, Ensures-then, Ensures-bind, or_return-Ensures, KeepsWith-subst,
  elab_in-KeepsWith, primary_in-KeepsWith, add_to_scope-Keeps, if_free-Ensures,
  resolve_type-KeepsWith,
}
use ymsl.Ir.Elab.Labels.Decls.{add_var-KeepsWith}
use ymsl.Ir.Elab.Labels.Steps.{
  MayAim, Grown, Grown-same, Grown-from, add_node-Grown, add_jump-Grown, place-Grown, trace-place,
}

module _ {S F : Type 0} where
  pub jump_out-Grown :
      {P : ℕ → ℕ → Type 0} (o : Option ℕ) (b : ℕ) (st : Elab S F)
      → LabelsFit P (trace st)
      → MayAim P b (trace st) o
      → Grown P (trace st) (jump_out o b st)
  unfolding jump_out
  jump_out-Grown none b st i m = Grown-same st i refl
  jump_out-Grown (some l) b st i (inl h) =
      add_jump-Grown b l (some (jump_node l)) st refl refl i (inl h)
  jump_out-Grown (some l) b st i (inr h) =
      add_jump-Grown b l (some (jump_node l)) st refl refl i (inr (inr h))

  -- A new label that is placed at once.
  pub start-Grown :
      {P : ℕ → ℕ → Type 0} (b : ℕ) (st : Elab S F)
      → LabelsFit P (trace st)
      → Grown P (trace st) (place b st.label_num (new_label st).1)
  unfolding new_label
  start-Grown {P} b st i =
      Grown-from _ (λ c k h. h)
        (place-Grown {P = P} b st.label_num (new_label st).1 (LabelsFit-pending P (trace st) i b)
          (λ c k h e. omega (arith, e, i.pending_below c k h)))

  -- A node that is neither a label nor a jump, in a state with an unchanged trace.
  abbrev pub IsPlain : Option (Node S F) → Type 0
  IsPlain n = (label_of n ≡ none) × (target_of n ≡ none)

  pub plain-Grown :
      {P : ℕ → ℕ → Type 0} {t : Trace} (n : Option (Node S F)) (b : ℕ) (st : Elab S F)
      → label_of n ≡ none
      → target_of n ≡ none
      → LabelsFit P t
      → trace st ≡ t
      → Grown P t (add_node b n st)
  plain-Grown {P} n b st p q i e =
      Grown-from _ (λ c k h. subst (λ u. In (c, k) u.placed) (sym e) h)
        (add_node-Grown b n st p q (subst (LabelsFit P) (sym e) i))

  module _ ⦃str : ShString S⦄ (no_name : S) where
    -- A name that is new as a label, or is the end of the case.
    label_case-Ensures :
        {Q : Elab S F → Type 0} (o : Option (Handle S F)) (fresh : Outcome (Elab S F))
        (st : Elab S F)
        → Q st
        → Ensures Q fresh
        → Ensures Q (label_case no_name o fresh st)
    unfolding label_case
    label_case-Ensures none fresh st q k = k
    label_case-Ensures (some (label_handle n l)) fresh st q k = failed
    label_case-Ensures (some _) fresh st q k = done q

    pub elab_goto-Grown :
        {P : ℕ → ℕ → Type 0} (name : S) (scope b : ℕ) (st : Elab S F)
        → LabelsFit P (trace st)
        → Ensures (Grown P (trace st)) (elab_goto no_name name scope b st)
    unfolding elab_goto new_label add_undef jump_back
    elab_goto-Grown {P} name scope b st i =
        Ensures-bind (find_in_scope no_name st.scopes scope name) _ (λ o.
          label_case-Ensures o _ st (Grown-same st i refl) (
            Ensures-then _ _
              (add_to_scope-Keeps no_name scope (label_handle name st.label_num) (new_label st).1)
              (λ st2 p.
                let fit =
                  subst (λ u. LabelsFit P (put_undef st.label_num u)) (sym p)
                    (LabelsFit-undef P (trace st) i) in
                done (
                  Grown-from _ (λ c k h. subst (λ u. In (c, k) u.placed) (sym p) h)
                    (add_jump-Grown b st.label_num (some (jump_node st.label_num))
                      (add_undef st.label_num st2) refl refl fit
                      (inr (inl (In-last st.label_num st2.undef_list))))))))

    pub elab_label-Grown :
        {P : ℕ → ℕ → Type 0} (name : S) (scope b : ℕ) (st : Elab S F)
        → LabelsFit P (trace st)
        → Ensures (Grown P (trace st)) (elab_label no_name name scope b st)
    unfolding elab_label new_label set_defined
    elab_label-Grown {P} name scope b st i =
        let l = st.label_num in
        Ensures-bind (find_in_scope no_name st.scopes scope name) _ (λ o.
          label_case-Ensures o _ st (Grown-same st i refl) (
            Ensures-then _ _
              (add_to_scope-Keeps no_name scope (label_handle name l) (new_label st).1)
              (λ st2 p.
                let same : trace (place b l (set_defined l st2))
                    ≡ put_defined l (put_label b l (bump (trace st))) =
                  trace-place b l (set_defined l st2)
                  ∙ ap (λ u. put_label b l (put_defined l u)) p in
                let fit =
                  LabelsFit-defined P _ (LabelsFit-new P (trace st) i b) b l
                    (In-last (b, l) (trace st).placed) in
                done (record {
                  fits = subst (LabelsFit P) (sym same) fit;
                  later = λ c k h.
                      subst (λ u. In (c, k) u.placed) (sym same)
                        (In-left (c, k) (trace st).placed ((b, l) ∷ []) h);
                }))))

    pub elab_step-Grown :
        {P : ℕ → ℕ → Type 0} (op : OpCode) (e : AstExpr S F) (scope b : ℕ) (st : Elab S F)
        → LabelsFit P (trace st)
        → Ensures (Grown P (trace st)) (elab_step no_name op e scope b st)
    unfolding elab_step
    elab_step-Grown {P} op e scope b st i =
        or_return-Ensures _ _ (primary_in-KeepsWith no_name scope e st)
          (λ st1 p. Grown-same st1 i p)
          (λ h st1 p. done (plain-Grown (some (inplace_uni op h)) b st1 refl refl i p))

    pub elab_store-Grown :
        {P : ℕ → ℕ → Type 0} (make : Handle S F → Node S F → Node S F) (lhs e : AstExpr S F)
        (scope b : ℕ) (st : Elab S F)
        → ((h : Handle S F) (n : Node S F) → IsPlain (some (make h n)))
        → LabelsFit P (trace st)
        → Ensures (Grown P (trace st)) (elab_store no_name make lhs e scope b st)
    unfolding elab_store
    elab_store-Grown {P} make lhs e scope b st plain_node i =
        or_return-Ensures _ _ (elab_in-KeepsWith no_name scope e st) (λ st1 p. Grown-same st1 i p)
          (λ n st1 p.
            or_return-Ensures _ _ (KeepsWith-subst p (primary_in-KeepsWith no_name scope lhs st1))
              (λ st2 q. Grown-same st2 i q)
              (λ h st2 q.
                done
                  (plain-Grown (some (make h n)) b st2 (plain_node h n).0 (plain_node h n).1 i q)))

    pub elab_return-Grown :
        {P : ℕ → ℕ → Type 0} (e : Option (AstExpr S F)) (scope b : ℕ) (st : Elab S F)
        → LabelsFit P (trace st)
        → Ensures (Grown P (trace st)) (elab_return no_name e scope b st)
    unfolding elab_return
    elab_return-Grown none scope b st i = done (add_node-Grown b (some return_void) st refl refl i)
    elab_return-Grown {P} (some e) scope b st i =
        Ensures-then _ _ (elab_in-KeepsWith no_name scope e st) (λ (r, st1) p. ended r st1 p)
      where
        ended :
            (r : Option (Node S F)) (st1 : Elab S F)
            → trace st1 ≡ trace st
            → Ensures (Grown P (trace st)) (
                ok
                  (add_node b (some (elim r [ none ↦ return_void | some n ↦ return_value n ])) st1))
        ended none st1 p = done (plain-Grown (some return_void) b st1 refl refl i p)
        ended (some n) st1 p = done (plain-Grown (some (return_value n)) b st1 refl refl i p)

    pub elab_var-Grown :
        {P : ℕ → ℕ → Type 0} (name : S) (a : AstType S F) (e : Option (AstExpr S F)) (scope b : ℕ)
        (st : Elab S F)
        → LabelsFit P (trace st)
        → Ensures (Grown P (trace st)) (elab_var no_name name a e scope b st)
    unfolding elab_var var_init
    elab_var-Grown {P} name a e scope b st i =
        if_free-Ensures no_name _ name scope st _ (Grown-same st i refl) (
          or_return-Ensures _ _ (resolve_type-KeepsWith no_name scope a st)
            (λ st1 p. Grown-same st1 i p)
            (λ t st1 p.
              Ensures-then _ _ (KeepsWith-subst p (add_var-KeepsWith no_name name t scope b st1))
                (λ (h, st2) q. init h e st2 q)))
      where
        init :
            (h : Handle S F) (e : Option (AstExpr S F)) (st2 : Elab S F)
            → trace st2 ≡ trace st
            → Ensures (Grown P (trace st)) (var_init no_name scope b h e st2)
        init h none st2 q = done (Grown-same st2 i q)
        init h (some x) st2 q =
            or_return-Ensures _ _ (KeepsWith-subst q (elab_in-KeepsWith no_name scope x st2))
              (λ st3 r. Grown-same st3 i r)
              (λ n st3 r. done (plain-Grown (some (store_node h n)) b st3 refl refl i r))
