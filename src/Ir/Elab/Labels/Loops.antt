-- ===== src/Ir/Elab/Labels/Loops.antt =====
-- Functions and loops, from what is known of their bodies (reg_func and the loops of elab_stmt,
-- src/ir/IrMgr_stmt.cc).
use ymsl.Base.{In, ℕ, suc, ◌≡◌, refl, Option, some, List, inl, inr, map, Outcome, ok, ◌>>=◌}
use ymsl.Compiler.ShString.{ShString}
use ymsl.Compiler.TypeMgr.{get_function_type}
use ymsl.Ir.Ast.{AstType, AstParam}
use ymsl.Ir.Code.{Handle, func_handle, Node, jump_node, branch_false_node}
use ymsl.Ir.Elab.{Elab, FuncBlock, add_node, add_function, next_func_index}
use ymsl.Ir.Elab.Decl.{or_return}
use ymsl.Ir.Elab.Func.{outer_scope, param_handles, add_func, reg_func}
use ymsl.Ir.Elab.Stmt.{place, jump_back}
use ymsl.Ir.Elab.Labels.{Trace, trace}
use ymsl.Ir.Elab.Labels.Fit.{With, LabelsFit}
use ymsl.Ir.Elab.Labels.Quiet.{
  Ensures, done, Ensures-then, Ensures-bind, or_return-Ensures, KeepsWith-subst, add_to_scope-Keeps,
  push_scope-KeepsWith, if_free-Ensures, resolve_type-KeepsWith,
}
use ymsl.Ir.Elab.Labels.Decls.{param_types-KeepsWith, param_handles-KeepsWith}
use ymsl.Ir.Elab.Labels.Steps.{Grown, Grown-same, Ensures-resume, add_jump-Grown, place-Grown}

-- The pending labels in another form.
pub LabelsFit-iff :
    (P Q : ℕ → ℕ → Type 0) (t : Trace)
    → ((b l : ℕ) → P b l → Q b l)
    → ((b l : ℕ) → Q b l → P b l)
    → LabelsFit P t
    → LabelsFit Q t
LabelsFit-iff P Q t f g i = record {
  below = i.below;
  once = i.once;
  aimed = λ b l h. elim (i.aimed b l h) [
    | inl k ↦ inl k
    | inr (inl k) ↦ inr (inl k)
    | inr (inr k) ↦ inr (inr (f b l k))
  ];
  undef_below = i.undef_below;
  undef_unplaced = i.undef_unplaced;
  pending_below = λ b l h. i.pending_below b l (g b l h);
  pending_unplaced = λ b l c h. i.pending_unplaced b l c (g b l h);
  pending_undef = λ b l h. i.pending_undef b l (g b l h);
  defined_placed = i.defined_placed;
}

pub LabelsFit-swap :
    (P : ℕ → ℕ → Type 0) (t : Trace) (b l c k : ℕ)
    → LabelsFit (With (With P b l) c k) t
    → LabelsFit (With (With P c k) b l) t
LabelsFit-swap P t b l c k =
    LabelsFit-iff (With (With P b l) c k) (With (With P c k) b l) t (swapped b l c k)
      (swapped c k b l)
  where
    swapped : (b l c k d m : ℕ) → With (With P b l) c k d m → With (With P c k) b l d m
    swapped b l c k d m (inl (inl h)) = inl (inl h)
    swapped b l c k d m (inl (inr h)) = inr h
    swapped b l c k d m (inr h) = inl (inr h)

module _ {S F : Type 0} where
  -- The end of a loop whose condition is in front: the branch out of it, the body, the jump back to
  -- its start, which is placed, and the label behind it.
  pub loop-Grown :
      {P : ℕ → ℕ → Type 0} (b start1 end1 : ℕ) (cond : Node S F)
      (run : Elab S F → Outcome (Elab S F)) (st : Elab S F)
      → In (b, start1) (trace st).placed
      → LabelsFit (With P b end1) (trace st)
      → ((c k : ℕ) → P c k → k ≡ end1 → ⊥)
      → ((u : Elab S F)
          → LabelsFit (With P b end1) (trace u)
          → In (b, start1) (trace u).placed
          → Ensures (Grown (With P b end1) (trace u)) (run u))
      → Ensures (Grown P (trace st)) (
          run (add_node b (some (branch_false_node end1 cond)) st) >>= λ u.
          ok (place b end1 (jump_back b start1 u)))
  unfolding jump_back
  loop-Grown {P} b start1 end1 cond run st h i other body =
      let g =
        add_jump-Grown b end1 (some (branch_false_node end1 cond)) st refl refl i
          (inr (inr (inr (refl, refl)))) in
      Ensures-then _ _ (body _ g.fits (g.later b start1 h)) (λ u k.
        let j =
          add_jump-Grown b start1 (some (jump_node start1)) u refl refl k.fits
            (inl (k.later b start1 (g.later b start1 h))) in
        let q = place-Grown {P = P} b end1 (jump_back b start1 u) j.fits other in
        done (record {
          fits = q.fits;
          later = λ c l m. q.later c l (j.later c l (k.later c l (g.later c l m)));
        }))

  module _ ⦃str : ShString S⦄ (no_name : S) where
    add_func-Grown :
        {P : ℕ → ℕ → Type 0} (name : S) (scope ftype : ℕ) (run : ℕ → Elab S F → Outcome (Elab S F))
        (a : List (Handle S F) × List (Option (Node S F))) (st : Elab S F)
        → ((f : ℕ) (u : Elab S F) → LabelsFit P (trace u) → Ensures (Grown P (trace u)) (run f u))
        → LabelsFit P (trace st)
        → Ensures (Grown P (trace st)) (add_func no_name name scope ftype run a st)
    unfolding add_func add_function
    add_func-Grown {P} name scope ftype run (args, inits) st body i =
        let h = func_handle name ftype 0 (next_func_index st) in
        let f : FuncBlock S F = record {
          arg_list = args;
          arg_init_list = inits;
          func_handle_of = h;
        } in
        Ensures-then _ _ (add_to_scope-Keeps no_name scope h st) (λ st1 p.
          Ensures-resume (add_function f st1) _ p i
            (body (suc (next_func_index st)) (add_function f st1)))

    pub reg_func-Grown :
        {P : ℕ → ℕ → Type 0} (name : S) (a : AstType S F) (params : List (AstParam S F))
        (run : ℕ → ℕ → Elab S F → Outcome (Elab S F)) (scope : ℕ) (st : Elab S F)
        → ((s f : ℕ) (u : Elab S F)
            → LabelsFit P (trace u)
            → Ensures (Grown P (trace u)) (run s f u))
        → LabelsFit P (trace st)
        → Ensures (Grown P (trace st)) (reg_func no_name name a params run scope st)
    unfolding reg_func
    reg_func-Grown {P} name a params run scope st body i =
        if_free-Ensures no_name _ name scope st _ (Grown-same st i refl) (
          Ensures-bind (outer_scope no_name scope st) _ (λ g.
            Ensures-then _ _ (push_scope-KeepsWith no_name (some g) no_name st) (λ (s, st1) p.
              or_return-Ensures _ _ (KeepsWith-subst p (resolve_type-KeepsWith no_name scope a st1))
                (λ st2 q. Grown-same st2 i q)
                (λ output st2 q.
                  or_return-Ensures _ _
                    (KeepsWith-subst q (param_types-KeepsWith no_name scope s params st2))
                    (λ st3 r. Grown-same st3 i r) (λ ps st3 r. rest s output ps st3 r)))))
      where
        after_params : ℕ → ℕ → List (AstParam S F × ℕ) → Elab S F → Outcome (Elab S F)
        after_params s output ps st3 =
            let made = get_function_type st3.types output (map (λ p. p.1) ps) in
            or_return (param_handles no_name scope s 0 ps (record st3 { types = made.1 }))
              (add_func no_name name scope made.0 (run s))

        rest :
            (s output : ℕ) (ps : List (AstParam S F × ℕ)) (st3 : Elab S F)
            → trace st3 ≡ trace st
            → Ensures (Grown P (trace st)) (after_params s output ps st3)
        rest s output ps st3 r =
            let made = get_function_type st3.types output (map (λ p. p.1) ps) in
            or_return-Ensures _ _
              (KeepsWith-subst r
                (param_handles-KeepsWith no_name scope s 0 ps (record st3 { types = made.1 })))
              (λ st4 u. Grown-same st4 i u)
              (λ hs st4 u.
                Ensures-resume st4 _ u i (add_func-Grown name scope made.0 (run s) hs st4 (body s)))
