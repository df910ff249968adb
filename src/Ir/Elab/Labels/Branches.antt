-- ===== src/Ir/Elab/Labels/Branches.antt =====
-- Conditionals and the loop whose condition is behind its body, from what is known of their parts
-- (elab_stmt of src/ir/IrMgr_stmt.cc).
use ymsl.Base.{In, ℕ, ◌≡◌, refl, sym, subst, arith, Option, some, inl, inr, Outcome, ok, ◌>>=◌}
use ymsl.Ir.Code.{Node, jump_node, branch_true_node, branch_false_node}
use ymsl.Ir.Elab.{Elab, add_node, new_label}
use ymsl.Ir.Elab.Stmt.{asserted, place, jump_back}
use ymsl.Ir.Elab.Labels.{trace}
use ymsl.Ir.Elab.Labels.Fit.{With, LabelsFit, LabelsFit-pending}
use ymsl.Ir.Elab.Labels.Quiet.{Ensures, done, Ensures-then, KeepsWith}
use ymsl.Ir.Elab.Labels.Steps.{
  Later, MayAim, MayAim-Later, Ensures-from, Grown, asserted-Ensures, add_jump-Grown, place-Grown,
  In-place,
}
use ymsl.Ir.Elab.Labels.Loops.{LabelsFit-swap, loop-Grown}
use ymsl.Ir.Elab.Labels.Cases.{start-Grown}

module _ {S F : Type 0} where
  -- A part that keeps the invariant, whatever labels are to be placed, if it may go to two labels.
  abbrev pub Sound : ℕ → Option ℕ → Option ℕ → (Elab S F → Outcome (Elab S F)) → Type 1
  Sound b s e run =
      (P : ℕ → ℕ → Type 0) (u : Elab S F)
      → LabelsFit P (trace u)
      → MayAim P b (trace u) s
      → MayAim P b (trace u) e
      → Ensures (Grown P (trace u)) (run u)

  -- Two new labels, to be placed in the same block.
  abbrev two : Elab S F → Elab S F
  two st = (new_label (new_label st).1).1

  abbrev second : Elab S F → ℕ
  second st = (new_label (new_label st).1).0

  two-Fits :
      {P : ℕ → ℕ → Type 0} (b : ℕ) (st : Elab S F)
      → LabelsFit P (trace st)
      → LabelsFit (With (With P b st.label_num) b (second st)) (trace (two st))
  unfolding new_label
  two-Fits {P} b st i =
      LabelsFit-pending (With P b st.label_num) (trace (new_label st).1)
        (LabelsFit-pending P (trace st) i b) b

  first_other :
      {P : ℕ → ℕ → Type 0} (b : ℕ) (st : Elab S F)
      → LabelsFit P (trace st)
      → (c k : ℕ) → With P b (second st) c k
      → k ≡ st.label_num
      → ⊥
  unfolding new_label
  first_other b st i c k (inl h) r = omega (arith, r, i.pending_below c k h)
  first_other b st i c k (inr e) r = omega (arith, r, e.1)

  second_other :
      {P : ℕ → ℕ → Type 0} (st : Elab S F)
      → LabelsFit P (trace st)
      → (c k : ℕ) → P c k
      → k ≡ second st
      → ⊥
  unfolding new_label
  second_other st i c k h r = omega (arith, r, i.pending_below c k h)

  pub if-Grown :
      {P : ℕ → ℕ → Type 0} (b : ℕ) (s e : Option ℕ) (cond : Node S F)
      (run other : Elab S F → Outcome (Elab S F)) (st : Elab S F)
      → Sound b s e run
      → Sound b s e other
      → LabelsFit P (trace st)
      → MayAim P b (trace st) s
      → MayAim P b (trace st) e
      → Ensures (Grown P (trace st)) (
          run (add_node b (some (branch_false_node st.label_num cond)) (two st)) >>= λ u.
          other (place b st.label_num (jump_back b (second st) u)) >>= λ v.
          ok (place b (second st) v))
  unfolding jump_back new_label
  if-Grown {P} b s e cond run other st h k i ms me =
      let l1 = st.label_num in
      let l2 = second st in
      let g =
        add_jump-Grown b l1 (some (branch_false_node l1 cond)) (two st) refl refl
          (two-Fits {P = P} b st i) (inr (inr (inl (inr (refl, refl))))) in
      let u1 = add_node b (some (branch_false_node l1 cond)) (two st) in
      let Q = With (With P b l1) b l2 in
      Ensures-then _ _
        (h Q u1 g.fits
          (MayAim-Later P Q b (trace st) (trace u1) s (λ c l m. inl (inl m)) g.later ms)
          (MayAim-Later P Q b (trace st) (trace u1) e (λ c l m. inl (inl m)) g.later me))
        (λ u gu.
          let j =
            add_jump-Grown b l2 (some (jump_node l2)) u refl refl gu.fits
              (inr (inr (inr (refl, refl)))) in
          let q =
            place-Grown {P = With P b l2} b l1 (jump_back b l2 u)
              (LabelsFit-swap P _ b l1 b l2 j.fits) (first_other {P = P} b st i) in
          let later : Later (trace st) (trace (place b l1 (jump_back b l2 u))) =
            λ c l m. q.later c l (j.later c l (gu.later c l (g.later c l m))) in
          Ensures-then _ _
            (k (With P b l2) _ q.fits
              (MayAim-Later P (With P b l2) b (trace st) (trace (place b l1 (jump_back b l2 u))) s
                (λ c l m. inl m) later ms)
              (MayAim-Later P (With P b l2) b (trace st) (trace (place b l1 (jump_back b l2 u))) e
                (λ c l m. inl m) later me))
            (λ v gv.
              let r = place-Grown {P = P} b l2 v gv.fits (second_other {P = P} st i) in
              done (record {
                fits = r.fits;
                later = λ c l m. r.later c l (gv.later c l (later c l m));
              })))

  pub do_while-Grown :
      {P : ℕ → ℕ → Type 0} (b : ℕ) (run : Elab S F → Outcome (Elab S F))
      (test : Elab S F → Outcome (Option (Node S F) × Elab S F)) (st : Elab S F)
      → Sound b (some st.label_num) (some (second st)) run
      → ((u : Elab S F) → KeepsWith (trace u) (test u))
      → LabelsFit P (trace st)
      → Ensures (Grown P (trace st)) (
          run (place b st.label_num (two st)) >>= λ u. asserted (test u) (λ cond v.
            ok (place b (second st) (add_node b (some (branch_true_node st.label_num cond)) v))))
  unfolding new_label
  do_while-Grown {P} b run test st h k i =
      let l1 = st.label_num in
      let l2 = second st in
      let q =
        place-Grown {P = With P b l2} b l1 (two st)
          (LabelsFit-swap P _ b l1 b l2 (two-Fits {P = P} b st i)) (first_other {P = P} b st i) in
      Ensures-then _ _
        (h (With P b l2) _ q.fits (inl (In-place b l1 (two st))) (inr (inr (refl, refl))))
        (λ u gu. asserted-Ensures _ _ (k u) (λ cond v p.
          let fit = subst (LabelsFit (With P b l2)) (sym p) gu.fits in
          let kept : Later (trace (place b l1 (two st))) (trace v) =
            λ c l m. subst (λ t. In (c, l) t.placed) (sym p) (gu.later c l m) in
          let j =
            add_jump-Grown b l1 (some (branch_true_node l1 cond)) v refl refl fit
              (inl (kept b l1 (In-place b l1 (two st)))) in
          let r = place-Grown {P = P} b l2 _ j.fits (second_other {P = P} st i) in
          done (record {
            fits = r.fits;
            later = λ c l m. r.later c l (j.later c l (kept c l (q.later c l m)));
          })))

  -- A `for` loop behind its first statement.
  pub for-Grown :
      {P : ℕ → ℕ → Type 0} (b : ℕ) (run next : Elab S F → Outcome (Elab S F))
      (test : Elab S F → Outcome (Option (Node S F) × Elab S F)) (st : Elab S F)
      → Sound b (some st.label_num) (some (second st)) run
      → Sound b (some st.label_num) (some (second st)) next
      → ((u : Elab S F) → KeepsWith (trace u) (test u))
      → LabelsFit P (trace st)
      → Ensures (Grown P (trace st)) (
          asserted (test (new_label (place b st.label_num (new_label st).1)).1) (λ cond v.
            (run (add_node b (some (branch_false_node (second st) cond)) v) >>= λ w. next w)
            >>= λ w. ok (place b (second st) (jump_back b st.label_num w))))
  unfolding new_label place add_node
  for-Grown {P} b run next test st h k keeps i =
      let g = start-Grown b st i in
      let st3 = place b st.label_num (new_label st).1 in
      let start1 = st.label_num in
      let end1 = second st in
      Ensures-from {t = trace st} {u = trace st3} _ g.later (
        asserted-Ensures _ _ (keeps (new_label st3).1) (λ cond v q.
          let fit =
            subst (LabelsFit (With P b end1)) (sym q) (LabelsFit-pending P (trace st3) g.fits b) in
          let kept : Later (trace st3) (trace v) =
            λ c l m. subst (λ u. In (c, l) u.placed) (sym q) m in
          Ensures-from _ kept (
            loop-Grown b start1 end1 cond (λ u. run u >>= λ w. next w) v
              (kept b start1 (In-place b start1 (new_label st).1)) fit
              (λ c l m r. omega (arith, r, g.fits.pending_below c l m))
              (λ u fits start.
                Ensures-then _ _ (h (With P b end1) u fits (inl start) (inr (inr (refl, refl))))
                  (λ w gw. Ensures-from _ gw.later (
                    k (With P b end1) w gw.fits (inl (gw.later b start1 start))
                      (inr (inr (refl, refl)))))))))
