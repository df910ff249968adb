-- ===== src/Ir/Elab/Labels/Steps.antt =====
-- The steps of elab_stmt that make labels and jumps, on the state (src/ir/IrMgr_stmt.cc).
use mathlib.Core.List.{append-nil}
use ymsl.Base.{
  In, In-left, In-last, ℕ, ◌≡◌, refl, sym, subst, Option, none, some, [], ◌∷◌, ◌⊎◌, inl, inr,
  Outcome, ok, fault,
}
use ymsl.Ir.Code.{Node, label_node}
use ymsl.Ir.Elab.{Elab, add_node}
use ymsl.Ir.Elab.Stmt.{asserted, place}
use ymsl.Ir.Elab.Labels.{Trace, trace, label_of, target_of, placed_labels-snoc, jump_targets-snoc}
use ymsl.Ir.Elab.Labels.Fit.{put_label, put_jump, With, LabelsFit, LabelsFit-jump, LabelsFit-place}
use ymsl.Ir.Elab.Labels.Quiet.{Ensures, done, failed, Keeps, KeepsWith}

-- What is placed stays.
abbrev pub Later : Trace → Trace → Type 0
Later t u = (b l : ℕ) → In (b, l) t.placed → In (b, l) u.placed

-- A label that a jump may go to from a block.
abbrev pub MayAim : (ℕ → ℕ → Type 0) → ℕ → Trace → Option ℕ → Type 0
MayAim P b t none = Unit
MayAim P b t (some l) = In (b, l) t.placed ⊎ P b l

pub MayAim-Later :
    (P Q : ℕ → ℕ → Type 0) (b : ℕ) (t u : Trace) (o : Option ℕ)
    → ((c l : ℕ) → P c l → Q c l)
    → Later t u
    → MayAim P b t o
    → MayAim Q b u o
MayAim-Later P Q b t u none f k h = tt
MayAim-Later P Q b t u (some l) f k (inl h) = inl (k b l h)
MayAim-Later P Q b t u (some l) f k (inr h) = inr (f b l h)

module _ {S F : Type 0} where
  -- The invariant holds, and what was placed in `t` is placed.
  pub record Grown (P : ℕ → ℕ → Type 0) (t : Trace) (st : Elab S F) : Type 0 where
    pub fits : LabelsFit P (trace st)
    pub later : Later t (trace st)

  pub Grown-same :
      {P : ℕ → ℕ → Type 0} {t : Trace} (st : Elab S F) → LabelsFit P t → trace st ≡ t → Grown P t st
  Grown-same {P} {t} st i e = record {
    fits = subst (LabelsFit P) (sym e) i;
    later = λ b l h. subst (λ u. In (b, l) u.placed) (sym e) h;
  }

  pub Grown-from :
      {P : ℕ → ℕ → Type 0} {t u : Trace} (st : Elab S F) → Later t u → Grown P u st → Grown P t st
  Grown-from st k g = record { fits = g.fits; later = λ b l h. g.later b l (k b l h) }

  pub Ensures-from :
      {P : ℕ → ℕ → Type 0} {t u : Trace} (x : Outcome (Elab S F))
      → Later t u
      → Ensures (Grown P u) x
      → Ensures (Grown P t) x
  Ensures-from (ok st) k (done g) = done (Grown-from st k g)
  Ensures-from (fault e) k h = failed

  -- A run from a state whose trace is known.
  pub Ensures-resume :
      {P : ℕ → ℕ → Type 0} {t : Trace} (st : Elab S F) (x : Outcome (Elab S F))
      → trace st ≡ t
      → LabelsFit P t
      → (LabelsFit P (trace st) → Ensures (Grown P (trace st)) x)
      → Ensures (Grown P t) x
  Ensures-resume {P} st x e i h =
      subst (λ u. Ensures (Grown P u) x) e (h (subst (LabelsFit P) (sym e) i))

  pub Keeps-Grown :
      {P : ℕ → ℕ → Type 0} {t : Trace} (x : Outcome (Elab S F))
      → LabelsFit P t
      → Keeps t x
      → Ensures (Grown P t) x
  Keeps-Grown (ok st) i (done e) = done (Grown-same st i e)
  Keeps-Grown (fault e) i h = failed

  pub asserted-Ensures :
      {t : Trace} {Q : Elab S F → Type 0} (x : Outcome (Option (Node S F) × Elab S F))
      (f : Node S F → Elab S F → Outcome (Elab S F))
      → KeepsWith t x
      → ((a : Node S F) (st : Elab S F) → trace st ≡ t → Ensures Q (f a st))
      → Ensures Q (asserted x f)
  asserted-Ensures (ok (none, st)) f h k = failed
  asserted-Ensures (ok (some a, st)) f (done e) k = k a st e
  asserted-Ensures (fault e) f h k = failed

  -- Nodes that are neither a label nor a jump.
  pub add_node-Grown :
      {P : ℕ → ℕ → Type 0} (b : ℕ) (n : Option (Node S F)) (st : Elab S F)
      → label_of n ≡ none
      → target_of n ≡ none
      → LabelsFit P (trace st)
      → Grown P (trace st) (add_node b n st)
  unfolding add_node
  add_node-Grown b n st p q i = Grown-same _ i (
      rw (placed_labels-snoc st.nodes b n, jump_targets-snoc st.nodes b n, p, q)
        (rw (append-nil (trace st).placed, append-nil (trace st).targets) refl))

  -- A jump or a branch.
  pub add_jump-Grown :
      {P : ℕ → ℕ → Type 0} (b l : ℕ) (n : Option (Node S F)) (st : Elab S F)
      → label_of n ≡ none
      → target_of n ≡ some l
      → LabelsFit P (trace st)
      → In (b, l) (trace st).placed ⊎ (In l (trace st).undef ⊎ P b l)
      → Grown P (trace st) (add_node b n st)
  unfolding add_node
  add_jump-Grown {P} b l n st p q i aim =
      let same : trace (add_node b n st) ≡ put_jump b l (trace st) =
        rw (placed_labels-snoc st.nodes b n, jump_targets-snoc st.nodes b n, p, q)
          (rw (append-nil (trace st).placed) refl) in
      record {
        fits = subst (LabelsFit P) (sym same) (LabelsFit-jump P (trace st) i b l aim);
        later = λ c k h. subst (λ u. In (c, k) u.placed) (sym same) h;
      }

  pub trace-place : (b l : ℕ) (st : Elab S F) → trace (place b l st) ≡ put_label b l (trace st)
  unfolding place add_node
  trace-place b l st =
      rw
        (
          placed_labels-snoc st.nodes b (some (label_node l)),
          jump_targets-snoc st.nodes b (some (label_node l)),
        )
        (rw (append-nil (trace st).targets) refl)

  -- The label that is to be placed last.
  pub place-Grown :
      {P : ℕ → ℕ → Type 0} (b l : ℕ) (st : Elab S F)
      → LabelsFit (With P b l) (trace st)
      → ((c k : ℕ) → P c k → k ≡ l → ⊥)
      → Grown P (trace st) (place b l st)
  place-Grown {P} b l st i other = record {
    fits =
        subst (LabelsFit P) (sym (trace-place b l st)) (LabelsFit-place P (trace st) b l i other);
    later = λ c k h.
        subst (λ u. In (c, k) u.placed) (sym (trace-place b l st))
          (In-left (c, k) (trace st).placed ((b, l) ∷ []) h);
  }

  pub In-place : (b l : ℕ) (st : Elab S F) → In (b, l) (trace (place b l st)).placed
  In-place b l st = subst (λ u. In (b, l) u.placed) (sym (trace-place b l st)) (In-last (b, l) _)
