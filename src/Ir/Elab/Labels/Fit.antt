-- ===== src/Ir/Elab/Labels/Fit.antt =====
-- The invariant of the labels and jumps, and the steps that keep it (elab_stmt of
-- src/ir/IrMgr_stmt.cc).
use ymsl.Base.{
  In, In-left, In-last, In-snoc, ℕ, ◌+◌, ◌<◌, ◌≡◌, refl, sym, ap, subst, arith, [], ◌∷◌, ◌++◌, ◌⊎◌,
  inl, inr,
}
use ymsl.Ir.Elab.Labels.{AreOnce, AreOnce-snoc, Trace}

-- The steps of a trace.
abbrev pub bump : Trace → Trace
bump t = record t { num = t.num + 1 }

abbrev pub put_label : ℕ → ℕ → Trace → Trace
put_label b l t = record t { placed = t.placed ++ (b, l) ∷ [] }

abbrev pub put_jump : ℕ → ℕ → Trace → Trace
put_jump b l t = record t { targets = t.targets ++ (b, l) ∷ [] }

abbrev pub put_undef : ℕ → Trace → Trace
put_undef l t = record t { undef = t.undef ++ l ∷ [] }

abbrev pub put_defined : ℕ → Trace → Trace
put_defined l t = record t { defined_labels = t.defined_labels ++ l ∷ [] }

-- One more label that is to be placed in a block.
abbrev pub With : (ℕ → ℕ → Type 0) → ℕ → ℕ → ℕ → ℕ → Type 0
With P b l c k = P c k ⊎ ((c ≡ b) × (k ≡ l))

-- The invariant of the elaboration, where `P` says which labels will still be placed, in which block:
-- a label is placed once and in one block only; a jump goes to a label that is placed in its own
-- block, or will be, or is in mUndefList; a label of mUndefList is not placed, and a label that is set
-- as defined is.
pub record LabelsFit (P : ℕ → ℕ → Type 0) (t : Trace) : Type 0 where
  pub below : (b l : ℕ) → In (b, l) t.placed → l < t.num
  pub once : AreOnce t.placed
  pub aimed : (b l : ℕ) → In (b, l) t.targets → In (b, l) t.placed ⊎ (In l t.undef ⊎ P b l)
  pub undef_below : (l : ℕ) → In l t.undef → l < t.num
  pub undef_unplaced : (l b : ℕ) → In l t.undef → In (b, l) t.placed → ⊥
  pub pending_below : (b l : ℕ) → P b l → l < t.num
  pub pending_unplaced : (b l c : ℕ) → P b l → In (c, l) t.placed → ⊥
  pub pending_undef : (b l : ℕ) → P b l → In l t.undef → ⊥
  pub defined_placed : (l : ℕ) → In l t.defined_labels → (b : ℕ) × In (b, l) t.placed

module _ (P : ℕ → ℕ → Type 0) (t : Trace) (i : LabelsFit P t) where
  pub LabelsFit-bump : LabelsFit P (bump t)
  LabelsFit-bump = record {
    below = λ b l h. omega (arith, i.below b l h);
    once = i.once;
    aimed = i.aimed;
    undef_below = λ l h. omega (arith, i.undef_below l h);
    undef_unplaced = i.undef_unplaced;
    pending_below = λ b l h. omega (arith, i.pending_below b l h);
    pending_unplaced = i.pending_unplaced;
    pending_undef = i.pending_undef;
    defined_placed = i.defined_placed;
  }

  -- A new label that will be placed.
  pub LabelsFit-pending : (b : ℕ) → LabelsFit (With P b t.num) (bump t)
  LabelsFit-pending b = record {
    below = λ c l h. omega (arith, i.below c l h);
    once = i.once;
    aimed = λ c l h. elim (i.aimed c l h) [
      | inl k ↦ inl k
      | inr (inl k) ↦ inr (inl k)
      | inr (inr k) ↦ inr (inr (inl k))
    ];
    undef_below = λ l h. omega (arith, i.undef_below l h);
    undef_unplaced = i.undef_unplaced;
    pending_below = λ c l h. elim h [
      | inl k ↦ omega (arith, i.pending_below c l k)
      | inr e ↦ omega (arith, e.1)
    ];
    pending_unplaced = λ c l d h k. elim h [
      | inl p ↦ i.pending_unplaced c l d p k
      | inr e ↦ absurd (omega (arith, e.1, i.below d l k))
    ];
    pending_undef = λ c l h k. elim h [
      | inl p ↦ i.pending_undef c l p k
      | inr e ↦ absurd (omega (arith, e.1, i.undef_below l k))
    ];
    defined_placed = i.defined_placed;
  }

  pub LabelsFit-jump :
      (b l : ℕ) → In (b, l) t.placed ⊎ (In l t.undef ⊎ P b l) → LabelsFit P (put_jump b l t)
  LabelsFit-jump b l aim = record {
    below = i.below;
    once = i.once;
    aimed = λ c k h. elim (In-snoc (c, k) (b, l) t.targets h) [
      | inl j ↦ i.aimed c k j
      | inr e ↦ subst (λ p. In p t.placed ⊎ (In p.1 t.undef ⊎ P p.0 p.1)) (sym e) aim
    ];
    undef_below = i.undef_below;
    undef_unplaced = i.undef_unplaced;
    pending_below = i.pending_below;
    pending_unplaced = i.pending_unplaced;
    pending_undef = i.pending_undef;
    defined_placed = i.defined_placed;
  }

-- The label that is to be placed last is placed, if it is none of the others.
pub LabelsFit-place :
    (P : ℕ → ℕ → Type 0) (t : Trace) (b l : ℕ)
    → LabelsFit (With P b l) t
    → ((c k : ℕ) → P c k → k ≡ l → ⊥)
    → LabelsFit P (put_label b l t)
LabelsFit-place P t b l i other = record {
  below = λ c k h. elim (In-snoc (c, k) (b, l) t.placed h) [
    | inl j ↦ i.below c k j
    | inr e ↦ subst (λ p. p.1 < t.num) (sym e) (i.pending_below b l (inr (refl, refl)))
  ];
  once = AreOnce-snoc t.placed b l i.once (λ c. i.pending_unplaced b l c (inr (refl, refl)));
  aimed = λ c k h. elim (i.aimed c k h) [
    | inl j ↦ inl (In-left (c, k) t.placed ((b, l) ∷ []) j)
    | inr (inl j) ↦ inr (inl j)
    | inr (inr (inl j)) ↦ inr (inr j)
    | inr (inr (inr (e, f))) ↦ inl (
        subst (λ q. In (q, k) (t.placed ++ (b, l) ∷ [])) (sym e)
          (subst (λ q. In (b, q) (t.placed ++ (b, l) ∷ [])) (sym f) (In-last (b, l) t.placed)))
  ];
  undef_below = i.undef_below;
  undef_unplaced = λ k c h j. elim (In-snoc (c, k) (b, l) t.placed j) [
    | inl p ↦ i.undef_unplaced k c h p
    | inr e ↦ i.pending_undef b l (inr (refl, refl)) (subst (λ q. In q.1 t.undef) {x = (c, k)} e h)
  ];
  pending_below = λ c k h. i.pending_below c k (inl h);
  pending_unplaced = λ c k d h j. elim (In-snoc (d, k) (b, l) t.placed j) [
    | inl p ↦ i.pending_unplaced c k d (inl h) p
    | inr e ↦ other c k h (ap (λ q. q.1) e)
  ];
  pending_undef = λ c k h. i.pending_undef c k (inl h);
  defined_placed =
      λ k h. let (c, j) = i.defined_placed k h in (c, In-left (c, k) t.placed ((b, l) ∷ []) j);
}

module _ (P : ℕ → ℕ → Type 0) (t : Trace) (i : LabelsFit P t) where
  -- A new label that is placed at once.
  pub LabelsFit-new : (b : ℕ) → LabelsFit P (put_label b t.num (bump t))
  LabelsFit-new b =
      LabelsFit-place P (bump t) b t.num (LabelsFit-pending P t i b)
        (λ c k h e. omega (arith, e, i.pending_below c k h))

  -- A new label in mUndefList.
  pub LabelsFit-undef : LabelsFit P (put_undef t.num (bump t))
  LabelsFit-undef = record {
    below = λ b l h. omega (arith, i.below b l h);
    once = i.once;
    aimed = λ b l h. elim (i.aimed b l h) [
      | inl k ↦ inl k
      | inr (inl k) ↦ inr (inl (In-left l t.undef (t.num ∷ []) k))
      | inr (inr k) ↦ inr (inr k)
    ];
    undef_below = λ l h. elim (In-snoc l t.num t.undef h) [
      | inl k ↦ omega (arith, i.undef_below l k)
      | inr e ↦ omega (arith, e)
    ];
    undef_unplaced = λ l b h k. elim (In-snoc l t.num t.undef h) [
      | inl j ↦ i.undef_unplaced l b j k
      | inr e ↦ absurd (omega (arith, e, i.below b l k))
    ];
    pending_below = λ b l h. omega (arith, i.pending_below b l h);
    pending_unplaced = i.pending_unplaced;
    pending_undef = λ b l h k. elim (In-snoc l t.num t.undef k) [
      | inl j ↦ i.pending_undef b l h j
      | inr e ↦ absurd (omega (arith, e, i.pending_below b l h))
    ];
    defined_placed = i.defined_placed;
  }

  -- A label that is placed is set as defined.
  pub LabelsFit-defined : (b l : ℕ) → In (b, l) t.placed → LabelsFit P (put_defined l t)
  LabelsFit-defined b l placed_here = record {
    below = i.below;
    once = i.once;
    aimed = i.aimed;
    undef_below = i.undef_below;
    undef_unplaced = i.undef_unplaced;
    pending_below = i.pending_below;
    pending_unplaced = i.pending_unplaced;
    pending_undef = i.pending_undef;
    defined_placed = λ k h. elim (In-snoc k l t.defined_labels h) [
      | inl j ↦ i.defined_placed k j
      | inr e ↦ (b, subst (λ q. In (b, q) t.placed) (sym e) placed_here)
    ];
  }
