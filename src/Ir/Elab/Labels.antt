-- ===== src/Ir/Elab/Labels.antt =====
-- Labels and jumps in the nodes that the elaboration makes (new_Label, new_Jump, new_BranchTrue and
-- new_BranchFalse as elab_stmt of src/ir/IrMgr_stmt.cc uses them).
pub mod Fit
pub mod Quiet
pub mod Decls
pub mod Steps
pub mod Cases
pub mod Exprs
pub mod Loops
pub mod Branches
pub mod Sound
pub mod Closed
use ymsl.Base.{
  ℕ, ◌+◌, ◌<◌, ◌≡◌, refl, sym, ap, ◌∙◌, subst, arith, Option, none, some, List, [], ◌∷◌, ◌++◌, inl,
  inr, In, In-snoc,
}
use ymsl.Ir.Code.{Node, uni_node, jump_node, branch_true_node, branch_false_node, label_node}
use ymsl.Ir.Elab.{Elab}

-- No label is placed twice, in whatever blocks.
abbrev pub AreOnce : List (ℕ × ℕ) → Type 0
AreOnce [] = Unit
AreOnce ((b, l) ∷ xs) = ((c : ℕ) → In (c, l) xs → ⊥) × AreOnce xs

pub AreOnce-snoc :
    (xs : List (ℕ × ℕ)) (b l : ℕ)
    → AreOnce xs
    → ((c : ℕ) → In (c, l) xs → ⊥)
    → AreOnce (xs ++ (b, l) ∷ [])
AreOnce-snoc [] b l u h = ((λ c k. k), tt)
AreOnce-snoc ((d, k) ∷ xs) b l u h = (
  (λ c i. elim (In-snoc (c, k) (b, l) xs i) [
    | inl j ↦ u.0 c j
    | inr e ↦ h d (inl (ap (λ p. (d, p.1)) (sym e)))
  ]),
  AreOnce-snoc xs b l u.1 (λ c i. h c (inr i)),
)

-- What the labels and jumps of a state are: the labels that have their node, and the labels that
-- jumps go to, each with its block; the number of the labels, those that are set as defined, and
-- mUndefList.
pub record Trace : Type 0 where
  pub placed : List (ℕ × ℕ)
  pub targets : List (ℕ × ℕ)
  pub num : ℕ
  pub defined_labels : List ℕ
  pub undef : List ℕ

abbrev pub cons_at : ℕ → Option ℕ → List (ℕ × ℕ) → List (ℕ × ℕ)
cons_at b none xs = xs
cons_at b (some l) xs = (b, l) ∷ xs

cons_at-append :
    (b : ℕ) (o : Option ℕ) (xs ys : List (ℕ × ℕ)) → cons_at b o (xs ++ ys) ≡ cons_at b o xs ++ ys
cons_at-append b none xs ys = refl
cons_at-append b (some l) xs ys = refl

module _ {S F : Type 0} where
  abbrev pub label_of : Option (Node S F) → Option ℕ
  label_of (some (label_node l)) = some l
  label_of _ = none

  abbrev pub target_of : Option (Node S F) → Option ℕ
  target_of (some (jump_node l)) = some l
  target_of (some (branch_true_node l n)) = some l
  target_of (some (branch_false_node l n)) = some l
  target_of _ = none

  abbrev pub placed_labels : List (ℕ × Option (Node S F)) → List (ℕ × ℕ)
  placed_labels [] = []
  placed_labels ((b, n) ∷ ns) = cons_at b (label_of n) (placed_labels ns)

  abbrev pub jump_targets : List (ℕ × Option (Node S F)) → List (ℕ × ℕ)
  jump_targets [] = []
  jump_targets ((b, n) ∷ ns) = cons_at b (target_of n) (jump_targets ns)

  abbrev pub trace : Elab S F → Trace
  trace st = record {
    placed = placed_labels st.nodes;
    targets = jump_targets st.nodes;
    num = st.label_num;
    defined_labels = st.defined;
    undef = st.undef_list;
  }

  pub placed_labels-snoc :
      (ns : List (ℕ × Option (Node S F))) (b : ℕ) (n : Option (Node S F))
      → placed_labels (ns ++ (b, n) ∷ []) ≡ placed_labels ns ++ cons_at b (label_of n) []
  placed_labels-snoc [] b n = refl
  placed_labels-snoc ((c, k) ∷ ns) b n =
      ap (cons_at c (label_of k)) (placed_labels-snoc ns b n)
      ∙ cons_at-append c (label_of k) (placed_labels ns) (cons_at b (label_of n) [])

  pub jump_targets-snoc :
      (ns : List (ℕ × Option (Node S F))) (b : ℕ) (n : Option (Node S F))
      → jump_targets (ns ++ (b, n) ∷ []) ≡ jump_targets ns ++ cons_at b (target_of n) []
  jump_targets-snoc [] b n = refl
  jump_targets-snoc ((c, k) ∷ ns) b n =
      ap (cons_at c (target_of k)) (jump_targets-snoc ns b n)
      ∙ cons_at-append c (target_of k) (jump_targets ns) (cons_at b (target_of n) [])
