-- ===== src/Ir/Elab/Labels/Closed.antt =====
-- What a whole program that is elaborated has of labels and jumps, and conditionals without an else
-- part (IrMgr::elaborate of src/ir/IrMgr.cc, elab_stmt of IrMgr_stmt.cc).
use ymsl.Base.{
  In, ℕ, ◌≡◌, refl, sym, subst, Bool, true, false, ◌||◌, ◌&&◌, ◌==◌, ==_iff, if◌then◌else◌,
  Bool-cases, Option, none, some, List, [], ◌∷◌, inl, inr, Outcome, ok, fault,
}
use ymsl.Compiler.ShString.{ShString}
use ymsl.Ir.Ast.{AstStatements}
use ymsl.Ir.Code.{Handle}
use ymsl.Ir.Interp.{FloatOps}
use ymsl.Ir.Elab.{Elab}
use ymsl.Ir.Elab.Root.{new_toplevel, is_one_of, all_defined, elaborate, resolve_calls}
use ymsl.Ir.Elab.Labels.{AreOnce, Trace, trace}
use ymsl.Ir.Elab.Labels.Fit.{LabelsFit}
use ymsl.Ir.Elab.Labels.Quiet.{Ensures, done, Ensures-then, Ensures-bind, push_scope-KeepsWith}
use ymsl.Ir.Elab.Labels.Sound.{elab_stmts-Grown}

-- No label is still to be placed.
abbrev NonePending : ℕ → ℕ → Type 0
NonePending b l = ⊥

-- The jumps and labels of a program: no label is undefined, each is placed once, and a jump goes to a
-- label of its own block.
pub record IsClosed {S F : Type 0} (st : Elab S F) : Type 0 where
  pub no_undef : st.undef_list ≡ []
  pub once : AreOnce (trace st).placed
  pub aimed : (b l : ℕ) → In (b, l) (trace st).targets → In (b, l) (trace st).placed

LabelsFit-empty :
    (num : ℕ)
    → LabelsFit NonePending
        (record { placed = []; targets = []; num = num; defined_labels = []; undef = [] })
LabelsFit-empty num = record {
  below = λ b l h. absurd h;
  once = tt;
  aimed = λ b l h. absurd h;
  undef_below = λ l h. absurd h;
  undef_unplaced = λ l b h k. h;
  pending_below = λ b l h. absurd h;
  pending_unplaced = λ b l c h k. h;
  pending_undef = λ b l h k. h;
  defined_placed = λ l h. absurd h;
}

or_false : (a b : Bool) → a ≡ false → (a || b) ≡ true → b ≡ true
or_false true b e h = cc
or_false false b e h = h

is_one_of-In : (l : ℕ) (ks : List ℕ) → is_one_of l ks ≡ true → In l ks
unfolding is_one_of
is_one_of-In l [] h = cc
is_one_of-In l (k ∷ ks) h = elim (Bool-cases (l == k)) [
  | inl e ↦ inl ((==_iff l k).0 e)
  | inr e ↦ inr (is_one_of-In l ks (or_false (l == k) (is_one_of l ks) e h))
]

and_split : (a b : Bool) → (a && b) ≡ true → (a ≡ true) × (b ≡ true)
and_split true b h = (refl, h)
and_split false b h = cc

no_undef_left :
    (t : Trace) (ls : List ℕ)
    → LabelsFit NonePending t
    → ((l : ℕ) → In l ls → In l t.undef)
    → all_defined ls t.defined_labels ≡ true
    → ls ≡ []
unfolding all_defined
no_undef_left t [] i f h = refl
no_undef_left t (l ∷ ls) i f h =
    let here = and_split (is_one_of l t.defined_labels) (all_defined ls t.defined_labels) h in
    let (b, k) = i.defined_placed l (is_one_of-In l t.defined_labels here.0) in
    absurd (i.undef_unplaced l b (f l (inl refl)) k)

Ensures-ok : {A : Type 0} (Q : A → Type 0) (x : Outcome A) (a : A) → Ensures Q x → x ≡ ok a → Q a
Ensures-ok Q (ok b) a (done q) e = let same : b ≡ a = cc e in subst Q same q
Ensures-ok Q (fault f) a h e = cc

module _ {S F : Type 0} where
  closed :
      (st : Elab S F)
      → LabelsFit NonePending (trace st)
      → all_defined st.undef_list st.defined ≡ true
      → IsClosed st
  closed st i h =
      let none_left = no_undef_left (trace st) st.undef_list i (λ l k. k) h in
      record {
        no_undef = none_left;
        once = i.once;
        aimed = λ b l k. elim (i.aimed b l k) [
          | inl p ↦ p
          | inr (inl u) ↦ absurd (subst (λ ls. In l ls) none_left u)
          | inr (inr n) ↦ absurd n
        ];
      }

  abbrev ClosedResult : Option (Elab S F × List (Option (Handle S F))) → Type 0
  ClosedResult none = Unit
  ClosedResult (some (e, hs)) = IsClosed e

  checked :
      (st : Elab S F) (hs : List (Option (Handle S F))) (b : Bool)
      → LabelsFit NonePending (trace st)
      → all_defined st.undef_list st.defined ≡ b
      → ClosedResult (if b then some (st, hs) else none)
  checked st hs true i h = closed st i h
  checked st hs false i h = tt

  module _ ⦃str : ShString S⦄ (no_name : S) (ops : FloatOps F) where
    -- Where a program is elaborated without an error, mUndefList is empty, each label is placed once
    -- in all blocks, and a jump goes to a label that is placed in its own block.
    pub elaborate-IsClosed :
        (ss : AstStatements S F) (name : S) (st : Elab S F) {e : Elab S F}
        {hs : List (Option (Handle S F))}
        → elaborate no_name ops ss name st ≡ ok (some (e, hs))
        → IsClosed e
    unfolding elaborate new_toplevel
    elaborate-IsClosed ss name st {e} {hs} h =
        Ensures-ok ClosedResult (elaborate no_name ops ss name st) (some (e, hs))
          (Ensures-then _ _ (push_scope-KeepsWith no_name none name (new_toplevel st))
            (λ (scope, st1) p.
              Ensures-then _ _
                (elab_stmts-Grown no_name ops NonePending ss scope none none 0 st1
                  (subst (LabelsFit NonePending) (sym p) (LabelsFit-empty st.label_num)) tt tt)
                (λ st2 g.
                  Ensures-bind (resolve_calls no_name st2.func_calls st2) _
                    (λ ks. done (checked st2 ks _ g.fits refl)))))
          h
