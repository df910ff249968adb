-- ===== src/Ir/Elab/Ends/Steps.antt =====
-- The statements without parts (IrMgr::elab_stmt of src/ir/IrMgr_stmt.cc): the fuel, and the
-- links of the scopes.
use ymsl.Base.{ℕ, Option, none, some, Outcome, ok, fault, ◌>>=◌}
use ymsl.Compiler.ShString.{ShString}
use ymsl.OpCode.{OpCode}
use ymsl.Ir.Ast.{AstExpr}
use ymsl.Ir.Code.{Handle, label_handle, Node}
use ymsl.Ir.Elab.{Elab, add_to_scope, find_in_scope, new_label, add_node, add_undef, set_defined}
use ymsl.Ir.Elab.Stmt.{
  asserted, jump_out, place, jump_back, label_case, elab_goto, elab_label, elab_step, elab_store,
  elab_return,
}
use ymsl.Ir.Elab.Ends.{Ends, returned, stopped, at_undefined, at_not_reached, Ends-then}
use ymsl.Ir.Elab.Ends.Exprs.{find_in_scope-Halts}
use ymsl.Ir.Elab.Ends.Scopes.{
  IsLinked, IsLinkedWith, or_return-Ends, add_to_scope-Ends, elab_in-Ends, primary_in-Ends,
}

module _ {S F : Type 0} where
  pub asserted-Ends :
      (x : Outcome (Option (Node S F) × Elab S F)) (f : Node S F → Elab S F → Outcome (Elab S F))
      → Ends IsLinkedWith x
      → ((n : Node S F) (st : Elab S F) → IsLinked st → Ends IsLinked (f n st))
      → Ends IsLinked (asserted x f)
  asserted-Ends (ok (none, st)) f (returned l) k = at_not_reached
  asserted-Ends (ok (some n, st)) f (returned l) k = k n st l
  asserted-Ends (fault e) f (stopped n) k = stopped n

  pub jump_out-IsLinked :
      (l : Option ℕ) (b : ℕ) (st : Elab S F) → IsLinked st → IsLinked (jump_out l b st)
  unfolding jump_out add_node
  jump_out-IsLinked none b st l = l
  jump_out-IsLinked (some k) b st l = l

module _ {S F : Type 0} ⦃str : ShString S⦄ (no_name : S) where
  label_case-Ends :
      (o : Option (Handle S F)) (fresh : Outcome (Elab S F)) (st : Elab S F)
      → Ends IsLinked fresh
      → IsLinked st
      → Ends IsLinked (label_case no_name o fresh st)
  unfolding label_case
  label_case-Ends none fresh st k l = k
  label_case-Ends (some (label_handle n i)) fresh st k l = at_undefined
  label_case-Ends (some _) fresh st k l = returned l

  -- A label that is made where the name has no handle, and what follows it.
  new_label-Ends :
      (name : S) (scope : ℕ) (st : Elab S F) (finish : Elab S F → Elab S F)
      → ((st1 : Elab S F) → IsLinked st1 → IsLinked (finish st1))
      → IsLinked st
      → Ends IsLinked (
          find_in_scope no_name st.scopes scope name >>= λ o.
          label_case no_name o
            (add_to_scope no_name scope (label_handle name (new_label st).0) (new_label st).1
              >>= λ st2. ok (finish st2))
            st)
  unfolding new_label
  new_label-Ends name scope st finish k l =
      let (i, st1) = new_label st in
      Ends-then (find_in_scope no_name st.scopes scope name) _
        (find_in_scope-Halts no_name st.scopes l scope name)
        (λ o _.
          label_case-Ends o
            (add_to_scope no_name scope (label_handle name i) st1 >>= λ st2. ok (finish st2)) st
            (Ends-then (add_to_scope no_name scope (label_handle name i) st1)
              (λ st2. ok (finish st2)) (add_to_scope-Ends no_name scope (label_handle name i) st1 l)
              (λ st2 l2. returned (k st2 l2)))
            l)

  pub elab_goto-Ends :
      (name : S) (scope b : ℕ) (st : Elab S F)
      → IsLinked st
      → Ends IsLinked (elab_goto no_name name scope b st)
  unfolding elab_goto add_undef jump_back add_node new_label
  elab_goto-Ends name scope b st l =
      let i = (new_label st).0 in
      new_label-Ends name scope st (λ st2. jump_back b i (add_undef i st2)) (λ st2 l2. l2) l

  pub elab_label-Ends :
      (name : S) (scope b : ℕ) (st : Elab S F)
      → IsLinked st
      → Ends IsLinked (elab_label no_name name scope b st)
  unfolding elab_label set_defined place add_node new_label
  elab_label-Ends name scope b st l =
      let i = (new_label st).0 in
      new_label-Ends name scope st (λ st2. place b i (set_defined i st2)) (λ st2 l2. l2) l

  pub elab_step-Ends :
      (op : OpCode) (e : AstExpr S F) (scope b : ℕ) (st : Elab S F)
      → IsLinked st
      → Ends IsLinked (elab_step no_name op e scope b st)
  unfolding elab_step add_node
  elab_step-Ends op e scope b st l =
      or_return-Ends _ _ (primary_in-Ends no_name scope e st l) (λ h st1 l1. returned l1)

  pub elab_store-Ends :
      (make : Handle S F → Node S F → Node S F) (lhs e : AstExpr S F) (scope b : ℕ) (st : Elab S F)
      → IsLinked st
      → Ends IsLinked (elab_store no_name make lhs e scope b st)
  unfolding elab_store add_node
  elab_store-Ends make lhs e scope b st l =
      or_return-Ends _ _ (elab_in-Ends no_name scope e st l) (λ rhs st1 l1.
        or_return-Ends _ _ (primary_in-Ends no_name scope lhs st1 l1) (λ h st2 l2. returned l2))

  pub elab_return-Ends :
      (e : Option (AstExpr S F)) (scope b : ℕ) (st : Elab S F)
      → IsLinked st
      → Ends IsLinked (elab_return no_name e scope b st)
  unfolding elab_return add_node
  elab_return-Ends none scope b st l = returned l
  elab_return-Ends (some e) scope b st l =
      Ends-then _ _ (elab_in-Ends no_name scope e st l) (λ r l1. returned l1)
