-- ===== src/Ir/Elab/Ends/Decls.antt =====
-- Constants and enum types (reg_const and reg_enum in
-- src/ir/IrMgr_stmt.cc): the fuel, and the links of the scopes.
use ymsl.Base.{not_reached, ℕ, Option, none, some, List, [], ◌∷◌, Outcome, ok, fault, ◌>>=◌}
use ymsl.Base.Int.{ℤ, pos}
use ymsl.Compiler.ShString.{ShString}
use ymsl.Compiler.Types.{TypeId}
use ymsl.Compiler.TypeMgr.{TypeMgr, new_enum_type}
use ymsl.Ir.Ast.{AstExpr, AstType}
use ymsl.Ir.Node.{is_static}
use ymsl.Ir.Interp.{FloatOps, eval_boolean, eval_int, eval_float}
use ymsl.Ir.Code.{Handle, boolean_handle, int_handle, float_handle, type_handle, Node, node_view}
use ymsl.Ir.Elab.{Elab}
use ymsl.Ir.Elab.Decl.{
  or_null, elab_in, const_handle, add_const, reg_const, elem_number, elem_in, enum_elems, add_enum,
  reg_enum,
}
use ymsl.Ir.Elab.Ends.{Ends, returned, stopped, Halts, halted, at_not_reached, Ends-then, if-Ends}
use ymsl.Ir.Elab.Ends.Types.{node_type_id-Halts}
use ymsl.Ir.Elab.Ends.Consts.{eval_boolean-Halts, eval_int-Halts, eval_float-Halts}
use ymsl.Ir.Elab.Ends.Values.{NextIsNatural, elem_value-Ends}
use ymsl.Ir.Elab.Ends.Scopes.{
  IsLinked, IsLinkedWith, or_return-Ends, add_to_scope-Ends, push_scope-Ends, if_free-Ends,
  elab_in-Ends, resolve_type-Ends,
}

module _ {S F : Type 0} where
  -- The value of an enum constant, with a next number that is not negative.
  abbrev NextWith : Option (ℤ × ℤ) × Elab S F → Type 0
  NextWith r = NextIsNatural r.0 × IsLinkedWith r

  valued-Ends :
      {B : Type 0} (x : Outcome (Option (ℤ × ℤ) × Elab S F))
      (f : ℤ × ℤ → Elab S F → Outcome (Option B × Elab S F))
      → Ends NextWith x
      → ((v : ℤ) (k : ℕ) (st : Elab S F) → IsLinked st → Ends IsLinkedWith (f (v, pos k) st))
      → Ends IsLinkedWith (or_null x f)
  valued-Ends (ok (none, st)) f (returned (q, l)) k = returned l
  valued-Ends (ok (some (v, next), st)) f (returned ((m, q), l)) k = rw q (k v m st l)
  valued-Ends (fault e) f (stopped n) k = stopped n

module _ {S F : Type 0} ⦃str : ShString S⦄ (no_name : S) where
  module _ (ops : FloatOps F) where
    const_handle-Halts :
        (name : S) (node : Node S F) (m : TypeMgr S) → Halts (const_handle no_name ops name node m)
    unfolding const_handle
    const_handle-Halts name node m = Ends-then _ _ (node_type_id-Halts m node) (λ t _. of_type t)
      where
        of_type :
            (t : TypeId)
            → Halts {A = Handle S F} (elim t [
              | TypeId.boolean ↦
                  eval_boolean ops (node_view m node) >>= λ v. ok (boolean_handle name v)
              | TypeId.int ↦ eval_int ops (node_view m node) >>= λ v. ok (int_handle name v)
              | TypeId.float ↦ eval_float ops (node_view m node) >>= λ v. ok (float_handle name v)
              | _ ↦ fault not_reached
            ])
        of_type TypeId.boolean =
            Ends-then _ _ (eval_boolean-Halts ops (node_view m node)) (λ v _. halted _)
        of_type TypeId.int = Ends-then _ _ (eval_int-Halts ops (node_view m node)) (λ v _. halted _)
        of_type TypeId.float =
            Ends-then _ _ (eval_float-Halts ops (node_view m node)) (λ v _. halted _)
        of_type _ = at_not_reached

    add_const-Ends :
        (name : S) (scope : ℕ) (node : Node S F) (st : Elab S F)
        → IsLinked st
        → Ends IsLinked (add_const no_name ops name scope node st)
    unfolding add_const
    add_const-Ends name scope node st l =
        if-Ends (is_static (node_view st.types node)) _ _
          (Ends-then _ _ (const_handle-Halts name node st.types)
            (λ h _. add_to_scope-Ends no_name scope h st l))
          (returned l)

    pub reg_const-Ends :
        (name : S) (t : AstType S F) (e : AstExpr S F) (scope : ℕ) (st : Elab S F)
        → IsLinked st
        → Ends IsLinked (reg_const no_name ops name t e scope st)
    unfolding reg_const
    reg_const-Ends name t e scope st l = if_free-Ends no_name name scope st _ l (
        or_return-Ends _ _ (resolve_type-Ends no_name scope t st l) (λ u st1 l1.
          or_return-Ends _ _ (elab_in-Ends no_name scope e st1 l1)
            (λ node st2 l2. add_const-Ends name scope node st2 l2)))

    elem_number-Ends :
        (used_val : List ℤ) (n : ℕ) (node : Option (Node S F)) (st : Elab S F)
        → IsLinked st
        → Ends NextWith (elem_number no_name ops used_val (pos n) node st)
    unfolding elem_number
    elem_number-Ends used_val n none st l =
        Ends-then _ _ (elem_value-Ends ops used_val n none) (λ r q. returned {a = (r, st)} (q, l))
    elem_number-Ends used_val n (some node) st l =
        Ends-then _ _ (elem_value-Ends ops used_val n (some (node_view st.types node)))
          (λ r q. returned {a = (r, st)} (q, l))

    elem_in-Ends :
        (scope : ℕ) (used_val : List ℤ) (n : ℕ) (e : Option (AstExpr S F)) (st : Elab S F)
        → IsLinked st
        → Ends NextWith (elem_in no_name ops scope used_val (pos n) e st)
    unfolding elem_in
    elem_in-Ends scope used_val n none st l = elem_number-Ends used_val n none st l
    elem_in-Ends scope used_val n (some e) st l =
        valued (elab_in no_name scope e st) (elab_in-Ends no_name scope e st l)
      where
        valued :
            (x : Outcome (Option (Node S F) × Elab S F))
            → Ends IsLinkedWith x
            → Ends NextWith (or_null x (λ n1. elem_number no_name ops used_val (pos n) (some n1)))
        valued (ok (none, st1)) (returned l1) = returned (tt, l1)
        valued (ok (some n1, st1)) (returned l1) = elem_number-Ends used_val n (some n1) st1 l1
        valued (fault e1) (stopped f) = stopped f

    enum_elems-Ends :
        (scope : ℕ) (elems : List (S × Option (AstExpr S F))) (used_val : List ℤ) (n : ℕ)
        (elem_list : List (S × ℤ)) (st : Elab S F)
        → IsLinked st
        → Ends IsLinkedWith (enum_elems no_name ops scope elems used_val (pos n) elem_list st)
    unfolding enum_elems
    enum_elems-Ends scope [] used_val n elem_list st l = returned l
    enum_elems-Ends scope ((name, e) ∷ elems) used_val n elem_list st l =
        valued-Ends _ _ (elem_in-Ends scope used_val n e st l) (λ v k st1 l1.
          Ends-then _ _ (add_to_scope-Ends no_name scope (int_handle name v) st1 l1)
            (λ st2 l2. enum_elems-Ends scope elems _ k _ st2 l2))

    add_enum-Ends :
        (name : S) (scope enum_scope : ℕ) (elem_list : List (S × ℤ)) (st : Elab S F)
        → IsLinked st
        → Ends IsLinked (add_enum no_name ops name scope enum_scope elem_list st)
    unfolding add_enum
    add_enum-Ends name scope enum_scope elem_list st l =
        let made = new_enum_type st.types name elem_list in
        add_to_scope-Ends no_name scope (type_handle name made.0 enum_scope)
          (record st { types = made.1 }) l

    pub reg_enum-Ends :
        (name : S) (elems : List (S × Option (AstExpr S F))) (scope : ℕ) (st : Elab S F)
        → IsLinked st
        → Ends IsLinked (reg_enum no_name ops name elems scope st)
    unfolding reg_enum
    reg_enum-Ends name elems scope st l = if_free-Ends no_name name scope st _ l (
        Ends-then _ _ (push_scope-Ends no_name (some scope) name st l) (λ r l1.
          or_return-Ends _ _ (enum_elems-Ends r.0 elems [] 0 [] r.1 l1)
            (λ elem_list st2 l2. add_enum-Ends name scope r.0 elem_list st2 l2)))
