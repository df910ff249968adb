-- ===== src/Ir/Elab/Ends/Exprs.antt =====
-- Expressions (IrMgr::elab_expr and IrMgr::elab_primary of src/ir/IrMgr_expr.cc), and the fuel of
-- their searches through the scopes.
use ymsl.Base.{
  ℕ, ◌==◌, if◌then◌else◌, true, false, Option, none, some, List, ok, fault, undefined, ◌>>=◌,
}
use ymsl.Compiler.ShString.{ShString}
use ymsl.Compiler.Scope.{Scope}
use ymsl.Compiler.Scope.Resolve.{AreLinked}
use ymsl.Compiler.Types.{TypeId}
use ymsl.Compiler.TypeMgr.{TypeMgr}
use ymsl.OpCode.{OpCode}
use ymsl.Ir.Ast.{
  AstExpr, AstArgs, true_const, false_const, int_literal, float_literal, string_literal,
  symbol_expr, array_elem, member, call_expr, unary_expr, binary_expr, ternary_expr, no_args,
  arg_and,
}
use ymsl.Ir.Code.{
  Handle, scope_handle, global_var, local_var, boolean_handle, int_handle, float_handle,
  string_handle, type_handle, array_ref, handle_name, Node, uni_node, bin_node, tri_node, new_load,
}
use ymsl.Ir.Elab.{FuncCallStub, find_in_scope}
use ymsl.Ir.Elab.Expr.{
  Elaborated, unless_null, with_calls, elab_expr, elab_args, elab_primary, null_type, type_number,
  load_of, make_uni, make_bin, make_tri, find_member, make_array_ref, symbol_handle, elem_handle,
  member_handle,
}
use ymsl.Ir.Elab.Ends.{
  Halts, halted, at_undefined, at_not_reached, Ends-then, if-Ends, option-Ends, find-Halts,
}
use ymsl.Ir.Elab.Ends.Types.{
  calc_type1-Halts, calc_type2-Halts, calc_type3-Halts, node_type_id-Halts, new_load-Halts,
}

module _ {S F : Type 0} where
  unless_null-Halts :
      {A B : Type 0} (x : Elaborated S F A) (f : A → List (FuncCallStub S F) → Elaborated S F B)
      → Halts x
      → ((a : A) (calls : List (FuncCallStub S F)) → Halts (f a calls))
      → Halts (unless_null x f)
  unless_null-Halts x f h k =
      Ends-then x _ h
        (λ r _. option-Ends r.0 (ok (none, r.1)) (λ a. f a r.1) (halted _) (λ a. k a r.1))

  with_calls-Halts :
      (m : TypeMgr S) (h : Handle S F) (calls : List (FuncCallStub S F))
      → Halts (with_calls (new_load m h) calls)
  with_calls-Halts m h calls = Ends-then _ _ (new_load-Halts m h) (λ n _. halted _)

module _ {S F : Type 0} ⦃str : ShString S⦄ (no_name : S) (scopes : List (Scope S (Handle S F)))
    (linked : AreLinked scopes) where
  pub find_in_scope-Halts : (id : ℕ) (n : S) → Halts (find_in_scope no_name scopes id n)
  unfolding find_in_scope
  find_in_scope-Halts id n = find-Halts (handle_name no_name) scopes linked id n

  module _ (m : TypeMgr S) (scope : ℕ) where
    find_member-Halts : (h : Handle S F) (n : S) → Halts (find_member no_name scopes m scope h n)
    unfolding find_member
    find_member-Halts (scope_handle n s) name = find_in_scope-Halts s name
    find_member-Halts (type_handle n t s) name = find_in_scope-Halts s name
    find_member-Halts (local_var n t k i) name = at_undefined
    find_member-Halts (global_var n t k i) name = at_undefined
    find_member-Halts _ name = at_not_reached

    make_array_ref-Halts :
        (base : Node S F) (o : Option (Node S F)) (calls : List (FuncCallStub S F))
        → Halts (make_array_ref no_name scopes m scope base o calls)
    unfolding make_array_ref
    make_array_ref-Halts base none calls = at_undefined
    make_array_ref-Halts base (some offset) calls =
        Ends-then _ _ (node_type_id-Halts m offset) (λ t _. by_type t)
      where
        by_type :
            (t : TypeId)
            → Halts {A = Option (Handle S F) × List (FuncCallStub S F)} (elim t [
              | TypeId.int ↦ ok (some (array_ref base offset), calls)
              | _ ↦ ok (none, calls)
            ])
        by_type TypeId.int = halted _
        by_type _ = halted _

    symbol_handle-Halts :
        (s : S) (calls : List (FuncCallStub S F))
        → Halts (symbol_handle no_name scopes m scope s calls)
    unfolding symbol_handle
    symbol_handle-Halts s calls = Ends-then _ _ (find_in_scope-Halts scope s) (λ h _. halted _)

    elem_handle-Halts :
        (body : Elaborated S F (Handle S F))
        (index : List (FuncCallStub S F) → Elaborated S F (Node S F))
        → Halts body
        → ((calls : List (FuncCallStub S F)) → Halts (index calls))
        → Halts (elem_handle no_name scopes m scope body index)
    unfolding elem_handle
    elem_handle-Halts body index hb hi = unless_null-Halts body _ hb (λ h calls1.
        Ends-then _ _ (new_load-Halts m h)
          (λ base _. Ends-then _ _ (node_type_id-Halts m base) (λ t _. by_type base calls1 t)))
      where
        by_type :
            (base : Node S F) (calls1 : List (FuncCallStub S F)) (t : TypeId)
            → Halts {A = Option (Handle S F) × List (FuncCallStub S F)} (elim t [
              | TypeId.array ↦
                  index calls1 >>= λ r. make_array_ref no_name scopes m scope base r.0 r.1
              | _ ↦ ok (none, calls1)
            ])
        by_type base calls1 TypeId.array =
            Ends-then _ _ (hi calls1) (λ r _. make_array_ref-Halts base r.0 r.1)
        by_type base calls1 _ = halted _

    member_handle-Halts :
        (body : Elaborated S F (Handle S F)) (s : S)
        → Halts body
        → Halts (member_handle no_name scopes m scope body s)
    unfolding member_handle
    member_handle-Halts body s hb = Ends-then _ _ hb (λ r _.
        option-Ends r.0 (fault undefined)
          (λ h. find_member no_name scopes m scope h s >>= λ o. ok (o, r.1)) at_undefined
          (λ h. Ends-then _ _ (find_member-Halts h s) (λ o _. halted _)))

    load_of-Halts :
        (x : Elaborated S F (Handle S F)) → Halts x → Halts (load_of no_name scopes m scope x)
    unfolding load_of
    load_of-Halts x hx = unless_null-Halts x _ hx (λ h. with_calls-Halts m h)

    make_uni-Halts :
        (op : OpCode) (a : Node S F) (calls : List (FuncCallStub S F))
        → Halts (make_uni no_name scopes m scope op a calls)
    unfolding make_uni
    make_uni-Halts op a calls = Ends-then _ _ (calc_type1-Halts m op (type_number m a)) (λ r _.
        option-Ends r (ok (none, calls)) (λ c. ok (some (uni_node op c.type a), calls)) (halted _)
          (λ c. halted _))

    make_bin-Halts :
        (op : OpCode) (a b : Node S F) (calls : List (FuncCallStub S F))
        → Halts (make_bin no_name scopes m scope op a b calls)
    unfolding make_bin
    make_bin-Halts op a b calls =
        Ends-then _ _ (calc_type2-Halts m op (type_number m a) (type_number m b)) (λ r _.
          option-Ends r (ok (none, calls)) (λ c. ok (some (bin_node op c.type a b), calls))
            (halted _) (λ c. halted _))

    make_tri-Halts :
        (op : OpCode) (a b c : Node S F) (calls : List (FuncCallStub S F))
        → Halts (make_tri no_name scopes m scope op a b c calls)
    unfolding make_tri null_type
    make_tri-Halts op a b c calls =
        Ends-then _ _ (calc_type3-Halts m op (type_number m a) (type_number m b) (type_number m c))
          (λ r _.
            option-Ends r (ok (none, calls))
              (λ t.
                if t.type == null_type m
                then ok (none, calls)
                else ok (some (tri_node op t.type a b c), calls))
              (halted _) (λ t. if-Ends (t.type == null_type m) _ _ (halted _) (halted _)))

    mutual
      unfolding elab_expr elab_args elab_primary

      -- The elaboration of an expression ends in a node, in NULL, in a failed assertion or in what
      -- the language leaves undefined, whenever all scopes point to older ones only: no search
      -- through the scopes runs out of fuel.
      pub elab_expr-Halts :
          (e : AstExpr S F) (calls : List (FuncCallStub S F))
          → Halts (elab_expr no_name scopes m scope e calls)
      elab_expr-Halts true_const calls = with_calls-Halts m (boolean_handle no_name true) calls
      elab_expr-Halts false_const calls = with_calls-Halts m (boolean_handle no_name false) calls
      elab_expr-Halts (int_literal n) calls = with_calls-Halts m (int_handle no_name n) calls
      elab_expr-Halts (float_literal x) calls = with_calls-Halts m (float_handle no_name x) calls
      elab_expr-Halts (string_literal s) calls = with_calls-Halts m (string_handle no_name s) calls
      elab_expr-Halts (symbol_expr s) calls = load_of-Halts _ (symbol_handle-Halts s calls)
      elab_expr-Halts (array_elem a i) calls =
          load_of-Halts _ (
            elem_handle-Halts _ _ (elab_primary-Halts a calls) (λ calls1. elab_expr-Halts i calls1))
      elab_expr-Halts (member a s) calls =
          load_of-Halts _ (member_handle-Halts _ s (elab_primary-Halts a calls))
      elab_expr-Halts (call_expr f args) calls =
          unless_null-Halts _ _ (elab_args-Halts args calls) (λ nodes calls2. halted _)
      elab_expr-Halts (unary_expr op a) calls =
          unless_null-Halts _ _ (elab_expr-Halts a calls) (λ n0. make_uni-Halts op n0)
      elab_expr-Halts (binary_expr op a b) calls =
          unless_null-Halts _ _ (elab_expr-Halts a calls) (λ n0 calls1.
            unless_null-Halts _ _ (elab_expr-Halts b calls1) (λ n1. make_bin-Halts op n0 n1))
      elab_expr-Halts (ternary_expr op a b c) calls =
          unless_null-Halts _ _ (elab_expr-Halts a calls) (λ n0 calls1.
            unless_null-Halts _ _ (elab_expr-Halts b calls1) (λ n1 calls2.
              unless_null-Halts _ _ (elab_expr-Halts c calls2) (λ n2. make_tri-Halts op n0 n1 n2)))

      elab_args-Halts :
          (args : AstArgs S F) (calls : List (FuncCallStub S F))
          → Halts (elab_args no_name scopes m scope args calls)
      elab_args-Halts no_args calls = halted _
      elab_args-Halts (arg_and a args) calls =
          unless_null-Halts _ _ (elab_expr-Halts a calls) (λ n calls1.
            unless_null-Halts _ _ (elab_args-Halts args calls1) (λ ns calls2. halted _))

      pub elab_primary-Halts :
          (e : AstExpr S F) (calls : List (FuncCallStub S F))
          → Halts (elab_primary no_name scopes m scope e calls)
      elab_primary-Halts (symbol_expr s) calls = symbol_handle-Halts s calls
      elab_primary-Halts (array_elem a i) calls =
          elem_handle-Halts _ _ (elab_primary-Halts a calls) (λ calls1. elab_expr-Halts i calls1)
      elab_primary-Halts (member a s) calls = member_handle-Halts _ s (elab_primary-Halts a calls)
      elab_primary-Halts _ calls = at_not_reached
