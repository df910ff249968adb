-- ===== src/Ir/Elab/Labels/Exprs.antt =====
-- An expression makes a node that is neither a label nor a jump (IrMgr::elab_expr of
-- src/ir/IrMgr_expr.cc).
use ymsl.Base.{
  ℕ, ◌==◌, if◌then◌else◌, true, false, ◌≡◌, refl, none, some, List, ok, fault, undefined, ◌>>=◌,
}
use ymsl.Compiler.ShString.{ShString}
use ymsl.Compiler.Scope.{Scope}
use ymsl.Compiler.TypeMgr.{TypeMgr}
use ymsl.OpCode.{OpCode}
use ymsl.Compiler.TypeMgr.Calc.{object, calc_type1, calc_type2, calc_type3}
use ymsl.Ir.Ast.{
  AstExpr, true_const, false_const, int_literal, float_literal, string_literal, symbol_expr,
  array_elem, member, call_expr, unary_expr, binary_expr, ternary_expr,
}
use ymsl.Ir.Code.{
  Handle, scope_handle, global_var, local_var, func_handle, boolean_handle, int_handle,
  float_handle, string_handle, label_handle, type_handle, array_ref, Node, uni_node, bin_node,
  tri_node, node_type, load_node, elem_type, new_load,
}
use ymsl.Ir.Elab.{Elab, FuncCallStub}
use ymsl.Ir.Elab.Expr.{
  Elaborated, unless_null, with_calls, elab_expr, null_type, type_number, load_of, make_uni,
  make_bin, make_tri,
}
use ymsl.Ir.Elab.Decl.{elab_in}
use ymsl.Ir.Elab.Labels.{trace}
use ymsl.Ir.Elab.Labels.Quiet.{
  Ensures, done, failed, Ensures-then, Ensures-bind, option-Ensures, if-Ensures,
}
use ymsl.Ir.Elab.Labels.Cases.{IsPlain}

module _ {S F : Type 0} where
  -- A result that is plain, or NULL.
  abbrev pub GivesPlain : Elaborated S F (Node S F) → Type 0
  GivesPlain = Ensures (λ r. IsPlain r.0)

  unless_null-GivesPlain :
      {A : Type 0} (x : Elaborated S F A)
      (f : A → List (FuncCallStub S F) → Elaborated S F (Node S F))
      → ((a : A) (calls : List (FuncCallStub S F)) → GivesPlain (f a calls))
      → GivesPlain (unless_null x f)
  unless_null-GivesPlain (ok (none, calls)) f k = done (refl, refl)
  unless_null-GivesPlain (ok (some a, calls)) f k = k a calls
  unless_null-GivesPlain (fault e) f k = failed

  new_load-IsPlain :
      (m : TypeMgr S) (h : Handle S F) → Ensures (λ n. IsPlain (some n)) (new_load m h)
  unfolding new_load
  new_load-IsPlain m (scope_handle n s) = failed
  new_load-IsPlain m (global_var n t k i) = done (refl, refl)
  new_load-IsPlain m (local_var n t k i) = done (refl, refl)
  new_load-IsPlain m (func_handle n t k i) = done (refl, refl)
  new_load-IsPlain m (boolean_handle n v) = done (refl, refl)
  new_load-IsPlain m (int_handle n v) = done (refl, refl)
  new_load-IsPlain m (float_handle n v) = done (refl, refl)
  new_load-IsPlain m (string_handle n v) = done (refl, refl)
  new_load-IsPlain m (label_handle n l) = failed
  new_load-IsPlain m (type_handle n t s) = failed
  new_load-IsPlain m (array_ref b o) =
      option-Ensures (node_type b) (fault undefined)
        (λ t. object m t >>= λ d. elem_type d >>= λ e. ok (load_node e (array_ref b o))) failed
        (λ t.
          Ensures-bind (object m t) _ (λ d. Ensures-bind (elem_type d) _ (λ e. done (refl, refl))))

  with_calls-GivesPlain :
      (m : TypeMgr S) (h : Handle S F) (calls : List (FuncCallStub S F))
      → GivesPlain (with_calls (new_load m h) calls)
  with_calls-GivesPlain m h calls = Ensures-then _ _ (new_load-IsPlain m h) (λ n p. done p)

  module _ ⦃str : ShString S⦄ (no_name : S) (scopes : List (Scope S (Handle S F))) (m : TypeMgr S)
      (scope : ℕ) where
    load_of-GivesPlain :
        (x : Elaborated S F (Handle S F)) → GivesPlain (load_of no_name scopes m scope x)
    unfolding load_of
    load_of-GivesPlain x = unless_null-GivesPlain x _ (λ h. with_calls-GivesPlain m h)

    make_uni-GivesPlain :
        (op : OpCode) (a : Node S F) (calls : List (FuncCallStub S F))
        → GivesPlain (make_uni no_name scopes m scope op a calls)
    unfolding make_uni
    make_uni-GivesPlain op a calls = Ensures-bind (calc_type1 m op (type_number m a)) _ (λ r.
        option-Ensures r (ok (none, calls)) (λ c. ok (some (uni_node op c.type a), calls))
          (done (refl, refl)) (λ c. done (refl, refl)))

    make_bin-GivesPlain :
        (op : OpCode) (a b : Node S F) (calls : List (FuncCallStub S F))
        → GivesPlain (make_bin no_name scopes m scope op a b calls)
    unfolding make_bin
    make_bin-GivesPlain op a b calls =
        Ensures-bind (calc_type2 m op (type_number m a) (type_number m b)) _ (λ r.
          option-Ensures r (ok (none, calls)) (λ c. ok (some (bin_node op c.type a b), calls))
            (done (refl, refl)) (λ c. done (refl, refl)))

    make_tri-GivesPlain :
        (op : OpCode) (a b c : Node S F) (calls : List (FuncCallStub S F))
        → GivesPlain (make_tri no_name scopes m scope op a b c calls)
    unfolding make_tri null_type
    make_tri-GivesPlain op a b c calls =
        Ensures-bind (calc_type3 m op (type_number m a) (type_number m b) (type_number m c)) _ (λ r.
          option-Ensures r (ok (none, calls))
            (λ t.
              if t.type == null_type m
              then ok (none, calls)
              else ok (some (tri_node op t.type a b c), calls))
            (done (refl, refl))
            (λ t. if-Ensures (t.type == null_type m) _ _ (done (refl, refl)) (done (refl, refl))))

    elab_expr-GivesPlain :
        (e : AstExpr S F) (calls : List (FuncCallStub S F))
        → GivesPlain (elab_expr no_name scopes m scope e calls)
    unfolding elab_expr
    elab_expr-GivesPlain true_const calls =
        with_calls-GivesPlain m (boolean_handle no_name true) calls
    elab_expr-GivesPlain false_const calls =
        with_calls-GivesPlain m (boolean_handle no_name false) calls
    elab_expr-GivesPlain (int_literal n) calls =
        with_calls-GivesPlain m (int_handle no_name n) calls
    elab_expr-GivesPlain (float_literal x) calls =
        with_calls-GivesPlain m (float_handle no_name x) calls
    elab_expr-GivesPlain (string_literal s) calls =
        with_calls-GivesPlain m (string_handle no_name s) calls
    elab_expr-GivesPlain (symbol_expr s) calls = load_of-GivesPlain _
    elab_expr-GivesPlain (array_elem a i) calls = load_of-GivesPlain _
    elab_expr-GivesPlain (member a s) calls = load_of-GivesPlain _
    elab_expr-GivesPlain (call_expr f args) calls =
        unless_null-GivesPlain _ _ (λ ns calls1. done (refl, refl))
    elab_expr-GivesPlain (unary_expr op a) calls =
        unless_null-GivesPlain _ _ (λ n calls1. make_uni-GivesPlain op n calls1)
    elab_expr-GivesPlain (binary_expr op a b) calls =
        unless_null-GivesPlain (elab_expr no_name scopes m scope a calls) _ (λ n0 calls1.
          unless_null-GivesPlain (elab_expr no_name scopes m scope b calls1) _
            (λ n1 calls2. make_bin-GivesPlain op n0 n1 calls2))
    elab_expr-GivesPlain (ternary_expr op a b c) calls =
        unless_null-GivesPlain (elab_expr no_name scopes m scope a calls) _ (λ n0 calls1.
          unless_null-GivesPlain (elab_expr no_name scopes m scope b calls1) _ (λ n1 calls2.
            unless_null-GivesPlain (elab_expr no_name scopes m scope c calls2) _
              (λ n2 calls3. make_tri-GivesPlain op n0 n1 n2 calls3)))

  module _ ⦃str : ShString S⦄ (no_name : S) where
    pub elab_in-IsPlain :
        (scope : ℕ) (e : AstExpr S F) (st : Elab S F)
        → Ensures (λ r. IsPlain r.0 × (trace r.1 ≡ trace st)) (elab_in no_name scope e st)
    unfolding elab_in
    elab_in-IsPlain scope e st =
        Ensures-then _ _ (elab_expr-GivesPlain no_name st.scopes st.types scope e st.func_calls)
          (λ r p. done (p, refl))
