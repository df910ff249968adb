-- ===== src/Ir/Elab/Root.antt =====
-- A whole program (IrMgr::elaborate and resolve_func of src/ir/IrMgr.cc), without the import
-- statements at its head.
use ymsl.Base.{
  ℕ, Bool, true, false, ◌||◌, ◌&&◌, ◌==◌, if◌then◌else◌, Option, none, some, List, [], ◌∷◌, length,
  Outcome, ok, fault, undefined, ◌>>=◌,
}
use ymsl.Compiler.ShString.{ShString}
use ymsl.Ir.Ast.{AstStatements}
use ymsl.Ir.Code.{Handle, func_handle}
use ymsl.Ir.Interp.{FloatOps}
use ymsl.Ir.Elab.{Elab, FuncCallStub, push_scope}
use ymsl.Ir.Elab.Decl.{primary_in}
use ymsl.Ir.Elab.Stmt.{elab_stmts}

unfoldable pub is_one_of : ℕ → List ℕ → Bool
is_one_of l [] = false
is_one_of l (k ∷ ks) = l == k || is_one_of l ks

-- The check of mUndefList: each label has been set as defined.
unfoldable pub all_defined : List ℕ → List ℕ → Bool
unfolding is_one_of
all_defined [] defined_labels = true
all_defined (l ∷ ls) defined_labels = is_one_of l defined_labels && all_defined ls defined_labels

module _ {S F : Type 0} where
  -- The members of the toplevel block, and the lists that `elaborate` clears. The labels of an earlier
  -- run are out of reach.
  unfoldable pub new_toplevel : Elab S F → Elab S F
  new_toplevel st = record st {
    defined = [];
    undef_list = [];
    func_calls = [];
    nodes = [];
    local_vars = [];
    global_vars = [];
    funcs = [];
  }

  -- The handle of a function, which the call is given; `none` stands for `return false`.
  unfoldable pub function_of : Option (Handle S F) → Option (Handle S F)
  function_of (some (func_handle n t m i)) = some (func_handle n t m i)
  function_of _ = none

  module _ ⦃str : ShString S⦄ (no_name : S) where
    -- resolve_func for all calls. A call inside of a function's expression would be added to the list
    -- that the loop goes through.
    unfoldable pub resolve_calls :
        List (FuncCallStub S F) → Elab S F → Outcome (List (Option (Handle S F)))
    unfolding primary_in function_of
    resolve_calls [] st = ok []
    resolve_calls (c ∷ cs) st =
        let rest = resolve_calls cs st in
        primary_in no_name c.func_scope c.func_expr st >>= λ (h, st1).
        if length st1.func_calls == length st.func_calls
        then rest >>= (λ hs. ok (function_of h ∷ hs))
        else fault undefined

    -- IrMgr::elaborate: the state, with the functions that the calls go to; or NULL.
    unfoldable pub elaborate :
        FloatOps F
        → AstStatements S F
        → S
        → Elab S F
        → Outcome (Option (Elab S F × List (Option (Handle S F))))
    unfolding new_toplevel push_scope elab_stmts resolve_calls all_defined
    elaborate ops ss name st = push_scope no_name none name (new_toplevel st) >>= λ (scope, st1).
        elab_stmts no_name ops ss scope none none 0 st1 >>= λ st2.
        resolve_calls st2.func_calls st2 >>= λ hs.
        ok (if all_defined st2.undef_list st2.defined then some (st2, hs) else none)
