-- ===== src/Ir/Elab.antt =====
-- The state of the elaboration (IrMgr of include/IrMgr.h, IrToplevel, IrCodeBlock and IrFuncBlock of
-- src/ir), and what changes it. The nodes and the local variables of all blocks are one list each, in
-- the order of the calls of add_node and add_local_var, with the number of the block: 0 is the
-- toplevel, and the functions follow in the order of add_function.
pub mod Expr
pub mod Decl
pub mod Func
pub mod Stmt
pub mod Root
pub mod Labels
pub mod Ends
mod Tests
use ymsl.Base.{
  ℕ, suc, ◌+◌, ◌==◌, Bool, true, false, if◌then◌else◌, Option, none, some, List, [], ◌∷◌, ◌++◌,
  length, get_elem?, set, Outcome, ok, fault, undefined, ◌>>=◌,
}
use ymsl.Compiler.ShString.{ShString}
use ymsl.Compiler.Scope.{Scope, add, find_local, find, new_scope}
use ymsl.Compiler.TypeMgr.{TypeMgr}
use ymsl.Ir.Ast.{AstExpr}
use ymsl.Ir.Code.{Handle, Node, handle_name}

-- FuncCallStub: the expression of the function, the scope, and the handle that the call is given at
-- the end.
pub record FuncCallStub (S F : Type 0) : Type 0 where
  pub func_expr : AstExpr S F
  pub func_scope : ℕ

-- IrFuncBlock, without its nodes and variables.
pub record FuncBlock (S F : Type 0) : Type 0 where
  pub arg_list : List (Handle S F)
  pub arg_init_list : List (Option (Node S F))
  pub func_handle_of : Handle S F

pub record Elab (S F : Type 0) : Type 0 where
  pub scopes : List (Scope S (Handle S F))
  pub types : TypeMgr S
  pub label_num : ℕ
  pub defined : List ℕ
  pub undef_list : List ℕ
  pub func_calls : List (FuncCallStub S F)
  pub nodes : List (ℕ × Option (Node S F))
  pub local_vars : List (ℕ × Handle S F)
  pub global_vars : List (Handle S F)
  pub funcs : List (FuncBlock S F)

-- The number of the entries of a block.
unfoldable pub count_of : {A : Type 0} → ℕ → List (ℕ × A) → ℕ
count_of b [] = 0
count_of b ((c, a) ∷ xs) = let n = count_of b xs in if c == b then suc n else n

module _ {S F : Type 0} where
  unfoldable pub add_node : ℕ → Option (Node S F) → Elab S F → Elab S F
  add_node b node e = record e { nodes = e.nodes ++ (b, node) ∷ [] }

  unfoldable pub next_local_index : ℕ → Elab S F → ℕ
  unfolding count_of
  next_local_index b e = count_of b e.local_vars

  unfoldable pub add_local_var : ℕ → Handle S F → Elab S F → Elab S F
  add_local_var b h e = record e { local_vars = e.local_vars ++ (b, h) ∷ [] }

  unfoldable pub next_global_index : Elab S F → ℕ
  next_global_index e = length e.global_vars

  unfoldable pub add_global_var : Handle S F → Elab S F → Elab S F
  add_global_var h e = record e { global_vars = e.global_vars ++ h ∷ [] }

  unfoldable pub next_func_index : Elab S F → ℕ
  next_func_index e = length e.funcs

  -- add_function; the number of the new block is its place behind the toplevel.
  unfoldable pub add_function : FuncBlock S F → Elab S F → Elab S F
  add_function f e = record e { funcs = e.funcs ++ f ∷ [] }

  -- new_Label
  unfoldable pub new_label : Elab S F → ℕ × Elab S F
  new_label e = (e.label_num, record e { label_num = e.label_num + 1 })

  -- `set_defined()` of a label.
  unfoldable pub set_defined : ℕ → Elab S F → Elab S F
  set_defined l e = record e { defined = e.defined ++ l ∷ [] }

  -- `mUndefList.push_back(label)`
  unfoldable pub add_undef : ℕ → Elab S F → Elab S F
  add_undef l e = record e { undef_list = e.undef_list ++ l ∷ [] }

  -- The calls on a scope, by its number. The fuel of `find` is more than a scope's number.
  module _ ⦃str : ShString S⦄ (no_name : S) where
    unfoldable pub scope_at : Elab S F → ℕ → Outcome (Scope S (Handle S F))
    scope_at e id = elim (get_elem? e.scopes id) [ none ↦ fault undefined | some s ↦ ok s ]

    unfoldable pub find_in_scope :
        List (Scope S (Handle S F)) → ℕ → S → Outcome (Option (Handle S F))
    unfolding find handle_name
    find_in_scope scopes id n = find (handle_name no_name) scopes (suc (length scopes)) id n

    unfoldable pub add_to_scope : ℕ → Handle S F → Elab S F → Outcome (Elab S F)
    unfolding add handle_name scope_at
    add_to_scope id h e = do
      s ← scope_at e id
      ok (record e { scopes = set e.scopes id (add (handle_name no_name) s h) })

    -- IrMgr::new_scope
    unfoldable pub push_scope : Option ℕ → S → Elab S F → Outcome (ℕ × Elab S F)
    unfolding new_scope handle_name
    push_scope parent n e = do
      (id, scopes) ← new_scope (handle_name no_name) e.scopes parent n
      ok (id, record e { scopes = scopes })

    -- IrMgr::check_name
    unfoldable pub check_name : S → ℕ → Elab S F → Outcome Bool
    unfolding find_local handle_name scope_at
    check_name n id e = do
      s ← scope_at e id
      ok (elim (find_local (handle_name no_name) s n) [ none ↦ true | some h ↦ false ])
