-- ===== src/Ir/Elab/Tests.antt =====
-- A concrete program, with numbers for the shared strings and integers for the floating-point
-- numbers: var x: int = 0; while x < 3 { if x == 1 { break; } else { x++; } }
use ymsl.Base.{
  ℕ, ◌≡◌, refl, ◌==◌, ==_iff, Option, none, some, List, [], ◌∷◌, Outcome, ok, fault, not_reached,
  Bool, true, false,
}
use ymsl.Base.Chained.{move_all}
use ymsl.Base.Int.{ℤ, pos, ◌+ℤ◌, ◌-ℤ◌, ◌*ℤ◌, eq_ℤ, lt_ℤ, le_ℤ}
use ymsl.OpCode.{OpCode}
use ymsl.Compiler.ShString.{ShString}
use ymsl.Compiler.Types.{TypeId, prim_type}
use ymsl.Compiler.TypeMgr.{TypeMgr}
use ymsl.Ir.Ast.{
  AstExpr, int_literal, symbol_expr, binary_expr, simple_type, AstStatement, block, break_stmt,
  incr, while_stmt, if_stmt, var_decl, AstStatements, no_stmts, stmt_and, else_stmt, switch_stmt,
  ternary_expr, true_const, call_expr, no_args,
}
use ymsl.Ir.Elab.Expr.{elab_expr}
use ymsl.Ir.Code.{Handle}
use ymsl.Ir.Interp.{FloatOps}
use ymsl.Ir.Elab.{Elab}
use ymsl.Ir.Elab.Stmt.{elab_stmt}
use ymsl.Ir.Elab.Root.{elaborate}
use ymsl.Ir.Elab.Ends.{Ends}
use ymsl.Ir.Elab.Ends.Program.{ResultIsLinked, elaborate-Ends}
use ymsl.Ir.Elab.Labels.Closed.{IsClosed, elaborate-IsClosed}

instance name_string : ShString ℕ
name_string = record { equal = λ a b. a == b; equal_iff = ==_iff; hash = λ a. a }

abbrev ops : FloatOps ℤ
ops = record {
  of_int = λ n. n;
  neg = λ n. pos 0 -ℤ n;
  add = λ m n. m +ℤ n;
  sub = λ m n. m -ℤ n;
  mul = λ m n. m *ℤ n;
  div = λ m n. m;
  equal = eq_ℤ;
  less = lt_ℤ;
  less_equal = le_ℤ;
}

-- The built-in types, in a table of two chains.
abbrev builtin_types : TypeMgr ℕ
builtin_types = record {
  types =
      prim_type TypeId.void
      ∷ prim_type TypeId.boolean
      ∷ prim_type TypeId.int
      ∷ prim_type TypeId.float
      ∷ prim_type TypeId.string
      ∷ [];
  void_type = 0;
  boolean_type = 1;
  int_type = 2;
  float_type = 3;
  string_type = 4;
  hash_size = 2;
  next_limit = 3;
  hash_table = [] ∷ [] ∷ [];
  hash_num = 0;
}

abbrev start : Elab ℕ ℤ
start = record {
  scopes = [];
  types = builtin_types;
  label_num = 0;
  defined = [];
  undef_list = [];
  func_calls = [];
  nodes = [];
  local_vars = [];
  global_vars = [];
  funcs = [];
}

-- `x` is the name 5.
abbrev x : AstExpr ℕ ℤ
x = symbol_expr 5

abbrev test_one : AstExpr ℕ ℤ
test_one = binary_expr OpCode.equal x (int_literal (pos 1))

abbrev leave : AstStatement ℕ ℤ
leave = block (stmt_and break_stmt no_stmts)

abbrev program : AstStatements ℕ ℤ
program = stmt_and (var_decl 5 (simple_type TypeId.int) (some (int_literal (pos 0)))) (
    stmt_and
      (while_stmt (binary_expr OpCode.lt x (int_literal (pos 3)))
        (if_stmt test_one leave (else_stmt (block (stmt_and (incr x) no_stmts)))))
      no_stmts)

abbrev state_of : Outcome (Option (Elab ℕ ℤ × List (Option (Handle ℕ ℤ)))) → Elab ℕ ℤ
state_of (ok (some (e, hs))) = e
state_of (ok none) = start
state_of (fault f) = start

-- The state at the end, of which the run computes all.
abbrev final : Elab ℕ ℤ
final = state_of (elaborate 0 ops program 7 start)

program-final : elaborate 0 ops program 7 start ≡ ok (some (final, []))
unfolding elaborate move_all name_string
program-final = refl

elaborate-IsClosed_example : IsClosed final
elaborate-IsClosed_example = elaborate-IsClosed 0 ops program 7 start program-final

-- A switch statement ends in a failed assertion, and a conditional operation on two calls is NULL.
switch_one : elab_stmt 0 ops (switch_stmt x no_stmts) 0 none none 0 final ≡ fault not_reached
unfolding elab_stmt
switch_one = refl

abbrev two_calls : AstExpr ℕ ℤ
two_calls = ternary_expr OpCode.ite true_const (call_expr x no_args) (call_expr x no_args)

no_type :
    ◌≡◌ {A = Bool}
      (elim (elab_expr 0 [] builtin_types 0 two_calls []) [
        | ok r ↦ elim r.0 [ none ↦ true | some n ↦ false ]
        | fault f ↦ false
      ])
      true
unfolding elab_expr
no_type = refl

elaborate-Ends_example : Ends ResultIsLinked (elaborate 0 ops program 7 start)
elaborate-Ends_example = elaborate-Ends 0 ops program 7 start (λ id s e. absurd (some_none e))
  where
    some_none : {A : Type 0} {a : A} → ◌≡◌ {A = Option A} none (some a) → ⊥
    some_none e = cc
