-- ===== src/Ir/Ast.antt =====
-- The syntax tree (include/AstExpr.h, AstType.h and AstStatement.h, and the classes of src/ast): the
-- data of its nodes. `S` is ShString, `F` the floating-point numbers. A pointer that the parser may
-- leave NULL is an Option; the else part of a conditional is one of its own kind.
use ymsl.Base.{Option, List}
use ymsl.Base.Int.{ℤ}
use ymsl.OpCode.{OpCode}
use ymsl.Compiler.Types.{TypeId}

mutual
  pub data AstExpr (S F : Type 0) : Type 0 where
    true_const : AstExpr S F
    false_const : AstExpr S F
    int_literal : ℤ → AstExpr S F
    float_literal : F → AstExpr S F
    string_literal : S → AstExpr S F
    symbol_expr : S → AstExpr S F
    array_elem : AstExpr S F → AstExpr S F → AstExpr S F
    member : AstExpr S F → S → AstExpr S F
    call_expr : AstExpr S F → AstArgs S F → AstExpr S F
    unary_expr : OpCode → AstExpr S F → AstExpr S F
    binary_expr : OpCode → AstExpr S F → AstExpr S F → AstExpr S F
    ternary_expr : OpCode → AstExpr S F → AstExpr S F → AstExpr S F → AstExpr S F

  pub data AstArgs (S F : Type 0) : Type 0 where
    no_args : AstArgs S F
    arg_and : AstExpr S F → AstArgs S F → AstArgs S F

pub data AstType (S F : Type 0) : Type 0 where
  simple_type : TypeId → AstType S F
  array_of set_of : AstType S F → AstType S F
  map_of : AstType S F → AstType S F → AstType S F
  name_of_type : AstExpr S F → AstType S F

-- A parameter of a function, with its default value.
pub record AstParam (S F : Type 0) : Type 0 where
  pub param_name : S
  pub param_type : AstType S F
  pub param_expr : Option (AstExpr S F)

mutual
  pub data AstStatement (S F : Type 0) : Type 0 where
    block : AstStatements S F → AstStatement S F
    break_stmt continue_stmt null_stmt import_stmt toplevel_stmt : AstStatement S F
    const_decl : S → AstType S F → AstExpr S F → AstStatement S F
    decr incr : AstExpr S F → AstStatement S F
    do_while : AstStatement S F → AstExpr S F → AstStatement S F
    while_stmt : AstExpr S F → AstStatement S F → AstStatement S F
    for_stmt :
        AstStatement S F → AstExpr S F → AstStatement S F → AstStatement S F → AstStatement S F
    if_stmt : AstExpr S F → AstStatement S F → AstElse S F → AstStatement S F
    switch_stmt : AstExpr S F → AstStatements S F → AstStatement S F
    enum_decl : S → List (S × Option (AstExpr S F)) → AstStatement S F
    assignment : AstExpr S F → AstExpr S F → AstStatement S F
    inplace_op : OpCode → AstExpr S F → AstExpr S F → AstStatement S F
    expr_stmt : AstExpr S F → AstStatement S F
    func_decl : S → AstType S F → List (AstParam S F) → AstStatement S F → AstStatement S F
    goto_stmt label_stmt : S → AstStatement S F
    return_stmt : Option (AstExpr S F) → AstStatement S F
    var_decl : S → AstType S F → Option (AstExpr S F) → AstStatement S F

  -- The statements of a block, and those of the cases of a switch.
  pub data AstStatements (S F : Type 0) : Type 0 where
    no_stmts : AstStatements S F
    stmt_and : AstStatement S F → AstStatements S F → AstStatements S F

  pub data AstElse (S F : Type 0) : Type 0 where
    no_else : AstElse S F
    else_stmt : AstStatement S F → AstElse S F
