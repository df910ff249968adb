-- ===== src/Lib.antt =====
-- The script language ymsl: its scanner and the core of its compiler.
--
-- A source text goes through the scanner (src/parser/YmslScanner.cc), which asks the dictionary of
-- reserved words (src/parser/RsrvWordDic.cc), into the parser and becomes a syntax tree. IrMgr
-- (src/ir) turns the tree into intermediate code; for the types of expressions it asks TypeMgr
-- (src/compiler/TypeMgr.cc), for names the scopes (src/compiler/Scope.cc).
--
-- The files and the code they are about:
--
-- - Base and its children: lists, Boolean tests and 32-bit integers. Base/Chained is the chained hash
--   table that TypeMgr and Scope both write out by hand, Base/Faults the results of code that may
--   reach a failed assertion (`not_reached`), do something undefined, or run out of fuel.
-- - Scanner: Token has the token kinds, Chars the character tests, RsrvWordDic and Words the
--   dictionary and its words. Lexemes has the states of YmslScanner::scan() that end in a token, Scan
--   the other states, read_token and unget_token, each under the name of its label. The input is the
--   list of the remaining characters; its end is EOF. Progress, Driver, Munch, Reals, Layout,
--   Dictionary and Spelling have the proofs. The recursion is on the input; only the loop over
--   read_token in Driver has fuel, one more than the input has characters.
-- - OpCode: the operators (include/OpCode.h).
-- - Compiler/Types: the types (include/Type.h and the classes of src/compiler). A type is known by
--   its pointer; the model's pointer is its place in TypeMgr's list of all types.
-- - Compiler/TypeMgr: the manager with its hash table and all requests; its child Calc has the typing
--   of operations (calc_type1, calc_type2, calc_type3), where a NULL result is `none`. Valid, Intern,
--   Pointers, Init and Coercions have the proofs.
-- - Compiler/ShString: what the compiler relies on of the shared strings of YmUtils, as an interface.
-- - Compiler/Scope: scopes, Scope::find on fuel (any number above the number of the scope is enough,
--   since a scope points to older ones only), and IrMgr::new_scope. Loops, Table, Count and Resolve have
--   the proofs.
-- - Ir/Node, Ir/Interp: the nodes of constant expressions and IrInterp (src/ir/IrInterp.cc), whose
--   three functions keep their names. `int` is a 32-bit integer whose overflow is undefined (Base/Int32),
--   the arithmetic of `double` is a parameter. Typed says which expressions are well-typed; Outcomes,
--   Operators and Sound have the proofs.
-- - Ir/Ast: the syntax tree as IrMgr reads it (include/AstExpr.h, AstStatement.h, AstType.h). A pointer
--   that may be NULL is an option.
-- - Ir/Code: the handles and nodes of the intermediate code, with what each of them holds
--   (include/IrHandle.h, include/IrNode.h). A label is known by its number.
-- - Ir/Elab: the state of IrMgr while it elaborates a program, with the toplevel and its functions. A
--   block is known by its number, 0 for the toplevel, and the nodes of all blocks stand in one list in
--   the order in which they are made, each with the number of its block. Expr has elab_expr and
--   elab_primary (src/ir/IrMgr_expr.cc), Decl resolve_type, reg_const and reg_enum, Func reg_func, Stmt
--   elab_stmt (all in src/ir/IrMgr_stmt.cc), and Root elaborate (src/ir/IrMgr.cc). The fuel of find is
--   one more than the number of scopes, that of the search for an enum value one more than the number
--   of the used values. What the code does with a NULL pointer, or with a variable that has no value, is
--   undefined. A switch statement fails an assertion, since AstSwitch does not override expr().
--   Labels and its children are about labels and jumps, Ends and its children about the
--   fuel.
-- - Ir/Enum: the values of enum constants in IrMgr::reg_enum (src/ir/IrMgr_stmt.cc), from the
--   elaborated expressions. The search for an unused value has fuel; one more than the number of the
--   used values is enough. Values and Constants have the proofs.
-- - Vsm/CodeList: the code of the stack machine and its builder (include/VsmCodeList.h,
--   src/vsm/VsmCodeList.cc); the two words of a `double` or of a pointer are a parameter. RoundTrip has
--   the proofs.
-- - Vsm/Opcode, Vsm/Value, Vsm/Machine: the instructions, the values (a union, whose wrong member is
--   undefined) and the state of the stack machine with its inline accesses (include/Vsm.h). Vsm/Stack is
--   the operand stack as an interface, which Machine fills with the array and its child Refine with a
--   bounded list.
-- - Vsm/Effect, Vsm/Exec: the instructions of Vsm::execute (src/vsm/Vsm.cc), those that work on the
--   operand stack only by their effect on any stack of the interface, the others on the state. The
--   arithmetic of `double` and its conversion to int are a parameter. The loop is on fuel, one for each
--   instruction; straight-line code needs one more than it has instructions. Straight has the builder's
--   calls for such code, Step and Refine its proofs; Control is about branches, return and halt.
-- - Vsm/Module: the modules of the machine and their builder (include/VsmModule.h,
--   src/vsm/VsmModule.cc), whose arrays are lists.
-- - Scanner/Tests, Compiler/Tests, Ir/Tests, Ir/Elab/Tests, Vsm/Tests: concrete runs.
--
-- Not modelled: file positions of tokens, messages and printing; the parser, which bison generates;
-- AstMgr and AstPrinter, which allocate and print the syntax tree; the import of modules, in
-- IrMgr::elaborate and YmslCompiler; the references to members, which IrMgr makes from a variable
-- without a value; the code generator VsmGen, a stub; the old engine (src/engine); the variables of
-- modules (VsmVar) and the native modules; the destructors.
pub mod Base
pub mod Compiler
pub mod Ir
pub mod OpCode
pub mod Scanner
pub mod Vsm
