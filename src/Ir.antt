-- ===== src/Ir.antt =====
-- The intermediate code (src/ir): nodes, and the evaluation of constant expressions.
pub mod Node
pub mod Interp
pub mod Enum
pub mod Ast
pub mod Code
pub mod Elab
mod Tests
