-- ===== src/Compiler.antt =====
-- The compiler's data (src/compiler): types and their manager, scopes.
pub mod Types
pub mod TypeMgr
pub mod ShString
pub mod Scope
mod Tests
