-- ===== src/Vsm.antt =====
-- The stack machine (src/vsm, include/Vsm.h) and its code.
pub mod CodeList
pub mod Opcode
pub mod Value
pub mod Stack
pub mod Effect
pub mod Machine
pub mod Exec
pub mod Module
mod Tests
