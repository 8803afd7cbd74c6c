-- ===== src/Script.antt =====
-- The script language (domain/consensus/utils/txscript).
pub mod Outcome
pub mod Num
pub mod Stack
pub mod Engine
pub mod Parse
pub mod Opcode
pub mod Exec
mod Tests
