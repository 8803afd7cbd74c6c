-- ===== src/Script/Opcode.antt =====
-- The opcode functions of domain/consensus/utils/txscript/opcode.go. A function that takes the
-- engine and may return an error is a `Handler`; where Go names the operand `op`, only its value
-- and data are read.
pub mod Control
pub mod Locks
pub mod Shuffle
pub mod Arith
pub mod Signature
pub mod Table
pub mod Numbers
pub mod Verify
pub mod TimeLocks
pub mod Unary
pub mod Frame
pub mod MultiSig
