-- ===== src/Utxo.antt =====
-- The UTXO diffs (domain/consensus/utils/utxo).
pub mod Collection
pub mod Diff
pub mod Transaction
mod Tests
