-- ===== src/Ghostdag.antt =====
-- GHOSTDAG: domain/consensus/processes/ghostdagmanager.
pub mod Compare
pub mod MergeSet
mod Tests
