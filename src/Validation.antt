-- ===== src/Validation.antt =====
-- Transaction validation of domain/consensus/processes/transactionvalidator.
pub mod Transaction
pub mod Chain
pub mod Payload
pub mod Isolation
pub mod Context
mod Tests
