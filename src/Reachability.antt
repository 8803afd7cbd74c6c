-- ===== src/Reachability.antt =====
-- The tree reachability of domain/consensus/processes/reachabilitymanager.
pub mod Store
pub mod Interval
pub mod Tree
pub mod FutureCovering
mod Tests
