-- ===== src/Procedure.antt =====
-- src/procedure: the procedures that a life cycle runs, but for the life cycle itself.
pub mod Report
pub mod Register
pub mod Tasks
pub mod Discover
mod Tests
