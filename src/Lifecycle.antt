-- ===== src/Lifecycle.antt =====
-- The life of the tables.
pub mod Evolution
pub mod Persistence
pub mod Step
pub mod Reachable
pub mod Operations
