-- ===== src/Server.antt =====
-- src/model_courier/server: the control plane.
pub mod Exec
pub mod Db
pub mod Repository
pub mod Lifecycle
pub mod Fencing
pub mod Claiming
pub mod Keeping
pub mod Offering
pub mod Sweeping
pub mod Submitting
pub mod Tokens
pub mod Quotas
pub mod Storage
pub mod Cleanup
pub mod Routes
pub mod Tests
