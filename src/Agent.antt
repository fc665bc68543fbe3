-- ===== src/Agent.antt =====
-- src/model_courier/agent: the local agent that runs a user's models.
pub mod Json
pub mod Models
pub mod Secrets
pub mod Store
pub mod Bridge
pub mod Http
pub mod Providers
pub mod Bindings
pub mod Environments
pub mod Controller
pub mod Api
pub mod Tests
