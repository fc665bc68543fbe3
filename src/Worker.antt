-- ===== src/Worker.antt =====
-- src/model_courier/worker: the outbound worker.
pub mod Factory
pub mod ProcessRunner
pub mod Runtime
pub mod Tests
