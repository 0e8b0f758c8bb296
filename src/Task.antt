-- ===== src/Task.antt =====
-- kernel/src/task/executor/mod.rs: the fair scheduler.
pub mod VRuntime
pub mod Load
pub mod RunQueue
pub mod Timer
mod Tests
