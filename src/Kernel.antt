-- ===== src/Kernel.antt =====
-- Smaller parts of kernel/src: exception syndromes, the event bus, signals, file handles and the lock.
pub mod Trap
pub mod EventBus
pub mod Signal
pub mod FileHandle
pub mod Spin
mod Tests
