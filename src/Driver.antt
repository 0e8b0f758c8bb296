-- ===== src/Driver.antt =====
-- kernel/src/drivers: the interrupt controller and the device tree.
pub mod Gic
pub mod DeviceTree
mod Tests
