-- ===== src/Process.antt =====
-- kernel/src/process and the system calls on processes, files and paths.
pub mod World
pub mod Calls
pub mod Links
pub mod Steps
pub mod Wait
pub mod Files
pub mod Path
pub mod Stack
pub mod Elf
pub mod Tty
pub mod Context
pub mod Directory
pub mod UserMemory
pub mod Deliver
mod Tests
mod Examples
mod Program
