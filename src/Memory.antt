-- ===== src/Memory.antt =====
-- kernel/src/memory: pages, page table entries, memory handlers, areas and sets of areas.
pub mod Page
pub mod Entry
pub mod Table
pub mod Handler
pub mod Backing
pub mod Area
pub mod Set
pub mod SmallMachine
mod Tests
mod Examples
