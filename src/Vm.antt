-- ===== src/Vm.antt =====
-- kernel/vm: address spaces.
pub mod Area
pub mod Objects
pub mod Space
pub mod Remove
pub mod Map
pub mod Brk
pub mod Access
pub mod Fault
pub mod Mmap
pub mod Tests
mod CallTests
