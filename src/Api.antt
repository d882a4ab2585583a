-- ===== src/Api.antt =====
-- kernel/api: copying between user space and the kernel, and the system calls.
pub mod Memory
pub mod Blocks
pub mod Calls
pub mod Outcomes
pub mod Transfers
pub mod Dispatch
pub mod Tests
