-- ===== src/Proc.antt =====
-- kernel/proc: threads, their queues and the mutexes.
pub mod Queue
pub mod Sched
pub mod Mutex
pub mod Pids
pub mod Family
mod FamilyTests
pub mod Tests
mod MutexTests
