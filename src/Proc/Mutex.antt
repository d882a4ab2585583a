-- ===== src/Proc/Mutex.antt =====
-- kernel/proc/kmutex.c: a mutex that is handed over on unlock. None is a failed assertion.
pub mod Invariant
pub mod Exclusion
pub mod Paths
pub mod Safety
pub mod Lifetime
use kernel.Base.{ℕ, Bool, true, false, Option, none, some, ◌==◌, if◌then◌else◌}
use kernel.Proc.Queue.{Sched, sched_queue_empty, is_on}
use kernel.Proc.Sched.{sched_sleep_on, sched_cancellable_sleep_on, sched_wakeup_on}

-- One mutex with the scheduler; `km_waitq` is a number of a queue.
pub record Mutex : Type 0 where
  pub holder : Option ℕ
  pub waitq : ℕ
  pub sched : Sched

-- How a call of a lock function goes on: it has the lock, it returns -EINTR, or it sleeps.
pub data Locking : Type 0 where
  acquired interrupted blocked : Locking

abbrev pub take : Mutex → Mutex
take m = record m { holder = some m.sched.current }

abbrev pub holds : ℕ → Option ℕ → Bool
holds t h = is_on t h

unfoldable pub lock_held : Option ℕ → Mutex → Option (Locking × Mutex)
lock_held none m = some (acquired, take m)
lock_held (some _) m = elim (sched_sleep_on m.waitq m.sched) [
  | none ↦ none
  | some s ↦ some (blocked, record m { sched = s })
]

-- `kmutex_lock`, up to the `sched_switch` of a sleep.
unfoldable pub kmutex_lock : Mutex → Option (Locking × Mutex)
unfolding lock_held
kmutex_lock m = if holds m.sched.current m.holder then none else lock_held m.holder m

unfoldable pub lock_held_cancellable : Option ℕ → Mutex → Option (Locking × Mutex)
lock_held_cancellable none m = some (acquired, take m)
lock_held_cancellable (some _) m = elim (sched_cancellable_sleep_on m.waitq m.sched) [
  | none ↦ none
  | some (told, s) ↦ some ((if told then interrupted else blocked), record m { sched = s })
]

-- `kmutex_lock_cancellable`, up to the `sched_switch` of a sleep.
unfoldable pub kmutex_lock_cancellable : Mutex → Option (Locking × Mutex)
unfolding lock_held_cancellable
kmutex_lock_cancellable m =
    if holds m.sched.current m.holder then none else lock_held_cancellable m.holder m

-- The new holder, which `kmutex_unlock` asserts not to be the current thread.
unfoldable pub hand_over : Mutex → Option (Option ℕ × Sched) → Option Mutex
hand_over m none = none
hand_over m (some (next, s)) =
    if holds m.sched.current next then none else some (record m { holder = next; sched = s })

-- `kmutex_unlock`
unfoldable pub kmutex_unlock : Mutex → Option Mutex
unfolding hand_over
kmutex_unlock m =
    if holds m.sched.current m.holder
    then if sched_queue_empty m.waitq m.sched
      then some (record m { holder = none })
      else hand_over m (sched_wakeup_on m.waitq m.sched)
    else none
