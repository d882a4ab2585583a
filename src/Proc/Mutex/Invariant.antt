-- ===== src/Proc/Mutex/Invariant.antt =====
-- kernel/proc/kmutex.c: threads that lock and unlock one mutex, cancelled and scheduled in any order.
use kernel.Base.{ℕ, ◌≡◌, Bool, none, some, if◌then◌else◌, update}
use kernel.Proc.Queue.{Sched}
use kernel.Proc.Sched.{sched_switch, kthread_cancel, sched_make_runnable, cancellable_sleep_result}
use kernel.Proc.Mutex.{
  Mutex, Locking, acquired, interrupted, blocked, kmutex_lock, kmutex_lock_cancellable,
  kmutex_unlock,
}

-- Where a thread is with respect to the mutex: outside, asleep in a lock function, or with a lock
-- function returned that gave it the mutex.
pub data Place : Type 0 where
  outside locking locking_cancellable inside : Place

pub record World : Type 0 where
  pub mutex : Mutex
  pub place : ℕ → Place

abbrev pub cur : World → ℕ
cur w = w.mutex.sched.current

-- The place after a lock function's first part.
abbrev pub after : Place → Locking → Place
after asleep acquired = inside
after asleep interrupted = outside
after asleep blocked = asleep

abbrev pub moved : World → Mutex → Place → World
moved w m p = record { mutex = m; place = update w.place (cur w) p }

abbrev pub rescheduled : World → Sched → World
rescheduled w s = record w { mutex = record w.mutex { sched = s } }

-- What the threads do. `returns` and `returns_cancellable` are the rest of a lock function, when
-- `sched_switch` has come back to the thread; `starts` is a new thread, or one that lets others run.
-- `cancels` on the current thread is its exit; the relation lets it go on, which only adds states.
pub data Step (w : World) : World → Type 0 where
  locks :
      (r : Locking) (m : Mutex)
      → w.place (cur w) ≡ outside
      → kmutex_lock w.mutex ≡ some (r, m)
      → Step w (moved w m (after locking r))
  locks_cancellable :
      (r : Locking) (m : Mutex)
      → w.place (cur w) ≡ outside
      → kmutex_lock_cancellable w.mutex ≡ some (r, m)
      → Step w (moved w m (after locking_cancellable r))
  returns :
      w.place (cur w) ≡ locking
      → (w.mutex.sched.threads (cur w)).wchan ≡ none
      → Step w (moved w w.mutex inside)
  returns_cancellable :
      w.place (cur w) ≡ locking_cancellable
      → (w.mutex.sched.threads (cur w)).wchan ≡ none
      → Step w
          (moved w w.mutex (if cancellable_sleep_result w.mutex.sched then outside else inside))
  unlocks :
      (m : Mutex)
      → w.place (cur w) ≡ inside
      → kmutex_unlock w.mutex ≡ some m
      → Step w (moved w m outside)
  cancels : (t : ℕ) (s : Sched) → kthread_cancel t w.mutex.sched ≡ some s → Step w (rescheduled w s)
  starts :
      (t : ℕ) (s : Sched) → sched_make_runnable t w.mutex.sched ≡ some s → Step w (rescheduled w s)
  switches : (b : Bool) (s : Sched) → sched_switch w.mutex.sched ≡ (b, s) → Step w (rescheduled w s)
