-- ===== src/Proc/Mutex/Paths.antt =====
-- kernel/proc/kmutex.c: the ways through the lock functions and the unlock function.
use kernel.Base.{
  ℕ, ◌≡◌, ◌≢◌, ◌⊎◌, inl, inr, Bool, true, false, none, some, if◌then◌else◌, arith, Bool-cases,
  Option-cases,
}
use kernel.Proc.Queue.{Sched, is_on, sched_queue_empty}
use kernel.Proc.Sched.{sched_sleep_on, sched_cancellable_sleep_on, sched_wakeup_on}
use kernel.Proc.Mutex.{
  Mutex, Locking, acquired, interrupted, blocked, kmutex_lock, kmutex_lock_cancellable, lock_held,
  lock_held_cancellable, kmutex_unlock, hand_over,
}

-- The ways through `kmutex_lock`.
pub lock_cases :
    (m m' : Mutex) (r : Locking)
    → kmutex_lock m ≡ some (r, m')
    → ((m.holder ≡ none) × (r ≡ acquired) × (m' ≡ record m { holder = some m.sched.current }))
      ⊎ ((h : ℕ) × (s : Sched) × (m.holder ≡ some h)
          × (h ≢ m.sched.current)
          × (r ≡ blocked)
          × (sched_sleep_on m.waitq m.sched ≡ some s)
          × (m' ≡ record m { sched = s }))
unfolding kmutex_lock lock_held
lock_cases m m' r e = elim (Option-cases m.holder) [
  | inl free ↦ inl (ground (arith))
  | inr (h, held) ↦ elim (Option-cases (sched_sleep_on m.waitq m.sched)) [
    | inl fails ↦ absurd (ground arith)
    | inr (s, sleeps) ↦ inr (h, s, held, ground arith, ground arith, sleeps, ground arith)
  ]
]

pub lock_cancellable_cases :
    (m m' : Mutex) (r : Locking)
    → kmutex_lock_cancellable m ≡ some (r, m')
    → ((m.holder ≡ none) × (r ≡ acquired) × (m' ≡ record m { holder = some m.sched.current }))
      ⊎ ((h : ℕ) × (s : Sched) × (b : Bool) × (m.holder ≡ some h)
          × (h ≢ m.sched.current)
          × (r ≡ (if b then interrupted else blocked))
          × (sched_cancellable_sleep_on m.waitq m.sched ≡ some (b, s))
          × (m' ≡ record m { sched = s }))
unfolding kmutex_lock_cancellable lock_held_cancellable
lock_cancellable_cases m m' r e = elim (Option-cases m.holder) [
  | inl free ↦ inl (ground (arith))
  | inr (h, held) ↦ elim (Option-cases (sched_cancellable_sleep_on m.waitq m.sched)) [
    | inl fails ↦ absurd (ground arith)
    | inr ((b, s), sleeps) ↦ inr (h, s, b, held, ground arith, ground arith, sleeps, ground arith)
  ]
]

pub unlock_cases :
    (m m' : Mutex)
    → kmutex_unlock m ≡ some m'
    → (m.holder ≡ some m.sched.current)
      × (((sched_queue_empty m.waitq m.sched ≡ true) × (m' ≡ record m { holder = none }))
          ⊎ ((sched_queue_empty m.waitq m.sched ≡ false)
              × (hand_over m (sched_wakeup_on m.waitq m.sched) ≡ some m')))
unfolding kmutex_unlock
unlock_cases m m' e = elim (Bool-cases (is_on m.sched.current m.holder)) [
  | inl mine ↦ elim (Bool-cases (sched_queue_empty m.waitq m.sched)) [
    | inl empty ↦ (ground arith, inl (empty, ground arith))
    | inr some_waits ↦ (ground arith, inr (some_waits, ground arith))
  ]
  | inr other ↦ absurd (ground arith)
]
