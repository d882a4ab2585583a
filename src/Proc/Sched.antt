-- ===== src/Proc/Sched.antt =====
-- kernel/proc/sched.c: sleeping, waking, cancelling and switching; kernel/proc/kthread.c: cancelling
-- and exiting.
-- The kernel is not preempted: an operation is one step up to its `sched_switch`. A result none is a
-- failed assertion.
pub mod Invariant
pub mod Wakeup
pub mod Cancel
pub mod Steps
pub mod Effects
use kernel.Base.{
  ℕ, zero, suc, length, Bool, true, false, Option, none, some, is_none, ◌==◌, if◌then◌else◌,
}
use kernel.Proc.Queue.{
  Sched, ThreadState, no_state, run, sleep, sleep_cancellable, exited, runq, is_on, set_thread,
  set_cancelled, sched_queue_empty, ktqueue_enqueue, ktqueue_dequeue, ktqueue_remove,
}

abbrev pub set_state : ℕ → ThreadState → Sched → Sched
set_state t x s = set_thread t (record (s.threads t) { state = x }) s

-- `sched_make_runnable`
unfoldable pub sched_make_runnable : ℕ → Sched → Option Sched
unfolding ktqueue_enqueue
sched_make_runnable t s =
    if is_on runq (s.threads t).wchan then none else ktqueue_enqueue runq t (set_state t run s)

abbrev pub is_asleep : ThreadState → Bool
is_asleep sleep = true
is_asleep sleep_cancellable = true
is_asleep _ = false

-- What `sched_wakeup_on` does with the thread that it took off the queue.
unfoldable pub wake : Option ℕ → Sched → Option (Option ℕ × Sched)
unfolding sched_make_runnable
wake none s = some (none, s)
wake (some t) s =
    if is_asleep (s.threads t).state
    then elim (sched_make_runnable t s) [ none ↦ none | some s' ↦ some (some t, s') ]
    else none

-- `sched_wakeup_on`
unfoldable pub sched_wakeup_on : ℕ → Sched → Option (Option ℕ × Sched)
unfolding ktqueue_dequeue wake
sched_wakeup_on q s = let (head, s') = ktqueue_dequeue q s in wake head s'

-- The loop of `sched_broadcast_on`, with a bound on its rounds; the Boolean says whether the queue is
-- empty at the end.
unfoldable pub broadcast : ℕ → ℕ → Sched → Option (Bool × Sched)
unfolding sched_queue_empty sched_wakeup_on
broadcast zero q s = some (sched_queue_empty q s, s)
broadcast (suc rounds) q s = elim (sched_queue_empty q s) [
  | true ↦ some (true, s)
  | false ↦ elim (sched_wakeup_on q s) [ none ↦ none | some (_, s') ↦ broadcast rounds q s' ]
]

-- `sched_broadcast_on`: a round takes one thread off the queue.
unfoldable pub sched_broadcast_on : ℕ → Sched → Option (Bool × Sched)
unfolding broadcast
sched_broadcast_on q s = broadcast (length (s.queues q).items) q s

-- `sched_cancel` on a thread with this `kt_wchan` and `kt_state`.
unfoldable pub cancel_on : Option ℕ → ThreadState → ℕ → Sched → Option Sched
unfolding ktqueue_remove sched_make_runnable
cancel_on none x t s = none
cancel_on (some q) sleep_cancellable t s =
    sched_make_runnable t (ktqueue_remove q t (set_cancelled t s))
cancel_on (some q) x t s = some (set_cancelled t s)

-- `sched_cancel`
unfoldable pub sched_cancel : ℕ → Sched → Option Sched
unfolding cancel_on
sched_cancel t s = cancel_on (s.threads t).wchan (s.threads t).state t s

unfoldable pub cancel_in : ThreadState → ℕ → Sched → Option Sched
unfolding sched_cancel
cancel_in sleep_cancellable t s = sched_cancel t (set_cancelled t s)
cancel_in x t s = some (set_cancelled t s)

-- `kthread_exit`, up to its call of `proc_thread_exited`, from which it does not come back. The
-- assertion that the thread is one of the current process is left out: the table of processes is not
-- part of `Sched`.
unfoldable pub kthread_exit : Sched → Option Sched
kthread_exit s =
    if is_none (s.threads s.current).wchan then some (set_state s.current exited s) else none

-- `kthread_cancel`; for the current thread up to `proc_thread_exited`.
unfoldable pub kthread_cancel : ℕ → Sched → Option Sched
unfolding kthread_exit cancel_in
kthread_cancel t s = if t == s.current then kthread_exit s else cancel_in (s.threads t).state t s

-- `sched_sleep_on`, up to its call of `sched_switch`.
unfoldable pub sched_sleep_on : ℕ → Sched → Option Sched
unfolding ktqueue_enqueue
sched_sleep_on q s = ktqueue_enqueue q s.current (set_state s.current sleep s)

-- `sched_cancellable_sleep_on`, up to its call of `sched_switch`; true is -EINTR at once.
unfoldable pub sched_cancellable_sleep_on : ℕ → Sched → Option (Bool × Sched)
unfolding ktqueue_enqueue
sched_cancellable_sleep_on q s =
    if (s.threads s.current).cancelled
    then some (true, s)
    else elim (ktqueue_enqueue q s.current (set_state s.current sleep_cancellable s)) [
      | none ↦ none
      | some s' ↦ some (false, s')
    ]

-- What `sched_cancellable_sleep_on` returns after `sched_switch`; true is -EINTR.
unfoldable pub cancellable_sleep_result : Sched → Bool
cancellable_sleep_result s = (s.threads s.current).cancelled

unfoldable pub resume : Option ℕ × Sched → Bool × Sched
resume (none, s) = (false, s)
resume (some t, s) = (true, record s { current = t })

-- `sched_switch`, one turn; false means that the run queue is empty and the loop waits for an
-- interrupt.
unfoldable pub sched_switch : Sched → Bool × Sched
unfolding ktqueue_dequeue resume
sched_switch s = resume (ktqueue_dequeue runq s)
