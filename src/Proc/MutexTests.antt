-- ===== src/Proc/MutexTests.antt =====
-- kernel/proc/kmutex.c: a mutex that two threads lock, handed from the one to the other.
use kernel.Base.{ℕ, ◌≡◌, refl, true, false, Option, none, some, [], ◌∷◌, arith, update}
use kernel.Proc.Queue.{
  Sched, no_state, run, sleep_cancellable, runq, is_on, enqueued, dequeued, sched_queue_empty,
  set_cancelled,
}
use kernel.Proc.Sched.{
  sched_make_runnable, sched_cancellable_sleep_on, sched_wakeup_on, kthread_cancel, sched_switch,
  set_state, cancellable_sleep_result,
}
use kernel.Proc.Mutex.{
  Mutex, acquired, blocked, kmutex_lock, kmutex_lock_cancellable, kmutex_unlock,
}
use kernel.Proc.Mutex.Invariant.{
  Place, outside, locking, locking_cancellable, inside, World, locks, locks_cancellable,
  returns_cancellable, unlocks, starts, switches,
}
use kernel.Proc.Mutex.Lifetime.{
  Reach, here, next, Fresh, mutual_exclusion, no_lost_waiter, interrupted_holder,
}

abbrev second : ℕ
second = 2

abbrev start : Sched
start = record {
  threads = λ t. record { state = no_state; cancelled = false; wchan = none };
  queues = λ q. record { items = []; size = 0 };
  current = 1;
}

abbrev world : Option ℕ → Sched → (ℕ → Place) → World
world h s p = record { mutex = record { holder = h; waitq = 5; sched = s }; place = p }

abbrev nobody : ℕ → Place
nobody t = outside

-- Thread 1 starts thread 2, takes the mutex and lets thread 2 run.
abbrev two_ready : Sched
two_ready = enqueued runq 2 (set_state 2 run start)

abbrev both_ready : Sched
both_ready = enqueued runq 1 (set_state 1 run two_ready)

abbrev two_runs : Sched
two_runs = record (dequeued runq 2 (1 ∷ []) both_ready) { current = 2 }

abbrev one_in : ℕ → Place
one_in = update nobody 1 inside

start-Fresh : Fresh 5 (world none start nobody)
start-Fresh = record {
  waitq = refl;
  apart = omega arith;
  boot = ((λ q. refl), (λ t. refl));
  free = refl;
  idle = λ t. refl;
}

two_runs-Reach : Reach (world none start nobody) (world (some 1) two_runs one_in)
unfolding sched_make_runnable sched_switch kmutex_lock
two_runs-Reach =
    next {u = world (some 1) both_ready one_in}
      (next {u = world (some 1) two_ready one_in}
        (next {u = world none two_ready nobody} (next here (starts 2 two_ready refl))
          (locks acquired (world (some 1) two_ready nobody).mutex refl refl))
        (starts 1 both_ready refl))
      (switches true two_runs refl)

-- Thread 2 waits for the mutex, and thread 1 hands it over.
abbrev two_waits : Sched
two_waits = enqueued 5 2 (set_state 2 sleep_cancellable two_runs)

abbrev one_runs : Sched
one_runs = record (dequeued runq 1 [] two_waits) { current = 1 }

abbrev two_woken : Sched
two_woken = enqueued runq 2 (set_state 2 run (dequeued 5 2 [] one_runs))

abbrev two_locks : ℕ → Place
two_locks = update one_in 2 locking_cancellable

abbrev one_out : ℕ → Place
one_out = update two_locks 1 outside

handed-Reach : Reach (world none start nobody) (world (some 2) two_woken one_out)
unfolding sched_make_runnable sched_switch kmutex_lock_cancellable kmutex_unlock
    sched_cancellable_sleep_on sched_wakeup_on sched_queue_empty
handed-Reach =
    next {u = world (some 1) one_runs two_locks}
      (next {u = world (some 1) two_waits two_locks}
        (next two_runs-Reach
          (locks_cancellable blocked (world (some 1) two_waits one_in).mutex refl refl))
        (switches true one_runs refl))
      (unlocks (world (some 2) two_woken two_locks).mutex refl refl)

-- Thread 2 runs again and has the mutex.
abbrev two_again : Sched
two_again = record (dequeued runq 2 [] two_woken) { current = 2 }

abbrev two_in : ℕ → Place
two_in = update one_out 2 inside

two_in-Reach : Reach (world none start nobody) (world (some 2) two_again two_in)
unfolding sched_switch cancellable_sleep_result
two_in-Reach =
    next {u = world (some 2) two_again one_out} (next handed-Reach (switches true two_again refl))
      (returns_cancellable refl refl)

mutual_exclusion_example : second ≡ second
mutual_exclusion_example =
    mutual_exclusion 5 2 2 (world none start nobody) (world (some 2) two_again two_in) start-Fresh
      two_in-Reach refl refl

no_lost_waiter_example :
    (some second ≡ none → (two_again.queues 5).items ≡ [])
    × (two_in 2 ≡ locking → is_on 5 (two_again.threads 2).wchan ≡ false → some second ≡ some second)
no_lost_waiter_example =
    no_lost_waiter 5 2 (world none start nobody) (world (some 2) two_again two_in) start-Fresh
      two_in-Reach

-- The mutex before and after it is handed over, and thread 2 cancelled then.
abbrev before : Mutex
before = (world (some 1) one_runs one_in).mutex

abbrev handed : Mutex
handed = (world (some 2) two_woken one_in).mutex

abbrev told : Sched
told = set_cancelled 2 two_woken

handed_runs : kmutex_unlock before ≡ some handed
unfolding kmutex_unlock sched_wakeup_on sched_queue_empty
handed_runs = refl

told_runs : kthread_cancel 2 two_woken ≡ some told
unfolding kthread_cancel
told_runs = refl

interrupted_holder_example :
    (cancellable_sleep_result (record told { current = 2 }) ≡ true)
    × (some second ≡ some second)
    × (kmutex_lock (record handed { sched = record told { current = 2 } }) ≡ none)
interrupted_holder_example = interrupted_holder 2 before handed told handed_runs refl told_runs
