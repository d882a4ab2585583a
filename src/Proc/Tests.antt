-- ===== src/Proc/Tests.antt =====
-- kernel/proc: runs of the scheduler and of a mutex.
use kernel.Base.{◌<◌, Option, ℕ, ◌≡◌, ◌≢◌, refl, true, false, none, some, [], ◌∷◌, arith}
use kernel.Proc.Pids.{proc_getid, Found, getid_fresh}
use kernel.Proc.Queue.{Sched, no_state, run, sleep, sleep_cancellable, runq, enqueued, dequeued}
use kernel.Proc.Sched.{
  sched_make_runnable, sched_sleep_on, sched_cancellable_sleep_on, sched_wakeup_on,
  sched_broadcast_on, sched_switch, set_state,
}
use kernel.Proc.Sched.Invariant.{Inv}
use kernel.Proc.Sched.Wakeup.{wakeup_oldest, broadcast_wakes_all}
use kernel.Proc.Sched.Steps.{
  Reach, here, next, sleeps, starts, switches, sleeps_cancellable, Boot, Reach-Inv,
}

-- Three threads are started, the first two of them sleep.
abbrev start : Sched
start = record {
  threads = λ t. record { state = no_state; cancelled = false; wchan = none };
  queues = λ q. record { items = []; size = 0 };
  current = 1;
}

start-Boot : Boot start
start-Boot = ((λ q. refl), (λ t. refl))

abbrev ready : Sched
ready = enqueued runq 2 (set_state 2 run start)

abbrev one_asleep : Sched
one_asleep = enqueued 5 1 (set_state 1 sleep ready)

abbrev second_runs : Sched
second_runs = record (dequeued runq 2 [] one_asleep) { current = 2 }

abbrev pub two_asleep : Sched
two_asleep = enqueued 5 2 (set_state 2 sleep_cancellable second_runs)

reached : Reach start two_asleep
unfolding sched_make_runnable sched_sleep_on sched_switch sched_cancellable_sleep_on
reached =
    next
      (next (next (next here (starts 2 refl)) (sleeps 5 (omega arith) refl)) (switches true refl))
      (sleeps_cancellable 5 false (omega arith) refl)

pub two_asleep-Inv : Inv two_asleep
two_asleep-Inv = Reach-Inv start-Boot reached

Reach-Inv_example : Inv two_asleep
Reach-Inv_example = Reach-Inv start-Boot reached

wakeup_oldest_example :
    (s' : Sched) × (sched_wakeup_on 5 two_asleep ≡ some (some 1, s'))
    × ((s'.queues 5).items ≡ 2 ∷ [])
    × ((s'.queues runq).items ≡ 1 ∷ [])
    × ((p : ℕ) → p ≢ 5 → p ≢ runq → s'.queues p ≡ two_asleep.queues p)
    × (s'.threads 1 ≡ record { state = run; cancelled = false; wchan = some runq })
    × ((u : ℕ) → u ≢ 1 → s'.threads u ≡ two_asleep.threads u)
    × Inv s'
wakeup_oldest_example = wakeup_oldest 5 1 (2 ∷ []) two_asleep two_asleep-Inv (omega arith) refl

broadcast_wakes_all_example :
    (s' : Sched) × (sched_broadcast_on 5 two_asleep ≡ some (true, s'))
    × ((s'.queues 5).items ≡ [])
    × ((s'.queues runq).items ≡ 2 ∷ 1 ∷ [])
    × Inv s'
broadcast_wakes_all_example = broadcast_wakes_all 5 two_asleep two_asleep-Inv (omega arith)

-- Another thread runs.
abbrev three_runs : Sched
three_runs = record two_asleep { current = 3 }

-- Three numbers, of which the first two are taken.
getid_fresh_example :
    (o : Option ℕ) × (next' : ℕ) × (proc_getid 3 1 (0 ∷ 1 ∷ []) ≡ some (o, next'))
    × Found 3 (0 ∷ 1 ∷ []) o
    × (next' < 3)
getid_fresh_example = getid_fresh 3 1 (0 ∷ 1 ∷ []) (omega arith)
