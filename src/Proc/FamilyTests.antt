-- ===== src/Proc/FamilyTests.antt =====
-- kernel/proc/proc.c: runs of the tree of processes.
use kernel.Base.{
  pos, negsuc, ℕ, suc, ◌≡◌, refl, true, false, none, some, [], ◌∷◌, arith, occurs, ◌==◌,
}
use kernel.Proc.Queue.{sched_queue_empty}
use kernel.Proc.Family.{
  Process, Family, Resources, enrolled, proc_create, proc_cleanup, do_waitpid, wait_for, unlisted,
  set_world, orphan, let_go,
}
use kernel.Proc.Family.Tree.{Tree}
use kernel.Proc.Family.Steps.{Reach, start, runs, creates, exits, reaps, Reach-Tree}
use kernel.Proc.Family.Outcome.{exit_wakes_parent, Awake}
use kernel.Proc.Tests.{two_asleep, two_asleep-Inv}

-- The world counts the calls.
abbrev ops : Resources ℕ
ops = record {
  nfiles = 2;
  is_open = λ w p fd. fd == 0;
  do_close = λ w p fd. suc w;
  put_cwd = λ w p. suc w;
  vmmap_destroy = λ w p. suc w;
  take_cwd = λ w p q. suc w;
  pt_create_pagedir = λ w p. suc w;
  vmmap_create = λ w p. (true, suc w);
  kthread_destroy = λ w p. suc w;
  pt_destroy_pagedir = λ w p. suc w;
  slab_free = λ w p. suc w;
}

-- Memory that no process has is filled with the fields of the idle process, which is the only one listed.
abbrev idle : Process
idle = record {
  pid = 0;
  parent = none;
  children = [];
  threads = [];
  status = 0;
  is_dead = false;
  wait = 5;
}

abbrev booted : Family ℕ
booted = record {
  procs = λ p. idle;
  proc_list = 0 ∷ [];
  init = 0;
  current = 0;
  sched = two_asleep;
  world = 0;
}

booted-Tree : Tree booted
unfolding occurs
booted-Tree = record {
  once = λ c. ground arith;
  counted = λ p c. refl;
  parented = λ p c is on. absurd (ground (arith, is));
  childless = λ p dead. refl;
}

-- Init (1) is created by the idle process, and creates its child 2, which has a child 3 and exits.
-- The queue on which init waits is number `w`.
abbrev with_init : ℕ → Family ℕ
with_init w = set_world 3 (enrolled 1 1 w (record booted { init = 1 }))

abbrev with_two : ℕ → Family ℕ
with_two w = set_world 6 (enrolled 2 2 7 (record (with_init w) { current = 1 }))

abbrev with_three : ℕ → Family ℕ
with_three w = set_world 9 (enrolled 3 3 8 (record (with_two w) { current = 2 }))

-- Nobody waits on queue 6.
abbrev dead_two : Family ℕ
dead_two = orphan ops 9 (let_go ops (with_three 6))

-- Init runs and takes the status of its child.
abbrev init_runs : Family ℕ
init_runs = record dead_two { current = 1 }

abbrev buried : Family ℕ
buried = unlisted ops 2 init_runs

with_three-Reach : Reach ops booted (with_three 6)
unfolding proc_create occurs
with_three-Reach =
    creates (record (with_two 6) { current = 2 }) (with_three 6) 3 3 8 (some 3)
      (runs (with_two 6) 2 (
        creates (record (with_init 6) { current = 1 }) (with_two 6) 2 2 7 (some 2)
          (runs (with_init 6) 1
            (creates booted (with_init 6) 1 1 6 (some 1) start refl (ground arith) refl refl refl))
          refl (ground arith) refl refl refl))
      refl (ground arith) refl refl refl

buried-Reach : Reach ops booted buried
unfolding proc_cleanup sched_queue_empty do_waitpid wait_for occurs
buried-Reach =
    reaps init_runs buried (negsuc 0) (pos 0) 2 9
      (runs dead_two 1 (
        exits (with_three 6) dead_two 9 with_three-Reach
          ((λ e. absurd (omega (arith, e))), λ _. (ground arith, refl, refl)) refl))
      refl refl

Reach-Tree_example : Tree buried
Reach-Tree_example = Reach-Tree booted buried booted-Tree buried-Reach

-- The thread that runs is on no queue.
abbrev init_awake : Family ℕ
init_awake = record init_runs { sched = record two_asleep { current = 3 } }

-- Thread 1 of init sleeps on queue 5, and its child exits.
exit_wakes_parent_example :
    (s' : Family ℕ) × (proc_cleanup ops 9 (with_three 5) ≡ some s')
    × Awake ops 1 1 9 (with_three 5) s'
exit_wakes_parent_example =
    exit_wakes_parent ops 9 1 1 (2 ∷ []) (with_three 5) refl refl two_asleep-Inv (omega arith) refl
