-- ===== src/Proc/Family.antt =====
-- kernel/proc/proc.c: the tree of processes: `proc_create`, `proc_cleanup` and `do_waitpid`.
-- An optional result is none where an assertion fails or a NULL pointer is followed.
pub mod Tree
pub mod Exit
pub mod Waiting
pub mod Outcome
pub mod Steps
use kernel.Base.{
  ℤ, pos, negsuc, zero, suc, ℕ, ◌+◌, Bool, true, false, not, List, [], ◌∷◌, ◌++◌, Option, none,
  some, ltb, leb, ◌==◌, ◌&&◌, ◌||◌, if◌then◌else◌, update, is_none, remove_item,
}
use kernel.Proc.Queue.{Sched, ThreadState, Thread, exited, is_on, sched_queue_empty}
use kernel.Proc.Sched.{sched_wakeup_on, sched_sleep_on}

-- `proc_t`, named by a number. `wait` is the number of `p_wait`.
pub record Process : Type 0 where
  pub pid : ℕ
  pub parent : Option ℕ
  pub children : List ℕ
  pub threads : List ℕ
  pub status : ℕ
  pub is_dead : Bool
  pub wait : ℕ

-- `_proc_list`, `proc_initproc`, which is not NULL, and `curproc`, with the scheduler and the state `W` of the rest.
pub record Family (W : Type 0) : Type 0 where
  pub procs : ℕ → Process
  pub proc_list : List ℕ
  pub init : ℕ
  pub current : ℕ
  pub sched : Sched
  pub world : W

-- What the code calls elsewhere, for a process by its number.
pub record Resources (W : Type 0) : Type 0 where
  pub nfiles : ℕ
  pub is_open : W → ℕ → ℕ → Bool
  pub do_close : W → ℕ → ℕ → W
  pub put_cwd : W → ℕ → W  -- vput of `p_cwd`, if there is one
  pub vmmap_destroy : W → ℕ → W  -- of `p_vmmap`, if there is one
  pub take_cwd : W → ℕ → ℕ → W  -- `p_cwd` of a new process from its parent, with a reference
  pub pt_create_pagedir : W → ℕ → W
  pub vmmap_create : W → ℕ → Bool × W  -- false is NULL
  pub kthread_destroy : W → ℕ → W
  pub pt_destroy_pagedir : W → ℕ → W
  pub slab_free : W → ℕ → W

-- PID_IDLE and PID_INIT are 0 and 1.
abbrev pub pid_idle : ℕ
pid_idle = 0

abbrev pub pid_init : ℕ
pid_init = 1

abbrev pub none_left : List ℕ → Bool
none_left [] = true
none_left (_ ∷ _) = false

-- The first dead child with a number that the test accepts.
unfoldable pub first_dead : (ℕ → Process) → (ℕ → Bool) → List ℕ → Option ℕ
first_dead procs fits [] = none
first_dead procs fits (c ∷ rest) =
    if fits (procs c).pid && (procs c).is_dead then some c else first_dead procs fits rest

unfoldable pub has_child : (ℕ → Process) → ℕ → List ℕ → Bool
has_child procs pid [] = false
has_child procs pid (c ∷ rest) = ((procs c).pid == pid) || has_child procs pid rest

abbrev pub is_exited : ThreadState → Bool
is_exited exited = true
is_exited _ = false

module _ {W : Type 0} where
  abbrev pub set_proc : ℕ → Process → Family W → Family W
  set_proc p x s = record s { procs = update s.procs p x }

  abbrev pub set_world : W → Family W → Family W
  set_world w s = record s { world = w }

  -- The fields of a new process, and its places on `_proc_list` and among the children of its parent.
  abbrev pub new_process : ℕ → ℕ → ℕ → Family W → Process
  new_process p pid wait s = record {
    pid = pid;
    parent = if pid == pid_idle then none else some s.current;
    children = [];
    threads = [];
    status = 0;
    is_dead = false;
    wait = wait;
  }

  abbrev pub add_child : ℕ → ℕ → Family W → Family W
  add_child p c s =
      set_proc p (record (s.procs p) { children = (s.procs p).children ++ (c ∷ []) }) s

  abbrev pub enrolled : ℕ → ℕ → ℕ → Family W → Family W
  enrolled p pid wait s =
      let s1 =
        set_proc p (new_process p pid wait s) (record s { proc_list = s.proc_list ++ (p ∷ []) }) in
      if pid == pid_idle then s1 else add_child s.current p s1

  -- A child of `from` becomes one of `to`.
  abbrev pub leave_parent : ℕ → ℕ → Family W → Family W
  leave_parent from c s =
      set_proc from (record (s.procs from) { children = remove_item c (s.procs from).children }) s

  abbrev pub set_parent : ℕ → ℕ → Family W → Family W
  set_parent to c s = set_proc c (record (s.procs c) { parent = some to }) s

  abbrev pub adopt : ℕ → ℕ → ℕ → Family W → Family W
  adopt from to c s = add_child to c (leave_parent from c (set_parent to c s))

  -- The loop of `proc_cleanup` over the children.
  unfoldable pub reparent : ℕ → ℕ → List ℕ → Family W → Family W
  reparent from to [] s = s
  reparent from to (c ∷ rest) s = reparent from to rest (adopt from to c s)

  abbrev pub die : ℕ → ℕ → Family W → Family W
  die p status s = set_proc p (record (s.procs p) { status = status; is_dead = true }) s

  -- Waking the parent, if it waits.
  abbrev pub woken : Option (Option ℕ × Sched) → Family W → Option (Family W)
  woken none s = none
  woken (some (_, sched)) s = some (record s { sched = sched })

  abbrev pub wake_parent : ℕ → Family W → Option (Family W)
  wake_parent parent s =
      if sched_queue_empty (s.procs parent).wait s.sched
      then some s
      else woken (sched_wakeup_on (s.procs parent).wait s.sched) s

-- `do_waitpid`: `reaped` gives the number and the status; `asleep` is where the thread sleeps on
-- `p_wait`, and starts its loop again when it has been woken.
pub data Waited (W : Type 0) : Type 0 where
  echild : Family W → Waited W
  reaped : ℕ → ℕ → Family W → Waited W
  asleep : Family W → Waited W
  panic : Waited W

-- The arguments of `do_waitpid`: -1 is any child, a positive number the child of that number. Any
-- other number and any options fail an assertion.
abbrev pub waits_on : ℤ → ℤ → Option (Option ℕ)
waits_on (negsuc zero) (pos zero) = some none
waits_on (pos (suc n)) (pos zero) = some (some (suc n))
waits_on _ _ = none

module _ {W : Type 0} (ops : Resources W) where
  abbrev pub with_map : ℕ → Bool × W → Family W → Option ℕ × Family W
  with_map p (false, w) s = (none, set_world (ops.slab_free w p) s)
  with_map p (true, w) s = (some p, set_world w s)

  -- `proc_create` after its assertions and the choice of `proc_initproc`.
  abbrev pub set_up : ℕ → ℕ → ℕ → Family W → Option ℕ × Family W
  set_up p pid wait s =
      let s1 = enrolled p pid wait s in
      let s2 = set_world (ops.take_cwd (ops.pt_create_pagedir s1.world p) p s.current) s1 in
      with_map p (ops.vmmap_create s2.world p) s2

  -- `proc_create`, with the memory of the process, its number from `_proc_getid` and its queue. When
  -- there is no address space, its memory is given back, and it stays on the lists.
  unfoldable pub proc_create : ℕ → ℕ → ℕ → Family W → Option (Option ℕ × Family W)
  proc_create p pid wait s =
      if (pid == pid_idle) && not (none_left s.proc_list)
      then none
      else if (pid == pid_init) && not ((s.procs s.current).pid == pid_idle)
      then none
      else some (set_up p pid wait (if pid == pid_init then record s { init = p } else s))

  -- The loop over the descriptors, from `fd` on.
  unfoldable pub close_files : ℕ → ℕ → ℕ → W → W
  close_files zero p fd w = w
  close_files (suc left) p fd w =
      close_files left p (fd + 1) (if ops.is_open w p fd then ops.do_close w p fd else w)

  abbrev pub let_go : Family W → Family W
  let_go s =
      set_world
        (ops.vmmap_destroy (ops.put_cwd (close_files ops.nfiles s.current 0 s.world) s.current)
          s.current)
        s

  abbrev pub orphan : ℕ → Family W → Family W
  orphan status s =
      die s.current status (
        if s.current == s.init then s else reparent s.current s.init (s.procs s.current).children s)

  abbrev pub after_wake : ℕ → Option (Family W) → Option (Family W)
  after_wake status none = none
  after_wake status (some s) = some (orphan status s)

  -- `proc_cleanup`
  abbrev pub cleanup_below : ℕ → Option ℕ → Family W → Option (Family W)
  cleanup_below status none s = none
  cleanup_below status (some parent) s = after_wake status (wake_parent parent (let_go s))

  unfoldable pub proc_cleanup : ℕ → Family W → Option (Family W)
  unfolding close_files reparent
  proc_cleanup status s =
      if leb 1 (s.procs s.current).pid
      then cleanup_below status (s.procs s.current).parent s
      else none

  -- The loop over the threads of a dead child, which have exited.
  unfoldable pub destroy_threads : List ℕ → Family W → Option (Family W)
  destroy_threads [] s = some s
  destroy_threads (t ∷ rest) s =
      let after = destroy_threads rest (set_world (ops.kthread_destroy s.world t) s) in
      if is_exited (s.sched.threads t).state then after else none

  -- The child leaves the lists and its memory is given back.
  abbrev pub unlisted : ℕ → Family W → Family W
  unlisted c s =
      let s1 = leave_parent s.current c s in
      record s1 {
        proc_list = remove_item c s1.proc_list;
        world = ops.slab_free (ops.pt_destroy_pagedir s1.world c) c;
      }

  abbrev pub reap : ℕ → Option (Family W) → Waited W
  reap c none = panic
  reap c (some s) = reaped (s.procs c).pid (s.procs c).status (unlisted c s)

  abbrev pub slept : Option Sched → Family W → Waited W
  slept none s = panic
  slept (some sched) s = asleep (record s { sched = sched })

  abbrev pub reap_or_sleep : Option ℕ → Family W → Waited W
  reap_or_sleep none s = slept (sched_sleep_on (s.procs s.current).wait s.sched) s
  reap_or_sleep (some c) s = reap c (destroy_threads (s.procs c).threads s)

  -- Whom `do_waitpid` waits for: any child, or the one of this number.
  abbrev pub accepts : Option ℕ → ℕ → Bool
  accepts none pid = true
  accepts (some wanted) pid = pid == wanted

  abbrev pub knows : Option ℕ → Family W → Bool
  knows none s = true
  knows (some wanted) s = has_child s.procs wanted (s.procs s.current).children

  -- `do_waitpid` after its assertions, one turn of its loop.
  unfoldable pub wait_for : Option ℕ → Family W → Waited W
  unfolding first_dead has_child destroy_threads
  wait_for pid s =
      if none_left (s.procs s.current).children || not (knows pid s)
      then echild s
      else reap_or_sleep (first_dead s.procs (accepts pid) (s.procs s.current).children) s

  abbrev pub wait_asserted : Option (Option ℕ) → Family W → Waited W
  wait_asserted none s = panic
  wait_asserted (some whom) s = wait_for whom s

  -- `do_waitpid`, one turn of its loop.
  unfoldable pub do_waitpid : ℤ → ℤ → Family W → Waited W
  unfolding wait_for
  do_waitpid pid options s = wait_asserted (waits_on pid options) s
