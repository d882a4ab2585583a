-- ===== src/Proc/Family/Outcome.antt =====
-- kernel/proc/proc.c: what `do_waitpid` returns, and that a dying child wakes its parent.
use kernel.Base.{
  ℕ, ◌<◌, ◌≡◌, ◌≢◌, refl, ap, ◌∙◌, true, false, List, [], ◌∷◌, ◌++◌, none, some, ◌==◌, leb,
  if◌then◌else◌, arith, occurs, if-Holds,
}
use kernel.Proc.Queue.{Sched, sched_queue_empty}
use kernel.Proc.Sched.{sched_wakeup_on}
use kernel.Proc.Family.{
  Family, Resources, reparent, die, orphan, woken, after_wake, cleanup_below, let_go, proc_cleanup,
  is_exited,
}
use kernel.Proc.Queue.{Thread, run, runq}
use kernel.Proc.Sched.Invariant.{Inv}
use kernel.Proc.Sched.Wakeup.{wakeup_oldest, queue_nonempty}
use kernel.Proc.Family.{adopt}

module _ {W : Type 0} where
  reparent-sched :
      (from to : ℕ) (l : List ℕ) (s : Family W) → (reparent from to l s).sched ≡ s.sched
  unfolding reparent
  reparent-sched from to [] s = refl
  reparent-sched from to (c ∷ rest) s = reparent-sched from to rest (adopt from to c s)

  die-dead :
      (p status : ℕ) (s : Family W)
      → (((die p status s).procs p).is_dead ≡ true) × (((die p status s).procs p).status ≡ status)
  die-dead p status s = (ground arith, ground arith)

module _ {W : Type 0} (ops : Resources W) where
  -- The threads of the dead child have exited.
  abbrev pub Gone : List ℕ → Family W → Type 0
  Gone l s = (t : ℕ) → 0 < occurs t l → is_exited (s.sched.threads t).state ≡ true

  -- The state after the exit of the running process, the thread `t` of its parent being awake.
  abbrev pub Awake : ℕ → ℕ → ℕ → Family W → Family W → Type 0
  Awake parent t status s s' =
      ((s'.sched.threads t).state ≡ run)
      × ((s'.sched.threads t).wchan ≡ some runq)
      × ((s'.procs s.current).is_dead ≡ true)
      × ((s'.procs s.current).status ≡ status)

  -- A process other than the idle process, with a parent, exits while a thread is asleep on the
  -- parent's `p_wait`, which is not the run queue; the queues are consistent. Then the exit fails no
  -- assertion, makes the thread that has slept longest there runnable, and leaves the process dead
  -- with its status.
  pub exit_wakes_parent :
      (status parent t : ℕ) (front : List ℕ) (s : Family W)
      → leb 1 (s.procs s.current).pid ≡ true
      → (s.procs s.current).parent ≡ some parent
      → Inv s.sched
      → (s.procs parent).wait ≢ runq
      → (s.sched.queues (s.procs parent).wait).items ≡ front ++ (t ∷ [])
      → (s' : Family W) × (proc_cleanup ops status s ≡ some s') × Awake parent t status s s'
  unfolding proc_cleanup
  exit_wakes_parent status parent t front s below has_parent v own waiting =
      let s1 = let_go ops s in
      let wait = (s.procs parent).wait in
      let (x, wakes, _, _, _, runs, _, _) = wakeup_oldest wait t front s.sched v own waiting in
      let s2 : Family W = record s1 { sched = x } in
      let busy : sched_queue_empty wait s.sched ≡ false =
        queue_nonempty wait front t s.sched waiting in
      let moved =
        if s.current == s.init
        then s2
        else reparent s.current s.init (s.procs s.current).children s2 in
      let same : moved.sched ≡ x =
        if-Holds (λ (y : Family W). y.sched ≡ x) (s.current == s.init) {x = s2} (λ _. refl)
          λ _. reparent-sched s.current s.init (s.procs s.current).children s2 in
      let (dead, left) = die-dead s.current status moved in
      (
        orphan ops status s2,
        ap (λ b. if b then cleanup_below ops status (s.procs s.current).parent s else none) below
            ∙ ap (λ q. cleanup_below ops status q s) has_parent
            ∙ ap
                (λ b.
                  after_wake ops status
                    (if b then some s1 else woken (sched_wakeup_on wait s1.sched) s1))
                busy
            ∙ ap (λ r. after_wake ops status (woken r s1)) wakes,
        (
          ap (λ (y : Sched). (y.threads t).state) same ∙ ap (λ (y : Thread). y.state) runs,
          ap (λ (y : Sched). (y.threads t).wchan) same ∙ ap (λ (y : Thread). y.wchan) runs,
          dead,
          left,
        ),
      )
