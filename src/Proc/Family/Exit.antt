-- ===== src/Proc/Family/Exit.antt =====
-- kernel/proc/proc.c: `proc_cleanup` keeps the tree of processes.
use kernel.Base.{
  ℕ, ◌≡◌, ◌≢◌, refl, inl, inr, [], Option, none, some, ◌==◌, leb, arith, Bool-cases, if-Holds,
}
use kernel.Proc.Queue.{Sched, sched_queue_empty}
use kernel.Proc.Sched.{sched_wakeup_on}
use kernel.Proc.Family.{
  Family, Resources, set_world, reparent, orphan, woken, after_wake, cleanup_below, let_go,
  proc_cleanup,
}
use kernel.Proc.Family.Tree.{Tree, Lasts, die-Tree, reparent-Tree}

module _ {W : Type 0} where
  -- A result that is a state, if any, keeps the tree.
  abbrev pub Kept : Option (Family W) → Type 0
  Kept none = Unit {0}
  Kept (some s) = Tree s

  -- The initial process exits without children, and any other one before it.
  abbrev pub CanExit : Family W → Type 0
  CanExit s =
      (s.current ≡ s.init → (s.procs s.current).children ≡ [])
      × (s.current ≢ s.init → Lasts s.current s.init s)

  pub sched-Tree : (x : Sched) (s : Family W) → Tree s → Tree (record s { sched = x })
  sched-Tree x s t = record {
    once = t.once;
    counted = t.counted;
    parented = t.parented;
    childless = t.childless;
  }

  pub current-Tree : (p : ℕ) (s : Family W) → Tree s → Tree (record s { current = p })
  current-Tree p s t = record {
    once = t.once;
    counted = t.counted;
    parented = t.parented;
    childless = t.childless;
  }

  pub world-Tree : (w : W) (s : Family W) → Tree s → Tree (set_world w s)
  world-Tree w s t = record {
    once = t.once;
    counted = t.counted;
    parented = t.parented;
    childless = t.childless;
  }

module _ {W : Type 0} (ops : Resources W) where
  orphan-Tree : (status : ℕ) (s : Family W) → CanExit s → Tree s → Tree (orphan ops status s)
  orphan-Tree status s (last, other) t = elim (Bool-cases (s.current == s.init)) [
    | inl same ↦ rw same (die-Tree s.current status s (last (ground (arith, same))) t)
    | inr differs ↦
        let apart : s.current ≢ s.init = λ e. absurd (ground (arith, differs, e)) in
        let (t', _, childless) =
          reparent-Tree s.current s.init (s.procs s.current).children s apart refl (other apart)
            t in
        rw differs (
          die-Tree s.current status (reparent s.current s.init (s.procs s.current).children s)
            childless t')
  ]

  woken-Tree :
      (status : ℕ) (r : Option (Option ℕ × Sched)) (s : Family W)
      → CanExit s
      → Tree s
      → Kept (after_wake ops status (woken r s))
  woken-Tree status none s can t = tt
  woken-Tree status (some (_, x)) s can t =
      orphan-Tree status (record s { sched = x }) can (sched-Tree x s t)

  below-Tree :
      (status : ℕ) (parent : Option ℕ) (s : Family W)
      → CanExit s
      → Tree s
      → Kept (cleanup_below ops status parent s)
  below-Tree status none s can t = tt
  below-Tree status (some parent) s can t =
      let s1 = let_go ops s in
      let t1 = world-Tree s1.world s t in
      let wait = (s1.procs parent).wait in
      if-Holds (λ x. Kept (after_wake ops status x)) (sched_queue_empty wait s1.sched) {x = some s1}
        (λ _. orphan-Tree status s1 can t1)
        λ _. woken-Tree status (sched_wakeup_on wait s1.sched) s1 can t1

  pub cleanup-Tree :
      (status : ℕ) (s : Family W) → CanExit s → Tree s → Kept (proc_cleanup ops status s)
  unfolding proc_cleanup
  cleanup-Tree status s can t =
      if-Holds Kept (leb 1 (s.procs s.current).pid)
        {x = cleanup_below ops status (s.procs s.current).parent s}
        (λ _. below-Tree status (s.procs s.current).parent s can t) λ _. tt
