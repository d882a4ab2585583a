-- ===== src/Proc/Family/Steps.antt =====
-- kernel/proc/proc.c: creating, exiting and waiting in any order keep the tree of processes.
use kernel.Base.{
  ℤ, ℕ, ◌<◌, ◌≡◌, subst, Bool, true, false, not, Option, none, some, ◌==◌, ◌&&◌, occurs, if-Holds,
}
use kernel.Proc.Family.{
  Family, Resources, pid_idle, set_world, proc_cleanup, reaped, asleep, none_left, do_waitpid,
  with_map, set_up, pid_init, proc_create, enrolled,
}
use kernel.Proc.Family.Tree.{Tree, enrolled-Tree}
use kernel.Proc.Family.Exit.{Kept, CanExit, current-Tree, world-Tree, cleanup-Tree}
use kernel.Proc.Family.Waiting.{KeptBy, waitpid-Tree}

module _ {W : Type 0} (ops : Resources W) where
  abbrev pub KeptNew : Option (Option ℕ × Family W) → Type 0
  KeptNew none = Unit {0}
  KeptNew (some (_, s)) = Tree s

  with_map-Tree :
      (p : ℕ) (r : Bool × W) (s : Family W) → Tree s → KeptNew (some (with_map ops p r s))
  with_map-Tree p (false, w) s t = world-Tree (ops.slab_free w p) s t
  with_map-Tree p (true, w) s t = world-Tree w s t

  init-Tree : (i : ℕ) (s : Family W) → Tree s → Tree (record s { init = i })
  init-Tree i s t = record {
    once = t.once;
    counted = t.counted;
    parented = t.parented;
    childless = t.childless;
  }

  set_up-Tree :
      (p pid wait : ℕ) (s : Family W)
      → occurs p s.proc_list ≡ 0
      → 0 < occurs s.current s.proc_list
      → (s.procs s.current).is_dead ≡ false
      → (pid == pid_idle) ≡ false
      → Tree s
      → KeptNew (some (set_up ops p pid wait s))
  set_up-Tree p pid wait s fresh listed alive idle t =
      let s1 = enrolled p pid wait s in
      let s2 = set_world (ops.take_cwd (ops.pt_create_pagedir s1.world p) p s.current) s1 in
      with_map-Tree p (ops.vmmap_create s2.world p) s2
        (world-Tree s2.world s1 (enrolled-Tree p pid wait s fresh listed alive idle t))

  pub create-Tree :
      (p pid wait : ℕ) (s : Family W)
      → occurs p s.proc_list ≡ 0
      → 0 < occurs s.current s.proc_list
      → (s.procs s.current).is_dead ≡ false
      → (pid == pid_idle) ≡ false
      → Tree s
      → KeptNew (proc_create ops p pid wait s)
  unfolding proc_create
  create-Tree p pid wait s fresh listed alive idle t =
      if-Holds KeptNew ((pid == pid_idle) && not (none_left s.proc_list)) {x = none} (λ _. tt)
        λ _.
          if-Holds KeptNew ((pid == pid_init) && not ((s.procs s.current).pid == pid_idle))
            {x = none} (λ _. tt)
            λ _.
              if-Holds (λ x. KeptNew (some (set_up ops p pid wait x))) (pid == pid_init)
                {x = record s { init = p }}
                (λ _.
                  set_up-Tree p pid wait (record s { init = p }) fresh listed alive idle
                    (init-Tree p s t))
                λ _. set_up-Tree p pid wait s fresh listed alive idle t

-- The states that creating, exiting and waiting reach from one process, the idle process, by whichever
-- process is running. A new process is at memory that is not in use, and is not the idle process.
pub data Reach {W : Type 0} (ops : Resources W) (s0 : Family W) : Family W → Type 0 where
  start : Reach ops s0 s0
  runs : (s : Family W) (p : ℕ) → Reach ops s0 s → Reach ops s0 (record s { current = p })
  creates :
      (s s' : Family W) (p pid wait : ℕ) (r : Option ℕ)
      → Reach ops s0 s
      → occurs p s.proc_list ≡ 0
      → 0 < occurs s.current s.proc_list
      → (s.procs s.current).is_dead ≡ false
      → (pid == pid_idle) ≡ false
      → proc_create ops p pid wait s ≡ some (r, s')
      → Reach ops s0 s'
  exits :
      (s s' : Family W) (status : ℕ)
      → Reach ops s0 s
      → CanExit s
      → proc_cleanup ops status s ≡ some s'
      → Reach ops s0 s'
  reaps :
      (s s' : Family W) (pid options : ℤ) (n status : ℕ)
      → Reach ops s0 s
      → (s.procs s.current).is_dead ≡ false
      → do_waitpid ops pid options s ≡ reaped n status s'
      → Reach ops s0 s'
  sleeps :
      (s s' : Family W) (pid options : ℤ)
      → Reach ops s0 s
      → (s.procs s.current).is_dead ≡ false
      → do_waitpid ops pid options s ≡ asleep s'
      → Reach ops s0 s'

module _ {W : Type 0} {ops : Resources W} where
  -- In every state that is reached from a tree, a listed process is among the children of its parent,
  -- once, and of no other process, its parent is listed, and dead processes have no children.
  pub Reach-Tree : (s0 s : Family W) → Tree s0 → Reach ops s0 s → Tree s
  Reach-Tree s0 _ t start = t
  Reach-Tree s0 _ t (runs s1 p reach) = current-Tree p s1 (Reach-Tree s0 s1 t reach)
  Reach-Tree s0 s t (creates s1 _ p pid wait r reach fresh listed alive idle e) =
      subst (KeptNew ops) e
        (create-Tree ops p pid wait s1 fresh listed alive idle (Reach-Tree s0 s1 t reach))
  Reach-Tree s0 s t (exits s1 _ status reach can e) =
      subst Kept e (cleanup-Tree ops status s1 can (Reach-Tree s0 s1 t reach))
  Reach-Tree s0 s t (reaps s1 _ pid options n status reach alive e) =
      subst (KeptBy ops) e (waitpid-Tree ops pid options s1 alive (Reach-Tree s0 s1 t reach))
  Reach-Tree s0 s t (sleeps s1 _ pid options reach alive e) =
      subst (KeptBy ops) e (waitpid-Tree ops pid options s1 alive (Reach-Tree s0 s1 t reach))
