-- ===== src/Proc/Family/Waiting.antt =====
-- kernel/proc/proc.c: `do_waitpid` keeps the tree of processes.
use kernel.Base.{
  ℤ, ℕ, ◌<◌, ◌≡◌, refl, sym, ap, ◌∙◌, subst, inl, inr, Bool, true, false, not, List, [], ◌∷◌,
  Option, none, some, ◌&&◌, ◌||◌, arith, Bool-cases, occurs, remove_item, if-Holds,
}
use kernel.Proc.Queue.{Sched}
use kernel.Proc.Sched.{sched_sleep_on}
use kernel.Proc.Family.{
  Process, Family, Resources, set_world, destroy_threads, is_exited, leave_parent, first_dead,
  Waited, echild, reaped, asleep, reap, slept, reap_or_sleep, accepts, knows, none_left, do_waitpid,
  wait_for, wait_asserted, waits_on,
}
use kernel.Proc.Family.Tree.{Tree, removed-Tree}
use kernel.Proc.Family.Exit.{sched-Tree, world-Tree}

-- What a dead child that is found is.
pub first_dead-some :
    (procs : ℕ → Process) (fits : ℕ → Bool) (l : List ℕ) (c : ℕ)
    → first_dead procs fits l ≡ some c
    → (0 < occurs c l) × (fits (procs c).pid ≡ true) × ((procs c).is_dead ≡ true)
unfolding first_dead occurs
first_dead-some procs fits [] c e = absurd (ground arith)
first_dead-some procs fits (d ∷ rest) c e =
    elim (Bool-cases (fits (procs d).pid && (procs d).is_dead)) [
      | inl here ↦ ground (arith, here)
      | inr later ↦
          let (on, fit, dead) = first_dead-some procs fits rest c (ground (arith, later)) in
          (ground (arith, on), fit, dead)
    ]

module _ {W : Type 0} where
  abbrev from_some : Family W → Option (Family W) → Family W
  from_some default none = default
  from_some default (some s) = s

module _ {W : Type 0} (ops : Resources W) where
  -- Destroying the threads of a dead child touches no process.
  destroyed_threads :
      (l : List ℕ) (s s1 : Family W)
      → destroy_threads ops l s ≡ some s1
      → (w : W) × (s1 ≡ set_world w s)
  unfolding destroy_threads
  destroyed_threads [] s s1 e = (s.world, ap (from_some s) (sym e))
  destroyed_threads (t ∷ rest) s s1 e = elim (Bool-cases (is_exited (s.sched.threads t).state)) [
    | inl gone ↦
        destroyed_threads rest (set_world (ops.kthread_destroy s.world t) s) s1
          (sym (rw gone refl) ∙ e)
    | inr here ↦
        let missing : ◌≡◌ {A = Option (Family W)} none (some s1) = sym (rw here refl) ∙ e in
        absurd (ground (arith, missing))
  ]

  -- The state of a result of `do_waitpid` keeps the tree.
  abbrev pub KeptBy : Waited W → Type 0
  KeptBy (echild s) = Tree s
  KeptBy (reaped pid status s) = Tree s
  KeptBy (asleep s) = Tree s
  KeptBy Waited.panic = Unit {0}

  reap-Tree :
      (c : ℕ) (r : Option (Family W)) (s : Family W)
      → ((s1 : Family W) → r ≡ some s1 → (w : W) × (s1 ≡ set_world w s))
      → 0 < occurs c (s.procs s.current).children
      → (s.procs c).is_dead ≡ true
      → (s.procs s.current).is_dead ≡ false
      → Tree s
      → KeptBy (reap ops c r)
  unfolding remove_item
  reap-Tree c none s same child dead alive t = tt
  reap-Tree c (some s1) s same child dead alive t =
      let (w, e) = same s1 refl in
      subst (λ x. KeptBy (reap ops c (some x))) (sym e)
        (world-Tree _
          (record (leave_parent s.current c s) { proc_list = remove_item c s.proc_list })
          (removed-Tree c s child dead alive t))

  slept-Tree : (r : Option Sched) (s : Family W) → Tree s → KeptBy (slept ops r s)
  slept-Tree none s t = tt
  slept-Tree (some x) s t = sched-Tree x s t

  choice-Tree :
      (r : Option ℕ) (s : Family W)
      → ((c : ℕ)
          → r ≡ some c
          → (0 < occurs c (s.procs s.current).children) × ((s.procs c).is_dead ≡ true))
      → (s.procs s.current).is_dead ≡ false
      → Tree s
      → KeptBy (reap_or_sleep ops r s)
  choice-Tree none s chosen alive t =
      slept-Tree (sched_sleep_on (s.procs s.current).wait s.sched) s t
  choice-Tree (some c) s chosen alive t =
      let (child, dead) = chosen c refl in
      reap-Tree c (destroy_threads ops (s.procs c).threads s) s
        (destroyed_threads (s.procs c).threads s) child dead alive t

  wait_for-Tree :
      (pid : Option ℕ) (s : Family W)
      → (s.procs s.current).is_dead ≡ false
      → Tree s
      → KeptBy (wait_for ops pid s)
  unfolding wait_for
  wait_for-Tree pid s alive t =
      let children = (s.procs s.current).children in
      if-Holds KeptBy (none_left children || not (knows ops pid s)) {x = echild s} (λ _. t)
        λ _.
          choice-Tree (first_dead s.procs (accepts ops pid) children) s
            (λ c e.
              let (on, _, dead) = first_dead-some s.procs (accepts ops pid) children c e in
              (on, dead))
            alive t

  pub waitpid-Tree :
      (pid options : ℤ) (s : Family W)
      → (s.procs s.current).is_dead ≡ false
      → Tree s
      → KeptBy (do_waitpid ops pid options s)
  unfolding do_waitpid
  waitpid-Tree pid options s alive t =
      elim (waits_on pid options) as (λ r. KeptBy (wait_asserted ops r s)) [
        | none ↦ tt
        | some whom ↦ wait_for-Tree whom s alive t
      ]
