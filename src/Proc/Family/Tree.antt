-- ===== src/Proc/Family/Tree.antt =====
-- kernel/proc/proc.c: the links between parents and children.
use kernel.Base.{
  ℕ, ◌≤◌, ◌<◌, ◌≡◌, ◌≢◌, ap, true, false, List, [], ◌∷◌, ◌==◌, if◌then◌else◌, arith, occurs,
  occurs-append, occurs-remove_item, remove_item,
}
use kernel.Proc.Queue.{is_on}
use kernel.Proc.Family.{Family, pid_idle, leave_parent, adopt, enrolled, reparent, die}

-- A process on `_proc_list` is there once and among the children of its parent alone, the parent is on
-- `_proc_list`, and a dead process has no children.
pub record Tree {W : Type 0} (s : Family W) : Type 0 where
  pub once : (c : ℕ) → occurs c s.proc_list ≤ 1
  pub counted :
      (p c : ℕ)
      → occurs c (s.procs p).children
        ≡ (if is_on p (s.procs c).parent then occurs c s.proc_list else 0)
  pub parented :
      (p c : ℕ)
      → is_on p (s.procs c).parent ≡ true
      → 0 < occurs c s.proc_list
      → 0 < occurs p s.proc_list
  pub childless : (p : ℕ) → (s.procs p).is_dead ≡ true → (s.procs p).children ≡ []

module _ {W : Type 0} where
  -- A new process, whose memory is not in use, below a running one.
  pub enrolled-Tree :
      (p pid wait : ℕ) (s : Family W)
      → occurs p s.proc_list ≡ 0
      → 0 < occurs s.current s.proc_list
      → (s.procs s.current).is_dead ≡ false
      → (pid == pid_idle) ≡ false
      → Tree s
      → Tree (enrolled p pid wait s)
  unfolding occurs
  enrolled-Tree p pid wait s fresh listed alive idle t = rw idle (record {
    once = λ c. ground (arith, t.once c, occurs-append c s.proc_list (p ∷ []), fresh);
    counted = λ q c. ground (
      arith,
      fresh,
      listed,
      t.counted q c,
      t.parented p c,
      occurs-append c s.proc_list (p ∷ []),
      occurs-append c (s.procs s.current).children (p ∷ []),
    );
    parented = λ q c on used. ground (
      arith,
      fresh,
      listed,
      on,
      used,
      t.parented q c,
      occurs-append c s.proc_list (p ∷ []),
      occurs-append q s.proc_list (p ∷ []),
    );
    childless = λ q dead. ground (arith, fresh, listed, alive, dead, t.childless q);
  })

  -- A process that is done waiting for dies.
  pub die-Tree :
      (p status : ℕ) (s : Family W) → (s.procs p).children ≡ [] → Tree s → Tree (die p status s)
  die-Tree p status s childless t = record {
    once = t.once;
    counted = λ q c. ground (arith, t.counted q c);
    parented = λ q c on used. ground (arith, on, used, t.parented q c);
    childless = λ q dead. ground (arith, dead, childless, t.childless q);
  }

  -- A child is moved from one living process to another.
  pub adopt-Tree :
      (from to c : ℕ) (s : Family W)
      → from ≢ to
      → 0 < occurs c (s.procs from).children
      → 0 < occurs to s.proc_list
      → (s.procs from).is_dead ≡ false
      → (s.procs to).is_dead ≡ false
      → Tree s
      → Tree (adopt from to c s)
  unfolding occurs
  adopt-Tree from to c s apart child listed alive alive' t = record {
    once = t.once;
    counted = λ q d. ground (
      arith,
      child,
      t.counted q d,
      t.counted from c,
      t.once c,
      occurs-append d (s.procs to).children (c ∷ []),
      occurs-remove_item c d (s.procs from).children,
    );
    parented = λ q d on used. ground (arith, on, used, listed, t.parented q d);
    childless = λ q dead. ground (arith, dead, alive, alive', t.childless q);
  }

  -- The processes that a step leaves as they are for the steps that follow.
  abbrev pub Lasts : ℕ → ℕ → Family W → Type 0
  Lasts from to s =
      (0 < occurs to s.proc_list)
      × ((s.procs from).is_dead ≡ false)
      × ((s.procs to).is_dead ≡ false)

  adopt-Lasts : (from to c : ℕ) (s : Family W) → Lasts from to s → Lasts from to (adopt from to c s)
  adopt-Lasts from to c s (listed, alive, alive') =
      (listed, ground (arith, alive), ground (arith, alive'))

  adopt-children :
      (from to c : ℕ) (rest : List ℕ) (s : Family W)
      → from ≢ to
      → (s.procs from).children ≡ c ∷ rest
      → ((adopt from to c s).procs from).children ≡ rest
  unfolding remove_item
  adopt-children from to c rest s apart children = ground (arith, apart, children)

  -- The loop of `proc_cleanup` moves every child and leaves none.
  pub reparent-Tree :
      (from to : ℕ) (rest : List ℕ) (s : Family W)
      → from ≢ to
      → (s.procs from).children ≡ rest
      → Lasts from to s
      → Tree s
      → Tree (reparent from to rest s)
        × Lasts from to (reparent from to rest s)
        × (((reparent from to rest s).procs from).children ≡ [])
  unfolding reparent occurs
  reparent-Tree from to [] s apart children lasts t = (t, lasts, children)
  reparent-Tree from to (c ∷ rest) s apart children lasts t =
      let (listed, alive, alive') = lasts in
      let child : 0 < occurs c (s.procs from).children = ground (arith, ap (occurs c) children) in
      reparent-Tree from to rest (adopt from to c s) apart
        (adopt-children from to c rest s apart children) (adopt-Lasts from to c s lasts)
        (adopt-Tree from to c s apart child listed alive alive' t)

  -- A dead child leaves the lists.
  pub removed-Tree :
      (c : ℕ) (s : Family W)
      → 0 < occurs c (s.procs s.current).children
      → (s.procs c).is_dead ≡ true
      → (s.procs s.current).is_dead ≡ false
      → Tree s
      → Tree (record (leave_parent s.current c s) { proc_list = remove_item c s.proc_list })
  unfolding occurs
  removed-Tree c s child dead alive t =
      let no_child : (d : ℕ) → occurs d (s.procs c).children ≡ 0 =
        λ d. ap (occurs d) (t.childless c dead) in
      record {
        once = λ d. ground (arith, t.once d, occurs-remove_item c d s.proc_list);
        counted = λ q d. ground (
          arith,
          child,
          t.counted q d,
          t.counted q c,
          t.counted s.current c,
          t.once c,
          occurs-remove_item c d (s.procs s.current).children,
          occurs-remove_item c d s.proc_list,
        );
        parented = λ q d on used. ground (
          arith,
          on,
          used,
          t.parented q d,
          t.counted c d,
          no_child d,
          occurs-remove_item c d s.proc_list,
          occurs-remove_item c q s.proc_list,
        );
        childless = λ q is_dead. ground (arith, is_dead, alive, t.childless q);
      }
