-- ===== src/Fs/Vnode/Counts.antt =====
-- kernel/fs/vnode.c: the counts of the vnodes in use, and the search of their list.
use kernel.Base.{
  ℕ, ◌≤◌, ◌<◌, ◌≡◌, ◌≢◌, inl, inr, true, false, List, [], ◌∷◌, none, some, ◌==◌, occurs, arith,
  Bool-cases,
}
use kernel.Proc.Queue.{Sched}
use kernel.Fs.Vnode.{Vnode, VnodeTable, find_inuse, set_vnode}

-- A vnode that is found is the one with this file system and number; if none is found there is none.
pub find_inuse-some :
    (vnodes : ℕ → Vnode) (fs vno v : ℕ) (l : List ℕ)
    → find_inuse vnodes fs vno l ≡ some v
    → (0 < occurs v l) × ((vnodes v).fs ≡ fs) × ((vnodes v).vno ≡ vno)
unfolding find_inuse occurs
find_inuse-some vnodes fs vno v [] e = cc
find_inuse-some vnodes fs vno v (u ∷ rest) e =
    ground (arith, e, find_inuse-some vnodes fs vno v rest)

pub find_inuse-none :
    (vnodes : ℕ → Vnode) (fs vno v : ℕ) (l : List ℕ)
    → find_inuse vnodes fs vno l ≡ none
    → 0 < occurs v l
    → (vnodes v).fs ≡ fs
    → (vnodes v).vno ≢ vno
unfolding find_inuse occurs
find_inuse-none vnodes fs vno v [] e on same same' = omega (arith, on)
find_inuse-none vnodes fs vno v (u ∷ rest) e on same same' = elim (Bool-cases (u == v)) [
  | inl here ↦ ground (arith, here, e, same, same')
  | inr later ↦
      find_inuse-none vnodes fs vno v rest (ground (arith, e)) (ground (arith, later, on)) same
        same'
]

module _ {W : Type 0} where
  abbrev pub InUse : ℕ → VnodeTable W → Type 0
  InUse v s = 0 < occurs v s.inuse

  -- No two vnodes in use have one file system and number, none has more resident pages than
  -- references, each that is not busy has a reference, and each that is busy has none.
  pub record Table (s : VnodeTable W) : Type 0 where
    pub once : (v : ℕ) → occurs v s.inuse ≤ 1
    pub distinct :
        (u v : ℕ)
        → 0 < occurs u s.inuse
        → 0 < occurs v s.inuse
        → (s.vnodes u).fs ≡ (s.vnodes v).fs
        → (s.vnodes u).vno ≡ (s.vnodes v).vno
        → u ≡ v
    pub paged : (v : ℕ) → 0 < occurs v s.inuse → (s.vnodes v).nrespages ≤ (s.vnodes v).refcount
    pub counted :
        (v : ℕ) → 0 < occurs v s.inuse → (s.vnodes v).busy ≡ false → 0 < (s.vnodes v).refcount
    pub idle : (v : ℕ) → 0 < occurs v s.inuse → (s.vnodes v).busy ≡ true → (s.vnodes v).refcount ≡ 0

  pub world-Table : (w : W) (s : VnodeTable W) → Table s → Table (record s { world = w })
  world-Table w s t = record {
    once = t.once;
    distinct = t.distinct;
    paged = t.paged;
    counted = t.counted;
    idle = t.idle;
  }

  pub sched-Table : (x : Sched) (s : VnodeTable W) → Table s → Table (record s { sched = x })
  sched-Table x s t = record {
    once = t.once;
    distinct = t.distinct;
    paged = t.paged;
    counted = t.counted;
    idle = t.idle;
  }

  -- A change of the counts of one vnode.
  pub set_vnode-Table :
      (v : ℕ) (x : Vnode) (s : VnodeTable W)
      → x.fs ≡ (s.vnodes v).fs
      → x.vno ≡ (s.vnodes v).vno
      → x.nrespages ≤ x.refcount
      → (x.busy ≡ false → 0 < x.refcount)
      → (x.busy ≡ true → x.refcount ≡ 0)
      → Table s
      → Table (set_vnode v x s)
  set_vnode-Table v x s same_fs same_vno fits live none_left t = record {
    once = t.once;
    distinct = λ a b in_a in_b fs vno.
        t.distinct a b in_a in_b (ground (arith, fs, same_fs)) (ground (arith, vno, same_vno));
    paged = λ a in_a. ground (arith, t.paged a in_a, fits);
    counted = λ a in_a idle. elim (Bool-cases (v == a)) [
      | inl same ↦ rw same (live (ground (arith, same, idle)))
      | inr apart ↦ rw apart (t.counted a in_a (ground (arith, apart, idle)))
    ];
    idle = λ a in_a busy. elim (Bool-cases (v == a)) [
      | inl same ↦ rw same (none_left (ground (arith, same, busy)))
      | inr apart ↦ rw apart (t.idle a in_a (ground (arith, apart, busy)))
    ];
  }
