-- ===== src/Fs/Vnode/Lookups.antt =====
-- kernel/fs/vnode.c: `vget` and the ends of `vget` and `vput` on the counts of the vnodes in use.
use kernel.Base.{
  ℕ, ◌+◌, ◌<◌, ◌≡◌, ◌∙◌, refl, sym, ap, subst, inl, inr, Bool, true, false, List, Option, none,
  some, occurs, remove_item, occurs-remove_item, arith, if-Holds, Option-cases, ℕ_discrete,
}
use kernel.Proc.Queue.{Sched}
use kernel.Proc.Sched.{sched_sleep_on, sched_make_runnable, sched_broadcast_on}
use kernel.Fs.Vnode.{
  VnodeTable, FileSystems, Got, got, sleeps, retries, reads, find_inuse, set_vnode, vref, got_ref,
  get_sleeps, get_retries, special_of, new_vnode, get_new, vget, vget_finish, unlink_vnode,
  vput_finish,
}
use kernel.Fs.Vnode.Counts.{
  InUse, Table, world-Table, sched-Table, set_vnode-Table, find_inuse-some, find_inuse-none,
}
use kernel.Fs.Vnode.Puts.{RefKept, vref-Table}

module _ {W : Type 0} where
  abbrev pub GotKept : Got W → Type 0
  GotKept (got v s) = Table s
  GotKept (sleeps s) = Table s
  GotKept (retries s) = Table s
  GotKept (reads v s) = Table s
  GotKept Got.panic = Unit

  abbrev OptionTable : Option (VnodeTable W) → Type 0
  OptionTable none = Unit
  OptionTable (some s) = Table s

  got_ref-Kept :
      (v : ℕ) (l : List ℕ) (o : Option (VnodeTable W)) → RefKept l o → GotKept (got_ref v o)
  got_ref-Kept v l none kept = tt
  got_ref-Kept v l (some s) (t, _) = t

  get_sleeps-Kept : (o : Option Sched) (s : VnodeTable W) → Table s → GotKept (get_sleeps o s)
  get_sleeps-Kept none s t = tt
  get_sleeps-Kept (some x) s t = sched-Table x s t

  get_retries-Kept : (o : Option Sched) (s : VnodeTable W) → Table s → GotKept (get_retries o s)
  get_retries-Kept none s t = tt
  get_retries-Kept (some x) s t = sched-Table x s t

  -- A page of the vnode that becomes resident.
  abbrev pub cached : ℕ → W → VnodeTable W → VnodeTable W
  cached v w s =
      let x = s.vnodes v in
      set_vnode v (record x { refcount = x.refcount + 1; nrespages = x.nrespages + 1 })
        (record s { world = w })

  pub cached-Table :
      (v : ℕ) (w : W) (s : VnodeTable W)
      → InUse v s
      → (s.vnodes v).busy ≡ false
      → Table s
      → Table (cached v w s)
  cached-Table v w s used free t =
      let x = s.vnodes v in
      set_vnode-Table v (record x { refcount = x.refcount + 1; nrespages = x.nrespages + 1 })
        (record s { world = w }) refl refl (omega (arith, t.paged v used)) (λ _. omega arith)
        (λ busy. cc) (world-Table w s t)

  still : (v a : ℕ) (s : VnodeTable W) → 0 < occurs a (remove_item v s.inuse) → 0 < occurs a s.inuse
  still v a s in_a = omega (arith, in_a, occurs-remove_item v a s.inuse)

module _ {W : Type 0} (ops : FileSystems W) where
  -- The memory that the allocator gives is not that of a vnode in use.
  abbrev pub Fresh : VnodeTable W → Type 0
  Fresh s = (v : ℕ) (w : W) → ops.slab_alloc s.world ≡ (some v, w) → occurs v s.inuse ≡ 0

  new_vnode-Table :
      (fs vno v : ℕ) (s : VnodeTable W)
      → find_inuse s.vnodes fs vno s.inuse ≡ none
      → occurs v s.inuse ≡ 0
      → Table s
      → Table (new_vnode ops fs vno v s)
  unfolding occurs
  new_vnode-Table fs vno v s absent fresh t = record {
    once = λ a. ground (arith, t.once a, fresh);
    distinct = λ a b in_a in_b same same'. elim (ℕ_discrete v a) [
      | yes new_a ↦ elim (ℕ_discrete v b) [
        | yes new_b ↦ sym new_a ∙ new_b
        | no old_b ↦ absurd (
            find_inuse-none s.vnodes fs vno b s.inuse absent (ground (arith, old_b, in_b))
              (ground (arith, new_a, old_b, same)) (ground (arith, new_a, old_b, same')))
      ]
      | no old_a ↦ elim (ℕ_discrete v b) [
        | yes new_b ↦ absurd (
            find_inuse-none s.vnodes fs vno a s.inuse absent (ground (arith, old_a, in_a))
              (ground (arith, new_b, old_a, same)) (ground (arith, new_b, old_a, same')))
        | no old_b ↦
            t.distinct a b (ground (arith, old_a, in_a)) (ground (arith, old_b, in_b))
              (ground (arith, old_a, old_b, same)) (ground (arith, old_a, old_b, same'))
      ]
    ];
    paged = λ a in_a. elim (ℕ_discrete v a) [
      | yes new ↦ ground (arith, new)
      | no old ↦ ground (arith, old, t.paged a (ground (arith, old, in_a)))
    ];
    counted = λ a in_a idle. elim (ℕ_discrete v a) [
      | yes new ↦ ground (arith, new, idle)
      | no old ↦
          ground (arith, old, t.counted a (ground (arith, old, in_a)) (ground (arith, old, idle)))
    ];
    idle = λ a in_a busy. elim (ℕ_discrete v a) [
      | yes new ↦ ground (arith, new)
      | no old ↦
          ground (arith, old, t.idle a (ground (arith, old, in_a)) (ground (arith, old, busy)))
    ];
  }

  get_new-Kept :
      (fs vno : ℕ) (r : Option ℕ × W) (s : VnodeTable W)
      → find_inuse s.vnodes fs vno s.inuse ≡ none
      → ((v : ℕ) → r.0 ≡ some v → occurs v s.inuse ≡ 0)
      → Table s
      → GotKept (get_new ops fs vno r s)
  get_new-Kept fs vno (none, w) s absent fresh t =
      get_retries-Kept (sched_make_runnable s.sched.current s.sched) (record s { world = w })
        (world-Table w s t)
  get_new-Kept fs vno (some v, w) s absent fresh t =
      new_vnode-Table fs vno v (record s { world = w }) absent (fresh v refl) (world-Table w s t)

  pub vget-Kept : (fs vno : ℕ) (s : VnodeTable W) → Fresh s → Table s → GotKept (vget ops fs vno s)
  unfolding vget
  vget-Kept fs vno s fresh t = elim (Option-cases (find_inuse s.vnodes fs vno s.inuse)) [
    | inl absent ↦ rw absent (
        get_new-Kept fs vno (ops.slab_alloc s.world) s absent
          (λ v e. fresh v (ops.slab_alloc s.world).1 (ap (λ o. (o, (ops.slab_alloc s.world).1)) e))
          t)
    | inr (v, found) ↦
        let (used, _, _) = find_inuse-some s.vnodes fs vno v s.inuse found in
        rw found (
          if-Holds GotKept (s.vnodes v).busy
            (λ _. get_sleeps-Kept (sched_sleep_on (s.vnodes v).waitq s.sched) s t)
            λ _. got_ref-Kept v s.inuse (vref v s) (vref-Table v s used t))
  ]

  pub vget_finish-Table :
      (v : ℕ) (s : VnodeTable W)
      → InUse v s
      → (s.vnodes v).busy ≡ true
      → Table s
      → Table (vget_finish ops v s)
  unfolding vget_finish
  vget_finish-Table v s used busy t =
      let (mode, w) = ops.read_vnode s.world v in
      let x = record (s.vnodes v) {
        mode = mode;
        busy = false;
        special = special_of ops mode;
        refcount = 1;
      } in
      set_vnode-Table v x (record s { world = w }) refl refl
        (omega (arith, t.paged v used, t.idle v used busy)) (λ _. omega arith) (λ e. cc)
        (world-Table w s t)

  removed-Table :
      (v : ℕ) (x : Sched) (w : W) (s : VnodeTable W)
      → Table s
      → Table (record s { inuse = remove_item v s.inuse; sched = x; world = w })
  removed-Table v x w s t = record {
    once = λ a. omega (arith, occurs-remove_item v a s.inuse, t.once a);
    distinct =
        λ a b in_a in_b same same'. t.distinct a b (still v a s in_a) (still v b s in_b) same same';
    paged = λ a in_a. t.paged a (still v a s in_a);
    counted = λ a in_a idle. t.counted a (still v a s in_a) idle;
    idle = λ a in_a busy. t.idle a (still v a s in_a) busy;
  }

  unlinked-Table :
      (v : ℕ) (o : Option (Bool × Sched)) (s s' : VnodeTable W)
      → Table s
      → unlink_vnode ops v o s ≡ some s'
      → Table s'
  unlinked-Table v none s s' t e = cc
  unlinked-Table v (some (b, x)) s s' t e =
      subst OptionTable e (removed-Table v x (ops.slab_free s.world v) s t)

  pub vput_finish-Table :
      (v : ℕ) (s s' : VnodeTable W) → Table s → vput_finish ops v s ≡ some s' → Table s'
  unfolding vput_finish
  vput_finish-Table v s s' t e =
      let s1 = record s { world = ops.delete_vnode s.world v } in
      unlinked-Table v (sched_broadcast_on (s1.vnodes v).waitq s1.sched) s1 s'
        (world-Table (ops.delete_vnode s.world v) s t) e
