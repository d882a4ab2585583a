-- ===== src/Fs/Vnode/Puts.antt =====
-- kernel/fs/vnode.c: `vref` and `vput` on the counts of the vnodes in use.
use kernel.Base.{
  ℕ, zero, suc, ◌+◌, ◌-◌, ◌<◌, ◌≡◌, refl, subst, true, not, List, [], ◌∷◌, Option, none, some, ltb,
  ◌==◌, ◌&&◌, ◌||◌, occurs, arith, if-Holds,
}
use kernel.Proc.Queue.{Sched}
use kernel.Proc.Sched.{sched_sleep_on}
use kernel.Fs.Vnode.{
  VnodeTable, FileSystems, Put, put, deletes, waits, set_vnode, vref, put_waits, drop_ref,
  after_pages, page_gone, then_pages, free_pages, vput_at,
}
use kernel.Fs.Vnode.Counts.{InUse, Table, world-Table, sched-Table, set_vnode-Table}

module _ {W : Type 0} where
  abbrev pub RefKept : List ℕ → Option (VnodeTable W) → Type 0
  RefKept l none = Unit
  RefKept l (some s) = Table s × (s.inuse ≡ l)

  abbrev pub PutKept : List ℕ → Put W → Type 0
  PutKept l (put s) = Table s × (s.inuse ≡ l)
  PutKept l (deletes v s) = Table s × (s.inuse ≡ l)
  PutKept l (waits s) = Table s × (s.inuse ≡ l)
  PutKept l Put.panic = Unit

  pub vref-Table : (v : ℕ) (s : VnodeTable W) → InUse v s → Table s → RefKept s.inuse (vref v s)
  unfolding vref
  vref-Table v s used t =
      let x = s.vnodes v in
      if-Holds (RefKept s.inuse) (ltb 0 x.refcount)
        {x = some (set_vnode v (record x { refcount = x.refcount + 1 }) s)} {y = none}
        (λ positive. (
          set_vnode-Table v (record x { refcount = x.refcount + 1 }) s refl refl
              (omega (arith, t.paged v used)) (λ _. omega arith)
              (λ busy. absurd (ground (arith, t.idle v used busy, positive))) t,
          refl,
        ))
        λ _. tt

  drop_ref-Kept :
      (v : ℕ) (s : VnodeTable W)
      → InUse v s
      → (s.vnodes v).nrespages < (s.vnodes v).refcount
      → Table s
      → PutKept s.inuse (drop_ref v s)
  drop_ref-Kept v s used less t =
      let x = s.vnodes v in
      let lower = record x { refcount = x.refcount - 1 } in
      if-Holds (PutKept s.inuse) (ltb 0 (x.refcount - 1)) {x = put (set_vnode v lower s)}
        (λ positive. (
          set_vnode-Table v lower s refl refl (omega (arith, less)) (λ _. ground (arith, positive))
              (λ busy. absurd (omega (arith, t.idle v used busy, less))) t,
          refl,
        ))
        λ _.
          if-Holds (PutKept s.inuse) ((x.refcount - 1 == 0) && (x.nrespages == 0))
            {x = deletes v (set_vnode v (record lower { busy = true }) s)} {y = Put.panic}
            (λ last. (
              set_vnode-Table v (record lower { busy = true }) s refl refl (omega (arith, less))
                  (λ idle. cc) (λ _. ground (arith, last)) t,
              refl,
            ))
            λ _. tt

  put_waits-Kept : (o : Option Sched) (s : VnodeTable W) → Table s → PutKept s.inuse (put_waits o s)
  put_waits-Kept none s t = tt
  put_waits-Kept (some x) s t = (sched-Table x s t, refl)

  -- Steps that keep the list of vnodes in use.
  abbrev pub KeepsAt : ℕ → (VnodeTable W → Put W) → List ℕ → Type 0
  KeepsAt v f l = (s : VnodeTable W) → s.inuse ≡ l → Table s → PutKept l (f s)

  then_pages-Kept :
      (next : VnodeTable W → Put W) (r : Put W) (l : List ℕ) (v : ℕ)
      → KeepsAt v next l
      → PutKept l r
      → PutKept l (then_pages next r)
  then_pages-Kept next (put s) l v keep (t, same) = keep s same t
  then_pages-Kept next (deletes v' s) l v keep kept = kept
  then_pages-Kept next (waits s) l v keep kept = kept
  then_pages-Kept next Put.panic l v keep kept = tt

module _ {W : Type 0} (ops : FileSystems W) where
  pub page_gone-Table :
      (v p : ℕ) (s : VnodeTable W) → InUse v s → Table s → Table (page_gone ops v p s)
  page_gone-Table v p s used t =
      let x = s.vnodes v in
      set_vnode-Table v (record x { nrespages = x.nrespages - 1 })
        (record s { world = ops.uncache s.world p }) refl refl (omega (arith, t.paged v used))
        (λ idle. t.counted v used idle) (λ busy. t.idle v used busy)
        (world-Table (ops.uncache s.world p) s t)

  free_pages-Kept :
      (put_object : ℕ → VnodeTable W → Put W) (v : ℕ) (pages l : List ℕ)
      → KeepsAt v (put_object v) l
      → 0 < occurs v l
      → KeepsAt v (free_pages ops put_object v pages) l
  unfolding free_pages
  free_pages-Kept put_object v [] l keep used s same t = (t, same)
  free_pages-Kept put_object v (p ∷ rest) l keep used s same t =
      if-Holds (PutKept l) (ops.page_is_busy s.world p)
        (λ _.
          subst (λ k. PutKept k (put_waits (sched_sleep_on (ops.page_waitq s.world p) s.sched) s))
            same (put_waits-Kept (sched_sleep_on (ops.page_waitq s.world p) s.sched) s t))
        λ _.
          then_pages-Kept (free_pages ops put_object v rest) (put_object v (page_gone ops v p s)) l
            v (free_pages-Kept put_object v rest l keep used)
            (keep (page_gone ops v p s) same (page_gone-Table v p s (rw same used) t))

  after_pages-Kept :
      (v : ℕ) (r : Put W) (l : List ℕ) → 0 < occurs v l → PutKept l r → PutKept l (after_pages v r)
  after_pages-Kept v (put s) l used (t, same) =
      if-Holds (PutKept l) (((s.vnodes v).nrespages == 0) && ((s.vnodes v).refcount == 1))
        {y = Put.panic}
        (λ last.
          subst (λ k. PutKept k (drop_ref v s)) same
            (drop_ref-Kept v s (rw same used) (ground (arith, last)) t))
        λ _. tt
  after_pages-Kept v (deletes v' s) l used kept = kept
  after_pages-Kept v (waits s) l used kept = kept
  after_pages-Kept v Put.panic l used kept = tt

  pub vput_at-Kept : (depth v : ℕ) (l : List ℕ) → 0 < occurs v l → KeepsAt v (vput_at ops depth v) l
  unfolding vput_at
  vput_at-Kept zero v l used s same t = tt
  vput_at-Kept (suc depth) v l used s same t =
      let x = s.vnodes v in
      if-Holds (PutKept l) (not (ltb x.nrespages x.refcount) || x.busy) {x = Put.panic} (λ _. tt)
        λ sound.
          if-Holds (PutKept l) ((x.nrespages == x.refcount - 1) && not (ops.query_vnode s.world v))
            (λ _.
              after_pages-Kept v (free_pages ops (vput_at ops depth) v (ops.pages s.world v) s) l
                used
                (free_pages-Kept (vput_at ops depth) v (ops.pages s.world v) l
                  (vput_at-Kept depth v l used) used s same t))
            λ _.
              subst (λ k. PutKept k (drop_ref v s)) same
                (drop_ref-Kept v s (rw same used) (ground (arith, sound)) t)
