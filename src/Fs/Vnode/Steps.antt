-- ===== src/Fs/Vnode/Steps.antt =====
-- kernel/fs/vnode.c: the steps of all threads that use vnodes.
use kernel.Base.{ℕ, ◌≡◌, refl, subst, true, false, some}
use kernel.Fs.Vnode.{
  VnodeTable, FileSystems, got, sleeps, reads, put, deletes, waits, vref, vget, vget_finish,
  page_gone, vput, vput_finish,
}
use kernel.Fs.Vnode.Counts.{InUse, Table}
use kernel.Fs.Vnode.Puts.{RefKept, PutKept, vref-Table, vput_at-Kept, page_gone-Table}
use kernel.Fs.Vnode.Lookups.{
  GotKept, Fresh, cached, cached-Table, vget-Kept, vget_finish-Table, vput_finish-Table,
}

module _ {W : Type 0} (ops : FileSystems W) where
  vput-Kept : (v : ℕ) (s : VnodeTable W) → InUse v s → Table s → PutKept s.inuse (vput ops v s)
  unfolding vput
  vput-Kept v s used t = vput_at-Kept ops 2 v s.inuse used s refl t

-- The states that any threads reach from a table without vnodes. A page that becomes resident takes a
-- reference of its vnode, and one that leaves gives it up.
pub data Reach {W : Type 0} (ops : FileSystems W) (s0 : VnodeTable W) : VnodeTable W → Type 0 where
  start : Reach ops s0 s0
  refs :
      (s s' : VnodeTable W) (v : ℕ)
      → Reach ops s0 s
      → InUse v s
      → vref v s ≡ some s'
      → Reach ops s0 s'
  gets :
      (s s' : VnodeTable W) (fs vno v : ℕ)
      → Reach ops s0 s
      → Fresh ops s
      → vget ops fs vno s ≡ got v s'
      → Reach ops s0 s'
  sleeps_on :
      (s s' : VnodeTable W) (fs vno : ℕ)
      → Reach ops s0 s
      → Fresh ops s
      → vget ops fs vno s ≡ sleeps s'
      → Reach ops s0 s'
  begins :
      (s s' : VnodeTable W) (fs vno v : ℕ)
      → Reach ops s0 s
      → Fresh ops s
      → vget ops fs vno s ≡ reads v s'
      → Reach ops s0 s'
  finishes :
      (s : VnodeTable W) (v : ℕ)
      → Reach ops s0 s
      → InUse v s
      → (s.vnodes v).busy ≡ true
      → Reach ops s0 (vget_finish ops v s)
  caches :
      (s : VnodeTable W) (v : ℕ) (w : W)
      → Reach ops s0 s
      → InUse v s
      → (s.vnodes v).busy ≡ false
      → Reach ops s0 (cached v w s)
  puts :
      (s s' : VnodeTable W) (v : ℕ)
      → Reach ops s0 s
      → InUse v s
      → vput ops v s ≡ put s'
      → Reach ops s0 s'
  begins_delete :
      (s s' : VnodeTable W) (v u : ℕ)
      → Reach ops s0 s
      → InUse v s
      → vput ops v s ≡ deletes u s'
      → Reach ops s0 s'
  waits_page :
      (s s' : VnodeTable W) (v : ℕ)
      → Reach ops s0 s
      → InUse v s
      → vput ops v s ≡ waits s'
      → Reach ops s0 s'
  uncaches :
      (s s' : VnodeTable W) (v p : ℕ)
      → Reach ops s0 s
      → InUse v s
      → vput ops v (page_gone ops v p s) ≡ put s'
      → Reach ops s0 s'
  deleted :
      (s s' : VnodeTable W) (v : ℕ)
      → Reach ops s0 s
      → vput_finish ops v s ≡ some s'
      → Reach ops s0 s'

module _ {W : Type 0} {ops : FileSystems W} where
  -- However threads take and give up references, look vnodes up, wait for them and bring them in and
  -- out, step by step, no two vnodes in use have one file system and number, none has more resident
  -- pages than references, each that is not busy has a reference, and each that is busy has none. New
  -- memory is not that of a vnode in use.
  pub Reach-Table : (s0 s : VnodeTable W) → Table s0 → Reach ops s0 s → Table s
  Reach-Table s0 _ t start = t
  Reach-Table s0 s t (refs s1 _ v reach used e) =
      (subst (RefKept s1.inuse) e (vref-Table v s1 used (Reach-Table s0 s1 t reach))).0
  Reach-Table s0 s t (gets s1 _ fs vno v reach fresh e) =
      subst GotKept e (vget-Kept ops fs vno s1 fresh (Reach-Table s0 s1 t reach))
  Reach-Table s0 s t (sleeps_on s1 _ fs vno reach fresh e) =
      subst GotKept e (vget-Kept ops fs vno s1 fresh (Reach-Table s0 s1 t reach))
  Reach-Table s0 s t (begins s1 _ fs vno v reach fresh e) =
      subst GotKept e (vget-Kept ops fs vno s1 fresh (Reach-Table s0 s1 t reach))
  Reach-Table s0 _ t (finishes s1 v reach used busy) =
      vget_finish-Table ops v s1 used busy (Reach-Table s0 s1 t reach)
  Reach-Table s0 _ t (caches s1 v w reach used free) =
      cached-Table v w s1 used free (Reach-Table s0 s1 t reach)
  Reach-Table s0 s t (puts s1 _ v reach used e) =
      (subst (PutKept s1.inuse) e (vput-Kept ops v s1 used (Reach-Table s0 s1 t reach))).0
  Reach-Table s0 s t (begins_delete s1 _ v u reach used e) =
      (subst (PutKept s1.inuse) e (vput-Kept ops v s1 used (Reach-Table s0 s1 t reach))).0
  Reach-Table s0 s t (waits_page s1 _ v reach used e) =
      (subst (PutKept s1.inuse) e (vput-Kept ops v s1 used (Reach-Table s0 s1 t reach))).0
  Reach-Table s0 s t (uncaches s1 _ v p reach used e) =
      (subst (PutKept s1.inuse) e (
        vput-Kept ops v (page_gone ops v p s1) used
          (page_gone-Table ops v p s1 used (Reach-Table s0 s1 t reach)))).0
  Reach-Table s0 s t (deleted s1 _ v reach e) =
      vput_finish-Table ops v s1 s (Reach-Table s0 s1 t reach) e
