-- ===== src/Fs/Vnode/Busy.antt =====
-- kernel/fs/vnode.c: `vfs_is_in_use`, and the threads that wait in `vget`.
use kernel.Base.{ℕ, ◌-◌, ◌≡◌, ap, true, false, none, some, arith}
use kernel.Proc.Sched.{sched_sleep_on}
use kernel.Fs.Vnode.{
  VnodeTable, FileSystems, sleeps, find_inuse, get_sleeps, vget, vget_finish, is_used,
}
use kernel.Proc.Queue.{sleep, enqueued, ktqueue_enqueue}
use kernel.Proc.Sched.{set_state}

module _ {W : Type 0} (ops : FileSystems W) where
  -- A vnode of the file system that keeps it from being unmounted.
  abbrev pub Keeps : ℕ → VnodeTable W → ℕ → Type 0
  Keeps fs s v =
      ((s.vnodes v).fs ≡ fs)
      × (is_used (ops.fs_root s.world fs) v ((s.vnodes v).refcount - (s.vnodes v).nrespages) ≡ true)

  -- A thread on no queue that looks up a vnode which another thread is bringing in goes to sleep on
  -- `vn_waitq`, and the end of `vget` in the other thread, which makes the vnode usable, with one
  -- reference, leaves it asleep there.
  pub vget_finish_wakes_nobody :
      (fs vno v : ℕ) (s : VnodeTable W)
      → find_inuse s.vnodes fs vno s.inuse ≡ some v
      → (s.vnodes v).busy ≡ true
      → (s.sched.threads s.sched.current).wchan ≡ none
      → (s' : VnodeTable W) × (vget ops fs vno s ≡ sleeps s')
        × (((vget_finish ops v s').vnodes v).busy ≡ false)
        × (((vget_finish ops v s').vnodes v).refcount ≡ 1)
        × (((vget_finish ops v s').sched.threads s.sched.current).state ≡ sleep)
        × (((vget_finish ops v s').sched.threads s.sched.current).wchan
            ≡ some ((vget_finish ops v s').vnodes v).waitq)
  unfolding vget vget_finish sched_sleep_on ktqueue_enqueue
  vget_finish_wakes_nobody fs vno v s found busy off =
      let t = s.sched.current in
      let q = (s.vnodes v).waitq in
      let asleep = enqueued q t (set_state t sleep s.sched) in
      let slept : sched_sleep_on q s.sched ≡ some asleep = ground (arith, off) in
      (
        record s { sched = asleep },
        rw (found, busy) (ap (λ o. get_sleeps o s) slept),
        ground arith,
        ground arith,
        ground arith,
        ground arith,
      )
