-- ===== src/Api/Dispatch/Balance.antt =====
-- kernel/api/syscall.c: the blocks of memory that the system calls take.
use kernel.Base.{
  ℕ, zero, suc, ◌+◌, ◌<◌, ◌≡◌, ◌⊎◌, refl, inl, inr, true, List, [], ◌∷◌, occurs, Option, none, some,
  ltb, add32, ℤ, pos, negsuc, arith, if-Holds,
}
use kernel.Api.Memory.{Codes, Kernel, Machine, run, copy_to_user}
use kernel.Api.Blocks.{Positive, Held, copy_to_user-Held}
use kernel.Api.Calls.{Structs, Services, fetch}
use kernel.Api.Outcomes.{Narrow, fetch-Held}
use kernel.Api.Transfers.{dirent_copied, dirent_read, getdents_loop, with_request, sys_getdents}
use kernel.Api.Dispatch.{
  sys_execve, sys_debug, SysNum, Others, Ended, returns, address, process_exits, thread_exits,
  unfinished, syscall_dispatch, nr_waitpid, nr_exit, nr_thr_exit, nr_thr_yield, nr_fork, nr_getpid,
  nr_sync, nr_mmap, nr_munmap, nr_open, nr_close, nr_read, nr_write, nr_dup, nr_dup2, nr_mkdir,
  nr_rmdir, nr_unlink, nr_link, nr_rename, nr_chdir, nr_getdents, nr_brk, nr_lseek, nr_halt,
  nr_set_errno, nr_errno, nr_execve, nr_stat, nr_uname, nr_debug, nr_kshell, nr_other, end_loop,
  syscall_handler, after_call,
}
use kernel.Api.Dispatch.Errors.{tells, EndedDone, dispatch-Done}
use kernel.Api.Dispatch.Execve.{sys_execve-Back, sys_debug-Back}
use kernel.Api.Transfers.Reading.{Bounded, Rounds, sys_read_outcome}
use kernel.Api.Transfers.Writing.{sys_write_outcome}
use kernel.Api.Transfers.{sys_read, sys_write}

module _ {W : Type 0} (codes : Codes) (m : Machine W) (t : Structs W) (v : Services W)
    (o : Others W) where
  -- What has come back when a call ends: every block, and nothing twice.
  abbrev pub BlocksBack : Kernel W → Ended W → Type 0
  BlocksBack s (returns r s') =
      ((p : ℕ) → occurs p s'.blocks ≡ occurs p s.blocks) × (s'.misfreed ≡ s.misfreed)
  BlocksBack s (address r s') =
      ((p : ℕ) → occurs p s'.blocks ≡ occurs p s.blocks) × (s'.misfreed ≡ s.misfreed)
  BlocksBack s (process_exits status s') =
      ((p : ℕ) → occurs p s'.blocks ≡ occurs p s.blocks) × (s'.misfreed ≡ s.misfreed)
  BlocksBack s (thread_exits s') =
      ((p : ℕ) → occurs p s'.blocks ≡ occurs p s.blocks) × (s'.misfreed ≡ s.misfreed)
  BlocksBack s unfinished = Unit

  -- The state itself, with nothing more out.
  unchanged : (s : Kernel W) → Held s.blocks s.pages s.misfreed [] s.errno s
  unfolding occurs
  unchanged s = ((λ p. omega arith), refl, refl, refl)

  Held-BlocksBack :
      (s s' : Kernel W) (g : List ℕ) (e : ℕ)
      → Held s.blocks g s.misfreed [] e s'
      → ((p : ℕ) → occurs p s'.blocks ≡ occurs p s.blocks) × (s'.misfreed ≡ s.misfreed)
  unfolding occurs
  Held-BlocksBack s s' g e (out, _, fine, _) = ((λ p. omega (arith, out p)), fine)

  after_call-BlocksBack :
      (s : Kernel W) (ended : Ended W)
      → BlocksBack s ended
      → BlocksBack s (after_call codes m t v o ended)
  after_call-BlocksBack s (returns r s') back =
      if-Holds (BlocksBack s) (o.is_cancelled s'.world) {x = thread_exits s'} (λ _. back) λ _. back
  after_call-BlocksBack s (address r s') back =
      if-Holds (BlocksBack s) (o.is_cancelled s'.world) {x = thread_exits s'} (λ _. back) λ _. back
  after_call-BlocksBack s (process_exits status s') back = back
  after_call-BlocksBack s (thread_exits s') back = back
  after_call-BlocksBack s unfinished back = tt

  Rounds-BlocksBack :
      (s : Kernel W) (bound e : ℕ) (out : Option (ℤ × Kernel W))
      → Rounds s.blocks s.pages s.misfreed bound e out
        ⊎ ((s' : Kernel W) × (out ≡ some (negsuc 0, s'))
            × (0 < s'.errno)
            × Held s.blocks s.pages s.misfreed [] s'.errno s')
      → BlocksBack s (end_loop codes m t v out)
  Rounds-BlocksBack s bound e out (inl (inl (total, s', same, _, held))) =
      rw same (Held-BlocksBack s s' s.pages e held)
  Rounds-BlocksBack s bound e out (inl (inr (page, s', same, _, held))) =
      rw same (Held-BlocksBack s s' (page ∷ s.pages) s'.errno held)
  Rounds-BlocksBack s bound e out (inr (s', same, _, held)) =
      rw same (Held-BlocksBack s s' s.pages s'.errno held)

  dirent_copied-BlocksBack :
      (loop : ℕ → Kernel W → Option (ℤ × Kernel W)) (total e : ℕ) (s0 : Kernel W) (r : ℤ × Kernel W)
      → ((n : ℕ) (s : Kernel W)
          → Held s0.blocks s0.pages s0.misfreed [] e s
          → BlocksBack s0 (end_loop codes m t v (loop n s)))
      → Held s0.blocks s0.pages s0.misfreed [] e r.1
      → BlocksBack s0 (end_loop codes m t v (dirent_copied codes m t v loop total r))
  dirent_copied-BlocksBack loop total e s0 (pos n, s) rest held =
      rest (add32 total t.dirent_size) s held
  dirent_copied-BlocksBack loop total e s0 (negsuc n, s) rest held =
      Held-BlocksBack s0 s s0.pages e held

  dirent_read-BlocksBack :
      (loop : ℕ → Kernel W → Option (ℤ × Kernel W)) (dirp total e : ℕ) (s0 : Kernel W)
      (r : ℤ × Kernel W)
      → ((n : ℕ) (s : Kernel W)
          → Held s0.blocks s0.pages s0.misfreed [] e s
          → BlocksBack s0 (end_loop codes m t v (loop n s)))
      → Held s0.blocks s0.pages s0.misfreed [] e r.1
      → BlocksBack s0 (end_loop codes m t v (dirent_read codes m t v loop dirp total r))
  dirent_read-BlocksBack loop dirp total e s0 (pos zero, s) rest held =
      Held-BlocksBack s0 s s0.pages e held
  dirent_read-BlocksBack loop dirp total e s0 (pos (suc n), s) rest held =
      dirent_copied-BlocksBack loop total e s0
        (copy_to_user codes m (add32 dirp total) t.local t.dirent_size s) rest
        (copy_to_user-Held s0.blocks s0.pages s0.misfreed codes m (add32 dirp total) t.local
          t.dirent_size [] e s held)
  dirent_read-BlocksBack loop dirp total e s0 (negsuc n, s) rest held =
      Held-BlocksBack s0 s s0.pages e held

  getdents_loop-BlocksBack :
      (rounds fd dirp count total e : ℕ) (s0 s : Kernel W)
      → Held s0.blocks s0.pages s0.misfreed [] e s
      → BlocksBack s0
          (end_loop codes m t v (getdents_loop codes m t v rounds fd dirp count total s))
  unfolding getdents_loop
  getdents_loop-BlocksBack zero fd dirp count total e s0 s held = tt
  getdents_loop-BlocksBack (suc rounds) fd dirp count total e s0 s held =
      if-Holds (λ out. BlocksBack s0 (end_loop codes m t v out)) (ltb total count)
        (λ _.
          dirent_read-BlocksBack (getdents_loop codes m t v rounds fd dirp count) dirp total e s0
            (run (λ w. v.do_getdent w fd t.local) s)
            (λ n s' held'. getdents_loop-BlocksBack rounds fd dirp count n e s0 s' held') held)
        λ _. Held-BlocksBack s0 s s0.pages e held

  getdents-BlocksBack :
      (e : ℕ) (s0 : Kernel W) (r : ℤ × Kernel W)
      → Held s0.blocks s0.pages s0.misfreed [] e r.1
      → BlocksBack s0 (
          end_loop codes m t v (
            with_request codes m t v
              (λ fd dirp count. getdents_loop codes m t v (count + 1) fd dirp count 0)
              t.getdents_args
              r))
  getdents-BlocksBack e s0 (negsuc n, s) held = Held-BlocksBack s0 s s0.pages e held
  getdents-BlocksBack e s0 (pos n, s) held =
      let a = t.getdents_args.load s.world t.kern_args in
      getdents_loop-BlocksBack (a.2 + 1) a.0 a.1 a.2 0 e s0 s held

  module _ (c : Positive codes) (narrow : Narrow m v) (laws : Bounded t v) where
    ended-BlocksBack :
        (s : Kernel W) (e : ℕ) (ended : Ended W)
        → EndedDone s.blocks s.pages s.misfreed codes m t v c narrow e ended
        → BlocksBack s ended
    ended-BlocksBack s e (returns r s') (held, _) = Held-BlocksBack s s' s.pages s'.errno held
    ended-BlocksBack s e (address none s') (held, _) = Held-BlocksBack s s' s.pages s'.errno held
    ended-BlocksBack s e (address (some a) s') held = Held-BlocksBack s s' s.pages e held
    ended-BlocksBack s e (process_exits status s') held = Held-BlocksBack s s' s.pages e held
    ended-BlocksBack s e (thread_exits s') held = Held-BlocksBack s s' s.pages e held
    ended-BlocksBack s e unfinished held = absurd held

    quiet :
        (nr : SysNum) (args : ℕ) (s : Kernel W)
        → tells nr ≡ true
        → BlocksBack s (syscall_dispatch codes m t v o nr args s)
    quiet nr args s plain = ended-BlocksBack s s.errno (syscall_dispatch codes m t v o nr args s) (
        dispatch-Done s.blocks s.pages s.misfreed codes m t v c narrow o nr s.errno args s plain
          (unchanged s))

    dispatch-BlocksBack :
        (nr : SysNum) (args : ℕ) (s : Kernel W)
        → (nr ≡ nr_execve → (w : W) (p : ℕ) → m.left_over w p ≡ [])
        → BlocksBack s (syscall_dispatch codes m t v o nr args s)
    unfolding syscall_dispatch sys_getdents
    dispatch-BlocksBack nr_read args s clear =
        Rounds-BlocksBack s _ s.errno (sys_read codes m t v args s) (
          sys_read_outcome s.blocks s.pages s.misfreed codes m t v s.errno args s c laws
            (unchanged s))
    dispatch-BlocksBack nr_write args s clear =
        Rounds-BlocksBack s _ s.errno (sys_write codes m t v args s) (
          sys_write_outcome s.blocks s.pages s.misfreed codes m t v s.errno args s c laws
            (unchanged s))
    dispatch-BlocksBack nr_getdents args s clear =
        getdents-BlocksBack s.errno s (fetch codes m t v t.getdents_args args s) (
          fetch-Held s.blocks s.pages s.misfreed codes m t v c t.getdents_args args s.errno s
            (unchanged s))
    dispatch-BlocksBack nr_execve args s clear =
        Held-BlocksBack s (sys_execve codes m t v args s).1 s.pages
          (sys_execve codes m t v args s).1.errno
          (sys_execve-Back s.blocks s.pages s.misfreed codes m t v c (clear refl) s.errno args s
            (unchanged s))
    dispatch-BlocksBack nr_debug args s clear =
        Held-BlocksBack s (sys_debug codes m t v args s).1 s.pages
          (sys_debug codes m t v args s).1.errno
          (sys_debug-Back s.blocks s.pages s.misfreed codes m t v c s.errno args s (unchanged s))
    dispatch-BlocksBack nr_halt args s clear = ((λ p. refl), refl)
    dispatch-BlocksBack nr_set_errno args s clear = ((λ p. refl), refl)
    dispatch-BlocksBack nr_errno args s clear = ((λ p. refl), refl)
    dispatch-BlocksBack nr_waitpid args s clear = quiet nr_waitpid args s refl
    dispatch-BlocksBack nr_exit args s clear = quiet nr_exit args s refl
    dispatch-BlocksBack nr_thr_exit args s clear = quiet nr_thr_exit args s refl
    dispatch-BlocksBack nr_thr_yield args s clear = quiet nr_thr_yield args s refl
    dispatch-BlocksBack nr_fork args s clear = quiet nr_fork args s refl
    dispatch-BlocksBack nr_getpid args s clear = quiet nr_getpid args s refl
    dispatch-BlocksBack nr_sync args s clear = quiet nr_sync args s refl
    dispatch-BlocksBack nr_mmap args s clear = quiet nr_mmap args s refl
    dispatch-BlocksBack nr_munmap args s clear = quiet nr_munmap args s refl
    dispatch-BlocksBack nr_open args s clear = quiet nr_open args s refl
    dispatch-BlocksBack nr_close args s clear = quiet nr_close args s refl
    dispatch-BlocksBack nr_dup args s clear = quiet nr_dup args s refl
    dispatch-BlocksBack nr_dup2 args s clear = quiet nr_dup2 args s refl
    dispatch-BlocksBack nr_mkdir args s clear = quiet nr_mkdir args s refl
    dispatch-BlocksBack nr_rmdir args s clear = quiet nr_rmdir args s refl
    dispatch-BlocksBack nr_unlink args s clear = quiet nr_unlink args s refl
    dispatch-BlocksBack nr_link args s clear = quiet nr_link args s refl
    dispatch-BlocksBack nr_rename args s clear = quiet nr_rename args s refl
    dispatch-BlocksBack nr_chdir args s clear = quiet nr_chdir args s refl
    dispatch-BlocksBack nr_brk args s clear = quiet nr_brk args s refl
    dispatch-BlocksBack nr_lseek args s clear = quiet nr_lseek args s refl
    dispatch-BlocksBack nr_stat args s clear = quiet nr_stat args s refl
    dispatch-BlocksBack nr_uname args s clear = quiet nr_uname args s refl
    dispatch-BlocksBack nr_kshell args s clear = quiet nr_kshell args s refl
    dispatch-BlocksBack nr_other args s clear = quiet nr_other args s refl

    -- Whatever system call is made, with whatever arguments, and however it ends, errors included,
    -- every block that it takes from kmalloc is given back, and none twice. Error numbers are
    -- positive, results fit into 32 bits, no more is read or written than was asked for, and for execve
    -- a new buffer starts with NULL.
    pub syscall_keeps_blocks :
        (nr : SysNum) (args : ℕ) (s : Kernel W)
        → (nr ≡ nr_execve → (w : W) (p : ℕ) → m.left_over w p ≡ [])
        → BlocksBack s (syscall_handler codes m t v o nr args s)
    unfolding syscall_handler
    syscall_keeps_blocks nr args s clear =
        if-Holds (BlocksBack s) (o.is_cancelled s.world) {x = thread_exits s}
          (λ _. ((λ p. refl), refl))
          λ _.
            after_call-BlocksBack s (syscall_dispatch codes m t v o nr args s)
              (dispatch-BlocksBack nr args s clear)
