-- ===== src/Api/Dispatch/Errors.antt =====
-- kernel/api/syscall.c: how the system calls report errors.
use kernel.Base.{
  ℕ, zero, suc, ◌<◌, ◌^◌, ◌≡◌, Bool, true, false, List, [], ◌∷◌, none, some, ◌==◌, ℤ, pos, negsuc,
  if-Holds,
}
use kernel.Api.Memory.{Codes, Kernel, Machine, run, copy_to_user}
use kernel.Api.Blocks.{Positive, Held, copy_to_user-Held}
use kernel.Api.Calls.{
  Structs, Services, fetch, sys_close, sys_dup, sys_mkdir, sys_rmdir, sys_unlink, sys_chdir,
}
use kernel.Api.Outcomes.Paths.{
  sys_dup2-Done, sys_lseek-Done, sys_open-Done, sys_link-Done, sys_rename-Done, sys_stat-Done,
}
use kernel.Api.Outcomes.Maps.{sys_munmap-Done, sys_mmap-Done, sys_brk-Done}
use kernel.Api.Outcomes.{
  Narrow, Reports, Done, AddressDone, path_call-Done, fail-Done, report-Done, report_zero-Done,
  fetch-Held, fetched_or_fault-Done, copied_small,
}
use kernel.Api.Transfers.{next_field, copy_fields, sys_uname}
use kernel.Api.Dispatch.{
  status_out, waited, sys_waitpid, sys_fork, SysNum, Others, Ended, returns, address, process_exits,
  thread_exits, unfinished, syscall_dispatch, nr_waitpid, nr_exit, nr_thr_exit, nr_thr_yield,
  nr_fork, nr_getpid, nr_sync, nr_mmap, nr_munmap, nr_open, nr_close, nr_read, nr_write, nr_dup,
  nr_dup2, nr_mkdir, nr_rmdir, nr_unlink, nr_link, nr_rename, nr_chdir, nr_getdents, nr_brk,
  nr_lseek, nr_halt, nr_set_errno, nr_errno, nr_execve, nr_stat, nr_uname, nr_debug, nr_kshell,
  nr_other,
}

-- The calls whose result alone tells whether they failed: not those that return a total as an `int`, a
-- value that may be negative, or nothing but -1, nor sys_execve, which clears `kt_errno`, nor sys_debug.
abbrev pub tells : SysNum → Bool
tells nr_read = false
tells nr_write = false
tells nr_getdents = false
tells nr_halt = false
tells nr_set_errno = false
tells nr_errno = false
tells nr_execve = false
tells nr_debug = false
tells _ = true

module _ {W : Type 0} (h g : List ℕ) (b : Bool) (codes : Codes) (m : Machine W) (t : Structs W)
    (v : Services W) (c : Positive codes) (narrow : Narrow m v) where
  next_field-Done :
      (rest : Kernel W → ℤ × Kernel W) (e : ℕ) (r : ℤ × Kernel W)
      → ((n : ℕ) → r.0 ≡ pos n → n < 2 ^ 32)
      → ((s : Kernel W) → Held h g b [] e s → Done h g b e (rest s))
      → Held h g b [] e r.1
      → Done h g b e (next_field codes m t v rest r)
  next_field-Done rest e (pos zero, s) small next held = next s held
  next_field-Done rest e (pos (suc n), s) small next held =
      report_zero-Done h g b e (pos (suc n), s) small held
  next_field-Done rest e (negsuc n, s) small next held =
      report_zero-Done h g b e (negsuc n, s) small held

  copy_fields-Done :
      (l : List (ℕ × ℕ × ℕ)) (e : ℕ) (s : Kernel W)
      → Held h g b [] e s
      → Done h g b e (copy_fields codes m t v l s)
  unfolding copy_fields
  copy_fields-Done [] e s held = report-Done h g b e (pos 0, s) held
  copy_fields-Done ((uaddr, kaddr, size) ∷ rest) e s held =
      next_field-Done (copy_fields codes m t v rest) e (copy_to_user codes m uaddr kaddr size s)
        (copied_small h g b codes m t v c uaddr kaddr size s narrow)
        (λ s' held'. copy_fields-Done rest e s' held')
        (copy_to_user-Held h g b codes m uaddr kaddr size [] e s held)

  sys_uname-Done :
      (e arg : ℕ) (s : Kernel W) → Held h g b [] e s → Done h g b e (sys_uname codes m t v arg s)
  unfolding sys_uname
  sys_uname-Done e arg s held = copy_fields-Done (t.utsname arg) e s held

  status_out-Done :
      (p e : ℕ) (r : ℤ × Kernel W) → Held h g b [] e r.1 → Done h g b e (status_out codes m t v p r)
  status_out-Done p e (pos n, s) held = report-Done h g b e (pos p, s) held
  status_out-Done p e (negsuc n, s) held = fail-Done h g b e codes.efault s c.efault_pos held

  waited-Done :
      (status e : ℕ) (r : ℤ × Kernel W)
      → Held h g b [] e r.1
      → Done h g b e (waited codes m t v status r)
  waited-Done status e (pos p, s) held =
      if-Holds (Done h g b e) (status == 0) (λ _. report-Done h g b e (pos p, s) held)
        λ _.
          status_out-Done p e (copy_to_user codes m status t.local t.int_size s)
            (copy_to_user-Held h g b codes m status t.local t.int_size [] e s held)
  waited-Done status e (negsuc n, s) held = report-Done h g b e (negsuc n, s) held

  sys_waitpid-Done :
      (e arg : ℕ) (s : Kernel W) → Held h g b [] e s → Done h g b e (sys_waitpid codes m t v arg s)
  unfolding sys_waitpid
  sys_waitpid-Done e arg s held =
      let call = λ (a : ℕ × ℕ × ℕ) (s1 : Kernel W). run (λ w. v.do_waitpid w a.0 a.1 t.local) s1 in
      fetched_or_fault-Done h g b codes m t v c t.waitpid_args
        (λ (a : ℕ × ℕ × ℕ) s1. waited codes m t v a.2 (call a s1)) e
        (fetch codes m t v t.waitpid_args arg s) (λ a s1 held1. waited-Done a.2 e (call a s1) held1)
        (fetch-Held h g b codes m t v c t.waitpid_args arg e s held)

  sys_fork-Done : (e : ℕ) (s : Kernel W) → Held h g b [] e s → Done h g b e (sys_fork codes m t v s)
  unfolding sys_fork
  sys_fork-Done e s held = report-Done h g b e (run v.do_fork s) held

  -- A call that returns, and an address or none.
  abbrev pub EndedDone : ℕ → Ended W → Type 0
  EndedDone e (returns r s) = Done h g b e (r, s)
  EndedDone e (address r s) = AddressDone h g b e (r, s)
  EndedDone e (process_exits status s) = Held h g b [] e s
  EndedDone e (thread_exits s) = Held h g b [] e s
  EndedDone e unfinished = ⊥

  module _ (o : Others W) where
    pub dispatch-Done :
        (nr : SysNum) (e args : ℕ) (s : Kernel W)
        → tells nr ≡ true
        → Held h g b [] e s
        → EndedDone e (syscall_dispatch codes m t v o nr args s)
    unfolding syscall_dispatch sys_close sys_dup sys_mkdir sys_rmdir sys_unlink sys_chdir
    dispatch-Done nr_waitpid e args s plain held = sys_waitpid-Done e args s held
    dispatch-Done nr_exit e args s plain held = held
    dispatch-Done nr_thr_exit e args s plain held = held
    dispatch-Done nr_thr_yield e args s plain held = report-Done h g b e (pos 0, s) held
    dispatch-Done nr_fork e args s plain held = sys_fork-Done e s held
    dispatch-Done nr_getpid e args s plain held = report-Done h g b e (pos 0, s) held
    dispatch-Done nr_sync e args s plain held = report-Done h g b e (pos 0, s) held
    dispatch-Done nr_mmap e args s plain held = sys_mmap-Done h g b codes m t v c e args s held
    dispatch-Done nr_munmap e args s plain held = sys_munmap-Done h g b codes m t v c e args s held
    dispatch-Done nr_open e args s plain held = sys_open-Done h g b codes m t v c e args s held
    dispatch-Done nr_close e args s plain held =
        report-Done h g b e (run (λ w. v.do_close w args) s) held
    dispatch-Done nr_read e args s plain held = cc
    dispatch-Done nr_write e args s plain held = cc
    dispatch-Done nr_dup e args s plain held =
        report-Done h g b e (run (λ w. v.do_dup w args) s) held
    dispatch-Done nr_dup2 e args s plain held = sys_dup2-Done h g b codes m t v c e args s held
    dispatch-Done nr_mkdir e args s plain held =
        path_call-Done h g b codes m t v c t.mkdir_args v.do_mkdir e args s held
    dispatch-Done nr_rmdir e args s plain held =
        path_call-Done h g b codes m t v c t.argstr v.do_rmdir e args s held
    dispatch-Done nr_unlink e args s plain held =
        path_call-Done h g b codes m t v c t.argstr v.do_unlink e args s held
    dispatch-Done nr_link e args s plain held = sys_link-Done h g b codes m t v c e args s held
    dispatch-Done nr_rename e args s plain held = sys_rename-Done h g b codes m t v c e args s held
    dispatch-Done nr_chdir e args s plain held =
        path_call-Done h g b codes m t v c t.argstr v.do_chdir e args s held
    dispatch-Done nr_getdents e args s plain held = cc
    dispatch-Done nr_brk e args s plain held = sys_brk-Done h g b codes m t v c e args s narrow held
    dispatch-Done nr_lseek e args s plain held = sys_lseek-Done h g b codes m t v c e args s held
    dispatch-Done nr_halt e args s plain held = cc
    dispatch-Done nr_set_errno e args s plain held = cc
    dispatch-Done nr_errno e args s plain held = cc
    dispatch-Done nr_execve e args s plain held = cc
    dispatch-Done nr_stat e args s plain held =
        sys_stat-Done h g b codes m t v c e args s narrow held
    dispatch-Done nr_uname e args s plain held = sys_uname-Done e args s held
    dispatch-Done nr_debug e args s plain held = cc
    dispatch-Done nr_kshell e args s plain held =
        report-Done h g b e (run (λ w. o.kshell w args) s) held
    dispatch-Done nr_other e args s plain held = fail-Done h g b e codes.enosys s c.enosys_pos held

-- What a system call tells the caller: a result that is not negative, `kt_errno` being as it was, or -1
-- with an error number; an address, `kt_errno` being as it was, or none with an error number.
abbrev pub Told : {W : Type 0} → ℕ → Ended W → Type 0
Told e (returns r s) = Reports e (r, s)
Told e (address none s) = 0 < s.errno
Told e (address (some a) s) = s.errno ≡ e
Told e (process_exits status s) = Unit
Told e (thread_exits s) = Unit
Told e unfinished = ⊥
