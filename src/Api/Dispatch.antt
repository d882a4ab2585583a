-- ===== src/Api/Dispatch.antt =====
-- kernel/api/syscall.c: `sys_waitpid`, `sys_fork`, `sys_execve`, `sys_debug`, `syscall_dispatch` and
-- `syscall_handler`.
pub mod Errors
pub mod Execve
pub mod Balance
use kernel.Base.{
  ℕ, suc, Bool, List, Option, none, some, ◌==◌, if◌then◌else◌, sub32, ℤ, pos, negsuc, int_of,
}
use kernel.Api.Memory.{
  ArgStr, ArgVec, Codes, Kernel, Machine, set_errno, set_world, run, kfree, free_all, copy_to_user,
  user_strdup, user_vecdup,
}
use kernel.Api.Calls.{
  Structs, Services, fail, report, fetch, with_args, fetched_or_fault, sys_close, sys_dup, sys_dup2,
  sys_lseek, sys_mkdir, sys_rmdir, sys_unlink, sys_chdir, sys_open, sys_link, sys_rename, sys_stat,
  sys_munmap, sys_mmap, sys_brk,
}
use kernel.Api.Transfers.{sys_read, sys_write, sys_getdents, sys_uname}

-- The numbers of the system calls, by name; `nr_other` is any other number.
pub data SysNum : Type 0 where
  nr_waitpid nr_exit nr_thr_exit nr_thr_yield nr_fork nr_getpid nr_sync nr_mmap nr_munmap nr_open :
      SysNum
  nr_close nr_read nr_write nr_dup nr_dup2 nr_mkdir nr_rmdir nr_unlink nr_link nr_rename nr_chdir :
      SysNum
  nr_getdents nr_brk nr_lseek nr_halt nr_set_errno nr_errno nr_execve nr_stat nr_uname nr_debug :
      SysNum
  nr_kshell nr_other : SysNum

-- What else `syscall_dispatch` calls. `yield_run` is what happens until the thread runs again.
pub record Others (W : Type 0) : Type 0 where
  pub p_pid : W → ℕ
  pub is_cancelled : W → Bool
  pub pframe_clean_all : W → W
  pub proc_kill_all : W → W
  pub yield_run : W → W
  pub kshell : W → ℕ → ℤ × W  -- `sys_kshell` up to its result

-- How a system call ends: with an `int`, with an address, or in `do_exit` or `kthread_exit`.
pub data Ended (W : Type 0) : Type 0 where
  returns : ℤ → Kernel W → Ended W
  address : Option ℕ → Kernel W → Ended W
  process_exits : ℕ → Kernel W → Ended W
  thread_exits : Kernel W → Ended W
  unfinished : Ended W

module _ {W : Type 0} (codes : Codes) (m : Machine W) (t : Structs W) (v : Services W) where
  -- `sys_waitpid` after `do_waitpid`: the status is copied out if there is a place for it.
  abbrev pub status_out : ℕ → ℤ × Kernel W → ℤ × Kernel W
  status_out p (negsuc n, s) = fail codes.efault s
  status_out p (pos _, s) = (pos p, s)

  abbrev pub waited : ℕ → ℤ × Kernel W → ℤ × Kernel W
  waited status (negsuc n, s) = fail (suc n) s
  waited status (pos p, s) =
      if status == 0
      then (pos p, s)
      else status_out p (copy_to_user codes m status t.local t.int_size s)

  unfoldable pub sys_waitpid : ℕ → Kernel W → ℤ × Kernel W
  sys_waitpid arg s =
      fetched_or_fault codes m t v t.waitpid_args
        (λ (a : ℕ × ℕ × ℕ) s1. waited a.2 (run (λ w. v.do_waitpid w a.0 a.1 t.local) s1))
        (fetch codes m t v t.waitpid_args arg s)

  unfoldable pub sys_fork : Kernel W → ℤ × Kernel W
  sys_fork s = report (run v.do_fork s)

  -- `free_vector`, and nothing for NULL.
  abbrev pub free_vector : Option (ℕ × List ℕ) → Kernel W → Kernel W
  free_vector none s = s
  free_vector (some (vect, strings)) s = kfree m vect (free_all m strings s)

  -- `cleanup:` in `sys_execve`.
  abbrev pub cleanup : ℕ → Option (ℕ × List ℕ) → Option (ℕ × List ℕ) → Kernel W → ℤ × Kernel W
  cleanup filename argv envp s =
      let s1 = free_vector envp (free_vector argv (kfree m filename s)) in
      (if s1.errno == 0 then pos 0 else negsuc 0, s1)

  abbrev pub negated : ℤ → ℕ
  negated (pos n) = sub32 0 n
  negated (negsuc n) = suc n

  abbrev pub exec : ℕ → Option (ℕ × List ℕ) → Option (ℕ × List ℕ) → Kernel W → ℤ × Kernel W
  exec filename argv envp s =
      let (r, s1) = run (λ w. v.do_execve w filename argv envp) s in
      cleanup filename argv envp (set_errno (negated r) s1)

  abbrev pub copied_vector :
      Option (ℕ × List ℕ) × Kernel W → Option (Option (ℕ × List ℕ)) × Kernel W
  copied_vector (none, s) = (none, s)
  copied_vector (some vec, s) = (some (some vec), s)

  -- A vector of strings, if the pointer to it is not NULL.
  abbrev pub vector_in : ArgVec → Kernel W → Option (Option (ℕ × List ℕ)) × Kernel W
  vector_in uvec s =
      if uvec.av_vec == 0 then (some none, s) else copied_vector (user_vecdup codes m uvec s)

  abbrev pub with_envp :
      ℕ → Option (ℕ × List ℕ) → Option (Option (ℕ × List ℕ)) × Kernel W → ℤ × Kernel W
  with_envp filename argv (none, s) = cleanup filename argv none s
  with_envp filename argv (some envp, s) = exec filename argv envp s

  abbrev pub with_argv : ℕ → ArgVec → Option (Option (ℕ × List ℕ)) × Kernel W → ℤ × Kernel W
  with_argv filename uenvp (none, s) = cleanup filename none none s
  with_argv filename uenvp (some argv, s) = with_envp filename argv (vector_in uenvp s)

  -- Without the name nothing is to be freed, and `kt_errno` tells.
  abbrev pub with_filename : ArgVec → ArgVec → Option ℕ × Kernel W → ℤ × Kernel W
  with_filename uargv uenvp (none, s) = (if s.errno == 0 then pos 0 else negsuc 0, s)
  with_filename uargv uenvp (some filename, s) = with_argv filename uenvp (vector_in uargv s)

  unfoldable pub sys_execve : ℕ → Kernel W → ℤ × Kernel W
  sys_execve =
      with_args codes m t v t.execve_args
        (λ (a : ArgStr × ArgVec × ArgVec) s. with_filename a.1 a.2 (user_strdup codes m a.0 s))

  -- `kfree` is called for a string that could not be copied, too, with NULL.
  abbrev pub debugged : Option ℕ × Kernel W → ℤ × Kernel W
  debugged (none, s) = (pos 0, s)
  debugged (some message, s) = (pos 0, kfree m message s)

  unfoldable pub sys_debug : ℕ → Kernel W → ℤ × Kernel W
  sys_debug = with_args codes m t v t.argstr (λ (a : ArgStr) s. debugged (user_strdup codes m a s))

  abbrev pub end_int : ℤ × Kernel W → Ended W
  end_int (r, s) = returns r s

  abbrev pub end_address : Option ℕ × Kernel W → Ended W
  end_address (r, s) = address r s

  abbrev pub end_loop : Option (ℤ × Kernel W) → Ended W
  end_loop none = unfinished
  end_loop (some (r, s)) = returns r s

  module _ (o : Others W) where
    unfoldable pub syscall_dispatch : SysNum → ℕ → Kernel W → Ended W
    syscall_dispatch nr_waitpid args s = end_int (sys_waitpid args s)
    syscall_dispatch nr_exit args s = process_exits args s
    syscall_dispatch nr_thr_exit args s = thread_exits s
    syscall_dispatch nr_thr_yield args s = returns (pos 0) (set_world (o.yield_run s.world) s)
    syscall_dispatch nr_fork args s = end_int (sys_fork s)
    syscall_dispatch nr_getpid args s = returns (pos (o.p_pid s.world)) s
    syscall_dispatch nr_sync args s = returns (pos 0) (set_world (o.pframe_clean_all s.world) s)
    syscall_dispatch nr_mmap args s = end_address (sys_mmap codes m t v args s)
    syscall_dispatch nr_munmap args s = end_int (sys_munmap codes m t v args s)
    syscall_dispatch nr_open args s = end_int (sys_open codes m t v args s)
    syscall_dispatch nr_close args s = end_int (sys_close codes m t v args s)
    syscall_dispatch nr_read args s = end_loop (sys_read codes m t v args s)
    syscall_dispatch nr_write args s = end_loop (sys_write codes m t v args s)
    syscall_dispatch nr_dup args s = end_int (sys_dup codes m t v args s)
    syscall_dispatch nr_dup2 args s = end_int (sys_dup2 codes m t v args s)
    syscall_dispatch nr_mkdir args s = end_int (sys_mkdir codes m t v args s)
    syscall_dispatch nr_rmdir args s = end_int (sys_rmdir codes m t v args s)
    syscall_dispatch nr_unlink args s = end_int (sys_unlink codes m t v args s)
    syscall_dispatch nr_link args s = end_int (sys_link codes m t v args s)
    syscall_dispatch nr_rename args s = end_int (sys_rename codes m t v args s)
    syscall_dispatch nr_chdir args s = end_int (sys_chdir codes m t v args s)
    syscall_dispatch nr_getdents args s = end_loop (sys_getdents codes m t v args s)
    syscall_dispatch nr_brk args s = end_address (sys_brk codes m t v args s)
    syscall_dispatch nr_lseek args s = end_int (sys_lseek codes m t v args s)
    syscall_dispatch nr_halt args s = returns (negsuc 0) (set_world (o.proc_kill_all s.world) s)
    syscall_dispatch nr_set_errno args s = returns (pos 0) (set_errno args s)
    syscall_dispatch nr_errno args s = returns (int_of s.errno) s
    syscall_dispatch nr_execve args s = end_int (sys_execve args s)
    syscall_dispatch nr_stat args s = end_int (sys_stat codes m t v args s)
    syscall_dispatch nr_uname args s = end_int (sys_uname codes m t v args s)
    syscall_dispatch nr_debug args s = end_int (sys_debug args s)
    syscall_dispatch nr_kshell args s = end_int (report (run (λ w. o.kshell w args) s))
    syscall_dispatch nr_other args s = end_int (fail codes.enosys s)

    -- The second check of `kt_cancelled`.
    abbrev pub after_call : Ended W → Ended W
    after_call (returns r s) = if o.is_cancelled s.world then thread_exits s else returns r s
    after_call (address r s) = if o.is_cancelled s.world then thread_exits s else address r s
    after_call ended = ended

    -- `syscall_handler`; what is returned goes to `r_eax`.
    unfoldable pub syscall_handler : SysNum → ℕ → Kernel W → Ended W
    unfolding syscall_dispatch
    syscall_handler sysnum args s =
        if o.is_cancelled s.world
        then thread_exits s
        else after_call (syscall_dispatch sysnum args s)
