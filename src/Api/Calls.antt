-- ===== src/Api/Calls.antt =====
-- kernel/api/syscall.c: the functions sys_*, which copy the arguments of a system call, call the part
-- that does the work, and set `kt_errno`.
use kernel.Base.{ℕ, zero, suc, List, Option, none, some, ◌==◌, if◌then◌else◌, sub32, ℤ, pos, negsuc}
use kernel.Api.Memory.{
  ArgStr, ArgVec, Codes, Kernel, Machine, set_errno, run, kfree, copy_from_user, copy_to_user,
  user_strdup,
}

-- A structure of the system call interface: its size, and its fields read at an address.
pub record Struct (W A : Type 0) : Type 0 where
  pub size : ℕ
  pub load : W → ℕ → A

-- The structures, and where `kern_args` lies; `dirent` and `stat` are the buffers on the stack.
pub record Structs (W : Type 0) : Type 0 where
  pub kern_args : ℕ
  pub argstr : Struct W ArgStr
  pub mkdir_args : Struct W ArgStr
  pub link_args : Struct W (ArgStr × ArgStr)  -- `to` and `from`
  pub rename_args : Struct W (ArgStr × ArgStr)  -- `oldname` and `newname`
  pub open_args : Struct W (ArgStr × ℕ)
  pub stat_args : Struct W (ArgStr × ℕ)
  pub dup2_args : Struct W (ℕ × ℕ)
  pub munmap_args : Struct W (ℕ × ℕ)
  pub lseek_args : Struct W (ℕ × ℕ × ℕ)
  pub waitpid_args : Struct W (ℕ × ℕ × ℕ)  -- `wpa_pid`, `wpa_options` and `wpa_status`
  pub mmap_args : Struct W (List ℕ)
  pub read_args : Struct W (ℕ × ℕ × ℕ)  -- `fd`, `buf` and `nbytes`
  pub write_args : Struct W (ℕ × ℕ × ℕ)
  pub getdents_args : Struct W (ℕ × ℕ × ℕ)  -- `fd`, `dirp` and `count`
  pub execve_args : Struct W (ArgStr × ArgVec × ArgVec)
  pub utsname : ℕ → List (ℕ × ℕ × ℕ)  -- where each field lies, its constant and the size
  pub local : ℕ  -- a structure on the kernel stack that is copied out
  pub dirent_size : ℕ
  pub stat_size : ℕ
  pub int_size : ℕ

-- The parts that do the work. A path is a buffer; a file descriptor and a size are words.
pub record Services (W : Type 0) : Type 0 where
  pub do_read : W → ℕ → ℕ → ℕ → ℤ × W
  pub do_write : W → ℕ → ℕ → ℕ → ℤ × W
  pub do_getdent : W → ℕ → ℕ → ℤ × W
  pub do_close : W → ℕ → ℤ × W
  pub do_dup : W → ℕ → ℤ × W
  pub do_dup2 : W → ℕ → ℕ → ℤ × W
  pub do_lseek : W → ℕ → ℕ → ℕ → ℤ × W
  pub do_mkdir : W → ℕ → ℤ × W
  pub do_rmdir : W → ℕ → ℤ × W
  pub do_unlink : W → ℕ → ℤ × W
  pub do_chdir : W → ℕ → ℤ × W
  pub do_link : W → ℕ → ℕ → ℤ × W
  pub do_rename : W → ℕ → ℕ → ℤ × W
  pub do_open : W → ℕ → ℕ → ℤ × W
  pub do_stat : W → ℕ → ℕ → ℤ × W
  pub do_munmap : W → ℕ → ℕ → ℤ × W
  pub do_mmap : W → List ℕ → (ℤ × ℕ) × W  -- the result and `*ret`
  pub do_brk : W → ℕ → (ℤ × ℕ) × W
  pub do_waitpid : W → ℕ → ℕ → ℕ → ℤ × W  -- the last argument is where the status goes
  pub do_fork : W → ℤ × W
  pub do_execve : W → ℕ → Option (ℕ × List ℕ) → Option (ℕ × List ℕ) → ℤ × W

module _ {W : Type 0} where
  -- `curthr->kt_errno = e; return -1`
  abbrev pub fail : ℕ → Kernel W → ℤ × Kernel W
  fail e s = (negsuc 0, set_errno e s)

  -- A negative result becomes -1 and its error number.
  abbrev pub report : ℤ × Kernel W → ℤ × Kernel W
  report (pos n, s) = (pos n, s)
  report (negsuc n, s) = fail (suc n) s

  -- The same where only 0 is success.
  abbrev pub report_zero : ℤ × Kernel W → ℤ × Kernel W
  report_zero (pos n, s) = if n == 0 then (pos 0, s) else fail (sub32 0 n) s
  report_zero (negsuc n, s) = fail (suc n) s

  -- `MAP_FAILED` is none.
  abbrev pub report_address : (ℤ × ℕ) × Kernel W → Option ℕ × Kernel W
  report_address ((pos n, ret), s) = (some ret, s)
  report_address ((negsuc n, ret), s) = (none, set_errno (suc n) s)

module _ {W : Type 0} (codes : Codes) (m : Machine W) (t : Structs W) (v : Services W) where
  -- `copy_from_user(&kern_args, arg, sizeof(kern_args))`
  abbrev pub fetch : {A : Type 0} → Struct W A → ℕ → Kernel W → ℤ × Kernel W
  fetch st arg s = copy_from_user codes m t.kern_args arg st.size s

  abbrev pub fetched :
      {A : Type 0} → Struct W A → (A → Kernel W → ℤ × Kernel W) → ℤ × Kernel W → ℤ × Kernel W
  fetched st k (negsuc n, s) = fail (suc n) s
  fetched st k (pos _, s) = k (st.load s.world t.kern_args) s

  -- How the calls with a structure as their argument begin.
  abbrev pub with_args :
      {A : Type 0} → Struct W A → (A → Kernel W → ℤ × Kernel W) → ℕ → Kernel W → ℤ × Kernel W
  with_args st k arg s = fetched st k (fetch st arg s)

  -- The same where every failure is EFAULT.
  abbrev pub fetched_or_fault :
      {A : Type 0} → Struct W A → (A → Kernel W → ℤ × Kernel W) → ℤ × Kernel W → ℤ × Kernel W
  fetched_or_fault st k (negsuc n, s) = fail codes.efault s
  fetched_or_fault st k (pos _, s) = k (st.load s.world t.kern_args) s

  abbrev pub if_string : (ℕ → Kernel W → ℤ × Kernel W) → Option ℕ × Kernel W → ℤ × Kernel W
  if_string k (none, s) = fail codes.einval s
  if_string k (some path, s) = k path s

  -- A string from user space, or EINVAL.
  abbrev pub with_string : ArgStr → (ℕ → Kernel W → ℤ × Kernel W) → Kernel W → ℤ × Kernel W
  with_string ustr k s = if_string k (user_strdup codes m ustr s)

  -- A call on one path, whose buffer is freed before the result is looked at.
  abbrev pub on_path : (W → ℕ → ℤ × W) → ℕ → Kernel W → ℤ × Kernel W
  on_path f path s = let (r, s1) = run (λ w. f w path) s in report (r, kfree m path s1)

  abbrev pub path_call : Struct W ArgStr → (W → ℕ → ℤ × W) → ℕ → Kernel W → ℤ × Kernel W
  path_call st f = with_args st (λ ustr. with_string ustr (on_path f))

  abbrev pub if_second : ℕ → (ℕ → Kernel W → ℤ × Kernel W) → Option ℕ × Kernel W → ℤ × Kernel W
  if_second first k (none, s) = (negsuc 0, kfree m first (set_errno codes.einval s))
  if_second first k (some path, s) = k path s

  -- A second string; without it the first is freed.
  abbrev pub with_second : ℕ → ArgStr → (ℕ → Kernel W → ℤ × Kernel W) → Kernel W → ℤ × Kernel W
  with_second first ustr k s = if_second first k (user_strdup codes m ustr s)

  unfoldable pub sys_close : ℕ → Kernel W → ℤ × Kernel W
  sys_close fd s = report (run (λ w. v.do_close w fd) s)

  unfoldable pub sys_dup : ℕ → Kernel W → ℤ × Kernel W
  sys_dup fd s = report (run (λ w. v.do_dup w fd) s)

  unfoldable pub sys_dup2 : ℕ → Kernel W → ℤ × Kernel W
  sys_dup2 = with_args t.dup2_args (λ (a : ℕ × ℕ) s. report (run (λ w. v.do_dup2 w a.0 a.1) s))

  unfoldable pub sys_lseek : ℕ → Kernel W → ℤ × Kernel W
  sys_lseek =
      with_args t.lseek_args (λ (a : ℕ × ℕ × ℕ) s. report (run (λ w. v.do_lseek w a.0 a.1 a.2) s))

  unfoldable pub sys_mkdir : ℕ → Kernel W → ℤ × Kernel W
  sys_mkdir = path_call t.mkdir_args v.do_mkdir

  unfoldable pub sys_rmdir : ℕ → Kernel W → ℤ × Kernel W
  sys_rmdir = path_call t.argstr v.do_rmdir

  unfoldable pub sys_unlink : ℕ → Kernel W → ℤ × Kernel W
  sys_unlink = path_call t.argstr v.do_unlink

  unfoldable pub sys_chdir : ℕ → Kernel W → ℤ × Kernel W
  sys_chdir = path_call t.argstr v.do_chdir

  unfoldable pub sys_open : ℕ → Kernel W → ℤ × Kernel W
  sys_open =
      with_args t.open_args
        (λ (a : ArgStr × ℕ). with_string a.0 (on_path (λ w path. v.do_open w path a.1)))

  -- `do_link(from, to)`; `to` was copied first, and is freed first.
  abbrev pub link_paths : ℕ → ℕ → Kernel W → ℤ × Kernel W
  link_paths to from s =
      let (r, s1) = run (λ w. v.do_link w from to) s in report (r, kfree m from (kfree m to s1))

  unfoldable pub sys_link : ℕ → Kernel W → ℤ × Kernel W
  sys_link = with_args t.link_args (λ (a : ArgStr × ArgStr).
      with_string a.0 (λ to. with_second to a.1 (λ from. link_paths to from)))

  abbrev pub rename_paths : ℕ → ℕ → Kernel W → ℤ × Kernel W
  rename_paths old new s =
      let (r, s1) = run (λ w. v.do_rename w old new) s in report (r, kfree m old (kfree m new s1))

  unfoldable pub sys_rename : ℕ → Kernel W → ℤ × Kernel W
  sys_rename = with_args t.rename_args (λ (a : ArgStr × ArgStr).
      with_string a.0 (λ old. with_second old a.1 (λ new. rename_paths old new)))

  -- The copy of the result of `do_stat`, if there is one.
  abbrev pub stat_out : ℕ → ℤ × Kernel W → ℤ × Kernel W
  stat_out buf (pos zero, s) = copy_to_user codes m buf t.local t.stat_size s
  stat_out buf (pos (suc n), s) = (pos (suc n), s)
  stat_out buf (negsuc n, s) = (negsuc n, s)

  abbrev pub stat_freed : ℕ → ℤ × Kernel W → ℤ × Kernel W
  stat_freed path (r, s) = report_zero (r, kfree m path s)

  unfoldable pub sys_stat : ℕ → Kernel W → ℤ × Kernel W
  sys_stat arg s =
      fetched_or_fault t.stat_args
        (λ (a : ArgStr × ℕ).
          with_string a.0
            (λ path s1. stat_freed path (stat_out a.1 (run (λ w. v.do_stat w path t.local) s1))))
        (fetch t.stat_args arg s)

  -- A negative result of `do_munmap` is reported, any other is 0.
  abbrev pub unmapped : ℤ × Kernel W → ℤ × Kernel W
  unmapped (pos n, s) = (pos 0, s)
  unmapped (negsuc n, s) = fail (suc n) s

  -- Here a positive result of the copy would be a failure as well.
  abbrev pub munmap_fetched : ℤ × Kernel W → ℤ × Kernel W
  munmap_fetched (pos zero, s) =
      let a = t.munmap_args.load s.world t.kern_args in
      unmapped (run (λ w. v.do_munmap w a.0 a.1) s)
  munmap_fetched (_, s) = fail codes.efault s

  unfoldable pub sys_munmap : ℕ → Kernel W → ℤ × Kernel W
  sys_munmap arg s = munmap_fetched (fetch t.munmap_args arg s)

  abbrev pub mmap_fetched : ℤ × Kernel W → Option ℕ × Kernel W
  mmap_fetched (negsuc n, s) = (none, set_errno codes.efault s)
  mmap_fetched (pos n, s) =
      let a = t.mmap_args.load s.world t.kern_args in report_address (run (λ w. v.do_mmap w a) s)

  unfoldable pub sys_mmap : ℕ → Kernel W → Option ℕ × Kernel W
  sys_mmap arg s = mmap_fetched (fetch t.mmap_args arg s)

  -- `sys_brk`, for which only 0 is success.
  abbrev pub brk_done : (ℤ × ℕ) × Kernel W → Option ℕ × Kernel W
  brk_done ((pos n, ret), s) = if n == 0 then (some ret, s) else (none, set_errno (sub32 0 n) s)
  brk_done ((negsuc n, ret), s) = (none, set_errno (suc n) s)

  unfoldable pub sys_brk : ℕ → Kernel W → Option ℕ × Kernel W
  sys_brk addr s = brk_done (run (λ w. v.do_brk w addr) s)
