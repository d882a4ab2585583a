-- ===== src/Api/Tests.antt =====
-- kernel/api: runs of the system calls.
use kernel.Base.{
  ℕ, ◌+◌, ◌≡◌, refl, true, false, [], ◌∷◌, none, some, pos, negsuc, occurs, remove_item, arith,
}
use kernel.Vm.Area.{Area, vmmap_lookup}
use kernel.Vm.Access.{range_perm, addr_perm}
use kernel.Api.Memory.{ArgStr, Codes, Kernel, Machine, kmalloc, kfree, copy_from_user, user_strdup}
use kernel.Api.Blocks.{Positive}
use kernel.Api.Calls.{Structs, Services, sys_link}
use kernel.Api.Outcomes.{Narrow}
use kernel.Api.Transfers.Reading.{Bounded}
use kernel.Api.Dispatch.{Others, syscall_handler, returns, nr_link, nr_execve}
use kernel.Api.Dispatch.Balance.{BlocksBack, syscall_keeps_blocks}

abbrev codes : Codes
codes = record {
  efault = 14;
  einval = 22;
  enomem = 12;
  enosys = 38;
  prot_read = 1;
  prot_write = 2;
  argstr_size = 8;
}

-- All of the first gigabyte is mapped; the state counts what was allocated.
abbrev everything : Area
everything = record {
  start = 0;
  end = 262144;
  off = 0;
  prot = 7;
  flags = record { is_private = true; is_shared = false };
  obj = none;
}

abbrev machine : Machine ℕ
machine = record {
  kmalloc = λ w n. (some (w + 1), w + 1);
  kfree = λ w p. w;
  page_alloc = λ w. (w + 1, w + 1);
  page_free = λ w p. w;
  areas = λ w. everything ∷ [];
  vmmap_read = λ w u k n. (pos 0, w);
  vmmap_write = λ w u k n. (pos 0, w);
  argstr_at = λ w k i. record { as_str = 100; as_len = 3 };
  left_over = λ w p. [];
}

abbrev name_at : ArgStr
name_at = record { as_str = 200; as_len = 5 }

abbrev structs : Structs ℕ
structs = record {
  kern_args = 50;
  argstr = record { size = 8; load = λ w a. name_at };
  mkdir_args = record { size = 12; load = λ w a. name_at };
  link_args = record { size = 16; load = λ w a. (name_at, name_at) };
  rename_args = record { size = 16; load = λ w a. (name_at, name_at) };
  open_args = record { size = 16; load = λ w a. (name_at, 0) };
  stat_args = record { size = 12; load = λ w a. (name_at, 300) };
  dup2_args = record { size = 8; load = λ w a. (1, 2) };
  munmap_args = record { size = 8; load = λ w a. (4096, 4096) };
  lseek_args = record { size = 12; load = λ w a. (1, 0, 0) };
  waitpid_args = record { size = 12; load = λ w a. (2, 0, 300) };
  mmap_args = record { size = 24; load = λ w a. [] };
  read_args = record { size = 12; load = λ w a. (1, 300, 5000) };
  write_args = record { size = 12; load = λ w a. (1, 300, 5000) };
  getdents_args = record { size = 12; load = λ w a. (1, 300, 64) };
  execve_args = record {
    size = 24;
    load =
        λ w a. (name_at, record { av_vec = 400; av_len = 2 }, record { av_vec = 500; av_len = 1 });
  };
  utsname = λ a. (a, 60, 7) ∷ [];
  local = 70;
  dirent_size = 32;
  stat_size = 64;
  int_size = 4;
}

-- Every second part fails.
abbrev services : Services ℕ
services = record {
  do_read = λ w fd k n. (pos n, w);
  do_write = λ w fd k n. (negsuc 4, w);
  do_getdent = λ w fd k. (pos 0, w);
  do_close = λ w fd. (pos 0, w);
  do_dup = λ w fd. (pos 3, w);
  do_dup2 = λ w a b. (pos b, w);
  do_lseek = λ w fd off wh. (pos off, w);
  do_mkdir = λ w p. (negsuc 16, w);
  do_rmdir = λ w p. (pos 0, w);
  do_unlink = λ w p. (pos 0, w);
  do_chdir = λ w p. (pos 0, w);
  do_link = λ w p q. (negsuc 1, w);
  do_rename = λ w p q. (pos 0, w);
  do_open = λ w p f. (pos 4, w);
  do_stat = λ w p k. (pos 0, w);
  do_munmap = λ w a l. (pos 0, w);
  do_mmap = λ w a. ((pos 0, 8192), w);
  do_brk = λ w a. ((pos 0, a), w);
  do_waitpid = λ w p o k. (pos p, w);
  do_fork = λ w. (pos 7, w);
  do_execve = λ w p a e. (negsuc 7, w);
}

abbrev others : Others ℕ
others = record {
  p_pid = λ w. 2;
  is_cancelled = λ w. false;
  pframe_clean_all = λ w. w;
  proc_kill_all = λ w. w;
  yield_run = λ w. w;
  kshell = λ w a. (pos 0, w);
}

codes-Positive : Positive codes
codes-Positive = omega arith

services-Narrow : Narrow machine services
services-Narrow = record {
  written = λ w w' u k size n e. ground (arith, e);
  stat = λ w w' path buf n e. ground (arith, e);
  brk = λ w w' addr n ret e. ground (arith, e);
}

services-Bounded : Bounded structs services
services-Bounded = record {
  reads = λ w w' fd k size n e. ground (arith, e);
  writes = λ w w' fd k size n e. ground (arith, e);
  read_size = λ w a. omega arith;
  write_size = λ w a. omega arith;
}

abbrev user_call : Kernel ℕ
user_call = record { errno = 9; blocks = 5 ∷ []; pages = []; misfreed = false; world = 1000 }

-- A link between two names fails with ENOENT.
link_fails :
    syscall_handler codes machine structs services others nr_link 4000 user_call
    ≡ returns (negsuc 0) (record user_call { errno = 2; world = 1002 })
unfolding syscall_handler sys_link copy_from_user range_perm addr_perm vmmap_lookup user_strdup
    kmalloc kfree remove_item occurs
link_fails = refl

syscall_keeps_blocks_example :
    BlocksBack codes machine structs services others user_call
      (syscall_handler codes machine structs services others nr_execve 4000 user_call)
syscall_keeps_blocks_example =
    syscall_keeps_blocks codes machine structs services others codes-Positive services-Narrow
      services-Bounded nr_execve 4000 user_call (λ e w p. refl)
