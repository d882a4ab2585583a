-- ===== src/Vm/Mmap.antt =====
-- kernel/vm/mmap.c: `do_mmap` and `do_munmap`. A page has 4096 bytes.
pub mod References
pub mod Munmap
use Prim.Native.Nat.{bit_and}
use kernel.Base.{
  ℕ, ◌+◌, ◌-◌, ◌*◌, ◌/◌, ◌%◌, ◌^◌, ◌<◌, ◌≡◌, ◌≢◌, refl, sym, ap, ◌∙◌, inl, inr, Bool, true, false,
  not, Option, none, some, ltb, leb, ◌==◌, ◌&&◌, ◌||◌, if◌then◌else◌, add32, sub32, arith,
  Option-cases, Bool-cases,
}
use kernel.Vm.Area.{Area, AreaList, Layout, Flags}
use kernel.Vm.Objects.{Objects}
use kernel.Vm.Space.{hilo}
use kernel.Vm.Remove.{Removed, vmmap_remove}
use kernel.Vm.Map.{Request, Mapped, vmmap_map}
use kernel.Fs.Table.{entry, one}
use kernel.Fs.Files.{File, FileOps, FileLaws, Files, set_store, put_file, out_of_range}

-- The arguments of `do_mmap`, with the bits of `flags` that the code tests.
pub record Arguments : Type 0 where
  pub addr : ℕ
  pub len : ℕ
  pub prot : ℕ
  pub is_fixed : Bool
  pub is_anon : Bool
  pub flags : Flags
  pub fd : ℕ
  pub off : ℕ

-- USER_MEM_LOW, USER_MEM_HIGH, PROT_WRITE and NFILES, and whether `vn_flags` is VN_BUSY.
pub record Limits (F : Type 0) : Type 0 where
  pub mem_low : ℕ
  pub mem_high : ℕ
  pub prot_write : ℕ
  pub nfiles : ℕ
  pub is_busy : F → ℕ → Bool

-- The open files, over `F`, and the address space, over `S`.
pub record State (F S : Type 0) : Type 0 where
  pub files : Files F
  pub store : S
  pub map : AreaList

-- `map_failed` returns MAP_FAILED; `returned` returns 0, with `*ret`.
pub data MmapResult (F S : Type 0) : Type 0 where
  returned : ℕ → State F S → MmapResult F S
  map_failed : State F S → MmapResult F S
  panic : MmapResult F S

-- The pages from `addr` on that a range of `len` bytes meets.
unfoldable pub page_count : ℕ → ℕ → ℕ
unfolding add32 sub32
page_count addr len = sub32 (sub32 (add32 addr len) 1 / 4096 + 1) (addr / 4096)

module _ {F S : Type 0} (fops : FileOps F) (ops : Objects S) (l : Layout) (c : Limits F)
    (tlb_flush : S → ℕ → ℕ → S) where
  abbrev pub out_of_memory : ℕ → Bool
  out_of_memory addr = ltb addr c.mem_low || leb c.mem_high addr

  -- The checks before the file is looked up.
  unfoldable pub refuses : Arguments → Bool
  refuses a =
      a.is_fixed && out_of_memory a.addr
      || (not (a.addr % 4096 == 0)
          || not (a.off % 4096 == 0)
          || (a.len == 0
              || leb (c.mem_high - c.mem_low) a.len
              || (not (a.flags.is_private || a.flags.is_shared)
                  || out_of_range c.nfiles a.fd && not a.is_anon)))

  -- The checks on the file.
  unfoldable pub file_refuses : Arguments → File → F → Bool
  file_refuses a f s =
      let writes = bit_and a.prot c.prot_write == c.prot_write in
      a.flags.is_private && not f.mode.reads
      || (a.flags.is_shared && (writes && not f.mode.writes)
          || (writes && (f.mode.appends && not (f.mode.reads || f.mode.writes))
              || c.is_busy s f.vnode))

  abbrev pub request : Arguments → Option ℕ → Request
  request a file = record {
    file = file;
    lopage = a.addr / 4096;
    npages = page_count a.addr a.len;
    prot = a.prot;
    flags = a.flags;
    off = a.off / 4096;
    dir = hilo;
  }

  abbrev pub give_up : Option ℕ → State F S → State F S
  give_up none st = st
  give_up (some f) st = record st { files = put_file fops f st.files }

  -- What follows `vmmap_map`.
  abbrev pub finish_mmap : Arguments → Option ℕ → State F S → Mapped S → MmapResult F S
  finish_mmap a file st (Mapped.mapped s m vma) =
      let ret = (vma.start * 4096) % 2 ^ 32 in
      let flushed = tlb_flush s ret (page_count a.addr a.len) in
      returned ret (give_up file (record st { store = flushed; map = m }))
  finish_mmap a file st (Mapped.failed s m) =
      map_failed (give_up file (record st { store = s; map = m }))
  finish_mmap a file st Mapped.panic = panic

  abbrev pub map_anon : Arguments → State F S → MmapResult F S
  map_anon a st = finish_mmap a none st (vmmap_map ops l st.store st.map (request a none))

  -- `fget` has given the file, or NULL.
  abbrev pub map_file : Arguments → Option ℕ × F → State F S → MmapResult F S
  map_file a (none, s) st = map_failed (record st { files = set_store s st.files })
  map_file a (some f, s) st =
      let st1 : State F S = record st { files = set_store s st.files } in
      if file_refuses a (st.files.file f) s
      then map_failed (give_up (some f) st1)
      else finish_mmap a (some f) st1
          (vmmap_map ops l st.store st.map (request a (some (st.files.file f).vnode)))

  unfoldable pub do_mmap : Arguments → State F S → MmapResult F S
  do_mmap a st =
      if refuses a
      then map_failed st
      else if a.is_anon
      then map_anon a st
      else map_file a (fops.fget st.files.open_files a.fd st.files.store) st

-- `failed` is a negative result of `vmmap_remove`.
pub data Unmapped (S : Type 0) : Type 0 where
  done : S → AreaList → Unmapped S
  einval : Unmapped S
  failed : S → AreaList → Unmapped S
  panic : Unmapped S
  out_of_fuel : Unmapped S

module _ {S : Type 0} (ops : Objects S) (l : Layout) (mem_low mem_high : ℕ)
    (tlb_flush : S → ℕ → ℕ → S) where
  abbrev pub finish_munmap : ℕ → ℕ → Removed S → Unmapped S
  finish_munmap addr npages (Removed.done s m) = done (tlb_flush s addr npages) m
  finish_munmap addr npages (Removed.failed s m) = failed s m
  finish_munmap addr npages Removed.panic = panic
  finish_munmap addr npages Removed.out_of_fuel = out_of_fuel

  unfoldable pub do_munmap : S → AreaList → ℕ → ℕ → Unmapped S
  do_munmap s m addr len =
      if ltb addr mem_low || leb mem_high addr
      then einval
      else if not (addr % 4096 == 0)
      then einval
      else if len == 0 || leb (mem_high - mem_low) len
      then einval
      else finish_munmap addr (page_count addr len)
          (vmmap_remove ops l s m (addr / 4096) (page_count addr len))
