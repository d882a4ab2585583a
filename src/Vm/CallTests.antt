-- ===== src/Vm/CallTests.antt =====
-- kernel/vm/brk.c, kernel/vm/mmap.c, kernel/vm/pagefault.c on a small address space and a small page
-- cache.
use Prim.Native.Nat.{bit_and}
use kernel.Base.{
  ℕ, ℕ_discrete, ap, ◌⊎◌, zero, suc, Bool, ◌+◌, ◌^◌, ◌<◌, ◌≡◌, refl, true, false, [], ◌∷◌, none,
  some, arith, if◌then◌else◌, ◌==◌, ◌&&◌, ◌||◌, add32, sub32,
}
use kernel.Vm.Area.{Area, AreaList, Within, vmmap_lookup, pagenum}
use kernel.Vm.Tests.{Stock, counting, user, area, two_areas, cut_areas, private_map}
use kernel.Vm.Remove.Pages.{page_of, in_range}
use kernel.Vm.Brk.{
  Process, Constants, returned, page_before, same_area, do_brk, upper_limit, next_start,
}
use kernel.Vm.Brk.Growth.{Extended, heap_grows}
use kernel.Vm.Mmap.{Arguments, Limits, State, Unmapped, page_count, do_mmap, do_munmap}
use kernel.Vm.Mmap.References.{Keeps, mmap_references}
use kernel.Vm.Mmap.Munmap.{page_end, munmap_pages}
use kernel.Vm.Fault.{
  Bits, OneBit, killed, mapped, handle_pagefault, fault_permission, write_fault_copies,
}
use kernel.Vm.Access.{addr_perm}
use kernel.Fs.Tests.{Counts, three}
use kernel.Mm.Cache.{Cache, set_world}
use kernel.Mm.Tests.{machine, one_page, one_page-Inv}
use kernel.Mm.Frames.Invariant.{Inv}
use kernel.Mm.Lookup.CopyOnWrite.{Copied}

-- Data up to page 1029, a heap of two pages behind it, and another mapping from page 2000 on.
abbrev heap_areas : AreaList
heap_areas = area 1024 1030 ∷ area 1030 1032 ∷ area 2000 2010 ∷ []

abbrev small_heap : Process Stock
small_heap = record { store = (10, 5); map = heap_areas; start_brk = 4218880; brk = 4227072 }

abbrev constants : Constants
constants = record { mem_high = 3221225472; prot_rw = 3; head_start = 0 }

abbrev longer_heap : AreaList
longer_heap = area 1024 1030 ∷ area 1030 1035 ∷ area 2000 2010 ∷ []

-- Three more pages of break.
brk_runs :
    do_brk counting user constants small_heap 4239360
    ≡ returned 4239360 (record small_heap { map = longer_heap; brk = 4239360 })
unfolding do_brk page_before sub32 add32 upper_limit next_start vmmap_lookup same_area
    kernel.Vm.Brk.extend
brk_runs = refl

heap_grows_example :
    (m : AreaList) × (do_brk counting user constants small_heap 4239360
      ≡ returned 4239360 (record small_heap { map = m; brk = 4239360 }))
    × Extended 1024 786432
        (page_before 4227072 + 1)
        (page_before 4239360 + 1)
        (area 1030 1032)
        heap_areas
        m
unfolding page_before sub32 upper_limit next_start vmmap_lookup same_area
heap_grows_example =
    heap_grows counting user constants small_heap 4239360 (area 1030 1032) (omega arith)
      (omega arith) refl (omega arith) (omega arith) (omega arith) refl refl (omega arith) refl

abbrev no_flush : Stock → ℕ → ℕ → Stock
no_flush s a n = s

munmap_runs :
    do_munmap counting user 4194304 3221225472 no_flush (10, 5) two_areas 8204288 12288
    ≡ Unmapped.done (12, 3) cut_areas
unfolding do_munmap page_count kernel.Vm.Remove.vmmap_remove add32 sub32
munmap_runs = refl

munmap_pages_example :
    Within 1024 786432 cut_areas
    × ((vfn : ℕ)
        → vfn < 2 ^ 32
        → page_of cut_areas vfn
          ≡ (if in_range 2003 (page_end 8204288 12288) vfn then none else page_of two_areas vfn))
munmap_pages_example =
    (munmap_pages counting user 4194304 3221225472 no_flush (10, 5) (12, 3) two_areas cut_areas
        8204288 12288 (omega arith) (omega arith) (omega arith)).1
      munmap_runs

-- A private mapping of one page of the file behind descriptor 0.
abbrev map_file_page : Arguments
map_file_page = record {
  addr = 0;
  len = 4096;
  prot = 1;
  is_fixed = false;
  is_anon = false;
  flags = private_map;
  fd = 0;
  off = 0;
}

abbrev limits : Limits Counts
limits = record {
  mem_low = 4194304;
  mem_high = 3221225472;
  prot_write = 2;
  nfiles = 3;
  is_busy = λ s v. false;
}

abbrev before_mmap : State Counts Stock
before_mmap = record { files = three; store = (10, 5); map = two_areas }

mmap_references_example :
    Keeps kernel.Fs.Tests.counting_laws counting user limits no_flush three.store
      (do_mmap kernel.Fs.Tests.counting counting user limits no_flush map_file_page before_mmap)
mmap_references_example =
    mmap_references kernel.Fs.Tests.counting_laws counting user limits no_flush map_file_page
      before_mmap

abbrev bits : Bits
bits = record {
  prot_read = 1;
  prot_write = 2;
  prot_exec = 4;
  fault_write = 2;
  fault_reserved = 8;
  fault_exec = 16;
}

-- Whether `bit_and` with `b` gives 0 or `b` for the numbers below `n`.
abbrev splits : ℕ → ℕ → Bool
splits b zero = true
splits b (suc n) = splits b n && ((bit_and n b == 0) || (bit_and n b == b))

split_below : (b n x : ℕ) → splits b n ≡ true → x < n → (bit_and x b ≡ 0) ⊎ (bit_and x b ≡ b)
split_below b zero x h lt = absurd (omega arith)
split_below b (suc n) x h lt = elim (ℕ_discrete n x) [
  | yes last ↦ ground (arith, h, ap (λ y. bit_and y b) last)
  | no other ↦ split_below b n x (ground (arith, h)) (omega arith)
]

one_bit : (b : ℕ) → 0 < b → splits b 8 ≡ true → OneBit b
one_bit b pos table = (pos, λ x small. split_below b 8 x table small)

-- Object 2, a shadow object, is mapped at page 1024, its page 3 first.
abbrev shadow_area : Area
shadow_area = record (area 1024 1030) { off = 3; obj = some 2 }

abbrev page_table : ℕ → ℕ → ℕ → Bool → ℕ
page_table w vfn pf writable = w + 1

fault_permission_example :
    handle_pagefault machine page_table 3 bits (shadow_area ∷ []) 4096 2 one_page ≡ killed one_page
unfolding vmmap_lookup addr_perm
fault_permission_example =
    (fault_permission machine page_table 3 bits (shadow_area ∷ []) 4096 2 one_page
        (λ vma found. absurd (ground arith)) (one_bit 1 (omega arith) refl)
        (one_bit 2 (omega arith) refl) (one_bit 4 (omega arith) refl)).0
      refl

small_prot : (x : Area) → vmmap_lookup (shadow_area ∷ []) 1024 ≡ some x → x.prot < 8
unfolding vmmap_lookup
small_prot x found = ground (arith, found)

write_fault_copies_example :
    (t : Cache ℕ) × (handle_pagefault machine page_table 3 bits
        (shadow_area ∷ [])
        4194304
        2
        one_page
      ≡ mapped (set_world (t.world + 1) t))
    × Inv 4 t
    × Copied machine 2 3 9 5 one_page t
unfolding vmmap_lookup addr_perm pagenum add32 sub32
write_fault_copies_example =
    write_fault_copies machine page_table 0 1 bits (shadow_area ∷ []) shadow_area 4194304 2 2 1 9 5
      0 0 one_page small_prot (one_bit 1 (omega arith) refl) (one_bit 2 (omega arith) refl)
      (one_bit 4 (omega arith) refl) refl refl refl refl one_page-Inv refl refl (omega arith)
      (λ q. ground arith) refl (omega arith) refl refl refl refl refl
