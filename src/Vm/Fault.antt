-- ===== src/Vm/Fault.antt =====
-- kernel/vm/pagefault.c: `handle_pagefault`, over the page cache. A page has 4096 bytes.
use Prim.Native.Nat.{bit_and}
use kernel.Base.{
  ℕ, suc, ◌/◌, ◌<◌, ◌≡◌, ◌⊎◌, inl, inr, sym, ap, ◌∙◌, Bool, true, false, not, Option, none, some,
  ◌==◌, ◌&&◌, ◌||◌, if◌then◌else◌, arith, Option-cases,
}
use kernel.Vm.Area.{Area, AreaList, vmmap_lookup, pagenum}
use kernel.Vm.Access.{addr_perm, allows}
use kernel.Mm.Cache.{Cache, Machine, shadow, set_world}
use kernel.Mm.Lookup.{Got, page, failed, waits, starves, pframe_lookup, pageoutd_needed}
use kernel.Mm.Lookup.Chains.{Absent, Sees}
use kernel.Mm.Lookup.CopyOnWrite.{Copied, copy_on_write}
use kernel.Mm.Frames.Invariant.{Inv}

-- Constants of headers that are not in the repository.
pub record Bits : Type 0 where
  pub prot_read : ℕ
  pub prot_write : ℕ
  pub prot_exec : ℕ
  pub fault_write : ℕ
  pub fault_reserved : ℕ
  pub fault_exec : ℕ

-- `killed` is proc_kill of the running process, which does not return; `mapped` has called `pt_map`.
-- `panic` is a failed assertion or a NULL pointer that is followed.
pub data Handled (W : Type 0) : Type 0 where
  killed : Cache W → Handled W
  mapped : Cache W → Handled W
  sleeps_on : ℕ → Cache W → Handled W
  sleeps_for_memory : Cache W → Handled W
  panic : Handled W
  out_of_fuel : Handled W

-- `value & bit`
abbrev pub has : ℕ → ℕ → Bool
has value bit = not (bit_and value bit == 0)

-- Whether the checks kill the process.
unfoldable pub denied : Bits → ℕ → Area → Bool
denied b cause vma =
    not (has vma.prot b.prot_read)
    || (has cause b.fault_write && not (has vma.prot b.prot_write)
        || (has cause b.fault_reserved || has cause b.fault_exec && not (has vma.prot b.prot_exec)))

module _ {W : Type 0} (ops : Machine W) (pt_map : W → ℕ → ℕ → Bool → W) where
  -- What follows the lookup of the page: the frame `pf` is mapped at the page `vfn`.
  abbrev pub map_frame : ℕ → Bool → Got W → Handled W
  map_frame vfn forwrite (page pf s) = mapped (set_world (pt_map s.world vfn pf forwrite) s)
  map_frame vfn forwrite (failed _ s) = killed s
  map_frame vfn forwrite (waits pf s) = sleeps_on pf s
  map_frame vfn forwrite (starves s) = sleeps_for_memory s
  map_frame vfn forwrite Got.panic = panic
  map_frame vfn forwrite Got.out_of_fuel = out_of_fuel

  abbrev pub look_up_page : ℕ → Bits → ℕ → ℕ → Area → Option ℕ → Cache W → Handled W
  look_up_page depth b cause vfn vma none s = panic
  look_up_page depth b cause vfn vma (some obj) s =
      let forwrite = bit_and cause b.fault_write == b.fault_write in
      map_frame vfn forwrite (pframe_lookup ops depth obj (pagenum vma vfn) forwrite s)

  abbrev pub in_area : ℕ → Bits → ℕ → ℕ → Option Area → Cache W → Handled W
  in_area depth b cause vfn none s = killed s
  in_area depth b cause vfn (some vma) s =
      if denied b cause vma then killed s else look_up_page depth b cause vfn vma vma.obj s

  -- `handle_pagefault`, with a bound on the depth of the lookup.
  unfoldable pub handle_pagefault : ℕ → Bits → AreaList → ℕ → ℕ → Cache W → Handled W
  unfolding denied
  handle_pagefault depth b m vaddr cause s =
      in_area depth b cause (vaddr / 4096) (vmmap_lookup m (vaddr / 4096)) s

abbrev from_some : Area → Option Area → Area
from_some default none = default
from_some default (some vma) = vma

-- The constant is a bit of a protection, which has three bits.
abbrev pub OneBit : ℕ → Type 0
OneBit b = (0 < b) × ((x : ℕ) → x < 8 → (bit_and x b ≡ 0) ⊎ (bit_and x b ≡ b))

-- The access that a fault asks for is allowed by `addr_perm`.
abbrev pub permitted : Bits → AreaList → ℕ → ℕ → Bool
permitted b m vaddr cause =
    addr_perm m vaddr b.prot_read
    && ((not (has cause b.fault_write) || addr_perm m vaddr b.prot_write)
        && (not (has cause b.fault_reserved)
            && (not (has cause b.fault_exec) || addr_perm m vaddr b.prot_exec)))

OneBit-has : (b x : ℕ) → x < 8 → OneBit b → (bit_and x b == b) ≡ has x b
OneBit-has b x small (pos, either) = elim (either x small) [
  | inl zero_bit ↦ ground (arith, zero_bit)
  | inr same ↦ ground (arith, same)
]

-- What `addr_perm` allows at an area.
abbrev permits : Bits → ℕ → Option Area → Bool
permits b cause vma =
    allows b.prot_read vma
    && ((not (has cause b.fault_write) || allows b.prot_write vma)
        && (not (has cause b.fault_reserved)
            && (not (has cause b.fault_exec) || allows b.prot_exec vma)))

-- The checks of the handler are those of `addr_perm`.
denied-permits :
    (b : Bits) (vma : Area) (cause : ℕ)
    → vma.prot < 8
    → OneBit b.prot_read
    → OneBit b.prot_write
    → OneBit b.prot_exec
    → denied b cause vma ≡ not (permits b cause (some vma))
unfolding denied
denied-permits b vma cause small read write exec = ground (
  arith,
  OneBit-has b.prot_read vma.prot small read,
  OneBit-has b.prot_write vma.prot small write,
  OneBit-has b.prot_exec vma.prot small exec,
)

module _ {W : Type 0} (ops : Machine W) (pt_map : W → ℕ → ℕ → Bool → W) where
  -- A page fault kills the process unless `addr_perm` allows what it asks for; then the area's object
  -- is asked for the page, and only then. Protections are below 8, the PROT constants single bits.
  pub fault_permission :
      (depth : ℕ) (b : Bits) (m : AreaList) (vaddr cause : ℕ) (s : Cache W)
      → ((vma : Area) → vmmap_lookup m (vaddr / 4096) ≡ some vma → vma.prot < 8)
      → OneBit b.prot_read
      → OneBit b.prot_write
      → OneBit b.prot_exec
      → (permitted b m vaddr cause ≡ false
          → handle_pagefault ops pt_map depth b m vaddr cause s ≡ killed s)
        × (permitted b m vaddr cause ≡ true
            → (vma : Area) × (vmmap_lookup m (vaddr / 4096) ≡ some vma)
              × (handle_pagefault ops pt_map depth b m vaddr cause s
                  ≡ look_up_page ops pt_map depth b cause (vaddr / 4096) vma vma.obj s))
  unfolding handle_pagefault addr_perm
  fault_permission depth b m vaddr cause s small read write exec =
      elim (Option-cases (vmmap_lookup m (vaddr / 4096))) [
        | inl unmapped ↦ (
          (λ _. ap (λ x. in_area ops pt_map depth b cause (vaddr / 4096) x s) unmapped),
          λ allowed. absurd (ground (arith, ap (permits b cause) (sym unmapped) ∙ allowed)),
        )
        | inr (vma, found) ↦
            let vfn = vaddr / 4096 in
            let result : Bool → Handled W = λ d.
              if d then killed s else look_up_page ops pt_map depth b cause vfn vma vma.obj s in
            let checks : denied b cause vma ≡ not (permits b cause (vmmap_lookup m vfn)) =
              denied-permits b vma cause (small vma found) read write exec
              ∙ ap (λ x. not (permits b cause x)) (sym found) in
            let runs =
              ap (λ x. in_area ops pt_map depth b cause vfn x s) found ∙ ap result checks in
            (
              (λ refused. runs ∙ ap (λ x. result (not x)) refused),
              λ allowed. (vma, found, runs ∙ ap (λ x. result (not x)) allowed),
            )
      ]

  -- A write that is allowed to a page of a shadow object that does not have it, and that the objects
  -- below show in the frame `old`, maps a new frame of the object, with a copy of the bytes of `old`;
  -- every other frame stays. The hypotheses on memory are those of the copy.
  pub write_fault_copies :
      (d depth : ℕ) (b : Bits) (m : AreaList) (vma : Area) (vaddr cause o below pf old : ℕ)
      (w1 w2 : W) (s : Cache W)
      → ((x : Area) → vmmap_lookup m (vaddr / 4096) ≡ some x → x.prot < 8)
      → OneBit b.prot_read
      → OneBit b.prot_write
      → OneBit b.prot_exec
      → permitted b m vaddr cause ≡ true
      → bit_and cause b.fault_write ≡ b.fault_write
      → vmmap_lookup m (vaddr / 4096) ≡ some vma
      → vma.obj ≡ some o
      → Inv ops.hash_size s
      → (s.objects o).kind ≡ shadow
      → (s.objects o).shadowed ≡ some below
      → 0 < (s.objects o).refcount
      → Absent o (pagenum vma (vaddr / 4096)) s
      → Sees d below (pagenum vma (vaddr / 4096)) old s
      → d < depth
      → (s.frames old).busy ≡ false
      → pageoutd_needed ops s ≡ false
      → ops.slab_alloc s.world ≡ (some pf, w1)
      → ops.page_alloc w1 ≡ (true, w2)
      → (s.frames pf).obj ≡ none
      → (t : Cache W) × (handle_pagefault ops pt_map (suc (suc depth)) b m vaddr cause s
          ≡ mapped (set_world (pt_map t.world (vaddr / 4096) pf true) t))
        × Inv ops.hash_size t
        × Copied ops o (pagenum vma (vaddr / 4096)) pf old s t
  write_fault_copies d depth b m vma vaddr cause o below pf old w1 w2 s small read write exec
        allowed writes found of v kind next live missing sees lt idle plenty slab given unused =
      let vfn = vaddr / 4096 in
      let number = pagenum vma vfn in
      let (vma', found', runs) =
        (fault_permission (suc (suc depth)) b m vaddr cause s small read write exec).1 allowed in
      let same : vma' ≡ vma = ap (from_some vma) (sym found' ∙ found) in
      let (t, copied, inv, copy) =
        copy_on_write ops d depth o below number pf old w1 w2 s v kind next live missing sees lt
          idle plenty slab given unused in
      let forwrite : (bit_and cause b.fault_write == b.fault_write) ≡ true =
        ground (arith, writes) in
      (
        t,
        runs
            ∙ ap (λ (x : Area). look_up_page ops pt_map (suc (suc depth)) b cause vfn x x.obj s)
                same
            ∙ ap (λ x. look_up_page ops pt_map (suc (suc depth)) b cause vfn vma x s) of
            ∙ ap
                (λ w. map_frame ops pt_map vfn w (pframe_lookup ops (suc (suc depth)) o number w s))
                forwrite
            ∙ ap (map_frame ops pt_map vfn true) copied,
        inv,
        copy,
      )
