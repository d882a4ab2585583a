-- ===== src/Vm/Area.antt =====
-- kernel/vm/vmmap.c: `vmarea_t` and the list of areas of a `vmmap_t`, and the lookup of a page.
use kernel.Base.{
  ℕ, ◌≤◌, ◌<◌, Bool, List, [], ◌∷◌, Option, none, some, ltb, leb, ◌&&◌, if◌then◌else◌, add32, sub32,
}

-- `vma_flags` as the two bits that the code tests.
pub record Flags : Type 0 where
  pub is_private : Bool
  pub is_shared : Bool

-- `vmarea_t`. Page numbers are `uint32_t`; `obj` names the memory object, `none` is NULL.
pub record Area : Type 0 where
  pub start : ℕ
  pub end : ℕ
  pub off : ℕ
  pub prot : ℕ
  pub flags : Flags
  pub obj : Option ℕ

-- Constants of headers that are not in the repository: the user part of the address space in pages,
-- `ADDR_TO_PN(USER_MEM_LOW)` to `ADDR_TO_PN(USER_MEM_HIGH)`, and whether a protection has only PROT bits.
pub record Layout : Type 0 where
  pub low : ℕ
  pub high : ℕ
  pub prot_valid : ℕ → Bool

-- `vmm_list`, in list order.
abbrev pub AreaList : Type 0
AreaList = List Area

-- `vmmap_lookup`
unfoldable pub vmmap_lookup : AreaList → ℕ → Option Area
vmmap_lookup [] vfn = none
vmmap_lookup (vma ∷ rest) vfn =
    if leb vma.start vfn && ltb vfn vma.end then some vma else vmmap_lookup rest vfn

-- `pagenum = vma->vma_off + (i - vma->vma_start)`
unfoldable pub pagenum : Area → ℕ → ℕ
unfolding add32 sub32
pagenum vma vfn = add32 vma.off (sub32 vfn vma.start)

-- The areas are in order and disjoint, none is empty, and all lie between `lo` and `hi`.
abbrev pub Within : ℕ → ℕ → AreaList → Type 0
Within lo hi [] = lo ≤ hi
Within lo hi (vma ∷ rest) = (lo ≤ vma.start) × (vma.start < vma.end) × Within vma.end hi rest
