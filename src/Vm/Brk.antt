-- ===== src/Vm/Brk.antt =====
-- kernel/vm/brk.c: `do_brk`. A page has 4096 bytes.
pub mod Growth
use kernel.Base.{
  ℕ, ◌+◌, ◌-◌, ◌*◌, ◌/◌, ◌%◌, ◌^◌, Bool, true, false, List, [], ◌∷◌, Option, none, some, ltb, leb,
  ◌==◌, ◌&&◌, ◌||◌, if◌then◌else◌, add32, sub32,
}
use kernel.Vm.Area.{Area, AreaList, Layout, vmmap_lookup}
use kernel.Vm.Objects.{Objects}
use kernel.Vm.Space.{Dir, lohi}
use kernel.Vm.Remove.{Removed, vmmap_remove}
use kernel.Vm.Map.{Request, Mapped, vmmap_map}

-- The process's `p_vmmap`, `p_start_brk` and `p_brk`, and the state of the memory objects.
pub record Process (S : Type 0) : Type 0 where
  pub store : S
  pub map : AreaList
  pub start_brk : ℕ
  pub brk : ℕ

-- What the code uses of headers: `USER_MEM_HIGH` and PROT_WRITE | PROT_READ. `head_start` is what
-- reading `vma_start` gives at the list's head, where the code takes it for an area.
pub record Constants : Type 0 where
  pub mem_high : ℕ
  pub prot_rw : ℕ
  pub head_start : ℕ

-- `fault` follows a NULL pointer, `panic` is the call of panic or a failed assertion.
pub data Broke (S : Type 0) : Type 0 where
  returned : ℕ → Process S → Broke S  -- 0, and `*ret`
  enomem : Broke S
  fault : Broke S
  panic : Broke S
  out_of_fuel : Broke S

abbrev pub has_page : Area → ℕ → Bool
has_page vma vfn = leb vma.start vfn && ltb vfn vma.end

-- `ADDR_TO_PN(addr - 1)`
unfoldable pub page_before : ℕ → ℕ
unfolding sub32
page_before addr = sub32 addr 1 / 4096

abbrev pub start_or : ℕ → AreaList → ℕ
start_or default [] = default
start_or default (vma ∷ _) = vma.start

-- `vma_start` of what follows the area of a page in the list.
unfoldable pub next_start : ℕ → AreaList → ℕ → ℕ
next_start default [] vfn = default
next_start default (vma ∷ rest) vfn =
    if has_page vma vfn then start_or default rest else next_start default rest vfn

-- Whether the lookups of two pages give the same area.
unfoldable pub same_area : AreaList → ℕ → ℕ → Bool
same_area [] a b = false
same_area (vma ∷ rest) a b =
    if has_page vma a || has_page vma b
    then has_page vma a && has_page vma b
    else same_area rest a b

-- `prev_vma->vma_end = end` for the area of a page.
unfoldable pub extend : AreaList → ℕ → ℕ → AreaList
extend [] vfn end = []
extend (vma ∷ rest) vfn end =
    if has_page vma vfn then record vma { end = end } ∷ rest else vma ∷ extend rest vfn end

-- `break_upper_limit`
unfoldable pub upper_limit : Constants → AreaList → ℕ → ℕ
unfolding next_start
upper_limit c map prev =
    let next = (next_start c.head_start map prev * 4096) % 2 ^ 32 in
    if ltb next c.mem_high then next else c.mem_high

module _ {S : Type 0} (ops : Objects S) (l : Layout) (c : Constants) where
  abbrev pub moved : ℕ → Process S → Broke S
  moved addr p = returned addr (record p { brk = addr })

  abbrev pub heap_request : ℕ → ℕ → Request
  heap_request lopage npages = record {
    file = none;
    lopage = lopage;
    npages = npages;
    prot = c.prot_rw;
    flags = record { is_private = true; is_shared = false };
    off = 0;
    dir = lohi;
  }

  abbrev pub mapped_heap : ℕ → Process S → Mapped S → Broke S
  mapped_heap addr p (Mapped.mapped s m _) = moved addr (record p { store = s; map = m })
  mapped_heap addr p (Mapped.failed _ _) = panic
  mapped_heap addr p Mapped.panic = panic

  -- The result of `vmmap_remove` is not looked at.
  abbrev pub removed_heap : ℕ → Process S → Removed S → Broke S
  removed_heap addr p (Removed.done s m) = moved addr (record p { store = s; map = m })
  removed_heap addr p (Removed.failed s m) = moved addr (record p { store = s; map = m })
  removed_heap addr p Removed.panic = panic
  removed_heap addr p Removed.out_of_fuel = out_of_fuel

  -- The three cases of the new break's page, after the limits have been checked.
  abbrev pub set_break : ℕ → ℕ → ℕ → ℕ → Process S → Broke S
  set_break addr start prev target p =
      if target == prev
      then moved addr p
      else if ltb prev target
      then if same_area p.map prev start
        then mapped_heap addr p
            (vmmap_map ops l p.store p.map (heap_request (add32 start 1) (sub32 target start)))
        else moved addr (record p { map = extend p.map prev (add32 target 1) })
      else removed_heap addr p
          (vmmap_remove ops l p.store p.map (add32 target 1) (sub32 prev target))

  abbrev pub with_previous : ℕ → ℕ → ℕ → ℕ → Option Area → Process S → Broke S
  with_previous addr start prev target none p = fault
  with_previous addr start prev target (some _) p =
      if ltb addr p.start_brk || ltb (upper_limit c p.map prev) addr
      then enomem
      else set_break addr start prev target p

  unfoldable pub do_brk : Process S → ℕ → Broke S
  do_brk p addr =
      if addr == 0
      then returned p.brk p
      else with_previous addr (page_before p.start_brk) (page_before p.brk) (page_before addr)
          (vmmap_lookup p.map (page_before p.brk)) p
