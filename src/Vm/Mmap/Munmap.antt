-- ===== src/Vm/Mmap/Munmap.antt =====
-- kernel/vm/mmap.c: the pages that `do_munmap` unmaps.
use kernel.Base.{
  ℕ, ◌+◌, ◌-◌, ◌/◌, ◌%◌, ◌^◌, ◌<◌, ◌≤◌, ◌≡◌, sym, ap, ◌∙◌, inl, inr, Bool, true, false, not, none,
  ltb, leb, ◌==◌, ◌||◌, if◌then◌else◌, add32, sub32, arith, Bool-cases,
}
use kernel.Vm.Area.{AreaList, Layout, Within}
use kernel.Vm.Objects.{Objects}
use kernel.Vm.Remove.{Removed, vmmap_remove}
use kernel.Vm.Remove.Pages.{page_of, in_range}
use kernel.Vm.Remove.Loop.{remove_pages}
use kernel.Vm.Mmap.{Unmapped, page_count, finish_munmap, do_munmap}

-- The page behind the last that a range of bytes meets.
abbrev pub page_end : ℕ → ℕ → ℕ
page_end addr len = (addr + len - 1) / 4096 + 1

page_count-fits :
    (addr len : ℕ)
    → 0 < len
    → addr + len ≤ 2 ^ 32
    → addr / 4096 + page_count addr len ≡ page_end addr len
unfolding page_count add32 sub32
page_count-fits addr len pos fits = omega arith

module _ {S : Type 0} (ops : Objects S) (l : Layout) (mem_low mem_high : ℕ)
    (tlb_flush : S → ℕ → ℕ → S) where
  abbrev map_of : AreaList → Unmapped S → AreaList
  map_of m (Unmapped.done s m') = m'
  map_of m other = m

  abbrev is_done : Unmapped S → Bool
  is_done (Unmapped.done s m) = true
  is_done other = false

  -- Only a removal that ends well is a result that does.
  from_finished :
      (addr npages : ℕ) (r : Removed S) (s' : S) (m' : AreaList)
      → finish_munmap ops l mem_low mem_high tlb_flush addr npages r ≡ Unmapped.done s' m'
      → (t : S) × (r ≡ Removed.done t m')
  from_finished addr npages (Removed.done t m) s' m' e = (t, ap (Removed.done t) (ap (map_of m) e))
  from_finished addr npages (Removed.failed t m) s' m' e = absurd (ground (arith, ap is_done e))
  from_finished addr npages Removed.panic s' m' e = absurd (ground (arith, ap is_done e))
  from_finished addr npages Removed.out_of_fuel s' m' e = absurd (ground (arith, ap is_done e))

  -- The checks that `do_munmap` makes before it removes anything.
  abbrev refuses : ℕ → ℕ → Bool
  refuses addr len =
      (ltb addr mem_low || leb mem_high addr)
      || (not (addr % 4096 == 0) || (len == 0 || leb (mem_high - mem_low) len))

  abbrev removal : S → AreaList → ℕ → ℕ → Unmapped S
  removal s m addr len =
      finish_munmap ops l mem_low mem_high tlb_flush addr (page_count addr len)
        (vmmap_remove ops l s m (addr / 4096) (page_count addr len))

  munmap-refuses :
      (s : S) (m : AreaList) (addr len : ℕ)
      → do_munmap ops l mem_low mem_high tlb_flush s m addr len
        ≡ (if refuses addr len then Unmapped.einval else removal s m addr len)
  unfolding do_munmap
  munmap-refuses s m addr len = ground arith

  refuses-positive : (addr len : ℕ) → refuses addr len ≡ false → 0 < len
  refuses-positive addr len good = ground (arith, good)

  removed_pages :
      (s t : S) (m m' : AreaList) (addr len : ℕ)
      → l.high < 2 ^ 20
      → 0 < len
      → addr + len ≤ 2 ^ 32
      → Within l.low l.high m
      → vmmap_remove ops l s m (addr / 4096) (page_count addr len) ≡ Removed.done t m'
      → Within l.low l.high m'
        × ((vfn : ℕ)
            → vfn < 2 ^ 32
            → page_of m' vfn
              ≡ (if in_range (addr / 4096) (page_end addr len) vfn then none else page_of m vfn))
  removed_pages s t m m' addr len small pos fits w removed =
      let span = page_count-fits addr len pos fits in
      let (w', pages) =
        remove_pages ops l s t m m' (addr / 4096) (page_count addr len) (omega arith)
          (omega (arith, span)) w removed in
      (
        w',
        λ vfn low.
            pages vfn low
            ∙ ap (λ e. if in_range (addr / 4096) e vfn then none else page_of m vfn) span,
      )

  -- `do_munmap` returns -EINVAL for an address outside of the user part or inside of a page, and for
  -- a length that is 0 or not below the user part's. When it returns 0, the pages that the range of
  -- bytes meets are mapped no more, every other page keeps its mapping, and the areas are in order,
  -- disjoint and in bounds. The range does not reach beyond 2^32.
  pub munmap_pages :
      (s s' : S) (m m' : AreaList) (addr len : ℕ)
      → l.high < 2 ^ 20
      → addr + len ≤ 2 ^ 32
      → Within l.low l.high m
      → (refuses addr len ≡ true
          → do_munmap ops l mem_low mem_high tlb_flush s m addr len ≡ Unmapped.einval)
        × (do_munmap ops l mem_low mem_high tlb_flush s m addr len ≡ Unmapped.done s' m'
            → Within l.low l.high m'
              × ((vfn : ℕ)
                  → vfn < 2 ^ 32
                  → page_of m' vfn ≡ (
                      if in_range (addr / 4096) (page_end addr len) vfn
                      then none
                      else page_of m vfn)))
  munmap_pages s s' m m' addr len small fits w =
      let result : Bool → Unmapped S = λ b. if b then Unmapped.einval else removal s m addr len in
      let checks = munmap-refuses s m addr len in
      (
        (λ bad. checks ∙ ap result bad),
        λ e. elim (Bool-cases (refuses addr len)) [
          | inl bad ↦ absurd (ground (arith, ap is_done (sym (checks ∙ ap result bad) ∙ e)))
          | inr good ↦
              let (t, removed) =
                from_finished addr (page_count addr len)
                  (vmmap_remove ops l s m (addr / 4096) (page_count addr len)) s' m'
                  (sym (checks ∙ ap result good) ∙ e) in
              removed_pages s t m m' addr len small (refuses-positive addr len good) fits w removed
        ],
      )
