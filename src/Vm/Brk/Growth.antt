-- ===== src/Vm/Brk/Growth.antt =====
-- kernel/vm/brk.c: a heap that grows.
use kernel.Base.{
  ℕ, ◌+◌, ◌*◌, ◌^◌, ◌<◌, ◌≤◌, ◌≡◌, ◌⊎◌, refl, sym, ap, ◌∙◌, inl, inr, true, false, [], ◌∷◌, Option,
  none, some, ltb, ◌==◌, if◌then◌else◌, add32, sub32, arith, Bool-cases, subst, add32_small,
}
use kernel.Vm.Area.{Area, AreaList, Layout, Within, vmmap_lookup, pagenum}
use kernel.Vm.Objects.{Objects}
use kernel.Vm.Remove.Pages.{mapping, page_of, page_of-cons, in_range}
use kernel.Vm.Space.Order.{Within-le}
use kernel.Vm.Brk.{
  Process, Constants, returned, has_page, page_before, start_or, next_start, same_area, extend,
  upper_limit, do_brk,
}

abbrev from_some : Area → Option Area → Area
from_some default none = default
from_some default (some vma) = vma

-- Areas that start behind a page start behind it all.
Within-raise :
    (lo end hi : ℕ) (m : AreaList) → Within lo hi m → end ≤ start_or hi m → Within end hi m
Within-raise lo end hi [] w below = below
Within-raise lo end hi (vma ∷ rest) w below = (below, w.1, w.2)

split_range :
    {A : Type 0} (x y : A) (a b c vfn : ℕ)
    → a ≤ b
    → b ≤ c
    → (if in_range a c vfn then x else y)
      ≡ (if in_range b c vfn then x else if in_range a b vfn then x else y)
split_range x y a b c vfn first second = ground arith

swap_ranges :
    {A : Type 0} (x y z : A) (a b c d vfn : ℕ)
    → b ≤ c
    → (if in_range a b vfn then x else if in_range c d vfn then y else z)
      ≡ (if in_range c d vfn then y else if in_range a b vfn then x else z)
swap_ranges x y z a b c d vfn apart = ground arith

-- What a list with a longer first area maps.
longer-pages :
    (vma : Area) (rest : AreaList) (end vfn : ℕ)
    → vma.end ≤ end
    → vma.start ≤ vma.end
    → page_of (record vma { end = end } ∷ rest) vfn
      ≡ (if in_range vma.end end vfn then some (mapping vma vfn) else page_of (vma ∷ rest) vfn)
unfolding pagenum
longer-pages vma rest end vfn longer used =
    page_of-cons (record vma { end = end }) rest vfn
    ∙ split_range (some (mapping vma vfn)) (page_of rest vfn) vma.start vma.end end vfn used longer
    ∙ ap (λ x. if in_range vma.end end vfn then some (mapping vma vfn) else x)
        (sym (page_of-cons vma rest vfn))

lookup_here :
    (vma : Area) (rest : AreaList) (vfn : ℕ)
    → has_page vma vfn ≡ true
    → vmmap_lookup (vma ∷ rest) vfn ≡ some vma
unfolding vmmap_lookup
lookup_here vma rest vfn here = rw here refl

lookup_later :
    (vma : Area) (rest : AreaList) (vfn : ℕ)
    → has_page vma vfn ≡ false
    → vmmap_lookup (vma ∷ rest) vfn ≡ vmmap_lookup rest vfn
unfolding vmmap_lookup
lookup_later vma rest vfn later = rw later refl

lookup_none : (vfn : ℕ) → vmmap_lookup [] vfn ≡ none
unfolding vmmap_lookup
lookup_none vfn = refl

-- An area of a list ends behind the list's start.
lookup_end :
    (lo hi : ℕ) (m : AreaList) (vfn : ℕ) (heap : Area)
    → Within lo hi m
    → vmmap_lookup m vfn ≡ some heap
    → lo ≤ heap.end
lookup_end lo hi [] vfn heap w found = absurd (ground (arith, found, lookup_none vfn))
lookup_end lo hi (vma ∷ rest) vfn heap (low, used, w) found = elim (Bool-cases (has_page vma vfn)) [
  | inl here ↦
      let same : vma ≡ heap = ap (from_some vma) (sym (lookup_here vma rest vfn here) ∙ found) in
      subst (λ (h : Area). lo ≤ h.end) same (omega arith)
  | inr later ↦
      let behind =
        lookup_end vma.end hi rest vfn heap w (sym (lookup_later vma rest vfn later) ∙ found) in
      omega (arith, behind)
]

-- What holds of the extended list.
abbrev pub Extended : ℕ → ℕ → ℕ → ℕ → Area → AreaList → AreaList → Type 0
Extended lo hi from end heap m m' =
    Within lo hi m'
    × ((vfn : ℕ)
        → page_of m' vfn
          ≡ (if in_range from end vfn then some (mapping heap vfn) else page_of m vfn))

extend_here :
    (lo hi : ℕ) (vma : Area) (rest : AreaList) (end : ℕ)
    → Within lo hi (vma ∷ rest)
    → vma.end ≤ end
    → end ≤ start_or hi rest
    → Extended lo hi vma.end end vma (vma ∷ rest) (record vma { end = end } ∷ rest)
extend_here lo hi vma rest end (low, used, w) grows room = (
  (low, omega arith, Within-raise vma.end end hi rest w room),
  λ vfn. longer-pages vma rest end vfn grows (omega arith),
)

extend_later :
    (lo hi from end : ℕ) (vma heap : Area) (rest rest' : AreaList)
    → Within lo hi (vma ∷ rest)
    → vma.end ≤ from
    → Extended vma.end hi from end heap rest rest'
    → Extended lo hi from end heap (vma ∷ rest) (vma ∷ rest')
extend_later lo hi from end vma heap rest rest' (low, used, w) behind (w', pages) = (
  (low, used, w'),
  λ vfn.
      page_of-cons vma rest' vfn
      ∙ ap (λ x. if in_range vma.start vma.end vfn then some (mapping vma vfn) else x) (pages vfn)
      ∙ swap_ranges (some (mapping vma vfn)) (some (mapping heap vfn)) (page_of rest vfn) vma.start
          vma.end from end vfn behind
      ∙ ap (λ x. if in_range from end vfn then some (mapping heap vfn) else x)
          (sym (page_of-cons vma rest vfn)),
)

-- A longer area maps the pages that follow it, up to where the next area starts.
extend-Extended :
    (lo hi : ℕ) (m : AreaList) (prev end : ℕ) (heap : Area)
    → Within lo hi m
    → vmmap_lookup m prev ≡ some heap
    → heap.end ≤ end
    → end ≤ next_start hi m prev
    → Extended lo hi heap.end end heap m (extend m prev end)
unfolding extend next_start
extend-Extended lo hi [] prev end heap w found grows room =
    absurd (ground (arith, found, lookup_none prev))
extend-Extended lo hi (vma ∷ rest) prev end heap w found grows room =
    elim (Bool-cases (has_page vma prev)) [
      | inl here ↦
          let same : vma ≡ heap =
            ap (from_some vma) (sym (lookup_here vma rest prev here) ∙ found) in
          subst (λ h. Extended lo hi h.end end h (vma ∷ rest) (extend (vma ∷ rest) prev end)) same
            (rw here (extend_here lo hi vma rest end w (rw same grows) (rw here at room)))
      | inr later ↦
          let deeper : vmmap_lookup rest prev ≡ some heap =
            sym (lookup_later vma rest prev later) ∙ found in
          rw later (
            extend_later lo hi heap.end end vma heap rest (extend rest prev end) w
              (lookup_end vma.end hi rest prev heap w.2 deeper)
              (extend-Extended vma.end hi rest prev end heap w.2 deeper grows (rw later at room)))
    ]

start_or-le : (lo hi : ℕ) (m : AreaList) → Within lo hi m → start_or hi m ≤ hi
start_or-le lo hi [] w = omega arith
start_or-le lo hi (vma ∷ rest) (low, used, w) = omega (arith, Within-le vma.end hi rest w)

next_start-le : (lo hi : ℕ) (m : AreaList) (vfn : ℕ) → Within lo hi m → next_start hi m vfn ≤ hi
unfolding next_start
next_start-le lo hi [] vfn w = omega arith
next_start-le lo hi (vma ∷ rest) vfn (low, used, w) = elim (Bool-cases (has_page vma vfn)) [
  | inl here ↦ rw here (start_or-le vma.end hi rest w)
  | inr later ↦ rw later (next_start-le vma.end hi rest vfn w)
]

-- Only at the end of the list does the default matter.
start_or-default : (a b : ℕ) (m : AreaList) → (start_or a m ≡ start_or b m) ⊎ (start_or b m ≡ b)
start_or-default a b [] = inr refl
start_or-default a b (vma ∷ rest) = inl refl

next_start-default :
    (a b : ℕ) (m : AreaList) (vfn : ℕ)
    → (next_start a m vfn ≡ next_start b m vfn) ⊎ (next_start b m vfn ≡ b)
unfolding next_start
next_start-default a b [] vfn = inr refl
next_start-default a b (vma ∷ rest) vfn = elim (Bool-cases (has_page vma vfn)) [
  | inl here ↦ rw here (start_or-default a b rest)
  | inr later ↦ rw later (next_start-default a b rest vfn)
]

-- The limit that `do_brk` checks keeps the new end below the next area and inside the user part.
limit_room :
    (c : Constants) (lo hi : ℕ) (m : AreaList) (prev addr : ℕ)
    → Within lo hi m
    → hi < 2 ^ 20
    → c.mem_high ≡ hi * 4096
    → 0 < addr
    → ltb (upper_limit c m prev) addr ≡ false
    → page_before addr + 1 ≤ next_start hi m prev
unfolding upper_limit page_before sub32
limit_room c lo hi m prev addr w small high pos under =
    let le = next_start-le lo hi m prev w in
    elim (next_start-default c.head_start hi m prev) [
      | inl same ↦ ground (arith, same, le, under, high)
      | inr end ↦ ground (arith, end, under, high)
    ]

-- A break that moves up to a later page, into an area of its own, grows that area to the new page:
-- the pages up to there are mapped to the pages of the heap's object that follow, every other page
-- keeps its mapping, and the list stays in order, disjoint and in bounds. The area of the old break
-- ends there, and the address is between the limits.
pub heap_grows :
    {S : Type 0} (ops : Objects S) (l : Layout) (c : Constants) (p : Process S) (addr : ℕ)
    (heap : Area)
    → Within l.low l.high p.map
    → l.high < 2 ^ 20
    → c.mem_high ≡ l.high * 4096
    → 0 < addr
    → p.start_brk ≤ addr
    → addr ≤ upper_limit c p.map (page_before p.brk)
    → vmmap_lookup p.map (page_before p.brk) ≡ some heap
    → heap.end ≡ page_before p.brk + 1
    → page_before p.brk < page_before addr
    → same_area p.map (page_before p.brk) (page_before p.start_brk) ≡ false
    → (m : AreaList) × (do_brk ops l c p addr ≡ returned addr (record p { map = m; brk = addr }))
      × Extended l.low l.high (page_before p.brk + 1) (page_before addr + 1) heap p.map m
unfolding do_brk
heap_grows ops l c p addr heap w small high pos low under found last grows own =
    let prev = page_before p.brk in
    let target = page_before addr in
    let not_null : (addr == 0) ≡ false = ground arith in
    let not_low : ltb addr p.start_brk ≡ false = ground arith in
    let not_high : ltb (upper_limit c p.map prev) addr ≡ false = ground arith in
    let moves : (target == prev) ≡ false = ground arith in
    let upwards : ltb prev target ≡ true = ground arith in
    let room : target + 1 ≤ next_start l.high p.map prev =
      limit_room c l.low l.high p.map prev addr w small high pos not_high in
    let fits : add32 target 1 ≡ target + 1 =
      add32_small target 1 (omega (arith, room, next_start-le l.low l.high p.map prev w)) in
    let longer : Extended l.low l.high heap.end (target + 1) heap p.map
        (extend p.map prev (target + 1)) =
      extend-Extended l.low l.high p.map prev (target + 1) heap w found (omega (arith, last, grows))
        room in
    (
      extend p.map prev (target + 1),
      rw (not_null, found, not_low, not_high, moves, upwards, own, fits) refl,
      subst (λ e. Extended l.low l.high e (target + 1) heap p.map (extend p.map prev (target + 1)))
          last longer,
    )
