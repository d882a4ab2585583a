-- ===== src/Vm/Space/Gaps.antt =====
-- kernel/vm/vmmap.c: `vmmap_find_range` finds the first free range in its direction.
use mathlib.Core.List.{reverse, reverse-cons}
use kernel.Base.{
  ℕ, ◌+◌, ◌-◌, ◌^◌, ◌≤◌, ◌<◌, ◌≡◌, ◌⊎◌, inl, inr, refl, sym, ◌∙◌, some, true, [], ◌∷◌, ◌++◌, ltb,
  leb, ◌&&◌, ◌||◌, minus_one, arith, Bool-cases, leb→le, sub32, sub32_small,
}
use kernel.Vm.Area.{Area, AreaList, Layout, Within}
use kernel.Vm.Space.{
  is_free, gap_up, gap_down, find_range_lohi, find_from_tail, Dir, lohi, hilo, find_range_in,
  vmmap_find_range,
}
use kernel.Vm.Space.Order.{Within-le}

-- A range below every area is free.
free_below : (lo hi : ℕ) (m : AreaList) (a b : ℕ) → Within lo hi m → b ≤ lo → is_free m a b ≡ true
unfolding is_free
free_below lo hi [] a b w h = refl
free_below lo hi (vma ∷ rest) a b w h = ground (arith, free_below vma.end hi rest a b w.2)

-- `npages` pages from `s` are free and belong to the user part.
abbrev pub Fits : Layout → AreaList → ℕ → ℕ → Type 0
Fits l m npages s = (l.low ≤ s) × (s + npages ≤ l.high) × (is_free m s (s + npages) ≡ true)

-- Nothing fits and the result is -1, or the result fits and is the first in the order `Before`.
abbrev Search : (ℕ → ℕ → Type 0) → (ℕ → Type 0) → ℕ → Type 0
Search Before F r = ((r ≡ minus_one) × ((s : ℕ) → F s → ⊥)) ⊎ (F r × ((s : ℕ) → F s → Before r s))

abbrev pub Before : Dir → ℕ → ℕ → Type 0
Before lohi r s = r ≤ s
Before hilo r s = s ≤ r

-- Passing over a range of candidates that do not fit keeps the answer.
Search-skip :
    (B : ℕ → ℕ → Type 0) (F G : ℕ → Type 0) (r : ℕ)
    → ((s : ℕ) → F s → G s)
    → ((s : ℕ) → G s → F s)
    → Search B F r
    → Search B G r
Search-skip B F G r fg gf (inl (e, no_fit)) = inl (e, λ s g. no_fit s (gf s g))
Search-skip B F G r fg gf (inr (f, first)) = inr (fg r f, λ s g. first s (gf s g))

module _ (l : Layout) (small : l.high < 2 ^ 31) (npages : ℕ) (pos : 0 < npages) where
  -- The candidates that lie above `lo`.
  abbrev FitsAbove : ℕ → AreaList → ℕ → Type 0
  FitsAbove lo rest s = (lo ≤ s) × (s + npages ≤ l.high) × (is_free rest s (s + npages) ≡ true)

  -- No candidate starts below an area whose start is nearer than `npages`.
  skip :
      (B : ℕ → ℕ → Type 0) (lo r : ℕ) (cur : Area) (rest : AreaList)
      → lo ≤ cur.end
      → cur.start < cur.end
      → cur.start < lo + npages
      → Search B (FitsAbove cur.end rest) r
      → Search B (FitsAbove lo (cur ∷ rest)) r
  unfolding is_free
  skip B lo r cur rest le ne short =
      Search-skip B (FitsAbove cur.end rest) (FitsAbove lo (cur ∷ rest)) r
        (λ s f. (omega arith, f.1, ground arith)) (λ s f. ground arith)

  -- The gap below an area is large enough.
  hit_below :
      (lo : ℕ) (m : AreaList)
      → Within (lo + npages) l.high m
      → Search (Before lohi) (FitsAbove lo m) lo
  hit_below lo m w = inr (
    (
      omega arith,
      Within-le (lo + npages) l.high m w,
      free_below (lo + npages) l.high m lo (lo + npages) w (omega arith),
    ),
    λ s f. f.0,
  )

  gap_up-Search :
      (prev : Area) (rest : AreaList)
      → Within prev.end l.high rest
      → Search (Before lohi) (FitsAbove prev.end rest) (gap_up l npages prev rest)
  unfolding gap_up is_free
  gap_up-Search prev [] w = elim (Bool-cases (leb npages (sub32 l.high prev.end))) [
    | inl hit ↦ rw hit (hit_below prev.end [] (ground (arith, sub32_small l.high prev.end)))
    | inr miss ↦ rw miss (inl (refl, λ s f. ground (arith, f.0, f.1, sub32_small l.high prev.end)))
  ]
  gap_up-Search prev (cur ∷ rest) w =
      let top : cur.end ≤ l.high = Within-le cur.end l.high rest w.2 in
      elim (Bool-cases (leb npages (sub32 cur.start prev.end))) [
        | inl hit ↦ rw hit (
            hit_below prev.end (cur ∷ rest)
              (ground (arith, sub32_small cur.start prev.end), w.1, w.2))
        | inr miss ↦ rw miss (
            skip (Before lohi) prev.end (gap_up l npages cur rest) cur rest (omega arith) w.1
              (ground (arith, sub32_small cur.start prev.end)) (gap_up-Search cur rest w.2))
      ]

  lohi-Search :
      (m : AreaList)
      → Within l.low l.high m
      → (m ≡ [] → npages ≤ l.high - l.low)
      → Search (Before lohi) (Fits l m npages) (find_range_lohi l m npages)
  unfolding find_range_lohi is_free
  lohi-Search [] w h = hit_below l.low [] (omega (arith, h refl))
  lohi-Search (vma ∷ rest) w h =
      let top : vma.end ≤ l.high = Within-le vma.end l.high rest w.2 in
      elim (Bool-cases
        ((ltb vma.start l.low || ltb l.low vma.start) && leb npages (sub32 vma.start l.low))) [
          | inl hit ↦
              rw hit (
                hit_below l.low (vma ∷ rest)
                  (ground (arith, sub32_small vma.start l.low), w.1, w.2))
          | inr miss ↦ rw miss (
              skip (Before lohi) l.low (gap_up l npages vma rest) vma rest (omega arith) w.1
                (ground (arith, sub32_small vma.start l.low)) (gap_up-Search vma rest w.2))
        ]

-- The list read from its tail: each area ends below the start of the one before it.
abbrev Down : ℕ → ℕ → AreaList → Type 0
Down lo top [] = lo ≤ top
Down lo top (vma ∷ rest) = (vma.end ≤ top) × (vma.start < vma.end) × Down lo vma.start rest

Down-le : (lo top : ℕ) (m : AreaList) → Down lo top m → lo ≤ top
Down-le lo top [] d = d
Down-le lo top (vma ∷ rest) d = omega (arith, Down-le lo vma.start rest d.2)

Down-append :
    (lo top : ℕ) (m : AreaList) (vma : Area)
    → lo ≤ vma.start
    → vma.start < vma.end
    → Down vma.end top m
    → Down lo top (m ++ vma ∷ [])
Down-append lo top [] vma a b d = (d, b, a)
Down-append lo top (x ∷ m) vma a b d = (d.0, d.1, Down-append lo x.start m vma a b d.2)

reverse-Down : (lo hi : ℕ) (m : AreaList) → Within lo hi m → Down lo hi (reverse m)
reverse-Down lo hi [] w = w
reverse-Down lo hi (vma ∷ rest) w =
    rw (reverse-cons vma rest)
      (Down-append lo hi (reverse rest) vma w.0 w.1 (reverse-Down vma.end hi rest w.2))

is_free-append :
    (m k : AreaList) (a b : ℕ) → is_free (m ++ k) a b ≡ (is_free m a b && is_free k a b)
unfolding is_free
is_free-append [] k a b = refl
is_free-append (vma ∷ m) k a b = ground (arith, is_free-append m k a b)

is_free-reverse : (m : AreaList) (a b : ℕ) → is_free (reverse m) a b ≡ is_free m a b
unfolding is_free
is_free-reverse [] a b = refl
is_free-reverse (vma ∷ m) a b =
    rw (reverse-cons vma m)
      (ground (arith, is_free-append (reverse m) (vma ∷ []) a b, is_free-reverse m a b))

reverse-nil : (m : AreaList) → reverse m ≡ [] → m ≡ []
reverse-nil [] e = refl
reverse-nil (vma ∷ m) e = nonempty (reverse m) (sym (reverse-cons vma m) ∙ e)
  where
    nonempty : (k : AreaList) → k ++ vma ∷ [] ≡ [] → vma ∷ m ≡ []
    nonempty [] e' = absurd (cc)
    nonempty (x ∷ k) e' = absurd (cc)

free_above : (lo top : ℕ) (m : AreaList) (a b : ℕ) → Down lo top m → top ≤ a → is_free m a b ≡ true
unfolding is_free
free_above lo top [] a b d h = refl
free_above lo top (vma ∷ m) a b d h = ground (arith, free_above lo vma.start m a b d.2)

module _ (l : Layout) (small : l.high < 2 ^ 31) (npages : ℕ) (pos : 0 < npages) where
  abbrev FitsBelow : ℕ → AreaList → ℕ → Type 0
  FitsBelow top rest s = (l.low ≤ s) × (s + npages ≤ top) × (is_free rest s (s + npages) ≡ true)

  skip_down :
      (B : ℕ → ℕ → Type 0) (top r : ℕ) (cur : Area) (rest : AreaList)
      → cur.end ≤ top
      → cur.start < cur.end
      → top < cur.end + npages
      → Search B (FitsBelow cur.start rest) r
      → Search B (FitsBelow top (cur ∷ rest)) r
  unfolding is_free
  skip_down B top r cur rest le ne short =
      Search-skip B (FitsBelow cur.start rest) (FitsBelow top (cur ∷ rest)) r
        (λ s f. (f.0, omega arith, ground arith)) (λ s f. ground arith)

  -- The gap above an area, up to `top`, is large enough: the result is as high as can be.
  hit_above :
      (top : ℕ) (m : AreaList)
      → npages ≤ top
      → top < 2 ^ 31
      → Down l.low (top - npages) m
      → Search (Before hilo) (FitsBelow top m) (sub32 top npages)
  hit_above top m le bound d = rw (sub32_small top npages le (omega arith)) (
      inr (
        (
          Down-le l.low (top - npages) m d,
          omega arith,
          free_above l.low (top - npages) m (top - npages) (top - npages + npages) d (omega arith),
        ),
        λ s f. omega (arith, f.1),
      ))

  gap_down-Search :
      (prev : Area) (rest : AreaList)
      → prev.start < l.high
      → Down l.low prev.start rest
      → Search (Before hilo) (FitsBelow prev.start rest) (gap_down l npages prev rest)
  unfolding gap_down is_free
  gap_down-Search prev [] lt d = elim (Bool-cases (leb npages prev.start)) [
    | inl big ↦ elim (Bool-cases (leb l.low (sub32 prev.start npages))) [
      | inl hit ↦
          rw (big, hit)
            (hit_above prev.start [] (leb→le _ _ big) (omega arith)
              (ground (arith, sub32_small prev.start npages)))
      | inr miss ↦
          rw (big, miss)
            (inl (refl, λ s f. ground (arith, f.0, f.1, sub32_small prev.start npages)))
    ]
    | inr none_left ↦ rw none_left (inl (refl, λ s f. ground (arith, f.0, f.1)))
  ]
  gap_down-Search prev (cur ∷ rest) lt d =
      elim (Bool-cases (leb npages (sub32 prev.start cur.end))) [
        | inl hit ↦ rw hit (
            hit_above prev.start (cur ∷ rest) (ground (arith, sub32_small prev.start cur.end))
              (omega arith) (ground (arith, sub32_small prev.start cur.end), d.1, d.2))
        | inr miss ↦ rw miss (
            skip_down (Before hilo) prev.start (gap_down l npages cur rest) cur rest d.0 d.1
              (ground (arith, sub32_small prev.start cur.end))
              (gap_down-Search cur rest (omega arith) d.2))
      ]

  hilo-Search :
      (m : AreaList)
      → Down l.low l.high m
      → (m ≡ [] → npages ≤ l.high - l.low)
      → Search (Before hilo) (FitsBelow l.high m) (find_from_tail l m npages)
  unfolding find_from_tail is_free
  hilo-Search [] d h =
      let fits = h refl in hit_above l.high [] (omega arith) (omega arith) (omega arith)
  hilo-Search (vma ∷ rest) d h = elim (Bool-cases (leb npages (sub32 l.high vma.end))) [
    | inl hit ↦ rw hit (
        hit_above l.high (vma ∷ rest) (ground (arith, sub32_small l.high vma.end)) (omega arith)
          (ground (arith, sub32_small l.high vma.end), d.1, d.2))
    | inr miss ↦ rw miss (
        skip_down (Before hilo) l.high (gap_down l npages vma rest) vma rest d.0 d.1
          (ground (arith, sub32_small l.high vma.end)) (gap_down-Search vma rest (omega arith) d.2))
  ]

  find_range_in-Search :
      (m : AreaList) (dir : Dir)
      → Within l.low l.high m
      → (m ≡ [] → npages ≤ l.high - l.low)
      → Search (Before dir) (Fits l m npages) (find_range_in l m npages dir)
  unfolding find_range_in
  find_range_in-Search m lohi w h = lohi-Search l small npages pos m w h
  find_range_in-Search m hilo w h =
      Search-skip (Before hilo) (FitsBelow l.high (reverse m)) (Fits l m npages) _
        (λ s f. (f.0, f.1, rw (is_free-reverse m s (s + npages)) at f.2))
        (λ s f. (f.0, f.1, rw (is_free-reverse m s (s + npages)) f.2))
        (hilo-Search (reverse m) (reverse-Down l.low l.high m w) (λ e. h (reverse-nil m e)))

  -- `npages` is positive, the areas are in order, disjoint and inside the user part, which ends below
  -- page 2 ^ 31, and, if there is no area at all, `npages` is at most the size of the user part: then
  -- no assertion fails; when the result is -1, no range of `npages` free pages exists; any other
  -- result starts such a range inside the user part, the lowest one for VMMAP_DIR_LOHI and the
  -- highest for VMMAP_DIR_HILO.
  pub find_range_first :
      (m : AreaList) (dir : Dir)
      → Within l.low l.high m
      → (m ≡ [] → npages ≤ l.high - l.low)
      → (r : ℕ) × (vmmap_find_range l m npages dir ≡ some r)
        × (((r ≡ minus_one) × ((s : ℕ) → ¬ Fits l m npages s))
            ⊎ (Fits l m npages r × ((s : ℕ) → Fits l m npages s → Before dir r s)))
  unfolding vmmap_find_range
  find_range_first m dir w h =
      (find_range_in l m npages dir, ground arith, find_range_in-Search m dir w h)
