-- ===== src/Vm/Remove/Failure.antt =====
-- kernel/vm/vmmap.c: how `vmmap_remove` ends, and what it leaves behind when it returns -1.
use kernel.Base.{
  ℕ, zero, suc, ◌+◌, ◌^◌, ◌≤◌, ◌<◌, ◌≡◌, ◌≢◌, ◌⊎◌, inl, inr, refl, ◌∙◌, true, [], ◌∷◌, ◌++◌, none,
  append_assoc, if◌then◌else◌, add32_small, arith, length,
}
use kernel.Vm.Area.{Area, AreaList, Layout, Within, pagenum}
use kernel.Vm.Objects.{Objects}
use kernel.Vm.Space.{insert_asserts}
use kernel.Vm.Space.Order.{Within-le}
use kernel.Vm.Remove.{
  Overlap, inside, over_end, over_start, covers, apart, overlap, Split, parts, split_private,
  split_shared, split_area, Removed, done, out_of_fuel, panic, remove_loop, vmmap_remove,
}
use kernel.Vm.Remove.Loop.{
  Ends, Ends-mono, Ends-append, insert_split_next, Meets, overlap-Meets, split_area-parts,
}
use kernel.Vm.Remove.Pages.{page_of, page_of-cons, page_of_below, in_range}

-- No area has a NULL object.
abbrev pub Backed : AreaList → Type 0
Backed [] = Unit {0}
Backed (vma ∷ rest) = (vma.obj ≢ none) × Backed rest

module _ {S : Type 0} (ops : Objects S) where
  split_area-failed :
      (s s' : S) (vma vma' : Area) (startvfn endvfn : ℕ)
      → split_area ops s vma startvfn endvfn ≡ Split.failed s' vma'
      → (vma' ≡ vma) ⊎ (vma' ≡ record vma { end = startvfn })
  unfolding split_area split_private split_shared
  split_area-failed s s' vma vma' startvfn endvfn e = ground arith

  split_area-ne-fault :
      (s : S) (vma : Area) (startvfn endvfn : ℕ)
      → vma.obj ≢ none
      → split_area ops s vma startvfn endvfn ≢ Split.fault
  unfolding split_area split_private split_shared
  split_area-ne-fault s vma startvfn endvfn h e = ground arith

module _ (startvfn endvfn : ℕ) where
  -- The pages from `startvfn` to `b` are gone: none, or also pages behind the range.
  abbrev pub LostTo : ℕ → AreaList → AreaList → Type 0
  LostTo b m m' =
      ((b ≡ startvfn) ⊎ (endvfn < b))
      × ((vfn : ℕ)
          → vfn < 2 ^ 32
          → page_of m' vfn ≡ (if in_range startvfn b vfn then none else page_of m vfn))

  abbrev Outcome : {S : Type 0} → ℕ → AreaList → AreaList → Removed S → Type 0
  Outcome lo front rest (done s' m') = Unit {0}
  Outcome lo front rest (Removed.failed s' m') =
      (rest' : AreaList) × (b : ℕ) × (m' ≡ front ++ rest') × (lo < startvfn) × LostTo b rest rest'
  Outcome lo front rest panic = ⊥
  Outcome lo front rest out_of_fuel = ⊥

  -- An area that is passed over whole.
  Outcome-apart :
      {S : Type 0} (r : Removed S) (lo hi : ℕ) (front rest : AreaList) (vma : Area)
      → Within lo hi (vma ∷ rest)
      → Outcome vma.end (front ++ vma ∷ []) rest r
      → Outcome lo front (vma ∷ rest) r
  Outcome-apart (done s' m') lo hi front rest vma w o = tt
  Outcome-apart (Removed.failed s' m') lo hi front rest vma w (rest', b, e, h, lost) = (
    vma ∷ rest',
    b,
    e ∙ append_assoc front (vma ∷ []) rest',
    omega arith,
    (
      lost.0,
      λ vfn k. ground (arith, lost.1 vfn k, page_of-cons vma rest vfn, page_of-cons vma rest' vfn),
    ),
  )
  Outcome-apart panic lo hi front rest vma w o = o
  Outcome-apart out_of_fuel lo hi front rest vma w o = o

  -- Past the start of the range nothing is split, so nothing fails.
  Outcome-past :
      {S : Type 0} (r : Removed S) (lo lo' : ℕ) (front front' rest rest' : AreaList)
      → startvfn ≤ lo'
      → Outcome lo' front' rest' r
      → Outcome lo front rest r
  Outcome-past (done s' m') lo lo' front front' rest rest' h o = tt
  Outcome-past (Removed.failed s' m') lo lo' front front' rest rest' h o =
      absurd (omega (arith, o.3))
  Outcome-past panic lo lo' front front' rest rest' h o = o
  Outcome-past out_of_fuel lo lo' front front' rest rest' h o = o

  -- A failed split leaves the area, or cuts it off at the start of the range.
  LostTo-failed :
      (lo hi : ℕ) (rest : AreaList) (vma vma' : Area)
      → startvfn ≤ endvfn
      → Within lo hi (vma ∷ rest)
      → (vma' ≡ vma) ⊎ (vma' ≡ record vma { end = startvfn })
      → Meets startvfn endvfn vma inside
      → (b : ℕ) × LostTo b (vma ∷ rest) (vma' ∷ rest)
  unfolding pagenum
  LostTo-failed lo hi rest vma vma' order w (inl e) met =
      (startvfn, (inl refl, λ vfn k. ground arith))
  LostTo-failed lo hi rest vma vma' order w (inr e) met = (
    vma.end,
    (
      inr met.1,
      λ vfn k. rw e (
          ground (
            arith,
            page_of-cons vma rest vfn,
            page_of-cons (record vma { end = startvfn }) rest vfn,
            page_of_below vma.end hi rest vfn w.2,
          )),
    ),
  )

  module _ {S : Type 0} (ops : Objects S) (l : Layout) (order : startvfn ≤ endvfn) where
    -- The rounds that are left, from the next area on.
    abbrev Rounds : ℕ → AreaList → ℕ → Type 0
    Rounds fuel rest lo =
        (s : S) (front : AreaList)
        → Ends lo front
        → Outcome lo front rest (remove_loop ops l startvfn endvfn fuel s front rest)

    module _ (fuel : ℕ) (s : S) (front rest : AreaList) (lo : ℕ) (vma : Area) (low : l.low ≤ lo)
        (ends : Ends lo front) (w : Within lo l.high (vma ∷ rest)) (backed : vma.obj ≢ none)
        (rounds : Rounds fuel rest vma.end) where
      abbrev Round : Type 0
      Round =
          Outcome lo front (vma ∷ rest)
            (remove_loop ops l startvfn endvfn (suc fuel) s front (vma ∷ rest))

      piece-Ends : (piece : Area) → piece.end ≤ vma.end → Ends vma.end (front ++ piece ∷ [])
      piece-Ends piece le =
          Ends-append vma.end front piece (Ends-mono lo vma.end front (omega arith) ends) le

      split_Outcome :
          (o : Split S)
          → split_area ops s vma startvfn endvfn ≡ o
          → Meets startvfn endvfn vma inside
          → overlap startvfn endvfn vma ≡ inside
          → Round
      unfolding remove_loop
      split_Outcome Split.fault q met o =
          absurd (split_area-ne-fault ops s vma startvfn endvfn backed q)
      split_Outcome (Split.failed s1 vma') q met o =
          let (b, lost) =
            LostTo-failed lo l.high rest vma vma' order w
              (split_area-failed ops s s1 vma vma' startvfn endvfn q) met in
          rw (o, q, remove_loop) (vma' ∷ rest, b, refl, omega arith, lost)
      split_Outcome (parts s1 left right) q met o =
          let (left_eq, right_eq) = split_area-parts ops s s1 vma left right startvfn endvfn q in
          let asserted : insert_asserts l right ≡ true =
            ground (arith, Within-le vma.end l.high rest w.2) in
          let next =
            insert_split_next vma.end l.high (front ++ left ∷ []) rest right
              (Ends-append right.start front left
                (Ends-mono lo right.start front (ground arith) ends) (ground arith))
              (ground arith) (ground arith) w.2 in
          rw (o, q, asserted, next, remove_loop)
            (Outcome-past _ lo vma.end front ((front ++ left ∷ []) ++ right ∷ []) (vma ∷ rest) rest
              (omega arith)
              (rounds _ ((front ++ left ∷ []) ++ right ∷ []) (
                Ends-append vma.end (front ++ left ∷ []) right (piece-Ends left (ground arith))
                  (ground arith))))

      round : (o : Overlap) → overlap startvfn endvfn vma ≡ o → Meets startvfn endvfn vma o → Round
      unfolding remove_loop
      round apart o met =
          rw (o, remove_loop)
            (Outcome-apart _ lo l.high front rest vma w
              (rounds s (front ++ vma ∷ []) (piece-Ends vma (omega arith))))
      round covers o met =
          rw (o, remove_loop)
            (Outcome-past _ lo vma.end front front (vma ∷ rest) rest (omega arith)
              (rounds _ front (Ends-mono lo vma.end front (omega arith) ends)))
      round over_end o met =
          rw (o, remove_loop)
            (Outcome-past _ lo vma.end front (front ++ _ ∷ []) (vma ∷ rest) rest (omega arith)
              (rounds _ _ (piece-Ends _ (omega arith))))
      round over_start o met =
          rw (o, remove_loop)
            (Outcome-past _ lo vma.end front (front ++ _ ∷ []) (vma ∷ rest) rest (omega arith)
              (rounds _ _ (piece-Ends _ (omega arith))))
      round inside o met = split_Outcome (split_area ops s vma startvfn endvfn) refl met o

    loop-Outcome :
        (fuel : ℕ) (s : S) (front rest : AreaList) (lo : ℕ)
        → length rest ≤ fuel
        → l.low ≤ lo
        → Ends lo front
        → Within lo l.high rest
        → Backed rest
        → Outcome lo front rest (remove_loop ops l startvfn endvfn fuel s front rest)
    unfolding remove_loop
    loop-Outcome zero s front [] lo f low ends w b = tt
    loop-Outcome (suc fuel) s front [] lo f low ends w b = tt
    loop-Outcome zero s front (vma ∷ rest) lo f low ends w b = absurd (omega arith)
    loop-Outcome (suc fuel) s front (vma ∷ rest) lo f low ends w b =
        round fuel s front rest lo vma low ends w b.0
          (λ s1 front1 ends1.
            loop-Outcome fuel s1 front1 rest vma.end (omega arith) (omega arith) ends1 w.2 b.1)
          (overlap startvfn endvfn vma) refl (overlap-Meets startvfn endvfn vma order w.1)

-- The range does not wrap: `lopage + npages` is below 2 ^ 32. The areas are in order, disjoint and
-- inside the user part, and none has a NULL object. Then `vmmap_remove` returns, and fails no
-- assertion. If it returns -1, either no page has changed, or the pages of the range are gone and,
-- with them, pages behind the range: a piece of the area that was to be split is lost.
pub remove_outcome :
    {S : Type 0} (ops : Objects S) (l : Layout) (s : S) (m : AreaList) (lopage npages : ℕ)
    → lopage + npages < 2 ^ 32
    → Within l.low l.high m
    → Backed m
    → ((s' : S) × (m' : AreaList) × (vmmap_remove ops l s m lopage npages ≡ done s' m'))
      ⊎ ((s' : S) × (m' : AreaList) × (b : ℕ) × (vmmap_remove ops l s m lopage npages
            ≡ Removed.failed s' m')
          × LostTo lopage (lopage + npages) b m m')
unfolding vmmap_remove
remove_outcome {S} ops l s m lopage npages fits w b = rw (add32_small lopage npages fits) (
    by_result (remove_loop ops l lopage (lopage + npages) (length m + length m) s [] m) (
      loop-Outcome lopage (lopage + npages) ops l (omega arith) (length m + length m) s [] m l.low
        (omega arith) (omega arith) tt w b))
  where
    by_result :
        (r : Removed S)
        → Outcome lopage (lopage + npages) l.low [] m r
        → ((s' : S) × (m' : AreaList) × (r ≡ done s' m'))
          ⊎ ((s' : S) × (m' : AreaList) × (b' : ℕ) × (r ≡ Removed.failed s' m')
              × LostTo lopage (lopage + npages) b' m m')
    by_result (done s' m') o = inl (s', m', refl)
    by_result (Removed.failed s' m') (rest', b', eq, h, lost) = inr (s', m', b', refl, rw eq lost)
    by_result panic o = absurd o
    by_result out_of_fuel o = absurd o
