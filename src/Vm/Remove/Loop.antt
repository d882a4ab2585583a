-- ===== src/Vm/Remove/Loop.antt =====
-- kernel/vm/vmmap.c: `vmmap_remove` takes the range's pages out of the address space, and no others.
use kernel.Base.{
  ℕ, zero, suc, ◌+◌, ◌^◌, ◌≤◌, ◌<◌, ◌≡◌, inl, inr, refl, ◌∙◌, [], ◌∷◌, ◌++◌, none, append-nil,
  append_assoc, ltb, leb, ◌&&◌, if◌then◌else◌, add32, sub32, add32_small, arith, Bool-cases, length,
}
use kernel.Vm.Area.{Area, AreaList, Layout, Within}
use kernel.Vm.Objects.{Objects}
use kernel.Vm.Space.{is_above, insert_asserts}
use kernel.Vm.Space.Order.{Within-le}
use kernel.Vm.Remove.{
  Overlap, inside, over_end, over_start, covers, apart, overlap, insert_split, Split, parts,
  split_private, split_shared, split_area, done, remove_loop, vmmap_remove,
}
use kernel.Vm.Remove.Pages.{
  Cut, Cut-append, Cut-nil, CutsTo-apart, CutsTo-covers, CutsTo-end, CutsTo-start, CutsTo-split,
  Moved-start, Moved-split, page_of, in_range,
}

-- The areas that have been passed end by `b`.
abbrev pub Ends : ℕ → AreaList → Type 0
Ends b [] = Unit {0}
Ends b (vma ∷ rest) = (vma.end ≤ b) × Ends b rest

pub Ends-mono : (b b' : ℕ) (m : AreaList) → b ≤ b' → Ends b m → Ends b' m
Ends-mono b b' [] h e = tt
Ends-mono b b' (vma ∷ m) h e = (omega arith, Ends-mono b b' m h e.1)

pub Ends-append :
    (b : ℕ) (m : AreaList) (vma : Area) → Ends b m → vma.end ≤ b → Ends b (m ++ vma ∷ [])
Ends-append b [] vma e h = (h, tt)
Ends-append b (x ∷ m) vma e h = (e.0, Ends-append b m vma e.1 h)

-- The second part of a split goes directly behind the first.
pub insert_split_next :
    (b hi : ℕ) (front rest : AreaList) (right : Area)
    → Ends right.start front
    → right.start < right.end
    → right.end ≤ b
    → Within b hi rest
    → insert_split front rest right ≡ (front ++ right ∷ [], rest)
unfolding insert_split is_above
insert_split_next b hi [] [] right e ne le w = refl
insert_split_next b hi [] (next ∷ rest) right e ne le w = ground arith
insert_split_next b hi (old ∷ front) rest right e ne le w =
    ground (arith, insert_split_next b hi front rest right e.1)

module _ {S : Type 0} (ops : Objects S) where
  -- What a split makes, whatever the objects.
  pub split_area-parts :
      (s s' : S) (vma left right : Area) (startvfn endvfn : ℕ)
      → split_area ops s vma startvfn endvfn ≡ parts s' left right
      → (left ≡ record vma { end = startvfn; obj = left.obj })
        × (right ≡ record vma {
          start = endvfn;
          off = sub32 (add32 vma.off endvfn) vma.start;
          obj = right.obj;
        })
  unfolding split_area split_private split_shared
  split_area-parts s s' vma left right startvfn endvfn e = ground arith

-- What the chosen case says of the area.
abbrev pub Meets : ℕ → ℕ → Area → Overlap → Type 0
Meets s e vma inside = (vma.start < s) × (e < vma.end)
Meets s e vma over_end = (vma.start < s) × (s < vma.end) × (vma.end ≤ e)
Meets s e vma over_start = (s ≤ vma.start) × (vma.start < e) × (e < vma.end)
Meets s e vma covers = (s ≤ vma.start) × (vma.end ≤ e)
Meets s e vma apart = s < vma.end → vma.start < e → ⊥

pub overlap-Meets :
    (s e : ℕ) (vma : Area) → s ≤ e → vma.start < vma.end → Meets s e vma (overlap s e vma)
unfolding overlap
overlap-Meets s e vma h ne = elim (Bool-cases (ltb vma.start s && ltb e vma.end)) [
  | inl a ↦ rw a (ground arith, ground arith)
  | inr a ↦ rw a (elim (Bool-cases (ltb vma.start s && (ltb s vma.end && leb vma.end e))) [
    | inl b ↦ rw b (ground arith, ground arith, ground arith)
    | inr b ↦ rw b (elim (Bool-cases (leb s vma.start && (ltb vma.start e && ltb e vma.end))) [
      | inl c ↦ rw c (ground arith, ground arith, ground arith)
      | inr c ↦ rw c (elim (Bool-cases (leb s vma.start && leb vma.end e)) [
        | inl d ↦ rw d (ground arith, ground arith)
        | inr d ↦ rw d (λ x y. ground arith)
      ])
    ])
  ])
]

module _ {S : Type 0} (ops : Objects S) (l : Layout) (startvfn endvfn : ℕ)
    (order : startvfn ≤ endvfn) where
  -- The loop keeps `front`, and takes the range out of `rest`.
  abbrev Takes : AreaList → ℕ → ℕ → AreaList → AreaList → Type 0
  Takes front lo hi rest m' =
      (rest' : AreaList) × (m' ≡ front ++ rest') × Cut startvfn endvfn lo hi rest rest'

  Takes-step :
      (front ps rest m' : AreaList) (lo hi : ℕ) (vma : Area)
      → Cut startvfn endvfn lo vma.end (vma ∷ []) ps
      → Takes (front ++ ps) vma.end hi rest m'
      → Takes front lo hi (vma ∷ rest) m'
  Takes-step front ps rest m' lo hi vma c (rest', e, d) = (
    ps ++ rest',
    e ∙ append_assoc front ps rest',
    Cut-append startvfn endvfn lo vma.end hi (vma ∷ []) ps rest rest' c d,
  )

  -- The rounds that are left, from the next area on.
  abbrev Rounds : ℕ → S → AreaList → AreaList → ℕ → ℕ → Type 0
  Rounds fuel s' rest m' lo hi =
      (s : S) (front : AreaList)
      → Ends lo front
      → remove_loop ops l startvfn endvfn fuel s front rest ≡ done s' m'
      → Takes front lo hi rest m'

  module _ (fuel : ℕ) (s s' : S) (front rest m' : AreaList) (lo hi : ℕ) (vma : Area)
      (small : hi < 2 ^ 31) (ends : Ends lo front) (w : Within lo hi (vma ∷ rest))
      (rounds : Rounds fuel s' rest m' vma.end hi) where
    top : vma.end ≤ hi
    top = Within-le vma.end hi rest w.2

    -- One piece of the area is left.
    one_piece :
        (s1 : S) (piece : Area)
        → piece.end ≤ vma.end
        → Cut startvfn endvfn lo vma.end (vma ∷ []) (piece ∷ [])
        → remove_loop ops l startvfn endvfn fuel s1 (front ++ piece ∷ []) rest ≡ done s' m'
        → Takes front lo hi (vma ∷ rest) m'
    one_piece s1 piece le c e = Takes-step front (piece ∷ []) rest m' lo hi vma c (
        rounds s1 (front ++ piece ∷ [])
          (Ends-append vma.end front piece (Ends-mono lo vma.end front (omega arith) ends) le) e)

    no_piece :
        (s1 : S)
        → Cut startvfn endvfn lo vma.end (vma ∷ []) []
        → remove_loop ops l startvfn endvfn fuel s1 front rest ≡ done s' m'
        → Takes front lo hi (vma ∷ rest) m'
    no_piece s1 c e =
        Takes-step front [] rest m' lo hi vma c (
          rw (append-nil front) (rounds s1 front (Ends-mono lo vma.end front (omega arith) ends) e))

    two_pieces :
        (s1 : S) (left right : Area)
        → left.end ≤ right.start
        → right.start < right.end
        → right.end ≤ vma.end
        → lo ≤ right.start
        → Cut startvfn endvfn lo vma.end (vma ∷ []) (left ∷ right ∷ [])
        → (let (front', rest') = insert_split (front ++ left ∷ []) rest right in
            remove_loop ops l startvfn endvfn fuel s1 front' rest')
          ≡ done s' m'
        → Takes front lo hi (vma ∷ rest) m'
    two_pieces s1 left right a b c d cut e =
        Takes-step front (left ∷ right ∷ []) rest m' lo hi vma cut (
          rw (← append_assoc front (left ∷ []) (right ∷ [])) (
            rounds s1 ((front ++ left ∷ []) ++ right ∷ [])
              (Ends-append vma.end (front ++ left ∷ []) right
                (Ends-append vma.end front left (Ends-mono lo vma.end front (omega arith) ends)
                  (omega arith))
                c)
              (rw
                (insert_split_next vma.end hi (front ++ left ∷ []) rest right
                  (Ends-append right.start front left (Ends-mono lo right.start front d ends) a) b c
                  w.2)
                at e)))

    split_piece :
        (o : Split S)
        → split_area ops s vma startvfn endvfn ≡ o
        → Meets startvfn endvfn vma inside
        → overlap startvfn endvfn vma ≡ inside
        → remove_loop ops l startvfn endvfn (suc fuel) s front (vma ∷ rest) ≡ done s' m'
        → Takes front lo hi (vma ∷ rest) m'
    unfolding remove_loop
    split_piece Split.fault q met o e = absurd (ground arith)
    split_piece (Split.failed s1 vma') q met o e = absurd (ground arith)
    split_piece (parts s1 left right) q met o e = elim (Bool-cases (insert_asserts l right)) [
      | inl asserted ↦
          let (left_eq, right_eq) = split_area-parts ops s s1 vma left right startvfn endvfn q in
          two_pieces _ left right (ground arith) (ground arith) (ground arith) (ground arith)
            (rw (left_eq, right_eq)
              (CutsTo-split startvfn endvfn lo vma w.0 w.1 (omega (arith, top)) _ left.obj right.obj
                (Moved-split startvfn endvfn lo vma w.0 w.1 (omega (arith, top)) (omega arith))
                met.0 order met.1))
            (rw (o, q, asserted, remove_loop) at e)
      | inr refused ↦ absurd (ground arith)
    ]

    step :
        (o : Overlap)
        → overlap startvfn endvfn vma ≡ o
        → Meets startvfn endvfn vma o
        → remove_loop ops l startvfn endvfn (suc fuel) s front (vma ∷ rest) ≡ done s' m'
        → Takes front lo hi (vma ∷ rest) m'
    unfolding remove_loop
    step apart o met e =
        one_piece s vma (omega arith)
          (CutsTo-apart startvfn endvfn lo vma w.0 w.1 (omega (arith, top)) met)
          (rw (o, remove_loop) at e)
    step covers o met e =
        no_piece _ (CutsTo-covers startvfn endvfn lo vma w.0 w.1 (omega (arith, top)) met.0 met.1)
          (rw (o, remove_loop) at e)
    step over_end o met e =
        one_piece _ (record vma { end = startvfn }) (omega arith)
          (CutsTo-end startvfn endvfn lo vma w.0 w.1 (omega (arith, top)) met.0 (omega arith) met.2)
          (rw (o, remove_loop) at e)
    step over_start o met e =
        one_piece _ _ (omega arith)
          (CutsTo-start startvfn endvfn lo vma w.0 w.1 (omega (arith, top)) _ vma.obj
            (Moved-start startvfn endvfn lo vma w.0 w.1 (omega (arith, top)) met.1) met.0 met.1
            met.2)
          (rw (o, remove_loop) at e)
    step inside o met e = split_piece (split_area ops s vma startvfn endvfn) refl met o e

  remove_loop-Takes :
      (fuel : ℕ) (s s' : S) (front rest m' : AreaList) (lo hi : ℕ)
      → hi < 2 ^ 31
      → Ends lo front
      → Within lo hi rest
      → remove_loop ops l startvfn endvfn fuel s front rest ≡ done s' m'
      → Takes front lo hi rest m'
  unfolding remove_loop
  remove_loop-Takes zero s s' front [] m' lo hi small ends w e =
      ([], ground (arith, append-nil front), Cut-nil startvfn endvfn lo hi w)
  remove_loop-Takes (suc fuel) s s' front [] m' lo hi small ends w e =
      ([], ground (arith, append-nil front), Cut-nil startvfn endvfn lo hi w)
  remove_loop-Takes zero s s' front (vma ∷ rest) m' lo hi small ends w e = absurd (ground arith)
  remove_loop-Takes (suc fuel) s s' front (vma ∷ rest) m' lo hi small ends w e =
      step fuel s s' front rest m' lo hi vma small ends w
        (λ s1 front1 ends1 e1.
          remove_loop-Takes fuel s1 s' front1 rest m' vma.end hi small ends1 w.2 e1)
        (overlap startvfn endvfn vma) refl (overlap-Meets startvfn endvfn vma order w.1) e

-- The range does not wrap: `lopage + npages` is below 2 ^ 32. The areas are in order, disjoint and
-- inside the user part, which ends below page 2 ^ 31. When `vmmap_remove` then returns 0, the areas
-- are again in order, disjoint and inside the user part, the pages of the range are mapped no more,
-- and every other page has the mapping that it had.
pub remove_pages :
    {S : Type 0} (ops : Objects S) (l : Layout) (s s' : S) (m m' : AreaList) (lopage npages : ℕ)
    → l.high < 2 ^ 31
    → lopage + npages < 2 ^ 32
    → Within l.low l.high m
    → vmmap_remove ops l s m lopage npages ≡ done s' m'
    → Within l.low l.high m'
      × ((vfn : ℕ)
          → vfn < 2 ^ 32
          → page_of m' vfn
            ≡ (if in_range lopage (lopage + npages) vfn then none else page_of m vfn))
unfolding vmmap_remove
remove_pages ops l s s' m m' lopage npages small fits w e = (rw eq cut.within, rw eq cut.pages)
  where
    taken : Takes ops l lopage (lopage + npages) (omega arith) [] l.low l.high m m'
    taken =
        remove_loop-Takes ops l lopage (lopage + npages) (omega arith) (length m + length m) s s' []
          m m' l.low l.high small tt w (rw (add32_small lopage npages fits) at e)

    eq : m' ≡ taken.0
    eq = taken.1

    cut : Cut lopage (lopage + npages) l.low l.high m taken.0
    cut = taken.2
