-- ===== src/Vm/Remove.antt =====
-- kernel/vm/vmmap.c: `vmmap_remove`.
pub mod Pages
pub mod Loop
pub mod Failure
use kernel.Base.{
  ℕ, zero, suc, ◌+◌, ◌≤◌, ◌<◌, ◌≡◌, Bool, true, false, List, [], ◌∷◌, ◌++◌, Option, none, some, ltb,
  leb, ◌&&◌, if◌then◌else◌, add32, sub32, length, arith,
}
use kernel.Vm.Area.{Area, AreaList, Layout}
use kernel.Vm.Objects.{Objects}
use kernel.Vm.Space.{is_above, vmmap_insert, insert_asserts}

-- How the range from `startvfn` to `endvfn` meets an area: the four cases of the code, and none.
pub data Overlap : Type 0 where
  inside over_end over_start covers apart : Overlap

unfoldable pub overlap : ℕ → ℕ → Area → Overlap
overlap startvfn endvfn vma =
    if ltb vma.start startvfn && ltb endvfn vma.end
    then inside
    else if ltb vma.start startvfn && (ltb startvfn vma.end && leb vma.end endvfn)
    then over_end
    else if leb startvfn vma.start && (ltb vma.start endvfn && ltb endvfn vma.end)
    then over_start
    else if leb startvfn vma.start && leb vma.end endvfn
    then covers
    else apart

-- The call of `vmmap_insert` in the loop: the new area goes into the whole list, and the scan goes on
-- at the link that was next before the insertion.
unfoldable pub insert_split : AreaList → AreaList → Area → AreaList × AreaList
unfolding vmmap_insert is_above
insert_split [] [] newvma = (newvma ∷ [], [])
insert_split [] (next ∷ rest) newvma =
    if is_above next newvma
    then (newvma ∷ [], next ∷ rest)
    else ([], next ∷ vmmap_insert rest newvma)
insert_split (old ∷ front) rest newvma =
    if is_above old newvma
    then (newvma ∷ old ∷ front, rest)
    else (let (front', rest') = insert_split front rest newvma in (old ∷ front', rest'))

-- The list after a split is the list that `vmmap_insert` makes.
abbrev joined : AreaList × AreaList → AreaList
joined (front, rest) = front ++ rest

insert_split-insert :
    (front rest : AreaList) (newvma : Area)
    → joined (insert_split front rest newvma) ≡ vmmap_insert (front ++ rest) newvma
unfolding insert_split
insert_split-insert [] [] newvma = ground arith
insert_split-insert [] (next ∷ rest) newvma = ground arith
insert_split-insert (old ∷ front) rest newvma =
    ground (arith, insert_split-insert front rest newvma)

pub data Split (S : Type 0) : Type 0 where
  parts : S → Area → Area → Split S
  failed : S → Area → Split S  -- return -1, with the area as it is then
  fault : Split S  -- a NULL pointer is followed

module _ {S : Type 0} (ops : Objects S) where
  -- Both parts of a private area get a shadow object of their own over the old object.
  unfoldable pub split_private : S → Area → Area → Split S
  split_private s vma new_vma =
      let (first, s') = ops.shadow_create s in
      let (second, s'') = ops.shadow_create s' in
      elim first [
        | none ↦ failed (ops.area_free s') vma
        | some shadow1 ↦ elim second [
          | none ↦ failed (ops.area_free s'') vma
          | some shadow2 ↦ elim vma.obj [
            | none ↦ fault
            | some temp ↦
                let bottom = ops.bottom_obj s'' temp in
                parts
                  (ops.ref
                    (ops.shadow_over (ops.shadow_over s'' shadow1 temp bottom) shadow2 temp bottom)
                    temp)
                  (record vma { obj = some shadow1 }) (record new_vma { obj = some shadow2 })
          ]
        ]
      ]

  unfoldable pub split_shared : S → Area → Area → Split S
  split_shared s vma new_vma = elim vma.obj [
    | none ↦ fault
    | some o ↦ parts (ops.ref s o) vma (record new_vma { obj = some o })
  ]

  -- Case 1: the area is cut in two around the range. The new area's `vma_obj` is not set when
  -- neither flag is.
  unfoldable pub split_area : S → Area → ℕ → ℕ → Split S
  unfolding split_private split_shared add32 sub32
  split_area s vma startvfn endvfn =
      let (allocated, s') = ops.area_alloc s in
      elim allocated [
        | false ↦ failed s' vma
        | true ↦
            let left : Area = record vma { end = startvfn } in
            let right : Area = record vma {
              start = endvfn;
              off = sub32 (add32 vma.off endvfn) vma.start;
              obj = none;
            } in
            if vma.flags.is_private
            then split_private s' left right
            else if vma.flags.is_shared
            then split_shared s' left right
            else parts s' left right
      ]

pub data Removed (S : Type 0) : Type 0 where
  done : S → AreaList → Removed S  -- return 0
  failed : S → AreaList → Removed S  -- return -1
  panic : Removed S  -- an assertion of `vmmap_insert`, or a NULL pointer
  out_of_fuel : Removed S

-- `vma->vma_obj->mmo_ops->put`, unless the object is NULL.
abbrev pub put_obj : {S : Type 0} → Objects S → S → Option ℕ → S
put_obj ops s none = s
put_obj ops s (some o) = ops.put s o

module _ {S : Type 0} (ops : Objects S) (l : Layout) (startvfn endvfn : ℕ) where
  -- The loop of `vmmap_remove`: `front` has been passed, `rest` begins at the next link. A split
  -- makes the list longer, so the loop takes fuel.
  unfoldable pub remove_loop : ℕ → S → AreaList → AreaList → Removed S
  unfolding overlap insert_split insert_asserts split_area add32 sub32
  remove_loop fuel s front [] = done s front
  remove_loop zero s front (vma ∷ rest) = out_of_fuel
  remove_loop (suc fuel) s front (vma ∷ rest) = elim (overlap startvfn endvfn vma) [
    | apart ↦ remove_loop fuel s (front ++ vma ∷ []) rest
    | inside ↦ elim (split_area ops s vma startvfn endvfn) [
      | fault ↦ panic
      | failed s' vma' ↦ failed s' (front ++ vma' ∷ rest)
      | parts s' left right ↦ elim (insert_asserts l right) [
        | false ↦ panic
        | true ↦
            let (front', rest') = insert_split (front ++ left ∷ []) rest right in
            remove_loop fuel (ops.unmap_range s' startvfn endvfn) front' rest'
      ]
    ]
    | over_end ↦
        remove_loop fuel (ops.unmap_range s startvfn vma.end)
          (front ++ record vma { end = startvfn } ∷ []) rest
    | over_start ↦
        remove_loop fuel (ops.unmap_range s vma.start endvfn)
          (front
            ++ record vma { start = endvfn; off = add32 vma.off (sub32 endvfn vma.start) } ∷ [])
          rest
    | covers ↦
        remove_loop fuel (ops.unmap_range (ops.area_free (put_obj ops s vma.obj)) vma.start vma.end)
          front rest
  ]

-- `vmmap_remove`. Each area is split at most once and a new area meets the range no more, so two
-- rounds for each area are enough.
unfoldable pub vmmap_remove : {S : Type 0} → Objects S → Layout → S → AreaList → ℕ → ℕ → Removed S
unfolding remove_loop add32
vmmap_remove ops l s map lopage npages =
    remove_loop ops l lopage (add32 lopage npages) (length map + length map) s [] map
