-- ===== src/Vm/Space.antt =====
-- kernel/vm/vmmap.c: the operations on the area list that use no memory object.
pub mod Order
pub mod Gaps
use mathlib.Core.List.{reverse}
use kernel.Base.{
  ℕ, ◌+◌, ◌-◌, ◌≤◌, ◌<◌, ◌≡◌, Bool, true, false, List, [], ◌∷◌, Option, none, some, ltb, leb, ◌&&◌,
  ◌||◌, if◌then◌else◌, add32, sub32, minus_one,
}
use kernel.Vm.Area.{Area, Layout, AreaList}

-- The test of `vmmap_insert` that stops the scan at an area.
unfoldable pub is_above : Area → Area → Bool
is_above oldvma newvma = ltb newvma.start oldvma.start && ltb newvma.end oldvma.end

-- `vmmap_insert`: before the first area above the new one, else at the tail.
unfoldable pub vmmap_insert : AreaList → Area → AreaList
unfolding is_above
vmmap_insert [] newvma = newvma ∷ []
vmmap_insert (oldvma ∷ rest) newvma =
    if is_above oldvma newvma then newvma ∷ oldvma ∷ rest else oldvma ∷ vmmap_insert rest newvma

-- The assertions of `vmmap_insert` on the new area's bounds.
unfoldable pub insert_asserts : Layout → Area → Bool
insert_asserts l newvma =
    ltb newvma.start newvma.end && (leb l.low newvma.start && leb newvma.end l.high)

-- `vmmap_is_range_empty`, the loop over the areas for the range from `startvfn` to `endvfn`.
unfoldable pub is_free : AreaList → ℕ → ℕ → Bool
is_free [] startvfn endvfn = true
is_free (vma ∷ rest) startvfn endvfn =
    if leb vma.end startvfn || leb endvfn vma.start then is_free rest startvfn endvfn else false

-- The assertion of `vmmap_is_range_empty` on the range.
abbrev pub in_user_part : Layout → ℕ → ℕ → Bool
in_user_part l startvfn endvfn = ltb startvfn endvfn && (leb l.low startvfn && leb endvfn l.high)

-- `vmmap_is_range_empty`; none is the failed assertion.
unfoldable pub vmmap_is_range_empty : Layout → AreaList → ℕ → ℕ → Option Bool
unfolding is_free add32
vmmap_is_range_empty l map startvfn npages =
    let endvfn = add32 startvfn npages in
    if in_user_part l startvfn endvfn then some (is_free map startvfn endvfn) else none

-- The loop of `vmmap_find_range` upwards, `vma_prev` being the area before the list's rest.
unfoldable pub gap_up : Layout → ℕ → Area → AreaList → ℕ
unfolding sub32
gap_up l npages prev [] = if leb npages (sub32 l.high prev.end) then prev.end else minus_one
gap_up l npages prev (cur ∷ rest) =
    if leb npages (sub32 cur.start prev.end) then prev.end else gap_up l npages cur rest

-- `vmmap_find_range` with VMMAP_DIR_LOHI
unfoldable pub find_range_lohi : Layout → AreaList → ℕ → ℕ
unfolding gap_up sub32
find_range_lohi l [] npages = l.low
find_range_lohi l (vma ∷ rest) npages =
    if not_at_low && leb npages (sub32 vma.start l.low) then l.low else gap_up l npages vma rest
  where
    not_at_low : Bool
    not_at_low = ltb vma.start l.low || ltb l.low vma.start

-- The loop of `vmmap_find_range` downwards, over the areas below `vma_prev`, highest first.
unfoldable pub gap_down : Layout → ℕ → Area → AreaList → ℕ
unfolding sub32
gap_down l npages prev [] =
    if leb npages prev.start
    then if leb l.low (sub32 prev.start npages) then sub32 prev.start npages else minus_one
    else minus_one
gap_down l npages prev (cur ∷ rest) =
    if leb npages (sub32 prev.start cur.end)
    then sub32 prev.start npages
    else gap_down l npages cur rest

-- `vmmap_find_range` with VMMAP_DIR_HILO, on the areas from the tail of the list.
unfoldable pub find_from_tail : Layout → AreaList → ℕ → ℕ
unfolding gap_down sub32
find_from_tail l [] npages = sub32 l.high npages
find_from_tail l (vma ∷ below) npages =
    if leb npages (sub32 l.high vma.end) then sub32 l.high npages else gap_down l npages vma below

pub data Dir : Type 0 where
  lohi hilo : Dir

unfoldable pub find_range_in : Layout → AreaList → ℕ → Dir → ℕ
unfolding find_range_lohi find_from_tail
find_range_in l map npages lohi = find_range_lohi l map npages
find_range_in l map npages hilo = find_from_tail l (reverse map) npages

-- `vmmap_find_range`; the result is the bit pattern of the `int` that the code returns, and none
-- is the failed assertion on `npages`.
unfoldable pub vmmap_find_range : Layout → AreaList → ℕ → Dir → Option ℕ
unfolding find_range_in
vmmap_find_range l map npages dir =
    if ltb 0 npages then some (find_range_in l map npages dir) else none
