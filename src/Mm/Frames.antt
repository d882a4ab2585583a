-- ===== src/Mm/Frames.antt =====
-- kernel/mm/pframe.c: finding, allocating, pinning, cleaning and freeing page frames.
-- An optional result is none where an assertion fails. The counters do not go below 0 while they
-- count their lists.
pub mod Invariant
pub mod Pinning
pub mod Resident
pub mod Lifetime
use kernel.Base.{
  ℕ, ◌+◌, ◌-◌, Bool, true, false, not, List, [], ◌∷◌, ◌++◌, Option, none, some, ltb, leb, ◌==◌,
  ◌&&◌, ◌||◌, if◌then◌else◌, add32, sub32, update, is_none, remove_item,
}
use kernel.Vm.Area.{Area}
use kernel.Mm.Cache.{
  Frame, Kind, Object, Cache, Machine, anon, shadow, vnode, is_free, is_pinned, holds, hash_page,
  set_frame, set_object, set_world, set_busy, set_dirty,
}

-- The scan of a hash chain.
unfoldable pub find_frame : (ℕ → Frame) → ℕ → ℕ → List ℕ → Option ℕ
find_frame frames o pagenum [] = none
find_frame frames o pagenum (pf ∷ rest) =
    if holds o pagenum (frames pf) then some pf else find_frame frames o pagenum rest

abbrev pub is_empty : List ℕ → Bool
is_empty [] = true
is_empty (_ ∷ _) = false

module _ {W : Type 0} where
  -- A frame that is used again goes to the tail of `alloc_list`.
  abbrev pub requeued : ℕ → Cache W → Cache W
  requeued pf s = record s { alloc_list = remove_item pf s.alloc_list ++ (pf ∷ []) }

  abbrev pub touched : ℕ → Cache W → Cache W
  touched pf s = if is_pinned (s.frames pf) then s else requeued pf s

  abbrev pub found : Option ℕ → Cache W → Option ℕ × Cache W
  found none s = (none, s)
  found (some pf) s = (some pf, touched pf s)

  -- The two moves of a frame between `alloc_list` and `pinned_list`.
  abbrev pub to_pinned : ℕ → Cache W → Cache W
  to_pinned pf s = record s {
    alloc_list = remove_item pf s.alloc_list;
    nallocated = s.nallocated - 1;
    pinned_list = s.pinned_list ++ (pf ∷ []);
    npinned = s.npinned + 1;
  }

  abbrev pub to_allocated : ℕ → Cache W → Cache W
  to_allocated pf s = record s {
    pinned_list = remove_item pf s.pinned_list;
    npinned = s.npinned - 1;
    alloc_list = s.alloc_list ++ (pf ∷ []);
    nallocated = s.nallocated + 1;
  }

  abbrev pub set_pincount : ℕ → ℕ → Cache W → Cache W
  set_pincount pf n s = set_frame pf (record (s.frames pf) { pincount = n }) s

  -- `pframe_pin`; nothing happens when `alloc_list` is empty and the frame is not pinned.
  unfoldable pub pframe_pin : ℕ → Cache W → Option (Cache W)
  pframe_pin pf s =
      if is_free (s.frames pf)
      then none
      else if is_pinned (s.frames pf)
      then some (set_pincount pf ((s.frames pf).pincount + 1) s)
      else if is_empty s.alloc_list
      then some s
      else some (set_pincount pf ((s.frames pf).pincount + 1) (to_pinned pf s))

  abbrev pub unpinned : ℕ → ℕ → Cache W → Cache W
  unpinned pf left s =
      if left == 0 && not (is_empty s.pinned_list)
      then to_allocated pf (set_pincount pf left s)
      else set_pincount pf left s

  -- `pframe_unpin`
  unfoldable pub pframe_unpin : ℕ → Cache W → Option (Cache W)
  pframe_unpin pf s =
      if is_free (s.frames pf) || not (is_pinned (s.frames pf))
      then none
      else some (unpinned pf ((s.frames pf).pincount - 1) s)

  abbrev pub counted_up : ℕ → Cache W → Cache W
  counted_up o s = set_object o (record (s.objects o) { refcount = (s.objects o).refcount + 1 }) s

  -- The assertion and the count of `anon_ref` and `shadow_ref`.
  unfoldable pub count_ref : ℕ → Cache W → Option (Cache W)
  count_ref o s = if ltb 0 (s.objects o).refcount then some (counted_up o s) else none

  abbrev pub anon_ref : ℕ → Cache W → Option (Cache W)
  anon_ref o s = count_ref o s

  abbrev pub shadow_ref : ℕ → Cache W → Option (Cache W)
  shadow_ref o s = count_ref o s

  -- `anon_dirtypage` and `shadow_dirtypage` set the bit, if it is not set, and succeed.
  abbrev pub anon_dirtypage : ℕ → Cache W → Option ℕ × Cache W
  anon_dirtypage pf s = (none, set_dirty pf true s)

  abbrev pub shadow_dirtypage : ℕ → Cache W → Option ℕ × Cache W
  shadow_dirtypage pf s = (none, set_dirty pf true s)

  -- `anon_cleanpage` and `shadow_cleanpage` clear the bit, pinned or not, and write nothing.
  abbrev pub anon_cleanpage : ℕ → Cache W → Option ℕ × Cache W
  anon_cleanpage pf s = (none, set_dirty pf false s)

  abbrev pub shadow_cleanpage : ℕ → Cache W → Option ℕ × Cache W
  shadow_cleanpage pf s = (none, set_dirty pf false s)

  -- The frame that `pframe_alloc` makes, on all its lists but for the object's reference and list.
  abbrev pub linked_frame : ℕ → ℕ → ℕ → ℕ → Cache W → Cache W
  linked_frame size pf o pagenum s = record s {
    nallocated = s.nallocated + 1;
    alloc_list = s.alloc_list ++ (pf ∷ []);
    frames = update s.frames pf (record {
      obj = some o;
      pagenum = pagenum;
      busy = false;
      dirty = false;
      pincount = 0;
      bytes = (s.frames pf).bytes;
    });
    hash = update s.hash (hash_page size o pagenum) (pf ∷ s.hash (hash_page size o pagenum));
  }

  abbrev pub adopted : ℕ → ℕ → Cache W → Cache W
  adopted pf o s =
      set_object o
        (record (s.objects o) {
          nrespages = (s.objects o).nrespages + 1;
          respages = pf ∷ (s.objects o).respages;
        })
        s

  -- The frame leaves the lists, its memory is given back, and its object forgets it.
  abbrev pub unlinked_frame : ℕ → ℕ → ℕ → Cache W → Cache W
  unlinked_frame size pf o s =
      let bucket = hash_page size o (s.frames pf).pagenum in
      set_frame pf (record (s.frames pf) { obj = none })
        (record s {
          hash = update s.hash bucket (remove_item pf (s.hash bucket));
          nallocated = s.nallocated - 1;
          alloc_list = remove_item pf s.alloc_list;
        })

  abbrev pub orphaned : ℕ → ℕ → Cache W → Cache W
  orphaned pf o s =
      set_object o
        (record (s.objects o) {
          nrespages = (s.objects o).nrespages - 1;
          respages = remove_item pf (s.objects o).respages;
        })
        s

module _ {W : Type 0} (ops : Machine W) where
  -- `pframe_get_resident`
  unfoldable pub pframe_get_resident : ℕ → ℕ → Cache W → Option ℕ × Cache W
  unfolding find_frame
  pframe_get_resident o pagenum s =
      found (find_frame s.frames o pagenum (s.hash (hash_page ops.hash_size o pagenum))) s

  -- `mmo_ops->ref`
  abbrev pub ref_by : Kind → ℕ → Cache W → Option (Cache W)
  ref_by vnode o s = some (ops.vnode_ref s o)
  ref_by anon o s = anon_ref o s
  ref_by shadow o s = shadow_ref o s

  unfoldable pub ref : ℕ → Cache W → Option (Cache W)
  unfolding count_ref
  ref o s = ref_by (s.objects o).kind o s

  -- The frame when `ref` of its object has failed no assertion.
  abbrev pub taken : ℕ → ℕ → Option (Cache W) → Option (Option ℕ × Cache W)
  taken pf o none = none
  taken pf o (some s) = some (some pf, adopted pf o s)

  -- `pframe_alloc`: a frame, or none for NULL, and none for a failed assertion of `ref`.
  abbrev pub with_page : ℕ → ℕ → ℕ → Bool × W → Cache W → Option (Option ℕ × Cache W)
  with_page pf o pagenum (false, w) s = some (none, set_world (ops.slab_free w pf) s)
  with_page pf o pagenum (true, w) s =
      taken pf o (ref o (linked_frame ops.hash_size pf o pagenum (set_world w s)))

  abbrev pub with_slab : ℕ → ℕ → Option ℕ × W → Cache W → Option (Option ℕ × Cache W)
  with_slab o pagenum (none, w) s = some (none, set_world w s)
  with_slab o pagenum (some pf, w) s = with_page pf o pagenum (ops.page_alloc w) s

  unfoldable pub pframe_alloc : ℕ → ℕ → Cache W → Option (Option ℕ × Cache W)
  pframe_alloc o pagenum s = with_slab o pagenum (ops.slab_alloc s.world) s

  -- `pframe_remove_from_pts`, the loop over the areas that show the object.
  unfoldable pub unmap_areas : ℕ → List (Area × Option ℕ) → W → W
  unfolding add32 sub32
  unmap_areas pagenum [] w = w
  unmap_areas pagenum ((vma, none) ∷ rest) w = unmap_areas pagenum rest w
  unmap_areas pagenum ((vma, some dir) ∷ rest) w = unmap_areas pagenum rest (
      if leb vma.off pagenum && ltb pagenum (add32 vma.off (sub32 vma.end vma.start))
      then ops.pt_unmap w dir (sub32 (add32 vma.start pagenum) vma.off)
      else w)

  unfoldable pub pframe_remove_from_pts : ℕ → ℕ → Cache W → Cache W
  unfolding unmap_areas
  pframe_remove_from_pts pf o s =
      set_world (unmap_areas (s.frames pf).pagenum (ops.bottom_vmas s.world o) s.world) s

  -- `mmo_ops->dirtypage`
  abbrev pub dirty_by : Kind → ℕ → ℕ → Cache W → Option ℕ × Cache W
  dirty_by vnode o pf s =
      let (e, w) = ops.vnode_dirty s.world o (s.frames pf).pagenum in (e, set_world w s)
  dirty_by anon o pf s = anon_dirtypage pf s
  dirty_by shadow o pf s = shadow_dirtypage pf s

  unfoldable pub dirtypage : ℕ → ℕ → Cache W → Option ℕ × Cache W
  dirtypage o pf s = dirty_by (s.objects o).kind o pf s

  -- `mmo_ops->cleanpage`
  abbrev pub clean_by : Kind → ℕ → ℕ → Cache W → Option ℕ × Cache W
  clean_by vnode o pf s =
      let (e, w) = ops.vnode_clean s.world o (s.frames pf).pagenum in (e, set_world w s)
  clean_by anon o pf s = anon_cleanpage pf s
  clean_by shadow o pf s = shadow_cleanpage pf s

  unfoldable pub cleanpage : ℕ → ℕ → Cache W → Option ℕ × Cache W
  cleanpage o pf s = clean_by (s.objects o).kind o pf s

  -- Clearing the busy bit and waking those who wait for the frame.
  abbrev pub released : ℕ → Cache W → Cache W
  released pf s = set_busy pf false (set_world (ops.broadcast s.world pf) s)

  abbrev pub dirtied : ℕ → Option ℕ × Cache W → Option ℕ × Cache W
  dirtied pf (none, s) = (none, released pf (set_dirty pf true s))
  dirtied pf (some e, s) = (some e, released pf s)

  -- `pframe_dirty`: an error, if any.
  unfoldable pub pframe_dirty : ℕ → Cache W → Option (Option ℕ × Cache W)
  pframe_dirty pf s = elim (s.frames pf).obj [
    | none ↦ none
    | some o ↦
        if (s.frames pf).busy then none else some (dirtied pf (dirtypage o pf (set_busy pf true s)))
  ]

  abbrev pub cleaned : ℕ → Option ℕ × Cache W → Option ℕ × Cache W
  cleaned pf (none, s) = (none, released pf s)
  cleaned pf (some e, s) = (some e, released pf (set_dirty pf true s))

  abbrev pub unmapped : ℕ → ℕ → Cache W → Cache W
  unmapped pf o s = pframe_remove_from_pts pf o (set_world (ops.tlb_flush s.world pf) s)

  -- `pframe_clean`: an error, if any.
  unfoldable pub pframe_clean : ℕ → Cache W → Option (Option ℕ × Cache W)
  pframe_clean pf s = elim (s.frames pf).obj [
    | none ↦ none
    | some o ↦
        if (s.frames pf).dirty && not (is_pinned (s.frames pf))
        then some
            (cleaned pf (cleanpage o pf (set_busy pf true (unmapped pf o (set_dirty pf false s)))))
        else none
  ]

  -- `pframe_free` up to its call of `put`.
  abbrev pub uncached : ℕ → ℕ → Cache W → Cache W
  uncached pf o s =
      let gone = unlinked_frame ops.hash_size pf o (unmapped pf o s) in
      orphaned pf o (set_world (ops.slab_free (ops.page_free gone.world pf) pf) gone)
