-- ===== src/Mm/Lookup.antt =====
-- kernel/mm/pframe.c, kernel/vm/anon.c, kernel/vm/shadow.c: `pframe_get`, the filling of pages and
-- the lookup of a page through a chain of shadow objects.
pub mod Chains
pub mod Installed
pub mod CopyOnWrite
use kernel.Base.{ℕ, zero, suc, Bool, true, false, not, Option, none, some, leb, ◌&&◌, if◌then◌else◌}
use kernel.Mm.Cache.{
  Kind, Filled, Cache, Machine, filled, fill_failed, anon, shadow, vnode, is_free, is_pinned,
  set_busy, set_bytes, set_world,
}
use kernel.Mm.Frames.{pframe_pin, pframe_get_resident, pframe_alloc, released, is_empty}

-- A call that gives a frame: the frame, an error, or where the thread goes to sleep: on a busy
-- frame's queue, or on `alloc_waitq`. `panic` is a failed assertion or a NULL dereference.
pub data Got (W : Type 0) : Type 0 where
  page : ℕ → Cache W → Got W
  failed : ℕ → Cache W → Got W
  waits : ℕ → Cache W → Got W
  starves : Cache W → Got W
  panic : Got W
  out_of_fuel : Got W

module _ {W : Type 0} where
  -- `return -1` on every error.
  abbrev pub minus_one_on_error : Got W → Got W
  minus_one_on_error (failed _ s) = failed 1 s
  minus_one_on_error other = other

  abbrev pub pinned_page : ℕ → Option (Cache W) → Got W
  pinned_page pf none = panic
  pinned_page pf (some s) = page pf s

  abbrev pub copy_bytes : ℕ → ℕ → Cache W → Cache W
  copy_bytes pf old s = set_bytes pf (s.frames old).bytes s

  -- `shadow_fillpage` on what the lookup below gave: `pf` is pinned, then the bytes are copied.
  abbrev pub copied_to : ℕ → ℕ → Option (Cache W) → Got W
  copied_to pf old none = panic
  copied_to pf old (some s) = page pf (copy_bytes pf old s)

  abbrev pub copied : ℕ → Got W → Got W
  copied pf (page old s) = copied_to pf old (pframe_pin pf s)
  copied pf (failed _ s) = failed 1 s
  copied pf other = other

  -- A busy frame is waited for.
  abbrev pub unless_busy : ℕ → Cache W → Got W
  unless_busy pf s = if (s.frames pf).busy then waits pf s else page pf s

  abbrev pub if_found : Option ℕ × Cache W → (Cache W → Got W) → Got W
  if_found (some pf, s) next = unless_busy pf s
  if_found (none, s) next = next s

  abbrev pub vnode_filled : ℕ → Filled W → Cache W → Got W
  vnode_filled pf (filled b w) s = page pf (set_bytes pf b (set_world w s))
  vnode_filled pf (fill_failed e w) s = failed e (set_world w s)

module _ {W : Type 0} (ops : Machine W) where
  abbrev pub fill_ends : ℕ → Got W → Got W
  fill_ends pf (page _ s) = page pf (released ops pf s)
  fill_ends pf (failed e s) = failed e (released ops pf s)
  fill_ends pf other = other

  -- `pageoutd_needed`, with `nfreepages_min` 0
  abbrev pub pageoutd_needed : Cache W → Bool
  pageoutd_needed s = leb (ops.page_free_count s.world) 0 && not (is_empty s.alloc_list)

module _ {W : Type 0} (ops : Machine W) (look : ℕ → ℕ → Bool → Cache W → Got W) where
  abbrev pub fill_from_below : ℕ → Option ℕ → Cache W → Got W
  fill_from_below pf none s = panic
  fill_from_below pf (some below) s = copied pf (look below (s.frames pf).pagenum false s)

  abbrev pub anon_fillpage : ℕ → Cache W → Got W
  anon_fillpage pf s =
      if (s.frames pf).busy && not (is_pinned (s.frames pf))
      then pinned_page pf (pframe_pin pf (set_bytes pf (λ _. 0) s))
      else panic

  abbrev pub shadow_fillpage : ℕ → ℕ → Cache W → Got W
  shadow_fillpage o pf s =
      if (s.frames pf).busy && not (is_pinned (s.frames pf))
      then fill_from_below pf (s.objects o).shadowed s
      else panic

  -- `mmo_ops->fillpage`
  abbrev pub fill_by : Kind → ℕ → ℕ → Cache W → Got W
  fill_by vnode o pf s = vnode_filled pf (ops.vnode_fill s.world o (s.frames pf).pagenum) s
  fill_by anon o pf s = anon_fillpage pf s
  fill_by shadow o pf s = shadow_fillpage o pf s

  unfoldable pub fillpage : ℕ → ℕ → Cache W → Got W
  fillpage o pf s = fill_by (s.objects o).kind o pf s

  -- `pframe_fill`
  unfoldable pub pframe_fill : ℕ → ℕ → Cache W → Got W
  unfolding fillpage
  pframe_fill o pf s = fill_ends ops pf (fillpage o pf (set_busy pf true s))

  abbrev pub filled_frame : ℕ → Option (Option ℕ × Cache W) → Got W
  filled_frame o none = panic
  filled_frame o (some (none, s)) = failed 1 s
  filled_frame o (some (some pf, s)) = pframe_fill o pf s

  -- What `pframe_get` does for a page that is not resident, from where it may have slept.
  unfoldable pub pframe_new : ℕ → ℕ → Cache W → Got W
  unfolding pframe_fill
  pframe_new o pagenum s = filled_frame o (pframe_alloc ops o pagenum s)

  abbrev pub if_resident : ℕ → ℕ → Option ℕ × Cache W → Got W
  if_resident o pagenum (some pf, s) = unless_busy pf s
  if_resident o pagenum (none, s) =
      if pageoutd_needed ops s
      then starves (set_world (ops.wake_pageoutd s.world) s)
      else pframe_new o pagenum s

  -- `pframe_get`; after sleeping for a busy frame it starts again.
  unfoldable pub pframe_get : ℕ → ℕ → Cache W → Got W
  pframe_get o pagenum s = if_resident o pagenum (pframe_get_resident ops o pagenum s)

  abbrev pub look_at_bottom : Option ℕ → ℕ → Cache W → Got W
  look_at_bottom none pagenum s = panic
  look_at_bottom (some b) pagenum s = minus_one_on_error (look b pagenum false s)

  -- The loop of `shadow_lookuppage` down the chain of objects, with a bound on its rounds; where a
  -- busy frame is waited for, it is returned afterwards.
  unfoldable pub walk_chain : ℕ → Option ℕ → Option ℕ → ℕ → Cache W → Got W
  walk_chain rounds bottom none pagenum s = look_at_bottom bottom pagenum s
  walk_chain zero bottom (some o) pagenum s = out_of_fuel
  walk_chain (suc rounds) bottom (some o) pagenum s =
      if_found (pframe_get_resident ops o pagenum s)
        (λ s1. walk_chain rounds bottom (s1.objects o).shadowed pagenum s1)

  -- `vlookuppage` is the same.
  abbrev pub anon_lookuppage : ℕ → ℕ → Cache W → Got W
  anon_lookuppage o pagenum s = pframe_get o pagenum s

  -- `shadow_lookuppage`
  unfoldable pub shadow_lookuppage : ℕ → ℕ → ℕ → Bool → Cache W → Got W
  unfolding walk_chain pframe_get
  shadow_lookuppage rounds o pagenum forwrite s =
      if forwrite
      then minus_one_on_error (pframe_get o pagenum s)
      else walk_chain rounds (s.objects o).bottom_obj (some o) pagenum s

module _ {W : Type 0} (ops : Machine W) where
  -- `pframe_lookup`: `mmo_ops->lookuppage`, with a bound on the depth of its calls and on the length
  -- of a chain.
  abbrev pub lookup_by :
      Kind → (ℕ → ℕ → Bool → Cache W → Got W) → ℕ → ℕ → ℕ → Bool → Cache W → Got W
  lookup_by shadow deeper depth o pagenum forwrite s =
      shadow_lookuppage ops deeper depth o pagenum forwrite s
  lookup_by anon deeper depth o pagenum forwrite s = anon_lookuppage ops deeper o pagenum s
  lookup_by vnode deeper depth o pagenum forwrite s = pframe_get ops deeper o pagenum s

  unfoldable pub pframe_lookup : ℕ → ℕ → ℕ → Bool → Cache W → Got W
  pframe_lookup zero o pagenum forwrite s = out_of_fuel
  pframe_lookup (suc depth) o pagenum forwrite s =
      lookup_by (s.objects o).kind (pframe_lookup depth) depth o pagenum forwrite s
