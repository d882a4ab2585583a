-- ===== src/Mm/Put.antt =====
-- kernel/mm/pframe.c, kernel/vm/anon.c, kernel/vm/shadow.c: `pframe_free`, `pframe_migrate` and the
-- `put` operations, which call each other, and the creation of objects.
pub mod Unpin
pub mod Last
pub mod Release
use kernel.Base.{
  ℕ, zero, suc, ◌+◌, ◌-◌, Bool, true, false, not, List, [], ◌∷◌, Option, none, some, ◌==◌, ◌&&◌,
  ◌||◌, if◌then◌else◌, length, update, remove_item, take_last,
}
use kernel.Mm.Cache.{
  Kind, Object, Cache, Machine, anon, shadow, vnode, is_free, is_pinned, hash_page, set_frame,
  set_object, set_world,
}
use kernel.Mm.Frames.{
  pframe_unpin, pframe_clean, pframe_get_resident, uncached, ref, orphaned, adopted,
}

-- How a call ends: `panic` is a failed assertion or a NULL dereference.
pub data Ended (W : Type 0) : Type 0 where
  done : Cache W → Ended W
  panic : Ended W
  out_of_fuel : Ended W

abbrev pub last_of : List ℕ → Option ℕ
last_of [] = none
last_of (pf ∷ rest) = some (take_last pf rest).0

module _ {W : Type 0} where
  abbrev pub then_do : Ended W → (Cache W → Ended W) → Ended W
  then_do (done s) k = k s
  then_do panic k = panic
  then_do out_of_fuel k = out_of_fuel

  abbrev pub or_panic : Option (Cache W) → (Cache W → Ended W) → Ended W
  or_panic none k = panic
  or_panic (some s) k = k s

  abbrev pub and_then : Option (Cache W) → (Cache W → Option (Cache W)) → Option (Cache W)
  and_then none k = none
  and_then (some s) k = k s

  -- `while (pframe_is_pinned(onePF)) pframe_unpin(onePF)`, with a bound on the rounds.
  unfoldable pub unpin_all : ℕ → ℕ → Cache W → Option (Cache W)
  unpin_all zero pf s = some s
  unpin_all (suc rounds) pf s =
      if is_pinned (s.frames pf)
      then and_then (pframe_unpin pf s) (λ s1. unpin_all rounds pf s1)
      else some s

  abbrev pub for_page : Option ℕ → Cache W → (ℕ → Ended W) → Ended W
  for_page none s k = done s
  for_page (some pf) s k = k pf

  -- `slab_obj_free` of the object.
  abbrev pub destroyed : ℕ → Cache W → Cache W
  destroyed o s = set_object o (record (s.objects o) { live = false }) s

  abbrev pub counted_down : ℕ → Cache W → Cache W
  counted_down o s = set_object o (record (s.objects o) { refcount = (s.objects o).refcount - 1 }) s

  abbrev pub put_shadowed : (ℕ → Cache W → Ended W) → Option ℕ → Cache W → Ended W
  put_shadowed put none s = done s
  put_shadowed put (some below) s = put below s

  abbrev pub finish_put : (ℕ → Cache W → Ended W) → ℕ → ℕ → ℕ → Cache W → Ended W
  finish_put put refcount nrespages o s =
      if (refcount == 0) && (nrespages == 0)
      then then_do (put_shadowed put (s.objects o).shadowed s) (λ s1. done (destroyed o s1))
      else done s

  -- `refcount` and `nrespages` of a new object are 1 and 0.
  abbrev pub created : Kind → Option ℕ × W → Cache W → Option ℕ × Cache W
  created kind (none, w) s = (none, set_world w s)
  created kind (some o, w) s = (
    some o,
    set_object o
        (record {
          live = true;
          kind = kind;
          refcount = 1;
          nrespages = 0;
          respages = [];
          shadowed = none;
          bottom_obj = none;
        })
        (set_world w s),
  )

module _ {W : Type 0} (ops : Machine W) where
  -- `shadow_create`: none is NULL.
  unfoldable pub shadow_create : Cache W → Option ℕ × Cache W
  shadow_create s = created shadow (ops.object_alloc s.world) s

  -- `anon_create`, which does not test for NULL: none is the fault.
  unfoldable pub anon_create : Cache W → Option (ℕ × Cache W)
  anon_create s =
      let (object, s1) = created anon (ops.object_alloc s.world) s in
      elim object [ none ↦ none | some o ↦ some (o, s1) ]

  abbrev pub free_of : (ℕ → Cache W → Ended W) → ℕ → Option ℕ → Cache W → Ended W
  free_of put pf none s = panic
  free_of put pf (some o) s =
      if is_pinned (s.frames pf) || (s.frames pf).busy then panic else put o (uncached ops pf o s)

  -- `pframe_free`, `put` being `mmo_ops->put`.
  unfoldable pub pframe_free : (ℕ → Cache W → Ended W) → ℕ → Cache W → Ended W
  pframe_free put pf s = free_of put pf (s.frames pf).obj s

  -- One round of the loop over `mmo_respages` of a `put`.
  abbrev pub free_tail : (ℕ → Cache W → Ended W) → ℕ → Cache W → Ended W
  free_tail put pf s =
      or_panic (unpin_all (s.frames pf).pincount pf s) (λ s1. pframe_free put pf s1)

  -- The loop, which returns after a round when `refcount` is not 0.
  unfoldable pub free_pages : (ℕ → Cache W → Ended W) → ℕ → ℕ → ℕ → Cache W → Ended W
  free_pages put zero refcount o s = out_of_fuel
  free_pages put (suc rounds) refcount o s = for_page (last_of (s.objects o).respages) s (λ pf.
      then_do (free_tail put pf s)
        (λ s1. if refcount == 0 then free_pages put rounds refcount o s1 else done s1))

  abbrev pub put_counted : (ℕ → Cache W → Ended W) → ℕ → ℕ → ℕ → ℕ → Cache W → Ended W
  put_counted put o refcount nrespages rounds s =
      if refcount == nrespages
      then then_do (free_pages put rounds refcount o s) (finish_put put refcount nrespages o)
      else done s

  -- What `anon_put` and `shadow_put` do.
  unfoldable pub object_put : (ℕ → Cache W → Ended W) → ℕ → Cache W → Ended W
  unfolding free_pages
  object_put put o s =
      if (s.objects o).refcount == 0
      then panic
      else put_counted put o ((s.objects o).refcount - 1) (s.objects o).nrespages
          (length (s.objects o).respages + 1) (counted_down o s)

  abbrev pub anon_put : (ℕ → Cache W → Ended W) → ℕ → Cache W → Ended W
  anon_put put o s = object_put put o s

  abbrev pub shadow_put : (ℕ → Cache W → Ended W) → ℕ → Cache W → Ended W
  shadow_put put o s = object_put put o s

  -- `mmo_ops->put`, with a bound on the depth of its calls.
  abbrev pub put_by : Kind → (ℕ → Cache W → Ended W) → ℕ → Cache W → Ended W
  put_by vnode deeper o s = done (ops.vnode_put s o)
  put_by anon deeper o s = anon_put deeper o s
  put_by shadow deeper o s = shadow_put deeper o s

  unfoldable pub put : ℕ → ℕ → Cache W → Ended W
  unfolding object_put
  put zero o s = out_of_fuel
  put (suc depth) o s = put_by (s.objects o).kind (put depth) o s

  -- The lists of the frame and the count of `src`, before the `put` of `pframe_migrate`.
  abbrev pub moved_out : ℕ → ℕ → ℕ → Cache W → Cache W
  moved_out pf src dest s =
      let bucket = hash_page ops.hash_size src (s.frames pf).pagenum in
      orphaned pf src (
        set_frame pf (record (s.frames pf) { obj = some dest })
          (record s { hash = update s.hash bucket (remove_item pf (s.hash bucket)) }))

  abbrev pub moved_in : ℕ → ℕ → Cache W → Cache W
  moved_in pf dest s =
      let bucket = hash_page ops.hash_size dest (s.frames pf).pagenum in
      adopted pf dest (record s { hash = update s.hash bucket (pf ∷ s.hash bucket) })

  abbrev pub migrated : ℕ → ℕ → ℕ → ℕ → Option ℕ × Cache W → Ended W
  migrated depth pf src dest (some _, s) = or_panic (pframe_unpin pf s) (λ s1.
      elim (pframe_clean ops pf s1) [ none ↦ panic | some (_, s2) ↦ pframe_free (put depth) pf s2 ])
  migrated depth pf src dest (none, s) =
      then_do (put depth src (moved_out pf src dest s))
        (λ s1. or_panic (ref ops dest (moved_in pf dest s1)) done)

  -- `pframe_migrate`
  unfoldable pub pframe_migrate : ℕ → ℕ → ℕ → Cache W → Ended W
  unfolding put
  pframe_migrate depth pf dest s = elim (s.frames pf).obj [
    | none ↦ panic
    | some src ↦
        if (s.frames pf).busy
        then panic
        else migrated depth pf src dest (pframe_get_resident ops dest (s.frames pf).pagenum s)
  ]
