-- ===== src/Vm/Map/Pages.antt =====
-- kernel/vm/vmmap.c: `vmmap_map` maps the requested pages and changes no other page.
use kernel.Base.{
  ℕ, ◌+◌, ◌-◌, ◌^◌, ◌≤◌, ◌<◌, ◌≡◌, ◌≢◌, inl, inr, refl, ap, ◌∙◌, true, none, some, if◌then◌else◌,
  add32, add32_small, arith, Bool-cases, sub32,
}
use kernel.Vm.Area.{Area, AreaList, Layout, Within, vmmap_lookup, pagenum}
use kernel.Vm.Objects.{Objects}
use kernel.Vm.Space.{vmmap_insert, insert_asserts, is_free}
use kernel.Vm.Space.Order.{lookup_free, insert-Within, lookup-insert}
use kernel.Vm.Remove.{Removed, vmmap_remove}
use kernel.Vm.Remove.Pages.{
  page_of, page_of-lookup, page_of-some, page_of_unmapped, mapping, in_range,
}
use kernel.Vm.Map.Room.{Room, place-Room, asserted_bounds}
use kernel.Vm.Map.{
  Request, map_asserts, mapped, Placed, at_page, no_room, place, insert_checked, insert_mapping,
  map_at, vmmap_map,
}

page_of_free :
    (m : AreaList) (a b vfn : ℕ) → is_free m a b ≡ true → a ≤ vfn → vfn < b → page_of m vfn ≡ none
page_of_free m a b vfn free ge lt = page_of_unmapped m vfn (lookup_free m a b vfn free ge lt)

module _ {S : Type 0} (ops : Objects S) (l : Layout) (small : l.high < 2 ^ 31) where
  -- The area that `map_at` inserts.
  map_at-mapped :
      (s s' : S) (m m' : AreaList) (r : Request) (start : ℕ) (v : Area)
      → map_at ops l s m r start ≡ mapped s' m' v
      → (m' ≡ vmmap_insert m v)
        × (insert_asserts l v ≡ true)
        × (v ≡ record {
          start = start;
          end = add32 start r.npages;
          off = r.off;
          prot = r.prot;
          flags = r.flags;
          obj = v.obj;
        })
  unfolding map_at insert_mapping insert_checked
  map_at-mapped s s' m m' r start v e = ground arith

  -- A mapping that was made had a place.
  vmmap_map-placed :
      (s s' : S) (m m' : AreaList) (r : Request) (v : Area)
      → vmmap_map ops l s m r ≡ mapped s' m' v
      → (start : ℕ) × (s1 : S) × (m1 : AreaList) × (map_asserts l r ≡ true)
        × (place ops l s m r ≡ at_page start s1 m1)
        × (map_at ops l s1 m1 r start ≡ mapped s' m' v)
  unfolding vmmap_map
  vmmap_map-placed s s' m m' r v e = by_place (place ops l s m r) refl
    where
      by_place :
          (q : Placed S)
          → place ops l s m r ≡ q
          → (start : ℕ) × (s1 : S) × (m1 : AreaList) × (map_asserts l r ≡ true)
            × (place ops l s m r ≡ at_page start s1 m1)
            × (map_at ops l s1 m1 r start ≡ mapped s' m' v)
      by_place (at_page start s1 m1) q = (start, s1, m1, ground arith, q, ground arith)
      by_place no_room q = absurd (ground arith)
      by_place Placed.fault q = absurd (ground arith)

  -- The pages after the insertion of an area into a free range.
  insert-pages :
      (m : AreaList) (npages : ℕ) (m1 : AreaList) (v : Area)
      → Room ops l small m npages v.start m1
      → v.end ≡ v.start + npages
      → v.start < v.end
      → Within l.low l.high (vmmap_insert m1 v)
        × ((vfn : ℕ)
            → vfn < 2 ^ 32
            → page_of (vmmap_insert m1 v) vfn
              ≡ (if in_range v.start v.end vfn then some (mapping v vfn) else page_of m vfn))
  insert-pages m npages m1 v room ends ne = (
    insert-Within l.low l.high m1 v room.within room.fits.0 ne (omega (arith, room.fits.1)) free,
    λ vfn k. elim (Bool-cases (in_range v.start v.end vfn)) [
      | inl within ↦ rw within (page_of-some (vmmap_insert m1 v) v vfn (found vfn ∙ rw within))
      | inr out ↦ rw out (
          page_of-lookup (vmmap_insert m1 v) m1 vfn (found vfn ∙ rw out)
          ∙ room.others vfn k (rw ends at out))
    ],
  )
    where
      free : is_free m1 v.start v.end ≡ true
      free = rw ends room.fits.2

      found :
          (vfn : ℕ)
          → vmmap_lookup (vmmap_insert m1 v) vfn
            ≡ (if in_range v.start v.end vfn then some v else vmmap_lookup m1 vfn)
      found vfn = lookup-insert l.low l.high m1 v vfn room.within ne free

  -- A successful `vmmap_map` maps exactly the pages of the new area, which starts at the requested
  -- page if one was given and in a free range otherwise, to the requested pages of the object with
  -- the requested protection and flags. Every other page keeps its mapping, and the areas stay in
  -- order, disjoint and inside the user part. The list before is well formed, the request asks for at
  -- most as many pages as the user part has, its page numbers do not wrap, and the removal of what
  -- was mapped there, whose result the code ignores, does not fail.
  pub map_pages :
      (s s' : S) (m m' : AreaList) (r : Request) (v : Area)
      → Within l.low l.high m
      → r.npages ≤ l.high - l.low
      → r.lopage + r.npages < 2 ^ 32
      → ((s1 : S) (m1 : AreaList) → vmmap_remove ops l s m r.lopage r.npages ≢ Removed.failed s1 m1)
      → vmmap_map ops l s m r ≡ mapped s' m' v
      → Within l.low l.high m'
        × (v.end ≡ v.start + r.npages)
        × (r.lopage ≢ 0 → v.start ≡ r.lopage)
        × (r.lopage ≡ 0 → (vfn : ℕ) → v.start ≤ vfn → vfn < v.end → page_of m vfn ≡ none)
        × ((vfn : ℕ)
            → vfn < 2 ^ 32
            → page_of m' vfn ≡ (
                if in_range v.start v.end vfn
                then some (record {
                  page = add32 r.off (sub32 vfn v.start);
                  prot = r.prot;
                  flags = r.flags;
                })
                else page_of m vfn))
  unfolding pagenum
  map_pages s s' m m' r v w le fits removes e =
      let (start, s1, m1, asserted, placed, made) = vmmap_map-placed s s' m m' r v e in
      let (given, unset, room) =
        place-Room ops l small s s1 m m1 r start w le asserted fits removes placed in
      let (m'_eq, _, v_eq) = map_at-mapped s1 s' m1 m' r start v made in
      let start_eq : v.start ≡ start = ap (λ (a : Area). a.start) v_eq in
      let positive = (asserted_bounds ops l small r asserted fits).0 in
      let end_eq : v.end ≡ v.start + r.npages =
        ground (arith, v_eq, room.fits.1, add32_small start r.npages) in
      let (w', pages) = insert-pages m r.npages m1 v (rw start_eq room) end_eq (omega arith) in
      (
        rw m'_eq w',
        end_eq,
        (λ h. start_eq ∙ given h),
        (λ z vfn ge lt.
            page_of_free m v.start v.end vfn (rw (end_eq, start_eq, ← unset z) room.fits.2) ge lt),
        (λ vfn k. rw m'_eq (pages vfn k ∙ ground (arith, v_eq))),
      )
