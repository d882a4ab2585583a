-- ===== src/Vm/Map/Room.antt =====
-- kernel/vm/vmmap.c: where `vmmap_map` puts the new area.
use kernel.Base.{
  ℕ, ◌+◌, ◌-◌, ◌^◌, ◌≤◌, ◌<◌, ◌≡◌, ◌≢◌, inl, inr, refl, true, false, none, some, leb, ◌==◌, ◌⊎◌,
  minus_one, add32, add32_small, arith, Bool-cases, ℕ_discrete,
}
use kernel.Vm.Area.{AreaList, Layout, Within}
use kernel.Vm.Objects.{Objects}
use kernel.Vm.Space.{vmmap_is_range_empty, in_user_part, is_free, vmmap_find_range}
use kernel.Vm.Space.Order.{lookup_taken}
use kernel.Vm.Space.Gaps.{Fits, Before, find_range_first}
use kernel.Vm.Remove.{Removed, done, vmmap_remove}
use kernel.Vm.Remove.Loop.{remove_pages}
use kernel.Vm.Remove.Pages.{page_of, page_of-none, in_range}
use kernel.Vm.Map.{Request, map_asserts, Placed, at_page, clear_range, place}

-- A range is free when none of its pages is mapped.
free_of_pages :
    (lo hi : ℕ) (m : AreaList) (a b : ℕ)
    → Within lo hi m
    → a < b
    → ((vfn : ℕ) → a ≤ vfn → vfn < b → page_of m vfn ≡ none)
    → is_free m a b ≡ true
free_of_pages lo hi m a b w h empty = elim (Bool-cases (is_free m a b)) [
  | inl free ↦ free
  | inr taken ↦
      let (vfn, ge, lt, found) = lookup_taken lo hi m a b w h taken in
      absurd (found (page_of-none m vfn (empty vfn ge lt)))
]

fault-ne-at_page :
    {S : Type 0} (start : ℕ) (s : S) (m : AreaList)
    → ◌≢◌ {A = Placed S} Placed.fault (at_page start s m)
fault-ne-at_page start s m e = cc

no_room-ne-at_page :
    {S : Type 0} (start : ℕ) (s : S) (m : AreaList)
    → ◌≢◌ {A = Placed S} Placed.no_room (at_page start s m)
no_room-ne-at_page start s m e = cc

module _ {S : Type 0} (ops : Objects S) (l : Layout) (small : l.high < 2 ^ 31) where
  -- Where the mapping can go: the range is free there, and the other pages are as before.
  pub record Room (m : AreaList) (npages start : ℕ) (m' : AreaList) : Type 0 where
    pub within : Within l.low l.high m'
    pub fits : Fits l m' npages start
    pub others :
        (vfn : ℕ)
        → vfn < 2 ^ 32
        → in_range start (start + npages) vfn ≡ false
        → page_of m' vfn ≡ page_of m vfn

  module _ (s : S) (m : AreaList) (lopage npages : ℕ) (w : Within l.low l.high m) (pos : 0 < npages)
      (low : l.low ≤ lopage) (high : lopage + npages ≤ l.high) where
    removed-Room :
        (s1 : S) (m1 : AreaList)
        → vmmap_remove ops l s m lopage npages ≡ done s1 m1
        → Room m npages lopage m1
    removed-Room s1 m1 e =
        let (w1, pages) = remove_pages ops l s s1 m m1 lopage npages small (omega arith) w e in
        record {
          within = w1;
          fits = (
            low,
            high,
            free_of_pages l.low l.high m1 lopage (lopage + npages) w1 (omega arith)
                (λ vfn ge lt. ground (arith, pages vfn)),
          );
          others = λ vfn k out. ground (arith, pages vfn k);
        }

    range_asserted : in_user_part l lopage (add32 lopage npages) ≡ true
    range_asserted = ground (arith, add32_small lopage npages (omega arith))

    clear_range-Room :
        (s' : S) (m' : AreaList) (start : ℕ)
        → ((s1 : S) (m1 : AreaList) → vmmap_remove ops l s m lopage npages ≢ Removed.failed s1 m1)
        → clear_range ops l s m lopage npages ≡ at_page start s' m'
        → (start ≡ lopage) × Room m npages start m'
    unfolding clear_range vmmap_is_range_empty
    clear_range-Room s' m' start removes e =
        elim (Bool-cases (is_free m lopage (add32 lopage npages))) [
          | inl free ↦
              let e' : at_page lopage s m ≡ at_page start s' m' =
                rw (range_asserted, free, clear_range) at e in
              let here : start ≡ lopage = cc in
              let same : m' ≡ m = cc in
              (
                here,
                rw (here, same)
                    (record {
                      within = w;
                      fits = (low, high, rw (add32_small lopage npages (omega arith)) at free);
                      others = λ vfn k out. refl;
                    }),
              )
          | inr taken ↦ by_removal (vmmap_remove ops l s m lopage npages) refl taken
        ]
      where
        by_removal :
            (q : Removed S)
            → vmmap_remove ops l s m lopage npages ≡ q
            → is_free m lopage (add32 lopage npages) ≡ false
            → (start ≡ lopage) × Room m npages start m'
        by_removal (done s1 m1) eq taken =
            let e' : at_page lopage s1 m1 ≡ at_page start s' m' =
              rw (range_asserted, taken, eq, clear_range) at e in
            let here : start ≡ lopage = cc in
            let same : m' ≡ m1 = cc in (here, rw (here, same) (removed-Room s1 m1 eq))
        by_removal (Removed.failed s1 m1) eq taken = absurd (removes s1 m1 eq)
        by_removal Removed.panic eq taken =
            absurd (fault-ne-at_page start s' m' (rw (range_asserted, taken, eq, clear_range) at e))
        by_removal Removed.out_of_fuel eq taken =
            absurd (fault-ne-at_page start s' m' (rw (range_asserted, taken, eq, clear_range) at e))

  pub asserted_bounds :
      (r : Request)
      → map_asserts l r ≡ true
      → r.lopage + r.npages < 2 ^ 32
      → (0 < r.npages) × (r.lopage ≢ 0 → (l.low ≤ r.lopage) × (r.lopage + r.npages ≤ l.high))
  unfolding map_asserts
  asserted_bounds r e fits =
      (ground arith, λ h. (ground arith, ground (arith, add32_small r.lopage r.npages fits)))

  -- The place is the requested one, or, where none is requested, a free range of the list.
  module _ (s s' : S) (m m' : AreaList) (r : Request) (start : ℕ) (w : Within l.low l.high m)
      (le : r.npages ≤ l.high - l.low) (asserted : map_asserts l r ≡ true)
      (fits : r.lopage + r.npages < 2 ^ 32)
      (removes : (s1 : S) (m1 : AreaList)
        → vmmap_remove ops l s m r.lopage r.npages ≢ Removed.failed s1 m1)
      (placed : place ops l s m r ≡ at_page start s' m') where
    abbrev pub Places : Type 0
    Places = (r.lopage ≢ 0 → start ≡ r.lopage) × (r.lopage ≡ 0 → m' ≡ m) × Room m r.npages start m'

    place_given : r.lopage ≢ 0 → (r.lopage == 0) ≡ false → Places
    unfolding place
    place_given h given =
        let bounds : (l.low ≤ r.lopage) × (r.lopage + r.npages ≤ l.high) =
          (asserted_bounds r asserted fits).1 h in
        let (here, room) =
          clear_range-Room s m r.lopage r.npages w (asserted_bounds r asserted fits).0 bounds.0
            bounds.1 s' m' start removes (rw (given, place) at placed) in
        ((λ _. here), (λ e. absurd (h e)), room)

    place_found :
        (found : ℕ)
        → vmmap_find_range l m r.npages r.dir ≡ some found
        → r.lopage ≡ 0
        → (r.lopage == 0) ≡ true
        → ((found ≡ minus_one) × ((x : ℕ) → ¬ Fits l m r.npages x))
          ⊎ (Fits l m r.npages found × ((x : ℕ) → Fits l m r.npages x → Before r.dir found x))
        → Places
    unfolding place
    place_found found eq z unset (inl (missing, _)) =
        let negative : leb (2 ^ 31) found ≡ true = ground arith in
        absurd (no_room-ne-at_page start s' m' (rw (unset, eq, negative, place) at placed))
    place_found found eq z unset (inr (free, _)) =
        let positive : leb (2 ^ 31) found ≡ false = ground arith in
        let e : at_page found s m ≡ at_page start s' m' =
          rw (unset, eq, positive, place) at placed in
        let here : start ≡ found = cc in
        let same : m' ≡ m = cc in
        (
          (λ h. absurd (h z)),
          (λ _. same),
          rw (here, same) (record { within = w; fits = free; others = λ vfn k out. refl }),
        )

    pub place-Room : Places
    place-Room = elim (ℕ_discrete r.lopage 0) [
      | yes z ↦
          let (found, eq, first) =
            find_range_first l small r.npages (asserted_bounds r asserted fits).0 m r.dir w
              (λ _. le) in
          place_found found eq z (ground arith) first
      | no h ↦ place_given h (ground arith)
    ]
