-- ===== src/Vm/Tests.antt =====
-- kernel/vm/vmmap.c and kernel/api/access.c on a small address space: runs, and the theorems at inputs that meet their
-- hypotheses.
use kernel.Base.{
  ℕ, zero, suc, Bool, ◌+◌, ◌*◌, ◌<◌, ◌≤◌, ◌≡◌, ◌≢◌, ◌⊎◌, refl, true, false, [], ◌∷◌, Option, none,
  some, arith, minus_one, add32, sub32,
}
use kernel.Vm.Access.{range_perm, addr_perm, range_perm_addresses}
use kernel.Vm.Area.{Area, AreaList, Flags, Layout, pagenum, vmmap_lookup}
use kernel.Vm.Objects.{Objects, FileMapped}
use kernel.Vm.Space.{lohi, hilo, vmmap_find_range}
use kernel.Vm.Space.Gaps.{Fits, find_range_first}
use kernel.Vm.Remove.{Removed, done, vmmap_remove}
use kernel.Vm.Remove.Pages.{page_of}
use kernel.Vm.Remove.Loop.{remove_pages}
use kernel.Vm.Remove.Failure.{LostTo, remove_outcome}
use kernel.Vm.Map.{Request, Mapped, vmmap_map}
use kernel.Vm.Map.Pages.{map_pages}

-- The state is the number of the next object, and of allocations that still succeed.
abbrev pub Stock : Type 0
Stock = ℕ × ℕ

abbrev pub take_object : Stock → Option ℕ × Stock
take_object (next, zero) = (none, (next, zero))
take_object (next, suc left) = (some next, (suc next, left))

abbrev pub counting : Objects Stock
counting = record {
  area_alloc = λ s. (true, s);
  area_free = λ s. s;
  anon_create = take_object;
  file_mmap = λ s f v. FileMapped.object f s;
  shadow_create = take_object;
  shadow_over = λ s a b c. s;
  bottom_obj = λ s o. o;
  refcount = λ s o. 1;
  ref = λ s o. s;
  put = λ s o. s;
  unmap_range = λ s a b. s;
}

abbrev pub user : Layout
user = record { low = 1024; high = 786432; prot_valid = λ p. true }

abbrev pub private_map : Flags
private_map = record { is_private = true; is_shared = false }

abbrev pub area : ℕ → ℕ → Area
area a b = record { start = a; end = b; off = 7; prot = 3; flags = private_map; obj = some 1 }

abbrev pub two_areas : AreaList
two_areas = area 1024 1030 ∷ area 2000 2010 ∷ []

find_range_up : vmmap_find_range user two_areas 900 lohi ≡ some 1030
unfolding vmmap_find_range
find_range_up = refl

find_range_down : vmmap_find_range user two_areas 900 hilo ≡ some 785532
unfolding vmmap_find_range
find_range_down = refl

find_range_first_example :
    (r : ℕ) × (vmmap_find_range user two_areas 900 lohi ≡ some r)
    × (((r ≡ minus_one) × ((s : ℕ) → ¬ Fits user two_areas 900 s))
        ⊎ (Fits user two_areas 900 r × ((s : ℕ) → Fits user two_areas 900 s → r ≤ s)))
find_range_first_example =
    find_range_first user (omega arith) 900 (omega arith) two_areas lohi (omega arith)
      λ e. absurd (cc)

abbrev pub cut_areas : AreaList
cut_areas =
    area 1024 1030
    ∷ record (area 2000 2003) { obj = some 10 }
    ∷ record (area 2006 2010) { obj = some 11; off = 13 }
    ∷ []

pub remove_runs : vmmap_remove counting user (10, 5) two_areas 2003 3 ≡ done (12, 3) cut_areas
unfolding vmmap_remove
remove_runs = refl

remove_pages_example :
    page_of cut_areas 2007 ≡ some (record { page = 14; prot = 3; flags = private_map })
unfolding page_of pagenum vmmap_lookup
remove_pages_example =
    (remove_pages counting user (10, 5) (12, 3) two_areas cut_areas 2003 3 (omega arith)
        (omega arith) (omega arith) remove_runs).1
      2007 (omega arith)

-- The second shadow object is refused: the call fails, and pages 2006 to 2009 are lost as well.
abbrev cut_short : AreaList
cut_short = area 1024 1030 ∷ record (area 2000 2003) { obj = some 1 } ∷ []

remove_fails :
    vmmap_remove counting user (10, 1) two_areas 2003 3 ≡ Removed.failed (11, 0) cut_short
unfolding vmmap_remove
remove_fails = refl

remove_outcome_example :
    ((s' : Stock) × (m' : AreaList) × (vmmap_remove counting user (10, 1) two_areas 2003 3
        ≡ done s' m'))
    ⊎ ((s' : Stock) × (m' : AreaList) × (b : ℕ) × (vmmap_remove counting user
            (10, 1)
            two_areas
            2003
            3
          ≡ Removed.failed s' m')
        × LostTo 2003 2006 b two_areas m')
remove_outcome_example =
    remove_outcome counting user (10, 1) two_areas 2003 3 (omega arith) (omega arith)
      ((λ e. cc), ((λ e. cc), tt))

-- A private anonymous mapping over part of the second area.
abbrev request : Request
request = record {
  file = none;
  lopage = 2003;
  npages = 3;
  prot = 1;
  flags = private_map;
  off = 40;
  dir = hilo;
}

abbrev mapped_area : Area
mapped_area = record {
  start = 2003;
  end = 2006;
  off = 40;
  prot = 1;
  flags = private_map;
  obj = some 13;
}

abbrev mapped_areas : AreaList
mapped_areas =
    area 1024 1030
    ∷ record (area 2000 2003) { obj = some 10 }
    ∷ mapped_area
    ∷ record (area 2006 2010) { obj = some 11; off = 13 }
    ∷ []

map_runs :
    vmmap_map counting user (10, 5) two_areas request
    ≡ Mapped.mapped (14, 1) mapped_areas mapped_area
unfolding vmmap_map
map_runs = refl

removes :
    (s : Stock) (m : AreaList)
    → vmmap_remove counting user (10, 5) two_areas 2003 3 ≢ Removed.failed s m
unfolding vmmap_remove
removes s m e = cc

map_pages_example :
    page_of mapped_areas 2004 ≡ some (record { page = 41; prot = 1; flags = private_map })
unfolding add32 sub32
map_pages_example =
    (map_pages counting user (omega arith) (10, 5) (14, 1) two_areas mapped_areas request
        mapped_area (omega arith) (omega arith) (omega arith) removes map_runs).4
      2004 (omega arith)

-- Two addresses of the first area, from page 1024 on.
range_perm_addresses_example :
    (b : Bool) × (range_perm two_areas (1024 * 4096 + 5) 5000 1 ≡ some b)
    × (b ≡ true
        → (a : ℕ) → 1024 * 4096 + 5 ≤ a
        → a < 1024 * 4096 + 5005
        → addr_perm two_areas a 1 ≡ true)
    × (((a : ℕ) → 1024 * 4096 + 5 ≤ a → a < 1024 * 4096 + 5005 → addr_perm two_areas a 1 ≡ true)
        → b ≡ true)
range_perm_addresses_example =
    range_perm_addresses two_areas (1024 * 4096 + 5) 5000 1 (omega arith) (omega arith)
