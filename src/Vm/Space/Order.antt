-- ===== src/Vm/Space/Order.antt =====
-- kernel/vm/vmmap.c: the order of the area list under lookup, the emptiness test and insertion.
use Prim.Native.Nat.{max}
use kernel.Base.{
  ℕ, ◌≤◌, ◌<◌, ◌≡◌, ◌≢◌, inl, inr, refl, true, false, [], ◌∷◌, none, some, ltb, leb, ◌&&◌, ◌||◌,
  if◌then◌else◌, arith, Bool-cases,
}
use kernel.Vm.Area.{Area, AreaList, Within, vmmap_lookup}
use kernel.Vm.Space.{vmmap_insert, is_free}

pub Within-le : (lo hi : ℕ) (m : AreaList) → Within lo hi m → lo ≤ hi
Within-le lo hi [] w = w
Within-le lo hi (vma ∷ rest) w = omega (arith, Within-le vma.end hi rest w.2)

pub Within-mono : (lo lo' hi : ℕ) (m : AreaList) → lo' ≤ lo → Within lo hi m → Within lo' hi m
Within-mono lo lo' hi [] h w = omega arith
Within-mono lo lo' hi (vma ∷ rest) h w = (omega arith, w.1, w.2)

-- A page below every area is in none.
pub lookup_below :
    (lo hi : ℕ) (m : AreaList) (vfn : ℕ) → Within lo hi m → vfn < lo → vmmap_lookup m vfn ≡ none
unfolding vmmap_lookup
lookup_below lo hi [] vfn w h = refl
lookup_below lo hi (vma ∷ rest) vfn w h = ground (arith, lookup_below vma.end hi rest vfn w.2)

-- A page of a free range is in no area.
pub lookup_free :
    (m : AreaList) (a b vfn : ℕ)
    → is_free m a b ≡ true
    → a ≤ vfn
    → vfn < b
    → vmmap_lookup m vfn ≡ none
unfolding vmmap_lookup is_free
lookup_free [] a b vfn e h k = refl
lookup_free (vma ∷ rest) a b vfn e h k = ground (arith, lookup_free rest a b vfn)

-- And a range that is not free has a page in some area.
pub lookup_taken :
    (lo hi : ℕ) (m : AreaList) (a b : ℕ)
    → Within lo hi m
    → a < b
    → is_free m a b ≡ false
    → (vfn : ℕ) × (a ≤ vfn) × (vfn < b) × (vmmap_lookup m vfn ≢ none)
unfolding vmmap_lookup is_free
lookup_taken lo hi [] a b w h e = absurd (ground arith)
lookup_taken lo hi (vma ∷ rest) a b w h e = elim (Bool-cases (leb vma.end a || leb b vma.start)) [
  | inl apart ↦
      let (vfn, ge, lt, found) = lookup_taken vma.end hi rest a b w.2 h (ground arith) in
      (vfn, ge, lt, λ q. found (ground arith))
  | inr meets ↦ (max a vma.start, ground arith, ground arith, ground arith)
]

-- The new area goes in at its place, where the range is free.
pub insert-Within :
    (lo hi : ℕ) (m : AreaList) (v : Area)
    → Within lo hi m
    → lo ≤ v.start
    → v.start < v.end
    → v.end ≤ hi
    → is_free m v.start v.end ≡ true
    → Within lo hi (vmmap_insert m v)
unfolding vmmap_insert is_free
insert-Within lo hi [] v w a b c e = (a, b, c)
insert-Within lo hi (old ∷ rest) v w a b c e = ground (arith, insert-Within old.end hi rest v w.2)

-- After insertion a page of the new area is looked up to it, and any other page as before.
pub lookup-insert :
    (lo hi : ℕ) (m : AreaList) (v : Area) (vfn : ℕ)
    → Within lo hi m
    → v.start < v.end
    → is_free m v.start v.end ≡ true
    → vmmap_lookup (vmmap_insert m v) vfn
      ≡ (if leb v.start vfn && ltb vfn v.end then some v else vmmap_lookup m vfn)
unfolding vmmap_insert vmmap_lookup is_free
lookup-insert lo hi [] v vfn w b e = refl
lookup-insert lo hi (old ∷ rest) v vfn w b e =
    ground (arith, lookup-insert old.end hi rest v vfn w.2)
