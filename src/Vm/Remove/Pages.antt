-- ===== src/Vm/Remove/Pages.antt =====
-- kernel/vm/vmmap.c: an area list seen page by page, and what cutting one area does to it.
use kernel.Base.{
  ℕ, ◌^◌, ◌≤◌, ◌<◌, ◌≡◌, refl, Bool, [], ◌∷◌, ◌++◌, Option, none, some, ltb, leb, ◌&&◌,
  if◌then◌else◌, add32, sub32, arith,
}
use kernel.Vm.Space.Order.{lookup_below}
use kernel.Vm.Area.{Area, AreaList, Flags, Within, vmmap_lookup, pagenum}

-- What a process sees at a page: the page of the mapped object, the protection and the flags.
pub record Mapping : Type 0 where
  pub page : ℕ
  pub prot : ℕ
  pub flags : Flags

abbrev pub mapping : Area → ℕ → Mapping
mapping vma vfn = record { page = pagenum vma vfn; prot = vma.prot; flags = vma.flags }

abbrev map_found : ℕ → Option Area → Option Mapping
map_found vfn none = none
map_found vfn (some vma) = some (mapping vma vfn)

-- The abstract address space: each page's mapping, if it has one.
unfoldable pub page_of : AreaList → ℕ → Option Mapping
page_of m vfn = map_found vfn (vmmap_lookup m vfn)

abbrev pub in_range : ℕ → ℕ → ℕ → Bool
in_range a b vfn = leb a vfn && ltb vfn b

abbrev or_else : Option Mapping → Option Mapping → Option Mapping
or_else none y = y
or_else (some x) y = some x

pub page_of-cons :
    (vma : Area) (m : AreaList) (vfn : ℕ)
    → page_of (vma ∷ m) vfn
      ≡ (if in_range vma.start vma.end vfn then some (mapping vma vfn) else page_of m vfn)
unfolding page_of vmmap_lookup
page_of-cons vma m vfn = ground arith

pub page_of-none : (m : AreaList) (vfn : ℕ) → page_of m vfn ≡ none → vmmap_lookup m vfn ≡ none
unfolding page_of
page_of-none m vfn e = ground arith

pub page_of_unmapped : (m : AreaList) (vfn : ℕ) → vmmap_lookup m vfn ≡ none → page_of m vfn ≡ none
unfolding page_of
page_of_unmapped m vfn e = rw e

-- Two lists that look a page up alike map it alike.
pub page_of-lookup :
    (m m' : AreaList) (vfn : ℕ)
    → vmmap_lookup m vfn ≡ vmmap_lookup m' vfn
    → page_of m vfn ≡ page_of m' vfn
unfolding page_of
page_of-lookup m m' vfn e = rw e

pub page_of-some :
    (m : AreaList) (vma : Area) (vfn : ℕ)
    → vmmap_lookup m vfn ≡ some vma
    → page_of m vfn ≡ some (mapping vma vfn)
unfolding page_of
page_of-some m vma vfn e = rw e

page_of-nil : (vfn : ℕ) → page_of [] vfn ≡ none
unfolding page_of vmmap_lookup
page_of-nil vfn = refl

-- A page below every area is not mapped.
pub page_of_below :
    (lo hi : ℕ) (m : AreaList) (vfn : ℕ) → Within lo hi m → vfn < lo → page_of m vfn ≡ none
unfolding page_of
page_of_below lo hi m vfn w h = rw (lookup_below lo hi m vfn w h)

page_of-append :
    (m k : AreaList) (vfn : ℕ) → page_of (m ++ k) vfn ≡ or_else (page_of m vfn) (page_of k vfn)
page_of-append [] k vfn = ground (arith, page_of-nil vfn)
page_of-append (vma ∷ m) k vfn =
    ground (arith, page_of-cons vma m vfn, page_of-cons vma (m ++ k) vfn, page_of-append m k vfn)

Within-append :
    (lo mid hi : ℕ) (m k : AreaList) → Within lo mid m → Within mid hi k → Within lo hi (m ++ k)
Within-append lo mid hi [] [] v w = omega arith
Within-append lo mid hi [] (x ∷ k) v w = (omega arith, w.1, w.2)
Within-append lo mid hi (vma ∷ m) k v w = (v.0, v.1, Within-append vma.end mid hi m k v.2 w)

-- Dropping pages at the front of an area moves `vma_off` by as many pages.
pagenum_start :
    (off start endvfn vfn : ℕ)
    → start < endvfn
    → endvfn ≤ vfn
    → vfn < 2 ^ 32
    → add32 (add32 off (sub32 endvfn start)) (sub32 vfn endvfn) ≡ add32 off (sub32 vfn start)
unfolding add32 sub32
pagenum_start off start endvfn vfn a b c = omega arith

pagenum_split :
    (off start endvfn vfn : ℕ)
    → start < endvfn
    → endvfn ≤ vfn
    → vfn < 2 ^ 32
    → add32 (sub32 (add32 off endvfn) start) (sub32 vfn endvfn) ≡ add32 off (sub32 vfn start)
unfolding add32 sub32
pagenum_split off start endvfn vfn a b c = omega arith

-- `new` is what is left of `old` when the pages from `startvfn` to `endvfn` are taken out.
pub record Cut (startvfn endvfn lo hi : ℕ) (old new : AreaList) : Type 0 where
  pub within : Within lo hi new
  pub pages :
      (vfn : ℕ)
      → vfn < 2 ^ 32
      → page_of new vfn ≡ (if in_range startvfn endvfn vfn then none else page_of old vfn)

module _ (startvfn endvfn : ℕ) where
  pub Cut-append :
      (lo mid hi : ℕ) (m m' k k' : AreaList)
      → Cut startvfn endvfn lo mid m m'
      → Cut startvfn endvfn mid hi k k'
      → Cut startvfn endvfn lo hi (m ++ k) (m' ++ k')
  Cut-append lo mid hi m m' k k' c d = record {
    within = Within-append lo mid hi m' k' c.within d.within;
    pages = λ vfn h.
        ground
          (arith, page_of-append m k vfn, page_of-append m' k' vfn, c.pages vfn h, d.pages vfn h);
  }

  pub Cut-nil : (lo hi : ℕ) → lo ≤ hi → Cut startvfn endvfn lo hi [] []
  Cut-nil lo hi h = record { within = h; pages = λ vfn k. ground (arith, page_of-nil vfn) }

  module _ (lo : ℕ) (vma : Area) (le : lo ≤ vma.start) (ne : vma.start < vma.end)
      (small : vma.end < 2 ^ 31) where
    abbrev CutsTo : AreaList → Type 0
    CutsTo new = Cut startvfn endvfn lo vma.end (vma ∷ []) new

    pub CutsTo-apart : (startvfn < vma.end → vma.start < endvfn → ⊥) → CutsTo (vma ∷ [])
    CutsTo-apart h = record {
      within = (le, ne, omega arith);
      pages = λ vfn k. ground (arith, page_of-cons vma [] vfn, page_of-nil vfn);
    }

    pub CutsTo-covers : startvfn ≤ vma.start → vma.end ≤ endvfn → CutsTo []
    CutsTo-covers a b = record {
      within = omega arith;
      pages = λ vfn k. ground (arith, page_of-cons vma [] vfn, page_of-nil vfn);
    }

    pub CutsTo-end :
        vma.start < startvfn
        → startvfn ≤ vma.end
        → vma.end ≤ endvfn
        → CutsTo (record vma { end = startvfn } ∷ [])
    unfolding pagenum
    CutsTo-end a b c = record {
      within = (le, a, b);
      pages = λ vfn k. ground (
        arith,
        page_of-cons vma [] vfn,
        page_of-cons (record vma { end = startvfn }) [] vfn,
        page_of-nil vfn,
      );
    }

    -- `vma_off` of the area that begins at `endvfn`.
    abbrev pub Moved : ℕ → Type 0
    Moved off' =
        (vfn : ℕ)
        → endvfn ≤ vfn
        → vfn < 2 ^ 32
        → add32 off' (sub32 vfn endvfn) ≡ add32 vma.off (sub32 vfn vma.start)

    pub CutsTo-start :
        (off' : ℕ) (o : Option ℕ)
        → Moved off'
        → startvfn ≤ vma.start
        → vma.start < endvfn
        → endvfn < vma.end
        → CutsTo (record vma { start = endvfn; off = off'; obj = o } ∷ [])
    unfolding pagenum
    CutsTo-start off' o moved a b c = record {
      within = (omega arith, c, omega arith);
      pages = λ vfn k. ground (
        arith,
        page_of-cons vma [] vfn,
        page_of-cons (record vma { start = endvfn; off = off'; obj = o }) [] vfn,
        page_of-nil vfn,
        λ (g : endvfn ≤ vfn). moved vfn g k,
      );
    }

    pub CutsTo-split :
        (off' : ℕ) (o o' : Option ℕ)
        → Moved off'
        → vma.start < startvfn
        → startvfn ≤ endvfn
        → endvfn < vma.end
        → CutsTo (
            record vma { end = startvfn; obj = o }
            ∷ record vma { start = endvfn; off = off'; obj = o' }
            ∷ [])
    unfolding pagenum
    CutsTo-split off' o o' moved a b c = record {
      within = (le, a, (b, c, omega arith));
      pages = λ vfn k. ground (
        arith,
        page_of-cons vma [] vfn,
        page_of-cons (record vma { end = startvfn; obj = o })
            (record vma { start = endvfn; off = off'; obj = o' } ∷ []) vfn,
        page_of-cons (record vma { start = endvfn; off = off'; obj = o' }) [] vfn,
        page_of-nil vfn,
        λ (g : endvfn ≤ vfn). moved vfn g k,
      );
    }

    pub Moved-start : vma.start < endvfn → Moved (add32 vma.off (sub32 endvfn vma.start))
    Moved-start h vfn = pagenum_start vma.off vma.start endvfn vfn h

    pub Moved-split : vma.start < endvfn → Moved (sub32 (add32 vma.off endvfn) vma.start)
    Moved-split h vfn = pagenum_split vma.off vma.start endvfn vfn h
