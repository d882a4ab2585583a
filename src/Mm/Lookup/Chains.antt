-- ===== src/Mm/Lookup/Chains.antt =====
-- kernel/vm/shadow.c: a read through a chain of shadow objects finds the first resident page.
use kernel.Base.{
  ℕ, zero, suc, ◌<◌, ◌≡◌, ◌≢◌, refl, sym, ap, ◌∙◌, Bool, true, false, Option, some, arith,
}
use kernel.Mm.Cache.{Kind, Cache, Machine, anon, shadow, vnode, holds}
use kernel.Mm.Frames.{touched}
use kernel.Mm.Frames.Invariant.{Inv}
use kernel.Mm.Frames.Resident.{absent, present}
use kernel.Mm.Lookup.{
  Got, unless_busy, if_found, if_resident, pframe_get, walk_chain, shadow_lookuppage, lookup_by,
  pframe_lookup,
}

abbrev pub Absent : {W : Type 0} → ℕ → ℕ → Cache W → Type 0
Absent o pagenum s = (q : ℕ) → holds o pagenum (s.frames q) ≡ false

-- The frame `pf` is the first that holds the page along the chain of objects from `o`, after `d`
-- shadow objects that have no page of that number.
abbrev pub Sees : {W : Type 0} → ℕ → ℕ → ℕ → ℕ → Cache W → Type 0
Sees zero o pagenum pf s = holds o pagenum (s.frames pf) ≡ true
Sees (suc d) o pagenum pf s =
    ((s.objects o).kind ≡ shadow)
    × Absent o pagenum s
    × ((below : ℕ) × ((s.objects o).shadowed ≡ some below) × Sees d below pagenum pf s)

abbrev is_shadow : Kind → Bool
is_shadow shadow = true
is_shadow anon = false
is_shadow vnode = false

anon_not_shadow : anon ≢ shadow
anon_not_shadow e = ground (arith, ap is_shadow e)

vnode_not_shadow : vnode ≢ shadow
vnode_not_shadow e = ground (arith, ap is_shadow e)

module _ {W : Type 0} (ops : Machine W) where
  abbrev next_of : (ℕ → ℕ → Bool → Cache W → Got W) → ℕ → Option ℕ → ℕ → ℕ → Cache W → Got W
  next_of look rounds bottom o pagenum s =
      walk_chain ops look rounds bottom (s.objects o).shadowed pagenum s

  walk-Sees :
      (look : ℕ → ℕ → Bool → Cache W → Got W) (d rounds : ℕ) (bottom : Option ℕ) (o pagenum pf : ℕ)
      (s : Cache W)
      → Inv ops.hash_size s
      → d < rounds
      → Sees d o pagenum pf s
      → walk_chain ops look rounds bottom (some o) pagenum s ≡ unless_busy pf (touched pf s)
  unfolding walk_chain
  walk-Sees look d zero bottom o pagenum pf s v lt sees = absurd (omega arith)
  walk-Sees look zero (suc rounds) bottom o pagenum pf s v lt sees =
      ap (λ r. if_found r (next_of look rounds bottom o pagenum))
        (present ops o pagenum pf s v sees)
  walk-Sees look (suc d) (suc rounds) bottom o pagenum pf s v lt (_, missing, (below, next, sees)) =
      ap (λ r. if_found r (next_of look rounds bottom o pagenum)) (absent ops o pagenum s missing)
      ∙ ap (λ x. walk_chain ops look rounds bottom x pagenum s) next
      ∙ walk-Sees look d rounds bottom below pagenum pf s v (omega arith) sees

  get-present :
      (look : ℕ → ℕ → Bool → Cache W → Got W) (o pagenum pf : ℕ) (s : Cache W)
      → Inv ops.hash_size s
      → holds o pagenum (s.frames pf) ≡ true
      → pframe_get ops look o pagenum s ≡ unless_busy pf (touched pf s)
  unfolding pframe_get
  get-present look o pagenum pf s v held =
      ap (if_resident ops look o pagenum) (present ops o pagenum pf s v held)

  lookup_by-Sees :
      (k : Kind) (look : ℕ → ℕ → Bool → Cache W → Got W) (d depth o pagenum pf : ℕ) (s : Cache W)
      → (s.objects o).kind ≡ k
      → Inv ops.hash_size s
      → d < depth
      → Sees d o pagenum pf s
      → lookup_by ops k look depth o pagenum false s ≡ unless_busy pf (touched pf s)
  unfolding shadow_lookuppage
  lookup_by-Sees shadow look d depth o pagenum pf s kind v lt sees =
      walk-Sees look d depth (s.objects o).bottom_obj o pagenum pf s v lt sees
  lookup_by-Sees anon look zero depth o pagenum pf s kind v lt sees =
      get-present look o pagenum pf s v sees
  lookup_by-Sees vnode look zero depth o pagenum pf s kind v lt sees =
      get-present look o pagenum pf s v sees
  lookup_by-Sees anon look (suc d) depth o pagenum pf s kind v lt (k, _, _) =
      absurd (anon_not_shadow (sym kind ∙ k))
  lookup_by-Sees vnode look (suc d) depth o pagenum pf s kind v lt (k, _, _) =
      absurd (vnode_not_shadow (sym kind ∙ k))

  -- A lookup for reading gives the first frame along the chain that holds the page, or waits for it
  -- when it is busy; no frame changes.
  pub lookup-Sees :
      (d depth o pagenum pf : ℕ) (s : Cache W)
      → Inv ops.hash_size s
      → d < depth
      → Sees d o pagenum pf s
      → pframe_lookup ops (suc depth) o pagenum false s ≡ unless_busy pf (touched pf s)
  unfolding pframe_lookup
  lookup-Sees d depth o pagenum pf s v lt sees =
      lookup_by-Sees (s.objects o).kind (pframe_lookup ops depth) d depth o pagenum pf s refl v lt
        sees
