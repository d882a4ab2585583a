-- ===== src/Mm/Put/Release.antt =====
-- kernel/vm/anon.c, kernel/vm/shadow.c: the last `put` of an object frees its pages and the object.
use kernel.Base.{
  ℕ, suc, ◌<◌, ◌≡◌, ◌≢◌, refl, sym, ◌∙◌, false, List, [], ◌∷◌, none, some, arith, length, occurs,
  take_last, occurs-take_last,
}
use kernel.Mm.Cache.{Cache, Machine}
use kernel.Mm.Frames.Invariant.{Inv}
use kernel.Mm.Frames.Resident.{is_of-some}
use kernel.Mm.Put.{last_of}

-- The state `t` in which the object `o` of `s` has neither pages nor references, and all else is as
-- it was.
pub record Emptied {W : Type 0} (size o : ℕ) (s t : Cache W) : Type 0 where
  pub inv : Inv size t
  pub freed : (pf : ℕ) → (s.frames pf).obj ≡ some o → (t.frames pf).obj ≡ none
  pub others : (pf : ℕ) → (s.frames pf).obj ≢ some o → t.frames pf ≡ s.frames pf
  pub no_refs : (t.objects o).refcount ≡ 0
  pub no_pages : (t.objects o).nrespages ≡ 0
  pub same_below : (t.objects o).shadowed ≡ (s.objects o).shadowed
  pub same_objects : (p : ℕ) → p ≢ o → t.objects p ≡ s.objects p

-- No page of the object is busy.
abbrev pub Idle : {W : Type 0} → ℕ → Cache W → Type 0
Idle o s = (pf : ℕ) → (s.frames pf).obj ≡ some o → (s.frames pf).busy ≡ false

last_of-occurs :
    (n : ℕ) (l : List ℕ) → length l ≡ suc n → (pf : ℕ) × (last_of l ≡ some pf) × (0 < occurs pf l)
last_of-occurs n [] h = absurd (omega (arith, h))
last_of-occurs n (v ∷ l) h =
    let pf = (take_last v l).0 in (pf, refl, ground (arith, occurs-take_last pf v l))

module _ {W : Type 0} (ops : Machine W) where
  -- The last page of an object that has one.
  last_page :
      (n o : ℕ) (s : Cache W)
      → (s.objects o).nrespages ≡ suc n
      → Inv ops.hash_size s
      → (pf : ℕ) × (last_of (s.objects o).respages ≡ some pf) × ((s.frames pf).obj ≡ some o)
  last_page n o s pages v =
      let (pf, last, on) =
        last_of-occurs n (s.objects o).respages (sym (v.indexed.sized o) ∙ pages) in
      (pf, last, is_of-some o (s.frames pf).obj (ground (arith, v.indexed.owned o pf, on)))

  -- The object after one page is freed, which `t` has lost its pins of.
  abbrev pub OneLess : ℕ → ℕ → ℕ → Cache W → Cache W → Type 0
  OneLess n o pf s t =
      ((t.objects o).kind ≡ (s.objects o).kind)
      × ((t.objects o).shadowed ≡ (s.objects o).shadowed)
      × ((t.objects o).refcount ≡ suc n)
      × ((t.objects o).nrespages ≡ n)
      × ((t.frames pf).obj ≡ none)
      × ((q : ℕ) → q ≢ pf → t.frames q ≡ s.frames q)
      × ((p : ℕ) → p ≢ o → t.objects p ≡ s.objects p)
