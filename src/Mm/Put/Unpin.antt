-- ===== src/Mm/Put/Unpin.antt =====
-- kernel/vm/anon.c, kernel/vm/shadow.c: the pins that a `put` takes away before it frees a page.
use kernel.Base.{
  ℕ, zero, suc, ◌-◌, ◌≡◌, ◌≢◌, refl, ap, ◌∙◌, true, false, some, arith, if◌then◌else◌,
}
use kernel.Mm.Cache.{Cache, is_free, is_pinned}
use kernel.Mm.Frames.{set_pincount, pframe_unpin}
use kernel.Mm.Frames.Invariant.{Inv}
use kernel.Mm.Frames.Pinning.{pframe_unpin-Inv}
use kernel.Mm.Put.{and_then, unpin_all}

-- The states differ in the pins of `pf` and in the lists that hold it.
pub record Unpinned {W : Type 0} (size pf : ℕ) (s t : Cache W) : Type 0 where
  pub inv : Inv size t
  pub others : (q : ℕ) → q ≢ pf → t.frames q ≡ s.frames q
  pub same_obj : (t.frames pf).obj ≡ (s.frames pf).obj
  pub same_busy : (t.frames pf).busy ≡ (s.frames pf).busy
  pub loose : (t.frames pf).pincount ≡ 0
  pub same_objects : t.objects ≡ s.objects

module _ {W : Type 0} (size : ℕ) where
  after_unpin :
      (n pf : ℕ) (s s1 : Cache W)
      → is_pinned (s.frames pf) ≡ true
      → pframe_unpin pf s ≡ some s1
      → ((q : ℕ) → s1.frames q ≡ (set_pincount pf ((s.frames pf).pincount - 1) s).frames q)
      → s1.objects ≡ s.objects
      → ((t : Cache W) × (unpin_all n pf s1 ≡ some t) × Unpinned size pf s1 t)
      → (t : Cache W) × (unpin_all (suc n) pf s ≡ some t) × Unpinned size pf s t
  unfolding unpin_all
  after_unpin n pf s s1 held unpin frames objects (t, rest, u) = (
    t,
    ap (λ b. if b then and_then (pframe_unpin pf s) (unpin_all n pf) else some s) held
        ∙ ap (λ r. and_then r (unpin_all n pf)) unpin
        ∙ rest,
    record {
      inv = u.inv;
      others = λ q other. u.others q other ∙ ground (arith, frames q, other);
      same_obj = u.same_obj ∙ ground (arith, frames pf);
      same_busy = u.same_busy ∙ ground (arith, frames pf);
      loose = u.loose;
      same_objects = u.same_objects ∙ objects;
    },
  )

  -- As many unpins as the frame has pins leave it unpinned.
  pub unpin_all-lem :
      (n pf : ℕ) (s : Cache W)
      → (s.frames pf).pincount ≡ n
      → is_free (s.frames pf) ≡ false
      → Inv size s
      → (t : Cache W) × (unpin_all n pf s ≡ some t) × Unpinned size pf s t
  unfolding unpin_all
  unpin_all-lem zero pf s pins used v = (
    s,
    refl,
    record {
      inv = v;
      others = λ q _. refl;
      same_obj = refl;
      same_busy = refl;
      loose = pins;
      same_objects = refl;
    },
  )
  unpin_all-lem (suc n) pf s pins used v =
      let held : is_pinned (s.frames pf) ≡ true = ground (arith, pins) in
      let (s1, unpin, v1, frames, objects) = pframe_unpin-Inv size pf s used held v in
      after_unpin n pf s s1 held unpin frames objects (
        unpin_all-lem n pf s1 (ground (arith, frames pf, pins)) (ground (arith, frames pf, used))
          v1)
