-- ===== src/Mm/Frames/Lifetime.antt =====
-- kernel/mm/pframe.c: a frame from `pframe_alloc` to `pframe_free`.
use kernel.Base.{
  ℕ, ◌+◌, ◌<◌, ◌≡◌, ◌≢◌, refl, ap, ◌∙◌, Bool, true, false, [], ◌∷◌, Option, none, some, ◌==◌,
  if◌then◌else◌, arith, occurs, occurs-append, occurs-remove_item, length-append,
  length-remove_item,
}
use kernel.Mm.Cache.{
  Kind, counts, Cache, Machine, anon, shadow, vnode, is_free, is_pinned, holds, hash_page,
  set_world,
}
use kernel.Mm.Frames.{
  linked_frame, adopted, counted_up, unlinked_frame, orphaned, uncached, ref_by, taken, with_page,
  with_slab, ref, count_ref, pframe_alloc, unmapped, pframe_remove_from_pts,
}
use kernel.Mm.Frames.Invariant.{Linked, Indexed, Inv, same-Linked, same-Indexed}

module _ {W : Type 0} where
  -- The state in which `pframe_alloc` has made the frame `pf`.
  abbrev pub installed : ℕ → ℕ → ℕ → ℕ → Cache W → Cache W
  installed size pf o pagenum s = adopted pf o (counted_up o (linked_frame size pf o pagenum s))

  installed-Linked :
      (size pf o pagenum : ℕ) (s : Cache W)
      → is_free (s.frames pf) ≡ true
      → Linked s
      → Linked (installed size pf o pagenum s)
  unfolding occurs
  installed-Linked size pf o pagenum s unused v = record {
    allocated =
        λ q. ground (arith, v.allocated q, v.allocated pf, occurs-append q s.alloc_list (pf ∷ []));
    pinned = λ q. ground (arith, v.pinned q, v.pinned pf);
    alloc_count = omega (arith, v.alloc_count, length-append s.alloc_list (pf ∷ []));
    pin_count = v.pin_count;
  }

  installed-Indexed :
      (size pf o pagenum : ℕ) (s : Cache W)
      → (s.frames pf).obj ≡ none
      → ((q : ℕ) → holds o pagenum (s.frames q) ≡ false)
      → Indexed size s
      → Indexed size (installed size pf o pagenum s)
  unfolding occurs
  installed-Indexed size pf o pagenum s unused absent v = record {
    hashed = λ b q.
        let nowhere : occurs pf (s.hash b) ≡ 0 = v.hashed b pf ∙ rw unused refl in
        ground (arith, v.hashed b q, nowhere);
    owned = λ p q. ground (arith, v.owned p q, v.owned p pf);
    sized = λ p. ground (arith, v.sized p);
    referenced = λ p. ground (arith, v.referenced p);
    unique = λ q q' p n h h'. ground (arith, absent q, absent q', v.unique q q' p n);
  }

  -- The state in which `pframe_free` has given the frame up, up to its call of `put`.
  abbrev pub erased : ℕ → ℕ → ℕ → W → Cache W → Cache W
  erased size pf o w s = orphaned pf o (set_world w (unlinked_frame size pf o s))

  erased-Linked :
      (size pf o : ℕ) (w : W) (s : Cache W)
      → is_free (s.frames pf) ≡ false
      → is_pinned (s.frames pf) ≡ false
      → Linked s
      → Linked (erased size pf o w s)
  erased-Linked size pf o w s used loose v = record {
    allocated =
        λ q. ground (arith, v.allocated q, v.allocated pf, occurs-remove_item pf q s.alloc_list);
    pinned = λ q. ground (arith, v.pinned q, v.pinned pf);
    alloc_count = ground (arith, v.alloc_count, v.allocated pf, length-remove_item pf s.alloc_list);
    pin_count = v.pin_count;
  }

  erased-Indexed :
      (size pf o : ℕ) (w : W) (s : Cache W)
      → (s.frames pf).obj ≡ some o
      → Indexed size s
      → Indexed size (erased size pf o w s)
  erased-Indexed size pf o w s of v =
      let bucket = hash_page size o (s.frames pf).pagenum in
      record {
        hashed = λ b q.
            let chained : occurs pf (s.hash b) ≡ (if bucket == b then 1 else 0) =
              v.hashed b pf ∙ rw of refl in
            ground (arith, v.hashed b q, chained, occurs-remove_item pf q (s.hash b));
        owned = λ p q.
            let mine : occurs pf (s.objects p).respages ≡ (if o == p then 1 else 0) =
              v.owned p pf ∙ rw of refl in
            ground (arith, v.owned p q, mine, occurs-remove_item pf q (s.objects p).respages);
        sized = λ p.
            let mine : occurs pf (s.objects p).respages ≡ (if o == p then 1 else 0) =
              v.owned p pf ∙ rw of refl in
            ground (arith, v.sized p, mine, length-remove_item pf (s.objects p).respages);
        referenced = λ p. ground (arith, v.referenced p);
        unique = λ q q' p n h h'. ground (arith, v.unique q q' p n);
      }

  -- What `pframe_alloc` of a page gives: no frame, with the cache as it was, or a frame that was free
  -- and now holds the page, with one more reference of the object for it.
  abbrev pub Allocated : ℕ → ℕ → Cache W → Option ℕ × Cache W → Type 0
  Allocated o pagenum s (none, t) =
      (t.frames ≡ s.frames) × (t.objects ≡ s.objects) × (t.alloc_list ≡ s.alloc_list)
  Allocated o pagenum s (some pf, t) =
      (holds o pagenum (t.frames pf) ≡ true)
      × ((t.frames pf).busy ≡ false)
      × ((t.frames pf).dirty ≡ false)
      × ((t.frames pf).pincount ≡ 0)
      × ((t.objects o).refcount ≡ (s.objects o).refcount + 1)
      × ((t.objects o).nrespages ≡ (s.objects o).nrespages + 1)
      × ((q : ℕ) → q ≢ pf → t.frames q ≡ s.frames q)
      × ((p : ℕ) → p ≢ o → t.objects p ≡ s.objects p)

module _ {W : Type 0} (ops : Machine W) where
  pub world-Inv : (w : W) (s : Cache W) → Inv ops.hash_size s → Inv ops.hash_size (set_world w s)
  world-Inv w s v = record {
    linked = same-Linked s (set_world w s) refl refl refl refl (λ _. refl) (λ _. refl) v.linked;
    indexed =
        same-Indexed ops.hash_size s (set_world w s) refl refl (λ _. refl) (λ _. refl) v.indexed;
  }

  ref_by-counts :
      (k : Kind) (o : ℕ) (s : Cache W)
      → counts k ≡ true
      → 0 < (s.objects o).refcount
      → ref_by ops k o s ≡ some (counted_up o s)
  unfolding count_ref
  ref_by-counts anon o s kind live = ground (arith, live)
  ref_by-counts shadow o s kind live = ground (arith, live)
  ref_by-counts vnode o s kind live = absurd (ground arith)

  pub ref-counts :
      (o : ℕ) (s : Cache W)
      → counts (s.objects o).kind ≡ true
      → 0 < (s.objects o).refcount
      → ref ops o s ≡ some (counted_up o s)
  unfolding ref
  ref-counts o s kind live = ref_by-counts (s.objects o).kind o s kind live

  pub installed-Inv :
      (pf o pagenum : ℕ) (s : Cache W)
      → (s.frames pf).obj ≡ none
      → ((q : ℕ) → holds o pagenum (s.frames q) ≡ false)
      → Inv ops.hash_size s
      → Inv ops.hash_size (installed ops.hash_size pf o pagenum s)
  installed-Inv pf o pagenum s unused absent v = record {
    linked = installed-Linked ops.hash_size pf o pagenum s (rw unused refl) v.linked;
    indexed = installed-Indexed ops.hash_size pf o pagenum s unused absent v.indexed;
  }

  with_page-lem :
      (pf o pagenum : ℕ) (r : Bool × W) (s : Cache W)
      → (s.frames pf).obj ≡ none
      → counts (s.objects o).kind ≡ true
      → 0 < (s.objects o).refcount
      → ((q : ℕ) → holds o pagenum (s.frames q) ≡ false)
      → Inv ops.hash_size s
      → (x : Option ℕ × Cache W) × (with_page ops pf o pagenum r s ≡ some x)
        × Inv ops.hash_size x.1
        × Allocated o pagenum s x
  with_page-lem pf o pagenum (false, w) s unused kind live absent v = (
    (none, set_world (ops.slab_free w pf) s),
    refl,
    world-Inv (ops.slab_free w pf) s v,
    (refl, refl, refl),
  )
  with_page-lem pf o pagenum (true, w) s unused kind live absent v = (
    (some pf, installed ops.hash_size pf o pagenum (set_world w s)),
    ap (taken ops pf o)
        (ref-counts o (linked_frame ops.hash_size pf o pagenum (set_world w s)) kind live),
    installed-Inv pf o pagenum (set_world w s) unused absent (world-Inv w s v),
    (
      ground arith,
      ground arith,
      ground arith,
      ground arith,
      ground arith,
      ground arith,
      (λ q apart. ground arith),
      λ p apart. ground arith,
    ),
  )

  with_slab-lem :
      (o pagenum : ℕ) (r : Option ℕ × W) (s : Cache W)
      → counts (s.objects o).kind ≡ true
      → 0 < (s.objects o).refcount
      → ((q : ℕ) → holds o pagenum (s.frames q) ≡ false)
      → ((pf : ℕ) → r.0 ≡ some pf → (s.frames pf).obj ≡ none)
      → Inv ops.hash_size s
      → (x : Option ℕ × Cache W) × (with_slab ops o pagenum r s ≡ some x)
        × Inv ops.hash_size x.1
        × Allocated o pagenum s x
  with_slab-lem o pagenum (none, w) s kind live absent free v =
      ((none, set_world w s), refl, world-Inv w s v, (refl, refl, refl))
  with_slab-lem o pagenum (some pf, w) s kind live absent free v =
      with_page-lem pf o pagenum (ops.page_alloc w) s (free pf refl) kind live absent v

  -- For a page that is not resident of an object with a reference, `pframe_alloc` gives a frame that
  -- was free, or NULL when memory is short; no assertion fails and the invariant holds afterwards.
  -- The object is anonymous or a shadow object, and the allocator gives only free frames.
  pub pframe_alloc-Inv :
      (o pagenum : ℕ) (s : Cache W)
      → counts (s.objects o).kind ≡ true
      → 0 < (s.objects o).refcount
      → ((q : ℕ) → holds o pagenum (s.frames q) ≡ false)
      → ((pf : ℕ) → (ops.slab_alloc s.world).0 ≡ some pf → (s.frames pf).obj ≡ none)
      → Inv ops.hash_size s
      → (x : Option ℕ × Cache W) × (pframe_alloc ops o pagenum s ≡ some x)
        × Inv ops.hash_size x.1
        × Allocated o pagenum s x
  unfolding pframe_alloc
  pframe_alloc-Inv o pagenum s kind live absent free v =
      with_slab-lem o pagenum (ops.slab_alloc s.world) s kind live absent free v

  pub uncached-Inv :
      (pf o : ℕ) (s : Cache W)
      → (s.frames pf).obj ≡ some o
      → is_pinned (s.frames pf) ≡ false
      → Inv ops.hash_size s
      → Inv ops.hash_size (uncached ops pf o s)
  unfolding pframe_remove_from_pts
  uncached-Inv pf o s of loose v =
      let t = unmapped ops pf o s in
      record {
        linked =
            erased-Linked ops.hash_size pf o _ t (rw of refl) loose
              (same-Linked s t refl refl refl refl (λ _. refl) (λ _. refl) v.linked);
        indexed =
            erased-Indexed ops.hash_size pf o _ t of
              (same-Indexed ops.hash_size s t refl refl (λ _. refl) (λ _. refl) v.indexed);
      }

  -- With memory, `pframe_alloc` installs the frame that the allocator gives.
  pub alloc_installs :
      (pf o pagenum : ℕ) (w1 w2 : W) (s : Cache W)
      → ops.slab_alloc s.world ≡ (some pf, w1)
      → ops.page_alloc w1 ≡ (true, w2)
      → counts (s.objects o).kind ≡ true
      → 0 < (s.objects o).refcount
      → pframe_alloc ops o pagenum s
        ≡ some (some pf, installed ops.hash_size pf o pagenum (set_world w2 s))
  unfolding pframe_alloc
  alloc_installs pf o pagenum w1 w2 s slab given kind live =
      ap (λ r. with_slab ops o pagenum r s) slab
      ∙ ap (λ r. with_page ops pf o pagenum r s) given
      ∙ ap (taken ops pf o)
          (ref-counts o (linked_frame ops.hash_size pf o pagenum (set_world w2 s)) kind live)
