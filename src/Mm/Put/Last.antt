-- ===== src/Mm/Put/Last.antt =====
-- kernel/vm/anon.c, kernel/vm/shadow.c: the `put` that leaves an object with the references of its own
-- pages frees the pages and the object.
use kernel.Base.{
  ℕ, zero, suc, ◌+◌, ◌-◌, ◌<◌, ◌≡◌, refl, ap, ◌∙◌, true, false, [], some, arith, ◌==◌,
  if◌then◌else◌, length,
}
use kernel.Mm.Cache.{Cache, Machine}
use kernel.Mm.Frames.{uncached}
use kernel.Mm.Frames.Invariant.{Inv}
use kernel.Mm.Put.{
  Ended, done, panic, last_of, for_page, put_counted, then_do, or_panic, free_tail, free_pages,
  free_of, pframe_free, finish_put, put_shadowed, destroyed, counted_down, object_put,
}
use kernel.Mm.Put.Unpin.{Unpinned, unpin_all-lem}

module _ {W : Type 0} where
  then_do-done : (x : Ended W) → then_do x done ≡ x
  then_do-done (done s) = refl
  then_do-done panic = refl
  then_do-done Ended.out_of_fuel = refl

  then_do-cong :
      (x : Ended W) (k k' : Cache W → Ended W)
      → ((s : Cache W) → k s ≡ k' s)
      → then_do x k ≡ then_do x k'
  then_do-cong (done s) k k' same = same s
  then_do-cong panic k k' same = refl
  then_do-cong Ended.out_of_fuel k k' same = refl

  pub counted_down-Inv :
      (size o : ℕ) (s : Cache W)
      → (s.objects o).nrespages < (s.objects o).refcount
      → Inv size s
      → Inv size (counted_down o s)
  counted_down-Inv size o s more v = record {
    linked = record {
      allocated = v.linked.allocated;
      pinned = v.linked.pinned;
      alloc_count = v.linked.alloc_count;
      pin_count = v.linked.pin_count;
    };
    indexed = record {
      hashed = v.indexed.hashed;
      owned = λ p q. ground (arith, v.indexed.owned p q);
      sized = λ p. ground (arith, v.indexed.sized p);
      referenced = λ p. ground (arith, v.indexed.referenced p);
      unique = v.indexed.unique;
    };
  }

module _ {W : Type 0} (ops : Machine W) where
  free-idle :
      (deeper : ℕ → Cache W → Ended W) (pf o : ℕ) (s : Cache W)
      → (s.frames pf).obj ≡ some o
      → (s.frames pf).pincount ≡ 0
      → (s.frames pf).busy ≡ false
      → pframe_free ops deeper pf s ≡ deeper o (uncached ops pf o s)
  unfolding pframe_free
  free-idle deeper pf o s of loose idle =
      ap (λ x. free_of ops deeper pf x s) of ∙ rw (loose, idle) refl

  -- A round of the loop: the last page of the list loses its pins and is freed.
  pub free_tail-lem :
      (deeper : ℕ → Cache W → Ended W) (pf o : ℕ) (s : Cache W)
      → (s.frames pf).obj ≡ some o
      → (s.frames pf).busy ≡ false
      → Inv ops.hash_size s
      → (t : Cache W) × (free_tail ops deeper pf s ≡ deeper o (uncached ops pf o t))
        × Unpinned ops.hash_size pf s t
  free_tail-lem deeper pf o s of idle v =
      let (t, unpin, u) =
        unpin_all-lem ops.hash_size (s.frames pf).pincount pf s refl (rw of refl) v in
      (
        t,
        ap (λ r. or_panic r (λ s1. pframe_free ops deeper pf s1)) unpin
            ∙ free-idle deeper pf o t (u.same_obj ∙ of) u.loose (u.same_busy ∙ idle),
        u,
      )

  no_page :
      (deeper : ℕ → Cache W → Ended W) (rounds refcount o : ℕ) (s : Cache W)
      → (s.objects o).respages ≡ []
      → free_pages ops deeper (suc rounds) refcount o s ≡ done s
  unfolding free_pages
  no_page deeper rounds refcount o s empty =
      ap
        (λ l. for_page (last_of l) s (λ pf.
          then_do (free_tail ops deeper pf s)
            (λ s1. if refcount == 0 then free_pages ops deeper rounds refcount o s1 else done s1)))
        empty

  one_page :
      (deeper : ℕ → Cache W → Ended W) (rounds m o pf : ℕ) (s : Cache W)
      → last_of (s.objects o).respages ≡ some pf
      → free_pages ops deeper (suc rounds) (suc m) o s ≡ free_tail ops deeper pf s
  unfolding free_pages
  one_page deeper rounds m o pf s last =
      let next : Cache W → Ended W =
        λ s1. if suc m == 0 then free_pages ops deeper rounds (suc m) o s1 else done s1 in
      ap (λ x. for_page x s (λ q. then_do (free_tail ops deeper q s) next)) last
      ∙ then_do-cong (free_tail ops deeper pf s) next done (λ s1. ground arith)
      ∙ then_do-done (free_tail ops deeper pf s)

  -- A `put` that leaves as many references as pages runs the loop.
  put_loops :
      (deeper : ℕ → Cache W → Ended W) (n o : ℕ) (s : Cache W)
      → (s.objects o).refcount ≡ suc n
      → (s.objects o).nrespages ≡ n
      → object_put ops deeper o s
        ≡ then_do
            (free_pages ops deeper (suc (length (s.objects o).respages)) n o (counted_down o s))
            (finish_put deeper n n o)
  unfolding object_put
  put_loops deeper n o s refs pages =
      let s1 = counted_down o s in
      let pages_left = length (s.objects o).respages in
      let counted : ℕ → ℕ → ℕ → Ended W = λ r p k. put_counted ops deeper o r p k s1 in
      let used : ((s.objects o).refcount == 0) ≡ false = ground (arith, refs) in
      let equal : (n == n) ≡ true = ground arith in
      let one_more : pages_left + 1 ≡ suc pages_left = omega arith in
      let left : (s.objects o).refcount - 1 ≡ n = omega (arith, refs) in
      ap
        (λ b.
          if b
          then panic
          else counted ((s.objects o).refcount - 1) (s.objects o).nrespages (pages_left + 1))
        used
      ∙ ap (λ r. counted r (s.objects o).nrespages (pages_left + 1)) left
      ∙ ap (λ p. counted n p (pages_left + 1)) pages
      ∙ ap (counted n n) one_more
      ∙ ap
          (λ b.
            if b
            then then_do (free_pages ops deeper (suc pages_left) n o s1) (finish_put deeper n n o)
            else done s1)
          equal

  same_pages :
      (o : ℕ) (s : Cache W) → ((counted_down o s).objects o).respages ≡ (s.objects o).respages
  same_pages o s = ground arith

  -- A `put` that leaves `m + 1` references and as many pages frees one page.
  pub put_frees_one :
      (deeper : ℕ → Cache W → Ended W) (m o pf : ℕ) (s : Cache W)
      → (s.objects o).refcount ≡ suc (suc m)
      → (s.objects o).nrespages ≡ suc m
      → last_of (s.objects o).respages ≡ some pf
      → object_put ops deeper o s ≡ free_tail ops deeper pf (counted_down o s)
  unfolding object_put
  put_frees_one deeper m o pf s refs pages last =
      let s1 = counted_down o s in
      let rounds = length (s.objects o).respages in
      let freed : free_pages ops deeper (suc rounds) (suc m) o s1 ≡ free_tail ops deeper pf s1 =
        one_page deeper rounds m o pf s1 (ap last_of (same_pages o s) ∙ last) in
      put_loops deeper (suc m) o s refs pages
      ∙ ap (λ x. then_do x (finish_put deeper (suc m) (suc m) o)) freed
      ∙ then_do-cong (free_tail ops deeper pf s1) (finish_put deeper (suc m) (suc m) o) done
          (λ t. ground arith)
      ∙ then_do-done (free_tail ops deeper pf s1)

  -- A `put` that leaves neither references nor pages.
  pub put_destroys :
      (deeper : ℕ → Cache W → Ended W) (o : ℕ) (s : Cache W)
      → (s.objects o).refcount ≡ 1
      → (s.objects o).nrespages ≡ 0
      → (s.objects o).respages ≡ []
      → object_put ops deeper o s
        ≡ then_do
            (put_shadowed deeper (s.objects o).shadowed (counted_down o s))
            (λ s1. done (destroyed o s1))
  unfolding object_put
  put_destroys deeper o s refs pages empty =
      let s1 = counted_down o s in
      let below : (s1.objects o).shadowed ≡ (s.objects o).shadowed = ground arith in
      put_loops deeper zero o s refs pages
      ∙ ap (λ x. then_do x (finish_put deeper zero zero o))
          (no_page deeper (length (s.objects o).respages) zero o s1 (same_pages o s ∙ empty))
      ∙ ap (λ x. then_do (put_shadowed deeper x s1) (λ t. done (destroyed o t))) below
