-- ===== src/Fs/Vnode/Last.antt =====
-- kernel/fs/vnode.c: the put of the last active reference of a vnode that is not linked.
use kernel.Base.{
  ℕ, suc, ◌+◌, ◌-◌, ◌≡◌, ◌≢◌, ◌∙◌, refl, ap, length, true, false, not, List, [], ◌∷◌, ltb, ◌==◌,
  ◌&&◌, ◌||◌, arith,
}
use kernel.Fs.Vnode.{
  Vnode, VnodeTable, FileSystems, put, deletes, set_vnode, after_pages, page_gone, then_pages,
  free_pages, vput_at, vput,
}

-- A vnode with `n` resident pages and one more reference, which is not busy.
abbrev Passive : ℕ → Vnode → Type 0
Passive n x = (x.busy ≡ false) × (x.nrespages ≡ n) × (x.refcount ≡ n + 1)

module _ {W : Type 0} where
  -- Only the vnode `v` and the rest of the state have changed.
  abbrev pub OnlyVnode : ℕ → VnodeTable W → VnodeTable W → Type 0
  OnlyVnode v s s' =
      ((u : ℕ) → u ≢ v → s'.vnodes u ≡ s.vnodes u) × (s'.inuse ≡ s.inuse) × (s'.sched ≡ s.sched)

  OnlyVnode-trans :
      (v : ℕ) (s s' s'' : VnodeTable W) → OnlyVnode v s s' → OnlyVnode v s' s'' → OnlyVnode v s s''
  OnlyVnode-trans v s s' s'' (others, used, queues) (others', used', queues') =
      ((λ u apart. others' u apart ∙ others u apart), used' ∙ used, queues' ∙ queues)

module _ {W : Type 0} (ops : FileSystems W) where
  -- The put of a page that has left the vnode.
  page_put :
      (depth n v : ℕ) (s : VnodeTable W)
      → (s.vnodes v).busy ≡ false
      → (s.vnodes v).nrespages ≡ n
      → (s.vnodes v).refcount ≡ n + 2
      → (s' : VnodeTable W) × (vput_at ops (suc depth) v s ≡ put s')
        × Passive n (s'.vnodes v)
        × OnlyVnode v s s'
  unfolding vput_at
  page_put depth n v s free pages refs =
      let x = s.vnodes v in
      let s' = set_vnode v (record x { refcount = x.refcount - 1 }) s in
      let sound : (not (ltb x.nrespages x.refcount) || x.busy) ≡ false =
        ground (arith, free, pages, refs) in
      let not_last : ((x.nrespages == x.refcount - 1) && not (ops.query_vnode s.world v)) ≡ false =
        ground (arith, pages, refs) in
      let stays : ltb 0 (x.refcount - 1) ≡ true = ground (arith, refs) in
      (
        s',
        rw (sound, not_last, stays) refl,
        (ground (arith, free), ground (arith, pages), ground (arith, refs)),
        ((λ u apart. ground (arith, apart)), refl, refl),
      )

  all_freed :
      (depth n v : ℕ) (l : List ℕ) (s : VnodeTable W)
      → ((w : W) (p : ℕ) → ops.page_is_busy w p ≡ false)
      → length l ≡ n
      → Passive n (s.vnodes v)
      → (s' : VnodeTable W) × (free_pages ops (vput_at ops (suc depth)) v l s ≡ put s')
        × Passive 0 (s'.vnodes v)
        × OnlyVnode v s s'
  unfolding free_pages
  all_freed depth n v [] s quiet size (free, pages, refs) = (
    s,
    refl,
    (free, omega (arith, pages, size), omega (arith, refs, size)),
    ((λ u apart. refl), refl, refl),
  )
  all_freed depth n v (p ∷ rest) s quiet size (free, pages, refs) =
      let s1 = page_gone ops v p s in
      let (s2, done, passive, only) =
        page_put depth (length rest) v s1 (ground (arith, free)) (ground (arith, pages, size))
          (ground (arith, refs, size)) in
      let (s3, freed, empty, only') = all_freed depth (length rest) v rest s2 quiet refl passive in
      (
        s3,
        rw (quiet s.world p)
            (ap (λ r. then_pages (free_pages ops (vput_at ops (suc depth)) v rest) r) done ∙ freed),
        empty,
        OnlyVnode-trans v s s2 s3
            (OnlyVnode-trans v s s1 s2 ((λ u apart. ground (arith, apart)), refl, refl) only) only',
      )

  last_dropped :
      (v : ℕ) (s s0 : VnodeTable W)
      → Passive 0 (s.vnodes v)
      → OnlyVnode v s0 s
      → (s' : VnodeTable W) × (after_pages v (put s) ≡ deletes v s')
        × ((s'.vnodes v).refcount ≡ 0)
        × ((s'.vnodes v).nrespages ≡ 0)
        × ((s'.vnodes v).busy ≡ true)
        × OnlyVnode v s0 s'
  last_dropped v s s0 (free, pages, refs) (others, used, queues) =
      let x = s.vnodes v in
      let alone : ((x.nrespages == 0) && (x.refcount == 1)) ≡ true = ground (arith, pages, refs) in
      let ends : ltb 0 (x.refcount - 1) ≡ false = ground (arith, refs) in
      let empty : ((x.refcount - 1 == 0) && (x.nrespages == 0)) ≡ true =
        ground (arith, pages, refs) in
      (
        set_vnode v (record x { refcount = x.refcount - 1; busy = true }) s,
        rw (alone, ends, empty) refl,
        ground (arith, refs),
        ground (arith, pages),
        ground arith,
        ((λ u apart. ground (arith, apart, others u apart)), used, queues),
      )

  -- When the last active reference of a vnode that is not linked in its file system is given up, and
  -- none of its pages is busy, `vput` fails no assertion: it frees every resident page, nested puts
  -- and all, and comes to the deletion of the vnode with no reference and no page left. No other vnode
  -- changes, and the vnode stays on the list until it is deleted.
  pub vput_last :
      (v : ℕ) (s : VnodeTable W)
      → (s.vnodes v).busy ≡ false
      → (s.vnodes v).refcount ≡ (s.vnodes v).nrespages + 1
      → ops.query_vnode s.world v ≡ false
      → length (ops.pages s.world v) ≡ (s.vnodes v).nrespages
      → ((w : W) (p : ℕ) → ops.page_is_busy w p ≡ false)
      → (s' : VnodeTable W) × (vput ops v s ≡ deletes v s')
        × ((s'.vnodes v).refcount ≡ 0)
        × ((s'.vnodes v).nrespages ≡ 0)
        × ((s'.vnodes v).busy ≡ true)
        × OnlyVnode v s s'
  unfolding vput vput_at
  vput_last v s free refs unlinked size quiet =
      let x = s.vnodes v in
      let (s1, freed, empty, only) =
        all_freed 0 x.nrespages v (ops.pages s.world v) s quiet size (free, refl, refs) in
      let (s2, deleted, no_refs, no_pages, marked, only') = last_dropped v s1 s empty only in
      let sound : (not (ltb x.nrespages x.refcount) || x.busy) ≡ false =
        ground (arith, free, refs) in
      let last : ((x.nrespages == x.refcount - 1) && not (ops.query_vnode s.world v)) ≡ true =
        ground (arith, refs, unlinked) in
      (s2, rw (sound, last) (ap (after_pages v) freed ∙ deleted), no_refs, no_pages, marked, only')
