-- ===== src/Mm/Lookup/CopyOnWrite.antt =====
-- kernel/vm/shadow.c: a write through a shadow object copies the page that a read would have found.
use kernel.Base.{
  ℕ, suc, ◌+◌, ◌<◌, ◌≡◌, ◌≢◌, refl, ap, ◌∙◌, Bool, true, false, not, ◌&&◌, update, none, some,
  arith,
}
use kernel.Mm.Cache.{Cache, Machine, shadow, is_pinned, holds, set_busy, set_world}
use kernel.Mm.Frames.{touched, released, set_pincount}
use kernel.Mm.Frames.Invariant.{
  Inv, same-Linked, same-Indexed, touched-Linked, touched-frames, touched-objects, touched-Indexed,
}
use kernel.Mm.Frames.Pinning.{pframe_pin-Inv}
use kernel.Mm.Frames.Resident.{absent}
use kernel.Mm.Frames.Lifetime.{installed, installed-Inv, world-Inv, alloc_installs}
use kernel.Mm.Lookup.{
  page, unless_busy, fillpage, fill_by, fill_ends, copied, copied_to, fill_from_below, copy_bytes,
  pframe_fill, filled_frame, pframe_new, pageoutd_needed, if_resident, pframe_get,
  minus_one_on_error, shadow_lookuppage, lookup_by, pframe_lookup,
}
use kernel.Mm.Lookup.Chains.{Absent, Sees, lookup-Sees}
use kernel.Mm.Lookup.Installed.{if-true, Sees-used, Sees-installed, Filling, installed-Filling}

module _ {W : Type 0} (ops : Machine W) where
  ready :
      (pf : ℕ) (t : Cache W)
      → (t.frames pf).busy ≡ true
      → (t.frames pf).pincount ≡ 0
      → ((t.frames pf).busy && not (is_pinned (t.frames pf))) ≡ true
  ready pf t busy loose = rw (busy, loose) refl

  unless_busy-idle :
      (pf : ℕ) (s : Cache W) → (s.frames pf).busy ≡ false → unless_busy pf s ≡ page pf s
  unless_busy-idle pf s idle = rw idle refl

  busy-Inv :
      (pf : ℕ) (b : Bool) (s : Cache W) → Inv ops.hash_size s → Inv ops.hash_size (set_busy pf b s)
  busy-Inv pf b s v = record {
    linked =
        same-Linked s (set_busy pf b s) refl refl refl refl (λ q. ground arith) (λ q. ground arith)
          v.linked;
    indexed =
        same-Indexed ops.hash_size s (set_busy pf b s) refl refl (λ q. ground arith)
          (λ q. ground arith) v.indexed;
  }

  -- What a filled page is, against the state `s` before its frame was there.
  abbrev pub Copied : ℕ → ℕ → ℕ → ℕ → Cache W → Cache W → Type 0
  Copied o pagenum pf old s t =
      ((t.frames pf).bytes ≡ (s.frames old).bytes)
      × (holds o pagenum (t.frames pf) ≡ true)
      × ((t.frames pf).pincount ≡ 1)
      × ((q : ℕ) → q ≢ pf → t.frames q ≡ s.frames q)
      × ((p : ℕ) → p ≢ o → t.objects p ≡ s.objects p)

  copy_state :
      (o pagenum pf old : ℕ) (s t s3 : Cache W)
      → Inv ops.hash_size s3
      → s3.frames ≡ (set_pincount pf ((t.frames pf).pincount + 1) t).frames
      → s3.objects ≡ t.objects
      → old ≢ pf
      → Filling o pagenum pf s t
      → Inv ops.hash_size (released ops pf (copy_bytes pf old s3))
        × Copied o pagenum pf old s (released ops pf (copy_bytes pf old s3))
  copy_state o pagenum pf old s t s3 v frames objects distinct
        (keeps, of, number, busy, loose, kinds, below_of, others) =
      let t' = released ops pf (copy_bytes pf old s3) in
      let at : (q : ℕ) → s3.frames q ≡ (set_pincount pf ((t.frames pf).pincount + 1) t).frames q =
        λ q. ap (λ f. f q) frames in
      (
        record {
          linked =
              same-Linked s3 t' refl refl refl refl (λ q. ground arith) (λ q. ground arith)
                v.linked;
          indexed =
              same-Indexed ops.hash_size s3 t' refl refl (λ q. ground arith) (λ q. ground arith)
                v.indexed;
        },
        (
          ground (arith, at old, at pf, keeps old distinct),
          ground (arith, at pf, of, number),
          ground (arith, at pf, loose),
          (λ q other. ground (arith, at q, keeps q other)),
          λ p other. ap (λ f. f p) objects ∙ others p other,
        ),
      )

  -- `shadow_fillpage`, when the object below sees the frame `old`.
  fill_shadow :
      (d depth o below pagenum pf old : ℕ) (s t : Cache W)
      → (t.objects o).shadowed ≡ some below
      → Inv ops.hash_size t
      → d < depth
      → Sees d below pagenum old t
      → old ≢ pf
      → (s.frames old).busy ≡ false
      → Filling o pagenum pf s t
      → (t' : Cache W) × (fill_by ops (pframe_lookup ops (suc depth)) shadow o pf t ≡ page pf t')
        × Inv ops.hash_size (released ops pf t')
        × Copied o pagenum pf old s (released ops pf t')
  fill_shadow d depth o below pagenum pf old s t next v lt sees distinct idle
        (keeps, of, number, busy, loose, kinds, below_of, others) =
      let idle_below : ((touched old t).frames old).busy ≡ false =
        rw (touched-frames old t, keeps old distinct) idle in
      let seen : pframe_lookup ops (suc depth) below pagenum false t ≡ page old (touched old t) =
        lookup-Sees ops d depth below pagenum old t v lt sees
        ∙ unless_busy-idle old (touched old t) idle_below in
      let (s3, pinned, v3, frames3, objects3) =
        pframe_pin-Inv ops.hash_size pf (touched old t) (rw (touched-frames old t, of) refl)
          (record {
            linked = touched-Linked old t (Sees-used d below pagenum old t sees) v.linked;
            indexed = touched-Indexed ops.hash_size old t v.indexed;
          }) in
      let frames : s3.frames ≡ (set_pincount pf ((t.frames pf).pincount + 1) t).frames =
        frames3
        ∙ ap (λ f. update f pf (record (f pf) { pincount = (f pf).pincount + 1 }))
            (touched-frames old t) in
      let t' = copy_bytes pf old s3 in
      let (inv, copy) =
        copy_state o pagenum pf old s t s3 v3 frames (objects3 ∙ touched-objects old t) distinct
          (keeps, of, number, busy, loose, kinds, below_of, others) in
      (
        t',
        if-true _ _ _ (ready pf t busy loose)
            ∙ ap (λ x. fill_from_below ops (pframe_lookup ops (suc depth)) pf x t) next
            ∙ ap (λ n. copied pf (pframe_lookup ops (suc depth) below n false t)) number
            ∙ ap (copied pf) seen
            ∙ ap (copied_to pf old) pinned,
        inv,
        copy,
      )

  -- `pframe_fill` of the new frame.
  fill_new :
      (d depth o below pagenum pf old : ℕ) (w : W) (s : Cache W)
      → (s.objects o).kind ≡ shadow
      → (s.objects o).shadowed ≡ some below
      → Inv ops.hash_size s
      → d < depth
      → Absent o pagenum s
      → Sees d below pagenum old s
      → (s.frames pf).obj ≡ none
      → (s.frames old).busy ≡ false
      → (s' : Cache W) × (pframe_fill ops
            (pframe_lookup ops (suc depth))
            o
            pf
            (installed ops.hash_size pf o pagenum (set_world w s))
          ≡ page pf s')
        × Inv ops.hash_size s'
        × Copied o pagenum pf old s s'
  unfolding pframe_fill fillpage
  fill_new d depth o below pagenum pf old w s kind next v lt missing sees unused idle =
      let new = installed ops.hash_size pf o pagenum (set_world w s) in
      let t = set_busy pf true new in
      let look = pframe_lookup ops (suc depth) in
      let filling = installed-Filling ops.hash_size o pagenum pf w s in
      let (keeps, of, _, _, _, kinds, below_of, _) = filling in
      let distinct : old ≢ pf =
        λ e. absurd (ground (arith, Sees-used d below pagenum old s sees, e, unused)) in
      let inv =
        busy-Inv pf true new
          (installed-Inv ops pf o pagenum (set_world w s) unused missing (world-Inv ops w s v)) in
      let sees' =
        Sees-installed d d o below pagenum pf old s t keeps of kinds below_of distinct
          (kind, missing, (below, next, sees)) (omega arith) sees in
      let (t', filled, inv', copy) =
        fill_shadow d depth o below pagenum pf old s t (below_of o ∙ next) inv lt sees' distinct
          idle filling in
      (
        released ops pf t',
        ap (λ k. fill_ends ops pf (fill_by ops look k o pf t)) (kinds o ∙ kind)
            ∙ ap (fill_ends ops pf) filled,
        inv',
        copy,
      )

  -- A lookup for writing of a page that the shadow object `o` does not have, and that the objects
  -- below it show in the frame `old`, gives a new pinned frame of `o` with a copy of the bytes of
  -- `old`. No other frame and no other object changes, and the invariant is kept. The frame `old` is
  -- not busy, memory is not short, and the allocators give a free frame and a page.
  pub copy_on_write :
      (d depth o below pagenum pf old : ℕ) (w1 w2 : W) (s : Cache W)
      → Inv ops.hash_size s
      → (s.objects o).kind ≡ shadow
      → (s.objects o).shadowed ≡ some below
      → 0 < (s.objects o).refcount
      → Absent o pagenum s
      → Sees d below pagenum old s
      → d < depth
      → (s.frames old).busy ≡ false
      → pageoutd_needed ops s ≡ false
      → ops.slab_alloc s.world ≡ (some pf, w1)
      → ops.page_alloc w1 ≡ (true, w2)
      → (s.frames pf).obj ≡ none
      → (s' : Cache W) × (pframe_lookup ops (suc (suc depth)) o pagenum true s ≡ page pf s')
        × Inv ops.hash_size s'
        × Copied o pagenum pf old s s'
  unfolding pframe_lookup shadow_lookuppage pframe_get pframe_new
  copy_on_write d depth o below pagenum pf old w1 w2 s v kind next live missing sees lt idle plenty
        slab given unused =
      let look = pframe_lookup ops (suc depth) in
      let (s', filled, inv, copy) =
        fill_new d depth o below pagenum pf old w2 s kind next v lt missing sees unused idle in
      let fresh : if_resident ops look o pagenum (none, s) ≡ page pf s' = rw plenty (
        ap (filled_frame ops look o)
          (alloc_installs ops pf o pagenum w1 w2 s slab given (rw kind refl) live)
        ∙ filled) in
      (
        s',
        ap (λ k. lookup_by ops k look (suc depth) o pagenum true s) kind
            ∙ ap (λ r. minus_one_on_error (if_resident ops look o pagenum r))
                (absent ops o pagenum s missing)
            ∙ ap minus_one_on_error fresh,
        inv,
        copy,
      )
