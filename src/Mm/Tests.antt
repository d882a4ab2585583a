-- ===== src/Mm/Tests.antt =====
-- kernel/mm/pframe.c, kernel/vm/shadow.c: a cache with one page of an anonymous object below a shadow
-- object.
use kernel.Base.{
  ℕ, ◌≡◌, ◌↔◌, refl, true, false, [], ◌∷◌, Option, none, some, arith, update, occurs, add32,
}
use kernel.Mm.Cache.{Frame, Object, Cache, Machine, fill_failed, anon, shadow, holds, hash_page}
use kernel.Mm.Frames.{touched, pframe_pin, pframe_unpin, pframe_alloc, pframe_get_resident}
use kernel.Mm.Frames.Invariant.{Inv}
use kernel.Mm.Frames.Pinning.{unpin-pin}
use kernel.Mm.Frames.Resident.{resident_iff}
use kernel.Mm.Frames.Lifetime.{Allocated, pframe_alloc-Inv}
use kernel.Mm.Lookup.{page, unless_busy, pframe_lookup}
use kernel.Mm.Lookup.Chains.{lookup-Sees}
use kernel.Mm.Lookup.CopyOnWrite.{Copied, copy_on_write}

-- A machine with memory: the allocator's next frame is 9.
abbrev pub machine : Machine ℕ
machine = record {
  hash_size = 4;
  slab_alloc = λ w. (some 9, w);
  slab_free = λ w _. w;
  page_alloc = λ w. (true, w);
  object_alloc = λ w. (some 7, w);
  page_free = λ w _. w;
  page_free_count = λ _. 10;
  tlb_flush = λ w _. w;
  bottom_vmas = λ _ _. [];
  pt_unmap = λ w _ _. w;
  wake_pageoutd = λ w. w;
  broadcast = λ w _. w;
  vnode_fill = λ w _ _. fill_failed 5 w;
  vnode_dirty = λ w _ _. (none, w);
  vnode_clean = λ w _ _. (none, w);
  vnode_ref = λ s _. s;
  vnode_put = λ s _. s;
}

abbrev unused_frame : Frame
unused_frame = record {
  obj = none;
  pagenum = 0;
  busy = false;
  dirty = false;
  pincount = 0;
  bytes = λ _. 0;
}

abbrev dead_object : Object
dead_object = record {
  live = false;
  kind = anon;
  refcount = 0;
  nrespages = 0;
  respages = [];
  shadowed = none;
  bottom_obj = none;
}

-- Object 1 has page 3 in frame 5, pinned once.
abbrev pub one_page : Cache ℕ
one_page = record {
  frames =
      update (λ _. unused_frame) 5
        (record unused_frame { obj = some 1; pagenum = 3; pincount = 1; bytes = λ i. i });
  objects =
      update
        (update (λ _. dead_object) 1
          (record dead_object { live = true; refcount = 2; nrespages = 1; respages = 5 ∷ [] }))
        2
        (record dead_object {
          live = true;
          kind = shadow;
          refcount = 1;
          shadowed = some 1;
          bottom_obj = some 1;
        });
  alloc_list = [];
  pinned_list = 5 ∷ [];
  nallocated = 0;
  npinned = 1;
  hash = update (λ _. []) 0 (5 ∷ []);
  world = 0;
}

pub one_page-Inv : Inv 4 one_page
unfolding occurs hash_page add32
one_page-Inv = record {
  linked = record {
    allocated = λ pf. ground arith;
    pinned = λ pf. ground arith;
    alloc_count = refl;
    pin_count = refl;
  };
  indexed = record {
    hashed = λ b pf. ground arith;
    owned = λ o pf. ground arith;
    sized = λ o. ground arith;
    referenced = λ o. ground arith;
    unique = λ pf pf' o n h h'. ground arith;
  };
}

-- The machine does give a page and pin it.
read_through_shadow : pframe_lookup machine 3 2 3 false one_page ≡ page 5 one_page
unfolding pframe_lookup kernel.Mm.Lookup.shadow_lookuppage kernel.Mm.Lookup.walk_chain
    pframe_get_resident kernel.Mm.Frames.find_frame hash_page add32
read_through_shadow = refl

copy_on_write_example :
    (s' : Cache ℕ) × (pframe_lookup machine 3 2 3 true one_page ≡ page 9 s')
    × Inv 4 s'
    × Copied machine 2 3 9 5 one_page s'
copy_on_write_example =
    copy_on_write machine 0 1 2 1 3 9 5 0 0 one_page one_page-Inv refl refl (omega arith)
      (λ q. ground arith) refl (omega arith) refl refl refl refl refl

lookup-Sees_example :
    pframe_lookup machine 3 2 3 false one_page ≡ unless_busy 5 (touched 5 one_page)
lookup-Sees_example =
    lookup-Sees machine 1 2 2 3 5 one_page one_page-Inv (omega arith)
      (refl, (λ q. ground arith), (1, refl, refl))

unpin-pin_example :
    (s1 : Cache ℕ) × (s2 : Cache ℕ) × (pframe_pin 5 one_page ≡ some s1)
    × (pframe_unpin 5 s1 ≡ some s2)
    × ((q : ℕ) → s2.frames q ≡ one_page.frames q)
    × (s2.alloc_list ≡ (touched 5 one_page).alloc_list)
    × (s2.pinned_list ≡ one_page.pinned_list)
    × (s2.nallocated ≡ one_page.nallocated)
    × (s2.npinned ≡ one_page.npinned)
unpin-pin_example = unpin-pin 4 5 one_page refl one_page-Inv

resident_iff_example :
    (((pframe_get_resident machine 1 3 one_page).0 ≡ some 5)
      ↔ (holds 1 3 (one_page.frames 5) ≡ true))
    × ((pframe_get_resident machine 1 3 one_page).1.frames ≡ one_page.frames)
    × ((pframe_get_resident machine 1 3 one_page).1.objects ≡ one_page.objects)
    × Inv 4 (pframe_get_resident machine 1 3 one_page).1
resident_iff_example = resident_iff machine 1 3 5 one_page one_page-Inv

pframe_alloc-Inv_example :
    (x : Option ℕ × Cache ℕ) × (pframe_alloc machine 1 8 one_page ≡ some x)
    × Inv 4 x.1
    × Allocated 1 8 one_page x
pframe_alloc-Inv_example =
    pframe_alloc-Inv machine 1 8 one_page refl (omega arith) (λ q. ground arith)
      (λ pf given. ground arith) one_page-Inv
