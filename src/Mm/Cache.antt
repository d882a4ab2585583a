-- ===== src/Mm/Cache.antt =====
-- kernel/mm/pframe.c: page frames, memory objects and the lists that hold them, and what the code
-- calls outside of kernel/mm and kernel/vm.
-- Frames, objects and wait queues are named by numbers. A frame's bytes are a function of the offset.
use kernel.Base.{
  ℕ, ◌%◌, Bool, true, false, List, Option, none, some, ltb, ◌==◌, ◌&&◌, add32, update, is_none,
}
use kernel.Vm.Area.{Area}

-- `pframe_t`; `obj` is none for NULL, which is a free frame.
pub record Frame : Type 0 where
  pub obj : Option ℕ
  pub pagenum : ℕ
  pub busy : Bool
  pub dirty : Bool
  pub pincount : ℕ
  pub bytes : ℕ → ℕ

-- The table that `mmo_ops` points to.
pub data Kind : Type 0 where
  anon shadow vnode : Kind

-- Whether an object has `anon_ref` or `shadow_ref`, which count, and `anon_put` or `shadow_put`.
abbrev pub counts : Kind → Bool
counts anon = true
counts shadow = true
counts vnode = false

-- `mmobj_t`
pub record Object : Type 0 where
  pub live : Bool  -- false once its memory is given back
  pub kind : Kind
  pub refcount : ℕ
  pub nrespages : ℕ
  pub respages : List ℕ
  pub shadowed : Option ℕ
  pub bottom_obj : Option ℕ

-- The page cache, with the state `W` of everything outside of it.
pub record Cache (W : Type 0) : Type 0 where
  pub frames : ℕ → Frame
  pub objects : ℕ → Object
  pub alloc_list : List ℕ
  pub pinned_list : List ℕ
  pub nallocated : ℕ
  pub npinned : ℕ
  pub hash : ℕ → List ℕ
  pub world : W

-- What a vnode's `fillpage` does: the bytes, or a negative error.
pub data Filled (W : Type 0) : Type 0 where
  filled : (ℕ → ℕ) → W → Filled W
  fill_failed : ℕ → W → Filled W

pub record Machine (W : Type 0) : Type 0 where
  pub hash_size : ℕ  -- `PF_HASH_SIZE`
  pub slab_alloc : W → Option ℕ × W  -- a `pframe_t`, none for NULL
  pub slab_free : W → ℕ → W
  pub page_alloc : W → Bool × W  -- false is NULL
  pub object_alloc : W → Option ℕ × W  -- an `mmobj_t`, none for NULL
  pub page_free : W → ℕ → W  -- the page of this frame
  pub page_free_count : W → ℕ
  pub tlb_flush : W → ℕ → W
  pub bottom_vmas : W → ℕ → List (Area × Option ℕ)  -- `mmobj_bottom_vmas`, with the `p_pagedir`
  pub pt_unmap : W → ℕ → ℕ → W  -- a page of a page directory
  pub wake_pageoutd : W → W
  pub broadcast : W → ℕ → W  -- on the wait queue of a frame
  pub vnode_fill : W → ℕ → ℕ → Filled W  -- of a vnode's object and a page number
  pub vnode_dirty : W → ℕ → ℕ → Option ℕ × W  -- an error, if any
  pub vnode_clean : W → ℕ → ℕ → Option ℕ × W
  pub vnode_ref : Cache W → ℕ → Cache W  -- `vo_vref`
  pub vnode_put : Cache W → ℕ → Cache W  -- `vo_vput`

-- `pframe_is_free`, `pframe_is_pinned`
abbrev pub is_free : Frame → Bool
is_free f = is_none f.obj

abbrev pub is_pinned : Frame → Bool
is_pinned f = ltb 0 f.pincount

abbrev pub is_of : ℕ → Option ℕ → Bool
is_of o none = false
is_of o (some p) = p == o

-- Whether a frame holds the page `pagenum` of the object `o`.
abbrev pub holds : ℕ → ℕ → Frame → Bool
holds o pagenum f = is_of o f.obj && (f.pagenum == pagenum)

-- `hash_page`
unfoldable pub hash_page : ℕ → ℕ → ℕ → ℕ
unfolding add32
hash_page size o pagenum = add32 o pagenum % size

abbrev pub bucket_of : ℕ → Option ℕ → ℕ → Option ℕ
bucket_of size none pagenum = none
bucket_of size (some o) pagenum = some (hash_page size o pagenum)

module _ {W : Type 0} where
  abbrev pub set_frame : ℕ → Frame → Cache W → Cache W
  set_frame pf f s = record s { frames = update s.frames pf f }

  abbrev pub set_object : ℕ → Object → Cache W → Cache W
  set_object o x s = record s { objects = update s.objects o x }

  abbrev pub set_world : W → Cache W → Cache W
  set_world w s = record s { world = w }

  abbrev pub set_busy : ℕ → Bool → Cache W → Cache W
  set_busy pf b s = set_frame pf (record (s.frames pf) { busy = b }) s

  abbrev pub set_dirty : ℕ → Bool → Cache W → Cache W
  set_dirty pf b s = set_frame pf (record (s.frames pf) { dirty = b }) s

  abbrev pub set_bytes : ℕ → (ℕ → ℕ) → Cache W → Cache W
  set_bytes pf b s = set_frame pf (record (s.frames pf) { bytes = b }) s
