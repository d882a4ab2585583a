-- ===== src/Vm/Objects.antt =====
-- The table `mmo_ops` and the allocators as `vmmap.c` calls them, over the state `S` that they share:
-- kernel/vm/anon.c, kernel/vm/shadow.c, the slab allocator and the page table.
use kernel.Base.{ℕ, Bool, Option}
use kernel.Vm.Area.{Area}

-- What `vn_ops->mmap` of a file gives: an object, or a negative error.
pub data FileMapped (S : Type 0) : Type 0 where
  object : ℕ → S → FileMapped S
  error : S → FileMapped S

pub record Objects (S : Type 0) : Type 0 where
  pub area_alloc : S → Bool × S  -- `vmarea_alloc`; false is NULL
  pub area_free : S → S  -- `vmarea_free`
  pub anon_create : S → Option ℕ × S
  pub file_mmap : S → ℕ → Area → FileMapped S  -- of the file with this number
  pub shadow_create : S → Option ℕ × S
  pub shadow_over : S → ℕ → ℕ → ℕ → S  -- sets `mmo_shadowed` and `mmo_bottom_obj` of an object
  pub bottom_obj : S → ℕ → ℕ  -- `mmobj_bottom_obj`
  pub refcount : S → ℕ → ℕ
  pub ref : S → ℕ → S
  pub put : S → ℕ → S
  pub unmap_range : S → ℕ → ℕ → S  -- `pt_unmap_range`, from page to page
