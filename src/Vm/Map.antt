-- ===== src/Vm/Map.antt =====
-- kernel/vm/vmmap.c: `vmmap_map`.
pub mod Room
pub mod Pages
use kernel.Base.{
  ℕ, ◌+◌, ◌^◌, Bool, true, false, Option, none, some, ltb, leb, ◌==◌, ◌&&◌, ◌||◌, if◌then◌else◌,
  add32,
}
use kernel.Vm.Area.{Area, AreaList, Flags, Layout}
use kernel.Vm.Objects.{Objects, FileMapped, object, error}
use kernel.Vm.Space.{vmmap_insert, insert_asserts, vmmap_is_range_empty, Dir, vmmap_find_range}
use kernel.Vm.Remove.{Removed, done, vmmap_remove}

-- The arguments of `vmmap_map`. `off` is in pages, since the code asserts that it is aligned.
pub record Request : Type 0 where
  pub file : Option ℕ
  pub lopage : ℕ
  pub npages : ℕ
  pub prot : ℕ
  pub flags : Flags
  pub off : ℕ
  pub dir : Dir

-- The assertions on the arguments.
unfoldable pub map_asserts : Layout → Request → Bool
unfolding add32
map_asserts l r =
    ltb 0 r.npages
    && (l.prot_valid r.prot
        && ((r.flags.is_shared || r.flags.is_private)
            && ((r.lopage == 0 || leb l.low r.lopage)
                && (r.lopage == 0 || leb (add32 r.lopage r.npages) l.high))))

pub data Mapped (S : Type 0) : Type 0 where
  mapped : S → AreaList → Area → Mapped S  -- a result that is not negative, and `*new`
  failed : S → AreaList → Mapped S  -- a negative result
  panic : Mapped S

-- Where the mapping starts, in the state after the old mappings there have been removed.
pub data Placed (S : Type 0) : Type 0 where
  at_page : ℕ → S → AreaList → Placed S
  no_room : Placed S
  fault : Placed S

module _ {S : Type 0} (ops : Objects S) (l : Layout) where
  -- The result of `vmmap_remove` is not looked at.
  unfoldable pub clear_range : S → AreaList → ℕ → ℕ → Placed S
  unfolding vmmap_remove vmmap_is_range_empty
  clear_range s m lopage npages = elim (vmmap_is_range_empty l m lopage npages) [
    | none ↦ fault
    | some true ↦ at_page lopage s m
    | some false ↦ elim (vmmap_remove ops l s m lopage npages) [
      | done s' m' ↦ at_page lopage s' m'
      | Removed.failed s' m' ↦ at_page lopage s' m'
      | _ ↦ fault
    ]
  ]

  -- A negative result of `vmmap_find_range` is an error.
  abbrev pub place_at : Option ℕ → S → AreaList → Placed S
  place_at none s m = fault
  place_at (some found) s m = if leb (2 ^ 31) found then no_room else at_page found s m

  unfoldable pub place : S → AreaList → Request → Placed S
  unfolding clear_range vmmap_find_range
  place s m r =
      if r.lopage == 0
      then place_at (vmmap_find_range l m r.npages r.dir) s m
      else clear_range s m r.lopage r.npages

  unfoldable pub insert_checked : S → AreaList → Area → Mapped S
  unfolding vmmap_insert insert_asserts
  insert_checked s m vma = if insert_asserts l vma then mapped s (vmmap_insert m vma) vma else panic

  -- A private area gets a shadow object over the new object; then the area is inserted.
  unfoldable pub insert_mapping : S → AreaList → Area → ℕ → Mapped S
  unfolding insert_checked
  insert_mapping s m vma new_obj =
      let s' = if ops.refcount s new_obj == 0 then ops.ref s new_obj else s in
      let (shadow, s'') = ops.shadow_create s' in
      if vma.flags.is_private
      then elim shadow [
        | none ↦ failed (ops.area_free (ops.put s'' new_obj)) m
        | some o ↦
            insert_checked (ops.shadow_over s'' o new_obj new_obj) m (record vma { obj = some o })
      ]
      else insert_checked s' m (record vma { obj = some new_obj })

  unfoldable pub map_at : S → AreaList → Request → ℕ → Mapped S
  unfolding insert_mapping add32
  map_at s m r start_vfn =
      let (allocated, s') = ops.area_alloc s in
      let vma : Area = record {
        start = start_vfn;
        end = add32 start_vfn r.npages;
        off = r.off;
        prot = r.prot;
        flags = r.flags;
        obj = none;
      } in
      elim allocated [
        | false ↦ failed s' m
        | true ↦ elim r.file [
          | none ↦
              let (created, s'') = ops.anon_create s' in
              elim created [
                | none ↦ failed (ops.area_free s'') m
                | some o ↦ insert_mapping s'' m vma o
              ]
          | some file ↦ elim (ops.file_mmap s' file vma) [
            | error s'' ↦ failed (ops.area_free s'') m
            | object o s'' ↦ insert_mapping s'' m vma o
          ]
        ]
      ]

  unfoldable pub vmmap_map : S → AreaList → Request → Mapped S
  unfolding map_asserts place map_at
  vmmap_map s m r = elim (map_asserts l r) [
    | false ↦ panic
    | true ↦ elim (place s m r) [
      | fault ↦ panic
      | no_room ↦ failed s m
      | at_page start_vfn s' m' ↦ map_at s' m' r start_vfn
    ]
  ]
