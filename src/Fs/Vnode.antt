-- ===== src/Fs/Vnode.antt =====
-- kernel/fs/vnode.c: the vnodes in use: `vref`, `vget`, `vput`, `vfs_is_in_use` and `vnode_inuse`.
-- `vget` and `vput` end where they can block for a file system: what follows is a step of its own.
pub mod Counts
pub mod Puts
pub mod Lookups
pub mod Steps
pub mod Last
pub mod Busy
use kernel.Base.{
  ℕ, zero, suc, ◌+◌, ◌-◌, Bool, true, false, not, List, [], ◌∷◌, Option, none, some, ltb, leb, ◌==◌,
  ◌&&◌, ◌||◌, if◌then◌else◌, update, remove_item,
}
use kernel.Proc.Queue.{Sched}
use kernel.Proc.Sched.{sched_sleep_on, sched_make_runnable, sched_broadcast_on}

-- Which operations table `init_special_vnode` gives a vnode.
pub data Special : Type 0 where
  plain bytedev blockdev : Special

-- `vnode_t`; `waitq` is the number of `vn_waitq`, `busy` the flag VN_BUSY.
pub record Vnode : Type 0 where
  pub fs : ℕ
  pub vno : ℕ
  pub mode : ℕ
  pub special : Special
  pub refcount : ℕ
  pub nrespages : ℕ
  pub busy : Bool
  pub waitq : ℕ

-- `vnode_inuse_list`, the vnodes by number, the scheduler and the state of the rest.
pub record VnodeTable (W : Type 0) : Type 0 where
  pub vnodes : ℕ → Vnode
  pub inuse : List ℕ
  pub sched : Sched
  pub world : W

-- The slab allocator, the file systems, and the resident pages of a vnode.
pub record FileSystems (W : Type 0) : Type 0 where
  pub slab_alloc : W → Option ℕ × W
  pub slab_free : W → ℕ → W
  pub fresh_queue : W → ℕ → ℕ  -- `vn_waitq` of new memory
  pub read_vnode : W → ℕ → ℕ × W  -- the mode
  pub query_vnode : W → ℕ → Bool  -- whether the vnode is linked
  pub delete_vnode : W → ℕ → W
  pub is_char : ℕ → Bool  -- `S_ISCHR` of a mode
  pub is_block : ℕ → Bool
  pub fs_root : W → ℕ → ℕ
  pub pages : W → ℕ → List ℕ  -- `mmo_respages`
  pub page_is_busy : W → ℕ → Bool
  pub page_waitq : W → ℕ → ℕ
  pub uncache : W → ℕ → W  -- `pframe_free` but for the counts of the vnode

-- `reads` is where `read_vnode` is called; after `sleeps` and `retries` the search starts again.
pub data Got (W : Type 0) : Type 0 where
  got : ℕ → VnodeTable W → Got W
  sleeps : VnodeTable W → Got W
  retries : VnodeTable W → Got W
  reads : ℕ → VnodeTable W → Got W
  panic : Got W

-- `deletes` is where `delete_vnode` is called, `waits` where a page is busy.
pub data Put (W : Type 0) : Type 0 where
  put : VnodeTable W → Put W
  deletes : ℕ → VnodeTable W → Put W
  waits : VnodeTable W → Put W
  panic : Put W

-- The first vnode of the list with this file system and number.
unfoldable pub find_inuse : (ℕ → Vnode) → ℕ → ℕ → List ℕ → Option ℕ
find_inuse vnodes fs vno [] = none
find_inuse vnodes fs vno (v ∷ rest) =
    if ((vnodes v).fs == fs) && ((vnodes v).vno == vno)
    then some v
    else find_inuse vnodes fs vno rest

-- Whether a vnode counts as used, by its active references.
abbrev pub is_used : ℕ → ℕ → ℕ → Bool
is_used root v refs = if root == v then ltb 1 refs else ltb 0 refs

module _ {W : Type 0} where
  abbrev pub set_vnode : ℕ → Vnode → VnodeTable W → VnodeTable W
  set_vnode v x s = record s { vnodes = update s.vnodes v x }

  -- `vref`; none is a failed assertion.
  unfoldable pub vref : ℕ → VnodeTable W → Option (VnodeTable W)
  vref v s =
      if ltb 0 (s.vnodes v).refcount
      then some (set_vnode v (record (s.vnodes v) { refcount = (s.vnodes v).refcount + 1 }) s)
      else none

  abbrev pub got_ref : ℕ → Option (VnodeTable W) → Got W
  got_ref v none = panic
  got_ref v (some s) = got v s

  abbrev pub get_sleeps : Option Sched → VnodeTable W → Got W
  get_sleeps none s = panic
  get_sleeps (some sched) s = sleeps (record s { sched = sched })

  abbrev pub get_retries : Option Sched → VnodeTable W → Got W
  get_retries none s = panic
  get_retries (some sched) s = retries (record s { sched = sched })

  abbrev pub put_waits : Option Sched → VnodeTable W → Put W
  put_waits none s = panic
  put_waits (some sched) s = waits (record s { sched = sched })

  abbrev pub then_pages : (VnodeTable W → Put W) → Put W → Put W
  then_pages next (put s) = next s
  then_pages next other = other

  -- The end of `vput`: the count goes down, and at 0 the vnode is to be deleted.
  abbrev pub drop_ref : ℕ → VnodeTable W → Put W
  drop_ref v s =
      let x = s.vnodes v in
      if ltb 0 (x.refcount - 1)
      then put (set_vnode v (record x { refcount = x.refcount - 1 }) s)
      else if (x.refcount - 1 == 0) && (x.nrespages == 0)
      then deletes v (set_vnode v (record x { refcount = x.refcount - 1; busy = true }) s)
      else panic

  -- The assertions behind the loop over the pages.
  abbrev pub after_pages : ℕ → Put W → Put W
  after_pages v (put s) =
      if ((s.vnodes v).nrespages == 0) && ((s.vnodes v).refcount == 1) then drop_ref v s else panic
  after_pages v other = other

module _ {W : Type 0} (ops : FileSystems W) where
  -- A new vnode, marked busy and in use.
  abbrev pub new_vnode : ℕ → ℕ → ℕ → VnodeTable W → VnodeTable W
  new_vnode fs vno v s =
      let x : Vnode = record {
        fs = fs;
        vno = vno;
        mode = 0;
        special = plain;
        refcount = 0;
        nrespages = 0;
        busy = true;
        waitq = ops.fresh_queue s.world v;
      } in
      record (set_vnode v x s) { inuse = v ∷ s.inuse }

  abbrev pub get_new : ℕ → ℕ → Option ℕ × W → VnodeTable W → Got W
  get_new fs vno (none, w) s =
      get_retries (sched_make_runnable s.sched.current s.sched) (record s { world = w })
  get_new fs vno (some v, w) s = reads v (new_vnode fs vno v (record s { world = w }))

  abbrev pub get_found : ℕ → ℕ → Option ℕ → VnodeTable W → Got W
  get_found fs vno none s = get_new fs vno (ops.slab_alloc s.world) s
  get_found fs vno (some v) s =
      if (s.vnodes v).busy
      then get_sleeps (sched_sleep_on (s.vnodes v).waitq s.sched) s
      else got_ref v (vref v s)

  -- `vget`, one search of the list.
  unfoldable pub vget : ℕ → ℕ → VnodeTable W → Got W
  unfolding find_inuse vref
  vget fs vno s = get_found fs vno (find_inuse s.vnodes fs vno s.inuse) s

  -- `init_special_vnode`, for the modes of special files.
  abbrev pub special_of : ℕ → Special
  special_of mode =
      if ops.is_char mode then bytedev else if ops.is_block mode then blockdev else plain

  -- The rest of `vget` from `read_vnode` on. It wakes nobody.
  unfoldable pub vget_finish : ℕ → VnodeTable W → VnodeTable W
  vget_finish v s =
      let (mode, w) = ops.read_vnode s.world v in
      set_vnode v
        (record (s.vnodes v) { mode = mode; busy = false; special = special_of mode; refcount = 1 })
        (record s { world = w })

  -- `pframe_free` of a page of the vnode: its count goes down, and its object is put.
  abbrev pub page_gone : ℕ → ℕ → VnodeTable W → VnodeTable W
  page_gone v p s =
      set_vnode v (record (s.vnodes v) { nrespages = (s.vnodes v).nrespages - 1 })
        (record s { world = ops.uncache s.world p })

  -- The loop of `vput` over the pages; `put_object` is the put of the vnode's object.
  unfoldable pub free_pages : (ℕ → VnodeTable W → Put W) → ℕ → List ℕ → VnodeTable W → Put W
  free_pages put_object v [] s = put s
  free_pages put_object v (p ∷ rest) s =
      let next = then_pages (free_pages put_object v rest) (put_object v (page_gone v p s)) in
      if ops.page_is_busy s.world p
      then put_waits (sched_sleep_on (ops.page_waitq s.world p) s.sched) s
      else next

  -- `vput`, with a bound on how deep its calls of itself nest.
  unfoldable pub vput_at : ℕ → ℕ → VnodeTable W → Put W
  unfolding free_pages
  vput_at zero v s = panic
  vput_at (suc depth) v s =
      let x = s.vnodes v in
      let freeing = after_pages v (free_pages (vput_at depth) v (ops.pages s.world v) s) in
      if not (ltb x.nrespages x.refcount) || x.busy
      then panic
      else if (x.nrespages == x.refcount - 1) && not (ops.query_vnode s.world v)
      then freeing
      else drop_ref v s

  -- A nested put is never the one of the last active reference.
  unfoldable pub vput : ℕ → VnodeTable W → Put W
  unfolding vput_at
  vput v s = vput_at 2 v s

  abbrev pub unlink_vnode : ℕ → Option (Bool × Sched) → VnodeTable W → Option (VnodeTable W)
  unlink_vnode v none s = none
  unlink_vnode v (some (_, sched)) s =
      some
        (record s { inuse = remove_item v s.inuse; sched = sched; world = ops.slab_free s.world v })

  -- The rest of `vput` from `delete_vnode` on.
  unfoldable pub vput_finish : ℕ → VnodeTable W → Option (VnodeTable W)
  vput_finish v s =
      let s1 = record s { world = ops.delete_vnode s.world v } in
      unlink_vnode v (sched_broadcast_on (s1.vnodes v).waitq s1.sched) s1

  -- The loop of `vfs_is_in_use`, none where an assertion fails.
  unfoldable pub in_use_from : ℕ → List ℕ → Bool → VnodeTable W → Option Bool
  in_use_from fs [] ret s = some ret
  in_use_from fs (v ∷ rest) ret s =
      let x = s.vnodes v in
      let refs = x.refcount - x.nrespages in
      let root = ops.fs_root s.world fs in
      let ours = x.fs == fs in
      let after = in_use_from fs rest (ret || (ours && is_used root v refs)) s in
      if not (leb x.nrespages x.refcount)
      then none
      else if ours && (root == v) && not (leb 1 refs)
      then none
      else after

  -- `vfs_is_in_use`; true is -EBUSY.
  unfoldable pub vfs_is_in_use : ℕ → VnodeTable W → Option Bool
  unfolding in_use_from
  vfs_is_in_use fs s = in_use_from fs s.inuse false s

  -- `vnode_inuse`
  unfoldable pub count_inuse : ℕ → List ℕ → VnodeTable W → ℕ
  count_inuse fs [] s = 0
  count_inuse fs (v ∷ rest) s = (if (s.vnodes v).fs == fs then 1 else 0) + count_inuse fs rest s
