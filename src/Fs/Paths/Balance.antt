-- ===== src/Fs/Paths/Balance.antt =====
-- kernel/fs/vfs_syscall.c: the references of the calls that make and remove names.
use kernel.Base.{ℕ, ◌+◌, ◌≡◌, not, List, none, some, arith}
use kernel.Fs.Table.{one}
use kernel.Fs.Names.{
  einval, enotdir, enoent, enametoolong, other, Vnodes, VnodeLaws, LookedUp, looked_up, failed,
  Named, named, not_named, lookup, store_of, vnode_of,
}
use kernel.Fs.Names.References.{Counts, NamedCounts, Rooted, lookup-Counts}
use kernel.Fs.Paths.{
  result, name_error, eexist, eisdir, enotempty, NodeOps, is_dot, is_dotdot, mknod_at, mknod_in,
  mkdir_at, mkdir_in, rmdir_in, unlink_at, unlink_in,
}
use kernel.Fs.Paths.Counts.{
  NodeLaws, Ends, Ends-if, Ends-broken, Ends-Failure, put-Counts, Ends-put, Ends-put_two,
}

module _ {S : Type 0} {vn : Vnodes S} {nodes : NodeOps S} (laws : VnodeLaws vn)
    (kept : NodeLaws laws nodes) (maxpathlen name_len root cwd : ℕ) where
  -- The state after a lookup, when a reference of the directory is held.
  abbrev pub Looked : (ℕ → ℕ) → ℕ → LookedUp S → Type 0
  Looked n parent r =
      (g : ℕ) → laws.refs (store_of r) g ≡ n g + one g (some parent) + one g (vnode_of r)

  pub looked :
      (n : ℕ → ℕ) (parent : ℕ) (name : List ℕ) (s : S)
      → Counts laws n (some parent) s
      → Looked n parent (lookup vn s parent name)
  looked n parent name s h g = ground (arith, lookup-Counts laws s parent name g, h g)

  mknod_at-Ends :
      (n : ℕ → ℕ) (mode devid parent : ℕ) (name : List ℕ) (r : LookedUp S)
      → Looked n parent r
      → Ends laws n (mknod_at vn nodes maxpathlen name_len root cwd none mode devid parent name r)
  unfolding mknod_at
  mknod_at-Ends n mode devid parent name (looked_up v s) h =
      Ends-put_two laws n eexist v parent s (λ g. ground (arith, h g))
  mknod_at-Ends n mode devid parent name (failed enoent s) h =
      Ends-if laws n (nodes.has_mknod s parent)
        (Ends-put laws n (result (nodes.mknod s parent name mode devid).0) parent
          (nodes.mknod s parent name mode devid).1
          (λ g. ground (arith, h g, kept.mknod_refs s parent name mode devid g)))
        (Ends-broken laws n s)
  mknod_at-Ends n mode devid parent name (failed einval s) h =
      Ends-put laws n (name_error einval) parent s (λ g. ground (arith, h g))
  mknod_at-Ends n mode devid parent name (failed enotdir s) h =
      Ends-put laws n (name_error enotdir) parent s (λ g. ground (arith, h g))
  mknod_at-Ends n mode devid parent name (failed enametoolong s) h =
      Ends-put laws n (name_error enametoolong) parent s (λ g. ground (arith, h g))
  mknod_at-Ends n mode devid parent name (failed (other w) s) h =
      Ends-put laws n (name_error (other w)) parent s (λ g. ground (arith, h g))

  pub mknod_in-Ends :
      (n : ℕ → ℕ) (mode devid : ℕ) (r : Named S)
      → NamedCounts laws n r
      → Ends laws n (mknod_in vn nodes maxpathlen name_len root cwd none mode devid r)
  unfolding mknod_in
  mknod_in-Ends n mode devid (not_named e s) h = Ends-Failure laws n e s h
  mknod_in-Ends n mode devid (named parent none s) h = Ends-broken laws n s
  mknod_in-Ends n mode devid (named parent (some name) s) h =
      mknod_at-Ends n mode devid parent name (lookup vn s parent name) (looked n parent name s h)

  mkdir_at-Ends :
      (n : ℕ → ℕ) (parent : ℕ) (name : List ℕ) (r : LookedUp S)
      → Looked n parent r
      → Ends laws n (mkdir_at vn nodes maxpathlen name_len root cwd parent name r)
  unfolding mkdir_at
  mkdir_at-Ends n parent name (looked_up v s) h =
      Ends-put_two laws n eexist parent v s (λ g. ground (arith, h g))
  mkdir_at-Ends n parent name (failed enoent s) h =
      Ends-if laws n (nodes.has_mkdir s parent)
        (Ends-put laws n (result (nodes.mkdir s parent name).0) parent (nodes.mkdir s parent name).1
          (λ g. ground (arith, h g, kept.mkdir_refs s parent name g)))
        (Ends-broken laws n s)
  mkdir_at-Ends n parent name (failed einval s) h =
      Ends-put laws n (name_error einval) parent s (λ g. ground (arith, h g))
  mkdir_at-Ends n parent name (failed enotdir s) h =
      Ends-put laws n (name_error enotdir) parent s (λ g. ground (arith, h g))
  mkdir_at-Ends n parent name (failed enametoolong s) h =
      Ends-put laws n (name_error enametoolong) parent s (λ g. ground (arith, h g))
  mkdir_at-Ends n parent name (failed (other w) s) h =
      Ends-put laws n (name_error (other w)) parent s (λ g. ground (arith, h g))

  pub mkdir_in-Ends :
      (n : ℕ → ℕ) (r : Named S)
      → Rooted laws root r
      → NamedCounts laws n r
      → Ends laws n (mkdir_in vn nodes maxpathlen name_len root cwd r)
  unfolding mkdir_in
  mkdir_in-Ends n (not_named e s) top h = Ends-Failure laws n e s h
  mkdir_in-Ends n (named parent none s) top h =
      Ends-put laws n eexist root s (λ g. ground (arith, h g))
  mkdir_in-Ends n (named parent (some name) s) top h =
      Ends-if laws n (vn.is_dir s parent)
        (mkdir_at-Ends n parent name (lookup vn s parent name) (looked n parent name s h))
        (Ends-put laws n (name_error enotdir) parent s h)

  pub rmdir_in-Ends :
      (n : ℕ → ℕ) (r : Named S)
      → NamedCounts laws n r
      → Ends laws n (rmdir_in vn nodes maxpathlen name_len root cwd r)
  unfolding rmdir_in
  rmdir_in-Ends n (not_named e s) h = Ends-Failure laws n e s h
  rmdir_in-Ends n (named parent name s) h =
      Ends-if laws n (not (vn.is_dir s parent)) (Ends-put laws n (name_error enotdir) parent s h) (
        Ends-if laws n (is_dot name) (Ends-put laws n (name_error einval) parent s h) (
          Ends-if laws n (is_dotdot name) (Ends-put laws n enotempty parent s h) (
            Ends-if laws n (nodes.has_rmdir s parent)
              (Ends-put laws n (result (nodes.rmdir s parent name).0) parent
                (nodes.rmdir s parent name).1
                (λ g. ground (arith, h g, kept.rmdir_refs s parent name g)))
              (Ends-broken laws n s))))

  unlink_at-Ends :
      (n : ℕ → ℕ) (parent : ℕ) (name : List ℕ) (r : LookedUp S)
      → Looked n parent r
      → Ends laws n (unlink_at vn nodes maxpathlen name_len root cwd parent name r)
  unfolding unlink_at
  unlink_at-Ends n parent name (failed e s) h =
      Ends-put laws n (name_error e) parent s (λ g. ground (arith, h g))
  unlink_at-Ends n parent name (looked_up v s) h =
      let h' : Counts laws n (some parent) (vn.vput s v) =
        put-Counts laws n v (some parent) s (λ g. ground (arith, h g)) in
      Ends-if laws n (vn.is_dir (vn.vput s v) v) (Ends-put laws n eisdir parent (vn.vput s v) h') (
        Ends-if laws n (nodes.has_unlink (vn.vput s v) parent)
          (Ends-put laws n (result (nodes.unlink (vn.vput s v) parent name).0) parent
            (nodes.unlink (vn.vput s v) parent name).1
            (λ g. ground (arith, h' g, kept.unlink_refs (vn.vput s v) parent name g)))
          (Ends-broken laws n (vn.vput s v)))

  pub unlink_in-Ends :
      (n : ℕ → ℕ) (r : Named S)
      → NamedCounts laws n r
      → Ends laws n (unlink_in vn nodes maxpathlen name_len root cwd r)
  unfolding unlink_in
  unlink_in-Ends n (not_named e s) h = Ends-Failure laws n e s h
  unlink_in-Ends n (named parent none s) h = Ends-broken laws n s
  unlink_in-Ends n (named parent (some name) s) h =
      unlink_at-Ends n parent name (lookup vn s parent name) (looked n parent name s h)
