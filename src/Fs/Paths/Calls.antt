-- ===== src/Fs/Paths/Calls.antt =====
-- kernel/fs/vfs_syscall.c: no call on path names loses or takes a reference of its own.
use kernel.Base.{
  ℕ, ◌+◌, ◌<◌, ◌≡◌, ◌≢◌, inl, inr, refl, false, List, Option, none, some, ◌==◌, arith, Bool-cases,
}
use kernel.Fs.Table.{one}
use kernel.Fs.Names.{
  NameError, einval, enotdir, enoent, enametoolong, other, Vnodes, VnodeLaws, LookedUp, looked_up,
  failed, OpenedName, returned, panic, Named, named, not_named, lookup,
}
use kernel.Fs.Names.References.{
  Counts, Failure, NamedCounts, OpenedCounts, dir_namev_references, open_namev_references,
  dir_namev-Rooted,
}
use kernel.Fs.Paths.{
  PathResult, result, name_error, eexist, eisdir, enotempty, broken, NodeOps, do_mknod, do_mkdir,
  do_rmdir, do_unlink, link_at, link_in, link_from, do_link, after_link, do_rename, stat_of,
  do_stat, chdir_to, do_chdir, resolve_dir, resolve_open, PathCall, call_mknod, call_mkdir,
  call_rmdir, call_unlink, call_stat, call_link, call_rename, run_path_call,
}
use kernel.Fs.Paths.Counts.{
  NodeLaws, Kept, Ends, Ends-if, Ends-broken, Ends-Failure, put-Counts, Ends-put, Ends-put_two,
}
use kernel.Fs.Paths.Balance.{
  Looked, looked, mknod_in-Ends, mkdir_in-Ends, rmdir_in-Ends, unlink_in-Ends,
}

module _ {S : Type 0} {vn : Vnodes S} {nodes : NodeOps S} (laws : VnodeLaws vn)
    (kept : NodeLaws laws nodes) (maxpathlen name_len root cwd : ℕ) where
  link_at-Ends :
      (n : ℕ → ℕ) (from to : ℕ) (name : List ℕ) (r : LookedUp S)
      → Looked laws kept maxpathlen name_len root cwd (λ g. n g + one g (some from)) to r
      → Ends laws n (link_at vn nodes maxpathlen name_len root cwd from to name r)
  unfolding link_at
  link_at-Ends n from to name (looked_up v s) h =
      Ends-put laws n eexist v (vn.vput (vn.vput s from) to) (
        put-Counts laws n to (some v) (vn.vput s from)
          (put-Counts laws (λ g. n g + one g (some to)) from (some v) s (λ g. ground (arith, h g))))
  link_at-Ends n from to name (failed enotdir s) h =
      Ends-put_two laws n (name_error enotdir) from to s (λ g. ground (arith, h g))
  link_at-Ends n from to name (failed enoent s) h =
      Ends-put_two laws n (result (nodes.link s from to name).0) from to
        (nodes.link s from to name).1 (λ g. ground (arith, h g, kept.link_refs s from to name g))
  link_at-Ends n from to name (failed einval s) h =
      Ends-put_two laws n (result (nodes.link s from to name).0) from to
        (nodes.link s from to name).1 (λ g. ground (arith, h g, kept.link_refs s from to name g))
  link_at-Ends n from to name (failed enametoolong s) h =
      Ends-put_two laws n (result (nodes.link s from to name).0) from to
        (nodes.link s from to name).1 (λ g. ground (arith, h g, kept.link_refs s from to name g))
  link_at-Ends n from to name (failed (other w) s) h =
      Ends-put_two laws n (result (nodes.link s from to name).0) from to
        (nodes.link s from to name).1 (λ g. ground (arith, h g, kept.link_refs s from to name g))

  -- The second name's failure, with the first vnode given up.
  second-Failure :
      (n : ℕ → ℕ) (from : ℕ) (e : NameError) (s : S)
      → Failure laws (λ g. n g + one g (some from)) e s
      → Failure laws n e (vn.vput s from)
  second-Failure n from e s (inl same) =
      inl (put-Counts laws n from none s (λ g. ground (arith, same g)))
  second-Failure n from e s (inr (long, (lost, same))) =
      inr (long, (lost, put-Counts laws n from (some lost) s (λ g. ground (arith, same g))))

  link_in-Ends :
      (n : ℕ → ℕ) (from : ℕ) (r : Named S)
      → NamedCounts laws (λ g. n g + one g (some from)) r
      → Ends laws n (link_in vn nodes maxpathlen name_len root cwd from r)
  unfolding link_in
  link_in-Ends n from (not_named e s) h =
      Ends-Failure laws n e (vn.vput s from) (second-Failure n from e s h)
  link_in-Ends n from (named to none s) h = Ends-broken laws n s
  link_in-Ends n from (named to (some name) s) h =
      link_at-Ends n from to name (lookup vn s to name)
        (looked laws kept maxpathlen name_len root cwd (λ g. n g + one g (some from)) to name s h)

  resolve-shift :
      (n n' : ℕ → ℕ) (r : Named S)
      → ((g : ℕ) → n g ≡ n' g)
      → NamedCounts laws n r
      → NamedCounts laws n' r
  resolve-shift n n' (named v name s) e h = λ g. ground (arith, e g, h g)
  resolve-shift n n' (not_named err s) e (inl same) = inl (λ g. ground (arith, e g, same g))
  resolve-shift n n' (not_named err s) e (inr (long, (lost, same))) =
      inr (long, (lost, λ g. ground (arith, e g, same g)))

  resolve_from :
      (n : ℕ → ℕ) (path : List ℕ) (s : S)
      → Counts laws n none s
      → NamedCounts laws n (resolve_dir vn nodes maxpathlen name_len root cwd path s)
  resolve_from n path s h =
      resolve-shift (laws.refs s) n (resolve_dir vn nodes maxpathlen name_len root cwd path s)
        (λ g. ground (arith, h g))
        (dir_namev_references laws maxpathlen name_len root cwd none path s)

  -- The second name is resolved in a state with a reference of the first vnode.
  second_name :
      (n : ℕ → ℕ) (from : ℕ) (to : List ℕ) (s : S)
      → Counts laws n (some from) s
      → NamedCounts laws
          (λ g. n g + one g (some from))
          (resolve_dir vn nodes maxpathlen name_len root cwd to s)
  second_name n from to s h =
      resolve_from (λ g. n g + one g (some from)) to s (λ g. ground (arith, h g))

  link_from-Ends :
      (n : ℕ → ℕ) (to : List ℕ) (r : OpenedName S) (s0 : S)
      → OpenedCounts laws n r
      → Ends laws n (link_from vn nodes maxpathlen name_len root cwd to r s0)
  unfolding link_from
  link_from-Ends n to panic s0 h = Ends-broken laws n s0
  link_from-Ends n to (returned (failed e s)) s0 h = Ends-Failure laws n e s h
  link_from-Ends n to (returned (looked_up from s)) s0 h =
      Ends-if laws n (vn.is_dir s from) (Ends-put laws n eisdir from s h) (
        link_in-Ends n from (resolve_dir vn nodes maxpathlen name_len root cwd to s)
          (second_name n from to s h))

  stat_of-Ends :
      (n : ℕ → ℕ) (r : OpenedName S) (s0 : S)
      → OpenedCounts laws n r
      → Ends laws n (stat_of vn nodes maxpathlen name_len root cwd r s0)
  unfolding stat_of
  stat_of-Ends n panic s0 h = Ends-broken laws n s0
  stat_of-Ends n (returned (failed e s)) s0 h = Ends-Failure laws n e s h
  stat_of-Ends n (returned (looked_up v s)) s0 h =
      Ends-if laws n (nodes.has_stat s v)
        (Ends-put laws n (result (nodes.stat s v).0) v (nodes.stat s v).1
          (λ g. ground (arith, h g, kept.stat_refs s v g)))
        (Ends-broken laws n s)

  do_unlink-Ends :
      (n : ℕ → ℕ) (path : List ℕ) (s : S)
      → Counts laws n none s
      → Ends laws n (do_unlink vn nodes maxpathlen name_len root cwd path s)
  unfolding do_unlink
  do_unlink-Ends n path s h =
      unlink_in-Ends laws kept maxpathlen name_len root cwd n
        (resolve_dir vn nodes maxpathlen name_len root cwd path s) (resolve_from n path s h)

  after_link-Ends :
      (n : ℕ → ℕ) (oldname : List ℕ) (r : PathResult × S)
      → Ends laws n r
      → Ends laws n (after_link vn nodes maxpathlen name_len root cwd oldname r)
  unfolding after_link
  after_link-Ends n oldname (result w, s) h = elim (h (ground arith)) [
    | inl same ↦ Ends-if laws n (w == 0) (do_unlink-Ends n oldname s same) (λ _. inl same)
    | inr (long, _) ↦ absurd (ground arith)
  ]
  after_link-Ends n oldname (name_error e, s) h = h
  after_link-Ends n oldname (eexist, s) h = h
  after_link-Ends n oldname (eisdir, s) h = h
  after_link-Ends n oldname (enotempty, s) h = h
  after_link-Ends n oldname (broken, s) h = h

  do_link-Ends :
      (from to : List ℕ) (s : S)
      → Ends laws (laws.refs s) (do_link vn nodes maxpathlen name_len root cwd from to s)
  unfolding do_link
  do_link-Ends from to s =
      link_from-Ends (laws.refs s) to (resolve_open vn nodes maxpathlen name_len root cwd from s) s
        (open_namev_references laws maxpathlen name_len root cwd false none from s)

  -- A call on path names, whatever it returns, leaves the reference count of every vnode as it was,
  -- but for one reference that is lost when it returns -ENAMETOOLONG. The vnodes' operations are
  -- assumed to count as documented, no assertion to fail, and `result` in `do_mknod`, which is not
  -- initialised, to be NULL.
  pub path_call_references :
      (c : PathCall) (s : S)
      → Ends laws (laws.refs s) (run_path_call vn nodes maxpathlen name_len root cwd none c s)
  unfolding run_path_call do_mknod do_mkdir do_rmdir do_stat do_rename
  path_call_references (call_mknod path valid mode devid) s =
      Ends-if laws (laws.refs s) valid
        (mknod_in-Ends laws kept maxpathlen name_len root cwd (laws.refs s) mode devid
          (resolve_dir vn nodes maxpathlen name_len root cwd path s)
          (dir_namev_references laws maxpathlen name_len root cwd none path s))
        (λ _. inl (λ g. ground arith))
  path_call_references (call_mkdir path) s =
      mkdir_in-Ends laws kept maxpathlen name_len root cwd (laws.refs s)
        (resolve_dir vn nodes maxpathlen name_len root cwd path s)
        (dir_namev-Rooted laws maxpathlen name_len root cwd none path s)
        (dir_namev_references laws maxpathlen name_len root cwd none path s)
  path_call_references (call_rmdir path) s =
      rmdir_in-Ends laws kept maxpathlen name_len root cwd (laws.refs s)
        (resolve_dir vn nodes maxpathlen name_len root cwd path s)
        (dir_namev_references laws maxpathlen name_len root cwd none path s)
  path_call_references (call_unlink path) s =
      do_unlink-Ends (laws.refs s) path s (λ g. ground arith)
  path_call_references (call_stat path) s =
      stat_of-Ends (laws.refs s) (resolve_open vn nodes maxpathlen name_len root cwd path s) s
        (open_namev_references laws maxpathlen name_len root cwd false none path s)
  path_call_references (call_link from to) s = do_link-Ends from to s
  path_call_references (call_rename from to) s =
      after_link-Ends (laws.refs s) from (do_link vn nodes maxpathlen name_len root cwd from to s)
        (do_link-Ends from to s)

  -- Without a new working directory the counts are kept; otherwise its reference replaces that of
  -- the old one.
  abbrev pub Moved : (ℕ → ℕ) → PathResult × (Option ℕ) × S → Type 0
  Moved n (o, none, s) = o ≢ broken → Kept laws n o s
  Moved n (o, some v, s) =
      (o ≡ result 0) × ((g : ℕ) → laws.refs s g + one g (some cwd) ≡ n g + one g (some v))

  chdir_to-Moved :
      (n : ℕ → ℕ) (r : OpenedName S) (s0 : S)
      → 0 < n cwd
      → OpenedCounts laws n r
      → Moved n (chdir_to vn nodes maxpathlen name_len root cwd r s0)
  unfolding chdir_to
  chdir_to-Moved n panic s0 own h = λ alive. absurd (alive refl)
  chdir_to-Moved n (returned (failed e s)) s0 own h = Ends-Failure laws n e s h
  chdir_to-Moved n (returned (looked_up v s)) s0 own h = elim (Bool-cases (vn.is_dir s v)) [
    | inl dir ↦ rw dir (refl, λ g. ground (arith, h g, h cwd, laws.vput_refs s cwd g))
    | inr plain ↦ rw plain (Ends-put laws n (name_error enotdir) v s h)
  ]

  -- `do_chdir` to a directory returns 0, and the new `p_cwd` has a reference more and the old one a
  -- reference less. Otherwise `p_cwd` stays and the counts are as before, but for one reference that
  -- is lost with -ENAMETOOLONG. The process has a reference of its `p_cwd`, and the vnodes'
  -- operations are assumed to count as documented.
  pub chdir_moves_reference :
      (path : List ℕ) (s : S)
      → 0 < laws.refs s cwd
      → Moved (laws.refs s) (do_chdir vn nodes maxpathlen name_len root cwd path s)
  unfolding do_chdir
  chdir_moves_reference path s own =
      chdir_to-Moved (laws.refs s) (resolve_open vn nodes maxpathlen name_len root cwd path s) s own
        (open_namev_references laws maxpathlen name_len root cwd false none path s)
