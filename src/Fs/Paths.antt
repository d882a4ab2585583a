-- ===== src/Fs/Paths.antt =====
-- kernel/fs/vfs_syscall.c: the calls on path names.
pub mod Balance
pub mod Counts
pub mod Calls
use kernel.Base.{ℕ, Bool, true, false, not, List, [], ◌∷◌, Option, none, some, ◌==◌, if◌then◌else◌}
use kernel.Fs.Names.{
  NameError, einval, enotdir, enoent, LookedUp, looked_up, failed, OpenedName, returned, panic,
  Named, named, not_named, Vnodes, lookup, dir_namev, open_namev,
}

-- What a call returns: the result of a vnode's operation, an error, or a failed assertion.
pub data PathResult : Type 0 where
  result : ℕ → PathResult
  name_error : NameError → PathResult
  eexist eisdir enotempty broken : PathResult

-- The operations of vnodes, by the directory and the name, and whether their pointers are not NULL.
pub record NodeOps (S : Type 0) : Type 0 where
  pub has_mknod : S → ℕ → Bool
  pub has_mkdir : S → ℕ → Bool
  pub has_rmdir : S → ℕ → Bool
  pub has_unlink : S → ℕ → Bool
  pub has_stat : S → ℕ → Bool
  pub mknod : S → ℕ → List ℕ → ℕ → ℕ → ℕ × S  -- with the mode and the device
  pub mkdir : S → ℕ → List ℕ → ℕ × S
  pub rmdir : S → ℕ → Option (List ℕ) → ℕ × S
  pub unlink : S → ℕ → List ℕ → ℕ × S
  pub link : S → ℕ → ℕ → List ℕ → ℕ × S
  pub stat : S → ℕ → ℕ × S

-- `strncmp(name, ".", namelen) == 0`, also for NULL with length 0.
abbrev pub is_dot : Option (List ℕ) → Bool
is_dot none = true
is_dot (some []) = true
is_dot (some (c ∷ [])) = c == 46
is_dot _ = false

abbrev pub is_dotdot : Option (List ℕ) → Bool
is_dotdot (some (c ∷ d ∷ [])) = if c == 46 then d == 46 else false
is_dotdot n = is_dot n

-- The calls that leave `p_cwd` as it is.
pub data PathCall : Type 0 where
  call_mknod : (path : List ℕ) (valid : Bool) (mode devid : ℕ) → PathCall
  call_mkdir call_rmdir call_unlink call_stat : (path : List ℕ) → PathCall
  call_link call_rename : (from to : List ℕ) → PathCall

module _ {S : Type 0} (vn : Vnodes S) (nodes : NodeOps S) (maxpathlen name_len root cwd : ℕ) where
  abbrev pub resolve_dir : List ℕ → S → Named S
  resolve_dir path s = dir_namev vn maxpathlen name_len root cwd none path s

  abbrev pub resolve_open : List ℕ → S → OpenedName S
  resolve_open path s = open_namev vn maxpathlen name_len root cwd false none path s

  -- The end of a call that gives its directory up.
  abbrev pub put_parent : ℕ → ℕ × S → PathResult × S
  put_parent parent (w, s) = (result w, vn.vput s parent)

  -- `result` of `do_mknod` is not set when `lookup` fails; `unset` is what it holds then.
  abbrev pub put_unset : Option ℕ → S → S
  put_unset none s = s
  put_unset (some v) s = vn.vput s v

  unfoldable pub mknod_at : Option ℕ → ℕ → ℕ → ℕ → List ℕ → LookedUp S → PathResult × S
  mknod_at unset mode devid parent name (looked_up v s) = (eexist, vn.vput (vn.vput s v) parent)
  mknod_at unset mode devid parent name (failed enoent s) =
      if nodes.has_mknod s parent
      then put_parent parent (nodes.mknod s parent name mode devid)
      else (broken, s)
  mknod_at unset mode devid parent name (failed e s) =
      (name_error e, vn.vput (put_unset unset s) parent)

  unfoldable pub mknod_in : Option ℕ → ℕ → ℕ → Named S → PathResult × S
  unfolding mknod_at
  mknod_in unset mode devid (not_named e s) = (name_error e, s)
  mknod_in unset mode devid (named parent none s) = (broken, s)
  mknod_in unset mode devid (named parent (some name) s) =
      mknod_at unset mode devid parent name (lookup vn s parent name)

  -- `do_mknod`; `valid` says that the mode is S_IFBLK or S_IFCHR.
  unfoldable pub do_mknod : Option ℕ → List ℕ → Bool → ℕ → ℕ → S → PathResult × S
  unfolding mknod_in
  do_mknod unset path valid mode devid s =
      if valid then mknod_in unset mode devid (resolve_dir path s) else (name_error einval, s)

  unfoldable pub mkdir_at : ℕ → List ℕ → LookedUp S → PathResult × S
  mkdir_at parent name (looked_up v s) = (eexist, vn.vput (vn.vput s parent) v)
  mkdir_at parent name (failed enoent s) =
      if nodes.has_mkdir s parent
      then put_parent parent (nodes.mkdir s parent name)
      else (broken, s)
  mkdir_at parent name (failed e s) = (name_error e, vn.vput s parent)

  unfoldable pub mkdir_in : Named S → PathResult × S
  unfolding mkdir_at
  mkdir_in (not_named e s) = (name_error e, s)
  mkdir_in (named parent none s) = (eexist, vn.vput s root)
  mkdir_in (named parent (some name) s) =
      if vn.is_dir s parent
      then mkdir_at parent name (lookup vn s parent name)
      else (name_error enotdir, vn.vput s parent)

  unfoldable pub do_mkdir : List ℕ → S → PathResult × S
  unfolding mkdir_in
  do_mkdir path s = mkdir_in (resolve_dir path s)

  unfoldable pub rmdir_in : Named S → PathResult × S
  rmdir_in (not_named e s) = (name_error e, s)
  rmdir_in (named parent name s) =
      if not (vn.is_dir s parent)
      then (name_error enotdir, vn.vput s parent)
      else if is_dot name
      then (name_error einval, vn.vput s parent)
      else if is_dotdot name
      then (enotempty, vn.vput s parent)
      else if nodes.has_rmdir s parent
      then put_parent parent (nodes.rmdir s parent name)
      else (broken, s)

  unfoldable pub do_rmdir : List ℕ → S → PathResult × S
  unfolding rmdir_in
  do_rmdir path s = rmdir_in (resolve_dir path s)

  -- The mode is read after the vnode has been given up.
  unfoldable pub unlink_at : ℕ → List ℕ → LookedUp S → PathResult × S
  unlink_at parent name (failed e s) = (name_error e, vn.vput s parent)
  unlink_at parent name (looked_up v s) =
      let s' = vn.vput s v in
      if vn.is_dir s' v
      then (eisdir, vn.vput s' parent)
      else if nodes.has_unlink s' parent
      then put_parent parent (nodes.unlink s' parent name)
      else (broken, s')

  unfoldable pub unlink_in : Named S → PathResult × S
  unfolding unlink_at
  unlink_in (not_named e s) = (name_error e, s)
  unlink_in (named parent none s) = (broken, s)
  unlink_in (named parent (some name) s) = unlink_at parent name (lookup vn s parent name)

  unfoldable pub do_unlink : List ℕ → S → PathResult × S
  unfolding unlink_in
  do_unlink path s = unlink_in (resolve_dir path s)

  -- Any error of `lookup` but -ENOTDIR goes on to `link`.
  unfoldable pub link_at : ℕ → ℕ → List ℕ → LookedUp S → PathResult × S
  link_at from to name (looked_up v s) = (eexist, vn.vput (vn.vput (vn.vput s from) to) v)
  link_at from to name (failed enotdir s) = (name_error enotdir, vn.vput (vn.vput s from) to)
  link_at from to name (failed e s) =
      let (w, s') = nodes.link s from to name in (result w, vn.vput (vn.vput s' from) to)

  unfoldable pub link_in : ℕ → Named S → PathResult × S
  unfolding link_at
  link_in from (not_named e s) = (name_error e, vn.vput s from)
  link_in from (named to none s) = (broken, s)
  link_in from (named to (some name) s) = link_at from to name (lookup vn s to name)

  unfoldable pub link_from : List ℕ → OpenedName S → S → PathResult × S
  unfolding link_in
  link_from to panic s0 = (broken, s0)
  link_from to (returned (failed e s)) s0 = (name_error e, s)
  link_from to (returned (looked_up from s)) s0 =
      if vn.is_dir s from then (eisdir, vn.vput s from) else link_in from (resolve_dir to s)

  unfoldable pub do_link : List ℕ → List ℕ → S → PathResult × S
  unfolding link_from
  do_link from to s = link_from to (resolve_open from s) s

  -- `do_rename`: the link, and if it gives 0 the unlink.
  unfoldable pub after_link : List ℕ → PathResult × S → PathResult × S
  unfolding do_unlink
  after_link oldname (result w, s) = if w == 0 then do_unlink oldname s else (result w, s)
  after_link oldname r = r

  unfoldable pub do_rename : List ℕ → List ℕ → S → PathResult × S
  unfolding after_link do_link
  do_rename oldname newname s = after_link oldname (do_link oldname newname s)

  unfoldable pub stat_of : OpenedName S → S → PathResult × S
  stat_of panic s0 = (broken, s0)
  stat_of (returned (failed e s)) s0 = (name_error e, s)
  stat_of (returned (looked_up v s)) s0 =
      if nodes.has_stat s v then put_parent v (nodes.stat s v) else (broken, s)

  -- `do_stat` of a path that is not NULL.
  unfoldable pub do_stat : List ℕ → S → PathResult × S
  unfolding stat_of
  do_stat path s = stat_of (resolve_open path s) s

  -- The new `p_cwd`, if there is one.
  unfoldable pub chdir_to : OpenedName S → S → PathResult × (Option ℕ) × S
  chdir_to panic s0 = (broken, none, s0)
  chdir_to (returned (failed e s)) s0 = (name_error e, none, s)
  chdir_to (returned (looked_up v s)) s0 =
      if vn.is_dir s v
      then (result 0, some v, vn.vput s cwd)
      else (name_error enotdir, none, vn.vput s v)

  unfoldable pub do_chdir : List ℕ → S → PathResult × (Option ℕ) × S
  unfolding chdir_to
  do_chdir path s = chdir_to (resolve_open path s) s

  unfoldable pub run_path_call : Option ℕ → PathCall → S → PathResult × S
  unfolding do_mknod do_mkdir do_rmdir do_unlink do_stat do_link do_rename
  run_path_call unset (call_mknod path valid mode devid) s = do_mknod unset path valid mode devid s
  run_path_call unset (call_mkdir path) s = do_mkdir path s
  run_path_call unset (call_rmdir path) s = do_rmdir path s
  run_path_call unset (call_unlink path) s = do_unlink path s
  run_path_call unset (call_stat path) s = do_stat path s
  run_path_call unset (call_link from to) s = do_link from to s
  run_path_call unset (call_rename from to) s = do_rename from to s
