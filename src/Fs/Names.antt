-- ===== src/Fs/Names.antt =====
-- kernel/fs/namev.c: `lookup`, `dir_namev` and `open_namev`. Path names are lists of character codes.
pub mod References
use kernel.Base.{
  ℕ, ◌+◌, ◌<◌, ◌≡◌, Bool, true, false, not, List, [], ◌∷◌, Option, none, some, ltb, ◌==◌, ◌&&◌,
  ◌||◌, if◌then◌else◌, length,
}
use kernel.Fs.Table.{one}

-- The errors that the code itself returns, and any other of a vnode's operation.
pub data NameError : Type 0 where
  einval enotdir enoent enametoolong : NameError
  other : ℕ → NameError

pub data LookedUp (S : Type 0) : Type 0 where
  looked_up : ℕ → S → LookedUp S  -- 0, and `*result`
  failed : NameError → S → LookedUp S

-- The result of `open_namev`.
pub data OpenedName (S : Type 0) : Type 0 where
  returned : LookedUp S → OpenedName S
  panic : OpenedName S  -- a failed assertion

-- The result of `dir_namev`: the directory and the last name, none for NULL.
pub data Named (S : Type 0) : Type 0 where
  named : ℕ → Option (List ℕ) → S → Named S
  not_named : NameError → S → Named S

-- The vnodes' operations and reference counts.
pub record Vnodes (S : Type 0) : Type 0 where
  pub has_lookup : S → ℕ → Bool  -- `vn_ops->lookup` is not NULL
  pub has_create : S → ℕ → Bool
  pub is_dir : S → ℕ → Bool  -- `vn_mode == S_IFDIR`
  pub vn_lookup : S → ℕ → List ℕ → LookedUp S
  pub vn_create : S → ℕ → List ℕ → LookedUp S
  pub vref : S → ℕ → S
  pub vput : S → ℕ → S

abbrev pub slash : ℕ
slash = 47

-- A component, unless it is empty, before the later ones.
abbrev pub with_component : List ℕ × List (List ℕ) → List (List ℕ)
with_component ([], later) = later
with_component (c ∷ cur, later) = (c ∷ cur) ∷ later

unfoldable pub scan : List ℕ → List ℕ × List (List ℕ)
scan [] = ([], [])
scan (c ∷ l) =
    let rest = scan l in if c == slash then ([], with_component rest) else (c ∷ rest.0, rest.1)

-- What stands between the slashes: the names that the pointers `curComName` and `nextComName` run
-- over.
unfoldable pub components : List ℕ → List (List ℕ)
unfolding scan
components path = with_component (scan path)

abbrev pub starts_with_slash : List ℕ → Bool
starts_with_slash [] = false
starts_with_slash (c ∷ _) = c == slash

module _ {S : Type 0} (vn : Vnodes S) where
  unfoldable pub lookup : S → ℕ → List ℕ → LookedUp S
  lookup s dir name =
      if not (vn.has_lookup s dir) || not (vn.is_dir s dir)
      then failed enotdir s
      else vn.vn_lookup s dir name

  -- `if (needToDecrease) vput(curPathBase)`
  abbrev pub put_if : Bool → ℕ → S → S
  put_if need cur s = if need then vn.vput s cur else s

  -- The loop of `dir_namev` and its end: `need` is `needToDecrease`, `name` the component at
  -- `curComName` and the list the later ones. `singleFilename` is 1 as long as `needToDecrease` is 0.
  unfoldable pub walk : ℕ → ℕ → Bool → List ℕ → List (List ℕ) → S → Named S
  unfolding lookup
  walk name_len cur need name [] s =
      let s' = if need then s else vn.vref s cur in
      if ltb name_len (length name)
      then not_named enametoolong (vn.vput s' cur)
      else named cur (some name) s'
  walk name_len cur need name (next ∷ rest) s = elim (ltb name_len (length name)) [
    | true ↦ not_named enametoolong s
    | false ↦ elim (lookup s cur name) [
      | failed e s' ↦ not_named e (put_if need cur s')
      | looked_up v s' ↦ walk name_len v true next rest (put_if need cur s')
    ]
  ]

  -- Where a path name starts.
  abbrev pub start_dir : ℕ → ℕ → Option ℕ → List ℕ → ℕ
  start_dir root cwd none path = if starts_with_slash path then root else cwd
  start_dir root cwd (some base) path = if starts_with_slash path then root else base

  -- A path without a component has only slashes.
  unfoldable pub resolve : ℕ → ℕ → ℕ → List (List ℕ) → S → Named S
  unfolding walk
  resolve name_len root start [] s = named root none (vn.vref s root)
  resolve name_len root start (name ∷ rest) s = walk name_len start false name rest s

  -- `dir_namev`, with `vfs_root_vn` and `p_cwd`.
  unfoldable pub dir_namev : ℕ → ℕ → ℕ → ℕ → Option ℕ → List ℕ → S → Named S
  unfolding components resolve
  dir_namev maxpathlen name_len root cwd base path s =
      if ltb maxpathlen (length path) || (length path == 0)
      then not_named einval s
      else resolve name_len root (start_dir root cwd base path) (components path) s

  abbrev pub put_after : ℕ → LookedUp S → LookedUp S
  put_after parent (looked_up v s) = looked_up v (vn.vput s parent)
  put_after parent (failed e s) = failed e (vn.vput s parent)

  -- The rest of `open_namev` after `lookup`; `creates` is `flag & O_CREAT`.
  unfoldable pub after_lookup : Bool → ℕ → List ℕ → LookedUp S → OpenedName S
  after_lookup creates parent name (failed enoent s) =
      if not creates
      then returned (failed enoent (vn.vput s parent))
      else if not (vn.has_create s parent)
      then panic
      else returned (put_after parent (vn.vn_create s parent name))
  after_lookup creates parent name r = returned (put_after parent r)

  -- The rest of `open_namev` after `dir_namev`.
  unfoldable pub open_in : Bool → ℕ → Named S → OpenedName S
  unfolding after_lookup lookup
  open_in creates root (not_named e s) = returned (failed e s)
  open_in creates root (named parent none s) =
      returned (looked_up root (vn.vput (vn.vref s root) parent))
  open_in creates root (named parent (some name) s) =
      after_lookup creates parent name (lookup s parent name)

  unfoldable pub open_namev : ℕ → ℕ → ℕ → ℕ → Bool → Option ℕ → List ℕ → S → OpenedName S
  unfolding open_in dir_namev
  open_namev maxpathlen name_len root cwd creates base path s =
      open_in creates root (dir_namev maxpathlen name_len root cwd base path s)

abbrev pub store_of : {S : Type 0} → LookedUp S → S
store_of (looked_up v s) = s
store_of (failed e s) = s

-- The vnode that the caller has a reference of.
abbrev pub vnode_of : {S : Type 0} → LookedUp S → Option ℕ
vnode_of (looked_up v s) = some v
vnode_of (failed e s) = none

-- `refs` is the reference count of a vnode: an operation that gives a vnode gives a reference of it.
pub record VnodeLaws {S : Type 0} (vn : Vnodes S) : Type 0 where
  pub refs : S → ℕ → ℕ
  pub vref_refs : (s : S) (v g : ℕ) → refs (vn.vref s v) g ≡ refs s g + one g (some v)
  pub vput_refs :
      (s : S) (v g : ℕ) → 0 < refs s v → refs (vn.vput s v) g + one g (some v) ≡ refs s g
  pub lookup_refs :
      (s : S) (dir : ℕ) (name : List ℕ) (g : ℕ)
      → refs (store_of (vn.vn_lookup s dir name)) g
        ≡ refs s g + one g (vnode_of (vn.vn_lookup s dir name))
  pub create_refs :
      (s : S) (dir : ℕ) (name : List ℕ) (g : ℕ)
      → refs (store_of (vn.vn_create s dir name)) g
        ≡ refs s g + one g (vnode_of (vn.vn_create s dir name))
