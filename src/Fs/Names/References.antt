-- ===== src/Fs/Names/References.antt =====
-- kernel/fs/namev.c: what path names cost in references of vnodes.
use kernel.Base.{
  ℕ, ◌+◌, ◌<◌, ◌≤◌, ◌≡◌, ◌⊎◌, inl, inr, refl, Bool, true, false, not, List, [], ◌∷◌, Option, none,
  some, ltb, ◌==◌, ◌||◌, if◌then◌else◌, length, arith, Bool-cases,
}
use kernel.Fs.Table.{one}
use kernel.Fs.Names.{
  NameError, einval, enotdir, enoent, enametoolong, other, LookedUp, looked_up, failed, OpenedName,
  returned, panic, Named, named, not_named, Vnodes, VnodeLaws, components, resolve, lookup, put_if,
  walk, start_dir, dir_namev, put_after, after_lookup, open_in, open_namev, store_of, vnode_of,
}

module _ {S : Type 0} {vn : Vnodes S} (laws : VnodeLaws vn) where
  -- From the counts `n` on, the state has a reference more of `o`.
  abbrev pub Counts : (ℕ → ℕ) → Option ℕ → S → Type 0
  Counts n o s = (g : ℕ) → laws.refs s g ≡ n g + one g o

  -- A failure gives no reference, but for one that is lost with -ENAMETOOLONG.
  abbrev pub Failure : (ℕ → ℕ) → NameError → S → Type 0
  Failure n e s = Counts n none s ⊎ ((e ≡ enametoolong) × ((lost : ℕ) × Counts n (some lost) s))

  abbrev pub NamedCounts : (ℕ → ℕ) → Named S → Type 0
  NamedCounts n (named v name s) = Counts n (some v) s
  NamedCounts n (not_named e s) = Failure n e s

  abbrev pub OpenedCounts : (ℕ → ℕ) → OpenedName S → Type 0
  OpenedCounts n panic = Unit
  OpenedCounts n (returned (looked_up v s)) = Counts n (some v) s
  OpenedCounts n (returned (failed e s)) = Failure n e s

  pub lookup-Counts :
      (s : S) (dir : ℕ) (name : List ℕ) (g : ℕ)
      → laws.refs (store_of (lookup vn s dir name)) g
        ≡ laws.refs s g + one g (vnode_of (lookup vn s dir name))
  unfolding lookup
  lookup-Counts s dir name g =
      elim (Bool-cases (not (vn.has_lookup s dir) || not (vn.is_dir s dir))) [
        | inl bad ↦ rw bad (ground arith)
        | inr fine ↦ rw fine (laws.lookup_refs s dir name g)
      ]

  abbrev held : Bool → ℕ → Option ℕ
  held need cur = if need then some cur else none

  pub put_if-Counts :
      (n : ℕ → ℕ) (need : Bool) (cur : ℕ) (o : Option ℕ) (s : S)
      → ((g : ℕ) → laws.refs s g ≡ n g + one g (held need cur) + one g o)
      → Counts n o (put_if vn need cur s)
  put_if-Counts n true cur o s h g = ground (arith, h g, h cur, laws.vput_refs s cur g)
  put_if-Counts n false cur o s h g = ground (arith, h g)

  take_if-Counts :
      (n : ℕ → ℕ) (need : Bool) (cur : ℕ) (s : S)
      → Counts n (held need cur) s
      → Counts n (some cur) (if need then s else vn.vref s cur)
  take_if-Counts n true cur s h g = h g
  take_if-Counts n false cur s h g = ground (arith, h g, laws.vref_refs s cur g)

  too_long-Failure :
      (n : ℕ → ℕ) (need : Bool) (cur : ℕ) (s : S)
      → Counts n (held need cur) s
      → Failure n enametoolong s
  too_long-Failure n true cur s h = inr (refl, (cur, h))
  too_long-Failure n false cur s h = inl h

  pub LookedUp-cases :
      (r : LookedUp S)
      → ((v : ℕ) × (s : S) × (r ≡ looked_up v s)) ⊎ ((e : NameError) × (s : S) × (r ≡ failed e s))
  LookedUp-cases (looked_up v s) = inl (v, s, refl)
  LookedUp-cases (failed e s) = inr (e, s, refl)

  walk-Counts :
      (n : ℕ → ℕ) (name_len cur : ℕ) (need : Bool) (name : List ℕ) (rest : List (List ℕ)) (s : S)
      → Counts n (held need cur) s
      → NamedCounts n (walk vn name_len cur need name rest s)
  unfolding walk
  walk-Counts n name_len cur need name [] s h =
      let taken = take_if-Counts n need cur s h in
      elim (Bool-cases (ltb name_len (length name))) [
        | inl long ↦ rw long (
            inl (
              put_if-Counts n true cur none (if need then s else vn.vref s cur)
                (λ g. ground (arith, taken g))))
        | inr fits ↦ rw fits taken
      ]
  walk-Counts n name_len cur need name (next ∷ rest) s h =
      elim (Bool-cases (ltb name_len (length name))) [
        | inl long ↦ rw (long, walk) (too_long-Failure n need cur s h)
        | inr fits ↦ elim (LookedUp-cases (lookup vn s cur name)) [
          | inl (v, s', e) ↦
              rw (fits, e, walk)
                (walk-Counts n name_len v true next rest (put_if vn need cur s') (
                  put_if-Counts n need cur (some v) s'
                    (λ g. ground (arith, lookup-Counts s cur name g, e, h g))))
          | inr (err, s', e) ↦
              rw (fits, e, walk)
                (inl (
                  put_if-Counts n need cur none s'
                    (λ g. ground (arith, lookup-Counts s cur name g, e, h g))))
        ]
      ]

  resolve-Counts :
      (name_len root start : ℕ) (l : List (List ℕ)) (s : S)
      → NamedCounts (laws.refs s) (resolve vn name_len root start l s)
  unfolding resolve
  resolve-Counts name_len root start [] s = λ g. laws.vref_refs s root g
  resolve-Counts name_len root start (name ∷ rest) s =
      walk-Counts (laws.refs s) name_len start false name rest s (λ g. ground arith)

  put_after-Counts :
      (n : ℕ → ℕ) (parent : ℕ) (r : LookedUp S)
      → ((g : ℕ) → laws.refs (store_of r) g ≡ n g + one g (some parent) + one g (vnode_of r))
      → OpenedCounts n (returned (put_after vn parent r))
  put_after-Counts n parent (looked_up v s) h = put_if-Counts n true parent (some v) s h
  put_after-Counts n parent (failed e s) h = inl (put_if-Counts n true parent none s h)

  -- `dir_namev` gives the directory with one more reference, on success. On failure every count is as
  -- before, but for one reference that is lost with some -ENAMETOOLONG.
  pub dir_namev_references :
      (maxpathlen name_len root cwd : ℕ) (base : Option ℕ) (path : List ℕ) (s : S)
      → NamedCounts (laws.refs s) (dir_namev vn maxpathlen name_len root cwd base path s)
  unfolding dir_namev
  dir_namev_references maxpathlen name_len root cwd base path s =
      elim (Bool-cases (ltb maxpathlen (length path) || (length path == 0))) [
        | inl bad ↦ rw bad (inl (λ g. ground arith))
        | inr fine ↦
            rw fine
              (resolve-Counts name_len root (start_dir vn root cwd base path) (components path) s)
      ]

  after_lookup-Counts :
      (n : ℕ → ℕ) (creates : Bool) (parent : ℕ) (name : List ℕ) (r : LookedUp S)
      → ((g : ℕ) → laws.refs (store_of r) g ≡ n g + one g (some parent) + one g (vnode_of r))
      → OpenedCounts n (after_lookup vn creates parent name r)
  unfolding after_lookup
  after_lookup-Counts n creates parent name (looked_up v s) h =
      put_if-Counts n true parent (some v) s h
  after_lookup-Counts n creates parent name (failed enoent s) h = elim (Bool-cases creates) [
    | inr plain ↦ rw plain (inl (put_if-Counts n true parent none s h))
    | inl make ↦ elim (Bool-cases (vn.has_create s parent)) [
      | inr lacks ↦ rw (make, lacks) tt
      | inl has ↦
          rw (make, has)
            (put_after-Counts n parent (vn.vn_create s parent name)
              (λ g. ground (arith, h g, laws.create_refs s parent name g)))
    ]
  ]
  after_lookup-Counts n creates parent name (failed einval s) h =
      inl (put_if-Counts n true parent none s h)
  after_lookup-Counts n creates parent name (failed enotdir s) h =
      inl (put_if-Counts n true parent none s h)
  after_lookup-Counts n creates parent name (failed enametoolong s) h =
      inl (put_if-Counts n true parent none s h)
  after_lookup-Counts n creates parent name (failed (other w) s) h =
      inl (put_if-Counts n true parent none s h)

  open_in-Counts :
      (n : ℕ → ℕ) (creates : Bool) (root : ℕ) (r : Named S)
      → NamedCounts n r
      → OpenedCounts n (open_in vn creates root r)
  unfolding open_in
  open_in-Counts n creates root (not_named e s) h = h
  open_in-Counts n creates root (named parent none s) h = λ g. ground (
    arith,
    h g,
    h parent,
    laws.vref_refs s root g,
    laws.vref_refs s root parent,
    laws.vput_refs (vn.vref s root) parent g,
  )
  open_in-Counts n creates root (named parent (some name) s) h =
      after_lookup-Counts n creates parent name (lookup vn s parent name)
        (λ g. ground (arith, h g, lookup-Counts s parent name g))

  -- `open_namev` gives the vnode with one more reference, on success; the reference of its directory
  -- is given up again. On failure every count is as before, but for one reference that is lost with
  -- some -ENAMETOOLONG.
  pub open_namev_references :
      (maxpathlen name_len root cwd : ℕ) (creates : Bool) (base : Option ℕ) (path : List ℕ) (s : S)
      → OpenedCounts (laws.refs s) (open_namev vn maxpathlen name_len root cwd creates base path s)
  unfolding open_namev
  open_namev_references maxpathlen name_len root cwd creates base path s =
      open_in-Counts (laws.refs s) creates root
        (dir_namev vn maxpathlen name_len root cwd base path s)
        (dir_namev_references maxpathlen name_len root cwd base path s)

  -- Without a name the directory is the root.
  abbrev pub Rooted : ℕ → Named S → Type 0
  Rooted root (named v none s) = v ≡ root
  Rooted root (named v (some name) s) = Unit
  Rooted root (not_named e s) = Unit

  walk-Rooted :
      (root name_len cur : ℕ) (need : Bool) (name : List ℕ) (rest : List (List ℕ)) (s : S)
      → Rooted root (walk vn name_len cur need name rest s)
  unfolding walk
  walk-Rooted root name_len cur need name [] s = elim (Bool-cases (ltb name_len (length name))) [
    | inl long ↦ rw long tt
    | inr fits ↦ rw fits tt
  ]
  walk-Rooted root name_len cur need name (next ∷ rest) s =
      elim (Bool-cases (ltb name_len (length name))) [
        | inl long ↦ rw (long, walk) tt
        | inr fits ↦ elim (LookedUp-cases (lookup vn s cur name)) [
          | inl (v, s', e) ↦
              rw (fits, e, walk)
                (walk-Rooted root name_len v true next rest (put_if vn need cur s'))
          | inr (err, s', e) ↦ rw (fits, e, walk) tt
        ]
      ]

  resolve-Rooted :
      (name_len root start : ℕ) (l : List (List ℕ)) (s : S)
      → Rooted root (resolve vn name_len root start l s)
  unfolding resolve
  resolve-Rooted name_len root start [] s = refl
  resolve-Rooted name_len root start (name ∷ rest) s =
      walk-Rooted root name_len start false name rest s

  pub dir_namev-Rooted :
      (maxpathlen name_len root cwd : ℕ) (base : Option ℕ) (path : List ℕ) (s : S)
      → Rooted root (dir_namev vn maxpathlen name_len root cwd base path s)
  unfolding dir_namev
  dir_namev-Rooted maxpathlen name_len root cwd base path s =
      elim (Bool-cases (ltb maxpathlen (length path) || (length path == 0))) [
        | inl bad ↦ rw bad tt
        | inr fine ↦
            rw fine
              (resolve-Rooted name_len root (start_dir vn root cwd base path) (components path) s)
      ]

  -- A path of at least three names, whose first is found and whose second is too long: the result is
  -- -ENAMETOOLONG, and the first directory has a reference more than before, for good. The path has
  -- no more than MAXPATHLEN characters.
  pub dir_namev_leaks :
      (maxpathlen name_len root cwd v : ℕ) (base : Option ℕ) (path first long next : List ℕ)
      (rest : List (List ℕ)) (s s' : S)
      → length path ≤ maxpathlen
      → 0 < length path
      → components path ≡ first ∷ long ∷ next ∷ rest
      → length first ≤ name_len
      → name_len < length long
      → lookup vn s (start_dir vn root cwd base path) first ≡ looked_up v s'
      → (dir_namev vn maxpathlen name_len root cwd base path s ≡ not_named enametoolong s')
        × Counts (laws.refs s) (some v) s'
  unfolding dir_namev resolve walk
  dir_namev_leaks maxpathlen name_len root cwd v base path first long next rest s s' le ne split
        fits is_long e =
      let good : ltb maxpathlen (length path) || (length path == 0) ≡ false = ground arith in
      let fits' : ltb name_len (length first) ≡ false = ground arith in
      let long' : ltb name_len (length long) ≡ true = ground arith in
      (
        rw (good, split, fits', e, walk, long') refl,
        λ g. ground (arith, lookup-Counts s (start_dir vn root cwd base path) first g, e),
      )
