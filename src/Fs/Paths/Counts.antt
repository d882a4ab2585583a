-- ===== src/Fs/Paths/Counts.antt =====
-- kernel/fs/vfs_syscall.c: the counts of vnodes' references at the ends of the calls on path names.
use kernel.Base.{
  ℕ, ◌+◌, ◌≡◌, ◌≢◌, ◌⊎◌, inl, inr, refl, ap, Bool, true, false, List, Option, none, some,
  if◌then◌else◌, arith,
}
use kernel.Fs.Table.{one}
use kernel.Fs.Names.{NameError, enametoolong, Vnodes, VnodeLaws}
use kernel.Fs.Names.References.{Counts, Failure, put_if-Counts}
use kernel.Fs.Paths.{PathResult, name_error, broken, NodeOps}

-- The vnodes' operations leave the reference counts as they are when they return.
pub record NodeLaws {S : Type 0} {vn : Vnodes S} (laws : VnodeLaws vn) (nodes : NodeOps S)
    : Type 0 where
  pub mknod_refs :
      (s : S) (dir : ℕ) (name : List ℕ) (mode devid g : ℕ)
      → laws.refs (nodes.mknod s dir name mode devid).1 g ≡ laws.refs s g
  pub mkdir_refs :
      (s : S) (dir : ℕ) (name : List ℕ) (g : ℕ)
      → laws.refs (nodes.mkdir s dir name).1 g ≡ laws.refs s g
  pub rmdir_refs :
      (s : S) (dir : ℕ) (name : Option (List ℕ)) (g : ℕ)
      → laws.refs (nodes.rmdir s dir name).1 g ≡ laws.refs s g
  pub unlink_refs :
      (s : S) (dir : ℕ) (name : List ℕ) (g : ℕ)
      → laws.refs (nodes.unlink s dir name).1 g ≡ laws.refs s g
  pub link_refs :
      (s : S) (from to : ℕ) (name : List ℕ) (g : ℕ)
      → laws.refs (nodes.link s from to name).1 g ≡ laws.refs s g
  pub stat_refs : (s : S) (v g : ℕ) → laws.refs (nodes.stat s v).1 g ≡ laws.refs s g

module _ {S : Type 0} {vn : Vnodes S} (laws : VnodeLaws vn) where
  -- The counts are `n` again, but for a reference lost with -ENAMETOOLONG.
  abbrev pub Kept : (ℕ → ℕ) → PathResult → S → Type 0
  Kept n o s =
      Counts laws n none s
      ⊎ ((o ≡ name_error enametoolong) × ((lost : ℕ) × Counts laws n (some lost) s))

  abbrev pub Ends : (ℕ → ℕ) → PathResult × S → Type 0
  Ends n r = r.0 ≢ broken → Kept n r.0 r.1

  pub Ends-if :
      (n : ℕ → ℕ) (b : Bool) {x y : PathResult × S}
      → Ends n x
      → Ends n y
      → Ends n (if b then x else y)
  Ends-if n true h k = h
  Ends-if n false h k = k

  pub Ends-broken : (n : ℕ → ℕ) (s : S) → Ends n (broken, s)
  Ends-broken n s h = absurd (h refl)

  pub Ends-Failure :
      (n : ℕ → ℕ) (e : NameError) (s : S) → Failure laws n e s → Ends n (name_error e, s)
  Ends-Failure n e s (inl same) _ = inl same
  Ends-Failure n e s (inr (long, lost)) _ = inr (ap name_error long, lost)

  -- A vnode is given up and `o` is still held.
  pub put-Counts :
      (n : ℕ → ℕ) (v : ℕ) (o : Option ℕ) (s : S)
      → ((g : ℕ) → laws.refs s g ≡ n g + one g (some v) + one g o)
      → Counts laws n o (vn.vput s v)
  put-Counts n v o s h = put_if-Counts laws n true v o s h

  pub Ends-put :
      (n : ℕ → ℕ) (o : PathResult) (v : ℕ) (s : S)
      → Counts laws n (some v) s
      → Ends n (o, vn.vput s v)
  Ends-put n o v s h _ = inl (put-Counts n v none s (λ g. ground (arith, h g)))

  pub Ends-put_two :
      (n : ℕ → ℕ) (o : PathResult) (v w : ℕ) (s : S)
      → ((g : ℕ) → laws.refs s g ≡ n g + one g (some v) + one g (some w))
      → Ends n (o, vn.vput (vn.vput s v) w)
  Ends-put_two n o v w s h = Ends-put n o w (vn.vput s v) (put-Counts n v (some w) s h)
