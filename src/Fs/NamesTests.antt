-- ===== src/Fs/NamesTests.antt =====
-- kernel/fs/namev.c: path names over vnodes that only count their references.
use kernel.Base.{ℕ, ◌+◌, ◌-◌, ◌<◌, ◌≡◌, refl, true, List, [], ◌∷◌, none, some, arith}
use kernel.Fs.Table.{one}
use kernel.Fs.Names.{
  looked_up, enametoolong, not_named, Vnodes, VnodeLaws, components, lookup, dir_namev, open_namev,
}
use kernel.Fs.Names.References.{Counts, OpenedCounts, open_namev_references, dir_namev_leaks}

abbrev Refs : Type 0
Refs = ℕ → ℕ

abbrev more : ℕ → Refs → Refs
more v s g = s g + one g (some v)

abbrev fewer : ℕ → Refs → Refs
fewer v s g = s g - one g (some v)

-- Every vnode is a directory, and every name in it is that of vnode 7.
abbrev counting : Vnodes Refs
counting = record {
  has_lookup = λ s v. true;
  has_create = λ s v. true;
  is_dir = λ s v. true;
  vn_lookup = λ s dir name. looked_up 7 (more 7 s);
  vn_create = λ s dir name. looked_up 8 (more 8 s);
  vref = λ s v. more v s;
  vput = λ s v. fewer v s;
}

fewer-refs : (s : Refs) (v g : ℕ) → 0 < s v → fewer v s g + one g (some v) ≡ s g
fewer-refs s v g h = ground arith

abbrev counting_laws : VnodeLaws counting
counting_laws = record {
  refs = λ s g. s g;
  vref_refs = λ s v g. refl;
  vput_refs = fewer-refs;
  lookup_refs = λ s dir name g. refl;
  create_refs = λ s dir name g. refl;
}

abbrev nothing : Refs
nothing g = 0

-- a/bbbb/c, where a name has three characters at most.
abbrev long_path : List ℕ
long_path = 97 ∷ 47 ∷ 98 ∷ 98 ∷ 98 ∷ 98 ∷ 47 ∷ 99 ∷ []

-- /a/b/
abbrev short_path : List ℕ
short_path = 47 ∷ 97 ∷ 47 ∷ 98 ∷ 47 ∷ []

open_namev_references_example :
    OpenedCounts counting_laws nothing (open_namev counting 100 3 1 2 true none short_path nothing)
open_namev_references_example =
    open_namev_references counting_laws 100 3 1 2 true none short_path nothing

dir_namev_leaks_example :
    (dir_namev counting 100 3 1 2 none long_path nothing ≡ not_named enametoolong (more 7 nothing))
    × Counts counting_laws nothing (some 7) (more 7 nothing)
unfolding components lookup
dir_namev_leaks_example =
    dir_namev_leaks counting_laws 100 3 1 2 7 none long_path (97 ∷ []) (98 ∷ 98 ∷ 98 ∷ 98 ∷ [])
      (99 ∷ []) [] nothing (more 7 nothing) (omega arith) (omega arith) refl (omega arith)
      (omega arith) refl
