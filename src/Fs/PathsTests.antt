-- ===== src/Fs/PathsTests.antt =====
-- kernel/fs/vfs_syscall.c: calls on path names over vnodes that only count their references.
use kernel.Base.{
  ℕ, ◌+◌, ◌-◌, ◌<◌, ◌≡◌, refl, Bool, true, false, List, [], ◌∷◌, none, some, ◌==◌, if◌then◌else◌,
  arith,
}
use kernel.Fs.Table.{one}
use kernel.Fs.Names.{store_of, vnode_of, LookedUp, looked_up, failed, enoent, Vnodes, VnodeLaws}
use kernel.Fs.Paths.{NodeOps, call_rename, run_path_call}
use kernel.Fs.Paths.Counts.{NodeLaws, Ends}
use kernel.Fs.Paths.Calls.{path_call_references}

abbrev Refs : Type 0
Refs = ℕ → ℕ

abbrev more : ℕ → Refs → Refs
more v s g = s g + one g (some v)

abbrev fewer : ℕ → Refs → Refs
fewer v s g = s g - one g (some v)

abbrev find : Bool → Refs → LookedUp Refs
find true s = looked_up 7 (more 7 s)
find false s = failed enoent s

-- A name that starts with `a` (97) is vnode 7, others are missing; vnode 7 is no directory.
abbrev is_known : List ℕ → Bool
is_known [] = false
is_known (c ∷ _) = c == 97

abbrev counting : Vnodes Refs
counting = record {
  has_lookup = λ s v. true;
  has_create = λ s v. true;
  is_dir = λ s v. if v == 7 then false else true;
  vn_lookup = λ s dir name. find (is_known name) s;
  vn_create = λ s dir name. find true s;
  vref = λ s v. more v s;
  vput = λ s v. fewer v s;
}

abbrev nodes : NodeOps Refs
nodes = record {
  has_mknod = λ s v. true;
  has_mkdir = λ s v. true;
  has_rmdir = λ s v. true;
  has_unlink = λ s v. true;
  has_stat = λ s v. true;
  mknod = λ s dir name mode devid. (0, s);
  mkdir = λ s dir name. (0, s);
  rmdir = λ s dir name. (0, s);
  unlink = λ s dir name. (0, s);
  link = λ s from to name. (0, s);
  stat = λ s v. (0, s);
}

fewer-refs : (s : Refs) (v g : ℕ) → 0 < s v → fewer v s g + one g (some v) ≡ s g
fewer-refs s v g h = ground arith

find-refs :
    (b : Bool) (s : Refs) (g : ℕ) → store_of (find b s) g ≡ s g + one g (vnode_of (find b s))
find-refs true s g = refl
find-refs false s g = ground arith

abbrev counting_laws : VnodeLaws counting
counting_laws = record {
  refs = λ s g. s g;
  vref_refs = λ s v g. refl;
  vput_refs = fewer-refs;
  lookup_refs = λ s dir name g. find-refs (is_known name) s g;
  create_refs = λ s dir name g. refl;
}

abbrev node_laws : NodeLaws counting_laws nodes
node_laws = record {
  mknod_refs = λ s dir name mode devid g. refl;
  mkdir_refs = λ s dir name g. refl;
  rmdir_refs = λ s dir name g. refl;
  unlink_refs = λ s dir name g. refl;
  link_refs = λ s from to name g. refl;
  stat_refs = λ s v g. refl;
}

-- One reference of the root 1 and of the working directory 2.
abbrev two_held : Refs
two_held = more 1 (more 2 (λ g. 0))

-- Rename a to b.
path_call_references_example :
    Ends counting_laws two_held
      (run_path_call counting nodes 100 3 1 2 none (call_rename (97 ∷ []) (98 ∷ [])) two_held)
path_call_references_example =
    path_call_references counting_laws node_laws 100 3 1 2 (call_rename (97 ∷ []) (98 ∷ []))
      two_held
