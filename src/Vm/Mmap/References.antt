-- ===== src/Vm/Mmap/References.antt =====
-- kernel/vm/mmap.c: `do_mmap` gives up the reference that it takes of the open file.
use kernel.Base.{
  ℕ, ◌+◌, ◌≡◌, refl, sym, subst, inl, inr, Option, none, some, arith, Option-cases, if-Holds,
}
use kernel.Vm.Area.{Layout}
use kernel.Vm.Objects.{Objects}
use kernel.Vm.Map.{Mapped, vmmap_map}
use kernel.Fs.Table.{entry, one}
use kernel.Fs.Files.{FileOps, FileLaws, set_store}
use kernel.Vm.Mmap.{
  Arguments, Limits, State, MmapResult, returned, map_failed, refuses, file_refuses, request,
  give_up, finish_mmap, map_anon, map_file, do_mmap,
}

module _ {F S : Type 0} {fops : FileOps F} (laws : FileLaws fops) (ops : Objects S) (l : Layout)
    (c : Limits F) (tlb_flush : S → ℕ → ℕ → S) where
  -- A result after which every open file has the references of `s`.
  abbrev pub Keeps : F → MmapResult F S → Type 0
  Keeps s (returned ret t) = (g : ℕ) → laws.refs t.files.store g ≡ laws.refs s g
  Keeps s (map_failed t) = (g : ℕ) → laws.refs t.files.store g ≡ laws.refs s g
  Keeps s MmapResult.panic = Unit {0}

  -- The state after `fget` has taken a reference of the file.
  abbrev Holds : F → Option ℕ → F → Type 0
  Holds s file t = (g : ℕ) → laws.refs t g ≡ laws.refs s g + one g file

  give_up-refs :
      (s : F) (file : Option ℕ) (st : State F S)
      → Holds s file st.files.store
      → (g : ℕ) → laws.refs (give_up fops ops l c tlb_flush file st).files.store g ≡ laws.refs s g
  give_up-refs s none st held g = omega (arith, held g)
  give_up-refs s (some f) st held g =
      ground (arith, held g, held f, laws.fput_refs st.files.store f g)

  finish_mmap-Keeps :
      (a : Arguments) (s : F) (file : Option ℕ) (st : State F S) (r : Mapped S)
      → Holds s file st.files.store
      → Keeps s (finish_mmap fops ops l c tlb_flush a file st r)
  finish_mmap-Keeps a s file st (Mapped.mapped s1 m vma) held =
      give_up-refs s file (record st { store = tlb_flush s1 _ _; map = m }) held
  finish_mmap-Keeps a s file st (Mapped.failed s1 m) held =
      give_up-refs s file (record st { store = s1; map = m }) held
  finish_mmap-Keeps a s file st Mapped.panic held = tt

  map_file-Keeps :
      (a : Arguments) (file : Option ℕ) (s : F) (st : State F S)
      → Holds st.files.store file s
      → Keeps st.files.store (map_file fops ops l c tlb_flush a (file, s) st)
  map_file-Keeps a none s st held = λ g. omega (arith, held g)
  map_file-Keeps a (some f) s st held =
      let st1 : State F S = record st { files = set_store s st.files } in
      let file = st.files.file f in
      if-Holds (Keeps st.files.store) (file_refuses fops ops l c tlb_flush a file s)
        {x = map_failed (give_up fops ops l c tlb_flush (some f) st1)}
        (λ _. give_up-refs st.files.store (some f) st1 held)
        λ _.
          finish_mmap-Keeps a st.files.store (some f) st1
            (vmmap_map ops l st.store st.map (request fops ops l c tlb_flush a (some file.vnode)))
            held

  fget-Keeps :
      (a : Arguments) (st : State F S)
      → Keeps st.files.store
          (map_file fops ops l c tlb_flush a (fops.fget st.files.open_files a.fd st.files.store) st)
  fget-Keeps a st =
      let table = st.files.open_files in
      let s = st.files.store in
      let goal : Option ℕ × F → Type 0 = λ r. Keeps s (map_file fops ops l c tlb_flush a r st) in
      elim (Option-cases (entry a.fd table)) [
        | inl closed ↦
            subst goal (sym (laws.fget_closed table a.fd s closed))
              (map_file-Keeps a none s st (λ g. omega arith))
        | inr (f, used) ↦
            let (s', got, refs) = laws.fget_open table a.fd f s used in
            subst goal (sym got) (map_file-Keeps a (some f) s' st refs)
      ]

  -- Whatever `do_mmap` returns, every open file has as many references as before, provided that fget
  -- and fput count as documented.
  pub mmap_references :
      (a : Arguments) (st : State F S) → Keeps st.files.store (do_mmap fops ops l c tlb_flush a st)
  unfolding do_mmap
  mmap_references a st =
      if-Holds (Keeps st.files.store) (refuses fops ops l c tlb_flush a) {x = map_failed st}
        (λ _ g. refl)
        λ _.
          if-Holds (Keeps st.files.store) a.is_anon {x = map_anon fops ops l c tlb_flush a st}
            (λ _.
              finish_mmap-Keeps a st.files.store none st
                (vmmap_map ops l st.store st.map (request fops ops l c tlb_flush a none))
                λ g. omega arith)
            λ _. fget-Keeps a st
