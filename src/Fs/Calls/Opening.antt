-- ===== src/Fs/Calls/Opening.antt =====
-- kernel/fs/vfs_syscall.c, kernel/fs/open.c: opening, closing and duplicating keep the references.
use kernel.Base.{
  ℕ, ◌<◌, ◌≡◌, inl, inr, refl, false, Option, none, some, ◌==◌, ◌&&◌, arith, length, Option-cases,
}
use kernel.Fs.Table.{
  entry, set_entry, get_empty_fd, length-set_entry, entry-set_entry, entry-length,
  get_empty_fd-lowest,
}
use kernel.Fs.Files.{
  FileOps, FileLaws, Opened, opened, refused, Files, value, minus, eisdir, out_of_range, set_store,
  set_fd, set_file, put_file,
}
use kernel.Fs.Calls.{
  close_file, do_close, dup_file, after_close, dup2_file, opened_file, open_new, mode_of,
}
use kernel.Fs.Calls.References.{
  plus, Kept, Ends, Ends-if, Ends-put, put_file-Balanced, set_store-Balanced, clear-Balanced,
  fill-Balanced, get-Balanced,
}

module _ {S : Type 0} {ops : FileOps S} (laws : FileLaws ops) (nfiles : ℕ) where
  pub close_file-Balanced :
      (other : ℕ → ℕ) (fd f : ℕ) (st : Files S)
      → entry fd st.open_files ≡ some f
      → Kept laws nfiles (plus other f) st
      → Ends laws nfiles other (close_file ops nfiles fd f st)
  unfolding close_file
  close_file-Balanced other fd f st e b = λ _.
      put_file-Balanced laws nfiles other f (put_file ops f (set_fd fd none st)) (
        put_file-Balanced laws nfiles (plus other f) f (set_fd fd none st)
          (clear-Balanced laws nfiles (plus other f) fd f st e b))

  pub dup_file-Balanced :
      (other : ℕ → ℕ) (f : ℕ) (st : Files S)
      → Kept laws nfiles (plus other f) st
      → Ends laws nfiles other (dup_file ops nfiles f st)
  unfolding dup_file
  dup_file-Balanced other f st b = elim (Option-cases (get_empty_fd st.open_files)) [
    | inl full ↦ rw (full, dup_file) (λ _. put_file-Balanced laws nfiles other f st b)
    | inr (fd, free) ↦
        let (lt, empty, _) = get_empty_fd-lowest fd st.open_files free in
        rw (free, dup_file) (λ _. fill-Balanced laws nfiles other fd f st lt empty b)
  ]

  -- Closing an open descriptor.
  pub do_close-open :
      (fd x : ℕ) (st : Files S)
      → out_of_range nfiles fd ≡ false
      → entry fd st.open_files ≡ some x
      → (st' : Files S) × (do_close ops nfiles fd st ≡ (value 0, st'))
        × (st'.open_files ≡ set_entry fd none st.open_files)
        × ((other : ℕ → ℕ) → Kept laws nfiles other st → Kept laws nfiles other st')
  unfolding do_close close_file
  do_close-open fd x st fine here =
      let (s, got, more) = laws.fget_open st.open_files fd x st.store here in
      (
        put_file ops x (put_file ops x (set_fd fd none (set_store s st))),
        rw (fine, got) refl,
        refl,
        (λ other b.
            close_file-Balanced other fd x (set_store s st) here
              (get-Balanced laws nfiles other x s st more b) (ground arith)),
      )

  pub dup2_file-Balanced :
      (other : ℕ → ℕ) (ofd nfd f : ℕ) (st : Files S)
      → out_of_range nfiles nfd ≡ false
      → Kept laws nfiles (plus other f) st
      → Ends laws nfiles other (dup2_file ops nfiles ofd nfd f st)
  unfolding dup2_file after_close
  dup2_file-Balanced other ofd nfd f st fine b =
      Ends-if laws nfiles other (ofd == nfd) (λ _. Ends-put laws nfiles other (value nfd) f st b)
        (λ _. elim (Option-cases (entry nfd st.open_files)) [
          | inl free ↦
              rw free
                (λ _. fill-Balanced laws nfiles other nfd f st (ground (arith, b.size)) free b)
          | inr (x, taken) ↦
              let (st', closed, table, kept) = do_close-open nfd x st fine taken in
              let lt = entry-length nfd x st.open_files taken in
              rw (taken, closed)
                (λ _.
                  fill-Balanced laws nfiles other nfd f st'
                    (ground (arith, table, length-set_entry nfd none st.open_files))
                    (ground (arith, table, entry-set_entry nfd nfd none st.open_files lt))
                    (kept (plus other f) b))
        ])

  opened_file-Balanced :
      (other : ℕ → ℕ) (fd f path flags : ℕ) (o : Opened S) (st : Files S)
      → entry fd st.open_files ≡ some f
      → ops.open_namev st.store path flags ≡ o
      → Kept laws nfiles other st
      → Ends laws nfiles other (opened_file ops nfiles fd f st o)
  unfolding opened_file
  opened_file-Balanced other fd f path flags (refused w s) st e got b =
      Ends-put laws nfiles other (value w) f (set_fd fd none (set_store s st)) (
        clear-Balanced laws nfiles other fd f (set_store s st) e (
          set_store-Balanced laws nfiles other s st (laws.refused_refs st.store s path flags w got)
            b))
  opened_file-Balanced other fd f path flags (opened v s) st e got b =
      let b' =
        set_store-Balanced laws nfiles other s st (laws.opened_refs st.store s path flags v got)
          b in
      let st1 : Files S = set_file f (record (st.file f) { vnode = v }) (set_store s st) in
      Ends-if laws nfiles other (ops.is_dir s v && (st.file f).mode.writes)
        (λ _.
          Ends-put laws nfiles other (minus eisdir) f (set_fd fd none st1) (
            clear-Balanced laws nfiles other fd f st1 e
              (record { size = b'.size; refs = b'.refs })))
        (λ _ _. record { size = b'.size; refs = b'.refs })

  pub open_new-Balanced :
      (other : ℕ → ℕ) (path oflags fd : ℕ) (o : Option ℕ) (s : S) (st : Files S)
      → fd < length st.open_files
      → entry fd st.open_files ≡ none
      → ops.fget_new st.store ≡ (o, s)
      → Kept laws nfiles other st
      → Ends laws nfiles other (open_new ops nfiles path oflags fd (o, s) st)
  unfolding open_new
  open_new-Balanced other path oflags fd none s st lt e got b = λ _. record {
    size = b.size;
    refs = λ g. ground (arith, b.refs g, laws.fget_new_refs none st.store s got g);
  }
  open_new-Balanced other path oflags fd (some f) s st lt e got b =
      opened_file-Balanced other fd f path oflags (ops.open_namev s path oflags)
        (set_file f (record (st.file f) { mode = mode_of oflags })
          (set_fd fd (some f) (set_store s st)))
        (ground (arith, entry-set_entry fd fd (some f) st.open_files lt)) refl
        (let b1 = fill-Balanced laws nfiles other fd f (set_store s st) lt e (
            get-Balanced laws nfiles other f s st (laws.fget_new_refs (some f) st.store s got) b) in
          record { size = b1.size; refs = b1.refs })
