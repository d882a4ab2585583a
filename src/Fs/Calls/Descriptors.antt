-- ===== src/Fs/Calls/Descriptors.antt =====
-- kernel/fs/open.c, kernel/fs/vfs_syscall.c: which descriptors open, dup and dup2 give.
use kernel.Base.{
  ℕ, ◌<◌, ◌≡◌, ◌≢◌, ◌⊎◌, inl, inr, refl, true, false, none, some, ◌&&◌, arith, Option-cases, length,
}
use kernel.Fs.Table.{
  Table, entry, set_entry, get_empty_fd, get_empty_fd-lowest, get_empty_fd-full, entry-set_entry,
}
use kernel.Fs.Files.{
  FileOps, FileLaws, Files, opened, refused, Outcome, value, minus, einval, eisdir, emfile, enomem,
  out_of_range, set_store, set_fd, set_file,
}
use kernel.Fs.Calls.{do_dup, dup_file, mode_of, flags_invalid}

-- The same descriptors.
abbrev pub SameTable : Table → Table → Type 0
SameTable t t' = (i : ℕ) → entry i t' ≡ entry i t

-- The descriptor `fd` is set to `f`, the others are as before.
abbrev pub SetTo : ℕ → ℕ → Table → Table → Type 0
SetTo fd f t t' = (entry fd t' ≡ some f) × ((i : ℕ) → i ≢ fd → entry i t' ≡ entry i t)

set_entry-SetTo : (fd f : ℕ) (t : Table) → fd < length t → SetTo fd f t (set_entry fd (some f) t)
set_entry-SetTo fd f t lt = (
  ground (arith, entry-set_entry fd fd (some f) t lt),
  λ i ne. ground (arith, entry-set_entry fd i (some f) t lt),
)

module _ {S : Type 0} (ops : FileOps S) (nfiles : ℕ) where
  -- The descriptor `fd` of a new open file: the lowest that was free.
  pub record Opens (fd f v oflags : ℕ) (st st' : Files S) : Type 0 where
    pub lowest : (i : ℕ) → i < fd → entry i st.open_files ≢ none
    pub free : entry fd st.open_files ≡ none
    pub set : SetTo fd f st.open_files st'.open_files
    pub file : st'.file f ≡ record { mode = mode_of oflags; pos = 0; vnode = v }

  -- What `do_open` promises. Only the last case changes the descriptors.
  pub data OpenResult (path oflags : ℕ) (st : Files S) (r : Outcome × Files S) : Type 0 where
    bad_flags : flags_invalid oflags ≡ true → r ≡ (minus einval, st) → OpenResult path oflags st r
    table_full :
        ((i : ℕ) → i < length st.open_files → entry i st.open_files ≢ none)
        → r ≡ (minus emfile, st)
        → OpenResult path oflags st r
    no_memory :
        (s : S)
        → ops.fget_new st.store ≡ (none, s)
        → r ≡ (minus enomem, set_store s st)
        → OpenResult path oflags st r
    not_opened :
        (f w : ℕ) (s s' : S)
        → ops.fget_new st.store ≡ (some f, s)
        → ops.open_namev s path oflags ≡ refused w s'
        → r.0 ≡ value w
        → SameTable st.open_files r.1.open_files
        → OpenResult path oflags st r
    writes_directory :
        (f v : ℕ) (s s' : S)
        → ops.fget_new st.store ≡ (some f, s)
        → ops.open_namev s path oflags ≡ opened v s'
        → ops.is_dir s' v && (mode_of oflags).writes ≡ true
        → r.0 ≡ minus eisdir
        → SameTable st.open_files r.1.open_files
        → OpenResult path oflags st r
    opens :
        (fd f v : ℕ) (s s' : S)
        → ops.fget_new st.store ≡ (some f, s)
        → ops.open_namev s path oflags ≡ opened v s'
        → ops.is_dir s' v && (mode_of oflags).writes ≡ false
        → r.0 ≡ value fd
        → Opens fd f v oflags st r.1
        → OpenResult path oflags st r

  -- The new file with its mode, at the descriptor `fd`.
  abbrev with_new : ℕ → ℕ → ℕ → Files S → Files S
  with_new oflags fd f st =
      set_file f (record (st.file f) { mode = mode_of oflags }) (set_fd fd (some f) st)

  module _ (laws : FileLaws ops) where
    -- `do_dup` of an open descriptor returns the lowest free descriptor, which then is one of the
    -- same open file, or -EMFILE if none is free; every other descriptor is as before.
    pub dup_lowest :
        (fd f : ℕ) (st : Files S)
        → out_of_range nfiles fd ≡ false
        → entry fd st.open_files ≡ some f
        → (o : Outcome) × (st' : Files S) × (do_dup ops nfiles fd st ≡ (o, st'))
          × ((((i : ℕ) → i < length st.open_files → entry i st.open_files ≢ none)
                × (o ≡ minus emfile)
                × SameTable st.open_files st'.open_files)
              ⊎ ((new_fd : ℕ) × (o ≡ value new_fd)
                  × (entry new_fd st.open_files ≡ none)
                  × ((i : ℕ) → i < new_fd → entry i st.open_files ≢ none)
                  × SetTo new_fd f st.open_files st'.open_files))
    unfolding do_dup dup_file
    dup_lowest fd f st fine here =
        let (s, got, _) = laws.fget_open st.open_files fd f st.store here in
        elim (Option-cases (get_empty_fd st.open_files)) [
          | inl full ↦ (
            minus emfile,
            set_store (ops.fput s f) st,
            rw (fine, got, full, do_dup, dup_file) refl,
            inl (get_empty_fd-full st.open_files full, refl, λ i. refl),
          )
          | inr (new_fd, free) ↦
              let (lt, empty, lower) = get_empty_fd-lowest new_fd st.open_files free in
              (
                value new_fd,
                set_fd new_fd (some f) (set_store s st),
                rw (fine, got, free, do_dup, dup_file) refl,
                inr (new_fd, refl, empty, lower, set_entry-SetTo new_fd f st.open_files lt),
              )
        ]
