-- ===== src/Fs/Calls/References.antt =====
-- kernel/fs/vfs_syscall.c, kernel/fs/open.c: what the calls do to the reference counts of open files.
use kernel.Base.{
  ℕ, ◌+◌, ◌<◌, ◌≡◌, ◌≢◌, inl, inr, refl, ◌∙◌, Bool, true, false, none, some, if◌then◌else◌, arith,
  length, Bool-cases, Option-cases,
}
use kernel.Fs.Table.{entry, one, descriptors-set_entry, length-set_entry, entry-length}
use kernel.Fs.Files.{
  File, FileOps, FileLaws, Files, Outcome, panic, out_of_range, set_store, set_fd, set_file,
  put_file, Balanced,
}
use kernel.Fs.Calls.{with_file}

-- One more reference to the file `f`.
abbrev pub plus : (ℕ → ℕ) → ℕ → ℕ → ℕ
plus other f g = other g + one g (some f)

module _ {S : Type 0} {ops : FileOps S} (laws : FileLaws ops) (nfiles : ℕ) where
  abbrev pub Kept : (ℕ → ℕ) → Files S → Type 0
  Kept other st = Balanced laws nfiles other st

  pub put_file-Balanced :
      (other : ℕ → ℕ) (f : ℕ) (st : Files S)
      → Kept (plus other f) st
      → Kept other (put_file ops f st)
  put_file-Balanced other f st b = record {
    size = b.size;
    refs = λ g. ground (arith, b.refs g, b.refs f, laws.fput_refs st.store f g);
  }

  pub set_file-Balanced :
      (other : ℕ → ℕ) (f : ℕ) (x : File) (st : Files S)
      → Kept other st
      → Kept other (set_file f x st)
  set_file-Balanced other f x st b = record { size = b.size; refs = b.refs }

  pub set_store-Balanced :
      (other : ℕ → ℕ) (s : S) (st : Files S)
      → ((g : ℕ) → laws.refs s g ≡ laws.refs st.store g)
      → Kept other st
      → Kept other (set_store s st)
  set_store-Balanced other s st same b = record {
    size = b.size;
    refs = λ g. ground (arith, b.refs g, same g);
  }

  -- Clearing a descriptor leaves its reference without an owner.
  pub clear-Balanced :
      (other : ℕ → ℕ) (fd f : ℕ) (st : Files S)
      → entry fd st.open_files ≡ some f
      → Kept other st
      → Kept (plus other f) (set_fd fd none st)
  clear-Balanced other fd f st e b = record {
    size = length-set_entry fd none st.open_files ∙ b.size;
    refs = λ g. ground (
      arith,
      b.refs g,
      descriptors-set_entry g fd none st.open_files (entry-length fd f st.open_files e),
    );
  }

  -- Setting a free descriptor takes a reference over.
  pub fill-Balanced :
      (other : ℕ → ℕ) (fd f : ℕ) (st : Files S)
      → fd < length st.open_files
      → entry fd st.open_files ≡ none
      → Kept (plus other f) st
      → Kept other (set_fd fd (some f) st)
  fill-Balanced other fd f st lt e b = record {
    size = length-set_entry fd (some f) st.open_files ∙ b.size;
    refs = λ g. ground (arith, b.refs g, descriptors-set_entry g fd (some f) st.open_files lt);
  }

  -- `fget` of an open descriptor.
  pub get-Balanced :
      (other : ℕ → ℕ) (f : ℕ) (s : S) (st : Files S)
      → ((g : ℕ) → laws.refs s g ≡ laws.refs st.store g + one g (some f))
      → Kept other st
      → Kept (plus other f) (set_store s st)
  get-Balanced other f s st more b = record {
    size = b.size;
    refs = λ g. ground (arith, b.refs g, more g);
  }

  -- The outcome of a call; a failed assertion stops the kernel.
  abbrev pub Ends : (ℕ → ℕ) → Outcome × Files S → Type 0
  Ends other r = r.0 ≢ panic → Kept other r.1

  pub Ends-if :
      (other : ℕ → ℕ) (b : Bool) {x y : Outcome × Files S}
      → (b ≡ true → Ends other x)
      → (b ≡ false → Ends other y)
      → Ends other (if b then x else y)
  Ends-if other true h k = h refl
  Ends-if other false h k = k refl

  pub Ends-put :
      (other : ℕ → ℕ) (o : Outcome) (f : ℕ) (st : Files S)
      → Kept (plus other f) st
      → Ends other (o, put_file ops f st)
  Ends-put other o f st b _ = put_file-Balanced other f st b

  -- A call on a descriptor keeps the balance if what it does with the file gives up the reference
  -- of `fget`.
  pub with_file-Balanced :
      (other : ℕ → ℕ) (fd : ℕ) (go : ℕ → Files S → Outcome × Files S) (st : Files S)
      → ((f : ℕ) (st' : Files S)
          → entry fd st'.open_files ≡ some f
          → Kept (plus other f) st'
          → Ends other (go f st'))
      → Kept other st
      → Ends other (with_file ops nfiles fd go st)
  with_file-Balanced other fd go st gone b = elim (Bool-cases (out_of_range nfiles fd)) [
    | inl bad ↦ rw bad (λ _. b)
    | inr fine ↦ elim (Option-cases (entry fd st.open_files)) [
      | inl closed ↦ rw (fine, laws.fget_closed st.open_files fd st.store closed) (λ _. b)
      | inr (f, here) ↦
          let (s, got, more) = laws.fget_open st.open_files fd f st.store here in
          rw (fine, got) (gone f (set_store s st) here (get-Balanced other f s st more b))
    ]
  ]
