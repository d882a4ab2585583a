-- ===== src/Fs/Calls/Positions.antt =====
-- kernel/fs/vfs_syscall.c: what the calls do to the position of a file.
use kernel.Base.{
  ℕ, ◌-◌, ◌≤◌, ◌<◌, ◌≡◌, ◌≢◌, ◌^◌, inl, inr, refl, ap, ◌∙◌, sym, subst, true, false, Option, none,
  some, if◌then◌else◌, arith, add32, Bool-cases,
}
use kernel.Fs.Table.{entry}
use kernel.Fs.Files.{
  FileOps, FileLaws, Files, Outcome, value, minus, einval, negative, out_of_range, set_store,
}
use kernel.Fs.Calls.{
  found, with_file, do_read, read_file, do_lseek, lseek_file, seek, do_getdent, getdent_file,
  Whence, seek_set, seek_cur, seek_end, unknown,
}

module _ {S : Type 0} (ops : FileOps S) (nfiles : ℕ) where
  -- Where `do_lseek` is asked to go; none for an unknown `whence`.
  abbrev pub target : ℕ → ℕ → ℕ → Whence → Option ℕ
  target pos len offset unknown = none
  target pos len offset seek_set = some offset
  target pos len offset seek_cur = some (add32 pos offset)
  target pos len offset seek_end = some (add32 len offset)

  abbrev pub Sought : Option ℕ → ℕ → Outcome → ℕ → Type 0
  Sought none before o pos = (o ≡ minus einval) × (pos ≡ before)
  Sought (some p) before o pos =
      if negative p then (o ≡ minus einval) × (pos ≡ before) else (o ≡ value p) × (pos ≡ p)

  seek-Sought :
      (p f : ℕ) (st : Files S)
      → Sought
          (some p)
          (st.file f).pos
          (seek ops nfiles p f st).0
          ((seek ops nfiles p f st).1.file f).pos
  unfolding seek
  seek-Sought p f st = elim (Bool-cases (negative p)) [
    | inl bad ↦ rw bad (refl, refl)
    | inr fine ↦ rw fine (refl, ground arith)
  ]

  lseek_file-Sought :
      (offset : ℕ) (whence : Whence) (f : ℕ) (st : Files S)
      → Sought
          (target (st.file f).pos (ops.vn_len st.store (st.file f).vnode) offset whence)
          (st.file f).pos
          (lseek_file ops nfiles offset whence f st).0
          ((lseek_file ops nfiles offset whence f st).1.file f).pos
  unfolding lseek_file
  lseek_file-Sought offset unknown f st = (refl, refl)
  lseek_file-Sought offset seek_set f st = seek-Sought offset f st
  lseek_file-Sought offset seek_cur f st = seek-Sought (add32 (st.file f).pos offset) f st
  lseek_file-Sought offset seek_end f st =
      seek-Sought (add32 (ops.vn_len st.store (st.file f).vnode) offset) f st

  -- The state of the vnodes when `fget` has taken a reference.
  abbrev pub got_store : ℕ → Files S → S
  got_store fd st = (ops.fget st.open_files fd st.store).1

  module _ (laws : FileLaws ops) where
    with_file-open :
        (fd f : ℕ) (go : ℕ → Files S → Outcome × Files S) (st : Files S)
        → out_of_range nfiles fd ≡ false
        → entry fd st.open_files ≡ some f
        → with_file ops nfiles fd go st ≡ go f (set_store (got_store fd st) st)
    with_file-open fd f go st fine here =
        let (s, got, _) = laws.fget_open st.open_files fd f st.store here in
        rw fine (
          ap (found ops nfiles go st) got
          ∙ ap (λ (r : Option ℕ × S). go f (set_store r.1 st)) (sym got))

    -- `do_lseek` of an open descriptor goes to the offset, counted from 0, from the position or from
    -- the end of the file as `whence` says, and returns the new position. If that is negative, or
    -- `whence` unknown, it returns -EINVAL and the position stays.
    pub lseek_position :
        (fd f offset : ℕ) (whence : Whence) (st : Files S)
        → out_of_range nfiles fd ≡ false
        → entry fd st.open_files ≡ some f
        → Sought
            (target (st.file f).pos (ops.vn_len (got_store fd st) (st.file f).vnode) offset whence)
            (st.file f).pos
            (do_lseek ops nfiles fd offset whence st).0
            ((do_lseek ops nfiles fd offset whence st).1.file f).pos
    unfolding do_lseek
    lseek_position fd f offset whence st fine here =
        subst
          (λ (r : Outcome × Files S).
            Sought
              (target (st.file f).pos (ops.vn_len (got_store fd st) (st.file f).vnode) offset
                whence)
              (st.file f).pos r.0 (r.1.file f).pos)
          (sym (with_file-open fd f (lseek_file ops nfiles offset whence) st fine here))
          (lseek_file-Sought offset whence f (set_store (got_store fd st) st))

    -- A read of a file that is open for reading and no directory returns the result of the vnode's
    -- `read` at the position, and the position moves by that result, modulo 2^32: a result that
    -- stands for an error moves it back.
    pub read_moves_by_result :
        (fd f nbytes : ℕ) (st : Files S)
        → out_of_range nfiles fd ≡ false
        → entry fd st.open_files ≡ some f
        → (st.file f).mode.reads ≡ true
        → ops.is_dir (got_store fd st) (st.file f).vnode ≡ false
        → let result : ℕ =
            (ops.read (got_store fd st) (st.file f).vnode (st.file f).pos nbytes).0 in
          let after : Outcome × Files S = do_read ops nfiles fd nbytes st in
          (after.0 ≡ value result)
          × ((after.1.file f).pos ≡ add32 (st.file f).pos result)
          × ((e : ℕ)
              → result ≡ 2 ^ 32 - e
              → 0 < e
              → e ≤ (st.file f).pos
              → (st.file f).pos < 2 ^ 32
              → (after.1.file f).pos ≡ (st.file f).pos - e)
    unfolding do_read read_file add32
    read_moves_by_result fd f nbytes st fine here reads file =
        let e = with_file-open fd f (read_file ops nfiles nbytes) st fine here in
        (rw e (ground arith), rw e (ground arith), λ x a b c d. rw e (ground arith))

    -- `do_getdent` of a directory moves the position by the result of `readdir` and returns the size
    -- of a `dirent` for every result but 0, also for one that stands for an error.
    pub getdent_hides_error :
        (fd f dirent_size : ℕ) (st : Files S)
        → out_of_range nfiles fd ≡ false
        → entry fd st.open_files ≡ some f
        → ops.is_dir (got_store fd st) (st.file f).vnode ≡ true
        → ops.has_readdir (got_store fd st) (st.file f).vnode ≡ true
        → let result : ℕ = (ops.readdir (got_store fd st) (st.file f).vnode (st.file f).pos).0 in
          let after : Outcome × Files S = do_getdent ops nfiles dirent_size fd st in
          ((result ≡ 0) → (after.0 ≡ value 0) × ((after.1.file f).pos ≡ add32 (st.file f).pos 0))
          × ((result ≢ 0)
              → (after.0 ≡ value dirent_size)
                × ((after.1.file f).pos ≡ add32 (st.file f).pos result))
    unfolding do_getdent getdent_file add32
    getdent_hides_error fd f dirent_size st fine here dir list =
        let e = with_file-open fd f (getdent_file ops nfiles dirent_size) st fine here in
        (
          λ z. (rw e (ground arith), rw e (ground arith)),
          λ n. (rw e (ground arith), rw e (ground arith)),
        )
