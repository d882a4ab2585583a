-- ===== src/Fs/Calls/Io.antt =====
-- kernel/fs/vfs_syscall.c, kernel/fs/open.c: reading, writing and seeking keep the references.
use kernel.Base.{
  ℕ, ◌≢◌, inl, inr, refl, Option, none, some, ◌==◌, ◌||◌, ◌&&◌, not, leb, if◌then◌else◌, arith,
  add32, Bool-cases,
}
use kernel.Fs.Files.{
  File, FileOps, FileLaws, Files, Outcome, value, minus, panic, ebadf, einval, eisdir, enotdir,
  negative, out_of_range, is_negative, set_store, set_pos,
}
use kernel.Fs.Calls.{
  found, read_file, seek, lseek_file, do_lseek, write_at, after_lseek, write_file, Whence, unknown,
  seek_set, seek_cur, seek_end, getdent_file,
}
use kernel.Fs.Calls.References.{
  plus, Kept, Ends, Ends-if, Ends-put, put_file-Balanced, with_file-Balanced,
}

module _ {S : Type 0} {ops : FileOps S} (laws : FileLaws ops) (nfiles : ℕ) where
  pub read_file-Balanced :
      (other : ℕ → ℕ) (nbytes f : ℕ) (st : Files S)
      → Kept laws nfiles (plus other f) st
      → Ends laws nfiles other (read_file ops nfiles nbytes f st)
  unfolding read_file
  read_file-Balanced other nbytes f st b =
      Ends-if laws nfiles other (not file.mode.reads)
        (λ _. Ends-put laws nfiles other (minus ebadf) f st b)
        (λ _.
          Ends-if laws nfiles other (ops.is_dir st.store file.vnode)
            (λ _. Ends-put laws nfiles other (minus eisdir) f st b)
            (λ _.
              Ends-put laws nfiles other (value got.0) f
                (set_pos f (add32 file.pos got.0) (set_store got.1 st))
                (record {
                  size = b.size;
                  refs = λ g.
                      ground
                        (arith, b.refs g, laws.read_refs st.store file.vnode file.pos nbytes g);
                })))
    where
      file : File
      file = st.file f

      got : ℕ × S
      got = ops.read st.store file.vnode file.pos nbytes

  pub seek-Balanced :
      (other : ℕ → ℕ) (pos f : ℕ) (st : Files S)
      → Kept laws nfiles (plus other f) st
      → Ends laws nfiles other (seek ops nfiles pos f st)
  unfolding seek
  seek-Balanced other pos f st b =
      Ends-if laws nfiles other (negative pos)
        (λ _. Ends-put laws nfiles other (minus einval) f st b)
        (λ _.
          Ends-put laws nfiles other (value pos) f (set_pos f pos st)
            (record { size = b.size; refs = b.refs }))

  pub lseek_file-Balanced :
      (other : ℕ → ℕ) (offset : ℕ) (whence : Whence) (f : ℕ) (st : Files S)
      → Kept laws nfiles (plus other f) st
      → Ends laws nfiles other (lseek_file ops nfiles offset whence f st)
  unfolding lseek_file
  lseek_file-Balanced other offset unknown f st b = λ _. put_file-Balanced laws nfiles other f st b
  lseek_file-Balanced other offset seek_set f st b = seek-Balanced other offset f st b
  lseek_file-Balanced other offset seek_cur f st b =
      seek-Balanced other (add32 (st.file f).pos offset) f st b
  lseek_file-Balanced other offset seek_end f st b =
      seek-Balanced other (add32 (ops.vn_len st.store (st.file f).vnode) offset) f st b

  pub do_lseek-Balanced :
      (other : ℕ → ℕ) (fd offset : ℕ) (whence : Whence) (st : Files S)
      → Kept laws nfiles other st
      → Ends laws nfiles other (do_lseek ops nfiles fd offset whence st)
  unfolding do_lseek
  do_lseek-Balanced other fd offset whence st b =
      with_file-Balanced laws nfiles other fd (lseek_file ops nfiles offset whence) st
        (λ f st' _ b'. lseek_file-Balanced other offset whence f st' b') b

  pub write_at-Balanced :
      (other : ℕ → ℕ) (nbytes f : ℕ) (st : Files S)
      → Kept laws nfiles (plus other f) st
      → Ends laws nfiles other (write_at ops nfiles nbytes f st)
  unfolding write_at
  write_at-Balanced other nbytes f st b =
      Ends-if laws nfiles other
        (negative got.0
          || (ops.is_device got.1 file.vnode
              || (ops.is_regular got.1 file.vnode
                  && (negative pos || leb pos (ops.vn_len got.1 file.vnode)))))
        (λ _.
          Ends-put laws nfiles other (value got.0) f (set_pos f pos (set_store got.1 st)) (record {
            size = b.size;
            refs = λ g.
                ground (arith, b.refs g, laws.write_refs st.store file.vnode file.pos nbytes g);
          }))
        (λ _ h. absurd (h refl))
    where
      file : File
      file = st.file f

      got : ℕ × S
      got = ops.write st.store file.vnode file.pos nbytes

      pos : ℕ
      pos = add32 file.pos got.0

  seek_no_panic : (pos f : ℕ) (st : Files S) → (seek ops nfiles pos f st).0 ≢ panic
  unfolding seek
  seek_no_panic pos f st = elim (Bool-cases (negative pos)) [
    | inl bad ↦ rw bad (ground arith)
    | inr fine ↦ rw fine (ground arith)
  ]

  lseek_file_no_panic :
      (offset : ℕ) (whence : Whence) (f : ℕ) (st : Files S)
      → (lseek_file ops nfiles offset whence f st).0 ≢ panic
  unfolding lseek_file
  lseek_file_no_panic offset unknown f st = ground arith
  lseek_file_no_panic offset seek_set f st = seek_no_panic offset f st
  lseek_file_no_panic offset seek_cur f st = seek_no_panic (add32 (st.file f).pos offset) f st
  lseek_file_no_panic offset seek_end f st =
      seek_no_panic (add32 (ops.vn_len st.store (st.file f).vnode) offset) f st

  found_no_panic :
      (go : ℕ → Files S → Outcome × Files S) (st : Files S) (r : Option ℕ × S)
      → ((f : ℕ) (st' : Files S) → (go f st').0 ≢ panic)
      → (found ops nfiles go st r).0 ≢ panic
  found_no_panic go st (none, s) h = ground arith
  found_no_panic go st (some f, s) h = h f (set_store s st)

  lseek_no_panic :
      (fd offset : ℕ) (whence : Whence) (st : Files S)
      → (do_lseek ops nfiles fd offset whence st).0 ≢ panic
  unfolding do_lseek
  lseek_no_panic fd offset whence st = elim (Bool-cases (out_of_range nfiles fd)) [
    | inl bad ↦ rw bad (ground arith)
    | inr fine ↦ rw fine (
        found_no_panic (lseek_file ops nfiles offset whence) st (ops.fget st.open_files fd st.store)
          (λ f st'. lseek_file_no_panic offset whence f st'))
  ]

  after_lseek-Balanced :
      (other : ℕ → ℕ) (nbytes f : ℕ) (r : Outcome × Files S)
      → r.0 ≢ panic
      → Ends laws nfiles (plus other f) r
      → Ends laws nfiles other (after_lseek ops nfiles nbytes f r)
  unfolding after_lseek
  after_lseek-Balanced other nbytes f (ret, st) h b =
      Ends-if laws nfiles other (is_negative ret) (λ _. Ends-put laws nfiles other ret f st (b h))
        (λ _. write_at-Balanced other nbytes f st (b h))

  pub write_file-Balanced :
      (other : ℕ → ℕ) (fd nbytes f : ℕ) (st : Files S)
      → Kept laws nfiles (plus other f) st
      → Ends laws nfiles other (write_file ops nfiles fd nbytes f st)
  unfolding write_file
  write_file-Balanced other fd nbytes f st b =
      Ends-if laws nfiles other (not (st.file f).mode.writes)
        (λ _. Ends-put laws nfiles other (minus ebadf) f st b)
        (λ _.
          Ends-if laws nfiles other (st.file f).mode.appends
            (λ _.
              after_lseek-Balanced other nbytes f (do_lseek ops nfiles fd 0 seek_end st)
                (lseek_no_panic fd 0 seek_end st)
                (do_lseek-Balanced (plus other f) fd 0 seek_end st b))
            (λ _. write_at-Balanced other nbytes f st b))

  pub getdent_file-Balanced :
      (other : ℕ → ℕ) (dirent_size f : ℕ) (st : Files S)
      → Kept laws nfiles (plus other f) st
      → Ends laws nfiles other (getdent_file ops nfiles dirent_size f st)
  unfolding getdent_file
  getdent_file-Balanced other dirent_size f st b =
      Ends-if laws nfiles other
        (not (ops.is_dir st.store file.vnode && ops.has_readdir st.store file.vnode))
        (λ _. Ends-put laws nfiles other (minus enotdir) f st b)
        (λ _.
          Ends-put laws nfiles other (value (if got.0 == 0 then 0 else dirent_size)) f
            (set_pos f (add32 file.pos got.0) (set_store got.1 st))
            (record {
              size = b.size;
              refs =
                  λ g. ground (arith, b.refs g, laws.readdir_refs st.store file.vnode file.pos g);
            }))
    where
      file : File
      file = st.file f

      got : ℕ × S
      got = ops.readdir st.store file.vnode file.pos
