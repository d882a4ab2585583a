-- ===== src/Fs/Calls/Sequences.antt =====
-- kernel/fs: any sequence of calls on descriptors.
use kernel.Base.{ℕ, ◌≡◌, ◌≢◌, inl, inr, refl, ap, subst, ◌||◌, arith, Option-cases}
use kernel.Fs.Table.{get_empty_fd, get_empty_fd-lowest}
use kernel.Fs.Files.{
  FileOps, FileLaws, Files, Outcome, minus, panic, einval, emfile, out_of_range, Balanced,
}
use kernel.Fs.Calls.{
  read_file, do_read, write_file, do_write, close_file, do_close, dup_file, do_dup, dup2_file,
  do_dup2, open_new, do_open, getdent_file, do_getdent, flags_invalid, Call, call_read, call_write,
  call_lseek, call_getdent, call_close, call_dup, call_dup2, call_open, run_call,
}
use kernel.Fs.Calls.References.{Kept, Ends, Ends-if, with_file-Balanced}
use kernel.Fs.Calls.Io.{
  read_file-Balanced, do_lseek-Balanced, write_file-Balanced, getdent_file-Balanced,
}
use kernel.Fs.Calls.Opening.{
  close_file-Balanced, dup_file-Balanced, dup2_file-Balanced, open_new-Balanced,
}

module _ {S : Type 0} {ops : FileOps S} (laws : FileLaws ops) (nfiles : ℕ) where
  do_dup2-Balanced :
      (other : ℕ → ℕ) (ofd nfd : ℕ) (st : Files S)
      → Kept laws nfiles other st
      → Ends laws nfiles other (do_dup2 ops nfiles ofd nfd st)
  unfolding do_dup2
  do_dup2-Balanced other ofd nfd st b =
      Ends-if laws nfiles other (out_of_range nfiles ofd || out_of_range nfiles nfd) (λ _ _. b)
        (λ fine.
          with_file-Balanced laws nfiles other ofd (dup2_file ops nfiles ofd nfd) st
            (λ f st' _ b'. dup2_file-Balanced laws nfiles other ofd nfd f st' (ground arith) b') b)

  do_open-Balanced :
      (other : ℕ → ℕ) (path oflags : ℕ) (st : Files S)
      → Kept laws nfiles other st
      → Ends laws nfiles other (do_open ops nfiles path oflags st)
  unfolding do_open
  do_open-Balanced other path oflags st b = elim (Option-cases (get_empty_fd st.open_files)) [
    | inl full ↦
        rw (full, do_open)
          (Ends-if laws nfiles other (flags_invalid oflags) {x = (minus einval, st)}
            {y = (minus emfile, st)} (λ _ _. b) (λ _ _. b))
    | inr (fd, free) ↦
        let (lt, empty, _) = get_empty_fd-lowest fd st.open_files free in
        rw (free, do_open)
          (Ends-if laws nfiles other (flags_invalid oflags) {x = (minus einval, st)}
            {y = open_new ops nfiles path oflags fd (ops.fget_new st.store) st} (λ _ _. b)
            (λ _.
              open_new-Balanced laws nfiles other path oflags fd (ops.fget_new st.store).0
                (ops.fget_new st.store).1 st lt empty refl b))
  ]

  run_call-Balanced :
      (other : ℕ → ℕ) (c : Call) (st : Files S)
      → Kept laws nfiles other st
      → Ends laws nfiles other (run_call ops nfiles c st)
  unfolding run_call do_read do_write do_getdent do_close do_dup
  run_call-Balanced other (call_read fd nbytes) st b =
      with_file-Balanced laws nfiles other fd (read_file ops nfiles nbytes) st
        (λ f st' _ b'. read_file-Balanced laws nfiles other nbytes f st' b') b
  run_call-Balanced other (call_write fd nbytes) st b =
      with_file-Balanced laws nfiles other fd (write_file ops nfiles fd nbytes) st
        (λ f st' _ b'. write_file-Balanced laws nfiles other fd nbytes f st' b') b
  run_call-Balanced other (call_lseek fd offset whence) st b =
      do_lseek-Balanced laws nfiles other fd offset whence st b
  run_call-Balanced other (call_getdent fd size) st b =
      with_file-Balanced laws nfiles other fd (getdent_file ops nfiles size) st
        (λ f st' _ b'. getdent_file-Balanced laws nfiles other size f st' b') b
  run_call-Balanced other (call_close fd) st b =
      with_file-Balanced laws nfiles other fd (close_file ops nfiles fd) st
        (λ f st' e b'. close_file-Balanced laws nfiles other fd f st' e b') b
  run_call-Balanced other (call_dup fd) st b =
      with_file-Balanced laws nfiles other fd (dup_file ops nfiles) st
        (λ f st' _ b'. dup_file-Balanced laws nfiles other f st' b') b
  run_call-Balanced other (call_dup2 ofd nfd) st b = do_dup2-Balanced other ofd nfd st b
  run_call-Balanced other (call_open path oflags) st b = do_open-Balanced other path oflags st b

  -- Calls, one after the other, none of which fails an assertion.
  pub data Calls (st : Files S) : Files S → Type 0 where
    no_call : Calls st st
    then_call :
        {st1 st2 : Files S} (c : Call) (o : Outcome)
        → o ≢ panic
        → run_call ops nfiles c st1 ≡ (o, st2)
        → Calls st st1
        → Calls st st2

  -- However many calls on descriptors a process makes, with whatever arguments and results, errors
  -- included, the reference count of every open file stays the number of its descriptors plus the
  -- references from elsewhere: none is leaked and none is given up twice. fget and fput are assumed
  -- to count as documented, and no assertion of `do_write` to fail.
  pub no_reference_leak :
      (other : ℕ → ℕ) (st st' : Files S)
      → Balanced laws nfiles other st
      → Calls st st'
      → Balanced laws nfiles other st'
  no_reference_leak other st st' b no_call = b
  no_reference_leak other st st' b (then_call {st1} {st2} c o alive e r) =
      let b1 = no_reference_leak other st st1 b r in
      let b2 = run_call-Balanced other c st1 b1 (ground arith) in
      subst (Balanced laws nfiles other) (ap (λ x. x.1) e) b2
