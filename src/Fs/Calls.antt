-- ===== src/Fs/Calls.antt =====
-- kernel/fs/vfs_syscall.c, kernel/fs/open.c: the calls on descriptors. A call runs to its end before
-- another one starts.
pub mod References
pub mod Io
pub mod Opening
pub mod Sequences
pub mod Descriptors
pub mod Positions
use Prim.Native.Nat.{bit_and}
use kernel.Base.{
  ℕ, zero, suc, ◌+◌, ◌-◌, ◌^◌, Bool, true, false, not, Option, none, some, leb, ◌==◌, ◌&&◌, ◌||◌,
  if◌then◌else◌, add32,
}
use kernel.Fs.Table.{Table, entry, set_entry, get_empty_fd}
use kernel.Fs.Files.{
  Mode, File, FileOps, Opened, opened, refused, Files, Outcome, value, minus, panic, ebadf, einval,
  eisdir, emfile, enomem, enotdir, negative, out_of_range, is_negative, set_store, set_fd, set_file,
  set_pos, put_file,
}

abbrev has_bits : ℕ → ℕ → Bool
has_bits flags bits = bit_and flags bits == bits

-- `oflags & ~(0x703)` is not 0, or both of the lowest bits are set.
unfoldable pub flags_invalid : ℕ → Bool
flags_invalid oflags =
    not (bit_and oflags (2 ^ 32 - 1 - 1795) == 0) || (has_bits oflags 1 && has_bits oflags 2)

unfoldable pub mode_of : ℕ → Mode
mode_of oflags = record {
  reads = not (has_bits oflags 1) || has_bits oflags 2;
  writes = has_bits oflags 1 || has_bits oflags 2;
  appends = has_bits oflags 1024;
}

pub data Whence : Type 0 where
  seek_set seek_cur seek_end unknown : Whence

pub data Call : Type 0 where
  call_read call_write : (fd nbytes : ℕ) → Call
  call_lseek : (fd offset : ℕ) → Whence → Call
  call_getdent : (fd dirent_size : ℕ) → Call
  call_close call_dup : (fd : ℕ) → Call
  call_dup2 : (ofd nfd : ℕ) → Call
  call_open : (path oflags : ℕ) → Call

module _ {S : Type 0} (ops : FileOps S) (nfiles : ℕ) where
  -- What a call does with the result of `fget`.
  abbrev pub found : (ℕ → Files S → Outcome × Files S) → Files S → Option ℕ × S → Outcome × Files S
  found go st (none, s) = (minus ebadf, set_store s st)
  found go st (some f, s) = go f (set_store s st)

  -- A call that takes a descriptor: its test, `fget`, and what it does with the file.
  abbrev pub with_file : ℕ → (ℕ → Files S → Outcome × Files S) → Files S → Outcome × Files S
  with_file fd go st =
      if out_of_range nfiles fd
      then (minus ebadf, st)
      else found go st (ops.fget st.open_files fd st.store)

  -- The file's own position decides where to read; it moves by the result.
  unfoldable pub read_file : ℕ → ℕ → Files S → Outcome × Files S
  unfolding add32
  read_file nbytes f st =
      let file = st.file f in
      let (bytes_read, s) = ops.read st.store file.vnode file.pos nbytes in
      if not file.mode.reads
      then (minus ebadf, put_file ops f st)
      else if ops.is_dir st.store file.vnode
      then (minus eisdir, put_file ops f st)
      else (
        value bytes_read,
        put_file ops f (set_pos f (add32 file.pos bytes_read) (set_store s st)),
      )

  unfoldable pub do_read : ℕ → ℕ → Files S → Outcome × Files S
  unfolding read_file
  do_read fd nbytes st = with_file fd (read_file nbytes) st

  -- The new position, unless it is negative.
  unfoldable pub seek : ℕ → ℕ → Files S → Outcome × Files S
  seek pos f st =
      if negative pos
      then (minus einval, put_file ops f st)
      else (value pos, put_file ops f (set_pos f pos st))

  unfoldable pub lseek_file : ℕ → Whence → ℕ → Files S → Outcome × Files S
  unfolding seek add32
  lseek_file offset unknown f st = (minus einval, put_file ops f st)
  lseek_file offset seek_set f st = seek offset f st
  lseek_file offset seek_cur f st = seek (add32 (st.file f).pos offset) f st
  lseek_file offset seek_end f st = seek (add32 (ops.vn_len st.store (st.file f).vnode) offset) f st

  unfoldable pub do_lseek : ℕ → ℕ → Whence → Files S → Outcome × Files S
  unfolding lseek_file
  do_lseek fd offset whence st = with_file fd (lseek_file offset whence) st

  -- `write` at the position, and the assertion on its result.
  unfoldable pub write_at : ℕ → ℕ → Files S → Outcome × Files S
  unfolding add32
  write_at nbytes f st =
      let file = st.file f in
      let (written, s) = ops.write st.store file.vnode file.pos nbytes in
      let pos = add32 file.pos written in
      let sane =
        negative written
        || (ops.is_device s file.vnode
            || (ops.is_regular s file.vnode
                && (negative pos || leb pos (ops.vn_len s file.vnode)))) in
      if sane then (value written, put_file ops f (set_pos f pos (set_store s st))) else (panic, st)

  -- The rest of `do_write` after the call of `do_lseek`.
  unfoldable pub after_lseek : ℕ → ℕ → Outcome × Files S → Outcome × Files S
  unfolding write_at
  after_lseek nbytes f (ret, st) =
      if is_negative ret then (ret, put_file ops f st) else write_at nbytes f st

  unfoldable pub write_file : ℕ → ℕ → ℕ → Files S → Outcome × Files S
  unfolding after_lseek do_lseek
  write_file fd nbytes f st =
      if not (st.file f).mode.writes
      then (minus ebadf, put_file ops f st)
      else if (st.file f).mode.appends
      then after_lseek nbytes f (do_lseek fd 0 seek_end st)
      else write_at nbytes f st

  unfoldable pub do_write : ℕ → ℕ → Files S → Outcome × Files S
  unfolding write_file
  do_write fd nbytes st = with_file fd (write_file fd nbytes) st

  -- The position moves by the result of `readdir`, and any result but 0 is taken for an entry.
  unfoldable pub getdent_file : ℕ → ℕ → Files S → Outcome × Files S
  unfolding add32
  getdent_file dirent_size f st =
      let file = st.file f in
      let (ret, s) = ops.readdir st.store file.vnode file.pos in
      if not (ops.is_dir st.store file.vnode && ops.has_readdir st.store file.vnode)
      then (minus enotdir, put_file ops f st)
      else (
        value (if ret == 0 then 0 else dirent_size),
        put_file ops f (set_pos f (add32 file.pos ret) (set_store s st)),
      )

  -- `do_getdent`, with the size of a `dirent`.
  unfoldable pub do_getdent : ℕ → ℕ → Files S → Outcome × Files S
  unfolding getdent_file
  do_getdent dirent_size fd st = with_file fd (getdent_file dirent_size) st

  unfoldable pub close_file : ℕ → ℕ → Files S → Outcome × Files S
  close_file fd f st = (value 0, put_file ops f (put_file ops f (set_fd fd none st)))

  unfoldable pub do_close : ℕ → Files S → Outcome × Files S
  unfolding close_file
  do_close fd st = with_file fd (close_file fd) st

  unfoldable pub dup_file : ℕ → Files S → Outcome × Files S
  dup_file f st = elim (get_empty_fd st.open_files) [
    | none ↦ (minus emfile, put_file ops f st)
    | some new_fd ↦ (value new_fd, set_fd new_fd (some f) st)
  ]

  unfoldable pub do_dup : ℕ → Files S → Outcome × Files S
  unfolding dup_file
  do_dup fd st = with_file fd dup_file st

  -- The rest of `do_dup2` after `do_close(nfd)`; a result that is not 0 is returned.
  unfoldable pub after_close : ℕ → ℕ → Outcome × Files S → Outcome × Files S
  after_close nfd f (value zero, st) = (value nfd, set_fd nfd (some f) st)
  after_close nfd f (ret, st) = (ret, put_file ops f st)

  unfoldable pub dup2_file : ℕ → ℕ → ℕ → Files S → Outcome × Files S
  unfolding after_close do_close
  dup2_file ofd nfd f st =
      if ofd == nfd then (value nfd, put_file ops f st) else elim (entry nfd st.open_files) [
        | none ↦ (value nfd, set_fd nfd (some f) st)
        | some _ ↦ after_close nfd f (do_close nfd st)
      ]

  unfoldable pub do_dup2 : ℕ → ℕ → Files S → Outcome × Files S
  unfolding dup2_file
  do_dup2 ofd nfd st =
      if out_of_range nfiles ofd || out_of_range nfiles nfd
      then (minus ebadf, st)
      else with_file ofd (dup2_file ofd nfd) st

  -- The rest of `do_open` when `open_namev` is back; the new file is `f`, at descriptor `fd`.
  unfoldable pub opened_file : ℕ → ℕ → Files S → Opened S → Outcome × Files S
  opened_file fd f st (refused ret s) =
      (value ret, set_fd fd none (put_file ops f (set_store s st)))
  opened_file fd f st (opened v s) =
      let st1 = set_file f (record (st.file f) { vnode = v }) (set_store s st) in
      if ops.is_dir s v && (st.file f).mode.writes
      then (minus eisdir, set_fd fd none (put_file ops f st1))
      else (value fd, set_pos f 0 st1)

  unfoldable pub open_new : ℕ → ℕ → ℕ → Option ℕ × S → Files S → Outcome × Files S
  unfolding opened_file mode_of
  open_new path oflags fd (none, s) st = (minus enomem, set_store s st)
  open_new path oflags fd (some f, s) st =
      opened_file fd f
        (set_file f (record (st.file f) { mode = mode_of oflags }) (set_fd fd (some f) st))
        (ops.open_namev s path oflags)

  unfoldable pub do_open : ℕ → ℕ → Files S → Outcome × Files S
  unfolding flags_invalid open_new
  do_open path oflags st = elim (get_empty_fd st.open_files) [
    | none ↦ if flags_invalid oflags then (minus einval, st) else (minus emfile, st)
    | some fd ↦
        if flags_invalid oflags
        then (minus einval, st)
        else open_new path oflags fd (ops.fget_new st.store) st
  ]

  unfoldable pub run_call : Call → Files S → Outcome × Files S
  unfolding do_read do_write do_lseek do_getdent do_close do_dup do_dup2 do_open
  run_call (call_read fd nbytes) st = do_read fd nbytes st
  run_call (call_write fd nbytes) st = do_write fd nbytes st
  run_call (call_lseek fd offset whence) st = do_lseek fd offset whence st
  run_call (call_getdent fd dirent_size) st = do_getdent dirent_size fd st
  run_call (call_close fd) st = do_close fd st
  run_call (call_dup fd) st = do_dup fd st
  run_call (call_dup2 ofd nfd) st = do_dup2 ofd nfd st
  run_call (call_open path oflags) st = do_open path oflags st
