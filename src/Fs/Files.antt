-- ===== src/Fs/Files.antt =====
-- kernel/fs/vfs_syscall.c, kernel/fs/open.c: the open files of the running process, and the interface
-- to fget, fput and the vnodes.
use kernel.Base.{
  ℕ, ◌+◌, ◌<◌, ◌≡◌, ◌^◌, Bool, true, false, Option, none, some, leb, ◌==◌, ◌||◌, if◌then◌else◌,
  length,
}
use kernel.Fs.Table.{Table, entry, set_entry, one, descriptors}

-- `f_mode`
pub record Mode : Type 0 where
  pub reads : Bool
  pub writes : Bool
  pub appends : Bool

-- `file_t`, without its reference count; `pos` is an `off_t` of 32 bits.
pub record File : Type 0 where
  pub mode : Mode
  pub pos : ℕ
  pub vnode : ℕ

-- What `open_namev` gives: a vnode, or a result that is not 0.
pub data Opened (S : Type 0) : Type 0 where
  opened : ℕ → S → Opened S
  refused : ℕ → S → Opened S

-- `fget` and `fput`, and the vnodes' operations, over the state `S` that they share. Vnodes and open
-- files have numbers, results are 32-bit words.
pub record FileOps (S : Type 0) : Type 0 where
  pub fget : Table → ℕ → S → Option ℕ × S
  pub fget_new : S → Option ℕ × S  -- `fget(-1)`
  pub fput : S → ℕ → S
  pub is_dir : S → ℕ → Bool  -- `S_ISDIR(vn_mode)`
  pub is_device : S → ℕ → Bool  -- `S_ISCHR` or `S_ISBLK`
  pub is_regular : S → ℕ → Bool
  pub vn_len : S → ℕ → ℕ
  pub has_readdir : S → ℕ → Bool
  pub read : S → ℕ → ℕ → ℕ → ℕ × S  -- a vnode, a position and a size
  pub write : S → ℕ → ℕ → ℕ → ℕ × S
  pub readdir : S → ℕ → ℕ → ℕ × S
  pub open_namev : S → ℕ → ℕ → Opened S  -- a path, by number, and the flags

-- `refs` is the reference count of an open file, which only fget and fput change.
pub record FileLaws {S : Type 0} (ops : FileOps S) : Type 0 where
  pub refs : S → ℕ → ℕ
  pub fget_closed : (t : Table) (fd : ℕ) (s : S) → entry fd t ≡ none → ops.fget t fd s ≡ (none, s)
  pub fget_open :
      (t : Table) (fd f : ℕ) (s : S)
      → entry fd t ≡ some f
      → (s' : S) × (ops.fget t fd s ≡ (some f, s'))
        × ((g : ℕ) → refs s' g ≡ refs s g + one g (some f))
  pub fget_new_refs :
      (o : Option ℕ) (s s' : S)
      → ops.fget_new s ≡ (o, s')
      → (g : ℕ) → refs s' g ≡ refs s g + one g o
  pub fput_refs :
      (s : S) (f g : ℕ) → 0 < refs s f → refs (ops.fput s f) g + one g (some f) ≡ refs s g
  pub read_refs : (s : S) (v pos size g : ℕ) → refs (ops.read s v pos size).1 g ≡ refs s g
  pub write_refs : (s : S) (v pos size g : ℕ) → refs (ops.write s v pos size).1 g ≡ refs s g
  pub readdir_refs : (s : S) (v pos g : ℕ) → refs (ops.readdir s v pos).1 g ≡ refs s g
  pub opened_refs :
      (s s' : S) (path flags v : ℕ)
      → ops.open_namev s path flags ≡ opened v s'
      → (g : ℕ) → refs s' g ≡ refs s g
  pub refused_refs :
      (s s' : S) (path flags w : ℕ)
      → ops.open_namev s path flags ≡ refused w s'
      → (g : ℕ) → refs s' g ≡ refs s g

-- `p_files` of the running process, the fields of the open files, and the rest.
pub record Files (S : Type 0) : Type 0 where
  pub open_files : Table
  pub file : ℕ → File
  pub store : S

pub data Errno : Type 0 where
  ebadf einval eisdir emfile enomem enotdir : Errno

-- What a call returns: a 32-bit word, `-e`, or a failed assertion.
pub data Outcome : Type 0 where
  value : ℕ → Outcome
  minus : Errno → Outcome
  panic : Outcome

-- The sign of an `int` that is kept as a 32-bit word.
abbrev pub negative : ℕ → Bool
negative w = leb (2 ^ 31) w

-- `(fd >= NFILES) || (fd < 0)`
abbrev pub out_of_range : ℕ → ℕ → Bool
out_of_range nfiles fd = leb nfiles fd || negative fd

abbrev pub is_negative : Outcome → Bool
is_negative (value w) = negative w
is_negative (minus e) = true
is_negative panic = false

module _ {S : Type 0} where
  abbrev pub set_store : S → Files S → Files S
  set_store s st = record st { store = s }

  abbrev pub set_fd : ℕ → Option ℕ → Files S → Files S
  set_fd fd x st = record st { open_files = set_entry fd x st.open_files }

  abbrev pub set_file : ℕ → File → Files S → Files S
  set_file f x st = record st { file = λ g. if f == g then x else st.file g }

  abbrev pub set_pos : ℕ → ℕ → Files S → Files S
  set_pos f pos st = set_file f (record (st.file f) { pos = pos }) st

  abbrev pub put_file : FileOps S → ℕ → Files S → Files S
  put_file ops f st = set_store (ops.fput st.store f) st

  -- There are NFILES descriptors, and the references of an open file are theirs and `other`s.
  pub record Balanced {ops : FileOps S} (laws : FileLaws ops) (nfiles : ℕ) (other : ℕ → ℕ)
      (st : Files S) : Type 0 where
    pub size : length st.open_files ≡ nfiles
    pub refs : (f : ℕ) → laws.refs st.store f ≡ descriptors f st.open_files + other f
