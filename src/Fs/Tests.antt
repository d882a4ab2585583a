-- ===== src/Fs/Tests.antt =====
-- kernel/fs: calls on a table of three descriptors, with files that only count their references.
use kernel.Base.{
  ℕ, ◌+◌, ◌-◌, ◌<◌, ◌≡◌, ◌≢◌, ◌^◌, refl, ap, ◌∙◌, sym, true, [], ◌∷◌, Option, none, some, ◌==◌,
  arith,
}
use kernel.Fs.Table.{entry, set_entry, get_empty_fd, one, descriptors}
use kernel.Fs.Files.{FileOps, FileLaws, Opened, opened, refused, Files, value, Balanced}
use kernel.Fs.Calls.{Call, call_open, call_dup, call_close, call_write, run_call}
use kernel.Fs.Calls.Sequences.{Calls, no_call, then_call, no_reference_leak}

abbrev pub Counts : Type 0
Counts = ℕ → ℕ

abbrev pub bump : ℕ → Counts → Counts
bump f s g = s g + one g (some f)

abbrev pub drop : ℕ → Counts → Counts
drop f s g = s g - one g (some f)

abbrev counted_fget : Option ℕ → Counts → Option ℕ × Counts
counted_fget none s = (none, s)
counted_fget (some f) s = (some f, bump f s)

-- New files have the number 9; vnode 2 is a directory of length 100, and reading gives an error.
abbrev pub counting : FileOps Counts
counting = record {
  fget = λ t fd s. counted_fget (entry fd t) s;
  fget_new = λ s. (some 9, bump 9 s);
  fput = λ s f. drop f s;
  is_dir = λ s v. v == 2;
  is_device = λ s v. true;
  is_regular = λ s v. true;
  vn_len = λ s v. 100;
  has_readdir = λ s v. true;
  read = λ s v pos size. (2 ^ 32 - 5, s);
  write = λ s v pos size. (size, s);
  readdir = λ s v pos. (2 ^ 32 - 5, s);
  open_namev = λ s path flags. opened path s;
}

abbrev pub store_of : Counts → Opened Counts → Counts
store_of s (opened v s') = s'
store_of s (refused w s') = s

pub drop-refs : (s : Counts) (f g : ℕ) → 0 < s f → drop f s g + one g (some f) ≡ s g
drop-refs s f g h = ground arith

pub opened_refused : (v w : ℕ) (s s' : Counts) → ◌≢◌ {A = Opened Counts} (opened v s) (refused w s')
opened_refused v w s s' e = cc

abbrev pub counting_laws : FileLaws counting
counting_laws = record {
  refs = λ s g. s g;
  fget_closed = λ t fd s e. ap (λ o. counted_fget o s) e;
  fget_open = λ t fd f s e. (bump f s, ap (λ o. counted_fget o s) e, λ g. refl);
  fget_new_refs = λ o s s' e g.
      ap (λ (r : Option ℕ × Counts). r.1 g) (sym e)
      ∙ ap (λ (r : Option ℕ × Counts). s g + one g r.0) e;
  fput_refs = drop-refs;
  read_refs = λ s v pos size g. refl;
  write_refs = λ s v pos size g. refl;
  readdir_refs = λ s v pos g. refl;
  opened_refs = λ s s' path flags v e g. ap (λ (o : Opened Counts). store_of s o g) (sym e);
  refused_refs = λ s s' path flags w e g. absurd (opened_refused path w s s' e);
}

-- Descriptor 0 is open for vnode 1, at position 30.
abbrev pub three : Files Counts
three = record {
  open_files = some 4 ∷ none ∷ none ∷ [];
  file = λ f. record {
    mode = record { reads = true; writes = true; appends = true };
    pos = 30;
    vnode = 1;
  };
  store = λ f. one f (some 4);
}

abbrev nobody_else : ℕ → ℕ
nobody_else f = 0

three-Balanced : Balanced counting_laws 3 nobody_else three
unfolding descriptors
three-Balanced = record { size = refl; refs = λ f. omega arith }

-- Open, duplicate, write at the end and close.
abbrev after : Call → Files Counts → Files Counts
after c st = (run_call counting 3 c st).1

abbrev opened_state : Files Counts
opened_state = after (call_open 1 2) three

abbrev dup_state : Files Counts
dup_state = after (call_dup 0) opened_state

abbrev written_state : Files Counts
written_state = after (call_write 2 5) dup_state

abbrev end_state : Files Counts
end_state = after (call_close 0) written_state

session_run : Calls counting_laws 3 three end_state
unfolding run_call entry get_empty_fd set_entry
session_run =
    then_call {st1 = written_state} {st2 = end_state} (call_close 0) (value 0) (ground arith) refl (
      then_call {st1 = dup_state} {st2 = written_state} (call_write 2 5) (value 5) (ground arith)
        refl
        (then_call {st1 = opened_state} {st2 = dup_state} (call_dup 0) (value 2) (ground arith) refl
          (then_call {st1 = three} {st2 = opened_state} (call_open 1 2) (value 1) (ground arith)
            refl no_call)))

no_reference_leak_example : Balanced counting_laws 3 nobody_else end_state
no_reference_leak_example =
    no_reference_leak counting_laws 3 nobody_else three end_state three-Balanced session_run

-- Descriptor 0 for the directory.
abbrev listing : Files Counts
listing = record three { file = λ f. record (three.file f) { vnode = 2 } }
