-- ===== src/Api/Outcomes.antt =====
-- kernel/api/syscall.c: what is out, and what `kt_errno` is, when a function sys_* returns.
pub mod Paths
pub mod Maps
use kernel.Base.{
  ℕ, zero, suc, ◌+◌, ◌-◌, ◌≤◌, ◌<◌, ◌^◌, ◌≡◌, refl, sym, ap, inl, inr, Bool, true, false, List, [],
  ◌∷◌, occurs, Option, none, some, ◌==◌, if◌then◌else◌, sub32, ℤ, pos, negsuc, arith, if-Holds,
  Bool-cases,
}
use kernel.Vm.Access.{range_perm}
use kernel.Api.Memory.{
  if_allowed, ArgStr, Codes, Kernel, Machine, set_errno, run, kfree, copy_from_user, copy_to_user,
  user_strdup,
}
use kernel.Api.Blocks.{
  Positive, Held, Held-same, StringHeld, kfree-Held, copy_from_user-Held, copy_to_user-Held,
  failed-Held, user_strdup-Held,
}
use kernel.Api.Calls.{
  Struct, Structs, Services, fail, report, report_zero, report_address, fetch, fetched, with_args,
  fetched_or_fault, if_string, with_string, on_path, path_call, if_second, with_second, sys_close,
  sys_dup, sys_dup2, sys_lseek, sys_mkdir, sys_rmdir, sys_unlink, sys_chdir, sys_open, link_paths,
  sys_link, rename_paths, sys_rename, stat_out, stat_freed, sys_stat, unmapped, munmap_fetched,
  sys_munmap, mmap_fetched, sys_mmap, brk_done, sys_brk,
}

-- Results fit into 32 bits.
pub record Narrow {W : Type 0} (m : Machine W) (v : Services W) : Type 0 where
  pub written : (w w' : W) (u k size n : ℕ) → m.vmmap_write w u k size ≡ (pos n, w') → n < 2 ^ 32
  pub stat : (w w' : W) (path buf n : ℕ) → v.do_stat w path buf ≡ (pos n, w') → n < 2 ^ 32
  pub brk : (w w' : W) (addr n ret : ℕ) → v.do_brk w addr ≡ ((pos n, ret), w') → n < 2 ^ 32

-- A result that is not negative leaves `kt_errno` at `e`; any other is -1, with an error number.
abbrev pub Reports : {W : Type 0} → ℕ → ℤ × Kernel W → Type 0
Reports e (pos n, s) = s.errno ≡ e
Reports e (negsuc n, s) = (n ≡ 0) × (0 < s.errno)

-- What only 0 counts as success reports any other result.
pub negated_pos : (n : ℕ) → (n == 0) ≡ false → n < 2 ^ 32 → 0 < sub32 0 n
unfolding sub32
negated_pos n nonzero narrow = ground (arith, nonzero, narrow)

module _ {W : Type 0} (h g : List ℕ) (b : Bool) where
  -- Nothing that the call took is out when it returns.
  abbrev pub Done : ℕ → ℤ × Kernel W → Type 0
  Done e (r, s) = Held h g b [] s.errno s × Reports e (r, s)

  abbrev pub AddressDone : ℕ → Option ℕ × Kernel W → Type 0
  AddressDone e (none, s) = Held h g b [] s.errno s × (0 < s.errno)
  AddressDone e (some _, s) = Held h g b [] e s

  pub fail-Done : (e e' : ℕ) (s : Kernel W) → 0 < e' → Held h g b [] e s → Done e (fail e' s)
  fail-Done e e' s positive (out, same, fine, _) = ((out, same, fine, refl), (refl, positive))

  pub report-Done : (e : ℕ) (r : ℤ × Kernel W) → Held h g b [] e r.1 → Done e (report r)
  report-Done e (pos n, s) (out, same, fine, err) = ((out, same, fine, refl), err)
  report-Done e (negsuc n, s) held = fail-Done e (suc n) s (omega arith) held

  pub report_zero-Done :
      (e : ℕ) (r : ℤ × Kernel W)
      → ((n : ℕ) → r.0 ≡ pos n → n < 2 ^ 32)
      → Held h g b [] e r.1
      → Done e (report_zero r)
  report_zero-Done e (pos n, s) narrow held =
      if-Holds (Done e) (n == 0) (λ _. report-Done e (pos 0, s) held)
        λ nonzero. fail-Done e (sub32 0 n) s (negated_pos n nonzero (narrow n refl)) held
  report_zero-Done e (negsuc n, s) narrow held = fail-Done e (suc n) s (omega arith) held

  module _ (codes : Codes) (m : Machine W) (t : Structs W) (v : Services W)
      (c : Positive codes) where
    allowed_small :
        (copy : W → ℤ × W) (o : Option Bool) (s : Kernel W)
        → ((w : W) (n : ℕ) → (copy w).0 ≡ pos n → n < 2 ^ 32)
        → (n : ℕ) → (if_allowed codes m copy o s).0 ≡ pos n
        → n < 2 ^ 32
    allowed_small copy none s small n e = cc
    allowed_small copy (some true) s small n e = small s.world n e
    allowed_small copy (some false) s small n e = cc

    pub fetched-Done :
        {A : Type 0} (st : Struct W A) (k : A → Kernel W → ℤ × Kernel W) (e : ℕ) (r : ℤ × Kernel W)
        → ((a : A) (s' : Kernel W) → Held h g b [] e s' → Done e (k a s'))
        → Held h g b [] e r.1
        → Done e (fetched codes m t v st k r)
    fetched-Done st k e (negsuc n, s) next held = fail-Done e (suc n) s (omega arith) held
    fetched-Done st k e (pos n, s) next held = next (st.load s.world t.kern_args) s held

    pub fetch-Held :
        {A : Type 0} (st : Struct W A) (arg e : ℕ) (s : Kernel W)
        → Held h g b [] e s
        → Held h g b [] e (fetch codes m t v st arg s).1
    fetch-Held st arg e s held =
        copy_from_user-Held h g b codes m t.kern_args arg st.size [] e s held

    pub with_args-Done :
        {A : Type 0} (st : Struct W A) (k : A → Kernel W → ℤ × Kernel W) (e arg : ℕ) (s : Kernel W)
        → ((a : A) (s' : Kernel W) → Held h g b [] e s' → Done e (k a s'))
        → Held h g b [] e s
        → Done e (with_args codes m t v st k arg s)
    with_args-Done st k e arg s next held =
        fetched-Done st k e (fetch codes m t v st arg s) next (fetch-Held st arg e s held)

    pub fetched_or_fault-Done :
        {A : Type 0} (st : Struct W A) (k : A → Kernel W → ℤ × Kernel W) (e : ℕ) (r : ℤ × Kernel W)
        → ((a : A) (s' : Kernel W) → Held h g b [] e s' → Done e (k a s'))
        → Held h g b [] e r.1
        → Done e (fetched_or_fault codes m t v st k r)
    fetched_or_fault-Done st k e (negsuc n, s) next held =
        fail-Done e codes.efault s c.efault_pos held
    fetched_or_fault-Done st k e (pos n, s) next held = next (st.load s.world t.kern_args) s held

    if_string-Done :
        (k : ℕ → Kernel W → ℤ × Kernel W) (e : ℕ) (r : Option ℕ × Kernel W)
        → ((p : ℕ) (s' : Kernel W) → Held h g b (p ∷ []) e s' → Done e (k p s'))
        → StringHeld h g b [] e r
        → Done e (if_string codes m t v k r)
    if_string-Done k e (none, s) next ((out, same, fine, _), _) =
        ((out, same, fine, refl), (refl, c.einval_pos))
    if_string-Done k e (some p, s) next held = next p s held

    pub with_string-Done :
        (ustr : ArgStr) (k : ℕ → Kernel W → ℤ × Kernel W) (e : ℕ) (s : Kernel W)
        → ((p : ℕ) (s' : Kernel W) → Held h g b (p ∷ []) e s' → Done e (k p s'))
        → Held h g b [] e s
        → Done e (with_string codes m t v ustr k s)
    with_string-Done ustr k e s next held =
        if_string-Done k e (user_strdup codes m ustr s) next
          (user_strdup-Held h g b codes m ustr [] e s c held)

    if_second-Done :
        (first : ℕ) (k : ℕ → Kernel W → ℤ × Kernel W) (e : ℕ) (r : Option ℕ × Kernel W)
        → ((p : ℕ) (s' : Kernel W) → Held h g b (p ∷ first ∷ []) e s' → Done e (k p s'))
        → StringHeld h g b (first ∷ []) e r
        → Done e (if_second codes m t v first k r)
    unfolding kfree
    if_second-Done first k e (none, s) next (held, _) = (
      kfree-Held h g b m first [] codes.einval (set_errno codes.einval s)
          (failed-Held h g b codes m s.errno codes.einval (first ∷ []) s held),
      (refl, c.einval_pos),
    )
    if_second-Done first k e (some p, s) next held = next p s held

    pub with_second-Done :
        (first : ℕ) (ustr : ArgStr) (k : ℕ → Kernel W → ℤ × Kernel W) (e : ℕ) (s : Kernel W)
        → ((p : ℕ) (s' : Kernel W) → Held h g b (p ∷ first ∷ []) e s' → Done e (k p s'))
        → Held h g b (first ∷ []) e s
        → Done e (with_second codes m t v first ustr k s)
    with_second-Done first ustr k e s next held =
        if_second-Done first k e (user_strdup codes m ustr s) next
          (user_strdup-Held h g b codes m ustr (first ∷ []) e s c held)

    pub on_path-Done :
        (f : W → ℕ → ℤ × W) (e p : ℕ) (s : Kernel W)
        → Held h g b (p ∷ []) e s
        → Done e (on_path codes m t v f p s)
    on_path-Done f e p s held =
        let (r, s1) = run (λ w. f w p) s in
        report-Done e (r, kfree m p s1) (kfree-Held h g b m p [] e s1 held)

    -- Both strings are freed, the first one first.
    pub two_freed :
        (e second first : ℕ) (r : ℤ × Kernel W)
        → Held h g b (second ∷ first ∷ []) e r.1
        → Done e (report (r.0, kfree m second (kfree m first r.1)))
    unfolding occurs
    two_freed e second first (r, s) held =
        let swapped =
          Held-same h g b (second ∷ first ∷ []) (first ∷ second ∷ []) e s (λ p. omega arith) held in
        report-Done e (r, kfree m second (kfree m first s))
          (kfree-Held h g b m second [] e (kfree m first s)
            (kfree-Held h g b m first (second ∷ []) e s swapped))

    -- Both strings are freed, the second one first.
    pub two_freed_back :
        (e second first : ℕ) (r : ℤ × Kernel W)
        → Held h g b (second ∷ first ∷ []) e r.1
        → Done e (report (r.0, kfree m first (kfree m second r.1)))
    two_freed_back e second first (r, s) held =
        report-Done e (r, kfree m first (kfree m second s))
          (kfree-Held h g b m first [] e (kfree m second s)
            (kfree-Held h g b m second (first ∷ []) e s held))

    pub path_call-Done :
        (st : Struct W ArgStr) (f : W → ℕ → ℤ × W) (e arg : ℕ) (s : Kernel W)
        → Held h g b [] e s
        → Done e (path_call codes m t v st f arg s)
    path_call-Done st f e arg s held =
        with_args-Done st (λ ustr. with_string codes m t v ustr (on_path codes m t v f)) e arg s
          (λ ustr s1 held1.
            with_string-Done ustr (on_path codes m t v f) e s1
              (λ p s2 held2. on_path-Done f e p s2 held2) held1)
          held

    pub copied_small :
        (buf kaddr size : ℕ) (s : Kernel W)
        → Narrow m v
        → (n : ℕ) → (copy_to_user codes m buf kaddr size s).0 ≡ pos n
        → n < 2 ^ 32
    unfolding copy_to_user
    copied_small buf kaddr size s narrow n e =
        allowed_small (λ w. m.vmmap_write w buf kaddr size)
          (range_perm (m.areas s.world) buf size codes.prot_write) s
          (λ w k same.
            narrow.written w (m.vmmap_write w buf kaddr size).1 buf kaddr size k
              (ap (λ r. (r, (m.vmmap_write w buf kaddr size).1)) same))
          n e
