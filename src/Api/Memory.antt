-- ===== src/Api/Memory.antt =====
-- kernel/api/access.c: `copy_from_user`, `copy_to_user`, `user_strdup` and `user_vecdup`.
use kernel.Base.{
  ℕ, zero, suc, ◌+◌, ◌*◌, ◌%◌, ◌^◌, Bool, true, List, [], ◌∷◌, ◌++◌, Option, none, some, ◌==◌,
  if◌then◌else◌, add32, ℤ, pos, negsuc, minus, remove_item, occurs,
}
use kernel.Vm.Area.{AreaList}
use kernel.Vm.Access.{range_perm}

-- `argstr_t` and `argvec_t`
pub record ArgStr : Type 0 where
  pub as_str : ℕ
  pub as_len : ℕ

pub record ArgVec : Type 0 where
  pub av_vec : ℕ
  pub av_len : ℕ

-- The values of the headers that are not in the repository: error numbers, which are positive, the two
-- protections and `sizeof(argstr_t)`.
pub record Codes : Type 0 where
  pub efault : ℕ
  pub einval : ℕ
  pub enomem : ℕ
  pub enosys : ℕ
  pub prot_read : ℕ
  pub prot_write : ℕ
  pub argstr_size : ℕ

-- The running thread's `kt_errno`, the blocks of `kmalloc` and the pages of `page_alloc` that have not
-- been given back, whether one was given back that was not out, and the state of the rest.
pub record Kernel (W : Type 0) : Type 0 where
  pub errno : ℕ
  pub blocks : List ℕ
  pub pages : List ℕ
  pub misfreed : Bool
  pub world : W

-- The allocators and the address space of the running process. Buffers have their addresses.
pub record Machine (W : Type 0) : Type 0 where
  pub kmalloc : W → ℕ → Option ℕ × W
  pub kfree : W → ℕ → W
  pub page_alloc : W → ℕ × W
  pub page_free : W → ℕ → W
  pub areas : W → AreaList  -- of `curproc->p_vmmap`
  pub vmmap_read : W → ℕ → ℕ → ℕ → ℤ × W  -- an address, a buffer and a size
  pub vmmap_write : W → ℕ → ℕ → ℕ → ℤ × W
  pub argstr_at : W → ℕ → ℕ → ArgStr  -- an entry of a buffer of `argstr_t`
  pub left_over : W → ℕ → List ℕ  -- the pointers in a new buffer, up to the first NULL

module _ {W : Type 0} where
  abbrev pub set_errno : ℕ → Kernel W → Kernel W
  set_errno e s = record s { errno = e }

  abbrev pub set_world : W → Kernel W → Kernel W
  set_world w s = record s { world = w }

  -- A call of another part.
  abbrev pub run : {A : Type 0} → (W → A × W) → Kernel W → A × Kernel W
  run f s = let (a, w) = f s.world in (a, set_world w s)

module _ {W : Type 0} (m : Machine W) where
  abbrev pub allocated : Option ℕ → Kernel W → Option ℕ × Kernel W
  allocated none s = (none, s)
  allocated (some p) s = (some p, record s { blocks = p ∷ s.blocks })

  unfoldable pub kmalloc : ℕ → Kernel W → Option ℕ × Kernel W
  kmalloc size s = let (o, s') = run (λ w. m.kmalloc w size) s in allocated o s'

  unfoldable pub kfree : ℕ → Kernel W → Kernel W
  kfree p s = record s {
    blocks = remove_item p s.blocks;
    misfreed = if occurs p s.blocks == 0 then true else s.misfreed;
    world = m.kfree s.world p;
  }

  -- `kfree` of a pointer that may be NULL.
  abbrev pub kfree_opt : Option ℕ → Kernel W → Kernel W
  kfree_opt none s = s
  kfree_opt (some p) s = kfree p s

  unfoldable pub free_all : List ℕ → Kernel W → Kernel W
  free_all [] s = s
  free_all (p ∷ rest) s = free_all rest (kfree p s)

  unfoldable pub page_alloc : Kernel W → ℕ × Kernel W
  page_alloc s = let (p, s') = run m.page_alloc s in (p, record s' { pages = p ∷ s.pages })

  unfoldable pub page_free : ℕ → Kernel W → Kernel W
  page_free p s = record s {
    pages = remove_item p s.pages;
    misfreed = if occurs p s.pages == 0 then true else s.misfreed;
    world = m.page_free s.world p;
  }

module _ {W : Type 0} (codes : Codes) (m : Machine W) where
  -- What `copy_from_user` and `copy_to_user` do after `range_perm`. It always ends.
  abbrev pub if_allowed : (W → ℤ × W) → Option Bool → Kernel W → ℤ × Kernel W
  if_allowed copy (some true) s = run copy s
  if_allowed copy _ s = (minus codes.efault, s)

  unfoldable pub copy_from_user : ℕ → ℕ → ℕ → Kernel W → ℤ × Kernel W
  copy_from_user kaddr uaddr nbytes s =
      if_allowed (λ w. m.vmmap_read w uaddr kaddr nbytes)
        (range_perm (m.areas s.world) uaddr nbytes codes.prot_read) s

  unfoldable pub copy_to_user : ℕ → ℕ → ℕ → Kernel W → ℤ × Kernel W
  copy_to_user uaddr kaddr nbytes s =
      if_allowed (λ w. m.vmmap_write w uaddr kaddr nbytes)
        (range_perm (m.areas s.world) uaddr nbytes codes.prot_write) s

  -- The rest of `user_strdup` with the result of its copy.
  abbrev pub str_copied : ℕ → ℤ × Kernel W → Option ℕ × Kernel W
  str_copied kstr (negsuc n, s) = (none, kfree m kstr (set_errno (suc n) s))
  str_copied kstr (pos _, s) = (some kstr, s)

  abbrev pub str_in : ArgStr → Option ℕ × Kernel W → Option ℕ × Kernel W
  str_in ustr (none, s) = (none, set_errno codes.enomem s)
  str_in ustr (some kstr, s) =
      str_copied kstr (copy_from_user kstr ustr.as_str (add32 ustr.as_len 1) s)

  unfoldable pub user_strdup : ArgStr → Kernel W → Option ℕ × Kernel W
  user_strdup ustr s = str_in ustr (kmalloc m (add32 ustr.as_len 1) s)

  -- `fail:` in `user_vecdup`, where `kvec` starts with the pointers `strings`.
  abbrev pub vec_fail : ℕ → Option ℕ → List ℕ → ℕ → Kernel W → Option (ℕ × List ℕ) × Kernel W
  vec_fail temp none strings e s = (none, set_errno e (kfree m temp s))
  vec_fail temp (some kvec) strings e s =
      (none, set_errno e (kfree m temp (kfree m kvec (free_all m strings s))))

  -- The loop of `user_vecdup` from the entry `i`, with the strings so far.
  abbrev pub next_string :
      (ℕ → List ℕ → Kernel W → Option (ℕ × List ℕ) × Kernel W)
      → ℕ
      → ℕ
      → ℕ
      → List ℕ
      → Option ℕ × Kernel W
      → Option (ℕ × List ℕ) × Kernel W
  next_string loop temp kvec i strings (none, s) = vec_fail temp (some kvec) strings s.errno s
  next_string loop temp kvec i strings (some p, s) = loop (i + 1) (strings ++ (p ∷ [])) s

  unfoldable pub dup_strings : ℕ → ℕ → ℕ → ℕ → List ℕ → Kernel W → Option (ℕ × List ℕ) × Kernel W
  dup_strings zero temp kvec i strings s = (some (kvec, strings), kfree m temp s)
  dup_strings (suc left) temp kvec i strings s =
      next_string (dup_strings left temp kvec) temp kvec i strings
        (user_strdup (m.argstr_at s.world temp i) s)

  abbrev pub vec_copied : ArgVec → ℕ → ℕ → ℤ × Kernel W → Option (ℕ × List ℕ) × Kernel W
  vec_copied uvec temp kvec (negsuc n, s) =
      vec_fail temp (some kvec) (m.left_over s.world kvec) (suc n) s
  vec_copied uvec temp kvec (pos _, s) = dup_strings uvec.av_len temp kvec 0 [] s

  abbrev pub with_kvec : ArgVec → ℕ → Option ℕ × Kernel W → Option (ℕ × List ℕ) × Kernel W
  with_kvec uvec temp (none, s) = vec_fail temp none [] codes.enomem s
  with_kvec uvec temp (some kvec, s) =
      vec_copied uvec temp kvec
        (copy_from_user temp uvec.av_vec ((add32 uvec.av_len 1 * codes.argstr_size) % 2 ^ 32) s)

  -- Without memory for the first buffer, `kfree` is called with NULL.
  abbrev pub with_temp : ArgVec → Option ℕ × Kernel W → Option (ℕ × List ℕ) × Kernel W
  with_temp uvec (none, s) = (none, set_errno codes.enomem s)
  with_temp uvec (some temp, s) =
      with_kvec uvec temp (kmalloc m ((add32 uvec.av_len 1 * 4) % 2 ^ 32) s)

  -- The result is the vector with its strings.
  unfoldable pub user_vecdup : ArgVec → Kernel W → Option (ℕ × List ℕ) × Kernel W
  unfolding dup_strings free_all
  user_vecdup uvec s =
      with_temp uvec (kmalloc m ((add32 uvec.av_len 1 * codes.argstr_size) % 2 ^ 32) s)
