-- ===== src/Api/Blocks.antt =====
-- kernel/api/access.c: which blocks are out while strings and vectors are copied, and `kt_errno`.
pub mod Vectors
use kernel.Base.{
  ℕ, zero, suc, ◌+◌, ◌*◌, ◌%◌, ◌^◌, ◌<◌, ◌≡◌, refl, Bool, true, false, List, [], ◌∷◌, ◌++◌, Option,
  none, some, add32, ℤ, pos, negsuc, occurs, occurs-remove_item, occurs-append, arith,
}
use kernel.Vm.Access.{range_perm}
use kernel.Api.Memory.{
  ArgStr, ArgVec, Codes, Kernel, Machine, set_errno, set_world, allocated, kmalloc, kfree,
  if_allowed, copy_from_user, copy_to_user, str_copied, str_in, user_strdup, free_all, vec_fail,
  next_string, dup_strings, vec_copied, with_kvec, with_temp, user_vecdup,
}

-- Error numbers are positive.
pub record Positive (codes : Codes) : Type 0 where
  pub efault_pos : 0 < codes.efault
  pub einval_pos : 0 < codes.einval
  pub enomem_pos : 0 < codes.enomem
  pub enosys_pos : 0 < codes.enosys

-- The vector's block and strings, and the buffer `temp`.
pub vector_then_temp :
    (strings : List ℕ) (kvec temp : ℕ) (l : List ℕ) (p : ℕ)
    → occurs p (strings ++ (kvec ∷ temp ∷ l)) ≡ occurs p (temp ∷ (strings ++ (kvec ∷ l)))
unfolding occurs
vector_then_temp strings kvec temp l p =
    omega (arith, occurs-append p strings (kvec ∷ temp ∷ l), occurs-append p strings (kvec ∷ l))

pub string_last :
    (strings : List ℕ) (q : ℕ) (l : List ℕ) (p : ℕ)
    → occurs p (q ∷ (strings ++ l)) ≡ occurs p ((strings ++ (q ∷ [])) ++ l)
unfolding occurs
string_last strings q l p = omega (
  arith,
  occurs-append p strings l,
  occurs-append p (strings ++ (q ∷ [])) l,
  occurs-append p strings (q ∷ []),
)

module _ {W : Type 0} (h g : List ℕ) (b : Bool) where
  -- Out are the blocks `h` and `l` and the pages `g`, and `kt_errno` is `e`.
  abbrev pub Held : List ℕ → ℕ → Kernel W → Type 0
  Held l e s =
      ((p : ℕ) → occurs p s.blocks ≡ occurs p h + occurs p l)
      × (s.pages ≡ g)
      × (s.misfreed ≡ b)
      × (s.errno ≡ e)

  abbrev pub BlockHeld : List ℕ → ℕ → Option ℕ × Kernel W → Type 0
  BlockHeld l e (none, s) = Held l e s
  BlockHeld l e (some p, s) = Held (p ∷ l) e s

  abbrev pub StringHeld : List ℕ → ℕ → Option ℕ × Kernel W → Type 0
  StringHeld l e (none, s) = Held l s.errno s × (0 < s.errno)
  StringHeld l e (some p, s) = Held (p ∷ l) e s

  abbrev pub VectorHeld : List ℕ → ℕ → Option (ℕ × List ℕ) × Kernel W → Type 0
  VectorHeld l e (none, s) = Held l s.errno s × (0 < s.errno)
  VectorHeld l e (some (kvec, strings), s) = Held (strings ++ (kvec ∷ l)) e s

  pub Held-same :
      (l l' : List ℕ) (e : ℕ) (s : Kernel W)
      → ((p : ℕ) → occurs p l ≡ occurs p l')
      → Held l e s
      → Held l' e s
  Held-same l l' e s same (out, at_pages, fine, err) =
      ((λ p. omega (arith, out p, same p)), at_pages, fine, err)

  module _ (m : Machine W) where
    allocated-Held :
        (o : Option ℕ) (l : List ℕ) (e : ℕ) (s : Kernel W)
        → Held l e s
        → BlockHeld l e (allocated m o s)
    unfolding occurs
    allocated-Held none l e s held = held
    allocated-Held (some p) l e s (out, same, fine, err) =
        ((λ q. omega (arith, out q)), same, fine, err)

    pub kmalloc-Held :
        (size : ℕ) (l : List ℕ) (e : ℕ) (s : Kernel W)
        → Held l e s
        → BlockHeld l e (kmalloc m size s)
    unfolding kmalloc occurs
    kmalloc-Held size l e s held =
        let (o, w) = m.kmalloc s.world size in allocated-Held o l e (set_world w s) held

    pub kfree-Held :
        (p : ℕ) (l : List ℕ) (e : ℕ) (s : Kernel W) → Held (p ∷ l) e s → Held l e (kfree m p s)
    unfolding kfree occurs
    kfree-Held p l e s (out, same, fine, err) = (
      (λ q. ground (arith, occurs-remove_item p q s.blocks, out q)),
      same,
      ground (arith, out p, fine),
      err,
    )

    pub free_all-Held :
        (strings l : List ℕ) (e : ℕ) (s : Kernel W)
        → Held (strings ++ l) e s
        → Held l e (free_all m strings s)
    unfolding free_all
    free_all-Held [] l e s held = held
    free_all-Held (p ∷ rest) l e s held =
        free_all-Held rest l e (kfree m p s) (kfree-Held p (rest ++ l) e s held)

  module _ (codes : Codes) (m : Machine W) where
    pub copied-Held :
        (copy : W → ℤ × W) (o : Option Bool) (l : List ℕ) (e : ℕ) (s : Kernel W)
        → Held l e s
        → Held l e (if_allowed codes m copy o s).1
    copied-Held copy none l e s held = held
    copied-Held copy (some true) l e s held = held
    copied-Held copy (some false) l e s held = held

    pub copy_from_user-Held :
        (kaddr uaddr nbytes : ℕ) (l : List ℕ) (e : ℕ) (s : Kernel W)
        → Held l e s
        → Held l e (copy_from_user codes m kaddr uaddr nbytes s).1
    unfolding copy_from_user
    copy_from_user-Held kaddr uaddr nbytes l e s held =
        copied-Held (λ w. m.vmmap_read w uaddr kaddr nbytes)
          (range_perm (m.areas s.world) uaddr nbytes codes.prot_read) l e s held

    pub copy_to_user-Held :
        (uaddr kaddr nbytes : ℕ) (l : List ℕ) (e : ℕ) (s : Kernel W)
        → Held l e s
        → Held l e (copy_to_user codes m uaddr kaddr nbytes s).1
    unfolding copy_to_user
    copy_to_user-Held uaddr kaddr nbytes l e s held =
        copied-Held (λ w. m.vmmap_write w uaddr kaddr nbytes)
          (range_perm (m.areas s.world) uaddr nbytes codes.prot_write) l e s held

    -- Setting `kt_errno` releases and takes nothing.
    pub failed-Held :
        (e e' : ℕ) (l : List ℕ) (s : Kernel W) → Held l e s → Held l e' (set_errno e' s)
    failed-Held e e' l s (out, same, fine, _) = (out, same, fine, refl)

    str_copied-Held :
        (p : ℕ) (l : List ℕ) (e : ℕ) (r : ℤ × Kernel W)
        → Held (p ∷ l) e r.1
        → StringHeld l e (str_copied codes m p r)
    unfolding kfree
    str_copied-Held p l e (pos n, s) held = held
    str_copied-Held p l e (negsuc n, s) held = (
      kfree-Held m p l (suc n) (set_errno (suc n) s) (failed-Held e (suc n) (p ∷ l) s held),
      omega arith,
    )

    str_in-Held :
        (ustr : ArgStr) (l : List ℕ) (e : ℕ) (r : Option ℕ × Kernel W)
        → Positive codes
        → BlockHeld l e r
        → StringHeld l e (str_in codes m ustr r)
    str_in-Held ustr l e (none, s) c held = (failed-Held e codes.enomem l s held, c.enomem_pos)
    str_in-Held ustr l e (some p, s) c held =
        str_copied-Held p l e (copy_from_user codes m p ustr.as_str (add32 ustr.as_len 1) s)
          (copy_from_user-Held p ustr.as_str (add32 ustr.as_len 1) (p ∷ l) e s held)

    -- A copied string is one block more; on failure nothing is out and `kt_errno` is set.
    pub user_strdup-Held :
        (ustr : ArgStr) (l : List ℕ) (e : ℕ) (s : Kernel W)
        → Positive codes
        → Held l e s
        → StringHeld l e (user_strdup codes m ustr s)
    unfolding user_strdup
    user_strdup-Held ustr l e s c held =
        str_in-Held ustr l e (kmalloc m (add32 ustr.as_len 1) s) c
          (kmalloc-Held m (add32 ustr.as_len 1) l e s held)
