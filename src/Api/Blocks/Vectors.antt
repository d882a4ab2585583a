-- ===== src/Api/Blocks/Vectors.antt =====
-- kernel/api/access.c: the blocks of `user_vecdup`.
use kernel.Base.{
  ℕ, zero, suc, ◌+◌, ◌*◌, ◌%◌, ◌^◌, ◌<◌, ◌≡◌, Bool, List, [], ◌∷◌, ◌++◌, Option, none, some, add32,
  ℤ, pos, negsuc, arith,
}
use kernel.Api.Memory.{
  ArgVec, Codes, Kernel, Machine, kmalloc, kfree, copy_from_user, user_strdup, free_all, vec_fail,
  next_string, dup_strings, vec_copied, with_kvec, with_temp, user_vecdup,
}
use kernel.Api.Blocks.{
  Positive, Held, BlockHeld, StringHeld, VectorHeld, Held-same, vector_then_temp, string_last,
  kmalloc-Held, kfree-Held, free_all-Held, copy_from_user-Held, failed-Held, user_strdup-Held,
}

module _ {W : Type 0} (h g : List ℕ) (b : Bool) (codes : Codes) (m : Machine W) where
  vec_fail-Held :
      (temp kvec : ℕ) (strings l : List ℕ) (e e' : ℕ) (s : Kernel W)
      → 0 < e'
      → Held h g b (strings ++ (kvec ∷ temp ∷ l)) e s
      → VectorHeld h g b l e (vec_fail codes m temp (some kvec) strings e' s)
  vec_fail-Held temp kvec strings l e e' s positive held =
      let s1 = free_all m strings s in
      let s2 = kfree m kvec s1 in
      (
        failed-Held h g b codes m e e' l (kfree m temp s2) (
            kfree-Held h g b m temp l e s2 (
              kfree-Held h g b m kvec (temp ∷ l) e s1
                (free_all-Held h g b m strings (kvec ∷ temp ∷ l) e s held))),
        positive,
      )

  next_string-Held :
      (loop : ℕ → List ℕ → Kernel W → Option (ℕ × List ℕ) × Kernel W) (temp kvec i : ℕ)
      (strings l : List ℕ) (e : ℕ) (r : Option ℕ × Kernel W)
      → ((strings' : List ℕ) (s' : Kernel W)
          → Held h g b (strings' ++ (kvec ∷ temp ∷ l)) e s'
          → VectorHeld h g b l e (loop (i + 1) strings' s'))
      → StringHeld h g b (strings ++ (kvec ∷ temp ∷ l)) e r
      → VectorHeld h g b l e (next_string codes m loop temp kvec i strings r)
  next_string-Held loop temp kvec i strings l e (none, s) rest (held, positive) =
      vec_fail-Held temp kvec strings l s.errno s.errno s positive held
  next_string-Held loop temp kvec i strings l e (some p, s) rest held =
      rest (strings ++ (p ∷ [])) s (
        Held-same h g b (p ∷ (strings ++ (kvec ∷ temp ∷ l)))
          ((strings ++ (p ∷ [])) ++ (kvec ∷ temp ∷ l)) e s (string_last strings p (kvec ∷ temp ∷ l))
          held)

  dup_strings-Held :
      (left temp kvec i : ℕ) (strings l : List ℕ) (e : ℕ) (s : Kernel W)
      → Positive codes
      → Held h g b (strings ++ (kvec ∷ temp ∷ l)) e s
      → VectorHeld h g b l e (dup_strings codes m left temp kvec i strings s)
  unfolding dup_strings
  dup_strings-Held zero temp kvec i strings l e s c held =
      kfree-Held h g b m temp (strings ++ (kvec ∷ l)) e s (
        Held-same h g b (strings ++ (kvec ∷ temp ∷ l)) (temp ∷ (strings ++ (kvec ∷ l))) e s
          (vector_then_temp strings kvec temp l) held)
  dup_strings-Held (suc left) temp kvec i strings l e s c held =
      let ustr = m.argstr_at s.world temp i in
      next_string-Held (dup_strings codes m left temp kvec) temp kvec i strings l e
        (user_strdup codes m ustr s)
        (λ strings' s' held'. dup_strings-Held left temp kvec (i + 1) strings' l e s' c held')
        (user_strdup-Held h g b codes m ustr (strings ++ (kvec ∷ temp ∷ l)) e s c held)

  vec_copied-Held :
      (uvec : ArgVec) (temp kvec : ℕ) (l : List ℕ) (e : ℕ) (r : ℤ × Kernel W)
      → Positive codes
      → ((w : W) (p : ℕ) → m.left_over w p ≡ [])
      → Held h g b (kvec ∷ temp ∷ l) e r.1
      → VectorHeld h g b l e (vec_copied codes m uvec temp kvec r)
  vec_copied-Held uvec temp kvec l e (negsuc n, s) c clear held =
      vec_fail-Held temp kvec (m.left_over s.world kvec) l e (suc n) s (omega arith)
        (rw (clear s.world kvec) held)
  vec_copied-Held uvec temp kvec l e (pos n, s) c clear held =
      dup_strings-Held uvec.av_len temp kvec 0 [] l e s c held

  with_kvec-Held :
      (uvec : ArgVec) (temp : ℕ) (l : List ℕ) (e : ℕ) (r : Option ℕ × Kernel W)
      → Positive codes
      → ((w : W) (p : ℕ) → m.left_over w p ≡ [])
      → BlockHeld h g b (temp ∷ l) e r
      → VectorHeld h g b l e (with_kvec codes m uvec temp r)
  with_kvec-Held uvec temp l e (none, s) c clear held = (
    failed-Held h g b codes m e codes.enomem l (kfree m temp s)
        (kfree-Held h g b m temp l e s held),
    c.enomem_pos,
  )
  with_kvec-Held uvec temp l e (some kvec, s) c clear held =
      let size = (add32 uvec.av_len 1 * codes.argstr_size) % 2 ^ 32 in
      vec_copied-Held uvec temp kvec l e (copy_from_user codes m temp uvec.av_vec size s) c clear
        (copy_from_user-Held h g b codes m temp uvec.av_vec size (kvec ∷ temp ∷ l) e s held)

  with_temp-Held :
      (uvec : ArgVec) (l : List ℕ) (e : ℕ) (r : Option ℕ × Kernel W)
      → Positive codes
      → ((w : W) (p : ℕ) → m.left_over w p ≡ [])
      → BlockHeld h g b l e r
      → VectorHeld h g b l e (with_temp codes m uvec r)
  with_temp-Held uvec l e (none, s) c clear held =
      (failed-Held h g b codes m e codes.enomem l s held, c.enomem_pos)
  with_temp-Held uvec l e (some temp, s) c clear held =
      let size = (add32 uvec.av_len 1 * 4) % 2 ^ 32 in
      with_kvec-Held uvec temp l e (kmalloc m size s) c clear
        (kmalloc-Held h g b m size (temp ∷ l) e s held)

  -- A copied vector is its block and those of its strings; on failure nothing is out and
  -- `kt_errno` is set, if a new buffer starts with NULL.
  pub user_vecdup-Held :
      (uvec : ArgVec) (l : List ℕ) (e : ℕ) (s : Kernel W)
      → Positive codes
      → ((w : W) (p : ℕ) → m.left_over w p ≡ [])
      → Held h g b l e s
      → VectorHeld h g b l e (user_vecdup codes m uvec s)
  unfolding user_vecdup
  user_vecdup-Held uvec l e s c clear held =
      let size = (add32 uvec.av_len 1 * codes.argstr_size) % 2 ^ 32 in
      with_temp-Held uvec l e (kmalloc m size s) c clear (kmalloc-Held h g b m size l e s held)
