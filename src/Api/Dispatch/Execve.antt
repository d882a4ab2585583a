-- ===== src/Api/Dispatch/Execve.antt =====
-- kernel/api/syscall.c: the blocks that `sys_execve` and `sys_debug` take.
use kernel.Base.{
  ℕ, suc, ◌+◌, ◌≡◌, refl, Bool, List, [], ◌∷◌, ◌++◌, occurs, occurs-append, Option, none, some,
  ◌==◌, if◌then◌else◌, ℤ, pos, negsuc, arith, if-Holds,
}
use kernel.Api.Memory.{
  ArgStr, ArgVec, Codes, Kernel, Machine, set_errno, run, kfree, free_all, user_strdup, user_vecdup,
}
use kernel.Api.Blocks.{
  Positive, Held, Held-same, StringHeld, VectorHeld, kfree-Held, free_all-Held, failed-Held,
  user_strdup-Held,
}
use kernel.Api.Blocks.Vectors.{user_vecdup-Held}
use kernel.Api.Calls.{Struct, Structs, Services, fetch, fetched}
use kernel.Api.Outcomes.{fetch-Held}
use kernel.Api.Dispatch.{
  free_vector, cleanup, negated, copied_vector, vector_in, with_envp, with_argv, with_filename,
  sys_execve, debugged, sys_debug,
}

-- The blocks of a vector of strings, before others.
abbrev vector_blocks : Option (ℕ × List ℕ) → List ℕ → List ℕ
vector_blocks none l = l
vector_blocks (some (vect, strings)) l = strings ++ (vect ∷ l)

vector_blocks-occurs :
    (vec : Option (ℕ × List ℕ)) (l : List ℕ) (p : ℕ)
    → occurs p (vector_blocks vec l) ≡ occurs p (vector_blocks vec []) + occurs p l
unfolding occurs
vector_blocks-occurs none l p = omega arith
vector_blocks-occurs (some (vect, strings)) l p =
    omega (arith, occurs-append p strings (vect ∷ l), occurs-append p strings (vect ∷ []))

-- What `cleanup:` frees, in its order.
freed_order :
    (filename : ℕ) (argv envp : Option (ℕ × List ℕ)) (p : ℕ)
    → occurs p (vector_blocks envp (vector_blocks argv (filename ∷ [])))
      ≡ occurs p (filename ∷ vector_blocks argv (vector_blocks envp []))
unfolding occurs
freed_order filename argv envp p = omega (
  arith,
  vector_blocks-occurs envp (vector_blocks argv (filename ∷ [])) p,
  vector_blocks-occurs argv (filename ∷ []) p,
  vector_blocks-occurs argv (vector_blocks envp []) p,
)

module _ {W : Type 0} (h g : List ℕ) (b : Bool) (codes : Codes) (m : Machine W) (t : Structs W)
    (v : Services W) (c : Positive codes) where
  -- Nothing is out, whatever the result.
  abbrev pub Back : ℤ × Kernel W → Type 0
  Back (r, s) = Held h g b [] s.errno s

  pub Held-Back : (e : ℕ) (r : ℤ) (s : Kernel W) → Held h g b [] e s → Back (r, s)
  Held-Back e r s (out, same, fine, _) = (out, same, fine, refl)

  free_vector-Held :
      (vec : Option (ℕ × List ℕ)) (l : List ℕ) (e : ℕ) (s : Kernel W)
      → Held h g b (vector_blocks vec l) e s
      → Held h g b l e (free_vector codes m t v vec s)
  free_vector-Held none l e s held = held
  free_vector-Held (some (vect, strings)) l e s held =
      kfree-Held h g b m vect l e (free_all m strings s)
        (free_all-Held h g b m strings (vect ∷ l) e s held)

  cleanup-Back :
      (filename : ℕ) (argv envp : Option (ℕ × List ℕ)) (e : ℕ) (s : Kernel W)
      → Held h g b (vector_blocks envp (vector_blocks argv (filename ∷ []))) e s
      → Back (cleanup codes m t v filename argv envp s)
  cleanup-Back filename argv envp e s held =
      let s1 = kfree m filename s in
      let s2 = free_vector codes m t v argv s1 in
      let s3 = free_vector codes m t v envp s2 in
      Held-Back e (if s3.errno == 0 then pos 0 else negsuc 0) s3 (
        free_vector-Held envp [] e s2 (
          free_vector-Held argv (vector_blocks envp []) e s1 (
            kfree-Held h g b m filename (vector_blocks argv (vector_blocks envp [])) e s (
              Held-same h g b (vector_blocks envp (vector_blocks argv (filename ∷ [])))
                (filename ∷ vector_blocks argv (vector_blocks envp [])) e s
                (freed_order filename argv envp) held))))

  abbrev InHeld : List ℕ → ℕ → Option (Option (ℕ × List ℕ)) × Kernel W → Type 0
  InHeld l e (none, s) = Held h g b l s.errno s
  InHeld l e (some vec, s) = Held h g b (vector_blocks vec l) e s

  copied_vector-Held :
      (l : List ℕ) (e : ℕ) (r : Option (ℕ × List ℕ) × Kernel W)
      → VectorHeld h g b l e r
      → InHeld l e (copied_vector codes m t v r)
  copied_vector-Held l e (none, s) (held, _) = held
  copied_vector-Held l e (some (vect, strings), s) held = held

  fetched-Back :
      {A : Type 0} (st : Struct W A) (k : A → Kernel W → ℤ × Kernel W) (e : ℕ) (r : ℤ × Kernel W)
      → ((a : A) (s' : Kernel W) → Held h g b [] e s' → Back (k a s'))
      → Held h g b [] e r.1
      → Back (fetched codes m t v st k r)
  fetched-Back st k e (negsuc n, s) next held = failed-Held h g b codes m e (suc n) [] s held
  fetched-Back st k e (pos n, s) next held = next (st.load s.world t.kern_args) s held

  debugged-Back :
      (e : ℕ) (r : Option ℕ × Kernel W) → StringHeld h g b [] e r → Back (debugged codes m t v r)
  debugged-Back e (none, s) (held, _) = held
  debugged-Back e (some p, s) held =
      Held-Back e (pos 0) (kfree m p s) (kfree-Held h g b m p [] e s held)

  pub sys_debug-Back :
      (e arg : ℕ) (s : Kernel W) → Held h g b [] e s → Back (sys_debug codes m t v arg s)
  unfolding sys_debug
  sys_debug-Back e arg s held =
      fetched-Back t.argstr (λ (a : ArgStr) s1. debugged codes m t v (user_strdup codes m a s1)) e
        (fetch codes m t v t.argstr arg s)
        (λ a s1 held1.
          debugged-Back e (user_strdup codes m a s1)
            (user_strdup-Held h g b codes m a [] e s1 c held1))
        (fetch-Held h g b codes m t v c t.argstr arg e s held)

  module _ (clear : (w : W) (p : ℕ) → m.left_over w p ≡ []) where
    vector_in-Held :
        (uvec : ArgVec) (l : List ℕ) (e : ℕ) (s : Kernel W)
        → Held h g b l e s
        → InHeld l e (vector_in codes m t v uvec s)
    vector_in-Held uvec l e s held =
        if-Holds (InHeld l e) (uvec.av_vec == 0) {x = (some none, s)} (λ _. held)
          λ _.
            copied_vector-Held l e (user_vecdup codes m uvec s)
              (user_vecdup-Held h g b codes m uvec l e s c clear held)

    with_envp-Back :
        (filename : ℕ) (argv : Option (ℕ × List ℕ)) (e : ℕ)
        (r : Option (Option (ℕ × List ℕ)) × Kernel W)
        → InHeld (vector_blocks argv (filename ∷ [])) e r
        → Back (with_envp codes m t v filename argv r)
    with_envp-Back filename argv e (none, s) held = cleanup-Back filename argv none s.errno s held
    with_envp-Back filename argv e (some envp, s) held =
        let (r, s1) = run (λ w. v.do_execve w filename argv envp) s in
        let e' = negated codes m t v r in
        cleanup-Back filename argv envp e' (set_errno e' s1) (
          failed-Held h g b codes m e e' (vector_blocks envp (vector_blocks argv (filename ∷ [])))
            s1 held)

    with_argv-Back :
        (filename : ℕ) (uenvp : ArgVec) (e : ℕ) (r : Option (Option (ℕ × List ℕ)) × Kernel W)
        → InHeld (filename ∷ []) e r
        → Back (with_argv codes m t v filename uenvp r)
    with_argv-Back filename uenvp e (none, s) held = cleanup-Back filename none none s.errno s held
    with_argv-Back filename uenvp e (some argv, s) held =
        with_envp-Back filename argv e (vector_in codes m t v uenvp s)
          (vector_in-Held uenvp (vector_blocks argv (filename ∷ [])) e s held)

    with_filename-Back :
        (uargv uenvp : ArgVec) (e : ℕ) (r : Option ℕ × Kernel W)
        → StringHeld h g b [] e r
        → Back (with_filename codes m t v uargv uenvp r)
    with_filename-Back uargv uenvp e (none, s) (held, _) = held
    with_filename-Back uargv uenvp e (some filename, s) held =
        with_argv-Back filename uenvp e (vector_in codes m t v uargv s)
          (vector_in-Held uargv (filename ∷ []) e s held)

    -- The name and the vectors of `sys_execve` are freed on every path.
    pub sys_execve-Back :
        (e arg : ℕ) (s : Kernel W) → Held h g b [] e s → Back (sys_execve codes m t v arg s)
    unfolding sys_execve
    sys_execve-Back e arg s held =
        fetched-Back t.execve_args
          (λ (a : ArgStr × ArgVec × ArgVec) s1.
            with_filename codes m t v a.1 a.2 (user_strdup codes m a.0 s1))
          e (fetch codes m t v t.execve_args arg s)
          (λ a s1 held1.
            with_filename-Back a.1 a.2 e (user_strdup codes m a.0 s1)
              (user_strdup-Held h g b codes m a.0 [] e s1 c held1))
          (fetch-Held h g b codes m t v c t.execve_args arg e s held)
