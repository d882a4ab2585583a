-- ===== src/Api/Transfers/Writing.antt =====
-- kernel/api/syscall.c: the rounds of `sys_write` and its pages.
use kernel.Base.{
  ℕ, zero, suc, ◌+◌, ◌-◌, ◌*◌, ◌/◌, ◌^◌, ◌≤◌, ◌<◌, ◌≡◌, ◌⊎◌, refl, inl, inr, ap, Bool, List, [],
  ◌∷◌, Option, some, ◌==◌, add32, add32_small, ℤ, pos, negsuc, arith, if-Holds,
}
use kernel.Api.Memory.{Codes, Kernel, Machine, run, page_alloc, page_free, copy_from_user}
use kernel.Api.Blocks.{Positive, Held, copy_from_user-Held}
use kernel.Api.Calls.{Structs, Services, fetch}
use kernel.Api.Outcomes.{fetch-Held}
use kernel.Api.Transfers.{chunk, write_done, write_from, write_loop, with_request, sys_write}
use kernel.Api.Transfers.Reading.{Bounded, Rounds, lost, page_alloc-Held, page_free-Held}

module _ {W : Type 0} (h g : List ℕ) (b : Bool) (codes : Codes) (m : Machine W) (t : Structs W)
    (v : Services W) where
  write_done-Rounds :
      (loop : ℕ → Kernel W → Option (ℤ × Kernel W)) (size page total bound e : ℕ) (r : ℤ × Kernel W)
      → ((n : ℕ) → r.0 ≡ pos n → n ≤ size)
      → ((n : ℕ) (s : Kernel W)
          → n ≤ size
          → Held h g b [] e s
          → Rounds h g b bound e (loop (add32 total n) s))
      → Held h (page ∷ g) b [] e r.1
      → Rounds h g b bound e (write_done codes m t v loop page total r)
  write_done-Rounds loop size page total bound e (negsuc n, s) small rest held =
      lost h g b bound e (suc n) page s (omega arith) held
  write_done-Rounds loop size page total bound e (pos n, s) small rest held =
      rest n (page_free m page s) (small n refl) (page_free-Held h g b m page e s held)

  write_from-Rounds :
      (loop : ℕ → Kernel W → Option (ℤ × Kernel W)) (fd size page total bound e : ℕ)
      (r : ℤ × Kernel W)
      → ((w : W) (n : ℕ) → (v.do_write w fd page size).0 ≡ pos n → n ≤ size)
      → ((n : ℕ) (s : Kernel W)
          → n ≤ size
          → Held h g b [] e s
          → Rounds h g b bound e (loop (add32 total n) s))
      → Held h (page ∷ g) b [] e r.1
      → Rounds h g b bound e (write_from codes m t v loop fd size page total r)
  write_from-Rounds loop fd size page total bound e (negsuc n, s) small rest held =
      lost h g b bound e (suc n) page s (omega arith) held
  write_from-Rounds loop fd size page total bound e (pos n, s) small rest held =
      write_done-Rounds loop size page total bound e (run (λ w. v.do_write w fd page size) s)
        (λ k same. small s.world k same) rest held

  write_loop-Rounds :
      (rounds fd buf need total bound e : ℕ) (s : Kernel W)
      → Bounded t v
      → need + 4095 < 4096 * rounds
      → total + need ≤ bound
      → bound < 2 ^ 32
      → Held h g b [] e s
      → Rounds h g b bound e (write_loop codes m t v rounds fd buf need total s)
  unfolding write_loop
  write_loop-Rounds zero fd buf need total bound e s laws fuel fits word held =
      absurd (omega (arith, fuel))
  write_loop-Rounds (suc rounds) fd buf need total bound e s laws fuel fits word held =
      let (page, s1) = page_alloc m s in
      let size = chunk need in
      let loop = write_loop codes m t v rounds fd buf (need - size) in
      if-Holds (Rounds h g b bound e) (need == 0)
        (λ done. inl (total, s, refl, omega (arith, fits), held))
        λ more.
          write_from-Rounds loop fd size page total bound e
            (copy_from_user codes m page buf size s1)
            (λ w n same.
              laws.writes w (v.do_write w fd page size).1 fd page size n
                (ap (λ r. (r, (v.do_write w fd page size).1)) same))
            (λ n s' le held'.
              write_loop-Rounds rounds fd buf (need - size) (add32 total n) bound e s' laws
                (ground (arith, more, fuel))
                (rw (add32_small total n (ground (arith, le, fits, word)))
                  (ground (arith, le, fits)))
                word held')
            (copy_from_user-Held h (page ∷ g) b codes m page buf size [] e s1
              (page_alloc-Held h g b m e s held))

  requested :
      (e : ℕ) (r : ℤ × Kernel W)
      → Bounded t v
      → Held h g b [] e r.1
      → let o =
          with_request codes m t v
            (λ fd buf nbytes. write_loop codes m t v (nbytes / 4096 + 2) fd buf nbytes 0)
            t.write_args
            r in
        Rounds h g b (t.write_args.load r.1.world t.kern_args).2 e o
        ⊎ ((s' : Kernel W) × (o ≡ some (negsuc 0, s')) × (0 < s'.errno) × Held h g b [] s'.errno s')
  requested e (negsuc n, s) laws (out, same, fine, _) =
      inr (record s { errno = suc n }, refl, omega arith, (out, same, fine, refl))
  requested e (pos n, s) laws held =
      let a = t.write_args.load s.world t.kern_args in
      inl (
        write_loop-Rounds (a.2 / 4096 + 2) a.0 a.1 a.2 0 a.2 e s laws (omega arith) (omega arith)
          (laws.write_size s.world t.kern_args) held)

  -- `sys_write` ends. It returns the total of what was written, all its pages being given back; or it
  -- returns -1 with an error number, and nothing is out if its arguments could not be copied, or one
  -- page is lost if a write or a copy failed.
  pub sys_write_outcome :
      (e arg : ℕ) (s : Kernel W)
      → Positive codes
      → Bounded t v
      → Held h g b [] e s
      → Rounds h g b
          (t.write_args.load (fetch codes m t v t.write_args arg s).1.world t.kern_args).2
          e
          (sys_write codes m t v arg s)
        ⊎ ((s' : Kernel W) × (sys_write codes m t v arg s ≡ some (negsuc 0, s'))
            × (0 < s'.errno)
            × Held h g b [] s'.errno s')
  unfolding sys_write
  sys_write_outcome e arg s c laws held =
      requested e (fetch codes m t v t.write_args arg s) laws
        (fetch-Held h g b codes m t v c t.write_args arg e s held)
