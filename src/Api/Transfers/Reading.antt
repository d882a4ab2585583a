-- ===== src/Api/Transfers/Reading.antt =====
-- kernel/api/syscall.c: the rounds of `sys_read` and its pages.
use kernel.Base.{
  ℕ, zero, suc, ◌+◌, ◌-◌, ◌*◌, ◌/◌, ◌^◌, ◌≤◌, ◌<◌, ◌≡◌, ◌⊎◌, refl, inl, inr, ap, Bool, List, [],
  ◌∷◌, Option, some, ◌==◌, add32, add32_small, ℤ, pos, negsuc, int_of, occurs, remove_item, arith,
  if-Holds,
}
use kernel.Api.Memory.{Codes, Kernel, Machine, run, page_alloc, page_free, copy_to_user}
use kernel.Api.Blocks.{Positive, Held, copy_to_user-Held}
use kernel.Api.Calls.{Structs, Services, fail, fetch}
use kernel.Api.Outcomes.{fetch-Held}
use kernel.Api.Transfers.{chunk, read_copied, read_into, read_loop, with_request, sys_read}

-- The documented bounds: no more is read or written than was asked for, and a size is a word.
pub record Bounded {W : Type 0} (t : Structs W) (v : Services W) : Type 0 where
  pub reads : (w w' : W) (fd k size n : ℕ) → v.do_read w fd k size ≡ (pos n, w') → n ≤ size
  pub writes : (w w' : W) (fd k size n : ℕ) → v.do_write w fd k size ≡ (pos n, w') → n ≤ size
  pub read_size : (w : W) (a : ℕ) → (t.read_args.load w a).2 < 2 ^ 32
  pub write_size : (w : W) (a : ℕ) → (t.write_args.load w a).2 < 2 ^ 32

module _ {W : Type 0} (h g : List ℕ) (b : Bool) where
  -- All pages are back, and the total is returned.
  abbrev pub Transferred : ℕ → ℕ → Option (ℤ × Kernel W) → Type 0
  Transferred bound e o =
      (total : ℕ) × (s : Kernel W) × (o ≡ some (int_of total, s))
      × (total ≤ bound)
      × Held h g b [] e s

  -- The call fails, and the page of the round that failed is lost.
  abbrev pub PageLost : Option (ℤ × Kernel W) → Type 0
  PageLost o =
      (page : ℕ) × (s : Kernel W) × (o ≡ some (negsuc 0, s))
      × (0 < s.errno)
      × Held h (page ∷ g) b [] s.errno s

  abbrev pub Rounds : ℕ → ℕ → Option (ℤ × Kernel W) → Type 0
  Rounds bound e o = Transferred bound e o ⊎ PageLost o

  pub lost :
      (bound e e' page : ℕ) (s : Kernel W)
      → 0 < e'
      → Held h (page ∷ g) b [] e s
      → Rounds bound e (some (fail e' s))
  lost bound e e' page s positive (out, same, fine, _) =
      inr (page, record s { errno = e' }, refl, positive, (out, same, fine, refl))

  module _ (m : Machine W) where
    pub page_alloc-Held :
        (e : ℕ) (s : Kernel W)
        → Held h g b [] e s
        → Held h ((page_alloc m s).0 ∷ g) b [] e (page_alloc m s).1
    unfolding page_alloc
    page_alloc-Held e s (out, same, fine, err) =
        (out, ap (λ l. (m.page_alloc s.world).0 ∷ l) same, fine, err)

    pub page_free-Held :
        (page e : ℕ) (s : Kernel W)
        → Held h (page ∷ g) b [] e s
        → Held h g b [] e (page_free m page s)
    unfolding page_free occurs remove_item
    page_free-Held page e s (out, same, fine, err) =
        (out, rw same (ground arith), rw same (ground (arith, fine)), err)

  module _ (codes : Codes) (m : Machine W) (t : Structs W) (v : Services W) where
    read_copied-Rounds :
        (loop : ℕ → Kernel W → Option (ℤ × Kernel W)) (page total bound e : ℕ) (r : ℤ × Kernel W)
        → ((s : Kernel W) → Held h g b [] e s → Rounds bound e (loop total s))
        → Held h (page ∷ g) b [] e r.1
        → Rounds bound e (read_copied codes m t v loop page total r)
    read_copied-Rounds loop page total bound e (negsuc n, s) rest held =
        lost bound e (suc n) page s (omega arith) held
    read_copied-Rounds loop page total bound e (pos n, s) rest held =
        rest (page_free m page s) (page_free-Held m page e s held)

    read_into-Rounds :
        (loop : ℕ → Kernel W → Option (ℤ × Kernel W)) (buf size page total bound e : ℕ)
        (r : ℤ × Kernel W)
        → ((n : ℕ) → r.0 ≡ pos n → n ≤ size)
        → ((n : ℕ) (s : Kernel W)
            → n ≤ size
            → Held h g b [] e s
            → Rounds bound e (loop (add32 total n) s))
        → Held h (page ∷ g) b [] e r.1
        → Rounds bound e (read_into codes m t v loop buf size page total r)
    read_into-Rounds loop buf size page total bound e (negsuc n, s) small rest held =
        lost bound e (suc n) page s (omega arith) held
    read_into-Rounds loop buf size page total bound e (pos n, s) small rest held =
        read_copied-Rounds loop page (add32 total n) bound e (copy_to_user codes m buf page size s)
          (λ s' held'. rest n s' (small n refl) held')
          (copy_to_user-Held h (page ∷ g) b codes m buf page size [] e s held)

    read_loop-Rounds :
        (rounds fd buf need total bound e : ℕ) (s : Kernel W)
        → Bounded t v
        → need + 4095 < 4096 * rounds
        → total + need ≤ bound
        → bound < 2 ^ 32
        → Held h g b [] e s
        → Rounds bound e (read_loop codes m t v rounds fd buf need total s)
    unfolding read_loop
    read_loop-Rounds zero fd buf need total bound e s laws fuel fits word held =
        absurd (omega (arith, fuel))
    read_loop-Rounds (suc rounds) fd buf need total bound e s laws fuel fits word held =
        let (page, s1) = page_alloc m s in
        let size = chunk need in
        let loop = read_loop codes m t v rounds fd buf (need - size) in
        if-Holds (Rounds bound e) (need == 0)
          (λ done. inl (total, s, refl, omega (arith, fits), held))
          λ more.
            read_into-Rounds loop buf size page total bound e
              (run (λ w. v.do_read w fd page size) s1)
              (λ n same.
                laws.reads s1.world (v.do_read s1.world fd page size).1 fd page size n
                  (ap (λ r. (r, (v.do_read s1.world fd page size).1)) same))
              (λ n s' le held'.
                read_loop-Rounds rounds fd buf (need - size) (add32 total n) bound e s' laws
                  (ground (arith, more, fuel))
                  (rw (add32_small total n (ground (arith, le, fits, word)))
                    (ground (arith, le, fits)))
                  word held')
              (page_alloc-Held m e s held)

    requested :
        (e : ℕ) (r : ℤ × Kernel W)
        → Bounded t v
        → Held h g b [] e r.1
        → let o =
            with_request codes m t v
              (λ fd buf nbytes. read_loop codes m t v (nbytes / 4096 + 2) fd buf nbytes 0)
              t.read_args
              r in
          Rounds (t.read_args.load r.1.world t.kern_args).2 e o
          ⊎ ((s' : Kernel W) × (o ≡ some (negsuc 0, s'))
              × (0 < s'.errno)
              × Held h g b [] s'.errno s')
    requested e (negsuc n, s) laws (out, same, fine, _) =
        inr (record s { errno = suc n }, refl, omega arith, (out, same, fine, refl))
    requested e (pos n, s) laws held =
        let a = t.read_args.load s.world t.kern_args in
        inl (
          read_loop-Rounds (a.2 / 4096 + 2) a.0 a.1 a.2 0 a.2 e s laws (omega arith) (omega arith)
            (laws.read_size s.world t.kern_args) held)

    pub sys_read_outcome :
        (e arg : ℕ) (s : Kernel W)
        → Positive codes
        → Bounded t v
        → Held h g b [] e s
        → Rounds
            (t.read_args.load (fetch codes m t v t.read_args arg s).1.world t.kern_args).2
            e
            (sys_read codes m t v arg s)
          ⊎ ((s' : Kernel W) × (sys_read codes m t v arg s ≡ some (negsuc 0, s'))
              × (0 < s'.errno)
              × Held h g b [] s'.errno s')
    unfolding sys_read
    sys_read_outcome e arg s c laws held =
        requested e (fetch codes m t v t.read_args arg s) laws
          (fetch-Held h g b codes m t v c t.read_args arg e s held)
