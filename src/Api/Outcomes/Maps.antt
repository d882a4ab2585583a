-- ===== src/Api/Outcomes/Maps.antt =====
-- kernel/api/syscall.c: the results of `sys_munmap`, `sys_mmap` and `sys_brk`.
use kernel.Base.{
  ℕ, zero, suc, ◌<◌, ◌^◌, ◌≡◌, refl, ap, Bool, List, [], ◌==◌, sub32, ℤ, pos, negsuc, arith,
  if-Holds,
}
use kernel.Api.Memory.{Codes, Kernel, Machine, run}
use kernel.Api.Blocks.{Positive, Held, failed-Held}
use kernel.Api.Calls.{
  Structs, Services, report_address, fetch, unmapped, munmap_fetched, sys_munmap, mmap_fetched,
  sys_mmap, brk_done, sys_brk,
}
use kernel.Api.Outcomes.{Narrow, Done, AddressDone, fail-Done, report-Done, negated_pos, fetch-Held}

module _ {W : Type 0} (h g : List ℕ) (b : Bool) (codes : Codes) (m : Machine W) (t : Structs W)
    (v : Services W) (c : Positive codes) where
  unmapped-Done :
      (e : ℕ) (r : ℤ × Kernel W) → Held h g b [] e r.1 → Done h g b e (unmapped codes m t v r)
  unmapped-Done e (pos n, s) held = report-Done h g b e (pos 0, s) held
  unmapped-Done e (negsuc n, s) held = report-Done h g b e (negsuc n, s) held

  munmap_fetched-Done :
      (e : ℕ) (r : ℤ × Kernel W) → Held h g b [] e r.1 → Done h g b e (munmap_fetched codes m t v r)
  munmap_fetched-Done e (pos zero, s) held =
      let a = t.munmap_args.load s.world t.kern_args in
      unmapped-Done e (run (λ w. v.do_munmap w a.0 a.1) s) held
  munmap_fetched-Done e (pos (suc n), s) held = fail-Done h g b e codes.efault s c.efault_pos held
  munmap_fetched-Done e (negsuc n, s) held = fail-Done h g b e codes.efault s c.efault_pos held

  pub sys_munmap-Done :
      (e arg : ℕ) (s : Kernel W) → Held h g b [] e s → Done h g b e (sys_munmap codes m t v arg s)
  unfolding sys_munmap
  sys_munmap-Done e arg s held =
      munmap_fetched-Done e (fetch codes m t v t.munmap_args arg s)
        (fetch-Held h g b codes m t v c t.munmap_args arg e s held)

  report_address-Done :
      (e : ℕ) (r : (ℤ × ℕ) × Kernel W)
      → Held h g b [] e r.1
      → AddressDone h g b e (report_address r)
  report_address-Done e ((pos n, ret), s) held = held
  report_address-Done e ((negsuc n, ret), s) held =
      (failed-Held h g b codes m e (suc n) [] s held, omega arith)

  mmap_fetched-Done :
      (e : ℕ) (r : ℤ × Kernel W)
      → Held h g b [] e r.1
      → AddressDone h g b e (mmap_fetched codes m t v r)
  mmap_fetched-Done e (pos n, s) held =
      report_address-Done e (run (λ w. v.do_mmap w (t.mmap_args.load s.world t.kern_args)) s) held
  mmap_fetched-Done e (negsuc n, s) held =
      (failed-Held h g b codes m e codes.efault [] s held, c.efault_pos)

  pub sys_mmap-Done :
      (e arg : ℕ) (s : Kernel W)
      → Held h g b [] e s
      → AddressDone h g b e (sys_mmap codes m t v arg s)
  unfolding sys_mmap
  sys_mmap-Done e arg s held =
      mmap_fetched-Done e (fetch codes m t v t.mmap_args arg s)
        (fetch-Held h g b codes m t v c t.mmap_args arg e s held)

  brk_done-Done :
      (e : ℕ) (r : (ℤ × ℕ) × Kernel W)
      → ((n ret : ℕ) → r.0 ≡ (pos n, ret) → n < 2 ^ 32)
      → Held h g b [] e r.1
      → AddressDone h g b e (brk_done codes m t v r)
  brk_done-Done e ((pos n, ret), s) narrow held =
      if-Holds (AddressDone h g b e) (n == 0) (λ _. held)
        λ nonzero. (
          failed-Held h g b codes m e (sub32 0 n) [] s held,
          negated_pos n nonzero (narrow n ret refl),
        )
  brk_done-Done e ((negsuc n, ret), s) narrow held =
      (failed-Held h g b codes m e (suc n) [] s held, omega arith)

  pub sys_brk-Done :
      (e addr : ℕ) (s : Kernel W)
      → Narrow m v
      → Held h g b [] e s
      → AddressDone h g b e (sys_brk codes m t v addr s)
  unfolding sys_brk
  sys_brk-Done e addr s narrow held =
      brk_done-Done e (run (λ w. v.do_brk w addr) s)
        (λ n ret same.
          narrow.brk s.world (v.do_brk s.world addr).1 addr n ret
            (ap (λ r. (r, (v.do_brk s.world addr).1)) same))
        held
