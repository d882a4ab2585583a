-- ===== src/Api/Outcomes/Paths.antt =====
-- kernel/api/syscall.c: the results of the calls on descriptors and paths.
use kernel.Base.{ℕ, zero, suc, ◌<◌, ◌^◌, ◌≡◌, ap, Bool, List, [], ◌∷◌, ℤ, pos, negsuc}
use kernel.Api.Memory.{ArgStr, Codes, Kernel, Machine, run, kfree}
use kernel.Api.Blocks.{Positive, Held, kfree-Held, copy_to_user-Held}
use kernel.Api.Calls.{
  Structs, Services, report, fetch, with_string, on_path, with_second, sys_dup2, sys_lseek,
  sys_open, link_paths, sys_link, rename_paths, sys_rename, stat_out, stat_freed, sys_stat,
}
use kernel.Api.Outcomes.{
  Narrow, Done, report-Done, report_zero-Done, fetch-Held, with_args-Done, fetched_or_fault-Done,
  with_string-Done, with_second-Done, on_path-Done, two_freed, two_freed_back, copied_small,
}

module _ {W : Type 0} (h g : List ℕ) (b : Bool) (codes : Codes) (m : Machine W) (t : Structs W)
    (v : Services W) (c : Positive codes) where
  pub sys_dup2-Done :
      (e arg : ℕ) (s : Kernel W) → Held h g b [] e s → Done h g b e (sys_dup2 codes m t v arg s)
  unfolding sys_dup2
  sys_dup2-Done e arg s held =
      with_args-Done h g b codes m t v c t.dup2_args
        (λ (a : ℕ × ℕ) s1. report (run (λ w. v.do_dup2 w a.0 a.1) s1)) e arg s
        (λ a s1 held1. report-Done h g b e (run (λ w. v.do_dup2 w a.0 a.1) s1) held1) held

  pub sys_lseek-Done :
      (e arg : ℕ) (s : Kernel W) → Held h g b [] e s → Done h g b e (sys_lseek codes m t v arg s)
  unfolding sys_lseek
  sys_lseek-Done e arg s held =
      with_args-Done h g b codes m t v c t.lseek_args
        (λ (a : ℕ × ℕ × ℕ) s1. report (run (λ w. v.do_lseek w a.0 a.1 a.2) s1)) e arg s
        (λ a s1 held1. report-Done h g b e (run (λ w. v.do_lseek w a.0 a.1 a.2) s1) held1) held

  pub sys_open-Done :
      (e arg : ℕ) (s : Kernel W) → Held h g b [] e s → Done h g b e (sys_open codes m t v arg s)
  unfolding sys_open
  sys_open-Done e arg s held =
      let opens = λ (a : ArgStr × ℕ). on_path codes m t v (λ w path. v.do_open w path a.1) in
      with_args-Done h g b codes m t v c t.open_args
        (λ (a : ArgStr × ℕ). with_string codes m t v a.0 (opens a)) e arg s
        (λ a s1 held1.
          with_string-Done h g b codes m t v c a.0 (opens a) e s1
            (λ p s2 held2.
              on_path-Done h g b codes m t v c (λ w path. v.do_open w path a.1) e p s2 held2)
            held1)
        held

  pub sys_link-Done :
      (e arg : ℕ) (s : Kernel W) → Held h g b [] e s → Done h g b e (sys_link codes m t v arg s)
  unfolding sys_link
  sys_link-Done e arg s held =
      with_args-Done h g b codes m t v c t.link_args
        (λ (a : ArgStr × ArgStr).
          with_string codes m t v a.0
            (λ to. with_second codes m t v to a.1 (link_paths codes m t v to)))
        e arg s
        (λ a s1 held1.
          with_string-Done h g b codes m t v c a.0
            (λ to. with_second codes m t v to a.1 (link_paths codes m t v to)) e s1
            (λ to s2 held2.
              with_second-Done h g b codes m t v c to a.1 (link_paths codes m t v to) e s2
                (λ from s3 held3.
                  two_freed h g b codes m t v c e from to (run (λ w. v.do_link w from to) s3) held3)
                held2)
            held1)
        held

  pub sys_rename-Done :
      (e arg : ℕ) (s : Kernel W) → Held h g b [] e s → Done h g b e (sys_rename codes m t v arg s)
  unfolding sys_rename
  sys_rename-Done e arg s held =
      with_args-Done h g b codes m t v c t.rename_args
        (λ (a : ArgStr × ArgStr).
          with_string codes m t v a.0
            (λ old. with_second codes m t v old a.1 (rename_paths codes m t v old)))
        e arg s
        (λ a s1 held1.
          with_string-Done h g b codes m t v c a.0
            (λ old. with_second codes m t v old a.1 (rename_paths codes m t v old)) e s1
            (λ old s2 held2.
              with_second-Done h g b codes m t v c old a.1 (rename_paths codes m t v old) e s2
                (λ new s3 held3.
                  two_freed_back h g b codes m t v c e new old (run (λ w. v.do_rename w old new) s3)
                    held3)
                held2)
            held1)
        held

  stat_out-Held :
      (buf : ℕ) (l : List ℕ) (e : ℕ) (r : ℤ × Kernel W)
      → Held h g b l e r.1
      → Held h g b l e (stat_out codes m t v buf r).1
  stat_out-Held buf l e (pos zero, s) held =
      copy_to_user-Held h g b codes m buf t.local t.stat_size l e s held
  stat_out-Held buf l e (pos (suc n), s) held = held
  stat_out-Held buf l e (negsuc n, s) held = held

  stat_out_small :
      (buf : ℕ) (r : ℤ × Kernel W)
      → Narrow m v
      → ((n : ℕ) → r.0 ≡ pos n → n < 2 ^ 32)
      → (n : ℕ) → (stat_out codes m t v buf r).0 ≡ pos n
      → n < 2 ^ 32
  stat_out_small buf (pos zero, s) narrow small n e =
      copied_small h g b codes m t v c buf t.local t.stat_size s narrow n e
  stat_out_small buf (pos (suc k), s) narrow small n e = small n e
  stat_out_small buf (negsuc k, s) narrow small n e = cc

  stat_pair :
      (w : W) (path n : ℕ)
      → (v.do_stat w path t.local).0 ≡ pos n
      → v.do_stat w path t.local ≡ (pos n, (v.do_stat w path t.local).1)
  stat_pair w path n e = ap (λ r. (r, (v.do_stat w path t.local).1)) e

  pub sys_stat-Done :
      (e arg : ℕ) (s : Kernel W)
      → Narrow m v
      → Held h g b [] e s
      → Done h g b e (sys_stat codes m t v arg s)
  unfolding sys_stat kfree
  sys_stat-Done e arg s narrow held =
      let call = λ (path : ℕ) (s1 : Kernel W). run (λ w. v.do_stat w path t.local) s1 in
      let k = λ (a : ArgStr × ℕ) (path : ℕ) (s1 : Kernel W).
        stat_freed codes m t v path (stat_out codes m t v a.1 (call path s1)) in
      fetched_or_fault-Done h g b codes m t v c t.stat_args
        (λ (a : ArgStr × ℕ). with_string codes m t v a.0 (k a)) e
        (fetch codes m t v t.stat_args arg s)
        (λ a s1 held1.
          with_string-Done h g b codes m t v c a.0 (k a) e s1
            (λ path s2 held2.
              let r = stat_out codes m t v a.1 (call path s2) in
              report_zero-Done h g b e (r.0, kfree m path r.1)
                (stat_out_small a.1 (call path s2) narrow (λ n same.
                  narrow.stat s2.world (v.do_stat s2.world path t.local).1 path t.local n
                    (stat_pair s2.world path n same)))
                (kfree-Held h g b m path [] e r.1
                  (stat_out-Held a.1 (path ∷ []) e (call path s2) held2)))
            held1)
        (fetch-Held h g b codes m t v c t.stat_args arg e s held)
