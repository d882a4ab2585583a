-- ===== src/Api/Transfers.antt =====
-- kernel/api/syscall.c: the system calls that copy in a loop: `sys_read`, `sys_write`, `sys_getdents`
-- and `sys_uname`. An optional result is none where the bound on the rounds is reached.
pub mod Reading
pub mod Writing
use kernel.Base.{
  ℕ, zero, suc, ◌+◌, ◌-◌, ◌/◌, List, [], ◌∷◌, Option, none, some, ltb, leb, ◌==◌, if◌then◌else◌,
  add32, ℤ, pos, negsuc, int_of,
}
use kernel.Api.Memory.{
  Codes, Kernel, Machine, run, page_alloc, page_free, copy_from_user, copy_to_user,
}
use kernel.Api.Calls.{Struct, Structs, Services, fail, report_zero, fetch}

-- How much of a request one page takes.
abbrev pub chunk : ℕ → ℕ
chunk need = if leb 4096 need then 4096 else need

module _ {W : Type 0} (codes : Codes) (m : Machine W) (t : Structs W) (v : Services W) where
  -- `total_bytes_read` is a `size_t`, and a result that is not negative is added to it.
  abbrev pub read_copied :
      (ℕ → Kernel W → Option (ℤ × Kernel W)) → ℕ → ℕ → ℤ × Kernel W → Option (ℤ × Kernel W)
  read_copied loop page total (negsuc n, s) = some (fail (suc n) s)
  read_copied loop page total (pos _, s) = loop total (page_free m page s)

  abbrev pub read_into :
      (ℕ → Kernel W → Option (ℤ × Kernel W)) → ℕ → ℕ → ℕ → ℕ → ℤ × Kernel W → Option (ℤ × Kernel W)
  read_into loop buf size page total (negsuc n, s) = some (fail (suc n) s)
  read_into loop buf size page total (pos n, s) =
      read_copied loop page (add32 total n) (copy_to_user codes m buf page size s)

  abbrev pub read_page :
      (ℕ → Kernel W → Option (ℤ × Kernel W)) → ℕ → ℕ → ℕ → ℕ → ℕ × Kernel W → Option (ℤ × Kernel W)
  read_page loop fd buf size total (page, s) =
      read_into loop buf size page total (run (λ w. v.do_read w fd page size) s)

  -- The loop of `sys_read` with `needToRead` and `total_bytes_read`. Every round reads to `buf` itself.
  unfoldable pub read_loop : ℕ → ℕ → ℕ → ℕ → ℕ → Kernel W → Option (ℤ × Kernel W)
  read_loop zero fd buf need total s = none
  read_loop (suc rounds) fd buf need total s =
      let more =
        read_page (read_loop rounds fd buf (need - chunk need)) fd buf (chunk need) total
          (page_alloc m s) in
      if need == 0 then some (int_of total, s) else more

  -- The system calls on a descriptor, a buffer and a size begin alike.
  abbrev pub with_request :
      (ℕ → ℕ → ℕ → Kernel W → Option (ℤ × Kernel W))
      → Struct W (ℕ × ℕ × ℕ)
      → ℤ × Kernel W
      → Option (ℤ × Kernel W)
  with_request k st (negsuc n, s) = some (fail (suc n) s)
  with_request k st (pos _, s) = let a = st.load s.world t.kern_args in k a.0 a.1 a.2 s

  -- A round takes a page of the request, or what is left of it.
  unfoldable pub sys_read : ℕ → Kernel W → Option (ℤ × Kernel W)
  unfolding read_loop
  sys_read arg s =
      with_request (λ fd buf nbytes. read_loop (nbytes / 4096 + 2) fd buf nbytes 0) t.read_args
        (fetch codes m t v t.read_args arg s)

  abbrev pub write_done :
      (ℕ → Kernel W → Option (ℤ × Kernel W)) → ℕ → ℕ → ℤ × Kernel W → Option (ℤ × Kernel W)
  write_done loop page total (negsuc n, s) = some (fail (suc n) s)
  write_done loop page total (pos n, s) = loop (add32 total n) (page_free m page s)

  abbrev pub write_from :
      (ℕ → Kernel W → Option (ℤ × Kernel W)) → ℕ → ℕ → ℕ → ℕ → ℤ × Kernel W → Option (ℤ × Kernel W)
  write_from loop fd size page total (negsuc n, s) = some (fail (suc n) s)
  write_from loop fd size page total (pos _, s) =
      write_done loop page total (run (λ w. v.do_write w fd page size) s)

  abbrev pub write_page :
      (ℕ → Kernel W → Option (ℤ × Kernel W)) → ℕ → ℕ → ℕ → ℕ → ℕ × Kernel W → Option (ℤ × Kernel W)
  write_page loop fd buf size total (page, s) =
      write_from loop fd size page total (copy_from_user codes m page buf size s)

  -- The loop of `sys_write`, which copies from `buf` itself in every round.
  unfoldable pub write_loop : ℕ → ℕ → ℕ → ℕ → ℕ → Kernel W → Option (ℤ × Kernel W)
  write_loop zero fd buf need total s = none
  write_loop (suc rounds) fd buf need total s =
      let more =
        write_page (write_loop rounds fd buf (need - chunk need)) fd buf (chunk need) total
          (page_alloc m s) in
      if need == 0 then some (int_of total, s) else more

  unfoldable pub sys_write : ℕ → Kernel W → Option (ℤ × Kernel W)
  unfolding write_loop
  sys_write arg s =
      with_request (λ fd buf nbytes. write_loop (nbytes / 4096 + 2) fd buf nbytes 0) t.write_args
        (fetch codes m t v t.write_args arg s)

  abbrev pub dirent_copied :
      (ℕ → Kernel W → Option (ℤ × Kernel W)) → ℕ → ℤ × Kernel W → Option (ℤ × Kernel W)
  dirent_copied loop total (negsuc n, s) = some (fail (suc n) s)
  dirent_copied loop total (pos _, s) = loop (add32 total t.dirent_size) s

  abbrev pub dirent_read :
      (ℕ → Kernel W → Option (ℤ × Kernel W)) → ℕ → ℕ → ℤ × Kernel W → Option (ℤ × Kernel W)
  dirent_read loop dirp total (negsuc n, s) = some (fail (suc n) s)
  dirent_read loop dirp total (pos zero, s) = some (int_of total, s)
  dirent_read loop dirp total (pos (suc _), s) =
      dirent_copied loop total (copy_to_user codes m (add32 dirp total) t.local t.dirent_size s)

  unfoldable pub getdents_loop : ℕ → ℕ → ℕ → ℕ → ℕ → Kernel W → Option (ℤ × Kernel W)
  getdents_loop zero fd dirp count total s = none
  getdents_loop (suc rounds) fd dirp count total s =
      let more =
        dirent_read (getdents_loop rounds fd dirp count) dirp total
          (run (λ w. v.do_getdent w fd t.local) s) in
      if ltb total count then more else some (int_of total, s)

  -- Each round adds the size of an entry to the total.
  unfoldable pub sys_getdents : ℕ → Kernel W → Option (ℤ × Kernel W)
  unfolding getdents_loop
  sys_getdents arg s =
      with_request (λ fd dirp count. getdents_loop (count + 1) fd dirp count 0) t.getdents_args
        (fetch codes m t v t.getdents_args arg s)

  -- The fields of a `struct utsname`, one after the other, until a copy fails.
  abbrev pub next_field : (Kernel W → ℤ × Kernel W) → ℤ × Kernel W → ℤ × Kernel W
  next_field rest (pos zero, s) = rest s
  next_field rest (r, s) = report_zero (r, s)

  unfoldable pub copy_fields : List (ℕ × ℕ × ℕ) → Kernel W → ℤ × Kernel W
  copy_fields [] s = (pos 0, s)
  copy_fields ((uaddr, kaddr, size) ∷ rest) s =
      next_field (copy_fields rest) (copy_to_user codes m uaddr kaddr size s)

  unfoldable pub sys_uname : ℕ → Kernel W → ℤ × Kernel W
  unfolding copy_fields
  sys_uname arg = copy_fields (t.utsname arg)
