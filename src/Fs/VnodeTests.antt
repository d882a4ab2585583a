-- ===== src/Fs/VnodeTests.antt =====
-- kernel/fs/vnode.c: runs on a table of two vnodes.
use kernel.Base.{ℕ, ◌+◌, ◌≡◌, refl, true, false, [], ◌∷◌, some, ◌==◌, update, occurs, arith}
use kernel.Proc.Queue.{sleep}
use kernel.Proc.Tests.{two_asleep}
use kernel.Fs.Vnode.{
  Vnode, VnodeTable, FileSystems, sleeps, deletes, plain, find_inuse, vget, vget_finish, vput,
}
use kernel.Fs.Vnode.Counts.{Table}
use kernel.Fs.Vnode.Steps.{Reach, start, begins, finishes, caches, Reach-Table}
use kernel.Fs.Vnode.Lookups.{cached}
use kernel.Fs.Vnode.Last.{OnlyVnode, vput_last}
use kernel.Fs.Vnode.Busy.{vget_finish_wakes_nobody}

-- The world counts the memory given out; a vnode has the pages 1 and 2, and none is linked.
abbrev ops : FileSystems ℕ
ops = record {
  slab_alloc = λ w. (some (w + 1), w + 1);
  slab_free = λ w v. w;
  fresh_queue = λ w v. v + 10;
  read_vnode = λ w v. (7, w);
  query_vnode = λ w v. false;
  delete_vnode = λ w v. w;
  is_char = λ m. m == 2;
  is_block = λ m. m == 6;
  fs_root = λ w fs. 1;
  pages = λ w v. 1 ∷ 2 ∷ [];
  page_is_busy = λ w p. false;
  page_waitq = λ w p. 4;
  uncache = λ w p. w;
}

abbrev nothing : Vnode
nothing = record {
  fs = 0;
  vno = 0;
  mode = 0;
  special = plain;
  refcount = 0;
  nrespages = 0;
  busy = false;
  waitq = 9;
}

-- No vnode is in use; the thread that runs is on no queue.
abbrev booted : VnodeTable ℕ
booted = record {
  vnodes = λ v. nothing;
  inuse = [];
  sched = record two_asleep { current = 3 };
  world = 0;
}

booted-Table : Table booted
unfolding occurs
booted-Table = record {
  once = λ v. omega arith;
  distinct = λ u v on. absurd (omega (arith, on));
  paged = λ v on. omega arith;
  counted = λ v on. absurd (omega (arith, on));
  idle = λ v on busy. refl;
}

-- The vnode 1, number 5 of the file system 0, is being read in, and then has a reference and two pages.
abbrev reading : VnodeTable ℕ
reading = record booted {
  vnodes = update booted.vnodes 1 (record nothing { vno = 5; busy = true; waitq = 11 });
  inuse = 1 ∷ [];
  world = 1;
}

abbrev with_pages : VnodeTable ℕ
with_pages = cached 1 1 (cached 1 1 (vget_finish ops 1 reading))

reading-Reach : Reach ops booted reading
unfolding vget occurs
reading-Reach = begins booted reading 0 5 1 start (λ v w e. refl) refl

with_pages-Reach : Reach ops booted with_pages
unfolding vget_finish occurs
with_pages-Reach =
    (caches (cached 1 1 (vget_finish ops 1 reading)) 1 1
      (caches (vget_finish ops 1 reading) 1 1 (finishes reading 1 reading-Reach (ground arith) refl)
        (ground arith) refl)
      (ground arith) refl)

Reach-Table_example : Table with_pages
Reach-Table_example = Reach-Table booted with_pages booted-Table with_pages-Reach

vput_last_example :
    (s' : VnodeTable ℕ) × (vput ops 1 with_pages ≡ deletes 1 s')
    × ((s'.vnodes 1).refcount ≡ 0)
    × ((s'.vnodes 1).nrespages ≡ 0)
    × ((s'.vnodes 1).busy ≡ true)
    × OnlyVnode 1 with_pages s'
unfolding vget_finish
vput_last_example = vput_last ops 1 with_pages refl refl refl refl (λ w p. refl)

vget_finish_wakes_nobody_example :
    (s' : VnodeTable ℕ) × (vget ops 0 5 reading ≡ sleeps s')
    × (((vget_finish ops 1 s').vnodes 1).busy ≡ false)
    × (((vget_finish ops 1 s').vnodes 1).refcount ≡ 1)
    × (((vget_finish ops 1 s').sched.threads 3).state ≡ sleep)
    × (((vget_finish ops 1 s').sched.threads 3).wchan
        ≡ some ((vget_finish ops 1 s').vnodes 1).waitq)
unfolding find_inuse
vget_finish_wakes_nobody_example = vget_finish_wakes_nobody ops 0 5 1 reading refl refl refl
