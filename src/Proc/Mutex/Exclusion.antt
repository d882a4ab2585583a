-- ===== src/Proc/Mutex/Exclusion.antt =====
-- kernel/proc/kmutex.c: at most one thread is inside, and a free mutex has no waiters.
use kernel.Base.{
  ℕ, ◌≡◌, ◌≢◌, ◌⊎◌, inl, inr, sym, subst, Bool, true, false, Option, none, some, arith, update,
}
use kernel.Proc.Queue.{
  Sched, Thread, ThreadState, run, sleep, sleep_cancellable, exited, runq, is_on,
}
use kernel.Proc.Sched.{sched_switch}
use kernel.Proc.Sched.Invariant.{Inv}
use kernel.Proc.Sched.Effects.{Only, switch_effect}
use kernel.Proc.Mutex.Invariant.{Place, outside, locking, locking_cancellable, inside}

-- A waiter's place and state.
abbrev pub Waits : Place → ThreadState → Type 0
Waits p x = ((p ≡ locking) × (x ≡ sleep)) ⊎ ((p ≡ locking_cancellable) × (x ≡ sleep_cancellable))

-- Waiters are not the holder, and there are none while the mutex is free. Who is inside is the
-- holder; who has left the wait queue is the holder, or was cancelled.
pub record Safe (q : ℕ) (h : Option ℕ) (threads : ℕ → Thread) (place : ℕ → Place) : Type 0 where
  pub waiting :
      (t : ℕ)
      → is_on q (threads t).wchan ≡ true
      → (h ≢ none) × (h ≢ some t) × Waits (place t) (threads t).state
  pub woken : (t : ℕ) → place t ≡ locking → (is_on q (threads t).wchan ≡ true) ⊎ (h ≡ some t)
  pub woken_cancellable :
      (t : ℕ)
      → place t ≡ locking_cancellable
      → (is_on q (threads t).wchan ≡ true) ⊎ (h ≡ some t) ⊎ ((threads t).cancelled ≡ true)
  pub owner : (t : ℕ) → place t ≡ inside → h ≡ some t

module _ (q : ℕ) (ne : q ≢ runq) (h : Option ℕ) (place : ℕ → Place) where
  abbrev pub SafeIn : Sched → Type 0
  SafeIn s = Safe q h s.threads place

  -- A thread that is on no wait queue of the mutex before and after keeps the invariant.
  pub Safe-run :
      (t : ℕ) (s s' : Sched)
      → (s.threads t).wchan ≡ none
      → Only t (record (s.threads t) { state = run; wchan = some runq }) s s'
      → SafeIn s
      → SafeIn s'
  Safe-run t s s' free o j = record {
    waiting = λ u w. ground (arith, j.waiting u, o.threads u);
    woken = λ u w. ground (arith, j.woken u w, o.threads u);
    woken_cancellable = λ u w. ground (arith, j.woken_cancellable u w, o.threads u);
    owner = j.owner;
  }

  pub Safe-cancel-sleeper :
      (t : ℕ) (s s' : Sched)
      → (s.threads t).state ≡ sleep_cancellable
      → Only t (record (s.threads t) { state = run; cancelled = true; wchan = some runq }) s s'
      → SafeIn s
      → SafeIn s'
  Safe-cancel-sleeper t s s' c o j = record {
    waiting = λ u w. ground (arith, j.waiting u, o.threads u);
    woken = λ u w. ground (arith, j.woken u w, o.threads u, j.waiting u);
    woken_cancellable = λ u w. ground (arith, j.woken_cancellable u w, o.threads u);
    owner = j.owner;
  }

  pub Safe-exit :
      (t : ℕ) (s s' : Sched)
      → (s.threads t).wchan ≡ none
      → Only t (record (s.threads t) { state = exited }) s s'
      → SafeIn s
      → SafeIn s'
  Safe-exit t s s' free o j = record {
    waiting = λ u w. ground (arith, j.waiting u, o.threads u);
    woken = λ u w. ground (arith, j.woken u w, o.threads u);
    woken_cancellable = λ u w. ground (arith, j.woken_cancellable u w, o.threads u);
    owner = j.owner;
  }

  pub Safe-cancel-other :
      (t : ℕ) (s s' : Sched)
      → Only t (record (s.threads t) { cancelled = true }) s s'
      → SafeIn s
      → SafeIn s'
  Safe-cancel-other t s s' o j = record {
    waiting = λ u w. ground (arith, j.waiting u, o.threads u);
    woken = λ u w. ground (arith, j.woken u w, o.threads u);
    woken_cancellable = λ u w. ground (arith, j.woken_cancellable u w, o.threads u);
    owner = j.owner;
  }

  pub Safe-switch :
      (b : Bool) (s s' : Sched) → Inv s → sched_switch s ≡ (b, s') → SafeIn s → SafeIn s'
  Safe-switch b s s' v e j = elim (switch_effect b s s' v e) [
    | inl (_, same) ↦ subst SafeIn (sym same) j
    | inr (_, queued, threads) ↦ record {
      waiting = λ u w. ground (arith, j.waiting u, threads u);
      woken = λ u w. ground (arith, j.woken u w, threads u, queued);
      woken_cancellable = λ u w. ground (arith, j.woken_cancellable u w, threads u, queued);
      owner = j.owner;
    }
  ]

module _ (q : ℕ) (ne : q ≢ runq) where
  pub Safe-acquire :
      (c : ℕ) (threads : ℕ → Thread) (place : ℕ → Place)
      → Safe q none threads place
      → Safe q (some c) threads (update place c inside)
  Safe-acquire c threads place j = record {
    waiting = λ u w. ground (arith, j.waiting u);
    woken = λ u w. ground (arith, j.woken u, j.waiting u);
    woken_cancellable = λ u w. ground (arith, j.woken_cancellable u, j.waiting u);
    owner = λ u w. ground (arith, j.owner u);
  }

  pub Safe-block :
      (h c : ℕ) (s s' : Sched) (place : ℕ → Place)
      → h ≢ c
      → (s.threads c).wchan ≡ none
      → Only c (record (s.threads c) { state = sleep; wchan = some q }) s s'
      → place c ≡ outside
      → Safe q (some h) s.threads place
      → Safe q (some h) s'.threads (update place c locking)
  Safe-block h c s s' place other free o p j = record {
    waiting = λ u w. ground (arith, j.waiting u, o.threads u);
    woken = λ u w. ground (arith, j.woken u, o.threads u);
    woken_cancellable = λ u w. ground (arith, j.woken_cancellable u, o.threads u);
    owner = λ u w. ground (arith, j.owner u);
  }

  pub Safe-block_cancellable :
      (h c : ℕ) (s s' : Sched) (place : ℕ → Place)
      → h ≢ c
      → (s.threads c).wchan ≡ none
      → Only c (record (s.threads c) { state = sleep_cancellable; wchan = some q }) s s'
      → place c ≡ outside
      → Safe q (some h) s.threads place
      → Safe q (some h) s'.threads (update place c locking_cancellable)
  Safe-block_cancellable h c s s' place other free o p j = record {
    waiting = λ u w. ground (arith, j.waiting u, o.threads u);
    woken = λ u w. ground (arith, j.woken u, o.threads u);
    woken_cancellable = λ u w. ground (arith, j.woken_cancellable u, o.threads u);
    owner = λ u w. ground (arith, j.owner u);
  }

  -- The current thread's lock function ends, with the mutex or with -EINTR.
  pub Safe-return :
      (h : Option ℕ) (c : ℕ) (threads : ℕ → Thread) (place : ℕ → Place) (p : Place)
      → (p ≡ outside) ⊎ ((p ≡ inside) × (h ≡ some c))
      → (threads c).wchan ≡ none
      → Safe q h threads place
      → Safe q h threads (update place c p)
  Safe-return h c threads place p e free j = record {
    waiting = λ u w. ground (arith, j.waiting u);
    woken = λ u w. ground (arith, j.woken u);
    woken_cancellable = λ u w. ground (arith, j.woken_cancellable u);
    owner = λ u w. ground (arith, j.owner u);
  }

  -- A lock function that returns -EINTR at once.
  pub Safe-stay :
      (h : Option ℕ) (c : ℕ) (threads : ℕ → Thread) (place : ℕ → Place)
      → place c ≡ outside
      → Safe q h threads place
      → Safe q h threads (update place c outside)
  Safe-stay h c threads place p j = record {
    waiting = λ u w. ground (arith, j.waiting u);
    woken = λ u w. ground (arith, j.woken u);
    woken_cancellable = λ u w. ground (arith, j.woken_cancellable u);
    owner = λ u w. ground (arith, j.owner u);
  }

  pub Safe-release :
      (c : ℕ) (threads : ℕ → Thread) (place : ℕ → Place)
      → ((t : ℕ) → is_on q (threads t).wchan ≡ false)
      → place c ≡ inside
      → Safe q (some c) threads place
      → Safe q none threads (update place c outside)
  Safe-release c threads place nobody p j = record {
    waiting = λ u w. ground (arith, nobody u);
    woken = λ u w. ground (arith, j.woken u, nobody u);
    woken_cancellable = λ u w. ground (arith, j.woken_cancellable u, nobody u);
    owner = λ u w. ground (arith, j.owner u);
  }

  pub Safe-hand_over :
      (c t : ℕ) (threads threads' : ℕ → Thread) (place : ℕ → Place)
      → is_on q (threads t).wchan ≡ true
      → threads' t ≡ record (threads t) { state = run; wchan = some runq }
      → ((u : ℕ) → u ≢ t → threads' u ≡ threads u)
      → place c ≡ inside
      → Safe q (some c) threads place
      → Safe q (some t) threads' (update place c outside)
  Safe-hand_over c t threads threads' place queued new others p j = record {
    waiting = λ u w. ground (arith, j.waiting u, others u, j.waiting t);
    woken = λ u w. ground (arith, j.woken u, others u, j.waiting t);
    woken_cancellable = λ u w. ground (arith, j.woken_cancellable u, others u, j.waiting t);
    owner = λ u w. ground (arith, j.owner u, others u, j.waiting t);
  }
