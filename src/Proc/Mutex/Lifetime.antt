-- ===== src/Proc/Mutex/Lifetime.antt =====
-- kernel/proc/kmutex.c: what holds of a mutex in every state that its threads can reach.
use kernel.Base.{
  ℕ, ◌≡◌, ◌≢◌, ◌⊎◌, inl, inr, refl, true, false, none, some, if◌then◌else◌, arith, Bool-cases,
  Option-cases, [],
}
use kernel.Proc.Queue.{Sched, runq, is_on}
use kernel.Proc.Sched.{kthread_cancel, cancellable_sleep_result, sched_wakeup_on}
use kernel.Proc.Sched.Wakeup.{List-cases, on_queue}
use kernel.Proc.Sched.Steps.{cancel-Inv, switch-Inv, Boot, Boot-Inv}
use kernel.Proc.Sched.Effects.{make_runnable-Only, cancel-Only, wakeup_on-current}
use kernel.Proc.Mutex.{Mutex, kmutex_lock, kmutex_unlock, hand_over}
use kernel.Proc.Mutex.Paths.{unlock_cases}
use kernel.Proc.Mutex.Invariant.{
  Place, outside, locking, locking_cancellable, inside, World, cur, moved, Step, locks,
  locks_cancellable, returns, returns_cancellable, unlocks, cancels, starts, switches,
}
use kernel.Proc.Mutex.Exclusion.{
  Safe, Safe-run, Safe-cancel-sleeper, Safe-cancel-other, Safe-exit, Safe-switch, Safe-return,
}
use kernel.Proc.Mutex.Safety.{
  Good, locks-Good, locks_cancellable-Good, unlocks-Good, make_runnable-Inv,
}

returns-Good :
    (q : ℕ) (w : World) (p : Place)
    → (p ≡ outside) ⊎ ((p ≡ inside) × (w.mutex.holder ≡ some (cur w)))
    → (w.mutex.sched.threads (cur w)).wchan ≡ none
    → q ≢ runq
    → Good q w
    → Good q (moved w w.mutex p)
returns-Good q w p e free ne g = record {
  waitq = g.waitq;
  queues = g.queues;
  safe = Safe-return q ne w.mutex.holder (cur w) w.mutex.sched.threads w.place p e free g.safe;
}

cancels-Safe :
    (q t : ℕ) (w : World) (s : Sched)
    → q ≢ runq
    → kthread_cancel t w.mutex.sched ≡ some s
    → Good q w
    → Safe q w.mutex.holder s.threads w.place
cancels-Safe q t w s ne e g = elim (cancel-Only t w.mutex.sched s e) [
  | inl (_, c, o) ↦ Safe-cancel-sleeper q ne w.mutex.holder w.place t w.mutex.sched s c o g.safe
  | inr (inl (_, o)) ↦ Safe-cancel-other q ne w.mutex.holder w.place t w.mutex.sched s o g.safe
  | inr (inr (_, free, o)) ↦ Safe-exit q ne w.mutex.holder w.place t w.mutex.sched s free o g.safe
]

-- The outcome of a cancellable lock whose sleep is over.
woken_place :
    (q : ℕ) (w : World)
    → w.place (cur w) ≡ locking_cancellable
    → (w.mutex.sched.threads (cur w)).wchan ≡ none
    → Good q w
    → (((if cancellable_sleep_result w.mutex.sched then outside else inside) ≡ outside)
        ⊎ (((if cancellable_sleep_result w.mutex.sched then outside else inside) ≡ inside)
            × (w.mutex.holder ≡ some (cur w))))
unfolding cancellable_sleep_result
woken_place q w p free g =
    let back = g.safe.woken_cancellable (cur w) p in
    elim (Bool-cases (w.mutex.sched.threads (cur w)).cancelled) [
      | inl told ↦ inl (ground arith)
      | inr clear ↦ inr (ground arith, ground arith)
    ]

Step-Good : {q : ℕ} {w w' : World} → q ≢ runq → Step w w' → Good q w → Good q w'
Step-Good {q} {w} ne (locks r m p e) g = locks-Good q w r m ne p e g
Step-Good {q} {w} ne (locks_cancellable r m p e) g = locks_cancellable-Good q w r m ne p e g
Step-Good {q} {w} ne (returns p free) g =
    returns-Good q w inside (inr (refl, ground (arith, g.safe.woken (cur w) p))) free ne g
Step-Good {q} {w} ne (returns_cancellable p free) g =
    returns-Good q w (if cancellable_sleep_result w.mutex.sched then outside else inside)
      (woken_place q w p free g) free ne g
Step-Good {q} {w} ne (unlocks m p e) g = unlocks-Good q w m ne p e g
Step-Good {q} {w} ne (cancels t s e) g = record {
  waitq = g.waitq;
  queues = cancel-Inv t w.mutex.sched s e g.queues;
  safe = cancels-Safe q t w s ne e g;
}
Step-Good {q} {w} ne (starts t s e) g =
    let (free, o) = make_runnable-Only t w.mutex.sched s e in
    record {
      waitq = g.waitq;
      queues = make_runnable-Inv t w.mutex.sched s e g.queues;
      safe = Safe-run q ne w.mutex.holder w.place t w.mutex.sched s free o g.safe;
    }
Step-Good {q} {w} ne (switches b s e) g = record {
  waitq = g.waitq;
  queues = switch-Inv b w.mutex.sched s e g.queues;
  safe = Safe-switch q ne w.mutex.holder w.place b w.mutex.sched s g.queues e g.safe;
}

pub data Reach (w : World) : World → Type 0 where
  here : Reach w w
  next : {u v : World} → Reach w u → Step u v → Reach w v

-- A new mutex, which no thread has called yet, on a wait queue of its own.
pub record Fresh (q : ℕ) (w : World) : Type 0 where
  pub waitq : w.mutex.waitq ≡ q
  pub apart : q ≢ runq
  pub boot : Boot w.mutex.sched
  pub free : w.mutex.holder ≡ none
  pub idle : (t : ℕ) → w.place t ≡ outside

Fresh-Good : (q : ℕ) (w : World) → Fresh q w → Good q w
Fresh-Good q w f = record {
  waitq = f.waitq;
  queues = Boot-Inv w.mutex.sched f.boot;
  safe = record {
    waiting = λ t e. ground (arith, f.boot.1 t);
    woken = λ t e. ground (arith, f.idle t);
    woken_cancellable = λ t e. ground (arith, f.idle t);
    owner = λ t e. ground (arith, f.idle t);
  };
}

Reach-Good : {q : ℕ} {w w' : World} → Fresh q w → Reach w w' → Good q w'
Reach-Good {q} {w} f here = Fresh-Good q w f
Reach-Good f (next r st) = Step-Good f.apart st (Reach-Good f r)

-- Whatever threads lock, unlock, cancel and switch in whatever order, from a new mutex on: two
-- threads that a lock function has given the mutex to are one and the same.
pub mutual_exclusion :
    (q t u : ℕ) (w w' : World)
    → Fresh q w
    → Reach w w'
    → w'.place t ≡ inside
    → w'.place u ≡ inside
    → t ≡ u
mutual_exclusion q t u w w' f r a b =
    let g = Reach-Good f r in ground (arith, g.safe.owner t a, g.safe.owner u b)

-- In every reachable state with the mutex free its wait queue is empty; and a thread in
-- `kmutex_lock` that is off the wait queue has been made the holder.
pub no_lost_waiter :
    (q t : ℕ) (w w' : World)
    → Fresh q w
    → Reach w w'
    → (w'.mutex.holder ≡ none → (w'.mutex.sched.queues q).items ≡ [])
      × (w'.place t ≡ locking
          → is_on q (w'.mutex.sched.threads t).wchan ≡ false
          → w'.mutex.holder ≡ some t)
no_lost_waiter q t w w' f r =
    let g = Reach-Good f r in
    (
      (λ free. elim (List-cases (w'.mutex.sched.queues q).items) [
        | inl empty ↦ empty
        | inr (front, u, last) ↦
            absurd
              (ground (arith, g.safe.waiting u (on_queue q u front w'.mutex.sched g.queues last)))
      ]),
      λ p off. ground (arith, g.safe.woken t p),
    )

handed_to_another :
    (t : ℕ) (m m' : Mutex) → kmutex_unlock m ≡ some m' → m'.holder ≡ some t → t ≢ m'.sched.current
unfolding hand_over
handed_to_another t m m' e h runs = elim (unlock_cases m m' e).1 [
  | inl (_, free) ↦ absurd (ground arith)
  | inr (_, over) ↦ elim (Option-cases (sched_wakeup_on m.waitq m.sched)) [
    | inl fails ↦ absurd (ground arith)
    | inr ((new, s), wakes) ↦
        let stays = wakeup_on-current m.waitq new m.sched s wakes in ground arith
  ]
]

-- A waiter in `kmutex_lock_cancellable` that is given the mutex and cancelled before it runs gets
-- -EINTR from its lock and holds the mutex all the same: its next `kmutex_lock` fails the assertion.
pub interrupted_holder :
    (t : ℕ) (m m' : Mutex) (s : Sched)
    → kmutex_unlock m ≡ some m'
    → m'.holder ≡ some t
    → kthread_cancel t m'.sched ≡ some s
    → let m2 : Mutex = record m' { sched = record s { current = t } } in
      (cancellable_sleep_result m2.sched ≡ true) × (m2.holder ≡ some t) × (kmutex_lock m2 ≡ none)
unfolding cancellable_sleep_result kmutex_lock
interrupted_holder t m m' s e h c = elim (cancel-Only t m'.sched s c) [
  | inl (_, _, o) ↦ (ground (arith, o.threads t), h, ground arith)
  | inr (inl (_, o)) ↦ (ground (arith, o.threads t), h, ground arith)
  | inr (inr (runs, _, _)) ↦ absurd (handed_to_another t m m' e h runs)
]
