-- ===== src/Proc/Mutex/Safety.antt =====
-- kernel/proc/kmutex.c: what holds of a mutex in every lock and unlock.
use kernel.Base.{
  ℕ, ◌≡◌, ◌≢◌, inl, inr, refl, subst, true, false, Option, some, ◌==◌, arith, Bool-cases, occurs,
}
use kernel.Proc.Queue.{Sched, run, sleep, runq, is_on, sched_queue_empty}
use kernel.Proc.Sched.{
  sched_sleep_on, sched_cancellable_sleep_on, sched_wakeup_on, sched_make_runnable,
}
use kernel.Proc.Sched.Invariant.{Inv}
use kernel.Proc.Sched.Wakeup.{List-cases, queue_empty, queue_nonempty, wakeup_oldest, on_queue}
use kernel.Proc.Sched.Steps.{enqueue-Inv, cancellable-Inv}
use kernel.Proc.Sched.Effects.{sleep_on-Only, cancellable_sleep_on-Only}
use kernel.Proc.Mutex.{
  Mutex, Locking, kmutex_lock, kmutex_lock_cancellable, kmutex_unlock, hand_over,
}
use kernel.Proc.Mutex.Invariant.{
  outside, locking, locking_cancellable, inside, World, cur, after, moved,
}
use kernel.Proc.Mutex.Paths.{lock_cases, lock_cancellable_cases, unlock_cases}
use kernel.Proc.Mutex.Exclusion.{
  Safe, Safe-acquire, Safe-block, Safe-block_cancellable, Safe-stay, Safe-release, Safe-hand_over,
}

pub record Good (q : ℕ) (w : World) : Type 0 where
  pub waitq : w.mutex.waitq ≡ q
  pub queues : Inv w.mutex.sched
  pub safe : Safe q w.mutex.holder w.mutex.sched.threads w.place

sleep_on-Inv : (q : ℕ) (s s' : Sched) → q ≢ runq → sched_sleep_on q s ≡ some s' → Inv s → Inv s'
unfolding sched_sleep_on
sleep_on-Inv q s s' ne e v = enqueue-Inv q s.current sleep s s' (ground arith) e v

pub make_runnable-Inv : (t : ℕ) (s s' : Sched) → sched_make_runnable t s ≡ some s' → Inv s → Inv s'
unfolding sched_make_runnable
make_runnable-Inv t s s' e v = enqueue-Inv runq t run s s' refl (ground arith) v

as_held :
    {q : ℕ} (w : World) {h : Option ℕ}
    → w.mutex.holder ≡ h
    → Good q w
    → Safe q h w.mutex.sched.threads w.place
as_held {q} w e g = subst (λ h. Safe q h w.mutex.sched.threads w.place) e g.safe

pub locks-Good :
    (q : ℕ) (w : World) (r : Locking) (m : Mutex)
    → q ≢ runq
    → w.place (cur w) ≡ outside
    → kmutex_lock w.mutex ≡ some (r, m)
    → Good q w
    → Good q (moved w m (after locking r))
locks-Good q w r m ne out e g = elim (lock_cases w.mutex m r e) [
  | inl (free, got, new) ↦
      rw (got, new)
        (record {
          waitq = g.waitq;
          queues = g.queues;
          safe = Safe-acquire q ne (cur w) w.mutex.sched.threads w.place (as_held w free g);
        })
  | inr (h, s, held, other, slept, e', new) ↦
      let e1 : sched_sleep_on q w.mutex.sched ≡ some s = rw g.waitq at e' in
      let (alone, o) = sleep_on-Only q w.mutex.sched s e1 in
      rw (slept, new)
        (record {
          waitq = g.waitq;
          queues = sleep_on-Inv q w.mutex.sched s ne e1 g.queues;
          safe = rw held (
              Safe-block q ne h (cur w) w.mutex.sched s w.place other alone o out
                (as_held w held g));
        })
]

pub locks_cancellable-Good :
    (q : ℕ) (w : World) (r : Locking) (m : Mutex)
    → q ≢ runq
    → w.place (cur w) ≡ outside
    → kmutex_lock_cancellable w.mutex ≡ some (r, m)
    → Good q w
    → Good q (moved w m (after locking_cancellable r))
locks_cancellable-Good q w r m ne out e g = elim (lock_cancellable_cases w.mutex m r e) [
  | inl (free, got, new) ↦
      rw (got, new)
        (record {
          waitq = g.waitq;
          queues = g.queues;
          safe = Safe-acquire q ne (cur w) w.mutex.sched.threads w.place (as_held w free g);
        })
  | inr (h, s, b, held, other, slept, e', new) ↦
      let e1 : sched_cancellable_sleep_on q w.mutex.sched ≡ some (b, s) = rw g.waitq at e' in
      elim (cancellable_sleep_on-Only q b w.mutex.sched s e1) [
        | inl (now, told, same) ↦
            rw (slept, now, new, same)
              (record {
                waitq = g.waitq;
                queues = g.queues;
                safe =
                    Safe-stay q ne w.mutex.holder (cur w) w.mutex.sched.threads w.place out g.safe;
              })
        | inr (later, alone, o) ↦
            rw (slept, later, new)
              (record {
                waitq = g.waitq;
                queues = cancellable-Inv q b w.mutex.sched s ne e1 g.queues;
                safe = rw held (
                    Safe-block_cancellable q ne h (cur w) w.mutex.sched s w.place other alone o out
                      (as_held w held g));
              })
      ]
]

nobody :
    (q : ℕ) (s : Sched)
    → Inv s
    → sched_queue_empty q s ≡ true
    → (t : ℕ) → is_on q (s.threads t).wchan ≡ false
unfolding occurs
nobody q s v e t = elim (List-cases (s.queues q).items) [
  | inl empty ↦ ground (arith, v.counted q t)
  | inr (front, u, last) ↦ absurd (ground (arith, queue_nonempty q front u s last))
]

handed :
    (m m' : Mutex) (t : ℕ) (s : Sched)
    → hand_over m (some (some t, s)) ≡ some m'
    → m' ≡ record m { holder = some t; sched = s }
unfolding hand_over
handed m m' t s e = elim (Bool-cases (t == m.sched.current)) [
  | inl mine ↦ absurd (ground arith)
  | inr other ↦ ground arith
]

pub unlocks-Good :
    (q : ℕ) (w : World) (m : Mutex)
    → q ≢ runq
    → w.place (cur w) ≡ inside
    → kmutex_unlock w.mutex ≡ some m
    → Good q w
    → Good q (moved w m outside)
unlocks-Good q w m ne p e g =
    let (mine, ways) = unlock_cases w.mutex m e in
    elim ways [
      | inl (empty, new) ↦ rw new (record {
        waitq = g.waitq;
        queues = g.queues;
        safe =
            Safe-release q ne (cur w) w.mutex.sched.threads w.place
              (nobody q w.mutex.sched g.queues (rw g.waitq at empty)) p (as_held w mine g);
      })
      | inr (waits, e') ↦
          let e1 : hand_over w.mutex (sched_wakeup_on q w.mutex.sched) ≡ some m =
            subst (λ x. hand_over w.mutex (sched_wakeup_on x w.mutex.sched) ≡ some m) g.waitq e' in
          let waits1 : sched_queue_empty q w.mutex.sched ≡ false = rw g.waitq at waits in
          elim (List-cases (w.mutex.sched.queues q).items) [
            | inl empty ↦ absurd (ground (arith, queue_empty q w.mutex.sched empty))
            | inr (front, t, last) ↦
                let (s1, woke, _, _, _, new, others, v1) =
                  wakeup_oldest q t front w.mutex.sched g.queues ne last in
                let m1 = handed w.mutex m t s1 (rw woke at e1) in
                rw m1 (record {
                  waitq = g.waitq;
                  queues = v1;
                  safe =
                      Safe-hand_over q ne (cur w) t w.mutex.sched.threads s1.threads w.place
                        (on_queue q t front w.mutex.sched g.queues last) new others p
                        (as_held w mine g);
                })
          ]
    ]
