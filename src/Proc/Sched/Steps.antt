-- ===== src/Proc/Sched/Steps.antt =====
-- kernel/proc/sched.c, kernel/proc/kthread.c: what each operation keeps, as steps of the scheduler.
use kernel.Base.{
  ℕ, ◌≡◌, ◌≢◌, inl, inr, refl, ap, subst, Bool, true, false, [], Option, none, some, arith,
  Bool-cases, Option-cases, ℕ_discrete, occurs,
}
use kernel.Proc.Queue.{
  Sched, ThreadState, run, sleep, sleep_cancellable, exited, runq, set_cancelled, enqueued,
  dequeued, ktqueue_enqueue,
}
use kernel.Proc.Sched.{
  set_state, sched_make_runnable, sched_wakeup_on, sched_broadcast_on, kthread_cancel,
  sched_sleep_on, sched_cancellable_sleep_on, sched_switch, resume,
}
use kernel.Proc.Sched.Wakeup.{
  List-cases, wakeup_empty, wakeup_oldest, broadcast_wakes_all, dequeue-nil, dequeue-tail,
  dequeued-Inv,
}
use kernel.Proc.Sched.Invariant.{Suits, Inv, set_state-Inv, enqueued-Inv}
use kernel.Proc.Sched.Cancel.{
  roused, roused-Inv, set_cancelled-Inv, cancel-sleeper, cancel-other, cancel_unqueued,
  ThreadState-discrete, cancel-current, cancel_queued_current,
}

pub wakeup-Inv :
    (q : ℕ) (r : Option ℕ) (s s' : Sched)
    → q ≢ runq
    → sched_wakeup_on q s ≡ some (r, s')
    → Inv s
    → Inv s'
wakeup-Inv q r s s' h e v = elim (List-cases (s.queues q).items) [
  | inl empty ↦ let same : s ≡ s' = ground (arith, wakeup_empty q s empty) in subst Inv same v
  | inr (front, t, last) ↦
      let (s1, woke, _, _, _, _, _, v1) = wakeup_oldest q t front s v h last in
      let same : s1 ≡ s' = ground arith in subst Inv same v1
]

broadcast-Inv :
    (q : ℕ) (b : Bool) (s s' : Sched)
    → q ≢ runq
    → sched_broadcast_on q s ≡ some (b, s')
    → Inv s
    → Inv s'
broadcast-Inv q b s s' h e v =
    let (s1, done, _, _, v1) = broadcast_wakes_all q s v h in
    let same : s1 ≡ s' = ground arith in subst Inv same v1

-- The operations as steps; `q` is a wait queue, never the run queue. `start` is
-- `sched_make_runnable` of a thread that is on no queue, and `pause` a `sched_make_runnable` of the
-- current thread before it calls `sched_switch`.
pub data Step (s s' : Sched) : Type 0 where
  sleeps : (q : ℕ) → q ≢ runq → sched_sleep_on q s ≡ some s' → Step s s'
  sleeps_cancellable :
      (q : ℕ) (b : Bool) → q ≢ runq → sched_cancellable_sleep_on q s ≡ some (b, s') → Step s s'
  starts : (t : ℕ) → sched_make_runnable t s ≡ some s' → Step s s'
  wakes : (q : ℕ) (r : Option ℕ) → q ≢ runq → sched_wakeup_on q s ≡ some (r, s') → Step s s'
  broadcasts : (q : ℕ) (b : Bool) → q ≢ runq → sched_broadcast_on q s ≡ some (b, s') → Step s s'
  cancels : (t : ℕ) → kthread_cancel t s ≡ some s' → Step s s'
  switches : (b : Bool) → sched_switch s ≡ (b, s') → Step s s'

pub enqueue-Inv :
    (q t : ℕ) (x : ThreadState) (s s' : Sched)
    → Suits q x
    → ktqueue_enqueue q t (set_state t x s) ≡ some s'
    → Inv s
    → Inv s'
unfolding ktqueue_enqueue
enqueue-Inv q t x s s' suits e v = elim (Option-cases (s.threads t).wchan) [
  | inl free ↦
      let same : enqueued q t (set_state t x s) ≡ s' = ground arith in
      subst Inv same (
        enqueued-Inv q t (set_state t x s) (ground arith) (ground arith)
          (set_state-Inv t x s free v))
  | inr (p, taken) ↦ absurd (ground arith)
]

pub current-Inv : (t : ℕ) (s : Sched) → Inv s → Inv (record s { current = t })
current-Inv t s v = record { counted = v.counted; sized = v.sized; suited = v.suited }

pub cancellable-Inv :
    (q : ℕ) (b : Bool) (s s' : Sched)
    → q ≢ runq
    → sched_cancellable_sleep_on q s ≡ some (b, s')
    → Inv s
    → Inv s'
unfolding sched_cancellable_sleep_on
cancellable-Inv q b s s' h e v = elim (Bool-cases (s.threads s.current).cancelled) [
  | inl told ↦ let same : s ≡ s' = ground arith in subst Inv same v
  | inr clear ↦ enqueue-Inv q s.current sleep_cancellable s s' (ground arith) (ground arith) v
]

pub cancel-Inv : (t : ℕ) (s s' : Sched) → kthread_cancel t s ≡ some s' → Inv s → Inv s'
cancel-Inv t s s' e v = elim (ℕ_discrete t s.current) [
  | yes k ↦ elim (Option-cases (s.threads t).wchan) [
    | inl free ↦
        let same : set_state t exited s ≡ s' = ground (arith, cancel-current t s k free) in
        subst Inv same (set_state-Inv t exited s free v)
    | inr (q, taken) ↦ absurd (ground (arith, cancel_queued_current q t s k taken))
  ]
  | no k ↦ elim (ThreadState-discrete (s.threads t).state sleep_cancellable) [
    | yes c ↦ elim (Option-cases (s.threads t).wchan) [
      | inl w ↦ absurd (ground (arith, cancel_unqueued t s k w c))
      | inr (q, w) ↦
          let same : roused q t (set_cancelled t s) ≡ s' =
            ground (arith, cancel-sleeper q t s k w c) in
          subst Inv same
            (roused-Inv q t (set_cancelled t s) (ground arith) (set_cancelled-Inv t s v))
    ]
    | no n ↦
        let same : set_cancelled t s ≡ s' = ground (arith, cancel-other t s k n) in
        subst Inv same (set_cancelled-Inv t s v)
  ]
]

pub switch-Inv : (b : Bool) (s s' : Sched) → sched_switch s ≡ (b, s') → Inv s → Inv s'
unfolding sched_switch
switch-Inv b s s' e v = elim (List-cases (s.queues runq).items) [
  | inl empty ↦
      let turn : sched_switch s ≡ (false, s) = ap resume (dequeue-nil runq s empty) in
      let same : s ≡ s' = ground arith in subst Inv same v
  | inr (front, t, last) ↦
      let next : Sched = record (dequeued runq t front s) { current = t } in
      let turn : sched_switch s ≡ (true, next) = ap resume (dequeue-tail runq t front s last) in
      let same : next ≡ s' = ground arith in
      subst Inv same (current-Inv t (dequeued runq t front s) (dequeued-Inv runq t front s v last))
]

-- Every operation keeps the queues consistent.
pub Step-Inv : {s s' : Sched} → Step s s' → Inv s → Inv s'
unfolding sched_sleep_on sched_cancellable_sleep_on sched_make_runnable
Step-Inv {s} {s'} (sleeps q h e) v = enqueue-Inv q s.current sleep s s' (ground arith) e v
Step-Inv {s} {s'} (sleeps_cancellable q b h e) v = cancellable-Inv q b s s' h e v
Step-Inv {s} {s'} (starts t e) v = enqueue-Inv runq t run s s' refl (ground arith) v
Step-Inv {s} {s'} (wakes q r h e) v = wakeup-Inv q r s s' h e v
Step-Inv {s} {s'} (broadcasts q b h e) v = broadcast-Inv q b s s' h e v
Step-Inv {s} {s'} (cancels t e) v = cancel-Inv t s s' e v
Step-Inv {s} {s'} (switches b e) v = switch-Inv b s s' e v

-- Every queue is empty and no thread is on one.
abbrev pub Boot : Sched → Type 0
Boot s =
    ((q : ℕ) → s.queues q ≡ record { items = []; size = 0 })
    × ((t : ℕ) → (s.threads t).wchan ≡ none)

pub data Reach (s : Sched) : Sched → Type 0 where
  here : Reach s s
  next : {u w : Sched} → Reach s u → Step u w → Reach s w

pub Boot-Inv : (s : Sched) → Boot s → Inv s
unfolding occurs
Boot-Inv s (empty, free) = record {
  counted = λ q t. ground (arith, empty q, free t);
  sized = λ q. ground (arith, empty q);
  suited = λ q t. ground (arith, free t);
}

-- From the start of the scheduler on, whatever operations run: each thread stands exactly once on
-- the queue that its `kt_wchan` names and on no other, `tq_size` is the length of the queue, and a
-- thread on the run queue is runnable and one on a wait queue asleep.
pub Reach-Inv : {s s' : Sched} → Boot s → Reach s s' → Inv s'
Reach-Inv {s} b here = Boot-Inv s b
Reach-Inv b (next r st) = Step-Inv st (Reach-Inv b r)
