-- ===== src/Proc/Sched/Effects.antt =====
-- kernel/proc/sched.c: which thread an operation changes, and how.
use kernel.Base.{
  ℕ, ◌≡◌, ◌≢◌, ◌⊎◌, inl, inr, ap, Option, Bool, true, false, none, some, ◌==◌, if◌then◌else◌, arith,
  Bool-cases, Option-cases, ℕ_discrete,
}
use kernel.Proc.Queue.{
  Sched, Thread, run, sleep, sleep_cancellable, exited, runq, is_on, set_cancelled, enqueued,
  dequeued, ktqueue_enqueue,
}
use kernel.Proc.Sched.{
  sched_make_runnable, kthread_cancel, sched_sleep_on, sched_cancellable_sleep_on, sched_switch,
  resume, set_state, sched_wakeup_on, wake,
}
use kernel.Proc.Sched.Invariant.{Inv}
use kernel.Proc.Sched.Wakeup.{List-cases, dequeue-nil, dequeue-tail, on_queue}
use kernel.Proc.Sched.Cancel.{
  ThreadState-discrete, cancel-sleeper, cancel-other, cancel_unqueued, roused, cancel-current,
  cancel_queued_current,
}

-- Only the thread `t` has changed, to `th`.
pub record Only (t : ℕ) (th : Thread) (s s' : Sched) : Type 0 where
  pub threads : (u : ℕ) → s'.threads u ≡ (if t == u then th else s.threads u)
  pub current : s'.current ≡ s.current

pub sleep_on-Only :
    (q : ℕ) (s s' : Sched)
    → sched_sleep_on q s ≡ some s'
    → ((s.threads s.current).wchan ≡ none)
      × Only s.current (record (s.threads s.current) { state = sleep; wchan = some q }) s s'
unfolding sched_sleep_on ktqueue_enqueue
sleep_on-Only q s s' e = elim (Option-cases (s.threads s.current).wchan) [
  | inl free ↦
      let same : enqueued q s.current (set_state s.current sleep s) ≡ s' = ground arith in
      (free, record { threads = λ u. ground arith; current = ground arith })
  | inr (p, taken) ↦ absurd (ground arith)
]

pub cancellable_sleep_on-Only :
    (q : ℕ) (b : Bool) (s s' : Sched)
    → sched_cancellable_sleep_on q s ≡ some (b, s')
    → ((b ≡ true) × ((s.threads s.current).cancelled ≡ true) × (s' ≡ s))
      ⊎ ((b ≡ false)
          × ((s.threads s.current).wchan ≡ none)
          × Only s.current
              (record (s.threads s.current) { state = sleep_cancellable; wchan = some q })
              s
              s')
unfolding sched_cancellable_sleep_on ktqueue_enqueue
cancellable_sleep_on-Only q b s s' e = elim (Bool-cases (s.threads s.current).cancelled) [
  | inl told ↦ inl (ground arith, told, ground arith)
  | inr clear ↦ elim (Option-cases (s.threads s.current).wchan) [
    | inl free ↦
        let same : enqueued q s.current (set_state s.current sleep_cancellable s) ≡ s' =
          ground arith in
        inr (ground arith, free, record { threads = λ u. ground arith; current = ground arith })
    | inr (p, taken) ↦ absurd (ground arith)
  ]
]

pub make_runnable-Only :
    (t : ℕ) (s s' : Sched)
    → sched_make_runnable t s ≡ some s'
    → ((s.threads t).wchan ≡ none)
      × Only t (record (s.threads t) { state = run; wchan = some runq }) s s'
unfolding sched_make_runnable ktqueue_enqueue
make_runnable-Only t s s' e = elim (Option-cases (s.threads t).wchan) [
  | inl free ↦
      let same : enqueued runq t (set_state t run s) ≡ s' = ground arith in
      (free, record { threads = λ u. ground arith; current = ground arith })
  | inr (p, taken) ↦ absurd (ground arith)
]

-- A cancelled thread is marked; if it slept cancellably it is on the run queue now. The current
-- thread exits instead.
pub cancel-Only :
    (t : ℕ) (s s' : Sched)
    → kthread_cancel t s ≡ some s'
    → ((t ≢ s.current)
        × ((s.threads t).state ≡ sleep_cancellable)
        × Only t (record (s.threads t) { state = run; cancelled = true; wchan = some runq }) s s')
      ⊎ (((t ≢ s.current) × Only t (record (s.threads t) { cancelled = true }) s s')
          ⊎ ((t ≡ s.current)
              × ((s.threads t).wchan ≡ none)
              × Only t (record (s.threads t) { state = exited }) s s'))
cancel-Only t s s' e = elim (ℕ_discrete t s.current) [
  | yes k ↦ elim (Option-cases (s.threads t).wchan) [
    | inl free ↦
        let same : set_state t exited s ≡ s' = ground (arith, cancel-current t s k free) in
        inr (inr (k, free, record { threads = λ u. ground arith; current = ground arith }))
    | inr (q, taken) ↦ absurd (ground (arith, cancel_queued_current q t s k taken))
  ]
  | no k ↦ elim (ThreadState-discrete (s.threads t).state sleep_cancellable) [
    | yes c ↦ elim (Option-cases (s.threads t).wchan) [
      | inl w ↦ absurd (ground (arith, cancel_unqueued t s k w c))
      | inr (q, w) ↦
          let same : roused q t (set_cancelled t s) ≡ s' =
            ground (arith, cancel-sleeper q t s k w c) in
          inl (k, c, record { threads = λ u. ground arith; current = ground arith })
    ]
    | no n ↦
        let same : set_cancelled t s ≡ s' = ground (arith, cancel-other t s k n) in
        inr (inl (k, record { threads = λ u. ground arith; current = ground arith }))
  ]
]

-- A switch takes a thread off the run queue, or waits.
pub switch_effect :
    (b : Bool) (s s' : Sched)
    → Inv s
    → sched_switch s ≡ (b, s')
    → ((b ≡ false) × (s' ≡ s))
      ⊎ ((b ≡ true)
          × (is_on runq (s.threads s'.current).wchan ≡ true)
          × ((u : ℕ)
              → s'.threads u ≡ (
                  if s'.current == u
                  then record (s.threads s'.current) { wchan = none }
                  else s.threads u)))
unfolding sched_switch
switch_effect b s s' v e = elim (List-cases (s.queues runq).items) [
  | inl empty ↦
      let turn : sched_switch s ≡ (false, s) = ap resume (dequeue-nil runq s empty) in
      inl (ground arith, ground arith)
  | inr (front, t, last) ↦
      let next : Sched = record (dequeued runq t front s) { current = t } in
      let turn : sched_switch s ≡ (true, next) = ap resume (dequeue-tail runq t front s last) in
      let same : next ≡ s' = ground arith in
      let queued = on_queue runq t front s v last in
      inr (ground arith, ground arith, λ u. ground arith)
]

-- Waking a thread does not change which one runs.
pub wakeup_on-current :
    (q : ℕ) (r : Option ℕ) (s s' : Sched)
    → sched_wakeup_on q s ≡ some (r, s')
    → s'.current ≡ s.current
unfolding sched_wakeup_on wake
wakeup_on-current q r s s' e = elim (List-cases (s.queues q).items) [
  | inl empty ↦
      let turn : sched_wakeup_on q s ≡ some (none, s) =
        ap (λ x. wake x.0 x.1) (dequeue-nil q s empty) in
      ground arith
  | inr (front, t, last) ↦
      let left : Sched = dequeued q t front s in
      let turn : sched_wakeup_on q s ≡ wake (some t) left =
        ap (λ x. wake x.0 x.1) (dequeue-tail q t front s last) in
      elim (Option-cases (sched_make_runnable t left)) [
        | inl fails ↦ absurd (ground arith)
        | inr (s1, runs) ↦
            let (_, o) = make_runnable-Only t left s1 runs in ground (arith, o.current)
      ]
]
