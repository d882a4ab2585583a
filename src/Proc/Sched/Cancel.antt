-- ===== src/Proc/Sched/Cancel.antt =====
-- kernel/proc/sched.c, kernel/proc/kthread.c: what cancelling a thread does.
use mathlib.Core.Path.{ap₂}
use kernel.Base.{
  ℕ, ◌≡◌, ◌≢◌, refl, ap, ◌∙◌, none, some, arith, remove_item, occurs-remove_item, occurs-le-length,
  length-remove_item,
}
use kernel.Proc.Queue.{
  Sched, ThreadState, run, sleep_cancellable, exited, runq, set_cancelled, enqueued, dequeued,
  ktqueue_enqueue, ktqueue_remove,
}
use kernel.Proc.Sched.{
  set_state, sched_make_runnable, sched_cancel, cancel_on, cancel_in, kthread_cancel, kthread_exit,
}
use kernel.Proc.Sched.Invariant.{Inv, set_state-Inv, enqueued-Inv, leaves-Inv}

pub set_cancelled-Inv : (t : ℕ) (s : Sched) → Inv s → Inv (set_cancelled t s)
set_cancelled-Inv t s v = record {
  counted = λ q u. ground (arith, v.counted q u);
  sized = v.sized;
  suited = λ q u. ground (arith, v.suited q u);
}

-- A thread that sleeps cancellably on `q` and is cancelled.
abbrev pub roused : ℕ → ℕ → Sched → Sched
roused q t s =
    enqueued runq t
      (set_state t run (dequeued q t (remove_item t (s.queues q).items) (set_cancelled t s)))

pub roused-Inv : (q t : ℕ) (s : Sched) → (s.threads t).wchan ≡ some q → Inv s → Inv (roused q t s)
roused-Inv q t s h v = enqueued-Inv runq t (set_state t run left) (ground arith) (ground arith) (
    set_state-Inv t run left (ground arith) (
      leaves-Inv q t (remove_item t (s.queues q).items) (set_cancelled t s)
        (λ u. ground (arith, occurs-remove_item t u (s.queues q).items, v.counted q t))
        (ground (
          arith,
          length-remove_item t (s.queues q).items,
          v.counted q t,
          occurs-le-length t (s.queues q).items,
        ))
        (set_cancelled-Inv t s v)))
  where
    left : Sched
    left = dequeued q t (remove_item t (s.queues q).items) (set_cancelled t s)

make_runnable_lem :
    (t : ℕ) (s : Sched)
    → (s.threads t).wchan ≡ none
    → sched_make_runnable t s ≡ some (enqueued runq t (set_state t run s))
unfolding sched_make_runnable ktqueue_enqueue
make_runnable_lem t s h = ground arith

sched_cancel-sleeper :
    (q t : ℕ) (s : Sched)
    → (s.threads t).wchan ≡ some q
    → (s.threads t).state ≡ sleep_cancellable
    → sched_cancel t s ≡ some (roused q t s)
unfolding sched_cancel ktqueue_remove
sched_cancel-sleeper q t s w e =
    ap₂ (λ c x. cancel_on c x t s) w e
    ∙ make_runnable_lem t (dequeued q t (remove_item t (s.queues q).items) (set_cancelled t s))
        (ground arith)

apart-cancel :
    (t : ℕ) (s : Sched) → t ≢ s.current → kthread_cancel t s ≡ cancel_in (s.threads t).state t s
unfolding kthread_cancel
apart-cancel t s h = ground arith

-- The current thread exits.
pub cancel-current :
    (t : ℕ) (s : Sched)
    → t ≡ s.current
    → (s.threads t).wchan ≡ none
    → kthread_cancel t s ≡ some (set_state t exited s)
unfolding kthread_cancel kthread_exit
cancel-current t s e h = ground arith

pub cancel_queued_current :
    (q t : ℕ) (s : Sched) → t ≡ s.current → (s.threads t).wchan ≡ some q → kthread_cancel t s ≡ none
unfolding kthread_cancel kthread_exit
cancel_queued_current q t s e h = ground arith

pub cancel-sleeper :
    (q t : ℕ) (s : Sched)
    → t ≢ s.current
    → (s.threads t).wchan ≡ some q
    → (s.threads t).state ≡ sleep_cancellable
    → kthread_cancel t s ≡ some (roused q t (set_cancelled t s))
unfolding cancel_in
cancel-sleeper q t s h w e =
    apart-cancel t s h
    ∙ ap (λ x. cancel_in x t s) e
    ∙ sched_cancel-sleeper q t (set_cancelled t s) (ground arith) (ground arith)

cancel_in-other :
    (x : ThreadState) (t : ℕ) (s : Sched)
    → x ≢ sleep_cancellable
    → cancel_in x t s ≡ some (set_cancelled t s)
unfolding cancel_in
cancel_in-other sleep_cancellable t s h = absurd (h refl)
cancel_in-other _ t s h = refl

pub cancel-other :
    (t : ℕ) (s : Sched)
    → t ≢ s.current
    → (s.threads t).state ≢ sleep_cancellable
    → kthread_cancel t s ≡ some (set_cancelled t s)
cancel-other t s apart h = apart-cancel t s apart ∙ cancel_in-other (s.threads t).state t s h

pub ThreadState-discrete : Discrete ThreadState
ThreadState-discrete = hlevel

pub cancel_unqueued :
    (t : ℕ) (s : Sched)
    → t ≢ s.current
    → (s.threads t).wchan ≡ none
    → (s.threads t).state ≡ sleep_cancellable
    → kthread_cancel t s ≡ none
unfolding cancel_in sched_cancel cancel_on
cancel_unqueued t s h w e =
    let w' : ((set_cancelled t s).threads t).wchan ≡ none = ground arith in
    apart-cancel t s h
    ∙ ap (λ x. cancel_in x t s) e
    ∙ ap (λ c. cancel_on c ((set_cancelled t s).threads t).state t (set_cancelled t s)) w'
