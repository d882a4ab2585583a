-- ===== src/Proc/Sched/Invariant.antt =====
-- kernel/proc/sched.c: a thread is on the queue that its `kt_wchan` names, once, and on no other.
use kernel.Base.{ℕ, ◌+◌, ◌≡◌, true, List, none, ◌==◌, if◌then◌else◌, arith, length, occurs}
use kernel.Proc.Queue.{Sched, ThreadState, run, runq, is_on, set_thread, enqueued, dequeued}
use kernel.Proc.Sched.{is_asleep}

-- What `kt_state` has to be on a queue.
abbrev pub Suits : ℕ → ThreadState → Type 0
Suits q x = if q == runq then x ≡ run else (is_asleep x ≡ true)

pub record Inv (s : Sched) : Type 0 where
  pub counted :
      (q t : ℕ) → occurs t (s.queues q).items ≡ (if is_on q (s.threads t).wchan then 1 else 0)
  pub sized : (q : ℕ) → (s.queues q).size ≡ length (s.queues q).items
  pub suited : (q t : ℕ) → is_on q (s.threads t).wchan ≡ true → Suits q (s.threads t).state

pub set_state-Inv :
    (t : ℕ) (x : ThreadState) (s : Sched)
    → (s.threads t).wchan ≡ none
    → Inv s
    → Inv (set_thread t (record (s.threads t) { state = x }) s)
set_state-Inv t x s h v = record {
  counted = λ q u. ground (arith, v.counted q u);
  sized = v.sized;
  suited = λ q u. ground (arith, v.suited q u);
}

pub enqueued-Inv :
    (q t : ℕ) (s : Sched)
    → (s.threads t).wchan ≡ none
    → Suits q (s.threads t).state
    → Inv s
    → Inv (enqueued q t s)
unfolding occurs
enqueued-Inv q t s h x v = record {
  counted = λ p u. ground (arith, v.counted p u);
  sized = λ p. ground (arith, v.sized p);
  suited = λ p u. ground (arith, v.suited p u);
}

-- A thread that leaves its queue, `front` being what is left of it.
pub leaves-Inv :
    (q t : ℕ) (front : List ℕ) (s : Sched)
    → ((u : ℕ) → occurs u front + (if t == u then 1 else 0) ≡ occurs u (s.queues q).items)
    → length front + 1 ≡ length (s.queues q).items
    → Inv s
    → Inv (dequeued q t front s)
leaves-Inv q t front s count len v = record {
  counted = λ p u. ground (arith, v.counted p u, count u, v.counted q t, count t);
  sized = λ p. ground (arith, v.sized p);
  suited = λ p u. ground (arith, v.suited p u);
}
