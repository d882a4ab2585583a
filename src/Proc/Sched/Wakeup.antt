-- ===== src/Proc/Sched/Wakeup.antt =====
-- kernel/proc/sched.c: whom `sched_wakeup_on` and `sched_broadcast_on` wake, and in which order.
use mathlib.Core.Path.{ap₂}
use kernel.Base.{
  ℕ, zero, suc, ◌+◌, ◌≤◌, ◌≡◌, ◌≢◌, ◌⊎◌, inl, inr, refl, ap, sym, ◌∙◌, true, false, List, [], ◌∷◌,
  ◌++◌, append_assoc, none, some, if◌then◌else◌, arith, length, length-append, occurs, take_last,
}
use kernel.Proc.Queue.{
  Sched, run, runq, is_on, enqueued, dequeued, sched_queue_empty, ktqueue_enqueue, ktqueue_dequeue,
}
use kernel.Proc.Sched.{
  is_asleep, set_state, sched_make_runnable, wake, sched_wakeup_on, broadcast, sched_broadcast_on,
}
use kernel.Proc.Sched.Invariant.{Inv, set_state-Inv, enqueued-Inv, leaves-Inv}

take_last-append : (u : ℕ) (front : List ℕ) (t : ℕ) → take_last u (front ++ t ∷ []) ≡ (t, u ∷ front)
unfolding take_last
take_last-append u [] t = refl
take_last-append u (v ∷ front) t = ground (arith, take_last-append v front t)

occurs-append : (u : ℕ) (l k : List ℕ) → occurs u (l ++ k) ≡ occurs u l + occurs u k
unfolding occurs
occurs-append u [] k = omega arith
occurs-append u (v ∷ l) k = omega (arith, occurs-append u l k)

-- The thread at the tail leaves the queue.
pub dequeue-tail :
    (q t : ℕ) (front : List ℕ) (s : Sched)
    → (s.queues q).items ≡ front ++ t ∷ []
    → ktqueue_dequeue q s ≡ (some t, dequeued q t front s)
unfolding ktqueue_dequeue take_last
dequeue-tail q t [] s e = rw (e, ktqueue_dequeue)
dequeue-tail q t (u ∷ front) s e = rw (e, take_last-append u front t, ktqueue_dequeue)

-- The thread `t` at the tail of `q`, woken.
abbrev woken : ℕ → ℕ → List ℕ → Sched → Sched
woken q t front s = enqueued runq t (set_state t run (dequeued q t front s))

module _ (q t : ℕ) (front : List ℕ) (s : Sched) (v : Inv s)
    (e : (s.queues q).items ≡ front ++ t ∷ []) where
  pub on_queue : is_on q (s.threads t).wchan ≡ true
  unfolding occurs
  on_queue =
      let n : occurs t (front ++ t ∷ []) ≡ (if is_on q (s.threads t).wchan then 1 else 0) =
        rw e at (v.counted q t) in
      ground (arith, occurs-append t front (t ∷ []))

  pub dequeued-Inv : Inv (dequeued q t front s)
  unfolding occurs
  dequeued-Inv =
      leaves-Inv q t front s (λ u. rw e (ground (arith, occurs-append u front (t ∷ []))))
        (rw e (omega (arith, length-append front (t ∷ [])))) v

  asleep : q ≢ runq → is_asleep (s.threads t).state ≡ true
  asleep h = ground (arith, v.suited q t on_queue)

  wake-tail : q ≢ runq → sched_wakeup_on q s ≡ some (some t, woken q t front s)
  unfolding sched_wakeup_on wake sched_make_runnable ktqueue_enqueue
  wake-tail h = rw (dequeue-tail q t front s e, sched_wakeup_on) (ground (arith, asleep h))

  woken-Inv : Inv (woken q t front s)
  woken-Inv =
      enqueued-Inv runq t (set_state t run (dequeued q t front s)) (ground arith) (ground arith)
        (set_state-Inv t run (dequeued q t front s) (ground arith) dequeued-Inv)

-- `sched_wakeup_on` wakes the thread that has waited longest, the one at the tail, since a thread is
-- put at the head: the thread leaves the queue, becomes runnable and goes to the head of the run
-- queue; no other thread and no other queue changes, and no assertion fails.
pub wakeup_oldest :
    (q t : ℕ) (front : List ℕ) (s : Sched)
    → Inv s
    → q ≢ runq
    → (s.queues q).items ≡ front ++ t ∷ []
    → (s' : Sched) × (sched_wakeup_on q s ≡ some (some t, s'))
      × ((s'.queues q).items ≡ front)
      × ((s'.queues runq).items ≡ t ∷ (s.queues runq).items)
      × ((p : ℕ) → p ≢ q → p ≢ runq → s'.queues p ≡ s.queues p)
      × (s'.threads t ≡ record (s.threads t) { state = run; wchan = some runq })
      × ((u : ℕ) → u ≢ t → s'.threads u ≡ s.threads u)
      × Inv s'
wakeup_oldest q t front s v h e = (
  woken q t front s,
  wake-tail q t front s v e h,
  ground arith,
  ground arith,
  (λ p a b. ground arith),
  ground arith,
  (λ u a. ground arith),
  woken-Inv q t front s v e,
)

pub dequeue-nil : (q : ℕ) (s : Sched) → (s.queues q).items ≡ [] → ktqueue_dequeue q s ≡ (none, s)
unfolding ktqueue_dequeue
dequeue-nil q s e = rw (e, ktqueue_dequeue)

pub wakeup_empty :
    (q : ℕ) (s : Sched) → (s.queues q).items ≡ [] → sched_wakeup_on q s ≡ some (none, s)
unfolding sched_wakeup_on ktqueue_dequeue wake
wakeup_empty q s e = rw (e, sched_wakeup_on, ktqueue_dequeue)

-- Every list but the empty one has a last entry.
snoc : (u : ℕ) (l : List ℕ) → (front : List ℕ) × (t : ℕ) × (u ∷ l ≡ front ++ t ∷ [])
snoc u [] = ([], u, refl)
snoc u (w ∷ l) = let (front, t, e) = snoc w l in (u ∷ front, t, ap (◌∷◌ u) e)

pub List-cases : (l : List ℕ) → (l ≡ []) ⊎ ((front : List ℕ) × (t : ℕ) × (l ≡ front ++ t ∷ []))
List-cases [] = inl refl
List-cases (u ∷ l) = inr (snoc u l)

pub queue_empty : (q : ℕ) (s : Sched) → (s.queues q).items ≡ [] → sched_queue_empty q s ≡ true
unfolding sched_queue_empty
queue_empty q s e = rw (e, sched_queue_empty)

pub queue_nonempty :
    (q : ℕ) (front : List ℕ) (t : ℕ) (s : Sched)
    → (s.queues q).items ≡ front ++ t ∷ []
    → sched_queue_empty q s ≡ false
unfolding sched_queue_empty
queue_nonempty q [] t s e = rw (e, sched_queue_empty)
queue_nonempty q (u ∷ front) t s e = rw (e, sched_queue_empty)

none_left : (l : List ℕ) → length l ≤ 0 → l ≡ []
none_left [] h = refl
none_left (u ∷ l) h = absurd (omega arith)

woken-items :
    (q t : ℕ) (front : List ℕ) (s : Sched) → q ≢ runq → ((woken q t front s).queues q).items ≡ front
woken-items q t front s h = ground arith

woken-runq :
    (q t : ℕ) (front : List ℕ) (s : Sched)
    → q ≢ runq
    → ((woken q t front s).queues runq).items ≡ t ∷ (s.queues runq).items
woken-runq q t front s h = ground arith

woken-length :
    (q t : ℕ) (front : List ℕ) (s : Sched) (n : ℕ)
    → q ≢ runq
    → (s.queues q).items ≡ front ++ t ∷ []
    → length (s.queues q).items ≤ suc n
    → length ((woken q t front s).queues q).items ≤ n
woken-length q t front s n h e le =
    omega (arith, ap length (woken-items q t front s h), ap length e, length-append front (t ∷ []))

woken-order :
    (q t : ℕ) (front : List ℕ) (s : Sched)
    → q ≢ runq
    → (s.queues q).items ≡ front ++ t ∷ []
    → ((woken q t front s).queues q).items ++ ((woken q t front s).queues runq).items
      ≡ (s.queues q).items ++ (s.queues runq).items
woken-order q t front s h e =
    ap₂ ◌++◌ (woken-items q t front s h) (woken-runq q t front s h)
    ∙ sym (append_assoc front (t ∷ []) (s.queues runq).items)
    ∙ ap (λ l. l ++ (s.queues runq).items) (sym e)

-- The loop empties the queue, when there are as many rounds as threads.
broadcast_rounds :
    (rounds q : ℕ) (s : Sched)
    → length (s.queues q).items ≤ rounds
    → Inv s
    → q ≢ runq
    → (s' : Sched) × (broadcast rounds q s ≡ some (true, s'))
      × ((s'.queues q).items ≡ [])
      × ((s'.queues runq).items ≡ (s.queues q).items ++ (s.queues runq).items)
      × Inv s'
unfolding broadcast
broadcast_rounds zero q s le v h =
    let e : (s.queues q).items ≡ [] = none_left (s.queues q).items le in
    (s, rw (queue_empty q s e), e, rw e, v)
broadcast_rounds (suc rounds) q s le v h = elim (List-cases (s.queues q).items) [
  | inl e ↦ (s, rw (queue_empty q s e, broadcast), e, rw e, v)
  | inr (front, t, e) ↦
      let (s', again, emptied, order, v') =
        broadcast_rounds rounds q (woken q t front s) (woken-length q t front s rounds h e le)
          (woken-Inv q t front s v e) h in
      (
        s',
        rw (queue_nonempty q front t s e, wake-tail q t front s v e h, broadcast) again,
        emptied,
        order ∙ woken-order q t front s h e,
        v',
      )
]

-- `sched_broadcast_on` wakes every thread of the queue and fails no assertion: the queue is empty
-- afterwards, and its threads stand on the run queue in the order in which they had slept, before
-- those that were there.
pub broadcast_wakes_all :
    (q : ℕ) (s : Sched)
    → Inv s
    → q ≢ runq
    → (s' : Sched) × (sched_broadcast_on q s ≡ some (true, s'))
      × ((s'.queues q).items ≡ [])
      × ((s'.queues runq).items ≡ (s.queues q).items ++ (s.queues runq).items)
      × Inv s'
unfolding sched_broadcast_on
broadcast_wakes_all q s v h = broadcast_rounds (length (s.queues q).items) q s (omega arith) v h
