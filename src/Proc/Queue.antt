-- ===== src/Proc/Queue.antt =====
-- kernel/proc/sched.c: threads and their queues.
-- The kernel is not preempted, so an operation is one step up to its `sched_switch`.
use kernel.Base.{
  ℕ, ◌+◌, ◌-◌, Bool, true, false, List, [], ◌∷◌, Option, none, some, ◌==◌, if◌then◌else◌,
  remove_item, update, is_none, take_last,
}

-- `kt_state`
pub data ThreadState : Type 0 where
  no_state run sleep sleep_cancellable exited : ThreadState

-- `kthread_t`; `wchan` is the number of the queue that the thread is on, none for NULL.
pub record Thread : Type 0 where
  pub state : ThreadState
  pub cancelled : Bool
  pub wchan : Option ℕ

-- `ktqueue_t`, from the head of its list to the tail.
pub record Queue : Type 0 where
  pub items : List ℕ
  pub size : ℕ

-- Threads and queues by number, and `curthr`.
pub record Sched : Type 0 where
  pub threads : ℕ → Thread
  pub queues : ℕ → Queue
  pub current : ℕ

-- The number of `kt_runq`.
abbrev pub runq : ℕ
runq = 0

abbrev pub set_thread : ℕ → Thread → Sched → Sched
set_thread t th s = record s { threads = update s.threads t th }

abbrev pub set_queue : ℕ → Queue → Sched → Sched
set_queue q x s = record s { queues = update s.queues q x }

abbrev pub set_cancelled : ℕ → Sched → Sched
set_cancelled t s = set_thread t (record (s.threads t) { cancelled = true }) s

abbrev pub is_on : ℕ → Option ℕ → Bool
is_on q none = false
is_on q (some p) = p == q

-- `sched_queue_empty`
unfoldable pub sched_queue_empty : ℕ → Sched → Bool
sched_queue_empty q s = elim (s.queues q).items [ [] ↦ true | _ ↦ false ]

abbrev pub enqueued : ℕ → ℕ → Sched → Sched
enqueued q t s =
    set_queue q (record { items = t ∷ (s.queues q).items; size = (s.queues q).size + 1 })
      (set_thread t (record (s.threads t) { wchan = some q }) s)

-- `ktqueue_enqueue`; none is a failed assertion.
unfoldable pub ktqueue_enqueue : ℕ → ℕ → Sched → Option Sched
ktqueue_enqueue q t s = if is_none (s.threads t).wchan then some (enqueued q t s) else none

abbrev pub dequeued : ℕ → ℕ → List ℕ → Sched → Sched
dequeued q last front s =
    set_queue q (record { items = front; size = (s.queues q).size - 1 })
      (set_thread last (record (s.threads last) { wchan = none }) s)

-- `ktqueue_dequeue`; the thread is none for NULL.
unfoldable pub ktqueue_dequeue : ℕ → Sched → Option ℕ × Sched
unfolding take_last
ktqueue_dequeue q s = elim (s.queues q).items [
  | [] ↦ (none, s)
  | t ∷ rest ↦ let (last, front) = take_last t rest in (some last, dequeued q last front s)
]

-- `ktqueue_remove`; the thread's links are set while it is on a queue.
unfoldable pub ktqueue_remove : ℕ → ℕ → Sched → Sched
unfolding remove_item
ktqueue_remove q t s =
    set_queue q (record { items = remove_item t (s.queues q).items; size = (s.queues q).size - 1 })
      (set_thread t (record (s.threads t) { wchan = none }) s)
