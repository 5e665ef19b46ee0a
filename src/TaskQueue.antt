-- ===== src/TaskQueue.antt =====
-- core/task_queue_stdlib.hpp and core/task_queue_stdlib.cpp: the worker's two queues. Each function
-- below is what runs under `pending_lock_`, so a history of the queue is a sequence of them. A task
-- is of any type; the clock's readings are arguments, in its ticks of a nanosecond.
pub mod Fetch
pub mod Delayed
pub mod Valid
pub mod Conserve
pub mod Fair
pub mod Worker
pub mod Quit
pub mod History
pub mod Sleep
pub mod Start
pub mod Join
use modern_signal_slot.Base.{
  ℕ, ◌+◌, ◌-◌, ◌*◌, ◌/◌, ◌%◌, ◌^◌, Bool, true, false, ◌&&◌, ◌||◌, List, [], ◌∷◌, ◌++◌, Option, none,
  some, ltb, leb, ◌==◌, if◌then◌else◌,
}

-- `DelayedEntryTimeout`
pub record DelayedEntryTimeout : Type 0 where
  pub next_fire_at : ℕ
  pub order : ℕ

-- `operator<`: the lexicographic order of `std::tie`.
abbrev pub before : DelayedEntryTimeout → DelayedEntryTimeout → Bool
before a b =
    ltb a.next_fire_at b.next_fire_at || (a.next_fire_at == b.next_fire_at && ltb a.order b.order)

abbrev pub ticks_per_ms : ℕ
ticks_per_ms = 1_000_000

-- `OrderId` is `uint64_t`.
abbrev pub order_limit : ℕ
order_limit = 2 ^ 64

-- `++thread_posting_order_`
abbrev pub next_order : ℕ → ℕ
next_order n = (n + 1) % order_limit

module _ {ℓ} (T : Type ℓ) where
  pub record TaskQueueStdlib : Type ℓ where
    pub notify_ready : Bool
    pub thread_should_quit : Bool
    pub thread_posting_order : ℕ
    pub pending_queue : List (ℕ × T)
    pub delayed_queue : List (DelayedEntryTimeout × T)

  -- `NextTask`; `sleep_time` counts milliseconds.
  pub record NextTask : Type ℓ where
    pub final_task : Bool
    pub run_task : Option T
    pub sleep_time : ℕ

module _ {ℓ} {T : Type ℓ} where
  unfoldable pub empty_queue : TaskQueueStdlib T
  empty_queue = record {
    notify_ready = false;
    thread_should_quit = false;
    thread_posting_order = 0;
    pending_queue = [];
    delayed_queue = [];
  }

  -- The part of `NotifyWake` that changes state.
  unfoldable pub notify_wake : TaskQueueStdlib T → TaskQueueStdlib T
  notify_wake q = record q { notify_ready = true }

  -- `PostTask`: its section under the lock, and the whole.
  unfoldable pub push_task : TaskQueueStdlib T → T → TaskQueueStdlib T
  push_task q task =
      let order = next_order q.thread_posting_order in
      record q {
        thread_posting_order = order;
        pending_queue = q.pending_queue ++ (order, task) ∷ [];
      }

  unfoldable pub post_task : TaskQueueStdlib T → T → TaskQueueStdlib T
  unfolding notify_wake push_task
  post_task q task = notify_wake (push_task q task)

  -- `delayed_queue_[key] = task`, in a `std::map`, whose entries stand in the order of their keys.
  unfoldable pub map_assign :
      List (DelayedEntryTimeout × T) → DelayedEntryTimeout → T → List (DelayedEntryTimeout × T)
  map_assign [] key task = (key, task) ∷ []
  map_assign ((k, t) ∷ rest) key task =
      let later = map_assign rest key task in
      if before k key
      then (k, t) ∷ later
      else if before key k
      then (key, task) ∷ (k, t) ∷ rest
      else (k, task) ∷ rest

  -- `PostDelayedTask` at the time `now`, with the delay in milliseconds.
  unfoldable pub push_delayed_task : TaskQueueStdlib T → T → ℕ → ℕ → TaskQueueStdlib T
  push_delayed_task q task delay now =
      let order = next_order q.thread_posting_order in
      let entry : DelayedEntryTimeout = record {
        next_fire_at = now + delay * ticks_per_ms;
        order = order;
      } in
      record q {
        thread_posting_order = order;
        delayed_queue = map_assign q.delayed_queue entry task;
      }

  unfoldable pub post_delayed_task : TaskQueueStdlib T → T → ℕ → ℕ → TaskQueueStdlib T
  unfolding notify_wake push_delayed_task
  post_delayed_task q task delay now = notify_wake (push_delayed_task q task delay now)

  unfoldable pub post_delayed_high_precision_task :
      TaskQueueStdlib T → T → ℕ → ℕ → TaskQueueStdlib T
  post_delayed_high_precision_task q task delay now = post_delayed_task q task delay now

  -- The state change of `Delete`: the worker then ends, and the destructor joins it.
  unfoldable pub set_quit : TaskQueueStdlib T → TaskQueueStdlib T
  set_quit q = record q { thread_should_quit = true }

  unfoldable pub delete : TaskQueueStdlib T → TaskQueueStdlib T
  unfolding notify_wake set_quit
  delete q = notify_wake (set_quit q)

  abbrev pub no_task : ℕ → NextTask T
  no_task sleep = record { final_task = false; run_task = none; sleep_time = sleep }

  abbrev pub run_it : T → ℕ → NextTask T
  run_it t sleep = record { final_task = false; run_task = some t; sleep_time = sleep }

  -- The end of `GetNextTask`: the front of the pending queue, if any.
  unfoldable pub take_pending :
      TaskQueueStdlib T → List (ℕ × T) → ℕ → NextTask T × TaskQueueStdlib T
  take_pending q [] sleep = (no_task sleep, q)
  take_pending q ((o, t) ∷ rest) sleep = (run_it t sleep, record q { pending_queue = rest })

  -- The branch in which the first delayed entry is due.
  unfoldable pub take_due :
      TaskQueueStdlib T
      → List (ℕ × T)
      → DelayedEntryTimeout
      → T
      → List (DelayedEntryTimeout × T)
      → NextTask T × TaskQueueStdlib T
  take_due q [] info run rest = (run_it run 0, record q { delayed_queue = rest })
  take_due q ((o, t) ∷ pending) info run rest =
      if ltb o info.order
      then (run_it t 0, record q { pending_queue = pending })
      else (run_it run 0, record q { delayed_queue = rest })

  unfoldable pub next_of :
      TaskQueueStdlib T → List (DelayedEntryTimeout × T) → ℕ → NextTask T × TaskQueueStdlib T
  next_of q [] now = take_pending q q.pending_queue 0
  next_of q ((info, run) ∷ rest) now =
      if leb info.next_fire_at now
      then take_due q q.pending_queue info run rest
      else take_pending q q.pending_queue ((info.next_fire_at - now) / ticks_per_ms)

  unfoldable pub get_next_task : TaskQueueStdlib T → ℕ → NextTask T × TaskQueueStdlib T
  get_next_task q now =
      if q.thread_should_quit
      then (record { final_task = true; run_task = none; sleep_time = 0 }, q)
      else next_of q q.delayed_queue now

  -- The end of a wait of `ProcessTasks`.
  pub end_wait : TaskQueueStdlib T → TaskQueueStdlib T
  end_wait q = record q { notify_ready = false }

-- What the loop of `ProcessTasks` does with what `GetNextTask` returned: it ends, runs a task,
-- waits for at most some milliseconds, or goes on at once.
pub data Round {ℓ} (T : Type ℓ) : Type ℓ where
  quits : Round T
  runs : T → Round T
  waits : ℕ → Round T
  spins : Round T

unfoldable pub process_next {ℓ} : {T : Type ℓ} → NextTask T → Round T
process_next next = if next.final_task then quits else elim next.run_task [
  | some t ↦ runs t
  | none ↦ if ltb 0 next.sleep_time then waits next.sleep_time else spins
]
