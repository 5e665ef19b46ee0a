-- ===== src/TaskQueue/Worker.antt =====
-- The worker's loop, `ProcessTasks`, against threads that post: the steps that one of the two
-- mutexes makes atomic, in any order. A thread that posts first changes the queue under
-- `pending_lock_` and then, in `NotifyWake`, sets the flag; in between others may run.
use modern_signal_slot.Base.{
  ℕ, suc, ◌-◌, ◌/◌, ◌≡◌, ◌≢◌, refl, ◌<◌, ◌⊎◌, inl, inr, true, false, List, [], ◌∷◌, arith, ltb,
  if◌then◌else◌,
}
use modern_signal_slot.TaskQueue.{
  TaskQueueStdlib, DelayedEntryTimeout, get_next_task, next_of, take_pending, push_task,
  push_delayed_task, set_quit, notify_wake, end_wait, Round, quits, runs, waits, spins,
  process_next, empty_queue, ticks_per_ms,
}
use modern_signal_slot.TaskQueue.Fetch.{stopped, pending, fired, idle, get_next_task-Fetch}

module _ {ℓ} {T : Type ℓ} where
  -- When the first delayed task's time is still to come and nothing else is queued, the worker waits
  -- for the whole milliseconds up to that time, and goes on at once if there are none.
  pub idle_waits :
      (q : TaskQueueStdlib T) (now : ℕ)
      → q.thread_should_quit ≡ false
      → q.pending_queue ≡ []
      → (info : DelayedEntryTimeout) (t : T) (rest : List (DelayedEntryTimeout × T))
      → q.delayed_queue ≡ (info, t) ∷ rest
      → now < info.next_fire_at
      → process_next (get_next_task q now).0 ≡ (
          if ltb (info.next_fire_at - now) ticks_per_ms
          then spins
          else waits ((info.next_fire_at - now) / ticks_per_ms))
  unfolding get_next_task next_of take_pending process_next
  idle_waits q now run p info t rest d early = ground arith

-- Where the worker is: about to fetch, in a task's `run`, in `wait_for`, or behind the loop.
pub data Pc {ℓ} (T : Type ℓ) : Type ℓ where
  fetching : Pc T
  running : T → Pc T
  sleeping : ℕ → Pc T
  ended : Pc T

abbrev pub after_fetch {ℓ} : {T : Type ℓ} → Round T → Pc T
after_fetch quits = ended
after_fetch (runs t) = running t
after_fetch (waits n) = sleeping n
after_fetch spins = fetching

-- `signalling` counts the threads between their section under the lock and `NotifyWake`.
pub record System {ℓ} (T : Type ℓ) : Type ℓ where
  pub queue : TaskQueueStdlib T
  pub pc : Pc T
  pub signalling : ℕ

module _ {ℓ} {T : Type ℓ} where
  pub data Step (s u : System T) : Type ℓ where
    push :
        (t : T)
        → u ≡ record s { queue = push_task s.queue t; signalling = suc s.signalling }
        → Step s u
    push_delayed :
        (t : T) (delay now : ℕ)
        → u ≡ record s {
          queue = push_delayed_task s.queue t delay now;
          signalling = suc s.signalling;
        }
        → Step s u
    begin_delete :
        u ≡ record s { queue = set_quit s.queue; signalling = suc s.signalling } → Step s u
    notify :
        (n : ℕ)
        → s.signalling ≡ suc n
        → u ≡ record s { queue = notify_wake s.queue; signalling = n }
        → Step s u
    fetch :
        (now : ℕ)
        → s.pc ≡ fetching
        → u ≡ record s {
          queue = (get_next_task s.queue now).1;
          pc = after_fetch (process_next (get_next_task s.queue now).0);
        }
        → Step s u
    finish : (t : T) → s.pc ≡ running t → u ≡ record s { pc = fetching } → Step s u
    wake :
        (n : ℕ)
        → s.pc ≡ sleeping n
        → s.queue.notify_ready ≡ true
        → u ≡ record s { queue = end_wait s.queue; pc = fetching }
        → Step s u
    time_out :
        (n : ℕ)
        → s.pc ≡ sleeping n
        → u ≡ record s { queue = end_wait s.queue; pc = fetching }
        → Step s u

  abbrev pub initial : System T
  initial = record { queue = empty_queue; pc = fetching; signalling = 0 }

  pub data Reach : System T → Type ℓ where
    start : Reach initial
    next : {s u : System T} → Reach s → Step s u → Reach u

  -- A sleeping worker that has something to do will be woken: the flag is set, or a thread is about
  -- to set it.
  abbrev pub WillWake : System T → Type 0
  WillWake s = (s.queue.notify_ready ≡ true) ⊎ (0 < s.signalling)

  abbrev Inv : System T → Type ℓ
  Inv s =
      (n : ℕ)
      → s.pc ≡ sleeping n
      → ((s.queue.pending_queue ≡ []) × (s.queue.thread_should_quit ≡ false)) ⊎ WillWake s

  fetch-Inv :
      (q : TaskQueueStdlib T) (now k n : ℕ)
      → after_fetch (process_next (get_next_task q now).0) ≡ sleeping n
      → ((get_next_task q now).1.pending_queue ≡ [])
        × ((get_next_task q now).1.thread_should_quit ≡ false)
  unfolding process_next
  fetch-Inv q now k n h = elim (get_next_task-Fetch q now) [
    | stopped stop f r e ↦ ground (arith, f)
    | pending o t rest run p y f r e ↦ ground (arith, f, r)
    | fired info t rest run d due b f r e ↦ ground (arith, f, r)
    | idle run p i f r e ↦ rw e (p, run)
  ]

  Step-Inv : {s u : System T} → Step s u → Inv s → Inv u
  unfolding push_task push_delayed_task set_quit notify_wake end_wait
  Step-Inv (push t e) inv n h = rw e (inr (inr (omega arith)))
  Step-Inv (push_delayed t delay now e) inv n h = rw e (inr (inr (omega arith)))
  Step-Inv (begin_delete e) inv n h = rw e (inr (inr (omega arith)))
  Step-Inv (notify m some_left e) inv n h = rw e (inr (inl refl))
  Step-Inv (fetch now at e) inv n h = rw e (inl (fetch-Inv _ now 0 n (rw e at h)))
  Step-Inv (finish t at e) inv n h = cc
  Step-Inv (wake m at flag e) inv n h = cc
  Step-Inv (time_out m at e) inv n h = cc

  Reach-Inv : {s : System T} → Reach s → Inv s
  Reach-Inv start = λ n h. cc
  Reach-Inv (next r st) = Step-Inv st (Reach-Inv r)

  -- No wake-up is lost: in every state that the worker and the posting threads can reach, if the
  -- worker waits although a task is pending or the queue is being deleted, then the flag that ends
  -- the wait is set, or a thread is between its section under the lock and setting that flag.
  pub no_lost_wakeup :
      {s : System T} (n : ℕ)
      → Reach s
      → s.pc ≡ sleeping n
      → (s.queue.pending_queue ≢ []) ⊎ (s.queue.thread_should_quit ≡ true)
      → WillWake s
  no_lost_wakeup n r at work = elim (Reach-Inv r n at) [
    | inl nothing ↦ elim work [
      | inl some_pending ↦ absurd (some_pending nothing.0)
      | inr stop ↦ absurd (cc (nothing.1))
    ]
    | inr soon ↦ soon
  ]
