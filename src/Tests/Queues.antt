-- ===== src/Tests/Queues.antt =====
-- The task queue on histories of a few events. A task is a number.
use mathlib.Core.List.{Mem}
use modern_signal_slot.Base.{
  ℕ, ◌≡◌, ◌≢◌, ◌≤◌, refl, inl, true, false, List, [], ◌∷◌, ◌++◌, Perm, some, arith,
}
use modern_signal_slot.TaskQueue.{
  TaskQueueStdlib, DelayedEntryTimeout, empty_queue, get_next_task, next_of, take_pending, take_due,
  push_task, push_delayed_task, map_assign, notify_wake, process_next,
}
use modern_signal_slot.TaskQueue.History.{
  Event, posts, posts_delayed, fetches, run_events, tasks, run_events-fifo,
}
use modern_signal_slot.TaskQueue.Delayed.{Least}
use modern_signal_slot.TaskQueue.Fetch.{Beats}
use modern_signal_slot.TaskQueue.Valid.{IsValid, waiting}
use modern_signal_slot.TaskQueue.Conserve.{run_events-perm, delayed_in_time}
use modern_signal_slot.TaskQueue.Fair.{no_starvation}
use modern_signal_slot.TaskQueue.Worker.{
  System, initial, push, push_delayed, notify, fetch, after_fetch, Reach, start, next, sleeping,
  WillWake, no_lost_wakeup,
}

abbrev idle_queue : TaskQueueStdlib ℕ
idle_queue = record {
  notify_ready = false;
  thread_should_quit = false;
  thread_posting_order = 0;
  pending_queue = [];
  delayed_queue = [];
}

idle_queue-IsValid : IsValid idle_queue
idle_queue-IsValid = record { within = tt; sorted = tt }

-- A delayed task, posted first, a pending one, posted next, and a second delayed one.
abbrev two_delayed : List (DelayedEntryTimeout × ℕ)
two_delayed =
    (record { next_fire_at = 10; order = 1 }, 71)
    ∷ (record { next_fire_at = 2_000_000; order = 3 }, 73)
    ∷ []

abbrev busy_queue : TaskQueueStdlib ℕ
busy_queue = record {
  notify_ready = true;
  thread_should_quit = false;
  thread_posting_order = 3;
  pending_queue = (2, 72) ∷ [];
  delayed_queue = two_delayed;
}

busy_queue-IsValid : IsValid busy_queue
busy_queue-IsValid = record {
  within = (omega arith, (omega arith, tt));
  sorted = ((refl, tt), (tt, tt));
}

abbrev history : List (Event ℕ)
history = posts 5 ∷ posts_delayed 6 1 0 ∷ fetches 3 ∷ fetches 3 ∷ []

run_events-fifo_example :
    let (ran, q) = run_events idle_queue (posts 5 ∷ fetches 0 ∷ posts 6 ∷ []) in
    ran ++ tasks q.pending_queue ≡ 5 ∷ 6 ∷ []
run_events-fifo_example = run_events-fifo idle_queue (posts 5 ∷ fetches 0 ∷ posts 6 ∷ []) refl tt

run_events-perm_example :
    let (ran, q) = run_events busy_queue history in
    Perm (ran ++ waiting q) (72 ∷ 71 ∷ 73 ∷ 5 ∷ 6 ∷ [])
run_events-perm_example = run_events-perm busy_queue history (omega arith) busy_queue-IsValid

no_starvation_example : Mem 72 (run_events busy_queue (fetches 20 ∷ posts 5 ∷ fetches 20 ∷ [])).0
no_starvation_example =
    no_starvation busy_queue 2 72 [] (fetches 20 ∷ posts 5 ∷ fetches 20 ∷ []) refl (omega arith)
      refl tt (omega arith) (omega arith)

first_due :
    (get_next_task busy_queue 20).1.delayed_queue
    ≡ (record { next_fire_at = 2_000_000; order = 3 }, 73) ∷ []
unfolding get_next_task next_of take_due take_pending
first_due = refl

delayed_in_time_example :
    ((get_next_task busy_queue 20).0.run_task ≡ some 71)
    × (10 ≤ 20)
    × Least {T = ℕ}
        (record { next_fire_at = 10; order = 1 })
        ((record { next_fire_at = 2_000_000; order = 3 }, 73) ∷ [])
    × Beats {T = ℕ} ((2, 72) ∷ []) 1
delayed_in_time_example =
    delayed_in_time busy_queue 20 (record { next_fire_at = 10; order = 1 }) 71
      ((record { next_fire_at = 2_000_000; order = 3 }, 73) ∷ []) busy_queue-IsValid refl first_due

-- A delayed task is posted, the worker fetches and waits, and another task is posted.
abbrev posted_delayed : System ℕ
posted_delayed = record initial { queue = push_delayed_task initial.queue 7 5 0; signalling = 1 }

abbrev notified : System ℕ
notified = record posted_delayed { queue = notify_wake posted_delayed.queue; signalling = 0 }

abbrev waiting_worker : System ℕ
waiting_worker = record notified { queue = (get_next_task notified.queue 0).1; pc = sleeping 5 }

abbrev pushed : System ℕ
pushed = record waiting_worker { queue = push_task waiting_worker.queue 8; signalling = 1 }

fetched : waiting_worker ≡ record notified {
  queue = (get_next_task notified.queue 0).1;
  pc = after_fetch (process_next (get_next_task notified.queue 0).0);
}
unfolding get_next_task next_of take_due take_pending push_delayed_task notify_wake process_next
    empty_queue map_assign
fetched = refl

pushed-Reach : Reach pushed
pushed-Reach =
    next {s = waiting_worker}
      (next {s = notified}
        (next {s = posted_delayed} (next {s = initial} start (push_delayed 7 5 0 refl))
          (notify 0 refl refl))
        (fetch 0 refl fetched))
      (push 8 refl)

some_pending : pushed.queue.pending_queue ≢ []
unfolding get_next_task next_of take_due take_pending push_task push_delayed_task notify_wake
    empty_queue map_assign
some_pending e = ground arith

no_lost_wakeup_example : WillWake pushed
no_lost_wakeup_example = no_lost_wakeup 5 pushed-Reach refl (inl some_pending)
