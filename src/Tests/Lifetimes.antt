-- ===== src/Tests/Lifetimes.antt =====
-- Lives of tasks, slots and worker threads.
use modern_signal_slot.Base.{
  ℕ, ◌+◌, ◌≤◌, ◌⊎◌, ◌≡◌, refl, Bool, true, false, List, [], ◌∷◌, Perm, arith, some, ◌==◌,
  if◌then◌else◌,
}
use modern_signal_slot.Slot.{Body}
use modern_signal_slot.World.{World, disconnect_slot}
use modern_signal_slot.Call.{emit}
use modern_signal_slot.Call.Alive.{Outcome, watching, all_alive, emit-alive, disconnect_slot-held}
use modern_signal_slot.Connection.{connected, disconnect_observer}
use modern_signal_slot.Connection.Observer.{disconnect_observer_lem}
use modern_signal_slot.TaskQueue.{empty_queue, end_wait, get_next_task, process_next}
use modern_signal_slot.TaskQueue.Worker.{
  System, sleeping, fetching, ended, after_fetch, wake, fetch,
}
use modern_signal_slot.TaskQueue.Join.{Run, goes, rests, left, CanWork, quit_ends}
use modern_signal_slot.TaskQueue.History.{Event, posts, posts_delayed, fetches, deletes, run_events}
use modern_signal_slot.TaskQueue.Start.{
  Starting, Reach, start, next, make_lock, make_return, work_current, work_lock, work_store,
  work_notify, returned, processing, locking, CanReturn, can_return,
}
use modern_signal_slot.QueuedTask.{process_events, destroy_queue}
use modern_signal_slot.QueuedTask.Cleanup.{in_turn, runs, cleanups, noting, cleaned_once}
use modern_signal_slot.Tests.Data.{one_signal}

-- One task runs, two are left, a delayed one among them.
abbrev some_events : List (Event ℕ)
some_events = posts 70 ∷ posts 71 ∷ posts_delayed 72 5 9 ∷ fetches 10 ∷ deletes ∷ fetches 11 ∷ []

cleaned_once_example :
    let task = noting (λ n u. u + n) in
    let (q, s) = process_events task (empty_queue, (3, [])) some_events in
    let log = (destroy_queue task q s).1 in
    (s.1 ≡ in_turn (run_events empty_queue some_events).0)
    × (runs log ≡ (run_events empty_queue some_events).0)
    × Perm (cleanups log) (70 ∷ 71 ∷ 72 ∷ [])
unfolding empty_queue
cleaned_once_example = cleaned_once (λ n u. u + n) some_events 3 (omega arith)

abbrev watched_signal : World ℕ (ℕ × Bool)
watched_signal = record {
  slots = one_signal.slots;
  allocated = one_signal.allocated;
  signals = one_signal.signals;
  signal_count = one_signal.signal_count;
  held = one_signal.held;
  objects = one_signal.objects;
  observers = one_signal.observers;
  queues = one_signal.queues;
  current = one_signal.current;
  promises = one_signal.promises;
  fulfilled = one_signal.fulfilled;
  user = (0, true);
}

-- Every function disconnects slot 2.
abbrev cut : Body → ℕ → World ℕ (ℕ × Bool) → World ℕ (ℕ × Bool)
cut b args w = (disconnect_slot w 2).0

emit-alive_example :
    Outcome
      (λ v. (v.user.1 ≡ true) × (v.held ≡ watched_signal.held))
      (λ v. (v.user.1 ≡ true) × (all_alive v (0 ∷ 1 ∷ 2 ∷ []) ≡ true))
      (emit true (watching cut (0 ∷ 1 ∷ 2 ∷ [])) watched_signal 0 4)
emit-alive_example =
    emit-alive true cut (λ b args w. disconnect_slot-held w 2) watched_signal 0 4 refl

-- The thread has the lock first, and notifies before the constructor waits.
abbrev notified_early : Starting
notified_early = record {
  maker = locking;
  worker = processing;
  locked = false;
  started = true;
  current_set = true;
}

notified_early-Reach : Reach notified_early
notified_early-Reach =
    next
      (next (next (next start (work_current refl refl)) (work_lock refl refl refl))
        (work_store refl refl))
      (work_notify refl refl)

can_return_example : CanReturn notified_early
can_return_example = can_return notified_early-Reach

made-Reach : Reach (record notified_early { maker = returned })
made-Reach =
    next (next notified_early-Reach (make_lock refl refl refl)) (make_return refl refl refl)

-- Observer 7 keeps the connections of slots 0 and 2, that of slot 0 twice.
abbrev observed : World ℕ (List ℕ)
observed = record one_signal {
  observers = λ o. if o == 7 then some 0 ∷ some 2 ∷ some 0 ∷ [] else [];
}

disconnect_observer_lem_example :
    let v = disconnect_observer observed 7 in (connected v (some 0) ≡ false) × (v.observers 7 ≡ [])
disconnect_observer_lem_example = disconnect_observer_lem observed 7 2 0 refl

-- The worker waits, and the queue has been told to quit.
abbrev quitting : System ℕ
quitting = record {
  queue = record empty_queue { notify_ready = true; thread_should_quit = true };
  pc = sleeping 2;
  signalling = 0;
}

abbrev awake : System ℕ
awake = record quitting { queue = end_wait quitting.queue; pc = fetching }

abbrev joined : System ℕ
joined = record awake {
  queue = (get_next_task awake.queue 9).1;
  pc = after_fetch (process_next (get_next_task awake.queue 9).0);
}

last_steps : Run quitting joined 2
last_steps = goes (wake 2 refl refl refl) (goes {n = 0} (fetch 9 refl refl) rests)

quit_ends_example : (2 + left joined.pc ≤ 2) × (2 ≤ 2) × ((joined.pc ≡ ended) ⊎ CanWork joined)
quit_ends_example = quit_ends last_steps refl
