-- ===== src/Thread.antt =====
-- core/task_queue_base.cpp and core/task_queue.cpp, the queue that a thread runs, and one turn of a
-- queue's worker (`ProcessTasks` of core/task_queue_stdlib.cpp) on the shared state.
pub mod Blocking
use modern_signal_slot.Base.{ℕ, Bool, true, false, Option, none, some, ◌==◌, if◌then◌else◌}
use modern_signal_slot.Slot.{Body}
use modern_signal_slot.TaskQueue.{
  TaskQueueStdlib, NextTask, Round, quits, runs, waits, spins, get_next_task, process_next, delete,
  push_task, post_task, post_delayed_task,
}
use modern_signal_slot.World.{World, Task}
use modern_signal_slot.Call.{run_closure}

module _ {A U : Type 0} where
  -- The constructor of `CurrentTaskQueueSetter`, with what it keeps, and its destructor.
  pub set_current : World A U → ℕ → World A U × Option ℕ
  set_current w q = (record w { current = some q }, w.current)

  pub reset_current : World A U → Option ℕ → World A U
  reset_current w previous = record w { current = previous }

  -- `IsCurrent`
  unfoldable pub queue_is_current : World A U → ℕ → Bool
  queue_is_current w q = elim w.current [ none ↦ false | some c ↦ c == q ]

  abbrev pub set_queue : World A U → ℕ → TaskQueueStdlib (Task A) → World A U
  set_queue w q s = record w { queues = λ r. if q == r then s else w.queues r }

module _ {A U : Type 0} (user_code : Body → A → World A U → World A U) where
  -- What one turn of the loop does with what `GetNextTask` returned.
  unfoldable pub serve : World A U → Round (Task A) → World A U
  serve w quits = w
  serve w (runs t) = run_closure user_code w t
  serve w (waits n) = w
  serve w spins = w

  -- One turn of the worker of the queue `q` in its own thread, at the time `now`. Between turns
  -- other threads may run.
  unfoldable pub turn : World A U → ℕ → ℕ → World A U
  unfolding serve set_current reset_current
  turn w q now =
      let (next, s) = get_next_task (w.queues q) now in
      let (w', previous) = set_current (set_queue w q s) q in
      reset_current (serve w' (process_next next)) previous
