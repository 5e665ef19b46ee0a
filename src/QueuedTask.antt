-- ===== src/QueuedTask.antt =====
-- core/queued_task.hpp, what `ProcessTasks` of core/task_queue_stdlib.cpp does with a task and the
-- destructor with the tasks that are left, and `PostTask` of a closure in core/task_queue.hpp. What
-- the closures do to the program is a function on its state.
pub mod Cleanup
use modern_signal_slot.Base.{ℕ, Bool, true, false, List, [], ◌∷◌, none, some, if◌then◌else◌}
use modern_signal_slot.TaskQueue.{
  DelayedEntryTimeout, TaskQueueStdlib, post_task, post_delayed_task, get_next_task, delete,
}
use modern_signal_slot.TaskQueue.History.{Event, posts, posts_delayed, fetches, deletes}

-- `ClosureTask`, `ClosureTaskWithCleanup`, and any other subclass, by its `run` and its destructor.
pub data QueuedTask (S : Type 0) : Type 0 where
  closure_task : (S → S) → QueuedTask S
  closure_task_with_cleanup : (S → S) → (S → S) → QueuedTask S
  other_task : (S → S × Bool) → (S → S) → QueuedTask S

module _ {S : Type 0} where
  -- `ToQueuedTask`
  unfoldable pub to_queued_task : (S → S) → QueuedTask S
  to_queued_task closure = closure_task closure

  unfoldable pub run : QueuedTask S → S → S × Bool
  run (closure_task closure) s = (closure s, true)
  run (closure_task_with_cleanup closure cleanup) s = (closure s, true)
  run (other_task f d) s = f s

  -- The destructor.
  unfoldable pub destroy : QueuedTask S → S → S
  destroy (closure_task closure) s = s
  destroy (closure_task_with_cleanup closure cleanup) s = cleanup s
  destroy (other_task f d) s = d s

  -- The worker deletes a task whose `run` returns true; of any other it has given up ownership.
  pub run_and_delete : QueuedTask S → S → S
  run_and_delete t s = let (s', over) = run t s in if over then destroy t s' else s'

  -- `TaskQueue::PostTask` and `PostDelayedTask` of a closure
  unfoldable pub post_closure :
      TaskQueueStdlib (QueuedTask S) → (S → S) → TaskQueueStdlib (QueuedTask S)
  unfolding to_queued_task
  post_closure q closure = post_task q (to_queued_task closure)

  unfoldable pub post_delayed_closure :
      TaskQueueStdlib (QueuedTask S) → (S → S) → ℕ → ℕ → TaskQueueStdlib (QueuedTask S)
  unfolding to_queued_task
  post_delayed_closure q closure delay now = post_delayed_task q (to_queued_task closure) delay now

-- The entries of the two queues, in a queue whose tasks are known by names.
module _ {S T : Type 0} (task : T → QueuedTask S) where
  -- What an event does to the queue and the program: at a fetch the worker takes a task, and has run
  -- and deleted it before it fetches again.
  pub process_event : TaskQueueStdlib T × S → Event T → TaskQueueStdlib T × S
  process_event (q, s) (posts t) = (post_task q t, s)
  process_event (q, s) (posts_delayed t delay now) = (post_delayed_task q t delay now, s)
  process_event (q, s) (fetches now) =
      let (next, q') = get_next_task q now in
      (q', elim next.run_task [ none ↦ s | some t ↦ run_and_delete (task t) s ])
  process_event (q, s) deletes = (delete q, s)

  pub process_events : TaskQueueStdlib T × S → List (Event T) → TaskQueueStdlib T × S
  process_events p [] = p
  process_events p (e ∷ es) = process_events (process_event p e) es

  pub destroy_delayed : List (DelayedEntryTimeout × T) → S → S
  destroy_delayed [] s = s
  destroy_delayed ((k, t) ∷ es) s = destroy_delayed es (destroy (task t) s)

  pub destroy_pending : List (ℕ × T) → S → S
  destroy_pending [] s = s
  destroy_pending ((o, t) ∷ es) s = destroy_pending es (destroy (task t) s)

  -- The members of a `TaskQueueStdlib` are destroyed in the reverse of their order.
  pub destroy_queue : TaskQueueStdlib T → S → S
  destroy_queue q s = destroy_pending q.pending_queue (destroy_delayed q.delayed_queue s)
