-- ===== src/TaskQueue/Quit.antt =====
-- `Delete`: what the worker does once the queue is told to quit.
use mathlib.Core.List.{append_assoc, append-nil}
use modern_signal_slot.Base.{◌≡◌, refl, true, List, [], ◌∷◌, ◌++◌, sym, ap, ◌∙◌, arith}
use modern_signal_slot.TaskQueue.{
  TaskQueueStdlib, get_next_task, post_task, post_delayed_task, delete,
}
use modern_signal_slot.TaskQueue.History.{
  Event, posts, posts_delayed, fetches, deletes, step, run_events,
}

module _ {ℓ} {T : Type ℓ} where
  stays_quit :
      (q : TaskQueueStdlib T) (e : Event T)
      → q.thread_should_quit ≡ true
      → ((step q e).0 ≡ []) × ((step q e).1.thread_should_quit ≡ true)
  unfolding step post_task post_delayed_task delete get_next_task
  stays_quit q (posts t) stop = (refl, stop)
  stays_quit q (posts_delayed t delay now) stop = (refl, stop)
  stays_quit q (fetches now) stop = ground arith
  stays_quit q deletes stop = (refl, refl)

  quit_runs_nothing :
      (q : TaskQueueStdlib T) (es : List (Event T))
      → q.thread_should_quit ≡ true
      → (run_events q es).0 ≡ []
  unfolding run_events
  quit_runs_nothing q [] stop = refl
  quit_runs_nothing q (e ∷ es) stop =
      let (none_now, stop') = stays_quit q e stop in
      rw (none_now, quit_runs_nothing (step q e).1 es stop') refl

  run_events-append :
      (q : TaskQueueStdlib T) (es fs : List (Event T))
      → (run_events q (es ++ fs)).0 ≡ (run_events q es).0 ++ (run_events (run_events q es).1 fs).0
  unfolding run_events
  run_events-append q [] fs = refl
  run_events-append q (e ∷ es) fs =
      rw (run_events-append (step q e).1 es fs) (sym (append_assoc (step q e).0 _ _))

  -- Once a queue is told to quit, nothing runs any more: whatever is posted or fetched after the
  -- delete, the tasks that a history runs are those that it ran before it.
  pub delete-run_events :
      (q : TaskQueueStdlib T) (es fs : List (Event T))
      → (run_events q (es ++ deletes ∷ fs)).0 ≡ (run_events q es).0
  unfolding run_events step delete
  delete-run_events q es fs =
      run_events-append q es (deletes ∷ fs)
      ∙ ap (◌++◌ (run_events q es).0) (quiet (run_events q es).1)
      ∙ append-nil _
    where
      quiet : (p : TaskQueueStdlib T) → (run_events p (deletes ∷ fs)).0 ≡ []
      quiet p = quit_runs_nothing (delete p) fs refl
