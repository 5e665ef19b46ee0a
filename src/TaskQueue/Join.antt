-- ===== src/TaskQueue/Join.antt =====
-- The end of the worker that the destructor of `TaskQueueStdlib` waits for, after `Delete`.
use modern_signal_slot.Base.{
  ℕ, suc, ◌+◌, ◌≤◌, ◌≡◌, refl, ◌⊎◌, inl, inr, Bool, true, false, arith, if◌then◌else◌,
}
use modern_signal_slot.TaskQueue.{
  TaskQueueStdlib, get_next_task, push_task, push_delayed_task, set_quit, notify_wake, end_wait,
}
use modern_signal_slot.TaskQueue.Sleep.{fetch_quits}
use modern_signal_slot.TaskQueue.Worker.{
  Pc, fetching, running, sleeping, ended, System, Step, push, push_delayed, begin_delete, notify,
  fetch, finish, wake, time_out,
}

module _ {ℓ} {T : Type ℓ} where
  -- A step of the worker, and not of a thread that posts or deletes.
  abbrev pub is_work : {s u : System T} → Step s u → Bool
  is_work (push t e) = false
  is_work (push_delayed t delay now e) = false
  is_work (begin_delete e) = false
  is_work (notify n some_left e) = false
  is_work (fetch now at e) = true
  is_work (finish t at e) = true
  is_work (wake n at flag e) = true
  is_work (time_out n at e) = true

  -- How many steps the worker of a queue that has been told to quit still makes.
  abbrev pub left : Pc T → ℕ
  left fetching = 1
  left (running t) = 2
  left (sleeping n) = 2
  left ended = 0

  -- A run of any threads, with the number of steps that the worker makes in it.
  pub data Run : System T → System T → ℕ → Type ℓ where
    rests : {s : System T} → Run s s 0
    goes :
        {s u v : System T} {n : ℕ} (st : Step s u)
        → Run u v n
        → Run s v (if is_work st then suc n else n)

  fetch_stays :
      (q : TaskQueueStdlib T) (now : ℕ)
      → q.thread_should_quit ≡ true
      → (get_next_task q now).1.thread_should_quit ≡ true
  unfolding get_next_task
  fetch_stays q now quit = ground arith

  Step-quit :
      {s u : System T}
      → Step s u
      → s.queue.thread_should_quit ≡ true
      → u.queue.thread_should_quit ≡ true
  unfolding push_task push_delayed_task set_quit notify_wake end_wait
  Step-quit (push t e) quit = rw e quit
  Step-quit (push_delayed t delay now e) quit = rw e quit
  Step-quit (begin_delete e) quit = rw e refl
  Step-quit (notify n some_left e) quit = rw e quit
  Step-quit (fetch now at e) quit = rw e (fetch_stays _ now quit)
  Step-quit (finish t at e) quit = rw e quit
  Step-quit (wake n at flag e) quit = rw e quit
  Step-quit (time_out n at e) quit = rw e quit

  Step-left :
      {s u : System T} (st : Step s u)
      → s.queue.thread_should_quit ≡ true
      → (if is_work st then suc (left u.pc) else left u.pc) ≤ left s.pc
  Step-left (push t e) quit = rw e (omega arith)
  Step-left (push_delayed t delay now e) quit = rw e (omega arith)
  Step-left (begin_delete e) quit = rw e (omega arith)
  Step-left (notify n some_left e) quit = rw e (omega arith)
  Step-left {s} (fetch now at e) quit = rw (e, at, fetch_quits s.queue now quit) (omega arith)
  Step-left (finish t at e) quit = rw (e, at) (omega arith)
  Step-left (wake n at flag e) quit = rw (e, at) (omega arith)
  Step-left (time_out n at e) quit = rw (e, at) (omega arith)

  left-most : (pc : Pc T) → left pc ≤ 2
  left-most fetching = omega arith
  left-most (running t) = omega arith
  left-most (sleeping n) = omega arith
  left-most ended = omega arith

  abbrev pub CanWork : System T → Type ℓ
  CanWork s = (u : System T) × (st : Step s u) × (is_work st ≡ true)

  works_on : (s : System T) (pc : Pc T) → s.pc ≡ pc → (s.pc ≡ ended) ⊎ CanWork s
  works_on s fetching at = inr (_, fetch 0 at refl, refl)
  works_on s (running t) at = inr (_, finish t at refl, refl)
  works_on s (sleeping n) at = inr (_, time_out n at refl, refl)
  works_on s ended at = inl at

  -- Once a queue has been told to quit, its worker makes at most two more steps, in whatever order
  -- other threads post, notify and delete in between: at most as many as are left at the start, less
  -- those left at the end. And it never gets stuck on the way: it has ended, or has a step to make.
  -- So the `join` of the destructor returns, if the task that runs does.
  pub quit_ends :
      {s u : System T} {n : ℕ}
      → Run s u n
      → s.queue.thread_should_quit ≡ true
      → (n + left u.pc ≤ left s.pc) × (left s.pc ≤ 2) × ((u.pc ≡ ended) ⊎ CanWork u)
  quit_ends {s} rests quit = (omega arith, left-most s.pc, works_on s s.pc refl)
  quit_ends {s} (goes st r) quit =
      let (few, most, end) = quit_ends r (Step-quit st quit) in
      (ground (arith, Step-left st quit, few), left-most s.pc, end)
