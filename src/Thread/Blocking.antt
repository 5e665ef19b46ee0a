-- ===== src/Thread/Blocking.antt =====
-- A blocking call and the worker that it waits for.
use modern_signal_slot.Base.{
  ℕ, ◌+◌, ◌≡◌, refl, ◌∙◌, Bool, true, false, List, [], ◌∷◌, some, arith, ==-refl,
}
use modern_signal_slot.Slot.{Body, blocking_queued_connection}
use modern_signal_slot.TaskQueue.{
  TaskQueueStdlib, get_next_task, next_of, take_pending, push_task, post_task, notify_wake, delete,
  set_quit, process_next, runs,
}
use modern_signal_slot.World.{World, Task, blocking}
use modern_signal_slot.Call.{
  Called, done, waits, faulted, dispatch, effective_type, post, run_closure, emit_slots, suspended,
  resume,
}
use modern_signal_slot.Thread.{set_queue, turn, serve, set_current, reset_current}

module _ {A U : Type 0} where
  -- The call waits, and a property of the promise and the state holds then.
  abbrev pub Waits : (ℕ → World A U → Type 0) → Called A U → Type 0
  Waits P (waits p w) = P p w
  Waits P (done w) = ⊥
  Waits P (faulted f) = ⊥

module _ {T : Type 0} where
  -- A queue that runs, and has nothing to do.
  abbrev pub Idle : TaskQueueStdlib T → Type 0
  Idle q = (q.thread_should_quit ≡ false) × (q.pending_queue ≡ []) × (q.delayed_queue ≡ [])

  next_alone :
      (q : TaskQueueStdlib T) (t : T) (now : ℕ)
      → Idle q
      → process_next (get_next_task (post_task q t) now).0 ≡ runs t
  unfolding process_next get_next_task next_of take_pending post_task push_task notify_wake
  next_alone q t now (run, p, d) = rw (run, d, p) refl

module _ {A U : Type 0} (user_code : Body → A → World A U → World A U) where
  serve-promise :
      (w : World A U) (a : ℕ) (args : A) (p : ℕ)
      → (serve user_code w (runs (blocking a args p))).fulfilled p ≡ true
  unfolding serve run_closure
  serve-promise w a args p = ground arith

  turn_alone :
      (w : World A U) (q : ℕ) (a : ℕ) (args : A) (p now : ℕ) (s : TaskQueueStdlib (Task A))
      → Idle s
      → w.queues q ≡ post_task s (blocking a args p)
      → (turn user_code w q now).fulfilled p ≡ true
  unfolding turn set_current reset_current
  turn_alone w q a args p now s idle e =
      rw (e, next_alone s (blocking a args p) now idle) (serve-promise _ a args p)

  -- Turns of the worker of one queue, at these times.
  abbrev pub turns : World A U → ℕ → List ℕ → World A U
  turns w q [] = w
  turns w q (now ∷ nows) = turns (turn user_code w q now) q nows

  turn-quit :
      (w : World A U) (q now : ℕ)
      → (w.queues q).thread_should_quit ≡ true
      → (((turn user_code w q now).queues q).thread_should_quit ≡ true)
        × ((turn user_code w q now).fulfilled ≡ w.fulfilled)
  unfolding turn set_current reset_current get_next_task process_next serve
  turn-quit w q now quit = (rw (quit, ==-refl q) refl, rw quit refl)

  turns-quit :
      (w : World A U) (q : ℕ) (nows : List ℕ)
      → (w.queues q).thread_should_quit ≡ true
      → (turns w q nows).fulfilled ≡ w.fulfilled
  turns-quit w q [] quit = refl
  turns-quit w q (now ∷ nows) quit =
      let (still, same) = turn-quit w q now quit in
      turns-quit (turn user_code w q now) q nows still ∙ same

module _ {A U : Type 0} (assertions : Bool) (user_code : Body → A → World A U → World A U) where
  -- A blocking call of a slot whose queue is idle waits for a promise. After one turn of the queue's
  -- worker the promise is fulfilled, and the emission that waits goes on with the slots left.
  pub dispatch-turn :
      (w : World A U) (a : ℕ) (args : A) (q now : ℕ) (rest copy : List ℕ)
      → effective_type w (w.slots a) ≡ blocking_queued_connection
      → (w.slots a).m_queue ≡ some q
      → Idle (w.queues q)
      → Waits
          (λ p v.
            let after = turn user_code v q now in
            (after.fulfilled p ≡ true)
            × (resume assertions user_code args (suspended p rest copy v) after
                ≡ emit_slots assertions user_code args copy rest after))
          (dispatch assertions user_code w a args)
  unfolding dispatch post resume
  dispatch-turn w a args q now rest copy type queue idle =
      let v : World A U =
        post (record w { promises = w.promises + 1 }) q (blocking a args w.promises) in
      let f : (turn user_code v q now).fulfilled w.promises ≡ true =
        turn_alone user_code v q a args w.promises now (w.queues q) idle (rw (==-refl q) refl) in
      rw (type, queue) (f, rw f refl)

  -- If the queue is deleted while a blocking call waits and before its worker has fetched the task,
  -- then no number of the worker's turns fulfils the promise, and the caller waits on.
  pub dispatch-delete :
      (w : World A U) (a : ℕ) (args : A) (q : ℕ) (nows : List ℕ)
      → effective_type w (w.slots a) ≡ blocking_queued_connection
      → (w.slots a).m_queue ≡ some q
      → w.fulfilled w.promises ≡ false
      → Waits
          (λ p v.
            (turns user_code (set_queue v q (delete (v.queues q))) q nows).fulfilled p ≡ false)
          (dispatch assertions user_code w a args)
  unfolding dispatch post delete set_quit notify_wake
  dispatch-delete w a args q nows type queue fresh =
      let v : World A U =
        post (record w { promises = w.promises + 1 }) q (blocking a args w.promises) in
      let u : World A U = set_queue v q (delete (v.queues q)) in
      let e : (u.queues q).thread_should_quit ≡ true = rw (==-refl q) refl in
      rw (type, queue) (rw (turns-quit user_code u q nows e) fresh)
