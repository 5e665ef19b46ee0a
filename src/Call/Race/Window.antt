-- ===== src/Call/Race/Window.antt =====
-- A singleshot slot that several threads call at once. `can_emit` reads `m_emitted` and
-- `set_emitted` stores it in two accesses, and between the two any number of threads gets past
-- `can_emit`. The program's function counts its runs here. A thread whose slot is queued or blocking
-- leaves the window by posting a task, so the tasks of a queue are counted too.
use modern_signal_slot.Base.{
  ℕ, zero, suc, ◌+◌, ◌≤◌, ◌≡◌, Bool, true, false, ◌&&◌, List, [], ◌∷◌, some, arith, ◌==◌, get_elem?,
  set, Bool-cases, inl, inr, Option-cases, length, length-append, ◌%◌, ==_iff, ap,
}
use modern_signal_slot.Slot.{Body, direct_connection, queued_connection, blocking_queued_connection}
use modern_signal_slot.World.{World, Task, queued, blocking, clean_slot}
use modern_signal_slot.TaskQueue.{post_task, push_task, notify_wake}
use modern_signal_slot.World.Disconnect.{clean_slot-plain}
use modern_signal_slot.Call.{set_emitted, effective_type, post, dispatch}
use modern_signal_slot.Call.Steps.{can_emit-emitted}
use modern_signal_slot.Call.Singleshot.{Spent, Spent-plain}
use modern_signal_slot.Call.Order.{user_code}
use modern_signal_slot.Call.Race.Alone.{locking_cases}
use modern_signal_slot.Call.Race.{
  CallPlace, entering, at_blocked, locking, at_emit, marking, dispatching, testing, running,
  closing, cleaning, returned, waiting, ended, exchange_connected, advance, leave, step_thread,
  run_schedule,
}

-- The threads that are past `can_emit` and have not called the function yet.
abbrev pub may_run : CallPlace → ℕ
may_run marking = 1
may_run dispatching = 1
may_run testing = 1
may_run running = 1
may_run _ = 0

abbrev pub window : List CallPlace → ℕ
window [] = 0
window (p ∷ ps) = may_run p + window ps

abbrev pub count_run : {A : Type 0} → Body → A → ℕ → ℕ
count_run b args u = suc u

window-set :
    (ps : List CallPlace) (i : ℕ) (p q : CallPlace)
    → get_elem? ps i ≡ some p
    → window (set ps i q) + may_run p ≡ window ps + may_run q
window-set [] i p q h = cc
window-set (x ∷ ps) zero p q h = ground arith
window-set (x ∷ ps) (suc i) p q h = let rest = window-set ps i p q h in omega arith

-- The runs of the function, and the tasks that wait in a queue.
abbrev pub runs_and_posts : {A : Type 0} → World A ℕ → ℕ → ℕ
runs_and_posts w r = w.user + length (w.queues r).pending_queue

module _ {A : Type 0} (assertions : Bool) (a : ℕ) (args : A) where
  abbrev pub threads : List ℕ → World A ℕ × List CallPlace → World A ℕ × List CallPlace
  threads = run_schedule assertions (user_code assertions count_run) a args

  -- What every step keeps once the slot has emitted: it stays so, and the threads that run the
  -- function or post a task come out of the window.
  record Kept (w : World A ℕ) (p : CallPlace) (s : World A ℕ × CallPlace) : Type 0 where
    spent : Spent s.0 a
    counted : (r : ℕ) → runs_and_posts s.0 r + may_run s.1 ≤ runs_and_posts w r + may_run p

  exchange-Kept : (w : World A ℕ) (p : CallPlace) → Spent w a → Kept w p (exchange_connected w a)
  exchange-Kept w p s = record { spent = ground arith; counted = λ r. ground arith }

  post-grows :
      (w : World A ℕ) (q : ℕ) (t : Task A) (r : ℕ)
      → runs_and_posts (post w q t) r ≤ runs_and_posts w r + 1
  unfolding post post_task push_task notify_wake
  post-grows w q t r = elim (Bool-cases (q == r)) [
    | inl same ↦
        let e : q ≡ r = (==_iff q r).0 same in
        let order = (w.queues q).thread_posting_order + 1 in
        simp same (
          omega (
            arith,
            length-append (w.queues q).pending_queue ((order % 18446744073709551616, t) ∷ []),
            ap (λ x. length (w.queues x).pending_queue) e,
          ))
    | inr other ↦ simp other (omega arith)
  ]

  dispatch-Spent :
      (w : World A ℕ)
      → Spent w a
      → effective_type w (w.slots a) == direct_connection ≡ false
      → Spent (leave w (dispatch assertions (user_code assertions count_run) w a args)).0 a
  unfolding dispatch post
  dispatch-Spent w s other = ground arith

  dispatch-counted :
      (w : World A ℕ) (r : ℕ)
      → effective_type w (w.slots a) == direct_connection ≡ false
      → let (w', p) = leave w (dispatch assertions (user_code assertions count_run) w a args) in
        runs_and_posts w' r + may_run p ≤ runs_and_posts w r + 1
  unfolding dispatch
  dispatch-counted w r other =
      let type = effective_type w (w.slots a) in
      elim (Bool-cases (type == queued_connection)) [
        | inl queue ↦ elim (Option-cases (w.slots a).m_queue) [
          | inl none_set ↦ simp (other, queue, none_set) (ground arith)
          | inr (q, set_to) ↦
              simp (other, queue, set_to) (omega (arith, post-grows w q (queued a args) r))
        ]
        | inr more ↦ elim (Bool-cases (type == blocking_queued_connection)) [
          | inl block ↦ elim (Option-cases (w.slots a).m_queue) [
            | inl none_set ↦ simp (other, more, block, none_set) (omega arith)
            | inr (q, set_to) ↦
                let waiter : World A ℕ = record w { promises = w.promises + 1 } in
                simp (other, more, block, set_to)
                  (omega (arith, post-grows waiter q (blocking a args w.promises) r))
          ]
          | inr none_such ↦ simp (other, more, none_such) (omega arith)
        ]
      ]

  dispatch-Kept :
      (w : World A ℕ)
      → Spent w a
      → effective_type w (w.slots a) == direct_connection ≡ false
      → Kept w dispatching (leave w (dispatch assertions (user_code assertions count_run) w a args))
  dispatch-Kept w s other = record {
    spent = dispatch-Spent w s other;
    counted = λ r. dispatch-counted w r other;
  }

  clean-Kept : (w : World A ℕ) → Spent w a → Kept w cleaning (clean_slot w a, returned)
  unfolding clean_slot
  clean-Kept w s = record {
    spent = Spent-plain (clean_slot w a) w a (clean_slot-plain w a a) s;
    counted = λ r. omega arith;
  }

  dispatching-Kept :
      (w : World A ℕ)
      → Spent w a
      → Kept w dispatching
          (advance assertions (user_code assertions count_run) a args dispatching w)
  unfolding advance
  dispatching-Kept w s = elim (Bool-cases (effective_type w (w.slots a) == direct_connection)) [
    | inl direct ↦ simp direct (record { spent = s; counted = λ r. omega arith })
    | inr other ↦ simp other (dispatch-Kept w s other)
  ]

  locking-Kept :
      (w : World A ℕ)
      → Spent w a
      → Kept w locking (advance assertions (user_code assertions count_run) a args locking w)
  locking-Kept w s = elim (locking_cases assertions (user_code assertions count_run) w a args) [
    | inl e ↦ rw e (record { spent = s; counted = λ r. omega arith })
    | inr e ↦ rw e (exchange-Kept w locking s)
  ]

  advance-Kept :
      (w : World A ℕ) (p : CallPlace)
      → Spent w a
      → Kept w p (advance assertions (user_code assertions count_run) a args p w)
  unfolding advance set_emitted
  advance-Kept w entering s = record { spent = s; counted = λ r. ground arith }
  advance-Kept w at_blocked s = record { spent = s; counted = λ r. ground arith }
  advance-Kept w locking s = locking-Kept w s
  advance-Kept w at_emit s =
      rw (can_emit-emitted (w.slots a) s.0 s.1) (record { spent = s; counted = λ r. omega arith })
  advance-Kept w marking s = record { spent = ground arith; counted = λ r. ground arith }
  advance-Kept w dispatching s = dispatching-Kept w s
  advance-Kept w testing s = record { spent = s; counted = λ r. ground arith }
  advance-Kept w running s = record { spent = s; counted = λ r. omega arith }
  advance-Kept w closing s =
      let both : (w.slots a).m_singleshot && (w.slots a).m_emitted ≡ true = ground arith in
      simp both (exchange-Kept w closing s)
  advance-Kept w cleaning s = clean-Kept w s
  advance-Kept w returned s = record { spent = s; counted = λ r. omega arith }
  advance-Kept w (waiting p) s = record { spent = s; counted = λ r. omega arith }
  advance-Kept w (ended f) s = record { spent = s; counted = λ r. omega arith }

  step-bound :
      (w : World A ℕ) (ps : List CallPlace) (i : ℕ)
      → Spent w a
      → let (w', ps') = threads (i ∷ []) (w, ps) in
        Spent w' a × ((r : ℕ) → runs_and_posts w' r + window ps' ≤ runs_and_posts w r + window ps)
  step-bound w ps i s = elim (Option-cases (get_elem? ps i)) [
    | inl out ↦ rw (out, step_thread) (s, λ r. omega arith)
    | inr (p, there) ↦
        let k = advance-Kept w p s in
        let q = (advance assertions (user_code assertions count_run) a args p w).1 in
        let moved = window-set ps i p q there in
        rw (there, step_thread) (k.spent, λ r. omega (arith, k.counted r))
  ]

  -- Once a singleshot slot has emitted, the calls of it that several threads are in run the function
  -- and post tasks to any one queue, taken together, no more often than there are threads past
  -- `can_emit` that have done neither, in whatever order the threads run and whatever the connection
  -- type. The function changes only the program's state, and no worker takes a task meanwhile.
  pub window_bound :
      (schedule : List ℕ) (w : World A ℕ) (ps : List CallPlace)
      → Spent w a
      → let (w', ps') = threads schedule (w, ps) in
        (r : ℕ) → runs_and_posts w' r + window ps' ≤ runs_and_posts w r + window ps
  window_bound [] w ps s = λ r. omega arith
  window_bound (i ∷ is) w ps s =
      let (w', ps') = threads (i ∷ []) (w, ps) in
      let (spent, less) = step-bound w ps i s in
      let rest = window_bound is w' ps' spent in λ r. omega (arith, less r, rest r)
