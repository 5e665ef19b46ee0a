-- ===== src/TaskQueue/Fair.antt =====
-- No task waits for ever: delayed tasks do not overtake a pending one without end.
use mathlib.Core.List.{Mem, mem-append_left, mem-append_right, mem-cons_self}
use modern_signal_slot.Base.{
  ℕ, suc, ◌≡◌, ap, ◌≤◌, ◌<◌, ◌⊎◌, inl, inr, false, List, [], ◌∷◌, ◌++◌, arith,
}
use modern_signal_slot.TaskQueue.{
  TaskQueueStdlib, post_task, post_delayed_task, next_order, order_limit,
}
use modern_signal_slot.TaskQueue.Fetch.{stopped, pending, fired, idle, get_next_task-Fetch}
use modern_signal_slot.TaskQueue.History.{
  Event, posts, posts_delayed, fetches, deletes, step, run_events,
}
use modern_signal_slot.TaskQueue.Delayed.{rank, map_assign-rank}
use modern_signal_slot.TaskQueue.Valid.{next_order_lem}
use modern_signal_slot.TaskQueue.Conserve.{HasRoomFor, room-tail}

module _ {ℓ} {T : Type ℓ} where
  -- The number of fetches in a history that deletes nothing.
  abbrev pub rounds : List (Event T) → ℕ
  rounds [] = 0
  rounds (fetches now ∷ es) = suc (rounds es)
  rounds (posts t ∷ es) = rounds es
  rounds (posts_delayed t delay now ∷ es) = rounds es
  rounds (deletes ∷ es) = rounds es

  abbrev pub NeverDeleted : List (Event T) → Type 0
  NeverDeleted [] = Unit {0}
  NeverDeleted (deletes ∷ es) = ⊥
  NeverDeleted (fetches now ∷ es) = NeverDeleted es
  NeverDeleted (posts t ∷ es) = NeverDeleted es
  NeverDeleted (posts_delayed t delay now ∷ es) = NeverDeleted es

  module _ (o : ℕ) (t : T) where
    -- The task `t` with the number `o` is the front of the pending queue of a running worker.
    record IsFront (q : TaskQueueStdlib T) : Type ℓ where
      running : q.thread_should_quit ≡ false
      given : o ≤ q.thread_posting_order
      rest : List (ℕ × T)
      front : q.pending_queue ≡ (o, t) ∷ rest

    -- A fetch runs the front, or an entry with no higher number leaves the delayed queue.
    fetch-progress :
        (q : TaskQueueStdlib T) (now : ℕ)
        → IsFront q
        → (Mem t (step q (fetches now)).0)
          ⊎ (IsFront (step q (fetches now)).1
              × (rank o (step q (fetches now)).1.delayed_queue < rank o q.delayed_queue))
    unfolding step
    fetch-progress q now w = elim (get_next_task-Fetch q now) [
      | stopped stop f r e ↦ cc (w.running)
      | pending p u ps run pe y f r e ↦ inl (rw r (let same : t ≡ u = cc in rw same mem-cons_self))
      | fired info u ds run d due b f r e ↦ inr (
        rw e (record { running = w.running; given = w.given; rest = w.rest; front = w.front }),
        rw (e, d) (let older : info.order ≤ o = rw w.front at b in ground arith),
      )
      | idle run p i f r e ↦ cc (w.front)
    ]

    post-IsFront :
        (q : TaskQueueStdlib T) (u : T)
        → suc q.thread_posting_order < order_limit
        → IsFront q
        → IsFront (post_task q u)
    unfolding post_task
    post-IsFront q u room w = record {
      running = w.running;
      given = omega (arith, w.given, next_order_lem q.thread_posting_order room);
      rest = w.rest ++ (next_order q.thread_posting_order, u) ∷ [];
      front = ap (λ ps. ps ++ (next_order q.thread_posting_order, u) ∷ []) w.front;
    }

    delayed-IsFront :
        (q : TaskQueueStdlib T) (u : T) (delay now : ℕ)
        → suc q.thread_posting_order < order_limit
        → IsFront q
        → IsFront (post_delayed_task q u delay now)
          × (rank o (post_delayed_task q u delay now).delayed_queue ≡ rank o q.delayed_queue)
    unfolding post_delayed_task
    delayed-IsFront q u delay now room w =
        let new = next_order_lem q.thread_posting_order room in
        (
          record {
            running = w.running;
            given = omega (arith, w.given, new);
            rest = w.rest;
            front = w.front;
          },
          map_assign-rank _ u o q.delayed_queue (omega (arith, w.given, new)),
        )

    runs_in_turn :
        (q : TaskQueueStdlib T) (es : List (Event T))
        → IsFront q
        → NeverDeleted es
        → HasRoomFor q es
        → rank o q.delayed_queue < rounds es
        → Mem t (run_events q es).0
    unfolding run_events step post_task
    runs_in_turn q [] w n room enough = absurd (omega arith)
    runs_in_turn q (posts u ∷ es) w n room enough =
        runs_in_turn (post_task q u) es (post-IsFront q u (omega arith) w) n
          (room-tail q (posts u) es room) enough
    runs_in_turn q (posts_delayed u delay now ∷ es) w n room enough =
        let (w', same) = delayed-IsFront q u delay now (omega arith) w in
        runs_in_turn (post_delayed_task q u delay now) es w' n
          (room-tail q (posts_delayed u delay now) es room) (omega (arith, same))
    runs_in_turn q (fetches now ∷ es) w n room enough = elim (fetch-progress q now w) [
      | inl now_run ↦ mem-append_left _ now_run
      | inr p ↦ mem-append_right _ (
          runs_in_turn (step q (fetches now)).1 es p.0 n (room-tail q (fetches now) es room)
            (omega (arith, p.1)))
    ]
    runs_in_turn q (deletes ∷ es) w n room enough = absurd n

  -- No starvation: let a task be the front of the pending queue of a worker that is not told to
  -- quit, with a number that is not above the counter. In every history without a delete and in
  -- which the counter does not wrap, whatever is posted in it, the worker runs the task as soon as
  -- it has made more fetches than the delayed queue had entries with a number of at most the
  -- task's.
  pub no_starvation :
      (q : TaskQueueStdlib T) (o : ℕ) (t : T) (rest : List (ℕ × T)) (es : List (Event T))
      → q.thread_should_quit ≡ false
      → o ≤ q.thread_posting_order
      → q.pending_queue ≡ (o, t) ∷ rest
      → NeverDeleted es
      → HasRoomFor q es
      → rank o q.delayed_queue < rounds es
      → Mem t (run_events q es).0
  no_starvation q o t rest es run given front n room enough =
      runs_in_turn o t q es (record { running = run; given = given; rest = rest; front = front }) n
        room enough
