-- ===== src/TaskQueue/History.antt =====
-- Histories of a task queue: posts from any threads and fetches by its worker, in the order in
-- which they hold the lock.
use mathlib.Core.List.{append-nil, append_assoc}
use modern_signal_slot.Base.{ℕ, ◌≡◌, refl, sym, ap, ◌∙◌, List, [], ◌∷◌, ◌++◌, Option, some, none}
use modern_signal_slot.TaskQueue.{
  TaskQueueStdlib, get_next_task, post_task, post_delayed_task, delete,
}
use modern_signal_slot.TaskQueue.Fetch.{stopped, pending, fired, idle, get_next_task-Fetch}

pub data Event {ℓ} (T : Type ℓ) : Type ℓ where
  posts : T → Event T
  posts_delayed : T → ℕ → ℕ → Event T
  fetches : ℕ → Event T
  deletes : Event T

module _ {ℓ} {T : Type ℓ} where
  abbrev pub to_list : Option T → List T
  to_list none = []
  to_list (some t) = t ∷ []

  -- The task that an event makes the worker run, and the queue after it.
  unfoldable pub step : TaskQueueStdlib T → Event T → List T × TaskQueueStdlib T
  step q (posts t) = ([], post_task q t)
  step q (posts_delayed t delay now) = ([], post_delayed_task q t delay now)
  step q (fetches now) = let (next, q') = get_next_task q now in (to_list next.run_task, q')
  step q deletes = ([], delete q)

  unfoldable pub run_events : TaskQueueStdlib T → List (Event T) → List T × TaskQueueStdlib T
  run_events q [] = ([], q)
  run_events q (e ∷ es) =
      let (ran, q') = step q e in let (later, q'') = run_events q' es in (ran ++ later, q'')

  abbrev pub posted : List (Event T) → List T
  posted [] = []
  posted (posts t ∷ es) = t ∷ posted es
  posted (posts_delayed t delay now ∷ es) = t ∷ posted es
  posted (fetches now ∷ es) = posted es
  posted (deletes ∷ es) = posted es

  -- No event is a delayed post.
  abbrev pub NoDelay : List (Event T) → Type 0
  NoDelay [] = Unit {0}
  NoDelay (posts_delayed t delay now ∷ es) = ⊥
  NoDelay (posts t ∷ es) = NoDelay es
  NoDelay (fetches now ∷ es) = NoDelay es
  NoDelay (deletes ∷ es) = NoDelay es

  abbrev pub tasks : List (ℕ × T) → List T
  tasks [] = []
  tasks ((o, t) ∷ ps) = t ∷ tasks ps

  pub tasks-append : (ps rs : List (ℕ × T)) → tasks (ps ++ rs) ≡ tasks ps ++ tasks rs
  tasks-append [] rs = refl
  tasks-append ((o, t) ∷ ps) rs = ap (◌∷◌ t) (tasks-append ps rs)

  fetch-fifo :
      (q : TaskQueueStdlib T) (now : ℕ)
      → q.delayed_queue ≡ []
      → let (ran, q') = step q (fetches now) in
        (ran ++ tasks q'.pending_queue ≡ tasks q.pending_queue) × (q'.delayed_queue ≡ [])
  unfolding step
  fetch-fifo q now none_delayed = elim (get_next_task-Fetch q now) [
    | stopped stop f r e ↦ rw (r, e) (refl, none_delayed)
    | pending o t rest run p y f r e ↦ rw (r, e) (sym (ap tasks p), none_delayed)
    | fired info t rest run d due b f r e ↦ cc
    | idle run p i f r e ↦ rw (r, e) (refl, none_delayed)
  ]

  -- First in, first out: on a queue that holds no delayed task, in any history without delayed
  -- posts, the tasks run so far, followed by those that still wait, are those that waited at the
  -- start, followed by those posted, in the order of posting.
  pub run_events-fifo :
      (q : TaskQueueStdlib T) (es : List (Event T))
      → q.delayed_queue ≡ []
      → NoDelay es
      → let (ran, q') = run_events q es in
        ran ++ tasks q'.pending_queue ≡ tasks q.pending_queue ++ posted es
  unfolding run_events step post_task delete
  run_events-fifo q [] d n = sym (append-nil _)
  run_events-fifo q (posts t ∷ es) d n =
      run_events-fifo (post_task q t) es d n
      ∙ rw (tasks-append q.pending_queue)
          (append_assoc (tasks q.pending_queue) (t ∷ []) (posted es))
  run_events-fifo q (posts_delayed t delay now ∷ es) d n = absurd n
  run_events-fifo q (fetches now ∷ es) d n =
      let (same, d') = fetch-fifo q now d in
      let (ran, q') = step q (fetches now) in
      append_assoc ran _ _
      ∙ ap (◌++◌ ran) (run_events-fifo q' es d' n)
      ∙ sym (append_assoc ran _ _)
      ∙ ap (λ l. l ++ posted es) same
  run_events-fifo q (deletes ∷ es) d n = run_events-fifo (delete q) es d n
