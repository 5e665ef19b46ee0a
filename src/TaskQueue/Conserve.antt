-- ===== src/TaskQueue/Conserve.antt =====
-- Whole histories of a task queue: what they keep and what order delayed tasks run in.
use mathlib.Core.List.{append-nil, append_assoc}
use mathlib.Core.List.Perm
use modern_signal_slot.Base.{
  ℕ, ◌+◌, ◌≡◌, refl, sym, ap, subst, ◌∙◌, ◌≤◌, ◌<◌, List, [], ◌∷◌, ◌++◌, Perm, some, arith, length,
  length-append,
}
use modern_signal_slot.TaskQueue.{
  DelayedEntryTimeout, TaskQueueStdlib, get_next_task, post_task, post_delayed_task, delete,
  order_limit,
}
use modern_signal_slot.TaskQueue.Fetch.{Beats, stopped, pending, fired, idle, get_next_task-Fetch}
use modern_signal_slot.TaskQueue.History.{
  Event, posts, posts_delayed, fetches, deletes, step, run_events, posted,
}
use modern_signal_slot.TaskQueue.Delayed.{Least}
use modern_signal_slot.TaskQueue.Valid.{
  IsValid, waiting, adds, HasRoom, step-IsValid, step-perm, next_order_lem,
}

cons-ne_self {ℓ} : {A : Type ℓ} (x : A) (xs : List A) → ¬ (x ∷ xs ≡ xs)
cons-ne_self x xs e = absurd (omega (arith, ap length e))

module _ {ℓ} {T : Type ℓ} where
  -- The counter moves by the number of posts.
  fetch-order :
      (q : TaskQueueStdlib T) (now : ℕ)
      → (get_next_task q now).1.thread_posting_order ≡ q.thread_posting_order
  fetch-order q now = elim (get_next_task-Fetch q now) [
    | stopped stop f r e ↦ rw e refl
    | pending o t rest run p y f r e ↦ rw e refl
    | fired info t rest run d due b f r e ↦ rw e refl
    | idle run p i f r e ↦ rw e refl
  ]

  pub step-order :
      (q : TaskQueueStdlib T) (e : Event T)
      → HasRoom q e
      → (step q e).1.thread_posting_order ≡ q.thread_posting_order + length (adds e)
  unfolding step post_task post_delayed_task delete
  step-order q (posts t) room = omega (arith, next_order_lem q.thread_posting_order (omega arith))
  step-order q (posts_delayed t delay now) room =
      omega (arith, next_order_lem q.thread_posting_order (omega arith))
  step-order q (fetches now) room = omega (arith, fetch-order q now)
  step-order q deletes room = omega arith

  posted-cons : (e : Event T) (es : List (Event T)) → posted (e ∷ es) ≡ adds e ++ posted es
  posted-cons (posts t) es = refl
  posted-cons (posts_delayed t delay now) es = refl
  posted-cons (fetches now) es = refl
  posted-cons deletes es = refl

  -- Room for the numbers of all posts of a history.
  abbrev pub HasRoomFor : TaskQueueStdlib T → List (Event T) → Type 0
  HasRoomFor q es = q.thread_posting_order + length (posted es) < order_limit

  pub room-head :
      (q : TaskQueueStdlib T) (e : Event T) (es : List (Event T))
      → HasRoomFor q (e ∷ es)
      → HasRoom q e
  room-head q e es room =
      omega (arith, ap length (posted-cons e es), length-append (adds e) (posted es))

  pub room-tail :
      (q : TaskQueueStdlib T) (e : Event T) (es : List (Event T))
      → HasRoomFor q (e ∷ es)
      → HasRoomFor (step q e).1 es
  room-tail q e es room = omega (
    arith,
    ap length (posted-cons e es),
    length-append (adds e) (posted es),
    step-order q e (room-head q e es room),
  )

  -- Every history keeps the invariant of the queue, as long as the 64-bit counter does not wrap.
  pub run_events-IsValid :
      (q : TaskQueueStdlib T) (es : List (Event T))
      → HasRoomFor q es
      → IsValid q
      → IsValid (run_events q es).1
  unfolding run_events
  run_events-IsValid q [] room v = v
  run_events-IsValid q (e ∷ es) room v =
      run_events-IsValid (step q e).1 es (room-tail q e es room)
        (step-IsValid q e (room-head q e es room) v)

  -- Conservation: in every history of a valid queue in which the counter does not wrap, the tasks
  -- run and the tasks that still wait are, as often, those that waited at the start and those
  -- posted, immediate and delayed ones together: none is lost, run twice or made up.
  pub run_events-perm :
      (q : TaskQueueStdlib T) (es : List (Event T))
      → HasRoomFor q es
      → IsValid q
      → let (ran, q') = run_events q es in Perm (ran ++ waiting q') (waiting q ++ posted es)
  unfolding run_events
  run_events-perm q [] room v = rw (append-nil (waiting q)) (Perm.refl _)
  run_events-perm q (e ∷ es) room v =
      let (ran, q') = step q e in
      let (later, q'') = run_events q' es in
      let ih =
        run_events-perm q' es (room-tail q e es room)
          (step-IsValid q e (room-head q e es room) v) in
      rw
        (
          append_assoc ran later (waiting q''),
          posted-cons e es,
          ← append_assoc (waiting q) (adds e) (posted es),
        )
        (Perm.trans (Perm.append_left ran ih) (
          rw (← append_assoc ran (waiting q') (posted es))
            (Perm.append_right (posted es) (step-perm q e (room-head q e es room) v))))

  -- In a valid queue, if a fetch takes the first entry out of the delayed queue, then its task is
  -- the one to run, its time has come, every other delayed entry is for a later time or for the
  -- same time with a higher number, and the front of the pending queue, if there is one, does not
  -- have a lower number.
  pub delayed_in_time :
      (q : TaskQueueStdlib T) (now : ℕ) (info : DelayedEntryTimeout) (t : T)
      (rest : List (DelayedEntryTimeout × T))
      → IsValid q
      → q.delayed_queue ≡ (info, t) ∷ rest
      → (get_next_task q now).1.delayed_queue ≡ rest
      → ((get_next_task q now).0.run_task ≡ some t)
        × (info.next_fire_at ≤ now)
        × Least info rest
        × Beats q.pending_queue info.order
  delayed_in_time q now info t rest v d left = elim (get_next_task-Fetch q now) [
    | stopped stop f r e ↦ absurd (kept (ap (λ p. p.delayed_queue) e))
    | pending o u ps run p y f r e ↦ absurd (kept (ap (λ p. p.delayed_queue) e))
    | fired j u ds run d' due b f r e ↦
        let same_key : j ≡ info = cc in
        let same_task : some u ≡ some t = cc in
        (
          r ∙ same_task,
          subst (λ k. k.next_fire_at ≤ now) same_key due,
          (rw d at v.sorted).0,
          subst (λ k. Beats q.pending_queue k.order) same_key b,
        )
    | idle run p i f r e ↦ absurd (kept (ap (λ p. p.delayed_queue) e))
  ]
    where
      kept : ¬ ((get_next_task q now).1.delayed_queue ≡ q.delayed_queue)
      kept e = cons-ne_self (info, t) rest (sym d ∙ sym e ∙ left)
