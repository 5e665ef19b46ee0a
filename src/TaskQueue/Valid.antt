-- ===== src/TaskQueue/Valid.antt =====
-- The invariant of the two queues, and what it gives: no history loses or repeats a task, a delayed
-- task never runs early and runs before later ones, and no task waits for ever.
use mathlib.Core.List.{append-nil, append_assoc, perm_middle}
use mathlib.Core.List.Perm
use modern_signal_slot.Base.{ℕ, suc, ◌+◌, ◌*◌, ◌≡◌, ◌<◌, List, [], ◌∷◌, ◌++◌, Perm, arith, length}
use modern_signal_slot.TaskQueue.{
  DelayedEntryTimeout, TaskQueueStdlib, get_next_task, post_task, post_delayed_task, delete,
  order_limit, next_order, ticks_per_ms,
}
use modern_signal_slot.TaskQueue.Fetch.{stopped, pending, fired, idle, get_next_task-Fetch}
use modern_signal_slot.TaskQueue.History.{
  Event, posts, posts_delayed, fetches, deletes, to_list, step, posted, tasks, tasks-append,
}
use modern_signal_slot.TaskQueue.Delayed.{
  Sorted, Within, Within-mono, delayed_tasks, map_assign-perm, map_assign-Sorted, map_assign-Within,
}

pub next_order_lem : (n : ℕ) → suc n < order_limit → next_order n ≡ suc n
next_order_lem n h = omega arith

perm_last {ℓ} : {A : Type ℓ} (x : A) (xs : List A) → Perm (x ∷ xs) (xs ++ x ∷ [])
perm_last x xs = Perm.symm (rw (append-nil xs) at (perm_middle {a = x} xs []))

module _ {ℓ} {T : Type ℓ} where
  -- No number was given out that is above the counter, and the delayed entries stand in order.
  pub record IsValid (q : TaskQueueStdlib T) : Type 0 where
    pub within : Within q.thread_posting_order q.delayed_queue
    pub sorted : Sorted q.delayed_queue

  -- All tasks that wait.
  abbrev pub waiting : TaskQueueStdlib T → List T
  waiting q = tasks q.pending_queue ++ delayed_tasks q.delayed_queue

  -- What an event adds.
  abbrev pub adds : Event T → List T
  adds e = posted (e ∷ [])

  -- Room for one more number, if the event is a post.
  abbrev pub HasRoom : TaskQueueStdlib T → Event T → Type 0
  HasRoom q e = q.thread_posting_order + length (adds e) < order_limit

  fetch-IsValid : (q : TaskQueueStdlib T) (now : ℕ) → IsValid q → IsValid (get_next_task q now).1
  fetch-IsValid q now v = elim (get_next_task-Fetch q now) [
    | stopped stop f r e ↦ rw e v
    | pending o t rest run p y f r e ↦ rw e (record { within = v.within; sorted = v.sorted })
    | fired info t rest run d due b f r e ↦
        rw e (record { within = (rw d at v.within).1; sorted = (rw d at v.sorted).1 })
    | idle run p i f r e ↦ rw e v
  ]

  delayed-IsValid :
      (q : TaskQueueStdlib T) (t : T) (delay now : ℕ)
      → suc q.thread_posting_order < order_limit
      → IsValid q
      → IsValid (post_delayed_task q t delay now)
  unfolding post_delayed_task
  delayed-IsValid q t delay now room v =
      let key : DelayedEntryTimeout = record {
        next_fire_at = now + delay * ticks_per_ms;
        order = suc q.thread_posting_order;
      } in
      rw (next_order_lem q.thread_posting_order room) (record {
        within =
            map_assign-Within key t q.thread_posting_order (omega arith) _ _ (omega arith)
              (Within-mono _ _ q.delayed_queue (omega arith) v.within);
        sorted =
            map_assign-Sorted key t q.thread_posting_order (omega arith) q.delayed_queue v.within
              v.sorted;
      })

  -- Each event keeps the invariant, as long as the counter does not wrap.
  pub step-IsValid :
      (q : TaskQueueStdlib T) (e : Event T) → HasRoom q e → IsValid q → IsValid (step q e).1
  unfolding step post_task delete
  step-IsValid q (posts t) room v =
      rw (next_order_lem q.thread_posting_order (omega arith)) (record {
        within = Within-mono _ _ q.delayed_queue (omega arith) v.within;
        sorted = v.sorted;
      })
  step-IsValid q (posts_delayed t delay now) room v = delayed-IsValid q t delay now (omega arith) v
  step-IsValid q (fetches now) room v = fetch-IsValid q now v
  step-IsValid q deletes room v = record { within = v.within; sorted = v.sorted }

  fetch-perm :
      (q : TaskQueueStdlib T) (now : ℕ)
      → let (next, q') = get_next_task q now in
        Perm (to_list next.run_task ++ waiting q') (waiting q)
  fetch-perm q now = elim (get_next_task-Fetch q now) [
    | stopped stop f r e ↦ rw (r, e) (Perm.refl _)
    | pending o t rest run p y f r e ↦ rw (r, e, p) (Perm.refl _)
    | fired info t rest run d due b f r e ↦
        rw (r, e, d) (Perm.symm (perm_middle (tasks q.pending_queue) _))
    | idle run p i f r e ↦ rw (r, e) (Perm.refl _)
  ]

  -- An event neither loses a task nor makes one up.
  pub step-perm :
      (q : TaskQueueStdlib T) (e : Event T)
      → HasRoom q e
      → IsValid q
      → let (ran, q') = step q e in Perm (ran ++ waiting q') (waiting q ++ adds e)
  unfolding step post_task post_delayed_task delete
  step-perm q (posts t) room v =
      rw (tasks-append q.pending_queue ((next_order q.thread_posting_order, t) ∷ [])) (
        Perm.trans
          (rw (append_assoc (tasks q.pending_queue) (t ∷ []) (delayed_tasks q.delayed_queue))
            (perm_middle (tasks q.pending_queue) _))
          (perm_last t (waiting q)))
  step-perm q (posts_delayed t delay now) room v =
      let key : DelayedEntryTimeout = record {
        next_fire_at = now + delay * ticks_per_ms;
        order = next_order q.thread_posting_order;
      } in
      let new = next_order_lem q.thread_posting_order (omega arith) in
      Perm.trans
        (Perm.append_left (tasks q.pending_queue) (
          map_assign-perm key t q.thread_posting_order (omega (arith, new)) q.delayed_queue
            v.within))
        (Perm.trans (perm_middle (tasks q.pending_queue) _) (perm_last t (waiting q)))
  step-perm q (fetches now) room v = rw (append-nil (waiting q)) (fetch-perm q now)
  step-perm q deletes room v = rw (append-nil (waiting q)) (Perm.refl _)
