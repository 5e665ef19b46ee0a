-- ===== src/TaskQueue/Fetch.antt =====
-- What `GetNextTask` takes, by cases.
use modern_signal_slot.Base.{
  ℕ, ◌-◌, ◌/◌, ◌≡◌, refl, ◌≤◌, ◌<◌, ◌⊎◌, inl, inr, true, false, List, [], ◌∷◌, some, none, arith,
  dec_lt, dec_le, lt→ltb, ltb-false, le→leb, leb-false, Bool-cases,
}
use modern_signal_slot.TaskQueue.{
  DelayedEntryTimeout, TaskQueueStdlib, NextTask, get_next_task, next_of, take_due, take_pending,
  ticks_per_ms,
}

module _ {ℓ} {T : Type ℓ} where
  -- No delayed entry is due before the time `now`, or the first one that is has a later order
  -- than `o`.
  abbrev pub Yields : List (DelayedEntryTimeout × T) → ℕ → ℕ → Type 0
  Yields [] now o = Unit {0}
  Yields ((info, run) ∷ rest) now o = (now < info.next_fire_at) ⊎ (o < info.order)

  abbrev pub Idle : List (DelayedEntryTimeout × T) → ℕ → ℕ → Type 0
  Idle [] now sleep = sleep ≡ 0
  Idle ((info, run) ∷ rest) now sleep =
      (now < info.next_fire_at) × (sleep ≡ (info.next_fire_at - now) / ticks_per_ms)

  abbrev pub Beats : List (ℕ × T) → ℕ → Type 0
  Beats [] o = Unit {0}
  Beats ((p, t) ∷ rest) o = o ≤ p

  pub data Fetch (q : TaskQueueStdlib T) (now : ℕ) (next : NextTask T) (q' : TaskQueueStdlib T)
      : Type ℓ where
    stopped :
        q.thread_should_quit ≡ true
        → next.final_task ≡ true
        → next.run_task ≡ none
        → q' ≡ q
        → Fetch q now next q'
    pending :
        (o : ℕ) (t : T) (rest : List (ℕ × T))
        → q.thread_should_quit ≡ false
        → q.pending_queue ≡ (o, t) ∷ rest
        → Yields q.delayed_queue now o
        → next.final_task ≡ false
        → next.run_task ≡ some t
        → q' ≡ record q { pending_queue = rest }
        → Fetch q now next q'
    fired :
        (info : DelayedEntryTimeout) (t : T) (rest : List (DelayedEntryTimeout × T))
        → q.thread_should_quit ≡ false
        → q.delayed_queue ≡ (info, t) ∷ rest
        → info.next_fire_at ≤ now
        → Beats q.pending_queue info.order
        → next.final_task ≡ false
        → next.run_task ≡ some t
        → q' ≡ record q { delayed_queue = rest }
        → Fetch q now next q'
    idle :
        q.thread_should_quit ≡ false
        → q.pending_queue ≡ []
        → Idle q.delayed_queue now next.sleep_time
        → next.final_task ≡ false
        → next.run_task ≡ none
        → q' ≡ q
        → Fetch q now next q'

  Fetch-pending :
      (q : TaskQueueStdlib T) (now sleep : ℕ) (ps : List (ℕ × T))
      → q.thread_should_quit ≡ false
      → q.pending_queue ≡ ps
      → Idle q.delayed_queue now sleep
      → ((o : ℕ) → Yields q.delayed_queue now o)
      → let (next, q') = take_pending q ps sleep in Fetch q now next q'
  unfolding take_pending
  Fetch-pending q now sleep [] run e i y = idle run e i refl refl refl
  Fetch-pending q now sleep ((o, t) ∷ rest) run e i y = pending o t rest run e (y o) refl refl refl

  Fetch-due :
      (q : TaskQueueStdlib T) (now : ℕ) (ps : List (ℕ × T)) (info : DelayedEntryTimeout) (t : T)
      (rest : List (DelayedEntryTimeout × T))
      → q.thread_should_quit ≡ false
      → q.pending_queue ≡ ps
      → q.delayed_queue ≡ (info, t) ∷ rest
      → info.next_fire_at ≤ now
      → let (next, q') = take_due q ps info t rest in Fetch q now next q'
  unfolding take_due
  Fetch-due q now [] info t rest run e d due = fired info t rest run d due (rw e tt) refl refl refl
  Fetch-due q now ((o, u) ∷ ps) info t rest run e d due = elim (dec_lt o info.order) [
    | yes older ↦ rw (lt→ltb _ _ older) (pending o u ps run e (rw d (inr older)) refl refl refl)
    | no younger ↦
        rw (ltb-false _ _ younger) (fired info t rest run d due (rw e (omega arith)) refl refl refl)
  ]

  Fetch-next :
      (q : TaskQueueStdlib T) (ds : List (DelayedEntryTimeout × T)) (now : ℕ)
      → q.thread_should_quit ≡ false
      → q.delayed_queue ≡ ds
      → let (next, q') = next_of q ds now in Fetch q now next q'
  unfolding next_of
  Fetch-next q [] now run d =
      Fetch-pending q now 0 q.pending_queue run refl (rw d refl) (λ o. rw d tt)
  Fetch-next q ((info, t) ∷ rest) now run d = elim (dec_le info.next_fire_at now) [
    | yes due ↦ rw (le→leb _ _ due) (Fetch-due q now q.pending_queue info t rest run refl d due)
    | no early ↦ rw (leb-false _ _ early) (
        Fetch-pending q now _ q.pending_queue run refl (rw d (omega arith, refl))
          (λ o. rw d (inl (omega arith))))
  ]

  -- Every call of `GetNextTask` ends in one of the four ways.
  pub get_next_task-Fetch :
      (q : TaskQueueStdlib T) (now : ℕ)
      → let (next, q') = get_next_task q now in Fetch q now next q'
  unfolding get_next_task
  get_next_task-Fetch q now = elim (Bool-cases q.thread_should_quit) [
    | inl stop ↦ simp stop (stopped stop refl refl refl)
    | inr run ↦ simp run (Fetch-next q q.delayed_queue now run refl)
  ]
