-- ===== src/TaskQueue/Sleep.antt =====
-- How long the worker sleeps, `GetNextTask` and the wait in `ProcessTasks`.
use modern_signal_slot.Base.{
  ℕ, ◌+◌, ◌-◌, ◌*◌, ◌/◌, ◌<◌, ◌≤◌, ◌≡◌, ◌≢◌, refl, true, false, List, [], ◌∷◌, arith, leb,
  Bool-cases, inl, inr,
}
use modern_signal_slot.TaskQueue.{
  TaskQueueStdlib, Round, DelayedEntryTimeout, ticks_per_ms, quits, waits, get_next_task, next_of,
  take_pending, take_due, process_next,
}

-- The first entry, if any, is due between `n` and `n + 1` milliseconds after `now`.
pub data FirstDue {ℓ} {T : Type ℓ} (now n : ℕ) : List (DelayedEntryTimeout × T) → Type ℓ where
  first_due :
      {info : DelayedEntryTimeout} {t : T} {rest : List (DelayedEntryTimeout × T)}
      → now + n * ticks_per_ms ≤ info.next_fire_at
      → info.next_fire_at < now + (n + 1) * ticks_per_ms
      → FirstDue now n ((info, t) ∷ rest)

whole_ms :
    (now at n : ℕ)
    → now < at
    → (at - now) / ticks_per_ms ≡ n
    → (now + n * ticks_per_ms ≤ at) × (at < now + (n + 1) * ticks_per_ms)
whole_ms now at n early e = (omega arith, omega arith)

leb-false→lt : (a b : ℕ) → leb a b ≡ false → b < a
leb-false→lt a b e = ground arith

unwrap {ℓ} : {T : Type ℓ} {a b : ℕ} → ◌≡◌ {A = Round T} (waits a) (waits b) → a ≡ b
unwrap e = cc

module _ {ℓ} {T : Type ℓ} where
  pending_waits :
      (q : TaskQueueStdlib T) (l : List (ℕ × T)) (s n : ℕ)
      → process_next (take_pending q l s).0 ≡ waits n
      → (0 < n) × (l ≡ []) × (s ≡ n)
  unfolding take_pending process_next
  pending_waits q [] s n e = ground arith
  pending_waits q ((o, t) ∷ l) s n e = absurd (cc)

  due_runs :
      (q : TaskQueueStdlib T) (p : List (ℕ × T)) (info : DelayedEntryTimeout) (t : T)
      (rest : List (DelayedEntryTimeout × T)) (n : ℕ)
      → process_next (take_due q p info t rest).0 ≢ waits n
  unfolding take_due process_next
  due_runs q [] info t rest n e = cc
  due_runs q ((o, u) ∷ p) info t rest n e = ground arith

  quits_never : (n : ℕ) → ◌≢◌ {A = Round T} quits (waits n)
  quits_never n e = cc

  due_waits :
      (q : TaskQueueStdlib T) (l : List (DelayedEntryTimeout × T)) (now n : ℕ)
      → process_next (next_of q l now).0 ≡ waits n
      → (0 < n) × (q.pending_queue ≡ []) × FirstDue now n l
  unfolding next_of
  due_waits q [] now n e =
      let (positive, p, z) = pending_waits q q.pending_queue 0 n e in absurd (omega arith)
  due_waits q ((info, t) ∷ rest) now n e = elim (Bool-cases (leb info.next_fire_at now)) [
    | inl due ↦ absurd (due_runs q q.pending_queue info t rest n (rw due at e))
    | inr early ↦
        let (positive, p, z) =
          pending_waits q q.pending_queue ((info.next_fire_at - now) / ticks_per_ms) n
            (rw early at e) in
        let (least, most) =
          whole_ms now info.next_fire_at n (leb-false→lt info.next_fire_at now early) z in
        (positive, p, first_due least most)
  ]

  fetch_on :
      (q : TaskQueueStdlib T) (now : ℕ)
      → q.thread_should_quit ≡ false
      → get_next_task q now ≡ next_of q q.delayed_queue now
  unfolding get_next_task
  fetch_on q now on = ground arith

  pub fetch_quits :
      (q : TaskQueueStdlib T) (now : ℕ)
      → q.thread_should_quit ≡ true
      → process_next (get_next_task q now).0 ≡ quits
  unfolding get_next_task process_next
  fetch_quits q now quit = rw quit refl

  -- If the worker waits for `n` milliseconds, then `n` is positive, no task is pending, and the first delayed task's time comes in at least `n` and less than `n + 1` milliseconds.
  pub waits-FirstDue :
      (q : TaskQueueStdlib T) (now n : ℕ)
      → process_next (get_next_task q now).0 ≡ waits n
      → (0 < n) × (q.pending_queue ≡ []) × FirstDue now n q.delayed_queue
  waits-FirstDue q now n e = elim (Bool-cases q.thread_should_quit) [
    | inl quit ↦ absurd (quits_never n (rw (fetch_quits q now quit) at e))
    | inr on ↦ due_waits q q.delayed_queue now n (rw (fetch_on q now on) at e)
  ]
