-- ===== src/QueuedTask/Cleanup.antt =====
-- The cleanup code of tasks.
use mathlib.Core.List.{append-nil, append_assoc, perm_append_comm}
use mathlib.Core.List.Perm
use modern_signal_slot.Base.{
  ℕ, ◌≡◌, refl, sym, ap, subst, ◌∙◌, List, [], ◌∷◌, ◌++◌, Perm, Option-cases, inl, inr,
}
use modern_signal_slot.TaskQueue.{DelayedEntryTimeout, TaskQueueStdlib, empty_queue, get_next_task}
use modern_signal_slot.TaskQueue.History.{
  Event, posts, posts_delayed, fetches, deletes, step, run_events, posted, tasks,
}
use modern_signal_slot.TaskQueue.Delayed.{delayed_tasks}
use modern_signal_slot.TaskQueue.Conserve.{HasRoomFor, run_events-perm}
use modern_signal_slot.QueuedTask.{
  QueuedTask, closure_task_with_cleanup, run, destroy, run_and_delete, process_event,
  process_events, destroy_delayed, destroy_pending, destroy_queue,
}

-- What a log notes: that a task has run, and that its cleanup code has.
pub data Entry : Type 0 where
  ran cleaned : ℕ → Entry

-- Tasks that have run, each with its cleanup code right behind it, and tasks that were only cleaned.
abbrev pub in_turn : List ℕ → List Entry
in_turn [] = []
in_turn (n ∷ ns) = ran n ∷ cleaned n ∷ in_turn ns

abbrev only_cleaned : List ℕ → List Entry
only_cleaned [] = []
only_cleaned (n ∷ ns) = cleaned n ∷ only_cleaned ns

abbrev pub runs : List Entry → List ℕ
runs [] = []
runs (ran n ∷ es) = n ∷ runs es
runs (cleaned n ∷ es) = runs es

abbrev pub cleanups : List Entry → List ℕ
cleanups [] = []
cleanups (ran n ∷ es) = cleanups es
cleanups (cleaned n ∷ es) = n ∷ cleanups es

in_turn-append : (xs ys : List ℕ) → in_turn (xs ++ ys) ≡ in_turn xs ++ in_turn ys
in_turn-append [] ys = refl
in_turn-append (x ∷ xs) ys = ap (λ l. ran x ∷ cleaned x ∷ l) (in_turn-append xs ys)

only_cleaned-append :
    (xs ys : List ℕ) → only_cleaned (xs ++ ys) ≡ only_cleaned xs ++ only_cleaned ys
only_cleaned-append [] ys = refl
only_cleaned-append (x ∷ xs) ys = ap (λ l. cleaned x ∷ l) (only_cleaned-append xs ys)

-- The log of tasks that have run, with tasks behind that were only cleaned.
runs_lem : (xs ys : List ℕ) → runs (in_turn xs ++ only_cleaned ys) ≡ xs
runs_lem [] [] = refl
runs_lem [] (y ∷ ys) = runs_lem [] ys
runs_lem (x ∷ xs) ys = ap (◌∷◌ x) (runs_lem xs ys)

cleanups_lem : (xs ys : List ℕ) → cleanups (in_turn xs ++ only_cleaned ys) ≡ xs ++ ys
cleanups_lem [] [] = refl
cleanups_lem [] (y ∷ ys) = ap (◌∷◌ y) (cleanups_lem [] ys)
cleanups_lem (x ∷ xs) ys = ap (◌∷◌ x) (cleanups_lem xs ys)

module _ {U : Type 0} (body : ℕ → U → U) where
  -- The task of a name, which notes that it has run, and whose cleanup code notes that it has.
  abbrev pub noting : ℕ → QueuedTask (U × List Entry)
  noting n =
      closure_task_with_cleanup (λ (s : U × List Entry). (body n s.0, s.1 ++ ran n ∷ []))
        (λ (s : U × List Entry). (s.0, s.1 ++ cleaned n ∷ []))

  -- What an event makes the worker run, it runs and cleans.
  process_event-noted :
      (e : Event ℕ) (q : TaskQueueStdlib ℕ) (s : U × List Entry)
      → let (done, q') = step q e in
        let (q'', s') = process_event noting (q, s) e in (q'' ≡ q') × (s'.1 ≡ s.1 ++ in_turn done)
  unfolding process_event run_and_delete run destroy step
  process_event-noted (posts t) q s = (refl, sym (append-nil s.1))
  process_event-noted (posts_delayed t delay now) q s = (refl, sym (append-nil s.1))
  process_event-noted (fetches now) q s = elim (Option-cases (get_next_task q now).0.run_task) [
    | inl e ↦ rw (e, process_event) (refl, sym (append-nil s.1))
    | inr (t, e) ↦ rw (e, process_event) (refl, append_assoc s.1 (ran t ∷ []) (cleaned t ∷ []))
  ]
  process_event-noted deletes q s = (refl, sym (append-nil s.1))

  process_events-noted :
      (es : List (Event ℕ)) (q : TaskQueueStdlib ℕ) (s : U × List Entry)
      → let (done, q') = run_events q es in
        let (q'', s') = process_events noting (q, s) es in (q'' ≡ q') × (s'.1 ≡ s.1 ++ in_turn done)
  unfolding process_events run_events
  process_events-noted [] q s = (refl, sym (append-nil s.1))
  process_events-noted (e ∷ es) q s =
      let (done, q') = step q e in
      let (later, q'') = run_events q' es in
      let (same, log) = process_event-noted e q s in
      let (q1, s1) = process_event noting (q, s) e in
      let (rest, all) = process_events-noted es q1 s1 in
      (
        rest ∙ ap (λ x. (run_events x es).1) same,
        all
            ∙ ap (λ x. s1.1 ++ in_turn (run_events x es).0) same
            ∙ ap (λ l. l ++ in_turn later) log
            ∙ append_assoc s.1 (in_turn done) (in_turn later)
            ∙ ap (λ l. s.1 ++ l) (sym (in_turn-append done later)),
      )

  destroy_delayed-noted :
      (es : List (DelayedEntryTimeout × ℕ)) (s : U × List Entry)
      → (destroy_delayed noting es s).1 ≡ s.1 ++ only_cleaned (delayed_tasks es)
  unfolding destroy_delayed destroy
  destroy_delayed-noted [] s = sym (append-nil s.1)
  destroy_delayed-noted ((k, t) ∷ es) s =
      destroy_delayed-noted es (s.0, s.1 ++ cleaned t ∷ [])
      ∙ append_assoc s.1 (cleaned t ∷ []) (only_cleaned (delayed_tasks es))

  destroy_pending-noted :
      (es : List (ℕ × ℕ)) (s : U × List Entry)
      → (destroy_pending noting es s).1 ≡ s.1 ++ only_cleaned (tasks es)
  unfolding destroy_pending destroy
  destroy_pending-noted [] s = sym (append-nil s.1)
  destroy_pending-noted ((o, t) ∷ es) s =
      destroy_pending-noted es (s.0, s.1 ++ cleaned t ∷ [])
      ∙ append_assoc s.1 (cleaned t ∷ []) (only_cleaned (tasks es))

  destroy_queue-noted :
      (q : TaskQueueStdlib ℕ) (s : U × List Entry)
      → (destroy_queue noting q s).1
        ≡ s.1 ++ only_cleaned (delayed_tasks q.delayed_queue ++ tasks q.pending_queue)
  unfolding destroy_queue
  destroy_queue-noted q s =
      let late = delayed_tasks q.delayed_queue in
      rw
        (
          destroy_pending-noted q.pending_queue (destroy_delayed noting q.delayed_queue s),
          destroy_delayed-noted q.delayed_queue s,
          append_assoc s.1 (only_cleaned late) (only_cleaned (tasks q.pending_queue)),
          only_cleaned-append late (tasks q.pending_queue),
        )
        refl

  -- Tasks with cleanup code that are posted to a new queue: whatever the order of the posts, delayed
  -- posts, fetches and deletions, and whatever the tasks do to the program, at every moment the
  -- cleanup code of each task that has run has run right behind it, and no other. When the queue is
  -- then destroyed, no further task runs, and in the end the cleanup code of each task posted has
  -- run exactly once. This holds as long as the counter does not wrap.
  pub cleaned_once :
      (es : List (Event ℕ)) (u : U)
      → HasRoomFor empty_queue es
      → let (done, q) = run_events empty_queue es in
        let (q', s) = process_events noting (empty_queue, (u, [])) es in
        let log = (destroy_queue noting q' s).1 in
        (s.1 ≡ in_turn done) × (runs log ≡ done) × Perm (cleanups log) (posted es)
  unfolding empty_queue
  cleaned_once es u room =
      let (done, q) = run_events empty_queue es in
      let (q', s) = process_events noting (empty_queue, (u, [])) es in
      let (same, turns) = process_events-noted es empty_queue (u, []) in
      let late = delayed_tasks q'.delayed_queue in
      let left = tasks q'.pending_queue in
      let log : (destroy_queue noting q' s).1 ≡ in_turn done ++ only_cleaned (late ++ left) =
        destroy_queue-noted q' s ∙ ap (λ l. l ++ only_cleaned (late ++ left)) turns in
      (
        turns,
        ap runs log ∙ runs_lem done (late ++ left),
        rw (log, cleanups_lem done (late ++ left))
            (Perm.trans (Perm.append_left done (perm_append_comm late left)) (
              subst
                (λ x.
                  Perm (done ++ (tasks x.pending_queue ++ delayed_tasks x.delayed_queue))
                    (posted es))
                (sym same)
                (run_events-perm empty_queue es room (record { within = tt; sorted = tt })))),
      )
