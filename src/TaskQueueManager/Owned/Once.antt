-- ===== src/TaskQueueManager/Owned/Once.antt =====
-- The queues of the registry are deleted once, with it.
use modern_signal_slot.Base.{
  ℕ, suc, ◌+◌, ◌≡◌, refl, true, List, [], ◌∷◌, none, arith, if◌then◌else◌, ◌<◌, ltb, occurrences,
  Bool-cases, Option-cases, inl, inr,
}
use modern_signal_slot.TaskQueue.{
  empty_queue, post_task, post_delayed_task, delete, notify_wake, set_quit, push_task,
  push_delayed_task,
}
use modern_signal_slot.TaskQueueManager.{TaskQueueManager, exist, clear, queue_of}
use modern_signal_slot.TaskQueueManager.Owned.{
  Impls, create_queue, destroy_task_queue, task_queue_post, task_queue_post_delayed, create_queues,
  destroy_queues, clear_queues, owned, RegistryEvent, creates, posts_to, posts_delayed_to, clears,
  registry_event, registry_events,
}

module _ {T : Type 0} where
  -- Every queue that was made is owned once and not deleted, or was deleted once and is not owned;
  -- it has been told to quit exactly if it was deleted.
  pub record IsOwned (m : TaskQueueManager) (st : Impls T) : Type 0 where
    pub balance :
        (q : ℕ)
        → st.deletes q + occurrences q (owned m.queue_map) ≡ (if ltb q st.made then 1 else 0)
    pub quit : (q : ℕ) → q < st.made → (st.impls q).thread_should_quit ≡ ltb 0 (st.deletes q)

  create_queues-IsOwned :
      (m : TaskQueueManager) (st : Impls T) (names : List ℕ)
      → IsOwned m st
      → let (m', st') = create_queues m st names in IsOwned m' st'
  unfolding create_queues create_queue empty_queue
  create_queues-IsOwned m st [] ok = ok
  create_queues-IsOwned m st (name ∷ names) ok = elim (Bool-cases (exist m name)) [
    | inl there ↦ simp there (create_queues-IsOwned m st names ok)
    | inr new ↦ simp new (
        create_queues-IsOwned
          (record { queue_map = (name, st.made) ∷ m.queue_map; made = suc m.made })
          (create_queue st).0 names
          (record {
            balance = λ q. ground (arith, ok.balance q);
            quit = λ q lt. ground (arith, ok.quit q, ok.balance q, ok.balance st.made);
          }))
  ]

  task_queue_post-IsOwned :
      (m : TaskQueueManager) (st : Impls T) (q : ℕ) (task : T)
      → IsOwned m st
      → IsOwned m (task_queue_post st q task)
  unfolding task_queue_post post_task push_task notify_wake
  task_queue_post-IsOwned m st q task ok = record {
    balance = ok.balance;
    quit = λ r lt. ground (arith, ok.quit r lt, ok.quit q);
  }

  task_queue_post_delayed-IsOwned :
      (m : TaskQueueManager) (st : Impls T) (q : ℕ) (task : T) (delay now : ℕ)
      → IsOwned m st
      → IsOwned m (task_queue_post_delayed st q task delay now)
  unfolding task_queue_post_delayed post_delayed_task push_delayed_task notify_wake
  task_queue_post_delayed-IsOwned m st q task delay now ok = record {
    balance = ok.balance;
    quit = λ r lt. ground (arith, ok.quit r lt, ok.quit q);
  }

  destroy_queues-balance :
      (qs : List (ℕ × ℕ)) (st : Impls T) (q : ℕ)
      → (destroy_queues qs st).deletes q ≡ st.deletes q + occurrences q (owned qs)
  unfolding destroy_queues destroy_task_queue
  destroy_queues-balance [] st q = omega arith
  destroy_queues-balance ((name, r) ∷ rest) st q =
      ground (arith, destroy_queues-balance rest (destroy_task_queue st r) q)

  destroy_queues-made : (qs : List (ℕ × ℕ)) (st : Impls T) → (destroy_queues qs st).made ≡ st.made
  unfolding destroy_queues destroy_task_queue
  destroy_queues-made [] st = refl
  destroy_queues-made ((name, r) ∷ rest) st = destroy_queues-made rest (destroy_task_queue st r)

  -- A queue has been told to quit exactly if it was deleted.
  abbrev QuitDeleted : Impls T → Type 0
  QuitDeleted st = (q : ℕ) → q < st.made → (st.impls q).thread_should_quit ≡ ltb 0 (st.deletes q)

  destroy_task_queue-QuitDeleted :
      (st : Impls T) (r : ℕ) → QuitDeleted st → QuitDeleted (destroy_task_queue st r)
  unfolding destroy_task_queue delete set_quit notify_wake
  destroy_task_queue-QuitDeleted st r ok = λ q lt. ground (arith, ok q lt)

  destroy_queues-QuitDeleted :
      (qs : List (ℕ × ℕ)) (st : Impls T) → QuitDeleted st → QuitDeleted (destroy_queues qs st)
  unfolding destroy_queues
  destroy_queues-QuitDeleted [] st ok = ok
  destroy_queues-QuitDeleted ((name, r) ∷ rest) st ok =
      destroy_queues-QuitDeleted rest (destroy_task_queue st r)
        (destroy_task_queue-QuitDeleted st r ok)

  clear_queues-IsOwned :
      (m : TaskQueueManager) (st : Impls T)
      → IsOwned m st
      → let (m', st') = clear_queues m st in IsOwned m' st'
  unfolding clear_queues clear
  clear_queues-IsOwned m st ok = record {
    balance = λ q.
        rw (destroy_queues-balance m.queue_map st q, destroy_queues-made m.queue_map st)
          (omega (arith, ok.balance q));
    quit = destroy_queues-QuitDeleted m.queue_map st ok.quit;
  }

  registry_event-IsOwned :
      (e : RegistryEvent T) (m : TaskQueueManager) (st : Impls T)
      → IsOwned m st
      → let (m', st') = registry_event e (m, st) in IsOwned m' st'
  unfolding registry_event
  registry_event-IsOwned (creates names) m st ok = create_queues-IsOwned m st names ok
  registry_event-IsOwned (posts_to name task) m st ok = elim (Option-cases (queue_of m name)) [
    | inl e ↦ rw (e, registry_event) ok
    | inr (q, e) ↦ rw (e, registry_event) (task_queue_post-IsOwned m st q task ok)
  ]
  registry_event-IsOwned (posts_delayed_to name task delay now) m st ok =
      elim (Option-cases (queue_of m name)) [
        | inl e ↦ rw (e, registry_event) ok
        | inr (q, e) ↦
            rw (e, registry_event) (task_queue_post_delayed-IsOwned m st q task delay now ok)
      ]
  registry_event-IsOwned clears m st ok = clear_queues-IsOwned m st ok

  -- From a state in which it holds, whatever a program creates, posts and destroys through the
  -- registry: every queue that was made either stands in the registry once and has not been deleted,
  -- or does not and has been deleted exactly once; a queue that was made has been told to quit exactly
  -- if it was deleted.
  pub registry_events-IsOwned :
      (es : List (RegistryEvent T)) (m : TaskQueueManager) (st : Impls T)
      → IsOwned m st
      → let (m', st') = registry_events es (m, st) in IsOwned m' st'
  unfolding registry_events
  registry_events-IsOwned [] m st ok = ok
  registry_events-IsOwned (e ∷ es) m st ok =
      let (m', st') = registry_event e (m, st) in
      registry_events-IsOwned es m' st' (registry_event-IsOwned e m st ok)

  -- When the registry is destroyed after any use of it, every queue that was made has been deleted
  -- exactly once and has been told to quit, and no name has a queue any more.
  pub registry_events-destroyed :
      (es : List (RegistryEvent T)) (m : TaskQueueManager) (st : Impls T) (q name : ℕ)
      → IsOwned m st
      → q < (registry_events es (m, st)).1.made
      → let (m', st') = registry_event clears (registry_events es (m, st)) in
        (st'.deletes q ≡ 1) × ((st'.impls q).thread_should_quit ≡ true) × (queue_of m' name ≡ none)
  unfolding registry_event clear_queues clear queue_of exist
  registry_events-destroyed es m st q name ok lt =
      let (m', st') = registry_events es (m, st) in
      let done = clear_queues-IsOwned m' st' (registry_events-IsOwned es m st ok) in
      let made = destroy_queues-made m'.queue_map st' in
      let there : q < (destroy_queues m'.queue_map st').made = rw made lt in
      let once : (destroy_queues m'.queue_map st').deletes q ≡ 1 =
        ground (arith, done.balance q, there) in
      (once, ground (arith, done.quit q there, once), refl)
