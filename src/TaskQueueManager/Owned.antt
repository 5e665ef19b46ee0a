-- ===== src/TaskQueueManager/Owned.antt =====
-- core/task_queue.cpp and core/task_queue_manager.cpp: the registry and the queues that it owns. A
-- `TaskQueue` is the number of its implementation, and nothing else stands in it.
pub mod Once
use modern_signal_slot.Base.{
  ℕ, zero, suc, ◌+◌, ◌≡◌, ◌≢◌, refl, ◌∙◌, Bool, true, false, ◌&&◌, List, [], ◌∷◌, Option, none,
  some, arith, if◌then◌else◌, ◌==◌, ◌<◌, sym, ap, ltb, occurrences, Bool-cases, Option-cases, inl,
  inr,
}
use modern_signal_slot.TaskQueue.{
  TaskQueueStdlib, empty_queue, post_task, post_delayed_task, delete, notify_wake, set_quit,
  push_task,
}
use modern_signal_slot.TaskQueueManager.{
  TaskQueueManager, find, exist, create_one, create, clear, queue_of,
}

-- The implementations, how many were made, and how often `Delete` was called on each.
pub record Impls (T : Type 0) : Type 0 where
  pub impls : ℕ → TaskQueueStdlib T
  pub deletes : ℕ → ℕ
  pub made : ℕ

module _ {T : Type 0} where
  abbrev pub set_impl : Impls T → ℕ → TaskQueueStdlib T → Impls T
  set_impl st q s = record st { impls = λ r. if q == r then s else st.impls r }

  -- `TaskQueue::Create`, with the two constructors.
  pub create_queue : Impls T → Impls T × ℕ
  create_queue st = (record (set_impl st st.made empty_queue) { made = suc st.made }, st.made)

  -- `~TaskQueue`, which calls `Delete`.
  pub destroy_task_queue : Impls T → ℕ → Impls T
  destroy_task_queue st q = record (set_impl st q (delete (st.impls q))) {
    deletes = λ r. if q == r then suc (st.deletes r) else st.deletes r;
  }

  -- `TaskQueue::PostTask` and `TaskQueue::PostDelayedTask`
  pub task_queue_post : Impls T → ℕ → T → Impls T
  task_queue_post st q task = set_impl st q (post_task (st.impls q) task)

  pub task_queue_post_delayed : Impls T → ℕ → T → ℕ → ℕ → Impls T
  task_queue_post_delayed st q task delay now =
      set_impl st q (post_delayed_task (st.impls q) task delay now)

  -- The loop of `create`, with the queues that it makes.
  pub create_queues : TaskQueueManager → Impls T → List ℕ → TaskQueueManager × Impls T
  unfolding create_queue
  create_queues m st [] = (m, st)
  create_queues m st (name ∷ names) =
      let (st', q) = create_queue st in
      let rest = create_queues m st names in
      let made =
        create_queues (record { queue_map = (name, q) ∷ m.queue_map; made = suc m.made }) st'
          names in
      if exist m name then rest else made

  -- The queues of the map are destroyed one after the other.
  pub destroy_queues : List (ℕ × ℕ) → Impls T → Impls T
  unfolding destroy_task_queue
  destroy_queues [] st = st
  destroy_queues ((name, q) ∷ rest) st = destroy_queues rest (destroy_task_queue st q)

  -- `clear`, which the destructor of the registry calls.
  pub clear_queues : TaskQueueManager → Impls T → TaskQueueManager × Impls T
  unfolding destroy_queues clear
  clear_queues m st = (clear m, destroy_queues m.queue_map st)

  -- `create` on the names and `create` on the queues are the same for the registry.
  create_queues-create :
      (m : TaskQueueManager) (st : Impls T) (names : List ℕ)
      → m.made ≡ st.made
      → (create_queues m st names).0 ≡ create m names
  unfolding create_queues create_queue create create_one
  create_queues-create m st [] e = refl
  create_queues-create m st (name ∷ names) e = elim (Bool-cases (exist m name)) [
    | inl there ↦ simp there (create_queues-create m st names e)
    | inr new ↦ simp new (
        create_queues-create
          (record { queue_map = (name, st.made) ∷ m.queue_map; made = suc m.made })
          (create_queue st).0 names (ap suc e)
        ∙ ap (λ n. create (record { queue_map = (name, n) ∷ m.queue_map; made = suc m.made }) names)
            (sym e))
  ]

-- The queues that the registry owns.
abbrev pub owned : List (ℕ × ℕ) → List ℕ
owned [] = []
owned ((name, q) ∷ rest) = q ∷ owned rest

-- What a program does with the registry: it creates queues by their names, posts to the queue of a
-- name, at once or delayed, if there is one, and destroys the registry.
pub data RegistryEvent (T : Type 0) : Type 0 where
  creates : List ℕ → RegistryEvent T
  posts_to : ℕ → T → RegistryEvent T
  posts_delayed_to : ℕ → T → ℕ → ℕ → RegistryEvent T
  clears : RegistryEvent T

module _ {T : Type 0} where
  pub registry_event : RegistryEvent T → TaskQueueManager × Impls T → TaskQueueManager × Impls T
  unfolding create_queues clear_queues task_queue_post task_queue_post_delayed
  registry_event (creates names) (m, st) = create_queues m st names
  registry_event (posts_to name task) (m, st) = elim (queue_of m name) [
    | none ↦ (m, st)
    | some q ↦ (m, task_queue_post st q task)
  ]
  registry_event (posts_delayed_to name task delay now) (m, st) = elim (queue_of m name) [
    | none ↦ (m, st)
    | some q ↦ (m, task_queue_post_delayed st q task delay now)
  ]
  registry_event clears (m, st) = clear_queues m st

  pub registry_events :
      List (RegistryEvent T) → TaskQueueManager × Impls T → TaskQueueManager × Impls T
  unfolding registry_event
  registry_events [] s = s
  registry_events (e ∷ es) s = registry_events es (registry_event e s)
