-- ===== src/Tests/Registries.antt =====
-- The destruction of a registry with one queue, whose worker runs a task.
use modern_signal_slot.Base.{
  ℕ, ◌≡◌, elem, ◌≢◌, refl, true, false, List, [], ◌∷◌, ◌==◌, if◌then◌else◌, Bool-cases, inl, inr,
}
use modern_signal_slot.TaskQueueManager.Shutdown.{
  TaskStep, asks, works, idle, inside, finished, Leads, before_clear, deleting, joining, cleared,
  nobody, clearer, Registry, at_worker, Step, clear_lock, clear_delete, work_take, here, Reach,
  begins, next,
}
use modern_signal_slot.TaskQueueManager.Shutdown.Stuck.{IsStuck, never_cleared}
use modern_signal_slot.TaskQueueManager.Shutdown.Ends.{IsQuiet, can_clear}

abbrev resting : Registry
resting = record {
  queues = 7 ∷ [];
  mutex = nobody;
  clearing = before_clear;
  workers = λ q. idle;
  quit = λ q. false;
}

-- The worker is in a task, and then the destructor of the registry has begun to join it.
abbrev busy : List TaskStep → Registry
busy task = at_worker resting 7 (inside task)

abbrev entered : List TaskStep → Registry
entered task = record (busy task) { clearing = deleting (7 ∷ []); mutex = clearer }

abbrev joined : List TaskStep → Registry
joined task = record (entered task) {
  clearing = joining 7 [];
  quit = λ q. if 7 == q then true else false;
}

joined-Reach : (task : List TaskStep) → Reach (joined task)
joined-Reach task =
    let take : Step resting (busy task) = work_take 7 task refl refl refl in
    let lock : Step (busy task) (entered task) = clear_lock refl refl refl in
    let join : Step (entered task) (joined task) = clear_delete 7 [] refl refl in
    next (next (next (begins refl refl (λ q. refl)) take) lock) join

never_cleared_example : IsStuck 7 (joined (asks ∷ [])) × ((joined (asks ∷ [])).clearing ≢ cleared)
never_cleared_example =
    never_cleared 7 (joined-Reach (asks ∷ []))
      (record { left = []; joins = refl; rest = []; asking = refl }) here

all-IsQuiet : (q : ℕ) → IsQuiet ((joined (works ∷ [])).workers q)
all-IsQuiet q = elim (Bool-cases (7 == q)) [ inl e ↦ simp e tt | inr e ↦ simp e tt ]

can_clear_example :
    (u : Registry) × Leads (joined (works ∷ [])) u
    × (u.clearing ≡ cleared)
    × ((q : ℕ) → elem q (7 ∷ []) ≡ true → u.workers q ≡ finished)
can_clear_example = can_clear (joined-Reach (works ∷ [])) refl all-IsQuiet
