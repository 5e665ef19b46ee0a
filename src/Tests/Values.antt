-- ===== src/Tests/Values.antt =====
-- A copy-on-write value with three handles, a spin mutex and a registry of queues.
use modern_signal_slot.Base.{
  ℕ, ◌≡◌, ◌≢◌, ◌+◌, refl, false, List, [], ◌∷◌, none, some, arith, ltb, ◌==◌, if◌then◌else◌,
}
use modern_signal_slot.CopyOnWrite.{Heap, write, read, assign_value}
use modern_signal_slot.CopyOnWrite.References.{IsValid}
use modern_signal_slot.CopyOnWrite.Sharing.{Returns, write-read}
use modern_signal_slot.CopyOnWrite.Snapshots.{
  Store, ListEvent, reads, drops, changes, Shows, list_events,
}
use modern_signal_slot.CopyOnWrite.Snapshots.Refine.{Leaves, list_events-Shows}
use modern_signal_slot.SpinMutex.{
  Mutex, free_mutex, move, Reach, start, next, begin_lock, look, exchange, looking, trying, inside,
  try_lock, mutual_exclusion,
}
use modern_signal_slot.TaskQueue.{empty_queue}
use modern_signal_slot.TaskQueueManager.Owned.{
  Impls, RegistryEvent, creates, posts_to, posts_delayed_to, clears, registry_events,
}
use modern_signal_slot.TaskQueueManager.Owned.Once.{IsOwned, registry_events-IsOwned}
use modern_signal_slot.TaskQueueManager.{TaskQueueManager, exist, queue_of}

-- Handles 0 and 1 share payload 0, handle 2 has payload 1.
abbrev shared_heap : Heap ℕ
shared_heap = record {
  count = λ p. if p == 0 then 2 else if p == 1 then 1 else 0;
  value = λ p. if p == 0 then 70 else 71;
  deleted = λ p. false;
  payloads = 2;
  m_data = λ h. if h == 2 then some 1 else if ltb h 2 then some 0 else none;
  handles = 3;
}

shared_heap-IsValid : IsValid shared_heap
shared_heap-IsValid = record {
  counted = λ p. ground arith;
  fresh = λ p le. ground arith;
  gone = λ p g. ground arith;
  old = λ p g. ground arith;
}

write-read_example :
    Returns
      (λ v.
        (read (assign_value v 0 9) 1 ≡ read shared_heap 1) × (read (assign_value v 0 9) 0 ≡ some 9))
      (write shared_heap 0)
write-read_example =
    write-read shared_heap 0 1 0 9 shared_heap-IsValid (omega arith) (omega arith)
      (λ e. ground arith) refl

-- Handle 0 is a signal's list, and two readers hold the handles 2 and 1.
abbrev two_readers : Store ℕ
two_readers = record { heap = shared_heap; copies = 2 ∷ 1 ∷ [] }

two_readers-Shows : Shows two_readers (record { current = 70; snapshots = 71 ∷ 70 ∷ [] })
unfolding read
two_readers-Shows = record {
  sound = shared_heap-IsValid;
  own = omega arith;
  list = refl;
  each = ((refl, omega arith, omega arith, refl, (refl, omega arith, omega arith, refl, tt)));
}

abbrev reading : List (ListEvent ℕ)
reading = changes (λ n. n + 5) ∷ reads ∷ drops 2 ∷ changes (λ n. n + 5) ∷ []

list_events-Shows_example :
    Leaves
      (λ u. Shows u (record { current = 80; snapshots = 75 ∷ 71 ∷ [] }))
      (list_events reading two_readers)
list_events-Shows_example =
    list_events-Shows reading two_readers (record { current = 70; snapshots = 71 ∷ 70 ∷ [] })
      two_readers-Shows

-- Thread 4 takes the mutex.
abbrev begun : Mutex
begun = move free_mutex 4 looking

abbrev looked : Mutex
looked = move begun 4 trying

abbrev taken : Mutex
taken = move (record looked { state = false }) 4 inside

taken-Reach : Reach taken
unfolding try_lock
taken-Reach =
    next {m = looked}
      (next {m = begun} (next {m = free_mutex} start (begin_lock 4 refl refl)) (look 4 refl refl))
      (exchange 4 refl refl)

mutual_exclusion_example : taken.places 5 ≢ inside
mutual_exclusion_example = mutual_exclusion 4 5 taken-Reach (λ e. ground arith) refl

abbrev registry : TaskQueueManager
registry = record { queue_map = (8, 0) ∷ []; made = 1 }

has_eight : queue_of registry 8 ≡ some 0
unfolding queue_of exist
has_eight = refl

abbrev no_registry : TaskQueueManager
no_registry = record { queue_map = []; made = 0 }

abbrev no_impls : Impls ℕ
no_impls = record { impls = λ q. empty_queue; deletes = λ q. 0; made = 0 }

nothing-IsOwned : IsOwned no_registry no_impls
nothing-IsOwned = record { balance = λ q. ground arith; quit = λ q lt. absurd (omega arith) }

-- Two queues are made, one of them by a name that is given twice.
abbrev uses : List (RegistryEvent ℕ)
uses = creates (8 ∷ 9 ∷ 8 ∷ []) ∷ posts_to 9 70 ∷ posts_delayed_to 8 71 5 0 ∷ creates (8 ∷ []) ∷ []

registry_events-IsOwned_example :
    let (m, st) = registry_events (clears ∷ uses) (no_registry, no_impls) in IsOwned m st
registry_events-IsOwned_example =
    registry_events-IsOwned (clears ∷ uses) no_registry no_impls nothing-IsOwned
