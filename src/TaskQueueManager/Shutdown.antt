-- ===== src/TaskQueueManager/Shutdown.antt =====
-- core/task_queue_manager.cpp and core/task_queue_stdlib.cpp: the destruction of the registry against
-- the workers of its queues. `clear` holds `m_mutex` while it deletes the queues, each of which joins
-- its worker, and `queue` and `hasQueue`, which a task may call, lock `m_mutex`.
pub mod Stuck
pub mod Joined
pub mod Ends
use modern_signal_slot.Base.{
  ℕ, ◌≡◌, ◌≢◌, refl, sym, ◌∙◌, ap, Bool, true, false, List, [], ◌∷◌, Option, none, some, arith,
  ◌==◌, if◌then◌else◌, Bool-cases, inl, inr, ==-refl,
}

-- What a task does next: it calls `queue` or `hasQueue`, or anything else that returns.
pub data TaskStep : Type 0 where
  asks works : TaskStep

-- A worker: between two tasks, in a task with what is left of it, in a call of the registry that has
-- the mutex, and ended.
pub data WorkerPlace : Type 0 where
  idle : WorkerPlace
  inside : List TaskStep → WorkerPlace
  locked : List TaskStep → WorkerPlace
  finished : WorkerPlace

-- The thread in the destructor of the registry: before `clear` has the mutex, with the queues that
-- are left, in the join of a queue's worker, and behind `clear`.
pub data ClearPlace : Type 0 where
  before_clear : ClearPlace
  deleting : List ℕ → ClearPlace
  joining : ℕ → List ℕ → ClearPlace
  cleared : ClearPlace

-- Who has `m_mutex`.
pub data Owner : Type 0 where
  nobody clearer : Owner
  worker : ℕ → Owner

pub record Registry : Type 0 where
  pub queues : List ℕ
  pub mutex : Owner
  pub clearing : ClearPlace
  pub workers : ℕ → WorkerPlace
  pub quit : ℕ → Bool

abbrev pub at_worker : Registry → ℕ → WorkerPlace → Registry
at_worker s q p = record s { workers = λ r. if q == r then p else s.workers r }

pub data Step (s u : Registry) : Type 0 where
  clear_lock :
      s.clearing ≡ before_clear
      → s.mutex ≡ nobody
      → u ≡ record s { clearing = deleting s.queues; mutex = clearer }
      → Step s u
  clear_delete :
      (q : ℕ) (qs : List ℕ)
      → s.clearing ≡ deleting (q ∷ qs)
      → u ≡ record s { clearing = joining q qs; quit = λ r. if q == r then true else s.quit r }
      → Step s u
  clear_join :
      (q : ℕ) (qs : List ℕ)
      → s.clearing ≡ joining q qs
      → s.workers q ≡ finished
      → u ≡ record s { clearing = deleting qs }
      → Step s u
  clear_unlock :
      s.clearing ≡ deleting [] → u ≡ record s { clearing = cleared; mutex = nobody } → Step s u
  work_take :
      (q : ℕ) (task : List TaskStep)
      → s.workers q ≡ idle
      → s.quit q ≡ false
      → u ≡ at_worker s q (inside task)
      → Step s u
  work_end : (q : ℕ) → s.workers q ≡ idle → s.quit q ≡ true → u ≡ at_worker s q finished → Step s u
  work_on :
      (q : ℕ) (rest : List TaskStep)
      → s.workers q ≡ inside (works ∷ rest)
      → u ≡ at_worker s q (inside rest)
      → Step s u
  work_lock :
      (q : ℕ) (rest : List TaskStep)
      → s.workers q ≡ inside (asks ∷ rest)
      → s.mutex ≡ nobody
      → u ≡ record (at_worker s q (locked rest)) { mutex = worker q }
      → Step s u
  work_unlock :
      (q : ℕ) (rest : List TaskStep)
      → s.workers q ≡ locked rest
      → u ≡ record (at_worker s q (inside rest)) { mutex = nobody }
      → Step s u
  work_return : (q : ℕ) → s.workers q ≡ inside [] → u ≡ at_worker s q idle → Step s u

pub data Leads : Registry → Registry → Type 0 where
  here : {s : Registry} → Leads s s
  there : {s u v : Registry} → Step s u → Leads u v → Leads s v

-- The registry in use, with the tasks that run at the moment.
pub data Reach : Registry → Type 0 where
  begins :
      {s : Registry}
      → s.mutex ≡ nobody
      → s.clearing ≡ before_clear
      → ((q : ℕ) → s.workers q ≡ idle)
      → Reach s
  next : {s u : Registry} → Reach s → Step s u → Reach u

abbrev pub has_lock : ClearPlace → Bool
has_lock before_clear = false
has_lock (deleting qs) = true
has_lock (joining q qs) = true
has_lock cleared = false
