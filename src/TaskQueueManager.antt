-- ===== src/TaskQueueManager.antt =====
-- core/task_queue_manager.cpp: the registry of task queues by name. `std::unordered_map` is an association
-- list here, since nothing depends on its order. `TaskQueue::Create` gives a queue an unused number.
pub mod Owned
pub mod Shutdown
use modern_signal_slot.Base.{
  is_some, ℕ, suc, ◌≡◌, ◌||◌, refl, Bool, true, false, List, [], ◌∷◌, Option, none, some, arith,
  if◌then◌else◌, ◌==◌,
}

pub record TaskQueueManager : Type 0 where
  pub queue_map : List (ℕ × ℕ)
  pub made : ℕ

-- `m_queueMap.find`, by the name's number.
abbrev pub find : ℕ → List (ℕ × ℕ) → Option ℕ
find name [] = none
find name ((n, q) ∷ rest) = if n == name then some q else find name rest

unfoldable pub exist : TaskQueueManager → ℕ → Bool
exist m name = elim (find name m.queue_map) [ none ↦ false | some q ↦ true ]

-- The body of the loop in `create`, for a name that does not exist yet, and the loop.
pub create_one : TaskQueueManager → ℕ → TaskQueueManager
unfolding exist
create_one m name =
    if exist m name
    then m
    else record { queue_map = (name, m.made) ∷ m.queue_map; made = suc m.made }

pub create : TaskQueueManager → List ℕ → TaskQueueManager
unfolding create_one
create m [] = m
create m (name ∷ names) = create (create_one m name) names

pub clear : TaskQueueManager → TaskQueueManager
clear m = record m { queue_map = [] }

pub has_queue : TaskQueueManager → ℕ → Bool
unfolding exist
has_queue m name = exist m name

unfoldable pub queue_of : TaskQueueManager → ℕ → Option ℕ
unfolding exist
queue_of m name = if exist m name then find name m.queue_map else none

queue_of-find : (m : TaskQueueManager) (name : ℕ) → queue_of m name ≡ find name m.queue_map
unfolding queue_of exist
queue_of-find m name = ground arith

create_one-keeps :
    (m : TaskQueueManager) (x name q : ℕ)
    → find name m.queue_map ≡ some q
    → find name (create_one m x).queue_map ≡ some q
unfolding create_one exist
create_one-keeps m x name q h = ground arith

create-keeps :
    (m : TaskQueueManager) (xs : List ℕ) (name q : ℕ)
    → find name m.queue_map ≡ some q
    → find name (create m xs).queue_map ≡ some q
unfolding create
create-keeps m [] name q h = h
create-keeps m (x ∷ xs) name q h =
    create-keeps (create_one m x) xs name q (create_one-keeps m x name q h)

-- `create` leaves the queues that there are under their names, also those that it is given again.
pub queue_of-create :
    (m : TaskQueueManager) (xs : List ℕ) (name q : ℕ)
    → queue_of m name ≡ some q
    → queue_of (create m xs) name ≡ some q
queue_of-create m xs name q h =
    rw (queue_of-find (create m xs) name)
      (create-keeps m xs name q (rw (queue_of-find m name) at h))

-- Whether a name stands in a list.
abbrev pub named : ℕ → List ℕ → Bool
named name [] = false
named name (x ∷ xs) = x == name || named name xs

create_one-has :
    (m : TaskQueueManager) (x name : ℕ)
    → is_some (find name (create_one m x).queue_map)
      ≡ (x == name || is_some (find name m.queue_map))
unfolding create_one exist
create_one-has m x name = ground arith

create-has :
    (m : TaskQueueManager) (xs : List ℕ) (name : ℕ)
    → is_some (find name (create m xs).queue_map)
      ≡ (named name xs || is_some (find name m.queue_map))
unfolding create
create-has m [] name = refl
create-has m (x ∷ xs) name =
    ground (arith, create-has (create_one m x) xs name, create_one-has m x name)

-- After `create` the registry has exactly the queues that it had and those of the list, and `queue`
-- returns one for each of them; after `clear` it has none.
pub has_queue-create :
    (m : TaskQueueManager) (xs : List ℕ) (name : ℕ)
    → (has_queue (create m xs) name ≡ (named name xs || has_queue m name))
      × (has_queue (create m xs) name ≡ is_some (queue_of (create m xs) name))
      × (has_queue (clear m) name ≡ false)
unfolding has_queue exist clear
has_queue-create m xs name =
    (ground (arith, create-has m xs name), ground (arith, queue_of-find (create m xs) name), refl)
