-- ===== src/TaskQueue/Start.antt =====
-- The constructor of `TaskQueueStdlib`, core/task_queue_stdlib.cpp, which starts the worker thread
-- and waits for it: the steps of the two threads, between which the other may run. `start_mutex_` is
-- held or free, and a `wait` whose test fails gives it up and blocks in one step.
use modern_signal_slot.Base.{◌≡◌, ◌≢◌, refl, Bool, true, false, arith, ◌&&◌, ◌||◌}

-- The constructor: before it has the lock, about to test `started_` under it, blocked in `wait`,
-- woken and without the lock, behind the `wait`.
pub data Maker : Type 0 where
  locking testing blocked woken returned : Maker

-- The thread: before the `CurrentTaskQueueSetter`, before it has the lock, about to set
-- `started_`, about to notify and give up the lock, in `ProcessTasks`.
pub data Worker : Type 0 where
  born at_lock storing notifying processing : Worker

pub record Starting : Type 0 where
  pub maker : Maker
  pub worker : Worker
  pub locked : Bool
  pub started : Bool
  pub current_set : Bool

-- `notify_one` wakes a constructor that is blocked, and is lost on any other.
abbrev pub wake_maker : Maker → Maker
wake_maker locking = locking
wake_maker testing = testing
wake_maker blocked = woken
wake_maker woken = woken
wake_maker returned = returned

pub data Step (s u : Starting) : Type 0 where
  make_lock :
      s.maker ≡ locking
      → s.locked ≡ false
      → u ≡ record s { maker = testing; locked = true }
      → Step s u
  make_relock :
      s.maker ≡ woken
      → s.locked ≡ false
      → u ≡ record s { maker = testing; locked = true }
      → Step s u
  make_return :
      s.maker ≡ testing
      → s.started ≡ true
      → u ≡ record s { maker = returned; locked = false }
      → Step s u
  make_block :
      s.maker ≡ testing
      → s.started ≡ false
      → u ≡ record s { maker = blocked; locked = false }
      → Step s u
  work_current : s.worker ≡ born → u ≡ record s { worker = at_lock; current_set = true } → Step s u
  work_lock :
      s.worker ≡ at_lock
      → s.locked ≡ false
      → u ≡ record s { worker = storing; locked = true }
      → Step s u
  work_store : s.worker ≡ storing → u ≡ record s { worker = notifying; started = true } → Step s u
  work_notify :
      s.worker ≡ notifying
      → u ≡ record s { worker = processing; maker = wake_maker s.maker; locked = false }
      → Step s u

abbrev pub begun : Starting
begun = record {
  maker = locking;
  worker = born;
  locked = false;
  started = false;
  current_set = false;
}

-- The states that are reached. The `wait` may also end without any notification.
pub data Reach : Starting → Type 0 where
  start : Reach begun
  next : {s u : Starting} → Reach s → Step s u → Reach u
  spurious : {s : Starting} → Reach s → s.maker ≡ blocked → Reach (record s { maker = woken })

-- The states that a state leads to by the steps of the two threads, without a spurious wake-up.
pub data Leads : Starting → Starting → Type 0 where
  here : {s : Starting} → Leads s s
  there : {s u v : Starting} → Step s u → Leads u v → Leads s v

abbrev holds_make : Maker → Bool
holds_make locking = false
holds_make testing = true
holds_make blocked = false
holds_make woken = false
holds_make returned = false

abbrev holds_work : Worker → Bool
holds_work born = false
holds_work at_lock = false
holds_work storing = true
holds_work notifying = true
holds_work processing = false

abbrev has_stored : Worker → Bool
has_stored born = false
has_stored at_lock = false
has_stored storing = false
has_stored notifying = true
has_stored processing = true

abbrev has_set : Worker → Bool
has_set born = false
has_set at_lock = true
has_set storing = true
has_set notifying = true
has_set processing = true

record Inv (s : Starting) : Type 0 where
  lock : s.locked ≡ (holds_make s.maker || holds_work s.worker)
  apart : (holds_make s.maker && holds_work s.worker) ≡ false
  stored : s.started ≡ has_stored s.worker
  current : s.current_set ≡ has_set s.worker
  asleep : s.maker ≡ blocked → s.worker ≢ processing
  behind : s.maker ≡ returned → s.started ≡ true

Step-Inv : {s u : Starting} → Step s u → Inv s → Inv u
Step-Inv (make_lock m l e) inv = rw e (ground arith)
Step-Inv (make_relock m l e) inv = rw e (ground arith)
Step-Inv (make_return m st e) inv = rw e (ground arith)
Step-Inv (make_block m st e) inv = rw e (ground arith)
Step-Inv (work_current m e) inv = rw e (ground arith)
Step-Inv (work_lock m l e) inv = rw e (ground arith)
Step-Inv (work_store m e) inv = rw e (ground arith)
Step-Inv (work_notify m e) inv = rw e (ground arith)

woken-Inv : (s : Starting) → Inv s → s.maker ≡ blocked → Inv (record s { maker = woken })
woken-Inv s inv m = ground arith

Reach-Inv : {s : Starting} → Reach s → Inv s
Reach-Inv start = ground arith
Reach-Inv (next r st) = Step-Inv st (Reach-Inv r)
Reach-Inv (spurious {s} r m) = woken-Inv s (Reach-Inv r) m

-- When the constructor has returned, the thread has said that it runs, and the queue is the current
-- one of the thread.
pub returned_started :
    {s : Starting} → Reach s → s.maker ≡ returned → (s.started ≡ true) × (s.current_set ≡ true)
returned_started {s} r e =
    let inv = Reach-Inv r in (inv.behind e, ground (arith, inv, inv.behind e))

abbrev pub CanReturn : Starting → Type 0
CanReturn s = (u : Starting) × Leads s u × (u.maker ≡ returned)

Step-CanReturn : {s u : Starting} → Step s u → CanReturn u → CanReturn s
Step-CanReturn st (v, path, e) = (v, there st path, e)

test_passes : (s : Starting) → s.maker ≡ testing → s.started ≡ true → CanReturn s
test_passes s m st = Step-CanReturn (make_return m st refl) (_, here, refl)

-- The thread has notified.
from_processing :
    (s : Starting) (m : Maker) → s.maker ≡ m → s.worker ≡ processing → Inv s → CanReturn s
from_processing s locking m w inv =
    Step-CanReturn (make_lock m (ground (arith, inv, m, w)) refl)
      (test_passes _ refl (ground (arith, inv, w)))
from_processing s testing m w inv = test_passes s m (ground (arith, inv, w))
from_processing s blocked m w inv = absurd (inv.asleep m w)
from_processing s woken m w inv =
    Step-CanReturn (make_relock m (ground (arith, inv, m, w)) refl)
      (test_passes _ refl (ground (arith, inv, w)))
from_processing s returned m w inv = (s, here, m)

from_notifying : (s : Starting) → s.worker ≡ notifying → Inv s → CanReturn s
from_notifying s w inv =
    let st : Step s (record s { worker = processing; maker = wake_maker s.maker; locked = false }) =
      work_notify w refl in
    Step-CanReturn st (from_processing _ (wake_maker s.maker) refl refl (Step-Inv st inv))

from_storing : (s : Starting) → s.worker ≡ storing → Inv s → CanReturn s
from_storing s w inv =
    let st : Step s (record s { worker = notifying; started = true }) = work_store w refl in
    Step-CanReturn st (from_notifying _ refl (Step-Inv st inv))

from_free_lock : (s : Starting) → s.worker ≡ at_lock → s.locked ≡ false → Inv s → CanReturn s
from_free_lock s w l inv =
    let st : Step s (record s { worker = storing; locked = true }) = work_lock w l refl in
    Step-CanReturn st (from_storing _ refl (Step-Inv st inv))

-- The constructor has the lock and will block.
from_at_lock : (s : Starting) (m : Maker) → s.maker ≡ m → s.worker ≡ at_lock → Inv s → CanReturn s
from_at_lock s testing m w inv =
    let st : Step s (record s { maker = blocked; locked = false }) =
      make_block m (ground (arith, inv, w)) refl in
    Step-CanReturn st (from_free_lock _ w refl (Step-Inv st inv))
from_at_lock s locking m w inv = from_free_lock s w (ground (arith, inv, m, w)) inv
from_at_lock s blocked m w inv = from_free_lock s w (ground (arith, inv, m, w)) inv
from_at_lock s woken m w inv = from_free_lock s w (ground (arith, inv, m, w)) inv
from_at_lock s returned m w inv = (s, here, m)

from_any : (s : Starting) (w : Worker) → s.worker ≡ w → Inv s → CanReturn s
from_any s born w inv =
    let st : Step s (record s { worker = at_lock; current_set = true }) = work_current w refl in
    Step-CanReturn st (from_at_lock _ s.maker refl refl (Step-Inv st inv))
from_any s at_lock w inv = from_at_lock s s.maker refl w inv
from_any s storing w inv = from_storing s w inv
from_any s notifying w inv = from_notifying s w inv
from_any s processing w inv = from_processing s s.maker refl w inv

-- The constructor is never stuck: from every state that it and the thread can reach, in whatever
-- order they run and with any spurious wake-ups before, further steps lead to one in which it has
-- returned, without another spurious wake-up: when it is blocked, the thread's notification is still
-- to come and wakes it.
pub can_return : {s : Starting} → Reach s → CanReturn s
can_return {s} r = from_any s s.worker refl (Reach-Inv r)
