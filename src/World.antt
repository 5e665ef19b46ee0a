-- ===== src/World.antt =====
-- The state that signals, slots, connections and task queues share, and what the classes of
-- core/signal.hpp do to it below the level of an emission: ownership of slots, `slot_state` and
-- `cleanable`.
pub mod Disconnect
pub mod Valid
use modern_signal_slot.Base.{
  elem, is_some, ℕ, zero, suc, ◌+◌, ◌-◌, Bool, true, false, not, ◌&&◌, ◌||◌, List, [], ◌∷◌, ◌++◌,
  Option, none, some, ltb, ◌==◌, if◌then◌else◌, occurrences,
}
use modern_signal_slot.Slot.{
  Slot, Slots, update, Body, slot, slot_extended, slot_pmf, slot_pmf_extended, slot_tracked,
}
use modern_signal_slot.Slot.Pointers.{lock_object}
use modern_signal_slot.Signal.{Group, clean, slots_of}
use modern_signal_slot.TaskQueue.{TaskQueueStdlib}

-- `signal_base` without its mutex. `m_slots` is the list that the copy-on-write pointer shows.
pub record SignalBase : Type 0 where
  pub m_slots : List Group
  pub m_block : Bool

-- The closures that `call_slot` posts, with the arguments of the emission: of a queued connection,
-- which holds the slot weakly, and of a blocking one, with its promise.
pub data Task (A : Type 0) : Type 0 where
  queued : ℕ → A → Task A
  blocking : ℕ → A → ℕ → Task A

-- `held` counts the references to a slot that running calls hold: an emission through its copy of
-- the slot list, a queued task while it runs. `objects` tells which tracked objects are alive,
-- `current` is the queue of the running thread, `user` the state of the program around.
pub record World (A U : Type 0) : Type 0 where
  pub slots : Slots
  pub allocated : ℕ
  pub signals : ℕ → SignalBase
  pub signal_count : ℕ
  pub held : ℕ → ℕ
  pub objects : ℕ → Bool
  pub observers : ℕ → List (Option ℕ)
  pub queues : ℕ → TaskQueueStdlib (Task A)
  pub current : Option ℕ
  pub promises : ℕ
  pub fulfilled : ℕ → Bool
  pub user : U

abbrev pub any_below : ℕ → (ℕ → Bool) → Bool
any_below zero p = false
any_below (suc n) p = p n || any_below n p

-- `connected`: the tracked classes also ask whether their object is alive.
unfoldable pub connected_body : (ℕ → Bool) → Body → Bool → Bool
connected_body objects (slot_tracked o _) c = is_some (lock_object objects o) && c
connected_body objects _ c = c

module _ {A U : Type 0} where
  -- A slot lives as long as a signal's list or a running call holds a `shared_ptr` to it.
  unfoldable pub alive : World A U → ℕ → Bool
  alive w a =
      ltb 0 (w.held a) || any_below w.signal_count (λ k. elem a (slots_of (w.signals k).m_slots))

  -- `std::weak_ptr::lock`; `none` is an empty weak pointer.
  unfoldable pub lock_slot : World A U → Option ℕ → Option ℕ
  lock_slot w none = none
  lock_slot w (some a) = if alive w a then some a else none

  -- A running call takes and drops its references.
  unfoldable pub hold : List ℕ → World A U → World A U
  hold xs w = record w { held = λ b. w.held b + occurrences b xs }

  unfoldable pub release : List ℕ → World A U → World A U
  release xs w = record w { held = λ b. w.held b - occurrences b xs }

  abbrev pub set_slot : World A U → ℕ → Slot → World A U
  set_slot w a s = record w { slots = update w.slots a s }

  abbrev pub set_signal : World A U → ℕ → SignalBase → World A U
  set_signal w k s = record w { signals = λ j. if k == j then s else w.signals j }

  -- `signal_base::clean`, of the signal that a slot calls its cleaner.
  unfoldable pub clean_slot : World A U → ℕ → World A U
  clean_slot w a =
      let k = (w.slots a).m_cleaner in
      let (σ, groups) = clean w.slots (w.signals k).m_slots a in
      set_signal (record w { slots = σ }) k (record (w.signals k) { m_slots = groups })

  -- `slot_state::disconnect`
  unfoldable pub disconnect_slot : World A U → ℕ → World A U × Bool
  disconnect_slot w a =
      let w' = set_slot w a (record (w.slots a) { m_connected = false }) in
      if (w.slots a).m_connected then (clean_slot w' a, true) else (w', false)

  -- `slot_state::block` and `slot_state::unblock`
  unfoldable pub block_slot : World A U → ℕ → World A U
  block_slot w a = set_slot w a (record (w.slots a) { m_blocked = true })

  pub unblock_slot : World A U → ℕ → World A U
  unblock_slot w a = set_slot w a (record (w.slots a) { m_blocked = false })

  -- The virtual `connected` of a slot.
  unfoldable pub slot_connected : World A U → ℕ → Bool
  unfolding connected_body
  slot_connected w a = connected_body w.objects (w.slots a).body (w.slots a).m_connected
