-- ===== src/Call.antt =====
-- core/signal.hpp, `slot_base` and the `call_slot` of the slot classes, and the emission of
-- `signal_base`. The functions that the user connects are a parameter, which gets the slot's
-- members, the arguments and the state, and may do anything to the state.
pub mod Order
mod Steps
pub mod Singleshot
pub mod Deliver
pub mod Keeps
pub mod Alive
pub mod Valid
pub mod Race
pub mod Chain
pub mod SingleThread
use modern_signal_slot.Base.{
  ℕ, zero, suc, ◌+◌, Bool, true, false, not, ◌&&◌, ◌||◌, List, [], ◌∷◌, ◌++◌, Option, none, some,
  ltb, ◌==◌, if◌then◌else◌,
}
use modern_signal_slot.Slot.{
  Slot, Slots, update, Body, slot, slot_extended, slot_pmf, slot_pmf_extended, slot_tracked,
  auto_connection, direct_connection, queued_connection, blocking_queued_connection,
}
use modern_signal_slot.Slot.Pointers.{lock_object}
use modern_signal_slot.Signal.{slots_of}
use modern_signal_slot.TaskQueue.{TaskQueueStdlib, post_task}
use modern_signal_slot.World.{
  World, Task, queued, blocking, SignalBase, alive, hold, release, set_slot, disconnect_slot,
}

-- How a program ends that goes on no further.
pub data Fault : Type 0 where
  assertion_failed null_dereference : Fault

-- The result of a call of a slot: it returned, it waits for a promise, or the program ended.
pub data Called (A U : Type 0) : Type 0 where
  done : World A U → Called A U
  waits : ℕ → World A U → Called A U
  faulted : Fault → Called A U

-- `can_emit`
pub can_emit : Slot → Bool
can_emit s = if s.m_singleshot && s.m_emitted then false else true

module _ {A U : Type 0} where
  -- `set_emitted`
  pub set_emitted : World A U → ℕ → World A U
  set_emitted w a =
      if (w.slots a).m_singleshot && not (w.slots a).m_emitted
      then set_slot w a (record (w.slots a) { m_emitted = true })
      else w

  -- `is_current`, with `TaskQueue::IsCurrent`
  unfoldable pub is_current : World A U → Option ℕ → Bool
  is_current w none = true
  is_current w (some q) = elim w.current [ none ↦ false | some c ↦ c == q ]

  -- `type()`
  unfoldable pub effective_type : World A U → Slot → ℕ
  unfolding is_current
  effective_type w s =
      if s.m_type == auto_connection
      then if is_current w s.m_queue then direct_connection else queued_connection
      else s.m_type

  -- `PostTask` on a queue
  unfoldable pub post : World A U → ℕ → Task A → World A U
  post w q task = record w {
    queues = λ r. if q == r then post_task (w.queues q) task else w.queues r;
  }

module _ {A U : Type 0} (user_code : Body → A → World A U → World A U) where
  -- The block that all connection types share: the function is called if the slot is connected
  -- still, and a singleshot slot that has emitted is disconnected.
  pub invoke : World A U → ℕ → A → World A U
  invoke w a args =
      let w' = user_code (w.slots a).body args w in
      if (w.slots a).m_connected
      then if (w'.slots a).m_singleshot && (w'.slots a).m_emitted
        then (disconnect_slot w' a).0
        else w'
      else w

  -- The two closures, run by the worker of a queue.
  unfoldable pub run_closure : World A U → Task A → World A U
  run_closure w (queued a args) =
      if alive w a then release (a ∷ []) (invoke (hold (a ∷ []) w) a args) else w
  run_closure w (blocking a args promise) =
      let w' = invoke w a args in
      record w' { fulfilled = λ p. if promise == p then true else w'.fulfilled p }

-- `assertions` tells whether `assert` is compiled in.
module _ {A U : Type 0} (assertions : Bool) (user_code : Body → A → World A U → World A U) where
  -- The branches of `call_slot` behind `set_emitted`.
  unfoldable pub dispatch : World A U → ℕ → A → Called A U
  dispatch w a args =
      let type = effective_type w (w.slots a) in
      if type == direct_connection
      then done (invoke user_code w a args)
      else if type == queued_connection
      then elim (w.slots a).m_queue [
        | none ↦ if assertions then faulted assertion_failed else done w
        | some q ↦ done (post w q (queued a args))
      ]
      else if type == blocking_queued_connection
      then elim (w.slots a).m_queue [
        | none ↦ faulted (if assertions then assertion_failed else null_dereference)
        | some q ↦
            waits w.promises
              (post (record w { promises = w.promises + 1 }) q (blocking a args w.promises))
      ]
      else done w

  -- `call_slot` of `slot`, `slot_extended`, `slot_pmf` and `slot_pmf_extended`
  pub call_untracked : World A U → ℕ → A → Called A U
  call_untracked w a args =
      if can_emit (w.slots a) then dispatch (set_emitted w a) a args else done w

  -- `call_slot` of `slot_tracked`
  pub call_tracked : World A U → ℕ → A → Option ℕ → Called A U
  call_tracked w a args object = elim (lock_object w.objects object) [
    | none ↦ done (disconnect_slot w a).0
    | some _ ↦ call_untracked w a args
  ]

  -- `call_slot` of each class. They differ in the function that `user_code` finds in the body.
  pub slot_call_slot : World A U → ℕ → A → Called A U
  slot_call_slot w a args = call_untracked w a args

  pub slot_extended_call_slot : World A U → ℕ → A → Called A U
  slot_extended_call_slot w a args = call_untracked w a args

  pub slot_pmf_call_slot : World A U → ℕ → A → Called A U
  slot_pmf_call_slot w a args = call_untracked w a args

  pub slot_pmf_extended_call_slot : World A U → ℕ → A → Called A U
  slot_pmf_extended_call_slot w a args = call_untracked w a args

  pub slot_tracked_call_slot : World A U → ℕ → A → Option ℕ → Called A U
  slot_tracked_call_slot w a args object = call_tracked w a args object

  -- The virtual call.
  pub call_slot : World A U → ℕ → A → Body → Called A U
  unfolding slot_call_slot slot_extended_call_slot slot_pmf_call_slot slot_pmf_extended_call_slot
      slot_tracked_call_slot
  call_slot w a args (slot _) = slot_call_slot w a args
  call_slot w a args (slot_extended _ _) = slot_extended_call_slot w a args
  call_slot w a args (slot_pmf _ _) = slot_pmf_call_slot w a args
  call_slot w a args (slot_pmf_extended _ _ _) = slot_pmf_extended_call_slot w a args
  call_slot w a args (slot_tracked o _) = slot_tracked_call_slot w a args o

  -- `slot_base::operator()`
  pub call : World A U → ℕ → A → Called A U
  call w a args =
      if (w.slots a).m_connected && not (w.slots a).m_blocked
      then call_slot w a args (w.slots a).body
      else done w

-- An emission: it is over, it waits for a promise before the slots that are left, with the slots
-- that it holds, or the program ended.
pub data Emission (A U : Type 0) : Type 0 where
  finished : World A U → Emission A U
  suspended : ℕ → List ℕ → List ℕ → World A U → Emission A U
  crashed : Fault → Emission A U

module _ {A U : Type 0} (assertions : Bool) (user_code : Body → A → World A U → World A U) where
  -- The loops of `operator()` over the slots that are left. The copy of the slot list is dropped
  -- at the end.
  pub emit_slots : A → List ℕ → List ℕ → World A U → Emission A U
  emit_slots args copy [] w = finished (release copy w)
  emit_slots args copy (s ∷ rest) w = elim (call assertions user_code w s args) [
    | done w' ↦ emit_slots args copy rest w'
    | waits p w' ↦ suspended p rest copy w'
    | faulted f ↦ crashed f
  ]

  pub emit : World A U → ℕ → A → Emission A U
  emit w k args =
      let copy = slots_of (w.signals k).m_slots in
      if (w.signals k).m_block then finished w else emit_slots args copy copy (hold copy w)

  -- The wait of `call_slot` for its future ends when the promise is fulfilled, and the emission
  -- goes on with the slots that are left.
  unfoldable pub resume : A → Emission A U → World A U → Emission A U
  resume args (finished v) w = finished v
  resume args (suspended p rest copy v) w =
      if w.fulfilled p then emit_slots args copy rest w else suspended p rest copy w
  resume args (crashed f) w = crashed f
