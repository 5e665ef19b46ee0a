-- ===== src/Call/Race.antt =====
-- core/signal.hpp, the call of a slot by several threads at once. An emission holds no lock while
-- it calls a slot, and the flags of a slot are atomic, so the threads interleave between any two
-- accesses to them. Here the steps of one call are those accesses.
pub mod Alone
pub mod Window
pub mod Both
pub mod Runs
use modern_signal_slot.Base.{
  ℕ, zero, suc, ◌+◌, ◌≤◌, ◌≡◌, refl, sym, ap, subst, ◌∙◌, Bool, true, false, not, ◌&&◌, List, [],
  ◌∷◌, Option, none, some, arith, ◌==◌, if◌then◌else◌, get_elem?, set, Bool-cases, ◌⊎◌, inl, inr,
  ==_iff, Option-cases,
}
use modern_signal_slot.Slot.{
  Slot, Body, slot, slot_extended, slot_pmf, slot_pmf_extended, slot_tracked, direct_connection,
}
use modern_signal_slot.Slot.Pointers.{lock_object}
use modern_signal_slot.World.{World, set_slot, clean_slot, disconnect_slot}
use modern_signal_slot.Call.{
  Fault, Called, done, waits, faulted, can_emit, set_emitted, effective_type, invoke, dispatch,
  call_untracked, call_tracked, call_slot, call,
}
use modern_signal_slot.Call.Steps.{dispatch-direct}

-- Where a thread is in its call: before `connected()`, before `blocked()`, before the virtual call,
-- before `can_emit`, `set_emitted` and the test of the type; before the `connected()` of the direct
-- branch, before the function, before the test of `m_emitted` behind it, before `do_disconnect`;
-- behind the call, at the wait for a promise, or ended.
pub data CallPlace : Type 0 where
  entering at_blocked locking at_emit marking dispatching testing running closing : CallPlace
  cleaning returned : CallPlace
  waiting : ℕ → CallPlace
  ended : Fault → CallPlace

-- The object whose `lock` guards the call of a tracked class.
abbrev pub guard_of : Body → Option (Option ℕ)
guard_of (slot _) = none
guard_of (slot_extended _ _) = none
guard_of (slot_pmf _ _) = none
guard_of (slot_pmf_extended _ _ _) = none
guard_of (slot_tracked o _) = some o

module _ {A U : Type 0} where
  -- A call that is over, seen from its thread. The state of one that ended the program is `w`.
  abbrev pub leave : World A U → Called A U → World A U × CallPlace
  leave w (done w') = (w', returned)
  leave w (waits p w') = (w', waiting p)
  leave w (faulted f) = (w, ended f)

  -- The `exchange` of `slot_state::disconnect`, and the place behind it.
  abbrev pub exchange_connected : World A U → ℕ → World A U × CallPlace
  exchange_connected w a = (
    set_slot w a (record (w.slots a) { m_connected = false }),
    if (w.slots a).m_connected then cleaning else returned,
  )

  -- What a thread's call has come to, against the call that returns its result at once.
  abbrev pub Agrees : World A U × CallPlace → Called A U → Type 0
  Agrees s (done w) = s ≡ (w, returned)
  Agrees s (waits p w) = s ≡ (w, waiting p)
  Agrees s (faulted f) = s.1 ≡ ended f

  pub leave-Agrees :
      (s : World A U × CallPlace) (w : World A U) (c : Called A U) → s ≡ leave w c → Agrees s c
  leave-Agrees s w (done v) e = e
  leave-Agrees s w (waits p v) e = e
  leave-Agrees s w (faulted f) e = ap (λ t. t.1) e

module _ {A U : Type 0} (assertions : Bool) (user_code : Body → A → World A U → World A U) where
  -- One step of a thread that calls slot `a`. The branches that post do so in one step, under the
  -- queue's lock.
  pub advance : ℕ → A → CallPlace → World A U → World A U × CallPlace
  advance a args entering w = (w, if (w.slots a).m_connected then at_blocked else returned)
  advance a args at_blocked w = (w, if (w.slots a).m_blocked then returned else locking)
  advance a args locking w = elim (guard_of (w.slots a).body) [
    | none ↦ (w, at_emit)
    | some o ↦ elim (lock_object w.objects o) [
      | none ↦ exchange_connected w a
      | some _ ↦ (w, at_emit)
    ]
  ]
  advance a args at_emit w = (w, if can_emit (w.slots a) then marking else returned)
  advance a args marking w = (set_emitted w a, dispatching)
  advance a args dispatching w =
      if effective_type w (w.slots a) == direct_connection
      then (w, testing)
      else leave w (dispatch assertions user_code w a args)
  advance a args testing w = (w, if (w.slots a).m_connected then running else returned)
  advance a args running w = (user_code (w.slots a).body args w, closing)
  advance a args closing w =
      if (w.slots a).m_singleshot && (w.slots a).m_emitted
      then exchange_connected w a
      else (w, returned)
  advance a args cleaning w = (clean_slot w a, returned)
  advance a args returned w = (w, returned)
  advance a args (waiting p) w = (w, waiting p)
  advance a args (ended f) w = (w, ended f)

  -- Some steps of one thread while no other runs.
  abbrev pub alone : ℕ → ℕ → A → World A U × CallPlace → World A U × CallPlace
  alone zero a args s = s
  alone (suc n) a args (w, p) = alone n a args (advance a args p w)

  -- A step of the thread of number `i`, and the steps of a schedule. Every thread calls slot `a`.
  abbrev pub step_thread : ℕ → A → ℕ → World A U × List CallPlace → World A U × List CallPlace
  step_thread a args i (w, ps) = elim (get_elem? ps i) [
    | none ↦ (w, ps)
    | some p ↦ let (w', p') = advance a args p w in (w', set ps i p')
  ]

  abbrev pub run_schedule : ℕ → A → List ℕ → World A U × List CallPlace → World A U × List CallPlace
  run_schedule a args [] s = s
  run_schedule a args (i ∷ is) s = run_schedule a args is (step_thread a args i s)
