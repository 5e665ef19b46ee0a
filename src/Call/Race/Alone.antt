-- ===== src/Call/Race/Alone.antt =====
-- A call while no other thread runs, step by step, against the call as a whole.
use modern_signal_slot.Base.{
  ℕ, zero, suc, ◌≡◌, refl, sym, ap, subst, ◌∙◌, Bool, true, false, not, ◌&&◌, Option, none, some,
  arith, ◌==◌, if◌then◌else◌, Bool-cases, ◌⊎◌, inl, inr, ==_iff, Option-cases,
}
use modern_signal_slot.Slot.{
  Body, slot, slot_extended, slot_pmf, slot_pmf_extended, slot_tracked, direct_connection,
}
use modern_signal_slot.Slot.Pointers.{lock_object}
use modern_signal_slot.World.{World, disconnect_slot}
use modern_signal_slot.Call.{
  Called, done, waits, faulted, can_emit, set_emitted, effective_type, invoke, dispatch,
  call_untracked, call_tracked, call_slot, call,
}
use modern_signal_slot.Call.Steps.{dispatch-direct}
use modern_signal_slot.Call.Race.{
  entering, locking, at_emit, dispatching, testing, closing, returned, guard_of, leave,
  exchange_connected, Agrees, leave-Agrees, advance, alone,
}

module _ {A U : Type 0} (assertions : Bool) (user_code : Body → A → World A U → World A U) where
  alone-closing :
      (w : World A U) (a : ℕ) (args : A)
      → alone assertions user_code 2 a args (w, closing) ≡ (
        if (w.slots a).m_singleshot && (w.slots a).m_emitted then (disconnect_slot w a).0 else w,
        returned,
      )
  unfolding advance disconnect_slot
  alone-closing w a args = ground arith

  alone-testing :
      (w : World A U) (a : ℕ) (args : A)
      → alone assertions user_code 4 a args (w, testing) ≡ (invoke user_code w a args, returned)
  unfolding advance invoke
  alone-testing w a args = elim (Bool-cases (w.slots a).m_connected) [
    | inl on ↦ simp on (alone-closing (user_code (w.slots a).body args w) a args)
    | inr off ↦ simp off refl
  ]

  -- A call that is over for its thread stays over.
  alone-over :
      (n : ℕ) (w : World A U) (a : ℕ) (args : A) (c : Called A U)
      → alone assertions user_code n a args (leave w c) ≡ leave w c
  unfolding advance
  alone-over zero w a args c = refl
  alone-over (suc n) w a args (done v) = alone-over n w a args (done v)
  alone-over (suc n) w a args (waits p v) = alone-over n w a args (waits p v)
  alone-over (suc n) w a args (faulted f) = alone-over n w a args (faulted f)

  alone-dispatching :
      (w : World A U) (a : ℕ) (args : A)
      → alone assertions user_code 5 a args (w, dispatching)
        ≡ leave w (dispatch assertions user_code w a args)
  unfolding advance
  alone-dispatching w a args =
      elim (Bool-cases (effective_type w (w.slots a) == direct_connection)) [
        | inl direct ↦ simp direct (
            alone-testing w a args
            ∙ ap (leave w)
                (sym (dispatch-direct assertions user_code w a args ((==_iff _ _).0 direct))))
        | inr other ↦ simp other (alone-over 4 w a args (dispatch assertions user_code w a args))
      ]

  pub alone-at_emit :
      (w : World A U) (a : ℕ) (args : A)
      → alone assertions user_code 7 a args (w, at_emit)
        ≡ leave (set_emitted w a) (call_untracked assertions user_code w a args)
  unfolding advance call_untracked
  alone-at_emit w a args = elim (Bool-cases (can_emit (w.slots a))) [
    | inl may ↦ simp may (alone-dispatching (set_emitted w a) a args)
    | inr spent ↦ simp spent refl
  ]

  pub lock_free :
      (w : World A U) (a : ℕ) (args : A)
      → guard_of (w.slots a).body ≡ none
      → advance assertions user_code a args locking w ≡ (w, at_emit)
  unfolding advance
  lock_free w a args free = rw (free, advance) refl

  pub lock_there :
      (w : World A U) (a : ℕ) (args : A) {o : Option ℕ} {x : ℕ}
      → guard_of (w.slots a).body ≡ some o
      → lock_object w.objects o ≡ some x
      → advance assertions user_code a args locking w ≡ (w, at_emit)
  unfolding advance
  lock_there w a args guarded there = rw (guarded, there, advance) refl

  pub lock_dead :
      (w : World A U) (a : ℕ) (args : A) {o : Option ℕ}
      → guard_of (w.slots a).body ≡ some o
      → lock_object w.objects o ≡ none
      → advance assertions user_code a args locking w ≡ exchange_connected w a
  unfolding advance
  lock_dead w a args guarded dead = rw (guarded, dead, advance) refl

  -- What the lock of a call does: nothing, or the object is gone and the slot is disconnected.
  pub locking_cases :
      (w : World A U) (a : ℕ) (args : A)
      → (advance assertions user_code a args locking w ≡ (w, at_emit))
        ⊎ (advance assertions user_code a args locking w ≡ exchange_connected w a)
  locking_cases w a args = elim (Option-cases (guard_of (w.slots a).body)) [
    | inl free ↦ inl (lock_free w a args free)
    | inr (o, guarded) ↦ elim (Option-cases (lock_object w.objects o)) [
      | inl dead ↦ inr (lock_dead w a args guarded dead)
      | inr (x, there) ↦ inl (lock_there w a args guarded there)
    ]
  ]

  pub alone-exchange :
      (w : World A U) (a : ℕ) (args : A)
      → alone assertions user_code 7 a args (exchange_connected w a)
        ≡ ((disconnect_slot w a).0, returned)
  unfolding advance disconnect_slot
  alone-exchange w a args = elim (Bool-cases (w.slots a).m_connected) [
    | inl on ↦ simp on refl
    | inr off ↦ simp off refl
  ]

  untracked-Agrees :
      (w : World A U) (a : ℕ) (args : A)
      → advance assertions user_code a args locking w ≡ (w, at_emit)
      → Agrees
          (alone assertions user_code 8 a args (w, locking))
          (call_untracked assertions user_code w a args)
  untracked-Agrees w a args free =
      leave-Agrees _ (set_emitted w a) (call_untracked assertions user_code w a args)
        (ap (alone assertions user_code 7 a args) free ∙ alone-at_emit w a args)

  tracked-Agrees :
      (w : World A U) (a : ℕ) (args : A) (o : Option ℕ)
      → guard_of (w.slots a).body ≡ some o
      → Agrees
          (alone assertions user_code 8 a args (w, locking))
          (call_tracked assertions user_code w a args o)
  unfolding call_tracked
  tracked-Agrees w a args o guarded = elim (Option-cases (lock_object w.objects o)) [
    | inl dead ↦
        let e : call_tracked assertions user_code w a args o ≡ done (disconnect_slot w a).0 =
          rw (dead, call_tracked) refl in
        subst (Agrees (alone assertions user_code 8 a args (w, locking))) (sym e) (
          ap (alone assertions user_code 7 a args) (lock_dead w a args guarded dead)
          ∙ alone-exchange w a args)
    | inr (x, there) ↦
        let e : call_tracked assertions user_code w a args o
            ≡ call_untracked assertions user_code w a args =
          rw (there, call_tracked) refl in
        subst (Agrees (alone assertions user_code 8 a args (w, locking))) (sym e)
          (untracked-Agrees w a args (lock_there w a args guarded there))
  ]

  slot-Agrees :
      (w : World A U) (a : ℕ) (args : A) (b : Body)
      → (w.slots a).body ≡ b
      → Agrees
          (alone assertions user_code 8 a args (w, locking))
          (call_slot assertions user_code w a args b)
  unfolding call_slot
  slot-Agrees w a args (slot _) e = untracked-Agrees w a args (lock_free w a args (ap guard_of e))
  slot-Agrees w a args (slot_extended _ _) e =
      untracked-Agrees w a args (lock_free w a args (ap guard_of e))
  slot-Agrees w a args (slot_pmf _ _) e =
      untracked-Agrees w a args (lock_free w a args (ap guard_of e))
  slot-Agrees w a args (slot_pmf_extended _ _ _) e =
      untracked-Agrees w a args (lock_free w a args (ap guard_of e))
  slot-Agrees w a args (slot_tracked o _) e = tracked-Agrees w a args o (ap guard_of e)

  pub enter_off :
      (w : World A U) (a : ℕ) (args : A)
      → (w.slots a).m_connected && not (w.slots a).m_blocked ≡ false
      → alone assertions user_code 10 a args (w, entering) ≡ (w, returned)
  unfolding advance
  enter_off w a args off = elim (Bool-cases (w.slots a).m_connected) [
    | inl on ↦ let blocked : (w.slots a).m_blocked ≡ true = ground arith in simp (on, blocked) refl
    | inr off ↦ simp off refl
  ]

  pub enter_on :
      (w : World A U) (a : ℕ) (args : A)
      → (w.slots a).m_connected && not (w.slots a).m_blocked ≡ true
      → alone assertions user_code 2 a args (w, entering) ≡ (w, locking)
  unfolding advance
  enter_on w a args on = ground arith

  -- A thread that calls a slot while no other runs comes, within ten steps, to what the call
  -- returns: the same state, the same wait or the same fault, on every branch.
  pub alone-call :
      (w : World A U) (a : ℕ) (args : A)
      → Agrees
          (alone assertions user_code 10 a args (w, entering))
          (call assertions user_code w a args)
  unfolding call
  alone-call w a args = elim (Bool-cases ((w.slots a).m_connected && not (w.slots a).m_blocked)) [
    | inl on ↦
        let e : call assertions user_code w a args
            ≡ call_slot assertions user_code w a args (w.slots a).body =
          simp on refl in
        subst (Agrees (alone assertions user_code 10 a args (w, entering))) (sym e) (
          subst
            (λ s.
              Agrees (alone assertions user_code 8 a args s)
                (call_slot assertions user_code w a args (w.slots a).body))
            (sym (enter_on w a args on)) (slot-Agrees w a args (w.slots a).body refl))
    | inr off ↦
        let e : call assertions user_code w a args ≡ done w = simp off refl in
        subst (Agrees (alone assertions user_code 10 a args (w, entering))) (sym e)
          (enter_off w a args off)
  ]
