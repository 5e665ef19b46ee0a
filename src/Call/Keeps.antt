-- ===== src/Call/Keeps.antt =====
-- What a call leaves alone: a property of the state that every step of a call keeps, the program's
-- functions included, is kept by the call.
use modern_signal_slot.Base.{
  ℕ, ◌+◌, Bool, not, ◌&&◌, List, Option, none, some, Bool-cases, Option-cases, inl, inr,
  if◌then◌else◌, ◌==◌,
}
use modern_signal_slot.Slot.{
  Body, slot, slot_extended, slot_pmf, slot_pmf_extended, slot_tracked, direct_connection,
  queued_connection, blocking_queued_connection,
}
use modern_signal_slot.Slot.Pointers.{lock_object}
use modern_signal_slot.World.{World, Task, queued, blocking, disconnect_slot}
use modern_signal_slot.Call.{
  Called, done, waits, faulted, assertion_failed, null_dereference, can_emit, set_emitted,
  effective_type, post, invoke, dispatch, call_untracked, call_tracked, call_slot, call, Emission,
  finished, suspended, crashed,
}
use modern_signal_slot.Call.Singleshot.{After}

-- The steps that calls are made of.
pub record Keeps {A U : Type 0} (user_code : Body → A → World A U → World A U)
    (P : World A U → Type 0) : Type 0 where
  pub calls : (b : Body) (args : A) (w : World A U) → P w → P (user_code b args w)
  pub disconnects : (w : World A U) (a : ℕ) → P w → P (disconnect_slot w a).0
  pub emits : (w : World A U) (a : ℕ) → P w → P (set_emitted w a)
  pub posts : (w : World A U) (q : ℕ) (t : Task A) → P w → P (post w q t)
  pub promises : (w : World A U) → P w → P (record w { promises = w.promises + 1 })

module _ {A U : Type 0} where
  -- What an emission leaves behind, if it does not end the program.
  abbrev pub AfterEmission : (World A U → Type 0) → Emission A U → Type 0
  AfterEmission P (finished w) = P w
  AfterEmission P (suspended p rest copy w) = P w
  AfterEmission P (crashed f) = Unit {0}

  -- The loop of an emission goes on behind a call that returned.
  pub go_on :
      {P : World A U → Type 0} (rest copy : List ℕ) (c : Called A U) (k : World A U → Emission A U)
      → After P c
      → ((w : World A U) → P w → AfterEmission P (k w))
      → AfterEmission P
          (elim c [ done w ↦ k w | waits p w ↦ suspended p rest copy w | faulted f ↦ crashed f ])
  go_on rest copy (done w) k h next = next w h
  go_on rest copy (waits p w) k h next = h
  go_on rest copy (faulted f) k h next = tt

module _ {A U : Type 0} (user_code : Body → A → World A U → World A U) (P : World A U → Type 0)
    (keeps : Keeps user_code P) where
  pub invoke-Keeps : (w : World A U) (a : ℕ) (args : A) → P w → P (invoke user_code w a args)
  unfolding invoke
  invoke-Keeps w a args ok =
      let w' = user_code (w.slots a).body args w in
      let ok' : P w' = keeps.calls (w.slots a).body args w ok in
      elim (Bool-cases (w.slots a).m_connected) [
        | inl on ↦ elim (Bool-cases ((w'.slots a).m_singleshot && (w'.slots a).m_emitted)) [
          | inl once ↦ simp (on, once) (keeps.disconnects w' a ok')
          | inr more ↦ simp (on, more) ok'
        ]
        | inr off ↦ simp off ok
      ]

  module _ (assertions : Bool) where
    queued_call :
        (w : World A U) (a : ℕ) (args : A)
        → P w
        → After P (elim (w.slots a).m_queue [
          | none ↦ if assertions then faulted assertion_failed else done w
          | some q ↦ done (post w q (queued a args))
        ])
    queued_call w a args ok = elim (Option-cases (w.slots a).m_queue) [
      | inl e ↦ elim (Bool-cases assertions) [
        | inl on ↦ simp (e, on) tt
        | inr off ↦ simp (e, off) ok
      ]
      | inr (q, e) ↦ simp e (keeps.posts w q (queued a args) ok)
    ]

    blocking_call :
        (w : World A U) (a : ℕ) (args : A)
        → P w
        → After P (elim (w.slots a).m_queue [
          | none ↦ faulted (if assertions then assertion_failed else null_dereference)
          | some q ↦
              waits w.promises
                (post (record w { promises = w.promises + 1 }) q (blocking a args w.promises))
        ])
    blocking_call w a args ok = elim (Option-cases (w.slots a).m_queue) [
      | inl e ↦ simp e tt
      | inr (q, e) ↦
          let w' = record w { promises = w.promises + 1 } in
          simp e (keeps.posts w' q (blocking a args w.promises) (keeps.promises w ok))
    ]

    dispatch-Keeps :
        (w : World A U) (a : ℕ) (args : A) → P w → After P (dispatch assertions user_code w a args)
    unfolding dispatch
    dispatch-Keeps w a args ok =
        let type = effective_type w (w.slots a) in
        elim (Bool-cases (type == direct_connection)) [
          | inl direct ↦ simp direct (invoke-Keeps w a args ok)
          | inr not_direct ↦ elim (Bool-cases (type == queued_connection)) [
            | inl later ↦ simp (not_direct, later) (queued_call w a args ok)
            | inr not_later ↦ elim (Bool-cases (type == blocking_queued_connection)) [
              | inl block ↦ simp (not_direct, not_later, block) (blocking_call w a args ok)
              | inr none_of_these ↦ simp (not_direct, not_later, none_of_these) ok
            ]
          ]
        ]

    untracked-Keeps :
        (w : World A U) (a : ℕ) (args : A)
        → P w
        → After P (call_untracked assertions user_code w a args)
    unfolding call_untracked
    untracked-Keeps w a args ok = elim (Bool-cases (can_emit (w.slots a))) [
      | inl may ↦ simp may (dispatch-Keeps (set_emitted w a) a args (keeps.emits w a ok))
      | inr spent ↦ simp spent ok
    ]

    tracked-Keeps :
        (w : World A U) (a : ℕ) (args : A) (o : Option ℕ)
        → P w
        → After P (call_tracked assertions user_code w a args o)
    unfolding call_tracked
    tracked-Keeps w a args o ok = elim (Option-cases (lock_object w.objects o)) [
      | inl e ↦ rw (e, call_tracked) (keeps.disconnects w a ok)
      | inr (x, e) ↦ rw (e, call_tracked) (untracked-Keeps w a args ok)
    ]

    slot-Keeps :
        (w : World A U) (a : ℕ) (args : A) (b : Body)
        → P w
        → After P (call_slot assertions user_code w a args b)
    unfolding call_slot
    slot-Keeps w a args (slot _) ok = untracked-Keeps w a args ok
    slot-Keeps w a args (slot_extended _ _) ok = untracked-Keeps w a args ok
    slot-Keeps w a args (slot_pmf _ _) ok = untracked-Keeps w a args ok
    slot-Keeps w a args (slot_pmf_extended _ _ _) ok = untracked-Keeps w a args ok
    slot-Keeps w a args (slot_tracked o _) ok = tracked-Keeps w a args o ok

    pub call-Keeps :
        (w : World A U) (a : ℕ) (args : A) → P w → After P (call assertions user_code w a args)
    unfolding call
    call-Keeps w a args ok =
        elim (Bool-cases ((w.slots a).m_connected && not (w.slots a).m_blocked)) [
          | inl on ↦ simp on (slot-Keeps w a args (w.slots a).body ok)
          | inr off ↦ simp off ok
        ]
