-- ===== src/Call/Valid.antt =====
-- Calls and emissions keep the shared state valid, whatever the program's functions do through the
-- library: connect, disconnect, emit again.
use modern_signal_slot.Base.{ℕ, ◌≡◌, refl, ap, Bool, List, [], ◌∷◌, arith, Bool-cases, inl, inr}
use modern_signal_slot.Slot.{Body}
use modern_signal_slot.Signal.{slots_of}
use modern_signal_slot.World.{World, Task, queued, blocking, alive, hold, release}
use modern_signal_slot.World.Valid.{IsValid, same_lists-IsValid, disconnect_slot-IsValid}
use modern_signal_slot.Call.{
  set_emitted, post, invoke, run_closure, call, Emission, finished, suspended, crashed, emit_slots,
  emit, resume,
}
use modern_signal_slot.Call.Keeps.{Keeps, AfterEmission, go_on, invoke-Keeps, call-Keeps}

module _ {A U : Type 0} where
  -- A change of what is neither a slot list nor a slot.
  pub beside-IsValid :
      (w v : World A U)
      → v.signals ≡ w.signals
      → v.slots ≡ w.slots
      → v.allocated ≡ w.allocated
      → IsValid w
      → IsValid v
  beside-IsValid w v signals slots count ok =
      same_lists-IsValid w v (λ k. ap (λ f. (f k).m_slots) signals)
        (λ b. record {
          index = ap (λ f. (f b).m_index) slots;
          group = ap (λ f. (f b).m_group) slots;
        })
        count ok

  hold-IsValid : (w : World A U) (xs : List ℕ) → IsValid w → IsValid (hold xs w)
  unfolding hold
  hold-IsValid w xs ok = beside-IsValid w (hold xs w) refl refl refl ok

  release-IsValid : (w : World A U) (xs : List ℕ) → IsValid w → IsValid (release xs w)
  unfolding release
  release-IsValid w xs ok = beside-IsValid w (release xs w) refl refl refl ok

  post-IsValid : (w : World A U) (q : ℕ) (t : Task A) → IsValid w → IsValid (post w q t)
  unfolding post
  post-IsValid w q t ok = beside-IsValid w (post w q t) refl refl refl ok

  set_emitted-IsValid : (w : World A U) (a : ℕ) → IsValid w → IsValid (set_emitted w a)
  unfolding set_emitted
  set_emitted-IsValid w a ok =
      same_lists-IsValid w (set_emitted w a) (λ k. ground arith)
        (λ b. record { index = ground arith; group = ground arith }) (ground arith) ok

module _ {A U : Type 0} (user_code : Body → A → World A U → World A U)
    (keeps : (b : Body) (args : A) (w : World A U) → IsValid w → IsValid (user_code b args w)) where
  steps : Keeps user_code IsValid
  steps = record {
    calls = keeps;
    disconnects = disconnect_slot-IsValid;
    emits = set_emitted-IsValid;
    posts = post-IsValid;
    promises = λ w ok. beside-IsValid w _ refl refl refl ok;
  }

  -- A posted call that a worker runs keeps the shared state valid.
  pub run_closure-IsValid :
      (w : World A U) (t : Task A) → IsValid w → IsValid (run_closure user_code w t)
  unfolding run_closure
  run_closure-IsValid w (queued a args) ok = elim (Bool-cases (alive w a)) [
    | inl here ↦
        let held =
          invoke-Keeps user_code IsValid steps (hold (a ∷ []) w) a args
            (hold-IsValid w (a ∷ []) ok) in
        simp here (release-IsValid (invoke user_code (hold (a ∷ []) w) a args) (a ∷ []) held)
    | inr gone ↦ simp gone ok
  ]
  run_closure-IsValid w (blocking a args p) ok =
      let w' = invoke user_code w a args in
      beside-IsValid w' _ refl refl refl (invoke-Keeps user_code IsValid steps w a args ok)

  module _ (assertions : Bool) where
    emit_slots-IsValid :
        (args : A) (copy xs : List ℕ) (w : World A U)
        → IsValid w
        → AfterEmission IsValid (emit_slots assertions user_code args copy xs w)
    unfolding emit_slots
    emit_slots-IsValid args copy [] w ok = release-IsValid w copy ok
    emit_slots-IsValid args copy (s ∷ rest) w ok =
        go_on rest copy (call assertions user_code w s args)
          (emit_slots assertions user_code args copy rest)
          (call-Keeps user_code IsValid steps assertions w s args ok)
          (λ w' ok'. emit_slots-IsValid args copy rest w' ok')

    -- An emission keeps the shared state valid, whatever the functions do that it calls, as long as
    -- each of them does so: slots may be connected, disconnected, moved and emitted meanwhile. That
    -- holds where it ends and where it waits for a promise; a fault may end the program before.
    pub emit-IsValid :
        (w : World A U) (k : ℕ) (args : A)
        → IsValid w
        → AfterEmission IsValid (emit assertions user_code w k args)
    unfolding emit
    emit-IsValid w k args ok =
        let copy = slots_of (w.signals k).m_slots in
        elim (Bool-cases (w.signals k).m_block) [
          | inl b ↦ simp b ok
          | inr b ↦
              simp b (emit_slots-IsValid args copy copy (hold copy w) (hold-IsValid w copy ok))
        ]

    -- So it does when it goes on after the wait, from any valid state.
    pub resume-IsValid :
        (args : A) (e : Emission A U) (w : World A U)
        → IsValid w
        → AfterEmission IsValid e
        → AfterEmission IsValid (resume assertions user_code args e w)
    unfolding resume
    resume-IsValid args (finished v) w ok before = before
    resume-IsValid args (crashed f) w ok before = tt
    resume-IsValid args (suspended p rest copy v) w ok before = elim (Bool-cases (w.fulfilled p)) [
      | inl over ↦ simp over (emit_slots-IsValid args copy rest w ok)
      | inr still ↦ simp still ok
    ]
