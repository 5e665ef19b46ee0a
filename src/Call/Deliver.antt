-- ===== src/Call/Deliver.antt =====
-- Which thread runs a slot, and what a queued call does when its time comes.
use modern_signal_slot.Base.{
  ℕ, ◌≡◌, refl, ap, ◌∙◌, Bool, true, false, [], ◌∷◌, none, some, arith, if◌then◌else◌, ◌==◌,
  Bool-cases, inl, inr, ◌⊎◌,
}
use modern_signal_slot.Slot.{Body, auto_connection}
use modern_signal_slot.World.{World, queued, blocking, alive, hold, release, disconnect_slot}
use modern_signal_slot.Call.{done, effective_type, is_current, post, invoke, dispatch, run_closure}
use modern_signal_slot.Call.Steps.{invoke_disconnected}
use modern_signal_slot.World.Disconnect.{release-hold, disconnect_slot_off}

module _ {A U : Type 0} (assertions : Bool) (user_code : Body → A → World A U → World A U) where
  module _ (w : World A U) (a : ℕ) (args : A) where
    -- Without a queue a slot of type auto is called at once; with one, it is called at once exactly
    -- if the calling thread is the queue's own, and otherwise one task is posted to the queue.
    pub dispatch_auto :
        (w.slots a).m_type ≡ auto_connection
        → dispatch assertions user_code w a args ≡ elim (w.slots a).m_queue [
          | none ↦ done (invoke user_code w a args)
          | some q ↦ elim w.current [
            | none ↦ done (post w q (queued a args))
            | some c ↦
                if c == q then done (invoke user_code w a args) else done (post w q (queued a args))
          ]
        ]
    unfolding dispatch effective_type is_current
    dispatch_auto auto = ground arith

    -- A queued call whose slot is gone, or is no longer connected, changes nothing when its turn
    -- comes: its function is not called.
    pub run_task_refused :
        (alive w a ≡ false) ⊎ ((w.slots a).m_connected ≡ false)
        → run_closure user_code w (queued a args) ≡ w
    unfolding run_closure
    run_task_refused (inl gone) = simp gone refl
    run_task_refused (inr off) = elim (Bool-cases (alive w a)) [
      | inl here ↦ simp here (
          ap (release (a ∷ []))
            (invoke_disconnected assertions user_code (hold (a ∷ []) w) a args (unfold hold in off))
          ∙ release-hold w (a ∷ []))
      | inr gone ↦ simp gone refl
    ]

    -- If the slot of a blocking call has been disconnected before its turn comes, then the task
    -- fulfils its promise, so that the caller goes on, and does nothing else.
    pub run_closure-promise :
        (p : ℕ)
        → (w.slots a).m_connected ≡ false
        → run_closure user_code w (blocking a args p)
          ≡ record w { fulfilled = λ r. if p == r then true else w.fulfilled r }
    unfolding run_closure
    run_closure-promise p off = rw (invoke_disconnected assertions user_code w a args off) refl

  -- After a slot has been disconnected, no queued call of it does anything any more, also if it was
  -- posted before the disconnection.
  pub disconnect-run_closure :
      (w : World A U) (a : ℕ) (args : A)
      → let (w', was) = disconnect_slot w a in run_closure user_code w' (queued a args) ≡ w'
  disconnect-run_closure w a args =
      run_task_refused (disconnect_slot w a).0 a args (inr (disconnect_slot_off w a))
