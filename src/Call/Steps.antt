-- ===== src/Call/Steps.antt =====
-- The parts of a call, one equation for each condition that matters.
use modern_signal_slot.Base.{ℕ, ◌≡◌, Bool, true, false, arith}
use modern_signal_slot.Slot.{Slot, Body, direct_connection}
use modern_signal_slot.World.{World}
use modern_signal_slot.Call.{done, can_emit, set_emitted, effective_type, invoke, dispatch}

pub can_emit-repeated : (s : Slot) → s.m_singleshot ≡ false → can_emit s ≡ true
unfolding can_emit
can_emit-repeated s e = ground arith

pub can_emit-emitted : (s : Slot) → s.m_singleshot ≡ true → s.m_emitted ≡ true → can_emit s ≡ false
unfolding can_emit
can_emit-emitted s e h = ground arith

module _ {A U : Type 0} (w : World A U) (a : ℕ) where
  pub set_emitted-repeated : (w.slots a).m_singleshot ≡ false → set_emitted w a ≡ w
  unfolding set_emitted
  set_emitted-repeated e = simp e

module _ {A U : Type 0} (assertions : Bool) (user_code : Body → A → World A U → World A U) where
  module _ (w : World A U) (a : ℕ) (args : A) where
    pub dispatch-direct :
        effective_type w (w.slots a) ≡ direct_connection
        → dispatch assertions user_code w a args ≡ done (invoke user_code w a args)
    unfolding dispatch
    dispatch-direct e = simp e

    pub invoke-repeated :
        (w.slots a).m_connected ≡ true
        → ((user_code (w.slots a).body args w).slots a).m_singleshot ≡ false
        → invoke user_code w a args ≡ user_code (w.slots a).body args w
    unfolding invoke
    invoke-repeated c e = simp (c, e)

    pub invoke_disconnected : (w.slots a).m_connected ≡ false → invoke user_code w a args ≡ w
    unfolding invoke
    invoke_disconnected c = simp c
