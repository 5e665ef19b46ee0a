-- ===== src/Call/SingleThread/OneShot.antt =====
-- A call of a singleshot slot on a direct connection: it ends with the slot's own `disconnect`.
use modern_signal_slot.Base.{ℕ, ◌≡◌, refl, ap, ◌∙◌, Bool, true, false, none, arith, ==-refl}
use modern_signal_slot.Slot.{
  Body, slot, slot_extended, slot_pmf, slot_pmf_extended, slot_tracked, direct_connection,
}
use modern_signal_slot.World.{World, disconnect_slot, set_slot}
use modern_signal_slot.Call.{
  done, can_emit, set_emitted, effective_type, invoke, call_untracked, call_slot, call,
}
use modern_signal_slot.Call.Steps.{dispatch-direct}
use modern_signal_slot.Call.Order.{active, user_code}
use modern_signal_slot.Call.Race.{guard_of}

module _ {A U : Type 0} where
  -- A singleshot slot that has not emitted, on a direct connection that is connected, is not blocked
  -- and tracks nothing.
  pub record IsOneShot (w : World A U) (a : ℕ) : Type 0 where
    pub untracked : guard_of (w.slots a).body ≡ none
    pub on : active (w.slots a) ≡ true
    pub direct : effective_type w (w.slots a) ≡ direct_connection
    pub once : (w.slots a).m_singleshot ≡ true
    pub fresh : (w.slots a).m_emitted ≡ false

module _ {A U : Type 0} (assertions : Bool) (f : Body → A → U → U) (k : ℕ) (args : A) where
  call_slot-untracked :
      (w : World A U) (a : ℕ) (b : Body)
      → guard_of b ≡ none
      → call_slot assertions (user_code assertions f) w a args b
        ≡ call_untracked assertions (user_code assertions f) w a args
  unfolding call_slot
  call_slot-untracked w a (slot _) e = refl
  call_slot-untracked w a (slot_extended _ _) e = refl
  call_slot-untracked w a (slot_pmf _ _) e = refl
  call_slot-untracked w a (slot_pmf_extended _ _ _) e = refl
  call_slot-untracked w a (slot_tracked o _) e = cc

  -- The state when the function has returned.
  abbrev pub after_function : World A U → ℕ → World A U
  after_function w a = record (set_emitted w a) {
    user = f (w.slots a).body args (set_emitted w a).user;
  }

  marked :
      (w : World A U) (a : ℕ)
      → IsOneShot w a
      → set_emitted w a ≡ set_slot w a (record (w.slots a) { m_emitted = true })
  unfolding set_emitted
  marked w a s = simp (s.once, s.fresh) refl

  marked-direct :
      (w : World A U) (a : ℕ)
      → IsOneShot w a
      → effective_type (set_emitted w a) ((set_emitted w a).slots a) ≡ direct_connection
  unfolding effective_type
  marked-direct w a s = rw (marked w a s, ==-refl a) s.direct

  pub marked-slot :
      (w : World A U) (a : ℕ)
      → IsOneShot w a
      → (set_emitted w a).slots a ≡ record (w.slots a) { m_emitted = true }
  marked-slot w a s = rw (marked w a s, ==-refl a) refl

  invoke-once :
      (w : World A U) (a : ℕ)
      → IsOneShot w a
      → invoke (user_code assertions f) (set_emitted w a) a args
        ≡ (disconnect_slot (after_function w a) a).0
  unfolding invoke
  invoke-once w a s =
      let e = marked-slot w a s in
      let conn : ((set_emitted w a).slots a).m_connected ≡ true =
        ap (λ t. t.m_connected) e ∙ ground (arith, s.on) in
      let single : ((set_emitted w a).slots a).m_singleshot ≡ true =
        ap (λ t. t.m_singleshot) e ∙ s.once in
      let emitted : ((set_emitted w a).slots a).m_emitted ≡ true = ap (λ t. t.m_emitted) e in
      let same : ((set_emitted w a).slots a).body ≡ (w.slots a).body = ap (λ t. t.body) e in
      simp (conn, single, emitted, same) refl

  untracked-once :
      (w : World A U) (a : ℕ)
      → IsOneShot w a
      → call_untracked assertions (user_code assertions f) w a args
        ≡ done (disconnect_slot (after_function w a) a).0
  unfolding call_untracked can_emit
  untracked-once w a s =
      rw (s.once, s.fresh, call_untracked, can_emit)
        (dispatch-direct assertions (user_code assertions f) (set_emitted w a) a args
            (marked-direct w a s)
          ∙ ap done (invoke-once w a s))

  pub call-once :
      (w : World A U) (a : ℕ)
      → IsOneShot w a
      → call assertions (user_code assertions f) w a args
        ≡ done (disconnect_slot (after_function w a) a).0
  unfolding call
  call-once w a s =
      rw (s.on, call) (call_slot-untracked w a (w.slots a).body s.untracked ∙ untracked-once w a s)
