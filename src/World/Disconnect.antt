-- ===== src/World/Disconnect.antt =====
-- What `slot_state::disconnect` and the references of running calls do to the shared state.
use modern_signal_slot.Base.{ℕ, ◌≡◌, ap, ◌∙◌, fun_ext, false, List, arith, Bool-cases, inl, inr}
use modern_signal_slot.Signal.Same.{plain}
use modern_signal_slot.Signal.Clean.{clean-plain}
use modern_signal_slot.World.{World, hold, release, set_slot, clean_slot, disconnect_slot}

module _ {A U : Type 0} (w : World A U) where
  pub release-hold : (xs : List ℕ) → release xs (hold xs w) ≡ w
  unfolding hold release
  release-hold xs = ap (λ h. record w { held = h }) (fun_ext λ b. omega arith)

  pub clean_slot-plain : (b a : ℕ) → plain ((clean_slot w b).slots a) ≡ plain (w.slots a)
  unfolding clean_slot
  clean_slot-plain b a = clean-plain w.slots (w.signals (w.slots b).m_cleaner).m_slots b a

module _ {A U : Type 0} (w : World A U) (a : ℕ) where
  -- It reports whether the slot was connected, and the slot is not any more.
  pub disconnect_slot_was : (disconnect_slot w a).1 ≡ (w.slots a).m_connected
  unfolding disconnect_slot
  disconnect_slot_was = ground arith

  pub disconnect_slot_off : ((disconnect_slot w a).0.slots a).m_connected ≡ false
  unfolding disconnect_slot
  disconnect_slot_off =
      let w' = set_slot w a (record (w.slots a) { m_connected = false }) in
      let off : (w'.slots a).m_connected ≡ false = ground arith in
      elim (Bool-cases (w.slots a).m_connected) [
        | inl on ↦ simp on (ap (λ s. s.m_connected) (clean_slot-plain w' a a) ∙ off)
        | inr was_off ↦ simp was_off off
      ]
