-- ===== src/Connect/Moved.antt =====
-- What a moved signal's slots still refer to.
use modern_signal_slot.Base.{ℕ, ◌≡◌, ◌≢◌, false, arith, Bool-cases, inl, inr}
use modern_signal_slot.World.{World, clean_slot, disconnect_slot, set_slot}
use modern_signal_slot.Connect.{move_construct}

module _ {A U : Type 0} where
  clean_slot-other :
      (w : World A U) (a j : ℕ)
      → j ≢ (w.slots a).m_cleaner
      → (clean_slot w a).signals j ≡ w.signals j
  unfolding clean_slot
  clean_slot-other w a j ne = ground arith

  -- A slot that was connected before its signal was moved refers to the old signal: disconnecting
  -- it after the move leaves the slot list of the new signal as it is, with the slot in it.
  pub move_construct-disconnect_slot :
      (w : World A U) (j k a : ℕ)
      → j ≢ k
      → (w.slots a).m_cleaner ≡ k
      → let (v, was) = disconnect_slot (move_construct w j k) a in
        (v.signals j).m_slots ≡ (w.signals k).m_slots
  unfolding disconnect_slot move_construct
  move_construct-disconnect_slot w j k a ne old =
      let moved = move_construct w j k in
      let off = set_slot moved a (record (w.slots a) { m_connected = false }) in
      let other : j ≢ (off.slots a).m_cleaner = λ e. ground arith in
      let same = clean_slot-other off a j other in
      elim (Bool-cases (w.slots a).m_connected) [
        | inl on ↦ simp on (ground (arith, same))
        | inr was_off ↦ simp was_off (ground arith)
      ]
