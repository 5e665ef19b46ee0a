-- ===== src/Connection/Laws.antt =====
-- What a connection object promises.
use modern_signal_slot.Base.{
  ℕ, ◌≡◌, refl, ◌∙◌, ap, Bool, true, false, ◌&&◌, none, some, arith, Bool-cases, inl, inr,
}
use modern_signal_slot.Slot.{Body, slot, slot_extended, slot_pmf, slot_pmf_extended, slot_tracked}
use modern_signal_slot.World.{
  World, alive, lock_slot, slot_connected, disconnect_slot, connected_body,
}
use modern_signal_slot.World.Disconnect.{disconnect_slot_was, disconnect_slot_off}
use modern_signal_slot.Connection.{connected, disconnect}

connected_body-off : (objects : ℕ → Bool) (b : Body) → connected_body objects b false ≡ false
unfolding connected_body
connected_body-off objects (slot _) = refl
connected_body-off objects (slot_extended _ _) = refl
connected_body-off objects (slot_pmf _ _) = refl
connected_body-off objects (slot_pmf_extended _ _ _) = refl
connected_body-off objects (slot_tracked o _) = ground arith

module _ {A U : Type 0} (w : World A U) where
  lock_there : (a : ℕ) → alive w a ≡ true → lock_slot w (some a) ≡ some a
  unfolding lock_slot
  lock_there a e = ground arith

  lock_gone : (a : ℕ) → alive w a ≡ false → lock_slot w (some a) ≡ none
  unfolding lock_slot
  lock_gone a e = ground arith

  connected_there : (a : ℕ) → alive w a ≡ true → connected w (some a) ≡ slot_connected w a
  unfolding connected
  connected_there a e =
      ap (λ l. elim l [ none ↦ false | some b ↦ slot_connected w b ]) (lock_there a e)

  pub connected_gone : (a : ℕ) → alive w a ≡ false → connected w (some a) ≡ false
  unfolding connected
  connected_gone a e = rw (connected, lock_gone a e) refl

  pub disconnect_there : (a : ℕ) → alive w a ≡ true → disconnect w (some a) ≡ disconnect_slot w a
  unfolding disconnect
  disconnect_there a e = rw (disconnect, lock_there a e) refl

  pub disconnect_gone : (a : ℕ) → alive w a ≡ false → disconnect w (some a) ≡ (w, false)
  unfolding disconnect
  disconnect_gone a e = rw (disconnect, lock_gone a e) refl

  -- Once a slot is not connected, its connection says so and does not disconnect it again.
  pub disconnect-off :
      (a : ℕ)
      → (w.slots a).m_connected ≡ false
      → (connected w (some a) ≡ false) × ((disconnect w (some a)).1 ≡ false)
  unfolding slot_connected
  disconnect-off a off = elim (Bool-cases (alive w a)) [
    | inl e ↦
        rw (connected_there a e, disconnect_there a e, off)
          (connected_body-off w.objects (w.slots a).body, disconnect_slot_was w a ∙ off)
    | inr e ↦ rw (connected_gone a e, disconnect_gone a e) (refl, refl)
  ]

module _ {A U : Type 0} (w : World A U) where
  -- `disconnect` reports true exactly if the slot was there and had not been disconnected, and
  -- afterwards the connection is not connected and a second `disconnect` reports false.
  pub disconnect_lem :
      (a : ℕ)
      → let (v, was) = disconnect w (some a) in
        (was ≡ (alive w a && (w.slots a).m_connected))
        × (connected v (some a) ≡ false)
        × ((disconnect v (some a)).1 ≡ false)
  disconnect_lem a = elim (Bool-cases (alive w a)) [
    | inl e ↦
        let after = disconnect-off (disconnect_slot w a).0 a (disconnect_slot_off w a) in
        rw (disconnect_there w a e, e) (disconnect_slot_was w a, after.0, after.1)
    | inr e ↦
        rw (disconnect_gone w a e, e)
          (refl, connected_gone w a e, ap (λ p. p.1) (disconnect_gone w a e))
  ]
