-- ===== src/Connect/Unique.antt =====
-- When a connect is refused.
use modern_signal_slot.Base.{
  ℕ, ◌≡◌, refl, Bool, List, none, some, keep, if◌then◌else◌, Bool-cases, inl, inr,
}
use modern_signal_slot.Slot.{Slot, Body}
use modern_signal_slot.Signal.{slots_of}
use modern_signal_slot.Signal.Find.{first, get_slot_lem}
use modern_signal_slot.World.{World}
use modern_signal_slot.Connect.{Options, is_unique, connect_slot}

module _ {A U : Type 0} (w : World A U) (k : ℕ) (same : Slot → Bool) (body : ℕ → Body)
    (opt : Options) where
  -- The connected slots that are equal to the new one, in emission order.
  abbrev pub equal_slots : List ℕ
  equal_slots = keep (λ b. same (w.slots b)) (slots_of (w.signals k).m_slots)

  -- A connect is refused exactly if the first of the equal slots is a unique one: then it returns
  -- the empty connection and changes nothing. Otherwise, whatever equal slots there are further
  -- on, and whatever its own type, it returns a connection to the new slot.
  pub connect_slot-refused :
      let refused = is_unique w (first equal_slots) in
      let (v, conn) = connect_slot w k same body opt in
      (conn ≡ (if refused then none else some w.allocated)) × ((if refused then v else w) ≡ w)
  unfolding connect_slot
  connect_slot-refused =
      rw (get_slot_lem (λ b. same (w.slots b)) (w.signals k).m_slots)
        (elim (Bool-cases (is_unique w (first equal_slots))) [
          | inl h ↦ simp h (refl, refl)
          | inr h ↦ simp h (refl, refl)
        ])
