-- ===== src/Connect/Keep.antt =====
-- `connect` and `disconnect` keep the slot list of their signal well formed.
use modern_signal_slot.Base.{
  ℕ, ◌≡◌, ◌≢◌, sym, Bool, List, ◌∷◌, Perm, some, arith, ==-refl, Bool-cases, inl, inr,
}
use modern_signal_slot.Slot.{Slot, Body, update}
use modern_signal_slot.Signal.{Group, get_slot, slots_of}
use modern_signal_slot.Signal.WellFormed.{IsWellFormed}
use modern_signal_slot.Signal.Add.{Absent, add_slot-IsWellFormed, add_slot-perm, update-AllIndexed}
use modern_signal_slot.Signal.Disconnect.{disconnect_if-IsWellFormed}
use modern_signal_slot.World.{World}
use modern_signal_slot.Connect.{Options, is_unique, connect_slot, disconnect_where}

module _ {A U : Type 0} (w : World A U) (k : ℕ) where
  abbrev groups : List Group
  groups = (w.signals k).m_slots

  -- Connecting, refused or not, keeps the slot list of the signal well formed, if the next address
  -- is in no group of it.
  pub connect_slot-IsWellFormed :
      (same : Slot → Bool) (body : ℕ → Body) (opt : Options)
      → IsWellFormed w.slots groups
      → Absent w.allocated groups
      → let (v, conn) = connect_slot w k same body opt in IsWellFormed v.slots (v.signals k).m_slots
  unfolding connect_slot
  connect_slot-IsWellFormed same body opt ok new =
      elim (Bool-cases (is_unique w (get_slot (λ b. same (w.slots b)) groups))) [
        | inl refused ↦ simp refused ok
        | inr free ↦
            simp (free, ==-refl k)
              (add_slot-IsWellFormed (update w.slots w.allocated _) groups w.allocated
                (record {
                  ascending = ok.ascending;
                  indexed = update-AllIndexed w.slots w.allocated _ groups new ok.indexed;
                })
                new)
      ]

  -- A connect that is not refused adds one slot, the new one, to those that the signal calls, and
  -- leaves the other signals as they are.
  pub connect_slot-adds :
      (same : Slot → Bool) (body : ℕ → Body) (opt : Options) (a j : ℕ)
      → j ≢ k
      → let (v, conn) = connect_slot w k same body opt in
        conn ≡ some a
        → Perm (slots_of (v.signals k).m_slots) (a ∷ slots_of groups) × (v.signals j ≡ w.signals j)
  unfolding connect_slot
  connect_slot-adds same body opt a j other made =
      elim (Bool-cases (is_unique w (get_slot (λ b. same (w.slots b)) groups))) [
        | inl refused ↦ let absurd_case = simp refused at made in cc
        | inr free ↦
            let e = simp free at made in
            let same_slot : w.allocated ≡ a = cc in
            simp (free, ==-refl k)
              (rw (sym same_slot) (add_slot-perm _ (w.signals k).m_slots w.allocated), ground arith)
      ]

  -- Every overload of `disconnect` that takes a condition keeps the slot list well formed.
  pub disconnect_where-IsWellFormed :
      (cond : Slot → Bool)
      → IsWellFormed w.slots groups
      → let (v, n) = disconnect_where w k cond in IsWellFormed v.slots (v.signals k).m_slots
  unfolding disconnect_where
  disconnect_where-IsWellFormed cond ok =
      simp (==-refl k) (disconnect_if-IsWellFormed (λ a. cond (w.slots a)) w.slots groups ok)
