-- ===== src/Signal/Erase.antt =====
-- The removal of one slot from its group, which `clean` and `disconnect_if` share.
use modern_signal_slot.Base.{
  ℕ, ◌<◌, ℤ, ◌≡◌, inl, inr, List, ◌∷◌, Perm, some, arith, get_elem?, back, remove_at,
  perm-remove_at, get_or-swap_back, get_elem?-back, get_elem?-remove_at,
}
use modern_signal_slot.Slot.{Slots, set_index}
use modern_signal_slot.Signal.{erase_at}
use modern_signal_slot.Signal.WellFormed.{Indexed}
use modern_signal_slot.Signal.Same.{SameBut}

module _ (σ : Slots) (slts : List ℕ) (i x : ℕ) (found : get_elem? slts i ≡ some x) where
  pub erase_at_lem : erase_at σ slts i x ≡ (set_index σ (back x slts) i, remove_at slts i x)
  unfolding erase_at
  erase_at_lem = rw (get_or-swap_back slts i x found)

  pub erase_at-perm : Perm slts (x ∷ (erase_at σ slts i x).1)
  erase_at-perm = rw erase_at_lem (perm-remove_at slts i x found)

  -- What stands before the place of the removal stays there.
  pub erase_at-before :
      (j a : ℕ) → j < i → get_elem? (erase_at σ slts i x).1 j ≡ some a → get_elem? slts j ≡ some a
  erase_at-before j a lt h = elim (get_elem?-remove_at slts i x j a (rw erase_at_lem at h)) [
    | inl p ↦ absurd (omega arith)
    | inr p ↦ p.0
  ]

  module _ (gid : ℤ) (ok : Indexed σ (record { slts = slts; gid = gid })) where
    pub erase_at-Indexed :
        Indexed (erase_at σ slts i x).0 (record { slts = (erase_at σ slts i x).1; gid = gid })
    erase_at-Indexed = rw erase_at_lem λ j a h.
        let (n, last, at_last) = get_elem?-back slts i x found in
        elim (get_elem?-remove_at slts i x j a h) [
          | inl p ↦ ground (arith, p, ok n (back x slts) at_last)
          | inr p ↦ ground (arith, p, ok j a p.0, ok n (back x slts) at_last)
        ]

    pub erase_at-SameBut : SameBut gid σ (erase_at σ slts i x).0
    erase_at-SameBut =
        let (n, last, at_last) = get_elem?-back slts i x found in
        rw erase_at_lem (record {
          others = λ a h. ground (arith, ok n (back x slts) at_last);
          same = λ a. ground arith;
        })
