-- ===== src/Signal/Undo.antt =====
-- `clean` right after `add_slot`.
use modern_signal_slot.Base.{
  ℕ, ℤ, ◌≡◌, inl, inr, List, [], ◌∷◌, ◌++◌, some, arith, length, get_elem?, lt_of_tests,
  get_elem?-push_last, remove_at-push_last,
}
use modern_signal_slot.Slot.{Slots}
use modern_signal_slot.Signal.{Group, place, clean, clean_group, slots_of}
use modern_signal_slot.Signal.Erase.{erase_at_lem}
use modern_signal_slot.Signal.Clean.{clean_group-cases}

clean_group-push :
    (σ : Slots) (s : ℕ) (xs : List ℕ)
    → (σ s).m_index ≡ length xs
    → (clean_group σ (xs ++ s ∷ []) s (σ s).m_index).1 ≡ xs
clean_group-push σ s xs i =
    let found : get_elem? (xs ++ s ∷ []) (σ s).m_index ≡ some s = rw i (get_elem?-push_last xs s) in
    elim (clean_group-cases σ s (xs ++ s ∷ [])) [
      | inl (_, e) ↦
          rw (e, erase_at_lem σ (xs ++ s ∷ []) (σ s).m_index s found, i) (remove_at-push_last xs s)
      | inr (away, _) ↦ absurd (away found)
    ]

-- Whatever the groups are, a slot that `add_slot` has put in a group, and that holds its index and
-- its group's id, is the one that `clean` takes out, and the slots left are in the old order.
pub clean-place :
    (gid : ℤ) (s : ℕ) (gs : List Group) (σ : Slots)
    → (σ s).m_group ≡ gid
    → (σ s).m_index ≡ (place gid s gs).0
    → slots_of (clean σ (place gid s gs).1 s).1 ≡ slots_of gs
unfolding place clean
clean-place gid s [] σ here i = ground (arith, clean_group-push σ s [] i)
clean-place gid s (g ∷ gs) σ here i = ground (
  arith,
  clean-place gid s gs σ here,
  clean_group-push σ s g.slts,
  clean_group-push σ s [],
  lt_of_tests gid g.gid,
)
