-- ===== src/Signal/Live.antt =====
-- A group of the slot list that changes while it is read in place, which a signal without a mutex
-- does.
use modern_signal_slot.Base.{
  ℕ, suc, ◌≡◌, refl, Bool, true, false, ◌&&◌, List, [], ◌∷◌, none, some, arith, ◌==◌, ==ℤ_iff,
  Bool-cases, inl, inr, get_elem?, occurrences, occurrences-perm, Perm, ◌==ℤ◌,
}
use modern_signal_slot.Slot.{Slots}
use modern_signal_slot.Signal.{Group, clean, clean_group}
use modern_signal_slot.Signal.Erase.{erase_at-perm}
use modern_signal_slot.Signal.Clean.{clean_group-cases}

-- The slots of the group of index `j`.
abbrev pub group_at : List Group → ℕ → List ℕ
group_at gs j = elim (get_elem? gs j) [ none ↦ [] | some g ↦ g.slts ]

abbrev pub same_slots : List ℕ → List ℕ → Bool
same_slots [] [] = true
same_slots [] (y ∷ ys) = false
same_slots (x ∷ xs) [] = false
same_slots (x ∷ xs) (y ∷ ys) = x == y && same_slots xs ys

pub same_slots_refl : (xs : List ℕ) → same_slots xs xs ≡ true
same_slots_refl [] = refl
same_slots_refl (x ∷ xs) = ground (arith, same_slots_refl xs)

same_slots-occurrences :
    (b : ℕ) (xs ys : List ℕ) → same_slots xs ys ≡ true → occurrences b xs ≡ occurrences b ys
same_slots-occurrences b [] [] e = refl
same_slots-occurrences b [] (y ∷ ys) e = cc
same_slots-occurrences b (x ∷ xs) [] e = cc
same_slots-occurrences b (x ∷ xs) (y ∷ ys) e = ground (arith, same_slots-occurrences b xs ys)

taken_out : (xs ys : List ℕ) (s : ℕ) → Perm xs (s ∷ ys) → occurrences s xs ≡ suc (occurrences s ys)
taken_out xs ys s p = ground (arith, occurrences-perm s p)

-- `clean` changes the slots of the group that it takes a slot out of.
pub clean-changes :
    (σ : Slots) (g : Group) (gs : List Group) (s : ℕ)
    → g.gid ≡ (σ s).m_group
    → get_elem? g.slts (σ s).m_index ≡ some s
    → same_slots g.slts (group_at (clean σ (g ∷ gs) s).1 0) ≡ false
unfolding clean
clean-changes σ g gs s here found =
    let own : (g.gid ==ℤ (σ s).m_group) ≡ true = (==ℤ_iff g.gid (σ s).m_group).1 here in
    let rest = (clean_group σ g.slts s (σ s).m_index).1 in
    let fewer : same_slots g.slts rest ≡ false = elim (clean_group-cases σ s g.slts) [
      | inl (there, e) ↦ elim (Bool-cases (same_slots g.slts rest)) [
        | inl same ↦ absurd (
            omega (
              arith,
              same_slots-occurrences s g.slts rest same,
              taken_out g.slts rest s (rw e (erase_at-perm σ g.slts (σ s).m_index s found)),
            ))
        | inr other ↦ other
      ]
      | inr (gone, e) ↦ absurd (gone found)
    ] in
    rw (own, clean) fewer
