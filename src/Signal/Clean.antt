-- ===== src/Signal/Clean.antt =====
-- `clean`, which a slot's `disconnect` calls: by the index that the slot holds it finds the slot
-- at once, and takes it out.
use modern_signal_slot.Base.{
  ℕ, ℤ, ◌==ℤ◌, ==ℤ_iff, ◌≡◌, ◌≢◌, refl, sym, ap, ◌∙◌, subst, ◌⊎◌, inl, inr, List, [], ◌∷◌, Perm,
  some, arith, ◌==◌, get_elem?, Option-cases, Bool-cases,
}
use modern_signal_slot.Slot.{Slots, set_index}
use modern_signal_slot.Signal.{Group, erase_at, clean_group, clean}
use modern_signal_slot.Signal.WellFormed.{Indexed, Above, Ascending, AllIndexed, IsWellFormed}
use modern_signal_slot.Signal.Same.{
  plain, SameBut, SameBut-refl, Indexed-SameBut, AllIndexed-SameBut,
}
use modern_signal_slot.Signal.View.{group_slots, group_slots-Indexed}
use modern_signal_slot.Signal.Erase.{erase_at-perm, erase_at-Indexed, erase_at-SameBut}

module _ (σ : Slots) (s : ℕ) where
  abbrev gid : ℤ
  gid = (σ s).m_group

  -- Either the slot stands at its index and is taken out, or nothing happens.
  pub clean_group-cases :
      (slts : List ℕ)
      → ((get_elem? slts (σ s).m_index ≡ some s)
          × (clean_group σ slts s (σ s).m_index ≡ erase_at σ slts (σ s).m_index s))
        ⊎ ((get_elem? slts (σ s).m_index ≢ some s)
            × (clean_group σ slts s (σ s).m_index ≡ (σ, slts)))
  unfolding clean_group
  clean_group-cases slts = elim (Option-cases (get_elem? slts (σ s).m_index)) [
    | inl e ↦ rw (e, clean_group) (inr ((λ h. cc), refl))
    | inr (x, e) ↦ elim (Bool-cases (x == s)) [
      | inl t ↦
          inl (
            ground arith,
            rw (e, t, clean_group) (ap (erase_at σ slts (σ s).m_index) (ground arith)),
          )
      | inr f ↦ inr ((λ h. ground arith), rw (e, f, clean_group) refl)
    ]
  ]

  clean_group-Indexed :
      (slts : List ℕ)
      → Indexed σ (record { slts = slts; gid = gid })
      → let (τ, rest) = clean_group σ slts s (σ s).m_index in
        Indexed τ (record { slts = rest; gid = gid }) × SameBut gid σ τ
  clean_group-Indexed slts ok = elim (clean_group-cases slts) [
    | inl (found, e) ↦ rw e (
      erase_at-Indexed σ slts (σ s).m_index s found gid ok,
      erase_at-SameBut σ slts (σ s).m_index s found gid ok,
    )
    | inr (_, e) ↦ rw e (ok, SameBut-refl gid σ)
  ]

  clean-Above : (z : ℤ) (gs : List Group) → Above z gs → Above z (clean σ gs s).1
  unfolding clean
  clean-Above z [] a = tt
  clean-Above z (g ∷ gs) a = ground (arith, clean-Above z gs a.1)

  clean-Ascending : (gs : List Group) → Ascending gs → Ascending (clean σ gs s).1
  unfolding clean
  clean-Ascending [] up = tt
  clean-Ascending (g ∷ gs) up = ground (arith, clean-Ascending gs up.1, clean-Above g.gid gs up.0)

  clean-AllIndexed :
      (gs : List Group)
      → Ascending gs
      → AllIndexed σ gs
      → AllIndexed (clean σ gs s).0 (clean σ gs s).1 × SameBut gid σ (clean σ gs s).0
  unfolding clean
  clean-AllIndexed [] up ok = (tt, SameBut-refl gid σ)
  clean-AllIndexed (g ∷ gs) up ok = elim (Bool-cases (g.gid ==ℤ gid)) [
    | inl here ↦
        let same_gid : g.gid ≡ gid = (==ℤ_iff g.gid gid).0 here in
        let (kept, same) =
          clean_group-Indexed g.slts
            (subst (λ z. Indexed σ (record { slts = g.slts; gid = z })) same_gid ok.0) in
        rw (here, clean)
          (
            (
              (λ i a h. let (index, group) = kept i a h in (index, group ∙ sym same_gid)),
              AllIndexed-SameBut gid σ _ gs same (subst (λ z. Above z gs) same_gid up.0) ok.1,
            ),
            same,
          )
    | inr other ↦
        let (rest, same) = clean-AllIndexed gs up.1 ok.1 in
        rw (other, clean) ((Indexed-SameBut gid σ _ g same (λ e. ground arith) ok.0, rest), same)
  ]

  pub clean-view :
      (gs : List Group) (z : ℤ) → z ≢ gid → group_slots z (clean σ gs s).1 ≡ group_slots z gs
  unfolding clean
  clean-view [] z n = refl
  clean-view (g ∷ gs) z n = ground (arith, clean-view gs z n)

  clean_group-nil : clean_group σ [] s (σ s).m_index ≡ (σ, [])
  unfolding clean_group
  clean_group-nil = refl

  pub clean-own :
      (gs : List Group)
      → group_slots gid (clean σ gs s).1 ≡ (clean_group σ (group_slots gid gs) s (σ s).m_index).1
  unfolding clean
  clean-own [] = rw clean_group-nil
  clean-own (g ∷ gs) = ground (arith, clean-own gs)

  clean_away :
      (gs : List Group)
      → ((i : ℕ) → get_elem? (group_slots gid gs) i ≢ some s)
      → clean σ gs s ≡ (σ, gs)
  unfolding clean
  clean_away [] new = refl
  clean_away (g ∷ gs) new = elim (Bool-cases (g.gid ==ℤ gid)) [
    | inl here ↦
        let new' = (rw here at new) in
        elim (clean_group-cases g.slts) [
          | inl p ↦ absurd (new' (σ s).m_index p.0)
          | inr p ↦ rw (here, p.1, clean) refl
        ]
    | inr other ↦ rw (other, clean_away gs (rw other at new), clean) refl
  ]

-- `clean` keeps a well-formed slot list well formed, whatever slot it is given.
pub clean-IsWellFormed :
    (σ : Slots) (gs : List Group) (s : ℕ)
    → IsWellFormed σ gs
    → IsWellFormed (clean σ gs s).0 (clean σ gs s).1
clean-IsWellFormed σ gs s w = record {
  ascending = clean-Ascending σ s gs w.ascending;
  indexed = (clean-AllIndexed σ s gs w.ascending w.indexed).0;
}

-- On a well-formed slot list `clean` takes out a slot that stands in its group: the group keeps
-- its other slots, in some order, and the other groups stay as they are. Of the store it changes
-- indices only.
pub clean_lem :
    (σ : Slots) (gs : List Group) (s i : ℕ) (z : ℤ)
    → IsWellFormed σ gs
    → get_elem? (group_slots (σ s).m_group gs) i ≡ some s
    → z ≢ (σ s).m_group
    → let (τ, hs) = clean σ gs s in
      Perm (group_slots (σ s).m_group gs) (s ∷ group_slots (σ s).m_group hs)
      × (group_slots z hs ≡ group_slots z gs)
      × ((a : ℕ) → plain (τ a) ≡ plain (σ a))
clean_lem σ gs s i z w found other = (
  rw (clean-own σ s gs) taken,
  clean-view σ s gs z other,
  (clean-AllIndexed σ s gs w.ascending w.indexed).1.same,
)
  where
    slts : List ℕ
    slts = group_slots (σ s).m_group gs

    at_index : get_elem? slts (σ s).m_index ≡ some s
    at_index = rw (group_slots-Indexed σ gs (σ s).m_group w.indexed i s found).0 found

    taken : Perm slts (s ∷ (clean_group σ slts s (σ s).m_index).1)
    taken = elim (clean_group-cases σ s slts) [
      | inl p ↦ rw p.1 (erase_at-perm σ slts (σ s).m_index s p.0)
      | inr p ↦ absurd (p.0 at_index)
    ]

-- If the slot is not in its group, as after another thread has cleaned it, `clean` does nothing.
pub clean_twice :
    (σ : Slots) (gs : List Group) (s : ℕ)
    → ((i : ℕ) → get_elem? (group_slots (σ s).m_group gs) i ≢ some s)
    → clean σ gs s ≡ (σ, gs)
clean_twice σ gs s new = clean_away σ s gs new

-- Whatever the groups are, `clean` changes nothing of any slot but its index.
set_index-plain : (σ : Slots) (b i a : ℕ) → plain (set_index σ b i a) ≡ plain (σ a)
set_index-plain σ b i a = ground arith

erase_at-plain :
    (σ : Slots) (slts : List ℕ) (i x a : ℕ) → plain ((erase_at σ slts i x).0 a) ≡ plain (σ a)
unfolding erase_at
erase_at-plain σ slts i x a = set_index-plain σ _ i a

clean_group-plain :
    (σ : Slots) (slts : List ℕ) (s a : ℕ)
    → plain ((clean_group σ slts s (σ s).m_index).0 a) ≡ plain (σ a)
clean_group-plain σ slts s a = elim (clean_group-cases σ s slts) [
  | inl (_, e) ↦ rw e (erase_at-plain σ slts (σ s).m_index s a)
  | inr (_, e) ↦ rw e refl
]

pub clean-plain : (σ : Slots) (gs : List Group) (s a : ℕ) → plain ((clean σ gs s).0 a) ≡ plain (σ a)
unfolding clean
clean-plain σ [] s a = refl
clean-plain σ (g ∷ gs) s a = elim (Bool-cases (g.gid ==ℤ (σ s).m_group)) [
  | inl here ↦ rw (here, clean) (clean_group-plain σ g.slts s a)
  | inr other ↦ rw (other, clean) (clean-plain σ gs s a)
]
