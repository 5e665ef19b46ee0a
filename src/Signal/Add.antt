-- ===== src/Signal/Add.antt =====
-- `add_slot`: a new slot goes to the end of its group, which is made where it is missing.
use mathlib.Core.List.{perm_middle, append_assoc}
use mathlib.Core.List.Perm
use modern_signal_slot.Base.{
  ℕ, ℤ, ltb_ℤ, ◌==ℤ◌, ==ℤ_iff, ◌≡◌, ◌≢◌, refl, sym, ap, ◌<ℤ◌, inl, inr, Bool-cases, List, [], ◌∷◌,
  ◌++◌, Perm, some, arith, if◌then◌else◌, length, get_elem?, get_elem?-push, lt_of_tests,
}
use modern_signal_slot.Slot.{Slot, Slots, set_index, update}
use modern_signal_slot.Signal.{Group, place, add_slot, slots_of}
use modern_signal_slot.Signal.WellFormed.{Indexed, Above, Ascending, AllIndexed, IsWellFormed}
use modern_signal_slot.Signal.View.{group_slots, group_slots-Above}

place-Above :
    (z gid : ℤ) (s : ℕ) (gs : List Group) → z <ℤ gid → Above z gs → Above z (place gid s gs).1
unfolding place
place-Above z gid s [] lt a = (lt, tt)
place-Above z gid s (g ∷ gs) lt a = ground (arith, place-Above z gid s gs)

Above-trans : (y z : ℤ) (gs : List Group) → y <ℤ z → Above z gs → Above y gs
Above-trans y z [] lt a = tt
Above-trans y z (g ∷ gs) lt a = (omega arith, Above-trans y z gs lt a.1)

place-Ascending : (gid : ℤ) (s : ℕ) (gs : List Group) → Ascending gs → Ascending (place gid s gs).1
unfolding place
place-Ascending gid s [] up = (tt, tt)
place-Ascending gid s (g ∷ gs) up = ground (
  arith,
  place-Ascending gid s gs,
  place-Above g.gid gid s gs,
  Above-trans gid g.gid gs,
  lt_of_tests gid g.gid,
)

-- The view after `place`.
pub place_lem :
    (gid : ℤ) (s : ℕ) (gs : List Group)
    → Ascending gs
    → (z : ℤ)
    → group_slots z (place gid s gs).1
      ≡ (if gid ==ℤ z then group_slots z gs ++ s ∷ [] else group_slots z gs)
unfolding place
place_lem gid s [] up z = refl
place_lem gid s (g ∷ gs) up z = ground (
  arith,
  place_lem gid s gs up.1 z,
  group_slots-Above z gs,
  Above-trans z g.gid gs,
  lt_of_tests gid g.gid,
)

pub place-index :
    (gid : ℤ) (s : ℕ) (gs : List Group)
    → Ascending gs
    → (place gid s gs).0 ≡ length (group_slots gid gs)
unfolding place
place-index gid s [] up = refl
place-index gid s (g ∷ gs) up = ground (
  arith,
  place-index gid s gs up.1,
  group_slots-Above gid gs,
  Above-trans gid g.gid gs,
  lt_of_tests gid g.gid,
)

-- The slot is in none of the groups.
abbrev pub Absent : ℕ → List Group → Type 0
Absent s [] = Unit {0}
Absent s (g ∷ gs) = ((i : ℕ) → get_elem? g.slts i ≢ some s) × Absent s gs

module _ (σ : Slots) (s : ℕ) where
  set_index-Indexed :
      (n : ℕ) (g : Group)
      → ((i : ℕ) → get_elem? g.slts i ≢ some s)
      → Indexed σ g
      → Indexed (set_index σ s n) g
  set_index-Indexed n g new ok i a h = ground (arith, new i, ok i a h)

  set_index-AllIndexed :
      (n : ℕ) (gs : List Group) → Absent s gs → AllIndexed σ gs → AllIndexed (set_index σ s n) gs
  set_index-AllIndexed n [] new ok = tt
  set_index-AllIndexed n (g ∷ gs) new ok =
      (set_index-Indexed n g new.0 ok.0, set_index-AllIndexed n gs new.1 ok.1)

  push-Indexed :
      (g : Group)
      → (σ s).m_group ≡ g.gid
      → ((i : ℕ) → get_elem? g.slts i ≢ some s)
      → Indexed σ g
      → Indexed (set_index σ s (length g.slts)) (record g { slts = g.slts ++ s ∷ [] })
  push-Indexed g e new ok i a h = elim (get_elem?-push g.slts s i h) [
    | inl old ↦ ground (arith, new i, ok i a old)
    | inr last ↦ ground arith
  ]

  place-AllIndexed :
      (gs : List Group)
      → Absent s gs
      → AllIndexed σ gs
      → let (n, hs) = place (σ s).m_group s gs in AllIndexed (set_index σ s n) hs
  unfolding place
  place-AllIndexed [] new ok = (
    push-Indexed (record { slts = []; gid = (σ s).m_group }) refl (λ i. ground arith) (λ i a h. cc),
    tt,
  )
  place-AllIndexed (g ∷ gs) new ok = elim (Bool-cases (ltb_ℤ g.gid (σ s).m_group)) [
    | inl below ↦
        rw (below, place) (set_index-Indexed _ g new.0 ok.0, place-AllIndexed gs new.1 ok.1)
    | inr not_below ↦ elim (Bool-cases (g.gid ==ℤ (σ s).m_group)) [
      | inl here ↦
          rw (not_below, here, place)
            (
              push-Indexed g (sym ((==ℤ_iff g.gid (σ s).m_group).0 here)) new.0 ok.0,
              set_index-AllIndexed _ gs new.1 ok.1,
            )
      | inr above ↦
          rw (not_below, above, place)
            (
              push-Indexed (record { slts = []; gid = (σ s).m_group }) refl (λ i. ground arith)
                  (λ i a h. cc),
              set_index-AllIndexed 0 (g ∷ gs) new ok,
            )
    ]
  ]

-- Writing a slot that is in no group does not disturb the groups.
pub update-AllIndexed :
    (σ : Slots) (a : ℕ) (t : Slot) (gs : List Group)
    → Absent a gs
    → AllIndexed σ gs
    → AllIndexed (update σ a t) gs
update-AllIndexed σ a t [] new ok = tt
update-AllIndexed σ a t (g ∷ gs) new ok =
    ((λ i b h. ground (arith, new.0 i, ok.0 i b h)), update-AllIndexed σ a t gs new.1 ok.1)

pub place-perm :
    (gid : ℤ) (s : ℕ) (gs : List Group) → Perm (slots_of (place gid s gs).1) (s ∷ slots_of gs)
unfolding place
place-perm gid s [] = Perm.refl _
place-perm gid s (g ∷ gs) = elim (Bool-cases (ltb_ℤ g.gid gid)) [
  | inl below ↦
      rw (below, place)
        (Perm.trans (Perm.append_left g.slts (place-perm gid s gs)) (perm_middle g.slts _))
  | inr not_below ↦ elim (Bool-cases (g.gid ==ℤ gid)) [
    | inl here ↦
        rw (not_below, here, place, append_assoc g.slts (s ∷ []) (slots_of gs))
          (perm_middle g.slts _)
    | inr above ↦ rw (not_below, above, place) (Perm.refl _)
  ]
]

-- `add_slot` adds one slot to what an emission goes through.
pub add_slot-perm :
    (σ : Slots) (gs : List Group) (s : ℕ) → Perm (slots_of (add_slot σ gs s).1) (s ∷ slots_of gs)
unfolding add_slot
add_slot-perm σ gs s = place-perm (σ s).m_group s gs

-- Adding a slot that is in no group keeps the slot list well formed.
pub add_slot-IsWellFormed :
    (σ : Slots) (gs : List Group) (s : ℕ)
    → IsWellFormed σ gs
    → Absent s gs
    → IsWellFormed (add_slot σ gs s).0 (add_slot σ gs s).1
unfolding add_slot
add_slot-IsWellFormed σ gs s w new = record {
  ascending = place-Ascending (σ s).m_group s gs w.ascending;
  indexed = place-AllIndexed σ s gs new w.indexed;
}

-- On groups in ascending order `add_slot` appends the slot to the end of its own group, leaves the
-- other groups as they were, and changes of the store only the slot's index.
pub add_slot_lem :
    (σ : Slots) (gs : List Group) (s : ℕ)
    → Ascending gs
    → let (τ, hs) = add_slot σ gs s in
      (τ ≡ set_index σ s (length (group_slots (σ s).m_group gs)))
      × ((z : ℤ)
          → group_slots z hs
            ≡ (if (σ s).m_group ==ℤ z then group_slots z gs ++ s ∷ [] else group_slots z gs))
unfolding add_slot
add_slot_lem σ gs s up =
    (ap (set_index σ s) (place-index (σ s).m_group s gs up), place_lem (σ s).m_group s gs up)
