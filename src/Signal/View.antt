-- ===== src/Signal/View.antt =====
-- The abstract view of a slot list: the slots of each group id.
use modern_signal_slot.Base.{
  ℕ, ℤ, ◌==ℤ◌, ◌≡◌, refl, inl, inr, List, [], ◌∷◌, arith, if◌then◌else◌, length, Bool-cases,
}
use modern_signal_slot.Slot.{Slots}
use modern_signal_slot.Signal.{Group, disconnect_group}
use modern_signal_slot.Signal.WellFormed.{Indexed, Above, Ascending, AllIndexed, IsWellFormed}

abbrev pub group_slots : ℤ → List Group → List ℕ
group_slots z [] = []
group_slots z (g ∷ gs) = if g.gid ==ℤ z then g.slts else group_slots z gs

pub group_slots-Above : (z : ℤ) (gs : List Group) → Above z gs → group_slots z gs ≡ []
group_slots-Above z [] a = refl
group_slots-Above z (g ∷ gs) a = ground (arith, group_slots-Above z gs a.1)

-- What the invariant says of a slot of a group id.
pub group_slots-Indexed :
    (σ : Slots) (gs : List Group) (z : ℤ)
    → AllIndexed σ gs
    → Indexed σ (record { slts = group_slots z gs; gid = z })
group_slots-Indexed σ [] z ok i a h = cc
group_slots-Indexed σ (g ∷ gs) z ok i a h =
    ground (arith, ok.0 i a, group_slots-Indexed σ gs z ok.1 i a)

-- `disconnect` of a group id empties that group and leaves the slots of every other one.
pub disconnect_group_lem :
    (gid : ℤ) (gs : List Group)
    → (z : ℤ)
    → group_slots z (disconnect_group gid gs).0 ≡ (if gid ==ℤ z then [] else group_slots z gs)
unfolding disconnect_group
disconnect_group_lem gid [] z = ground arith
disconnect_group_lem gid (g ∷ gs) z = ground (arith, disconnect_group_lem gid gs z)

pub disconnect_group-count :
    (gid : ℤ) (gs : List Group) → (disconnect_group gid gs).1 ≡ length (group_slots gid gs)
unfolding disconnect_group
disconnect_group-count gid [] = refl
disconnect_group-count gid (g ∷ gs) = ground (arith, disconnect_group-count gid gs)

disconnect_group-Above :
    (gid z : ℤ) (gs : List Group) → Above z gs → Above z (disconnect_group gid gs).0
unfolding disconnect_group
disconnect_group-Above gid z [] a = tt
disconnect_group-Above gid z (g ∷ gs) a = ground (arith, disconnect_group-Above gid z gs a.1)

disconnect_group-Ascending :
    (gid : ℤ) (gs : List Group) → Ascending gs → Ascending (disconnect_group gid gs).0
unfolding disconnect_group
disconnect_group-Ascending gid [] a = tt
disconnect_group-Ascending gid (g ∷ gs) a =
    ground (arith, disconnect_group-Ascending gid gs a.1, disconnect_group-Above gid g.gid gs a.0)

disconnect_group-AllIndexed :
    (gid : ℤ) (σ : Slots) (gs : List Group)
    → AllIndexed σ gs
    → AllIndexed σ (disconnect_group gid gs).0
unfolding disconnect_group
disconnect_group-AllIndexed gid σ [] ok = tt
disconnect_group-AllIndexed gid σ (g ∷ gs) ok = elim (Bool-cases (g.gid ==ℤ gid)) [
  | inl t ↦ rw (t, disconnect_group) ((λ i a h. cc), ok.1)
  | inr f ↦ rw (f, disconnect_group) (ok.0, disconnect_group-AllIndexed gid σ gs ok.1)
]

-- `disconnect` of a group id keeps a well-formed slot list well formed.
pub disconnect_group-IsWellFormed :
    (gid : ℤ) (σ : Slots) (gs : List Group)
    → IsWellFormed σ gs
    → IsWellFormed σ (disconnect_group gid gs).0
disconnect_group-IsWellFormed gid σ gs w = record {
  ascending = disconnect_group-Ascending gid gs w.ascending;
  indexed = disconnect_group-AllIndexed gid σ gs w.indexed;
}
