-- ===== src/Signal/WellFormed.antt =====
-- What the slot list keeps: group ids ascend, and a slot knows its group and its index there.
use modern_signal_slot.Base.{ℕ, ℤ, ◌≡◌, ◌<ℤ◌, List, [], ◌∷◌, some, get_elem?}
use modern_signal_slot.Slot.{Slots}
use modern_signal_slot.Signal.{Group}

-- Every slot of a group holds the group's id and its own index.
abbrev pub Indexed : Slots → Group → Type 0
Indexed σ g =
    (i a : ℕ) → get_elem? g.slts i ≡ some a → ((σ a).m_index ≡ i) × ((σ a).m_group ≡ g.gid)

-- All group ids are above one.
abbrev pub Above : ℤ → List Group → Type 0
Above z [] = Unit {0}
Above z (g ∷ gs) = (z <ℤ g.gid) × Above z gs

abbrev pub Ascending : List Group → Type 0
Ascending [] = Unit {0}
Ascending (g ∷ gs) = Above g.gid gs × Ascending gs

abbrev pub AllIndexed : Slots → List Group → Type 0
AllIndexed σ [] = Unit {0}
AllIndexed σ (g ∷ gs) = Indexed σ g × AllIndexed σ gs

pub record IsWellFormed (σ : Slots) (gs : List Group) : Type 0 where
  pub ascending : Ascending gs
  pub indexed : AllIndexed σ gs
