-- ===== src/Signal/Order.antt =====
-- Emission order: a well-formed slot list runs through its groups by ascending id.
use modern_signal_slot.Base.{
  ℕ, suc, ◌+◌, ◌≡◌, ◌≤◌, sym, ℤ, pos_part, neg_part, List, [], ◌∷◌, ◌++◌, some, arith, refl, subst,
  get_elem?,
}
use modern_signal_slot.Slot.{Slots}
use modern_signal_slot.Signal.{Group, slots_of}
use modern_signal_slot.Signal.WellFormed.{Above, Ascending, AllIndexed, IsWellFormed}

infix 50 ◌≤ℤ◌
abbrev pub ◌≤ℤ◌ : ℤ → ℤ → Type 0
a ≤ℤ b = pos_part a + neg_part b ≤ pos_part b + neg_part a

-- Every slot's group id is at least some id.
abbrev pub AllFrom : Slots → ℤ → List ℕ → Type 0
AllFrom σ z [] = Unit {0}
AllFrom σ z (a ∷ xs) = (z ≤ℤ (σ a).m_group) × AllFrom σ z xs

-- The group ids never fall along the list.
abbrev pub InOrder : Slots → List ℕ → Type 0
InOrder σ [] = Unit {0}
InOrder σ (a ∷ xs) = AllFrom σ (σ a).m_group xs × InOrder σ xs

module _ (σ : Slots) where
  abbrev AllIn : ℤ → List ℕ → Type 0
  AllIn z [] = Unit {0}
  AllIn z (a ∷ xs) = ((σ a).m_group ≡ z) × AllIn z xs

  AllIn-Indexed :
      (z : ℤ) (xs : List ℕ) → ((i a : ℕ) → get_elem? xs i ≡ some a → (σ a).m_group ≡ z) → AllIn z xs
  AllIn-Indexed z [] h = tt
  AllIn-Indexed z (a ∷ xs) h = (h 0 a refl, AllIn-Indexed z xs (λ i. h (suc i)))

  AllFrom-append :
      (y z : ℤ) (xs ys : List ℕ) → y ≤ℤ z → AllIn z xs → AllFrom σ y ys → AllFrom σ y (xs ++ ys)
  AllFrom-append y z [] ys le a b = b
  AllFrom-append y z (x ∷ xs) ys le a b =
      (subst (λ w. y ≤ℤ w) (sym a.0) le, AllFrom-append y z xs ys le a.1 b)

  InOrder-append :
      (z : ℤ) (xs ys : List ℕ) → AllIn z xs → AllFrom σ z ys → InOrder σ ys → InOrder σ (xs ++ ys)
  InOrder-append z [] ys a b o = o
  InOrder-append z (x ∷ xs) ys a b o = (
    subst (λ w. AllFrom σ w (xs ++ ys)) (sym a.0) (AllFrom-append z z xs ys (omega arith) a.1 b),
    InOrder-append z xs ys a.1 b o,
  )

  slots_of-AllFrom :
      (z : ℤ) (gs : List Group) → Above z gs → AllIndexed σ gs → AllFrom σ z (slots_of gs)
  slots_of-AllFrom z [] up ok = tt
  slots_of-AllFrom z (g ∷ gs) up ok =
      AllFrom-append z g.gid g.slts (slots_of gs) (omega arith)
        (AllIn-Indexed g.gid g.slts (λ i a h. (ok.0 i a h).1)) (slots_of-AllFrom z gs up.1 ok.1)

  groups-InOrder : (gs : List Group) → Ascending gs → AllIndexed σ gs → InOrder σ (slots_of gs)
  groups-InOrder [] up ok = tt
  groups-InOrder (g ∷ gs) up ok =
      InOrder-append g.gid g.slts (slots_of gs)
        (AllIn-Indexed g.gid g.slts (λ i a h. (ok.0 i a h).1)) (slots_of-AllFrom g.gid gs up.0 ok.1)
        (groups-InOrder gs up.1 ok.1)

  -- In a well-formed slot list an emission meets the slots by ascending group id.
  pub slots_of-InOrder : (gs : List Group) → IsWellFormed σ gs → InOrder σ (slots_of gs)
  slots_of-InOrder gs w = groups-InOrder gs w.ascending w.indexed
