-- ===== src/Signal/Find.antt =====
-- `get_slot` and `has_slot`: the first slot that a condition names, in emission order.
use modern_signal_slot.Base.{
  is_some, ℕ, ◌≡◌, refl, Bool, List, [], ◌∷◌, ◌++◌, Option, none, some, arith, keep,
}
use modern_signal_slot.Signal.{Group, find_slot, get_slot, has_slot, slots_of}

abbrev pub first {ℓ} : {A : Type ℓ} → List A → Option A
first [] = none
first (x ∷ xs) = some x

module _ (cond : ℕ → Bool) where
  find_slot-first : (xs : List ℕ) → find_slot cond xs ≡ first (keep cond xs)
  unfolding find_slot
  find_slot-first [] = refl
  find_slot-first (x ∷ xs) = ground (arith, find_slot-first xs)

  find_slot-append :
      (xs ys : List ℕ)
      → find_slot cond (xs ++ ys)
        ≡ elim (find_slot cond xs) [ some s ↦ some s | none ↦ find_slot cond ys ]
  unfolding find_slot
  find_slot-append [] ys = refl
  find_slot-append (x ∷ xs) ys = ground (arith, find_slot-append xs ys)

  get_slot-eq-find : (gs : List Group) → get_slot cond gs ≡ find_slot cond (slots_of gs)
  unfolding get_slot
  get_slot-eq-find [] = unfold find_slot in refl
  get_slot-eq-find (g ∷ gs) =
      ground (arith, get_slot-eq-find gs, find_slot-append g.slts (slots_of gs))

  -- `get_slot` returns the first slot, in emission order, for which the condition holds, and the
  -- null pointer if there is none.
  pub get_slot_lem : (gs : List Group) → get_slot cond gs ≡ first (keep cond (slots_of gs))
  get_slot_lem gs = rw (get_slot-eq-find gs) (find_slot-first (slots_of gs))

  pub has_slot-get_slot : (gs : List Group) → has_slot cond gs ≡ is_some (get_slot cond gs)
  unfolding has_slot get_slot
  has_slot-get_slot [] = refl
  has_slot-get_slot (g ∷ gs) = ground (arith, has_slot-get_slot gs)
