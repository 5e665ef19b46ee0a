-- ===== src/Base/Vector.antt =====
-- The operations of `std::vector` by which the signal changes its slot lists.
use Prim.Native.Nat.{ℕ, zero, suc, ◌<◌}
use mathlib.Core.Path.{◌≡◌, ◌∙◌, refl, ap}
use mathlib.Core.Logic.{◌≢◌, ◌⊎◌, inl, inr}
use mathlib.Core.List.{List, [], ◌∷◌, ◌++◌, Perm}
use mathlib.Core.List.Perm
use mathlib.Core.Option.{some}
use native.Mathlib.Omega.{arith}
use modern_signal_slot.Base.Lists.{length, get_elem?}

module _ {ℓ} {A : Type ℓ} where
  abbrev pub get_or : List A → ℕ → A → A
  get_or [] i d = d
  get_or (x ∷ xs) zero d = x
  get_or (x ∷ xs) (suc i) d = get_or xs i d

  -- Assignment to an element. The code never writes out of range.
  abbrev pub set : List A → ℕ → A → List A
  set [] i v = []
  set (x ∷ xs) zero v = v ∷ xs
  set (x ∷ xs) (suc i) v = x ∷ set xs i v

  -- `back()`, where the vector has an element.
  abbrev pub back : A → List A → A
  back d [] = d
  back d (x ∷ xs) = back x xs

  abbrev pub pop_back : List A → List A
  pop_back [] = []
  pop_back (x ∷ []) = []
  pop_back (x ∷ y ∷ ys) = x ∷ pop_back (y ∷ ys)

  -- Assignment to `back()`.
  abbrev pub set_back : List A → A → List A
  set_back [] v = []
  set_back (x ∷ []) v = v ∷ []
  set_back (x ∷ y ∷ ys) v = x ∷ set_back (y ∷ ys) v

  -- `std::swap(xs[i], xs.back())`, where `x` is the element of index `i`.
  abbrev pub swap_back : List A → ℕ → A → List A
  swap_back xs i x = set_back (set xs i (back x xs)) x

module _ {ℓ} {A : Type ℓ} where
  pop_back-set_back : (xs : List A) (v : A) → pop_back (set_back xs v) ≡ pop_back xs
  pop_back-set_back [] v = refl
  pop_back-set_back (x ∷ []) v = refl
  pop_back-set_back (x ∷ y ∷ []) v = refl
  pop_back-set_back (x ∷ y ∷ z ∷ zs) v = ap (◌∷◌ x) (pop_back-set_back (y ∷ z ∷ zs) v)

  -- The last element has the last index.
  pub get_elem?-back :
      (xs : List A) (i : ℕ) {x : A} (d : A)
      → get_elem? xs i ≡ some x
      → (n : ℕ) × (suc n ≡ length xs) × (get_elem? xs n ≡ some (back d xs))
  get_elem?-back [] i d h = cc
  get_elem?-back (x ∷ []) i d h = (0, refl, refl)
  get_elem?-back (x ∷ y ∷ ys) i d h =
      let (n, e, k) = get_elem?-back (y ∷ ys) 0 d refl in (suc n, ap suc e, k)

  -- What is left when the element of index `i` is swapped with the last one and dropped.
  abbrev pub remove_at : List A → ℕ → A → List A
  remove_at xs i x = pop_back (swap_back xs i x)

  remove_at-cons :
      (y : A) (z : A) (zs : List A) (i : ℕ) (x : A)
      → remove_at (y ∷ z ∷ zs) (suc i) x ≡ y ∷ remove_at (z ∷ zs) i x
  remove_at-cons y z [] zero x = refl
  remove_at-cons y z (u ∷ us) zero x = refl
  remove_at-cons y z [] (suc i) x = refl
  remove_at-cons y z (u ∷ us) (suc zero) x = refl
  remove_at-cons y z (u ∷ us) (suc (suc i)) x = refl

  -- The element at the end.
  pub remove_at-push_last : (xs : List A) (x : A) → remove_at (xs ++ x ∷ []) (length xs) x ≡ xs
  remove_at-push_last [] x = refl
  remove_at-push_last (y ∷ []) x = refl
  remove_at-push_last (y ∷ z ∷ zs) x =
      remove_at-cons y z (zs ++ x ∷ []) (length (z ∷ zs)) x
      ∙ ap (◌∷◌ y) (remove_at-push_last (z ∷ zs) x)

  remove_at-zero :
      (y z : A) (zs : List A) (x : A) → remove_at (y ∷ z ∷ zs) 0 x ≡ back z zs ∷ pop_back (z ∷ zs)
  remove_at-zero y z [] x = refl
  remove_at-zero y z (u ∷ us) x = ap (λ l. back u us ∷ l) (pop_back-set_back (z ∷ u ∷ us) x)

  perm-back : (x : A) (xs : List A) → Perm (x ∷ xs) (back x xs ∷ pop_back (x ∷ xs))
  perm-back x [] = Perm.refl _
  perm-back x (y ∷ ys) = Perm.trans (Perm.cons x (perm-back y ys)) (Perm.swap _ _ _)

  pub perm-remove_at :
      (xs : List A) (i : ℕ) (x : A) → get_elem? xs i ≡ some x → Perm xs (x ∷ remove_at xs i x)
  perm-remove_at [] i x h = cc
  perm-remove_at (y ∷ []) zero x h = let e : y ≡ x = cc in rw e (Perm.refl _)
  perm-remove_at (y ∷ []) (suc i) x h = cc
  perm-remove_at (y ∷ z ∷ zs) zero x h =
      let e : y ≡ x = cc in rw (remove_at-zero y z zs x, e) (Perm.cons x (perm-back z zs))
  perm-remove_at (y ∷ z ∷ zs) (suc i) x h =
      rw (remove_at-cons y z zs i x)
        (Perm.trans (Perm.cons y (perm-remove_at (z ∷ zs) i x h)) (Perm.swap _ _ _))

  pub get_or-swap_back :
      (xs : List A) (i : ℕ) (x : A)
      → get_elem? xs i ≡ some x
      → get_or (swap_back xs i x) i x ≡ back x xs
  get_or-swap_back [] i x h = cc
  get_or-swap_back (y ∷ []) zero x h = cc
  get_or-swap_back (y ∷ []) (suc i) x h = cc
  get_or-swap_back (y ∷ z ∷ zs) zero x h = refl
  get_or-swap_back (y ∷ z ∷ zs) (suc zero) x h = get_or-swap_back (z ∷ zs) zero x h
  get_or-swap_back (y ∷ z ∷ zs) (suc (suc i)) x h = get_or-swap_back (z ∷ zs) (suc i) x h

  get_elem?-pop_back :
      (xs : List A) (j : ℕ) {a : A}
      → get_elem? (pop_back xs) j ≡ some a
      → (get_elem? xs j ≡ some a) × (suc j < length xs)
  get_elem?-pop_back [] j h = cc
  get_elem?-pop_back (x ∷ []) j h = cc
  get_elem?-pop_back (x ∷ y ∷ ys) zero h = (h, omega arith)
  get_elem?-pop_back (x ∷ y ∷ ys) (suc j) h =
      let (e, k) = get_elem?-pop_back (y ∷ ys) j h in (e, omega arith)

  -- Where an element of the rest comes from.
  pub get_elem?-remove_at :
      (xs : List A) (i : ℕ) (x : A) (j : ℕ) (a : A)
      → get_elem? (remove_at xs i x) j ≡ some a
      → ((j ≡ i) × (a ≡ back x xs)) ⊎ ((get_elem? xs j ≡ some a) × (suc j < length xs) × (j ≢ i))
  get_elem?-remove_at [] i x j a h = cc
  get_elem?-remove_at (y ∷ []) zero x j a h = cc
  get_elem?-remove_at (y ∷ []) (suc i) x j a h = cc
  get_elem?-remove_at (y ∷ z ∷ zs) zero x zero a h =
      let h' = (rw (remove_at-zero y z zs x) at h) in inl (refl, cc)
  get_elem?-remove_at (y ∷ z ∷ zs) zero x (suc j) a h =
      let h' = (rw (remove_at-zero y z zs x) at h) in
      let (e, k) = get_elem?-pop_back (z ∷ zs) j h' in inr (e, omega arith, omega arith)
  get_elem?-remove_at (y ∷ z ∷ zs) (suc i) x zero a h =
      inr (rw (remove_at-cons y z zs i x) at h, omega arith, omega arith)
  get_elem?-remove_at (y ∷ z ∷ zs) (suc i) x (suc j) a h =
      elim (get_elem?-remove_at (z ∷ zs) i x j a (rw (remove_at-cons y z zs i x) at h)) [
        | inl p ↦ inl (ap suc p.0, p.1)
        | inr p ↦ inr (p.0, omega arith, omega arith)
      ]
