-- ===== src/Base/Elem.antt =====
-- Whether an address stands in a list, as a test.
use Prim.Native.Nat.{ℕ, zero, suc, ◌+◌}
use mathlib.Core.Path.{◌≡◌, refl, ◌∙◌}
use mathlib.Core.Logic.{◌≢◌, ∥∥₁_elim}
use mathlib.Core.Bool.{Bool, true, false, ◌||◌}
use mathlib.Core.List.{List, [], ◌∷◌, ◌++◌, Perm, Permᴰ}
use mathlib.Core.Option.{some}
use native.Mathlib.Omega.{arith}
use modern_signal_slot.Base.Tests.{◌==◌, if◌then◌else◌}
use modern_signal_slot.Base.Lists.{get_elem?, keep}

abbrev pub elem : ℕ → List ℕ → Bool
elem a [] = false
elem a (x ∷ xs) = x == a || elem a xs

pub elem-append : (a : ℕ) (xs ys : List ℕ) → elem a (xs ++ ys) ≡ (elem a xs || elem a ys)
elem-append a [] ys = refl
elem-append a (x ∷ xs) ys = ground (arith, elem-append a xs ys)

pub elem_of_get : (a : ℕ) (xs : List ℕ) (i : ℕ) → get_elem? xs i ≡ some a → elem a xs ≡ true
elem_of_get a [] i h = cc
elem_of_get a (x ∷ xs) zero h = ground arith
elem_of_get a (x ∷ xs) (suc i) h = ground (arith, elem_of_get a xs i h)

pub elem_of_keep :
    (p : ℕ → Bool) (a : ℕ) (xs : List ℕ) → elem a (keep p xs) ≡ true → elem a xs ≡ true
elem_of_keep p a [] h = h
elem_of_keep p a (x ∷ xs) h = ground (arith, elem_of_keep p a xs)

elem-permᴰ : (a : ℕ) {xs ys : List ℕ} → Permᴰ xs ys → elem a xs ≡ elem a ys
elem-permᴰ a Permᴰ.nil = refl
elem-permᴰ a (Permᴰ.cons e r) = ground (arith, elem-permᴰ a r, e)
elem-permᴰ a (Permᴰ.swap e k) = ground (arith, e, k)
elem-permᴰ a (Permᴰ.trans r s) = elem-permᴰ a r ∙ elem-permᴰ a s

pub elem-perm : (a : ℕ) {xs ys : List ℕ} → Perm xs ys → elem a xs ≡ elem a ys
elem-perm a r = ∥∥₁_elim r (hlevel) (elem-permᴰ a)

-- How often an address stands in a list.
abbrev pub occurrences : ℕ → List ℕ → ℕ
occurrences b [] = 0
occurrences b (a ∷ xs) = if a == b then suc (occurrences b xs) else occurrences b xs

pub occurrences-append :
    (a : ℕ) (xs ys : List ℕ) → occurrences a (xs ++ ys) ≡ occurrences a xs + occurrences a ys
occurrences-append a [] ys = omega arith
occurrences-append a (x ∷ xs) ys = ground (arith, occurrences-append a xs ys)

pub occurrences-keep :
    (p : ℕ → Bool) (a : ℕ) (xs : List ℕ)
    → occurrences a (keep p xs) ≡ (if p a then occurrences a xs else 0)
occurrences-keep p a [] = ground arith
occurrences-keep p a (x ∷ xs) = ground (arith, occurrences-keep p a xs)

pub occurrences_none :
    (a : ℕ) (xs : List ℕ) → ((i : ℕ) → get_elem? xs i ≢ some a) → occurrences a xs ≡ 0
occurrences_none a [] none_at = refl
occurrences_none a (x ∷ xs) none_at =
    ground (arith, none_at 0, occurrences_none a xs (λ i. none_at (suc i)))

occurrences-permᴰ : (a : ℕ) {xs ys : List ℕ} → Permᴰ xs ys → occurrences a xs ≡ occurrences a ys
occurrences-permᴰ a Permᴰ.nil = refl
occurrences-permᴰ a (Permᴰ.cons e r) = ground (arith, occurrences-permᴰ a r, e)
occurrences-permᴰ a (Permᴰ.swap e k) = ground (arith, e, k)
occurrences-permᴰ a (Permᴰ.trans r s) = occurrences-permᴰ a r ∙ occurrences-permᴰ a s

pub occurrences-perm : (a : ℕ) {xs ys : List ℕ} → Perm xs ys → occurrences a xs ≡ occurrences a ys
occurrences-perm a r = ∥∥₁_elim r (hlevel) (occurrences-permᴰ a)
