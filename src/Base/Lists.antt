-- ===== src/Base/Lists.antt =====
-- Lists measured and indexed by native numbers: the operations of `std::vector` that the code uses.
use Prim.Native.Nat.{ℕ, zero, suc, ◌+◌, ◌<◌, ◌≤◌}
use mathlib.Core.Path.{◌≡◌, refl, ap, ◌∙◌}
use mathlib.Core.Logic.{◌⊎◌, inl, inr, ∥∥₁_elim}
use mathlib.Core.Bool.{Bool, true, not}
use native.Mathlib.Nat.{ℕ_set}
use mathlib.Core.List.{List, [], ◌∷◌, ◌++◌, Perm, Permᴰ, Perm-prop}
use mathlib.Core.List.Perm
use mathlib.Core.Option.{Option, none, some}
use native.Mathlib.Omega.{arith}
use modern_signal_slot.Base.Tests.{if◌then◌else◌, Bool-cases}

module _ {ℓ} {A : Type ℓ} where
  abbrev pub length : List A → ℕ
  length [] = 0
  length (x ∷ xs) = suc (length xs)

  abbrev pub get_elem? : List A → ℕ → Option A
  get_elem? [] i = none
  get_elem? (x ∷ xs) zero = some x
  get_elem? (x ∷ xs) (suc i) = get_elem? xs i

  -- The elements that pass a test, in order.
  abbrev pub keep : (A → Bool) → List A → List A
  keep p [] = []
  keep p (x ∷ xs) = if p x then x ∷ keep p xs else keep p xs

module _ {ℓ} {A : Type ℓ} where
  pub length-append : (xs ys : List A) → length (xs ++ ys) ≡ length xs + length ys
  length-append [] ys = omega arith
  length-append (x ∷ xs) ys = omega (arith, length-append xs ys)

  pub get_elem?-lt : (xs : List A) (i : ℕ) {a : A} → get_elem? xs i ≡ some a → i < length xs
  get_elem?-lt [] i h = cc
  get_elem?-lt (x ∷ xs) zero h = omega arith
  get_elem?-lt (x ∷ xs) (suc i) h = omega (arith, get_elem?-lt xs i h)

  pub get_elem?-none : (xs : List A) (i : ℕ) → get_elem? xs i ≡ none → length xs ≤ i
  get_elem?-none [] i h = omega arith
  get_elem?-none (x ∷ xs) zero h = cc
  get_elem?-none (x ∷ xs) (suc i) h = omega (arith, get_elem?-none xs i h)

  pub get_elem?-some : (xs : List A) (i : ℕ) → i < length xs → (a : A) × (get_elem? xs i ≡ some a)
  get_elem?-some [] i h = elim h [ ]
  get_elem?-some (x ∷ xs) zero h = (x, refl)
  get_elem?-some (x ∷ xs) (suc i) h = get_elem?-some xs i (omega arith)

  -- Looking up in a list with one element more at its end.
  pub get_elem?-push :
      (xs : List A) (x : A) (i : ℕ) {a : A}
      → get_elem? (xs ++ x ∷ []) i ≡ some a
      → (get_elem? xs i ≡ some a) ⊎ ((i ≡ length xs) × (x ≡ a))
  get_elem?-push [] x zero h = inr (refl, ground arith)
  get_elem?-push [] x (suc i) h = cc
  get_elem?-push (y ∷ xs) x zero h = inl h
  get_elem?-push (y ∷ xs) x (suc i) h = elim (get_elem?-push xs x i h) [
    | inl e ↦ inl e
    | inr p ↦ inr (ap suc p.0, p.1)
  ]

  pub get_elem?-push_last : (xs : List A) (x : A) → get_elem? (xs ++ x ∷ []) (length xs) ≡ some x
  get_elem?-push_last [] x = refl
  get_elem?-push_last (y ∷ xs) x = get_elem?-push_last xs x

  pub length-keep-le : (p : A → Bool) (xs : List A) → length (keep p xs) ≤ length xs
  length-keep-le p [] = omega arith
  length-keep-le p (x ∷ xs) = ground (arith, length-keep-le p xs)

  pub keep-append : (p : A → Bool) (xs ys : List A) → keep p (xs ++ ys) ≡ keep p xs ++ keep p ys
  keep-append p [] ys = refl
  keep-append p (x ∷ xs) ys = ground (arith, keep-append p xs ys)

module _ {ℓ} {A : Type ℓ} where
  pub keep-eq_self :
      (p : A → Bool) (xs : List A)
      → ((i : ℕ) (a : A) → get_elem? xs i ≡ some a → p a ≡ true)
      → keep p xs ≡ xs
  keep-eq_self p [] h = refl
  keep-eq_self p (x ∷ xs) h = rw (h 0 x refl) (ap (◌∷◌ x) (keep-eq_self p xs (λ i. h (suc i))))

  keep-permᴰ : (p : A → Bool) {xs ys : List A} → Permᴰ xs ys → Perm (keep p xs) (keep p ys)
  keep-permᴰ p Permᴰ.nil = Perm.nil
  keep-permᴰ p (Permᴰ.cons {a} {b} {l₁} {l₂} e r) =
      let ih = keep-permᴰ p r in
      rw e (elim (Bool-cases (p b)) [ inl t ↦ rw t (Perm.cons b ih) | inr f ↦ rw f ih ])
  keep-permᴰ p (Permᴰ.swap {a} {b} {a'} {b'} {l} e k) =
      rw (e, k)
        (elim (Bool-cases (p a')) [
          | inl t ↦ elim (Bool-cases (p b')) [
            | inl u ↦ rw (t, u) (Perm.swap _ _ _)
            | inr u ↦ rw (t, u) (Perm.refl _)
          ]
          | inr t ↦ elim (Bool-cases (p b')) [
            | inl u ↦ rw (t, u) (Perm.refl _)
            | inr u ↦ rw (t, u) (Perm.refl _)
          ]
        ])
  keep-permᴰ p (Permᴰ.trans r s) = Perm.trans (keep-permᴰ p r) (keep-permᴰ p s)

  pub keep-perm : (p : A → Bool) {xs ys : List A} → Perm xs ys → Perm (keep p xs) (keep p ys)
  keep-perm p r = ∥∥₁_elim r Perm-prop (keep-permᴰ p)

  length-permᴰ : {xs ys : List A} → Permᴰ xs ys → length xs ≡ length ys
  length-permᴰ Permᴰ.nil = refl
  length-permᴰ (Permᴰ.cons e r) = ap suc (length-permᴰ r)
  length-permᴰ (Permᴰ.swap {l} e k) = refl
  length-permᴰ (Permᴰ.trans r s) = length-permᴰ r ∙ length-permᴰ s

  pub length-perm : {xs ys : List A} → Perm xs ys → length xs ≡ length ys
  length-perm r = ∥∥₁_elim r (ℕ_set _ _) length-permᴰ

  pub length-keep-not :
      (p : A → Bool) (xs : List A)
      → length (keep p xs) + length (keep (λ x. not (p x)) xs) ≡ length xs
  length-keep-not p [] = refl
  length-keep-not p (x ∷ xs) = ground (arith, length-keep-not p xs)
