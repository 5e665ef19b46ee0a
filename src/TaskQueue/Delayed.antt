-- ===== src/TaskQueue/Delayed.antt =====
-- The delayed queue as a map in the order of its keys.
use mathlib.Core.List.Perm
use modern_signal_slot.Base.{
  ℕ, suc, ◌≡◌, ◌≤◌, ◌<◌, inl, inr, true, false, List, [], ◌∷◌, Perm, arith, leb, if◌then◌else◌,
  Bool-cases,
}
use modern_signal_slot.TaskQueue.{DelayedEntryTimeout, before, map_assign}

before_trans :
    (a b c : DelayedEntryTimeout) → before a b ≡ true → before b c ≡ true → before a c ≡ true
before_trans a b c h k = ground arith

-- Keys that are in neither order have the same number.
same_order :
    (a b : DelayedEntryTimeout) → before a b ≡ false → before b a ≡ false → a.order ≡ b.order
same_order a b h k = ground arith

module _ {ℓ} {T : Type ℓ} where
  -- A key that comes before all keys of the map.
  abbrev pub Least : DelayedEntryTimeout → List (DelayedEntryTimeout × T) → Type 0
  Least k [] = Unit {0}
  Least k ((j, t) ∷ ds) = (before k j ≡ true) × Least k ds

  abbrev pub Sorted : List (DelayedEntryTimeout × T) → Type 0
  Sorted [] = Unit {0}
  Sorted ((k, t) ∷ ds) = Least k ds × Sorted ds

  -- All numbers are at most one.
  abbrev pub Within : ℕ → List (DelayedEntryTimeout × T) → Type 0
  Within n [] = Unit {0}
  Within n ((k, t) ∷ ds) = (k.order ≤ n) × Within n ds

  abbrev pub delayed_tasks : List (DelayedEntryTimeout × T) → List T
  delayed_tasks [] = []
  delayed_tasks ((k, t) ∷ ds) = t ∷ delayed_tasks ds

  -- How many entries have a number of at most `o`.
  abbrev pub rank : ℕ → List (DelayedEntryTimeout × T) → ℕ
  rank o [] = 0
  rank o ((k, t) ∷ ds) = if leb k.order o then suc (rank o ds) else rank o ds

  pub Within-mono :
      (m n : ℕ) (ds : List (DelayedEntryTimeout × T)) → m ≤ n → Within m ds → Within n ds
  Within-mono m n [] h w = tt
  Within-mono m n ((k, t) ∷ ds) h w = (omega arith, Within-mono m n ds h w.1)

  Least-trans :
      (a b : DelayedEntryTimeout) (ds : List (DelayedEntryTimeout × T))
      → before a b ≡ true
      → Least b ds
      → Least a ds
  Least-trans a b [] h l = tt
  Least-trans a b ((k, t) ∷ ds) h l = (before_trans a b k h l.0, Least-trans a b ds h l.1)

  module _ (key : DelayedEntryTimeout) (task : T) where
    pub map_assign-rank :
        (o : ℕ) (ds : List (DelayedEntryTimeout × T))
        → o < key.order
        → rank o (map_assign ds key task) ≡ rank o ds
    unfolding map_assign
    map_assign-rank o [] h = ground arith
    map_assign-rank o ((k, t) ∷ ds) h = elim (Bool-cases (before k key)) [
      | inl lower ↦ rw lower (ground (arith, map_assign-rank o ds h))
      | inr f ↦ elim (Bool-cases (before key k)) [
        | inl upper ↦ rw (f, upper) (ground arith)
        | inr g ↦ rw (f, g) (ground (arith, same_order k key f g))
      ]
    ]

    -- A key with a new number is inserted, and nothing is lost.
    module _ (n : ℕ) (new : n < key.order) where
      pub map_assign-perm :
          (ds : List (DelayedEntryTimeout × T))
          → Within n ds
          → Perm (delayed_tasks (map_assign ds key task)) (task ∷ delayed_tasks ds)
      unfolding map_assign
      map_assign-perm [] w = Perm.refl _
      map_assign-perm ((k, t) ∷ ds) w = elim (Bool-cases (before k key)) [
        | inl lower ↦ rw lower (Perm.trans (Perm.cons t (map_assign-perm ds w.1)) (Perm.swap _ _ _))
        | inr f ↦ elim (Bool-cases (before key k)) [
          | inl upper ↦ rw (f, upper) (Perm.refl _)
          | inr g ↦ absurd (omega (arith, same_order k key f g))
        ]
      ]

      map_assign-Least :
          (j : DelayedEntryTimeout) (ds : List (DelayedEntryTimeout × T))
          → before j key ≡ true
          → Least j ds
          → Least j (map_assign ds key task)
      unfolding map_assign
      map_assign-Least j [] h l = (h, tt)
      map_assign-Least j ((k, t) ∷ ds) h l = elim (Bool-cases (before k key)) [
        | inl lower ↦ rw lower (l.0, map_assign-Least j ds h l.1)
        | inr f ↦ elim (Bool-cases (before key k)) [
          | inl upper ↦ rw (f, upper) (h, l)
          | inr g ↦ rw (f, g) l
        ]
      ]

      pub map_assign-Sorted :
          (ds : List (DelayedEntryTimeout × T))
          → Within n ds
          → Sorted ds
          → Sorted (map_assign ds key task)
      unfolding map_assign
      map_assign-Sorted [] w s = (tt, tt)
      map_assign-Sorted ((k, t) ∷ ds) w s = elim (Bool-cases (before k key)) [
        | inl lower ↦ rw lower (map_assign-Least k ds lower s.0, map_assign-Sorted ds w.1 s.1)
        | inr f ↦ elim (Bool-cases (before key k)) [
          | inl upper ↦ rw (f, upper) ((upper, Least-trans key k ds upper s.0), s)
          | inr g ↦ absurd (omega (arith, same_order k key f g))
        ]
      ]

      pub map_assign-Within :
          (m : ℕ) (ds : List (DelayedEntryTimeout × T))
          → key.order ≤ m
          → Within m ds
          → Within m (map_assign ds key task)
      unfolding map_assign
      map_assign-Within m [] h w = (h, tt)
      map_assign-Within m ((k, t) ∷ ds) h w = ground (arith, map_assign-Within m ds h w.1)
