-- ===== src/Signal/Frame.antt =====
-- What an operation on a slot list leaves alone: it brings in no slot but the one added, and
-- changes the store at slots of the list only.
use modern_signal_slot.Base.{
  ℕ, ℤ, length, zero, suc, ◌+◌, ◌≡◌, ◌≢◌, refl, inl, inr, Bool, true, false, ◌||◌, List, [], ◌∷◌,
  ◌++◌, some, arith, ◌==◌, ◌==ℤ◌, get_elem?, get_elem?-back, back, Bool-cases, Option-cases, elem,
  elem-append, elem_of_get, elem-perm,
}
use modern_signal_slot.Slot.{Slots}
use modern_signal_slot.Signal.{
  Group, slots_of, erase_at, clean_group, clean, sweep, sweep_all, disconnect_if, disconnect_group,
  add_slot,
}
use modern_signal_slot.Signal.Erase.{erase_at_lem, erase_at-perm}
use modern_signal_slot.Signal.Clean.{clean_group-cases}
use modern_signal_slot.Signal.Add.{add_slot-perm}

-- `τ` and `rest` come from `σ` and `slts` by an operation on the slots of the list.
pub record Inside (σ : Slots) (slts : List ℕ) (τ : Slots) (rest : List ℕ) : Type 0 where
  pub fewer : (b : ℕ) → elem b rest ≡ true → elem b slts ≡ true
  pub frame : (b : ℕ) → elem b slts ≡ false → τ b ≡ σ b

pub Inside-refl : (σ : Slots) (slts : List ℕ) → Inside σ slts σ slts
Inside-refl σ slts = record { fewer = λ b h. h; frame = λ b h. refl }

pub Inside-trans :
    (σ τ υ : Slots) (xs ys zs : List ℕ) → Inside σ xs τ ys → Inside τ ys υ zs → Inside σ xs υ zs
Inside-trans σ τ υ xs ys zs h k = record {
  fewer = λ b e. h.fewer b (k.fewer b e);
  frame = λ b e. ground (arith, h.fewer b, h.frame b, k.frame b);
}

-- Groups in front and behind do not matter.
Inside-append :
    (σ τ υ : Slots) (xs xs' ys ys' : List ℕ)
    → Inside σ xs τ xs'
    → Inside τ ys υ ys'
    → Inside σ (xs ++ ys) υ (xs' ++ ys')
Inside-append σ τ υ xs xs' ys ys' h k = record {
  fewer = λ b e. ground (arith, elem-append b xs ys, elem-append b xs' ys', h.fewer b, k.fewer b);
  frame = λ b e. ground (arith, elem-append b xs ys, h.frame b, k.frame b);
}

erase_at-Inside :
    (σ : Slots) (slts : List ℕ) (i x : ℕ)
    → get_elem? slts i ≡ some x
    → let (τ, rest) = erase_at σ slts i x in Inside σ slts τ rest
erase_at-Inside σ slts i x found = record {
  fewer = λ b h. ground (arith, elem-perm b (erase_at-perm σ slts i x found));
  frame = λ b h.
      let (n, last, at_last) = get_elem?-back slts i x found in
      let here = elem_of_get (back x slts) slts n at_last in
      rw (erase_at_lem σ slts i x found) (ground (arith, here));
}

clean_group-Inside :
    (σ : Slots) (slts : List ℕ) (s : ℕ)
    → let (τ, rest) = clean_group σ slts s (σ s).m_index in Inside σ slts τ rest
clean_group-Inside σ slts s = elim (clean_group-cases σ s slts) [
  | inl (found, e) ↦ rw e (erase_at-Inside σ slts (σ s).m_index s found)
  | inr (_, e) ↦ rw e (Inside-refl σ slts)
]

pub clean-Inside :
    (σ : Slots) (gs : List Group) (s : ℕ)
    → let (τ, hs) = clean σ gs s in Inside σ (slots_of gs) τ (slots_of hs)
unfolding clean
clean-Inside σ [] s = Inside-refl σ []
clean-Inside σ (g ∷ gs) s = elim (Bool-cases (g.gid ==ℤ (σ s).m_group)) [
  | inl here ↦
      rw (here, clean)
        (Inside-append σ _ _ g.slts _ (slots_of gs) (slots_of gs) (clean_group-Inside σ g.slts s)
          (Inside-refl _ (slots_of gs)))
  | inr other ↦
      rw (other, clean)
        (Inside-append σ σ _ g.slts g.slts (slots_of gs) _ (Inside-refl σ g.slts)
          (clean-Inside σ gs s))
]

module _ (cond : ℕ → Bool) where
  sweep-Inside :
      (fuel : ℕ) (σ : Slots) (slts : List ℕ) (i count : ℕ)
      → let (τ, rest, n) = sweep fuel cond σ slts i count in Inside σ slts τ rest
  unfolding sweep
  sweep-Inside zero σ slts i count = Inside-refl σ slts
  sweep-Inside (suc fuel) σ slts i count = elim (Option-cases (get_elem? slts i)) [
    | inl e ↦ rw (e, sweep) (Inside-refl σ slts)
    | inr (x, e) ↦ elim (Bool-cases (cond x)) [
      | inl t ↦
          let (τ, rest) = erase_at σ slts i x in
          rw (e, t, sweep)
            (Inside-trans σ τ _ slts rest _ (erase_at-Inside σ slts i x e)
              (sweep-Inside fuel τ rest i (count + 1)))
      | inr f ↦ rw (e, f, sweep) (sweep-Inside fuel σ slts (i + 1) count)
    ]
  ]

  sweep_all-Inside :
      (σ : Slots) (gs : List Group) (count : ℕ)
      → let (τ, hs, n) = sweep_all cond σ gs count in Inside σ (slots_of gs) τ (slots_of hs)
  unfolding sweep_all
  sweep_all-Inside σ [] count = Inside-refl σ []
  sweep_all-Inside σ (g ∷ gs) count =
      let (τ, rest, n) = sweep (length g.slts) cond σ g.slts 0 count in
      Inside-append σ τ _ g.slts rest (slots_of gs) _
        (sweep-Inside (length g.slts) σ g.slts 0 count) (sweep_all-Inside τ gs n)

  pub disconnect_if-Inside :
      (σ : Slots) (gs : List Group)
      → let (τ, hs, n) = disconnect_if cond σ gs in Inside σ (slots_of gs) τ (slots_of hs)
  unfolding disconnect_if
  disconnect_if-Inside σ gs = sweep_all-Inside σ gs 0

pub disconnect_group-Inside :
    (σ : Slots) (gid : ℤ) (gs : List Group)
    → Inside σ (slots_of gs) σ (slots_of (disconnect_group gid gs).0)
unfolding disconnect_group
disconnect_group-Inside σ gid [] = Inside-refl σ []
disconnect_group-Inside σ gid (g ∷ gs) = record {
  fewer = λ b h. ground (
    arith,
    elem-append b g.slts (slots_of gs),
    elem-append b g.slts (slots_of (disconnect_group gid gs).0),
    (disconnect_group-Inside σ gid gs).fewer b,
  );
  frame = λ b h. refl;
}

-- `add_slot` brings in the new slot and no other, and changes the store at it only.
pub add_slot-elem :
    (σ : Slots) (gs : List Group) (s b : ℕ)
    → elem b (slots_of (add_slot σ gs s).1) ≡ (s == b || elem b (slots_of gs))
add_slot-elem σ gs s b = elem-perm b (add_slot-perm σ gs s)

pub add_slot-frame : (σ : Slots) (gs : List Group) (s b : ℕ) → s ≢ b → (add_slot σ gs s).0 b ≡ σ b
unfolding add_slot
add_slot-frame σ gs s b ne = ground arith
