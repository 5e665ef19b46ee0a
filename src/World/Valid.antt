-- ===== src/World/Valid.antt =====
-- What the shared state keeps across signals: every slot list is well formed, a slot stands in the
-- list of one signal at most, and only slots that were made stand in one.
use modern_signal_slot.Base.{
  ℕ, ◌<◌, ◌≡◌, refl, ◌∙◌, inl, inr, true, false, List, [], ◌∷◌, arith, ◌==◌, Bool-cases, elem,
  elem-append, elem_of_get,
}
use modern_signal_slot.Slot.{Slot, Slots}
use modern_signal_slot.Signal.{Group, slots_of, clean}
use modern_signal_slot.Signal.WellFormed.{AllIndexed, IsWellFormed}
use modern_signal_slot.Signal.Frame.{Inside, clean-Inside}
use modern_signal_slot.Signal.Clean.{clean-IsWellFormed}
use modern_signal_slot.World.{
  World, set_slot, set_signal, clean_slot, disconnect_slot, block_slot, unblock_slot,
}

-- The two members of a slot that the lists rely on.
pub record SamePlace (s t : Slot) : Type 0 where
  pub index : t.m_index ≡ s.m_index
  pub group : t.m_group ≡ s.m_group

AllIndexed-agree :
    (σ τ : Slots) (gs : List Group)
    → ((b : ℕ) → elem b (slots_of gs) ≡ true → SamePlace (σ b) (τ b))
    → AllIndexed σ gs
    → AllIndexed τ gs
AllIndexed-agree σ τ [] same ok = tt
AllIndexed-agree σ τ (g ∷ gs) same ok = (
  (λ i a h.
      let here = elem_of_get a g.slts i h in
      let s = same a (ground (arith, elem-append a g.slts (slots_of gs))) in
      let (index, group) = ok.0 i a h in (s.index ∙ index, s.group ∙ group)),
  AllIndexed-agree σ τ gs (λ b h. same b (ground (arith, elem-append b g.slts (slots_of gs)))) ok.1,
)

pub IsWellFormed-agree :
    (σ τ : Slots) (gs : List Group)
    → ((b : ℕ) → elem b (slots_of gs) ≡ true → SamePlace (σ b) (τ b))
    → IsWellFormed σ gs
    → IsWellFormed τ gs
IsWellFormed-agree σ τ gs same ok = record {
  ascending = ok.ascending;
  indexed = AllIndexed-agree σ τ gs same ok.indexed;
}

module _ {A U : Type 0} where
  -- The slots of a signal, in emission order.
  abbrev pub listed : World A U → ℕ → List ℕ
  listed w k = slots_of (w.signals k).m_slots

  pub record IsValid (w : World A U) : Type 0 where
    pub lists : (k : ℕ) → IsWellFormed w.slots (w.signals k).m_slots
    pub apart : (j k a : ℕ) → elem a (listed w j) ≡ true → elem a (listed w k) ≡ true → j ≡ k
    pub made : (k a : ℕ) → elem a (listed w k) ≡ true → a < w.allocated

  -- Another list for one signal, made from the old one.
  pub replace_list-IsValid :
      (w : World A U) (k : ℕ) (τ : Slots) (hs : List Group)
      → IsValid w
      → IsWellFormed τ hs
      → Inside w.slots (listed w k) τ (slots_of hs)
      → IsValid (set_signal (record w { slots = τ }) k (record (w.signals k) { m_slots = hs }))
  replace_list-IsValid w k τ hs ok new inside = record {
    lists = λ j. elim (Bool-cases (k == j)) [
      | inl here ↦ simp here new
      | inr other ↦ simp other (
          IsWellFormed-agree w.slots τ (w.signals j).m_slots
            (λ b h.
              let same : τ b ≡ w.slots b = inside.frame b (ground (arith, ok.apart j k b)) in
              rw same (record { index = refl; group = refl }))
            (ok.lists j))
    ];
    apart =
        λ i j a h l. ground (arith, ok.apart i j a, ok.apart k j a, ok.apart i k a, inside.fewer a);
    made = λ j a h. ground (arith, ok.made j a, ok.made k a, inside.fewer a);
  }

  -- A change that leaves lists and places alone.
  pub same_lists-IsValid :
      (w v : World A U)
      → ((k : ℕ) → (v.signals k).m_slots ≡ (w.signals k).m_slots)
      → ((b : ℕ) → SamePlace (w.slots b) (v.slots b))
      → v.allocated ≡ w.allocated
      → IsValid w
      → IsValid v
  same_lists-IsValid w v lists places count ok = record {
    lists = λ k.
        rw (lists k)
          (IsWellFormed-agree w.slots v.slots (w.signals k).m_slots (λ b h. places b) (ok.lists k));
    apart = λ i j a h l. ok.apart i j a (rw (lists i) at h) (rw (lists j) at l);
    made = λ k a h. rw count (ok.made k a (rw (lists k) at h));
  }

  set_slot-IsValid :
      (w : World A U) (a : ℕ) (s : Slot)
      → SamePlace (w.slots a) s
      → IsValid w
      → IsValid (set_slot w a s)
  set_slot-IsValid w a s same ok =
      same_lists-IsValid w (set_slot w a s) (λ k. refl)
        (λ b. record { index = ground (arith, same.index); group = ground (arith, same.group) })
        refl ok

  clean_slot-IsValid : (w : World A U) (a : ℕ) → IsValid w → IsValid (clean_slot w a)
  unfolding clean_slot
  clean_slot-IsValid w a ok =
      let k = (w.slots a).m_cleaner in
      let groups = (w.signals k).m_slots in
      let (τ, hs) = clean w.slots groups a in
      replace_list-IsValid w k τ hs ok (clean-IsWellFormed w.slots groups a (ok.lists k))
        (clean-Inside w.slots groups a)

  -- Disconnecting a slot through its connection keeps the shared state valid, also where the slot
  -- is in no list, or its signal's list has been moved to another signal.
  pub disconnect_slot-IsValid :
      (w : World A U) (a : ℕ) → IsValid w → IsValid (disconnect_slot w a).0
  unfolding disconnect_slot
  disconnect_slot-IsValid w a ok =
      let s = record (w.slots a) { m_connected = false } in
      let off : IsValid (set_slot w a s) =
        set_slot-IsValid w a s (record { index = refl; group = refl }) ok in
      elim (Bool-cases (w.slots a).m_connected) [
        | inl on ↦ simp on (clean_slot-IsValid (set_slot w a s) a off)
        | inr was_off ↦ simp was_off off
      ]

  pub block_slot-IsValid : (w : World A U) (a : ℕ) → IsValid w → IsValid (block_slot w a)
  unfolding block_slot
  block_slot-IsValid w a ok =
      same_lists-IsValid w (block_slot w a) (λ k. refl)
        (λ b. record { index = ground arith; group = ground arith }) refl ok

  pub unblock_slot-IsValid : (w : World A U) (a : ℕ) → IsValid w → IsValid (unblock_slot w a)
  unfolding unblock_slot
  unblock_slot-IsValid w a ok =
      same_lists-IsValid w (unblock_slot w a) (λ k. refl)
        (λ b. record { index = ground arith; group = ground arith }) refl ok
