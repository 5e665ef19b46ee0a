-- ===== src/Call/SingleThread/Plain.antt =====
-- The emission of a signal without a mutex against the one of a signal with one, for functions that
-- leave signals, slots and queues alone.
use mathlib.Core.List
use modern_signal_slot.Base.{
  ℕ, suc, ◌+◌, ◌≡◌, refl, sym, ap, ◌∙◌, subst, Bool, true, List, [], ◌∷◌, ◌++◌, some, arith, length,
  get_elem?, keep, keep-append, Bool-cases, inl, inr, ==-refl,
}
use modern_signal_slot.Slot.{Slots, Body}
use modern_signal_slot.Signal.{Group, slots_of}
use modern_signal_slot.Signal.Live.{group_at, same_slots_refl}
use modern_signal_slot.World.{World}
use modern_signal_slot.Call.{emit, finished}
use modern_signal_slot.Call.Order.{
  active, AllPlain, user_code, calls, call-plain, AllPlain-user, emit-plain,
}
use modern_signal_slot.Call.SingleThread.{Loop, over, undisturbed, live_slots, live_groups, emit_st}

module _ {A U : Type 0} (assertions : Bool) (f : Body → A → U → U) (k : ℕ) (args : A) where
  -- The functions of the active ones of some slots.
  abbrev pub called : World A U → List ℕ → U → U
  called w xs u = calls assertions f w.slots args (keep (λ a. active (w.slots a)) xs) u

  -- The loop comes to the slots behind some plain ones.
  pub live_slots-reach :
      (loop : Loop) (xs rest : List ℕ) (w : World A U)
      → AllPlain w xs
      → undisturbed w k loop ≡ true
      → live_slots assertions (user_code assertions f) k args loop (xs ++ rest) w
        ≡ live_slots assertions
            (user_code assertions f)
            k
            args
            loop
            rest
            (record w { user = called w xs w.user })
  unfolding live_slots
  live_slots-reach loop [] rest w p same = refl
  live_slots-reach loop (a ∷ xs) rest w p same = elim (Bool-cases (active (w.slots a))) [
    | inl on ↦
        let u = f (w.slots a).body args w.user in
        let one = (rw on at (call-plain assertions f w a args p.0)) in
        rw (one, on, same, live_slots)
          (live_slots-reach loop xs rest (record w { user = u })
            (AllPlain-user assertions f w u xs p.1) same)
    | inr off ↦
        let one = (rw off at (call-plain assertions f w a args p.0)) in
        rw (one, off, same, live_slots) (live_slots-reach loop xs rest w p.1 same)
  ]

  live_slots-plain :
      (loop : Loop) (xs : List ℕ) (w : World A U)
      → AllPlain w xs
      → undisturbed w k loop ≡ true
      → live_slots assertions (user_code assertions f) k args loop xs w
        ≡ over (record w { user = called w xs w.user })
  unfolding live_slots
  live_slots-plain loop xs w p same =
      subst
        (λ l.
          live_slots assertions (user_code assertions f) k args loop l w
          ≡ over (record w { user = called w xs w.user }))
        (List.append-nil xs) (live_slots-reach loop xs [] w p same)

  -- The groups `gs` are those of `full` from index `j` on.
  abbrev Suffix : List Group → ℕ → List Group → Type 0
  Suffix full j gs = (i : ℕ) → get_elem? full (j + i) ≡ get_elem? gs i

  calls-append :
      (σ : Slots) (xs ys : List ℕ) (u : U)
      → calls assertions f σ args (xs ++ ys) u
        ≡ calls assertions f σ args ys (calls assertions f σ args xs u)
  calls-append σ [] ys u = refl
  calls-append σ (x ∷ xs) ys u = calls-append σ xs ys (f (σ x).body args u)

  called-append :
      (w : World A U) (xs ys : List ℕ) (u : U) → called w (xs ++ ys) u ≡ called w ys (called w xs u)
  called-append w xs ys u =
      let on : ℕ → Bool = λ a. active (w.slots a) in
      ap (λ l. calls assertions f w.slots args l u) (keep-append on xs ys)
      ∙ calls-append w.slots (keep on xs) (keep on ys) u

  AllPlain-append :
      (w : World A U) (xs ys : List ℕ) → AllPlain w (xs ++ ys) → AllPlain w xs × AllPlain w ys
  AllPlain-append w [] ys p = (tt, p)
  AllPlain-append w (x ∷ xs) ys p =
      let (first, second) = AllPlain-append w xs ys p.1 in ((p.0, first), second)

  suffix_at :
      (full : List Group) (j : ℕ) (g : Group) (gs : List Group)
      → Suffix full j (g ∷ gs)
      → group_at full j ≡ g.slts
  suffix_at full j g gs s =
      let here : get_elem? full j ≡ some g =
        subst (λ m. get_elem? full m ≡ some g) (omega arith) (s 0) in
      ground (arith, here)

  suffix_next :
      (full : List Group) (j : ℕ) (g : Group) (gs : List Group)
      → Suffix full j (g ∷ gs)
      → Suffix full (suc j) gs
  suffix_next full j g gs s =
      λ i. subst (λ m. get_elem? full m ≡ get_elem? gs i) (omega arith) (s (suc i))

  live_groups-plain :
      (gs : List Group) (j : ℕ) (w : World A U)
      → Suffix (w.signals k).m_slots j gs
      → AllPlain w (slots_of gs)
      → live_groups assertions
          (user_code assertions f)
          k
          args
          (length (w.signals k).m_slots)
          j
          (length gs)
          w
        ≡ over (record w { user = called w (slots_of gs) w.user })
  unfolding live_groups
  live_groups-plain [] j w suffix p = refl
  live_groups-plain (g ∷ gs) j w suffix p =
      let full = (w.signals k).m_slots in
      let loop : Loop = record {
        groups = length full;
        group = j;
        behind = length gs;
        seen = group_at full j;
      } in
      let at_j : group_at full j ≡ g.slts = suffix_at full j g gs suffix in
      let (first, second) = AllPlain-append w g.slts (slots_of gs) p in
      let still : undisturbed w k loop ≡ true =
        rw (==-refl (length full), same_slots_refl (group_at full j)) refl in
      let plain = subst (AllPlain w) (sym at_j) first in
      let u = called w (group_at full j) w.user in
      let w' : World A U = record w { user = u } in
      let one : live_slots assertions (user_code assertions f) k args loop (group_at full j) w
          ≡ over w' =
        live_slots-plain loop (group_at full j) w plain still in
      let more =
        live_groups-plain gs (suc j) w' (suffix_next full j g gs suffix)
          (AllPlain-user assertions f w u (slots_of gs) second) in
      let whole : called w (slots_of gs) u ≡ called w (slots_of (g ∷ gs)) w.user =
        ap (λ l. called w (slots_of gs) (called w l w.user)) at_j
        ∙ sym (called-append w g.slts (slots_of gs) w.user) in
      rw (one, live_groups) (more ∙ ap (λ v. over (record w { user = v })) whole)

  -- With slots that are all direct, repeated and not tracking a dead object, and functions that change
  -- only the program's own state, an emission of a signal without a mutex uses no invalid iterator and
  -- ends in the same state as one of a signal with a mutex, which runs over a copy of the list.
  pub emit_st-emit :
      (w : World A U)
      → AllPlain w (slots_of (w.signals k).m_slots)
      → (v : World A U) × (emit assertions (user_code assertions f) w k args ≡ finished v)
        × (emit_st assertions (user_code assertions f) k args w ≡ over v)
  unfolding emit_st
  emit_st-emit w p = (
    _,
    emit-plain assertions f w k args p,
    elim (Bool-cases (w.signals k).m_block) [
      | inl blocked ↦ simp blocked refl
      | inr unblocked ↦ simp unblocked (
          live_groups-plain (w.signals k).m_slots 0 w
            (λ i. ap (get_elem? (w.signals k).m_slots) (omega arith)) p)
    ],
  )
