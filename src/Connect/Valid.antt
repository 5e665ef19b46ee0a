-- ===== src/Connect/Valid.antt =====
-- Connecting, disconnecting and moving keep the shared state valid.
use modern_signal_slot.Base.{
  ℕ, suc, ℤ, ◌<◌, ◌≡◌, refl, subst, ◌⊎◌, ◌∙◌, inl, inr, Bool, true, false, ◌||◌, List, [], ◌∷◌,
  Option, none, some, arith, ◌==◌, if◌then◌else◌, Bool-cases, elem, elem-append, elem_of_get,
}
use modern_signal_slot.Slot.{Slot, Body, slot_pmf, update}
use modern_signal_slot.Slot.Pointers.{Callable, raw}
use modern_signal_slot.Signal.{Group, slots_of, get_slot, add_slot, disconnect_if, disconnect_group}
use modern_signal_slot.Signal.WellFormed.{IsWellFormed}
use modern_signal_slot.Signal.Add.{Absent}
use modern_signal_slot.Signal.View.{disconnect_group-IsWellFormed}
use modern_signal_slot.Signal.Disconnect.{disconnect_if-IsWellFormed}
use modern_signal_slot.Signal.Frame.{
  disconnect_if-Inside, disconnect_group-Inside, add_slot-elem, add_slot-frame,
}
use modern_signal_slot.World.{World, set_signal}
use modern_signal_slot.World.Valid.{
  IsValid, listed, replace_list-IsValid, same_lists-IsValid, IsWellFormed-agree,
}
use modern_signal_slot.Connect.{
  Options, is_unique, connect_slot, disconnect_where, disconnect_gid, disconnect_all, block_signal,
  unblock_signal, has_both, move_construct, move_assign, add_connection, connect_observer,
}
use modern_signal_slot.Connect.Keep.{connect_slot-IsWellFormed}

-- An address that no list has.
Absent-elem : (a : ℕ) (gs : List Group) → elem a (slots_of gs) ≡ false → Absent a gs
Absent-elem a [] h = tt
Absent-elem a (g ∷ gs) h =
    let parts = elem-append a g.slts (slots_of gs) in
    (
      (λ i found. let here = elem_of_get a g.slts i found in ground arith),
      Absent-elem a gs (ground arith),
    )

module _ {A U : Type 0} where
  new-elem : (w : World A U) (k : ℕ) → IsValid w → elem w.allocated (listed w k) ≡ false
  new-elem w k ok = elim (Bool-cases (elem w.allocated (listed w k))) [
    | inl old ↦ absurd (omega (arith, ok.made k w.allocated old))
    | inr new ↦ new
  ]

  -- A new slot `t` in the list of the signal `k`.
  abbrev with_new : World A U → ℕ → Slot → World A U
  with_new w k t =
      let a = w.allocated in
      let (τ, hs) = add_slot (update w.slots a t) (w.signals k).m_slots a in
      set_signal (record w { slots = τ; allocated = suc a }) k
        (record (w.signals k) { m_slots = hs })

  with_new-frame :
      (w : World A U) (k b : ℕ) (t : Slot) → b < w.allocated → (with_new w k t).slots b ≡ w.slots b
  with_new-frame w k b t old =
      add_slot-frame (update w.slots w.allocated t) (w.signals k).m_slots w.allocated b
        (λ e. omega (arith, e))
      ∙ ground arith

  with_new-elem :
      (w : World A U) (k j b : ℕ) (t : Slot)
      → elem b (listed (with_new w k t) j)
        ≡ (if k == j then w.allocated == b || elem b (listed w k) else elem b (listed w j))
  with_new-elem w k j b t =
      let own = add_slot-elem (update w.slots w.allocated t) (w.signals k).m_slots w.allocated b in
      elim (Bool-cases (k == j)) [ inl here ↦ simp here own | inr other ↦ simp other refl ]

  with_new-IsValid :
      (w : World A U) (k : ℕ) (t : Slot)
      → IsValid w
      → IsWellFormed (with_new w k t).slots ((with_new w k t).signals k).m_slots
      → IsValid (with_new w k t)
  with_new-IsValid w k t ok own = record {
    lists = λ j. elim (Bool-cases (k == j)) [
      | inl here ↦
          subst (λ i. IsWellFormed (with_new w k t).slots ((with_new w k t).signals i).m_slots)
            (ground arith) own
      | inr other ↦ simp other (
          IsWellFormed-agree w.slots (with_new w k t).slots (w.signals j).m_slots
            (λ b h.
              rw (with_new-frame w k b t (ok.made j b h)) (record { index = refl; group = refl }))
            (ok.lists j))
    ];
    apart = λ i j b h l. ground (
      arith,
      with_new-elem w k i b t,
      with_new-elem w k j b t,
      ok.apart i j b,
      ok.apart k j b,
      ok.apart i k b,
      ok.made i b,
      ok.made j b,
    );
    made = λ j b h. ground (arith, with_new-elem w k j b t, ok.made j b, ok.made k b);
  }

  -- A connect, accepted or refused, keeps the shared state valid.
  pub connect_slot-IsValid :
      (w : World A U) (k : ℕ) (same : Slot → Bool) (body : ℕ → Body) (opt : Options)
      → IsValid w
      → IsValid (connect_slot w k same body opt).0
  unfolding connect_slot
  connect_slot-IsValid w k same body opt ok =
      let a = w.allocated in
      let gs = (w.signals k).m_slots in
      let new = Absent-elem a gs (new-elem w k ok) in
      let own = connect_slot-IsWellFormed w k same body opt (ok.lists k) new in
      elim (Bool-cases (is_unique w (get_slot (λ b. same (w.slots b)) gs))) [
        | inl refused ↦ simp refused ok
        | inr free ↦ simp free (with_new-IsValid w k _ ok (simp free at own))
      ]

  keep_connection :
      (o : ℕ) (r : World A U × Option ℕ)
      → IsValid r.0
      → let v : World A U × Option ℕ = elim r.1 [
        | none ↦ (r.0, none)
        | some a ↦ (add_connection r.0 o (some a), some a)
      ] in
        IsValid v.0
  unfolding add_connection
  keep_connection o (w, none) ok = ok
  keep_connection o (w, some a) ok =
      same_lists-IsValid w _ (λ k. refl) (λ b. record { index = refl; group = refl }) refl ok

  pub connect_observer-IsValid :
      (w : World A U) (k o : ℕ) (c : Callable) (opt : Options)
      → IsValid w
      → IsValid (connect_observer w k o c opt).0
  unfolding connect_observer
  connect_observer-IsValid w k o c opt ok =
      keep_connection o (connect_slot w k (has_both w (raw o) c) (λ _. slot_pmf (raw o) c) opt)
        (connect_slot-IsValid w k (has_both w (raw o) c) (λ _. slot_pmf (raw o) c) opt ok)

  -- Each `disconnect` of a signal keeps the shared state valid.
  pub disconnect_where-IsValid :
      (w : World A U) (k : ℕ) (cond : Slot → Bool)
      → IsValid w
      → IsValid (disconnect_where w k cond).0
  unfolding disconnect_where
  disconnect_where-IsValid w k cond ok =
      let test = λ (a : ℕ). cond (w.slots a) in
      let gs = (w.signals k).m_slots in
      let (τ, hs, n) = disconnect_if test w.slots gs in
      replace_list-IsValid w k τ hs ok (disconnect_if-IsWellFormed test w.slots gs (ok.lists k))
        (disconnect_if-Inside test w.slots gs)

  pub disconnect_gid-IsValid :
      (w : World A U) (k : ℕ) (gid : ℤ) → IsValid w → IsValid (disconnect_gid w k gid).0
  unfolding disconnect_gid
  disconnect_gid-IsValid w k gid ok =
      let gs = (w.signals k).m_slots in
      replace_list-IsValid w k w.slots (disconnect_group gid gs).0 ok
        (disconnect_group-IsWellFormed gid w.slots gs (ok.lists k))
        (disconnect_group-Inside w.slots gid gs)

  pub disconnect_all-IsValid : (w : World A U) (k : ℕ) → IsValid w → IsValid (disconnect_all w k)
  unfolding disconnect_all
  disconnect_all-IsValid w k ok =
      replace_list-IsValid w k w.slots [] ok (record { ascending = tt; indexed = tt })
        (record { fewer = λ b h. cc; frame = λ b h. refl })

  pub block_signal-IsValid : (w : World A U) (k : ℕ) → IsValid w → IsValid (block_signal w k)
  unfolding block_signal
  block_signal-IsValid w k ok =
      same_lists-IsValid w (block_signal w k) (λ j. ground arith)
        (λ b. record { index = refl; group = refl }) refl ok

  pub unblock_signal-IsValid : (w : World A U) (k : ℕ) → IsValid w → IsValid (unblock_signal w k)
  unfolding unblock_signal
  unblock_signal-IsValid w k ok =
      same_lists-IsValid w (unblock_signal w k) (λ j. ground arith)
        (λ b. record { index = refl; group = refl }) refl ok

  -- Every signal's list is empty or another signal's, and no list is used twice.
  record Rearranged (w v : World A U) (from : ℕ → ℕ) : Type 0 where
    slots : v.slots ≡ w.slots
    allocated : v.allocated ≡ w.allocated
    lists :
        (i : ℕ)
        → ((v.signals i).m_slots ≡ []) ⊎ ((v.signals i).m_slots ≡ (w.signals (from i)).m_slots)
    once :
        (i j b : ℕ)
        → elem b (listed v i) ≡ true
        → elem b (listed v j) ≡ true
        → from i ≡ from j
        → i ≡ j

  Rearranged-elem :
      (w v : World A U) (from : ℕ → ℕ)
      → Rearranged w v from
      → (i b : ℕ) → elem b (listed v i) ≡ true
      → elem b (listed w (from i)) ≡ true
  Rearranged-elem w v from r i b h = elim (r.lists i) [
    | inl e ↦ let no_slot = rw e at h in cc
    | inr e ↦ rw e at h
  ]

  Rearranged-IsValid :
      (w v : World A U) (from : ℕ → ℕ) → Rearranged w v from → IsValid w → IsValid v
  Rearranged-IsValid w v from r ok = record {
    lists = λ i. rw r.slots (elim (r.lists i) [
      | inl e ↦ rw e (record { ascending = tt; indexed = tt })
      | inr e ↦ rw e (ok.lists (from i))
    ]);
    apart = λ i j b h l. r.once i j b h l (
        ok.apart (from i) (from j) b (Rearranged-elem w v from r i b h)
          (Rearranged-elem w v from r j b l));
    made = λ i b h. rw r.allocated (ok.made (from i) b (Rearranged-elem w v from r i b h));
  }

  -- Moving a signal into a new one keeps the shared state valid, and so does a move assignment.
  pub move_construct-IsValid :
      (w : World A U) (j k : ℕ) → IsValid w → IsValid (move_construct w j k)
  unfolding move_construct
  move_construct-IsValid w j k ok =
      Rearranged-IsValid w (move_construct w j k) (λ i. if i == j then k else i)
        (record {
          slots = refl;
          allocated = refl;
          lists = λ i. elim (Bool-cases (k == i)) [
            | inl old ↦ inl (ground arith)
            | inr other ↦ inr (ground arith)
          ];
          once = λ i l b h m e. ground (arith, h, m);
        })
        ok

  pub move_assign-IsValid : (w : World A U) (j k : ℕ) → IsValid w → IsValid (move_assign w j k)
  unfolding move_assign
  move_assign-IsValid w j k ok =
      Rearranged-IsValid w (move_assign w j k) (λ i. if i == k then j else if i == j then k else i)
        (record {
          slots = refl;
          allocated = refl;
          lists = λ i. inr (ground arith);
          once = λ i l b h m e. ground arith;
        })
        ok
