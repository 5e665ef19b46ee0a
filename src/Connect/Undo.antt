-- ===== src/Connect/Undo.antt =====
-- A connect and the `disconnect` of the connection that it returns.
use modern_signal_slot.Base.{
  ℕ, zero, suc, subst, ◌<◌, ◌≡◌, ◌≢◌, refl, Bool, true, false, some, arith, ==-refl, Bool-cases,
  inl, inr, elem, elem-perm,
}
use modern_signal_slot.Slot.{Slot, Slots, Body, update, make_slot, has_flag, unique_connection}
use modern_signal_slot.Signal.{get_slot, slots_of, add_slot, place}
use modern_signal_slot.Signal.Add.{place-perm}
use modern_signal_slot.Signal.Undo.{clean-place}
use modern_signal_slot.World.{World, alive, any_below, disconnect_slot, clean_slot}
use modern_signal_slot.Connect.{Options, is_unique, connect_slot}
use modern_signal_slot.Connection.{disconnect}
use modern_signal_slot.Connection.Laws.{disconnect_there}

any_below_at : (n : ℕ) (p : ℕ → Bool) (k : ℕ) → k < n → p k ≡ true → any_below n p ≡ true
any_below_at zero p k lt e = absurd (omega arith)
any_below_at (suc n) p k lt e = ground (arith, any_below_at n p k)

module _ {A U : Type 0} where
  alive_listed :
      (w : World A U) (k a : ℕ)
      → k < w.signal_count
      → elem a (slots_of (w.signals k).m_slots) ≡ true
      → alive w a ≡ true
  unfolding alive
  alive_listed w k a lt e =
      ground (arith, any_below_at w.signal_count (λ j. elem a (slots_of (w.signals j).m_slots)) k)

  -- What a connect that is not refused leaves.
  pub record Connected (w : World A U) (k a : ℕ) (opt : Options) (v : World A U) : Type 0 where
    pub on : (v.slots a).m_connected ≡ true
    pub cleaner : (v.slots a).m_cleaner ≡ k
    pub group : (v.slots a).m_group ≡ opt.gid
    pub index : (v.slots a).m_index ≡ (place opt.gid a (w.signals k).m_slots).0
    pub groups : (v.signals k).m_slots ≡ (place opt.gid a (w.signals k).m_slots).1
    pub others : (j : ℕ) → k ≢ j → v.signals j ≡ w.signals j
    pub living : v.signal_count ≡ w.signal_count
    pub unique : (v.slots a).m_unique ≡ has_flag opt.type unique_connection
    pub beside : (b : ℕ) → b ≢ a → v.slots b ≡ w.slots b

  pub connect_slot-Connected :
      (w : World A U) (k : ℕ) (same : Slot → Bool) (body : ℕ → Body) (opt : Options) (a : ℕ)
      → let (v, conn) = connect_slot w k same body opt in conn ≡ some a → Connected w k a opt v
  unfolding connect_slot add_slot make_slot
  connect_slot-Connected w k same body opt a made =
      elim (Bool-cases (is_unique w (get_slot (λ b. same (w.slots b)) (w.signals k).m_slots))) [
        | inl refused ↦ let absurd_case = simp refused at made in cc
        | inr free ↦
            let e = simp free at made in
            let here : w.allocated ≡ a = cc in
            subst (λ b. Connected w k b opt (connect_slot w k same body opt).0) here
              (simp free (record {
                on = simp (==-refl w.allocated) refl;
                cleaner = simp (==-refl w.allocated) refl;
                group = simp (==-refl w.allocated) refl;
                index = simp (==-refl w.allocated) refl;
                groups = simp (==-refl w.allocated, ==-refl k) refl;
                others = λ j other. ground arith;
                living = refl;
                unique = simp (==-refl w.allocated) refl;
                beside = λ b other. ground arith;
              }))
      ]

  -- The state in which `clean` runs.
  clean_slot-Connected :
      (w v : World A U) (k a : ℕ) (opt : Options)
      → Connected w k a opt v
      → let u =
          clean_slot
            (record v { slots = update v.slots a (record (v.slots a) { m_connected = false }) })
            a in
        (slots_of (u.signals k).m_slots ≡ slots_of (w.signals k).m_slots)
        × ((j : ℕ) → k ≢ j → u.signals j ≡ w.signals j)
  unfolding clean_slot
  clean_slot-Connected w v k a opt c =
      let σ : Slots = update v.slots a (record (v.slots a) { m_connected = false }) in
      let group : (σ a).m_group ≡ opt.gid = simp (==-refl a) c.group in
      let index : (σ a).m_index ≡ (place opt.gid a (w.signals k).m_slots).0 =
        simp (==-refl a) c.index in
      let cleaner : (σ a).m_cleaner ≡ k = simp (==-refl a) c.cleaner in
      (
        simp (cleaner, ==-refl k, c.groups)
            (clean-place opt.gid a (w.signals k).m_slots σ group index),
        λ j other. ground (arith, cleaner, c.others j),
      )

  -- A connect that is not refused and the `disconnect` of the connection that it returns: the
  -- disconnect succeeds, the signal then calls the slots that it called before, in the same order,
  -- and the other signals are as they were.
  pub connect_slot-disconnect :
      (w : World A U) (k : ℕ) (same : Slot → Bool) (body : ℕ → Body) (opt : Options) (a : ℕ)
      → k < w.signal_count
      → (connect_slot w k same body opt).1 ≡ some a
      → let (u, was) = disconnect (connect_slot w k same body opt).0 (some a) in
        (was ≡ true)
        × (slots_of (u.signals k).m_slots ≡ slots_of (w.signals k).m_slots)
        × ((j : ℕ) → k ≢ j → u.signals j ≡ w.signals j)
  unfolding disconnect_slot
  connect_slot-disconnect w k same body opt a lt made =
      let v = (connect_slot w k same body opt).0 in
      let c = connect_slot-Connected w k same body opt a made in
      let there : alive v a ≡ true =
        alive_listed v k a (rw c.living lt) (
          rw (c.groups, elem-perm a (place-perm opt.gid a (w.signals k).m_slots), ==-refl a)
            refl) in
      let (list, others) = clean_slot-Connected w v k a opt c in
      rw (disconnect_there v a there) (simp c.on (refl, list, others))
