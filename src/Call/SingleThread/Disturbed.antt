-- ===== src/Call/SingleThread/Disturbed.antt =====
-- A singleshot slot of a signal without a mutex: its own `disconnect`, behind its function, takes it
-- out of the group that the emission loops over.
use modern_signal_slot.Base.{
  ℕ, suc, ◌≡◌, refl, sym, ap, ◌∙◌, subst, Bool, true, false, List, ◌∷◌, ◌++◌, some, arith, length,
  get_elem?, ==-refl,
}
use modern_signal_slot.Slot.{Slots, Body, update}
use modern_signal_slot.Signal.{Group, clean}
use modern_signal_slot.Signal.Live.{group_at, same_slots_refl, clean-changes}
use modern_signal_slot.World.{World, disconnect_slot, clean_slot}
use modern_signal_slot.Call.{set_emitted, effective_type}
use modern_signal_slot.Call.Order.{AllPlain, user_code}
use modern_signal_slot.Call.SingleThread.{
  Loop, undefined_behaviour, undisturbed, live_slots, live_groups, emit_st,
}
use modern_signal_slot.Call.SingleThread.Plain.{called, live_slots-reach}
use modern_signal_slot.Call.SingleThread.OneShot.{IsOneShot, after_function, marked-slot, call-once}

module _ {A U : Type 0} where
  -- The slot stands where it says, in the first group of the signal that made it.
  pub record InFirst (w : World A U) (k a : ℕ) (g : Group) : Type 0 where
    pub cleaner : (w.slots a).m_cleaner ≡ k
    pub group : g.gid ≡ (w.slots a).m_group
    pub index : get_elem? g.slts (w.slots a).m_index ≡ some a

  -- A slot that is disconnected while its group is looped over.
  abbrev off : World A U → ℕ → Slots
  off w a = update w.slots a (record (w.slots a) { m_connected = false })

  disconnect-list :
      (w : World A U) (k a : ℕ)
      → (w.slots a).m_connected ≡ true
      → (w.slots a).m_cleaner ≡ k
      → ((disconnect_slot w a).0.signals k).m_slots ≡ (clean (off w a) (w.signals k).m_slots a).1
  unfolding disconnect_slot clean_slot
  disconnect-list w k a on mine = rw on (rw (==-refl a, mine, ==-refl k) refl)

  disconnect-disturbs :
      (w : World A U) (k a : ℕ) (g : Group) (gs : List Group) (loop : Loop)
      → (w.slots a).m_connected ≡ true
      → InFirst w k a g
      → (w.signals k).m_slots ≡ g ∷ gs
      → loop.group ≡ 0
      → loop.seen ≡ g.slts
      → undisturbed (disconnect_slot w a).0 k loop ≡ false
  disconnect-disturbs w k a g gs loop on p list first seen =
      let σ = off w a in
      let e : σ a ≡ record (w.slots a) { m_connected = false } = rw (==-refl a) refl in
      let changed =
        clean-changes σ g gs a (p.group ∙ ap (λ s. s.m_group) (sym e))
          (ap (λ s. get_elem? g.slts s.m_index) e ∙ p.index) in
      let after = disconnect-list w k a on p.cleaner in
      rw (after, list, first, seen) (ground (arith, changed))

module _ {A U : Type 0} (assertions : Bool) (f : Body → A → U → U) (k : ℕ) (args : A) where
  set_emitted-signals : (w : World A U) (a : ℕ) → (set_emitted w a).signals ≡ w.signals
  unfolding set_emitted
  set_emitted-signals w a = ground arith

  IsOneShot-user :
      (w : World A U) (a : ℕ) (u : U) → IsOneShot w a → IsOneShot (record w { user = u }) a
  unfolding effective_type
  IsOneShot-user w a u s = record {
    untracked = s.untracked;
    on = s.on;
    direct = s.direct;
    once = s.once;
    fresh = s.fresh;
  }

  -- The singleshot slot itself.
  live_slots-once :
      (w : World A U) (a : ℕ) (ys : List ℕ) (g : Group) (gs : List Group) (loop : Loop)
      → (w.signals k).m_slots ≡ g ∷ gs
      → loop.group ≡ 0
      → loop.seen ≡ g.slts
      → IsOneShot w a
      → InFirst w k a g
      → live_slots assertions (user_code assertions f) k args loop (a ∷ ys) w ≡ undefined_behaviour
  unfolding live_slots
  live_slots-once w a ys g gs loop list first seen s p =
      let v = after_function assertions f k args w a in
      let e = marked-slot assertions f k args w a s in
      let place : InFirst v k a g = record {
        cleaner = ap (λ t. t.m_cleaner) e ∙ p.cleaner;
        group = p.group ∙ ap (λ t. t.m_group) (sym e);
        index = ap (λ t. get_elem? g.slts t.m_index) e ∙ p.index;
      } in
      let conn : (v.slots a).m_connected ≡ true =
        ap (λ t. t.m_connected) e ∙ ground (arith, s.on) in
      let disturbed =
        disconnect-disturbs v k a g gs loop conn place
          (ap (λ signals. (signals k).m_slots) (set_emitted-signals w a) ∙ list) first seen in
      rw (call-once assertions f k args w a s, disturbed, live_slots) refl

  first_group-stops :
      (n behind : ℕ) (w : World A U)
      → (let seen = group_at (w.signals k).m_slots 0 in
          live_slots assertions
            (user_code assertions f)
            k
            args
            (record { groups = n; group = 0; behind = behind; seen = seen })
            seen
            w)
        ≡ undefined_behaviour
      → live_groups assertions (user_code assertions f) k args n 0 (suc behind) w
        ≡ undefined_behaviour
  unfolding live_groups
  first_group-stops n behind w e = rw (e, live_groups) refl

  -- An emission of a signal without a mutex that comes, in the signal's first group, to a singleshot
  -- slot on a direct connection behind slots that it calls at once, uses an invalid iterator: when
  -- the function has returned, the slot disconnects itself, which erases it from the group that the
  -- loop goes on over.
  pub emit_st-once :
      (w : World A U) (a : ℕ) (xs ys : List ℕ) (g : Group) (gs : List Group)
      → (w.signals k).m_block ≡ false
      → (w.signals k).m_slots ≡ g ∷ gs
      → g.slts ≡ xs ++ a ∷ ys
      → AllPlain w xs
      → IsOneShot w a
      → InFirst w k a g
      → emit_st assertions (user_code assertions f) k args w ≡ undefined_behaviour
  unfolding emit_st live_groups live_slots
  emit_st-once w a xs ys g gs unblocked list split plain s p =
      let n = length (w.signals k).m_slots in
      let loop : Loop = record { groups = n; group = 0; behind = length gs; seen = g.slts } in
      let start : group_at (w.signals k).m_slots 0 ≡ g.slts = rw list refl in
      let still : undisturbed w k loop ≡ true =
        rw (==-refl n, start, same_slots_refl g.slts) refl in
      let w' : World A U = record w { user = called assertions f k args w xs w.user } in
      let inner : live_slots assertions (user_code assertions f) k args loop g.slts w
          ≡ undefined_behaviour =
        ap (λ l. live_slots assertions (user_code assertions f) k args loop l w) split
        ∙ live_slots-reach assertions f k args loop xs (a ∷ ys) w plain still
        ∙ live_slots-once w' a ys g gs loop list refl refl (IsOneShot-user w a w'.user s)
            (record { cleaner = p.cleaner; group = p.group; index = p.index }) in
      let seen_live =
        subst
          (λ l.
            live_slots assertions (user_code assertions f) k args
              (record { groups = n; group = 0; behind = length gs; seen = l }) l w
            ≡ undefined_behaviour)
          (sym start) inner in
      simp unblocked (
        subst
          (λ m.
            live_groups assertions (user_code assertions f) k args n 0 m w ≡ undefined_behaviour)
          (sym (ap length list)) (first_group-stops n (length gs) w seen_live))
