-- ===== src/Call/Order.antt =====
-- The order of an emission, for functions that leave signals, slots and queues alone.
use modern_signal_slot.Base.{
  is_some, ℕ, ◌≡◌, refl, ap, ◌∙◌, fun_ext, Bool, true, false, not, ◌&&◌, List, [], ◌∷◌, Option,
  arith, keep, if◌then◌else◌, Bool-cases, Option-cases, inl, inr,
}
use modern_signal_slot.Slot.{
  Slot, Slots, Body, slot, slot_extended, slot_pmf, slot_pmf_extended, slot_tracked,
  direct_connection,
}
use modern_signal_slot.Slot.Pointers.{lock_object}
use modern_signal_slot.Signal.{slots_of}
use modern_signal_slot.World.{World, hold, release}
use modern_signal_slot.Call.Steps.{
  can_emit-repeated, set_emitted-repeated, dispatch-direct, invoke-repeated,
}
use modern_signal_slot.Call.{
  done, effective_type, call_untracked, call_tracked, call_slot, call, finished, emit_slots, emit,
}

-- An emission calls a slot that is connected and not blocked.
abbrev pub active : Slot → Bool
active s = s.m_connected && not s.m_blocked

-- The tracked object of a slot, if it has one, is alive.
abbrev pub tracks_alive : (ℕ → Bool) → Body → Bool
tracks_alive objects (slot_tracked o _) = is_some (lock_object objects o)
tracks_alive objects _ = true

module _ {A U : Type 0} where
  -- A slot that is called at once, any number of times.
  abbrev pub IsPlain : World A U → Slot → Type 0
  IsPlain w s =
      (effective_type w s ≡ direct_connection)
      × (s.m_singleshot ≡ false)
      × (tracks_alive w.objects s.body ≡ true)

  abbrev pub AllPlain : World A U → List ℕ → Type 0
  AllPlain w [] = Unit {0}
  AllPlain w (a ∷ xs) = IsPlain w (w.slots a) × AllPlain w xs

-- A call whose function, run in this state, changes only the program's own part of it.
module _ {A U : Type 0} (assertions : Bool) (code : Body → A → World A U → World A U)
    (w : World A U) (a : ℕ) (args : A) (u : U)
    (runs : code (w.slots a).body args w ≡ record w { user = u }) where
  untracked-runs :
      effective_type w (w.slots a) ≡ direct_connection
      → (w.slots a).m_singleshot ≡ false
      → (w.slots a).m_connected ≡ true
      → call_untracked assertions code w a args ≡ done (record w { user = u })
  unfolding call_untracked
  untracked-runs direct single conn =
      rw
        (
          can_emit-repeated (w.slots a) single,
          set_emitted-repeated w a single,
          dispatch-direct assertions code w a args direct,
          invoke-repeated assertions code w a args conn
              (ap (λ v. (v.slots a).m_singleshot) runs ∙ single),
          runs,
        )
        refl

  tracked-runs :
      IsPlain w (w.slots a)
      → (w.slots a).m_connected ≡ true
      → (o : Option ℕ) → is_some (lock_object w.objects o) ≡ true
      → call_tracked assertions code w a args o ≡ done (record w { user = u })
  unfolding call_tracked
  tracked-runs p c o there = elim (Option-cases (lock_object w.objects o)) [
    | inl e ↦ cc
    | inr (x, e) ↦ rw (e, call_tracked) (untracked-runs p.0 p.1 c)
  ]

  slot-runs :
      IsPlain w (w.slots a)
      → (w.slots a).m_connected ≡ true
      → (b : Body) → (w.slots a).body ≡ b
      → call_slot assertions code w a args b ≡ done (record w { user = u })
  unfolding call_slot call_tracked
  slot-runs p c (slot _) e = untracked-runs p.0 p.1 c
  slot-runs p c (slot_extended _ _) e = untracked-runs p.0 p.1 c
  slot-runs p c (slot_pmf _ _) e = untracked-runs p.0 p.1 c
  slot-runs p c (slot_pmf_extended _ _ _) e = untracked-runs p.0 p.1 c
  slot-runs p c (slot_tracked o _) e = tracked-runs p c o (rw e at p.2)

  pub call-runs :
      IsPlain w (w.slots a)
      → call assertions code w a args
        ≡ done (if active (w.slots a) then record w { user = u } else w)
  unfolding call
  call-runs p = elim (Bool-cases (active (w.slots a))) [
    | inl on ↦ simp on (slot-runs p (ground arith) (w.slots a).body refl)
    | inr off ↦ simp off refl
  ]

module _ {A U : Type 0} (assertions : Bool) (f : Body → A → U → U) where
  abbrev pub user_code : Body → A → World A U → World A U
  user_code b args w = record w { user = f b args w.user }

  -- The functions of some slots, called one after the other.
  abbrev pub calls : Slots → A → List ℕ → U → U
  calls σ args [] u = u
  calls σ args (a ∷ xs) u = calls σ args xs (f (σ a).body args u)

  pub call-plain :
      (w : World A U) (a : ℕ) (args : A)
      → IsPlain w (w.slots a)
      → call assertions user_code w a args
        ≡ done
            (if active (w.slots a) then record w { user = f (w.slots a).body args w.user } else w)
  call-plain w a args p =
      call-runs assertions user_code w a args (f (w.slots a).body args w.user) refl p

  pub AllPlain-user :
      (w : World A U) (u : U) (xs : List ℕ) → AllPlain w xs → AllPlain (record w { user = u }) xs
  unfolding effective_type
  AllPlain-user w u [] p = tt
  AllPlain-user w u (a ∷ xs) p = (p.0, AllPlain-user w u xs p.1)

  emit_slots-plain :
      (args : A) (copy xs : List ℕ) (w : World A U)
      → AllPlain w xs
      → emit_slots assertions user_code args copy xs w
        ≡ finished (
            release copy
              (record w { user = calls w.slots args (keep (λ a. active (w.slots a)) xs) w.user }))
  unfolding emit_slots
  emit_slots-plain args copy [] w p = refl
  emit_slots-plain args copy (a ∷ xs) w p = elim (Bool-cases (active (w.slots a))) [
    | inl on ↦
        let u = f (w.slots a).body args w.user in
        let called = (rw on at (call-plain w a args p.0)) in
        rw (called, on, emit_slots)
          (emit_slots-plain args copy xs (record w { user = u }) (AllPlain-user w u xs p.1))
    | inr off ↦
        let called = (rw off at (call-plain w a args p.0)) in
        rw (called, off, emit_slots) (emit_slots-plain args copy xs w p.1)
  ]

  release-hold :
      (w : World A U) (xs : List ℕ) (u : U)
      → release xs (record (hold xs w) { user = u }) ≡ record w { user = u }
  unfolding hold release
  release-hold w xs u = ap (λ h. record w { user = u; held = h }) (fun_ext λ b. omega arith)

  AllPlain-hold : (w : World A U) (h xs : List ℕ) → AllPlain w xs → AllPlain (hold h w) xs
  unfolding effective_type hold
  AllPlain-hold w h [] p = tt
  AllPlain-hold w h (a ∷ xs) p = (p.0, AllPlain-hold w h xs p.1)

  -- An emission of a signal whose slots are all direct, repeated and not tracking a dead object,
  -- with functions that change only the program's own state: it ends, and of the whole state only
  -- the program's own has changed. A blocked signal calls nothing; any other calls the functions of
  -- the slots that are connected and not blocked, each once, in the order of the slot list.
  pub emit-plain :
      (w : World A U) (k : ℕ) (args : A)
      → AllPlain w (slots_of (w.signals k).m_slots)
      → emit assertions user_code w k args
        ≡ finished (record w {
          user =
              if (w.signals k).m_block
              then w.user
              else calls w.slots args
                  (keep (λ a. active (w.slots a)) (slots_of (w.signals k).m_slots))
                  w.user;
        })
  unfolding emit
  emit-plain w k args p =
      let copy = slots_of (w.signals k).m_slots in
      elim (Bool-cases (w.signals k).m_block) [
        | inl b ↦ simp b refl
        | inr b ↦ simp b (
            emit_slots-plain args copy copy (hold copy w) (AllPlain-hold w copy copy p)
            ∙ ap finished (unfold hold in release-hold w copy _))
      ]
