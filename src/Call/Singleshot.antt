-- ===== src/Call/Singleshot.antt =====
-- A singleshot slot emits once: the flag `m_emitted` is set before anything else happens, and a
-- call that finds it set does nothing.
use modern_signal_slot.Base.{
  is_some, ℕ, ◌≡◌, refl, ap, ◌∙◌, Bool, true, false, not, ◌&&◌, Option, arith, Bool-cases,
  Option-cases, inl, inr,
}
use modern_signal_slot.Slot.{
  Slot, Body, slot, slot_extended, slot_pmf, slot_pmf_extended, slot_tracked,
}
use modern_signal_slot.Slot.Pointers.{lock_object}
use modern_signal_slot.World.{World, set_slot, disconnect_slot, clean_slot}
use modern_signal_slot.Call.{
  Called, done, waits, faulted, can_emit, set_emitted, post, invoke, dispatch, call_untracked,
  call_tracked, call_slot, call,
}
use modern_signal_slot.Signal.Same.{plain}
use modern_signal_slot.World.Disconnect.{clean_slot-plain}
use modern_signal_slot.Call.Steps.{can_emit-emitted}
use modern_signal_slot.Call.Order.{tracks_alive, active}

can_emit_refused : (s : Slot) → can_emit s ≡ false → s.m_emitted ≡ true
unfolding can_emit
can_emit_refused s h = ground arith

module _ {A U : Type 0} where
  -- The slot is a singleshot one and has emitted.
  abbrev pub Spent : World A U → ℕ → Type 0
  Spent w a = ((w.slots a).m_singleshot ≡ true) × ((w.slots a).m_emitted ≡ true)

  set_emitted-Spent :
      (w : World A U) (a : ℕ) → (w.slots a).m_singleshot ≡ true → Spent (set_emitted w a) a
  unfolding set_emitted
  set_emitted-Spent w a s = ground arith

  pub Spent-plain :
      (v w : World A U) (a : ℕ) → plain (v.slots a) ≡ plain (w.slots a) → Spent w a → Spent v a
  Spent-plain v w a e s = (ap (λ p. p.m_singleshot) e ∙ s.0, ap (λ p. p.m_emitted) e ∙ s.1)

  pub disconnect_slot-Spent :
      (w : World A U) (b a : ℕ) → Spent w a → Spent (disconnect_slot w b).0 a
  unfolding disconnect_slot
  disconnect_slot-Spent w b a s =
      let w' = set_slot w b (record (w.slots b) { m_connected = false }) in
      let s' : Spent w' a = ground arith in
      elim (Bool-cases (w.slots b).m_connected) [
        | inl on ↦ simp on (Spent-plain (clean_slot w' b) w' a (clean_slot-plain w' b a) s')
        | inr off ↦ simp off s'
      ]

  -- What a call leaves behind, if it returns or waits.
  abbrev pub After : (World A U → Type 0) → Called A U → Type 0
  After P (done w) = P w
  After P (waits p w) = P w
  After P (faulted f) = Unit {0}

module _ {A U : Type 0} (assertions : Bool) (user_code : Body → A → World A U → World A U) where
  call_untracked-Spent :
      (w : World A U) (a : ℕ) (args : A)
      → Spent w a
      → call_untracked assertions user_code w a args ≡ done w
  unfolding call_untracked
  call_untracked-Spent w a args s = rw (can_emit-emitted (w.slots a) s.0 s.1) refl

  call_tracked-Spent :
      (w : World A U) (a : ℕ) (args : A) (o : Option ℕ)
      → Spent w a
      → is_some (lock_object w.objects o) ≡ true
      → call_tracked assertions user_code w a args o ≡ done w
  unfolding call_tracked
  call_tracked-Spent w a args o s there = elim (Option-cases (lock_object w.objects o)) [
    | inl e ↦ cc
    | inr (x, e) ↦ rw (e, call_tracked) (call_untracked-Spent w a args s)
  ]

  call_slot-Spent :
      (w : World A U) (a : ℕ) (args : A) (b : Body)
      → Spent w a
      → tracks_alive w.objects b ≡ true
      → call_slot assertions user_code w a args b ≡ done w
  unfolding call_slot
  call_slot-Spent w a args (slot _) s t = call_untracked-Spent w a args s
  call_slot-Spent w a args (slot_extended _ _) s t = call_untracked-Spent w a args s
  call_slot-Spent w a args (slot_pmf _ _) s t = call_untracked-Spent w a args s
  call_slot-Spent w a args (slot_pmf_extended _ _ _) s t = call_untracked-Spent w a args s
  call_slot-Spent w a args (slot_tracked o _) s t = call_tracked-Spent w a args o s t

  -- A call of a singleshot slot that has emitted changes nothing, whatever its connection type, as
  -- long as the object that it tracks, if any, is alive: no function is called, nothing is posted.
  pub call-Spent :
      (w : World A U) (a : ℕ) (args : A)
      → Spent w a
      → tracks_alive w.objects (w.slots a).body ≡ true
      → call assertions user_code w a args ≡ done w
  unfolding call
  call-Spent w a args s t =
      elim (Bool-cases ((w.slots a).m_connected && not (w.slots a).m_blocked)) [
        | inl on ↦ simp on (call_slot-Spent w a args (w.slots a).body s t)
        | inr off ↦ simp off refl
      ]

  module _ (a : ℕ)
      (keeps : (b : Body) (args : A) (w : World A U)
        → Spent w a
        → Spent (user_code b args w) a) where
    invoke-Spent : (w : World A U) (args : A) → Spent w a → Spent (invoke user_code w a args) a
    unfolding invoke
    invoke-Spent w args s =
        let w' = user_code (w.slots a).body args w in
        let s' = keeps (w.slots a).body args w s in
        elim (Bool-cases (w.slots a).m_connected) [
          | inl on ↦ simp (on, s'.0, s'.1) (disconnect_slot-Spent w' a a s')
          | inr off ↦ simp off s
        ]

    dispatch-Spent :
        (w : World A U) (args : A)
        → Spent w a
        → After (λ v. Spent v a) (dispatch assertions user_code w a args)
    unfolding dispatch post
    dispatch-Spent w args s = ground (arith, invoke-Spent w args s)

    untracked-Spent :
        (w : World A U) (args : A)
        → (w.slots a).m_singleshot ≡ true
        → After (λ v. Spent v a) (call_untracked assertions user_code w a args)
    unfolding call_untracked
    untracked-Spent w args single = elim (Bool-cases (can_emit (w.slots a))) [
      | inl may ↦ simp may (dispatch-Spent (set_emitted w a) args (set_emitted-Spent w a single))
      | inr spent ↦ simp spent (single, can_emit_refused (w.slots a) spent)
    ]

    tracked-Spent :
        (w : World A U) (args : A) (o : Option ℕ)
        → (w.slots a).m_singleshot ≡ true
        → is_some (lock_object w.objects o) ≡ true
        → After (λ v. Spent v a) (call_tracked assertions user_code w a args o)
    unfolding call_tracked
    tracked-Spent w args o single there = elim (Option-cases (lock_object w.objects o)) [
      | inl e ↦ cc
      | inr (x, e) ↦ rw (e, call_tracked) (untracked-Spent w args single)
    ]

    slot-Spent :
        (w : World A U) (args : A) (b : Body)
        → (w.slots a).m_singleshot ≡ true
        → tracks_alive w.objects b ≡ true
        → After (λ v. Spent v a) (call_slot assertions user_code w a args b)
    unfolding call_slot
    slot-Spent w args (slot _) s t = untracked-Spent w args s
    slot-Spent w args (slot_extended _ _) s t = untracked-Spent w args s
    slot-Spent w args (slot_pmf _ _) s t = untracked-Spent w args s
    slot-Spent w args (slot_pmf_extended _ _ _) s t = untracked-Spent w args s
    slot-Spent w args (slot_tracked o _) s t = tracked-Spent w args o s t

    -- A call of a connected singleshot slot that is not blocked and whose tracked object, if any,
    -- is alive leaves it marked as one that has emitted, on every connection type and also if the
    -- call waits, if the program's functions do not reset its two flags.
    pub singleshot_once :
        (w : World A U) (args : A)
        → (w.slots a).m_singleshot ≡ true
        → active (w.slots a) ≡ true
        → tracks_alive w.objects (w.slots a).body ≡ true
        → After (λ v. Spent v a) (call assertions user_code w a args)
    unfolding call
    singleshot_once w args single on there =
        simp on (slot-Spent w args (w.slots a).body single there)
