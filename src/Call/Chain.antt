-- ===== src/Call/Chain.antt =====
-- core/signal.hpp, `signal_wrapper` and the free `connect` of two signals: a slot whose function
-- emits another signal. `wrapper_of` tells for a callable whether it is such a wrapper, and of which
-- signal; `f` is what every other function does to the program's own state. An emission inside an
-- emission runs on fuel, the number of signals that a chain may still go through.
use modern_signal_slot.Base.{
  ℕ, zero, suc, ◌≡◌, refl, ap, ◌∙◌, Bool, List, [], ◌∷◌, Option, none, some, if◌then◌else◌,
  Bool-cases, Option-cases, inl, inr,
}
use modern_signal_slot.Slot.{
  Slot, Slots, Body, slot, slot_extended, slot_pmf, slot_pmf_extended, slot_tracked,
}
use modern_signal_slot.Slot.Pointers.{Callable}
use modern_signal_slot.Signal.{slots_of}
use modern_signal_slot.World.{World, hold, release}
use modern_signal_slot.World.Disconnect.{release-hold}
use modern_signal_slot.Call.{
  effective_type, Emission, finished, suspended, crashed, emit_slots, emit,
}
use modern_signal_slot.Call.Order.{active, IsPlain, call-runs}

abbrev pub callable_of : Body → Callable
callable_of (slot c) = c
callable_of (slot_extended c _) = c
callable_of (slot_pmf _ c) = c
callable_of (slot_pmf_extended _ c _) = c
callable_of (slot_tracked _ c) = c

-- Where an emission ends. A wrapper that would have to wait or that ended the program leaves the
-- state that there was.
abbrev pub settle : {A U : Type 0} → World A U → Emission A U → World A U
settle w (finished v) = v
settle w (suspended p rest copy v) = w
settle w (crashed f) = w

module _ {A U : Type 0} (assertions : Bool) (wrapper_of : Callable → Option ℕ)
    (f : Body → A → U → U) where
  -- The program's functions, with `signal_wrapper::operator()` for the wrappers.
  pub chain_code : ℕ → Body → A → World A U → World A U
  chain_code zero b args w = w
  chain_code (suc n) b args w = elim (wrapper_of (callable_of b)) [
    | none ↦ record w { user = f b args w.user }
    | some j ↦ settle w (emit assertions (chain_code n) w j args)
  ]

  -- What some slots do, one after the other, when each of the active ones does `g`.
  abbrev pub run_each : (Body → U → U) → Slots → List ℕ → U → U
  run_each g σ [] u = u
  run_each g σ (a ∷ xs) u = run_each g σ xs (if active (σ a) then g (σ a).body u else u)

  -- What the function of a slot does: its own, or those of all active slots of the signal that it
  -- wraps, and so on.
  abbrev pub chain_run : ℕ → World A U → A → Body → U → U
  chain_run zero w args b u = u
  chain_run (suc n) w args b u = elim (wrapper_of (callable_of b)) [
    | none ↦ f b args u
    | some j ↦
        let all = run_each (chain_run n w args) w.slots (slots_of (w.signals j).m_slots) u in
        if (w.signals j).m_block then u else all
  ]

  abbrev Each : (ℕ → Type 0) → List ℕ → Type 0
  Each P [] = Unit {0}
  Each P (a ∷ xs) = P a × Each P xs

  -- The chains that begin at a slot end within `n` signals, and every slot on the way is direct and
  -- repeated and tracks no dead object.
  abbrev pub IsChained : ℕ → World A U → Body → Type 0
  IsChained zero w b = ⊥
  IsChained (suc n) w b = elim (wrapper_of (callable_of b)) [
    | none ↦ Unit {0}
    | some j ↦
        Each (λ a. IsPlain w (w.slots a) × IsChained n w (w.slots a).body)
          (slots_of (w.signals j).m_slots)
  ]

  abbrev pub AllChained : ℕ → World A U → List ℕ → Type 0
  AllChained n w xs = Each (λ a. IsPlain w (w.slots a) × IsChained n w (w.slots a).body) xs

  run_each-enough :
      (n : ℕ) (w : World A U) (args : A) (xs : List ℕ) (u : U)
      → ((b : Body) (v : U)
          → IsChained n w b
          → chain_run (suc n) w args b v ≡ chain_run n w args b v)
      → AllChained n w xs
      → run_each (chain_run (suc n) w args) w.slots xs u
        ≡ run_each (chain_run n w args) w.slots xs u
  run_each-enough n w args [] u same ok = refl
  run_each-enough n w args (a ∷ xs) u same ((plain, chained), rest) =
      elim (Bool-cases (active (w.slots a))) [
        | inl on ↦
            let b = (w.slots a).body in
            rw (on, same b u chained)
              (run_each-enough n w args xs (chain_run n w args b u) same rest)
        | inr off ↦ rw off (run_each-enough n w args xs u same rest)
      ]

  -- More fuel than a chain needs changes nothing.
  pub chain_run-enough :
      (n : ℕ) (w : World A U) (args : A) (b : Body) (u : U)
      → IsChained n w b
      → chain_run (suc n) w args b u ≡ chain_run n w args b u
  chain_run-enough zero w args b u ok = absurd ok
  chain_run-enough (suc n) w args b u ok = elim (Option-cases (wrapper_of (callable_of b))) [
    | inl own ↦ rw (own, chain_run) refl
    | inr (j, wraps) ↦
        let inside = (rw (wraps, IsChained) at ok) in
        let same =
          run_each-enough n w args (slots_of (w.signals j).m_slots) u
            (λ c v. chain_run-enough n w args c v) inside in
        rw (wraps, chain_run) (ap (λ v. if (w.signals j).m_block then u else v) same)
  ]

  -- The state with other references and another state of the program.
  abbrev at : World A U → (ℕ → ℕ) → U → World A U
  at w h u = record w { held = h; user = u }

  IsPlain-at : (w : World A U) (h : ℕ → ℕ) (u : U) (s : Slot) → IsPlain w s → IsPlain (at w h u) s
  unfolding effective_type
  IsPlain-at w h u s p = p

  -- The functions of `n` do what they should in the states around `w`.
  abbrev RunsRight : ℕ → World A U → A → Type 0
  RunsRight n w args =
      (b : Body) (h : ℕ → ℕ) (u : U)
      → IsChained n w b
      → chain_code n b args (at w h u) ≡ at w h (chain_run n w args b u)

  emit_slots-chain :
      (n : ℕ) (w : World A U) (args : A) (copy xs : List ℕ) (h : ℕ → ℕ) (u : U)
      → RunsRight n w args
      → AllChained n w xs
      → emit_slots assertions (chain_code n) args copy xs (at w h u)
        ≡ finished (release copy (at w h (run_each (chain_run n w args) w.slots xs u)))
  unfolding emit_slots
  emit_slots-chain n w args copy [] h u right ok = refl
  emit_slots-chain n w args copy (a ∷ xs) h u right ((plain, chained), rest) =
      let u' = chain_run n w args (w.slots a).body u in
      let one =
        call-runs assertions (chain_code n) (at w h u) a args u'
          (right (w.slots a).body h u chained) (IsPlain-at w h u (w.slots a) plain) in
      elim (Bool-cases (active (w.slots a))) [
        | inl on ↦
            rw (rw on at one, on, emit_slots) (emit_slots-chain n w args copy xs h u' right rest)
        | inr off ↦
            rw (rw off at one, off, emit_slots) (emit_slots-chain n w args copy xs h u right rest)
      ]

  -- An emission of a signal, in the states around `w`.
  emit-at :
      (n : ℕ) (w : World A U) (k : ℕ) (args : A) (h : ℕ → ℕ) (u : U)
      → RunsRight n w args
      → AllChained n w (slots_of (w.signals k).m_slots)
      → emit assertions (chain_code n) (at w h u) k args
        ≡ finished (
            at w h (
              if (w.signals k).m_block
              then u
              else run_each (chain_run n w args) w.slots (slots_of (w.signals k).m_slots) u))
  unfolding emit hold
  emit-at n w k args h u right ok =
      let copy = slots_of (w.signals k).m_slots in
      elim (Bool-cases (w.signals k).m_block) [
        | inl blocked ↦ simp blocked refl
        | inr unblocked ↦ simp unblocked (
            let after = run_each (chain_run n w args) w.slots copy u in
            emit_slots-chain n w args copy copy (hold copy (at w h u)).held u right ok
            ∙ ap finished (release-hold (at w h after) copy))
      ]

  chain_code-right : (n : ℕ) (w : World A U) (args : A) → RunsRight n w args
  unfolding chain_code
  chain_code-right zero w args b h u ok = absurd ok
  chain_code-right (suc n) w args b h u ok = elim (Option-cases (wrapper_of (callable_of b))) [
    | inl own ↦ rw (own, chain_code, chain_run) refl
    | inr (j, wraps) ↦
        let inside = (rw (wraps, IsChained) at ok) in
        rw (wraps, chain_code, chain_run)
          (ap (settle (at w h u)) (emit-at n w j args h u (chain_code-right n w args) inside))
  ]

  -- An emission of a signal from which chains of signals go out, none of them longer than the fuel
  -- allows, whose slots are all direct, repeated and not tracking a dead object: it ends, and of the
  -- whole state only the program's own has changed. Every slot's function is called in the place
  -- where a wrapper of its signal stands, and so on along the chains; blocked signals and slots that
  -- are blocked or disconnected call nothing.
  pub emit-chain :
      (n : ℕ) (w : World A U) (k : ℕ) (args : A)
      → AllChained n w (slots_of (w.signals k).m_slots)
      → emit assertions (chain_code n) w k args
        ≡ finished (record w {
          user =
              if (w.signals k).m_block
              then w.user
              else run_each (chain_run n w args) w.slots (slots_of (w.signals k).m_slots) w.user;
        })
  emit-chain n w k args ok = emit-at n w k args w.held w.user (chain_code-right n w args) ok
