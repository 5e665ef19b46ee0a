-- ===== src/Call/Race/Both.antt =====
-- A singleshot slot that two threads call at once, on a schedule in which both pass `can_emit` first.
use modern_signal_slot.Base.{
  ℕ, zero, suc, ◌≡◌, refl, ap, ◌∙◌, Bool, true, false, List, [], ◌∷◌, none, arith,
}
use modern_signal_slot.Slot.{direct_connection}
use modern_signal_slot.World.{World}
use modern_signal_slot.Call.{can_emit, set_emitted, effective_type}
use modern_signal_slot.Call.Order.{user_code, active}
use modern_signal_slot.Call.Race.{CallPlace, entering, marking, running, alone, guard_of, advance}
use modern_signal_slot.Call.Race.Window.{count_run, threads}

-- A schedule in which thread `i` takes `n` steps first.
abbrev pub turns : ℕ → ℕ → List ℕ → List ℕ
turns zero i rest = rest
turns (suc n) i rest = i ∷ turns n i rest

-- Both threads pass `can_emit`, then both store `m_emitted`, then both call the function.
abbrev pub both_pass : List ℕ
both_pass = turns 4 0 (turns 4 1 (turns 3 0 (turns 3 1 (turns 1 0 (turns 1 1 [])))))

module _ {A : Type 0} (assertions : Bool) (a : ℕ) (args : A) where
  single : ℕ → World A ℕ × CallPlace → World A ℕ × CallPlace
  single n s = alone assertions (user_code assertions count_run) n a args s

  first_turns :
      (n : ℕ) (rest : List ℕ) (w : World A ℕ) (p q : CallPlace)
      → threads assertions a args (turns n 0 rest) (w, p ∷ q ∷ [])
        ≡ threads assertions a args rest ((single n (w, p)).0, (single n (w, p)).1 ∷ q ∷ [])
  unfolding single
  first_turns zero rest w p q = refl
  first_turns (suc n) rest w p q =
      let (w', p') = advance assertions (user_code assertions count_run) a args p w in
      first_turns n rest w' p' q

  second_turns :
      (n : ℕ) (rest : List ℕ) (w : World A ℕ) (p q : CallPlace)
      → threads assertions a args (turns n 1 rest) (w, p ∷ q ∷ [])
        ≡ threads assertions a args rest ((single n (w, q)).0, p ∷ (single n (w, q)).1 ∷ [])
  unfolding single
  second_turns zero rest w p q = refl
  second_turns (suc n) rest w p q =
      let (w', q') = advance assertions (user_code assertions count_run) a args q w in
      second_turns n rest w' p q'

  -- A direct connection of a class that tracks nothing, which is connected and not blocked.
  abbrev pub IsDirect : World A ℕ → Type 0
  IsDirect w =
      (guard_of (w.slots a).body ≡ none)
      × (active (w.slots a) ≡ true)
      × (effective_type w (w.slots a) ≡ direct_connection)

  single-entering :
      (w : World A ℕ)
      → IsDirect w
      → (w.slots a).m_emitted ≡ false
      → single 4 (w, entering) ≡ (w, marking)
  unfolding single advance can_emit
  single-entering w d fresh = ground arith

  single-marking : (w : World A ℕ) → IsDirect w → single 3 (w, marking) ≡ (set_emitted w a, running)
  unfolding single advance set_emitted effective_type
  single-marking w d = ground arith

  set_emitted-IsDirect : (w : World A ℕ) → IsDirect w → IsDirect (set_emitted w a)
  unfolding set_emitted effective_type
  set_emitted-IsDirect w d = ground arith

  set_emitted_user : (w : World A ℕ) → (set_emitted w a).user ≡ w.user
  unfolding set_emitted
  set_emitted_user w = ground arith

  -- There is an order in which two threads that call one singleshot slot at once both run its
  -- function: on a direct connection that is connected, is not blocked, tracks nothing and has not
  -- emitted.
  pub both_run :
      (w : World A ℕ)
      → IsDirect w
      → (w.slots a).m_singleshot ≡ true
      → (w.slots a).m_emitted ≡ false
      → (threads assertions a args both_pass (w, entering ∷ entering ∷ [])).0.user
        ≡ suc (suc w.user)
  unfolding single advance
  both_run w d once fresh =
      let w1 = set_emitted w a in
      let w2 = set_emitted w1 a in
      let run = threads assertions a args in
      let last = turns 1 0 (turns 1 1 []) in
      let s4 = turns 3 1 last in
      let s3 = turns 3 0 s4 in
      let s2 = turns 4 1 s3 in
      let e = single-entering w d fresh in
      let m1 = single-marking w d in
      let m2 = single-marking w1 (set_emitted-IsDirect w d) in
      let end : run both_pass (w, entering ∷ entering ∷ [])
          ≡ run last (w2, running ∷ running ∷ []) =
        first_turns 4 s2 w entering entering
        ∙ ap (λ s. run s2 (s.0, s.1 ∷ entering ∷ [])) e
        ∙ second_turns 4 s3 w marking entering
        ∙ ap (λ s. run s3 (s.0, marking ∷ s.1 ∷ [])) e
        ∙ first_turns 3 s4 w marking marking
        ∙ ap (λ s. run s4 (s.0, s.1 ∷ marking ∷ [])) m1
        ∙ second_turns 3 last w1 running marking
        ∙ ap (λ s. run last (s.0, running ∷ s.1 ∷ [])) m2 in
      ap (λ s. s.0.user) end ∙ ap (λ n. suc (suc n)) (set_emitted_user w1 ∙ set_emitted_user w)
