-- ===== src/Call/Alive.antt =====
-- The lifetime of slots during an emission: the copy of the slot list holds them.
use modern_signal_slot.Base.{
  ℕ, ◌+◌, ◌<◌, ◌≡◌, refl, ap, ◌∙◌, Bool, true, ◌&&◌, List, [], ◌∷◌, arith, ==-refl, Bool-cases, inl,
  inr, elem, fun_ext, occurrences,
}
use modern_signal_slot.Slot.{Body}
use modern_signal_slot.Signal.{slots_of}
use modern_signal_slot.World.{World, alive, hold, release, disconnect_slot, clean_slot}
use modern_signal_slot.Call.{
  Called, done, waits, faulted, call, set_emitted, post, Emission, finished, suspended, crashed,
  emit_slots, emit,
}
use modern_signal_slot.Call.Singleshot.{After}
use modern_signal_slot.Call.Keeps.{Keeps, call-Keeps}

occurrences-elem : (a : ℕ) (xs : List ℕ) → elem a xs ≡ true → 0 < occurrences a xs
occurrences-elem a [] h = cc
occurrences-elem a (x ∷ xs) h = ground (arith, occurrences-elem a xs)

all_true : (a b c : Bool) → a ≡ true → b ≡ true → c ≡ true → a && (b && c) ≡ true
all_true a b c p q r = ground arith

-- All slots of a list are alive.
abbrev pub all_alive : {A U : Type 0} → World A U → List ℕ → Bool
all_alive w [] = true
all_alive w (a ∷ xs) = alive w a && all_alive w xs

-- What holds when an emission is over, and what holds while it waits; anything, once a fault has
-- ended the program.
abbrev pub Outcome :
    {A U : Type 0} → (World A U → Type 0) → (World A U → Type 0) → Emission A U → Type 0
Outcome F S (finished w) = F w
Outcome F S (suspended p rest copy w) = S w
Outcome F S (crashed f) = Unit {0}

module _ {A U : Type 0} where
  -- A function that also watches some slots: `user.1` stays true as long as all of them are alive
  -- whenever it starts and whenever it returns.
  abbrev pub watching :
      (Body → A → World A (U × Bool) → World A (U × Bool))
      → List ℕ
      → Body
      → A
      → World A (U × Bool)
      → World A (U × Bool)
  watching f xs b args w =
      let v = f b args w in
      record v { user = (v.user.0, w.user.1 && (all_alive w xs && all_alive v xs)) }

  go_behind :
      {P : World A U → Type 0} (F S : World A U → Type 0) (c : Called A U)
      (k : World A U → Emission A U) (rest copy : List ℕ)
      → After P c
      → ((w : World A U) → P w → Outcome F S (k w))
      → ((w : World A U) → P w → S w)
      → Outcome F S
          (elim c [ done w ↦ k w | waits p w ↦ suspended p rest copy w | faulted f ↦ crashed f ])
  go_behind F S (done w) k rest copy e next stop = next w e
  go_behind F S (waits p w) k rest copy e next stop = stop w e
  go_behind F S (faulted f) k rest copy e next stop = tt

module _ {A U : Type 0} where
  pub disconnect_slot-held : (w : World A U) (a : ℕ) → (disconnect_slot w a).0.held ≡ w.held
  unfolding disconnect_slot clean_slot
  disconnect_slot-held w a = ground arith

  set_emitted-held : (w : World A U) (a : ℕ) → (set_emitted w a).held ≡ w.held
  unfolding set_emitted
  set_emitted-held w a = ground arith

  held_alive : (w : World A U) (a : ℕ) → 0 < w.held a → alive w a ≡ true
  unfolding alive
  held_alive w a h = ground arith

  pub disconnect_slot-user : (w : World A U) (a : ℕ) → (disconnect_slot w a).0.user ≡ w.user
  unfolding disconnect_slot clean_slot
  disconnect_slot-user w a = ground arith

  pub set_emitted-user : (w : World A U) (a : ℕ) → (set_emitted w a).user ≡ w.user
  unfolding set_emitted
  set_emitted-user w a = ground arith

  all_held :
      (xs : List ℕ) (w : World A U)
      → ((a : ℕ) → elem a xs ≡ true → 0 < w.held a)
      → all_alive w xs ≡ true
  all_held [] w held = refl
  all_held (a ∷ xs) w held =
      let first = held_alive w a (held a (rw (==-refl a) refl)) in
      let rest = all_held xs w (λ b e. held b (ground arith)) in rw (first, rest) refl

  -- A copy of the slot list that is held on top of other references keeps its slots alive.
  copy_alive :
      (copy : List ℕ) (w v : World A U)
      → ((b : ℕ) → v.held b ≡ w.held b + occurrences b copy)
      → all_alive v copy ≡ true
  copy_alive copy w v e = all_held copy v (λ a i. omega (arith, occurrences-elem a copy i, e a))

module _ {A U : Type 0} (assertions : Bool) (f : Body → A → World A (U × Bool) → World A (U × Bool))
    (returns : (b : Body) (args : A) (w : World A (U × Bool)) → (f b args w).held ≡ w.held)
    (w : World A (U × Bool)) (copy : List ℕ) where
  -- The copy is held on top of what `w` holds, and nothing has been seen dead.
  record Watched (v : World A (U × Bool)) : Type 0 where
    seen : v.user.1 ≡ true
    counts : v.held ≡ (λ b. w.held b + occurrences b copy)

  Watched-alive : (v : World A (U × Bool)) → Watched v → all_alive v copy ≡ true
  Watched-alive v ok = copy_alive copy w v (λ b. ap (λ (h : ℕ → ℕ). h b) ok.counts)

  watching-Watched :
      (b : Body) (args : A) (v : World A (U × Bool))
      → Watched v
      → Watched (watching f copy b args v)
  watching-Watched b args v ok =
      let after : (f b args v).held ≡ (λ b. w.held b + occurrences b copy) =
        returns b args v ∙ ok.counts in
      let behind = copy_alive copy w (f b args v) (λ b. ap (λ (h : ℕ → ℕ). h b) after) in
      record { seen = all_true _ _ _ ok.seen (Watched-alive v ok) behind; counts = after }

  Watched-Keeps : Keeps (watching f copy) Watched
  unfolding post
  Watched-Keeps = record {
    calls = watching-Watched;
    disconnects = λ v a ok. record {
      seen = ap (λ u. u.1) (disconnect_slot-user v a) ∙ ok.seen;
      counts = disconnect_slot-held v a ∙ ok.counts;
    };
    emits = λ v a ok. record {
      seen = ap (λ u. u.1) (set_emitted-user v a) ∙ ok.seen;
      counts = set_emitted-held v a ∙ ok.counts;
    };
    posts = λ v q t ok. record { seen = ok.seen; counts = ok.counts };
    promises = λ v ok. record { seen = ok.seen; counts = ok.counts };
  }

  abbrev pub Finished : World A (U × Bool) → Type 0
  Finished v = (v.user.1 ≡ true) × (v.held ≡ w.held)

  abbrev pub Suspended : World A (U × Bool) → Type 0
  Suspended v = (v.user.1 ≡ true) × (all_alive v copy ≡ true)

  emit_slots-Outcome :
      (xs : List ℕ) (args : A) (v : World A (U × Bool))
      → Watched v
      → Outcome Finished Suspended (emit_slots assertions (watching f copy) args copy xs v)
  unfolding emit_slots release
  emit_slots-Outcome [] args v ok =
      (ok.seen, fun_ext λ b. omega (arith, ap (λ (h : ℕ → ℕ). h b) ok.counts))
  emit_slots-Outcome (s ∷ rest) args v ok =
      go_behind Finished Suspended (call assertions (watching f copy) v s args)
        (emit_slots assertions (watching f copy) args copy rest) rest copy
        (call-Keeps (watching f copy) Watched Watched-Keeps assertions v s args ok)
        (λ v' ok'. emit_slots-Outcome rest args v' ok') (λ v' ok'. (ok'.seen, Watched-alive v' ok'))

module _ {A U : Type 0} (assertions : Bool) (f : Body → A → World A (U × Bool) → World A (U × Bool))
    (returns : (b : Body) (args : A) (w : World A (U × Bool)) → (f b args w).held ≡ w.held) where
  -- Whenever an emission starts a function and whenever the function returns, every slot of the list
  -- that the emission began with is alive, whatever the functions have disconnected, moved or
  -- destroyed. The same holds of its state while it waits for a promise; and when it comes to its
  -- end without a wait, nobody is held any more than before. This is so if each function drops the
  -- references that it takes; `user.1`, which watches the slots, is true at the start.
  pub emit-alive :
      (w : World A (U × Bool)) (k : ℕ) (args : A)
      → w.user.1 ≡ true
      → let copy = slots_of (w.signals k).m_slots in
        Outcome
          (λ v. (v.user.1 ≡ true) × (v.held ≡ w.held))
          (λ v. (v.user.1 ≡ true) × (all_alive v copy ≡ true))
          (emit assertions (watching f copy) w k args)
  unfolding emit hold
  emit-alive w k args good =
      let copy = slots_of (w.signals k).m_slots in
      elim (Bool-cases (w.signals k).m_block) [
        | inl b ↦ simp b (good, refl)
        | inr b ↦ simp b (
            emit_slots-Outcome assertions f returns w copy copy args (hold copy w)
              (record { seen = good; counts = refl }))
      ]
