-- ===== src/Connection/Observer.antt =====
-- The end of an observer, `observer_base::disconnect_all`.
use modern_signal_slot.Base.{
  ℕ, zero, suc, ◌≡◌, refl, ap, ◌∙◌, Bool, true, false, List, [], ◌∷◌, Option, none, some, arith,
  ◌==◌, ==-refl, if◌then◌else◌, Bool-cases, ◌⊎◌, inl, inr, elem, get_elem?,
}
use modern_signal_slot.Signal.Frame.{clean-Inside}
use modern_signal_slot.World.{
  World, alive, any_below, clean_slot, disconnect_slot, lock_slot, set_slot,
}
use modern_signal_slot.World.Disconnect.{disconnect_slot_off, clean_slot-plain}
use modern_signal_slot.World.Valid.{listed}
use modern_signal_slot.Connection.{
  connected, disconnect, end_scope, end_scopes, disconnect_observer,
}
use modern_signal_slot.Connection.Laws.{
  disconnect-off, disconnect_there, disconnect_gone, connected_gone,
}

any_below-fewer :
    (n : ℕ) (p q : ℕ → Bool)
    → ((k : ℕ) → p k ≡ true → q k ≡ true)
    → any_below n q ≡ false
    → any_below n p ≡ false
any_below-fewer zero p q h e = refl
any_below-fewer (suc n) p q h e = ground (arith, h n, any_below-fewer n p q h)

module _ {A U : Type 0} where
  -- The slot is not connected, or gone.
  abbrev Off : World A U → ℕ → Type 0
  Off w a = ((w.slots a).m_connected ≡ false) ⊎ (alive w a ≡ false)

  clean_slot-fewer :
      (w : World A U) (b k a : ℕ)
      → elem a (listed (clean_slot w b) k) ≡ true
      → elem a (listed w k) ≡ true
  unfolding clean_slot
  clean_slot-fewer w b k a h =
      ground (arith, (clean-Inside w.slots (w.signals (w.slots b).m_cleaner).m_slots b).fewer a)

  clean_slot-beside :
      (w : World A U) (b : ℕ)
      → ((clean_slot w b).held ≡ w.held) × ((clean_slot w b).signal_count ≡ w.signal_count)
  unfolding clean_slot
  clean_slot-beside w b = (refl, refl)

  alive-fewer :
      (w v : World A U) (a : ℕ)
      → v.held ≡ w.held
      → v.signal_count ≡ w.signal_count
      → ((k : ℕ) → elem a (listed v k) ≡ true → elem a (listed w k) ≡ true)
      → alive w a ≡ false
      → alive v a ≡ false
  unfolding alive
  alive-fewer w v a held count fewer e =
      rw (held, count)
        (ground (
          arith,
          any_below-fewer w.signal_count (λ k. elem a (listed v k)) (λ k. elem a (listed w k))
              fewer,
        ))

  disconnect_slot-gone :
      (w : World A U) (b a : ℕ) → alive w a ≡ false → alive (disconnect_slot w b).0 a ≡ false
  unfolding disconnect_slot
  disconnect_slot-gone w b a e =
      let w' = set_slot w b (record (w.slots b) { m_connected = false }) in
      let same : alive w' a ≡ false = alive-fewer w w' a refl refl (λ k h. h) e in
      elim (Bool-cases (w.slots b).m_connected) [
        | inl on ↦
            let (held, count) = clean_slot-beside w' b in
            simp on
              (alive-fewer w' (clean_slot w' b) a held count (λ k. clean_slot-fewer w' b k a) same)
        | inr off ↦ simp off same
      ]

  disconnect_slot-stays :
      (w : World A U) (b a : ℕ)
      → (w.slots a).m_connected ≡ false
      → ((disconnect_slot w b).0.slots a).m_connected ≡ false
  unfolding disconnect_slot
  disconnect_slot-stays w b a e =
      let w' = set_slot w b (record (w.slots b) { m_connected = false }) in
      let same : (w'.slots a).m_connected ≡ false = ground arith in
      elim (Bool-cases (w.slots b).m_connected) [
        | inl on ↦ simp on (ap (λ s. s.m_connected) (clean_slot-plain w' b a) ∙ same)
        | inr off ↦ simp off same
      ]

  -- The scope of a connection whose slot is there, or gone.
  end_scope_there :
      (w : World A U) (b : ℕ) → alive w b ≡ true → end_scope w (some b) ≡ (disconnect_slot w b).0
  unfolding end_scope
  end_scope_there w b there = ap (λ p. p.0) (disconnect_there w b there)

  end_scope_gone : (w : World A U) (b : ℕ) → alive w b ≡ false → end_scope w (some b) ≡ w
  unfolding end_scope
  end_scope_gone w b gone = ap (λ p. p.0) (disconnect_gone w b gone)

  end_scope-none : (w : World A U) → end_scope w none ≡ w
  unfolding end_scope disconnect lock_slot
  end_scope-none w = refl

  end_scope-Off : (w : World A U) (conn : Option ℕ) (a : ℕ) → Off w a → Off (end_scope w conn) a
  end_scope-Off w none a off = rw (end_scope-none w) off
  end_scope-Off w (some b) a off = elim (Bool-cases (alive w b)) [
    | inl there ↦ rw (end_scope_there w b there) (elim off [
      | inl e ↦ inl (disconnect_slot-stays w b a e)
      | inr e ↦ inr (disconnect_slot-gone w b a e)
    ])
    | inr gone ↦ rw (end_scope_gone w b gone) off
  ]

  end_scope-own : (w : World A U) (a : ℕ) → Off (end_scope w (some a)) a
  end_scope-own w a = elim (Bool-cases (alive w a)) [
    | inl there ↦ rw (end_scope_there w a there) (inl (disconnect_slot_off w a))
    | inr gone ↦ rw (end_scope_gone w a gone) (inr gone)
  ]

  disconnect_slot-observers :
      (w : World A U) (b : ℕ) → (disconnect_slot w b).0.observers ≡ w.observers
  unfolding disconnect_slot clean_slot
  disconnect_slot-observers w b = ground arith

  end_scope-observers :
      (w : World A U) (conn : Option ℕ) → (end_scope w conn).observers ≡ w.observers
  end_scope-observers w none = rw (end_scope-none w) refl
  end_scope-observers w (some b) = elim (Bool-cases (alive w b)) [
    | inl there ↦ rw (end_scope_there w b there) (disconnect_slot-observers w b)
    | inr gone ↦ rw (end_scope_gone w b gone) refl
  ]

  end_scopes-observers :
      (cs : List (Option ℕ)) (w : World A U) → (end_scopes w cs).observers ≡ w.observers
  unfolding end_scopes
  end_scopes-observers [] w = refl
  end_scopes-observers (c ∷ cs) w =
      end_scopes-observers cs (end_scope w c) ∙ end_scope-observers w c

  end_scopes-Off :
      (cs : List (Option ℕ)) (w : World A U) (a : ℕ) → Off w a → Off (end_scopes w cs) a
  unfolding end_scopes
  end_scopes-Off [] w a off = off
  end_scopes-Off (c ∷ cs) w a off = end_scopes-Off cs (end_scope w c) a (end_scope-Off w c a off)

  end_scopes-own :
      (cs : List (Option ℕ)) (w : World A U) (i a : ℕ)
      → get_elem? cs i ≡ some (some a)
      → Off (end_scopes w cs) a
  unfolding end_scopes
  end_scopes-own [] w i a h = cc
  end_scopes-own (c ∷ cs) w zero a h =
      let e : c ≡ some a = cc in
      rw e (end_scopes-Off cs (end_scope w (some a)) a (end_scope-own w a))
  end_scopes-own (c ∷ cs) w (suc i) a h = end_scopes-own cs (end_scope w c) i a h

  Off-connected : (w : World A U) (a : ℕ) → Off w a → connected w (some a) ≡ false
  Off-connected w a (inl e) = (disconnect-off w a e).0
  Off-connected w a (inr e) = connected_gone w a e

  -- When an observer ends, each of the connections that it kept is off: none reports that it is
  -- connected, whatever slots the other connections are of, also twice the same. And the observer
  -- keeps none any more.
  pub disconnect_observer_lem :
      (w : World A U) (o i a : ℕ)
      → get_elem? (w.observers o) i ≡ some (some a)
      → let v = disconnect_observer w o in (connected v (some a) ≡ false) × (v.observers o ≡ [])
  unfolding disconnect_observer
  disconnect_observer_lem w o i a h =
      let w' = record w { observers = λ p. if o == p then [] else w.observers p } in
      (
        Off-connected _ a (end_scopes-own (w.observers o) w' i a h),
        ap (λ f. f o) (end_scopes-observers (w.observers o) w') ∙ rw (==-refl o) refl,
      )
