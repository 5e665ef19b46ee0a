-- ===== src/Connection/Valid.antt =====
-- Connections, blockers and observers keep the shared state valid.
use modern_signal_slot.Base.{
  ℕ, refl, List, [], ◌∷◌, Option, Option-cases, inl, inr, ◌==◌, if◌then◌else◌,
}
use modern_signal_slot.World.{World, lock_slot}
use modern_signal_slot.World.Valid.{
  IsValid, same_lists-IsValid, block_slot-IsValid, unblock_slot-IsValid, disconnect_slot-IsValid,
}
use modern_signal_slot.Connection.{
  disconnect, block, unblock, end_scope, end_scopes, disconnect_observer,
}

module _ {A U : Type 0} where
  pub disconnect-IsValid :
      (w : World A U) (conn : Option ℕ) → IsValid w → IsValid (disconnect w conn).0
  unfolding disconnect
  disconnect-IsValid w conn ok = elim (Option-cases (lock_slot w conn)) [
    | inl e ↦ rw (disconnect, e) ok
    | inr (a, e) ↦ rw (disconnect, e) (disconnect_slot-IsValid w a ok)
  ]

  pub block-IsValid : (w : World A U) (conn : Option ℕ) → IsValid w → IsValid (block w conn)
  unfolding block
  block-IsValid w conn ok = elim (Option-cases (lock_slot w conn)) [
    | inl e ↦ rw (block, e) ok
    | inr (a, e) ↦ rw (block, e) (block_slot-IsValid w a ok)
  ]

  pub unblock-IsValid : (w : World A U) (conn : Option ℕ) → IsValid w → IsValid (unblock w conn)
  unfolding unblock
  unblock-IsValid w conn ok = elim (Option-cases (lock_slot w conn)) [
    | inl e ↦ rw (unblock, e) ok
    | inr (a, e) ↦ rw (unblock, e) (unblock_slot-IsValid w a ok)
  ]

  end_scopes-IsValid :
      (w : World A U) (cs : List (Option ℕ)) → IsValid w → IsValid (end_scopes w cs)
  unfolding end_scopes end_scope
  end_scopes-IsValid w [] ok = ok
  end_scopes-IsValid w (c ∷ cs) ok =
      end_scopes-IsValid (disconnect w c).0 cs (disconnect-IsValid w c ok)

  pub disconnect_observer-IsValid :
      (w : World A U) (o : ℕ) → IsValid w → IsValid (disconnect_observer w o)
  unfolding disconnect_observer
  disconnect_observer-IsValid w o ok =
      let w' = record w { observers = λ p. if o == p then [] else w.observers p } in
      end_scopes-IsValid w' (w.observers o)
        (same_lists-IsValid w w' (λ k. refl) (λ b. record { index = refl; group = refl }) refl ok)
