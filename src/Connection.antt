-- ===== src/Connection.antt =====
-- core/signal.hpp, `connection`, `connection_blocker`, `scoped_connection` and `observer_base`. A
-- connection is the weak pointer to its slot.
pub mod Laws
pub mod Observer
pub mod Valid
use modern_signal_slot.Base.{
  is_some, ℕ, Bool, true, false, ◌&&◌, List, [], ◌∷◌, Option, none, some, ◌==◌, if◌then◌else◌,
}
use modern_signal_slot.World.{
  World, lock_slot, slot_connected, disconnect_slot, block_slot, unblock_slot,
}

module _ {A U : Type 0} where
  unfoldable pub valid : World A U → Option ℕ → Bool
  valid w conn = is_some (lock_slot w conn)

  pub connected : World A U → Option ℕ → Bool
  connected w conn = elim (lock_slot w conn) [ none ↦ false | some a ↦ slot_connected w a ]

  pub disconnect : World A U → Option ℕ → World A U × Bool
  disconnect w conn = elim (lock_slot w conn) [ none ↦ (w, false) | some a ↦ disconnect_slot w a ]

  unfoldable pub blocked : World A U → Option ℕ → Bool
  blocked w conn = elim (lock_slot w conn) [ none ↦ false | some a ↦ (w.slots a).m_blocked ]

  unfoldable pub block : World A U → Option ℕ → World A U
  block w conn = elim (lock_slot w conn) [ none ↦ w | some a ↦ block_slot w a ]

  pub unblock : World A U → Option ℕ → World A U
  unblock w conn = elim (lock_slot w conn) [ none ↦ w | some a ↦ unblock_slot w a ]

  -- `connection_blocker`: the constructor, which `blocker` calls, `release`, which the destructor
  -- calls, and the move assignment, which gives both blockers.
  unfoldable pub blocker : World A U → Option ℕ → World A U × Option ℕ
  unfolding block
  blocker w conn = (block w conn, conn)

  pub release_blocker : World A U → Option ℕ → World A U
  unfolding unblock
  release_blocker w b = unblock w b

  unfoldable pub assign_blocker : World A U → Option ℕ → Option ℕ → World A U × Option ℕ × Option ℕ
  unfolding release_blocker
  assign_blocker w b other = (release_blocker w b, other, b)

  -- `scoped_connection`: the destructor, and the move assignment.
  pub end_scope : World A U → Option ℕ → World A U
  unfolding disconnect
  end_scope w conn = (disconnect w conn).0

  unfoldable pub assign_scoped : World A U → Option ℕ → Option ℕ → World A U × Option ℕ × Option ℕ
  unfolding end_scope
  assign_scoped w conn other = (end_scope w conn, other, conn)

  -- `observer_base::disconnect_all`: `clear` ends the scopes of the connections.
  pub end_scopes : World A U → List (Option ℕ) → World A U
  end_scopes w [] = w
  end_scopes w (c ∷ cs) = end_scopes (end_scope w c) cs

  pub disconnect_observer : World A U → ℕ → World A U
  unfolding end_scopes
  disconnect_observer w o =
      end_scopes (record w { observers = λ p. if o == p then [] else w.observers p })
        (w.observers o)
