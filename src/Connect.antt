-- ===== src/Connect.antt =====
-- core/signal.hpp, the `connect` and `disconnect` overloads of `signal_base`, `slot_count`, its
-- blocking and its destructor. A connection is the weak pointer that it holds: `none` is the empty
-- one that a refused connect returns.
pub mod Unique
pub mod Keep
pub mod Moved
pub mod Valid
pub mod Overloads
pub mod Undo
pub mod Twice
pub mod Race
pub mod Select
use modern_signal_slot.Base.{
  ℕ, suc, ◌+◌, ℤ, Bool, true, false, not, ◌&&◌, List, [], ◌∷◌, ◌++◌, Option, none, some, ◌==◌,
  if◌then◌else◌,
}
use modern_signal_slot.Slot.{
  Slot, Slots, update, Body, slot, slot_extended, slot_pmf, slot_pmf_extended, slot_tracked,
  make_slot, has_flag, unique_connection, has_callable, has_full_callable, has_object,
}
use modern_signal_slot.Slot.Pointers.{Callable, Object, raw, shared}
use modern_signal_slot.Signal.{
  Group, get_slot, add_slot, disconnect_if, disconnect_group, slot_count,
}
use modern_signal_slot.World.{World, SignalBase, set_slot, set_signal}

-- The arguments `type`, `queue` and `gid` of a connect.
pub record Options : Type 0 where
  pub type : ℕ
  pub queue : Option ℕ
  pub gid : ℤ

module _ {A U : Type 0} where
  abbrev pub is_unique : World A U → Option ℕ → Bool
  is_unique w none = false
  is_unique w (some o) = (w.slots o).m_unique

  -- The common course of the overloads: `make_slot` with the body that the slot's own address
  -- gives, the search for an equal slot, and `add_slot`. A refused slot is dropped again.
  pub connect_slot : World A U → ℕ → (Slot → Bool) → (ℕ → Body) → Options → World A U × Option ℕ
  connect_slot w k same body opt =
      let a = w.allocated in
      let fresh = make_slot k (body a) opt.type opt.queue opt.gid in
      let s = record fresh { m_unique = has_flag opt.type unique_connection } in
      let o = get_slot (λ b. same (w.slots b)) (w.signals k).m_slots in
      let (σ, groups) = add_slot (update w.slots a s) (w.signals k).m_slots a in
      if is_unique w o then (w, none) else (
        set_signal (record w { slots = σ; allocated = suc a }) k
            (record (w.signals k) { m_slots = groups }),
        some a,
      )

  -- `connect` of a callable
  pub connect_callable : World A U → ℕ → Callable → Options → World A U × Option ℕ
  unfolding connect_slot
  connect_callable w k c opt = connect_slot w k (has_callable c) (λ _. slot c) opt

  -- The free `connect` of two signals; `wrap` gives the `signal_wrapper` of the second.
  abbrev pub connect_signal : (ℕ → Callable) → World A U → ℕ → ℕ → Options → World A U × Option ℕ
  connect_signal wrap w k j opt = connect_callable w k (wrap j) opt

  -- `connect_extended` of a callable, whose slot gets its own connection
  pub connect_extended_callable : World A U → ℕ → Callable → Options → World A U × Option ℕ
  unfolding connect_slot
  connect_extended_callable w k c opt =
      connect_slot w k (has_callable c) (λ a. slot_extended c (some a)) opt

  -- The conditions that name an object and a callable.
  pub has_both : World A U → Object → Callable → Slot → Bool
  has_both w o c s = has_object w.objects o s && has_callable c s

  -- `connect` of a member function and a pointer that is neither an observer nor trackable
  pub connect_pmf : World A U → ℕ → Object → Callable → Options → World A U × Option ℕ
  unfolding connect_slot has_both
  connect_pmf w k o c opt = connect_slot w k (has_both w o c) (λ _. slot_pmf o c) opt

  -- `observer_base::add_connection`
  pub add_connection : World A U → ℕ → Option ℕ → World A U
  add_connection w o conn = record w {
    observers = λ p. if o == p then w.observers p ++ conn ∷ [] else w.observers p;
  }

  -- `connect` of a member function and a pointer to an observer, which keeps the connection
  pub connect_observer : World A U → ℕ → ℕ → Callable → Options → World A U × Option ℕ
  unfolding connect_slot has_both add_connection
  connect_observer w k o c opt =
      let (w', conn) = connect_slot w k (has_both w (raw o) c) (λ _. slot_pmf (raw o) c) opt in
      elim conn [ none ↦ (w', none) | some a ↦ (add_connection w' o (some a), some a) ]

  -- `disconnect_if`, on a signal
  pub disconnect_where : World A U → ℕ → (Slot → Bool) → World A U × ℕ
  disconnect_where w k cond =
      let (σ, groups, n) = disconnect_if (λ a. cond (w.slots a)) w.slots (w.signals k).m_slots in
      (set_signal (record w { slots = σ }) k (record (w.signals k) { m_slots = groups }), n)

  -- The overloads of `disconnect`
  pub disconnect_callable : World A U → ℕ → Bool → Callable → World A U × ℕ
  unfolding disconnect_where
  disconnect_callable w k has_rtti c = disconnect_where w k (has_full_callable has_rtti c)

  pub disconnect_object : World A U → ℕ → Object → World A U × ℕ
  unfolding disconnect_where
  disconnect_object w k o = disconnect_where w k (has_object w.objects o)

  pub disconnect_both : World A U → ℕ → Object → Callable → World A U × ℕ
  unfolding disconnect_where has_both
  disconnect_both w k o c = disconnect_where w k (has_both w o c)

  pub disconnect_gid : World A U → ℕ → ℤ → World A U × ℕ
  disconnect_gid w k gid =
      let (groups, n) = disconnect_group gid (w.signals k).m_slots in
      (set_signal w k (record (w.signals k) { m_slots = groups }), n)

  -- `disconnect_all`, which the destructor calls, with `clear`
  pub disconnect_all : World A U → ℕ → World A U
  disconnect_all w k = set_signal w k (record (w.signals k) { m_slots = [] })

  pub block_signal : World A U → ℕ → World A U
  block_signal w k = set_signal w k (record (w.signals k) { m_block = true })

  pub unblock_signal : World A U → ℕ → World A U
  unblock_signal w k = set_signal w k (record (w.signals k) { m_block = false })

  unfoldable pub signal_blocked : World A U → ℕ → Bool
  signal_blocked w k = (w.signals k).m_block

  unfoldable pub signal_slot_count : World A U → ℕ → ℕ
  signal_slot_count w k = slot_count (w.signals k).m_slots

  -- The move constructor, into a signal `j` that is new, and the move assignment.
  pub move_construct : World A U → ℕ → ℕ → World A U
  move_construct w j k =
      let old = w.signals k in
      set_signal (set_signal w j (record { m_slots = old.m_slots; m_block = old.m_block })) k
        (record old { m_slots = [] })

  pub move_assign : World A U → ℕ → ℕ → World A U
  move_assign w j k = set_signal (set_signal w j (w.signals k)) k (w.signals j)
