-- ===== src/Connect/Overloads.antt =====
-- The overloads of `connect` and `disconnect` keep the shared state valid.
use modern_signal_slot.Base.{ℕ, Bool, some}
use modern_signal_slot.Slot.{
  slot, slot_extended, slot_pmf, has_callable, has_full_callable, has_object,
}
use modern_signal_slot.Slot.Pointers.{Callable, Object}
use modern_signal_slot.World.{World}
use modern_signal_slot.World.Valid.{IsValid}
use modern_signal_slot.Connect.{
  Options, has_both, connect_callable, connect_extended_callable, connect_pmf, disconnect_callable,
  disconnect_object, disconnect_both,
}
use modern_signal_slot.Connect.Valid.{connect_slot-IsValid, disconnect_where-IsValid}

module _ {A U : Type 0} (w : World A U) (k : ℕ) (ok : IsValid w) where
  pub connect_callable-IsValid :
      (c : Callable) (opt : Options) → IsValid (connect_callable w k c opt).0
  unfolding connect_callable
  connect_callable-IsValid c opt = connect_slot-IsValid w k (has_callable c) (λ _. slot c) opt ok

  pub connect_extended_callable-IsValid :
      (c : Callable) (opt : Options) → IsValid (connect_extended_callable w k c opt).0
  unfolding connect_extended_callable
  connect_extended_callable-IsValid c opt =
      connect_slot-IsValid w k (has_callable c) (λ a. slot_extended c (some a)) opt ok

  pub connect_pmf-IsValid :
      (o : Object) (c : Callable) (opt : Options) → IsValid (connect_pmf w k o c opt).0
  unfolding connect_pmf
  connect_pmf-IsValid o c opt = connect_slot-IsValid w k (has_both w o c) (λ _. slot_pmf o c) opt ok

  pub disconnect_callable-IsValid :
      (has_rtti : Bool) (c : Callable) → IsValid (disconnect_callable w k has_rtti c).0
  unfolding disconnect_callable
  disconnect_callable-IsValid has_rtti c =
      disconnect_where-IsValid w k (has_full_callable has_rtti c) ok

  pub disconnect_object-IsValid : (o : Object) → IsValid (disconnect_object w k o).0
  unfolding disconnect_object
  disconnect_object-IsValid o = disconnect_where-IsValid w k (has_object w.objects o) ok

  pub disconnect_both-IsValid : (o : Object) (c : Callable) → IsValid (disconnect_both w k o c).0
  unfolding disconnect_both
  disconnect_both-IsValid o c = disconnect_where-IsValid w k (has_both w o c) ok
