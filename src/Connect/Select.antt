-- ===== src/Connect/Select.antt =====
-- core/signal.hpp, the traits of `sigslot::trait` and the `enable_if` conditions of the overloads of
-- `signal_base::connect`, by which the compiler selects one for the arguments that a program writes.
use modern_signal_slot.Base.{
  ℕ, ◌≡◌, refl, ℤ, pos, Bool, true, false, not, ◌&&◌, List, [], ◌∷◌, ◌++◌, Option, none, some,
  if◌then◌else◌,
}
use modern_signal_slot.Slot.{direct_connection}
use modern_signal_slot.Slot.Pointers.{Callable, raw}
use modern_signal_slot.World.{World}
use modern_signal_slot.Connect.{Options, connect_callable, connect_pmf, connect_observer}

-- What a program may write as an argument of `connect`: something that can be called with the
-- signal's arguments, a pointer to a member function of the object's class that can, a raw pointer
-- to an object, one to an observer, a shared or weak pointer, a connection type, a queue, a group.
pub data Arg : Type 0 where
  callee member : Callable → Arg
  object observer : ℕ → Arg
  shared_object weak_object : Option ℕ → Arg
  type_arg : ℕ → Arg
  queue_arg : Option ℕ → Arg
  gid_arg : ℤ → Arg

-- `is_callable_v<arg_list, F>`
abbrev pub is_callable : Arg → Bool
is_callable (callee c) = true
is_callable _ = false

-- What `operator*` of `is_callable` needs of the object's argument.
abbrev dereferences : Arg → Bool
dereferences (object o) = true
dereferences (observer o) = true
dereferences (shared_object o) = true
dereferences _ = false

abbrev is_pmf : Arg → Bool
is_pmf (member c) = true
is_pmf _ = false

-- `is_callable_v<arg_list, Ptr, Pmf>`
abbrev pub is_callable_on : Arg → Arg → Bool
is_callable_on ptr pmf = dereferences ptr && is_pmf pmf

-- `is_observer_v`
abbrev pub is_observer : Arg → Bool
is_observer (observer o) = true
is_observer _ = false

-- `is_weak_ptr_compatible_v`
abbrev pub is_weak_ptr_compatible : Arg → Bool
is_weak_ptr_compatible (shared_object o) = true
is_weak_ptr_compatible (weak_object o) = true
is_weak_ptr_compatible _ = false

-- The overloads that take an object first.
pub data Overload : Type 0 where
  with_observer with_pmf with_tracked_pmf with_tracked : Overload

-- The conditions of the overloads for an observer, for another raw pointer, and for a tracked object
-- with a member function and with a callable.
abbrev pub enabled_observer : Arg → Arg → Bool
enabled_observer ptr pmf = is_callable_on ptr pmf && is_observer ptr

abbrev pub enabled_pmf : Arg → Arg → Bool
enabled_pmf ptr pmf =
    is_callable_on ptr pmf && (not (is_observer ptr) && not (is_weak_ptr_compatible ptr))

abbrev pub enabled_tracked_pmf : Arg → Arg → Bool
enabled_tracked_pmf ptr pmf = not (is_callable pmf) && is_weak_ptr_compatible ptr

abbrev pub enabled_tracked : Arg → Arg → Bool
enabled_tracked ptr c = is_callable c && is_weak_ptr_compatible ptr

abbrev enabled : Overload → Arg → Arg → Bool
enabled with_observer x y = enabled_observer x y
enabled with_pmf x y = enabled_pmf x y
enabled with_tracked_pmf x y = enabled_tracked_pmf x y
enabled with_tracked x y = enabled_tracked x y

abbrev when_enabled : Overload → Arg → Arg → List Overload
when_enabled o x y = if enabled o x y then o ∷ [] else []

-- The overloads that two arguments leave to choose from.
unfoldable pub viable : Arg → Arg → List Overload
viable x y =
    when_enabled with_observer x y
    ++ (when_enabled with_pmf x y
        ++ (when_enabled with_tracked_pmf x y ++ when_enabled with_tracked x y))

-- The arguments behind the slot, with their defaults.
unfoldable pub options_of : List Arg → Option Options
options_of [] = some (record { type = direct_connection; queue = none; gid = pos 0 })
options_of (type_arg t ∷ []) = some (record { type = t; queue = none; gid = pos 0 })
options_of (type_arg t ∷ queue_arg q ∷ []) = some (record { type = t; queue = q; gid = pos 0 })
options_of (type_arg t ∷ queue_arg q ∷ gid_arg g ∷ []) =
    some (record { type = t; queue = q; gid = g })
options_of _ = none

module _ {A U : Type 0} where
  -- The body of the overload that was selected. The two tracking overloads do not compile: they name
  -- the slot class with its template arguments in the wrong order.
  unfoldable pub call_overload :
      World A U → ℕ → Overload → Arg → Arg → Options → Option (World A U × Option ℕ)
  call_overload w k with_observer (observer o) (member c) opt = some (connect_observer w k o c opt)
  call_overload w k with_pmf (object o) (member c) opt = some (connect_pmf w k (raw o) c opt)
  call_overload w k _ _ _ opt = none

  -- A selection fails if no overload is viable, or more than one.
  unfoldable pub select :
      World A U → ℕ → List Overload → Arg → Arg → Options → Option (World A U × Option ℕ)
  unfolding call_overload
  select w k (o ∷ []) x y opt = call_overload w k o x y opt
  select w k _ x y opt = none

  -- `connect`, as the compiler resolves it. `none` does not compile.
  unfoldable pub connect_args : World A U → ℕ → List Arg → Option (World A U × Option ℕ)
  unfolding select viable options_of
  connect_args w k [] = none
  connect_args w k (callee c ∷ rest) = elim (options_of rest) [
    | none ↦ none
    | some opt ↦ some (connect_callable w k c opt)
  ]
  connect_args w k (x ∷ []) = none
  connect_args w k (x ∷ y ∷ rest) = elim (options_of rest) [
    | none ↦ none
    | some opt ↦ select w k (viable x y) x y opt
  ]

-- The free `connect` of a signal and anything but a signal.
abbrev pub connect_free : {A U : Type 0} → World A U → ℕ → List Arg → Option (World A U × Option ℕ)
connect_free w k args = connect_args w k args

module _ {A U : Type 0} (w : World A U) (k : ℕ) (c : Callable) (opt : Options) where
  -- What the compiler selects for each kind of object, with the options that the arguments behind
  -- give: the observer overload for an observer and the plain one for another raw pointer. A shared
  -- or weak pointer selects a tracking overload, which does not compile.
  pub connect_args-overload :
      (rest : List Arg) (o : ℕ) (t : Option ℕ)
      → options_of rest ≡ some opt
      → (connect_args w k (callee c ∷ rest) ≡ some (connect_callable w k c opt))
        × (connect_args w k (observer o ∷ member c ∷ rest) ≡ some (connect_observer w k o c opt))
        × (connect_args w k (object o ∷ member c ∷ rest) ≡ some (connect_pmf w k (raw o) c opt))
        × (connect_args w k (shared_object t ∷ member c ∷ rest) ≡ none)
        × (connect_args w k (weak_object t ∷ callee c ∷ rest) ≡ none)
        × (connect_args w k (object o ∷ callee c ∷ rest) ≡ none)
  unfolding connect_args select viable call_overload
  connect_args-overload rest o t e = rw (e, connect_args) (refl, refl, refl, refl, refl, refl)
