-- ===== src/Slot/Pointers.antt =====
-- core/signal.hpp, `func_ptr`, `function_traits` and `object_pointer`: how a stored callable or
-- object is compared with another one. The size and the bytes of a stored pointer are data of the
-- callable, since the compiler's ABI chooses them.
use modern_signal_slot.Base.{ℕ, Bool, true, false, Option, none, some, ◌==◌, if◌then◌else◌}

-- The cases of `function_traits`: a function or a pointer to one, a pointer to a member function,
-- an object with one call operator, and everything else.
pub data Kind : Type 0 where
  free member functor generic : Kind

-- What a callable shows of itself: the pointer that `function_traits::ptr` stores for it, as a
-- size and a number, and its `std::type_info`. `code` tells the user's functions apart.
pub record Callable : Type 0 where
  pub kind : Kind
  pub size : ℕ
  pub bits : ℕ
  pub type_id : ℕ
  pub code : ℕ

pub record FuncPtr : Type 0 where
  pub bytes : ℕ
  pub sz : ℕ

-- A `func_ptr` as its constructor leaves it.
abbrev pub empty_ptr : FuncPtr
empty_ptr = record { bytes = 0; sz = 0 }

pub store : Callable → FuncPtr
store c = record { bytes = c.bits; sz = c.size }

-- `as`: the stored pointer, read as one of the given size.
pub read_as : ℕ → FuncPtr → Option ℕ
read_as size d = if size == d.sz then some d.bytes else none

function_traits_ptr : Kind → Callable → FuncPtr
unfolding store
function_traits_ptr generic c = empty_ptr
function_traits_ptr _ c = store c

unfoldable pub get_function_ptr : Callable → FuncPtr
unfolding function_traits_ptr
get_function_ptr c = function_traits_ptr c.kind c

function_traits_eq : Kind → Callable → FuncPtr → Bool
unfolding read_as
function_traits_eq generic c d = false
function_traits_eq _ c d = elim (read_as c.size d) [ none ↦ false | some r ↦ r == c.bits ]

unfoldable pub eq_function_ptr : Callable → FuncPtr → Bool
unfolding function_traits_eq
eq_function_ptr c d = function_traits_eq c.kind c d

-- Whether `disconnect` must compare the types as well.
abbrev pub must_check_object : Kind → Bool
must_check_object free = false
must_check_object _ = true

-- What a program hands over to name an object: a raw pointer (0 is null), a weak or a shared
-- pointer to a tracked object (`none` is an empty one), or something that is no pointer.
pub data Object : Type 0 where
  raw : ℕ → Object
  weak : Option ℕ → Object
  shared : Option ℕ → Object
  other : Object

address : Option ℕ → ℕ
address none = 0
address (some a) = a

-- `t.lock()`, over the tracked objects that are alive.
abbrev pub lock_object : (ℕ → Bool) → Option ℕ → Option ℕ
lock_object alive none = none
lock_object alive (some a) = if alive a then some a else none

unfoldable pub get_object_ptr : (ℕ → Bool) → Object → ℕ
unfolding address
get_object_ptr alive (raw a) = a
get_object_ptr alive (weak w) = address (lock_object alive w)
get_object_ptr alive (shared s) = address s
get_object_ptr alive other = 0
