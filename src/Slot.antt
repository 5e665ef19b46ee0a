-- ===== src/Slot.antt =====
-- core/signal.hpp, `slot_state`, `slot_base` and the data of the slot classes. A slot is an
-- entry of a store, and a pointer to it is its address there.
pub mod Pointers
use modern_signal_slot.Base.{
  ℕ, ◌-◌, ◌*◌, ◌/◌, ◌%◌, ℤ, Bool, true, false, not, ◌&&◌, Option, none, some, ◌==◌, if◌then◌else◌,
}
use Pointers.{
  Kind, Callable, FuncPtr, Object, empty_ptr, get_function_ptr, eq_function_ptr, get_object_ptr,
  must_check_object, free,
}

-- `connection_type`
abbrev pub auto_connection : ℕ
auto_connection = 0

abbrev pub direct_connection : ℕ
direct_connection = 1

abbrev pub queued_connection : ℕ
queued_connection = 2

abbrev pub blocking_queued_connection : ℕ
blocking_queued_connection = 3

abbrev pub unique_connection : ℕ
unique_connection = 0x80

abbrev pub singleshot_connection : ℕ
singleshot_connection = 0x100

-- `type & flag` as a condition, and `type & ~flag`, for a flag of one bit.
abbrev pub has_flag : ℕ → ℕ → Bool
has_flag type flag = type / flag % 2 == 1

abbrev pub clear_flag : ℕ → ℕ → ℕ
clear_flag type flag = type - flag * (type / flag % 2)

-- The members of the slot classes: `slot`, `slot_extended`, `slot_pmf`, `slot_pmf_extended`,
-- `slot_tracked`. The extended ones hold a connection, a weak pointer to a slot, which is empty until
-- `connect_extended` sets it. No slot is of the class `slot_pmf_tracked`, whose `call_slot` names a
-- member that it does not have and so does not compile.
pub data Body : Type 0 where
  slot : Callable → Body
  slot_extended : Callable → Option ℕ → Body
  slot_pmf : Object → Callable → Body
  slot_pmf_extended : Object → Callable → Option ℕ → Body
  slot_tracked : Option ℕ → Callable → Body

-- `m_cleaner`, the signal that made the slot, is a number.
pub record Slot : Type 0 where
  pub m_index : ℕ
  pub m_group : ℤ
  pub m_connected : Bool
  pub m_blocked : Bool
  pub m_type : ℕ
  pub m_unique : Bool
  pub m_queue : Option ℕ
  pub m_singleshot : Bool
  pub m_emitted : Bool
  pub m_cleaner : ℕ
  pub body : Body

-- The constructors of `slot_state` and `slot_base`.
unfoldable pub make_slot : ℕ → Body → ℕ → Option ℕ → ℤ → Slot
make_slot cleaner body type queue gid = record {
  m_index = 0;
  m_group = gid;
  m_connected = true;
  m_blocked = false;
  m_type = clear_flag (clear_flag type unique_connection) singleshot_connection;
  m_unique = false;
  m_queue = queue;
  m_singleshot = has_flag type singleshot_connection;
  m_emitted = false;
  m_cleaner = cleaner;
  body = body;
}

-- The slots, by address.
abbrev pub Slots : Type 0
Slots = ℕ → Slot

abbrev pub update : Slots → ℕ → Slot → Slots
update σ a s b = if a == b then s else σ b

-- `slt->index() = i`
abbrev pub set_index : Slots → ℕ → ℕ → Slots
set_index σ a i = update σ a (record (σ a) { m_index = i })

pub get_callable : Body → FuncPtr
unfolding get_function_ptr
get_callable (slot c) = get_function_ptr c
get_callable (slot_extended c _) = get_function_ptr c
get_callable (slot_pmf _ c) = get_function_ptr c
get_callable (slot_pmf_extended _ c _) = get_function_ptr c
get_callable (slot_tracked _ c) = get_function_ptr c

pub get_callable_type : Body → ℕ
get_callable_type (slot c) = c.type_id
get_callable_type (slot_extended c _) = c.type_id
get_callable_type (slot_pmf _ c) = c.type_id
get_callable_type (slot_pmf_extended _ c _) = c.type_id
get_callable_type (slot_tracked _ c) = c.type_id

-- The null pointer unless the class stores an object.
pub get_object : (ℕ → Bool) → Body → ℕ
unfolding get_object_ptr
get_object alive (slot _) = 0
get_object alive (slot_extended _ _) = 0
get_object alive (slot_pmf o _) = get_object_ptr alive o
get_object alive (slot_pmf_extended o _ _) = get_object_ptr alive o
get_object alive (slot_tracked w _) = get_object_ptr alive (Object.weak w)

unfoldable pub has_callable : Callable → Slot → Bool
unfolding eq_function_ptr get_callable
has_callable c s = eq_function_ptr c (get_callable s.body)

-- With run-time type information, which `has_rtti` tells.
check_class_type : Bool → Callable → Slot → Bool
unfolding get_callable_type
check_class_type has_rtti c s = has_rtti && c.type_id == get_callable_type s.body

unfoldable pub has_full_callable : Bool → Callable → Slot → Bool
unfolding has_callable check_class_type
has_full_callable has_rtti c s =
    if must_check_object c.kind
    then has_callable c s && check_class_type has_rtti c s
    else has_callable c s

unfoldable pub has_object : (ℕ → Bool) → Object → Slot → Bool
unfolding get_object get_object_ptr
has_object alive o s = get_object alive s.body == get_object_ptr alive o
