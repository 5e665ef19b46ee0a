-- ===== src/Tests/Connects.antt =====
-- Connecting to and disconnecting from a signal with three slots.
use modern_signal_slot.Base.{
  if◌then◌else◌, ◌+◌, ℕ, pos, ◌==ℤ◌, ◌≡◌, refl, true, Bool, List, [], ◌∷◌, ◌&&◌, none, some, arith,
  ◌==◌,
}
use modern_signal_slot.Slot.{Slot, Body, slot, update, unique_connection, direct_connection}
use modern_signal_slot.World.{disconnect_slot, World}
use modern_signal_slot.Connect.{Options, connect_slot, move_construct}
use modern_signal_slot.Connect.Moved.{move_construct-disconnect_slot}
use modern_signal_slot.Connect.Unique.{connect_slot-refused}
use modern_signal_slot.Connect.Select.{member, object, type_arg, connect_args}
use modern_signal_slot.SignalSlotApi.{connect_with, connect_text-connect_args}
use modern_signal_slot.Tests.Data.{two_groups, three_slots, lambda, one_signal, world_of}

-- The test that a connect's search makes: it holds for slot 1.
abbrev is_second : Slot → Bool
is_second s = s.m_group ==ℤ pos 0 && s.m_index == 1

abbrev unique : Options
unique = record { type = unique_connection; queue = none; gid = pos 5 }

abbrev new_body : ℕ → Body
new_body a = slot (lambda 11)

accepted : (connect_slot one_signal 0 is_second new_body unique).1 ≡ some 3
accepted = (connect_slot-refused one_signal 0 is_second new_body unique).0

-- Slot 1 is a unique one.
abbrev one_unique : World ℕ (List ℕ)
one_unique = world_of (update three_slots 1 (record (three_slots 1) { m_unique = true }))

connect_slot-refused_example :
    let (v, conn) = connect_slot one_unique 0 is_second new_body unique in
    (conn ≡ none) × (v ≡ one_unique)
connect_slot-refused_example = connect_slot-refused one_unique 0 is_second new_body unique

move_construct-disconnect_slot_example :
    let (v, was) = disconnect_slot (move_construct one_signal 1 0) 0 in
    (v.signals 1).m_slots ≡ two_groups
move_construct-disconnect_slot_example =
    move_construct-disconnect_slot one_signal 1 0 0 (λ e. ground arith) refl

abbrev direct : Options
direct = record { type = direct_connection; queue = none; gid = pos 0 }

-- A receiver, its member function and a type, but no queue.
-- The signals of sender 7 have their own numbers, those of the others come behind.
abbrev signal_of_sender : ℕ → ℕ → ℕ
signal_of_sender s g = if s == 7 then g else s + g

connect_text-connect_args_example :
    connect_with signal_of_sender one_signal 7 0 (object 4 ∷ member (lambda 20) ∷ type_arg 0 ∷ [])
    ≡ connect_args one_signal 0 (object 4 ∷ member (lambda 20) ∷ type_arg 0 ∷ [])
connect_text-connect_args_example =
    connect_text-connect_args signal_of_sender one_signal 7 0
      (object 4 ∷ member (lambda 20) ∷ type_arg 0 ∷ []) (omega arith) (omega arith) refl
