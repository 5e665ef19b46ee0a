-- ===== src/Tests/Data.antt =====
-- The inputs of the tests: a signal with three slots in two groups, and a world around it.
use modern_signal_slot.Base.{
  ℕ, zero, suc, ℤ, pos, true, false, List, [], ◌∷◌, none, ◌==◌, if◌then◌else◌,
}
use modern_signal_slot.Slot.{Slot, Slots, slot, direct_connection}
use modern_signal_slot.Slot.Pointers.{Callable, functor}
use modern_signal_slot.Signal.{Group}
use modern_signal_slot.TaskQueue.{empty_queue}
use modern_signal_slot.World.{World}

-- A lambda: its pointer is its code's number, as wide as a pointer.
abbrev pub lambda : ℕ → Callable
lambda n = record { kind = functor; size = 8; bits = n; type_id = n; code = n }

abbrev pub slot_at : ℕ → ℤ → ℕ → Slot
slot_at index gid code = record {
  m_index = index;
  m_group = gid;
  m_connected = true;
  m_blocked = false;
  m_type = direct_connection;
  m_unique = false;
  m_queue = none;
  m_singleshot = false;
  m_emitted = false;
  m_cleaner = 0;
  body = slot (lambda code);
}

-- Slots 0 and 1 stand in group 0, slot 2 in group 5. Slot 3 is in no group.
abbrev pub three_slots : Slots
three_slots zero = slot_at 0 (pos 0) 10
three_slots (suc zero) = slot_at 1 (pos 0) 11
three_slots (suc (suc zero)) = slot_at 0 (pos 5) 12
three_slots _ = slot_at 0 (pos 5) 13

abbrev pub two_groups : List Group
two_groups = record { slts = 0 ∷ 1 ∷ []; gid = pos 0 } ∷ record { slts = 2 ∷ []; gid = pos 5 } ∷ []

-- The program's functions note the code of the slot that is called.
abbrev pub world_of : Slots → World ℕ (List ℕ)
world_of σ = record {
  slots = σ;
  allocated = 3;
  signals = λ k.
      if k == 0
      then record { m_slots = two_groups; m_block = false }
      else record { m_slots = []; m_block = false };
  signal_count = 2;
  held = λ a. 0;
  objects = λ o. false;
  observers = λ o. [];
  queues = λ q. empty_queue;
  current = none;
  promises = 0;
  fulfilled = λ p. false;
  user = [];
}

abbrev pub one_signal : World ℕ (List ℕ)
one_signal = world_of three_slots
