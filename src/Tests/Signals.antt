-- ===== src/Tests/Signals.antt =====
-- The slot list of a signal on two groups of three slots.
use modern_signal_slot.Base.{
  List, ℕ, zero, suc, pos, ◌≡◌, ◌≢◌, refl, [], ◌∷◌, Perm, some, arith, ltb, get_elem?,
}
use modern_signal_slot.Signal.{clean, disconnect_if}
use modern_signal_slot.Signal.WellFormed.{Indexed, IsWellFormed}
use modern_signal_slot.Signal.Same.{plain}
use modern_signal_slot.Signal.View.{group_slots}
use modern_signal_slot.Signal.Add.{Absent}
use modern_signal_slot.Signal.Clean.{clean_lem}
use modern_signal_slot.Signal.Disconnect.{Filtered, disconnect_if-exact}
use modern_signal_slot.Signal.Bag.{
  Change, adds, cleans, removes, empties, changes, bag, specs, groups_of, changes-bag,
}
use modern_signal_slot.Tests.Data.{three_slots, two_groups}

low-Indexed : Indexed three_slots (record { slts = 0 ∷ 1 ∷ []; gid = pos 0 })
low-Indexed zero a h = ground arith
low-Indexed (suc zero) a h = ground arith
low-Indexed (suc (suc i)) a h = ground arith

high-Indexed : Indexed three_slots (record { slts = 2 ∷ []; gid = pos 5 })
high-Indexed zero a h = ground arith
high-Indexed (suc i) a h = ground arith

pub two_groups-IsWellFormed : IsWellFormed three_slots two_groups
two_groups-IsWellFormed = record {
  ascending = ((omega arith, tt), (tt, tt));
  indexed = (low-Indexed, (high-Indexed, tt));
}

-- Slot 3 is in no group.
pub new-Absent : Absent 3 two_groups
new-Absent = (low, (high, tt))
  where
    low : (i : ℕ) → get_elem? {A = ℕ} (0 ∷ 1 ∷ []) i ≢ some 3
    low zero h = ground arith
    low (suc zero) h = ground arith
    low (suc (suc i)) h = ground arith

    high : (i : ℕ) → get_elem? {A = ℕ} (2 ∷ []) i ≢ some 3
    high zero h = ground arith
    high (suc i) h = ground arith

disconnect_if-exact_example :
    let (τ, hs, n) = disconnect_if (λ a. ltb a 2) three_slots two_groups in
    Filtered (λ a. ltb a 2) two_groups hs
    × ((a : ℕ) → plain (τ a) ≡ plain (three_slots a))
    × (n ≡ 2)
disconnect_if-exact_example =
    disconnect_if-exact (λ a. ltb a 2) three_slots two_groups two_groups-IsWellFormed

clean_lem_example :
    let (τ, hs) = clean three_slots two_groups 0 in
    Perm (0 ∷ 1 ∷ []) (0 ∷ group_slots (pos 0) hs)
    × (group_slots (pos 5) hs ≡ 2 ∷ [])
    × ((a : ℕ) → plain (τ a) ≡ plain (three_slots a))
clean_lem_example =
    clean_lem three_slots two_groups 0 0 (pos 5) two_groups-IsWellFormed refl (λ e. ground arith)

-- Slot 3 joins group 5, slot 0 is cleaned, slots above 2 go, and group 0 is emptied.
abbrev some_changes : List Change
some_changes = adds 3 ∷ cleans 0 ∷ removes (λ a. ltb 2 a) ∷ empties (pos 0) ∷ []

changes-bag_example :
    bag (changes (three_slots, two_groups) some_changes).1
    ≡ specs (groups_of three_slots) (bag two_groups) some_changes
changes-bag_example =
    changes-bag three_slots two_groups some_changes two_groups-IsWellFormed
      (new-Absent, (tt, (tt, (tt, tt))))
