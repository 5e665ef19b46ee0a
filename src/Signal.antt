-- ===== src/Signal.antt =====
-- core/signal.hpp, the slot list of `signal_base`: groups of slots in ascending order of their
-- ids. A slot in a group knows its own index there, by which `clean` finds it again. An operation
-- takes the store of slots and the groups, and is what runs under the signal's mutex.
pub mod WellFormed
pub mod Same
mod Erase
mod Sweep
pub mod View
pub mod Add
pub mod Find
pub mod Order
pub mod Clean
pub mod Disconnect
pub mod Frame
pub mod Undo
pub mod Bag
pub mod Live
use modern_signal_slot.Base.{
  ℕ, zero, suc, ◌+◌, ◌-◌, ℤ, ltb_ℤ, ◌==ℤ◌, Bool, true, false, ◌&&◌, List, [], ◌∷◌, ◌++◌, Option,
  none, some, ltb, ◌==◌, if◌then◌else◌, length, get_elem?, get_or, swap_back, pop_back,
}
use modern_signal_slot.Slot.{Slots, set_index}

-- `group_type`; `slts` holds addresses of slots.
pub record Group : Type 0 where
  pub slts : List ℕ
  pub gid : ℤ

-- The search of `add_slot` for the group, a new group where there is none, and the insertion at
-- the group's end: the slot's index there, and the groups.
pub place : ℤ → ℕ → List Group → ℕ × List Group
place gid s [] = (0, record { slts = s ∷ []; gid = gid } ∷ [])
place gid s (g ∷ gs) =
    let (i, rest) = place gid s gs in
    if ltb_ℤ g.gid gid
    then (i, g ∷ rest)
    else if g.gid ==ℤ gid
    then (length g.slts, record g { slts = g.slts ++ s ∷ [] } ∷ gs)
    else (0, record { slts = s ∷ []; gid = gid } ∷ g ∷ gs)

unfoldable pub add_slot : Slots → List Group → ℕ → Slots × List Group
add_slot σ groups s = let (i, groups') = place (σ s).m_group s groups in (set_index σ s i, groups')

-- The inner loop of `get_slot` and `has_slot`, and the loop around it.
pub find_slot : (ℕ → Bool) → List ℕ → Option ℕ
find_slot cond [] = none
find_slot cond (s ∷ slts) = if cond s then some s else find_slot cond slts

pub get_slot : (ℕ → Bool) → List Group → Option ℕ
get_slot cond [] = none
get_slot cond (g ∷ gs) =
    let rest = get_slot cond gs in elim (find_slot cond g.slts) [ some s ↦ some s | none ↦ rest ]

pub has_slot : (ℕ → Bool) → List Group → Bool
has_slot cond [] = false
has_slot cond (g ∷ gs) =
    let rest = has_slot cond gs in elim (find_slot cond g.slts) [ some s ↦ true | none ↦ rest ]

-- How `clean` and `disconnect_if` take the element `x` of index `i` out of a group: swap it with
-- the last one, store the new index of that one, and drop the last.
pub erase_at : Slots → List ℕ → ℕ → ℕ → Slots × List ℕ
erase_at σ slts i x =
    let swapped = swap_back slts i x in (set_index σ (get_or swapped i x) i, pop_back swapped)

-- The `while` loop of `disconnect_if` over one group, on fuel: each round removes an element or
-- moves on, so `length slts` rounds are enough. `cond` is a test of the slot behind an address;
-- it does not read the index, which alone the loop changes.
pub sweep : ℕ → (ℕ → Bool) → Slots → List ℕ → ℕ → ℕ → Slots × List ℕ × ℕ
sweep zero cond σ slts i count = (σ, slts, count)
sweep (suc fuel) cond σ slts i count = elim (get_elem? slts i) [
  | none ↦ (σ, slts, count)
  | some x ↦ elim (cond x) [
    | true ↦ let (σ', slts') = erase_at σ slts i x in sweep fuel cond σ' slts' i (count + 1)
    | false ↦ sweep fuel cond σ slts (i + 1) count
  ]
]

-- The `for` loop of `disconnect_if`.
pub sweep_all : (ℕ → Bool) → Slots → List Group → ℕ → Slots × List Group × ℕ
sweep_all cond σ [] count = (σ, [], count)
sweep_all cond σ (g ∷ gs) count =
    let (σ', slts, count') = sweep (length g.slts) cond σ g.slts 0 count in
    let (σ'', gs', n) = sweep_all cond σ' gs count' in (σ'', record g { slts = slts } ∷ gs', n)

pub disconnect_if : (ℕ → Bool) → Slots → List Group → Slots × List Group × ℕ
disconnect_if cond σ groups = sweep_all cond σ groups 0

-- What `clean` does in the group of the slot `s`, with the slot's index.
pub clean_group : Slots → List ℕ → ℕ → ℕ → Slots × List ℕ
clean_group σ slts s idx = elim (get_elem? slts idx) [
  | none ↦ (σ, slts)
  | some x ↦ if x == s then erase_at σ slts idx x else (σ, slts)
]

-- `clean`: only the first group with the slot's id is looked at.
pub clean : Slots → List Group → ℕ → Slots × List Group
clean σ [] s = (σ, [])
clean σ (g ∷ gs) s =
    let (σ'', gs') = clean σ gs s in
    let (σ', slts) = clean_group σ g.slts s (σ s).m_index in
    if g.gid ==ℤ (σ s).m_group then (σ', record g { slts = slts } ∷ gs) else (σ'', g ∷ gs')

-- `disconnect(group_id)`
pub disconnect_group : ℤ → List Group → List Group × ℕ
disconnect_group gid [] = ([], 0)
disconnect_group gid (g ∷ gs) =
    let (gs', n) = disconnect_group gid gs in
    if g.gid ==ℤ gid then (record g { slts = [] } ∷ gs, length g.slts) else (g ∷ gs', n)

-- `slot_count`
unfoldable pub count_from : ℕ → List Group → ℕ
count_from count [] = count
count_from count (g ∷ gs) = count_from (count + length g.slts) gs

unfoldable pub slot_count : List Group → ℕ
slot_count groups = count_from 0 groups

-- The slots in the order in which an emission calls them.
abbrev pub slots_of : List Group → List ℕ
slots_of [] = []
slots_of (g ∷ gs) = g.slts ++ slots_of gs
