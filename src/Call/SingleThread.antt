-- ===== src/Call/SingleThread.antt =====
-- core/signal.hpp, the emission of `signal_st`, whose mutex is `null_mutex`: `cow_type` is the list
-- itself and `cow_copy_type` a reference to it, so that the loops of `operator()` run over the
-- signal's own list, and hold no slot. By the rules of `std::vector` a call that inserts into or
-- erases from the group that is looped over, or the vector of groups, invalidates the iterators that
-- the loops go on with. The test for it compares the vectors in front of and behind the call.
pub mod Plain
pub mod OneShot
pub mod Disturbed
use modern_signal_slot.Base.{
  ℕ, zero, suc, Bool, true, false, ◌&&◌, List, [], ◌∷◌, ◌==◌, if◌then◌else◌, length,
}
use modern_signal_slot.Slot.{Body}
use modern_signal_slot.Signal.{Group}
use modern_signal_slot.Signal.Live.{group_at, same_slots}
use modern_signal_slot.World.{World}
use modern_signal_slot.Call.{Fault, Called, done, waits, faulted, call}

-- Where the loops are: the number of groups, the index of the group, the number of groups behind
-- it, and the group's slots when the inner loop began.
pub record Loop : Type 0 where
  pub groups : ℕ
  pub group : ℕ
  pub behind : ℕ
  pub seen : List ℕ

-- An emission: it is over, it waits for a promise before the slots that are left of its group, the
-- program ended, or an invalid iterator is used.
pub data LiveEmission (A U : Type 0) : Type 0 where
  over : World A U → LiveEmission A U
  paused : ℕ → Loop → List ℕ → World A U → LiveEmission A U
  crashed : Fault → LiveEmission A U
  undefined_behaviour : LiveEmission A U

module _ {A U : Type 0} where
  abbrev pub undisturbed : World A U → ℕ → Loop → Bool
  undisturbed w k loop =
      length (w.signals k).m_slots == loop.groups
      && same_slots loop.seen (group_at (w.signals k).m_slots loop.group)

module _ {A U : Type 0} (assertions : Bool) (user_code : Body → A → World A U → World A U) (k : ℕ)
    (args : A) where
  -- The inner loop, over the slots that are left of a group.
  pub live_slots : Loop → List ℕ → World A U → LiveEmission A U
  live_slots loop [] w = over w
  live_slots loop (s ∷ rest) w = elim (call assertions user_code w s args) [
    | done w' ↦
        let more = live_slots loop rest w' in
        if undisturbed w' k loop then more else undefined_behaviour
    | waits p w' ↦ paused p loop rest w'
    | faulted f ↦ crashed f
  ]

  -- The outer loop, over the groups that are left.
  pub live_groups : ℕ → ℕ → ℕ → World A U → LiveEmission A U
  unfolding live_slots
  live_groups groups j zero w = over w
  live_groups groups j (suc behind) w =
      let seen = group_at (w.signals k).m_slots j in
      let loop : Loop = record { groups = groups; group = j; behind = behind; seen = seen } in
      elim (live_slots loop seen w) [
        | over w' ↦ live_groups groups (suc j) behind w'
        | paused p l rest w' ↦ paused p l rest w'
        | crashed f ↦ crashed f
        | undefined_behaviour ↦ undefined_behaviour
      ]

  pub emit_st : World A U → LiveEmission A U
  unfolding live_groups
  emit_st w =
      let groups = length (w.signals k).m_slots in
      if (w.signals k).m_block then over w else live_groups groups 0 groups w

  -- The promise is fulfilled, and the loops go on in the state that there is then.
  unfoldable pub resume_st : LiveEmission A U → World A U → LiveEmission A U
  unfolding live_groups
  resume_st (over v) w = over v
  resume_st (paused p loop rest v) w = elim (w.fulfilled p) [
    | false ↦ paused p loop rest v
    | true ↦ elim (undisturbed w k loop) [
      | false ↦ undefined_behaviour
      | true ↦ elim (live_slots loop rest w) [
        | over w' ↦ live_groups loop.groups (suc loop.group) loop.behind w'
        | paused q l more w' ↦ paused q l more w'
        | crashed f ↦ crashed f
        | undefined_behaviour ↦ undefined_behaviour
      ]
    ]
  ]
  resume_st (crashed f) w = crashed f
  resume_st undefined_behaviour w = undefined_behaviour
