-- ===== src/Tests/Programs.antt =====
-- Whole programs: signals, slots, queues and their workers together.
use modern_signal_slot.Base.{
  Bool-cases, inl, inr, ℕ, zero, suc, pos, ◌==ℤ◌, ◌≡◌, ◌≢◌, ◌<◌, refl, true, false, Bool, List, [],
  ◌∷◌, none, some, arith, ◌==◌, elem,
}
use modern_signal_slot.Slot.{
  Slot, Body, slot, update, direct_connection, blocking_queued_connection, unique_connection,
}
use modern_signal_slot.Signal.{slots_of}
use modern_signal_slot.Signal.WellFormed.{IsWellFormed}
use modern_signal_slot.World.{World}
use modern_signal_slot.World.Valid.{IsValid, listed}
use modern_signal_slot.TaskQueue.{
  TaskQueueStdlib, empty_queue, get_next_task, process_next, delete, waits, next_of, take_pending,
}
use modern_signal_slot.Call.{dispatch, resume, suspended, emit_slots, effective_type}
use modern_signal_slot.Connect.{Options, connect_callable, connect_slot}
use modern_signal_slot.Connect.Overloads.{connect_callable-IsValid}
use modern_signal_slot.Connect.Unique.{connect_slot-refused}
use modern_signal_slot.Connect.Undo.{connect_slot-Connected, connect_slot-disconnect}
use modern_signal_slot.Connect.Twice.{connect_slot-twice}
use modern_signal_slot.Connection.{disconnect}
use modern_signal_slot.Thread.{turn, set_queue}
use modern_signal_slot.Thread.Blocking.{Waits, turns, dispatch-turn, dispatch-delete}
use modern_signal_slot.Program.{
  Action, connects, disconnects, emits, works, callable, everything, run_actions,
}
use modern_signal_slot.Program.Valid.{UnlessFault, run_actions-IsValid}
use modern_signal_slot.Tests.Data.{lambda, one_signal, world_of, three_slots}
use modern_signal_slot.Tests.Signals.{two_groups-IsWellFormed}

in_range : (a : ℕ) → elem a (0 ∷ 1 ∷ 2 ∷ []) ≡ true → a < 3
in_range a h = ground arith

one_list : (k : ℕ) → IsWellFormed one_signal.slots (one_signal.signals k).m_slots
one_list k = elim (Bool-cases (k == 0)) [
  | inl first ↦ simp first two_groups-IsWellFormed
  | inr other ↦ simp other (record { ascending = tt; indexed = tt })
]

one_made : (k a : ℕ) → elem a (listed one_signal k) ≡ true → a < 3
one_made zero a h = in_range a h
one_made (suc k) a h = ground arith

one_place :
    (j k a : ℕ) → elem a (listed one_signal j) ≡ true → elem a (listed one_signal k) ≡ true → j ≡ k
one_place zero zero a h l = refl
one_place zero (suc k) a h l = ground arith
one_place (suc j) zero a h l = ground arith
one_place (suc j) (suc k) a h l = ground arith

one_signal-IsValid : IsValid one_signal
one_signal-IsValid = record { lists = one_list; apart = one_place; made = one_made }

abbrev plain_options : Options
plain_options = record { type = direct_connection; queue = none; gid = pos 0 }

-- Every function connects one more to signal 1.
abbrev spawn : Body → ℕ → World ℕ (List ℕ) → World ℕ (List ℕ)
spawn b args w = (connect_callable w 1 (lambda args) plain_options).0

spawn-IsValid : (b : Body) (args : ℕ) (w : World ℕ (List ℕ)) → IsValid w → IsValid (spawn b args w)
spawn-IsValid b args w ok = connect_callable-IsValid w 1 ok (lambda args) plain_options

abbrev script : List (Action ℕ)
script =
    connects 0 (callable (lambda 20)) plain_options
    ∷ emits 0 4
    ∷ works 3 9
    ∷ emits 1 5
    ∷ disconnects 0 everything
    ∷ emits 0 6
    ∷ []

run_actions-IsValid_example :
    UnlessFault IsValid
      (run_actions true true spawn (record { world = one_signal; paused = [] }) script)
run_actions-IsValid_example =
    run_actions-IsValid true true spawn spawn-IsValid (record { world = one_signal; paused = [] })
      script one_signal-IsValid

abbrev stay : Body → ℕ → World ℕ (List ℕ) → World ℕ (List ℕ)
stay b args w = w

-- Slot 1 has a blocking connection to queue 6.
abbrev one_blocking : World ℕ (List ℕ)
one_blocking = world_of (
    update three_slots 1
      (record (three_slots 1) { m_type = blocking_queued_connection; m_queue = some 6 }))

dispatch-turn_example :
    Waits
      (λ p v.
        let after = turn stay v 6 9 in
        (after.fulfilled p ≡ true)
        × (resume true stay 4 (suspended p (2 ∷ []) (0 ∷ 1 ∷ 2 ∷ []) v) after
            ≡ emit_slots true stay 4 (0 ∷ 1 ∷ 2 ∷ []) (2 ∷ []) after))
      (dispatch true stay one_blocking 1 4)
unfolding effective_type empty_queue
dispatch-turn_example =
    dispatch-turn true stay one_blocking 1 4 6 9 (2 ∷ []) (0 ∷ 1 ∷ 2 ∷ []) refl refl
      (refl, refl, refl)

dispatch-delete_example :
    Waits
      (λ p v. (turns stay (set_queue v 6 (delete (v.queues 6))) 6 (7 ∷ 9 ∷ [])).fulfilled p ≡ false)
      (dispatch true stay one_blocking 1 4)
unfolding effective_type
dispatch-delete_example = dispatch-delete true stay one_blocking 1 4 6 (7 ∷ 9 ∷ []) refl refl refl

-- The first delayed task is due in two and a half milliseconds.
abbrev later_queue : TaskQueueStdlib ℕ
later_queue = record {
  notify_ready = false;
  thread_should_quit = false;
  thread_posting_order = 3;
  pending_queue = [];
  delayed_queue = (record { next_fire_at = 2_500_007; order = 3 }, 73) ∷ [];
}

sleeps : process_next (get_next_task later_queue 7).0 ≡ waits 2
unfolding process_next get_next_task next_of take_pending
sleeps = refl

abbrev never : Slot → Bool
never s = false

made_3 : (connect_slot one_signal 0 never (λ a. slot (lambda 11)) plain_options).1 ≡ some 3
made_3 = (connect_slot-refused one_signal 0 never (λ a. slot (lambda 11)) plain_options).0

connect_slot-disconnect_example :
    let v = (connect_slot one_signal 0 never (λ a. slot (lambda 11)) plain_options).0 in
    let (u, was) = disconnect v (some 3) in
    (was ≡ true)
    × (slots_of (u.signals 0).m_slots ≡ 0 ∷ 1 ∷ 2 ∷ [])
    × ((j : ℕ) → 0 ≢ j → u.signals j ≡ one_signal.signals j)
connect_slot-disconnect_example =
    connect_slot-disconnect one_signal 0 never (λ a. slot (lambda 11)) plain_options 3 (omega arith)
      made_3

abbrev once : Options
once = record { type = unique_connection; queue = none; gid = pos 7 }

-- No slot stands in group 7 yet.
abbrev in_seven : Slot → Bool
in_seven s = s.m_group ==ℤ pos 7

made_seven : (connect_slot one_signal 0 in_seven (λ a. slot (lambda 30)) once).1 ≡ some 3
made_seven = (connect_slot-refused one_signal 0 in_seven (λ a. slot (lambda 30)) once).0

new_in_seven :
    in_seven ((connect_slot one_signal 0 in_seven (λ a. slot (lambda 30)) once).0.slots 3) ≡ true
new_in_seven =
    rw
      ((connect_slot-Connected one_signal 0 in_seven (λ a. slot (lambda 30)) once 3
        made_seven).group)
      refl

connect_slot-twice_example :
    let (v, conn) = connect_slot one_signal 0 in_seven (λ a. slot (lambda 30)) once in
    let (u, again) = connect_slot v 0 in_seven (λ a. slot (lambda 30)) plain_options in
    (conn ≡ some 3) × (again ≡ none) × (u ≡ v)
connect_slot-twice_example =
    connect_slot-twice one_signal 0 in_seven (λ a. slot (lambda 30)) once (λ a. slot (lambda 30))
      plain_options refl refl new_in_seven
