-- ===== src/Tests/Races.antt =====
-- Calls and connects that several threads make at once.
use modern_signal_slot.Base.{ℕ, pos, ◌≡◌, ◌+◌, ◌≤◌, refl, Bool, true, false, [], ◌∷◌, none, ◌==◌}
use modern_signal_slot.Slot.{Slot, Slots, update, slot, unique_connection}
use modern_signal_slot.TaskQueue.{empty_queue}
use modern_signal_slot.World.{World}
use modern_signal_slot.Call.{effective_type, is_current}
use modern_signal_slot.Call.Order.{user_code}
use modern_signal_slot.Call.Race.{alone, entering, at_emit, testing, returned}
use modern_signal_slot.Call.Race.Runs.{alone_runs}
use modern_signal_slot.Call.Race.Window.{count_run, threads, window, runs_and_posts, window_bound}
use modern_signal_slot.Call.Race.Both.{both_pass, both_run}
use modern_signal_slot.Connect.{Options}
use modern_signal_slot.Connect.Race.{
  BothConnected, both_search, run_connects, searching, both_connect,
}
use modern_signal_slot.Tests.Data.{three_slots, two_groups, one_signal, lambda}

-- Slot 1 is a singleshot one, and the program counts the runs.
abbrev counting : Slots → World ℕ ℕ
counting σ = record {
  slots = σ;
  allocated = 3;
  signals = λ k. record { m_slots = two_groups; m_block = false };
  signal_count = 1;
  held = λ a. 0;
  objects = λ o. false;
  observers = λ o. [];
  queues = λ q. empty_queue;
  current = none;
  promises = 0;
  fulfilled = λ p. false;
  user = 0;
}

abbrev once : World ℕ ℕ
once = counting (update three_slots 1 (record (three_slots 1) { m_singleshot = true }))

abbrev once_emitted : World ℕ ℕ
once_emitted =
    counting
      (update three_slots 1 (record (three_slots 1) { m_singleshot = true; m_emitted = true }))

-- The slot has not emitted, so the function runs.
alone_runs_example : (alone true (user_code true count_run) 10 1 4 (once, entering)).0.user ≡ 1
unfolding effective_type is_current
alone_runs_example = alone_runs true 1 4 once

-- One thread is in the window, one before `can_emit` and one behind its call.
window_bound_example :
    let (w, ps) =
      threads true 1 4 (0 ∷ 1 ∷ 0 ∷ 2 ∷ 0 ∷ []) (once_emitted, testing ∷ at_emit ∷ returned ∷ []) in
    runs_and_posts w 0 + window ps ≤ runs_and_posts once_emitted 0 + 1
window_bound_example =
    window_bound true 1 4 (0 ∷ 1 ∷ 0 ∷ 2 ∷ 0 ∷ []) once_emitted (testing ∷ at_emit ∷ returned ∷ [])
      (refl, refl) 0

both_run_example : (threads true 1 4 both_pass (once, entering ∷ entering ∷ [])).0.user ≡ 2
unfolding effective_type is_current
both_run_example = both_run true 1 4 once (refl, refl, refl) refl refl

abbrev unique : Options
unique = record { type = unique_connection; queue = none; gid = pos 0 }

-- The callable of a slot has the code of the lambda that both threads connect.
abbrev same_lambda : Slot → Bool
same_lambda s = elim s.body [ slot c ↦ c.code == 20 | _ ↦ false ]

both_connect_example :
    let (v, ps) =
      run_connects 0 same_lambda
        (λ a. slot (lambda 20))
        unique
        both_search
        (one_signal, searching ∷ searching ∷ []) in
    BothConnected 0 same_lambda (λ a. slot (lambda 20)) unique 3 v ps
both_connect_example =
    both_connect 0 same_lambda (λ a. slot (lambda 20)) unique one_signal refl refl
