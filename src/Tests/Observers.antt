-- ===== src/Tests/Observers.antt =====
-- What a program can ask a signal, a slot, a connection and a queue.
use modern_signal_slot.Base.{ℕ, ◌+◌, ◌≡◌, refl, true, false, List, [], ◌∷◌, none, some, pos}
use modern_signal_slot.Slot.{slot_pmf, has_callable, has_full_callable, has_object}
use modern_signal_slot.Slot.Pointers.{raw}
use modern_signal_slot.Call.SingleThread.{Loop, paused, undefined_behaviour, resume_st}
use modern_signal_slot.World.{World, block_slot, alive, lock_slot}
use modern_signal_slot.Signal.{slot_count, count_from}
use modern_signal_slot.Connect.{signal_blocked, signal_slot_count}
use modern_signal_slot.Connection.{valid, blocked, block, blocker, assign_blocker, assign_scoped}
use modern_signal_slot.TaskQueue.{
  TaskQueueStdlib, empty_queue, post_task, post_delayed_task, post_delayed_high_precision_task,
}
use modern_signal_slot.Thread.{queue_is_current}
use modern_signal_slot.QueuedTask.{closure_task, to_queued_task, post_closure, post_delayed_closure}
use modern_signal_slot.Tests.Data.{lambda, one_signal, slot_at}

three : signal_slot_count one_signal 0 ≡ 3
unfolding signal_slot_count slot_count count_from
three = refl

not_blocked : signal_blocked one_signal 0 ≡ false
unfolding signal_blocked
not_blocked = refl

there : valid one_signal (some 2) ≡ true
unfolding valid lock_slot alive
there = refl

empty_connection : valid one_signal none ≡ false
unfolding valid lock_slot
empty_connection = refl

slot_free : blocked one_signal (some 2) ≡ false
unfolding blocked lock_slot alive
slot_free = refl

blocks_now : blocked (blocker one_signal (some 2)).0 (some 2) ≡ true
unfolding blocked blocker block lock_slot alive block_slot
blocks_now = refl

swapped :
    ((assign_blocker one_signal (some 0) (some 1)).1 ≡ some 1)
    × ((assign_blocker one_signal (some 0) (some 1)).2 ≡ some 0)
unfolding assign_blocker
swapped = (refl, refl)

scopes_swapped :
    ((assign_scoped one_signal (some 0) (some 1)).1 ≡ some 1)
    × ((assign_scoped one_signal (some 0) (some 1)).2 ≡ some 0)
unfolding assign_scoped
scopes_swapped = (refl, refl)

no_current : queue_is_current one_signal 6 ≡ false
unfolding queue_is_current
no_current = refl

same_precision :
    (q : TaskQueueStdlib ℕ) → post_delayed_high_precision_task q 70 5 9 ≡ post_delayed_task q 70 5 9
unfolding post_delayed_high_precision_task
same_precision q = refl

by_code : has_callable (lambda 10) (slot_at 0 (pos 0) 10) ≡ true
unfolding has_callable
by_code = refl

by_full : has_full_callable true (lambda 10) (slot_at 0 (pos 0) 10) ≡ true
unfolding has_full_callable
by_full = refl

by_object :
    has_object
      (λ o. false)
      (raw 4)
      (record (slot_at 0 (pos 0) 10) { body = slot_pmf (raw 4) (lambda 10) })
    ≡ true
unfolding has_object
by_object = refl

-- A task that adds one, posted at once and with a delay.
posted_closure :
    post_closure empty_queue (λ (n : ℕ). n + 1)
    ≡ post_task empty_queue (closure_task (λ (n : ℕ). n + 1))
unfolding post_closure to_queued_task
posted_closure = refl

posted_delayed :
    post_delayed_closure empty_queue (λ (n : ℕ). n + 1) 5 9
    ≡ post_delayed_task empty_queue (closure_task (λ (n : ℕ). n + 1)) 5 9
unfolding post_delayed_closure to_queued_task
posted_delayed = refl

-- The wait of an emission without a mutex goes on until its promise is fulfilled, and the signal's
-- list may have changed in between.
abbrev waiting_at : Loop
waiting_at = record { groups = 2; group = 0; behind = 1; seen = 0 ∷ 2 ∷ [] }

still_waits :
    resume_st true (λ b args w. w) 0 7 (paused 0 waiting_at [] one_signal) one_signal
    ≡ paused 0 waiting_at [] one_signal
unfolding resume_st
still_waits = refl

abbrev kept_promise : World ℕ (List ℕ)
kept_promise = record one_signal { fulfilled = λ p. true }

list_changed :
    resume_st true (λ b args w. w) 0 7 (paused 0 waiting_at [] kept_promise) kept_promise
    ≡ undefined_behaviour
unfolding resume_st
list_changed = refl
