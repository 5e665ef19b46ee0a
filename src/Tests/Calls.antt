-- ===== src/Tests/Calls.antt =====
-- Calls and emissions. The program's functions note the code of the slot that is called.
use modern_signal_slot.Base.{
  false, ℕ, pos, ◌≡◌, refl, true, List, [], ◌∷◌, ◌++◌, some, Option, none, ◌==◌, if◌then◌else◌,
}
use modern_signal_slot.Slot.{
  Slot, Body, slot, slot_extended, slot_pmf, slot_pmf_extended, slot_tracked, update,
  auto_connection,
}
use modern_signal_slot.World.{World, queued, disconnect_slot}
use modern_signal_slot.Call.{call, emit, finished, effective_type, is_current, run_closure}
use modern_signal_slot.Call.Order.{user_code, emit-plain}
use modern_signal_slot.Call.Singleshot.{Spent, After, singleshot_once}
use modern_signal_slot.Call.Deliver.{disconnect-run_closure}
use modern_signal_slot.Call.Chain.{chain_code, emit-chain}
use modern_signal_slot.Slot.Pointers.{Callable}
use modern_signal_slot.Call.SingleThread.{over, undefined_behaviour, emit_st}
use modern_signal_slot.Call.SingleThread.Plain.{emit_st-emit}
use modern_signal_slot.Call.SingleThread.Disturbed.{emit_st-once}
use modern_signal_slot.Tests.Data.{three_slots, world_of, two_groups, slot_at}

abbrev code_of : Body → ℕ
code_of (slot c) = c.code
code_of (slot_extended c _) = c.code
code_of (slot_pmf _ c) = c.code
code_of (slot_pmf_extended _ c _) = c.code
code_of (slot_tracked _ c) = c.code

abbrev note : Body → ℕ → List ℕ → List ℕ
note b args u = u ++ code_of b ∷ args ∷ []

-- Slot 1 is blocked.
abbrev one_blocked : World ℕ (List ℕ)
one_blocked = world_of (update three_slots 1 (record (three_slots 1) { m_blocked = true }))

emit-plain_example :
    emit true (user_code true note) one_blocked 0 4
    ≡ finished (record one_blocked { user = 10 ∷ 4 ∷ 12 ∷ 4 ∷ [] })
unfolding effective_type is_current
emit-plain_example =
    emit-plain true note one_blocked 0 4
      ((refl, refl, refl), ((refl, refl, refl), ((refl, refl, refl), tt)))

-- Slot 1 is a singleshot one.
abbrev with_slot : Slot → World ℕ (List ℕ)
with_slot s = world_of (update three_slots 1 s)

abbrev one_singleshot : World ℕ (List ℕ)
one_singleshot = with_slot (record (three_slots 1) { m_singleshot = true })

singleshot_once_example :
    After (λ v. Spent v 1) (call true (user_code true note) one_singleshot 1 4)
singleshot_once_example =
    singleshot_once true (user_code true note) 1 (λ b args w s. s) one_singleshot 4 refl refl refl

-- Slot 1 has queue 6, and no queue is the calling thread's.
abbrev one_auto : World ℕ (List ℕ)
one_auto = with_slot (record (three_slots 1) { m_type = auto_connection; m_queue = some 6 })

disconnect-run_closure_example :
    let (w, was) = disconnect_slot one_auto 1 in
    run_closure (user_code true note) w (queued 1 4) ≡ w
disconnect-run_closure_example = disconnect-run_closure true (user_code true note) one_auto 1 4

emit_st-emit_example :
    (v : World ℕ (List ℕ)) × (emit true (user_code true note) one_blocked 0 4 ≡ finished v)
    × (emit_st true (user_code true note) 0 4 one_blocked ≡ over v)
unfolding effective_type is_current
emit_st-emit_example =
    emit_st-emit true note 0 4 one_blocked
      ((refl, refl, refl), ((refl, refl, refl), ((refl, refl, refl), tt)))

-- The singleshot slot stands behind slot 0.
emit_st-once_example : emit_st true (user_code true note) 0 4 one_singleshot ≡ undefined_behaviour
unfolding effective_type is_current
emit_st-once_example =
    emit_st-once true note 0 4 one_singleshot 1 (0 ∷ []) []
      (record { slts = 0 ∷ 1 ∷ []; gid = pos 0 }) (record { slts = 2 ∷ []; gid = pos 5 } ∷ []) refl
      refl refl ((refl, refl, refl), tt)
      (record { untracked = refl; on = refl; direct = refl; once = refl; fresh = refl })
      (record { cleaner = refl; group = refl; index = refl })

-- Signal 1 has one slot, of number 3, that wraps signal 0, whose slot 1 is blocked.
abbrev wrapped : Callable → Option ℕ
wrapped c = if c.code == 100 then some 0 else none

abbrev chained : World ℕ (List ℕ)
chained = record one_blocked {
  slots = update one_blocked.slots 3 (slot_at 0 (pos 0) 100);
  signals = λ k.
      if k == 0
      then record { m_slots = two_groups; m_block = false }
      else record { m_slots = record { slts = 3 ∷ []; gid = pos 0 } ∷ []; m_block = false };
}

emit-chain_example :
    emit true (chain_code true wrapped note 2) chained 1 4
    ≡ finished (record chained { user = 10 ∷ 4 ∷ 12 ∷ 4 ∷ [] })
unfolding effective_type is_current
emit-chain_example = emit-chain true wrapped note 2 chained 1 4 (
  (
    (refl, refl, refl),
    (((refl, refl, refl), tt), (((refl, refl, refl), tt), (((refl, refl, refl), tt), tt))),
  ),
  tt,
)
