-- ===== src/Program/Valid.antt =====
-- A program never breaks the shared state.
use modern_signal_slot.Base.{
  ℕ, refl, Bool, List, [], ◌∷◌, Option, none, some, Option-cases, inl, inr,
}
use modern_signal_slot.Slot.{Body}
use modern_signal_slot.World.{World, Task}
use modern_signal_slot.World.Valid.{IsValid}
use modern_signal_slot.Call.{Emission, finished, suspended, crashed}
use modern_signal_slot.Call.Keeps.{AfterEmission}
use modern_signal_slot.Call.Valid.{
  beside-IsValid, run_closure-IsValid, emit-IsValid, resume-IsValid,
}
use modern_signal_slot.Connect.{Options}
use modern_signal_slot.Connect.Overloads.{
  connect_callable-IsValid, connect_extended_callable-IsValid, connect_pmf-IsValid,
  disconnect_callable-IsValid, disconnect_object-IsValid, disconnect_both-IsValid,
}
use modern_signal_slot.Connect.Valid.{
  connect_observer-IsValid, disconnect_gid-IsValid, disconnect_all-IsValid, block_signal-IsValid,
  unblock_signal-IsValid, move_construct-IsValid, move_assign-IsValid,
}
use modern_signal_slot.Connection.Valid.{
  disconnect-IsValid, block-IsValid, unblock-IsValid, disconnect_observer-IsValid,
}
use modern_signal_slot.TaskQueue.{Round, quits, runs, waits, spins, get_next_task, process_next}
use modern_signal_slot.Thread.{turn, serve, set_queue}
use modern_signal_slot.Program.{
  Target, callable, extended, pmf, observed, Which, by_callable, by_object, by_both, by_group,
  everything, Action, connects, disconnects, blocks, unblocks, moves, assigns, drops, holds_back,
  lets_go, forgets, emits, resumes, works, Paused, Running, connect_target, disconnect_which,
  after_emission, take_paused, resume_paused, run_action, run_actions,
}

module _ {A U : Type 0} where
  -- A property of the state that a program has reached, unless a fault has ended it.
  abbrev pub UnlessFault : (World A U → Type 0) → Option (Running A U) → Type 0
  UnlessFault P none = Unit {0}
  UnlessFault P (some r) = P r.world

  connect_target-IsValid :
      (w : World A U) (k : ℕ) (opt : Options) (target : Target)
      → IsValid w
      → IsValid (connect_target w k opt target).0
  unfolding connect_target
  connect_target-IsValid w k opt (callable c) ok = connect_callable-IsValid w k ok c opt
  connect_target-IsValid w k opt (extended c) ok = connect_extended_callable-IsValid w k ok c opt
  connect_target-IsValid w k opt (pmf o c) ok = connect_pmf-IsValid w k ok o c opt
  connect_target-IsValid w k opt (observed o c) ok = connect_observer-IsValid w k o c opt ok

  disconnect_which-IsValid :
      (has_rtti : Bool) (w : World A U) (k : ℕ) (which : Which)
      → IsValid w
      → IsValid (disconnect_which has_rtti w k which)
  unfolding disconnect_which
  disconnect_which-IsValid has_rtti w k (by_callable c) ok =
      disconnect_callable-IsValid w k ok has_rtti c
  disconnect_which-IsValid has_rtti w k (by_object o) ok = disconnect_object-IsValid w k ok o
  disconnect_which-IsValid has_rtti w k (by_both o c) ok = disconnect_both-IsValid w k ok o c
  disconnect_which-IsValid has_rtti w k (by_group gid) ok = disconnect_gid-IsValid w k gid ok
  disconnect_which-IsValid has_rtti w k everything ok = disconnect_all-IsValid w k ok

  after_emission-IsValid :
      (args : A) (ps : List (Paused A)) (e : Emission A U)
      → AfterEmission IsValid e
      → UnlessFault IsValid (after_emission args ps e)
  unfolding after_emission
  after_emission-IsValid args ps (finished w) h = h
  after_emission-IsValid args ps (suspended p rest copy w) h = h
  after_emission-IsValid args ps (crashed f) h = tt

module _ {A U : Type 0} (assertions has_rtti : Bool) (user_code : Body → A → World A U → World A U)
    (keeps : (b : Body) (args : A) (w : World A U) → IsValid w → IsValid (user_code b args w)) where
  serve-IsValid :
      (w : World A U) (round : Round (Task A)) → IsValid w → IsValid (serve user_code w round)
  unfolding serve
  serve-IsValid w quits ok = ok
  serve-IsValid w (runs t) ok = run_closure-IsValid user_code keeps w t ok
  serve-IsValid w (waits n) ok = ok
  serve-IsValid w spins ok = ok

  turn-IsValid : (w : World A U) (q now : ℕ) → IsValid w → IsValid (turn user_code w q now)
  unfolding turn
  turn-IsValid w q now ok =
      let (next, s) = get_next_task (w.queues q) now in
      let w' = record (set_queue w q s) { current = some q } in
      let served = serve-IsValid w' (process_next next) (beside-IsValid w w' refl refl refl ok) in
      beside-IsValid (serve user_code w' (process_next next)) _ refl refl refl served

  resume_paused-IsValid :
      (w : World A U) (ps : List (Paused A)) (taken : Option (Paused A × List (Paused A)))
      → IsValid w
      → UnlessFault IsValid (resume_paused assertions has_rtti user_code w ps taken)
  unfolding resume_paused
  resume_paused-IsValid w ps none ok = ok
  resume_paused-IsValid w ps (some (p, others)) ok = after_emission-IsValid p.args others _ (
      resume-IsValid user_code keeps assertions p.args (suspended p.promise p.rest p.copy w) w ok
        ok)

  run_action-IsValid :
      (r : Running A U) (a : Action A)
      → IsValid r.world
      → UnlessFault IsValid (run_action assertions has_rtti user_code r a)
  unfolding run_action
  run_action-IsValid r (connects k target opt) ok = connect_target-IsValid r.world k opt target ok
  run_action-IsValid r (disconnects k which) ok =
      disconnect_which-IsValid has_rtti r.world k which ok
  run_action-IsValid r (blocks k) ok = block_signal-IsValid r.world k ok
  run_action-IsValid r (unblocks k) ok = unblock_signal-IsValid r.world k ok
  run_action-IsValid r (moves j k) ok = move_construct-IsValid r.world j k ok
  run_action-IsValid r (assigns j k) ok = move_assign-IsValid r.world j k ok
  run_action-IsValid r (drops conn) ok = disconnect-IsValid r.world conn ok
  run_action-IsValid r (holds_back conn) ok = block-IsValid r.world conn ok
  run_action-IsValid r (lets_go conn) ok = unblock-IsValid r.world conn ok
  run_action-IsValid r (forgets o) ok = disconnect_observer-IsValid r.world o ok
  run_action-IsValid r (emits k args) ok =
      after_emission-IsValid args r.paused _
        (emit-IsValid user_code keeps assertions r.world k args ok)
  run_action-IsValid r (resumes i) ok =
      resume_paused-IsValid r.world r.paused (take_paused r.paused i) ok
  run_action-IsValid r (works q now) ok = turn-IsValid r.world q now ok

  -- In every program, however it mixes connecting, disconnecting, moving, blocking and emitting on
  -- any signals with the turns of the workers, and whatever its functions do in between as long as
  -- they themselves keep it so: every slot list stays well formed, no slot gets into the lists of
  -- two signals, and every slot in a list was made. That holds from any valid state on, for as long
  -- as no fault ends the program.
  pub run_actions-IsValid :
      (r : Running A U) (acts : List (Action A))
      → IsValid r.world
      → UnlessFault IsValid (run_actions assertions has_rtti user_code r acts)
  unfolding run_actions
  run_actions-IsValid r [] ok = ok
  run_actions-IsValid r (a ∷ acts) ok =
      elim (Option-cases (run_action assertions has_rtti user_code r a)) [
        | inl e ↦ rw (e, run_actions) tt
        | inr (r', e) ↦
            rw (e, run_actions) (run_actions-IsValid r' acts (rw e at (run_action-IsValid r a ok)))
      ]
