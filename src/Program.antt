-- ===== src/Program.antt =====
-- Programs over the library: any sequence of calls of its operations, of any signals, slots,
-- connections and queues, and of turns of the workers.
pub mod Valid
use modern_signal_slot.Base.{ℕ, zero, suc, ℤ, Bool, true, false, List, [], ◌∷◌, Option, none, some}
use modern_signal_slot.Slot.{Body}
use modern_signal_slot.Slot.Pointers.{Callable, Object}
use modern_signal_slot.World.{World}
use modern_signal_slot.Call.{Emission, finished, suspended, crashed, emit, resume}
use modern_signal_slot.Connect.{
  Options, connect_callable, connect_extended_callable, connect_pmf, connect_observer,
  disconnect_callable, disconnect_object, disconnect_both, disconnect_gid, disconnect_all,
  block_signal, unblock_signal, move_construct, move_assign,
}
use modern_signal_slot.Connection.{disconnect, block, unblock, disconnect_observer}
use modern_signal_slot.Thread.{turn}

-- What connects to a signal: one constructor for each overload that compiles.
pub data Target : Type 0 where
  callable extended : Callable → Target
  pmf : Object → Callable → Target
  observed : ℕ → Callable → Target

-- What a `disconnect` of a signal names.
pub data Which : Type 0 where
  by_callable : Callable → Which
  by_object : Object → Which
  by_both : Object → Callable → Which
  by_group : ℤ → Which
  everything : Which

pub data Action (A : Type 0) : Type 0 where
  connects : ℕ → Target → Options → Action A
  disconnects : ℕ → Which → Action A
  blocks unblocks : ℕ → Action A
  moves assigns : ℕ → ℕ → Action A
  drops holds_back lets_go : Option ℕ → Action A
  forgets : ℕ → Action A
  emits : ℕ → A → Action A
  resumes : ℕ → Action A
  works : ℕ → ℕ → Action A

-- An emission that waits for a promise.
pub record Paused (A : Type 0) : Type 0 where
  pub args : A
  pub promise : ℕ
  pub rest : List ℕ
  pub copy : List ℕ

pub record Running (A U : Type 0) : Type 0 where
  pub world : World A U
  pub paused : List (Paused A)

module _ {A : Type 0} where
  -- The paused emission of an index, and the others.
  pub take_paused : List (Paused A) → ℕ → Option (Paused A × List (Paused A))
  take_paused [] i = none
  take_paused (p ∷ ps) zero = some (p, ps)
  take_paused (p ∷ ps) (suc i) = elim (take_paused ps i) [
    | none ↦ none
    | some (q, qs) ↦ some (q, p ∷ qs)
  ]

module _ {A U : Type 0} where
  pub connect_target : World A U → ℕ → Options → Target → World A U × Option ℕ
  connect_target w k opt (callable c) = connect_callable w k c opt
  connect_target w k opt (extended c) = connect_extended_callable w k c opt
  connect_target w k opt (pmf o c) = connect_pmf w k o c opt
  connect_target w k opt (observed o c) = connect_observer w k o c opt

  pub disconnect_which : Bool → World A U → ℕ → Which → World A U
  disconnect_which has_rtti w k (by_callable c) = (disconnect_callable w k has_rtti c).0
  disconnect_which has_rtti w k (by_object o) = (disconnect_object w k o).0
  disconnect_which has_rtti w k (by_both o c) = (disconnect_both w k o c).0
  disconnect_which has_rtti w k (by_group gid) = (disconnect_gid w k gid).0
  disconnect_which has_rtti w k everything = disconnect_all w k

  -- `none` is a program that a fault has ended.
  pub after_emission : A → List (Paused A) → Emission A U → Option (Running A U)
  after_emission args ps (finished w) = some (record { world = w; paused = ps })
  after_emission args ps (suspended p rest copy w) = some (record {
    world = w;
    paused = record { args = args; promise = p; rest = rest; copy = copy } ∷ ps;
  })
  after_emission args ps (crashed f) = none

  abbrev here : Running A U → World A U → Option (Running A U)
  here r w = some (record r { world = w })

module _ {A U : Type 0} (assertions has_rtti : Bool)
    (user_code : Body → A → World A U → World A U) where
  pub resume_paused :
      World A U → List (Paused A) → Option (Paused A × List (Paused A)) → Option (Running A U)
  resume_paused w ps none = some (record { world = w; paused = ps })
  resume_paused w ps (some (p, others)) =
      after_emission p.args others
        (resume assertions user_code p.args (suspended p.promise p.rest p.copy w) w)

  pub run_action : Running A U → Action A → Option (Running A U)
  run_action r (connects k target opt) = here r (connect_target r.world k opt target).0
  run_action r (disconnects k which) = here r (disconnect_which has_rtti r.world k which)
  run_action r (blocks k) = here r (block_signal r.world k)
  run_action r (unblocks k) = here r (unblock_signal r.world k)
  run_action r (moves j k) = here r (move_construct r.world j k)
  run_action r (assigns j k) = here r (move_assign r.world j k)
  run_action r (drops conn) = here r (disconnect r.world conn).0
  run_action r (holds_back conn) = here r (block r.world conn)
  run_action r (lets_go conn) = here r (unblock r.world conn)
  run_action r (forgets o) = here r (disconnect_observer r.world o)
  run_action r (emits k args) =
      after_emission args r.paused (emit assertions user_code r.world k args)
  run_action r (resumes i) = resume_paused r.world r.paused (take_paused r.paused i)
  run_action r (works q now) = here r (turn user_code r.world q now)

  pub run_actions : Running A U → List (Action A) → Option (Running A U)
  run_actions r [] = some r
  run_actions r (a ∷ acts) = elim (run_action r a) [ none ↦ none | some r' ↦ run_actions r' acts ]
