-- ===== src/Lib.antt =====
-- Verification of the modern-signal-slot library: signals and slots, and the task queues that
-- queued connections post to.
--
-- The program. A signal (`signal_base` in signal-slot/core/signal.hpp) keeps a list of groups of
-- slots. `connect` adds a slot and gives back a connection, a weak pointer to it; `disconnect`
-- takes slots out by a condition, by group or all together; a connection's own `disconnect` marks
-- the slot and asks its signal to `clean` it. An emission takes a copy of the list and calls the
-- slots: at once, by posting a task to the slot's queue, or by posting one and waiting for its
-- promise. A task queue (`TaskQueueStdlib` in signal-slot/core/task_queue_stdlib.cpp) keeps a
-- pending and a delayed queue that a worker thread empties.
--
-- The files, and the code that each models:
-- * Base and below: tests on numbers, integers, lists and vectors that the others share.
-- * Slot, Slot/Pointers: `slot_state`, `slot_base`, the data of the slot classes, `func_ptr`,
--   `function_traits`, `object_pointer`.
-- * Signal and below: `add_slot`, `get_slot`, `has_slot`, `disconnect_if`, `clean`, `disconnect`
--   of a group and `slot_count` of `signal_base`, on the store of slots and the list of groups.
--   WellFormed has the invariant, View the slots of each group id.
-- * World and below: the state that signals, slots, connections and queues share; `slot_state::disconnect`
--   and the ownership of slots.
-- * Call and below: `can_emit`, `set_emitted`, `type`, `call_slot` of the classes, the posted
--   closures, `operator()` of slots and signals. Keeps has the steps that a call is made of.
--   Race and below have one call as the accesses to a slot's flags, between which other threads
--   run; SingleThread and below the emission of `signal_st`, over the signal's own list; Chain the
--   functions that emit another signal, `signal_wrapper`.
-- * Connect and below: the overloads of `connect` and `disconnect`, blocking and moving a signal.
--   Race has `connect` as its two critical sections, Select the conditions by which the compiler
--   selects an overload.
-- * The macros, SignalSlotApi: signal-slot/signal_slot_api.hpp.
-- * Connection and below: `connection`, `connection_blocker`, `scoped_connection`, `observer_base`.
-- * TaskQueue and below: `TaskQueueStdlib`. A history is a sequence of its critical sections
--   (History); the worker's loop against posting threads is a step relation (Worker, and Join for its
--   end), and so is the start of its thread (Start).
-- * The registry, TaskQueueManager: signal-slot/core/task_queue_manager.cpp. Owned and below have
--   the queues that it owns, with signal-slot/core/task_queue.cpp; Shutdown and below its
--   destruction as a step relation of its thread and the workers.
-- * CopyOnWrite and below: `copy_on_write`, its handles and the counts of its payloads. Snapshots and
--   below have a signal's list in its handle, with the copies that emissions read.
-- * The mutex, SpinMutex: `spin_mutex`, as the steps of threads on its atomic state.
-- * QueuedTask and below: core/queued_task.hpp, and what becomes of the tasks of a queue.
-- * Thread and below: the queue that a thread runs, core/task_queue_base.cpp, and one turn of a
--   queue's worker on the shared state.
-- * Program and below: any sequence of the operations of all parts, with the emissions that wait.
-- * Tests and below: runs of the results on concrete inputs.
--
-- How the state corresponds. A pointer to a slot is an address in the store `slots`; a
-- `shared_ptr` that a running call holds is counted in `held`; a weak pointer is an optional
-- address, and locks while a signal's list or a running call holds the slot. `std::map` is an
-- association list in the order of its keys. Time is counted in the clock's ticks of a nanosecond,
-- readings of the clock are arguments, and delays are not negative. A schedule of threads is a list
-- of the numbers of those that step. The functions that a program
-- connects are a parameter, which gets the slot's members and the arguments and may change the
-- whole state; whether `assert` is compiled in and whether there is run-time type information are
-- parameters too.
--
-- Bounds and fuel. The order numbers of a task queue wrap at 2^64 as in the code, and the theorems
-- on histories ask for room for the numbers of the history's posts. The loop of `disconnect_if`
-- over a group runs on fuel, the number of the group's slots: each round takes a slot out or moves
-- on. An emission through a chain of signals runs on fuel, the number of signals that the chain goes
-- through, and more fuel changes nothing.
--
-- The slot list of a signal is the value that its `copy_on_write` shows, and an operation under a
-- mutex is one step: CopyOnWrite and SpinMutex say what these two promise, on models of their own.
-- In the steps of a call by several threads the program's function, a post to a queue and `clean` are
-- one step each. The emission of `signal_st` compares the vectors that it loops over in front of and
-- behind a call; a call that changes them and changes them back counts as one that does not.
--
-- Code that does not compile has no behaviour to model. The class `slot_pmf_tracked` is left out. The
-- overloads that would make a `slot_tracked` or a `slot_pmf_extended` name these classes with their
-- template arguments in the wrong order: a selection of them is one that does not compile, and the
-- two classes stand here by their own code.
--
-- Not modelled: weak memory orders; the creation of the registry's only instance; an emission inside
-- another that waits for a promise (a chain of signals through a blocking connection); `typelist`, `make_shared` and the selection of
-- `connect_extended` and `disconnect`, which exist at compile time only; the names of queues; the examples and the repository's tests.
pub mod Base
pub mod Call
pub mod Connect
pub mod Connection
pub mod CopyOnWrite
pub mod Program
pub mod QueuedTask
pub mod Signal
pub mod SignalSlotApi
pub mod Slot
pub mod SpinMutex
pub mod TaskQueue
pub mod TaskQueueManager
pub mod Tests
pub mod Thread
pub mod World
