-- ===== src/Tests.antt =====
-- Runs of the library's results on concrete inputs.
pub mod Data
mod Signals
mod Queues
mod Calls
mod Connects
mod Values
mod Programs
mod Lifetimes
mod Observers
mod Races
mod Registries
