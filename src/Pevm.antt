-- ===== src/Pevm.antt =====
-- pevm/crates/pevm: the parallel executor and its dependency graphs.
pub mod Types
pub mod Atomics
pub mod Node
pub mod GraphScheduler
pub mod DependencyGraph
pub mod GraphPevm
pub mod MvMemory
pub mod Scheduler
pub mod NonceTracker
