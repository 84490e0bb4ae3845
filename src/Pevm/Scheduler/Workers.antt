-- ===== src/Pevm/Scheduler/Workers.antt =====
-- pevm/crates/pevm/src/pevm.rs: what the worker threads do with the collaborative scheduler's tasks.
use congestion_control.Prelude.{ℕ, ◌<◌, Bool, List, ◌∷◌}
use congestion_control.Pevm.Types.{TxVersion, BitFlags}
use congestion_control.Pevm.Scheduler.{
  Scheduler, Round, found, round, abort, add_dependency, finish_execution, try_validation_abort,
  finish_validation,
}
use congestion_control.Pevm.GraphScheduler.Workers.{
  Work, executes, validates, aborts, as_work, go_on, after_abort, after_dependency, Take,
}

abbrev pub go_on_round : Round → List Work → List Work
go_on_round (found t) ws = as_work t ∷ ws
go_on_round _ ws = ws

pub record System : Type 0 where
  pub scheduler : Scheduler
  pub work : List Work

abbrev pub system : Scheduler → List Work → System
system s ws = record { scheduler = s; work = ws }

-- A step of one thread; of the virtual machine it is known that it blocks on a lower transaction only.
pub data Step (lib : BitFlags) : System → System → Type 0 where
  rounds :
      (s : Scheduler) (ws : List Work)
      → Step lib (system s ws) (system (round s).0 (go_on_round (round s).1 ws))
  finishes :
      (s : Scheduler) {ws rest : List Work} (v : TxVersion) (flags : ℕ)
      → Take (executes v) ws rest
      → Step lib (system s ws) (
          system (finish_execution lib s v flags).0 (go_on (finish_execution lib s v flags).1 rest))
  blocks :
      (s : Scheduler) {ws rest : List Work} (v : TxVersion) (blocking : ℕ)
      → Take (executes v) ws rest
      → blocking < v.tx_idx
      → Step lib (system s ws) (
          system
            (add_dependency s v.tx_idx blocking).0
            (after_dependency (add_dependency s v.tx_idx blocking).1 v rest))
  rejects :
      (s : Scheduler) {ws rest : List Work} (v : TxVersion)
      → Take (validates v) ws rest
      → Step lib
          (system s ws)
          (system (try_validation_abort s v).0 (after_abort (try_validation_abort s v).1 v rest))
  passes :
      (s : Scheduler) {ws rest : List Work} (v : TxVersion)
      → Take (validates v) ws rest
      → Step lib (system s ws) (
          system
            (finish_validation s v Bool.false).0
            (go_on (finish_validation s v Bool.false).1 rest))
  retries :
      (s : Scheduler) {ws rest : List Work} (v : TxVersion)
      → Take (aborts v) ws rest
      → Step lib (system s ws) (
          system
            (finish_validation s v Bool.true).0
            (go_on (finish_validation s v Bool.true).1 rest))
  -- The virtual machine fails: the thread leaves, with its task unfinished.
  fails : (s : Scheduler) (ws : List Work) → Step lib (system s ws) (system (abort s) ws)

pub data Reach (lib : BitFlags) (first : System) : System → Type 0 where
  begin : Reach lib first first
  next : {a b : System} → Reach lib first a → Step lib a b → Reach lib first b
