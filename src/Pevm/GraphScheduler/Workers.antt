-- ===== src/Pevm/GraphScheduler/Workers.antt =====
-- pevm/crates/pevm/src/graph_pevm.rs: what the worker threads do with the graph scheduler's tasks.
-- A task that a thread holds is an item of work; a step is one call of the scheduler by a thread.
use congestion_control.Prelude.{
  ℕ, ◌+◌, ◌≡◌, ◌<◌, refl, Bool, true, false, ◌&&◌, List, [], ◌∷◌, Option, none, some, arith, ◌==◌,
  bit, count, count_if, get_or, set, length, replicate, zero, suc,
}
use congestion_control.Pevm.Types.{TxVersion, Task, execution, validation, BitFlags}
use congestion_control.Pevm.GraphScheduler.{GraphScheduler, Poll, found, poll, abort}
use congestion_control.Pevm.GraphScheduler.Completion.{
  add_dependency, finish_execution, try_validation_abort, finish_validation,
}

-- A thread executes a version, validates one, or has aborted one and is about to report it.
pub data Work : Type 0 where
  executes : TxVersion → Work
  validates : TxVersion → Work
  aborts : TxVersion → Work

abbrev pub as_work : Task → Work
as_work (execution v) = executes v
as_work (validation v) = validates v

-- The thread goes on with the task that it was given, if any.
abbrev pub go_on : Option Task → List Work → List Work
go_on none ws = ws
go_on (some t) ws = as_work t ∷ ws

abbrev pub go_on_polled : Poll → List Work → List Work
go_on_polled (found t) ws = as_work t ∷ ws
go_on_polled _ ws = ws

-- After `try_validation_abort`: the read set is marked and the abort reported, or the validation
-- is reported as passed.
abbrev pub after_abort : Bool → TxVersion → List Work → List Work
after_abort true v ws = aborts v ∷ ws
after_abort false v ws = validates v ∷ ws

abbrev pub after_dependency : Bool → TxVersion → List Work → List Work
after_dependency true v ws = ws
after_dependency false v ws = executes v ∷ ws

-- One item taken out of the work in hand.
pub data Take (w : Work) : List Work → List Work → Type 0 where
  here : {ws : List Work} → Take w (w ∷ ws) ws
  there : {x : Work} {ws rest : List Work} → Take w ws rest → Take w (x ∷ ws) (x ∷ rest)

pub record System : Type 0 where
  pub scheduler : GraphScheduler
  pub work : List Work

abbrev pub system : GraphScheduler → List Work → System
system s ws = record { scheduler = s; work = ws }

-- A step of one thread. What it depends on outside the scheduler (the clock, the virtual machine's
-- outcome, the flags of the execution, the outcome of the read set's validation) is chosen freely,
-- but that the virtual machine blocks on a lower transaction only.
pub data Step (lib : BitFlags) : System → System → Type 0 where
  polls :
      (s : GraphScheduler) (ws : List Work) (expired : Bool)
      → Step lib (system s ws) (system (poll s expired).0 (go_on_polled (poll s expired).1 ws))
  finishes :
      (s : GraphScheduler) {ws rest : List Work} (v : TxVersion) (flags : ℕ)
      → Take (executes v) ws rest
      → Step lib (system s ws) (
          system (finish_execution lib s v flags).0 (go_on (finish_execution lib s v flags).1 rest))
  blocks :
      (s : GraphScheduler) {ws rest : List Work} (v : TxVersion) (blocking : ℕ)
      → Take (executes v) ws rest
      → blocking < v.tx_idx
      → Step lib (system s ws) (
          system
            (add_dependency s v.tx_idx blocking).0
            (after_dependency (add_dependency s v.tx_idx blocking).1 v rest))
  rejects :
      (s : GraphScheduler) {ws rest : List Work} (v : TxVersion)
      → Take (validates v) ws rest
      → Step lib
          (system s ws)
          (system (try_validation_abort s v).0 (after_abort (try_validation_abort s v).1 v rest))
  passes :
      (s : GraphScheduler) {ws rest : List Work} (v : TxVersion)
      → Take (validates v) ws rest
      → Step lib
          (system s ws)
          (system (finish_validation s v false).0 (go_on (finish_validation s v false).1 rest))
  retries :
      (s : GraphScheduler) {ws rest : List Work} (v : TxVersion)
      → Take (aborts v) ws rest
      → Step lib
          (system s ws)
          (system (finish_validation s v true).0 (go_on (finish_validation s v true).1 rest))
  -- The virtual machine fails: the thread leaves, with its task unfinished.
  fails : (s : GraphScheduler) (ws : List Work) → Step lib (system s ws) (system (abort s) ws)

pub data Reach (lib : BitFlags) (start : System) : System → Type 0 where
  begin : Reach lib start start
  next : {a b : System} → Reach lib start a → Step lib a b → Reach lib start b

abbrev pub is_execution_of : ℕ → Work → Bool
is_execution_of i (executes v) = v.tx_idx == i
is_execution_of i _ = false

-- The version that is executed is of this incarnation.
abbrev pub is_incarnation_of : ℕ → ℕ → Work → Bool
is_incarnation_of i n (executes v) = v.tx_idx == i && v.tx_incarnation == n
is_incarnation_of i n _ = false

abbrev pub is_validation_of : ℕ → Work → Bool
is_validation_of i (validates v) = v.tx_idx == i
is_validation_of i _ = false

abbrev pub is_abort_of : ℕ → Work → Bool
is_abort_of i (aborts v) = v.tx_idx == i
is_abort_of i _ = false

pub count_if-Take :
    (p : Work → Bool) {w : Work} {ws rest : List Work}
    → Take w ws rest
    → count_if p ws ≡ bit (p w) + count_if p rest
count_if-Take p here = refl
count_if-Take p (there t) = omega (arith, count_if-Take p t)

-- In how many lists of dependents a transaction stands.
abbrev pub waits : ℕ → List (List ℕ) → ℕ
waits i [] = 0
waits i (ds ∷ dss) = count i ds + waits i dss

pub waits-set :
    (i t : ℕ) (dss : List (List ℕ)) (ds : List ℕ)
    → t < length dss
    → waits i (set dss t ds) + count i (get_or dss t []) ≡ waits i dss + count i ds
waits-set i t [] ds h = elim h [ ]
waits-set i zero (d ∷ dss) ds h = omega arith
waits-set i (suc t) (d ∷ dss) ds h = omega (arith, waits-set i t dss ds (omega arith))

pub waits-replicate : (i n : ℕ) → waits i (replicate n []) ≡ 0
waits-replicate i zero = refl
waits-replicate i (suc n) = omega (arith, waits-replicate i n)
