-- ===== src/Pevm/Scheduler.antt =====
-- pevm/crates/pevm/src/scheduler.rs: the collaborative scheduler, which sweeps two indices over the
-- block. Each method is one atomic step, as in the graph scheduler.
pub mod Workers
pub mod Invariant
pub mod Safety
pub mod Upward
pub mod Progress
mod Tests
use congestion_control.Prelude.{
  ℕ, zero, suc, ◌+◌, ◌-◌, min, Bool, true, false, not, ◌&&◌, List, [], ◌∷◌, ◌++◌, Option, none,
  some, ltb, leb, ◌==◌, if◌then◌else◌, get_or, set, replicate,
}
use congestion_control.Pevm.Types.{
  IncarnationStatus, ready_to_execute, executing, executed, validated, aborting, TxStatus,
  TxVersion, Task, execution, validation, is_ready, is_validated, is_executed, is_done, is_aborting,
  BitFlags, need_validation, wrote_new_location,
}
use congestion_control.Pevm.Atomics.{wrapping_decrement}

-- The counter of the diagnostics is left out.
pub record Scheduler : Type 0 where
  pub block_size : ℕ
  pub transactions_status : List TxStatus
  pub transactions_dependents : List (List ℕ)
  pub execution_idx : ℕ
  pub validation_idx : ℕ
  pub min_validation_idx : ℕ
  pub num_validated : ℕ
  pub aborted : Bool

abbrev pub no_status : TxStatus
no_status = record { incarnation = 0; status = ready_to_execute }

abbrev pub status_at : Scheduler → ℕ → TxStatus
status_at s i = get_or s.transactions_status i no_status

abbrev pub dependents_at : Scheduler → ℕ → List ℕ
dependents_at s i = get_or s.transactions_dependents i []

abbrev pub set_tx : Scheduler → ℕ → TxStatus → Scheduler
set_tx s i tx = record s { transactions_status = set s.transactions_status i tx }

abbrev pub set_status : Scheduler → ℕ → IncarnationStatus → Scheduler
set_status s i st = set_tx s i (record { incarnation = (status_at s i).incarnation; status = st })

abbrev pub version_at : Scheduler → ℕ → TxVersion
version_at s i = record { tx_idx = i; tx_incarnation = (status_at s i).incarnation }

unfoldable pub new : ℕ → Scheduler
new block_size = record {
  block_size = block_size;
  transactions_status = replicate block_size no_status;
  transactions_dependents = replicate block_size [];
  execution_idx = 0;
  validation_idx = block_size;
  min_validation_idx = block_size;
  num_validated = 0;
  aborted = false;
}

unfoldable pub abort : Scheduler → Scheduler
abort s = record s { aborted = true }

unfoldable pub try_execute : Scheduler → ℕ → Scheduler × Option TxVersion
try_execute s i =
    if ltb i s.block_size && is_ready (status_at s i).status
    then (set_status s i executing, some (version_at s i))
    else (s, none)

-- How one round of the loop of `next_task` ends: the loop is left, with a task or none, or goes on.
pub data Round : Type 0 where
  stop : Round
  found : Task → Round
  again : Round

as_round : Scheduler × Option TxVersion → Scheduler × Round
as_round (s, some v) = (s, found (execution v))
as_round (s, none) = (s, again)

-- The part that prioritizes execution.
unfoldable pub sweep_execution : Scheduler → Scheduler × Round
unfolding as_round
sweep_execution s =
    as_round (try_execute (record s { execution_idx = s.execution_idx + 1 }) s.execution_idx)

-- The part that prioritizes validation; a transaction that is executing is left to the other part.
unfoldable pub sweep_validation : Scheduler → Scheduler × Round
sweep_validation s =
    let i = s.validation_idx in
    let s' = record s { validation_idx = i + 1 } in
    if ltb i s.block_size
    then (if is_ready (status_at s i).status
        then (set_status s' i executing, found (execution (version_at s i)))
        else if is_done (status_at s i).status
        then (s', found (validation (version_at s i)))
        else if is_aborting (status_at s i).status
        then (s', again)
        else sweep_execution s')
    else sweep_execution s'

-- One round.
unfoldable pub round : Scheduler → Scheduler × Round
round s =
    if s.aborted
    then (s, stop)
    else if leb s.block_size s.execution_idx && leb s.block_size s.validation_idx
    then (s, if leb (s.block_size - s.min_validation_idx) s.num_validated then stop else again)
    else if ltb s.validation_idx s.execution_idx
    then sweep_validation s
    else sweep_execution s

-- The loop on fuel; `again` stands for a thread that is still in the loop after these rounds.
unfoldable pub next_task : ℕ → Scheduler → Scheduler × Round
next_task zero s = (s, again)
next_task (suc fuel) s = elim ((round s).1) [
  | again ↦ next_task fuel (round s).0
  | stop ↦ round s
  | found t ↦ round s
]

unfoldable pub add_dependency : Scheduler → ℕ → ℕ → Scheduler × Bool
add_dependency s i blocking = if is_done (status_at s blocking).status then (s, false) else (
  record (set_status s i aborting) {
    transactions_dependents =
        set s.transactions_dependents blocking (dependents_at s blocking ++ i ∷ []);
  },
  true,
)

unfoldable pub set_ready_status : Scheduler → ℕ → Scheduler
set_ready_status s i =
    set_tx s i (record { incarnation = (status_at s i).incarnation + 1; status = ready_to_execute })

-- One round of the loop over the drained dependents.
unfoldable pub resume : Scheduler → ℕ → Scheduler
resume s i = let s' = set_ready_status s i in record s' { execution_idx = min s'.execution_idx i }

unfoldable pub resume_all : Scheduler → List ℕ → Scheduler
resume_all s [] = s
resume_all s (i ∷ is) = resume_all (resume s i) is

unfoldable pub resume_dependents : Scheduler → ℕ → Scheduler
resume_dependents s i =
    resume_all (record s { transactions_dependents = set s.transactions_dependents i [] })
      (dependents_at s i)

abbrev pub count_validated : Scheduler → Scheduler
count_validated s = record s { num_validated = s.num_validated + 1 }

-- The last statement of `finish_execution`.
abbrev pub conclude : Bool → Scheduler → TxVersion → Scheduler × Option Task
conclude need s v =
    if need
    then (set_status s v.tx_idx executed, none)
    else (count_validated (set_status s v.tx_idx validated), none)

abbrev pub lower_validation : Bool → Scheduler → ℕ → Scheduler
lower_validation wrote s i =
    if wrote then record s { validation_idx = min s.validation_idx i } else s

-- The part on validation: whether the transaction needs it, and whether it wrote a new location.
unfoldable pub schedule_validation : Bool → Bool → Scheduler → TxVersion → Scheduler × Option Task
schedule_validation need wrote s v =
    let lowest = if need then min s.min_validation_idx v.tx_idx else s.min_validation_idx in
    let s' = record s { min_validation_idx = lowest } in
    if ltb lowest s.block_size
    then (if ltb v.tx_idx lowest
        then conclude need (lower_validation wrote s' lowest) v
        else if ltb v.tx_idx s.validation_idx
        then (let s'' = lower_validation wrote s' (v.tx_idx + 1) in
            if need
            then (set_status s'' v.tx_idx executed, some (validation v))
            else conclude need (count_validated (set_status s'' v.tx_idx validated)) v)
        else conclude need s' v)
    else conclude need s' v

unfoldable pub finish_execution : BitFlags → Scheduler → TxVersion → ℕ → Scheduler × Option Task
finish_execution lib s v flags =
    schedule_validation (lib.contains flags need_validation) (lib.contains flags wrote_new_location)
      (resume_dependents s v.tx_idx) v

unfoldable pub try_validation_abort : Scheduler → TxVersion → Scheduler × Bool
try_validation_abort s v =
    let st = (status_at s v.tx_idx).status in
    let s' =
      if is_validated st
      then record s { num_validated = wrapping_decrement s.num_validated }
      else s in
    if is_done st then (set_status s' v.tx_idx aborting, true) else (s', false)

as_execution : Scheduler × Option TxVersion → Scheduler × Option Task
as_execution (s, none) = (s, none)
as_execution (s, some v) = (s, some (execution v))

-- The branch of `finish_validation` for an aborted transaction.
unfoldable pub retry : Scheduler → ℕ → Scheduler × Option Task
unfolding as_execution
retry s i =
    let s' = set_ready_status s i in
    let s'' = record s' { validation_idx = min s'.validation_idx (i + 1) } in
    if ltb i s''.execution_idx then as_execution (try_execute s'' i) else (s'', none)

unfoldable pub finish_validation : Scheduler → TxVersion → Bool → Scheduler × Option Task
finish_validation s v aborted =
    if aborted
    then retry s v.tx_idx
    else if is_executed (status_at s v.tx_idx).status
    then (count_validated (set_status s v.tx_idx validated), none)
    else (s, none)

unfoldable pub incarnations : List TxStatus → ℕ
incarnations [] = 0
incarnations (tx ∷ txs) = tx.incarnation + incarnations txs

unfoldable pub total_reexecutions : Scheduler → ℕ
total_reexecutions s = incarnations s.transactions_status
