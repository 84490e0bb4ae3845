-- ===== src/Pevm/GraphScheduler/Completion.antt =====
-- pevm/crates/pevm/src/graph_scheduler.rs: how a worker reports what became of its task.
pub mod Release
pub mod Resume
use congestion_control.Prelude.{
  ℕ, ◌+◌, min, Bool, true, false, List, [], ◌∷◌, ◌++◌, Option, none, some, ltb, ◌==◌, if◌then◌else◌,
  get_or, set,
}
use congestion_control.Pevm.Types.{
  ready_to_execute, executed, validated, aborting, TxVersion, Task, validation, is_validated,
  is_executed, is_done, BitFlags, need_validation, wrote_new_location,
}
use congestion_control.Pevm.Atomics.{wrapping_decrement, heap_push}
use congestion_control.Pevm.GraphScheduler.{
  GraphScheduler, status_at, set_tx, set_status, children_of, all_dependencies_satisfied,
  try_execute, as_execution,
}

abbrev pub dependents_at : GraphScheduler → ℕ → List ℕ
dependents_at s i = get_or s.transactions_dependents i []

abbrev pub push_ready : GraphScheduler → ℕ → GraphScheduler
push_ready s i = record s { executable_txs = heap_push i s.executable_txs }

-- `false` when the blocking transaction has finished in the meantime.
unfoldable pub add_dependency : GraphScheduler → ℕ → ℕ → GraphScheduler × Bool
add_dependency s i blocking = if is_done (status_at s blocking).status then (s, false) else (
  record (set_status s i aborting) {
    transactions_dependents =
        set s.transactions_dependents blocking (dependents_at s blocking ++ i ∷ []);
  },
  true,
)

unfoldable pub set_ready_status : GraphScheduler → ℕ → GraphScheduler
set_ready_status s i =
    set_tx s i (record { incarnation = (status_at s i).incarnation + 1; status = ready_to_execute })

-- One round of the loop over the children: the last parent to finish makes the child executable.
unfoldable pub release_child : GraphScheduler → ℕ → GraphScheduler
release_child s c =
    let prev_count = get_or s.remaining_dependencies c 0 in
    let s' = record s {
      remaining_dependencies = set s.remaining_dependencies c (wrapping_decrement prev_count);
    } in
    if prev_count == 1 then push_ready s' c else s'

unfoldable pub release_all : GraphScheduler → List ℕ → GraphScheduler
release_all s [] = s
release_all s (c ∷ cs) = release_all (release_child s c) cs

unfoldable pub release_children : GraphScheduler → ℕ → GraphScheduler
release_children s i =
    let s' = record s { children_released = set s.children_released i true } in
    if get_or s.children_released i false
    then s'
    else release_all s' (children_of s.dependency_graph i)

-- One round of the loop over the drained dependents.
unfoldable pub resume : GraphScheduler → ℕ → GraphScheduler
resume s i = if all_dependencies_satisfied s i then push_ready (set_ready_status s i) i else s

unfoldable pub resume_all : GraphScheduler → List ℕ → GraphScheduler
resume_all s [] = s
resume_all s (i ∷ is) = resume_all (resume s i) is

unfoldable pub resume_dependents : GraphScheduler → ℕ → GraphScheduler
resume_dependents s i =
    resume_all (record s { transactions_dependents = set s.transactions_dependents i [] })
      (dependents_at s i)

abbrev pub count_validated : GraphScheduler → GraphScheduler
count_validated s = record s { num_validated = s.num_validated + 1 }

-- The last statement of `finish_execution`.
abbrev pub conclude : Bool → GraphScheduler → TxVersion → GraphScheduler × Option Task
conclude need s v =
    if need
    then (set_status s v.tx_idx executed, none)
    else (count_validated (set_status s v.tx_idx validated), none)

abbrev pub lower_validation : Bool → GraphScheduler → ℕ → GraphScheduler
lower_validation wrote s i =
    if wrote then record s { validation_idx = min s.validation_idx i } else s

-- The part on validation: whether the transaction needs it, and whether it wrote a new location.
unfoldable pub schedule_validation :
    Bool → Bool → GraphScheduler → TxVersion → GraphScheduler × Option Task
schedule_validation need wrote s v =
    let lowest = if need then min s.min_validation_idx v.tx_idx else s.min_validation_idx in
    let s' = record s { min_validation_idx = lowest } in
    if ltb lowest s.block_size
    then (if ltb v.tx_idx lowest
        then conclude need (lower_validation wrote s' lowest) v
        else if ltb v.tx_idx s.validation_idx
        then (let s'' = lower_validation wrote s' (v.tx_idx + 1) in
            if need
            then (set_status s'' v.tx_idx executed, some (validation v))
            else conclude need (count_validated (set_status s'' v.tx_idx validated)) v)
        else conclude need s' v)
    else conclude need s' v

unfoldable pub finish_execution :
    BitFlags → GraphScheduler → TxVersion → ℕ → GraphScheduler × Option Task
finish_execution lib s v flags =
    schedule_validation (lib.contains flags need_validation) (lib.contains flags wrote_new_location)
      (resume_dependents (release_children s v.tx_idx) v.tx_idx) v

unfoldable pub try_validation_abort : GraphScheduler → TxVersion → GraphScheduler × Bool
try_validation_abort s v =
    let st = (status_at s v.tx_idx).status in
    let s' =
      if is_validated st
      then record s { num_validated = wrapping_decrement s.num_validated }
      else s in
    if is_done st then (set_status s' v.tx_idx aborting, true) else (s', false)

-- The branch of `finish_validation` for an aborted transaction: it is executed again.
unfoldable pub retry : GraphScheduler → ℕ → GraphScheduler × Option Task
unfolding as_execution
retry s i =
    let s' = set_ready_status s i in
    let s'' = record s' { validation_idx = min s'.validation_idx (i + 1) } in
    if all_dependencies_satisfied s'' i then as_execution (try_execute s'' i) else (s'', none)

unfoldable pub finish_validation : GraphScheduler → TxVersion → Bool → GraphScheduler × Option Task
finish_validation s v aborted =
    if aborted
    then retry s v.tx_idx
    else if is_executed (status_at s v.tx_idx).status
    then (count_validated (set_status s v.tx_idx validated), none)
    else (s, none)
