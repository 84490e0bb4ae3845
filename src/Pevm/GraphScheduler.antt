-- ===== src/Pevm/GraphScheduler.antt =====
-- pevm/crates/pevm/src/graph_scheduler.rs: the scheduler that hands out execution tasks in the
-- order of a dependency graph. A method takes `&self` and returns the new state with its result.
-- Each method is one atomic step, which the interleavings of the workers are sequences of.
-- `claim_validation` is the rest of `try_validation_task` after its reads, for threads that read
-- before others go on.
pub mod Completion
pub mod Workers
pub mod Invariant
pub mod Safety
pub mod Progress
mod Tests
use congestion_control.Prelude.{
  ℕ, suc, ◌+◌, ◌-◌, min, Bool, true, false, not, ◌&&◌, List, [], ◌∷◌, map, Option, none, some, ltb,
  leb, ◌==◌, if◌then◌else◌, length, get_or, set, replicate,
}
use congestion_control.Pevm.Types.{
  IncarnationStatus, ready_to_execute, executing, executed, validated, aborting, TxStatus,
  TxVersion, Task, execution, validation, is_ready, is_validated, is_executed, is_done, BitFlags,
  need_validation, wrote_new_location,
}
use congestion_control.Pevm.Atomics.{wrapping_decrement, heap_push, heap_peek_or, heap_is_empty}
use congestion_control.Pevm.Node.{TransactionNode, no_node}

-- The condvar and the diagnostics counter hold no state that a method reads. Of the dependency
-- graph the scheduler reads the nodes only.
pub record GraphScheduler : Type 0 where
  pub block_size : ℕ
  pub transactions_status : List TxStatus
  pub transactions_dependents : List (List ℕ)
  pub validation_idx : ℕ
  pub min_validation_idx : ℕ
  pub num_validated : ℕ
  pub aborted : Bool
  pub dependency_graph : List TransactionNode
  pub executable_txs : List ℕ
  pub remaining_dependencies : List ℕ
  pub children_released : List Bool
  pub re_execution_count : ℕ

abbrev pub no_status : TxStatus
no_status = record { incarnation = 0; status = ready_to_execute }

abbrev pub status_at : GraphScheduler → ℕ → TxStatus
status_at s i = get_or s.transactions_status i no_status

abbrev pub set_tx : GraphScheduler → ℕ → TxStatus → GraphScheduler
set_tx s i tx = record s { transactions_status = set s.transactions_status i tx }

-- `tx.status = …` under the transaction's lock
abbrev pub set_status : GraphScheduler → ℕ → IncarnationStatus → GraphScheduler
set_status s i st = set_tx s i (record { incarnation = (status_at s i).incarnation; status = st })

abbrev pub version_at : GraphScheduler → ℕ → TxVersion
version_at s i = record { tx_idx = i; tx_incarnation = (status_at s i).incarnation }

abbrev pub parents_of : List TransactionNode → ℕ → List ℕ
parents_of nodes i = (get_or nodes i no_node).parent_indices

abbrev pub children_of : List TransactionNode → ℕ → List ℕ
children_of nodes i = (get_or nodes i no_node).children_indices

-- Step 2 of `new`: the indices, from `i` on, of the nodes that have no parents.
pub roots_from : ℕ → List TransactionNode → List ℕ
roots_from i [] = []
roots_from i (n ∷ ns) =
    let rest = roots_from (i + 1) ns in
    if heap_is_empty n.parent_indices then heap_push i rest else rest

unfoldable pub new : ℕ → List TransactionNode → GraphScheduler
unfolding roots_from
new block_size dependency_graph = record {
  block_size = block_size;
  transactions_status = replicate block_size no_status;
  transactions_dependents = replicate block_size [];
  validation_idx = block_size;
  min_validation_idx = block_size;
  num_validated = 0;
  aborted = false;
  dependency_graph = dependency_graph;
  executable_txs = roots_from 0 dependency_graph;
  remaining_dependencies = map (λ n. length n.parent_indices) dependency_graph;
  children_released = replicate block_size false;
  re_execution_count = 0;
}

unfoldable pub abort : GraphScheduler → GraphScheduler
abort s = record s { aborted = true }

unfoldable pub check_all_done : GraphScheduler → Bool
check_all_done s =
    heap_is_empty s.executable_txs
    && leb s.block_size s.validation_idx
    && leb (s.block_size - s.min_validation_idx) s.num_validated

abbrev pub all_dependencies_satisfied : GraphScheduler → ℕ → Bool
all_dependencies_satisfied s i = get_or s.remaining_dependencies i 0 == 0

-- The `match tx.status` of `try_execute`.
start_execution : IncarnationStatus → GraphScheduler → ℕ → GraphScheduler × Option TxVersion
start_execution ready_to_execute s i =
    let counted =
      if ltb 0 (status_at s i).incarnation
      then s.re_execution_count + 1
      else s.re_execution_count in
    (record (set_status s i executing) { re_execution_count = counted }, some (version_at s i))
start_execution aborting s i =
    let next = (status_at s i).incarnation + 1 in
    (
      record (set_tx s i (record { incarnation = next; status = executing })) {
        re_execution_count = s.re_execution_count + 1;
      },
      some (record { tx_idx = i; tx_incarnation = next }),
    )
start_execution _ s i = (s, none)

unfoldable pub try_execute : GraphScheduler → ℕ → GraphScheduler × Option TxVersion
unfolding start_execution
try_execute s i =
    if leb s.block_size i
    then (s, none)
    else if not (all_dependencies_satisfied s i)
    then (s, none)
    else start_execution (status_at s i).status s i

as_execution : GraphScheduler × Option TxVersion → GraphScheduler × Option Task
as_execution (s, none) = (s, none)
as_execution (s, some v) = (s, some (execution v))

-- `validation_idx` has been fetched and added to: what is done with the transaction there.
unfoldable pub validate_at : GraphScheduler → ℕ → GraphScheduler × Option Task
validate_at s i =
    if is_ready (status_at s i).status && all_dependencies_satisfied s i
    then (set_status s i executing, some (execution (version_at s i)))
    else if is_done (status_at s i).status
    then (s, some (validation (version_at s i)))
    else (s, none)

-- `try_validation_task` after its two reads: the index and the lowest entry of the heap as they were
-- then, which other threads may have changed since.
abbrev pub claim_validation : ℕ → ℕ → GraphScheduler → GraphScheduler × Option Task
claim_validation loaded exec_idx s =
    if ltb loaded exec_idx
    then (let i = s.validation_idx in
        let s' = record s { validation_idx = i + 1 } in
        if ltb i s.block_size then validate_at s' i else (s', none))
    else (s, none)

-- The reads and what follows them, with no other thread in between.
unfoldable pub try_validation_task : GraphScheduler → GraphScheduler × Option Task
unfolding validate_at
try_validation_task s =
    claim_validation s.validation_idx (heap_peek_or s.executable_txs s.block_size) s

-- Takes the heap, so that the pop is a match.
pop_and_execute : List ℕ → GraphScheduler → GraphScheduler × Option Task
unfolding as_execution
pop_and_execute [] s = (s, none)
pop_and_execute (i ∷ rest) s = as_execution (try_execute (record s { executable_txs = rest }) i)

unfoldable pub try_execution_task : GraphScheduler → GraphScheduler × Option Task
unfolding pop_and_execute
try_execution_task s = pop_and_execute s.executable_txs s

-- How one round of the loop of `next_task` ends: it returns nothing, returns a task, or goes on
-- after it has waited on the condvar for at most a millisecond.
pub data Poll : Type 0 where
  stop : Poll
  found : Task → Poll
  again : Poll

as_poll : GraphScheduler × Option Task → GraphScheduler × Poll
as_poll (s, some t) = (s, found t)
as_poll (s, none) = (s, again)

or_execution : GraphScheduler × Option Task → GraphScheduler × Poll
unfolding as_poll
or_execution (s, some t) = (s, found t)
or_execution (s, none) = as_poll (try_execution_task s)

-- One round, given whether the hard timeout has passed.
unfoldable pub poll : GraphScheduler → Bool → GraphScheduler × Poll
unfolding or_execution
poll s expired =
    if s.aborted
    then (s, stop)
    else if expired
    then (abort s, stop)
    else if check_all_done s
    then (s, stop)
    else or_execution (try_validation_task s)

-- The loop of `next_task`, given what the clock says in each round; `again` stands for a thread
-- that is still in the loop after these rounds.
unfoldable pub next_task : List Bool → GraphScheduler → GraphScheduler × Poll
next_task [] s = (s, again)
next_task (expired ∷ rounds) s = elim ((poll s expired).1) [
  | again ↦ next_task rounds (poll s expired).0
  | stop ↦ poll s expired
  | found t ↦ poll s expired
]
