-- ===== src/Pevm/GraphScheduler/Invariant.antt =====
-- The invariant that ties the graph scheduler's state to the tasks that its workers hold.
pub mod Release
pub mod Resume
pub mod Finish
pub mod Block
pub mod Validate
pub mod Report
pub mod Poll
pub mod Pop
use congestion_control.Prelude.{
  ℕ, ◌+◌, ◌≡◌, ◌≤◌, ◌<◌, ◌⊎◌, Bool, true, false, ◌&&◌, List, [], ◌==◌, bit, count, count_if, get_or,
  length, ◌∷◌,
}
use congestion_control.Pevm.Types.{
  TxStatus, is_ready, is_executing, is_executed, is_validated, is_aborting, is_done,
}
use congestion_control.Pevm.Atomics.{IsSorted}
use congestion_control.Pevm.Node.{TransactionNode}
use congestion_control.Pevm.GraphScheduler.{GraphScheduler, status_at, parents_of, children_of}
use congestion_control.Pevm.GraphScheduler.Completion.{dependents_at}
use congestion_control.Pevm.GraphScheduler.Completion.Release.{remaining_at, unreleased}
use congestion_control.Pevm.GraphScheduler.Workers.{
  Work, waits, is_execution_of, is_incarnation_of, is_validation_of, is_abort_of,
}

abbrev pub has_validated : TxStatus → Bool
has_validated tx = is_validated tx.status

-- Every edge is in the list of its parent as often as in that of its child.
abbrev pub IsMirrored : List TransactionNode → Type 0
IsMirrored nodes = (p c : ℕ) → count c (children_of nodes p) ≡ count p (parents_of nodes c)

-- What holds of one transaction.
pub record IsTracked (s : GraphScheduler) (ws : List Work) (i : ℕ) : Type 0 where
  -- exactly one thread executes a transaction that is executing, at its current incarnation
  pub one_execution : count_if (is_execution_of i) ws ≡ bit (is_executing (status_at s i).status)
  pub current :
      is_executing (status_at s i).status ≡ true
      → count_if (is_incarnation_of i (status_at s i).incarnation) ws ≡ 1
  -- an aborting one waits for one other, or one thread is about to retry it
  pub one_wait :
      waits i s.transactions_dependents + count_if (is_abort_of i) ws
      ≡ bit (is_aborting (status_at s i).status)
  -- the heap holds what is ready and has no graph dependency left, once
  pub in_heap :
      count i s.executable_txs ≡ bit (is_ready (status_at s i).status && remaining_at s i == 0)
  pub satisfied : is_ready (status_at s i).status ≡ false → remaining_at s i ≡ 0
  pub counted : remaining_at s i ≡ unreleased s.children_released (parents_of s.dependency_graph i)
  pub released : is_done (status_at s i).status ≡ true → get_or s.children_released i false ≡ true
  -- an executed one will be validated
  pub to_validate :
      is_executed (status_at s i).status ≡ true
      → (s.validation_idx ≤ i) ⊎ (0 < count_if (is_validation_of i) ws)
  -- nobody waits for a transaction that is done
  pub awaited : is_done (status_at s i).status ≡ true → dependents_at s i ≡ []

-- No such item, list or heap entry is of a transaction past the block.
pub record IsAbsent (s : GraphScheduler) (ws : List Work) (i : ℕ) : Type 0 where
  pub no_execution : count_if (is_execution_of i) ws ≡ 0
  pub no_validation : count_if (is_validation_of i) ws ≡ 0
  pub no_wait : waits i s.transactions_dependents + count_if (is_abort_of i) ws ≡ 0
  pub no_entry : count i s.executable_txs ≡ 0

pub record IsValid (s : GraphScheduler) (ws : List Work) : Type 0 where
  pub statuses_sized : length s.transactions_status ≡ s.block_size
  pub dependents_sized : length s.transactions_dependents ≡ s.block_size
  pub remaining_sized : length s.remaining_dependencies ≡ s.block_size
  pub released_sized : length s.children_released ≡ s.block_size
  pub nodes_sized : length s.dependency_graph ≡ s.block_size
  pub heap_sorted : IsSorted s.executable_txs
  pub mirrored : IsMirrored s.dependency_graph
  pub validated_counted : s.num_validated ≡ count_if has_validated s.transactions_status
  pub tracked : (i : ℕ) → i < s.block_size → IsTracked s ws i
  pub absent : (i : ℕ) → s.block_size ≤ i → IsAbsent s ws i
