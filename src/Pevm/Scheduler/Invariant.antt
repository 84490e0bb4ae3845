-- ===== src/Pevm/Scheduler/Invariant.antt =====
-- The invariant that ties the collaborative scheduler's state to the tasks that its workers hold.
pub mod Sweeps
pub mod Rounds
pub mod Blocks
pub mod Validations
pub mod Retries
pub mod Resumes
pub mod Finishes
use congestion_control.Prelude.{
  ℕ, ◌+◌, ◌≡◌, ◌≤◌, ◌<◌, ◌⊎◌, Bool, true, false, List, [], bit, count_if, length, inl, inr,
  lt_or_le, arith,
}
use congestion_control.Pevm.Types.{
  TxStatus, TxVersion, executing, is_ready, is_executing, is_executed, is_validated, is_aborting,
  is_done,
}
use congestion_control.Pevm.Scheduler.{Scheduler, status_at, dependents_at}
use congestion_control.Pevm.GraphScheduler.Workers.{
  Work, executes, validates, aborts, Take, count_if-Take, waits, is_execution_of, is_incarnation_of,
  is_validation_of, is_abort_of,
}
use congestion_control.Pevm.GraphScheduler.Invariant.Finish.{incarnation-le-execution}

abbrev pub has_validated : TxStatus → Bool
has_validated tx = is_validated tx.status

-- What holds of one transaction.
pub record IsTracked (s : Scheduler) (ws : List Work) (i : ℕ) : Type 0 where
  -- exactly one thread executes a transaction that is executing, at its current incarnation
  pub one_execution : count_if (is_execution_of i) ws ≡ bit (is_executing (status_at s i).status)
  pub current :
      is_executing (status_at s i).status ≡ true
      → count_if (is_incarnation_of i (status_at s i).incarnation) ws ≡ 1
  -- an aborting one waits for one other, or one thread is about to retry it
  pub one_wait :
      waits i s.transactions_dependents + count_if (is_abort_of i) ws
      ≡ bit (is_aborting (status_at s i).status)
  -- a ready one will be executed, and an executed one validated
  pub to_execute : is_ready (status_at s i).status ≡ true → s.execution_idx ≤ i
  pub to_validate :
      is_executed (status_at s i).status ≡ true
      → (s.validation_idx ≤ i) ⊎ (0 < count_if (is_validation_of i) ws)
  -- nobody waits for a transaction that is done
  pub awaited : is_done (status_at s i).status ≡ true → dependents_at s i ≡ []

pub record IsAbsent (s : Scheduler) (ws : List Work) (i : ℕ) : Type 0 where
  pub no_execution : count_if (is_execution_of i) ws ≡ 0
  pub no_validation : count_if (is_validation_of i) ws ≡ 0
  pub no_wait : waits i s.transactions_dependents + count_if (is_abort_of i) ws ≡ 0

pub record IsValid (s : Scheduler) (ws : List Work) : Type 0 where
  pub statuses_sized : length s.transactions_status ≡ s.block_size
  pub dependents_sized : length s.transactions_dependents ≡ s.block_size
  pub validated_counted : s.num_validated ≡ count_if has_validated s.transactions_status
  pub tracked : (i : ℕ) → i < s.block_size → IsTracked s ws i
  pub absent : (i : ℕ) → s.block_size ≤ i → IsAbsent s ws i

module _ (s : Scheduler) {ws rest : List Work} (v : TxVersion) (k : IsValid s ws) where
  pub executes-in_block : Take (executes v) ws rest → v.tx_idx < s.block_size
  executes-in_block taken = elim (lt_or_le v.tx_idx s.block_size) [
    | inl h ↦ h
    | inr h ↦
        ground (
          arith,
          (k.absent v.tx_idx h).no_execution,
          count_if-Take (is_execution_of v.tx_idx) taken,
        )
  ]

  pub validates-in_block : Take (validates v) ws rest → v.tx_idx < s.block_size
  validates-in_block taken = elim (lt_or_le v.tx_idx s.block_size) [
    | inl h ↦ h
    | inr h ↦ ground (
      arith,
      (k.absent v.tx_idx h).no_validation,
      count_if-Take (is_validation_of v.tx_idx) taken,
    )
  ]

  pub aborts-in_block : Take (aborts v) ws rest → v.tx_idx < s.block_size
  aborts-in_block taken = elim (lt_or_le v.tx_idx s.block_size) [
    | inl h ↦ h
    | inr h ↦
        ground (arith, (k.absent v.tx_idx h).no_wait, count_if-Take (is_abort_of v.tx_idx) taken)
  ]

  -- The assertions at the head of `finish_execution`.
  pub executes-current :
      Take (executes v) ws rest
      → status_at s v.tx_idx ≡ record { incarnation = v.tx_incarnation; status = executing }
  executes-current taken =
      let t = k.tracked v.tx_idx (executes-in_block taken) in
      let n = (status_at s v.tx_idx).incarnation in
      ground (
        arith,
        count_if-Take (is_execution_of v.tx_idx) taken,
        count_if-Take (is_incarnation_of v.tx_idx n) taken,
        incarnation-le-execution v.tx_idx n rest,
      )
