-- ===== src/Pevm/GraphScheduler/Invariant/Validate.antt =====
-- `try_validation_abort` and `finish_validation` keep the invariant.
use congestion_control.Prelude.{
  ℕ, ◌≡◌, ◌≤◌, ◌<◌, subst, true, false, List, ◌∷◌, arith, count_if-set, get_or-set, length-set,
  if◌then◌else◌, inl, inr, Bool-cases, lt_or_le,
}
use congestion_control.Pevm.Types.{TxVersion, aborting, is_done, is_validated, TxStatus}
use congestion_control.Pevm.Atomics.{wrapping_decrement, IsSorted}
use congestion_control.Pevm.GraphScheduler.{GraphScheduler, status_at, no_status, set_status}
use congestion_control.Pevm.GraphScheduler.Completion.{try_validation_abort}
use congestion_control.Pevm.GraphScheduler.Workers.{
  Work, validates, aborts, Take, count_if-Take, is_execution_of, is_validation_of, is_abort_of,
  is_incarnation_of, after_abort,
}
use congestion_control.Pevm.GraphScheduler.Invariant.{
  IsTracked, IsAbsent, IsValid, IsMirrored, has_validated,
}
use congestion_control.Pevm.GraphScheduler.Invariant.Block.{put_back-IsValid}

-- The state that the abort of a version that is done leaves.
abbrev aborted_at : GraphScheduler → ℕ → GraphScheduler
aborted_at s i =
    let s' =
      if is_validated (status_at s i).status
      then record s { num_validated = wrapping_decrement s.num_validated }
      else s in
    set_status s' i aborting

module _ (s : GraphScheduler) {ws rest : List Work} (v : TxVersion) (k : IsValid s ws)
    (taken : Take (validates v) ws rest) where
  pub validates-in_block : v.tx_idx < s.block_size
  validates-in_block = elim (lt_or_le v.tx_idx s.block_size) [
    | inl h ↦ h
    | inr h ↦ ground (
      arith,
      (k.absent v.tx_idx h).no_validation,
      count_if-Take (is_validation_of v.tx_idx) taken,
    )
  ]

  module _ (finished : is_done (status_at s v.tx_idx).status ≡ true) where
    aborted-IsTracked :
        (i : ℕ) → i < s.block_size → IsTracked (aborted_at s v.tx_idx) (aborts v ∷ rest) i
    aborted-IsTracked i h =
        let t = k.tracked i h in
        let g =
          get_or-set s.transactions_status v.tx_idx i
            (record { incarnation = (status_at s v.tx_idx).incarnation; status = aborting })
            no_status in
        let x = count_if-Take (is_execution_of i) taken in
        let y = count_if-Take (is_incarnation_of i (status_at s i).incarnation) taken in
        let z = count_if-Take (is_validation_of i) taken in
        let w = count_if-Take (is_abort_of i) taken in
        let l = k.statuses_sized in
        record {
          one_execution = ground arith;
          current = ground arith;
          one_wait = ground arith;
          in_heap = ground arith;
          satisfied = ground arith;
          counted = ground arith;
          released = ground arith;
          to_validate = ground arith;
          awaited = ground arith;
        }

    aborted-IsAbsent :
        (i : ℕ) → s.block_size ≤ i → IsAbsent (aborted_at s v.tx_idx) (aborts v ∷ rest) i
    aborted-IsAbsent i h =
        let t = k.absent i h in
        let u = validates-in_block in
        let x = count_if-Take (is_execution_of i) taken in
        let z = count_if-Take (is_validation_of i) taken in
        let w = count_if-Take (is_abort_of i) taken in
        record {
          no_execution = ground arith;
          no_validation = ground arith;
          no_wait = ground arith;
          no_entry = ground arith;
        }

    aborted-IsValid : IsValid (aborted_at s v.tx_idx) (aborts v ∷ rest)
    unfolding wrapping_decrement
    aborted-IsValid =
        let u = validates-in_block in
        let tx : TxStatus = record {
          incarnation = (status_at s v.tx_idx).incarnation;
          status = aborting;
        } in
        let n = length-set s.transactions_status v.tx_idx tx in
        let m = count_if-set has_validated s.transactions_status v.tx_idx tx no_status in
        let z : (aborted_at s v.tx_idx).block_size ≡ s.block_size = ground arith in
        record {
          statuses_sized = ground arith;
          dependents_sized = ground arith;
          remaining_sized = ground arith;
          released_sized = ground arith;
          nodes_sized = ground arith;
          heap_sorted =
              subst IsSorted
                (let e : s.executable_txs ≡ (aborted_at s v.tx_idx).executable_txs = ground arith in
                  e)
                k.heap_sorted;
          mirrored =
              subst IsMirrored
                (let e : s.dependency_graph ≡ (aborted_at s v.tx_idx).dependency_graph =
                    ground arith in
                  e)
                k.mirrored;
          validated_counted = ground (arith, k.statuses_sized);
          tracked = λ i h. aborted-IsTracked i (omega (arith, z));
          absent = λ i h. aborted-IsAbsent i (omega (arith, z));
        }

  -- `try_validation_abort` keeps the invariant, whether it aborts or not.
  pub try_validation_abort-IsValid :
      IsValid (try_validation_abort s v).0 (after_abort (try_validation_abort s v).1 v rest)
  unfolding try_validation_abort
  try_validation_abort-IsValid = elim (Bool-cases (is_done (status_at s v.tx_idx).status)) [
    | inl e ↦ rw e (aborted-IsValid e)
    | inr e ↦
        let n : is_validated (status_at s v.tx_idx).status ≡ false = ground arith in
        rw (e, n) (put_back-IsValid s taken k)
  ]
