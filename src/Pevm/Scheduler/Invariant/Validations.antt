-- ===== src/Pevm/Scheduler/Invariant/Validations.antt =====
-- `try_validation_abort` and the passing branch of `finish_validation` of scheduler.rs keep the invariant.
use congestion_control.Prelude.{
  ◌≡◌, sym, subst, true, false, List, ◌∷◌, arith, count_if-set, get_or-set, length-set,
  if◌then◌else◌, inl, inr, none, Bool-cases,
}
use congestion_control.Pevm.Types.{TxVersion, validated, aborting, is_done, is_validated, TxStatus}
use congestion_control.Pevm.Atomics.{wrapping_decrement}
use congestion_control.Pevm.GraphScheduler.Workers.{
  Work, validates, aborts, Take, count_if-Take, is_execution_of, is_validation_of, is_abort_of,
  is_incarnation_of, go_on, after_abort,
}
use congestion_control.Pevm.Scheduler.{
  Scheduler, no_status, status_at, set_status, try_validation_abort, finish_validation,
}
use congestion_control.Pevm.Scheduler.Invariant.{IsValid, has_validated, validates-in_block}
use congestion_control.Pevm.Scheduler.Invariant.Blocks.{put_back-IsValid}

module _ (s : Scheduler) {ws rest : List Work} (v : TxVersion) (k : IsValid s ws)
    (taken : Take (validates v) ws rest) where
  abbrev aborted_state : Scheduler
  aborted_state =
      let s' =
        if is_validated (status_at s v.tx_idx).status
        then record s { num_validated = wrapping_decrement s.num_validated }
        else s in
      set_status s' v.tx_idx aborting

  aborted-IsValid :
      is_done (status_at s v.tx_idx).status ≡ true → IsValid aborted_state (aborts v ∷ rest)
  unfolding wrapping_decrement
  aborted-IsValid finished =
      let u = validates-in_block s v k taken in
      let tx : TxStatus = record {
        incarnation = (status_at s v.tx_idx).incarnation;
        status = aborting;
      } in
      let n = length-set s.transactions_status v.tx_idx tx in
      let m = count_if-set has_validated s.transactions_status v.tx_idx tx no_status in
      let q : aborted_state.block_size ≡ s.block_size = ground arith in
      record {
        statuses_sized = ground arith;
        dependents_sized = ground (arith, k.dependents_sized);
        validated_counted = ground (arith, k.statuses_sized);
        tracked = λ i h.
            let t = k.tracked i (omega (arith, q)) in
            let g = get_or-set s.transactions_status v.tx_idx i tx no_status in
            let x = count_if-Take (is_execution_of i) taken in
            let y = count_if-Take (is_incarnation_of i (status_at s i).incarnation) taken in
            let z = count_if-Take (is_validation_of i) taken in
            let w = count_if-Take (is_abort_of i) taken in
            let l = k.statuses_sized in
            record {
              one_execution = ground arith;
              current = ground arith;
              one_wait = ground arith;
              to_execute = ground arith;
              to_validate = ground arith;
              awaited = ground arith;
            };
        absent = λ i h.
            let t = k.absent i (omega (arith, q)) in
            let x = count_if-Take (is_execution_of i) taken in
            let y = count_if-Take (is_incarnation_of i (status_at s i).incarnation) taken in
            let z = count_if-Take (is_validation_of i) taken in
            let w = count_if-Take (is_abort_of i) taken in
            let l = k.statuses_sized in
            record {
              no_execution = ground arith;
              no_validation = ground arith;
              no_wait = ground arith;
            };
      }

  -- `try_validation_abort` keeps the invariant, whether it aborts or not.
  pub try_validation_abort-IsValid :
      IsValid (try_validation_abort s v).0 (after_abort (try_validation_abort s v).1 v rest)
  unfolding try_validation_abort
  try_validation_abort-IsValid = elim (Bool-cases (is_done (status_at s v.tx_idx).status)) [
    | inl e ↦ rw e (aborted-IsValid e)
    | inr e ↦
        let n : is_validated (status_at s v.tx_idx).status ≡ false = ground arith in
        rw (e, n) (put_back-IsValid s taken k)
  ]

  abbrev passed : Scheduler
  passed = (finish_validation s v false).0

  passed-IsValid : IsValid passed rest
  unfolding finish_validation
  passed-IsValid =
      let u = validates-in_block s v k taken in
      let tx : TxStatus = record {
        incarnation = (status_at s v.tx_idx).incarnation;
        status = validated;
      } in
      let n = length-set s.transactions_status v.tx_idx tx in
      let m = count_if-set has_validated s.transactions_status v.tx_idx tx no_status in
      let q : passed.block_size ≡ s.block_size = ground arith in
      record {
        statuses_sized = ground (arith, k.statuses_sized);
        dependents_sized = ground (arith, k.dependents_sized);
        validated_counted = ground (arith, k.statuses_sized, k.validated_counted);
        tracked = λ i h.
            let t = k.tracked i (omega (arith, q)) in
            let g = get_or-set s.transactions_status v.tx_idx i tx no_status in
            let x = count_if-Take (is_execution_of i) taken in
            let y = count_if-Take (is_incarnation_of i (status_at s i).incarnation) taken in
            let z = count_if-Take (is_validation_of i) taken in
            let w = count_if-Take (is_abort_of i) taken in
            let l = k.statuses_sized in
            record {
              one_execution = ground arith;
              current = ground arith;
              one_wait = ground arith;
              to_execute = ground arith;
              to_validate = ground arith;
              awaited = ground arith;
            };
        absent = λ i h.
            let t = k.absent i (omega (arith, q)) in
            let x = count_if-Take (is_execution_of i) taken in
            let y = count_if-Take (is_incarnation_of i (status_at s i).incarnation) taken in
            let z = count_if-Take (is_validation_of i) taken in
            let w = count_if-Take (is_abort_of i) taken in
            let l = k.statuses_sized in
            record {
              no_execution = ground arith;
              no_validation = ground arith;
              no_wait = ground arith;
            };
      }

  no_task : (finish_validation s v false).1 ≡ none
  unfolding finish_validation
  no_task = ground arith

  -- A validation that passed keeps the invariant, also a stale one.
  pub passes-IsValid :
      IsValid (finish_validation s v false).0 (go_on (finish_validation s v false).1 rest)
  passes-IsValid = subst (λ o. IsValid passed (go_on o rest)) (sym no_task) passed-IsValid
