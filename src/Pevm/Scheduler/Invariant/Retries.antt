-- ===== src/Pevm/Scheduler/Invariant/Retries.antt =====
-- The aborting branch of `finish_validation` of scheduler.rs keeps the invariant.
use congestion_control.Prelude.{
  ℕ, ◌+◌, ◌≡◌, ◌<◌, min, true, List, ◌∷◌, arith, ltb, count_if-set, get_or-set, set, length,
  length-set, set-set, if◌then◌else◌, inl, inr, some, none, Bool-cases,
}
use congestion_control.Pevm.Types.{
  TxVersion, execution, executing, aborting, ready_to_execute, TxStatus,
}
use congestion_control.Pevm.GraphScheduler.Workers.{
  Work, executes, aborts, Take, count_if-Take, is_execution_of, is_validation_of, is_abort_of,
  is_incarnation_of, go_on,
}
use congestion_control.Pevm.GraphScheduler.Invariant.Finish.{incarnation-le-execution}
use congestion_control.Pevm.Scheduler.{
  Scheduler, no_status, status_at, try_execute, set_ready_status, retry, finish_validation,
}
use congestion_control.Pevm.Scheduler.Invariant.{IsTracked, IsValid, has_validated, aborts-in_block}

-- Where the execution sweep has passed the transaction it is executed at once, and otherwise it is
-- left ready for the sweep.
abbrev retried : Scheduler → ℕ → Scheduler
retried s i = record s {
  transactions_status = set s.transactions_status i (record {
    incarnation = (status_at s i).incarnation + 1;
    status = if ltb i s.execution_idx then executing else ready_to_execute;
  });
  validation_idx = min s.validation_idx (i + 1);
}

abbrev next_version : Scheduler → ℕ → TxVersion
next_version s i = record { tx_idx = i; tx_incarnation = (status_at s i).incarnation + 1 }

retry_at :
    (s : Scheduler) (i : ℕ)
    → i < s.block_size
    → length s.transactions_status ≡ s.block_size
    → retry s i
      ≡ (retried s i, if ltb i s.execution_idx then some (execution (next_version s i)) else none)
unfolding retry set_ready_status try_execute
retry_at s i h l =
    let tx : TxStatus = record {
      incarnation = (status_at s i).incarnation + 1;
      status = ready_to_execute;
    } in
    let tx' : TxStatus = record {
      incarnation = (status_at s i).incarnation + 1;
      status = executing;
    } in
    ground (
      arith,
      get_or-set s.transactions_status i i tx no_status,
      set-set s.transactions_status i tx tx',
    )

module _ (s : Scheduler) {ws rest : List Work} (v : TxVersion) (k : IsValid s ws)
    (taken : Take (aborts v) ws rest) where
  -- The assertion of `set_ready_status`.
  pub aborts-aborting : (status_at s v.tx_idx).status ≡ aborting
  aborts-aborting =
      let t = k.tracked v.tx_idx (aborts-in_block s v k taken) in
      ground (arith, count_if-Take (is_abort_of v.tx_idx) taken)

  abbrev again_work : List Work
  again_work =
      if ltb v.tx_idx s.execution_idx then executes (next_version s v.tx_idx) ∷ rest else rest

  retried-IsTracked : (i : ℕ) → i < s.block_size → IsTracked (retried s v.tx_idx) again_work i
  retried-IsTracked i h =
      let t = k.tracked i h in
      let a = aborts-aborting in
      let m = (status_at s v.tx_idx).incarnation + 1 in
      let tx : TxStatus = record {
        incarnation = m;
        status = if ltb v.tx_idx s.execution_idx then executing else ready_to_execute;
      } in
      let g = get_or-set s.transactions_status v.tx_idx i tx no_status in
      let y' = count_if-Take (is_incarnation_of i m) taken in
      let o = incarnation-le-execution i m rest in
      let x = count_if-Take (is_execution_of i) taken in
      let y = count_if-Take (is_incarnation_of i (status_at s i).incarnation) taken in
      let z = count_if-Take (is_validation_of i) taken in
      let w = count_if-Take (is_abort_of i) taken in
      let l = k.statuses_sized in
      record {
        one_execution = ground arith;
        current = ground arith;
        one_wait = ground arith;
        to_execute = ground arith;
        to_validate = ground arith;
        awaited = ground arith;
      }

  retried-IsValid : IsValid (retried s v.tx_idx) again_work
  retried-IsValid =
      let u = aborts-in_block s v k taken in
      let a = aborts-aborting in
      let m = (status_at s v.tx_idx).incarnation + 1 in
      let tx : TxStatus = record {
        incarnation = m;
        status = if ltb v.tx_idx s.execution_idx then executing else ready_to_execute;
      } in
      let n = length-set s.transactions_status v.tx_idx tx in
      let c = count_if-set has_validated s.transactions_status v.tx_idx tx no_status in
      record {
        statuses_sized = ground (arith, k.statuses_sized);
        dependents_sized = k.dependents_sized;
        validated_counted = ground (arith, k.statuses_sized, k.validated_counted);
        tracked = retried-IsTracked;
        absent = λ i h.
            let t = k.absent i h in
            let x = count_if-Take (is_execution_of i) taken in
            let y = count_if-Take (is_incarnation_of i (status_at s i).incarnation) taken in
            let z = count_if-Take (is_validation_of i) taken in
            let w = count_if-Take (is_abort_of i) taken in
            let l = k.statuses_sized in
            record {
              no_execution = ground arith;
              no_validation = ground arith;
              no_wait = ground arith;
            };
      }

  -- An abort that is reported keeps the invariant.
  pub retries-IsValid :
      IsValid (finish_validation s v true).0 (go_on (finish_validation s v true).1 rest)
  unfolding finish_validation
  retries-IsValid =
      let u = aborts-in_block s v k taken in
      rw (retry_at s v.tx_idx u k.statuses_sized)
        (elim (Bool-cases (ltb v.tx_idx s.execution_idx)) [
          | inl e ↦ rw e (rw e at retried-IsValid)
          | inr e ↦ rw e (rw e at retried-IsValid)
        ])
