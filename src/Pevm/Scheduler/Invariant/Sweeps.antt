-- ===== src/Pevm/Scheduler/Invariant/Sweeps.antt =====
-- The two sweeps of `next_task` of scheduler.rs keep the invariant.
use congestion_control.Prelude.{
  ℕ, ◌+◌, ◌≡◌, ◌≤◌, ◌<◌, refl, true, false, ◌&&◌, List, ◌∷◌, arith, ltb, count_if-set, get_or-set,
  length-set, if◌then◌else◌, ◌⊎◌, inl, inr, Bool-cases,
}
use congestion_control.Pevm.Types.{execution, executing, is_executed, is_ready, TxStatus}
use congestion_control.Pevm.GraphScheduler.Workers.{Work, executes, validates}
use congestion_control.Pevm.GraphScheduler.Invariant.Finish.{incarnation-le-execution}
use congestion_control.Pevm.Scheduler.{
  Scheduler, no_status, status_at, set_status, version_at, abort, try_execute, found, again,
  sweep_execution,
}
use congestion_control.Pevm.Scheduler.Workers.{go_on_round}
use congestion_control.Pevm.Scheduler.Invariant.{IsValid, has_validated}

module _ (s : Scheduler) (ws : List Work) (k : IsValid s ws) where
  -- The invariant does not read the flag.
  pub abort-IsValid : IsValid (abort s) ws
  unfolding abort
  abort-IsValid = record {
    statuses_sized = k.statuses_sized;
    dependents_sized = k.dependents_sized;
    validated_counted = k.validated_counted;
    tracked = λ i h.
        let t = k.tracked i h in
        record {
          one_execution = ground arith;
          current = ground arith;
          one_wait = ground arith;
          to_execute = ground arith;
          to_validate = ground arith;
          awaited = ground arith;
        };
    absent = λ i h.
        let t = k.absent i h in
        record {
          no_execution = ground arith;
          no_validation = ground arith;
          no_wait = ground arith;
        };
  }

  -- A ready transaction is handed out; the sweep that finds it goes past it.
  pub started-IsValid :
      (i e w : ℕ)
      → i < s.block_size
      → is_ready (status_at s i).status ≡ true
      → (e ≤ s.execution_idx) ⊎ ((e ≡ s.execution_idx + 1) × (i ≡ s.execution_idx))
      → (w ≤ s.validation_idx) ⊎ ((w ≡ s.validation_idx + 1) × (i ≡ s.validation_idx))
      → IsValid
          (record (set_status s i executing) { execution_idx = e; validation_idx = w })
          (executes (version_at s i) ∷ ws)
  started-IsValid i e w h ready he hw =
      let tx : TxStatus = record {
        incarnation = (status_at s i).incarnation;
        status = executing;
      } in
      let n = length-set s.transactions_status i tx in
      let m = count_if-set has_validated s.transactions_status i tx no_status in
      let self = k.tracked i h in
      let l = k.statuses_sized in
      record {
        statuses_sized = ground arith;
        dependents_sized = k.dependents_sized;
        validated_counted = ground (arith, k.validated_counted);
        tracked = λ j g.
            let t = k.tracked j g in
            let o = incarnation-le-execution j (status_at s j).incarnation ws in
            let at = get_or-set s.transactions_status i j tx no_status in
            record {
              one_execution = ground arith;
              current = ground arith;
              one_wait = ground arith;
              to_execute = ground arith;
              to_validate = ground arith;
              awaited = ground arith;
            };
        absent = λ j g.
            let t = k.absent j g in
            record {
              no_execution = ground arith;
              no_validation = ground arith;
              no_wait = ground arith;
            };
      }

  -- The execution sweep goes past a transaction that is not ready, or past the block.
  skipped-IsValid :
      (ltb s.execution_idx s.block_size && is_ready (status_at s s.execution_idx).status) ≡ false
      → IsValid (record s { execution_idx = s.execution_idx + 1 }) ws
  skipped-IsValid n = record {
    statuses_sized = k.statuses_sized;
    dependents_sized = k.dependents_sized;
    validated_counted = k.validated_counted;
    tracked = λ i h.
        let t = k.tracked i h in
        let e : (s.execution_idx ≡ i) ⊎ ((s.execution_idx ≤ i) → s.execution_idx + 1 ≤ i) =
          ground arith in
        record {
          one_execution = ground arith;
          current = ground arith;
          one_wait = ground arith;
          to_execute = ground arith;
          to_validate = ground arith;
          awaited = ground arith;
        };
    absent = λ i h.
        let t = k.absent i h in
        record {
          no_execution = ground arith;
          no_validation = ground arith;
          no_wait = ground arith;
        };
  }

  sweep_execution_at : sweep_execution s ≡ (
      if ltb s.execution_idx s.block_size && is_ready (status_at s s.execution_idx).status
      then (
        record (set_status s s.execution_idx executing) { execution_idx = s.execution_idx + 1 },
        found (execution (version_at s s.execution_idx)),
      )
      else (record s { execution_idx = s.execution_idx + 1 }, again))
  unfolding sweep_execution try_execute
  sweep_execution_at = ground arith

  pub sweep_execution-IsValid : IsValid (sweep_execution s).0 (go_on_round (sweep_execution s).1 ws)
  sweep_execution-IsValid =
      rw sweep_execution_at
        (elim (Bool-cases
          (ltb s.execution_idx s.block_size && is_ready (status_at s s.execution_idx).status)) [
            | inl e ↦ rw e (
                started-IsValid s.execution_idx (s.execution_idx + 1) s.validation_idx
                  (ground arith) (ground arith) (inr (refl, refl)) (inl (omega arith)))
            | inr e ↦ rw e (skipped-IsValid e)
          ])

  -- The validation sweep goes past a transaction that needs none, or past the block.
  pub passed_by-IsValid :
      (ltb s.validation_idx s.block_size && is_executed (status_at s s.validation_idx).status)
        ≡ false
      → IsValid (record s { validation_idx = s.validation_idx + 1 }) ws
  passed_by-IsValid n = record {
    statuses_sized = k.statuses_sized;
    dependents_sized = k.dependents_sized;
    validated_counted = k.validated_counted;
    tracked = λ i h.
        let t = k.tracked i h in
        record {
          one_execution = ground arith;
          current = ground arith;
          one_wait = ground arith;
          to_execute = ground arith;
          to_validate = ground arith;
          awaited = ground arith;
        };
    absent = λ i h.
        let t = k.absent i h in
        record {
          no_execution = ground arith;
          no_validation = ground arith;
          no_wait = ground arith;
        };
  }

  pub handed_out-IsValid :
      s.validation_idx < s.block_size
      → IsValid
          (record s { validation_idx = s.validation_idx + 1 })
          (validates (version_at s s.validation_idx) ∷ ws)
  handed_out-IsValid h' = record {
    statuses_sized = k.statuses_sized;
    dependents_sized = k.dependents_sized;
    validated_counted = k.validated_counted;
    tracked = λ i h.
        let t = k.tracked i h in
        record {
          one_execution = ground arith;
          current = ground arith;
          one_wait = ground arith;
          to_execute = ground arith;
          to_validate = ground arith;
          awaited = ground arith;
        };
    absent = λ i h.
        let t = k.absent i h in
        record {
          no_execution = ground arith;
          no_validation = ground arith;
          no_wait = ground arith;
        };
  }
