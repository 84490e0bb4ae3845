-- ===== src/Pevm/Scheduler/Invariant/Finishes.antt =====
-- `finish_execution` of scheduler.rs keeps the invariant.
use congestion_control.Prelude.{
  ℕ, ◌+◌, ◌≡◌, ◌≤◌, ◌<◌, min, Bool, true, ◌&&◌, List, [], arith, ltb, count_if-set, get_or-set,
  length-set, if◌then◌else◌, some, none, Option,
}
use congestion_control.Pevm.Types.{TxVersion, Task, validation, executed, BitFlags, TxStatus}
use congestion_control.Pevm.GraphScheduler.Workers.{
  Work, executes, Take, count_if-Take, is_execution_of, is_validation_of, is_abort_of,
  is_incarnation_of, go_on,
}
use congestion_control.Pevm.Scheduler.{
  Scheduler, no_status, status_at, dependents_at, set_status, resume_dependents,
  schedule_validation, finish_execution,
}
use congestion_control.Pevm.Scheduler.Invariant.{
  IsTracked, IsAbsent, IsValid, has_validated, executes-in_block, executes-current,
}
use congestion_control.Pevm.Scheduler.Invariant.Resumes.{
  resume_dependents-IsValid, resume_dependents-awaited,
}

-- Where validation is needed, as it always is, one branch of the part on validation is left.
schedule_validation_needed :
    (wrote : Bool) (s : Scheduler) (v : TxVersion)
    → v.tx_idx < s.block_size
    → schedule_validation true wrote s v ≡ (
      record (set_status s v.tx_idx executed) {
        min_validation_idx = min s.min_validation_idx v.tx_idx;
        validation_idx =
            if wrote && ltb v.tx_idx s.validation_idx
            then min s.validation_idx (v.tx_idx + 1)
            else s.validation_idx;
      },
      if ltb v.tx_idx s.validation_idx then some (validation v) else none,
    )
unfolding schedule_validation
schedule_validation_needed wrote s v h = ground arith

module _ (wrote : Bool) (s : Scheduler) {ws rest : List Work} (v : TxVersion) (k : IsValid s ws)
    (taken : Take (executes v) ws rest) (unawaited : dependents_at s v.tx_idx ≡ []) where
  abbrev scheduled : Scheduler × Option Task
  scheduled = schedule_validation true wrote s v

  scheduled-IsTracked :
      (j : ℕ) → j < s.block_size → IsTracked scheduled.0 (go_on scheduled.1 rest) j
  scheduled-IsTracked i h =
      let t = k.tracked i h in
      let b = executes-in_block s v k taken in
      let c = executes-current s v k taken in
      let tx : TxStatus = record {
        incarnation = (status_at s v.tx_idx).incarnation;
        status = executed;
      } in
      let g = get_or-set s.transactions_status v.tx_idx i tx no_status in
      let x = count_if-Take (is_execution_of i) taken in
      let y = count_if-Take (is_incarnation_of i (status_at s i).incarnation) taken in
      let z = count_if-Take (is_validation_of i) taken in
      let w = count_if-Take (is_abort_of i) taken in
      let l = k.statuses_sized in
      rw (schedule_validation_needed wrote s v b) (record {
        one_execution = ground arith;
        current = ground arith;
        one_wait = ground arith;
        to_execute = ground arith;
        to_validate = ground arith;
        awaited = ground arith;
      })

  scheduled-IsAbsent : (j : ℕ) → s.block_size ≤ j → IsAbsent scheduled.0 (go_on scheduled.1 rest) j
  scheduled-IsAbsent i h =
      let t = k.absent i h in
      let b = executes-in_block s v k taken in
      let x = count_if-Take (is_execution_of i) taken in
      let z = count_if-Take (is_validation_of i) taken in
      let w = count_if-Take (is_abort_of i) taken in
      rw (schedule_validation_needed wrote s v b) (record {
        no_execution = ground arith;
        no_validation = ground arith;
        no_wait = ground arith;
      })

  scheduled-IsValid : IsValid scheduled.0 (go_on scheduled.1 rest)
  scheduled-IsValid =
      let b = executes-in_block s v k taken in
      let c = executes-current s v k taken in
      let tx : TxStatus = record {
        incarnation = (status_at s v.tx_idx).incarnation;
        status = executed;
      } in
      let n = length-set s.transactions_status v.tx_idx tx in
      let m = count_if-set has_validated s.transactions_status v.tx_idx tx no_status in
      let e = schedule_validation_needed wrote s v b in
      let z : scheduled.0.block_size ≡ s.block_size = ground arith in
      record {
        statuses_sized = ground (arith, k.statuses_sized);
        dependents_sized = ground (arith, k.dependents_sized);
        validated_counted = ground (arith, k.statuses_sized, k.validated_counted);
        tracked = λ j h. scheduled-IsTracked j (omega (arith, z));
        absent = λ j h. scheduled-IsAbsent j (omega (arith, z));
      }

-- A finished execution keeps the invariant, whatever it wrote.
pub finish_execution-IsValid :
    (lib : BitFlags) (s : Scheduler) {ws rest : List Work} (v : TxVersion) (flags : ℕ)
    → IsValid s ws
    → Take (executes v) ws rest
    → IsValid (finish_execution lib s v flags).0 (go_on (finish_execution lib s v flags).1 rest)
unfolding finish_execution
finish_execution-IsValid lib s {ws} v flags k taken =
    let b = executes-in_block s v k taken in
    let k' = resume_dependents-IsValid s ws v.tx_idx k b in
    rw (lib.contains_empty flags) (
      scheduled-IsValid (lib.contains flags 1) (resume_dependents s v.tx_idx) v k' taken
        (resume_dependents-awaited s ws v.tx_idx k b))
