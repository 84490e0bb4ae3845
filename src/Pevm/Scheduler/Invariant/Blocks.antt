-- ===== src/Pevm/Scheduler/Invariant/Blocks.antt =====
-- `add_dependency` of scheduler.rs keeps the invariant.
use congestion_control.Prelude.{
  ℕ, ◌≡◌, ◌<◌, false, List, [], ◌∷◌, ◌++◌, arith, count-append, count_if-set, get_or-set, set,
  length-set, inl, inr, Bool-cases,
}
use congestion_control.Pevm.Types.{TxVersion, aborting, is_done, TxStatus}
use congestion_control.Pevm.GraphScheduler.Workers.{
  Work, executes, waits-set, Take, count_if-Take, is_execution_of, is_validation_of, is_abort_of,
  is_incarnation_of, after_dependency,
}
use congestion_control.Pevm.Scheduler.{
  Scheduler, no_status, status_at, dependents_at, set_status, add_dependency,
}
use congestion_control.Pevm.Scheduler.Invariant.{
  IsValid, has_validated, executes-in_block, executes-current,
}

-- The order of the work in hand does not matter.
pub put_back-IsValid :
    (s : Scheduler) {ws rest : List Work} {w : Work}
    → Take w ws rest
    → IsValid s ws
    → IsValid s (w ∷ rest)
put_back-IsValid s {ws} {rest} {w} taken k = record {
  statuses_sized = k.statuses_sized;
  dependents_sized = k.dependents_sized;
  validated_counted = k.validated_counted;
  tracked = λ i h.
      let t = k.tracked i h in
      let x = count_if-Take (is_execution_of i) taken in
      let y = count_if-Take (is_incarnation_of i (status_at s i).incarnation) taken in
      let z = count_if-Take (is_validation_of i) taken in
      let w0 = count_if-Take (is_abort_of i) taken in
      let l = k.statuses_sized in
      record {
        one_execution = ground arith;
        current = ground arith;
        one_wait = ground arith;
        to_execute = ground arith;
        to_validate = ground arith;
        awaited = ground arith;
      };
  absent = λ i h.
      let t = k.absent i h in
      let x = count_if-Take (is_execution_of i) taken in
      let y = count_if-Take (is_incarnation_of i (status_at s i).incarnation) taken in
      let z = count_if-Take (is_validation_of i) taken in
      let w0 = count_if-Take (is_abort_of i) taken in
      let l = k.statuses_sized in
      record { no_execution = ground arith; no_validation = ground arith; no_wait = ground arith };
}

module _ (s : Scheduler) {ws rest : List Work} (v : TxVersion) (b : ℕ) (k : IsValid s ws)
    (taken : Take (executes v) ws rest) (lower : b < v.tx_idx) where
  abbrev waiting : Scheduler
  waiting = record (set_status s v.tx_idx aborting) {
    transactions_dependents = set s.transactions_dependents b (dependents_at s b ++ v.tx_idx ∷ []);
  }

  waiting-IsValid : is_done (status_at s b).status ≡ false → IsValid waiting rest
  waiting-IsValid nd =
      let u = executes-in_block s v k taken in
      let c = executes-current s v k taken in
      let tx : TxStatus = record {
        incarnation = (status_at s v.tx_idx).incarnation;
        status = aborting;
      } in
      let ds = dependents_at s b ++ v.tx_idx ∷ [] in
      let n = length-set s.transactions_status v.tx_idx tx in
      let p = length-set s.transactions_dependents b ds in
      let m = count_if-set has_validated s.transactions_status v.tx_idx tx no_status in
      record {
        statuses_sized = ground arith;
        dependents_sized = ground arith;
        validated_counted = ground (arith, k.statuses_sized);
        tracked = λ i h.
            let t = k.tracked i h in
            let g = get_or-set s.transactions_status v.tx_idx i tx no_status in
            let d = get_or-set s.transactions_dependents b i ds [] in
            let f =
              waits-set i b s.transactions_dependents ds (omega (arith, k.dependents_sized)) in
            let a = count-append i (dependents_at s b) (v.tx_idx ∷ []) in
            let x = count_if-Take (is_execution_of i) taken in
            let y = count_if-Take (is_incarnation_of i (status_at s i).incarnation) taken in
            let z = count_if-Take (is_validation_of i) taken in
            let w = count_if-Take (is_abort_of i) taken in
            let l = k.statuses_sized in
            record {
              one_execution = ground arith;
              current = ground arith;
              one_wait = ground arith;
              to_execute = ground arith;
              to_validate = ground arith;
              awaited = ground arith;
            };
        absent = λ i h.
            let t = k.absent i h in
            let f =
              waits-set i b s.transactions_dependents ds (omega (arith, k.dependents_sized)) in
            let a = count-append i (dependents_at s b) (v.tx_idx ∷ []) in
            let x = count_if-Take (is_execution_of i) taken in
            let y = count_if-Take (is_incarnation_of i (status_at s i).incarnation) taken in
            let z = count_if-Take (is_validation_of i) taken in
            let w = count_if-Take (is_abort_of i) taken in
            let l = k.statuses_sized in
            record {
              no_execution = ground arith;
              no_validation = ground arith;
              no_wait = ground arith;
            };
      }

  -- `add_dependency` keeps the invariant, whether the dependency is recorded or not.
  pub add_dependency-IsValid :
      IsValid
        (add_dependency s v.tx_idx b).0
        (after_dependency (add_dependency s v.tx_idx b).1 v rest)
  unfolding add_dependency
  add_dependency-IsValid = elim (Bool-cases (is_done (status_at s b).status)) [
    | inl e ↦ rw e (put_back-IsValid s taken k)
    | inr e ↦ rw e (waiting-IsValid e)
  ]
