-- ===== src/Pevm/GraphScheduler/Invariant/Block.antt =====
-- `add_dependency` keeps the invariant.
use congestion_control.Prelude.{
  ℕ, ◌≡◌, ◌≤◌, ◌<◌, false, List, [], ◌∷◌, ◌++◌, arith, count-append, count_if-set, get_or-set, set,
  length-set, inl, inr, Bool-cases,
}
use congestion_control.Pevm.Types.{TxVersion, aborting, is_done, TxStatus}
use congestion_control.Pevm.GraphScheduler.{GraphScheduler, status_at, no_status, set_status}
use congestion_control.Pevm.GraphScheduler.Completion.{dependents_at, add_dependency}
use congestion_control.Pevm.GraphScheduler.Workers.{
  Work, executes, waits-set, Take, count_if-Take, is_execution_of, is_validation_of, is_abort_of,
  is_incarnation_of, after_dependency,
}
use congestion_control.Pevm.GraphScheduler.Invariant.{IsTracked, IsAbsent, IsValid, has_validated}
use congestion_control.Pevm.GraphScheduler.Invariant.Finish.{executes-in_block, executes-current}

-- The order of the work in hand does not matter.
pub put_back-IsValid :
    (s : GraphScheduler) {ws rest : List Work} {w : Work}
    → Take w ws rest
    → IsValid s ws
    → IsValid s (w ∷ rest)
put_back-IsValid s {ws} {rest} {w} taken k = record {
  statuses_sized = k.statuses_sized;
  dependents_sized = k.dependents_sized;
  remaining_sized = k.remaining_sized;
  released_sized = k.released_sized;
  nodes_sized = k.nodes_sized;
  heap_sorted = k.heap_sorted;
  mirrored = k.mirrored;
  validated_counted = k.validated_counted;
  tracked = λ i h.
      let t = k.tracked i h in
      let x = count_if-Take (is_execution_of i) taken in
      let y = count_if-Take (is_incarnation_of i (status_at s i).incarnation) taken in
      let z = count_if-Take (is_validation_of i) taken in
      let u = count_if-Take (is_abort_of i) taken in
      record {
        one_execution = omega arith;
        current = λ e. omega (arith, t.current e);
        one_wait = omega arith;
        in_heap = t.in_heap;
        satisfied = t.satisfied;
        counted = t.counted;
        released = t.released;
        to_validate = ground arith;
        awaited = t.awaited;
      };
  absent = λ i h.
      let t = k.absent i h in
      let x = count_if-Take (is_execution_of i) taken in
      let z = count_if-Take (is_validation_of i) taken in
      let u = count_if-Take (is_abort_of i) taken in
      record {
        no_execution = omega arith;
        no_validation = omega arith;
        no_wait = omega arith;
        no_entry = t.no_entry;
      };
}

module _ (s : GraphScheduler) {ws rest : List Work} (v : TxVersion) (b : ℕ) (k : IsValid s ws)
    (taken : Take (executes v) ws rest) (lower : b < v.tx_idx) where
  abbrev waiting : GraphScheduler
  waiting = record (set_status s v.tx_idx aborting) {
    transactions_dependents = set s.transactions_dependents b (dependents_at s b ++ v.tx_idx ∷ []);
  }

  waiting-IsTracked :
      is_done (status_at s b).status ≡ false → (i : ℕ) → i < s.block_size → IsTracked waiting rest i
  waiting-IsTracked nd i h =
      let t = k.tracked i h in
      let u = executes-in_block s v k taken in
      let t' = k.tracked v.tx_idx u in
      let c = executes-current s v k taken in
      let g =
        get_or-set s.transactions_status v.tx_idx i
          (record { incarnation = (status_at s v.tx_idx).incarnation; status = aborting })
          no_status in
      let ds = dependents_at s b ++ v.tx_idx ∷ [] in
      let d = get_or-set s.transactions_dependents b i ds [] in
      let f = waits-set i b s.transactions_dependents ds (omega (arith, k.dependents_sized)) in
      let a = count-append i (dependents_at s b) (v.tx_idx ∷ []) in
      let x = count_if-Take (is_execution_of i) taken in
      let y = count_if-Take (is_incarnation_of i (status_at s i).incarnation) taken in
      let z = count_if-Take (is_validation_of i) taken in
      let w = count_if-Take (is_abort_of i) taken in
      let l = k.statuses_sized in
      record {
        one_execution = ground arith;
        current = ground arith;
        one_wait = ground arith;
        in_heap = ground arith;
        satisfied = ground arith;
        counted = t.counted;
        released = ground arith;
        to_validate = ground arith;
        awaited = ground arith;
      }

  waiting-IsAbsent : (i : ℕ) → s.block_size ≤ i → IsAbsent waiting rest i
  waiting-IsAbsent i h =
      let t = k.absent i h in
      let u = executes-in_block s v k taken in
      let ds = dependents_at s b ++ v.tx_idx ∷ [] in
      let f = waits-set i b s.transactions_dependents ds (omega (arith, k.dependents_sized)) in
      let a = count-append i (dependents_at s b) (v.tx_idx ∷ []) in
      let x = count_if-Take (is_execution_of i) taken in
      let z = count_if-Take (is_validation_of i) taken in
      let w = count_if-Take (is_abort_of i) taken in
      record {
        no_execution = ground arith;
        no_validation = ground arith;
        no_wait = ground arith;
        no_entry = ground arith;
      }

  waiting-IsValid : is_done (status_at s b).status ≡ false → IsValid waiting rest
  waiting-IsValid nd =
      let u = executes-in_block s v k taken in
      let c = executes-current s v k taken in
      let tx : TxStatus = record {
        incarnation = (status_at s v.tx_idx).incarnation;
        status = aborting;
      } in
      let n = length-set s.transactions_status v.tx_idx tx in
      let p = length-set s.transactions_dependents b (dependents_at s b ++ v.tx_idx ∷ []) in
      let m = count_if-set has_validated s.transactions_status v.tx_idx tx no_status in
      record {
        statuses_sized = ground arith;
        dependents_sized = ground arith;
        remaining_sized = k.remaining_sized;
        released_sized = k.released_sized;
        nodes_sized = k.nodes_sized;
        heap_sorted = k.heap_sorted;
        mirrored = k.mirrored;
        validated_counted = ground (arith, k.statuses_sized);
        tracked = waiting-IsTracked nd;
        absent = waiting-IsAbsent;
      }

  -- `add_dependency` keeps the invariant, whether the dependency is recorded or not.
  pub add_dependency-IsValid :
      IsValid
        (add_dependency s v.tx_idx b).0
        (after_dependency (add_dependency s v.tx_idx b).1 v rest)
  unfolding add_dependency
  add_dependency-IsValid = elim (Bool-cases (is_done (status_at s b).status)) [
    | inl e ↦ rw e (put_back-IsValid s taken k)
    | inr e ↦ rw e (waiting-IsValid e)
  ]
