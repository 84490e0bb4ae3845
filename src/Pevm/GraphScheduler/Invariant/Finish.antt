-- ===== src/Pevm/GraphScheduler/Invariant/Finish.antt =====
-- `finish_execution` keeps the invariant.
use congestion_control.Prelude.{
  ℕ, ◌+◌, ◌≡◌, ◌≤◌, ◌<◌, min, ap, ◌∙◌, Bool, true, false, ◌&&◌, List, [], ◌∷◌, arith, ltb, count_if,
  count_if-set, get_or, get_or-set, length-set, if◌then◌else◌, inl, inr, some, none, Option,
  lt_or_le,
}
use congestion_control.Pevm.Types.{
  TxVersion, Task, validation, executed, executing, BitFlags, TxStatus,
}
use congestion_control.Pevm.GraphScheduler.{GraphScheduler, status_at, no_status, set_status}
use congestion_control.Pevm.GraphScheduler.Completion.{
  dependents_at, schedule_validation, finish_execution, resume_dependents, release_children,
}
use congestion_control.Pevm.GraphScheduler.Workers.{
  Work, executes, Take, count_if-Take, is_execution_of, is_validation_of, is_abort_of,
  is_incarnation_of, go_on,
}
use congestion_control.Pevm.GraphScheduler.Invariant.Release.{
  release_children-IsValid, release_children-freed,
}
use congestion_control.Pevm.GraphScheduler.Invariant.Resume.{
  resume_dependents-IsValid, resume_dependents-awaited, released-resume,
}
use congestion_control.Pevm.GraphScheduler.Invariant.{IsTracked, IsAbsent, IsValid, has_validated}

-- Where validation is needed, as it always is, one branch of the part on validation is left: the
-- transaction becomes executed, and is validated at once if the sweep has passed it.
pub schedule_validation_needed :
    (wrote : Bool) (s : GraphScheduler) (v : TxVersion)
    → v.tx_idx < s.block_size
    → schedule_validation true wrote s v ≡ (
      record (set_status s v.tx_idx executed) {
        min_validation_idx = min s.min_validation_idx v.tx_idx;
        validation_idx =
            if wrote && ltb v.tx_idx s.validation_idx
            then min s.validation_idx (v.tx_idx + 1)
            else s.validation_idx;
      },
      if ltb v.tx_idx s.validation_idx then some (validation v) else none,
    )
unfolding schedule_validation
schedule_validation_needed wrote s v h = ground arith

pub incarnation-le-execution :
    (i n : ℕ) (ws : List Work)
    → count_if (is_incarnation_of i n) ws ≤ count_if (is_execution_of i) ws
incarnation-le-execution i n [] = omega arith
incarnation-le-execution i n (executes v ∷ ws) = ground (arith, incarnation-le-execution i n ws)
incarnation-le-execution i n (w ∷ ws) = omega (arith, incarnation-le-execution i n ws)

module _ (s : GraphScheduler) {ws rest : List Work} (v : TxVersion) (k : IsValid s ws)
    (taken : Take (executes v) ws rest) where
  pub executes-in_block : v.tx_idx < s.block_size
  executes-in_block = elim (lt_or_le v.tx_idx s.block_size) [
    | inl h ↦ h
    | inr h ↦
        ground (
          arith,
          (k.absent v.tx_idx h).no_execution,
          count_if-Take (is_execution_of v.tx_idx) taken,
        )
  ]

  -- The version that a thread executes is executing, at its current incarnation: the two
  -- assertions at the head of `finish_execution`, and that of `add_dependency`.
  pub executes-current :
      status_at s v.tx_idx ≡ record { incarnation = v.tx_incarnation; status = executing }
  executes-current =
      let t = k.tracked v.tx_idx executes-in_block in
      let n = (status_at s v.tx_idx).incarnation in
      ground (
        arith,
        count_if-Take (is_execution_of v.tx_idx) taken,
        count_if-Take (is_incarnation_of v.tx_idx n) taken,
        incarnation-le-execution v.tx_idx n rest,
      )

-- The state and work after the part on validation.
module _ (wrote : Bool) (s : GraphScheduler) {ws rest : List Work} (v : TxVersion)
    (k : IsValid s ws) (taken : Take (executes v) ws rest)
    (unawaited : dependents_at s v.tx_idx ≡ [])
    (freed : get_or s.children_released v.tx_idx false ≡ true) where
  abbrev scheduled : GraphScheduler × Option Task
  scheduled = schedule_validation true wrote s v

  scheduled-IsTracked :
      (i : ℕ) → i < s.block_size → IsTracked scheduled.0 (go_on scheduled.1 rest) i
  scheduled-IsTracked i h =
      let t = k.tracked i h in
      let b = executes-in_block s v k taken in
      let c = executes-current s v k taken in
      let g =
        get_or-set s.transactions_status v.tx_idx i
          (record { incarnation = (status_at s v.tx_idx).incarnation; status = executed })
          no_status in
      let x = count_if-Take (is_execution_of i) taken in
      let y = count_if-Take (is_incarnation_of i (status_at s i).incarnation) taken in
      let z = count_if-Take (is_validation_of i) taken in
      let w = count_if-Take (is_abort_of i) taken in
      let l = k.statuses_sized in
      rw (schedule_validation_needed wrote s v b) (record {
        one_execution = ground arith;
        current = ground arith;
        one_wait = ground arith;
        in_heap = ground arith;
        satisfied = ground arith;
        counted = ground arith;
        released = ground arith;
        to_validate = ground arith;
        awaited = ground arith;
      })

  scheduled-IsAbsent : (i : ℕ) → s.block_size ≤ i → IsAbsent scheduled.0 (go_on scheduled.1 rest) i
  scheduled-IsAbsent i h =
      let t = k.absent i h in
      let b = executes-in_block s v k taken in
      let x = count_if-Take (is_execution_of i) taken in
      let z = count_if-Take (is_validation_of i) taken in
      let w = count_if-Take (is_abort_of i) taken in
      rw (schedule_validation_needed wrote s v b) (record {
        no_execution = ground arith;
        no_validation = ground arith;
        no_wait = ground arith;
        no_entry = ground arith;
      })

  scheduled-IsValid : IsValid scheduled.0 (go_on scheduled.1 rest)
  scheduled-IsValid =
      let b = executes-in_block s v k taken in
      let c = executes-current s v k taken in
      let tx : TxStatus = record {
        incarnation = (status_at s v.tx_idx).incarnation;
        status = executed;
      } in
      let n = length-set s.transactions_status v.tx_idx tx in
      let m = count_if-set has_validated s.transactions_status v.tx_idx tx no_status in
      let e = schedule_validation_needed wrote s v b in
      let z : scheduled.0.block_size ≡ s.block_size = ground arith in
      record {
        statuses_sized = ground arith;
        dependents_sized = ground arith;
        remaining_sized = ground arith;
        released_sized = ground arith;
        nodes_sized = ground arith;
        heap_sorted = rw e k.heap_sorted;
        mirrored = rw e k.mirrored;
        validated_counted = ground (arith, k.statuses_sized);
        tracked = λ i h. scheduled-IsTracked i (omega (arith, z));
        absent = λ i h. scheduled-IsAbsent i (omega (arith, z));
      }

-- A finished execution keeps the invariant, whatever it wrote.
pub finish_execution-IsValid :
    (lib : BitFlags) (s : GraphScheduler) {ws rest : List Work} (v : TxVersion) (flags : ℕ)
    → IsValid s ws
    → Take (executes v) ws rest
    → IsValid (finish_execution lib s v flags).0 (go_on (finish_execution lib s v flags).1 rest)
unfolding finish_execution
finish_execution-IsValid lib s {ws} v flags k taken =
    let b = executes-in_block s v k taken in
    let r = release_children s v.tx_idx in
    let k1 = release_children-IsValid s ws v.tx_idx k b in
    let b1 = executes-in_block r v k1 taken in
    let k2 = resume_dependents-IsValid r ws v.tx_idx k1 b1 in
    rw (lib.contains_empty flags) (
      scheduled-IsValid (lib.contains flags 1) (resume_dependents r v.tx_idx) v k2 taken
        (resume_dependents-awaited r ws v.tx_idx k1 b1)
        (ap (λ l. get_or l v.tx_idx false) (released-resume r v.tx_idx)
          ∙ release_children-freed s ws v.tx_idx k b))
