-- ===== src/Pevm/GraphScheduler/Invariant/Report.antt =====
-- `finish_validation` keeps the invariant, for a validation that passed and for one that aborted.
use congestion_control.Prelude.{
  ℕ, ◌+◌, ◌≡◌, ◌≤◌, ◌<◌, min, sym, ap, subst, true, false, List, ◌∷◌, arith, count_if-set,
  get_or-set, set, length, length-set, set-set, inl, inr, some, none, lt_or_le,
}
use congestion_control.Pevm.Types.{
  TxVersion, execution, executing, validated, aborting, ready_to_execute, is_ready, TxStatus,
}
use congestion_control.Pevm.Atomics.{IsSorted}
use congestion_control.Pevm.GraphScheduler.{GraphScheduler, status_at, no_status, try_execute}
use congestion_control.Pevm.GraphScheduler.Completion.{finish_validation, retry, set_ready_status}
use congestion_control.Pevm.GraphScheduler.Completion.Release.{remaining_at}
use congestion_control.Pevm.GraphScheduler.Workers.{
  Work, executes, validates, aborts, Take, count_if-Take, is_execution_of, is_validation_of,
  is_abort_of, is_incarnation_of, go_on,
}
use congestion_control.Pevm.GraphScheduler.Invariant.{
  IsTracked, IsAbsent, IsValid, IsMirrored, has_validated,
}
use congestion_control.Pevm.GraphScheduler.Invariant.Finish.{incarnation-le-execution}
use congestion_control.Pevm.GraphScheduler.Invariant.Validate.{validates-in_block}

module _ (s : GraphScheduler) {ws rest : List Work} (v : TxVersion) (k : IsValid s ws)
    (taken : Take (validates v) ws rest) where
  abbrev passed : GraphScheduler
  passed = (finish_validation s v false).0

  passed-IsTracked : (i : ℕ) → i < s.block_size → IsTracked passed rest i
  unfolding finish_validation
  passed-IsTracked i h =
      let t = k.tracked i h in
      let g =
        get_or-set s.transactions_status v.tx_idx i
          (record { incarnation = (status_at s v.tx_idx).incarnation; status = validated })
          no_status in
      let x = count_if-Take (is_execution_of i) taken in
      let y = count_if-Take (is_incarnation_of i (status_at s i).incarnation) taken in
      let z = count_if-Take (is_validation_of i) taken in
      let w = count_if-Take (is_abort_of i) taken in
      let l = k.statuses_sized in
      record {
        one_execution = ground arith;
        current = ground arith;
        one_wait = ground arith;
        in_heap = ground arith;
        satisfied = ground arith;
        counted = ground arith;
        released = ground arith;
        to_validate = ground arith;
        awaited = ground arith;
      }

  passed-IsAbsent : (i : ℕ) → s.block_size ≤ i → IsAbsent passed rest i
  unfolding finish_validation
  passed-IsAbsent i h =
      let t = k.absent i h in
      let x = count_if-Take (is_execution_of i) taken in
      let z = count_if-Take (is_validation_of i) taken in
      let w = count_if-Take (is_abort_of i) taken in
      record {
        no_execution = ground arith;
        no_validation = ground arith;
        no_wait = ground arith;
        no_entry = ground arith;
      }

  passed-IsValid : IsValid passed rest
  unfolding finish_validation
  passed-IsValid =
      let u = validates-in_block s v k taken in
      let tx : TxStatus = record {
        incarnation = (status_at s v.tx_idx).incarnation;
        status = validated;
      } in
      let n = length-set s.transactions_status v.tx_idx tx in
      let m = count_if-set has_validated s.transactions_status v.tx_idx tx no_status in
      let z : passed.block_size ≡ s.block_size = ground arith in
      record {
        statuses_sized = ground arith;
        dependents_sized = ground arith;
        remaining_sized = ground arith;
        released_sized = ground arith;
        nodes_sized = ground arith;
        heap_sorted =
            subst IsSorted (let e : s.executable_txs ≡ passed.executable_txs = ground arith in e)
              k.heap_sorted;
        mirrored =
            subst IsMirrored
              (let e : s.dependency_graph ≡ passed.dependency_graph = ground arith in e) k.mirrored;
        validated_counted = ground (arith, k.statuses_sized);
        tracked = λ i h. passed-IsTracked i (omega (arith, z));
        absent = λ i h. passed-IsAbsent i (omega (arith, z));
      }

  no_task : (finish_validation s v false).1 ≡ none
  unfolding finish_validation
  no_task = ground arith

  -- A validation that passed keeps the invariant, also a stale one.
  pub passes-IsValid :
      IsValid (finish_validation s v false).0 (go_on (finish_validation s v false).1 rest)
  passes-IsValid = subst (λ o. IsValid passed (go_on o rest)) (sym no_task) passed-IsValid

-- The state in which an aborted version is executed again, as its next incarnation.
abbrev retried : GraphScheduler → ℕ → GraphScheduler
retried s i = record s {
  transactions_status =
      set s.transactions_status i
        (record { incarnation = (status_at s i).incarnation + 1; status = executing });
  validation_idx = min s.validation_idx (i + 1);
  re_execution_count = s.re_execution_count + 1;
}

-- With no graph dependency left the version is executed at once, by the thread that aborted it.
pub retry_at :
    (s : GraphScheduler) (i : ℕ)
    → i < s.block_size
    → length s.transactions_status ≡ s.block_size
    → remaining_at s i ≡ 0
    → retry s i ≡ (
      retried s i,
      some (execution (record { tx_idx = i; tx_incarnation = (status_at s i).incarnation + 1 })),
    )
unfolding retry set_ready_status try_execute
retry_at s i h l z =
    let ready : TxStatus = record {
      incarnation = (status_at s i).incarnation + 1;
      status = ready_to_execute;
    } in
    ground (
      arith,
      get_or-set s.transactions_status i i ready no_status,
      set-set s.transactions_status i ready
          (record { incarnation = (status_at s i).incarnation + 1; status = executing }),
    )

module _ (s : GraphScheduler) {ws rest : List Work} (v : TxVersion) (k : IsValid s ws)
    (taken : Take (aborts v) ws rest) where
  aborts-in_block : v.tx_idx < s.block_size
  aborts-in_block = elim (lt_or_le v.tx_idx s.block_size) [
    | inl h ↦ h
    | inr h ↦
        ground (arith, (k.absent v.tx_idx h).no_wait, count_if-Take (is_abort_of v.tx_idx) taken)
  ]

  -- The assertion of `set_ready_status`.
  pub aborts-aborting : (status_at s v.tx_idx).status ≡ aborting
  aborts-aborting =
      let t = k.tracked v.tx_idx aborts-in_block in
      ground (arith, count_if-Take (is_abort_of v.tx_idx) taken)

  abbrev again_work : List Work
  again_work =
      executes
        (record { tx_idx = v.tx_idx; tx_incarnation = (status_at s v.tx_idx).incarnation + 1 })
      ∷ rest

  retried-IsTracked : (i : ℕ) → i < s.block_size → IsTracked (retried s v.tx_idx) again_work i
  retried-IsTracked i h =
      let t = k.tracked i h in
      let a = aborts-aborting in
      let m = (status_at s v.tx_idx).incarnation + 1 in
      let g =
        get_or-set s.transactions_status v.tx_idx i (record { incarnation = m; status = executing })
          no_status in
      let x = count_if-Take (is_execution_of i) taken in
      let y = count_if-Take (is_incarnation_of i (status_at s i).incarnation) taken in
      let y' = count_if-Take (is_incarnation_of i m) taken in
      let o = incarnation-le-execution i m rest in
      let z = count_if-Take (is_validation_of i) taken in
      let w = count_if-Take (is_abort_of i) taken in
      let l = k.statuses_sized in
      record {
        one_execution = ground arith;
        current = ground arith;
        one_wait = ground arith;
        in_heap = ground arith;
        satisfied = ground arith;
        counted = ground arith;
        released = ground arith;
        to_validate = ground arith;
        awaited = ground arith;
      }

  retried-IsAbsent : (i : ℕ) → s.block_size ≤ i → IsAbsent (retried s v.tx_idx) again_work i
  retried-IsAbsent i h =
      let t = k.absent i h in
      let u = aborts-in_block in
      let x = count_if-Take (is_execution_of i) taken in
      let z = count_if-Take (is_validation_of i) taken in
      let w = count_if-Take (is_abort_of i) taken in
      record {
        no_execution = ground arith;
        no_validation = ground arith;
        no_wait = ground arith;
        no_entry = ground arith;
      }

  retried-IsValid : IsValid (retried s v.tx_idx) again_work
  retried-IsValid =
      let u = aborts-in_block in
      let a = aborts-aborting in
      let tx : TxStatus = record {
        incarnation = (status_at s v.tx_idx).incarnation + 1;
        status = executing;
      } in
      let n = length-set s.transactions_status v.tx_idx tx in
      let m = count_if-set has_validated s.transactions_status v.tx_idx tx no_status in
      record {
        statuses_sized = ground arith;
        dependents_sized = k.dependents_sized;
        remaining_sized = k.remaining_sized;
        released_sized = k.released_sized;
        nodes_sized = k.nodes_sized;
        heap_sorted = k.heap_sorted;
        mirrored = k.mirrored;
        validated_counted = ground (arith, k.statuses_sized);
        tracked = retried-IsTracked;
        absent = retried-IsAbsent;
      }

  -- An abort that is reported keeps the invariant.
  pub retries-IsValid :
      IsValid (finish_validation s v true).0 (go_on (finish_validation s v true).1 rest)
  unfolding finish_validation
  retries-IsValid =
      let u = aborts-in_block in
      let z : remaining_at s v.tx_idx ≡ 0 =
        (k.tracked v.tx_idx u).satisfied (ap is_ready aborts-aborting) in
      rw (retry_at s v.tx_idx u k.statuses_sized z) retried-IsValid
