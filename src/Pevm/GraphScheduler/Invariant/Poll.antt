-- ===== src/Pevm/GraphScheduler/Invariant/Poll.antt =====
-- A round of `next_task` keeps the invariant.
use congestion_control.Prelude.{
  ℕ, ◌+◌, ◌≡◌, ◌≤◌, ◌<◌, ◌&&◌, List, ◌∷◌, arith, ltb, if◌then◌else◌, inl, inr, some, none,
  Bool-cases, lt_or_le,
}
use congestion_control.Pevm.Types.{validation, is_done}
use congestion_control.Pevm.Atomics.{heap_peek_or, heap_peek-le}
use congestion_control.Pevm.GraphScheduler.{
  GraphScheduler, status_at, version_at, try_validation_task, abort,
}
use congestion_control.Pevm.GraphScheduler.Workers.{Work, validates, go_on}
use congestion_control.Pevm.GraphScheduler.Invariant.{IsTracked, IsAbsent, IsValid}

module _ (s : GraphScheduler) (ws : List Work) (k : IsValid s ws) where
  -- The invariant does not read the flag.
  pub abort-IsValid : IsValid (abort s) ws
  unfolding abort
  abort-IsValid = record {
    statuses_sized = k.statuses_sized;
    dependents_sized = k.dependents_sized;
    remaining_sized = k.remaining_sized;
    released_sized = k.released_sized;
    nodes_sized = k.nodes_sized;
    heap_sorted = k.heap_sorted;
    mirrored = k.mirrored;
    validated_counted = k.validated_counted;
    tracked = λ i h.
        let t = k.tracked i h in
        record {
          one_execution = t.one_execution;
          current = t.current;
          one_wait = t.one_wait;
          in_heap = t.in_heap;
          satisfied = t.satisfied;
          counted = t.counted;
          released = t.released;
          to_validate = t.to_validate;
          awaited = t.awaited;
        };
    absent = λ i h.
        let t = k.absent i h in
        record {
          no_execution = t.no_execution;
          no_validation = t.no_validation;
          no_wait = t.no_wait;
          no_entry = t.no_entry;
        };
  }

  -- In a valid state there is nothing to steal: what is ready is in the heap, and the sweep stays
  -- below the least entry of the heap.
  pub try_validation_task_at : try_validation_task s ≡ (
      if ltb s.validation_idx (heap_peek_or s.executable_txs s.block_size)
      then (
        record s { validation_idx = s.validation_idx + 1 },
        if ltb s.validation_idx s.block_size && is_done (status_at s s.validation_idx).status
            then some (validation (version_at s s.validation_idx))
            else none,
      )
      else (s, none))
  unfolding try_validation_task
  try_validation_task_at = elim (lt_or_le s.validation_idx s.block_size) [
    | inl h ↦
        let t = k.tracked s.validation_idx h in
        ground (arith, heap_peek-le s.validation_idx s.block_size s.executable_txs k.heap_sorted)
    | inr h ↦ ground arith
  ]

  abbrev swept : GraphScheduler
  swept = record s { validation_idx = s.validation_idx + 1 }

  abbrev sweep_work : List Work
  sweep_work =
      if ltb s.validation_idx s.block_size && is_done (status_at s s.validation_idx).status
      then validates (version_at s s.validation_idx) ∷ ws
      else ws

  swept-IsTracked : (i : ℕ) → i < s.block_size → IsTracked swept sweep_work i
  swept-IsTracked i h =
      let t = k.tracked i h in
      record {
        one_execution = ground arith;
        current = ground arith;
        one_wait = ground arith;
        in_heap = t.in_heap;
        satisfied = t.satisfied;
        counted = t.counted;
        released = t.released;
        to_validate = ground arith;
        awaited = t.awaited;
      }

  swept-IsAbsent : (i : ℕ) → s.block_size ≤ i → IsAbsent swept sweep_work i
  swept-IsAbsent i h =
      let t = k.absent i h in
      record {
        no_execution = ground arith;
        no_validation = ground arith;
        no_wait = ground arith;
        no_entry = t.no_entry;
      }

  swept-IsValid : IsValid swept sweep_work
  swept-IsValid = record {
    statuses_sized = k.statuses_sized;
    dependents_sized = k.dependents_sized;
    remaining_sized = k.remaining_sized;
    released_sized = k.released_sized;
    nodes_sized = k.nodes_sized;
    heap_sorted = k.heap_sorted;
    mirrored = k.mirrored;
    validated_counted = k.validated_counted;
    tracked = swept-IsTracked;
    absent = swept-IsAbsent;
  }

  pub try_validation_task-IsValid :
      IsValid (try_validation_task s).0 (go_on (try_validation_task s).1 ws)
  try_validation_task-IsValid =
      rw try_validation_task_at
        (elim (Bool-cases (ltb s.validation_idx (heap_peek_or s.executable_txs s.block_size))) [
          | inl e ↦
              rw e
                (elim (Bool-cases (
                  ltb s.validation_idx s.block_size
                  && is_done (status_at s s.validation_idx).status)) [
                    | inl d ↦ rw d (rw d at swept-IsValid)
                    | inr d ↦ rw d (rw d at swept-IsValid)
                  ])
          | inr e ↦ rw e k
        ])
