-- ===== src/Pevm/GraphScheduler/Invariant/Pop.antt =====
-- The execution task of `next_task`, and the whole round, keep the invariant.
use congestion_control.Prelude.{
  ℕ, ◌+◌, ◌≡◌, ◌≤◌, ◌<◌, refl, Bool, List, [], ◌∷◌, arith, ltb, count_if-set, get_or-set,
  length-set, if◌then◌else◌, ◌⊎◌, inl, inr, some, none, Option, Bool-cases, lt_or_le,
}
use congestion_control.Pevm.Types.{Task, execution, executing, ready_to_execute, TxStatus}
use congestion_control.Pevm.GraphScheduler.{
  GraphScheduler, status_at, no_status, set_status, version_at, try_execute, poll,
  try_validation_task, try_execution_task, or_execution, as_poll, check_all_done,
}
use congestion_control.Pevm.GraphScheduler.Completion.Release.{remaining_at}
use congestion_control.Pevm.GraphScheduler.Workers.{Work, executes, go_on, go_on_polled}
use congestion_control.Pevm.GraphScheduler.Invariant.{IsTracked, IsAbsent, IsValid, has_validated}
use congestion_control.Pevm.GraphScheduler.Invariant.Finish.{incarnation-le-execution}
use congestion_control.Pevm.GraphScheduler.Invariant.Poll.{
  abort-IsValid, try_validation_task-IsValid,
}

module _ (s : GraphScheduler) (ws : List Work) (k : IsValid s ws) (j : ℕ) (heap : List ℕ)
    (least : s.executable_txs ≡ j ∷ heap) where
  entry-in_block : j < s.block_size
  entry-in_block = elim (lt_or_le j s.block_size) [
    | inl h ↦ h
    | inr h ↦ ground (arith, (k.absent j h).no_entry)
  ]

  entry-ready : ((status_at s j).status ≡ ready_to_execute) × (remaining_at s j ≡ 0)
  entry-ready = let t = k.tracked j entry-in_block in ground arith

  abbrev popped : GraphScheduler
  popped = record (set_status s j executing) {
    executable_txs = heap;
    re_execution_count =
        if ltb 0 (status_at s j).incarnation
        then s.re_execution_count + 1
        else s.re_execution_count;
  }

  -- In a valid state the least entry of the heap is always executable.
  pub try_execution_task_at : try_execution_task s ≡ (popped, some (execution (version_at s j)))
  unfolding try_execution_task try_execute
  try_execution_task_at = let b = entry-in_block in let e = entry-ready in ground arith

  abbrev popped_work : List Work
  popped_work = executes (version_at s j) ∷ ws

  popped-IsTracked : (i : ℕ) → i < s.block_size → IsTracked popped popped_work i
  popped-IsTracked i h =
      let t = k.tracked i h in
      let u = k.tracked j entry-in_block in
      let e = entry-ready in
      let g =
        get_or-set s.transactions_status j i
          (record { incarnation = (status_at s j).incarnation; status = executing }) no_status in
      let o = incarnation-le-execution i (status_at s i).incarnation ws in
      let l = k.statuses_sized in
      record {
        one_execution = ground arith;
        current = ground arith;
        one_wait = ground arith;
        in_heap = ground arith;
        satisfied = ground arith;
        counted = ground arith;
        released = ground arith;
        to_validate = ground arith;
        awaited = ground arith;
      }

  popped-IsAbsent : (i : ℕ) → s.block_size ≤ i → IsAbsent popped popped_work i
  popped-IsAbsent i h =
      let t = k.absent i h in
      let b = entry-in_block in
      record {
        no_execution = ground arith;
        no_validation = ground arith;
        no_wait = ground arith;
        no_entry = ground arith;
      }

  popped-IsValid : IsValid popped popped_work
  popped-IsValid =
      let b = entry-in_block in
      let e = entry-ready in
      let tx : TxStatus = record {
        incarnation = (status_at s j).incarnation;
        status = executing;
      } in
      let n = length-set s.transactions_status j tx in
      let m = count_if-set has_validated s.transactions_status j tx no_status in
      record {
        statuses_sized = ground arith;
        dependents_sized = k.dependents_sized;
        remaining_sized = k.remaining_sized;
        released_sized = k.released_sized;
        nodes_sized = k.nodes_sized;
        heap_sorted = (rw least at k.heap_sorted).1;
        mirrored = k.mirrored;
        validated_counted = ground (arith, k.statuses_sized);
        tracked = popped-IsTracked;
        absent = popped-IsAbsent;
      }

pub List-cases : (xs : List ℕ) → (xs ≡ []) ⊎ ((x : ℕ) × (ys : List ℕ) × (xs ≡ x ∷ ys))
List-cases [] = inl refl
List-cases (x ∷ xs) = inr (x, xs, refl)

-- An empty heap gives no task and changes nothing.
try_execution_task_empty :
    (s : GraphScheduler) → s.executable_txs ≡ [] → try_execution_task s ≡ (s, none)
unfolding try_execution_task
try_execution_task_empty s e = ground arith

try_execution_task-IsValid :
    (s : GraphScheduler) (ws : List Work)
    → IsValid s ws
    → IsValid (try_execution_task s).0 (go_on (try_execution_task s).1 ws)
try_execution_task-IsValid s ws k = elim (List-cases s.executable_txs) [
  | inl e ↦ rw (try_execution_task_empty s e) k
  | inr (j, heap, e) ↦ rw (try_execution_task_at s ws k j heap e) (popped-IsValid s ws k j heap e)
]

as_poll-IsValid :
    (p : GraphScheduler × Option Task) (ws : List Work)
    → IsValid p.0 (go_on p.1 ws)
    → IsValid (as_poll p).0 (go_on_polled (as_poll p).1 ws)
unfolding as_poll
as_poll-IsValid (s, none) ws k = k
as_poll-IsValid (s, some t) ws k = k

or_execution-IsValid :
    (p : GraphScheduler × Option Task) (ws : List Work)
    → IsValid p.0 (go_on p.1 ws)
    → IsValid (or_execution p).0 (go_on_polled (or_execution p).1 ws)
unfolding or_execution
or_execution-IsValid (s, none) ws k =
    as_poll-IsValid (try_execution_task s) ws (try_execution_task-IsValid s ws k)
or_execution-IsValid (s, some t) ws k = k

-- A round of `next_task` keeps the invariant, with the task that it hands out.
pub poll-IsValid :
    (s : GraphScheduler) (ws : List Work) (expired : Bool)
    → IsValid s ws
    → IsValid (poll s expired).0 (go_on_polled (poll s expired).1 ws)
unfolding poll
poll-IsValid s ws expired k = elim (Bool-cases s.aborted) [
  | inl a ↦ simp a k
  | inr a ↦ simp a (elim (Bool-cases expired) [
    | inl x ↦ simp x (abort-IsValid s ws k)
    | inr x ↦ simp x (elim (Bool-cases (check_all_done s)) [
      | inl d ↦ simp d k
      | inr d ↦
          simp d
            (or_execution-IsValid (try_validation_task s) ws (try_validation_task-IsValid s ws k))
    ])
  ])
]
