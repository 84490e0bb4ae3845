-- ===== src/Pevm/GraphScheduler/Tests.antt =====
-- Runs of the graph scheduler on a block of two transactions, the second of which waits for the
-- first, and the theorems at the states of these runs.
use congestion_control.Prelude.{
  ℕ, zero, suc, ◌%◌, ◌≡◌, ◌≤◌, ◌<◌, refl, true, false, List, [], ◌∷◌, arith, ◌==◌, if◌then◌else◌,
  ◌⊎◌, length, Option, some,
}
use congestion_control.Pevm.Types.{BitFlags, TxVersion, Task, execution, is_validated}
use congestion_control.Pevm.Atomics.{wrapping_decrement, heap_push}
use congestion_control.Pevm.Node.{TransactionNode, no_node}
use congestion_control.Pevm.GraphScheduler.{
  new, poll, next_task, found, stop, status_at, parents_of, check_all_done, try_validation_task,
  try_execution_task, try_execute, claim_validation, validate_at, GraphScheduler,
}
use congestion_control.Pevm.GraphScheduler.Completion.{
  add_dependency, finish_execution, schedule_validation, resume_dependents, resume_all, resume,
  release_children, release_all, release_child, set_ready_status, finish_validation, retry,
}
use congestion_control.Pevm.GraphScheduler.Completion.Release.{remaining_at, unreleased}
use congestion_control.Pevm.GraphScheduler.Workers.{
  System, system, go_on, go_on_polled, polls, finishes, passes, Reach, begin, next, here,
}
use congestion_control.Pevm.GraphScheduler.Invariant.{IsMirrored}
use congestion_control.Pevm.GraphScheduler.Safety.{initial, remaining-unreleased}
use congestion_control.Pevm.GraphScheduler.Progress.{IsForward, no_deadlock}

-- `contains` for flags whose lowest bit is all that is asked about.
abbrev lowest_bit : BitFlags
lowest_bit = record {
  contains = λ flags flag. if flag == 0 then true else (flags % 2 == 1);
  contains_empty = λ flags. refl;
  contains_lowest = λ flags. refl;
}

abbrev node : List ℕ → List ℕ → TransactionNode
node children parents = record no_node { children_indices = children; parent_indices = parents }

abbrev chain : List TransactionNode
chain = node (1 ∷ []) [] ∷ node [] (0 ∷ []) ∷ []

chain-IsMirrored : IsMirrored chain
chain-IsMirrored zero zero = refl
chain-IsMirrored zero (suc zero) = refl
chain-IsMirrored zero (suc (suc c)) = ground arith
chain-IsMirrored (suc zero) zero = refl
chain-IsMirrored (suc zero) (suc zero) = refl
chain-IsMirrored (suc zero) (suc (suc c)) = refl
chain-IsMirrored (suc (suc p)) zero = refl
chain-IsMirrored (suc (suc p)) (suc zero) = ground arith
chain-IsMirrored (suc (suc p)) (suc (suc c)) = refl

chain-IsForward : IsForward chain
chain-IsForward p zero h = elim h [ ]
chain-IsForward p (suc zero) h = ground arith
chain-IsForward p (suc (suc c)) h = elim h [ ]

abbrev version : ℕ → ℕ → TxVersion
version i n = record { tx_idx = i; tx_incarnation = n }

-- The first transaction is handed out, is executed, and is validated.
abbrev polled : System
polled = system (poll (new 2 chain) false).0 (go_on_polled (poll (new 2 chain) false).1 [])

abbrev finished : System
finished =
    system (finish_execution lowest_bit polled.scheduler (version 0 0) 1).0
      (go_on (finish_execution lowest_bit polled.scheduler (version 0 0) 1).1 [])

abbrev passed : System
passed =
    system (finish_validation finished.scheduler (version 0 0) false).0
      (go_on (finish_validation finished.scheduler (version 0 0) false).1 [])

-- The functions that a run computes with.
run_functions : ℕ
unfolding new poll check_all_done validate_at add_dependency try_validation_task try_execution_task
    try_execute finish_execution schedule_validation resume_dependents resume_all resume
    release_children release_all release_child set_ready_status finish_validation retry heap_push
    wrapping_decrement
run_functions = 0

first_poll : (poll (new 2 chain) false).1 ≡ found (execution (version 0 0))
unfolding run_functions
first_poll = refl

polled-Reach : Reach lowest_bit (initial chain) polled
polled-Reach = next begin (polls (new 2 chain) [] false)

finished-Reach : Reach lowest_bit (initial chain) finished
unfolding run_functions
finished-Reach = next polled-Reach (finishes polled.scheduler (version 0 0) 1 here)

passed-Reach : Reach lowest_bit (initial chain) passed
unfolding run_functions
passed-Reach = next finished-Reach (passes finished.scheduler (version 0 0) here)

-- The second transaction is released, once: it is in the heap, and is handed out next.
second_poll : (poll passed.scheduler false).1 ≡ found (execution (version 1 0))
unfolding run_functions
second_poll = refl

remaining-unreleased_example :
    (remaining_at finished.scheduler 1
      ≡ unreleased finished.scheduler.children_released
          (parents_of finished.scheduler.dependency_graph 1))
    × (remaining_at finished.scheduler 1
        ≤ length (parents_of finished.scheduler.dependency_graph 1))
unfolding run_functions
remaining-unreleased_example =
    remaining-unreleased lowest_bit chain chain-IsMirrored finished-Reach 1 (omega arith)

no_deadlock_example :
    ((t : Task) × ((next_task (false ∷ []) passed.scheduler).1 ≡ found t))
    ⊎ ((next_task (false ∷ []) passed.scheduler ≡ (passed.scheduler, stop))
        × ((i : ℕ) → i < 2 → is_validated (status_at passed.scheduler i).status ≡ true)
        × (passed.scheduler.num_validated ≡ 2))
unfolding run_functions
no_deadlock_example =
    no_deadlock lowest_bit chain chain-IsMirrored chain-IsForward passed-Reach refl refl []

-- Three transactions without edges. One thread executes the first and another the second; the first
-- one's execution lowers the validation index to 1, and the heap holds the third.
abbrev flat : List TransactionNode
flat = node [] [] ∷ node [] [] ∷ node [] [] ∷ []

abbrev lowered : GraphScheduler
lowered = (finish_execution lowest_bit (poll (poll (new 3 flat) false).0 false).0 (version 0 0) 1).0

-- Two threads have both read the index 1 and the entry 2. The one takes the second transaction, of which
-- there is nothing to do; the other takes the third, whose entry stays in the heap.
abbrev stolen : GraphScheduler × Option Task
stolen = claim_validation 1 2 (claim_validation 1 2 lowered).0

stale_entry : (stolen.1 ≡ some (execution (version 2 0))) × (stolen.0.executable_txs ≡ 2 ∷ [])
unfolding run_functions
stale_entry = (refl, refl)

-- It is blocked by the second one, and another thread takes the entry and executes it. When the second
-- one ends, it is resumed and handed out again.
abbrev taken_again : GraphScheduler × Option Task
taken_again = try_execution_task (add_dependency stolen.0 2 1).0

abbrev handed_out_twice : GraphScheduler × Option Task
handed_out_twice = try_execution_task (finish_execution lowest_bit taken_again.0 (version 1 0) 0).0

two_threads_execute :
    (taken_again.1 ≡ some (execution (version 2 1)))
    × (handed_out_twice.1 ≡ some (execution (version 2 2)))
unfolding run_functions
two_threads_execute = (refl, refl)
