-- ===== src/Pevm/Scheduler/Tests.antt =====
-- Runs of the collaborative scheduler on a block of two transactions, and the theorems at them.
use congestion_control.Prelude.{
  ℕ, ◌+◌, ◌≡◌, ◌≤◌, ◌<◌, ◌⊎◌, refl, true, [], arith, bit, count_if, if◌then◌else◌, ◌==◌, ◌%◌,
}
use congestion_control.Pevm.Types.{
  BitFlags, Task, TxVersion, execution, executing, is_ready, is_executed, is_aborting, is_executing,
}
use congestion_control.Pevm.GraphScheduler.Workers.{
  Work, here, go_on, waits, is_execution_of, is_validation_of, is_abort_of,
}
use congestion_control.Pevm.Scheduler.{
  Scheduler, new, status_at, round, found, stop, next_task, try_execute, sweep_execution,
  sweep_validation, finish_execution, schedule_validation, resume_dependents, resume_all,
  finish_validation,
}
use congestion_control.Pevm.Scheduler.Workers.{
  System, system, go_on_round, Reach, begin, next, rounds, finishes,
}
use congestion_control.Pevm.Scheduler.Invariant.{has_validated}
use congestion_control.Pevm.Scheduler.Progress.{next_task_ends}
use congestion_control.Pevm.Scheduler.Progress.Ends.{IsFinished}
use congestion_control.Pevm.Scheduler.Safety.{
  initial, exclusive_execution, nothing_lost, validated_exact,
}

-- `contains` for flags whose lowest bit is all that is asked about.
abbrev lowest_bit : BitFlags
lowest_bit = record {
  contains = λ flags flag. if flag == 0 then true else (flags % 2 == 1);
  contains_empty = λ flags. refl;
  contains_lowest = λ flags. refl;
}

abbrev version : ℕ → ℕ → TxVersion
version i n = record { tx_idx = i; tx_incarnation = n }

-- The first transaction is handed out, and is executed.
abbrev polled : System
polled = system (round (new 2)).0 (go_on_round (round (new 2)).1 [])

abbrev finished : System
finished =
    system (finish_execution lowest_bit polled.scheduler (version 0 0) 1).0
      (go_on (finish_execution lowest_bit polled.scheduler (version 0 0) 1).1 [])

run_functions : ℕ
unfolding new round sweep_execution sweep_validation try_execute finish_execution
    schedule_validation resume_dependents resume_all finish_validation next_task
run_functions = 0

first_round : (round (new 2)).1 ≡ found (execution (version 0 0))
unfolding run_functions
first_round = refl

polled-Reach : Reach lowest_bit (initial 2) polled
polled-Reach = next begin (rounds (new 2) [])

finished-Reach : Reach lowest_bit (initial 2) finished
unfolding run_functions
finished-Reach = next polled-Reach (finishes polled.scheduler (version 0 0) 1 here)

exclusive_execution_example :
    (0 < polled.scheduler.block_size)
    × (status_at polled.scheduler 0 ≡ record { incarnation = 0; status = executing })
    × (count_if {A = Work} (is_execution_of 0) [] ≡ 0)
unfolding run_functions
exclusive_execution_example = exclusive_execution lowest_bit 2 polled-Reach (version 0 0) here

nothing_lost_example :
    (is_ready (status_at finished.scheduler 1).status ≡ true → finished.scheduler.execution_idx ≤ 1)
    × (is_executed (status_at finished.scheduler 1).status ≡ true
        → (finished.scheduler.validation_idx ≤ 1)
          ⊎ (0 < count_if (is_validation_of 1) finished.work))
    × (waits 1 finished.scheduler.transactions_dependents + count_if (is_abort_of 1) finished.work
        ≡ bit (is_aborting (status_at finished.scheduler 1).status))
    × (count_if (is_execution_of 1) finished.work
        ≡ bit (is_executing (status_at finished.scheduler 1).status))
unfolding run_functions
nothing_lost_example = nothing_lost lowest_bit 2 finished-Reach 1 (omega arith)

validated_exact_example :
    (finished.scheduler.num_validated
      ≡ count_if has_validated finished.scheduler.transactions_status)
    × (finished.scheduler.num_validated ≤ finished.scheduler.block_size)
validated_exact_example = validated_exact lowest_bit 2 finished-Reach

next_task_ends_example :
    ((t : Task) × ((next_task 5 (new 2)).1 ≡ found t))
    ⊎ ((r : Scheduler) × (next_task 5 (new 2) ≡ (r, stop)) × IsFinished r)
unfolding run_functions
next_task_ends_example = next_task_ends lowest_bit 2 5 (new 2) begin refl (omega arith)
