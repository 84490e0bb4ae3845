-- ===== src/Pevm/MvMemory/Tests.antt =====
-- The theorems on the multi-version memory, at a memory in which the first of two transactions has
-- written location 5 and the second has read it.
use congestion_control.Prelude.{ℕ, ◌≡◌, ◌↔◌, refl, true, false, [], ◌∷◌, arith, inl}
use congestion_control.Prelude.Maps.{lookup, insert}
use congestion_control.Pevm.Types.{TxVersion}
use congestion_control.Pevm.MvMemory.{
  MvMemory, new, mv_memory, storage, validate_read_locations, record_sets,
  convert_writes_to_estimates, prune, write_all, update, check_reads, check_location, check_origins,
  mark_all, estimate_all,
}
use congestion_control.Pevm.MvMemory.Ordered.{put, remove, below}
use congestion_control.Pevm.MvMemory.Entries.{entry_at, AreOrdered}
use congestion_control.Pevm.MvMemory.Recording.{IsRecorded, record_sets-IsRecorded}
use congestion_control.Pevm.MvMemory.Validation.{AreCurrent, validate_singles, marked_fails}
use congestion_control.Pevm.MvMemory.Later.{later_record}

abbrev version : ℕ → ℕ → TxVersion
version i n = record { tx_idx = i; tx_incarnation = n }

abbrev fresh_memory : MvMemory
fresh_memory = new 2 [] []

fresh_memory-AreOrdered : AreOrdered fresh_memory.entries
unfolding new estimate_all lookup
fresh_memory-AreOrdered l = tt

abbrev first_recorded : MvMemory
first_recorded = (record_sets fresh_memory (version 0 0) [] ((5, storage 7) ∷ [])).0

abbrev both_recorded : MvMemory
both_recorded =
    (record_sets first_recorded (version 1 0) ((5, mv_memory (version 0 0) ∷ []) ∷ [])
      ((6, storage 8) ∷ [])).0

run_functions : ℕ
unfolding new record_sets prune write_all update insert lookup put remove below
    validate_read_locations check_reads check_location check_origins convert_writes_to_estimates
    mark_all entry_at estimate_all
run_functions = 0

record_sets-IsRecorded_example :
    IsRecorded fresh_memory
      (version 0 0)
      []
      ((5, storage 7) ∷ [])
      (record_sets fresh_memory (version 0 0) [] ((5, storage 7) ∷ []))
unfolding run_functions
record_sets-IsRecorded_example =
    record_sets-IsRecorded fresh_memory (version 0 0) [] ((5, storage 7) ∷ [])
      fresh_memory-AreOrdered (omega arith)

first-AreOrdered : AreOrdered first_recorded.entries
first-AreOrdered = record_sets-IsRecorded_example.ordered

both-AreOrdered : AreOrdered both_recorded.entries
unfolding run_functions
both-AreOrdered =
    (record_sets-IsRecorded first_recorded (version 1 0) ((5, mv_memory (version 0 0) ∷ []) ∷ [])
      ((6, storage 8) ∷ []) first-AreOrdered (omega arith)).ordered

valid_read : validate_read_locations both_recorded 1 ≡ true
unfolding run_functions
valid_read = refl

validate_singles_example :
    (validate_read_locations both_recorded 1 ≡ true)
    ↔ AreCurrent both_recorded.entries 1 ((5, mv_memory (version 0 0)) ∷ [])
unfolding run_functions
validate_singles_example =
    validate_singles both_recorded 1 ((5, mv_memory (version 0 0)) ∷ []) both-AreOrdered refl

marked_fails_example :
    validate_read_locations (convert_writes_to_estimates both_recorded 0) 1 ≡ false
unfolding run_functions
marked_fails_example =
    marked_fails both_recorded 1 5 (version 0 0) both-AreOrdered (inl (refl, refl)) refl refl

later_record_example :
    validate_read_locations (record_sets first_recorded (version 1 0) [] ((5, storage 9) ∷ [])).0 0
    ≡ validate_read_locations first_recorded 0
unfolding run_functions
later_record_example =
    later_record first_recorded (version 1 0) [] ((5, storage 9) ∷ []) 0 [] first-AreOrdered
      (omega arith) (omega arith) refl
