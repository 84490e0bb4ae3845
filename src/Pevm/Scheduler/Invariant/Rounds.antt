-- ===== src/Pevm/Scheduler/Invariant/Rounds.antt =====
-- A round of `next_task` of scheduler.rs keeps the invariant.
use congestion_control.Prelude.{
  ℕ, ◌+◌, ◌≡◌, refl, true, false, List, arith, ltb, ◌⊎◌, inl, inr, Bool-cases,
}
use congestion_control.Pevm.Types.{
  validation, execution, executing, is_executing, is_done, is_ready, is_aborting,
}
use congestion_control.Pevm.GraphScheduler.Workers.{Work}
use congestion_control.Pevm.Scheduler.{
  Scheduler, status_at, set_status, version_at, stop, found, again, sweep_execution,
  sweep_validation, round,
}
use congestion_control.Pevm.Scheduler.Workers.{go_on_round}
use congestion_control.Pevm.Scheduler.Invariant.{IsValid}
use congestion_control.Pevm.Scheduler.Invariant.Sweeps.{
  started-IsValid, sweep_execution-IsValid, passed_by-IsValid, handed_out-IsValid,
}

-- The four ways of the part that prioritizes validation.
module _ (s : Scheduler) where
  abbrev i : ℕ
  i = s.validation_idx

  abbrev swept : Scheduler
  swept = record s { validation_idx = i + 1 }

  sweep_ready :
      ltb i s.block_size ≡ true
      → is_ready (status_at s i).status ≡ true
      → sweep_validation s ≡ (set_status swept i executing, found (execution (version_at s i)))
  unfolding sweep_validation
  sweep_ready h e = ground arith

  sweep_done :
      ltb i s.block_size ≡ true
      → is_done (status_at s i).status ≡ true
      → sweep_validation s ≡ (swept, found (validation (version_at s i)))
  unfolding sweep_validation
  sweep_done h e = ground arith

  sweep_aborting :
      ltb i s.block_size ≡ true
      → is_aborting (status_at s i).status ≡ true
      → sweep_validation s ≡ (swept, again)
  unfolding sweep_validation
  sweep_aborting h e = ground arith

  sweep_on :
      (ltb i s.block_size ≡ false) ⊎ (is_executing (status_at s i).status ≡ true)
      → sweep_validation s ≡ sweep_execution swept
  unfolding sweep_validation
  sweep_on h = ground arith

  Status-cases :
      (is_ready (status_at s i).status ≡ true)
      ⊎ ((is_done (status_at s i).status ≡ true)
          ⊎ ((is_aborting (status_at s i).status ≡ true)
              ⊎ (is_executing (status_at s i).status ≡ true)))
  Status-cases = ground arith

  round_cases :
      (round s ≡ (s, stop))
      ⊎ ((round s ≡ (s, again)) ⊎ ((round s ≡ sweep_validation s) ⊎ (round s ≡ sweep_execution s)))
  unfolding round
  round_cases = ground arith

  module _ (ws : List Work) (k : IsValid s ws) where
    go_on-IsValid :
        (ltb i s.block_size ≡ false) ⊎ (is_executing (status_at s i).status ≡ true)
        → IsValid (sweep_validation s).0 (go_on_round (sweep_validation s).1 ws)
    go_on-IsValid h =
        rw (sweep_on h) (sweep_execution-IsValid swept ws (passed_by-IsValid s ws k (ground arith)))

    sweep_validation-IsValid :
        IsValid (sweep_validation s).0 (go_on_round (sweep_validation s).1 ws)
    sweep_validation-IsValid = elim (Bool-cases (ltb i s.block_size)) [
      | inr h ↦ go_on-IsValid (inl h)
      | inl h ↦ elim Status-cases [
        | inl e ↦ rw (sweep_ready h e) (
            started-IsValid s ws k i s.execution_idx (i + 1) (ground arith) e (inl (omega arith))
              (inr (refl, refl)))
        | inr (inl e) ↦ rw (sweep_done h e) (handed_out-IsValid s ws k (ground arith))
        | inr (inr (inl e)) ↦ rw (sweep_aborting h e) (passed_by-IsValid s ws k (ground arith))
        | inr (inr (inr e)) ↦ go_on-IsValid (inr e)
      ]
    ]

    -- A round of `next_task` keeps the invariant, however it ends.
    pub round-IsValid : IsValid (round s).0 (go_on_round (round s).1 ws)
    round-IsValid = elim round_cases [
      | inl e ↦ rw e k
      | inr (inl e) ↦ rw e k
      | inr (inr (inl e)) ↦ rw e sweep_validation-IsValid
      | inr (inr (inr e)) ↦ rw e (sweep_execution-IsValid s ws k)
    ]
