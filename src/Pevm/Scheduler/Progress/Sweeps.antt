-- ===== src/Pevm/Scheduler/Progress/Sweeps.antt =====
-- `sweep_execution` and `sweep_validation` of scheduler.rs, and which of them a round is.
use congestion_control.Prelude.{
  ℕ, ◌+◌, ◌-◌, ◌≡◌, ◌≤◌, ◌<◌, refl, ◌∙◌, false, ◌&&◌, arith, ◌⊎◌, inl, inr, Bool-cases, ltb,
}
use congestion_control.Pevm.Types.{Task, execution, validation, is_done, is_ready, is_aborting}
use congestion_control.Pevm.Scheduler.{
  Scheduler, Round, stop, found, again, status_at, version_at, round, sweep_execution,
  sweep_validation, try_execute,
}

-- How many more rounds the two sweeps can take.
abbrev pub left : Scheduler → ℕ
left s = (s.block_size - s.execution_idx) + (s.block_size - s.validation_idx)

-- Each sweep finds a task, or has gone on by one.
execution_step :
    (s : Scheduler)
    → ((t : Task) × ((sweep_execution s).1 ≡ found t))
      ⊎ (sweep_execution s ≡ (record s { execution_idx = s.execution_idx + 1 }, again))
unfolding sweep_execution try_execute
execution_step s =
    elim (Bool-cases
      (ltb s.execution_idx s.block_size && is_ready (status_at s s.execution_idx).status)) [
        | inl e ↦ inl (execution (version_at s s.execution_idx), ground arith)
        | inr e ↦ inr (ground arith)
      ]

abbrev swept : Scheduler → Scheduler
swept s = record s { validation_idx = s.validation_idx + 1 }

validation_ways :
    (s : Scheduler)
    → ((t : Task) × ((sweep_validation s).1 ≡ found t))
      ⊎ ((sweep_validation s ≡ (swept s, again)) ⊎ (sweep_validation s ≡ sweep_execution (swept s)))
unfolding sweep_validation
validation_ways s = elim (Bool-cases (ltb s.validation_idx s.block_size)) [
  | inr h ↦ inr (inr (ground arith))
  | inl h ↦ elim (Bool-cases (is_ready (status_at s s.validation_idx).status)) [
    | inl r ↦ inl (execution (version_at s s.validation_idx), ground arith)
    | inr r ↦ elim (Bool-cases (is_done (status_at s s.validation_idx).status)) [
      | inl d ↦ inl (validation (version_at s s.validation_idx), ground arith)
      | inr d ↦ elim (Bool-cases (is_aborting (status_at s s.validation_idx).status)) [
        | inl b ↦ inr (inl (ground arith))
        | inr b ↦ inr (inr (ground arith))
      ]
    ]
  ]
]

-- What a round that goes on leaves.
abbrev pub GoesOn : Scheduler → Scheduler × Round → Type 0
GoesOn s p =
    (p.1 ≡ again)
    × (p.0.aborted ≡ s.aborted)
    × (p.0.block_size ≡ s.block_size)
    × (left p.0 < left s)

pub sweep_execution-GoesOn :
    (s : Scheduler)
    → s.execution_idx < s.block_size
    → ((t : Task) × ((sweep_execution s).1 ≡ found t)) ⊎ GoesOn s (sweep_execution s)
sweep_execution-GoesOn s h = elim (execution_step s) [
  | inl f ↦ inl f
  | inr e ↦ inr (rw e (refl, refl, refl, omega arith))
]

pub sweep_validation-GoesOn :
    (s : Scheduler)
    → s.validation_idx < s.block_size
    → ((t : Task) × ((sweep_validation s).1 ≡ found t)) ⊎ GoesOn s (sweep_validation s)
sweep_validation-GoesOn s h = elim (validation_ways s) [
  | inl f ↦ inl f
  | inr (inl e) ↦ inr (rw e (refl, refl, refl, omega arith))
  | inr (inr e) ↦ elim (execution_step (swept s)) [
    | inl (t, f) ↦ inl (t, ground arith)
    | inr f ↦ let g = e ∙ f in inr (rw g (refl, refl, refl, omega arith))
  ]
]

pub round_over :
    (s : Scheduler)
    → s.aborted ≡ false
    → s.block_size ≤ s.execution_idx
    → s.block_size ≤ s.validation_idx
    → s.num_validated ≡ s.block_size
    → round s ≡ (s, stop)
unfolding round
round_over s a e f n = ground arith

pub round_validation :
    (s : Scheduler)
    → s.aborted ≡ false
    → s.validation_idx < s.block_size
    → s.validation_idx < s.execution_idx
    → round s ≡ sweep_validation s
unfolding round
round_validation s a h l = ground arith

pub round_execution :
    (s : Scheduler)
    → s.aborted ≡ false
    → s.execution_idx < s.block_size
    → s.execution_idx ≤ s.validation_idx
    → round s ≡ sweep_execution s
unfolding round
round_execution s a h l = ground arith
