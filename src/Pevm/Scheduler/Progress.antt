-- ===== src/Pevm/Scheduler/Progress.antt =====
-- `next_task` of scheduler.rs in the states in which no thread holds a task.
pub mod Ends
mod Sweeps
use congestion_control.Prelude.{
  ℕ, zero, suc, ◌≡◌, ◌<◌, refl, ap, ◌∙◌, subst, false, [], arith, ◌⊎◌, inl, inr, lt_or_le,
}
use congestion_control.Pevm.Types.{BitFlags, Task}
use congestion_control.Pevm.GraphScheduler.Progress.Upward.{IsUpward}
use congestion_control.Pevm.Scheduler.{Scheduler, stop, found, again, round, next_task}
use congestion_control.Pevm.Scheduler.Workers.{system, Reach, next, rounds, go_on_round}
use congestion_control.Pevm.Scheduler.Invariant.{IsValid}
use congestion_control.Pevm.Scheduler.Safety.{initial, reachable-IsValid}
use congestion_control.Pevm.Scheduler.Upward.{Reach-IsUpward, new-IsUpward}
use congestion_control.Pevm.Scheduler.Progress.Ends.{IsFinished, all-IsFinished}
use congestion_control.Pevm.Scheduler.Progress.Sweeps.{
  left, GoesOn, sweep_execution-GoesOn, sweep_validation-GoesOn, round_over, round_validation,
  round_execution,
}

-- A round of an idle scheduler finds a task, ends, or comes nearer to the end of the sweeps.
round_step :
    (s : Scheduler)
    → IsValid s []
    → IsUpward s.transactions_dependents
    → s.aborted ≡ false
    → ((t : Task) × ((round s).1 ≡ found t))
      ⊎ (((round s ≡ (s, stop)) × IsFinished s) ⊎ GoesOn s (round s))
round_step s k up a = elim (lt_or_le s.validation_idx s.execution_idx) [
  | inl l ↦ elim (lt_or_le s.validation_idx s.block_size) [
    | inl h ↦
        rw (round_validation s a h l)
          (elim (sweep_validation-GoesOn s h) [ inl f ↦ inl f | inr g ↦ inr (inr g) ])
    | inr h ↦
        let d = all-IsFinished s k up (omega arith) h in
        inr (inl (round_over s a (omega arith) h d.0, d))
  ]
  | inr l ↦ elim (lt_or_le s.execution_idx s.block_size) [
    | inl h ↦
        rw (round_execution s a h l)
          (elim (sweep_execution-GoesOn s h) [ inl f ↦ inl f | inr g ↦ inr (inr g) ])
    | inr h ↦
        let d = all-IsFinished s k up h (omega arith) in
        inr (inl (round_over s a h (omega arith) d.0, d))
  ]
]

next_task-found :
    (fuel : ℕ) (s : Scheduler) (t : Task)
    → (round s).1 ≡ found t
    → (next_task (suc fuel) s).1 ≡ found t
unfolding next_task
next_task-found fuel s t e = rw (e, next_task) e

next_task-stop :
    (fuel : ℕ) (s r : Scheduler) → round s ≡ (r, stop) → next_task (suc fuel) s ≡ (r, stop)
unfolding next_task
next_task-stop fuel s r e = rw (ap (λ p. p.1) e, next_task) e

next_task-again :
    (fuel : ℕ) (s : Scheduler)
    → (round s).1 ≡ again
    → next_task (suc fuel) s ≡ next_task fuel (round s).0
unfolding next_task
next_task-again fuel s e = rw (e, next_task) refl

module _ (lib : BitFlags) (n : ℕ) where
  -- In every reachable state of the collaborative scheduler in which no thread holds a task and which is
  -- not aborted, the loop of `next_task` ends after at most one round more than the sweeps have left: it
  -- hands out a task, or it ends in a state in which all transactions are validated and counted so.
  pub next_task_ends :
      (fuel : ℕ) (s : Scheduler)
      → Reach lib (initial n) (system s [])
      → s.aborted ≡ false
      → left s < fuel
      → ((t : Task) × ((next_task fuel s).1 ≡ found t))
        ⊎ ((r : Scheduler) × (next_task fuel s ≡ (r, stop)) × IsFinished r)
  next_task_ends zero s r a l = absurd (omega arith)
  next_task_ends (suc fuel) s r a l =
      let k = reachable-IsValid lib n r in
      let up = Reach-IsUpward (new-IsUpward n) r in
      elim (round_step s k up a) [
        | inl (t, e) ↦ inl (t, next_task-found fuel s t e)
        | inr (inl (e, d)) ↦ inr (s, next_task-stop fuel s s e, d)
        | inr (inr (e, b, z, m)) ↦
            let r' : Reach lib (initial n) (system (round s).0 []) =
              subst (λ o. Reach lib (initial n) (system (round s).0 (go_on_round o []))) e
                (next r (rounds s [])) in
            rw (next_task-again fuel s e) (next_task_ends fuel (round s).0 r' (b ∙ a) (omega arith))
      ]
