-- ===== src/Pevm/Scheduler/Progress/Ends.antt =====
-- What holds in scheduler.rs when both sweeps are over and no thread holds a task.
use congestion_control.Prelude.{
  ℕ, zero, suc, ◌≡◌, ◌≤◌, ◌<◌, ap, ◌∙◌, true, [], arith, count, count_if_all, get_or, inl, inr,
  zero_or_pos,
}
use congestion_control.Pevm.Types.{is_done, is_validated}
use congestion_control.Pevm.GraphScheduler.Workers.{waits}
use congestion_control.Pevm.GraphScheduler.Progress.{waits-zero}
use congestion_control.Pevm.GraphScheduler.Progress.Upward.{IsUpward}
use congestion_control.Pevm.Scheduler.{Scheduler, no_status, status_at}
use congestion_control.Pevm.Scheduler.Invariant.{IsValid, has_validated}

-- The sweeps are over, and all is validated.
abbrev pub IsFinished : Scheduler → Type 0
IsFinished s =
    (s.num_validated ≡ s.block_size)
    × ((i : ℕ) → i < s.block_size → is_validated (status_at s i).status ≡ true)

module _ (s : Scheduler) (k : IsValid s []) (up : IsUpward s.transactions_dependents)
    (e : s.block_size ≤ s.execution_idx) (f : s.block_size ≤ s.validation_idx) where
  done_step :
      (i : ℕ)
      → i < s.block_size
      → ((j : ℕ) → j < i → is_done (status_at s j).status ≡ true)
      → is_done (status_at s i).status ≡ true
  done_step i h ih =
      let t = k.tracked i h in
      let w : waits i s.transactions_dependents ≡ 0 = waits-zero i s.transactions_dependents (λ b.
        elim (zero_or_pos (count i (get_or s.transactions_dependents b []))) [
          | inl z ↦ z
          | inr c ↦ ap (count i) ((k.tracked b (omega (arith, up b i c))).awaited (ih b (up b i c)))
        ]) in
      ground arith

  done_below : (n i : ℕ) → n ≤ s.block_size → i < n → is_done (status_at s i).status ≡ true
  done_below zero i h l = elim l [ ]
  done_below (suc n) i h l =
      done_step i (omega arith) (λ j g. done_below n j (omega arith) (omega arith))

  validated_at : (i : ℕ) → i < s.block_size → is_validated (status_at s i).status ≡ true
  validated_at i h =
      let d = done_below s.block_size i (omega arith) h in
      ground (arith, (k.tracked i h).to_validate)

  pub all-IsFinished : IsFinished s
  all-IsFinished = (
    k.validated_counted
        ∙ (count_if_all has_validated s.transactions_status no_status
              (λ i h. validated_at i (omega (arith, k.statuses_sized)))
            ∙ k.statuses_sized),
    validated_at,
  )
