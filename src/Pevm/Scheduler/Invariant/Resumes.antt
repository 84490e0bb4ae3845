-- ===== src/Pevm/Scheduler/Invariant/Resumes.antt =====
-- The loop of `finish_execution` of scheduler.rs over the drained dependents keeps the invariant.
use congestion_control.Prelude.{
  ℕ, ◌+◌, ◌≡◌, ◌≤◌, ◌<◌, refl, sym, ap, ◌∙◌, List, [], ◌∷◌, arith, ◌==◌, count, count_if_pointwise,
  get_or-set, set, length, length-set, if◌then◌else◌,
}
use congestion_control.Pevm.Types.{ready_to_execute, TxStatus}
use congestion_control.Pevm.GraphScheduler.Workers.{Work, waits, waits-set}
use congestion_control.Pevm.Scheduler.{
  Scheduler, no_status, status_at, dependents_at, set_ready_status, resume, resume_all,
  resume_dependents,
}
use congestion_control.Pevm.Scheduler.Invariant.{IsTracked, IsValid, has_validated}

-- The next incarnation of a transaction, ready.
abbrev next_ready : TxStatus → TxStatus
next_ready tx = record { incarnation = tx.incarnation + 1; status = ready_to_execute }

-- What the loop leaves alone.
pub record IsResumed (s r : Scheduler) : Type 0 where
  pub same_size : r.block_size ≡ s.block_size
  same_validation : r.validation_idx ≡ s.validation_idx
  same_validated : r.num_validated ≡ s.num_validated
  pub same_dependents : r.transactions_dependents ≡ s.transactions_dependents
  same_length : length r.transactions_status ≡ length s.transactions_status
  lower : r.execution_idx ≤ s.execution_idx

pub resume_all-IsResumed : (s : Scheduler) (is : List ℕ) → IsResumed s (resume_all s is)
unfolding resume_all resume set_ready_status
resume_all-IsResumed s [] = record {
  same_size = refl;
  same_validation = refl;
  same_validated = refl;
  same_dependents = refl;
  same_length = refl;
  lower = omega arith;
}
resume_all-IsResumed s (i ∷ is) =
    let r = resume_all-IsResumed (resume s i) is in
    record {
      same_size = r.same_size;
      same_validation = r.same_validation;
      same_validated = r.same_validated;
      same_dependents = r.same_dependents;
      same_length = r.same_length ∙ length-set s.transactions_status i (next_ready (status_at s i));
      lower = let l = r.lower in omega arith;
    }

-- A transaction that is listed once becomes ready, as its next incarnation, and the sweep goes back to
-- it; one that is not listed stays as it was.
resume_all_at :
    (s : Scheduler) (ks : List ℕ) (i : ℕ)
    → i < length s.transactions_status
    → count i ks ≤ 1
    → (status_at (resume_all s ks) i
        ≡ (if count i ks == 1 then next_ready (status_at s i) else status_at s i))
      × (count i ks ≡ 1 → (resume_all s ks).execution_idx ≤ i)
unfolding resume_all resume set_ready_status
resume_all_at s [] i h l = (refl, λ e. absurd (ground arith))
resume_all_at s (k ∷ ks) i h l =
    let at = get_or-set s.transactions_status k i (next_ready (status_at s k)) no_status in
    let n = length-set s.transactions_status k (next_ready (status_at s k)) in
    let r = resume_all_at (resume s k) ks i (omega arith) (omega arith) in
    let low = (resume_all-IsResumed (resume s k) ks).lower in (ground arith, ground arith)

module _ (s : Scheduler) (ws : List Work) (t : ℕ) (v : IsValid s ws)
    (in_block : t < s.block_size) where
  abbrev drained : Scheduler
  drained = record s { transactions_dependents = set s.transactions_dependents t [] }

  listed :
      (i : ℕ)
      → waits i (set s.transactions_dependents t []) + count i (dependents_at s t)
        ≡ waits i s.transactions_dependents
  listed i =
      omega (arith, waits-set i t s.transactions_dependents [] (omega (arith, v.dependents_sized)))

  resume_dependents-IsTracked : (i : ℕ) → i < s.block_size → IsTracked (resume_dependents s t) ws i
  unfolding resume_dependents
  resume_dependents-IsTracked i h =
      let k = v.tracked i h in
      let g = resume_all-IsResumed drained (dependents_at s t) in
      let l = listed i in
      let e =
        resume_all_at drained (dependents_at s t) i (omega (arith, v.statuses_sized))
          (ground arith) in
      let w = get_or-set s.transactions_dependents t i [] [] in
      let low = g.lower in
      let sv = g.same_validation in
      let sd = g.same_dependents in
      record {
        one_execution = ground arith;
        current = ground arith;
        one_wait = ground arith;
        to_execute = ground arith;
        to_validate = ground arith;
        awaited = ground arith;
      }

  -- Nobody waits for the transaction any more.
  pub resume_dependents-awaited : dependents_at (resume_dependents s t) t ≡ []
  unfolding resume_dependents
  resume_dependents-awaited =
      let g = resume_all-IsResumed drained (dependents_at s t) in
      let sd = g.same_dependents in
      ground (arith, get_or-set s.transactions_dependents t t [] [], v.dependents_sized)

  pub resume_dependents-IsValid : IsValid (resume_dependents s t) ws
  unfolding resume_dependents
  resume_dependents-IsValid =
      let g = resume_all-IsResumed drained (dependents_at s t) in
      let n = length-set s.transactions_dependents t [] in
      let sd = g.same_dependents in
      record {
        statuses_sized = g.same_length ∙ (v.statuses_sized ∙ sym g.same_size);
        dependents_sized = ap length sd ∙ (n ∙ (v.dependents_sized ∙ sym g.same_size));
        validated_counted =
            g.same_validated
            ∙ (v.validated_counted
                ∙ sym (
                    count_if_pointwise has_validated (resume_dependents s t).transactions_status
                      s.transactions_status no_status g.same_length
                      (λ i h.
                        let h' : i < s.block_size =
                          omega (arith, g.same_length, v.statuses_sized) in
                        let k = v.tracked i h' in
                        let l = listed i in
                        let e =
                          resume_all_at drained (dependents_at s t) i
                            (omega (arith, v.statuses_sized)) (ground arith) in
                        ground arith)));
        tracked = λ i h. resume_dependents-IsTracked i (omega (arith, g.same_size));
        absent = λ i h.
            let k = v.absent i (omega (arith, g.same_size)) in
            let l = listed i in
            record {
              no_execution = ground arith;
              no_validation = ground arith;
              no_wait = ground arith;
            };
      }
