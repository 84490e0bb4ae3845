-- ===== src/Pevm/GraphScheduler/Invariant/Resume.antt =====
-- `resume_dependents` keeps the invariant.
use congestion_control.Prelude.{
  ℕ, ◌+◌, ◌≡◌, ◌≤◌, ◌<◌, sym, ap, ◌∙◌, subst, List, [], arith, ◌==◌, count, count_if_pointwise,
  get_or, get_or-set, set, length, length-set, if◌then◌else◌, zero_or_pos, inl, inr,
}
use congestion_control.Pevm.Atomics.{IsSorted}
use congestion_control.Pevm.GraphScheduler.{GraphScheduler, status_at, no_status}
use congestion_control.Pevm.GraphScheduler.Completion.{dependents_at, resume_dependents}
use congestion_control.Pevm.GraphScheduler.Completion.Resume.{
  next_ready, resume_all-IsSorted, resume_all-frame, length-resume_all, resume_all_at,
  resume_all_others,
}
use congestion_control.Pevm.GraphScheduler.Workers.{Work, waits, waits-set}
use congestion_control.Pevm.GraphScheduler.Invariant.{
  IsTracked, IsAbsent, IsValid, IsMirrored, has_validated,
}

-- What `resume_dependents` leaves as it was.
pub record IsResumed (s r : GraphScheduler) : Type 0 where
  pub same_size : r.block_size ≡ s.block_size
  pub same_validation : r.validation_idx ≡ s.validation_idx
  pub same_validated : r.num_validated ≡ s.num_validated
  pub same_graph : r.dependency_graph ≡ s.dependency_graph
  pub same_remaining : r.remaining_dependencies ≡ s.remaining_dependencies
  pub same_released : r.children_released ≡ s.children_released
  pub same_length : length r.transactions_status ≡ length s.transactions_status

-- The state before the loop over the dependents.
abbrev drained : GraphScheduler → ℕ → GraphScheduler
drained s t = record s { transactions_dependents = set s.transactions_dependents t [] }

pub resume_dependents-IsResumed : (s : GraphScheduler) (t : ℕ) → IsResumed s (resume_dependents s t)
unfolding resume_dependents
resume_dependents-IsResumed s t = ground (
  arith,
  resume_all-frame (drained s t) (dependents_at s t),
  length-resume_all (drained s t) (dependents_at s t),
)

resume_dependents-IsSorted :
    (s : GraphScheduler) (t : ℕ)
    → IsSorted s.executable_txs
    → IsSorted (resume_dependents s t).executable_txs
unfolding resume_dependents
resume_dependents-IsSorted s t h = resume_all-IsSorted (drained s t) (dependents_at s t) h

pub released-resume :
    (s : GraphScheduler) (t : ℕ) → (resume_dependents s t).children_released ≡ s.children_released
released-resume s t = (resume_dependents-IsResumed s t).same_released

pub dependents-resume :
    (s : GraphScheduler) (t : ℕ)
    → (resume_dependents s t).transactions_dependents ≡ set s.transactions_dependents t []
unfolding resume_dependents
dependents-resume s t =
    ap (λ r. r.transactions_dependents) (resume_all-frame (drained s t) (dependents_at s t))

module _ (s : GraphScheduler) (ws : List Work) (t : ℕ) (v : IsValid s ws)
    (in_block : t < s.block_size) where
  listed-le-waits :
      (i : ℕ)
      → waits i (resume_dependents s t).transactions_dependents + count i (dependents_at s t)
        ≡ waits i s.transactions_dependents
  listed-le-waits i = rw (dependents-resume s t) (
      omega (arith, waits-set i t s.transactions_dependents [] (omega (arith, v.dependents_sized))))

  -- A listed transaction was aborting and is ready now; any other is as it was.
  resumed_at :
      (i : ℕ)
      → i < s.block_size
      → (status_at (resume_dependents s t) i ≡ (
          if count i (dependents_at s t) == 1 then next_ready (status_at s i) else status_at s i))
        × (count i (resume_dependents s t).executable_txs
            ≡ count i s.executable_txs + count i (dependents_at s t))
        × (count i (dependents_at s t) ≤ 1)
  unfolding resume_dependents
  resumed_at i h =
      let k = v.tracked i h in
      let l = listed-le-waits i in
      elim (zero_or_pos (count i (dependents_at s t))) [
        | inl z ↦ ground (arith, resume_all_others (drained s t) (dependents_at s t) i z)
        | inr p ↦ ground (arith, resume_all_at (drained s t) (dependents_at s t) i)
      ]

  resume_dependents-IsTracked : (i : ℕ) → i < s.block_size → IsTracked (resume_dependents s t) ws i
  resume_dependents-IsTracked i h =
      let k = v.tracked i h in
      let g = resume_dependents-IsResumed s t in
      let l = listed-le-waits i in
      let e = resumed_at i h in
      let d : dependents_at (resume_dependents s t) i
          ≡ get_or (set s.transactions_dependents t []) i [] =
        ap (λ ds. get_or ds i []) (dependents-resume s t) in
      let w = get_or-set s.transactions_dependents t i [] [] in
      record {
        one_execution = ground arith;
        current = ground arith;
        one_wait = ground arith;
        in_heap = ground arith;
        satisfied = ground arith;
        counted = ground arith;
        released = ground arith;
        to_validate = ground arith;
        awaited = ground arith;
      }

  resume_dependents-IsAbsent : (i : ℕ) → s.block_size ≤ i → IsAbsent (resume_dependents s t) ws i
  unfolding resume_dependents
  resume_dependents-IsAbsent i h =
      let k = v.absent i h in
      let l = listed-le-waits i in
      record {
        no_execution = k.no_execution;
        no_validation = k.no_validation;
        no_wait = omega arith;
        no_entry =
            (resume_all_others (drained s t) (dependents_at s t) i (omega arith)).1 ∙ k.no_entry;
      }

  -- Nobody waits for the transaction any more.
  pub resume_dependents-awaited : dependents_at (resume_dependents s t) t ≡ []
  resume_dependents-awaited = ground (
    arith,
    dependents-resume s t,
    get_or-set s.transactions_dependents t t [] [],
    v.dependents_sized,
  )

  -- `resume_dependents` keeps the invariant.
  pub resume_dependents-IsValid : IsValid (resume_dependents s t) ws
  resume_dependents-IsValid =
      let g = resume_dependents-IsResumed s t in
      let d = dependents-resume s t in
      let n = length-set s.transactions_dependents t [] in
      record {
        statuses_sized = ground arith;
        dependents_sized = ground arith;
        remaining_sized = ground arith;
        released_sized = ground arith;
        nodes_sized = ground arith;
        heap_sorted = resume_dependents-IsSorted s t v.heap_sorted;
        mirrored = subst IsMirrored (sym g.same_graph) v.mirrored;
        validated_counted =
            g.same_validated
            ∙ (v.validated_counted
                ∙ sym (
                    count_if_pointwise has_validated (resume_dependents s t).transactions_status
                      s.transactions_status no_status g.same_length
                      (λ i h.
                        let h' : i < s.block_size =
                          omega (arith, g.same_length, v.statuses_sized) in
                        let k = v.tracked i h' in
                        let e = resumed_at i h' in let l = listed-le-waits i in ground arith)));
        tracked = λ i h. resume_dependents-IsTracked i (omega (arith, g.same_size));
        absent = λ i h. resume_dependents-IsAbsent i (omega (arith, g.same_size));
      }
