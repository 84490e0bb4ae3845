-- ===== src/Pevm/Scheduler/Upward.antt =====
-- A transaction waits for a lower one only: `add_dependency` of scheduler.rs is called so, and no other
-- call adds to the lists of dependents.
use congestion_control.Prelude.{
  ℕ, ◌+◌, ◌≡◌, ◌<◌, ◌∙◌, Bool, true, false, [], ◌∷◌, ◌++◌, arith, count-append, Bool-cases, inl,
  inr, set,
}
use congestion_control.Pevm.Types.{TxVersion, BitFlags, is_done}
use congestion_control.Pevm.Scheduler.{
  Scheduler, new, round, abort, sweep_execution, sweep_validation, try_execute, status_at,
  dependents_at, add_dependency, finish_execution, schedule_validation, resume_dependents,
  try_validation_abort, finish_validation, retry, set_ready_status,
}
use congestion_control.Pevm.Scheduler.Invariant.Resumes.{resume_all-IsResumed}
use congestion_control.Pevm.Scheduler.Workers.{
  System, Step, rounds, finishes, blocks, rejects, passes, retries, fails, Reach, begin, next,
}
use congestion_control.Pevm.GraphScheduler.Progress.Upward.{
  IsUpward, IsUpward-set, IsUpward-replicate,
}

dependents-schedule :
    (need wrote : Bool) (s : Scheduler) (v : TxVersion)
    → (schedule_validation need wrote s v).0.transactions_dependents ≡ s.transactions_dependents
unfolding schedule_validation
dependents-schedule need wrote s v = ground arith

dependents-finish :
    (lib : BitFlags) (s : Scheduler) (v : TxVersion) (flags : ℕ)
    → (finish_execution lib s v flags).0.transactions_dependents
      ≡ set s.transactions_dependents v.tx_idx []
unfolding finish_execution resume_dependents
dependents-finish lib s v flags =
    dependents-schedule _ _ (resume_dependents s v.tx_idx) v
    ∙ (resume_all-IsResumed
        (record s { transactions_dependents = set s.transactions_dependents v.tx_idx [] })
        (dependents_at s v.tx_idx)).same_dependents

dependents-abort :
    (s : Scheduler) (v : TxVersion)
    → (try_validation_abort s v).0.transactions_dependents ≡ s.transactions_dependents
unfolding try_validation_abort
dependents-abort s v = ground arith

dependents-finish_validation :
    (s : Scheduler) (v : TxVersion) (aborted : Bool)
    → (finish_validation s v aborted).0.transactions_dependents ≡ s.transactions_dependents
unfolding finish_validation retry set_ready_status try_execute
dependents-finish_validation s v aborted = ground arith

dependents-sweep :
    (s : Scheduler) → (sweep_execution s).0.transactions_dependents ≡ s.transactions_dependents
unfolding sweep_execution try_execute
dependents-sweep s = ground arith

dependents-round : (s : Scheduler) → (round s).0.transactions_dependents ≡ s.transactions_dependents
unfolding round sweep_validation
dependents-round s = ground (
  arith,
  dependents-sweep s,
  dependents-sweep (record s { validation_idx = s.validation_idx + 1 }),
)

add_dependency-IsUpward :
    (s : Scheduler) (i b : ℕ)
    → b < i
    → IsUpward s.transactions_dependents
    → IsUpward (add_dependency s i b).0.transactions_dependents
unfolding add_dependency
add_dependency-IsUpward s i b h u = elim (Bool-cases (is_done (status_at s b).status)) [
  | inl e ↦ rw e u
  | inr e ↦ rw e (
      IsUpward-set s.transactions_dependents b (dependents_at s b ++ i ∷ []) u
        (λ j c. ground (arith, count-append j (dependents_at s b) (i ∷ []), u b j)))
]

Step-IsUpward :
    {lib : BitFlags} {x y : System}
    → Step lib x y
    → IsUpward x.scheduler.transactions_dependents
    → IsUpward y.scheduler.transactions_dependents
unfolding abort
Step-IsUpward (rounds s ws) u = rw (dependents-round s) u
Step-IsUpward {lib} (finishes s v flags taken) u =
    rw (dependents-finish lib s v flags)
      (IsUpward-set s.transactions_dependents v.tx_idx [] u (λ i c. elim c [ ]))
Step-IsUpward (blocks s v b taken lower) u = add_dependency-IsUpward s v.tx_idx b lower u
Step-IsUpward (rejects s v taken) u = rw (dependents-abort s v) u
Step-IsUpward (passes s v taken) u = rw (dependents-finish_validation s v false) u
Step-IsUpward (retries s v taken) u = rw (dependents-finish_validation s v true) u
Step-IsUpward (fails s ws) u = u

pub Reach-IsUpward :
    {lib : BitFlags} {x y : System}
    → IsUpward x.scheduler.transactions_dependents
    → Reach lib x y
    → IsUpward y.scheduler.transactions_dependents
Reach-IsUpward u begin = u
Reach-IsUpward u (next r st) = Step-IsUpward st (Reach-IsUpward u r)

pub new-IsUpward : (n : ℕ) → IsUpward (new n).transactions_dependents
unfolding new
new-IsUpward n = IsUpward-replicate n
