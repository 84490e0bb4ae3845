-- ===== src/Pevm/GraphScheduler/Progress/Upward.antt =====
-- A transaction waits for a lower one only: `add_dependency` is called so, and no other call adds
-- to the lists of dependents.
use congestion_control.Prelude.{
  ℕ, ◌≡◌, ◌<◌, refl, ap, ◌∙◌, Bool, true, false, List, [], ◌∷◌, ◌++◌, arith, ◌==◌, count,
  count-append, Bool-cases, inl, inr, lt_or_le, get_or-replicate, get_or_beyond, length-replicate,
  get_or, get_or-set, set, replicate, some, none, Option,
}
use congestion_control.Pevm.Types.{TxVersion, BitFlags, is_done}
use congestion_control.Pevm.Node.{TransactionNode}
use congestion_control.Pevm.GraphScheduler.{
  GraphScheduler, new, poll, abort, try_validation_task, try_execution_task, try_execute,
  as_execution, pop_and_execute, status_at,
}
use congestion_control.Pevm.GraphScheduler.Completion.{
  dependents_at, add_dependency, finish_execution, schedule_validation, resume_dependents,
  release_children, try_validation_abort, finish_validation, retry, set_ready_status,
}
use congestion_control.Pevm.GraphScheduler.Completion.Release.{release_children-IsReleased}
use congestion_control.Pevm.GraphScheduler.Invariant.Resume.{dependents-resume}
use congestion_control.Pevm.GraphScheduler.Workers.{
  System, Step, polls, finishes, blocks, rejects, passes, retries, fails, Reach, begin, next,
}

abbrev pub IsUpward : List (List ℕ) → Type 0
IsUpward dss = (b i : ℕ) → 0 < count i (get_or dss b []) → b < i

dependents-schedule :
    (need wrote : Bool) (s : GraphScheduler) (v : TxVersion)
    → (schedule_validation need wrote s v).0.transactions_dependents ≡ s.transactions_dependents
unfolding schedule_validation
dependents-schedule need wrote s v = ground arith

dependents-finish :
    (lib : BitFlags) (s : GraphScheduler) (v : TxVersion) (flags : ℕ)
    → (finish_execution lib s v flags).0.transactions_dependents
      ≡ set s.transactions_dependents v.tx_idx []
unfolding finish_execution
dependents-finish lib s v flags =
    dependents-schedule _ _ (resume_dependents (release_children s v.tx_idx) v.tx_idx) v
    ∙ (dependents-resume (release_children s v.tx_idx) v.tx_idx
        ∙ ap (λ l. set l v.tx_idx []) (release_children-IsReleased s v.tx_idx).same_dependents)

dependents-try_execute :
    (s : GraphScheduler) (i : ℕ)
    → (try_execute s i).0.transactions_dependents ≡ s.transactions_dependents
unfolding try_execute
dependents-try_execute s i = ground arith

dependents-abort :
    (s : GraphScheduler) (v : TxVersion)
    → (try_validation_abort s v).0.transactions_dependents ≡ s.transactions_dependents
unfolding try_validation_abort
dependents-abort s v = ground arith

dependents-finish_validation :
    (s : GraphScheduler) (v : TxVersion) (aborted : Bool)
    → (finish_validation s v aborted).0.transactions_dependents ≡ s.transactions_dependents
unfolding finish_validation retry set_ready_status try_execute
dependents-finish_validation s v aborted = ground arith

dependents-validation_task :
    (s : GraphScheduler)
    → (try_validation_task s).0.transactions_dependents ≡ s.transactions_dependents
unfolding try_validation_task
dependents-validation_task s = ground arith

dependents-as_execution :
    (p : GraphScheduler × Option TxVersion)
    → (as_execution p).0.transactions_dependents ≡ p.0.transactions_dependents
unfolding as_execution
dependents-as_execution (s, none) = refl
dependents-as_execution (s, some v) = refl

dependents-pop :
    (heap : List ℕ) (s : GraphScheduler)
    → (pop_and_execute heap s).0.transactions_dependents ≡ s.transactions_dependents
unfolding pop_and_execute
dependents-pop [] s = refl
dependents-pop (i ∷ rest) s =
    dependents-as_execution (try_execute (record s { executable_txs = rest }) i)
    ∙ dependents-try_execute (record s { executable_txs = rest }) i

dependents-execution_task :
    (s : GraphScheduler)
    → (try_execution_task s).0.transactions_dependents ≡ s.transactions_dependents
unfolding try_execution_task
dependents-execution_task s = dependents-pop s.executable_txs s

dependents-poll :
    (s : GraphScheduler) (expired : Bool)
    → (poll s expired).0.transactions_dependents ≡ s.transactions_dependents
unfolding poll abort
dependents-poll s expired =
    ground
      (arith, dependents-validation_task s, dependents-execution_task (try_validation_task s).0)

pub IsUpward-set :
    (dss : List (List ℕ)) (t : ℕ) (ds : List ℕ)
    → IsUpward dss
    → ((i : ℕ) → 0 < count i ds → t < i)
    → IsUpward (set dss t ds)
IsUpward-set dss t ds u h b i c = elim (Bool-cases (t == b)) [
  | inl e ↦ ground (arith, get_or-set dss t b ds [], h i, u b i)
  | inr e ↦ ground (arith, get_or-set dss t b ds [], u b i)
]

pub IsUpward-replicate : (n : ℕ) → IsUpward (replicate n [])
IsUpward-replicate n b i c = elim (lt_or_le b n) [
  | inl h ↦ absurd (ground (arith, get_or-replicate {A = List ℕ} n b [] [] h))
  | inr h ↦ absurd (
      ground (
        arith,
        get_or_beyond {A = List ℕ} (replicate n []) b []
            (omega (arith, length-replicate {A = List ℕ} n [])),
      ))
]

pub new-IsUpward :
    (n : ℕ) (nodes : List TransactionNode) → IsUpward (new n nodes).transactions_dependents
unfolding new
new-IsUpward n nodes = IsUpward-replicate n

add_dependency-IsUpward :
    (s : GraphScheduler) (i b : ℕ)
    → b < i
    → IsUpward s.transactions_dependents
    → IsUpward (add_dependency s i b).0.transactions_dependents
unfolding add_dependency
add_dependency-IsUpward s i b h u = elim (Bool-cases (is_done (status_at s b).status)) [
  | inl e ↦ rw e u
  | inr e ↦ rw e (
      IsUpward-set s.transactions_dependents b (dependents_at s b ++ i ∷ []) u
        (λ j c. ground (arith, count-append j (dependents_at s b) (i ∷ []), u b j)))
]

Step-IsUpward :
    {lib : BitFlags} {x y : System}
    → Step lib x y
    → IsUpward x.scheduler.transactions_dependents
    → IsUpward y.scheduler.transactions_dependents
unfolding abort
Step-IsUpward (polls s ws expired) u = rw (dependents-poll s expired) u
Step-IsUpward {lib} (finishes s v flags taken) u =
    rw (dependents-finish lib s v flags)
      (IsUpward-set s.transactions_dependents v.tx_idx [] u (λ i c. elim c [ ]))
Step-IsUpward (blocks s v b taken lower) u = add_dependency-IsUpward s v.tx_idx b lower u
Step-IsUpward (rejects s v taken) u = rw (dependents-abort s v) u
Step-IsUpward (passes s v taken) u = rw (dependents-finish_validation s v false) u
Step-IsUpward (retries s v taken) u = rw (dependents-finish_validation s v true) u
Step-IsUpward (fails s ws) u = u

pub Reach-IsUpward :
    {lib : BitFlags} {x y : System}
    → IsUpward x.scheduler.transactions_dependents
    → Reach lib x y
    → IsUpward y.scheduler.transactions_dependents
Reach-IsUpward u begin = u
Reach-IsUpward u (next r st) = Step-IsUpward st (Reach-IsUpward u r)
