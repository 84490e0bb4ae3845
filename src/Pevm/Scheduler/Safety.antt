-- ===== src/Pevm/Scheduler/Safety.antt =====
-- What holds of the collaborative scheduler of scheduler.rs in every state that its workers can reach.
use congestion_control.Prelude.{
  ℕ, ◌+◌, ◌≡◌, ◌≤◌, ◌<◌, refl, sym, true, List, [], arith, bit, count_if, ◌⊎◌,
}
use congestion_control.Pevm.Types.{
  TxVersion, executing, is_executing, is_executed, is_ready, is_aborting, BitFlags,
}
use congestion_control.Pevm.GraphScheduler.Workers.{
  Work, executes, waits, Take, count_if-Take, is_execution_of, is_validation_of, is_abort_of,
}
use congestion_control.Pevm.Scheduler.{no_status, status_at}
use congestion_control.Pevm.Scheduler.Invariant.{
  IsValid, has_validated, executes-in_block, executes-current,
}
use congestion_control.Prelude.{
  length-replicate, count_if-replicate, get_or-replicate, count_if-le-length,
}
use congestion_control.Pevm.GraphScheduler.Workers.{waits-replicate}
use congestion_control.Pevm.Scheduler.{new}
use congestion_control.Pevm.Scheduler.Workers.{
  System, system, Step, rounds, finishes, blocks, rejects, passes, retries, fails, Reach, begin,
  next,
}
use congestion_control.Pevm.Scheduler.Invariant.Sweeps.{abort-IsValid}
use congestion_control.Pevm.Scheduler.Invariant.Rounds.{round-IsValid}
use congestion_control.Pevm.Scheduler.Invariant.Blocks.{add_dependency-IsValid}
use congestion_control.Pevm.Scheduler.Invariant.Validations.{
  try_validation_abort-IsValid, passes-IsValid,
}
use congestion_control.Pevm.Scheduler.Invariant.Retries.{retries-IsValid}
use congestion_control.Pevm.Scheduler.Invariant.Finishes.{finish_execution-IsValid}

new-IsValid : (n : ℕ) → IsValid (new n) []
unfolding new
new-IsValid n = record {
  statuses_sized = length-replicate n no_status;
  dependents_sized = length-replicate n [];
  validated_counted = sym (count_if-replicate has_validated n no_status refl);
  tracked = λ i h.
      let st = get_or-replicate n i no_status no_status h in
      let dp = get_or-replicate {A = List ℕ} n i [] [] h in
      let w = waits-replicate i n in
      record {
        one_execution = ground arith;
        current = ground arith;
        one_wait = ground arith;
        to_execute = ground arith;
        to_validate = ground arith;
        awaited = ground arith;
      };
  absent = λ i h. record {
    no_execution = refl;
    no_validation = refl;
    no_wait = omega (arith, waits-replicate i n);
  };
}

-- Each call that a thread makes keeps the invariant.
Step-IsValid :
    {lib : BitFlags} {a b : System}
    → Step lib a b
    → IsValid a.scheduler a.work
    → IsValid b.scheduler b.work
Step-IsValid (rounds s ws) k = round-IsValid s ws k
Step-IsValid {lib} (finishes s v flags taken) k = finish_execution-IsValid lib s v flags k taken
Step-IsValid (blocks s v b taken lower) k = add_dependency-IsValid s v b k taken lower
Step-IsValid (rejects s v taken) k = try_validation_abort-IsValid s v k taken
Step-IsValid (passes s v taken) k = passes-IsValid s v k taken
Step-IsValid (retries s v taken) k = retries-IsValid s v k taken
Step-IsValid (fails s ws) k = abort-IsValid s ws k

Reach-IsValid :
    {lib : BitFlags} {a b : System}
    → IsValid a.scheduler a.work
    → Reach lib a b
    → IsValid b.scheduler b.work
Reach-IsValid k begin = k
Reach-IsValid k (next r st) = Step-IsValid st (Reach-IsValid k r)

-- The system of a block before any thread has made a call.
abbrev pub initial : ℕ → System
initial n = system (new n) []

pub reachable-IsValid :
    (lib : BitFlags) (n : ℕ) {sys : System}
    → Reach lib (initial n) sys
    → IsValid sys.scheduler sys.work
reachable-IsValid lib n r = Reach-IsValid (new-IsValid n) r

module _ (lib : BitFlags) (n : ℕ) {sys : System} (r : Reach lib (initial n) sys) where
  open sys use {scheduler as s, work as ws}

  -- In every reachable state of the collaborative scheduler a thread that executes a version executes
  -- the current incarnation of a transaction of the block, and no other thread executes that
  -- transaction.
  pub exclusive_execution :
      (v : TxVersion) {rest : List Work}
      → Take (executes v) ws rest
      → (v.tx_idx < s.block_size)
        × (status_at s v.tx_idx ≡ record { incarnation = v.tx_incarnation; status = executing })
        × (count_if (is_execution_of v.tx_idx) rest ≡ 0)
  exclusive_execution v taken =
      let k = reachable-IsValid lib n r in
      let b = executes-in_block s v k taken in
      let c = executes-current s v k taken in
      let t = k.tracked v.tx_idx b in
      (b, c, ground (arith, t.one_execution, count_if-Take (is_execution_of v.tx_idx) taken))

  -- In every reachable state of the collaborative scheduler no transaction of the block is lost: one
  -- that is ready is still before the execution index; one that is executed is before the validation
  -- index, or a thread validates it; one that is aborting waits for one other, or one thread is about
  -- to retry it; one that is executing is executed by one thread.
  pub nothing_lost :
      (i : ℕ)
      → i < s.block_size
      → (is_ready (status_at s i).status ≡ true → s.execution_idx ≤ i)
        × (is_executed (status_at s i).status ≡ true
            → (s.validation_idx ≤ i) ⊎ (0 < count_if (is_validation_of i) ws))
        × (waits i s.transactions_dependents + count_if (is_abort_of i) ws
            ≡ bit (is_aborting (status_at s i).status))
        × (count_if (is_execution_of i) ws ≡ bit (is_executing (status_at s i).status))
  nothing_lost i h =
      let t = (reachable-IsValid lib n r).tracked i h in
      (t.to_execute, t.to_validate, t.one_wait, t.one_execution)

  -- In every reachable state of the collaborative scheduler `num_validated` is the number of validated
  -- transactions.
  pub validated_exact :
      (s.num_validated ≡ count_if has_validated s.transactions_status)
      × (s.num_validated ≤ s.block_size)
  validated_exact =
      let k = reachable-IsValid lib n r in
      (
        k.validated_counted,
        omega (
          arith,
          k.validated_counted,
          k.statuses_sized,
          count_if-le-length has_validated s.transactions_status,
        ),
      )
