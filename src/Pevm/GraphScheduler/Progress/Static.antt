-- ===== src/Pevm/GraphScheduler/Progress/Static.antt =====
-- No call changes the dependency graph or the size of the block.
use congestion_control.Prelude.{
  ℕ, ◌≡◌, refl, ◌∙◌, Bool, true, false, List, [], ◌∷◌, arith, some, none, Option,
}
use congestion_control.Pevm.Types.{TxVersion, BitFlags}
use congestion_control.Pevm.GraphScheduler.{
  GraphScheduler, poll, abort, try_validation_task, try_execution_task, try_execute, as_execution,
  pop_and_execute,
}
use congestion_control.Pevm.GraphScheduler.Completion.{
  add_dependency, finish_execution, schedule_validation, release_children, try_validation_abort,
  finish_validation, retry, set_ready_status,
}
use congestion_control.Pevm.GraphScheduler.Completion.Release.{release_children-IsReleased}
use congestion_control.Pevm.GraphScheduler.Invariant.Resume.{resume_dependents-IsResumed}
use congestion_control.Pevm.GraphScheduler.Workers.{
  System, Step, polls, finishes, blocks, rejects, passes, retries, fails, Reach, begin, next,
}

pub record IsSameBlock (s r : GraphScheduler) : Type 0 where
  pub same_graph : r.dependency_graph ≡ s.dependency_graph
  pub same_size : r.block_size ≡ s.block_size

IsSameBlock-trans : {a b c : GraphScheduler} → IsSameBlock a b → IsSameBlock b c → IsSameBlock a c
IsSameBlock-trans p q = record {
  same_graph = q.same_graph ∙ p.same_graph;
  same_size = q.same_size ∙ p.same_size;
}

finish-IsSameBlock :
    (lib : BitFlags) (s : GraphScheduler) (v : TxVersion) (flags : ℕ)
    → IsSameBlock s (finish_execution lib s v flags).0
unfolding finish_execution schedule_validation
finish-IsSameBlock lib s v flags = ground (
  arith,
  release_children-IsReleased s v.tx_idx,
  resume_dependents-IsResumed (release_children s v.tx_idx) v.tx_idx,
)

try_execute-IsSameBlock : (s : GraphScheduler) (i : ℕ) → IsSameBlock s (try_execute s i).0
unfolding try_execute
try_execute-IsSameBlock s i = ground arith

validation_task-IsSameBlock : (s : GraphScheduler) → IsSameBlock s (try_validation_task s).0
unfolding try_validation_task
validation_task-IsSameBlock s = ground arith

as_execution-IsSameBlock :
    (s : GraphScheduler) (p : GraphScheduler × Option TxVersion)
    → IsSameBlock s p.0
    → IsSameBlock s (as_execution p).0
unfolding as_execution
as_execution-IsSameBlock s (r, none) k = k
as_execution-IsSameBlock s (r, some v) k = k

pop-IsSameBlock : (heap : List ℕ) (s : GraphScheduler) → IsSameBlock s (pop_and_execute heap s).0
unfolding pop_and_execute
pop-IsSameBlock [] s = record { same_graph = refl; same_size = refl }
pop-IsSameBlock (i ∷ rest) s =
    as_execution-IsSameBlock s (try_execute (record s { executable_txs = rest }) i) (
      let k = try_execute-IsSameBlock (record s { executable_txs = rest }) i in
      record { same_graph = k.same_graph; same_size = k.same_size })

poll-IsSameBlock : (s : GraphScheduler) (expired : Bool) → IsSameBlock s (poll s expired).0
unfolding poll abort try_execution_task
poll-IsSameBlock s expired =
    let r = (try_validation_task s).0 in
    ground (arith, validation_task-IsSameBlock s, pop-IsSameBlock r.executable_txs r)

add_dependency-IsSameBlock : (s : GraphScheduler) (i b : ℕ) → IsSameBlock s (add_dependency s i b).0
unfolding add_dependency
add_dependency-IsSameBlock s i b = ground arith

abort-IsSameBlock :
    (s : GraphScheduler) (v : TxVersion) → IsSameBlock s (try_validation_abort s v).0
unfolding try_validation_abort
abort-IsSameBlock s v = ground arith

finish_validation-IsSameBlock :
    (s : GraphScheduler) (v : TxVersion) (aborted : Bool)
    → IsSameBlock s (finish_validation s v aborted).0
unfolding finish_validation retry set_ready_status try_execute
finish_validation-IsSameBlock s v aborted = ground arith

Step-IsSameBlock :
    {lib : BitFlags} {x y : System} → Step lib x y → IsSameBlock x.scheduler y.scheduler
unfolding abort
Step-IsSameBlock (polls s ws expired) = poll-IsSameBlock s expired
Step-IsSameBlock {lib} (finishes s v flags taken) = finish-IsSameBlock lib s v flags
Step-IsSameBlock (blocks s v b taken lower) = add_dependency-IsSameBlock s v.tx_idx b
Step-IsSameBlock (rejects s v taken) = abort-IsSameBlock s v
Step-IsSameBlock (passes s v taken) = finish_validation-IsSameBlock s v false
Step-IsSameBlock (retries s v taken) = finish_validation-IsSameBlock s v true
Step-IsSameBlock (fails s ws) = record { same_graph = refl; same_size = refl }

pub Reach-IsSameBlock :
    {lib : BitFlags} {x y : System} → Reach lib x y → IsSameBlock x.scheduler y.scheduler
Reach-IsSameBlock begin = record { same_graph = refl; same_size = refl }
Reach-IsSameBlock (next r st) = IsSameBlock-trans (Reach-IsSameBlock r) (Step-IsSameBlock st)
