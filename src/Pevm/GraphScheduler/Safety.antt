-- ===== src/Pevm/GraphScheduler/Safety.antt =====
-- What holds of the graph scheduler in every state that its workers can reach.
use congestion_control.Prelude.{
  ℕ, suc, ◌+◌, ◌≡◌, ◌≤◌, ◌<◌, refl, sym, ◌∙◌, Bool, false, List, [], ◌∷◌, arith, ◌==◌, bit, count,
  zero, count_if-replicate, get_or-map, get_or-replicate, get_or_beyond, length, length-map,
  length-replicate, replicate, if◌then◌else◌, lt_or_le, inl, inr, ltb,
}
use congestion_control.Pevm.Types.{BitFlags}
use congestion_control.Pevm.Atomics.{count-heap_push, heap_push-IsSorted, IsSorted}
use congestion_control.Pevm.Node.{TransactionNode, no_node}
use congestion_control.Pevm.GraphScheduler.{new, no_status, roots_from, parents_of}
use congestion_control.Pevm.GraphScheduler.Completion.Release.{remaining_at, unreleased}
use congestion_control.Pevm.GraphScheduler.Workers.{
  System, system, Step, polls, finishes, blocks, rejects, passes, retries, fails, Reach, begin,
  next, waits-replicate,
}
use congestion_control.Pevm.GraphScheduler.Invariant.{IsValid, IsMirrored, has_validated}
use congestion_control.Pevm.GraphScheduler.Invariant.Finish.{finish_execution-IsValid}
use congestion_control.Pevm.GraphScheduler.Invariant.Block.{add_dependency-IsValid}
use congestion_control.Pevm.GraphScheduler.Invariant.Validate.{try_validation_abort-IsValid}
use congestion_control.Pevm.GraphScheduler.Invariant.Report.{passes-IsValid, retries-IsValid}
use congestion_control.Pevm.GraphScheduler.Invariant.Poll.{abort-IsValid}
use congestion_control.Pevm.GraphScheduler.Invariant.Pop.{poll-IsValid}

count-roots_below :
    (i j : ℕ) (nodes : List TransactionNode) → i < j → count i (roots_from j nodes) ≡ 0
unfolding roots_from
count-roots_below i j [] h = refl
count-roots_below i j (n ∷ ns) h =
    ground (arith, count-heap_push i j (roots_from (j + 1) ns), count-roots_below i (j + 1) ns)

-- A node is in the heap at first, once, exactly if it has no parents.
count-roots_from :
    (i j k : ℕ) (nodes : List TransactionNode)
    → k ≡ j + i
    → count k (roots_from j nodes)
      ≡ (if ltb i (length nodes) then bit (length (parents_of nodes i) == 0) else 0)
unfolding roots_from
count-roots_from i j k [] e = ground arith
count-roots_from zero j k (n ∷ ns) e =
    ground (arith, count-heap_push k j (roots_from (j + 1) ns), count-roots_below k (j + 1) ns)
count-roots_from (suc i) j k (n ∷ ns) e = ground (
  arith,
  count-heap_push k j (roots_from (j + 1) ns),
  count-roots_from i (j + 1) k ns (omega arith),
)

roots_from-IsSorted : (j : ℕ) (nodes : List TransactionNode) → IsSorted (roots_from j nodes)
unfolding roots_from
roots_from-IsSorted j [] = tt
roots_from-IsSorted j (n ∷ ns) =
    ground (arith, heap_push-IsSorted j (roots_from (j + 1) ns), roots_from-IsSorted (j + 1) ns)

unreleased-fresh : (n : ℕ) (ps : List ℕ) → unreleased (replicate n false) ps ≡ length ps
unreleased-fresh n [] = refl
unreleased-fresh n (p ∷ ps) = elim (lt_or_le p n) [
  | inl h ↦ ground (arith, get_or-replicate n p false false h, unreleased-fresh n ps)
  | inr h ↦ ground (
    arith,
    get_or_beyond (replicate n false) p false (omega (arith, length-replicate n false)),
    unreleased-fresh n ps,
  )
]

-- The state that `new` makes of a mirrored graph is valid.
pub new-IsValid :
    (n : ℕ) (nodes : List TransactionNode)
    → length nodes ≡ n
    → IsMirrored nodes
    → IsValid (new n nodes) []
unfolding new
new-IsValid n nodes l m = record {
  statuses_sized = length-replicate n no_status;
  dependents_sized = length-replicate n [];
  remaining_sized = length-map _ nodes ∙ l;
  released_sized = length-replicate n false;
  nodes_sized = l;
  heap_sorted = roots_from-IsSorted 0 nodes;
  mirrored = m;
  validated_counted = sym (count_if-replicate has_validated n no_status refl);
  tracked = λ i h.
      let st = get_or-replicate n i no_status no_status h in
      let dp = get_or-replicate {A = List ℕ} n i [] [] h in
      let w = waits-replicate i n in
      let r = count-roots_from i 0 i nodes (omega arith) in
      let g = get_or-map (λ (x : TransactionNode). length x.parent_indices) nodes i no_node in
      let u = unreleased-fresh n (parents_of nodes i) in
      record {
        one_execution = ground arith;
        current = ground arith;
        one_wait = ground arith;
        in_heap = ground arith;
        satisfied = ground arith;
        counted = ground arith;
        released = ground arith;
        to_validate = ground arith;
        awaited = ground arith;
      };
  absent = λ i h.
      let r = count-roots_from i 0 i nodes (omega arith) in
      record {
        no_execution = refl;
        no_validation = refl;
        no_wait = omega (arith, waits-replicate i n);
        no_entry = ground arith;
      };
}

-- Each call that a thread makes keeps the invariant.
pub Step-IsValid :
    {lib : BitFlags} {a b : System}
    → Step lib a b
    → IsValid a.scheduler a.work
    → IsValid b.scheduler b.work
Step-IsValid (polls s ws expired) k = poll-IsValid s ws expired k
Step-IsValid {lib} (finishes s v flags taken) k = finish_execution-IsValid lib s v flags k taken
Step-IsValid (blocks s v b taken lower) k = add_dependency-IsValid s v b k taken lower
Step-IsValid (rejects s v taken) k = try_validation_abort-IsValid s v k taken
Step-IsValid (passes s v taken) k = passes-IsValid s v k taken
Step-IsValid (retries s v taken) k = retries-IsValid s v k taken
Step-IsValid (fails s ws) k = abort-IsValid s ws k

pub Reach-IsValid :
    {lib : BitFlags} {a b : System}
    → IsValid a.scheduler a.work
    → Reach lib a b
    → IsValid b.scheduler b.work
Reach-IsValid k begin = k
Reach-IsValid k (next r st) = Step-IsValid st (Reach-IsValid k r)

-- The system before any thread has made a call.
abbrev pub initial : List TransactionNode → System
initial nodes = system (new (length nodes) nodes) []

pub reachable-IsValid :
    (lib : BitFlags) (nodes : List TransactionNode) {sys : System}
    → IsMirrored nodes
    → Reach lib (initial nodes) sys
    → IsValid sys.scheduler sys.work
reachable-IsValid lib nodes m r = Reach-IsValid (new-IsValid (length nodes) nodes refl m) r

unreleased-le-length : (released : List Bool) (ps : List ℕ) → unreleased released ps ≤ length ps
unreleased-le-length released [] = omega arith
unreleased-le-length released (p ∷ ps) = ground (arith, unreleased-le-length released ps)

module _ (lib : BitFlags) (nodes : List TransactionNode) {sys : System} (m : IsMirrored nodes)
    (r : Reach lib (initial nodes) sys) where
  open sys use {scheduler as s, work as ws}

  -- In every reachable state, each call being one atomic step, the remaining count of a transaction of the block is the number of its
  -- parents that have not released their children: it never wraps below 0, however often a parent
  -- is executed.
  pub remaining-unreleased :
      (i : ℕ)
      → i < s.block_size
      → (remaining_at s i ≡ unreleased s.children_released (parents_of s.dependency_graph i))
        × (remaining_at s i ≤ length (parents_of s.dependency_graph i))
  remaining-unreleased i h =
      let t = (reachable-IsValid lib nodes m r).tracked i h in
      (
        t.counted,
        omega (
          arith,
          t.counted,
          unreleased-le-length s.children_released (parents_of s.dependency_graph i),
        ),
      )
