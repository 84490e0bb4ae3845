-- ===== src/Pevm/GraphPevm.antt =====
-- pevm/crates/pevm/src/graph_pevm.rs: how a block's graph is built from the results of its sequential
-- execution, and how the transactions are reordered.
mod Tests
use congestion_control.Prelude.{
  ℕ, ◌+◌, ◌-◌, ◌%◌, ◌^◌, ◌≡◌, ◌<◌, ◌⊎◌, ◌≤◌, refl, Bool, true, false, List, [], ◌∷◌, ◌++◌, Option,
  none, some, arith, length, get_or, count, bit, ◌==◌,
}
use congestion_control.Prelude.Maps.{lookup}
use congestion_control.Pevm.Atomics.{heap_push, count-heap_push}
use congestion_control.Pevm.Types.{BitFlags, Task, is_validated}
use congestion_control.Pevm.Node.{TransactionId, TransactionNode, transaction_id, no_node}
use congestion_control.Pevm.DependencyGraph.{
  transaction_id_eq, TransactionGraph, HashOrder, empty, add_transaction, add_transactions,
}
use congestion_control.Pevm.DependencyGraph.Keys.{IsKeySet, IsAbove}
use congestion_control.Pevm.DependencyGraph.Building.{IsGraph, IsFresh, empty-IsGraph}
use congestion_control.Pevm.DependencyGraph.Transactions.{AreFresh, add_transactions-IsGraph}
use congestion_control.Pevm.GraphScheduler.{Poll, stop, found, next_task, status_at}
use congestion_control.Pevm.GraphScheduler.Workers.{System, Reach}
use congestion_control.Pevm.GraphScheduler.Safety.{initial}
use congestion_control.Pevm.GraphScheduler.Progress.{no_deadlock}

-- `into_iter().collect()` of a hash set and `sort_unstable`: a sorted vector of its keys.
unfoldable pub sort_keys : List ℕ → List ℕ
sort_keys [] = []
sort_keys (k ∷ ks) = heap_push k (sort_keys ks)

-- `TransactionNode::new`
unfoldable pub new_node : HashOrder → ℕ → ℕ → ℕ → ℕ → List ℕ → List ℕ → TransactionNode
new_node h id replica round gas_cost read_set write_set = record {
  id = id;
  replica = replica;
  round = round;
  gas_cost = gas_cost;
  read_set = sort_keys (h.keys read_set);
  write_set = sort_keys (h.keys write_set);
  longest_suffix = gas_cost;
  children_indices = [];
  parent_indices = [];
}

-- What the sequential execution gives of one transaction, as far as the loop reads it.
pub record Executed : Type 0 where
  pub cumulative_gas_used : ℕ
  pub read_set : List ℕ
  pub write_set : List ℕ

-- Subtraction on u64, which wraps.
abbrev pub wrapping_sub : ℕ → ℕ → ℕ
wrapping_sub a b = (a + (2 ^ 64 - b % 2 ^ 64)) % 2 ^ 64

-- The nodes that the loop of `construct_graph_pevm_by_sequential` adds, from transaction `i` on.
unfoldable pub block_nodes : HashOrder → ℕ → ℕ → ℕ → List Executed → List TransactionNode
block_nodes h replica i previous [] = []
block_nodes h replica i previous (r ∷ rs) =
    new_node h i replica 1 (wrapping_sub r.cumulative_gas_used previous) r.read_set r.write_set
    ∷ block_nodes h replica (i + 1) r.cumulative_gas_used rs

unfoldable pub construct : HashOrder → ℕ → List Executed → TransactionGraph
construct h replica results = add_transactions h empty (block_nodes h replica 0 0 results)

-- The round of the loop of `reorder_txs_by_dependency_graph` that is about one entry of the
-- simulated order: the index of its transaction in the old graph, if it is there.
abbrev pub reset_node : TransactionNode → TransactionNode
reset_node n = record n { children_indices = []; parent_indices = []; longest_suffix = n.gas_cost }

unfoldable pub order_indices : TransactionGraph → List TransactionId → List ℕ
order_indices g [] = []
order_indices g (id ∷ order) =
    let rest = order_indices g order in
    elim (lookup id g.id_to_index) [ none ↦ rest | some i ↦ i ∷ rest ]

abbrev pub reset_nodes : List TransactionNode → List ℕ → List TransactionNode
reset_nodes nodes [] = []
reset_nodes nodes (i ∷ is) = reset_node (get_or nodes i no_node) ∷ reset_nodes nodes is

-- The graph that is left, and which of the transactions it is about, in their new order.
unfoldable pub reorder :
    HashOrder → TransactionGraph → List TransactionId → List ℕ × TransactionGraph
reorder h g order =
    let is = order_indices g order in (is, add_transactions h empty (reset_nodes g.nodes is))

count-sort_keys : (k : ℕ) (ks : List ℕ) → count k (sort_keys ks) ≡ count k ks
unfolding sort_keys
count-sort_keys k [] = refl
count-sort_keys k (j ∷ ks) = omega (arith, count-heap_push k j (sort_keys ks), count-sort_keys k ks)

-- No key twice, which a hash set promises.
abbrev pub IsDistinct : List ℕ → Type 0
IsDistinct ks = (k : ℕ) → count k ks ≤ 1

push-IsAbove : (b k : ℕ) (xs : List ℕ) → b < k → IsAbove b xs → IsAbove b (heap_push k xs)
unfolding heap_push
push-IsAbove b k [] l h = (l, tt)
push-IsAbove b k (x ∷ xs) l h = ground (arith, push-IsAbove b k xs l)

IsAbove-trans : (a b : ℕ) (xs : List ℕ) → a < b → IsAbove b xs → IsAbove a xs
IsAbove-trans a b [] l h = tt
IsAbove-trans a b (x ∷ xs) l h = (omega arith, IsAbove-trans a b xs l h.1)

push-IsKeySet : (k : ℕ) (xs : List ℕ) → count k xs ≡ 0 → IsKeySet xs → IsKeySet (heap_push k xs)
unfolding heap_push
push-IsKeySet k [] e h = (tt, tt)
push-IsKeySet k (x ∷ xs) e h =
    ground (arith, push-IsKeySet k xs, push-IsAbove x k xs, IsAbove-trans k x xs)

sort_keys-IsKeySet : (ks : List ℕ) → IsDistinct ks → IsKeySet (sort_keys ks)
unfolding sort_keys
sort_keys-IsKeySet [] d = tt
sort_keys-IsKeySet (k ∷ ks) d =
    push-IsKeySet k (sort_keys ks) (ground (arith, count-sort_keys k ks, d k))
      (sort_keys-IsKeySet ks (λ j. omega (arith, d j)))

-- `TransactionNode::new` keeps the invariant of its key vectors: each is the strictly increasing
-- vector of the keys of the hash set that it was given, in whatever order the set is iterated over.
pub new_node-IsKeySet :
    (h : HashOrder) (id replica round gas_cost : ℕ) (reads writes : List ℕ)
    → IsDistinct reads
    → IsDistinct writes
    → IsKeySet (new_node h id replica round gas_cost reads writes).read_set
      × IsKeySet (new_node h id replica round gas_cost reads writes).write_set
      × ((k : ℕ)
          → count k (new_node h id replica round gas_cost reads writes).read_set ≡ count k reads)
      × ((k : ℕ)
          → count k (new_node h id replica round gas_cost reads writes).write_set ≡ count k writes)
unfolding new_node
new_node-IsKeySet h id replica round gas_cost reads writes dr dw = (
  sort_keys-IsKeySet (h.keys reads) (λ k. omega (arith, h.keys_same k reads, dr k)),
  sort_keys-IsKeySet (h.keys writes) (λ k. omega (arith, h.keys_same k writes, dw k)),
  λ k. omega (arith, count-sort_keys k (h.keys reads), h.keys_same k reads),
  λ k. omega (arith, count-sort_keys k (h.keys writes), h.keys_same k writes),
)

block_nodes-AreFresh :
    (h : HashOrder) (replica i previous : ℕ) (results : List Executed)
    → AreFresh (block_nodes h replica i previous results)
unfolding block_nodes new_node
block_nodes-AreFresh h replica i previous [] = tt
block_nodes-AreFresh h replica i previous (r ∷ rs) =
    ((refl, refl), block_nodes-AreFresh h replica (i + 1) r.cumulative_gas_used rs)

reset_nodes-AreFresh :
    (nodes : List TransactionNode) (is : List ℕ) → AreFresh (reset_nodes nodes is)
reset_nodes-AreFresh nodes [] = tt
reset_nodes-AreFresh nodes (i ∷ is) = ((refl, refl), reset_nodes-AreFresh nodes is)

construct-IsGraph :
    (h : HashOrder) (replica : ℕ) (results : List Executed) → IsGraph (construct h replica results)
unfolding construct
construct-IsGraph h replica results =
    add_transactions-IsGraph h empty _ (block_nodes-AreFresh h replica 0 0 results) empty-IsGraph

reorder-IsGraph :
    (h : HashOrder) (g : TransactionGraph) (order : List TransactionId)
    → IsGraph ((reorder h g order).1)
unfolding reorder
reorder-IsGraph h g order =
    add_transactions-IsGraph h empty _ (reset_nodes-AreFresh g.nodes (order_indices g order))
      empty-IsGraph

module _ (h : HashOrder) (replica : ℕ) (results : List Executed) (lib : BitFlags) {sys : System}
    (r : Reach lib (initial (construct h replica results).nodes) sys) (idle : sys.work ≡ [])
    (running : sys.scheduler.aborted ≡ false) where
  open sys use {scheduler as s}

  -- The scheduler of any graph that `construct_graph_pevm_by_sequential` builds never deadlocks: each call being one atomic step, in every
  -- reachable state in which no thread holds a task and the scheduler is not aborted, the first round of
  -- `next_task` hands out a task, or ends the loop with all transactions of the graph validated.
  pub construct_no_deadlock :
      (rounds : List Bool)
      → ((t : Task) × ((next_task (false ∷ rounds) s).1 ≡ found t))
        ⊎ ((next_task (false ∷ rounds) s ≡ (s, stop))
            × ((i : ℕ)
                → i < length (construct h replica results).nodes
                → is_validated (status_at s i).status ≡ true)
            × (s.num_validated ≡ length (construct h replica results).nodes))
  construct_no_deadlock rounds =
      let k = construct-IsGraph h replica results in
      no_deadlock lib (construct h replica results).nodes k.mirrored k.forward r idle running rounds

module _ (h : HashOrder) (g : TransactionGraph) (order : List TransactionId) (lib : BitFlags)
    {sys : System} (r : Reach lib (initial ((reorder h g order).1).nodes) sys)
    (idle : sys.work ≡ []) (running : sys.scheduler.aborted ≡ false) where
  open sys use {scheduler as s}

  -- The same holds of the graph that `reorder_txs_by_dependency_graph` builds, whatever the old graph
  -- and the simulated order are.
  pub reorder_no_deadlock :
      (rounds : List Bool)
      → ((t : Task) × ((next_task (false ∷ rounds) s).1 ≡ found t))
        ⊎ ((next_task (false ∷ rounds) s ≡ (s, stop))
            × ((i : ℕ)
                → i < length ((reorder h g order).1).nodes
                → is_validated (status_at s i).status ≡ true)
            × (s.num_validated ≡ length ((reorder h g order).1).nodes))
  reorder_no_deadlock rounds =
      let k = reorder-IsGraph h g order in
      no_deadlock lib ((reorder h g order).1).nodes k.mirrored k.forward r idle running rounds
