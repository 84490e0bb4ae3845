-- ===== src/Pevm/DependencyGraph/Suffix.antt =====
-- `update_longest_suffix_postorder` of dependency_graph.rs: the depth-first search that gives each node
-- the gas of the longest path from it. It runs on fuel, one for each node on the path from the start.
pub mod Walks
pub mod Search
pub mod Roots
pub mod Update
use congestion_control.Prelude.{
  ℕ, zero, suc, ◌+◌, ◌%◌, ◌^◌, max, Bool, true, false, List, [], ◌∷◌, ltb, ◌==◌, ◌&&◌, ◌||◌,
  if◌then◌else◌, length, get_or, set, replicate, Option, some, none,
}
use congestion_control.Pevm.Node.{TransactionNode, transaction_id, no_node}
use congestion_control.Pevm.DependencyGraph.{TransactionGraph, HeapEntry}
use congestion_control.Pevm.GraphScheduler.{children_of}

pub record Walk : Type 0 where
  pub nodes : List TransactionNode
  pub visited : List Bool

abbrev pub suffix_at : List TransactionNode → ℕ → ℕ
suffix_at nodes i = (get_or nodes i no_node).longest_suffix

-- The loop over the children, with the greatest suffix so far; `none` is out of fuel.
abbrev pub walk_children : (ℕ → Walk → Option (Walk × ℕ)) → List ℕ → Walk → ℕ → Option (Walk × ℕ)
walk_children go [] w greatest = some (w, greatest)
walk_children go (c ∷ cs) w greatest = elim (go c w) [
  | none ↦ none
  | some r ↦ walk_children go cs r.0 (max greatest r.1)
]

-- The node's own suffix is written after those of its children; addition on u64 wraps.
abbrev pub settle : ℕ → Walk × ℕ → Walk × ℕ
settle i (w, greatest) =
    let n = get_or w.nodes i no_node in
    let suffix = (n.gas_cost + greatest) % 2 ^ 64 in
    (record w { nodes = set w.nodes i (record n { longest_suffix = suffix }) }, suffix)

unfoldable pub postorder_dfs : ℕ → ℕ → Walk → Option (Walk × ℕ)
postorder_dfs zero i w = none
postorder_dfs (suc fuel) i w = elim (get_or w.visited i false) [
  | true ↦ some (w, suffix_at w.nodes i)
  | false ↦
      elim (walk_children (λ c w'. postorder_dfs fuel c w') (children_of w.nodes i)
        (record w { visited = set w.visited i true }) 0) [
          | none ↦ none
          | some r ↦ some (settle i r)
        ]
]

-- Step 1: the nodes that are nobody's child.
abbrev pub mark_children : List ℕ → List Bool → List Bool
mark_children [] marks = marks
mark_children (c ∷ cs) marks = mark_children cs (set marks c true)

abbrev pub mark_nodes : List TransactionNode → List Bool → List Bool
mark_nodes [] marks = marks
mark_nodes (n ∷ ns) marks = mark_nodes ns (mark_children n.children_indices marks)

abbrev pub unmarked_from : ℕ → List Bool → List ℕ
unmarked_from i [] = []
unmarked_from i (marked ∷ marks) =
    let rest = unmarked_from (i + 1) marks in if marked then rest else i ∷ rest

unfoldable pub root_nodes : List TransactionNode → List ℕ
root_nodes nodes = unmarked_from 0 (mark_nodes nodes (replicate (length nodes) false))

-- The derived order of heap entries: by suffix, then by identifier.
abbrev pub entry_ltb : HeapEntry → HeapEntry → Bool
entry_ltb a b =
    ltb a.longest_suffix b.longest_suffix
    || (a.longest_suffix == b.longest_suffix
        && (ltb a.tx_id.id b.tx_id.id
            || (a.tx_id.id == b.tx_id.id && ltb a.tx_id.replica b.tx_id.replica)))

-- A `BinaryHeap` of entries, the greatest first.
unfoldable pub push_entry : HeapEntry → List HeapEntry → List HeapEntry
push_entry e [] = e ∷ []
push_entry e (f ∷ fs) = if entry_ltb e f then f ∷ push_entry e fs else e ∷ f ∷ fs

abbrev pub entry_of : List TransactionNode → ℕ → HeapEntry
entry_of nodes i = record {
  longest_suffix = suffix_at nodes i;
  tx_id = transaction_id (get_or nodes i no_node);
}

-- Step 3: the loop over the roots.
unfoldable pub walk_roots : ℕ → List ℕ → Walk → List HeapEntry → Option (Walk × List HeapEntry)
walk_roots fuel [] w heap = some (w, heap)
walk_roots fuel (i ∷ is) w heap = elim (postorder_dfs fuel i w) [
  | none ↦ none
  | some r ↦ walk_roots fuel is r.0 (push_entry (entry_of r.0.nodes i) heap)
]

-- An empty graph is left as it is, the heap included.
unfoldable pub update_longest_suffix_postorder : TransactionGraph → Option TransactionGraph
update_longest_suffix_postorder g =
    let n = length g.nodes in
    if n == 0
    then some g
    else elim (walk_roots n (root_nodes g.nodes)
        (record { nodes = g.nodes; visited = replicate n false }) []) [
          | none ↦ none
          | some r ↦ some (record g { nodes = r.0.nodes; txns_without_parent = r.1 })
        ]
