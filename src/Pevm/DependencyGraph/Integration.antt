-- ===== src/Pevm/DependencyGraph/Integration.antt =====
-- `integrate_graph` of dependency_graph.rs: a second graph is appended to the first, and each address
-- is connected from the first graph's tail to the second graph's head.
pub mod Appending
pub mod Appended
pub mod Counting
pub mod Joining
pub mod Taking
pub mod Connecting
pub mod Addresses
pub mod Looping
pub mod Integrated
use congestion_control.Prelude.{
  ℕ, ◌+◌, Bool, true, false, List, [], ◌∷◌, ◌++◌, map, Option, some, none, length, get_or, set,
}
use congestion_control.Prelude.Maps.{Map, nat_eq, lookup, insert, keys_of}
use congestion_control.Pevm.Node.{TransactionId, TransactionNode, no_node}
use congestion_control.Pevm.DependencyGraph.{
  TransactionGraph, Result, ok, err, HashOrder, add_node, has_edge, add_edge, extend,
}

-- Step 1: every address that either graph knows.
unfoldable pub all_addresses : TransactionGraph → TransactionGraph → List ℕ
all_addresses g other =
    extend
      (extend (extend (extend [] (keys_of g.head_txns)) (keys_of g.tail_txns))
        (keys_of other.head_txns))
      (keys_of other.tail_txns)

-- Step 2
unfoldable pub append_nodes : TransactionGraph → List TransactionNode → TransactionGraph
append_nodes g [] = g
append_nodes g (n ∷ ns) = append_nodes (add_node g n).0 ns

-- Step 3, one node: its edges are the source's, shifted.
abbrev pub remap_node : ℕ → TransactionNode → TransactionNode → TransactionNode
remap_node base src n = record n {
  children_indices = map (λ c. base + c) src.children_indices;
  parent_indices = map (λ p. base + p) src.parent_indices;
}

-- The rounds from old index `i` on.
unfoldable pub remap : ℕ → ℕ → List TransactionNode → List TransactionNode → List TransactionNode
remap base i [] nodes = nodes
remap base i (src ∷ rest) nodes =
    remap base (i + 1) rest
      (set nodes (base + i) (remap_node base src (get_or nodes (base + i) no_node)))

unfoldable pub append_graph : TransactionGraph → TransactionGraph → TransactionGraph
append_graph g other =
    let g' = append_nodes g other.nodes in
    record g' { nodes = remap (length g.nodes) 0 other.nodes g'.nodes }

count_edge : TransactionGraph × Result (Unit {0}) → ℕ → TransactionGraph × Result ℕ
count_edge (g, ok _) edges = (g, ok (edges + 1))
count_edge (g, err e) edges = (g, err e)

-- The edge from a tail to a head, unless it is there or cannot be looked up.
unfoldable pub connect_edge :
    TransactionGraph → TransactionId → TransactionId → ℕ → TransactionGraph × Result ℕ
unfolding count_edge
connect_edge g tail head edges = elim (has_edge g tail head) [
  | err e ↦ (g, ok edges)
  | ok there ↦ elim there [ true ↦ (g, ok edges) | false ↦ count_edge (add_edge g tail head) edges ]
]

unfoldable pub take_tail : TransactionGraph → TransactionGraph → ℕ → TransactionGraph
take_tail other g addr = elim (lookup addr other.tail_txns) [
  | none ↦ g
  | some t ↦ record g { tail_txns = insert addr t g.tail_txns }
]

then_take_tail : TransactionGraph → ℕ → TransactionGraph × Result ℕ → TransactionGraph × Result ℕ
then_take_tail other addr (g, err e) = (g, err e)
then_take_tail other addr (g, ok edges) = (take_tail other g addr, ok edges)

-- Step 4, one address.
unfoldable pub connect : TransactionGraph → TransactionGraph → ℕ → ℕ → TransactionGraph × Result ℕ
unfolding then_take_tail
connect other g addr edges = elim (lookup addr other.head_txns) [
  | none ↦ (g, ok edges)
  | some head ↦ elim (lookup addr g.tail_txns) [
    | some tail ↦ then_take_tail other addr (connect_edge g tail head edges)
    | none ↦
        (take_tail other (record g { head_txns = insert addr head g.head_txns }) addr, ok edges)
  ]
]

-- The loop of step 4: an error ends it.
unfoldable pub connect_all :
    TransactionGraph → TransactionGraph → List ℕ → ℕ → TransactionGraph × Result ℕ
connect_all other g [] edges = (g, ok edges)
connect_all other g (a ∷ rest) edges = elim ((connect other g a edges).1) [
  | err e ↦ connect other g a edges
  | ok edges' ↦ connect_all other (connect other g a edges).0 rest edges'
]

unfoldable pub integrate_graph :
    HashOrder → TransactionGraph → TransactionGraph → TransactionGraph × Result ℕ
integrate_graph h g other =
    connect_all other (append_graph g other) (h.keys (all_addresses g other)) 0
