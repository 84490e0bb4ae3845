-- ===== src/Pevm/DependencyGraph/Integration/Counting.antt =====
-- `edge_count` of dependency_graph.rs, and what an edge and the appending of a graph do to it.
use congestion_control.Prelude.{
  ℕ, zero, suc, ◌+◌, ◌-◌, ◌≡◌, ◌≤◌, ◌<◌, refl, ◌∙◌, List, [], ◌∷◌, ◌++◌, arith, if◌then◌else◌,
  contains, length, length-append, length-set, length-map, get_or, get_or-set, set,
}
use congestion_control.Prelude.Maps.{nat_eq}
use congestion_control.Pevm.Node.{TransactionNode, no_node}
use congestion_control.Pevm.DependencyGraph.{TransactionGraph, transaction_id_eq, link, push_child}
use congestion_control.Pevm.GraphScheduler.{children_of}
use congestion_control.Pevm.DependencyGraph.Integration.{remap_node, remap, append_graph}
use congestion_control.Pevm.DependencyGraph.Integration.Appending.{
  append_nodes-nodes, get_or-append,
}

unfoldable pub edge_count : List TransactionNode → ℕ
edge_count [] = 0
edge_count (n ∷ ns) = length n.children_indices + edge_count ns

edge_count-set :
    (nodes : List TransactionNode) (i : ℕ) (n : TransactionNode)
    → i < length nodes
    → edge_count (set nodes i n) + length (children_of nodes i)
      ≡ edge_count nodes + length n.children_indices
unfolding edge_count
edge_count-set [] i n h = elim h [ ]
edge_count-set (m ∷ nodes) zero n h = omega arith
edge_count-set (m ∷ nodes) (suc i) n h = omega (arith, edge_count-set nodes i n (omega arith))

pub edge_count-link :
    (nodes : List TransactionNode) (p c : ℕ)
    → p < length nodes
    → c < length nodes
    → edge_count (link nodes p c)
      ≡ edge_count nodes + (if contains c (children_of nodes p) then 0 else 1)
unfolding link
edge_count-link nodes p c hp hc =
    let n = get_or nodes p no_node in
    let n' = record n { children_indices = n.children_indices ++ c ∷ [] } in
    let nodes' = push_child nodes p c in
    let m = get_or nodes' c no_node in
    let m' = record m { parent_indices = m.parent_indices ++ p ∷ [] } in
    ground (
      arith,
      edge_count-set nodes p n' hp,
      length-append n.children_indices (c ∷ []),
      length-set nodes p n',
      edge_count-set nodes' c m',
    )

edge_count-append :
    (xs ys : List TransactionNode) → edge_count (xs ++ ys) ≡ edge_count xs + edge_count ys
unfolding edge_count
edge_count-append [] ys = omega arith
edge_count-append (x ∷ xs) ys = omega (arith, edge_count-append xs ys)

edge_count-remap :
    (base i : ℕ) (srcs nodes : List TransactionNode)
    → base + i + length srcs ≤ length nodes
    → ((j : ℕ)
        → j < length srcs
        → length (children_of nodes (base + i + j)) ≡ length (children_of srcs j))
    → edge_count (remap base i srcs nodes) ≡ edge_count nodes
unfolding remap
edge_count-remap base i [] nodes l same = refl
edge_count-remap base i (s ∷ rest) nodes l same =
    let n' = remap_node base s (get_or nodes (base + i) no_node) in
    let first = edge_count-set nodes (base + i) n' (omega arith) in
    let m = length-map (λ c. base + c) s.children_indices in
    let z : base + i + 0 ≡ base + i = omega arith in
    let here : length (children_of nodes (base + i)) ≡ length s.children_indices =
      ground (arith, same 0 (omega arith)) in
    let keep : edge_count (set nodes (base + i) n') ≡ edge_count nodes = omega arith in
    edge_count-remap base (i + 1) rest (set nodes (base + i) n')
      (omega (arith, length-set nodes (base + i) n'))
      (λ j h.
        let at = get_or-set nodes (base + i) (base + (i + 1) + j) n' no_node in
        let e : base + (i + 1) + j ≡ base + i + suc j = omega arith in
        ground (arith, same (suc j) (omega arith)))
    ∙ keep

pub edge_count-append_graph :
    (g other : TransactionGraph)
    → edge_count (append_graph g other).nodes ≡ edge_count g.nodes + edge_count other.nodes
unfolding append_graph
edge_count-append_graph g other =
    let b = length g.nodes in
    rw (append_nodes-nodes g other.nodes) (
      edge_count-remap b 0 other.nodes (g.nodes ++ other.nodes)
        (omega (arith, length-append g.nodes other.nodes))
        (λ j h.
          let at = get_or-append g.nodes other.nodes (b + 0 + j) in
          let e : b + 0 + j - b ≡ j = omega arith in ground arith)
      ∙ edge_count-append g.nodes other.nodes)
