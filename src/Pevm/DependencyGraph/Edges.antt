-- ===== src/Pevm/DependencyGraph/Edges.antt =====
-- `add_edge` of dependency_graph.rs on the nodes.
use congestion_control.Prelude.{
  ℕ, ◌+◌, ◌≡◌, ◌<◌, List, [], ◌∷◌, ◌++◌, arith, ◌==◌, ◌&&◌, bit, if◌then◌else◌, count, count-append,
  contains, length, length-set, get_or, get_or-set,
}
use congestion_control.Pevm.Node.{TransactionNode, no_node}
use congestion_control.Pevm.DependencyGraph.{link, push_child}
use congestion_control.Pevm.GraphScheduler.{parents_of, children_of}
use congestion_control.Pevm.GraphScheduler.Invariant.{IsMirrored}
use congestion_control.Pevm.GraphScheduler.Progress.{IsForward}

pub length-link : (nodes : List TransactionNode) (p c : ℕ) → length (link nodes p c) ≡ length nodes
unfolding link
length-link nodes p c =
    let n = get_or nodes p no_node in
    let nodes' = push_child nodes p c in
    let m = get_or nodes' c no_node in
    ground (
      arith,
      length-set nodes p (record n { children_indices = n.children_indices ++ c ∷ [] }),
      length-set nodes' c (record m { parent_indices = m.parent_indices ++ p ∷ [] }),
    )

-- The new edge appears in both lists unless it was there; no other entry changes.
pub link_at :
    (nodes : List TransactionNode) (p c q d : ℕ)
    → p < length nodes
    → c < length nodes
    → let new = if contains c (children_of nodes p) then 0 else bit (p == q && c == d) in
      (count d (children_of (link nodes p c) q) ≡ count d (children_of nodes q) + new)
      × (count q (parents_of (link nodes p c) d) ≡ count q (parents_of nodes d) + new)
unfolding link
link_at nodes p c q d hp hc =
    let n = get_or nodes p no_node in
    let n' = record n { children_indices = n.children_indices ++ c ∷ [] } in
    let nodes' = push_child nodes p c in
    let m = get_or nodes' c no_node in
    let m' = record m { parent_indices = m.parent_indices ++ p ∷ [] } in
    ground (
      arith,
      length-set nodes p n',
      get_or-set nodes p q n' no_node,
      get_or-set nodes p c n' no_node,
      get_or-set nodes p d n' no_node,
      get_or-set nodes' c q m' no_node,
      get_or-set nodes' c d m' no_node,
      count-append d n.children_indices (c ∷ []),
      count-append q m.parent_indices (p ∷ []),
    )

pub link-IsMirrored :
    (nodes : List TransactionNode) (p c : ℕ)
    → p < length nodes
    → c < length nodes
    → IsMirrored nodes
    → IsMirrored (link nodes p c)
link-IsMirrored nodes p c hp hc m q d =
    let e = link_at nodes p c q d hp hc in omega (arith, e, m q d)

pub link-IsForward :
    (nodes : List TransactionNode) (p c : ℕ)
    → p < length nodes
    → c < length nodes
    → p < c
    → IsForward nodes
    → IsForward (link nodes p c)
link-IsForward nodes p c hp hc l f q d h = ground (arith, link_at nodes p c q d hp hc, f q d)

-- A node without its edges.
abbrev pub content : TransactionNode → TransactionNode
content n = record n { children_indices = []; parent_indices = [] }

pub content-link :
    (nodes : List TransactionNode) (p c i : ℕ)
    → content (get_or (link nodes p c) i no_node) ≡ content (get_or nodes i no_node)
unfolding link
content-link nodes p c i =
    let n = get_or nodes p no_node in
    let n' = record n { children_indices = n.children_indices ++ c ∷ [] } in
    let nodes' = push_child nodes p c in
    let m = get_or nodes' c no_node in
    let m' = record m { parent_indices = m.parent_indices ++ p ∷ [] } in
    ground (
      arith,
      length-set nodes p n',
      get_or-set nodes p i n' no_node,
      get_or-set nodes p c n' no_node,
      get_or-set nodes' c i m' no_node,
    )
