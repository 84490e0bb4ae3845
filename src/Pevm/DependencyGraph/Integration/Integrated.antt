-- ===== src/Pevm/DependencyGraph/Integration/Integrated.antt =====
-- `integrate_graph` of dependency_graph.rs as a whole.
use congestion_control.Prelude.{
  ℕ, ◌+◌, ◌-◌, ◌≡◌, ◌<◌, ◌↔◌, ◌⊎◌, sym, ap, subst, ◌∙◌, true, arith, ltb, leb, if◌then◌else◌, count,
  contains, length, some, inl, inr, Option-cases, Bool-cases,
}
use congestion_control.Prelude.Maps.{nat_eq, lookup}
use congestion_control.Pevm.Node.{TransactionId}
use congestion_control.Pevm.GraphScheduler.{children_of}
use congestion_control.Pevm.DependencyGraph.{
  TransactionGraph, Result, ok, HashOrder, transaction_id_eq,
}
use congestion_control.Pevm.DependencyGraph.Building.{IsBelow, IsGraph, node_at}
use congestion_control.Pevm.DependencyGraph.Integration.{
  all_addresses, append_graph, connect_all, integrate_graph,
}
use congestion_control.Pevm.DependencyGraph.Integration.Addresses.{
  all_addresses-IsOnce, tail_listed, head_listed,
}
use congestion_control.Pevm.DependencyGraph.Edges.{content}
use congestion_control.Pevm.DependencyGraph.Integration.Joining.{Joins, joined_tail, joined_head}
use congestion_control.Pevm.DependencyGraph.Integration.Looping.{connect_all-IsConnected}
use congestion_control.Pevm.DependencyGraph.Integration.Counting.{
  edge_count, edge_count-append_graph,
}
use congestion_control.Pevm.DependencyGraph.Integration.Appending.{
  IsUnknown, appended_at, count-shift,
}
use congestion_control.Pevm.DependencyGraph.Integration.Appended.{
  appended_length, appended-IsGraph, kept_index, shifted_index, ends,
}
use congestion_control.Pevm.DependencyGraph.Integration.Connecting.{IsConnected}

-- How often the edge stands in the two graphs, the second one's nodes shifted.
abbrev pub old_edges : TransactionGraph → TransactionGraph → ℕ → ℕ → ℕ
old_edges g other p c =
    let base = length g.nodes in
    if ltb p base
    then count c (children_of g.nodes p)
    else if leb base c
    then count (c - base) (children_of other.nodes (p - base))
    else 0

-- An address has its tail in the first graph at `p`, and its head in the second, shifted, at `c`.
abbrev pub IsJoined : TransactionGraph → TransactionGraph → ℕ → ℕ → Type 0
IsJoined g other p c =
    (a : ℕ) × (tail : TransactionId) × (head : TransactionId) × (i : ℕ) × (lookup a g.tail_txns
      ≡ some tail)
    × (lookup tail g.id_to_index ≡ some p)
    × (lookup a other.head_txns ≡ some head)
    × (lookup head other.id_to_index ≡ some i)
    × (length g.nodes + i ≡ c)

appended_edges :
    (g other : TransactionGraph) (p c : ℕ)
    → count c (children_of (append_graph g other).nodes p) ≡ old_edges g other p c
appended_edges g other p c =
    let base = length g.nodes in
    ground (arith, appended_at g other p, count-shift base c (children_of other.nodes (p - base)))

appended_content :
    (g other : TransactionGraph) (i : ℕ)
    → content (node_at (append_graph g other) i)
      ≡ content (if ltb i (length g.nodes) then node_at g i else node_at other (i - length g.nodes))
appended_content g other i = ground (arith, appended_at g other i)

module _ (h : HashOrder) (g other : TransactionGraph) (k : IsGraph g) (ko : IsGraph other)
    (u : IsUnknown g other.nodes) (r : TransactionGraph × Result ℕ)
    (c : IsConnected other
      (append_graph g other)
      0
      (λ b. contains b (h.keys (all_addresses g other)))
      r) where
  final_tails :
      (a : ℕ)
      → lookup a r.0.tail_txns
        ≡ joined_tail (lookup a other.head_txns) (lookup a other.tail_txns) (lookup a g.tail_txns)
  final_tails a =
      let t = c.tails a in
      let e = ap (lookup a) ((ends g other k ko u).1) in
      elim (Bool-cases (contains a (h.keys (all_addresses g other)))) [
        | inl y ↦ ground (arith, t, e, y)
        | inr n ↦ elim (Option-cases (lookup a other.head_txns)) [
          | inl x ↦ ground (arith, t, e, n, x)
          | inr (d, x) ↦ let l = head_listed h g other a d x in absurd (ground (arith, l, n))
        ]
      ]

  final_heads :
      (a : ℕ)
      → lookup a r.0.head_txns
        ≡ joined_head (lookup a other.head_txns) (lookup a g.tail_txns) (lookup a g.head_txns)
  final_heads a =
      let t = c.heads a in
      let e = ap (lookup a) ((ends g other k ko u).1) in
      let f = ap (lookup a) ((ends g other k ko u).0) in
      elim (Bool-cases (contains a (h.keys (all_addresses g other)))) [
        | inl y ↦ ground (arith, t, e, f, y)
        | inr n ↦ elim (Option-cases (lookup a other.head_txns)) [
          | inl x ↦ ground (arith, t, e, f, n, x)
          | inr (d, x) ↦ let l = head_listed h g other a d x in absurd (ground (arith, l, n))
        ]
      ]

  Joins-IsJoined : (a p d : ℕ) → Joins other (append_graph g other) a p d → IsJoined g other p d
  Joins-IsJoined a p d j =
      let (tail, head, et, ep, eh, ed) = j in
      let et' : lookup a g.tail_txns ≡ some tail =
        sym (ap (lookup a) ((ends g other k ko u).1)) ∙ et in
      let t = k.tails a tail et' in
      let s = ko.heads a head eh in
      elim (Option-cases (lookup tail g.id_to_index)) [
        | inl x ↦ absurd (ground (arith, t, x))
        | inr (q, x) ↦ elim (Option-cases (lookup head other.id_to_index)) [
          | inl z ↦ absurd (ground (arith, s, z))
          | inr (i, z) ↦
              let x' = kept_index g other k ko u tail q x in
              let z' = shifted_index g other k ko u head i z in
              let same : q ≡ p = cc in (a, tail, head, i, et', rw x (ap some same), eh, z, cc)
        ]
      ]

  IsJoined-Joins :
      (p d : ℕ)
      → IsJoined g other p d
      → (a : ℕ) × (contains a (h.keys (all_addresses g other)) ≡ true)
        × Joins other (append_graph g other) a p d
  IsJoined-Joins p d j =
      let (a, tail, head, i, et, ep, eh, ei, s) = j in
      (
        a,
        tail_listed h g other a tail et,
        (
          tail,
          head,
          ap (lookup a) ((ends g other k ko u).1) ∙ et,
          kept_index g other k ko u tail p ep,
          eh,
          shifted_index g other k ko u head i ei ∙ ap some s,
        ),
      )

  final_edge :
      (p d : ℕ)
      → (0 < count d (children_of r.0.nodes p))
        ↔ ((0 < old_edges g other p d) ⊎ IsJoined g other p d)
  final_edge p d = (
    λ x. elim ((c.edge p d).0 x) [
      | inl y ↦ inl (subst (λ z. 0 < z) (appended_edges g other p d) y)
      | inr (a, t, j) ↦ inr (Joins-IsJoined a p d j)
    ],
    λ x. (c.edge p d).1 (elim x [
      | inl y ↦ inl (subst (λ z. 0 < z) (sym (appended_edges g other p d)) y)
      | inr j ↦ inr (IsJoined-Joins p d j)
    ]),
  )

-- What `integrate_graph` leaves of two graphs.
pub record IsIntegrated (g other : TransactionGraph) (r : TransactionGraph × Result ℕ)
    : Type 0 where
  pub edges : ℕ
  pub good : r.1 ≡ ok edges
  pub valid : IsGraph r.0
  pub size : length r.0.nodes ≡ length g.nodes + length other.nodes
  pub counted : edge_count r.0.nodes ≡ edge_count g.nodes + edge_count other.nodes + edges
  -- a transaction keeps its index, if it was in the first graph, and else has it shifted
  pub first :
      (id : TransactionId) (i : ℕ)
      → lookup id g.id_to_index ≡ some i
      → lookup id r.0.id_to_index ≡ some i
  pub second :
      (id : TransactionId) (i : ℕ)
      → lookup id other.id_to_index ≡ some i
      → lookup id r.0.id_to_index ≡ some (length g.nodes + i)
  -- a node is that of its graph, but for its edges
  pub contents :
      (i : ℕ)
      → content (node_at r.0 i)
        ≡ content
            (if ltb i (length g.nodes) then node_at g i else node_at other (i - length g.nodes))
  -- the edges are those of the two graphs and, for each address, one from tail to head
  pub edge :
      (p c : ℕ)
      → (0 < count c (children_of r.0.nodes p))
        ↔ ((0 < old_edges g other p c) ⊎ IsJoined g other p c)
  pub tails :
      (a : ℕ)
      → lookup a r.0.tail_txns
        ≡ joined_tail (lookup a other.head_txns) (lookup a other.tail_txns) (lookup a g.tail_txns)
  pub heads :
      (a : ℕ)
      → lookup a r.0.head_txns
        ≡ joined_head (lookup a other.head_txns) (lookup a g.tail_txns) (lookup a g.head_txns)

-- Two well-formed graphs that share no transaction are integrated without an error, in whatever order
-- the addresses are iterated over. The result is well formed. Its nodes are those of the first graph and then
-- those of the second, unchanged but for their edges. Its edges are those of both graphs and, for each address,
-- one from the first graph's tail to the second graph's head; beyond the edges of both there are exactly as
-- many as the returned number. An address that the second graph has a head of gets its tail, and its
-- head if the first graph has no tail of it; all other ends are the first graph's.
pub integrate_graph-IsIntegrated :
    (h : HashOrder) (g other : TransactionGraph)
    → IsGraph g
    → IsGraph other
    → IsUnknown g other.nodes
    → IsIntegrated g other (integrate_graph h g other)
unfolding integrate_graph
integrate_graph-IsIntegrated h g other k ko u =
    let g' = append_graph g other in
    let addrs = h.keys (all_addresses g other) in
    let r =
      connect_all-IsConnected (length g.nodes) other ko g' addrs 0 (appended-IsGraph g other k ko u)
        (shifted_index g other k ko u)
        (λ a. omega (arith, h.keys_same a (all_addresses g other), all_addresses-IsOnce g other a))
        (λ a w id f. old_tail id a f) in
    record {
      edges = r.edges;
      good = r.good;
      valid = r.valid;
      size = r.same_length ∙ appended_length g other k ko u;
      counted = omega (arith, r.counted, edge_count-append_graph g other);
      first = λ id i e. rw r.same_index (kept_index g other k ko u id i e);
      second = λ id i e. rw r.same_index (shifted_index g other k ko u id i e);
      contents = λ i. r.contents i ∙ appended_content g other i;
      edge = final_edge h g other k ko u (connect_all other g' addrs 0) r;
      tails = final_tails h g other k ko u (connect_all other g' addrs 0) r;
      heads = final_heads h g other k ko u (connect_all other g' addrs 0) r;
    }
  where
    old_tail :
        (id : TransactionId) (a : ℕ)
        → lookup a (append_graph g other).tail_txns ≡ some id
        → IsBelow (append_graph g other).id_to_index (length g.nodes) id
    old_tail id a f =
        let t = k.tails a id (rw ((ends g other k ko u).1) at f) in
        elim (Option-cases (lookup id g.id_to_index)) [
          | inl e ↦ absurd (ground arith)
          | inr (p, e) ↦ (p, kept_index g other k ko u id p e, (k.found id p e).0)
        ]
