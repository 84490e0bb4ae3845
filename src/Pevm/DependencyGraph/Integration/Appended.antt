-- ===== src/Pevm/DependencyGraph/Integration/Appended.antt =====
-- Steps 2 and 3 of `integrate_graph`: the appended graph as a whole.
use congestion_control.Prelude.{
  ℕ, ◌+◌, ◌-◌, ◌≡◌, ◌≤◌, refl, ap, ◌∙◌, true, arith, count, length, length-append, some,
  get_or_beyond, inl, inr, Option-cases,
}
use congestion_control.Prelude.Maps.{nat_eq, lookup, has_key}
use congestion_control.Pevm.Node.{TransactionId, transaction_id, no_node}
use congestion_control.Pevm.DependencyGraph.{TransactionGraph, transaction_id_eq}
use congestion_control.Pevm.GraphScheduler.{parents_of, children_of}
use congestion_control.Pevm.GraphScheduler.Invariant.{IsMirrored}
use congestion_control.Pevm.GraphScheduler.Progress.{IsForward}
use congestion_control.Pevm.DependencyGraph.Building.{node_at, IsGraph}
use congestion_control.Pevm.DependencyGraph.Integration.{append_nodes, append_graph}
use congestion_control.Pevm.DependencyGraph.Integration.Appending.{
  IsIndexed, IsApart, IsUnknown, append_nodes-IsIndexed, append_nodes-nodes, append_nodes-ends,
  get_or-append, appended_at, length-remap, count-shift,
}

module _ (g other : TransactionGraph) (k : IsGraph g) (ko : IsGraph other)
    (u : IsUnknown g other.nodes) where
  apart : IsApart other.nodes
  apart i j hi hj e =
      let a = ko.indexed i hi in
      let b = ko.indexed j hj in let c = ap (λ id. lookup id other.id_to_index) e in ground arith

  pub appended_length : length (append_graph g other).nodes ≡ length g.nodes + length other.nodes
  unfolding append_graph
  appended_length =
      length-remap (length g.nodes) 0 other.nodes (append_nodes g other.nodes).nodes
      ∙ (ap length (append_nodes-nodes g other.nodes) ∙ length-append g.nodes other.nodes)

  index_facts :
      IsIndexed (append_nodes g other.nodes)
      × ((id : TransactionId) (i : ℕ)
          → lookup id g.id_to_index ≡ some i
          → lookup id (append_nodes g other.nodes).id_to_index ≡ some i)
  index_facts =
      append_nodes-IsIndexed g other.nodes (record { indexed = k.indexed; found = k.found }) apart u

  pub same_index : (append_graph g other).id_to_index ≡ (append_nodes g other.nodes).id_to_index
  unfolding append_graph
  same_index = refl

  same_ids :
      (i : ℕ)
      → transaction_id (node_at (append_graph g other) i)
        ≡ transaction_id (node_at (append_nodes g other.nodes) i)
  same_ids i =
      let at = appended_at g other i in
      let ap' = get_or-append g.nodes other.nodes i in
      rw (append_nodes-nodes g other.nodes) (ground arith)

  beyond :
      (i a : ℕ)
      → length g.nodes ≤ a
      → (count a (children_of g.nodes i) ≡ 0) × (count a (parents_of g.nodes i) ≡ 0)
  beyond i a l =
      let b = get_or_beyond g.nodes a no_node l in
      let m = k.mirrored i a in let m' = k.mirrored a i in (ground arith, ground arith)

  appended-IsMirrored : IsMirrored (append_graph g other).nodes
  appended-IsMirrored p c =
      let base = length g.nodes in
      ground (
        arith,
        appended_at g other p,
        appended_at g other c,
        k.mirrored p c,
        ko.mirrored (p - base) (c - base),
        beyond p c,
        beyond c p,
        count-shift base c (children_of other.nodes (p - base)),
        count-shift base p (parents_of other.nodes (c - base)),
      )

  appended-IsForward : IsForward (append_graph g other).nodes
  appended-IsForward p c h =
      let base = length g.nodes in
      ground (
        arith,
        appended_at g other c,
        k.forward p c,
        ko.forward (p - base) (c - base),
        count-shift base p (parents_of other.nodes (c - base)),
      )

  pub ends :
      ((append_graph g other).head_txns ≡ g.head_txns)
      × ((append_graph g other).tail_txns ≡ g.tail_txns)
  unfolding append_graph
  ends = append_nodes-ends g other.nodes

  -- What the first graph's index finds is found as before, and the second graph's with the shift.
  pub kept_index :
      (id : TransactionId) (i : ℕ)
      → lookup id g.id_to_index ≡ some i
      → lookup id (append_graph g other).id_to_index ≡ some i
  kept_index id i e = rw same_index (index_facts.1 id i e)

  length_nodes : length (append_nodes g other.nodes).nodes ≡ length g.nodes + length other.nodes
  length_nodes = ap length (append_nodes-nodes g other.nodes) ∙ length-append g.nodes other.nodes

  pub shifted_index :
      (id : TransactionId) (i : ℕ)
      → lookup id other.id_to_index ≡ some i
      → lookup id (append_graph g other).id_to_index ≡ some (length g.nodes + i)
  shifted_index id i e =
      let (l, same) = ko.found id i e in
      let ix = index_facts.0.indexed (length g.nodes + i) (omega (arith, length_nodes)) in
      let at = appended_at g other (length g.nodes + i) in
      let sm = same_ids (length g.nodes + i) in
      let m : length g.nodes + i - length g.nodes ≡ i = omega arith in rw same_index (ground arith)

  pub appended-IsGraph : IsGraph (append_graph g other)
  appended-IsGraph = record {
    indexed = λ i h.
        let ix = index_facts.0.indexed i (omega (arith, appended_length, length_nodes)) in
        rw (same_ids i, same_index) ix;
    found = λ id i e.
        let (l, same) = index_facts.0.found id i (rw same_index at e) in
        (omega (arith, appended_length, length_nodes), same_ids i ∙ same);
    mirrored = appended-IsMirrored;
    forward = appended-IsForward;
    heads = λ a id e. known id (k.heads a id (rw (ends.0) at e));
    tails = λ a id e. known id (k.tails a id (rw (ends.1) at e));
  }
    where
      known :
          (id : TransactionId)
          → has_key id g.id_to_index ≡ true
          → has_key id (append_graph g other).id_to_index ≡ true
      known id t = elim (Option-cases (lookup id g.id_to_index)) [
        | inl e ↦ absurd (ground arith)
        | inr (p, e) ↦ let f = kept_index id p e in ground arith
      ]
