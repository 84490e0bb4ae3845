-- ===== src/Pevm/DependencyGraph/Building.antt =====
-- `add_transaction` of dependency_graph.rs: what holds of every graph that it builds.
use congestion_control.Prelude.{
  ℕ, ◌≡◌, ◌<◌, refl, true, false, [], ◌∷◌, arith, ◌==◌, if◌then◌else◌, count, length, length-append,
  get_or, some, get_or-snoc, get_or_beyond,
}
use congestion_control.Prelude.Maps.{Map, nat_eq, lookup, lookup-insert, has_key}
use congestion_control.Pevm.Node.{TransactionId, TransactionNode, transaction_id, no_node}
use congestion_control.Pevm.DependencyGraph.{
  TransactionGraph, transaction_id_eq, id_eq_iff, empty, add_node,
}
use congestion_control.Pevm.GraphScheduler.{parents_of, children_of}
use congestion_control.Pevm.GraphScheduler.Invariant.{IsMirrored}
use congestion_control.Pevm.GraphScheduler.Progress.{IsForward}

abbrev pub node_at : TransactionGraph → ℕ → TransactionNode
node_at g i = get_or g.nodes i no_node

-- The index of an identifier, below a bound.
abbrev pub IsBelow : Map TransactionId ℕ → ℕ → TransactionId → Type 0
IsBelow index n id = (p : ℕ) × (lookup id index ≡ some p) × (p < n)

pub record IsGraph (g : TransactionGraph) : Type 0 where
  -- the index finds each node, and finds nothing else
  pub indexed :
      (i : ℕ) → i < length g.nodes → lookup (transaction_id (node_at g i)) g.id_to_index ≡ some i
  pub found :
      (id : TransactionId) (i : ℕ)
      → lookup id g.id_to_index ≡ some i
      → (i < length g.nodes) × (transaction_id (node_at g i) ≡ id)
  pub mirrored : IsMirrored g.nodes
  pub forward : IsForward g.nodes
  -- the head and the tail of an address are nodes of the graph
  pub heads :
      (a : ℕ) (id : TransactionId)
      → lookup a g.head_txns ≡ some id
      → has_key id g.id_to_index ≡ true
  pub tails :
      (a : ℕ) (id : TransactionId)
      → lookup a g.tail_txns ≡ some id
      → has_key id g.id_to_index ≡ true

-- A node as `TransactionNode::new` makes it: with no edges.
abbrev pub IsFresh : TransactionNode → Type 0
IsFresh n = (n.children_indices ≡ []) × (n.parent_indices ≡ [])

pub empty-IsGraph : IsGraph empty
unfolding empty lookup
empty-IsGraph = record {
  indexed = λ i h. elim h [ ];
  found = λ id i e. absurd (ground arith);
  mirrored = λ p c. refl;
  forward = λ p c h. elim h [ ];
  heads = λ a id e. absurd (ground arith);
  tails = λ a id e. absurd (ground arith);
}

module _ (g : TransactionGraph) (n : TransactionNode) (k : IsGraph g) (fresh : IsFresh n)
    (unknown : has_key (transaction_id n) g.id_to_index ≡ false) where
  pub added_at :
      (i : ℕ) → node_at (add_node g n).0 i ≡ (if i == length g.nodes then n else node_at g i)
  unfolding add_node
  added_at i = get_or-snoc g.nodes n i no_node

  -- Nothing of the old graph mentions the new index.
  nowhere :
      (i : ℕ)
      → (count (length g.nodes) (children_of g.nodes i) ≡ 0)
        × (count (length g.nodes) (parents_of g.nodes i) ≡ 0)
  nowhere i =
      let b = get_or_beyond g.nodes (length g.nodes) no_node (omega arith) in
      let m = k.mirrored i (length g.nodes) in
      let m' = k.mirrored (length g.nodes) i in (ground arith, ground arith)

  pub add_node-IsGraph : IsGraph (add_node g n).0
  unfolding add_node
  add_node-IsGraph =
      let id = transaction_id n in
      let size = length-append g.nodes (n ∷ []) in
      record {
        indexed = λ i h. ground (
          arith,
          added_at i,
          k.indexed i,
          lookup-insert id (transaction_id (node_at g i)) (length g.nodes) g.id_to_index,
          lookup-insert id id (length g.nodes) g.id_to_index,
          id_eq_iff id (transaction_id (node_at g i)),
          id_eq_iff id id,
        );
        found = λ j i e. ground (
          arith,
          added_at i,
          k.found j i,
          lookup-insert id j (length g.nodes) g.id_to_index,
          id_eq_iff id j,
        );
        mirrored =
            λ p c. ground (arith, added_at p, added_at c, k.mirrored p c, nowhere p, nowhere c);
        forward = λ p c h. ground (arith, added_at c, k.forward p c);
        heads = λ a j e.
            ground (arith, k.heads a j e, lookup-insert id j (length g.nodes) g.id_to_index);
        tails = λ a j e.
            ground (arith, k.tails a j e, lookup-insert id j (length g.nodes) g.id_to_index);
      }
