-- ===== src/Pevm/DependencyGraph/Transactions.antt =====
-- `add_transaction` of dependency_graph.rs as a whole, and the loops that build a graph with it.
use congestion_control.Prelude.{
  ℕ, ◌+◌, ◌≡◌, ◌<◌, refl, ◌∙◌, subst, true, false, List, [], ◌∷◌, arith, if◌then◌else◌, length,
  length-append, some, Bool-cases, inl, inr, Option-cases,
}
use congestion_control.Prelude.Maps.{nat_eq, lookup, lookup-insert, has_key}
use congestion_control.Pevm.Node.{TransactionId, TransactionNode, transaction_id}
use congestion_control.Pevm.DependencyGraph.{
  TransactionGraph, Result, ok, err, already_exists, HashOrder, transaction_id_eq, id_eq_iff,
  add_node, add_edges, conflicts, addresses, touch, touch_all, add_transaction, add_transactions,
}
use congestion_control.Pevm.DependencyGraph.Building.{IsBelow, IsGraph, IsFresh, add_node-IsGraph}
use congestion_control.Pevm.DependencyGraph.Adding.{
  IsKnown, id_eq_refl, IsLinked, add_edges-IsLinked, conflict-known, conflicts-known,
}

touch-IsGraph :
    (id : TransactionId) (g : TransactionGraph) (a : ℕ)
    → has_key id g.id_to_index ≡ true
    → IsGraph g
    → IsGraph (touch id g a)
unfolding touch
touch-IsGraph id g a h k = record {
  indexed = k.indexed;
  found = k.found;
  mirrored = k.mirrored;
  forward = k.forward;
  heads = λ b j e. ground (arith, lookup-insert a b id g.head_txns, k.heads b j);
  tails = λ b j e. ground (arith, lookup-insert a b id g.tail_txns, k.tails b j);
}

touch-has_key :
    (id : TransactionId) (g : TransactionGraph) (a : ℕ)
    → has_key id (touch id g a).id_to_index ≡ has_key id g.id_to_index
unfolding touch
touch-has_key id g a = refl

touch_all-IsGraph :
    (id : TransactionId) (g : TransactionGraph) (addrs : List ℕ)
    → has_key id g.id_to_index ≡ true
    → IsGraph g
    → IsGraph (touch_all id g addrs)
unfolding touch_all
touch_all-IsGraph id g [] h k = k
touch_all-IsGraph id g (a ∷ rest) h k =
    touch_all-IsGraph id (touch id g a) rest (touch-has_key id g a ∙ h) (touch-IsGraph id g a h k)

pub touch_all_nodes :
    (id : TransactionId) (g : TransactionGraph) (addrs : List ℕ)
    → (touch_all id g addrs).nodes ≡ g.nodes
unfolding touch_all touch
touch_all_nodes id g [] = refl
touch_all_nodes id g (a ∷ rest) = touch_all_nodes id (touch id g a) rest

-- What is added: the graph with the new node in it, and the transactions that get an edge to it.
abbrev pub grown : TransactionGraph → TransactionNode → TransactionGraph
grown g n = (add_node g n).0

abbrev pub touched : HashOrder → TransactionNode → List ℕ
touched h n = h.keys (addresses n)

abbrev pub tied : HashOrder → TransactionGraph → TransactionNode → List TransactionId
tied h g n = h.ids (conflicts (grown g n) n [] (touched h n))

module _ (h : HashOrder) (g : TransactionGraph) (n : TransactionNode) (k : IsGraph g)
    (fresh : IsFresh n) (unknown : has_key (transaction_id n) g.id_to_index ≡ false) where
  known :
      (id : TransactionId)
      → has_key id g.id_to_index ≡ true
      → IsBelow (grown g n).id_to_index (length g.nodes) id
  unfolding add_node
  known id t = elim (Option-cases (lookup id g.id_to_index)) [
    | inl e ↦ absurd (ground arith)
    | inr (p, e) ↦
        let other = lookup-insert (transaction_id n) id (length g.nodes) g.id_to_index in
        (p, ground (arith, id_eq_iff (transaction_id n) id), (k.found id p e).0)
  ]

  -- The tails are older than the new node.
  pub tied-IsKnown : IsKnown (grown g n).id_to_index (length g.nodes) (tied h g n)
  unfolding add_node
  tied-IsKnown id w =
      elim (conflicts-known (grown g n) n [] (touched h n) id
        (subst (λ m. 0 < m) (h.ids_same id _) w)) [
          | inl z ↦ absurd (ground arith)
          | inr (a, _, e) ↦ known id (k.tails a id (conflict-known (grown g n) n a id e))
        ]

  pub found_self : lookup (transaction_id n) (grown g n).id_to_index ≡ some (length g.nodes)
  unfolding add_node
  found_self =
      let self =
        lookup-insert (transaction_id n) (transaction_id n) (length g.nodes) g.id_to_index in
      ground (arith, id_eq_refl (transaction_id n))

  pub linked :
      ((add_edges (grown g n) (tied h g n) (transaction_id n)).1 ≡ ok tt)
      × IsLinked (grown g n) (add_edges (grown g n) (tied h g n) (transaction_id n)).0
  linked =
      add_edges-IsLinked (grown g n) (tied h g n) (transaction_id n) (length g.nodes)
        (add_node-IsGraph g n k fresh unknown) found_self tied-IsKnown

  pub added : add_transaction h g n ≡ (
    touch_all
        (transaction_id n)
        (add_edges (grown g n) (tied h g n) (transaction_id n)).0
        (touched h n),
    ok (length g.nodes),
  )
  unfolding add_transaction add_node
  added = let good = linked.0 in ground arith

  length-grown : length (grown g n).nodes ≡ length g.nodes + 1
  unfolding add_node
  length-grown = length-append g.nodes (n ∷ [])

-- What `add_transaction` leaves of a well-formed graph `g`, given a node with no edges.
pub record IsAdded (g : TransactionGraph) (n : TransactionNode) (r : TransactionGraph × Result ℕ)
    : Type 0 where
  pub valid : IsGraph r.0
  pub outcome : r.1 ≡ (
      if has_key (transaction_id n) g.id_to_index
      then err (already_exists (transaction_id n))
      else ok (length g.nodes))
  pub size :
      length r.0.nodes
      ≡ length g.nodes + (if has_key (transaction_id n) g.id_to_index then 0 else 1)

refused :
    (h : HashOrder) (g : TransactionGraph) (n : TransactionNode)
    → has_key (transaction_id n) g.id_to_index ≡ true
    → add_transaction h g n ≡ (g, err (already_exists (transaction_id n)))
unfolding add_transaction
refused h g n known = ground arith

pub add_transaction-IsAdded :
    (h : HashOrder) (g : TransactionGraph) (n : TransactionNode)
    → IsGraph g
    → IsFresh n
    → IsAdded g n (add_transaction h g n)
add_transaction-IsAdded h g n k fresh =
    elim (Bool-cases (has_key (transaction_id n) g.id_to_index)) [
      | inl e ↦
          rw (refused h g n e) (record { valid = k; outcome = ground arith; size = ground arith })
      | inr e ↦
          let l = (linked h g n k fresh e).1 in
          let r = (add_edges (grown g n) (tied h g n) (transaction_id n)).0 in
          let self = found_self h g n k fresh e in
          rw (added h g n k fresh e) (record {
            valid =
                touch_all-IsGraph (transaction_id n) r (touched h n)
                  (let same = l.same_index in ground arith) l.valid;
            outcome = ground arith;
            size =
                let a = touch_all_nodes (transaction_id n) r (touched h n) in
                let b = l.same_length in let c = length-grown h g n k fresh e in ground arith;
          })
    ]

abbrev pub AreFresh : List TransactionNode → Type 0
AreFresh [] = Unit {0}
AreFresh (n ∷ ns) = IsFresh n × AreFresh ns

-- Transactions that are added to a well-formed graph one after the other, in whatever order the hash
-- sets are iterated over, leave it well formed: the index is exact, the edges are mirrored and go
-- forward, and the heads and tails are in the graph.
pub add_transactions-IsGraph :
    (h : HashOrder) (g : TransactionGraph) (ns : List TransactionNode)
    → AreFresh ns
    → IsGraph g
    → IsGraph (add_transactions h g ns)
unfolding add_transactions
add_transactions-IsGraph h g [] f k = k
add_transactions-IsGraph h g (n ∷ ns) f k =
    add_transactions-IsGraph h (add_transaction h g n).0 ns f.1
      (add_transaction-IsAdded h g n k f.0).valid
