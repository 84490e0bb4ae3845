-- ===== src/Pevm/DependencyGraph/Contents.antt =====
-- What the loops of graph_pevm.rs that build a graph by `add_transaction` leave in it.
use congestion_control.Prelude.{
  ℕ, suc, ◌+◌, ◌-◌, ◌≡◌, ◌≢◌, ◌<◌, sym, ap, ◌∙◌, subst, false, List, [], ◌∷◌, ◌++◌, append-nil,
  arith, length, get_or, some, inl, inr, Option-cases, lt_or_le, zero_or_pos,
}
use congestion_control.Prelude.Maps.{nat_eq, lookup, has_key}
use congestion_control.Pevm.Node.{TransactionId, TransactionNode, transaction_id, no_node}
use congestion_control.Pevm.DependencyGraph.{
  TransactionGraph, HashOrder, transaction_id_eq, add_node, add_edges, add_transaction,
  add_transactions,
}
use congestion_control.Pevm.DependencyGraph.Building.{IsGraph, IsFresh, node_at}
use congestion_control.Pevm.DependencyGraph.Edges.{content}
use congestion_control.Pevm.DependencyGraph.Integration.Appending.{
  IsApart, IsUnknown, get_or-append,
}
use congestion_control.Pevm.DependencyGraph.Transactions.{
  add_transaction-IsAdded, grown, touched, tied, linked, added, touch_all_nodes, AreFresh,
  add_transactions-IsGraph,
}

module _ (h : HashOrder) (g : TransactionGraph) (n : TransactionNode) (k : IsGraph g)
    (fresh : IsFresh n) (unknown : has_key (transaction_id n) g.id_to_index ≡ false) where
  content-add_transaction :
      (i : ℕ)
      → content (node_at (add_transaction h g n).0 i)
        ≡ content (get_or (g.nodes ++ n ∷ []) i no_node)
  unfolding add_node
  content-add_transaction i =
      let r = (add_edges (grown g n) (tied h g n) (transaction_id n)).0 in
      let same : (add_transaction h g n).0.nodes ≡ r.nodes =
        ap (λ p. p.0.nodes) (added h g n k fresh unknown)
        ∙ touch_all_nodes (transaction_id n) r (touched h n) in
      ap (λ ns. content (get_or ns i no_node)) same
      ∙ (linked h g n k fresh unknown).1.same_contents i

  length-add_transaction : length (add_transaction h g n).0.nodes ≡ length g.nodes + 1
  length-add_transaction =
      let s = (add_transaction-IsAdded h g n k fresh).size in ground (arith, s, unknown)

  -- The index finds no transaction that is neither old nor the new one.
  still_unknown :
      (id : TransactionId)
      → has_key id g.id_to_index ≡ false
      → transaction_id n ≢ id
      → has_key id (add_transaction h g n).0.id_to_index ≡ false
  still_unknown id u d = elim (Option-cases (lookup id (add_transaction h g n).0.id_to_index)) [
    | inl x ↦ ground (arith, x)
    | inr (j, x) ↦
        let (l, e) = (add_transaction-IsAdded h g n k fresh).valid.found id j x in
        let c : transaction_id (get_or (g.nodes ++ n ∷ []) j no_node) ≡ id =
          sym (ap transaction_id (content-add_transaction j)) ∙ e in
        let at = get_or-append g.nodes (n ∷ []) j in
        let size = length-add_transaction in
        elim (lt_or_le j (length g.nodes)) [
          | inl less ↦
              let c' : transaction_id (node_at g j) ≡ id = ground (arith, c, at, less) in
              let f = k.indexed j less in
              let f' : lookup id g.id_to_index ≡ some j =
                subst (λ z. lookup z g.id_to_index ≡ some j) c' f in
              absurd (ground (arith, f', u))
          | inr more ↦
              let z : j - length g.nodes ≡ 0 = omega arith in
              let c' : transaction_id n ≡ id = ground (arith, c, at, more, z) in absurd (d c')
        ]
  ]

  IsUnknown-tail :
      (ns : List TransactionNode)
      → IsApart (n ∷ ns)
      → IsUnknown g (n ∷ ns)
      → IsUnknown (add_transaction h g n).0 ns
  IsUnknown-tail ns d u i l =
      still_unknown (transaction_id (get_or ns i no_node)) (u (suc i) (omega arith))
        (λ e. let x = d 0 (suc i) (omega arith) (omega arith) e in omega arith)

-- One node before the others.
content-cons :
    (xs ys zs : List TransactionNode) (n : TransactionNode) (i : ℕ)
    → length ys ≡ length xs + 1
    → ((j : ℕ) → content (get_or ys j no_node) ≡ content (get_or (xs ++ n ∷ []) j no_node))
    → content (get_or (ys ++ zs) i no_node) ≡ content (get_or (xs ++ n ∷ zs) i no_node)
content-cons xs ys zs n i l h =
    let p = get_or-append ys zs i in
    let q = get_or-append xs (n ∷ zs) i in
    let s = get_or-append xs (n ∷ []) i in
    let t = h i in
    elim (lt_or_le i (length xs)) [
      | inl less ↦ ground (arith, p, q, s, t, l, less)
      | inr more ↦ elim (zero_or_pos (i - length xs)) [
        | inl z ↦ ground (arith, p, q, s, t, l, more, z)
        | inr pos ↦
            let e : i - length xs ≡ suc (i - length ys) = omega arith in
            ground (arith, p, q, l, more, e)
      ]
    ]

-- What a graph that is built on `g` from new transactions holds.
pub record IsBuilt (g : TransactionGraph) (ns : List TransactionNode) (r : TransactionGraph)
    : Type 0 where
  pub valid : IsGraph r
  pub size : length r.nodes ≡ length g.nodes + length ns
  pub contents : (i : ℕ) → content (node_at r i) ≡ content (get_or (g.nodes ++ ns) i no_node)
  pub found :
      (i : ℕ)
      → i < length ns
      → lookup (transaction_id (get_or ns i no_node)) r.id_to_index ≡ some (length g.nodes + i)

built_contents :
    (h : HashOrder) (g : TransactionGraph) (ns : List TransactionNode)
    → AreFresh ns
    → IsApart ns
    → IsUnknown g ns
    → IsGraph g
    → (length (add_transactions h g ns).nodes ≡ length g.nodes + length ns)
      × ((i : ℕ)
          → content (node_at (add_transactions h g ns) i)
            ≡ content (get_or (g.nodes ++ ns) i no_node))
unfolding add_transactions
built_contents h g [] f d u k =
    (omega arith, λ i. ap (λ xs. content (get_or xs i no_node)) (sym (append-nil g.nodes)))
built_contents h g (n ∷ ns) f d u k =
    let first : has_key (transaction_id n) g.id_to_index ≡ false = u 0 (omega arith) in
    let a = add_transaction-IsAdded h g n k f.0 in
    let size = length-add_transaction h g n k f.0 first in
    let (l, c) =
      built_contents h (add_transaction h g n).0 ns f.1
        (λ i j hi hj e. omega (arith, d (suc i) (suc j) (omega arith) (omega arith) e))
        (IsUnknown-tail h g n k f.0 first ns d u) a.valid in
    (
      omega arith,
      λ i.
          c i
          ∙ content-cons g.nodes (add_transaction h g n).0.nodes ns n i size
              (content-add_transaction h g n k f.0 first),
    )

-- New transactions without edges, no two of which have the same identifier and none of which is in
-- a well-formed graph, are all added by `add_transactions`, in whatever order the hash sets are
-- iterated over. The graph stays well formed and gains one node for each, after the old nodes and
-- in their order. Each node, old or new, is as it was but for its edges, and the index finds each
-- new transaction at its node.
pub add_transactions-IsBuilt :
    (h : HashOrder) (g : TransactionGraph) (ns : List TransactionNode)
    → AreFresh ns
    → IsApart ns
    → IsUnknown g ns
    → IsGraph g
    → IsBuilt g ns (add_transactions h g ns)
add_transactions-IsBuilt h g ns f d u k =
    let (l, c) = built_contents h g ns f d u k in
    let v = add_transactions-IsGraph h g ns f k in
    record {
      valid = v;
      size = l;
      contents = c;
      found = λ i b.
          let x = v.indexed (length g.nodes + i) (omega arith) in
          let e = ap transaction_id (c (length g.nodes + i)) in
          let at = get_or-append g.nodes ns (length g.nodes + i) in
          let z : length g.nodes + i - length g.nodes ≡ i = omega arith in
          let same : transaction_id (node_at (add_transactions h g ns) (length g.nodes + i))
              ≡ transaction_id (get_or ns i no_node) =
            ground (arith, e, at, z) in
          subst (λ t. lookup t (add_transactions h g ns).id_to_index ≡ some (length g.nodes + i))
            same x;
    }
