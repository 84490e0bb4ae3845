-- ===== src/Pevm/DependencyGraph/Parents.antt =====
-- `add_transaction` of dependency_graph.rs: which parents the new node gets.
use congestion_control.Prelude.{
  ℕ, ◌+◌, ◌≡◌, ◌<◌, ◌↔◌, sym, subst, true, false, not, List, [], ◌∷◌, ◌++◌, arith, if◌then◌else◌,
  count, count_if, contains, contains-count, length, length-append, get_or, some, none, get_or-set,
  get_or-snoc, length-set, get_elem?-get_or, count-append, count-contains, Bool-cases, inl, inr,
  ◌⊎◌, Option-cases,
}
use congestion_control.Prelude.Maps.{Map, nat_eq, lookup, lookup-insert, has_key}
use congestion_control.Pevm.Node.{TransactionId, id_eq, TransactionNode, transaction_id, no_node}
use congestion_control.Pevm.DependencyGraph.{
  TransactionGraph, HashOrder, transaction_id_eq, id_eq_iff, add_node, link, push_child, add_edges,
  conflict, addresses, add_transaction, get_node,
}
use congestion_control.Pevm.GraphScheduler.{parents_of, children_of}
use congestion_control.Pevm.GraphScheduler.Invariant.{IsMirrored}
use congestion_control.Pevm.DependencyGraph.Building.{
  node_at, IsGraph, IsFresh, added_at, add_node-IsGraph,
}
use congestion_control.Pevm.DependencyGraph.Keys.{sorted_is_disjoint, IsKeySet, shared_key, overlap}
use congestion_control.Pevm.DependencyGraph.Adding.{
  IsKnown, id_eq_refl, add_edges_nil, add_edges_cons, link-IsGraph, conflict-known, conflicts-known,
}
use congestion_control.Pevm.DependencyGraph.Transactions.{
  grown, touched, tied, linked, found_self, added, tied-IsKnown, touch_all_nodes,
}
use congestion_control.Pevm.DependencyGraph.Conflicts.{conflicts-finds, count-addresses}

-- The edge is there afterwards, and no other is new.
link-parents :
    (nodes : List TransactionNode) (p c q : ℕ)
    → c < length nodes
    → IsMirrored nodes
    → (0 < count q (parents_of (link nodes p c) c)) ↔ ((0 < count q (parents_of nodes c)) ⊎ (q ≡ p))
unfolding link
link-parents nodes p c q l m =
    let n = get_or nodes p no_node in
    let n' = record n { children_indices = n.children_indices ++ c ∷ [] } in
    let nodes' = push_child nodes p c in
    let mm = get_or nodes' c no_node in
    let m' = record mm { parent_indices = mm.parent_indices ++ p ∷ [] } in
    ground (
      arith,
      get_or-set nodes p c n' no_node,
      get_or-set nodes' c c m' no_node,
      length-set nodes p n',
      m p c,
      count-contains c (children_of nodes p),
      contains-count c (children_of nodes p),
      count-append q (parents_of nodes' c) (p ∷ []),
    )

-- A known transaction of the list, at the index.
abbrev IsAmong : Map TransactionId ℕ → List TransactionId → ℕ → Type 0
IsAmong index ps q =
    (id : TransactionId) × (0 < count_if (id_eq id) ps) × (lookup id index ≡ some q)

module _ (id : TransactionId) (c q : ℕ) where
  add_edges-parents :
      (g : TransactionGraph) (ps : List TransactionId)
      → IsGraph g
      → lookup id g.id_to_index ≡ some c
      → IsKnown g.id_to_index c ps
      → (0 < count q (parents_of (add_edges g ps id).0.nodes c))
        ↔ ((0 < count q (parents_of g.nodes c)) ⊎ IsAmong g.id_to_index ps q)
  add_edges-parents g [] k e h =
      rw (add_edges_nil g id)
        (inl, λ w. elim w [ inl x ↦ x | inr (j, l, _) ↦ absurd (omega arith) ])
  add_edges-parents g (p ∷ ps) k e h =
      let known = h p (ground (arith, id_eq_refl p)) in
      let g' = record g { nodes = link g.nodes known.0 c } in
      let k' = link-IsGraph g known.0 c known.2 (k.found id c e).0 k in
      let rest = add_edges-parents g' ps k' e (λ j w. h j (ground arith)) in
      let first = link-parents g.nodes known.0 c q (k.found id c e).0 k.mirrored in
      rw (add_edges_cons g p ps id known.0 c known.1 e) (
        λ w. elim (rest.0 w) [
          | inl x ↦ elim (first.0 x) [
            | inl y ↦ inl y
            | inr y ↦ inr (p, ground (arith, id_eq_refl p), ground arith)
          ]
          | inr (j, l, f) ↦ inr (j, omega arith, f)
        ],
        λ w. elim w [
          | inl x ↦ rest.1 (inl (first.1 (inl x)))
          | inr (j, l, f) ↦ elim (Bool-cases (id_eq j p)) [
            | inl same ↦
                let jp = (id_eq_iff j p).0 same in rest.1 (inl (first.1 (inr (ground arith))))
            | inr other ↦ rest.1 (inr (j, ground arith, f))
          ]
        ],
      )

-- What makes the transaction at `p` a parent of the new one: it is the tail of an address that the
-- new one touches, and both write some key.
abbrev pub IsTailWriter : TransactionGraph → TransactionNode → ℕ → Type 0
IsTailWriter g n p =
    (a : ℕ) × (id : TransactionId) × (k : ℕ) × (0 < count a n.read_set + count a n.write_set)
    × (lookup a g.tail_txns ≡ some id)
    × (lookup id g.id_to_index ≡ some p)
    × (contains k (node_at g p).write_set ≡ true)
    × (contains k n.write_set ≡ true)

module _ (h : HashOrder) (g : TransactionGraph) (n : TransactionNode) (k : IsGraph g)
    (sorted : (i : ℕ) → IsKeySet (node_at g i).write_set) (new_sorted : IsKeySet n.write_set)
    (fresh : IsFresh n) (unknown : has_key (transaction_id n) g.id_to_index ≡ false) where
  -- What is found in the graph that has the new node already, in terms of the old graph.
  conflict_at :
      (a p : ℕ) (id : TransactionId)
      → lookup a g.tail_txns ≡ some id
      → lookup id g.id_to_index ≡ some p
      → (lookup id (grown g n).id_to_index ≡ some p)
        × (conflict (grown g n) n a ≡ (
            if not (sorted_is_disjoint (node_at g p).write_set n.write_set) then some id else none))
  unfolding add_node conflict get_node
  conflict_at a p id e f =
      let (l, _) = k.found id p f in
      let other = lookup-insert (transaction_id n) id (length g.nodes) g.id_to_index in
      let q : lookup id (grown g n).id_to_index ≡ some p =
        ground (arith, id_eq_iff (transaction_id n) id) in
      let at =
        get_elem?-get_or (grown g n).nodes p no_node
          (omega (arith, length-append g.nodes (n ∷ []))) in
      let same = get_or-snoc g.nodes n p no_node in (q, ground arith)

  conflict-old :
      (a p : ℕ) (id : TransactionId)
      → conflict (grown g n) n a ≡ some id
      → lookup id (grown g n).id_to_index ≡ some p
      → (lookup a g.tail_txns ≡ some id)
        × (lookup id g.id_to_index ≡ some p)
        × (sorted_is_disjoint (node_at g p).write_set n.write_set ≡ false)
  unfolding add_node
  conflict-old a p id e f =
      let t : lookup a g.tail_txns ≡ some id = conflict-known (grown g n) n a id e in
      let known = k.tails a id t in
      elim (Option-cases (lookup id g.id_to_index)) [
        | inl x ↦ absurd (ground arith)
        | inr (p', x) ↦
            let (q, c) = conflict_at a p' id t x in
            let same : p' ≡ p = ground arith in (t, ground arith, ground arith)
      ]

  -- A transaction that `add_transaction` adds gets as parents exactly the transactions that are the
  -- tail of an address that it reads or writes and that write a key that it writes. The graph is well
  -- formed, its write sets and the new one are sorted, and the new node has no edges.
  pub new_parents :
      (p : ℕ)
      → (0 < count p (parents_of (add_transaction h g n).0.nodes (length g.nodes)))
        ↔ IsTailWriter g n p
  unfolding add_node
  new_parents p =
      let id = transaction_id n in
      let (_, l) = linked h g n k fresh unknown in
      let known = tied-IsKnown h g n k fresh unknown in
      let gk = add_node-IsGraph g n k fresh unknown in
      let edges =
        add_edges-parents id (length g.nodes) p (grown g n) (tied h g n) gk
          (found_self h g n k fresh unknown) known in
      let at = added_at g n k fresh unknown (length g.nodes) in
      let nodes = touch_all_nodes id (add_edges (grown g n) (tied h g n) id).0 (touched h n) in
      rw (added h g n k fresh unknown, nodes)
        (
          λ w. elim (edges.0 w) [
            | inl x ↦ absurd (ground arith)
            | inr (j, c, f) ↦
                elim (conflicts-known (grown g n) n [] (touched h n) j
                  (subst (λ m. 0 < m) (h.ids_same j _) c)) [
                    | inl z ↦ absurd (ground arith)
                    | inr (a, w', e) ↦
                        let (t, x, d) = conflict-old a p j e f in
                        let (key, c1, c2) = shared_key _ _ d in
                        let u =
                          (count-addresses a n).0
                            (subst (λ m. 0 < m) (h.keys_same a (addresses n)) w') in
                        (a, j, key, u, t, x, c1, c2)
                  ]
          ],
          λ (a, j, key, u, t, x, c1, c2).
              let d = overlap _ _ key (sorted p) new_sorted c1 c2 in
              let (q, c) = conflict_at a p j t x in
              let w' =
                subst (λ m. 0 < m) (sym (h.keys_same a (addresses n)))
                  ((count-addresses a n).1 u) in
              let fd = conflicts-finds (grown g n) n (touched h n) [] a j w' (ground arith) in
              edges.1 (inr (j, subst (λ m. 0 < m) (sym (h.ids_same j _)) fd, q)),
        )
