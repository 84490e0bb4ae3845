-- ===== src/Pevm/DependencyGraph/Integration/Appending.antt =====
-- Steps 2 and 3 of `integrate_graph`: where the nodes and the index entries of both graphs end up.
use congestion_control.Prelude.{
  ℕ, zero, suc, ◌+◌, ◌-◌, ◌≡◌, ◌≤◌, ◌<◌, refl, sym, ◌∙◌, false, List, [], ◌∷◌, ◌++◌, map,
  append-nil, append_assoc, arith, ◌&&◌, ltb, leb, if◌then◌else◌, count, length, length-append,
  length-set, get_or, some, get_or-set, get_or-snoc, get_or_beyond, set, inl, inr, zero_or_pos,
  lt_or_le,
}
use congestion_control.Prelude.Maps.{nat_eq, lookup, lookup-insert, has_key}
use congestion_control.Pevm.Node.{TransactionId, TransactionNode, transaction_id, no_node}
use congestion_control.Pevm.DependencyGraph.{
  TransactionGraph, transaction_id_eq, id_eq_iff, add_node,
}
use congestion_control.Pevm.DependencyGraph.Building.{node_at}
use congestion_control.Pevm.DependencyGraph.Adding.{id_eq_refl}
use congestion_control.Pevm.DependencyGraph.Integration.{
  append_nodes, remap_node, remap, append_graph,
}

pub length-remap :
    (base i : ℕ) (srcs nodes : List TransactionNode)
    → length (remap base i srcs nodes) ≡ length nodes
unfolding remap
length-remap base i [] nodes = refl
length-remap base i (src ∷ rest) nodes =
    length-remap base (i + 1) rest _ ∙ length-set nodes (base + i) _

-- Each node of the second graph has its edges shifted, and the rest of it and of the list stays.
remap_at :
    (base i : ℕ) (srcs nodes : List TransactionNode) (j : ℕ)
    → base + i + length srcs ≤ length nodes
    → get_or (remap base i srcs nodes) j no_node ≡ (
        if leb (base + i) j && ltb j (base + i + length srcs)
        then remap_node base (get_or srcs (j - (base + i)) no_node) (get_or nodes j no_node)
        else get_or nodes j no_node)
unfolding remap
remap_at base i [] nodes j l = ground arith
remap_at base i (src ∷ rest) nodes j l =
    let n' = remap_node base src (get_or nodes (base + i) no_node) in
    let ih =
      remap_at base (i + 1) rest (set nodes (base + i) n') j
        (omega (arith, length-set nodes (base + i) n')) in
    let at = get_or-set nodes (base + i) j n' no_node in
    elim (lt_or_le j (base + i)) [
      | inl less ↦ ground arith
      | inr more ↦ elim (zero_or_pos (j - (base + i))) [
        | inl z ↦ let e : base + i ≡ j = omega arith in ground arith
        | inr p ↦ let e : j - (base + i) ≡ suc (j - (base + (i + 1))) = omega arith in ground arith
      ]
    ]

pub count-shift :
    (base a : ℕ) (xs : List ℕ)
    → count a (map (λ c. base + c) xs) ≡ (if leb base a then count (a - base) xs else 0)
count-shift base a [] = ground arith
count-shift base a (x ∷ xs) = ground (arith, count-shift base a xs)

pub append_nodes-nodes :
    (g : TransactionGraph) (ns : List TransactionNode) → (append_nodes g ns).nodes ≡ g.nodes ++ ns
unfolding append_nodes add_node
append_nodes-nodes g [] = sym (append-nil g.nodes)
append_nodes-nodes g (n ∷ ns) =
    append_nodes-nodes (add_node g n).0 ns ∙ append_assoc g.nodes (n ∷ []) ns

pub append_nodes-ends :
    (g : TransactionGraph) (ns : List TransactionNode)
    → ((append_nodes g ns).head_txns ≡ g.head_txns) × ((append_nodes g ns).tail_txns ≡ g.tail_txns)
unfolding append_nodes add_node
append_nodes-ends g [] = (refl, refl)
append_nodes-ends g (n ∷ ns) = append_nodes-ends (add_node g n).0 ns

pub get_or-append :
    (xs ys : List TransactionNode) (j : ℕ)
    → get_or (xs ++ ys) j no_node
      ≡ (if ltb j (length xs) then get_or xs j no_node else get_or ys (j - length xs) no_node)
get_or-append [] ys j = ground arith
get_or-append (x ∷ xs) ys zero = ground arith
get_or-append (x ∷ xs) ys (suc j) = ground (arith, get_or-append xs ys j)

pub appended_at :
    (g other : TransactionGraph) (j : ℕ)
    → node_at (append_graph g other) j ≡ (
        if ltb j (length g.nodes)
        then node_at g j
        else remap_node
            (length g.nodes)
            (node_at other (j - length g.nodes))
            (node_at other (j - length g.nodes)))
unfolding append_graph
appended_at g other j =
    let e = append_nodes-nodes g other.nodes in
    let l = length-append g.nodes other.nodes in
    let a = get_or-append g.nodes other.nodes j in
    let r = remap_at (length g.nodes) 0 other.nodes (g.nodes ++ other.nodes) j (omega arith) in
    let z : length g.nodes + 0 ≡ length g.nodes = omega arith in
    let b = get_or_beyond other.nodes (j - length g.nodes) no_node in rw e (ground arith)

pub record IsIndexed (g : TransactionGraph) : Type 0 where
  pub indexed :
      (i : ℕ) → i < length g.nodes → lookup (transaction_id (node_at g i)) g.id_to_index ≡ some i
  pub found :
      (id : TransactionId) (i : ℕ)
      → lookup id g.id_to_index ≡ some i
      → (i < length g.nodes) × (transaction_id (node_at g i) ≡ id)

add_node-IsIndexed :
    (g : TransactionGraph) (n : TransactionNode)
    → IsIndexed g
    → has_key (transaction_id n) g.id_to_index ≡ false
    → IsIndexed (add_node g n).0
unfolding add_node
add_node-IsIndexed g n k u =
    let id = transaction_id n in
    let size = length-append g.nodes (n ∷ []) in
    record {
      indexed = λ i h.
          let at = get_or-snoc g.nodes n i no_node in
          ground (
            arith,
            k.indexed i,
            lookup-insert id (transaction_id (node_at g i)) (length g.nodes) g.id_to_index,
            lookup-insert id id (length g.nodes) g.id_to_index,
            id_eq_iff id (transaction_id (node_at g i)),
            id_eq_refl id,
          );
      found = λ j i e.
          let at = get_or-snoc g.nodes n i no_node in
          ground
            (arith, k.found j i, lookup-insert id j (length g.nodes) g.id_to_index, id_eq_iff id j);
    }

-- No two of the nodes have the same identifier.
abbrev pub IsApart : List TransactionNode → Type 0
IsApart ns =
    (i j : ℕ)
    → i < length ns
    → j < length ns
    → transaction_id (get_or ns i no_node) ≡ transaction_id (get_or ns j no_node)
    → i ≡ j

abbrev pub IsUnknown : TransactionGraph → List TransactionNode → Type 0
IsUnknown g ns =
    (i : ℕ) → i < length ns → has_key (transaction_id (get_or ns i no_node)) g.id_to_index ≡ false

add_node-IsUnknown :
    (g : TransactionGraph) (n : TransactionNode) (ns : List TransactionNode)
    → IsApart (n ∷ ns)
    → IsUnknown g (n ∷ ns)
    → IsUnknown (add_node g n).0 ns
unfolding add_node
add_node-IsUnknown g n ns d u i h =
    let id = transaction_id (get_or ns i no_node) in
    let other = lookup-insert (transaction_id n) id (length g.nodes) g.id_to_index in
    let apart = d 0 (suc i) (omega arith) (omega arith) in
    let old = u (suc i) (omega arith) in let same = id_eq_iff (transaction_id n) id in ground arith

add_node_keeps :
    (g : TransactionGraph) (n : TransactionNode) (id : TransactionId) (i : ℕ)
    → has_key (transaction_id n) g.id_to_index ≡ false
    → lookup id g.id_to_index ≡ some i
    → lookup id (add_node g n).0.id_to_index ≡ some i
unfolding add_node
add_node_keeps g n id i u e =
    let other = lookup-insert (transaction_id n) id (length g.nodes) g.id_to_index in
    ground (arith, id_eq_iff (transaction_id n) id)

pub append_nodes-IsIndexed :
    (g : TransactionGraph) (ns : List TransactionNode)
    → IsIndexed g
    → IsApart ns
    → IsUnknown g ns
    → IsIndexed (append_nodes g ns)
      × ((id : TransactionId) (i : ℕ)
          → lookup id g.id_to_index ≡ some i
          → lookup id (append_nodes g ns).id_to_index ≡ some i)
unfolding append_nodes
append_nodes-IsIndexed g [] k d u = (k, λ id i e. e)
append_nodes-IsIndexed g (n ∷ ns) k d u =
    let first = u 0 (omega arith) in
    let (k', keeps) =
      append_nodes-IsIndexed (add_node g n).0 ns (add_node-IsIndexed g n k first)
        (λ i j hi hj e. omega (arith, d (suc i) (suc j) (omega arith) (omega arith) e))
        (add_node-IsUnknown g n ns d u) in
    (k', λ id i e. keeps id i (add_node_keeps g n id i first e))
