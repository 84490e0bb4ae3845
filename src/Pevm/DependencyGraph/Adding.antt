-- ===== src/Pevm/DependencyGraph/Adding.antt =====
-- The steps of `add_transaction` of dependency_graph.rs: its edges, and the conflicts that they are for.
use congestion_control.Prelude.{
  ℕ, ◌≡◌, ◌<◌, refl, sym, ap, ◌∙◌, true, List, [], ◌∷◌, arith, count, count_if, count_if-append,
  length, get_or, some, Bool-cases, inl, inr, ◌⊎◌, Option-cases,
}
use congestion_control.Prelude.Maps.{Map, nat_eq, lookup}
use congestion_control.Pevm.Node.{TransactionId, id_eq, TransactionNode, transaction_id, no_node}
use congestion_control.Pevm.DependencyGraph.{
  TransactionGraph, ok, transaction_id_eq, id_eq_iff, link, add_edge, add_edges, conflict,
  conflicts, set_insert_id, contains_id,
}
use congestion_control.Pevm.DependencyGraph.Edges.{
  length-link, link-IsMirrored, link-IsForward, content, content-link,
}
use congestion_control.Pevm.DependencyGraph.Building.{IsBelow, IsGraph}

id-link :
    (nodes : List TransactionNode) (p c i : ℕ)
    → transaction_id (get_or (link nodes p c) i no_node) ≡ transaction_id (get_or nodes i no_node)
id-link nodes p c i = ap transaction_id (content-link nodes p c i)

pub link-IsGraph :
    (g : TransactionGraph) (p c : ℕ)
    → p < c
    → c < length g.nodes
    → IsGraph g
    → IsGraph (record g { nodes = link g.nodes p c })
link-IsGraph g p c l h k = record {
  indexed = λ i hi.
      let w : i < length g.nodes = omega (arith, length-link g.nodes p c) in
      ap (λ id. lookup id g.id_to_index) (id-link g.nodes p c i) ∙ k.indexed i w;
  found = λ id i e.
      let (w, same) = k.found id i e in
      (omega (arith, length-link g.nodes p c), id-link g.nodes p c i ∙ same);
  mirrored = link-IsMirrored g.nodes p c (omega arith) h k.mirrored;
  forward = link-IsForward g.nodes p c (omega arith) h l k.forward;
  heads = k.heads;
  tails = k.tails;
}

-- Every identifier of the list is of a node below the bound.
abbrev pub IsKnown : Map TransactionId ℕ → ℕ → List TransactionId → Type 0
IsKnown index n xs = (id : TransactionId) → 0 < count_if (id_eq id) xs → IsBelow index n id

pub id_eq_refl : (id : TransactionId) → id_eq id id ≡ true
id_eq_refl id = (id_eq_iff id id).1 refl

-- What the edges of one transaction leave: the well-formed graph, its index and ends as they were.
pub record IsLinked (g r : TransactionGraph) : Type 0 where
  pub valid : IsGraph r
  pub same_index : r.id_to_index ≡ g.id_to_index
  pub same_heads : r.head_txns ≡ g.head_txns
  pub same_tails : r.tail_txns ≡ g.tail_txns
  pub same_length : length r.nodes ≡ length g.nodes
  pub same_contents :
      (i : ℕ) → content (get_or r.nodes i no_node) ≡ content (get_or g.nodes i no_node)

pub add_edges_nil : (g : TransactionGraph) (id : TransactionId) → add_edges g [] id ≡ (g, ok tt)
unfolding add_edges
add_edges_nil g id = refl

pub add_edges_cons :
    (g : TransactionGraph) (p : TransactionId) (ps : List TransactionId) (id : TransactionId)
    (i c : ℕ)
    → lookup p g.id_to_index ≡ some i
    → lookup id g.id_to_index ≡ some c
    → add_edges g (p ∷ ps) id ≡ add_edges (record g { nodes = link g.nodes i c }) ps id
unfolding add_edges add_edge
add_edges_cons g p ps id i c ei e = ground arith

-- Edges to one child `c`, from known transactions below it, are all added.
pub add_edges-IsLinked :
    (g : TransactionGraph) (ps : List TransactionId) (id : TransactionId) (c : ℕ)
    → IsGraph g
    → lookup id g.id_to_index ≡ some c
    → IsKnown g.id_to_index c ps
    → ((add_edges g ps id).1 ≡ ok tt) × IsLinked g (add_edges g ps id).0
add_edges-IsLinked g [] id c k e h = rw (add_edges_nil g id) (
  refl,
  record {
    valid = k;
    same_index = refl;
    same_heads = refl;
    same_tails = refl;
    same_length = refl;
    same_contents = λ i. refl;
  },
)
add_edges-IsLinked g (p ∷ ps) id c k e h =
    let known = h p (ground (arith, id_eq_refl p)) in
    let g' = record g { nodes = link g.nodes known.0 c } in
    let k' = link-IsGraph g known.0 c known.2 (k.found id c e).0 k in
    let (good, r) = add_edges-IsLinked g' ps id c k' e (λ q w. h q (ground arith)) in
    rw (add_edges_cons g p ps id known.0 c known.1 e) (
      good,
      record {
        valid = r.valid;
        same_index = r.same_index;
        same_heads = r.same_heads;
        same_tails = r.same_tails;
        same_length = r.same_length ∙ length-link g.nodes known.0 c;
        same_contents = λ i. r.same_contents i ∙ content-link g.nodes known.0 c i;
      },
    )

-- The tails that conflict are identifiers of the graph's index.
pub conflict-known :
    (g : TransactionGraph) (n : TransactionNode) (a : ℕ) (id : TransactionId)
    → conflict g n a ≡ some id
    → lookup a g.tail_txns ≡ some id
unfolding conflict
conflict-known g n a id e = ground arith

pub count-set_insert_id :
    (i j : TransactionId) (xs : List TransactionId)
    → 0 < count_if (id_eq i) (set_insert_id j xs)
    → (i ≡ j) ⊎ (0 < count_if (id_eq i) xs)
count-set_insert_id i j xs h = elim (Bool-cases (contains_id j xs)) [
  | inl e ↦ inr (ground arith)
  | inr e ↦ ground (arith, count_if-append (id_eq i) xs (j ∷ []), id_eq_iff i j)
]

-- Whatever the loop over the addresses finds is a tail of an address, or was found before.
pub conflicts-known :
    (g : TransactionGraph) (n : TransactionNode) (found : List TransactionId) (addrs : List ℕ)
    (id : TransactionId)
    → 0 < count_if (id_eq id) (conflicts g n found addrs)
    → (0 < count_if (id_eq id) found) ⊎ ((a : ℕ) × (0 < count a addrs) × (conflict g n a ≡ some id))
unfolding conflicts
conflicts-known g n found [] id h = inl h
conflicts-known g n found (a ∷ rest) id h = elim (Option-cases (conflict g n a)) [
  | inl e ↦ elim (conflicts-known g n found rest id (rw e at h)) [
    | inl w ↦ inl w
    | inr (b, w, x) ↦ inr (b, omega arith, x)
  ]
  | inr (t, e) ↦ elim (conflicts-known g n (set_insert_id t found) rest id (rw e at h)) [
    | inl w ↦ elim (count-set_insert_id id t found w) [
      | inl same ↦ inr (a, ground arith, e ∙ ap some (sym same))
      | inr old ↦ inl old
    ]
    | inr (b, w, x) ↦ inr (b, omega arith, x)
  ]
]
