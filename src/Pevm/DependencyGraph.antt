-- ===== src/Pevm/DependencyGraph.antt =====
-- pevm/crates/pevm/src/dependency_graph.rs: the graph of transactions, and how it is built.
pub mod Keys
pub mod Edges
pub mod Building
pub mod Adding
pub mod Transactions
pub mod Contents
pub mod Conflicts
pub mod Parents
pub mod Integration
pub mod Cycles
pub mod Suffix
mod Tests
use congestion_control.Prelude.{
  ℕ, ◌+◌, ◌-◌, ◌≡◌, Bool, true, false, not, List, [], ◌∷◌, ◌++◌, Option, none, some, arith, ◌==◌,
  ◌&&◌, ==_iff, ◌↔◌, if◌then◌else◌, count, count_if, contains, length, get_or, set, get_elem?,
}
use congestion_control.Prelude.Maps.{Eq, Map, nat_eq, lookup, insert, has_key}
use congestion_control.Pevm.Node.{TransactionId, id_eq, TransactionNode, transaction_id, no_node}
use Keys.{sorted_is_disjoint}

pub id_eq_iff : (a b : TransactionId) → (id_eq a b ≡ true) ↔ (a ≡ b)
id_eq_iff a b = ground (arith, ==_iff a.id b.id, ==_iff a.replica b.replica)

instance abbrev pub transaction_id_eq : Eq TransactionId
transaction_id_eq = record { beq = id_eq; beq_iff = id_eq_iff }

pub record HeapEntry : Type 0 where
  pub longest_suffix : ℕ
  pub tx_id : TransactionId

pub record TransactionGraph : Type 0 where
  pub nodes : List TransactionNode
  pub id_to_index : Map TransactionId ℕ
  pub head_txns : Map ℕ TransactionId
  pub tail_txns : Map ℕ TransactionId
  pub txns_without_parent : List HeapEntry
  pub temp_parents : List ℕ

-- The errors, which the source words as strings.
pub data GraphError : Type 0 where
  parent_not_found : TransactionId → GraphError
  child_not_found : TransactionId → GraphError
  already_exists : TransactionId → GraphError

pub data Result (A : Type 0) : Type 0 where
  ok : A → Result A
  err : GraphError → Result A

-- A hash set is iterated over in an order that is not specified: a permutation of its elements.
pub record HashOrder : Type 0 where
  pub keys : List ℕ → List ℕ
  pub keys_same : (k : ℕ) (xs : List ℕ) → count k (keys xs) ≡ count k xs
  pub ids : List TransactionId → List TransactionId
  pub ids_same :
      (i : TransactionId) (xs : List TransactionId)
      → count_if (id_eq i) (ids xs) ≡ count_if (id_eq i) xs

unfoldable pub empty : TransactionGraph
empty = record {
  nodes = [];
  id_to_index = [];
  head_txns = [];
  tail_txns = [];
  txns_without_parent = [];
  temp_parents = [];
}

unfoldable pub get_node : TransactionGraph → TransactionId → Option TransactionNode
get_node g id = elim (lookup id g.id_to_index) [ none ↦ none | some i ↦ get_elem? g.nodes i ]

unfoldable pub add_node : TransactionGraph → TransactionNode → TransactionGraph × ℕ
add_node g n = (
  record g {
    nodes = g.nodes ++ n ∷ [];
    id_to_index = insert (transaction_id n) (length g.nodes) g.id_to_index;
  },
  length g.nodes,
)

unfoldable pub has_edge : TransactionGraph → TransactionId → TransactionId → Result Bool
has_edge g parent child = elim (lookup parent g.id_to_index) [
  | none ↦ err (parent_not_found parent)
  | some p ↦ elim (lookup child g.id_to_index) [
    | none ↦ err (child_not_found child)
    | some c ↦ ok (contains c (get_or g.nodes p no_node).children_indices)
  ]
]

-- `nodes[p].children_indices.push(c)`
abbrev pub push_child : List TransactionNode → ℕ → ℕ → List TransactionNode
push_child nodes p c =
    let n = get_or nodes p no_node in
    set nodes p (record n { children_indices = n.children_indices ++ c ∷ [] })

abbrev pub push_parent : List TransactionNode → ℕ → ℕ → List TransactionNode
push_parent nodes c p =
    let n = get_or nodes c no_node in
    set nodes c (record n { parent_indices = n.parent_indices ++ p ∷ [] })

-- The indices' part of `add_edge`.
unfoldable pub link : List TransactionNode → ℕ → ℕ → List TransactionNode
link nodes p c =
    if contains c (get_or nodes p no_node).children_indices
    then nodes
    else push_parent (push_child nodes p c) c p

unfoldable pub add_edge :
    TransactionGraph → TransactionId → TransactionId → TransactionGraph × Result (Unit {0})
add_edge g parent child = elim (lookup parent g.id_to_index) [
  | none ↦ (g, err (parent_not_found parent))
  | some p ↦ elim (lookup child g.id_to_index) [
    | none ↦ (g, err (child_not_found child))
    | some c ↦ (record g { nodes = link g.nodes p c }, ok tt)
  ]
]

-- Adding to a hash set what may be there already.
abbrev pub set_insert : ℕ → List ℕ → List ℕ
set_insert k xs = if contains k xs then xs else xs ++ k ∷ []

abbrev pub contains_id : TransactionId → List TransactionId → Bool
contains_id i [] = false
contains_id i (x ∷ xs) = if id_eq x i then true else contains_id i xs

abbrev pub set_insert_id : TransactionId → List TransactionId → List TransactionId
set_insert_id i xs = if contains_id i xs then xs else xs ++ i ∷ []

unfoldable pub extend : List ℕ → List ℕ → List ℕ
extend xs [] = xs
extend xs (k ∷ ks) = extend (set_insert k xs) ks

-- `all_addresses`
unfoldable pub addresses : TransactionNode → List ℕ
addresses n = extend (extend [] n.read_set) n.write_set

-- Step 2, one address: the tail there, if its writes meet those of the new node.
unfoldable pub conflict : TransactionGraph → TransactionNode → ℕ → Option TransactionId
conflict g n addr = elim (lookup addr g.tail_txns) [
  | none ↦ none
  | some tail ↦ elim (get_node g tail) [
    | none ↦ none
    | some t ↦ if not (sorted_is_disjoint t.write_set n.write_set) then some tail else none
  ]
]

unfoldable pub conflicts :
    TransactionGraph → TransactionNode → List TransactionId → List ℕ → List TransactionId
conflicts g n found [] = found
conflicts g n found (a ∷ rest) =
    conflicts g n (elim (conflict g n a) [ none ↦ found | some t ↦ set_insert_id t found ]) rest

-- Step 3: the first error ends the loop.
unfoldable pub add_edges :
    TransactionGraph → List TransactionId → TransactionId → TransactionGraph × Result (Unit {0})
add_edges g [] child = (g, ok tt)
add_edges g (p ∷ ps) child = elim ((add_edge g p child).1) [
  | ok _ ↦ add_edges (add_edge g p child).0 ps child
  | err e ↦ add_edge g p child
]

-- Step 4, one address: the first transaction there is its head, the last its tail.
unfoldable pub touch : TransactionId → TransactionGraph → ℕ → TransactionGraph
touch id g addr = record g {
  head_txns = if has_key addr g.head_txns then g.head_txns else insert addr id g.head_txns;
  tail_txns = insert addr id g.tail_txns;
}

unfoldable pub touch_all : TransactionId → TransactionGraph → List ℕ → TransactionGraph
touch_all id g [] = g
touch_all id g (a ∷ rest) = touch_all id (touch id g a) rest

-- Step 4 and the result, unless an edge could not be added.
finish_transaction :
    TransactionGraph × Result (Unit {0}) → TransactionId → List ℕ → ℕ → TransactionGraph × Result ℕ
finish_transaction (g, err e) id addrs i = (g, err e)
finish_transaction (g, ok _) id addrs i = (touch_all id g addrs, ok i)

unfoldable pub add_transaction :
    HashOrder → TransactionGraph → TransactionNode → TransactionGraph × Result ℕ
unfolding finish_transaction
add_transaction h g n =
    let id = transaction_id n in
    if has_key id g.id_to_index
    then (g, err (already_exists id))
    else (let addrs = h.keys (addresses n) in
        let g' = (add_node g n).0 in
        let parents = h.ids (conflicts g' n [] addrs) in
        finish_transaction (add_edges g' parents id) id addrs (add_node g n).1)

-- The loops that build a graph: the result of each `add_transaction` is dropped.
unfoldable pub add_transactions :
    HashOrder → TransactionGraph → List TransactionNode → TransactionGraph
add_transactions h g [] = g
add_transactions h g (n ∷ ns) = add_transactions h (add_transaction h g n).0 ns
