-- ===== src/Pevm/DependencyGraph/Tests.antt =====
-- The theorems on dependency graphs, at graphs of one or two transactions that write the same key.
use congestion_control.Prelude.{
  ap, ℕ, zero, suc, ◌≡◌, ◌<◌, ◌↔◌, refl, true, false, [], ◌∷◌, arith, length, count, contains, some,
}
use congestion_control.Prelude.Maps.{lookup, insert}
use congestion_control.Pevm.Node.{TransactionNode, no_node}
use congestion_control.Pevm.DependencyGraph.{
  TransactionGraph, HashOrder, empty, add_node, add_transaction, add_transactions, add_edges,
  conflicts, conflict, get_node, addresses, extend, touch_all, touch, add_edge, link,
}
use congestion_control.Pevm.DependencyGraph.Keys.{
  sorted_is_disjoint, sorted_is_disjoint_iff, IsKeySet,
}
use congestion_control.Pevm.DependencyGraph.Building.{node_at, IsGraph, empty-IsGraph}
use congestion_control.Pevm.DependencyGraph.Transactions.{
  IsAdded, add_transaction-IsAdded, add_transactions-IsGraph,
}
use congestion_control.Pevm.DependencyGraph.Parents.{IsTailWriter, new_parents}
use congestion_control.Pevm.DependencyGraph.Integration.{integrate_graph}
use congestion_control.Pevm.DependencyGraph.Integration.Appending.{IsUnknown, IsApart}
use congestion_control.Pevm.DependencyGraph.Contents.{IsBuilt, add_transactions-IsBuilt}
use congestion_control.Pevm.DependencyGraph.Integration.Integrated.{
  IsIntegrated, integrate_graph-IsIntegrated,
}
use congestion_control.Pevm.DependencyGraph.Cycles.{has_cycle, has_cycle-IsGraph}
use congestion_control.Pevm.DependencyGraph.Suffix.{update_longest_suffix_postorder}
use congestion_control.Pevm.DependencyGraph.Suffix.Walks.{IsLongest}
use congestion_control.Pevm.DependencyGraph.Suffix.Update.{
  IsUpdated, update_longest_suffix-IsUpdated,
}
use congestion_control.Pevm.GraphScheduler.{parents_of}

abbrev in_order : HashOrder
in_order = record {
  keys = λ ks. ks;
  keys_same = λ k ks. refl;
  ids = λ is. is;
  ids_same = λ i is. refl;
}

abbrev writer : ℕ → ℕ → TransactionNode
writer id replica = record no_node { id = id; replica = replica; write_set = 9 ∷ [] }

abbrev one : TransactionGraph
one = (add_transaction in_order empty (writer 0 0)).0

abbrev other : TransactionGraph
other = (add_transaction in_order empty (writer 0 1)).0

run_functions : ℕ
unfolding empty add_transaction add_node lookup insert conflicts conflict get_node addresses extend
    add_edges touch_all touch add_edge link sorted_is_disjoint
run_functions = 0

one-IsAdded : IsAdded empty (writer 0 0) (add_transaction in_order empty (writer 0 0))
one-IsAdded = add_transaction-IsAdded in_order empty (writer 0 0) empty-IsGraph (refl, refl)

other-IsAdded : IsAdded empty (writer 0 1) (add_transaction in_order empty (writer 0 1))
other-IsAdded = add_transaction-IsAdded in_order empty (writer 0 1) empty-IsGraph (refl, refl)

two_writers-IsApart : IsApart (writer 0 0 ∷ writer 1 0 ∷ [])
two_writers-IsApart zero zero a b e = refl
two_writers-IsApart zero (suc zero) a b e = absurd (ground (arith, ap (λ t. t.id) e))
two_writers-IsApart (suc zero) zero a b e = absurd (ground (arith, ap (λ t. t.id) e))
two_writers-IsApart (suc zero) (suc zero) a b e = refl
two_writers-IsApart zero (suc (suc j)) a b e = absurd (omega arith)
two_writers-IsApart (suc zero) (suc (suc j)) a b e = absurd (omega arith)
two_writers-IsApart (suc (suc i)) j a b e = absurd (omega arith)

add_transactions-IsBuilt_example :
    IsBuilt empty
      (writer 0 0 ∷ writer 1 0 ∷ [])
      (add_transactions in_order empty (writer 0 0 ∷ writer 1 0 ∷ []))
unfolding lookup empty
add_transactions-IsBuilt_example =
    add_transactions-IsBuilt in_order empty (writer 0 0 ∷ writer 1 0 ∷ [])
      ((refl, refl), ((refl, refl), tt)) two_writers-IsApart (λ i l. refl) empty-IsGraph

sorted_is_disjoint_iff_example :
    (sorted_is_disjoint (1 ∷ 4 ∷ []) (2 ∷ 4 ∷ []) ≡ true)
    ↔ ((k : ℕ) → contains k (1 ∷ 4 ∷ []) ≡ true → contains k (2 ∷ 4 ∷ []) ≡ false)
sorted_is_disjoint_iff_example =
    sorted_is_disjoint_iff (1 ∷ 4 ∷ []) (2 ∷ 4 ∷ []) ((omega arith, tt), (tt, tt))
      ((omega arith, tt), (tt, tt))

one_sorted : (i : ℕ) → IsKeySet (node_at one i).write_set
unfolding run_functions
one_sorted zero = (tt, tt)
one_sorted (suc i) = tt

new_parents_example :
    (0
      < count 0 (parents_of (add_transaction in_order one (writer 1 0)).0.nodes (length one.nodes)))
    ↔ IsTailWriter one (writer 1 0) 0
unfolding run_functions
new_parents_example =
    new_parents in_order one (writer 1 0) one-IsAdded.valid one_sorted (tt, tt) (refl, refl) refl 0

disjoint : IsUnknown one other.nodes
unfolding run_functions
disjoint zero h = refl
disjoint (suc i) h = absurd (omega arith)

integrate_graph-IsIntegrated_example : IsIntegrated one other (integrate_graph in_order one other)
integrate_graph-IsIntegrated_example =
    integrate_graph-IsIntegrated in_order one other one-IsAdded.valid other-IsAdded.valid disjoint

has_cycle-IsGraph_example : has_cycle one ≡ some false
has_cycle-IsGraph_example = has_cycle-IsGraph one one-IsAdded.valid

abbrev costly : ℕ → ℕ → TransactionNode
costly id gas = record (writer id 0) { gas_cost = gas }

abbrev path : TransactionGraph
path = add_transactions in_order empty (costly 0 10 ∷ costly 1 20 ∷ [])

path-IsGraph : IsGraph path
path-IsGraph =
    add_transactions-IsGraph in_order empty (costly 0 10 ∷ costly 1 20 ∷ [])
      ((refl, refl), ((refl, refl), tt)) empty-IsGraph

abbrev path_gas : ℕ → ℕ
path_gas zero = 30
path_gas (suc i) = 20

path-IsLongest : IsLongest path.nodes path_gas
unfolding run_functions add_transactions
path-IsLongest zero h = refl
path-IsLongest (suc zero) h = refl
path-IsLongest (suc (suc i)) h = absurd (omega arith)

update_longest_suffix-IsUpdated_example :
    IsUpdated path path_gas (update_longest_suffix_postorder path)
unfolding run_functions add_transactions
update_longest_suffix-IsUpdated_example =
    update_longest_suffix-IsUpdated path path_gas path-IsGraph (omega arith) path-IsLongest
