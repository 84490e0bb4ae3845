-- ===== src/Pevm/GraphPevm/Tests.antt =====
-- The theorems on the executor's graphs, at a block of two transactions that write the same key.
use congestion_control.Prelude.{
  ℕ, ◌≡◌, ◌<◌, ◌⊎◌, refl, true, false, List, [], ◌∷◌, arith, length, count, ◌==◌, ◌%◌,
  if◌then◌else◌,
}
use congestion_control.Pevm.Types.{BitFlags, Task, is_validated}
use congestion_control.Pevm.Node.{TransactionId}
use congestion_control.Pevm.DependencyGraph.{HashOrder, TransactionGraph}
use congestion_control.Pevm.DependencyGraph.Keys.{IsKeySet}
use congestion_control.Pevm.GraphPevm.{
  Executed, construct, reorder, new_node, construct_no_deadlock, reorder_no_deadlock,
  new_node-IsKeySet, IsDistinct,
}
use congestion_control.Pevm.GraphScheduler.{new, stop, found, next_task, status_at}
use congestion_control.Pevm.GraphScheduler.Workers.{begin}

abbrev in_order : HashOrder
in_order = record {
  keys = λ ks. ks;
  keys_same = λ k ks. refl;
  ids = λ is. is;
  ids_same = λ i is. refl;
}

abbrev lowest_bit : BitFlags
lowest_bit = record {
  contains = λ flags flag. if flag == 0 then true else (flags % 2 == 1);
  contains_empty = λ flags. refl;
  contains_lowest = λ flags. refl;
}

abbrev result : ℕ → Executed
result gas = record { cumulative_gas_used = gas; read_set = 3 ∷ []; write_set = 9 ∷ [] }

abbrev results : List Executed
results = result 10 ∷ result 30 ∷ []

abbrev graph : TransactionGraph
graph = construct in_order 0 results

abbrev order : List TransactionId
order = record { id = 1; replica = 0 } ∷ record { id = 0; replica = 0 } ∷ []

construct_no_deadlock_example :
    ((t : Task) × ((next_task (false ∷ []) (new (length graph.nodes) graph.nodes)).1 ≡ found t))
    ⊎ ((next_task (false ∷ []) (new (length graph.nodes) graph.nodes)
          ≡ (new (length graph.nodes) graph.nodes, stop))
        × ((i : ℕ)
            → i < length graph.nodes
            → is_validated (status_at (new (length graph.nodes) graph.nodes) i).status ≡ true)
        × ((new (length graph.nodes) graph.nodes).num_validated ≡ length graph.nodes))
unfolding new
construct_no_deadlock_example =
    construct_no_deadlock in_order 0 results lowest_bit begin refl refl []

reorder_no_deadlock_example :
    ((t : Task) × ((next_task (false ∷ []) (
          new
            (length (reorder in_order graph order).1.nodes)
            (reorder in_order graph order).1.nodes)).1
        ≡ found t))
    ⊎ ((next_task (false ∷ []) (
            new
              (length (reorder in_order graph order).1.nodes)
              (reorder in_order graph order).1.nodes)
          ≡ (
            new
                (length (reorder in_order graph order).1.nodes)
                (reorder in_order graph order).1.nodes,
            stop,
          ))
        × ((i : ℕ)
            → i < length (reorder in_order graph order).1.nodes
            → is_validated
                (status_at
                  (new
                    (length (reorder in_order graph order).1.nodes)
                    (reorder in_order graph order).1.nodes)
                  i).status
              ≡ true)
        × ((new
              (length (reorder in_order graph order).1.nodes)
              (reorder in_order graph order).1.nodes).num_validated
            ≡ length (reorder in_order graph order).1.nodes))
unfolding new
reorder_no_deadlock_example = reorder_no_deadlock in_order graph order lowest_bit begin refl refl []

two_keys : IsDistinct (9 ∷ 3 ∷ [])
two_keys k = ground arith

one_key : IsDistinct (9 ∷ [])
one_key k = ground arith

new_node-IsKeySet_example :
    IsKeySet (new_node in_order 0 0 1 21000 (9 ∷ 3 ∷ []) (9 ∷ [])).read_set
    × IsKeySet (new_node in_order 0 0 1 21000 (9 ∷ 3 ∷ []) (9 ∷ [])).write_set
    × ((k : ℕ)
        → count k (new_node in_order 0 0 1 21000 (9 ∷ 3 ∷ []) (9 ∷ [])).read_set
          ≡ count k (9 ∷ 3 ∷ []))
    × ((k : ℕ)
        → count k (new_node in_order 0 0 1 21000 (9 ∷ 3 ∷ []) (9 ∷ [])).write_set
          ≡ count k (9 ∷ []))
new_node-IsKeySet_example =
    new_node-IsKeySet in_order 0 0 1 21000 (9 ∷ 3 ∷ []) (9 ∷ []) two_keys one_key
