-- ===== src/Pevm/DependencyGraph/Suffix/Update.antt =====
-- `update_longest_suffix_postorder` of dependency_graph.rs as a whole.
use congestion_control.Prelude.{
  ℕ, zero, suc, ◌+◌, ◌≡◌, ◌<◌, refl, ap, ◌∙◌, true, false, List, [], ◌∷◌, arith, ◌==◌, ltb, bit,
  if◌then◌else◌, count, length, length-replicate, get_or, replicate, Bool-cases, inl, inr, ◌⊎◌,
  ==_iff, Option, some,
}
use congestion_control.Pevm.Node.{TransactionNode, no_node, transaction_id}
use congestion_control.Pevm.DependencyGraph.{TransactionGraph, HeapEntry}
use congestion_control.Pevm.DependencyGraph.Building.{node_at, IsGraph}
use congestion_control.Pevm.GraphScheduler.{parents_of}
use congestion_control.Pevm.GraphScheduler.Invariant.{IsMirrored}
use congestion_control.Pevm.GraphScheduler.Progress.{IsForward}
use congestion_control.Pevm.DependencyGraph.Suffix.{
  Walk, postorder_dfs, root_nodes, push_entry, entry_of, walk_roots,
  update_longest_suffix_postorder,
}
use congestion_control.Pevm.DependencyGraph.Suffix.Walks.{IsLongest, is_visited, IsWalk}
use congestion_control.Pevm.DependencyGraph.Suffix.Search.{postorder_dfs-Searched}
use congestion_control.Pevm.DependencyGraph.Suffix.Roots.{count-root_nodes}

-- The heap of these nodes with their longest paths, pushed in order.
abbrev pub heap_of : List TransactionNode → (ℕ → ℕ) → List ℕ → List HeapEntry → List HeapEntry
heap_of nodes longest [] heap = heap
heap_of nodes longest (i ∷ is) heap = heap_of nodes longest is (
    push_entry
      (record { longest_suffix = longest i; tx_id = transaction_id (get_or nodes i no_node) }) heap)

walk_roots_cons :
    (fuel i : ℕ) (is : List ℕ) (w : Walk) (heap : List HeapEntry) (r : Walk × ℕ)
    → postorder_dfs fuel i w ≡ some r
    → walk_roots fuel (i ∷ is) w heap
      ≡ walk_roots fuel is r.0 (push_entry (entry_of r.0.nodes i) heap)
unfolding walk_roots
walk_roots_cons fuel i is w heap r e = ground arith

walk_roots_nil :
    (fuel : ℕ) (w : Walk) (heap : List HeapEntry) → walk_roots fuel [] w heap ≡ some (w, heap)
unfolding walk_roots
walk_roots_nil fuel w heap = refl

module _ (nodes : List TransactionNode) (longest : ℕ → ℕ) (m : IsMirrored nodes)
    (fwd : IsForward nodes) (spec : IsLongest nodes longest) where
  record AreWalked (is : List ℕ) (w : Walk) (heap : List HeapEntry)
      (o : Option (Walk × List HeapEntry)) : Type 0 where
    after : Walk
    done : o ≡ some (after, heap_of nodes longest is heap)
    walk : IsWalk nodes longest 0 after
    kept : (j : ℕ) → is_visited w j ≡ true → is_visited after j ≡ true
    reached : (j : ℕ) → 0 < count j is → is_visited after j ≡ true

  walk_roots-AreWalked :
      (is : List ℕ) (w : Walk) (heap : List HeapEntry)
      → ((i : ℕ) → 0 < count i is → i < length nodes)
      → IsWalk nodes longest 0 w
      → AreWalked is w heap (walk_roots (length nodes) is w heap)
  walk_roots-AreWalked [] w heap h k = record {
    after = w;
    done = walk_roots_nil (length nodes) w heap;
    walk = k;
    kept = λ j e. e;
    reached = λ j l. elim l [ ];
  }
  walk_roots-AreWalked (i ∷ is) w heap h k =
      let (q, here) =
        postorder_dfs-Searched nodes longest m fwd spec (length nodes) 0 i w (h i (ground arith))
          (omega arith) (omega arith) k in
      let same = q.walk.same i in
      let value = q.walk.settled i (omega arith) here in
      let e : entry_of q.after.nodes i
          ≡ record { longest_suffix = longest i; tx_id = transaction_id (get_or nodes i no_node) } =
        ground arith in
      let r =
        walk_roots-AreWalked is q.after (push_entry (entry_of q.after.nodes i) heap)
          (λ j l. h j (omega arith)) q.walk in
      record {
        after = r.after;
        done =
            walk_roots_cons (length nodes) i is w heap (q.after, longest i) q.done
            ∙ (r.done ∙ ap (λ x. some (r.after, heap_of nodes longest is (push_entry x heap))) e);
        walk = r.walk;
        kept = λ j v. r.kept j (q.kept j v);
        reached = λ j l. elim (Bool-cases (i == j)) [
          | inl x ↦ let s = ==_iff i j in let v = r.kept i here in ground arith
          | inr x ↦ r.reached j (ground arith)
        ];
      }

  some_parent : (ps : List ℕ) → (length ps ≡ 0) ⊎ ((p : ℕ) × (0 < count p ps))
  some_parent [] = inl refl
  some_parent (p ∷ ps) = inr (p, ground arith)

  -- Every node is below a root.
  all_visited :
      (w : Walk)
      → IsWalk nodes longest 0 w
      → ((j : ℕ) → 0 < count j (root_nodes nodes) → is_visited w j ≡ true)
      → (b i : ℕ) → i < b
      → i < length nodes
      → is_visited w i ≡ true
  all_visited w k roots zero i l h = absurd (omega arith)
  all_visited w k roots (suc b) i l h = elim (some_parent (parents_of nodes i)) [
    | inl e ↦ let c = count-root_nodes nodes i m in roots i (ground arith)
    | inr (p, c) ↦
        let up = fwd p i c in
        let e = m p i in
        k.closed p i (omega arith) (all_visited w k roots b p (omega arith) (omega arith))
          (omega arith)
  ]

start-IsWalk :
    (nodes : List TransactionNode) (longest : ℕ → ℕ)
    → IsWalk nodes longest 0 (record { nodes = nodes; visited = replicate (length nodes) false })
start-IsWalk nodes longest =
    let off = λ (j : ℕ). unvisited (length nodes) j in
    record {
      same = λ j. refl;
      nodes_sized = refl;
      visited_sized = length-replicate (length nodes) false;
      settled = λ j l e. absurd (let o = off j in ground arith);
      closed = λ j c l e n. absurd (let o = off j in ground arith);
    }
  where
    unvisited : (n j : ℕ) → get_or (replicate n false) j false ≡ false
    unvisited zero j = refl
    unvisited (suc n) zero = refl
    unvisited (suc n) (suc j) = unvisited n j

-- What the update leaves of a graph, where `longest` is the gas of the longest path from each node.
pub record IsUpdated (g : TransactionGraph) (longest : ℕ → ℕ) (o : Option TransactionGraph)
    : Type 0 where
  pub after : TransactionGraph
  pub done : o ≡ some after
  pub size : length after.nodes ≡ length g.nodes
  -- each node has its longest path, and is the same otherwise
  pub nodes_at :
      (i : ℕ)
      → i < length g.nodes
      → node_at after i ≡ record (node_at g i) { longest_suffix = longest i }
  -- the heap is that of the nodes without parents, each once
  pub heap : after.txns_without_parent ≡ heap_of g.nodes longest (root_nodes g.nodes) []
  pub roots :
      (i : ℕ)
      → count i (root_nodes g.nodes)
        ≡ (if ltb i (length g.nodes) then bit (length (parents_of g.nodes i) == 0) else 0)

update_at :
    (g : TransactionGraph) (r : Walk × List HeapEntry)
    → 0 < length g.nodes
    → walk_roots
        (length g.nodes)
        (root_nodes g.nodes)
        (record { nodes = g.nodes; visited = replicate (length g.nodes) false })
        []
      ≡ some r
    → update_longest_suffix_postorder g
      ≡ some (record g { nodes = r.0.nodes; txns_without_parent = r.1 })
unfolding update_longest_suffix_postorder
update_at g r h e = ground arith

-- On a well-formed graph that is not empty the update has fuel enough: each node gets the gas of the
-- longest path from it, whatever function satisfies the equation of the longest path, nothing else of
-- a node changes, and the heap becomes that of the nodes without parents, each once.
pub update_longest_suffix-IsUpdated :
    (g : TransactionGraph) (longest : ℕ → ℕ)
    → IsGraph g
    → 0 < length g.nodes
    → IsLongest g.nodes longest
    → IsUpdated g longest (update_longest_suffix_postorder g)
update_longest_suffix-IsUpdated g longest k h spec =
    let c = λ (i : ℕ). count-root_nodes g.nodes i k.mirrored in
    let first : Walk = record { nodes = g.nodes; visited = replicate (length g.nodes) false } in
    let r =
      walk_roots-AreWalked g.nodes longest k.mirrored k.forward spec (root_nodes g.nodes) first []
        (λ i l. let e = c i in ground arith) (start-IsWalk g.nodes longest) in
    record {
      after = record g {
        nodes = r.after.nodes;
        txns_without_parent = heap_of g.nodes longest (root_nodes g.nodes) [];
      };
      done = update_at g (r.after, heap_of g.nodes longest (root_nodes g.nodes) []) h r.done;
      size = r.walk.nodes_sized;
      nodes_at = λ i l.
          let v =
            all_visited g.nodes longest k.mirrored k.forward spec r.after r.walk r.reached (i + 1) i
              (omega arith) l in
          let s = r.walk.settled i (omega arith) v in let e = r.walk.same i in ground arith;
      heap = refl;
      roots = c;
    }
