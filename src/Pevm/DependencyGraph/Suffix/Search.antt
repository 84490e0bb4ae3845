-- ===== src/Pevm/DependencyGraph/Suffix/Search.antt =====
-- `postorder_dfs` of dependency_graph.rs on graphs whose edges go forward.
use congestion_control.Prelude.{
  ℕ, zero, suc, ◌+◌, ◌%◌, ◌^◌, ◌≡◌, ◌≤◌, ◌<◌, max, refl, ap, ◌∙◌, true, false, List, arith, count,
  length, get_or, set, get_or_beyond, Option, some, Bool-cases, inl, inr, ==_iff,
}
use congestion_control.Pevm.Node.{TransactionNode, no_node}
use congestion_control.Pevm.GraphScheduler.{children_of}
use congestion_control.Pevm.GraphScheduler.Invariant.{IsMirrored}
use congestion_control.Pevm.GraphScheduler.Progress.{IsForward}
use congestion_control.Pevm.DependencyGraph.Suffix.{
  Walk, suffix_at, walk_children, settle, postorder_dfs,
}
use congestion_control.Pevm.DependencyGraph.Suffix.Walks.{
  best, IsLongest, is_visited, IsWalk, IsWalked, walk_children-IsWalked, entered, entered_at,
  entered-IsWalk, written_back, back-IsWalk, back_at,
}

dfs_visited :
    (fuel i : ℕ) (w : Walk)
    → is_visited w i ≡ true
    → postorder_dfs (suc fuel) i w ≡ some (w, suffix_at w.nodes i)
unfolding postorder_dfs
dfs_visited fuel i w e = ground arith

dfs_new :
    (fuel i : ℕ) (w : Walk) (r : Walk × ℕ)
    → is_visited w i ≡ false
    → walk_children
        (λ c w'. postorder_dfs fuel c w')
        (children_of w.nodes i)
        (record w { visited = set w.visited i true })
        0
      ≡ some r
    → postorder_dfs (suc fuel) i w ≡ some (settle i r)
unfolding postorder_dfs
dfs_new fuel i w r e f = ground arith

module _ (nodes : List TransactionNode) (longest : ℕ → ℕ) (m : IsMirrored nodes)
    (fwd : IsForward nodes) (spec : IsLongest nodes longest) where
  pub child_bounds : (i c : ℕ) → 0 < count c (children_of nodes i) → (i < c) × (c < length nodes)
  child_bounds i c w =
      let e = m i c in
      let b = get_or_beyond nodes c no_node in (fwd i c (omega arith), ground arith)

  -- What the search from a node leaves.
  abbrev pub Searched : ℕ → ℕ → Walk → Option (Walk × ℕ) → Type 0
  Searched b i w o = (r : IsWalked nodes longest b (longest i) w o) × (is_visited r.after i ≡ true)

  finished :
      (fuel b i : ℕ) (w : Walk)
      → i < length nodes
      → b ≤ i
      → IsWalk nodes longest b w
      → is_visited w i ≡ false
      → (r : IsWalked nodes longest
          (i + 1)
          (max 0 (best longest (children_of nodes i)))
          (entered nodes longest w i)
          (walk_children
            (λ c w'. postorder_dfs fuel c w')
            (children_of nodes i)
            (entered nodes longest w i)
            0))
        × ((c : ℕ) → 0 < count c (children_of nodes i) → is_visited r.after c ≡ true)
      → Searched b i w (postorder_dfs (suc fuel) i w)
  finished fuel b i w h l k v (r, all) =
      let cs = ap (λ (n : TransactionNode). n.children_indices) (k.same i) in
      let gas = ap (λ (n : TransactionNode). n.gas_cost) (r.walk.same i) in
      let sp = spec i h in
      let greatest = max 0 (best longest (children_of nodes i)) in
      let suffix = ((get_or r.after.nodes i no_node).gas_cost + greatest) % 2 ^ 64 in
      let z : greatest ≡ best longest (children_of nodes i) = omega arith in
      let e : suffix ≡ longest i = ground arith in
      let f = dfs_new fuel i w (r.after, greatest) v (rw cs r.done) in
      let at = λ (j : ℕ). entered_at nodes longest w i j (omega (arith, k.visited_sized)) in
      (
        record {
          after = written_back nodes longest r.after i suffix;
          done = f ∙ ap (λ s. some (written_back nodes longest r.after i suffix, s)) e;
          walk = back-IsWalk nodes longest b i suffix w r.after l h k r.walk r.below r.kept all e;
          below = λ j g.
              let bk =
                back_at nodes longest r.after i suffix j (omega (arith, r.walk.nodes_sized)) in
              let bl = r.below j (omega arith) in
              let en = at j in let q = ==_iff i j in (ground arith, ground arith);
          kept = λ j x. r.kept j (let en = at j in ground arith);
        },
        r.kept i (let en = at i in let q = ==_iff i i in ground arith),
      )

  pub postorder_dfs-Searched :
      (fuel b i : ℕ) (w : Walk)
      → i < length nodes
      → length nodes ≤ fuel + i
      → b ≤ i
      → IsWalk nodes longest b w
      → Searched b i w (postorder_dfs fuel i w)
  postorder_dfs-Searched zero b i w h f l k = absurd (omega arith)
  postorder_dfs-Searched (suc fuel) b i w h f l k = elim (Bool-cases (is_visited w i)) [
    | inl v ↦ (
      record {
        after = w;
        done = dfs_visited fuel i w v ∙ ap (λ s. some (w, s)) (k.settled i l v);
        walk = k;
        below = λ j g. (refl, refl);
        kept = λ j e. e;
      },
      v,
    )
    | inr v ↦ finished fuel b i w h l k v (
        walk_children-IsWalked nodes longest (λ c w'. postorder_dfs fuel c w') (i + 1)
          (children_of nodes i) (entered nodes longest w i) 0
          (λ c w' g k'.
            let (up, inside) = child_bounds i c g in
            postorder_dfs-Searched fuel (i + 1) c w' inside (omega arith) (omega arith) k')
          (entered-IsWalk nodes longest b i w h l k))
  ]
