-- ===== src/Pevm/DependencyGraph/Cycles.antt =====
-- `has_cycle` of dependency_graph.rs: the depth-first search for a cycle, less its printing. It runs
-- on fuel, one for each node on the path from the start.
use congestion_control.Prelude.{
  ℕ, zero, suc, ◌+◌, ◌≡◌, ◌≤◌, ◌<◌, refl, Bool, true, false, List, [], ◌∷◌, arith, if◌then◌else◌,
  count, length, get_or, set, get_or-set, get_or_beyond, replicate, Option, some, none, Bool-cases,
  inl, inr,
}
use congestion_control.Pevm.Node.{TransactionNode, no_node}
use congestion_control.Pevm.DependencyGraph.{TransactionGraph}
use congestion_control.Pevm.DependencyGraph.Building.{IsGraph}
use congestion_control.Pevm.GraphScheduler.{children_of}
use congestion_control.Pevm.GraphScheduler.Invariant.{IsMirrored}
use congestion_control.Pevm.GraphScheduler.Progress.{IsForward}

pub record Search : Type 0 where
  pub visited : List Bool
  pub rec_stack : List Bool
  pub is_cyclic : Bool

-- The loop over the children, given the search from one of them; `none` is out of fuel.
abbrev pub search_children : (ℕ → Search → Option Search) → List ℕ → Search → Option Search
search_children go [] s = some s
search_children go (c ∷ cs) s =
    if get_or s.visited c false
    then (if get_or s.rec_stack c false
        then some (record s { is_cyclic = true })
        else search_children go cs s)
    else elim (go c s) [
      | none ↦ none
      | some s' ↦ if s'.is_cyclic then some s' else search_children go cs s'
    ]

abbrev enter : ℕ → Search → Search
enter i s = record s { visited = set s.visited i true; rec_stack = set s.rec_stack i true }

abbrev leave : ℕ → Search → Search
leave i s = if s.is_cyclic then s else record s { rec_stack = set s.rec_stack i false }

unfoldable pub dfs : ℕ → List TransactionNode → ℕ → Search → Option Search
dfs zero nodes i s = none
dfs (suc fuel) nodes i s =
    elim (search_children (λ c s'. dfs fuel nodes c s') (children_of nodes i) (enter i s)) [
      | none ↦ none
      | some s' ↦ some (leave i s')
    ]

-- The loop over the nodes, from index `i` on, for so many of them.
unfoldable pub search_from : ℕ → List TransactionNode → ℕ → ℕ → Search → Option Bool
search_from fuel nodes zero i s = some false
search_from fuel nodes (suc left) i s =
    if get_or s.visited i false
    then search_from fuel nodes left (i + 1) s
    else elim (dfs fuel nodes i s) [
      | none ↦ none
      | some s' ↦ if s'.is_cyclic then some true else search_from fuel nodes left (i + 1) s'
    ]

unfoldable pub has_cycle : TransactionGraph → Option Bool
has_cycle g =
    let n = length g.nodes in
    search_from n g.nodes n 0
      (record { visited = replicate n false; rec_stack = replicate n false; is_cyclic = false })

-- Only nodes below the bound are on the path.
abbrev IsPathBelow : ℕ → Search → Type 0
IsPathBelow b s = (j : ℕ) → get_or s.rec_stack j false ≡ true → j < b

-- The search ends without a cycle, and leaves the path as it was.
record IsClear (s : Search) (o : Option Search) : Type 0 where
  after : Search
  done : o ≡ some after
  acyclic : after.is_cyclic ≡ false
  same_path : (j : ℕ) → get_or after.rec_stack j false ≡ true → get_or s.rec_stack j false ≡ true

search_children-IsClear :
    (go : ℕ → Search → Option Search) (b : ℕ) (cs : List ℕ) (s : Search)
    → ((c : ℕ) → 0 < count c cs → b ≤ c)
    → ((c : ℕ) (s' : Search)
        → 0 < count c cs
        → s'.is_cyclic ≡ false
        → IsPathBelow b s'
        → IsClear s' (go c s'))
    → s.is_cyclic ≡ false
    → IsPathBelow b s
    → IsClear s (search_children go cs s)
search_children-IsClear go b [] s up h a p = record {
  after = s;
  done = refl;
  acyclic = a;
  same_path = λ j e. e;
}
search_children-IsClear go b (c ∷ cs) s up h a p = elim (Bool-cases (get_or s.visited c false)) [
  | inl v ↦
      let off : get_or s.rec_stack c false ≡ false =
        let l = up c (ground arith) in ground (arith, p c) in
      let r =
        search_children-IsClear go b cs s (λ d w. up d (omega arith))
          (λ d s' w. h d s' (omega arith)) a p in
      record {
        after = r.after;
        done = let d = r.done in ground arith;
        acyclic = r.acyclic;
        same_path = r.same_path;
      }
  | inr v ↦
      let q = h c s (ground arith) a p in
      let r =
        search_children-IsClear go b cs q.after (λ d w. up d (omega arith))
          (λ d s' w. h d s' (omega arith)) q.acyclic (λ j e. p j (q.same_path j e)) in
      record {
        after = r.after;
        done = let d = r.done in let d' = q.done in let a' = q.acyclic in ground arith;
        acyclic = r.acyclic;
        same_path = λ j e. q.same_path j (r.same_path j e);
      }
]

module _ (nodes : List TransactionNode) (m : IsMirrored nodes) (fwd : IsForward nodes) where
  child_bounds : (i c : ℕ) → 0 < count c (children_of nodes i) → (i < c) × (c < length nodes)
  child_bounds i c w =
      let e = m i c in
      let b = get_or_beyond nodes c no_node in (fwd i c (omega arith), ground arith)

  dfs-IsClear :
      (fuel i : ℕ) (s : Search)
      → i < length nodes
      → length nodes ≤ fuel + i
      → s.is_cyclic ≡ false
      → IsPathBelow i s
      → IsClear s (dfs fuel nodes i s)
  unfolding dfs
  dfs-IsClear zero i s l f a p = absurd (omega arith)
  dfs-IsClear (suc fuel) i s l f a p =
      let on = λ (j : ℕ). get_or-set s.rec_stack i j true false in
      let r =
        search_children-IsClear (λ c s'. dfs fuel nodes c s') (i + 1) (children_of nodes i)
          (enter i s) (λ c w. omega (arith, (child_bounds i c w).0))
          (λ c s' w a' p'.
            let (up, inside) = child_bounds i c w in
            dfs-IsClear fuel c s' inside (omega arith) a' (λ j e. omega (arith, p' j e)))
          a (λ j e. ground (arith, on j, p j)) in
      let d = r.done in
      let a' = r.acyclic in
      record {
        after = leave i r.after;
        done = ground arith;
        acyclic = ground arith;
        same_path = λ j e.
            let off = get_or-set r.after.rec_stack i j false false in
            let old = r.same_path j in
            let beyond = get_or_beyond r.after.rec_stack i false in let was = on j in ground arith;
      }

  search_from-acyclic :
      (left i : ℕ) (s : Search)
      → i + left ≡ length nodes
      → s.is_cyclic ≡ false
      → ((j : ℕ) → get_or s.rec_stack j false ≡ false)
      → search_from (length nodes) nodes left i s ≡ some false
  unfolding search_from
  search_from-acyclic zero i s l a p = refl
  search_from-acyclic (suc left) i s l a p = elim (Bool-cases (get_or s.visited i false)) [
    | inl v ↦ let rest = search_from-acyclic left (i + 1) s (omega arith) a p in ground arith
    | inr v ↦
        let r =
          dfs-IsClear (length nodes) i s (omega arith) (omega arith) a
            (λ j e. absurd (let q = p j in ground arith)) in
        let rest =
          search_from-acyclic left (i + 1) r.after (omega arith) r.acyclic
            (λ j. let q = r.same_path j in let q' = p j in ground arith) in
        let d = r.done in let a' = r.acyclic in ground arith
  ]

off_path : (n j : ℕ) → get_or (replicate n false) j false ≡ false
off_path zero j = refl
off_path (suc n) zero = refl
off_path (suc n) (suc j) = off_path n j

-- On a well-formed graph the search has fuel enough and finds no cycle.
pub has_cycle-IsGraph : (g : TransactionGraph) → IsGraph g → has_cycle g ≡ some false
unfolding has_cycle
has_cycle-IsGraph g k =
    search_from-acyclic g.nodes k.mirrored k.forward (length g.nodes) 0 _ (omega arith) refl
      (off_path (length g.nodes))
