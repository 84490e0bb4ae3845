-- ===== src/Pevm/DependencyGraph/Suffix/Walks.antt =====
-- The search of `postorder_dfs` of dependency_graph.rs from one node.
use congestion_control.Prelude.{
  ℕ, ◌+◌, ◌%◌, ◌^◌, ◌≡◌, ◌≤◌, ◌<◌, max, refl, ◌∙◌, Bool, true, false, List, [], ◌∷◌, arith, ◌==◌,
  if◌then◌else◌, count, length, length-set, get_or, set, get_or-set, Option, some, Bool-cases, inl,
  inr, lt_or_le, ==_iff,
}
use congestion_control.Pevm.Node.{TransactionNode, no_node}
use congestion_control.Pevm.GraphScheduler.{children_of}
use congestion_control.Pevm.DependencyGraph.Suffix.{Walk, suffix_at, walk_children}

-- The greatest of the values at the nodes.
abbrev pub best : (ℕ → ℕ) → List ℕ → ℕ
best longest [] = 0
best longest (c ∷ cs) = max (longest c) (best longest cs)

-- The gas of the longest path from each node, as an equation: its own, and the greatest of its children.
abbrev pub IsLongest : List TransactionNode → (ℕ → ℕ) → Type 0
IsLongest nodes longest =
    (i : ℕ)
    → i < length nodes
    → longest i ≡ ((get_or nodes i no_node).gas_cost + best longest (children_of nodes i)) % 2 ^ 64

abbrev pub is_visited : Walk → ℕ → Bool
is_visited w i = get_or w.visited i false

abbrev with_suffix : TransactionNode → ℕ → TransactionNode
with_suffix n s = record n { longest_suffix = s }

module _ (nodes : List TransactionNode) (longest : ℕ → ℕ) where
  -- From the bound on, what is visited is settled, and so are its children.
  pub record IsWalk (b : ℕ) (w : Walk) : Type 0 where
    pub same :
        (j : ℕ)
        → get_or w.nodes j no_node ≡ with_suffix (get_or nodes j no_node) (suffix_at w.nodes j)
    pub nodes_sized : length w.nodes ≡ length nodes
    pub visited_sized : length w.visited ≡ length nodes
    pub settled : (j : ℕ) → b ≤ j → is_visited w j ≡ true → suffix_at w.nodes j ≡ longest j
    pub closed :
        (j c : ℕ)
        → b ≤ j
        → is_visited w j ≡ true
        → 0 < count c (children_of nodes j)
        → is_visited w c ≡ true

  -- What a search leaves, from the walk `w`: nothing below the bound changes.
  pub record IsWalked (b value : ℕ) (w : Walk) (o : Option (Walk × ℕ)) : Type 0 where
    pub after : Walk
    pub done : o ≡ some (after, value)
    pub walk : IsWalk b after
    pub below :
        (j : ℕ)
        → j < b
        → (suffix_at after.nodes j ≡ suffix_at w.nodes j) × (is_visited after j ≡ is_visited w j)
    pub kept : (j : ℕ) → is_visited w j ≡ true → is_visited after j ≡ true

  pub walk_children-IsWalked :
      (go : ℕ → Walk → Option (Walk × ℕ)) (b : ℕ) (cs : List ℕ) (w : Walk) (greatest : ℕ)
      → ((c : ℕ) (w' : Walk)
          → 0 < count c cs
          → IsWalk b w'
          → (r : IsWalked b (longest c) w' (go c w')) × (is_visited r.after c ≡ true))
      → IsWalk b w
      → (r : IsWalked b (max greatest (best longest cs)) w (walk_children go cs w greatest))
        × ((c : ℕ) → 0 < count c cs → is_visited r.after c ≡ true)
  walk_children-IsWalked go b [] w greatest h k = (
    record {
      after = w;
      done = let z : max greatest 0 ≡ greatest = omega arith in ground arith;
      walk = k;
      below = λ j l. (refl, refl);
      kept = λ j e. e;
    },
    λ c l. elim l [ ],
  )
  walk_children-IsWalked go b (c ∷ cs) w greatest h k =
      let (q, here) = h c w (ground arith) k in
      let (r, all) =
        walk_children-IsWalked go b cs q.after (max greatest (longest c))
          (λ d w' l. h d w' (omega arith)) q.walk in
      (
        record {
          after = r.after;
          done =
              let d = q.done in
              let e = r.done in
              let z : max (max greatest (longest c)) (best longest cs)
                  ≡ max greatest (max (longest c) (best longest cs)) =
                omega arith in
              ground arith;
          walk = r.walk;
          below = λ j l. let x = q.below j l in let y = r.below j l in (y.0 ∙ x.0, y.1 ∙ x.1);
          kept = λ j e. r.kept j (q.kept j e);
        },
        λ d l. elim (Bool-cases (c == d)) [
          | inl e ↦ let s = ==_iff c d in let x = r.kept c here in ground arith
          | inr e ↦ all d (ground arith)
        ],
      )

  abbrev pub entered : Walk → ℕ → Walk
  entered w i = record w { visited = set w.visited i true }

  pub entered_at :
      (w : Walk) (i j : ℕ)
      → i < length w.visited
      → is_visited (entered w i) j ≡ (if i == j then true else is_visited w j)
  entered_at w i j h = let g = get_or-set w.visited i j true false in ground arith

  pub entered-IsWalk :
      (b i : ℕ) (w : Walk) → i < length nodes → b ≤ i → IsWalk b w → IsWalk (i + 1) (entered w i)
  entered-IsWalk b i w h l k = record {
    same = k.same;
    nodes_sized = k.nodes_sized;
    visited_sized = length-set w.visited i true ∙ k.visited_sized;
    settled = λ j g e.
        let at = entered_at w i j (omega (arith, k.visited_sized)) in
        k.settled j (omega arith) (ground arith);
    closed = λ j c g e n.
        let at = entered_at w i j (omega (arith, k.visited_sized)) in
        let at' = entered_at w i c (omega (arith, k.visited_sized)) in
        let old = k.closed j c (omega arith) (ground arith) n in ground arith;
  }

  -- The walk after the node's own suffix is written.
  abbrev pub written_back : Walk → ℕ → ℕ → Walk
  written_back w i s = record w { nodes = set w.nodes i (with_suffix (get_or w.nodes i no_node) s) }

  pub back_at :
      (w : Walk) (i s j : ℕ)
      → i < length w.nodes
      → get_or (written_back w i s).nodes j no_node
        ≡ (if i == j then with_suffix (get_or w.nodes j no_node) s else get_or w.nodes j no_node)
  back_at w i s j h =
      let g = get_or-set w.nodes i j (with_suffix (get_or w.nodes i no_node) s) no_node in
      let e = ==_iff i j in ground arith

  pub back-IsWalk :
      (b i s : ℕ) (w w' : Walk)
      → b ≤ i
      → i < length nodes
      → IsWalk b w
      → IsWalk (i + 1) w'
      → ((j : ℕ)
          → j < i + 1
          → (suffix_at w'.nodes j ≡ suffix_at w.nodes j)
            × (is_visited w' j ≡ is_visited (entered w i) j))
      → ((j : ℕ) → is_visited (entered w i) j ≡ true → is_visited w' j ≡ true)
      → ((c : ℕ) → 0 < count c (children_of nodes i) → is_visited w' c ≡ true)
      → s ≡ longest i
      → IsWalk b (written_back w' i s)
  back-IsWalk b i s w w' l h k k' below kept all e = record {
    same = λ j.
        let at = back_at w' i s j (omega (arith, k'.nodes_sized)) in
        let sm = k'.same j in ground arith;
    nodes_sized =
        length-set w'.nodes i (with_suffix (get_or w'.nodes i no_node) s) ∙ k'.nodes_sized;
    visited_sized = k'.visited_sized;
    settled = λ j g v.
        let at = back_at w' i s j (omega (arith, k'.nodes_sized)) in
        let en = entered_at w i j (omega (arith, k.visited_sized)) in
        let eq = ==_iff i j in
        elim (lt_or_le j i) [
          | inl lo ↦ let u = below j (omega arith) in let old = k.settled j g in ground arith
          | inr hi ↦ elim (Bool-cases (i == j)) [
            | inl x ↦ ground arith
            | inr x ↦ let r = k'.settled j (ground arith) v in ground arith
          ]
        ];
    closed = λ j c g v n.
        let en = entered_at w i j (omega (arith, k.visited_sized)) in
        let ec = entered_at w i c (omega (arith, k.visited_sized)) in
        let eq = ==_iff i j in
        elim (lt_or_le j i) [
          | inl lo ↦
              let u = below j (omega arith) in
              let old = k.closed j c g in let kc = kept c in ground arith
          | inr hi ↦ elim (Bool-cases (i == j)) [
            | inl x ↦ all c (ground arith)
            | inr x ↦ k'.closed j c (ground arith) v n
          ]
        ];
  }
