-- ===== src/Pevm/DependencyGraph/Suffix/Roots.antt =====
-- The root nodes of `update_longest_suffix_postorder` of dependency_graph.rs.
use congestion_control.Prelude.{
  ℕ, zero, suc, ◌+◌, ◌-◌, ◌≡◌, ◌<◌, refl, sym, ◌∙◌, Bool, true, false, not, List, [], ◌∷◌, arith,
  ◌==◌, ◌&&◌, ltb, leb, bit, if◌then◌else◌, count, contains, contains-count, count-contains, length,
  length-set, length-replicate, get_or, set, get_or-set, get_or-replicate, replicate, Bool-cases,
  inl, inr, lt_or_le,
}
use congestion_control.Pevm.Node.{TransactionNode}
use congestion_control.Pevm.GraphScheduler.{children_of, parents_of}
use congestion_control.Pevm.GraphScheduler.Invariant.{IsMirrored}
use congestion_control.Pevm.DependencyGraph.Suffix.{
  mark_children, mark_nodes, unmarked_from, root_nodes,
}

length-mark_children :
    (cs : List ℕ) (marks : List Bool) → length (mark_children cs marks) ≡ length marks
length-mark_children [] marks = refl
length-mark_children (c ∷ cs) marks =
    length-mark_children cs (set marks c true) ∙ length-set marks c true

length-mark_nodes :
    (ns : List TransactionNode) (marks : List Bool) → length (mark_nodes ns marks) ≡ length marks
length-mark_nodes [] marks = refl
length-mark_nodes (n ∷ ns) marks =
    length-mark_nodes ns (mark_children n.children_indices marks)
    ∙ length-mark_children n.children_indices marks

mark_children_at :
    (cs : List ℕ) (marks : List Bool) (i : ℕ)
    → i < length marks
    → get_or (mark_children cs marks) i false
      ≡ (if contains i cs then true else get_or marks i false)
mark_children_at [] marks i h = refl
mark_children_at (c ∷ cs) marks i h =
    let r = mark_children_at cs (set marks c true) i (omega (arith, length-set marks c true)) in
    let g = get_or-set marks c i true false in ground arith

-- Whether the node is a child of one of the list.
abbrev is_child : ℕ → List TransactionNode → Bool
is_child i [] = false
is_child i (n ∷ ns) = if contains i n.children_indices then true else is_child i ns

mark_nodes_at :
    (ns : List TransactionNode) (marks : List Bool) (i : ℕ)
    → i < length marks
    → get_or (mark_nodes ns marks) i false ≡ (if is_child i ns then true else get_or marks i false)
mark_nodes_at [] marks i h = refl
mark_nodes_at (n ∷ ns) marks i h =
    let r =
      mark_nodes_at ns (mark_children n.children_indices marks) i
        (omega (arith, length-mark_children n.children_indices marks)) in
    let g = mark_children_at n.children_indices marks i h in ground arith

child_of_none :
    (i : ℕ) (ns : List TransactionNode) (p : ℕ)
    → is_child i ns ≡ false
    → count i (children_of ns p) ≡ 0
child_of_none i [] p h = refl
child_of_none i (n ∷ ns) zero h = let c = contains-count i n.children_indices in ground arith
child_of_none i (n ∷ ns) (suc p) h = child_of_none i ns p (ground arith)

child_of_one :
    (i : ℕ) (ns : List TransactionNode)
    → is_child i ns ≡ true
    → (p : ℕ) × (0 < count i (children_of ns p))
child_of_one i [] h = absurd (ground arith)
child_of_one i (n ∷ ns) h = elim (Bool-cases (contains i n.children_indices)) [
  | inl e ↦ (0, count-contains i n.children_indices e)
  | inr e ↦ let (p, c) = child_of_one i ns (ground arith) in (suc p, c)
]

count-unmarked_from :
    (j i : ℕ) (marks : List Bool)
    → count j (unmarked_from i marks)
      ≡ (if leb i j && ltb j (i + length marks) then bit (not (get_or marks (j - i) false)) else 0)
count-unmarked_from j i [] = ground arith
count-unmarked_from j i (b ∷ marks) =
    let r = count-unmarked_from j (i + 1) marks in
    elim (lt_or_le j i) [
      | inl lo ↦ ground arith
      | inr hi ↦ elim (Bool-cases (i == j)) [
        | inl e ↦ let z : j - i ≡ 0 = ground arith in ground arith
        | inr e ↦ let z : j - i ≡ suc (j - (i + 1)) = ground arith in ground arith
      ]
    ]

no_parents : (ps : List ℕ) → ((p : ℕ) → count p ps ≡ 0) → length ps ≡ 0
no_parents [] h = refl
no_parents (p ∷ ps) h = absurd (let c = h p in ground arith)

empty_parents : (ps : List ℕ) (p : ℕ) → length ps ≡ 0 → count p ps ≡ 0
empty_parents [] p h = refl
empty_parents (q ∷ ps) p h = absurd (omega arith)

-- A node of the graph is a root, once, exactly if it has no parents.
pub count-root_nodes :
    (nodes : List TransactionNode) (i : ℕ)
    → IsMirrored nodes
    → count i (root_nodes nodes)
      ≡ (if ltb i (length nodes) then bit (length (parents_of nodes i) == 0) else 0)
unfolding root_nodes
count-root_nodes nodes i m =
    let fresh = replicate (length nodes) false in
    let c = count-unmarked_from i 0 (mark_nodes nodes fresh) in
    let l = length-mark_nodes nodes fresh ∙ length-replicate (length nodes) false in
    let z : i - 0 ≡ i = omega arith in
    elim (lt_or_le i (length nodes)) [
      | inr h ↦ ground arith
      | inl h ↦
          let at =
            mark_nodes_at nodes fresh i (omega (arith, length-replicate (length nodes) false)) in
          let off = get_or-replicate (length nodes) i false false h in
          elim (Bool-cases (is_child i nodes)) [
            | inl e ↦
                let (p, w) = child_of_one i nodes e in
                let mi = m p i in let n = empty_parents (parents_of nodes i) p in ground arith
            | inr e ↦
                let n =
                  no_parents (parents_of nodes i) (λ p. sym (m p i) ∙ child_of_none i nodes p e) in
                ground arith
          ]
    ]
