-- ===== src/Pevm/DependencyGraph/Integration/Connecting.antt =====
-- Step 4 of `integrate_graph`, at one address.
use congestion_control.Prelude.{
  ℕ, ◌+◌, ◌≡◌, ◌<◌, ◌↔◌, ◌⊎◌, refl, sym, subst, count, get_or, ==_iff, ap, ◌∙◌, Bool, true, false,
  arith, ◌==◌, if◌then◌else◌, contains, length, some, none, inl, inr, Option-cases,
}
use congestion_control.Prelude.Maps.{nat_eq, lookup, insert, lookup-insert, has_key}
use congestion_control.Pevm.Node.{TransactionId, no_node}
use congestion_control.Pevm.DependencyGraph.{TransactionGraph, Result, ok, transaction_id_eq, link}
use congestion_control.Pevm.DependencyGraph.Edges.{length-link}
use congestion_control.Pevm.GraphScheduler.{children_of}
use congestion_control.Pevm.DependencyGraph.Building.{IsBelow, IsGraph}
use congestion_control.Pevm.DependencyGraph.Adding.{link-IsGraph}
use congestion_control.Pevm.DependencyGraph.Integration.{take_tail, connect}
use congestion_control.Pevm.DependencyGraph.Edges.{content, content-link}
use congestion_control.Pevm.DependencyGraph.Integration.Joining.{
  tail_after, head_after, joined_taken, Joins, edge-link, tail_here, tail_elsewhere, head-take_tail,
  at_address, not_joined, single_edge,
}
use congestion_control.Pevm.DependencyGraph.Integration.Taking.{
  connect_edge_at, take_tail-IsGraph, take_tail_rest,
}
use congestion_control.Pevm.DependencyGraph.Integration.Counting.{edge_count, edge_count-link}

-- What one or more addresses leave of the graph `g`, given the count before and the result.
pub record IsConnected (other g : TransactionGraph) (e : ℕ) (touches : ℕ → Bool)
    (r : TransactionGraph × Result ℕ) : Type 0 where
  pub edges : ℕ
  pub good : r.1 ≡ ok edges
  pub valid : IsGraph r.0
  pub same_index : r.0.id_to_index ≡ g.id_to_index
  pub same_length : length r.0.nodes ≡ length g.nodes
  pub counted : edge_count r.0.nodes + e ≡ edge_count g.nodes + edges
  pub elsewhere : (b : ℕ) → touches b ≡ false → lookup b r.0.tail_txns ≡ lookup b g.tail_txns
  pub tails :
      (b : ℕ)
      → lookup b r.0.tail_txns ≡ (if touches b then tail_after other g b else lookup b g.tail_txns)
  pub heads :
      (b : ℕ)
      → lookup b r.0.head_txns ≡ (if touches b then head_after other g b else lookup b g.head_txns)
  pub edge :
      (p c : ℕ)
      → (0 < count c (children_of r.0.nodes p)) ↔ (
          (0 < count c (children_of g.nodes p))
          ⊎ ((a : ℕ) × (touches a ≡ true) × Joins other g a p c))
  pub contents : (i : ℕ) → content (get_or r.0.nodes i no_node) ≡ content (get_or g.nodes i no_node)

-- The second graph's part of the merged index: its nodes stand from `base` on.
abbrev pub IsShifted : ℕ → TransactionGraph → TransactionGraph → Type 0
IsShifted base other g =
    (id : TransactionId) (i : ℕ)
    → lookup id other.id_to_index ≡ some i
    → lookup id g.id_to_index ≡ some (base + i)

module _ (base : ℕ) (other : TransactionGraph) (ko : IsGraph other) where
  -- The tail of the address, if any, is a node of the first graph.
  abbrev pub IsOldTail : TransactionGraph → ℕ → Type 0
  IsOldTail g a =
      (id : TransactionId) → lookup a g.tail_txns ≡ some id → IsBelow g.id_to_index base id

  tail_known :
      (g : TransactionGraph) (a : ℕ)
      → IsShifted base other g
      → (id : TransactionId) → lookup a other.tail_txns ≡ some id
      → has_key id g.id_to_index ≡ true
  tail_known g a sh id e = elim (Option-cases (lookup id other.id_to_index)) [
    | inl x ↦ let t = ko.tails a id e in absurd (ground arith)
    | inr (i, x) ↦ let y = sh id i x in ground arith
  ]

  head_at :
      (g : TransactionGraph) (a : ℕ) (id : TransactionId)
      → IsShifted base other g
      → lookup a other.head_txns ≡ some id
      → (i : ℕ) × (lookup id g.id_to_index ≡ some (base + i))
  head_at g a id sh e = elim (Option-cases (lookup id other.id_to_index)) [
    | inl x ↦ let t = ko.heads a id e in absurd (ground arith)
    | inr (i, x) ↦ (i, sh id i x)
  ]

  connect-none :
      (g : TransactionGraph) (a e : ℕ)
      → lookup a other.head_txns ≡ none
      → connect other g a e ≡ (g, ok e)
  unfolding connect
  connect-none g a e x = ground arith

  connect_first :
      (g : TransactionGraph) (a e : ℕ) (head : TransactionId)
      → lookup a other.head_txns ≡ some head
      → lookup a g.tail_txns ≡ none
      → connect other g a e
        ≡ (take_tail other (record g { head_txns = insert a head g.head_txns }) a, ok e)
  unfolding connect
  connect_first g a e head x y = ground arith

  connect_both :
      (g : TransactionGraph) (a e : ℕ) (head tail : TransactionId) (p c : ℕ)
      → lookup a other.head_txns ≡ some head
      → lookup a g.tail_txns ≡ some tail
      → lookup tail g.id_to_index ≡ some p
      → lookup head g.id_to_index ≡ some c
      → connect other g a e ≡ (
        take_tail other (record g { nodes = link g.nodes p c }) a,
        ok (if contains c (children_of g.nodes p) then e else e + 1),
      )
  unfolding connect
  connect_both g a e head tail p c x y ep ec =
      let edge = connect_edge_at g tail head p c e ep ec in ground arith

  none_case :
      (g : TransactionGraph) (a e : ℕ)
      → IsGraph g
      → lookup a other.head_txns ≡ none
      → IsConnected other g e (λ b. a == b) (connect other g a e)
  none_case g a e k x = rw (connect-none g a e x) (record {
    edges = e;
    good = refl;
    valid = k;
    same_index = refl;
    same_length = refl;
    counted = refl;
    elsewhere = λ b n. refl;
    tails = λ b.
        at_address a b (λ x. lookup x g.tail_txns) (tail_after other g) (lookup b g.tail_txns)
          (ground (arith, x)) (λ n. refl);
    heads = λ b.
        at_address a b (λ x. lookup x g.head_txns) (head_after other g) (lookup b g.head_txns)
          (ground (arith, x)) (λ n. refl);
    edge = λ p c. (
      λ h. inl h,
      λ h. elim h [ inl y ↦ y | inr (b, t, j) ↦ not_joined other g a b p c (inl x) t j ],
    );
    contents = λ i. refl;
  })

  first_case :
      (g : TransactionGraph) (a e : ℕ) (head : TransactionId) (i : ℕ)
      → IsGraph g
      → IsShifted base other g
      → lookup a other.head_txns ≡ some head
      → lookup head g.id_to_index ≡ some (base + i)
      → lookup a g.tail_txns ≡ none
      → IsConnected other g e (λ b. a == b) (connect other g a e)
  first_case g a e head i k sh x at y =
      let g' = record g { head_txns = insert a head g.head_txns } in
      let k' : IsGraph g' = record {
        indexed = k.indexed;
        found = k.found;
        mirrored = k.mirrored;
        forward = k.forward;
        heads = λ b id f. ground (arith, lookup-insert a b head g.head_txns, k.heads b id);
        tails = k.tails;
      } in
      let (n, ix, el) = take_tail_rest other g' a in
      rw (connect_first g a e head x y) (record {
        edges = e;
        good = refl;
        valid = take_tail-IsGraph other g' a (tail_known g' a sh) k';
        same_index = ix;
        same_length = ap length n;
        counted = ap (λ ns. edge_count ns + e) n;
        elsewhere = el;
        tails = λ b.
            at_address a b (λ z. lookup z (take_tail other g' a).tail_txns) (tail_after other g)
              (lookup b g.tail_txns)
              (joined_taken (lookup a (take_tail other g' a).tail_txns) (lookup a other.head_txns)
                (lookup a other.tail_txns) (lookup a g.tail_txns) head x (tail_here other g' a))
              (λ n. tail_elsewhere other g' a b n);
        heads = λ b. rw (head-take_tail other g' a) (
            at_address a b (λ z. lookup z g'.head_txns) (head_after other g) (lookup b g.head_txns)
              (ground (arith, x, y, lookup-insert a a head g.head_txns))
              (λ n. ground (arith, n, lookup-insert a b head g.head_txns)));
        edge = λ p c. (
          λ h. inl (subst (λ ns. 0 < count c (children_of ns p)) n h),
          λ h.
              subst (λ ns. 0 < count c (children_of ns p)) (sym n)
                (elim h [ inl u ↦ u | inr (b, t, j) ↦ not_joined other g a b p c (inr y) t j ]),
        );
        contents = λ j. ap (λ ns. content (get_or ns j no_node)) n;
      })

  both_case :
      (g : TransactionGraph) (a e : ℕ) (head tail : TransactionId) (p i : ℕ)
      → IsGraph g
      → IsShifted base other g
      → lookup a other.head_txns ≡ some head
      → lookup head g.id_to_index ≡ some (base + i)
      → lookup a g.tail_txns ≡ some tail
      → lookup tail g.id_to_index ≡ some p
      → p < base
      → IsConnected other g e (λ b. a == b) (connect other g a e)
  both_case g a e head tail p i k sh x at y ep lp =
      let g' = record g { nodes = link g.nodes p (base + i) } in
      let bound = (k.found head (base + i) at).0 in
      let k' = link-IsGraph g p (base + i) (omega arith) bound k in
      let (n, ix, el) = take_tail_rest other g' a in
      let ct = edge_count-link g.nodes p (base + i) (omega arith) bound in
      rw (connect_both g a e head tail p (base + i) x y ep at) (record {
        edges = if contains (base + i) (children_of g.nodes p) then e else e + 1;
        good = refl;
        valid = take_tail-IsGraph other g' a (tail_known g' a sh) k';
        same_index = ix;
        same_length = ap length n ∙ length-link g.nodes p (base + i);
        counted = rw n (ground arith);
        elsewhere = el;
        tails = λ b.
            at_address a b (λ z. lookup z (take_tail other g' a).tail_txns) (tail_after other g)
              (lookup b g.tail_txns)
              (joined_taken (lookup a (take_tail other g' a).tail_txns) (lookup a other.head_txns)
                (lookup a other.tail_txns) (lookup a g.tail_txns) head x (tail_here other g' a))
              (λ n. tail_elsewhere other g' a b n);
        heads = λ b. rw (head-take_tail other g' a) (
            at_address a b (λ z. lookup z g.head_txns) (head_after other g) (lookup b g.head_txns)
              (ground (arith, x, y)) (λ n. refl));
        edge = λ q d.
            let l = edge-link g.nodes p (base + i) q d (omega arith) bound in
            (
              λ h. elim (l.0 (subst (λ ns. 0 < count d (children_of ns q)) n h)) [
                | inl u ↦ inl u
                | inr (s, t) ↦ inr (
                  a,
                  (==_iff a a).1 refl,
                  subst (λ z. Joins other g a q z) t
                      (subst (λ z. Joins other g a z (base + i)) s (tail, head, y, ep, x, at)),
                )
              ],
              λ h.
                  subst (λ ns. 0 < count d (children_of ns q)) (sym n)
                    (l.1 (elim h [
                      | inl u ↦ inl u
                      | inr (b, t, j) ↦
                          inr (single_edge other g a b p (base + i) q d tail head y ep x at t j)
                    ])),
            );
        contents =
            λ j. ap (λ ns. content (get_or ns j no_node)) n ∙ content-link g.nodes p (base + i) j;
      })

  pub connect-IsConnected :
      (g : TransactionGraph) (a e : ℕ)
      → IsGraph g
      → IsShifted base other g
      → IsOldTail g a
      → IsConnected other g e (λ b. a == b) (connect other g a e)
  connect-IsConnected g a e k sh old = elim (Option-cases (lookup a other.head_txns)) [
    | inl x ↦ none_case g a e k x
    | inr (head, x) ↦
        let (i, at) = head_at g a head sh x in
        elim (Option-cases (lookup a g.tail_txns)) [
          | inl y ↦ first_case g a e head i k sh x at y
          | inr (tail, y) ↦
              let (p, ep, lp) = old tail y in both_case g a e head tail p i k sh x at y ep lp
        ]
  ]
