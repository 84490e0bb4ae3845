-- ===== src/Pevm/DependencyGraph/Integration/Looping.antt =====
-- The loop of step 4 of `integrate_graph` over the addresses.
use congestion_control.Prelude.{
  ℕ, ◌≡◌, ◌<◌, ◌↔◌, ◌⊎◌, refl, sym, ap, ◌∙◌, true, false, List, [], ◌∷◌, arith, ◌==◌, count,
  contains, count-contains, inl, inr, Bool-cases, if◌then◌else◌,
}
use congestion_control.Prelude.Maps.{nat_eq, lookup}
use congestion_control.Pevm.GraphScheduler.{children_of}
use congestion_control.Pevm.DependencyGraph.{TransactionGraph, Result, ok, transaction_id_eq}
use congestion_control.Pevm.DependencyGraph.Building.{IsGraph}
use congestion_control.Pevm.DependencyGraph.Integration.{connect, connect_all}
use congestion_control.Pevm.DependencyGraph.Integration.Addresses.{IsOnce}
use congestion_control.Pevm.DependencyGraph.Integration.Joining.{Joins, joined_tail, joined_head}
use congestion_control.Pevm.DependencyGraph.Integration.Connecting.{
  IsConnected, IsShifted, IsOldTail, connect-IsConnected,
}

not_again :
    (a b : ℕ) (rest : List ℕ) → IsOnce (a ∷ rest) → (a == b) ≡ true → contains b rest ≡ false
not_again a b rest once y = elim (Bool-cases (contains b rest)) [
  | inl t ↦ let c = count-contains b rest t in absurd (ground (arith, once b, c, y))
  | inr n ↦ n
]

Joins-same :
    (other g g' : TransactionGraph) (b p c : ℕ)
    → lookup b g'.tail_txns ≡ lookup b g.tail_txns
    → g'.id_to_index ≡ g.id_to_index
    → Joins other g b p c
    → Joins other g' b p c
Joins-same other g g' b p c t i j =
    let (tail, head, et, ep, eh, ec) = j in
    (tail, head, t ∙ et, ap (lookup tail) i ∙ ep, eh, ap (lookup head) i ∙ ec)

module _ (other g : TransactionGraph) (a b : ℕ) (rest : List ℕ) (e : ℕ)
    (r : TransactionGraph × Result ℕ) (once : IsOnce (a ∷ rest))
    (first : IsConnected other g e (λ b. a == b) (connect other g a e)) where
  then_tails :
      lookup b r.0.tail_txns ≡ (
        if contains b rest
        then joined_tail
            (lookup b other.head_txns)
            (lookup b other.tail_txns)
            (lookup b (connect other g a e).0.tail_txns)
        else lookup b (connect other g a e).0.tail_txns)
      → lookup b r.0.tail_txns ≡ (
          if contains b (a ∷ rest)
          then joined_tail
              (lookup b other.head_txns)
              (lookup b other.tail_txns)
              (lookup b g.tail_txns)
          else lookup b g.tail_txns)
  then_tails h =
      let f = first.tails b in
      elim (Bool-cases (a == b)) [
        | inl y ↦ let n = not_again a b rest once y in ground (arith, h, f, y, n)
        | inr x ↦ ground (arith, h, f, x)
      ]

  then_heads :
      lookup b r.0.head_txns ≡ (
        if contains b rest
        then joined_head
            (lookup b other.head_txns)
            (lookup b (connect other g a e).0.tail_txns)
            (lookup b (connect other g a e).0.head_txns)
        else lookup b (connect other g a e).0.head_txns)
      → lookup b r.0.head_txns ≡ (
          if contains b (a ∷ rest)
          then joined_head (lookup b other.head_txns) (lookup b g.tail_txns) (lookup b g.head_txns)
          else lookup b g.head_txns)
  then_heads h =
      let f = first.heads b in
      let t = first.tails b in
      elim (Bool-cases (a == b)) [
        | inl y ↦ let n = not_again a b rest once y in ground (arith, h, f, y, n)
        | inr x ↦ ground (arith, h, f, t, x)
      ]

module _ (other g : TransactionGraph) (a : ℕ) (rest : List ℕ) (e : ℕ)
    (r : TransactionGraph × Result ℕ) (once : IsOnce (a ∷ rest))
    (first : IsConnected other g e (λ b. a == b) (connect other g a e)) where
  -- An address of the rest joins the same before and after the first.
  later_apart : (b : ℕ) → contains b rest ≡ true → (a == b) ≡ false
  later_apart b t = elim (Bool-cases (a == b)) [
    | inl y ↦ let n = not_again a b rest once y in absurd (ground (arith, n, t))
    | inr x ↦ x
  ]

  then_edge :
      (p c : ℕ)
      → (0 < count c (children_of r.0.nodes p)) ↔ (
          (0 < count c (children_of (connect other g a e).0.nodes p))
          ⊎ ((b : ℕ) × (contains b rest ≡ true) × Joins other (connect other g a e).0 b p c))
      → (0 < count c (children_of r.0.nodes p)) ↔ (
          (0 < count c (children_of g.nodes p))
          ⊎ ((b : ℕ) × (contains b (a ∷ rest) ≡ true) × Joins other g b p c))
  then_edge p c h =
      let g' = (connect other g a e).0 in
      (
        λ u. elim (h.0 u) [
          | inl x ↦ elim ((first.edge p c).0 x) [
            | inl y ↦ inl y
            | inr (b, t, j) ↦ inr (b, ground (arith, t), j)
          ]
          | inr (b, t, j) ↦ inr (
            b,
            ground (arith, t),
            Joins-same other g' g b p c (sym (first.elsewhere b (later_apart b t)))
                (sym first.same_index) j,
          )
        ],
        λ u. elim u [
          | inl y ↦ h.1 (inl ((first.edge p c).1 (inl y)))
          | inr (b, t, j) ↦ elim (Bool-cases (a == b)) [
            | inl y ↦ h.1 (inl ((first.edge p c).1 (inr (b, y, j))))
            | inr n ↦ h.1 (
                inr (
                  b,
                  ground (arith, t, n),
                  Joins-same other g g' b p c (first.elsewhere b n) first.same_index j,
                ))
          ]
        ],
      )

connect_all_cons :
    (other g : TransactionGraph) (a : ℕ) (rest : List ℕ) (e e' : ℕ)
    → (connect other g a e).1 ≡ ok e'
    → connect_all other g (a ∷ rest) e ≡ connect_all other (connect other g a e).0 rest e'
unfolding connect_all
connect_all_cons other g a rest e e' h = ground arith

connect_all_nil : (other g : TransactionGraph) (e : ℕ) → connect_all other g [] e ≡ (g, ok e)
unfolding connect_all
connect_all_nil other g e = refl

module _ (base : ℕ) (other : TransactionGraph) (ko : IsGraph other) where
  pub connect_all-IsConnected :
      (g : TransactionGraph) (addrs : List ℕ) (e : ℕ)
      → IsGraph g
      → IsShifted base other g
      → IsOnce addrs
      → ((a : ℕ) → 0 < count a addrs → IsOldTail base other ko g a)
      → IsConnected other g e (λ b. contains b addrs) (connect_all other g addrs e)
  connect_all-IsConnected g [] e k sh once old = rw (connect_all_nil other g e) (record {
    edges = e;
    good = refl;
    valid = k;
    same_index = refl;
    same_length = refl;
    counted = refl;
    elsewhere = λ b n. refl;
    tails = λ b. refl;
    heads = λ b. refl;
    edge =
        λ p c. (λ h. inl h, λ h. elim h [ inl u ↦ u | inr (b, t, j) ↦ absurd (ground (arith, t)) ]);
    contents = λ i. refl;
  })
  connect_all-IsConnected g (a ∷ rest) e k sh once old =
      let first = connect-IsConnected base other ko g a e k sh (old a (ground arith)) in
      let g' = (connect other g a e).0 in
      let rest_old : (b : ℕ) → 0 < count b rest → IsOldTail base other ko g' b = λ b w id f.
        let n : (a == b) ≡ false = ground (arith, once b) in
        let same = first.elsewhere b n in
        rw first.same_index (old b (omega arith) id (sym same ∙ f)) in
      let r =
        connect_all-IsConnected g' rest first.edges first.valid
          (λ id i f. rw first.same_index (sh id i f)) (λ b. omega (arith, once b)) rest_old in
      rw (connect_all_cons other g a rest e first.edges first.good) (record {
        edges = r.edges;
        good = r.good;
        valid = r.valid;
        same_index = r.same_index ∙ first.same_index;
        same_length = r.same_length ∙ first.same_length;
        counted = omega (arith, r.counted, first.counted);
        elsewhere = λ b n. r.elsewhere b (ground arith) ∙ first.elsewhere b (ground arith);
        tails = λ b.
            then_tails other g a b rest e (connect_all other g' rest first.edges) once first
              (r.tails b);
        heads = λ b.
            then_heads other g a b rest e (connect_all other g' rest first.edges) once first
              (r.heads b);
        edge = λ p c.
            then_edge other g a rest e (connect_all other g' rest first.edges) once first p c
              (r.edge p c);
        contents = λ i. r.contents i ∙ first.contents i;
      })
