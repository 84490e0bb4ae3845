-- ===== src/Pevm/DependencyGraph/Integration/Addresses.antt =====
-- The addresses that `integrate_graph` goes over: each once, and every one that has an end.
use congestion_control.Prelude.{
  ℕ, ◌+◌, ◌≡◌, ◌≤◌, ◌<◌, true, List, [], ◌∷◌, arith, ◌==◌, count, contains, contains-count,
  count-contains, count-append, some, inl, inr, Bool-cases,
}
use congestion_control.Prelude.Maps.{Map, nat_eq, lookup, keys_of}
use congestion_control.Pevm.Node.{TransactionId}
use congestion_control.Pevm.DependencyGraph.{TransactionGraph, HashOrder, extend, set_insert}
use congestion_control.Pevm.DependencyGraph.Integration.{all_addresses}

abbrev pub IsOnce : List ℕ → Type 0
IsOnce xs = (a : ℕ) → count a xs ≤ 1

extend-IsOnce : (xs ks : List ℕ) → IsOnce xs → IsOnce (extend xs ks)
unfolding extend
extend-IsOnce xs [] o = o
extend-IsOnce xs (k ∷ ks) o =
    extend-IsOnce (set_insert k xs) ks
      (λ a. ground (arith, o a, contains-count k xs, count-append a xs (k ∷ [])))

pub all_addresses-IsOnce : (g other : TransactionGraph) → IsOnce (all_addresses g other)
unfolding all_addresses
all_addresses-IsOnce g other =
    extend-IsOnce _ _
      (extend-IsOnce _ _ (extend-IsOnce _ _ (extend-IsOnce [] _ (λ a. omega arith))))

count-keys_of :
    {V : Type 0} → (a : ℕ) (m : Map ℕ V) (v : V) → lookup a m ≡ some v → 0 < count a (keys_of m)
unfolding lookup keys_of
count-keys_of a [] v h = ground (arith, h)
count-keys_of a ((k, w) ∷ m) v h = elim (Bool-cases (k == a)) [
  | inl y ↦ ground (arith, y)
  | inr n ↦ let r = count-keys_of a m v (ground (arith, n, h)) in omega arith
]

count-extend : (a : ℕ) (xs ks : List ℕ) → 0 < count a xs + count a ks → 0 < count a (extend xs ks)
unfolding extend
count-extend a xs [] h = omega arith
count-extend a xs (k ∷ ks) h =
    count-extend a (set_insert k xs) ks (elim (Bool-cases (contains k xs)) [
      | inl y ↦
          let c = count-contains k xs y in
          elim (Bool-cases (k == a)) [
            | inl e ↦ ground (arith, c, y, e, h)
            | inr n ↦ ground (arith, y, n, h)
          ]
      | inr z ↦ ground (arith, z, count-append a xs (k ∷ []), h)
    ])

contains-if : (a : ℕ) (xs : List ℕ) → 0 < count a xs → contains a xs ≡ true
contains-if a xs h = elim (Bool-cases (contains a xs)) [
  | inl y ↦ y
  | inr n ↦ let z = contains-count a xs n in absurd (omega arith)
]

module _ (h : HashOrder) (g other : TransactionGraph) (a : ℕ) where
  listed : 0 < count a (all_addresses g other) → contains a (h.keys (all_addresses g other)) ≡ true
  listed p =
      contains-if a (h.keys (all_addresses g other))
        (omega (arith, h.keys_same a (all_addresses g other)))

  pub tail_listed :
      (t : TransactionId)
      → lookup a g.tail_txns ≡ some t
      → contains a (h.keys (all_addresses g other)) ≡ true
  unfolding all_addresses
  tail_listed t e =
      let one = extend [] (keys_of g.head_txns) in
      let two = extend one (keys_of g.tail_txns) in
      let three = extend two (keys_of other.head_txns) in
      let k = count-keys_of a g.tail_txns t e in
      let x = count-extend a one (keys_of g.tail_txns) (omega arith) in
      let y = count-extend a two (keys_of other.head_txns) (omega arith) in
      listed (count-extend a three (keys_of other.tail_txns) (omega arith))

  pub head_listed :
      (t : TransactionId)
      → lookup a other.head_txns ≡ some t
      → contains a (h.keys (all_addresses g other)) ≡ true
  unfolding all_addresses
  head_listed t e =
      let one = extend [] (keys_of g.head_txns) in
      let two = extend one (keys_of g.tail_txns) in
      let three = extend two (keys_of other.head_txns) in
      let k = count-keys_of a other.head_txns t e in
      let y = count-extend a two (keys_of other.head_txns) (omega arith) in
      listed (count-extend a three (keys_of other.tail_txns) (omega arith))
