-- ===== src/Pevm/DependencyGraph/Conflicts.antt =====
-- The addresses and the conflicts that `add_transaction` of dependency_graph.rs collects.
use congestion_control.Prelude.{
  ℕ, ◌+◌, ◌≡◌, ◌<◌, ==_iff, ◌↔◌, ap, ◌∙◌, true, List, [], ◌∷◌, arith, ◌==◌, count, count_if,
  count_if-append, some, count-append, count-contains, Bool-cases, inl, inr, Option-cases,
}
use congestion_control.Prelude.Maps.{nat_eq}
use congestion_control.Pevm.Node.{TransactionId, id_eq, TransactionNode}
use congestion_control.Pevm.DependencyGraph.{
  extend, set_insert, TransactionGraph, transaction_id_eq, conflict, conflicts, addresses,
  set_insert_id, contains_id,
}
use congestion_control.Pevm.DependencyGraph.Adding.{id_eq_refl}

contains_id-count :
    (i : TransactionId) (xs : List TransactionId)
    → contains_id i xs ≡ true
    → 0 < count_if (id_eq i) xs
contains_id-count i [] h = ground arith
contains_id-count i (x ∷ xs) h = ground (arith, contains_id-count i xs)

set_insert_id_self :
    (i : TransactionId) (xs : List TransactionId) → 0 < count_if (id_eq i) (set_insert_id i xs)
set_insert_id_self i xs =
    ground (arith, contains_id-count i xs, id_eq_refl i, count_if-append (id_eq i) xs (i ∷ []))

set_insert_id-keeps :
    (i j : TransactionId) (xs : List TransactionId)
    → 0 < count_if (id_eq i) xs
    → 0 < count_if (id_eq i) (set_insert_id j xs)
set_insert_id-keeps i j xs h = ground (arith, count_if-append (id_eq i) xs (j ∷ []))

conflicts-keeps :
    (g : TransactionGraph) (n : TransactionNode) (found : List TransactionId) (addrs : List ℕ)
    (id : TransactionId)
    → 0 < count_if (id_eq id) found
    → 0 < count_if (id_eq id) (conflicts g n found addrs)
unfolding conflicts
conflicts-keeps g n found [] id h = h
conflicts-keeps g n found (a ∷ rest) id h = elim (Option-cases (conflict g n a)) [
  | inl e ↦ rw e (conflicts-keeps g n found rest id h)
  | inr (t, e) ↦
      rw e (conflicts-keeps g n (set_insert_id t found) rest id (set_insert_id-keeps id t found h))
]

pub conflicts-finds :
    (g : TransactionGraph) (n : TransactionNode) (addrs : List ℕ) (found : List TransactionId)
    (a : ℕ) (id : TransactionId)
    → 0 < count a addrs
    → conflict g n a ≡ some id
    → 0 < count_if (id_eq id) (conflicts g n found addrs)
unfolding conflicts
conflicts-finds g n [] found a id h e = elim h [ ]
conflicts-finds g n (b ∷ rest) found a id h e = elim (Bool-cases (b == a)) [
  | inl same ↦
      let e' : conflict g n b ≡ some id = ap (conflict g n) ((==_iff b a).0 same) ∙ e in
      rw e' (conflicts-keeps g n (set_insert_id id found) rest id (set_insert_id_self id found))
  | inr other ↦ conflicts-finds g n rest _ a id (ground arith) e
]

count-extend :
    (a : ℕ) (xs ks : List ℕ) → (0 < count a (extend xs ks)) ↔ (0 < count a xs + count a ks)
unfolding extend
count-extend a xs [] = ground arith
count-extend a xs (k ∷ ks) =
    let rest = count-extend a (set_insert k xs) ks in
    ground (arith, count-append a xs (k ∷ []), count-contains k xs)

pub count-addresses :
    (a : ℕ) (n : TransactionNode)
    → (0 < count a (addresses n)) ↔ (0 < count a n.read_set + count a n.write_set)
unfolding addresses
count-addresses a n =
    let first = count-extend a [] n.read_set in
    let both = count-extend a (extend [] n.read_set) n.write_set in ground arith
