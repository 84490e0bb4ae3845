-- ===== src/Pevm/DependencyGraph/Integration/Taking.antt =====
-- The steps of `integrate_graph` at one address: the edge, and the second graph's tail.
use congestion_control.Prelude.{
  ℕ, ◌+◌, ◌≡◌, refl, true, false, arith, ◌==◌, if◌then◌else◌, contains, some, none, inl, inr,
  Option-cases,
}
use congestion_control.Prelude.Maps.{nat_eq, lookup, insert, lookup-insert, has_key}
use congestion_control.Pevm.Node.{TransactionId}
use congestion_control.Pevm.DependencyGraph.{
  TransactionGraph, ok, transaction_id_eq, has_edge, link, add_edge,
}
use congestion_control.Pevm.GraphScheduler.{children_of}
use congestion_control.Pevm.DependencyGraph.Building.{IsGraph}
use congestion_control.Pevm.DependencyGraph.Integration.{connect_edge, take_tail}

pub connect_edge_at :
    (g : TransactionGraph) (tail head : TransactionId) (p c e : ℕ)
    → lookup tail g.id_to_index ≡ some p
    → lookup head g.id_to_index ≡ some c
    → connect_edge g tail head e ≡ (
      record g { nodes = link g.nodes p c },
      ok (if contains c (children_of g.nodes p) then e else e + 1),
    )
unfolding connect_edge has_edge add_edge link
connect_edge_at g tail head p c e et eh = ground arith

take_tail-none :
    (other g : TransactionGraph) (a : ℕ) → lookup a other.tail_txns ≡ none → take_tail other g a ≡ g
unfolding take_tail
take_tail-none other g a e = ground arith

take_tail-some :
    (other g : TransactionGraph) (a : ℕ) (t : TransactionId)
    → lookup a other.tail_txns ≡ some t
    → take_tail other g a ≡ record g { tail_txns = insert a t g.tail_txns }
unfolding take_tail
take_tail-some other g a t e = ground arith

pub take_tail-IsGraph :
    (other g : TransactionGraph) (a : ℕ)
    → ((id : TransactionId) → lookup a other.tail_txns ≡ some id → has_key id g.id_to_index ≡ true)
    → IsGraph g
    → IsGraph (take_tail other g a)
take_tail-IsGraph other g a known k = elim (Option-cases (lookup a other.tail_txns)) [
  | inl e ↦ rw (take_tail-none other g a e) k
  | inr (t, e) ↦ rw (take_tail-some other g a t e) (record {
    indexed = k.indexed;
    found = k.found;
    mirrored = k.mirrored;
    forward = k.forward;
    heads = k.heads;
    tails = λ b id f. ground (arith, lookup-insert a b t g.tail_txns, k.tails b id, known t e);
  })
]

pub take_tail_rest :
    (other g : TransactionGraph) (a : ℕ)
    → ((take_tail other g a).nodes ≡ g.nodes)
      × ((take_tail other g a).id_to_index ≡ g.id_to_index)
      × ((b : ℕ)
          → (a == b) ≡ false
          → lookup b (take_tail other g a).tail_txns ≡ lookup b g.tail_txns)
take_tail_rest other g a = elim (Option-cases (lookup a other.tail_txns)) [
  | inl e ↦ rw (take_tail-none other g a e) (refl, refl, λ b n. refl)
  | inr (t, e) ↦
      rw (take_tail-some other g a t e)
        (refl, refl, λ b n. ground (arith, lookup-insert a b t g.tail_txns))
]
