-- ===== src/Pevm/DependencyGraph/Integration/Joining.antt =====
-- What step 4 of `integrate_graph` may change: the edges, the ends of an address, and nothing else of a node.
use congestion_control.Prelude.{
  ℕ, ◌≡◌, ◌<◌, ◌↔◌, ◌⊎◌, sym, true, false, List, arith, ◌==◌, ==_iff, if◌then◌else◌, count,
  contains, count-contains, length, Option, some, none, inl, inr, Option-cases, Bool-cases, ◌&&◌,
  subst,
}
use congestion_control.Prelude.Maps.{nat_eq, lookup, lookup-insert}
use congestion_control.Pevm.Node.{TransactionId, TransactionNode}
use congestion_control.Pevm.DependencyGraph.{TransactionGraph, transaction_id_eq, link}
use congestion_control.Pevm.DependencyGraph.Edges.{link_at}
use congestion_control.Pevm.GraphScheduler.{children_of}
use congestion_control.Pevm.DependencyGraph.Integration.{take_tail}

-- The ends of an address that the second graph has a head of.
abbrev pub joined_tail :
    Option TransactionId → Option TransactionId → Option TransactionId → Option TransactionId
joined_tail (some h) (some t) old = some t
joined_tail (some h) none old = old
joined_tail none t old = old

abbrev pub joined_head :
    Option TransactionId → Option TransactionId → Option TransactionId → Option TransactionId
joined_head (some h) none old = some h
joined_head (some h) (some t) old = old
joined_head none t old = old

-- The ends of an address after step 4 has been at it.
abbrev pub tail_after : TransactionGraph → TransactionGraph → ℕ → Option TransactionId
tail_after other g a =
    joined_tail (lookup a other.head_txns) (lookup a other.tail_txns) (lookup a g.tail_txns)

abbrev pub head_after : TransactionGraph → TransactionGraph → ℕ → Option TransactionId
head_after other g a =
    joined_head (lookup a other.head_txns) (lookup a g.tail_txns) (lookup a g.head_txns)

-- The address leads from the tail in `g`, node `p`, to the second graph's head, node `c`.
abbrev pub Joins : TransactionGraph → TransactionGraph → ℕ → ℕ → ℕ → Type 0
Joins other g a p c =
    (tail : TransactionId) × (head : TransactionId) × (lookup a g.tail_txns ≡ some tail)
    × (lookup tail g.id_to_index ≡ some p)
    × (lookup a other.head_txns ≡ some head)
    × (lookup head g.id_to_index ≡ some c)

linked :
    (nodes : List TransactionNode) (p c : ℕ)
    → p < length nodes
    → c < length nodes
    → 0 < count c (children_of (link nodes p c) p)
linked nodes p c hp hc =
    let e = (link_at nodes p c p c hp hc).0 in
    elim (Bool-cases (contains c (children_of nodes p))) [
      | inl y ↦ let k = count-contains c (children_of nodes p) y in omega (arith, e)
      | inr n ↦ ground (arith, e, n)
    ]

pub edge-link :
    (nodes : List TransactionNode) (p c q d : ℕ)
    → p < length nodes
    → c < length nodes
    → (0 < count d (children_of (link nodes p c) q))
      ↔ ((0 < count d (children_of nodes q)) ⊎ ((p ≡ q) × (c ≡ d)))
edge-link nodes p c q d hp hc =
    let e = (link_at nodes p c q d hp hc).0 in
    (
      λ h. elim (Bool-cases (p == q && c == d)) [
        | inl y ↦ inr (ground (arith, y), ground (arith, y))
        | inr n ↦ inl (ground (arith, e, n, h))
      ],
      λ h. elim h [
        | inl x ↦ omega (arith, e)
        | inr (s, t) ↦ rw (sym s, sym t) (linked nodes p c hp hc)
      ],
    )

abbrev pub taken : Option TransactionId → Option TransactionId → Option TransactionId
taken none old = old
taken (some t) old = some t

pub tail_here :
    (other g : TransactionGraph) (a : ℕ)
    → lookup a (take_tail other g a).tail_txns
      ≡ taken (lookup a other.tail_txns) (lookup a g.tail_txns)
unfolding take_tail
tail_here other g a = elim (Option-cases (lookup a other.tail_txns)) [
  | inl e ↦ ground (arith, e)
  | inr (t, e) ↦ ground (arith, e, lookup-insert a a t g.tail_txns)
]

pub tail_elsewhere :
    (other g : TransactionGraph) (a b : ℕ)
    → (a == b) ≡ false
    → lookup b (take_tail other g a).tail_txns ≡ lookup b g.tail_txns
unfolding take_tail
tail_elsewhere other g a b n = elim (Option-cases (lookup a other.tail_txns)) [
  | inl e ↦ ground (arith, e)
  | inr (t, e) ↦ ground (arith, e, n, lookup-insert a b t g.tail_txns)
]

pub joined_taken :
    (new oh ot old : Option TransactionId) (head : TransactionId)
    → oh ≡ some head
    → new ≡ taken ot old
    → new ≡ joined_tail oh ot old
joined_taken new oh none old head x h = ground (arith, x, h)
joined_taken new oh (some t) old head x h = ground (arith, x, h)

pub head-take_tail :
    (other g : TransactionGraph) (a : ℕ) → (take_tail other g a).head_txns ≡ g.head_txns
unfolding take_tail
head-take_tail other g a = elim (Option-cases (lookup a other.tail_txns)) [
  | inl e ↦ ground (arith, e)
  | inr (t, e) ↦ ground (arith, e)
]

-- What holds at an address, and what elsewhere.
pub at_address :
    (a b : ℕ) (u v : ℕ → Option TransactionId) (w : Option TransactionId)
    → u a ≡ v a
    → ((a == b) ≡ false → u b ≡ w)
    → u b ≡ (if a == b then v b else w)
at_address a b u v w h k = elim (Bool-cases (a == b)) [
  | inl y ↦ rw y (subst (λ x. u x ≡ v x) ((==_iff a b).0 y) h)
  | inr n ↦ rw n (k n)
]

-- An address without a head in the second graph, or without a tail in the first, joins nothing.
pub not_joined :
    (other g : TransactionGraph) (a b p c : ℕ)
    → (lookup a other.head_txns ≡ none) ⊎ (lookup a g.tail_txns ≡ none)
    → (a == b) ≡ true
    → Joins other g b p c
    → 0 < count c (children_of g.nodes p)
not_joined other g a b p c h y j =
    let (tail, head, et, ep, eh, ec) =
      subst (λ x. Joins other g x p c) (sym ((==_iff a b).0 y)) j in
    elim h [ inl x ↦ absurd (ground (arith, x, eh)) | inr x ↦ absurd (ground (arith, x, et)) ]

-- The one edge that an address joins.
pub single_edge :
    (other g : TransactionGraph) (a b p c q d : ℕ) (tail head : TransactionId)
    → lookup a g.tail_txns ≡ some tail
    → lookup tail g.id_to_index ≡ some p
    → lookup a other.head_txns ≡ some head
    → lookup head g.id_to_index ≡ some c
    → (a == b) ≡ true
    → Joins other g b q d
    → (p ≡ q) × (c ≡ d)
single_edge other g a b p c q d tail head et ep eh ec y j =
    let (tail', head', et', ep', eh', ec') =
      subst (λ x. Joins other g x q d) (sym ((==_iff a b).0 y)) j in
    let s : tail ≡ tail' = cc in
    let t : head ≡ head' = cc in
    let ep2 : lookup tail g.id_to_index ≡ some q = rw s ep' in
    let ec2 : lookup head g.id_to_index ≡ some d = rw t ec' in (cc, cc)
