-- ===== src/Pevm/DependencyGraph/Keys.antt =====
-- `sorted_is_disjoint` of dependency_graph.rs: the linear merge scan of two sorted key vectors.
use Prim.Native.Nat.{compare, Ordering}
use congestion_control.Prelude.{
  ℕ, ◌≡◌, ◌≤◌, ◌<◌, ◌↔◌, refl, Bool, true, false, List, [], ◌∷◌, arith, contains, ◌⊎◌, inl, inr,
}

-- The two indices of the scan only grow: what is left of the vectors stands for them.
unfoldable pub sorted_is_disjoint : List ℕ → List ℕ → Bool
sorted_is_disjoint [] ys = true
sorted_is_disjoint (a ∷ xs) [] = true
sorted_is_disjoint (a ∷ xs) (b ∷ ys) = elim (compare a b) [
  | Ordering.eq ↦ false
  | Ordering.lt ↦ sorted_is_disjoint xs (b ∷ ys)
  | Ordering.gt ↦ sorted_is_disjoint (a ∷ xs) ys
]

-- Every key of the list is above the bound.
abbrev pub IsAbove : ℕ → List ℕ → Type 0
IsAbove b [] = Unit {0}
IsAbove b (x ∷ xs) = (b < x) × IsAbove b xs

-- The invariant of `KeySet`: sorted, with no key twice.
abbrev pub IsKeySet : List ℕ → Type 0
IsKeySet [] = Unit {0}
IsKeySet (x ∷ xs) = IsAbove x xs × IsKeySet xs

not-contains_above : (b k : ℕ) (xs : List ℕ) → IsAbove b xs → k ≤ b → contains k xs ≡ false
not-contains_above b k [] h l = refl
not-contains_above b k (x ∷ xs) h l = ground (arith, not-contains_above b k xs h.1 l)

sound :
    (xs ys : List ℕ) (k : ℕ)
    → IsKeySet xs
    → IsKeySet ys
    → sorted_is_disjoint xs ys ≡ true
    → contains k xs ≡ true
    → contains k ys ≡ false
unfolding sorted_is_disjoint
sound [] ys k ha hb d c = ground arith
sound (a ∷ xs) [] k ha hb d c = refl
sound (a ∷ xs) (b ∷ ys) k ha hb d c = ground (
  arith,
  sound xs (b ∷ ys) k ha.1 hb,
  sound (a ∷ xs) ys k ha hb.1,
  not-contains_above b k ys hb.0,
  not-contains_above a k xs ha.0,
)

complete :
    (xs ys : List ℕ)
    → IsKeySet xs
    → IsKeySet ys
    → ((k : ℕ) → contains k xs ≡ true → contains k ys ≡ false)
    → sorted_is_disjoint xs ys ≡ true
unfolding sorted_is_disjoint
complete [] ys ha hb h = refl
complete (a ∷ xs) [] ha hb h = refl
complete (a ∷ xs) (b ∷ ys) ha hb h =
    let first = h a (ground arith) in
    ground (
      arith,
      complete xs (b ∷ ys) ha.1 hb (λ k c. h k (ground arith)),
      complete (a ∷ xs) ys ha hb.1 (λ k c. let n = h k c in ground arith),
    )

-- The scan answers that two key vectors are disjoint exactly if no key is in both.
pub sorted_is_disjoint_iff :
    (xs ys : List ℕ)
    → IsKeySet xs
    → IsKeySet ys
    → (sorted_is_disjoint xs ys ≡ true) ↔ ((k : ℕ) → contains k xs ≡ true → contains k ys ≡ false)
sorted_is_disjoint_iff xs ys hx hy = (λ d k. sound xs ys k hx hy d, complete xs ys hx hy)

-- A key in both is found, in sorted vectors.
pub overlap :
    (xs ys : List ℕ) (k : ℕ)
    → IsKeySet xs
    → IsKeySet ys
    → contains k xs ≡ true
    → contains k ys ≡ true
    → sorted_is_disjoint xs ys ≡ false
overlap xs ys k hx hy cx cy = let n = sound xs ys k hx hy in ground arith

-- Where it answers that they are not, a key is in both, sorted or not.
pub shared_key :
    (xs ys : List ℕ)
    → sorted_is_disjoint xs ys ≡ false
    → (k : ℕ) × (contains k xs ≡ true) × (contains k ys ≡ true)
unfolding sorted_is_disjoint
shared_key [] ys d = absurd (ground arith)
shared_key (a ∷ xs) [] d = absurd (ground arith)
shared_key (a ∷ xs) (b ∷ ys) d = elim (order a b) [
  | inl e ↦ (a, ground arith, ground arith)
  | inr (inl l) ↦ let (k, p, q) = shared_key xs (b ∷ ys) (ground arith) in (k, ground arith, q)
  | inr (inr g) ↦ let (k, p, q) = shared_key (a ∷ xs) ys (ground arith) in (k, p, ground arith)
]
  where
    order : (a b : ℕ) → (a ≡ b) ⊎ ((a < b) ⊎ (b < a))
    order a b = ground arith
