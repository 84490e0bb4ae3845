-- ===== src/Mysticeti/BlockManager/Waiting.antt =====
-- Lemmas on the maps of block_manager.rs, and what its loop over the includes of a block does.
use congestion_control.Prelude.{
  ◌+◌, ◌≡◌, ◌≤◌, ◌<◌, refl, subst, true, List, [], ◌∷◌, none, some, ◌||◌, length, if◌then◌else◌,
  arith, Bool-cases, Option-cases, inl, inr,
}
use congestion_control.Prelude.Maps.{Map, lookup, insert, has_key, lookup-insert}
use congestion_control.Mysticeti.Types.{
  BlockReference, reference_eq, reference_eq_iff, block_reference_eq,
}
use congestion_control.Mysticeti.Linearizer.{holds}
use congestion_control.Mysticeti.Linearizer.Counting.{times, not_holds-times}
use congestion_control.Mysticeti.BlockManager.{set_insert, remove_key, waiting_for}

module _ {ℓ} {V : Type ℓ} where
  pub lookup-remove_key :
      (k j : BlockReference) (m : Map BlockReference V)
      → lookup j (remove_key k m) ≡ (if reference_eq k j then none else lookup j m)
  unfolding lookup remove_key
  lookup-remove_key k j [] = ground arith
  lookup-remove_key k j ((i, v) ∷ m) = ground (
    arith,
    reference_eq_iff k j,
    reference_eq_iff i k,
    reference_eq_iff i j,
    lookup-remove_key k j m,
  )

  pub length-remove_key :
      (k : BlockReference) (m : Map BlockReference V) → length (remove_key k m) ≤ length m
  unfolding remove_key
  length-remove_key k [] = omega arith
  length-remove_key k ((i, v) ∷ m) = ground (arith, length-remove_key k m)

  pub length-remove_key_held :
      (k : BlockReference) (m : Map BlockReference V) (v : V)
      → lookup k m ≡ some v
      → length (remove_key k m) < length m
  unfolding remove_key lookup
  length-remove_key_held k [] v h = cc
  length-remove_key_held k ((i, w) ∷ m) v h = elim (Bool-cases (reference_eq i k)) [
    | inl e ↦ let l = length-remove_key k m in rw e (omega arith)
    | inr n ↦ let l = length-remove_key_held k m v (ground (arith, n)) in rw n (omega arith)
  ]

  pub length-insert :
      (k : BlockReference) (v : V) (m : Map BlockReference V) → length (insert k v m) ≤ length m + 1
  unfolding insert
  length-insert k v [] = omega arith
  length-insert k v ((i, w) ∷ m) = ground (arith, length-insert k v m)

pub holds-set_insert :
    (r w : BlockReference) (rs : List BlockReference)
    → holds w (set_insert r rs) ≡ (reference_eq r w || holds w rs)
holds-set_insert r w rs = elim (Bool-cases (holds r rs)) [
  | inr n ↦ rw n refl
  | inl y ↦ elim (Bool-cases (reference_eq r w)) [
    | inl e ↦
        let same : r ≡ w = (reference_eq_iff r w).0 e in
        let y' : holds w rs ≡ true = subst (λ t. holds t rs ≡ true) same y in rw (y, e) y'
    | inr n ↦ rw (y, n) refl
  ]
]

pub times-set_insert :
    (r w : BlockReference) (rs : List BlockReference)
    → times w rs ≤ 1
    → times w (set_insert r rs) ≤ 1
times-set_insert r w rs h = elim (Bool-cases (holds r rs)) [
  | inl y ↦ rw y h
  | inr n ↦ elim (Bool-cases (reference_eq r w)) [
    | inl e ↦
        let same : r ≡ w = (reference_eq_iff r w).0 e in
        let z : times w rs ≡ 0 = subst (λ t. times t rs ≡ 0) same (not_holds-times r rs n) in
        rw (n, e) (omega arith)
    | inr d ↦ rw (n, d) (omega arith)
  ]
]

-- What waits for a reference, after a removal and after an insertion.
pub waiting_for-remove_key :
    (k j : BlockReference) (m : Map BlockReference (List BlockReference))
    → waiting_for j (remove_key k m) ≡ (if reference_eq k j then [] else waiting_for j m)
waiting_for-remove_key k j m = elim (Bool-cases (reference_eq k j)) [
  | inl e ↦ ground (arith, lookup-remove_key k j m, e)
  | inr n ↦ ground (arith, lookup-remove_key k j m, n)
]

pub waiting_for-insert :
    (k j : BlockReference) (rs : List BlockReference) (m : Map BlockReference (List BlockReference))
    → waiting_for j (insert k rs m) ≡ (if reference_eq k j then rs else waiting_for j m)
waiting_for-insert k j rs m = elim (Bool-cases (reference_eq k j)) [
  | inl e ↦ ground (arith, lookup-insert k j rs m, e)
  | inr n ↦ ground (arith, lookup-insert k j rs m, n)
]

pub has_key-waiting :
    (k w : BlockReference) (m : Map BlockReference (List BlockReference))
    → holds w (waiting_for k m) ≡ true
    → has_key k m ≡ true
has_key-waiting k w m h = elim (Option-cases (lookup k m)) [
  | inl n ↦ ground (arith, n)
  | inr (rs, e) ↦ ground (arith, e)
]
