-- ===== src/Pevm/MvMemory/Ordered.antt =====
-- What the multi-version memory uses of `BTreeMap`: an ordered list, the highest key first.
use congestion_control.Prelude.{
  ℕ, ◌≡◌, ◌<◌, ◌≤◌, refl, List, [], ◌∷◌, none, some, arith, ltb, ◌==◌, if◌then◌else◌,
}
use congestion_control.Prelude.Maps.{nat_eq, lookup}

module _ {V : Type 0} where
  unfoldable pub put : ℕ → V → List (ℕ × V) → List (ℕ × V)
  put k v [] = (k, v) ∷ []
  put k v ((j, w) ∷ m) =
      if j == k then (k, v) ∷ m else if ltb j k then (k, v) ∷ (j, w) ∷ m else (j, w) ∷ put k v m

  unfoldable pub remove : ℕ → List (ℕ × V) → List (ℕ × V)
  remove k [] = []
  remove k ((j, w) ∷ m) = if j == k then m else (j, w) ∷ remove k m

  -- `range(..k)` from its back.
  unfoldable pub below : ℕ → List (ℕ × V) → List (ℕ × V)
  below k [] = []
  below k ((j, w) ∷ m) = if ltb j k then (j, w) ∷ m else below k m

  -- All keys are below the bound.
  abbrev pub IsUnder : ℕ → List (ℕ × V) → Type 0
  IsUnder b [] = Unit {0}
  IsUnder b ((j, w) ∷ m) = (j < b) × IsUnder b m

  abbrev pub IsOrdered : List (ℕ × V) → Type 0
  IsOrdered [] = Unit {0}
  IsOrdered ((j, w) ∷ m) = IsUnder j m × IsOrdered m

  IsUnder-trans : (a b : ℕ) (m : List (ℕ × V)) → a ≤ b → IsUnder a m → IsUnder b m
  IsUnder-trans a b [] l h = tt
  IsUnder-trans a b ((j, w) ∷ m) l h = (ground arith, IsUnder-trans a b m l h.1)

  put-IsUnder : (b k : ℕ) (v : V) (m : List (ℕ × V)) → k < b → IsUnder b m → IsUnder b (put k v m)
  unfolding put
  put-IsUnder b k v [] l h = (l, tt)
  put-IsUnder b k v ((j, w) ∷ m) l h = ground (arith, put-IsUnder b k v m l h.1)

  pub put-IsOrdered : (k : ℕ) (v : V) (m : List (ℕ × V)) → IsOrdered m → IsOrdered (put k v m)
  unfolding put
  put-IsOrdered k v [] h = (tt, tt)
  put-IsOrdered k v ((j, w) ∷ m) h =
      let u = put-IsUnder j k v m in
      let t = IsUnder-trans j k m in let r = put-IsOrdered k v m h.1 in ground arith

  remove-IsUnder : (b k : ℕ) (m : List (ℕ × V)) → IsUnder b m → IsUnder b (remove k m)
  unfolding remove
  remove-IsUnder b k [] h = tt
  remove-IsUnder b k ((j, w) ∷ m) h = ground (arith, remove-IsUnder b k m h.1)

  pub remove-IsOrdered : (k : ℕ) (m : List (ℕ × V)) → IsOrdered m → IsOrdered (remove k m)
  unfolding remove
  remove-IsOrdered k [] h = tt
  remove-IsOrdered k ((j, w) ∷ m) h =
      ground (arith, remove-IsUnder j k m h.0, remove-IsOrdered k m h.1)

  pub under-lookup : (b : ℕ) (m : List (ℕ × V)) (k : ℕ) → IsUnder b m → b ≤ k → lookup k m ≡ none
  unfolding lookup
  under-lookup b [] k h l = refl
  under-lookup b ((j, w) ∷ m) k h l = ground (arith, under-lookup b m k h.1 l)

  pub lookup-put :
      (k : ℕ) (v : V) (m : List (ℕ × V)) (j : ℕ)
      → lookup j (put k v m) ≡ (if k == j then some v else lookup j m)
  unfolding put lookup
  lookup-put k v [] j = ground arith
  lookup-put k v ((i, w) ∷ m) j = ground (arith, lookup-put k v m j)

  pub lookup-remove :
      (k : ℕ) (m : List (ℕ × V)) (j : ℕ)
      → IsOrdered m
      → lookup j (remove k m) ≡ (if k == j then none else lookup j m)
  unfolding remove lookup
  lookup-remove k [] j h = ground arith
  lookup-remove k ((i, w) ∷ m) j h = ground (arith, lookup-remove k m j h.1, under-lookup i m k h.0)

  -- What is at a key does not matter to the range below it.
  pub below-put : (i k : ℕ) (v : V) (m : List (ℕ × V)) → i ≤ k → below i (put k v m) ≡ below i m
  unfolding put below
  below-put i k v [] l = ground arith
  below-put i k v ((j, w) ∷ m) l = ground (arith, below-put i k v m l)

  under-remove : (b : ℕ) (m : List (ℕ × V)) (k : ℕ) → IsUnder b m → b ≤ k → remove k m ≡ m
  unfolding remove
  under-remove b [] k h l = refl
  under-remove b ((j, w) ∷ m) k h l = ground (arith, under-remove b m k h.1 l)

  pub below-remove :
      (i k : ℕ) (m : List (ℕ × V)) → i ≤ k → IsOrdered m → below i (remove k m) ≡ below i m
  unfolding remove below
  below-remove i k [] l h = refl
  below-remove i k ((j, w) ∷ m) l h =
      ground (arith, below-remove i k m l h.1, under-remove j m k h.0)
