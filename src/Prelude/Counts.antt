-- ===== src/Prelude/Counts.antt =====
-- Counting: how often a number occurs, and how many elements pass a test.
use Prim.Native.Nat.{ℕ, zero, suc, ◌+◌, ◌≤◌, ◌<◌}
use mathlib.Core.Path.{◌≡◌, refl}
use mathlib.Core.Bool.{Bool, true, false, ◌||◌}
use mathlib.Core.List.{List, [], ◌∷◌, ◌++◌}
use native.Mathlib.Omega.{arith}
use congestion_control.Prelude.Tests.{◌==◌, bit}
use congestion_control.Prelude.Lists.{length, get_or, set, replicate}

abbrev pub contains : ℕ → List ℕ → Bool
contains a [] = false
contains a (x ∷ xs) = x == a || contains a xs

abbrev pub count : ℕ → List ℕ → ℕ
count i [] = 0
count i (j ∷ js) = bit (j == i) + count i js

pub count-append : (i : ℕ) (js ks : List ℕ) → count i (js ++ ks) ≡ count i js + count i ks
count-append i [] ks = omega arith
count-append i (j ∷ js) ks = let rest = count-append i js ks in omega arith

pub contains-count : (a : ℕ) (xs : List ℕ) → contains a xs ≡ false → count a xs ≡ 0
contains-count a [] h = refl
contains-count a (x ∷ xs) h = ground (arith, contains-count a xs)

pub count-contains : (a : ℕ) (xs : List ℕ) → contains a xs ≡ true → 0 < count a xs
count-contains a [] h = ground arith
count-contains a (x ∷ xs) h = ground (arith, count-contains a xs)

module _ {ℓ} {A : Type ℓ} where
  abbrev pub count_if : (A → Bool) → List A → ℕ
  count_if p [] = 0
  count_if p (x ∷ xs) = bit (p x) + count_if p xs

  pub count_if-set :
      (p : A → Bool) (xs : List A) (i : ℕ) (v d : A)
      → i < length xs
      → count_if p (set xs i v) + bit (p (get_or xs i d)) ≡ count_if p xs + bit (p v)
  count_if-set p [] i v d h = elim h [ ]
  count_if-set p (x ∷ xs) zero v d h = omega arith
  count_if-set p (x ∷ xs) (suc i) v d h = omega (arith, count_if-set p xs i v d (omega arith))

  pub count_if-append :
      (p : A → Bool) (xs ys : List A) → count_if p (xs ++ ys) ≡ count_if p xs + count_if p ys
  count_if-append p [] ys = omega arith
  count_if-append p (x ∷ xs) ys = omega (arith, count_if-append p xs ys)

  pub count_if-le-length : (p : A → Bool) (xs : List A) → count_if p xs ≤ length xs
  count_if-le-length p [] = omega arith
  count_if-le-length p (x ∷ xs) = ground (arith, count_if-le-length p xs)

  pub count_if-replicate :
      (p : A → Bool) (n : ℕ) (a : A) → p a ≡ false → count_if p (replicate n a) ≡ 0
  count_if-replicate p zero a h = refl
  count_if-replicate p (suc n) a h = ground (arith, count_if-replicate p n a h)

  -- The count depends on what each place holds only.
  pub count_if_pointwise :
      (p : A → Bool) (xs ys : List A) (d : A)
      → length xs ≡ length ys
      → ((i : ℕ) → i < length xs → p (get_or xs i d) ≡ p (get_or ys i d))
      → count_if p xs ≡ count_if p ys
  count_if_pointwise p [] [] d l h = refl
  count_if_pointwise p [] (y ∷ ys) d l h = absurd (omega arith)
  count_if_pointwise p (x ∷ xs) [] d l h = absurd (omega arith)
  count_if_pointwise p (x ∷ xs) (y ∷ ys) d l h = ground (
    arith,
    h 0 (omega arith),
    count_if_pointwise p xs ys d (omega arith) (λ i k. h (suc i) (omega arith)),
  )

  pub count_if_all :
      (p : A → Bool) (xs : List A) (d : A)
      → ((i : ℕ) → i < length xs → p (get_or xs i d) ≡ true)
      → count_if p xs ≡ length xs
  count_if_all p [] d h = refl
  count_if_all p (x ∷ xs) d h =
      ground (arith, h 0 (omega arith), count_if_all p xs d (λ i k. h (suc i) (omega arith)))
