-- ===== src/Prelude/Bits.antt =====
-- The binary digits of native numbers: how `bit_and` and `bit_or` act on the lowest digit, and on a
-- number with a single digit set.
use Prim.Native.Nat.{digits, bit_and-bitwise, bit_or-bitwise}
use native.Mathlib.Nat.{two-pow-succ}
use congestion_control.Prelude.Tests.{◌==◌}
pub use Prim.Native.Nat.{bit_or, bit_and, min, max}
use Prim.Native.Nat.{ℕ, zero, suc, ◌+◌, ◌*◌, ◌/◌, ◌%◌, ◌^◌, ◌≤◌}
use mathlib.Core.Path.{◌≡◌, refl, ap}
use mathlib.Core.Bool.{Bool, ◌||◌}
use native.Mathlib.Omega.{arith}

-- The digits do not depend on the count, once there are enough.
digits_enough :
    (z : ℕ → ℕ) (f : ℕ → ℕ → ℕ) (n m a b : ℕ) → a ≤ n → a ≤ m → digits z f n a b ≡ digits z f m a b
digits_enough z f zero zero a b p q = refl
digits_enough z f zero (suc m) zero b p q = refl
digits_enough z f (suc n) zero zero b p q = refl
digits_enough z f (suc n) (suc m) zero b p q = refl
digits_enough z f zero (suc m) (suc a) b p q = absurd (omega arith)
digits_enough z f (suc n) zero (suc a) b p q = absurd (omega arith)
digits_enough z f (suc n) (suc m) (suc a) b p q =
    ap (λ d. d * 2 + f (suc a % 2) (b % 2))
      (digits_enough z f n m (suc a / 2) (b / 2) (omega arith) (omega arith))

none-and : (b : ℕ) → bit_and 0 b ≡ 0
none-and b = bit_and-bitwise 0 b

none-or : (b : ℕ) → bit_or 0 b ≡ b
none-or b = bit_or-bitwise 0 b

pub bit_and_lowest : (a b : ℕ) → bit_and a b ≡ bit_and (a / 2) (b / 2) * 2 + min (a % 2) (b % 2)
bit_and_lowest zero b = omega (arith, none-and b, none-and (b / 2))
bit_and_lowest (suc a) b =
    let h =
      digits_enough (λ b. zero) min a (suc a / 2) (suc a / 2) (b / 2) (omega arith) (omega arith) in
    omega (arith, bit_and-bitwise (suc a) b, bit_and-bitwise (suc a / 2) (b / 2))

pub bit_or_lowest : (a b : ℕ) → bit_or a b ≡ bit_or (a / 2) (b / 2) * 2 + max (a % 2) (b % 2)
bit_or_lowest zero b = omega (arith, none-or b, none-or (b / 2))
bit_or_lowest (suc a) b =
    let h =
      digits_enough (λ b. b) max a (suc a / 2) (suc a / 2) (b / 2) (omega arith) (omega arith) in
    omega (arith, bit_or-bitwise (suc a) b, bit_or-bitwise (suc a / 2) (b / 2))

-- A number has the digit with the given place.
abbrev pub has : ℕ → ℕ → Bool
has s zero = s % 2 == 1
has s (suc v) = has (s / 2) v

pub and-zero : (n a : ℕ) → a ≤ n → bit_and a 0 ≡ 0
and-zero zero zero h = none-and 0
and-zero (suc n) zero h = none-and 0
and-zero zero (suc a) h = absurd (omega arith)
and-zero (suc n) (suc a) h =
    omega (arith, bit_and_lowest (suc a) 0, and-zero n (suc a / 2) (omega arith))

-- `s & (1 << v) == 1 << v` reads the digit.
pub and-place : (v s : ℕ) → (bit_and s (2 ^ v) == 2 ^ v) ≡ has s v
and-place zero s = ground (arith, bit_and_lowest s 1, and-zero (s / 2) (s / 2))
and-place (suc v) s =
    ground (arith, bit_and_lowest s (2 ^ suc v), two-pow-succ v, and-place v (s / 2))

pub and-half :
    (a b : ℕ)
    → (bit_and a b / 2 ≡ bit_and (a / 2) (b / 2)) × (bit_and a b % 2 ≡ min (a % 2) (b % 2))
and-half a b = omega (arith, bit_and_lowest a b)

pub or-half :
    (a b : ℕ) → (bit_or a b / 2 ≡ bit_or (a / 2) (b / 2)) × (bit_or a b % 2 ≡ max (a % 2) (b % 2))
or-half a b = omega (arith, bit_or_lowest a b)

or-zero : (n a : ℕ) → a ≤ n → bit_or a 0 ≡ a
or-zero zero zero h = none-or 0
or-zero (suc n) zero h = none-or 0
or-zero zero (suc a) h = absurd (omega arith)
or-zero (suc n) (suc a) h =
    omega (arith, bit_or_lowest (suc a) 0, or-zero n (suc a / 2) (omega arith))

-- The halves of a number in which a digit has been set.
pub or_one-half : (s : ℕ) → (bit_or s 1 / 2 ≡ s / 2) × (bit_or s 1 % 2 ≡ 1)
or_one-half s = omega (arith, bit_or_lowest s 1, or-zero (s / 2) (s / 2))

pub or_place-half :
    (v s : ℕ)
    → (bit_or s (2 ^ suc v) / 2 ≡ bit_or (s / 2) (2 ^ v)) × (bit_or s (2 ^ suc v) % 2 ≡ s % 2)
or_place-half v s =
    let p = two-pow-succ v in
    let h : 2 ^ suc v / 2 ≡ 2 ^ v = omega arith in
    let e = bit_or_lowest s (2 ^ suc v) in let e' = rw h at e in omega arith

-- `s | (1 << v)` has the digit, and the others as before.
pub has-or_place : (v s w : ℕ) → has (bit_or s (2 ^ v)) w ≡ (v == w || has s w)
has-or_place zero s zero = ground (arith, or_one-half s)
has-or_place zero s (suc w) = rw ((or_one-half s).0) (ground arith)
has-or_place (suc v) s zero = ground (arith, or_place-half v s)
has-or_place (suc v) s (suc w) =
    rw ((or_place-half v s).0) (ground (arith, has-or_place v (s / 2) w))
