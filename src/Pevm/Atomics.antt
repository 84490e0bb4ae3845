-- ===== src/Pevm/Atomics.antt =====
-- What the schedulers use of the standard library: `AtomicUsize::fetch_sub`, which wraps, and
-- `BinaryHeap<Reverse<TxIdx>>`, kept as the sorted list of its elements, least first.
use congestion_control.Prelude.{
  ℕ, suc, ◌+◌, ◌-◌, ◌^◌, ◌≤◌, ◌<◌, ◌≡◌, refl, Bool, List, [], ◌∷◌, arith, leb, ◌==◌, if◌then◌else◌,
  bit, count,
}

abbrev pub usize_max : ℕ
usize_max = 2 ^ 64 - 1

-- `fetch_sub(1)` on a usize: 0 wraps round to `usize::MAX`.
unfoldable pub wrapping_decrement : ℕ → ℕ
wrapping_decrement n = if n == 0 then usize_max else n - 1

pub wrapping_decrement_pos : (n m : ℕ) → n ≡ suc m → wrapping_decrement n ≡ m
unfolding wrapping_decrement
wrapping_decrement_pos n m h = ground arith

unfoldable pub heap_push : ℕ → List ℕ → List ℕ
heap_push x [] = x ∷ []
heap_push x (y ∷ ys) = if leb x y then x ∷ y ∷ ys else y ∷ heap_push x ys

abbrev pub heap_peek_or : List ℕ → ℕ → ℕ
heap_peek_or [] d = d
heap_peek_or (x ∷ xs) d = x

abbrev pub heap_is_empty : List ℕ → Bool
heap_is_empty [] = Bool.true
heap_is_empty (x ∷ xs) = Bool.false

pub count-heap_push : (a x : ℕ) (xs : List ℕ) → count a (heap_push x xs) ≡ bit (x == a) + count a xs
unfolding heap_push
count-heap_push a x [] = refl
count-heap_push a x (y ∷ ys) = ground (arith, count-heap_push a x ys)

abbrev pub IsBound : ℕ → List ℕ → Type 0
IsBound a [] = Unit {0}
IsBound a (x ∷ xs) = (a ≤ x) × IsBound a xs

abbrev pub IsSorted : List ℕ → Type 0
IsSorted [] = Unit {0}
IsSorted (x ∷ xs) = IsBound x xs × IsSorted xs

IsBound-trans : (a b : ℕ) (xs : List ℕ) → a ≤ b → IsBound b xs → IsBound a xs
IsBound-trans a b [] h k = tt
IsBound-trans a b (x ∷ xs) h k = (omega arith, IsBound-trans a b xs h k.1)

heap_push-IsBound : (a x : ℕ) (xs : List ℕ) → a ≤ x → IsBound a xs → IsBound a (heap_push x xs)
unfolding heap_push
heap_push-IsBound a x [] h k = (h, tt)
heap_push-IsBound a x (y ∷ ys) h k = ground (arith, heap_push-IsBound a x ys h)

pub heap_push-IsSorted : (x : ℕ) (xs : List ℕ) → IsSorted xs → IsSorted (heap_push x xs)
unfolding heap_push
heap_push-IsSorted x [] k = (tt, tt)
heap_push-IsSorted x (y ∷ ys) k =
    ground (arith, heap_push-IsSorted x ys, heap_push-IsBound y x ys, IsBound-trans x y ys)

count_bound : (a i : ℕ) (xs : List ℕ) → IsBound a xs → 0 < count i xs → a ≤ i
count_bound a i [] k h = elim h [ ]
count_bound a i (x ∷ xs) k h = ground (arith, count_bound a i xs k.1)

-- The head of a sorted list is its least element.
pub heap_peek-le : (i d : ℕ) (xs : List ℕ) → IsSorted xs → 0 < count i xs → heap_peek_or xs d ≤ i
heap_peek-le i d [] k h = elim h [ ]
heap_peek-le i d (x ∷ xs) k h = ground (arith, count_bound x i xs k.0)
