-- ===== src/Pevm/MvMemory/Entries.antt =====
-- What a transaction has at a location of the multi-version memory, and what the single updates do to it.
use congestion_control.Prelude.{
  ℕ, ◌≡◌, ◌≤◌, Bool, true, false, ◌&&◌, List, Option, none, some, arith, ◌==◌, if◌then◌else◌,
  Option-cases, inl, inr, Bool-cases,
}
use congestion_control.Prelude.Maps.{Map, nat_eq, lookup, insert, lookup-insert}
use congestion_control.Pevm.MvMemory.{MemoryEntry, estimate, update, entries_of}
use congestion_control.Pevm.MvMemory.Ordered.{
  put, remove, below, IsOrdered, lookup-put, lookup-remove, put-IsOrdered, remove-IsOrdered,
  below-put,
}

abbrev pub Entries : Type 0
Entries = Map ℕ (List (ℕ × MemoryEntry))

-- The entry of a transaction at a location.
unfoldable pub entry_at : Entries → ℕ → ℕ → Option MemoryEntry
entry_at entries l i = lookup i (entries_of entries l)

abbrev pub AreOrdered : Entries → Type 0
AreOrdered entries = (l : ℕ) → IsOrdered (entries_of entries l)

abbrev pub is_known : Entries → ℕ → Bool
is_known entries l = elim (lookup l entries) [ none ↦ false | some _ ↦ true ]

entries_of-insert :
    (entries : Entries) (l k : ℕ) (es : List (ℕ × MemoryEntry))
    → entries_of (insert l es entries) k ≡ (if l == k then es else entries_of entries k)
entries_of-insert entries l k es = ground (arith, lookup-insert l k es entries)

pub entries_of-update :
    (entries : Entries) (l k : ℕ) (f : List (ℕ × MemoryEntry) → List (ℕ × MemoryEntry))
    → entries_of (update l f entries) k
      ≡ (if (l == k) && is_known entries l then f (entries_of entries k) else entries_of entries k)
unfolding update
entries_of-update entries l k f = elim (Option-cases (lookup l entries)) [
  | inl e ↦ ground arith
  | inr (es, e) ↦ let i = entries_of-insert entries l k (f es) in ground arith
]

-- The entry of the transaction is removed, whether the location is known or not.
pub entry_at-remove :
    (entries : Entries) (l i k j : ℕ)
    → AreOrdered entries
    → entry_at (update l (remove i) entries) k j
      ≡ (if (l == k) && (i == j) then none else entry_at entries k j)
unfolding entry_at lookup
entry_at-remove entries l i k j o =
    let u = entries_of-update entries l k (remove i) in
    let r = lookup-remove i (entries_of entries k) j (o k) in ground arith

pub remove-AreOrdered :
    (entries : Entries) (l i : ℕ) → AreOrdered entries → AreOrdered (update l (remove i) entries)
remove-AreOrdered entries l i o k =
    let u = entries_of-update entries l k (remove i) in
    let r = remove-IsOrdered i (entries_of entries k) (o k) in
    elim (Bool-cases (l == k && is_known entries l)) [
      | inl e ↦ rw (u, e) r
      | inr e ↦ rw (u, e) (o k)
    ]

-- The entry is written, and the location is known from then on.
pub entry_at-put :
    (entries : Entries) (l i k j : ℕ) (e : MemoryEntry)
    → entry_at (insert l (put i e (entries_of entries l)) entries) k j
      ≡ (if (l == k) && (i == j) then some e else entry_at entries k j)
unfolding entry_at
entry_at-put entries l i k j e =
    let u = entries_of-insert entries l k (put i e (entries_of entries l)) in
    let p = lookup-put i e (entries_of entries l) j in ground arith

pub put-AreOrdered :
    (entries : Entries) (l i : ℕ) (e : MemoryEntry)
    → AreOrdered entries
    → AreOrdered (insert l (put i e (entries_of entries l)) entries)
put-AreOrdered entries l i e o k =
    let u = entries_of-insert entries l k (put i e (entries_of entries l)) in
    elim (Bool-cases (l == k)) [
      | inl x ↦ rw (u, x) (put-IsOrdered i e (entries_of entries l) (o l))
      | inr x ↦ rw (u, x) (o k)
    ]

-- Where an entry is marked, the location is known.
pub entry_at-mark :
    (entries : Entries) (l i k j : ℕ)
    → is_known entries l ≡ true
    → entry_at (update l (put i estimate) entries) k j
      ≡ (if (l == k) && (i == j) then some estimate else entry_at entries k j)
unfolding entry_at
entry_at-mark entries l i k j h =
    let u = entries_of-update entries l k (put i estimate) in
    let p = lookup-put i estimate (entries_of entries k) j in ground arith

-- What is below a transaction is not changed by what a later one, or it itself, writes or removes.
pub below-update :
    (entries : Entries) (l i k b : ℕ) (e : MemoryEntry)
    → b ≤ i
    → below b (entries_of (update l (put i e) entries) k) ≡ below b (entries_of entries k)
below-update entries l i k b e h =
    let u = entries_of-update entries l k (put i e) in
    let p = below-put b i e (entries_of entries k) h in ground arith
