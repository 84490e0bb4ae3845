-- ===== src/Pevm/MvMemory/Estimates.antt =====
-- `convert_writes_to_estimates` of mv_memory.rs.
use congestion_control.Prelude.{
  ℕ, ◌≡◌, refl, false, ◌&&◌, List, [], ◌∷◌, some, arith, ◌==◌, if◌then◌else◌, contains,
  Option-cases, inl, inr, ==_iff, Bool-cases,
}
use congestion_control.Prelude.Maps.{lookup, lookup-insert, nat_eq}
use congestion_control.Pevm.MvMemory.{
  MvMemory, MemoryEntry, estimate, last_at, mark_all, update, convert_writes_to_estimates,
}
use congestion_control.Pevm.MvMemory.Ordered.{put, put-IsOrdered}
use congestion_control.Pevm.MvMemory.Entries.{
  Entries, entry_at, is_known, entry_at-mark, entries_of-update, AreOrdered,
}

known-update :
    (entries : Entries) (l k : ℕ) (f : List (ℕ × MemoryEntry) → List (ℕ × MemoryEntry))
    → is_known (update l f entries) k ≡ is_known entries k
unfolding update
known-update entries l k f = elim (Option-cases (lookup l entries)) [
  | inl e ↦ ground arith
  | inr (es, e) ↦ let i = lookup-insert l k (f es) entries in let s = ==_iff l k in ground arith
]

entry_at_unknown :
    (entries : Entries) (l i k j : ℕ)
    → is_known entries l ≡ false
    → entry_at (update l (put i estimate) entries) k j ≡ entry_at entries k j
unfolding entry_at
entry_at_unknown entries l i k j e =
    let u = entries_of-update entries l k (put i estimate) in ground arith

entry_at-mark_all :
    (i : ℕ) (ls : List ℕ) (entries : Entries) (l j : ℕ)
    → entry_at (mark_all i ls entries) l j ≡ (
        if (i == j) && (contains l ls && is_known entries l)
        then some estimate
        else entry_at entries l j)
unfolding mark_all
entry_at-mark_all i [] entries l j = ground arith
entry_at-mark_all i (k ∷ ls) entries l j =
    let entries' = update k (put i estimate) entries in
    let r = entry_at-mark_all i ls entries' l j in
    let n = known-update entries k l (put i estimate) in
    let s = ==_iff k l in
    elim (Bool-cases (is_known entries k)) [
      | inl e ↦ let m = entry_at-mark entries k i l j e in ground arith
      | inr e ↦ let m = entry_at_unknown entries k i l j e in ground arith
    ]

mark-AreOrdered :
    (i k : ℕ) (entries : Entries)
    → AreOrdered entries
    → AreOrdered (update k (put i estimate) entries)
mark-AreOrdered i k entries o l =
    let u = entries_of-update entries k l (put i estimate) in
    elim (Bool-cases (k == l && is_known entries k)) [
      | inl e ↦ rw (u, e) (put-IsOrdered i estimate _ (o l))
      | inr e ↦ rw (u, e) (o l)
    ]

pub mark_all-AreOrdered :
    (i : ℕ) (ls : List ℕ) (entries : Entries)
    → AreOrdered entries
    → AreOrdered (mark_all i ls entries)
unfolding mark_all
mark_all-AreOrdered i [] entries o = o
mark_all-AreOrdered i (k ∷ ls) entries o =
    mark_all-AreOrdered i ls (update k (put i estimate) entries) (mark-AreOrdered i k entries o)

pub estimates_exact :
    (m : MvMemory) (i l j : ℕ)
    → (entry_at (convert_writes_to_estimates m i).entries l j ≡ (
        if (i == j) && (contains l (last_at m i).write && is_known m.entries l)
        then some estimate
        else entry_at m.entries l j))
      × ((convert_writes_to_estimates m i).last_locations ≡ m.last_locations)
unfolding convert_writes_to_estimates
estimates_exact m i l j = (entry_at-mark_all i (last_at m i).write m.entries l j, refl)
