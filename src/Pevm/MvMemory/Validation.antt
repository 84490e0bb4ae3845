-- ===== src/Pevm/MvMemory/Validation.antt =====
-- `validate_read_locations` of mv_memory.rs, against what the reads would find now.
use congestion_control.Prelude.{
  ℕ, ◌≡◌, ◌<◌, ◌↔◌, ◌⊎◌, refl, sym, subst, ◌∙◌, true, false, List, [], ◌∷◌, none, some, arith,
  contains, inl, inr, Option-cases, Bool-cases, lt_or_le, ==_iff,
}
use congestion_control.Prelude.Maps.{lookup, nat_eq}
use congestion_control.Pevm.Types.{TxVersion}
use congestion_control.Pevm.MvMemory.{
  MvMemory, MemoryEntry, MemoryValue, written, estimate, ReadOrigin, ReadSet, mv_memory,
  from_storage, last_at, entries_of, check_origins, check_location, check_reads,
  validate_read_locations, convert_writes_to_estimates,
}
use congestion_control.Pevm.MvMemory.Ordered.{below, IsOrdered, under-lookup}
use congestion_control.Pevm.MvMemory.Entries.{Entries, entry_at, AreOrdered, is_known}
use congestion_control.Pevm.MvMemory.Estimates.{estimates_exact, mark_all-AreOrdered}

-- The range below `i` starts with the highest entry there.
record IsHighest (i : ℕ) (es : List (ℕ × MemoryEntry)) (j : ℕ) (e : MemoryEntry) : Type 0 where
  lower : j < i
  there : lookup j es ≡ some e
  between : (k : ℕ) → j < k → k < i → lookup k es ≡ none

range_lem :
    (i : ℕ) (es : List (ℕ × MemoryEntry))
    → IsOrdered es
    → ((below i es ≡ []) × ((k : ℕ) → k < i → lookup k es ≡ none))
      ⊎ ((j : ℕ) × (e : MemoryEntry) × (rest : List (ℕ × MemoryEntry)) × (below i es
            ≡ (j, e) ∷ rest)
          × IsHighest i es j e)
unfolding below lookup
range_lem i [] h = inl (refl, λ k l. refl)
range_lem i ((j, e) ∷ es) h = elim (lt_or_le j i) [
  | inl l ↦ inr (
    j,
    e,
    es,
    ground arith,
    record {
      lower = l;
      there = ground arith;
      between = λ k a b. let u = under-lookup j es k h.0 in ground arith;
    },
  )
  | inr l ↦ elim (range_lem i es h.1) [
    | inl (n, a) ↦ inl (ground arith, λ k b. let a' = a k b in ground arith)
    | inr (j', e', rest, n, q) ↦ inr (
      j',
      e',
      rest,
      ground arith,
      record {
        lower = q.lower;
        there = let t = q.there in let u = q.lower in ground arith;
        between = λ k a b. let t = q.between k a b in ground arith;
      },
    )
  ]
]

-- What a read that found this finds now: the same version, as the highest below the reader, or no
-- entry at all below it.
abbrev pub IsCurrent : Entries → ℕ → ℕ → ReadOrigin → Type 0
IsCurrent entries i l (mv_memory v) =
    (v.tx_idx < i)
    × ((x : MemoryValue) × (entry_at entries l v.tx_idx ≡ some (written v.tx_incarnation x)))
    × ((k : ℕ) → v.tx_idx < k → k < i → entry_at entries l k ≡ none)
IsCurrent entries i l from_storage = (k : ℕ) → k < i → entry_at entries l k ≡ none

unknown_none : (entries : Entries) (l k : ℕ) → lookup l entries ≡ none → entry_at entries l k ≡ none
unfolding entry_at lookup
unknown_none entries l k e = ground arith

known_entries :
    (entries : Entries) (l k : ℕ) (es : List (ℕ × MemoryEntry))
    → lookup l entries ≡ some es
    → entry_at entries l k ≡ lookup k es
unfolding entry_at
known_entries entries l k es e = ground arith

version_matches :
    (v : TxVersion) (os : List ReadOrigin) (j : ℕ) (e : MemoryEntry) (rest : List (ℕ × MemoryEntry))
    → check_origins (mv_memory v ∷ os) ((j, e) ∷ rest) ≡ true
    → (j ≡ v.tx_idx) × (x : MemoryValue) × (e ≡ written v.tx_incarnation x)
unfolding check_origins
version_matches v os j estimate rest c = absurd (ground arith)
version_matches v os j (written n x) rest c =
    let t = ==_iff j v.tx_idx in
    let u = ==_iff n v.tx_incarnation in (ground arith, x, ground arith)

module _ (entries : Entries) (i l : ℕ) (o : AreOrdered entries) where
  located : (es : List (ℕ × MemoryEntry)) → lookup l entries ≡ some es → IsOrdered es
  located es e = let p : entries_of entries l ≡ es = ground arith in rw p at (o l)

  -- A successful check of a location with any origins: the first of them is current.
  first-IsCurrent :
      (os : List ReadOrigin) (og : ReadOrigin)
      → check_location entries i l (og ∷ os) ≡ true
      → IsCurrent entries i l og
  unfolding check_location check_origins
  first-IsCurrent os from_storage c = elim (Option-cases (lookup l entries)) [
    | inl e ↦ λ k b. unknown_none entries l k e
    | inr (es, e) ↦ elim (range_lem i es (located es e)) [
      | inl (n, a) ↦ λ k b. known_entries entries l k es e ∙ a k b
      | inr (j, x, rest, n, q) ↦ absurd (ground arith)
    ]
  ]
  first-IsCurrent os (mv_memory v) c = elim (Option-cases (lookup l entries)) [
    | inl e ↦ absurd (ground arith)
    | inr (es, e) ↦ elim (range_lem i es (located es e)) [
      | inl (n, a) ↦ absurd (ground arith)
      | inr (j, x, rest, n, q) ↦
          let f : check_origins (mv_memory v ∷ os) ((j, x) ∷ rest) ≡ true = ground arith in
          let (same, y, z) = version_matches v os j x rest f in
          let t = known_entries entries l j es e ∙ q.there in
          let lo = q.lower in
          (
            omega arith,
            (y, ground arith),
            λ k a b. known_entries entries l k es e ∙ q.between k (omega arith) b,
          )
    ]
  ]

  -- A single origin that is current passes the check.
  single_passes :
      (og : ReadOrigin) → IsCurrent entries i l og → check_location entries i l (og ∷ []) ≡ true
  unfolding check_location check_origins
  single_passes from_storage c = elim (Option-cases (lookup l entries)) [
    | inl e ↦ ground arith
    | inr (es, e) ↦ elim (range_lem i es (located es e)) [
      | inl (n, a) ↦ ground arith
      | inr (j, x, rest, n, q) ↦
          let t = q.there in
          let u = known_entries entries l j es e in let w = c j q.lower in absurd (ground arith)
    ]
  ]
  single_passes (mv_memory v) (low, (x, at), gap) = elim (Option-cases (lookup l entries)) [
    | inl e ↦ let n = unknown_none entries l v.tx_idx e in absurd (ground arith)
    | inr (es, e) ↦
        let u = known_entries entries l v.tx_idx es e in
        elim (range_lem i es (located es e)) [
          | inl (n, a) ↦ let a' = a v.tx_idx low in absurd (ground arith)
          | inr (j, y, rest, n, q) ↦
              let t = q.there in
              let lo = q.lower in
              let b = q.between v.tx_idx in
              let g = gap j in
              let w = known_entries entries l j es e in
              let same : j ≡ v.tx_idx = ground arith in
              let z : lookup j es ≡ some (written v.tx_incarnation x) = rw same (sym u ∙ at) in
              ground arith
        ]
  ]

-- A read set in which every location has one origin, as all but lazily updated ones have.
abbrev pub singles : List (ℕ × ReadOrigin) → ReadSet
singles [] = []
singles ((l, og) ∷ rs) = (l, og ∷ []) ∷ singles rs

abbrev pub AreCurrent : Entries → ℕ → List (ℕ × ReadOrigin) → Type 0
AreCurrent entries i [] = Unit {0}
AreCurrent entries i ((l, og) ∷ rs) = IsCurrent entries i l og × AreCurrent entries i rs

check_singles :
    (entries : Entries) (i : ℕ) (rs : List (ℕ × ReadOrigin))
    → AreOrdered entries
    → (check_reads entries i (singles rs) ≡ true) ↔ AreCurrent entries i rs
unfolding check_reads
check_singles entries i [] o = (λ e. tt, λ u. refl)
check_singles entries i ((l, og) ∷ rs) o =
    let rest = check_singles entries i rs o in
    (
      λ e. (first-IsCurrent entries i l o [] og (ground arith), rest.0 (ground arith)),
      λ (c, cs). let a = single_passes entries i l o og c in let b = rest.1 cs in ground arith,
    )

-- A validation succeeds exactly if every read is current, where each location was read from one origin:
-- from a version, which must be the highest entry below the reader and of the same incarnation, or
-- from storage, and then nothing below the reader may have written.
pub validate_singles :
    (m : MvMemory) (i : ℕ) (rs : List (ℕ × ReadOrigin))
    → AreOrdered m.entries
    → (last_at m i).read ≡ singles rs
    → (validate_read_locations m i ≡ true) ↔ AreCurrent m.entries i rs
unfolding validate_read_locations
validate_singles m i rs o e = rw e (check_singles m.entries i rs o)

-- The location is read, with this origin first.
abbrev pub HasRead : ReadSet → ℕ → ReadOrigin → Type 0
HasRead [] l og = ⊥
HasRead ((k, []) ∷ rs) l og = HasRead rs l og
HasRead ((k, o ∷ os) ∷ rs) l og = ((k ≡ l) × (o ≡ og)) ⊎ HasRead rs l og

read-IsCurrent :
    (entries : Entries) (i : ℕ) (rs : ReadSet) (l : ℕ) (og : ReadOrigin)
    → AreOrdered entries
    → check_reads entries i rs ≡ true
    → HasRead rs l og
    → IsCurrent entries i l og
unfolding check_reads
read-IsCurrent entries i [] l og o c h = elim h [ ]
read-IsCurrent entries i ((k, []) ∷ rs) l og o c h =
    read-IsCurrent entries i rs l og o (ground arith) h
read-IsCurrent entries i ((k, p ∷ os) ∷ rs) l og o c h = elim h [
  | inl (a, b) ↦
      let f = first-IsCurrent entries i k o os p (ground arith) in
      subst (λ q. IsCurrent entries i l q) b (subst (λ j. IsCurrent entries i j p) a f)
  | inr r ↦ read-IsCurrent entries i rs l og o (ground arith) r
]

-- After the writes of an aborted transaction are marked, the validation of every transaction fails
-- that read, as its first origin of a location, a version of the aborted one that it wrote last there.
pub marked_fails :
    (m : MvMemory) (i l : ℕ) (v : TxVersion)
    → AreOrdered m.entries
    → HasRead (last_at m i).read l (mv_memory v)
    → contains l (last_at m v.tx_idx).write ≡ true
    → is_known m.entries l ≡ true
    → validate_read_locations (convert_writes_to_estimates m v.tx_idx) i ≡ false
unfolding validate_read_locations convert_writes_to_estimates
marked_fails m i l v o h w n =
    elim (Bool-cases (validate_read_locations (convert_writes_to_estimates m v.tx_idx) i)) [
      | inr e ↦ e
      | inl e ↦
          let m' = convert_writes_to_estimates m v.tx_idx in
          let (low, (x, at), gap) =
            read-IsCurrent m'.entries i (last_at m i).read l (mv_memory v)
              (mark_all-AreOrdered v.tx_idx (last_at m v.tx_idx).write m.entries o) e h in
          let (marked, _) = estimates_exact m v.tx_idx l v.tx_idx in absurd (ground arith)
    ]
