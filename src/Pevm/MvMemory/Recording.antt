-- ===== src/Pevm/MvMemory/Recording.antt =====
-- `record` of mv_memory.rs: what the memory holds afterwards, of every transaction at every location.
use congestion_control.Prelude.{
  ℕ, ◌≡◌, ◌<◌, ◌↔◌, ◌⊎◌, refl, ap, ◌∙◌, Bool, true, false, not, ◌&&◌, List, [], ◌∷◌, ◌++◌, Option,
  none, some, arith, ◌==◌, if◌then◌else◌, contains, count, count-append, length, get_or-set,
  Bool-cases, inl, inr, ==_iff, contains-count, count-contains,
}
use congestion_control.Pevm.Types.{TxVersion}
use congestion_control.Pevm.MvMemory.{
  WriteSet, MemoryValue, MemoryEntry, written, ReadSet, MvMemory, LastLocations, no_locations,
  last_at, writes, prune, write_all, record_sets, entries_of,
}
use congestion_control.Pevm.MvMemory.Ordered.{put}
use congestion_control.Prelude.Maps.{insert, nat_eq}
use congestion_control.Pevm.MvMemory.Entries.{
  Entries, entry_at, AreOrdered, entry_at-put, put-AreOrdered,
}
use congestion_control.Pevm.MvMemory.Pruning.{prune-IsPruned}

-- The value that a write set leaves at a location: its last.
abbrev pub or_else : Option MemoryValue → Option MemoryValue → Option MemoryValue
or_else (some v) o = some v
or_else none o = o

abbrev pub final : WriteSet → ℕ → Option MemoryValue
final [] l = none
final ((k, v) ∷ ws) l = or_else (final ws l) (if k == l then some v else none)

-- What a transaction's version has at a location of which it has written this, if anything.
abbrev pub as_entry : ℕ → Option MemoryValue → Option MemoryEntry → Option MemoryEntry
as_entry n none old = old
as_entry n (some v) old = some (written n v)

record IsWritten (v : TxVersion) (ws : WriteSet) (entries : Entries) (write : List ℕ) (fresh : Bool)
    (r : Entries × List ℕ × Bool) : Type 0 where
  ordered : AreOrdered r.0
  entry :
      (l j : ℕ)
      → entry_at r.0 l j ≡ (
          if v.tx_idx == j
          then as_entry v.tx_incarnation (final ws l) (entry_at entries l j)
          else entry_at entries l j)
  located :
      (l : ℕ) → count l r.1 ≡ (if writes ws l && not (contains l write) then 1 else count l write)
  is_fresh :
      (r.2 ≡ true)
      ↔ ((fresh ≡ true) ⊎ ((l : ℕ) × (writes ws l ≡ true) × (contains l write ≡ false)))

contains-append :
    (l k : ℕ) (xs : List ℕ) → contains l (xs ++ k ∷ []) ≡ (if k == l then true else contains l xs)
contains-append l k [] = ground arith
contains-append l k (x ∷ xs) = ground (arith, contains-append l k xs)

module _ (v : TxVersion) where
  abbrev written_to : Entries → ℕ → MemoryValue → Entries
  written_to entries l value =
      insert l (put v.tx_idx (written v.tx_incarnation value) (entries_of entries l)) entries

  write_all_old :
      (l : ℕ) (value : MemoryValue) (ws : WriteSet) (entries : Entries) (write : List ℕ)
      (fresh : Bool)
      → contains l write ≡ true
      → write_all v ((l, value) ∷ ws) (entries, write, fresh)
        ≡ write_all v ws (written_to entries l value, write, fresh)
  unfolding write_all
  write_all_old l value ws entries write fresh e = ground arith

  write_all_new :
      (l : ℕ) (value : MemoryValue) (ws : WriteSet) (entries : Entries) (write : List ℕ)
      (fresh : Bool)
      → contains l write ≡ false
      → write_all v ((l, value) ∷ ws) (entries, write, fresh)
        ≡ write_all v ws (written_to entries l value, write ++ l ∷ [], true)
  unfolding write_all
  write_all_new l value ws entries write fresh e = ground arith

  write_all_nil : (s : Entries × List ℕ × Bool) → write_all v [] s ≡ s
  unfolding write_all
  write_all_nil s = refl

  write_all-IsWritten :
      (ws : WriteSet) (entries : Entries) (write : List ℕ) (fresh : Bool)
      → AreOrdered entries
      → IsWritten v ws entries write fresh (write_all v ws (entries, write, fresh))
  write_all-IsWritten [] entries write fresh o =
      rw (write_all_nil (entries, write, fresh)) (record {
        ordered = o;
        entry = λ l j. ground arith;
        located = λ l. ground arith;
        is_fresh = (inl, λ x. elim x [ inl e ↦ e | inr (l, w, _) ↦ absurd (ground arith) ]);
      })
  write_all-IsWritten ((k, value) ∷ ws) entries write fresh o =
      let o' = put-AreOrdered entries k v.tx_idx (written v.tx_incarnation value) o in
      elim (Bool-cases (contains k write)) [
        | inl e ↦
            let r = write_all-IsWritten ws (written_to entries k value) write fresh o' in
            rw (write_all_old k value ws entries write fresh e) (record {
              ordered = r.ordered;
              entry = λ l j.
                  let p = entry_at-put entries k v.tx_idx l j (written v.tx_incarnation value) in
                  let q = r.entry l j in ground arith;
              located = λ l. let q = r.located l in let same = ==_iff k l in ground arith;
              is_fresh = (
                λ x. elim (r.is_fresh.0 x) [
                  | inl y ↦ inl y
                  | inr (l, w, n) ↦ inr (l, ground arith, n)
                ],
                λ x. elim x [
                  | inl y ↦ r.is_fresh.1 (inl y)
                  | inr (l, w, n) ↦ let same = ==_iff k l in r.is_fresh.1 (inr (l, ground arith, n))
                ],
              );
            })
        | inr e ↦
            let r = write_all-IsWritten ws (written_to entries k value) (write ++ k ∷ []) true o' in
            rw (write_all_new k value ws entries write fresh e) (record {
              ordered = r.ordered;
              entry = λ l j.
                  let p = entry_at-put entries k v.tx_idx l j (written v.tx_incarnation value) in
                  let q = r.entry l j in ground arith;
              located = λ l.
                  let q = r.located l in
                  let same = ==_iff k l in
                  let c = contains-append l k write in
                  let n = count-append l write (k ∷ []) in
                  let z = contains-count l write in ground arith;
              is_fresh = (λ x. inr (k, ground arith, e), λ x. r.is_fresh.1 (inl refl));
            })
      ]

-- What `record` leaves of the memory, and what it returns.
pub record IsRecorded (m : MvMemory) (v : TxVersion) (reads : ReadSet) (ws : WriteSet)
    (r : MvMemory × Bool) : Type 0 where
  pub ordered : AreOrdered r.0.entries
  -- the transaction's entries are those of its new writes alone, and no other's change
  pub entry :
      (l j : ℕ)
      → entry_at r.0.entries l j ≡ (
          if v.tx_idx == j
          then as_entry v.tx_incarnation
              (final ws l)
              (if contains l (last_at m v.tx_idx).write then none else entry_at m.entries l j)
          else entry_at m.entries l j)
  -- the last locations are those of the new sets
  pub located : (l : ℕ) → contains l (last_at r.0 v.tx_idx).write ≡ writes ws l
  pub read : (last_at r.0 v.tx_idx).read ≡ reads
  pub others : (j : ℕ) → (v.tx_idx == j) ≡ false → last_at r.0 j ≡ last_at m j
  -- the result: whether a location is written that the last incarnation did not write
  pub is_new :
      (r.1 ≡ true)
      ↔ ((l : ℕ) × (writes ws l ≡ true) × (contains l (last_at m v.tx_idx).write ≡ false))

writes-final : (ws : WriteSet) (l : ℕ) → writes ws l ≡ false → final ws l ≡ none
writes-final [] l h = refl
writes-final ((k, v) ∷ ws) l h = ground (arith, writes-final ws l)

final-writes :
    (ws : WriteSet) (l : ℕ) → writes ws l ≡ true → (x : MemoryValue) × (final ws l ≡ some x)
final-writes [] l h = absurd (ground arith)
final-writes ((k, v) ∷ ws) l h = elim (Bool-cases (writes ws l)) [
  | inl e ↦ let (x, f) = final-writes ws l e in (x, ground arith)
  | inr e ↦ let f = writes-final ws l e in (v, ground arith)
]

-- `record` from any memory whose entries are ordered: afterwards the transaction has, at each location,
-- the value it wrote last under its incarnation, or nothing where it wrote before and does not now,
-- all other entries are as before, its last locations are the new sets, and the result says whether
-- it wrote where its last incarnation did not.
pub record_sets-IsRecorded :
    (m : MvMemory) (v : TxVersion) (reads : ReadSet) (ws : WriteSet)
    → AreOrdered m.entries
    → v.tx_idx < length m.last_locations
    → IsRecorded m v reads ws (record_sets m v reads ws)
unfolding record_sets
record_sets-IsRecorded m v reads ws o h =
    let old = (last_at m v.tx_idx).write in
    let p =
      prune-IsPruned v.tx_idx ws (length old) 0 m.entries old (omega arith)
        (λ j g. absurd (omega arith)) o in
    let kept = prune (length old) v.tx_idx ws 0 (m.entries, old) in
    let w = write_all-IsWritten v ws kept.0 kept.1 false p.ordered in
    let r = write_all v ws (kept.0, kept.1, false) in
    let ll : LastLocations = record { read = reads; write = r.1 } in
    let self = get_or-set m.last_locations v.tx_idx v.tx_idx ll no_locations in
    let there : last_at (record_sets m v reads ws).0 v.tx_idx ≡ ll = ground arith in
    record {
      ordered = w.ordered;
      entry = λ l j.
          let a = w.entry l j in
          let b = p.entry l j in
          let c = writes-final ws l in
          let d = final-writes ws l in
          elim (Bool-cases (writes ws l)) [
            | inl e ↦ let (x, f) = d e in ground arith
            | inr e ↦ ground arith
          ];
      located = λ l.
          let a = w.located l in
          let b = p.kept l in
          let c1 = contains-count l r.1 in
          let c2 = count-contains l r.1 in
          let d1 = contains-count l kept.1 in
          let d2 = count-contains l kept.1 in
          let e : contains l r.1 ≡ writes ws l = ground arith in
          ap (λ (x : LastLocations). contains l x.write) there ∙ e;
      read = ap (λ (x : LastLocations). x.read) there;
      others =
          λ j n. let other = get_or-set m.last_locations v.tx_idx j ll no_locations in ground arith;
      is_new = (
        λ x. elim (w.is_fresh.0 x) [
          | inl y ↦ absurd (ground arith)
          | inr (l, wr, n) ↦
              let b = p.kept l in
              let c1 = contains-count l kept.1 in
              let d2 = count-contains l old in (l, wr, ground arith)
        ],
        λ (l, wr, n).
            let b = p.kept l in
            let c1 = contains-count l old in
            let d2 = count-contains l kept.1 in w.is_fresh.1 (inr (l, wr, ground arith)),
      );
    }
