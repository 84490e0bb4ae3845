-- ===== src/Pevm/MvMemory/Pruning.antt =====
-- The first loop of `record` in mv_memory.rs: what the transaction wrote before and does not write now
-- is removed, from the memory and from its last locations, by `swap_remove`.
use congestion_control.Prelude.{
  ℕ, zero, suc, ◌+◌, ◌-◌, ◌≡◌, ◌≤◌, ◌<◌, refl, ap, sym, ◌∙◌, true, false, not, ◌&&◌, List, [], ◌∷◌,
  none, arith, ltb, ◌==◌, if◌then◌else◌, contains, count, bit, length, length-set, get_or,
  get_or-set, set, Bool-cases, inl, inr, lt_or_le, ==_iff, contains-count, count-contains,
}
use congestion_control.Pevm.MvMemory.{WriteSet, writes, drop_last, swap_remove, prune, update}
use congestion_control.Pevm.MvMemory.Ordered.{remove}
use congestion_control.Pevm.MvMemory.Entries.{
  Entries, entry_at, AreOrdered, entry_at-remove, remove-AreOrdered,
}

count-set :
    (l : ℕ) (xs : List ℕ) (i v : ℕ)
    → i < length xs
    → count l (set xs i v) + bit (get_or xs i 0 == l) ≡ count l xs + bit (v == l)
count-set l [] i v h = elim h [ ]
count-set l (x ∷ xs) zero v h = omega arith
count-set l (x ∷ xs) (suc i) v h = omega (arith, count-set l xs i v (omega arith))

count-drop_last :
    (l : ℕ) (x : ℕ) (xs : List ℕ)
    → count l (drop_last (x ∷ xs)) + bit (get_or (x ∷ xs) (length xs) 0 == l) ≡ count l (x ∷ xs)
count-drop_last l x [] = omega arith
count-drop_last l x (y ∷ xs) = omega (arith, count-drop_last l y xs)

length-drop_last : (x : ℕ) (xs : List ℕ) → length (drop_last (x ∷ xs)) ≡ length xs
length-drop_last x [] = refl
length-drop_last x (y ∷ xs) = ap suc (length-drop_last y xs)

get_or-drop_last :
    (x : ℕ) (xs : List ℕ) (j : ℕ)
    → j < length xs
    → get_or (drop_last (x ∷ xs)) j 0 ≡ get_or (x ∷ xs) j 0
get_or-drop_last x [] j h = elim h [ ]
get_or-drop_last x (y ∷ xs) zero h = refl
get_or-drop_last x (y ∷ xs) (suc j) h = get_or-drop_last y xs j (omega arith)

-- One occurrence of what stands at the place goes, and the places before it stay.
record IsSwapped (xs : List ℕ) (i : ℕ) (r : List ℕ) : Type 0 where
  one_less : suc (length r) ≡ length xs
  counted : (l : ℕ) → count l r + bit (get_or xs i 0 == l) ≡ count l xs
  before : (j : ℕ) → j < i → get_or r j 0 ≡ get_or xs j 0

IsSwapped-cons :
    (y : ℕ) (ys xs : List ℕ) (i : ℕ)
    → i < length xs
    → set xs i (get_or xs (length xs - 1) 0) ≡ y ∷ ys
    → IsSwapped xs i (drop_last (y ∷ ys))
IsSwapped-cons y ys xs i h e =
    let last = get_or xs (length xs - 1) 0 in
    let n : suc (length ys) ≡ length xs = ap length (sym e) ∙ length-set xs i last in
    record {
      one_less = omega (arith, length-drop_last y ys);
      counted = λ l.
          let d = count-drop_last l y ys in
          let c = count-set l xs i last h in
          let f = ap (count l) e in
          let g = get_or-set xs i (length ys) last 0 in
          let g' = ap (λ zs. get_or zs (length ys) 0) e in
          let z : length xs - 1 ≡ length ys = omega arith in ground arith;
      before = λ j l.
          let d = get_or-drop_last y ys j (omega arith) in
          let g = get_or-set xs i j last 0 in let g' = ap (λ zs. get_or zs j 0) e in ground arith;
    }

swap_remove-IsSwapped : (xs : List ℕ) (i : ℕ) → i < length xs → IsSwapped xs i (swap_remove xs i)
unfolding swap_remove
swap_remove-IsSwapped xs i h = go (set xs i (get_or xs (length xs - 1) 0)) refl
  where
    go : (zs : List ℕ) → set xs i (get_or xs (length xs - 1) 0) ≡ zs → IsSwapped xs i (drop_last zs)
    go [] e =
        absurd (omega (arith, ap length (sym e) ∙ length-set xs i (get_or xs (length xs - 1) 0)))
    go (y ∷ ys) e = IsSwapped-cons y ys xs i h e

-- What the loop leaves of the entries and of the locations.
pub record IsPruned (tx : ℕ) (ws : WriteSet) (entries : Entries) (write : List ℕ)
    (r : Entries × List ℕ) : Type 0 where
  pub ordered : AreOrdered r.0
  pub kept : (l : ℕ) → count l r.1 ≡ (if writes ws l then count l write else 0)
  pub entry :
      (l j : ℕ)
      → entry_at r.0 l j ≡ (
          if (tx == j) && (contains l write && not (writes ws l))
          then none
          else entry_at entries l j)

prune_end :
    (fuel tx : ℕ) (ws : WriteSet) (i : ℕ) (entries : Entries) (write : List ℕ)
    → ltb i (length write) ≡ false
    → prune (suc fuel) tx ws i (entries, write) ≡ (entries, write)
unfolding prune
prune_end fuel tx ws i entries write b = ground arith

prune_keep :
    (fuel tx : ℕ) (ws : WriteSet) (i : ℕ) (entries : Entries) (write : List ℕ)
    → ltb i (length write) ≡ true
    → writes ws (get_or write i 0) ≡ true
    → prune (suc fuel) tx ws i (entries, write) ≡ prune fuel tx ws (i + 1) (entries, write)
unfolding prune
prune_keep fuel tx ws i entries write b w = ground arith

prune_drop :
    (fuel tx : ℕ) (ws : WriteSet) (i : ℕ) (entries : Entries) (write : List ℕ)
    → ltb i (length write) ≡ true
    → writes ws (get_or write i 0) ≡ false
    → prune (suc fuel) tx ws i (entries, write)
      ≡ prune fuel tx ws i (update (get_or write i 0) (remove tx) entries, swap_remove write i)
unfolding prune
prune_drop fuel tx ws i entries write b w = ground arith

module _ (tx : ℕ) (ws : WriteSet) where
  all_kept :
      (write : List ℕ) (l : ℕ)
      → ((j : ℕ) → j < length write → writes ws (get_or write j 0) ≡ true)
      → (count l write ≡ (if writes ws l then count l write else 0))
        × (contains l write ≡ true → writes ws l ≡ true)
  all_kept [] l h = (ground arith, λ e. absurd (ground arith))
  all_kept (x ∷ xs) l h =
      let (a, b) = all_kept xs l (λ j g. h (suc j) (omega arith)) in
      let first = h 0 (omega arith) in let same = ==_iff x l in (ground arith, ground arith)

  -- The rounds left are enough: each shortens what is left of the list, or steps over a location.
  pub prune-IsPruned :
      (fuel i : ℕ) (entries : Entries) (write : List ℕ)
      → length write ≤ fuel + i
      → ((j : ℕ) → j < i → j < length write → writes ws (get_or write j 0) ≡ true)
      → AreOrdered entries
      → IsPruned tx ws entries write (prune fuel tx ws i (entries, write))
  unfolding prune
  prune-IsPruned zero i entries write f h o = record {
    ordered = o;
    kept = λ l. (all_kept write l (λ j g. h j (omega arith) g)).0;
    entry = λ l j. let a = (all_kept write l (λ k g. h k (omega arith) g)).1 in ground arith;
  }
  prune-IsPruned (suc fuel) i entries write f h o = elim (lt_or_le i (length write)) [
    | inr e ↦
        let b : ltb i (length write) ≡ false = ground arith in
        rw (prune_end fuel tx ws i entries write b) (record {
          ordered = o;
          kept = λ l. (all_kept write l (λ j g. h j (omega arith) g)).0;
          entry = λ l j. let a = (all_kept write l (λ k g. h k (omega arith) g)).1 in ground arith;
        })
    | inl e ↦
        let b : ltb i (length write) ≡ true = ground arith in
        let l0 = get_or write i 0 in
        elim (Bool-cases (writes ws l0)) [
          | inl w ↦ rw (prune_keep fuel tx ws i entries write b w) (
              prune-IsPruned fuel (i + 1) entries write (omega arith)
                (λ j g g'. let old = h j in ground arith) o)
          | inr w ↦
              let s = swap_remove-IsSwapped write i e in
              let r =
                prune-IsPruned fuel i (update l0 (remove tx) entries) (swap_remove write i)
                  (omega (arith, s.one_less)) (λ j g g'. rw (s.before j g) (h j g (omega arith)))
                  (remove-AreOrdered entries l0 tx o) in
              rw (prune_drop fuel tx ws i entries write b w) (record {
                ordered = r.ordered;
                kept = λ l.
                    let k = r.kept l in
                    let c = s.counted l in let same = ==_iff l0 l in ground arith;
                entry = λ l j.
                    let k = r.entry l j in
                    let q = entry_at-remove entries l0 tx l j o in
                    let c = s.counted l in
                    let same = ==_iff l0 l in
                    let x = contains-count l write in
                    let x' = count-contains l write in
                    let y = contains-count l (swap_remove write i) in
                    let y' = count-contains l (swap_remove write i) in ground arith;
              })
        ]
  ]
