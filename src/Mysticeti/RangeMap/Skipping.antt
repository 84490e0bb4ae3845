-- ===== src/Mysticeti/RangeMap/Skipping.antt =====
-- A round of `mutate_range` of range_map.rs leaves the entries alone that end before its range.
use mathlib.Core.Option
use congestion_control.Prelude.{
  ℕ, ◌≡◌, ◌≤◌, ◌<◌, sym, ap, ◌∙◌, ◌∷◌, Option, none, some, arith, Option-cases, inl, inr,
}
use congestion_control.Mysticeti.RangeMap.{
  RangeItem, Entries, item, put, last_upto, first_in, insert_vacant, find_start, find_overlap,
  write_back, apply, overlap_round, round,
}
use congestion_control.Mysticeti.RangeMap.Laid.{IsLaid, last_upto_over, last_upto_keyed}

module _ {V : Type 0} (k : ℕ) (r : RangeItem V) where
  insert_skip :
      (a : ℕ) (w : RangeItem V) (m : Entries V)
      → k < a
      → insert_vacant a w ((k, r) ∷ m) ≡ Option.map (λ m'. (k, r) ∷ m') (insert_vacant a w m)
  unfolding insert_vacant
  insert_skip a w m h = ground arith

  put_skip :
      (a : ℕ) (w : RangeItem V) (m : Entries V) → k < a → put a w ((k, r) ∷ m) ≡ (k, r) ∷ put a w m
  unfolding put
  put_skip a w m h = ground arith

module _ {V : Type 0} (k : ℕ) (r : RangeItem V) (m : Entries V) where
  -- The entry is put in front of the entries of a result.
  abbrev under {ℓ} : {A : Type ℓ} → Option (Entries V × A) → Option (Entries V × A)
  under o = Option.map (λ p. ((k, r) ∷ p.0, p.1)) o

  last_upto_skip :
      (a : ℕ)
      → k ≤ a
      → last_upto a ((k, r) ∷ m) ≡ some (elim (last_upto a m) [ none ↦ (k, r) | some l ↦ l ])
  unfolding last_upto
  last_upto_skip a h = ground arith

  find_start_skip :
      (a : ℕ)
      → IsLaid r.end_excluded m
      → k < r.end_excluded
      → r.end_excluded ≤ a
      → find_start a ((k, r) ∷ m) ≡ under (find_start a m)
  unfolding find_start last_upto
  find_start_skip a l h e = elim (Option-cases (last_upto a m)) [
    | inl n ↦ ground (arith, n, last_upto_skip a)
    | inr ((j, w), y) ↦
        let over = last_upto_over a r.end_excluded m j w l y in
        let p = put_skip k r j (item w.start_included a w.v) m (omega arith) in
        let q =
          insert_skip k r a (item a w.end_excluded w.v) (put j (item w.start_included a w.v) m)
            (omega arith) in
        ground (arith, y, p, q)
  ]

  write_back_skip :
      (w : RangeItem V) (v : Option V)
      → k < w.start_included
      → write_back w v ((k, r) ∷ m) ≡ Option.map (λ m'. (k, r) ∷ m') (write_back w v m)
  unfolding write_back
  write_back_skip w none h = ground arith
  write_back_skip w (some v) h = ground arith

  first_in_skip : (a b : ℕ) → k < a → first_in a b ((k, r) ∷ m) ≡ first_in a b m
  unfolding first_in
  first_in_skip a b h = ground arith

  find_overlap_skip :
      (a b : ℕ) (o : Option (RangeItem V))
      → k < a
      → a < b
      → find_overlap a b ((k, r) ∷ m) o
        ≡ Option.map (λ p. ((k, r) ∷ p.0, p.1, p.2)) (find_overlap a b m o)
  unfolding find_overlap
  find_overlap_skip a b (some w) h l =
      let p = put_skip k r a (item w.start_included b w.v) m h in
      let q =
        put_skip k r b (item b w.end_excluded w.v) (put a (item w.start_included b w.v) m)
          (omega arith) in
      ground (arith, p, q)
  find_overlap_skip a b none h l =
      let e : first_in a b ((k, r) ∷ m) ≡ first_in a b m = first_in_skip a b h in
      elim (Option-cases (first_in a b m)) [
        | inl n ↦ let p = insert_skip k r a (item a b none) m h in ground (arith, e, n, p)
        | inr ((u, w), y) ↦ let p = insert_skip k r a (item a u none) m h in ground (arith, e, y, p)
      ]

module _ {V : Type 0} where
  -- The ranges that are found start where they are looked for.
  abbrev pub IsStart : ℕ → Option (RangeItem V) → Type 0
  IsStart a none = Unit {0}
  IsStart a (some w) = w.start_included ≡ a

  find_start_at :
      (a low : ℕ) (m m' : Entries V) (o : Option (RangeItem V))
      → IsLaid low m
      → find_start a m ≡ some (m', o)
      → IsStart a o
  unfolding find_start
  find_start_at a low m m' none l e = tt
  find_start_at a low m m' (some w') l e = elim (Option-cases (last_upto a m)) [
    | inl n ↦ ground (arith, n)
    | inr ((j, w), y) ↦
        let s = last_upto_keyed a low m j w l y in
        elim (Option-cases
          (insert_vacant a (item a w.end_excluded w.v) (put j (item w.start_included a w.v) m))) [
            | inl n ↦ ground (arith, y, n)
            | inr (m2, z) ↦ ground (arith, y, z)
          ]
  ]

  find_overlap_at :
      (a b : ℕ) (m m' : Entries V) (o : Option (RangeItem V)) (w : RangeItem V)
      (left : Option (ℕ × ℕ))
      → IsStart a o
      → find_overlap a b m o ≡ some (m', w, left)
      → w.start_included ≡ a
  unfolding find_overlap
  find_overlap_at a b m m' none w left s e = elim (Option-cases (first_in a b m)) [
    | inl n ↦ elim (Option-cases (insert_vacant a (item a b none) m)) [
      | inl z ↦ ground (arith, n, z)
      | inr (m2, z) ↦ ground (arith, n, z)
    ]
    | inr ((u, w'), y) ↦ elim (Option-cases (insert_vacant a (item a u none) m)) [
      | inl z ↦ ground (arith, y, z)
      | inr (m2, z) ↦ ground (arith, y, z)
    ]
  ]
  find_overlap_at a b m m' (some w') w left s e = ground arith

module _ {V S : Type 0} (f : S → ℕ → ℕ → Option V → Option V × S) (s : S) (a b : ℕ) where
  pub round_of :
      (m : Entries V) (p : Entries V × Option (RangeItem V))
      → find_start a m ≡ some p
      → round f s a b m ≡ overlap_round f s a b p
  unfolding round
  round_of m p e = ground (arith, e)

  pub overlap_round_of :
      (m : Entries V) (o : Option (RangeItem V)) (p : Entries V × RangeItem V × Option (ℕ × ℕ))
      → find_overlap a b m o ≡ some p
      → overlap_round f s a b (m, o) ≡ apply f s p
  overlap_round_of m o p e = ground (arith, e)

module _ {V S : Type 0} (f : S → ℕ → ℕ → Option V → Option V × S) (k : ℕ) (r : RangeItem V) where
  pub overlap_round_skip :
      (m : Entries V) (o : Option (RangeItem V)) (s : S) (a b : ℕ)
      → IsStart a o
      → k < a
      → a < b
      → overlap_round f s a b ((k, r) ∷ m, o)
        ≡ Option.map (λ p. ((k, r) ∷ p.0, p.1, p.2)) (overlap_round f s a b (m, o))
  overlap_round_skip m o s a b at h d =
      let x = find_overlap_skip k r m a b o h d in
      elim (Option-cases (find_overlap a b m o)) [
        | inl n ↦ ground (arith, x, n)
        | inr ((m2, w, left), z) ↦
            let st = find_overlap_at a b m m2 o w left at z in
            let y =
              write_back_skip k r m2 w (f s w.start_included w.end_excluded w.v).0 (omega arith) in
            elim (Option-cases (write_back w (f s w.start_included w.end_excluded w.v).0 m2)) [
              | inl n ↦ ground (arith, x, z, y, n)
              | inr (m3, n) ↦ ground (arith, x, z, y, n)
            ]
      ]

  pub round_skip :
      (m : Entries V) (s : S) (a b : ℕ)
      → IsLaid r.end_excluded m
      → k < r.end_excluded
      → r.end_excluded ≤ a
      → a < b
      → round f s a b ((k, r) ∷ m) ≡ Option.map (λ p. ((k, r) ∷ p.0, p.1, p.2)) (round f s a b m)
  unfolding round
  round_skip m s a b l h e d =
      let x = find_start_skip k r m a l h e in
      elim (Option-cases (find_start a m)) [
        | inl n ↦ ground (arith, x, n)
        | inr ((m1, o), y) ↦
            let at = find_start_at a r.end_excluded m m1 o l y in
            let x2 : find_start a ((k, r) ∷ m) ≡ some ((k, r) ∷ m1, o) = ground (arith, x, y) in
            round_of f s a b ((k, r) ∷ m) ((k, r) ∷ m1, o) x2
            ∙ overlap_round_skip m1 o s a b at (omega arith) d
            ∙ ap (λ t. Option.map (λ p. ((k, r) ∷ p.0, p.1, p.2)) t)
                (sym (round_of f s a b m (m1, o) y))
      ]
