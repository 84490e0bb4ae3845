-- ===== src/Mysticeti/RangeMap/Covering.antt =====
-- What a round of `mutate_range` of range_map.rs makes of a gap and of an entry at the start of the range.
use mathlib.Core.Option
use congestion_control.Prelude.{
  ℕ, ◌≡◌, ◌≤◌, ◌<◌, ◌≢◌, refl, ap, ◌∙◌, ◌∷◌, Option, none, some, ◌==◌, ltb, leb, ◌&&◌,
  if◌then◌else◌, arith, inl, inr, lt_or_le,
}
use congestion_control.Mysticeti.RangeMap.{
  RangeItem, Entries, item, put, find_overlap, write_back, overlap_round,
}
use congestion_control.Mysticeti.RangeMap.Laid.{get, IsLaid, IsLaid-trans, put_under, get_under}
use congestion_control.Mysticeti.RangeMap.Skipping.{overlap_round_of}

module _ {V : Type 0} where
  -- What is left of a range after its value has been written.
  written : ℕ → ℕ → Option V → Entries V → Entries V
  written a c none m = m
  written a c (some v) m = (a, item a c (some v)) ∷ m

  written-IsLaid :
      (low a c : ℕ) (v : Option V) (m : Entries V)
      → low ≤ a
      → a < c
      → IsLaid c m
      → IsLaid low (written a c v m)
  unfolding written
  written-IsLaid low a c none m h e l = IsLaid-trans low c m (omega arith) l
  written-IsLaid low a c (some v) m h e l = (h, refl, e, λ n. cc, l)

  get-written :
      (x a c : ℕ) (v : Option V) (m : Entries V)
      → a < c
      → IsLaid c m
      → get x (written a c v m) ≡ (if leb a x && ltb x c then v else get x m)
  unfolding get written
  get-written x a c none m e l = ground (arith, get_under x c m l)
  get-written x a c (some v) m e l = refl

  write_back_head :
      (a c : ℕ) (old v : Option V) (w : RangeItem V) (m : Entries V)
      → write_back (item a c old) v ((a, w) ∷ m) ≡ some (written a c v m)
  unfolding write_back written
  write_back_head a c old none w m = ground arith
  write_back_head a c old (some v) w m = ground arith

module _ {V S : Type 0} (f : S → ℕ → ℕ → Option V → Option V × S) where
  -- A round has handed the lowest part of its range to the mutation function, in which the value
  -- was the same everywhere, and has changed the values there only.
  pub record Covers (s : S) (a b : ℕ) (m m' : Entries V) (s' : S) (left : Option (ℕ × ℕ))
      : Type 0 where
    pub upto : ℕ
    pub old : Option V
    pub nonempty : a < upto
    pub within : upto ≤ b
    pub before : (x : ℕ) → a ≤ x → x < upto → get x m ≡ old
    pub after : (x : ℕ) → get x m' ≡ (if leb a x && ltb x upto then (f s a upto old).0 else get x m)
    pub state : s' ≡ (f s a upto old).1
    pub rest : left ≡ (if upto == b then none else some (upto, b))

  abbrev pub Rounds : ℕ → S → ℕ → ℕ → Entries V → Option (Entries V × S × Option (ℕ × ℕ)) → Type 0
  Rounds low s a b m o =
      (m' : Entries V) × (s' : S) × (left : Option (ℕ × ℕ)) × (o ≡ some (m', s', left))
      × IsLaid low m'
      × Covers s a b m m' s' left

  -- No entry is where the range starts.
  pub gap_round :
      (low : ℕ) (s : S) (a b c : ℕ) (m : Entries V)
      → low ≤ a
      → a < c
      → c ≤ b
      → IsLaid c m
      → find_overlap a b m none
        ≡ some ((a, item a c none) ∷ m, item a c none, if c == b then none else some (c, b))
      → Rounds low s a b m (overlap_round f s a b (m, none))
  gap_round low s a b c m h e d l o = (
    written a c (f s a c none).0 m,
    (f s a c none).1,
    (if c == b then none else some (c, b)),
    overlap_round_of f s a b m none _ o
        ∙ ap (Option.map _) (write_back_head a c none (f s a c none).0 (item a c none) m),
    written-IsLaid low a c (f s a c none).0 m h e l,
    record {
      upto = c;
      old = none;
      nonempty = e;
      within = d;
      before = λ x y z. get_under x c m l z;
      after = λ x. get-written x a c (f s a c none).0 m e l;
      state = refl;
      rest = refl;
    },
  )

  -- An entry is where the range starts, and ends in it.
  start_round_within :
      (low : ℕ) (s : S) (a b e : ℕ) (v : Option V) (m : Entries V)
      → low ≤ a
      → a < e
      → e ≤ b
      → IsLaid e m
      → Rounds low s a b
          ((a, item a e v) ∷ m)
          (overlap_round f s a b ((a, item a e v) ∷ m, some (item a e v)))
  unfolding find_overlap get
  start_round_within low s a b e v m h d n l =
      let o : find_overlap a b ((a, item a e v) ∷ m) (some (item a e v))
          ≡ some ((a, item a e v) ∷ m, item a e v, if e == b then none else some (e, b)) =
        ground arith in
      (
        written a e (f s a e v).0 m,
        (f s a e v).1,
        (if e == b then none else some (e, b)),
        overlap_round_of f s a b ((a, item a e v) ∷ m) (some (item a e v)) _ o
            ∙ ap (Option.map _) (write_back_head a e v (f s a e v).0 (item a e v) m),
        written-IsLaid low a e (f s a e v).0 m h d l,
        record {
          upto = e;
          old = v;
          nonempty = d;
          within = n;
          before = λ x y z. ground (arith, y, z);
          after = λ x. ground (arith, get-written x a e (f s a e v).0 m d l);
          state = refl;
          rest = refl;
        },
      )

  -- An entry is where the range starts, and goes on behind it.
  start_round_beyond :
      (low : ℕ) (s : S) (a b e : ℕ) (v : Option V) (m : Entries V)
      → low ≤ a
      → a < b
      → b < e
      → v ≢ none
      → IsLaid e m
      → Rounds low s a b
          ((a, item a e v) ∷ m)
          (overlap_round f s a b ((a, item a e v) ∷ m, some (item a e v)))
  unfolding find_overlap get put
  start_round_beyond low s a b e v m h d n full l =
      let t : Entries V = (b, item b e v) ∷ m in
      let lt : IsLaid b t = (omega arith, refl, n, full, l) in
      let p = put_under b e (item b e v) m l n in
      let o : find_overlap a b ((a, item a e v) ∷ m) (some (item a e v))
          ≡ some ((a, item a b v) ∷ t, item a b v, none) =
        ground (arith, p) in
      (
        written a b (f s a b v).0 t,
        (f s a b v).1,
        none,
        overlap_round_of f s a b ((a, item a e v) ∷ m) (some (item a e v)) _ o
            ∙ ap (Option.map _) (write_back_head a b v (f s a b v).0 (item a b v) t),
        written-IsLaid low a b (f s a b v).0 t h d lt,
        record {
          upto = b;
          old = v;
          nonempty = d;
          within = omega arith;
          before = λ x y z. ground (arith, y, z);
          after = λ x. ground (arith, get-written x a b (f s a b v).0 t d lt);
          state = refl;
          rest = ground arith;
        },
      )

  pub start_round :
      (low : ℕ) (s : S) (a b e : ℕ) (v : Option V) (m : Entries V)
      → low ≤ a
      → a < b
      → a < e
      → v ≢ none
      → IsLaid e m
      → Rounds low s a b
          ((a, item a e v) ∷ m)
          (overlap_round f s a b ((a, item a e v) ∷ m, some (item a e v)))
  start_round low s a b e v m h d n full l = elim (lt_or_le b e) [
    | inl t ↦ start_round_beyond low s a b e v m h d t full l
    | inr t ↦ start_round_within low s a b e v m h n t l
  ]
