-- ===== src/Mysticeti/RangeMap/Rounds.antt =====
-- What a round of `mutate_range` of range_map.rs does, on entries that are laid out in order.
use mathlib.Core.Option
use congestion_control.Prelude.{
  ℕ, ◌≡◌, ◌≤◌, ◌<◌, refl, sym, ap, ◌∙◌, [], ◌∷◌, Option, none, some, ◌==◌, if◌then◌else◌, arith,
  inl, inr, lt_or_le, subst,
}
use congestion_control.Mysticeti.RangeMap.{
  RangeItem, Entries, item, put, has_key, last_upto, first_in, insert_vacant, find_start,
  find_overlap, round,
}
use congestion_control.Mysticeti.RangeMap.Laid.{
  get, IsLaid, last_upto_under, has_key_under, put_under,
}
use congestion_control.Mysticeti.RangeMap.Skipping.{overlap_round_skip, round_of, round_skip}
use congestion_control.Mysticeti.RangeMap.Covering.{Rounds, gap_round, start_round}

module _ {V S : Type 0} (f : S → ℕ → ℕ → Option V → Option V × S) where
  gap_case :
      (low : ℕ) (s : S) (a b k : ℕ) (r : RangeItem V) (m : Entries V)
      → IsLaid low ((k, r) ∷ m)
      → low ≤ a
      → a < b
      → a < k
      → Rounds f low s a b ((k, r) ∷ m) (round f s a b ((k, r) ∷ m))
  unfolding find_start last_upto find_overlap first_in insert_vacant
  gap_case low s a b k r m l h d g =
      let all : Entries V = (k, r) ∷ m in
      let lk : IsLaid k all = (omega arith, l.1, l.2, l.3, l.4) in
      let o : find_start a all ≡ some (all, none) = ground arith in
      let free = has_key_under a k all lk g in
      elim (lt_or_le k b) [
        | inl t ↦
            let p = put_under a k (item a k none) all lk g in
            let q : find_overlap a b all none
                ≡ some (
                  (a, item a k none) ∷ all,
                  item a k none,
                  if k == b then none else some (k, b),
                ) =
              ground (arith, free, p) in
            subst (Rounds f low s a b all) (sym (round_of f s a b all (all, none) o))
              (gap_round f low s a b k all h g (omega arith) lk q)
        | inr t ↦
            let lb : IsLaid b all = (t, l.1, l.2, l.3, l.4) in
            let p = put_under a k (item a b none) all lk g in
            let q : find_overlap a b all none
                ≡ some (
                  (a, item a b none) ∷ all,
                  item a b none,
                  if b == b then none else some (b, b),
                ) =
              ground (arith, free, p) in
            subst (Rounds f low s a b all) (sym (round_of f s a b all (all, none) o))
              (gap_round f low s a b b all h d (omega arith) lb q)
      ]

  -- The range starts in an entry: at its start, or after a split.
  inside_case :
      (low : ℕ) (s : S) (a b k e : ℕ) (v : Option V) (m : Entries V)
      → IsLaid low ((k, item k e v) ∷ m)
      → low ≤ a
      → a < b
      → k ≤ a
      → a < e
      → Rounds f low s a b ((k, item k e v) ∷ m) (round f s a b ((k, item k e v) ∷ m))
  unfolding find_start last_upto insert_vacant has_key put get
  inside_case low s a b k e v m l h d g n =
      let all : Entries V = (k, item k e v) ∷ m in
      let u = last_upto_under a e m l.4 n in
      elim (lt_or_le k a) [
        | inr same ↦
            let k≡a : k ≡ a = omega arith in
            let o : find_start a ((a, item a e v) ∷ m)
                ≡ some ((a, item a e v) ∷ m, some (item a e v)) =
              ground (arith, u) in
            subst
              (λ j. Rounds f low s a b ((j, item j e v) ∷ m) (round f s a b ((j, item j e v) ∷ m)))
              (sym k≡a)
              (subst (Rounds f low s a b ((a, item a e v) ∷ m))
                (sym (round_of f s a b ((a, item a e v) ∷ m) _ o))
                (start_round f low s a b e v m h d n l.3 l.4))
        | inl split ↦
            let part : Entries V = (a, item a e v) ∷ m in
            let free = has_key_under a e m l.4 n in
            let p = put_under a e (item a e v) m l.4 n in
            let o : find_start a all ≡ some ((k, item k a v) ∷ part, some (item a e v)) =
              ground (arith, u, free, p) in
            let (m', s', left, q, lm, c) = start_round f a s a b e v m (omega arith) d n l.3 l.4 in
            let jump =
              overlap_round_skip f k (item k a v) part (some (item a e v)) s a b refl split d in
            (
              (k, item k a v) ∷ m',
              s',
              left,
              round_of f s a b all _ o ∙ jump ∙ ap (Option.map _) q,
              (l.0, refl, split, l.3, lm),
              record {
                upto = c.upto;
                old = c.old;
                nonempty = c.nonempty;
                within = c.within;
                before = λ x y z. ground (arith, c.before x y z);
                after = λ x. ground (arith, c.after x, c.nonempty);
                state = c.state;
                rest = c.rest;
              },
            )
      ]

  skip_case :
      (low : ℕ) (s : S) (a b k : ℕ) (r : RangeItem V) (m : Entries V)
      → IsLaid low ((k, r) ∷ m)
      → r.end_excluded ≤ a
      → a < b
      → Rounds f r.end_excluded s a b m (round f s a b m)
      → Rounds f low s a b ((k, r) ∷ m) (round f s a b ((k, r) ∷ m))
  unfolding get
  skip_case low s a b k r m l h d (m', s', left, q, lm, c) = (
    (k, r) ∷ m',
    s',
    left,
    round_skip f k r m s a b l.4 l.2 h d ∙ ap (Option.map _) q,
    (l.0, l.1, l.2, l.3, lm),
    record {
      upto = c.upto;
      old = c.old;
      nonempty = c.nonempty;
      within = c.within;
      before = λ x y z. ground (arith, c.before x y z);
      after = λ x. ground (arith, c.after x);
      state = c.state;
      rest = c.rest;
    },
  )

  -- Each round ends without a panic, keeps the entries laid out, and covers a first part of its range.
  pub round_lem :
      (low : ℕ) (s : S) (a b : ℕ) (m : Entries V)
      → IsLaid low m
      → low ≤ a
      → a < b
      → Rounds f low s a b m (round f s a b m)
  unfolding find_start last_upto find_overlap first_in insert_vacant has_key put
  round_lem low s a b [] l h d =
      subst (Rounds f low s a b []) (sym (round_of f s a b [] ([], none) refl))
        (gap_round f low s a b b [] h d (omega arith) tt (ground arith))
  round_lem low s a b ((k, r) ∷ m) l h d = elim (lt_or_le a r.end_excluded) [
    | inr skip ↦ skip_case low s a b k r m l skip d (round_lem r.end_excluded s a b m l.4 skip d)
    | inl more ↦ elim (lt_or_le a k) [
      | inl gap ↦ gap_case low s a b k r m l h d gap
      | inr start ↦
          let e : r ≡ item k r.end_excluded r.v = ground (arith, l.1) in
          subst (λ w. Rounds f low s a b ((k, w) ∷ m) (round f s a b ((k, w) ∷ m))) (sym e)
            (inside_case low s a b k r.end_excluded r.v m (l.0, refl, l.2, l.3, l.4) h d start more)
    ]
  ]
