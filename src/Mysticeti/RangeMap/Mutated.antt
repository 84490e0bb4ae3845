-- ===== src/Mysticeti/RangeMap/Mutated.antt =====
-- `mutate_range` of range_map.rs against the map from numbers to values that it stands for.
use congestion_control.Prelude.{
  ℕ, zero, suc, ◌-◌, ◌≡◌, ◌≤◌, ◌<◌, refl, sym, ◌∙◌, subst, Option, none, some, ◌==◌, ==_iff, arith,
  Bool-cases, ◌⊎◌, inl, inr,
}
use congestion_control.Mysticeti.RangeMap.{Entries, round, mutate_range}
use congestion_control.Mysticeti.RangeMap.Laid.{get, IsLaid}
use congestion_control.Mysticeti.RangeMap.Rounds.{round_lem}

module _ {V S : Type 0} (f : S → ℕ → ℕ → Option V → Option V × S) where
  -- The calls of the mutation function, from a state on: they tile the range from left to right, the
  -- value was the same all over each tile, and is there what its call made of it.
  pub data Tiles (m m' : Entries V) : S → ℕ → ℕ → S → Type 0 where
    over : {s : S} {a b : ℕ} {s' : S} → a ≡ b → s ≡ s' → Tiles m m' s a b s'
    tile :
        {s : S} {a b : ℕ} {s' : S} (c : ℕ) (old : Option V)
        → a < c
        → ((x : ℕ) → a ≤ x → x < c → (get x m ≡ old) × (get x m' ≡ (f s a c old).0))
        → Tiles m m' (f s a c old).1 c b s'
        → Tiles m m' s a b s'

  Tiles-before :
      (m n m' : Entries V) {s : S} {a b : ℕ} {s' : S}
      → ((x : ℕ) → a ≤ x → get x n ≡ get x m)
      → Tiles n m' s a b s'
      → Tiles m m' s a b s'
  Tiles-before m n m' h (over p q) = over p q
  Tiles-before m n m' h (tile c old l k t) =
      tile c old l (λ x y z. (sym (h x y) ∙ (k x y z).0, (k x y z).1))
        (Tiles-before m n m' (λ x y. h x (omega arith)) t)

  last_round :
      (fuel : ℕ) (s : S) (a b : ℕ) (m m1 : Entries V) (s1 : S) (left : Option (ℕ × ℕ))
      → round f s a b m ≡ some (m1, s1, left)
      → left ≡ none
      → mutate_range f (suc fuel) s a b m ≡ some (m1, s1)
  unfolding mutate_range
  last_round fuel s a b m m1 s1 left q e = ground (arith, q, e)

  other_round :
      (fuel : ℕ) (s : S) (a b c : ℕ) (m m1 : Entries V) (s1 : S) (left : Option (ℕ × ℕ))
      → round f s a b m ≡ some (m1, s1, left)
      → left ≡ some (c, b)
      → mutate_range f (suc fuel) s a b m ≡ mutate_range f fuel s1 c b m1
  unfolding mutate_range
  other_round fuel s a b c m m1 s1 left q e = ground (arith, q, e)

  -- On entries laid out in order, and a range that is not empty, with one round for each number of it,
  -- the loop ends without a panic. The calls tile the range, with the value of each tile as it was, the new
  -- values are what the calls returned, all others are as before, and the entries are again laid out in order.
  pub mutate_range_lem :
      (fuel : ℕ) (s : S) (a b : ℕ) (m : Entries V)
      → IsLaid 0 m
      → a < b
      → b - a ≤ fuel
      → (m' : Entries V) × (s' : S) × (mutate_range f fuel s a b m ≡ some (m', s'))
        × IsLaid 0 m'
        × Tiles m m' s a b s'
        × ((x : ℕ) → (x < a) ⊎ (b ≤ x) → get x m' ≡ get x m)
  mutate_range_lem zero s a b m l d h = absurd (omega arith)
  mutate_range_lem (suc fuel) s a b m l d h =
      let (m1, s1, left, q, l1, c) = round_lem f 0 s a b m l (omega arith) d in
      elim (Bool-cases (c.upto == b)) [
        | inl e ↦
            let same : c.upto ≡ b = (==_iff c.upto b).0 e in
            (
              m1,
              s1,
              last_round fuel s a b m m1 s1 left q (c.rest ∙ rw e refl),
              l1,
              tile c.upto c.old c.nonempty (λ x y z. (c.before x y z, ground (arith, c.after x)))
                  (over same (sym c.state)),
              λ x o. ground (arith, c.after x),
            )
        | inr n ↦
            let (m2, s2, q2, l2, t, o2) =
              mutate_range_lem fuel s1 c.upto b m1 l1 (ground (arith, c.within))
                (omega (arith, c.nonempty)) in
            (
              m2,
              s2,
              other_round fuel s a b c.upto m m1 s1 left q (c.rest ∙ rw n refl) ∙ q2,
              l2,
              tile c.upto c.old c.nonempty
                  (λ x y z. (c.before x y z, o2 x (inl z) ∙ ground (arith, c.after x)))
                  (subst (λ u. Tiles m m2 u c.upto b s2) c.state
                    (Tiles-before m m1 m2 (λ x y. ground (arith, c.after x)) t)),
              λ x o.
                  o2 x (ground (arith, c.nonempty, c.within)) ∙ ground (arith, c.after x, c.within),
            )
      ]
