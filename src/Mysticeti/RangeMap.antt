-- ===== src/Mysticeti/RangeMap.antt =====
-- range_map.rs: a map from ranges of numbers to values. Its `BTreeMap` is the list of its entries in
-- the order of their keys. The mutation function is `f`, with what it changes as a state.
pub mod Laid
pub mod Skipping
pub mod Covering
pub mod Rounds
pub mod Mutated
use mathlib.Core.Option
use congestion_control.Prelude.{
  ℕ, zero, suc, Bool, true, false, List, [], ◌∷◌, Option, none, some, ◌==◌, ◌||◌, ltb, leb, ◌&&◌,
  if◌then◌else◌,
}

pub record RangeItem (V : Type 0) : Type 0 where
  pub start_included : ℕ
  pub end_excluded : ℕ
  pub v : Option V

abbrev pub Entries : Type 0 → Type 0
Entries V = List (ℕ × RangeItem V)

abbrev pub item : {V : Type 0} → ℕ → ℕ → Option V → RangeItem V
item a b v = record { start_included = a; end_excluded = b; v = v }

module _ {V : Type 0} where
  -- `BTreeMap::insert`, and a write through a reference to the entry of a key.
  unfoldable pub put : ℕ → RangeItem V → Entries V → Entries V
  put k r [] = (k, r) ∷ []
  put k r ((j, w) ∷ m) =
      if j == k then (k, r) ∷ m else if ltb k j then (k, r) ∷ (j, w) ∷ m else (j, w) ∷ put k r m

  unfoldable pub remove : ℕ → Entries V → Entries V
  remove k [] = []
  remove k ((j, w) ∷ m) = if j == k then m else (j, w) ∷ remove k m

  unfoldable pub has_key : ℕ → Entries V → Bool
  has_key k [] = false
  has_key k ((j, w) ∷ m) = j == k || has_key k m

  -- `range_mut(..=k).last()`
  unfoldable pub last_upto : ℕ → Entries V → Option (ℕ × RangeItem V)
  last_upto k [] = none
  last_upto k ((j, w) ∷ m) =
      let later = last_upto k m in
      if leb j k then elim later [ none ↦ some (j, w) | some l ↦ some l ] else none

  -- `range(a..b).next()`
  unfoldable pub first_in : ℕ → ℕ → Entries V → Option (ℕ × RangeItem V)
  first_in a b [] = none
  first_in a b ((j, w) ∷ m) =
      let later = first_in a b m in if ltb j a then later else if ltb j b then some (j, w) else none

  -- An entry that must be vacant: `none` is the panic.
  unfoldable pub insert_vacant : ℕ → RangeItem V → Entries V → Option (Entries V)
  unfolding has_key put
  insert_vacant k r m = if has_key k m then none else some (put k r m)

  -- The range that starts with k, after a split of the one that contains k.
  unfoldable pub find_start : ℕ → Entries V → Option (Entries V × Option (RangeItem V))
  unfolding last_upto insert_vacant
  find_start k m = elim (last_upto k m) [
    | none ↦ some (m, none)
    | some (j, r) ↦
        if j == k
        then some (m, some r)
        else if ltb k r.end_excluded
        then Option.map (λ m'. (m', some (item k r.end_excluded r.v)))
            (insert_vacant k (item k r.end_excluded r.v) (put j (item r.start_included k r.v) m))
        else some (m, none)
  ]

  -- The overlap of the range a..b with what is there, and the range that is left.
  unfoldable pub find_overlap :
      ℕ → ℕ → Entries V → Option (RangeItem V) → Option (Entries V × RangeItem V × Option (ℕ × ℕ))
  unfolding put first_in insert_vacant
  find_overlap a b m (some r) =
      if r.end_excluded == b
      then some (m, r, none)
      else if ltb b r.end_excluded
      then some (
        put b (item b r.end_excluded r.v) (put a (item r.start_included b r.v) m),
        item r.start_included b r.v,
        none,
      )
      else some (m, r, some (r.end_excluded, b))
  find_overlap a b m none = elim (first_in a b m) [
    | some (u, w) ↦
        Option.map (λ m'. (m', item a u none, some (u, b))) (insert_vacant a (item a u none) m)
    | none ↦ Option.map (λ m'. (m', item a b none, none)) (insert_vacant a (item a b none) m)
  ]

  -- The value is written back, or the entry removed, which must be there.
  unfoldable pub write_back : RangeItem V → Option V → Entries V → Option (Entries V)
  unfolding put remove has_key
  write_back r (some v) m =
      some (put r.start_included (item r.start_included r.end_excluded (some v)) m)
  write_back r none m =
      if has_key r.start_included m then some (remove r.start_included m) else none

module _ {V S : Type 0} (f : S → ℕ → ℕ → Option V → Option V × S) where
  abbrev pub apply :
      S → Entries V × RangeItem V × Option (ℕ × ℕ) → Option (Entries V × S × Option (ℕ × ℕ))
  apply s (m, r, left) =
      Option.map (λ m'. (m', (f s r.start_included r.end_excluded r.v).1, left))
        (write_back r (f s r.start_included r.end_excluded r.v).0 m)

  abbrev pub overlap_round :
      S → ℕ → ℕ → Entries V × Option (RangeItem V) → Option (Entries V × S × Option (ℕ × ℕ))
  overlap_round s a b (m, start) = elim (find_overlap a b m start) [
    | none ↦ none
    | some o ↦ apply s o
  ]

  -- One round of the loop.
  unfoldable pub round : S → ℕ → ℕ → Entries V → Option (Entries V × S × Option (ℕ × ℕ))
  unfolding find_start find_overlap write_back
  round s a b m = elim (find_start a m) [ none ↦ none | some p ↦ overlap_round s a b p ]

  -- `none` is a panic, or that the fuel has run out.
  unfoldable pub mutate_range : ℕ → S → ℕ → ℕ → Entries V → Option (Entries V × S)
  unfolding round
  mutate_range zero s a b m = none
  mutate_range (suc fuel) s a b m = elim (round s a b m) [
    | none ↦ none
    | some (m', s', none) ↦ some (m', s')
    | some (m', s', some (a', b')) ↦ mutate_range fuel s' a' b' m'
  ]

abbrev pub is_empty : {V : Type 0} → Entries V → Bool
is_empty [] = true
is_empty (e ∷ m) = false
