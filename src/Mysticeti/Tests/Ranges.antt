-- ===== src/Mysticeti/Tests/Ranges.antt =====
-- A map of two ranges, a mutation across both, and the theorem at it.
use congestion_control.Prelude.{
  ℕ, ◌+◌, ◌≡◌, ◌≤◌, ◌<◌, ◌⊎◌, refl, true, false, Option, none, some, [], ◌∷◌, arith, ◌==◌,
}
use congestion_control.Mysticeti.RangeMap.{
  Entries, item, put, remove, has_key, last_upto, first_in, insert_vacant, find_start, find_overlap,
  write_back, round, mutate_range,
}
use congestion_control.Mysticeti.RangeMap.Laid.{get, IsLaid}
use congestion_control.Mysticeti.RangeMap.Mutated.{Tiles, mutate_range_lem}

-- The values grow by one, a missing one becomes 7, and 9 is removed; the state counts the calls.
abbrev grow : ℕ → ℕ → ℕ → Option ℕ → Option ℕ × ℕ
grow calls a b none = (some 7, calls + 1)
grow calls a b (some v) = (elim (v == 9) [ true ↦ none | false ↦ some (v + 1) ], calls + 1)

abbrev before : Entries ℕ
before = (2, item 2 6 (some 3)) ∷ (8, item 8 12 (some 9)) ∷ []

abbrev after : Entries ℕ
after =
    (2, item 2 4 (some 3))
    ∷ (4, item 4 6 (some 4))
    ∷ (6, item 6 8 (some 7))
    ∷ (10, item 10 12 (some 9))
    ∷ []

run_functions : ℕ
unfolding put remove has_key last_upto first_in insert_vacant find_start find_overlap write_back
    round mutate_range get
run_functions = 0

across : mutate_range grow 6 0 4 10 before ≡ some (after, 3)
unfolding run_functions
across = refl

before-IsLaid : IsLaid 0 before
before-IsLaid =
    (omega arith, refl, omega arith, λ n. cc, (omega arith, refl, omega arith, λ n. cc, tt))

mutate_range_lem_example :
    (m' : Entries ℕ) × (s' : ℕ) × (mutate_range grow 6 0 4 10 before ≡ some (m', s'))
    × IsLaid 0 m'
    × Tiles grow before m' 0 4 10 s'
    × ((x : ℕ) → (x < 4) ⊎ (10 ≤ x) → get x m' ≡ get x before)
mutate_range_lem_example =
    mutate_range_lem grow 6 0 4 10 before before-IsLaid (omega arith) (omega arith)
