-- ===== src/Mysticeti/RangeMap/Laid.antt =====
-- Entries of range_map.rs that are laid out in order, without overlap, and the value at a number.
use congestion_control.Prelude.{
  ℕ, ◌≡◌, ◌≤◌, ◌<◌, ◌≢◌, refl, false, [], ◌∷◌, Option, none, some, ltb, leb, ◌&&◌, if◌then◌else◌,
  arith, Option-cases, inl, inr,
}
use congestion_control.Mysticeti.RangeMap.{RangeItem, Entries, put, has_key, last_upto}

module _ {V : Type 0} where
  -- The value of the range that contains a number.
  unfoldable pub get : ℕ → Entries V → Option V
  get x [] = none
  get x ((k, r) ∷ m) =
      let later = get x m in if leb r.start_included x && ltb x r.end_excluded then r.v else later

  -- From a number on: each entry is at the start of its range, no range is empty or overlaps the next,
  -- and each has a value.
  abbrev pub IsLaid : ℕ → Entries V → Type 0
  IsLaid low [] = Unit {0}
  IsLaid low ((k, r) ∷ m) =
      (low ≤ k)
      × (r.start_included ≡ k)
      × (k < r.end_excluded)
      × (r.v ≢ none)
      × IsLaid r.end_excluded m

  pub IsLaid-trans : (a b : ℕ) (m : Entries V) → a ≤ b → IsLaid b m → IsLaid a m
  IsLaid-trans a b [] h l = tt
  IsLaid-trans a b ((k, r) ∷ m) h l = (omega arith, l.1, l.2, l.3, l.4)

  pub last_upto_under : (k low : ℕ) (m : Entries V) → IsLaid low m → k < low → last_upto k m ≡ none
  unfolding last_upto
  last_upto_under k low [] l h = refl
  last_upto_under k low ((j, r) ∷ m) l h = ground arith

  pub last_upto_over :
      (k low : ℕ) (m : Entries V) (j : ℕ) (r : RangeItem V)
      → IsLaid low m
      → last_upto k m ≡ some (j, r)
      → low ≤ j
  unfolding last_upto
  last_upto_over k low [] j r l e = cc
  last_upto_over k low ((i, w) ∷ m) j r l e = elim (Option-cases (last_upto k m)) [
    | inl n ↦ ground (arith, n)
    | inr ((i', w'), h) ↦
        let over = last_upto_over k w.end_excluded m i' w' l.4 h in ground (arith, h)
  ]

  pub has_key_under : (k low : ℕ) (m : Entries V) → IsLaid low m → k < low → has_key k m ≡ false
  unfolding has_key
  has_key_under k low [] l h = refl
  has_key_under k low ((j, r) ∷ m) l h = ground (arith, has_key_under k r.end_excluded m l.4)

  pub put_under :
      (k low : ℕ) (r : RangeItem V) (m : Entries V)
      → IsLaid low m
      → k < low
      → put k r m ≡ (k, r) ∷ m
  unfolding put
  put_under k low r [] l h = refl
  put_under k low r ((j, w) ∷ m) l h = ground arith

  pub get_under : (x low : ℕ) (m : Entries V) → IsLaid low m → x < low → get x m ≡ none
  unfolding get
  get_under x low [] l h = refl
  get_under x low ((j, r) ∷ m) l h = ground (arith, get_under x r.end_excluded m l.4)

  pub last_upto_keyed :
      (k low : ℕ) (m : Entries V) (j : ℕ) (r : RangeItem V)
      → IsLaid low m
      → last_upto k m ≡ some (j, r)
      → r.start_included ≡ j
  unfolding last_upto
  last_upto_keyed k low [] j r l e = cc
  last_upto_keyed k low ((i, w) ∷ m) j r l e = elim (Option-cases (last_upto k m)) [
    | inl n ↦ ground (arith, n)
    | inr ((i', w'), h) ↦
        let same = last_upto_keyed k w.end_excluded m i' w' l.4 h in ground (arith, h)
  ]
