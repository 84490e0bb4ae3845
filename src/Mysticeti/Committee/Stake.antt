-- ===== src/Mysticeti/Committee/Stake.antt =====
-- The stake of a set of authorities of the committee of committee.rs.
use congestion_control.Prelude.{
  ℕ, zero, suc, ◌+◌, ◌≡◌, ◌≤◌, ◌<◌, refl, Bool, true, false, ◌&&◌, ◌||◌, List, [], ◌∷◌, some, arith,
  ◌==◌, get_elem?, if◌then◌else◌,
}
use congestion_control.Mysticeti.Committee.{Authority, total_from, u64_mod}

-- The stake of the authorities that pass a test, which is given their indices.
unfoldable pub stake_of : (ℕ → Bool) → List Authority → ℕ
stake_of p [] = 0
stake_of p (a ∷ others) = (if p 0 then a.stake else 0) + stake_of (λ i. p (suc i)) others

abbrev pub total : List Authority → ℕ
total [] = 0
total (a ∷ others) = a.stake + total others

pub stake_of-le-total : (p : ℕ → Bool) (m : List Authority) → stake_of p m ≤ total m
unfolding stake_of
stake_of-le-total p [] = omega arith
stake_of-le-total p (a ∷ others) = ground (arith, stake_of-le-total (λ i. p (suc i)) others)

pub stake_of_none : (m : List Authority) → stake_of (λ _. false) m ≡ 0
unfolding stake_of
stake_of_none [] = refl
stake_of_none (a ∷ others) = omega (arith, stake_of_none others)

-- Inclusion and exclusion.
pub stake_of_split :
    (p q : ℕ → Bool) (m : List Authority)
    → stake_of p m + stake_of q m ≡ stake_of (λ i. p i && q i) m + stake_of (λ i. p i || q i) m
unfolding stake_of
stake_of_split p q [] = omega arith
stake_of_split p q (a ∷ others) =
    ground (arith, stake_of_split (λ i. p (suc i)) (λ i. q (suc i)) others)

pub stake_of-add :
    (v : ℕ) (p : ℕ → Bool) (m : List Authority) (a : Authority)
    → get_elem? m v ≡ some a
    → p v ≡ false
    → stake_of (λ i. v == i || p i) m ≡ stake_of p m + a.stake
unfolding stake_of
stake_of-add v p [] a e n = cc
stake_of-add zero p (b ∷ others) a e n = ground arith
stake_of-add (suc v) p (b ∷ others) a e n =
    ground (arith, stake_of-add v (λ i. p (suc i)) others a e n)

pub total_from_lem :
    (t : ℕ) (m : List Authority) (r : ℕ)
    → total_from t m ≡ some r
    → t < u64_mod
    → (r ≡ t + total m) × (r < u64_mod)
unfolding total_from
total_from_lem t [] r e h = ground arith
total_from_lem t (a ∷ others) r e h = ground (arith, total_from_lem (t + a.stake) others r)

pub stake_of_mono :
    (p q : ℕ → Bool) (m : List Authority)
    → ((i : ℕ) → p i ≡ true → q i ≡ true)
    → stake_of p m ≤ stake_of q m
unfolding stake_of
stake_of_mono p q [] h = omega arith
stake_of_mono p q (a ∷ others) h =
    ground (arith, h 0, stake_of_mono (λ i. p (suc i)) (λ i. q (suc i)) others (λ i. h (suc i)))
