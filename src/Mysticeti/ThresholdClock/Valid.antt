-- ===== src/Mysticeti/ThresholdClock/Valid.antt =====
-- What `threshold_clock_valid_non_genesis` of threshold_clock.rs checks.
use congestion_control.Prelude.{
  ℕ, zero, suc, ◌-◌, ◌≡◌, ◌<◌, refl, ap, ◌∙◌, fun_ext, Bool, true, false, List, [], ◌∷◌, some,
  arith, ◌==◌, ◌&&◌, ◌||◌, lt→ltb, length, get_elem?, Bool-cases, inl, inr,
}
use congestion_control.Mysticeti.Types.{BlockReference, StatementBlock}
use congestion_control.Mysticeti.Committee.{
  Committee, StakeAggregator, Threshold, quorum, add, no_votes, is_quorum, get_stake,
  known_authority,
}
use congestion_control.Mysticeti.Committee.Stake.{stake_of}
use congestion_control.Mysticeti.Committee.Quorums.{
  Gathered, nobody, voted, IsCommittee, add_lem, among, Gathered-stake,
}
use congestion_control.Mysticeti.ThresholdClock.{
  all_below, votes_reach, threshold_clock_valid_non_genesis,
}
use congestion_control.Mysticeti.ThresholdClock.Rounds.{at_round, has_quorum}

-- All included authorities are in the committee.
abbrev pub AreKnown : Committee → List BlockReference → Type 0
AreKnown c [] = Unit {0}
AreKnown c (i ∷ is) = (known_authority c i.authority ≡ true) × AreKnown c is

abbrev pub AreBelow : ℕ → List BlockReference → Type 0
AreBelow r [] = Unit {0}
AreBelow r (i ∷ is) = (i.round < r) × AreBelow r is

pub all_below-AreBelow : (r : ℕ) (is : List BlockReference) → AreBelow r is → all_below r is ≡ true
unfolding all_below
all_below-AreBelow r [] h = refl
all_below-AreBelow r (i ∷ is) h = ground (arith, all_below-AreBelow r is h.1)

member_at {ℓ} :
    {A : Type ℓ} (xs : List A) (i : ℕ) → i < length xs → (x : A) × (get_elem? xs i ≡ some x)
member_at [] i h = absurd (omega arith)
member_at (x ∷ xs) zero h = (x, refl)
member_at (x ∷ xs) (suc i) h = member_at xs i (omega arith)

add_known :
    (th : Threshold) (c : Committee) (v : ℕ) (s : StakeAggregator)
    → known_authority c v ≡ true
    → (p : StakeAggregator × Bool) × (add th v c s ≡ some p)
unfolding add get_stake
add_known th c v s h =
    let (a, e) = member_at c.authorities v (ground arith) in rw (e, add, get_stake) (_, refl)

votes_reach_step :
    (c : Committee) (round : ℕ) (i : BlockReference) (is : List BlockReference)
    (s s' : StakeAggregator) (q r : Bool)
    → (i.round == round - 1) ≡ true
    → add quorum i.authority c s ≡ some (s', r)
    → votes_reach round (i ∷ is) c s q ≡ votes_reach round is c s' r
unfolding votes_reach
votes_reach_step c round i is s s' q r y h = rw (y, votes_reach) (rw (h, votes_reach) refl)

or_false : (p : Bool) → (p || false) ≡ p
or_false p = ground arith

or_swap : (p q r : Bool) → (p || (q || r)) ≡ ((q || p) || r)
or_swap p q r = ground arith

module _ (c : Committee) (committee : IsCommittee c) (round : ℕ) where
  votes_reach_lem :
      (is : List BlockReference) (vs : List ℕ) (s : StakeAggregator) (q : Bool)
      → Gathered quorum c vs s
      → q ≡ is_quorum c s.stake
      → AreKnown c is
      → votes_reach round is c s q
        ≡ some (
            is_quorum c
              (stake_of (λ i. among (at_round (round - 1) is) i || among vs i) c.authorities))
  unfolding votes_reach at_round
  votes_reach_lem [] vs s q g e k = ap some (e ∙ ap (is_quorum c) (Gathered-stake committee g))
  votes_reach_lem (i ∷ is) vs s q g e k = elim (Bool-cases (i.round == round - 1)) [
    | inr n ↦ rw (n, votes_reach) (votes_reach_lem is vs s q g e k.1)
    | inl y ↦
        let (p, h) = add_known quorum c i.authority s k.0 in
        let (a, m, f, t, l) = add_lem quorum c i.authority s p.0 p.1 h in
        let ih =
          votes_reach_lem is (i.authority ∷ vs) p.0 p.1 (voted i.authority p.0 p.1 g h) l k.1 in
        rw y (
          votes_reach_step c round i is s p.0 q p.1 y h
          ∙ ih
          ∙ ap (λ f. some (is_quorum c (stake_of f c.authorities)))
              (fun_ext
                (λ j. or_swap (among (at_round (round - 1) is) j) (i.authority == j) (among vs j))))
  ]

-- Where the included authorities are in the committee, the check does not panic on a block beyond
-- the first round, and holds exactly if the includes are of lower rounds and the authors of those
-- of the round before are a quorum.
pub valid_lem :
    (c : Committee) (block : StatementBlock)
    → IsCommittee c
    → 0 < block.reference.round
    → AreKnown c block.includes
    → threshold_clock_valid_non_genesis block c
      ≡ some (
          all_below block.reference.round block.includes
          && has_quorum c (block.reference.round - 1) block.includes)
unfolding threshold_clock_valid_non_genesis
valid_lem c block k h known =
    let r =
      votes_reach_lem c k block.reference.round block.includes [] no_votes false nobody
        (ground arith) known in
    let e =
      ap (λ f. some (is_quorum c (stake_of f c.authorities)))
        (fun_ext (λ j. or_false (among (at_round (block.reference.round - 1) block.includes) j))) in
    let t = r ∙ e in
    rw (lt→ltb 0 block.reference.round h)
      (elim (Bool-cases (all_below block.reference.round block.includes)) [
        | inl y ↦ rw y t
        | inr n ↦ rw n refl
      ])
