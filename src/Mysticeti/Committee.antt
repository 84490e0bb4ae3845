-- ===== src/Mysticeti/Committee.antt =====
-- committee.rs: the committee with its thresholds, and the aggregation of the stake of votes.
pub mod Stake
pub mod Quorums
use congestion_control.Prelude.{
  ℕ, zero, suc, ◌+◌, ◌*◌, ◌/◌, ◌%◌, ◌^◌, ◌≡◌, ◌<◌, ◌≤◌, refl, Bool, true, false, List, [], ◌∷◌,
  Option, none, some, arith, ◌==◌, ◌&&◌, if◌then◌else◌, ltb, leb, length, get_elem?, not, map,
}
use mathlib.Core.Option
use congestion_control.Mysticeti.AuthoritySet.{AuthoritySet, insert, no_authority}

abbrev pub u64_mod : ℕ
u64_mod = 2 ^ 64

pub record Authority : Type 0 where
  pub stake : ℕ
  pub public_key : ℕ

-- The thresholds are the fields of the source, not what its methods of the same names return.
pub record Committee : Type 0 where
  pub authorities : List Authority
  pub validity_threshold : ℕ
  pub quorum_threshold : ℕ

abbrev pub all_staked : List Authority → Bool
all_staked [] = true
all_staked (a ∷ rest) = ltb 0 a.stake && all_staked rest

-- `checked_add` over all authorities: `none` is the overflow.
unfoldable pub total_from : ℕ → List Authority → Option ℕ
total_from total [] = some total
total_from total (a ∷ others) =
    let rest = total_from (total + a.stake) others in
    if ltb (total + a.stake) u64_mod then rest else none

abbrev pub with_thresholds : List Authority → ℕ → Committee
with_thresholds members total = record {
  authorities = members;
  validity_threshold = total / 3;
  quorum_threshold = (2 * total) % u64_mod / 3;
}

-- `none` is a failed assertion.
unfoldable pub new : List Authority → Option Committee
unfolding total_from
new members =
    if ltb 0 (length members) && (all_staked members && leb (length members) 128)
    then Option.map (with_thresholds members) (total_from 0 members)
    else none

unfoldable pub get_stake : Committee → ℕ → Option ℕ
get_stake c authority = Option.map (λ (a : Authority). a.stake) (get_elem? c.authorities authority)

unfoldable pub get_public_key : Committee → ℕ → Option ℕ
get_public_key c authority =
    Option.map (λ (a : Authority). a.public_key) (get_elem? c.authorities authority)

abbrev pub known_authority : Committee → ℕ → Bool
known_authority c authority = ltb authority (length c.authorities)

abbrev pub is_valid : Committee → ℕ → Bool
is_valid c amount = ltb c.validity_threshold amount

abbrev pub is_quorum : Committee → ℕ → Bool
is_quorum c amount = ltb c.quorum_threshold amount

unfoldable pub elect_leader : Committee → ℕ → ℕ
elect_leader c r = r % length c.authorities

-- `CommitteeThreshold`: the two thresholds that an aggregator may be for.
pub data Threshold : Type 0 where
  quorum : Threshold
  validity : Threshold

abbrev pub is_threshold : Threshold → Committee → ℕ → Bool
is_threshold quorum c amount = is_quorum c amount
is_threshold validity c amount = is_valid c amount

pub record StakeAggregator : Type 0 where
  pub votes : AuthoritySet
  pub stake : ℕ

abbrev pub no_votes : StakeAggregator
no_votes = record { votes = no_authority; stake = 0 }

abbrev counted : StakeAggregator → ℕ → AuthoritySet × Bool → StakeAggregator
counted s stake (votes, fresh) = record {
  votes = votes;
  stake = if fresh then (s.stake + stake) % u64_mod else s.stake;
}

-- The new aggregator, and whether its stake meets the threshold. `none` is the panic on an
-- authority that is not in the committee.
unfoldable pub add : Threshold → ℕ → Committee → StakeAggregator → Option (StakeAggregator × Bool)
unfolding get_stake insert
add th vote c s =
    Option.map
      (λ stake. let s' = counted s stake (insert vote s.votes) in (s', is_threshold th c s'.stake))
      (get_stake c vote)

abbrev pub clear : StakeAggregator → StakeAggregator
clear s = no_votes
