-- ===== src/Mysticeti/Tests.antt =====
-- A committee of four, some blocks and votes of its members, and the theorems at them.
pub mod Ranges
pub mod Commits
pub mod Pending
use congestion_control.Prelude.{
  ℕ, zero, suc, ◌+◌, ◌*◌, ◌-◌, ◌≡◌, ◌≤◌, ◌<◌, ◌↔◌, ◌⊎◌, refl, Bool, true, false, ◌&&◌, List, [],
  ◌∷◌, ◌++◌, map, Option, none, some, arith, get_elem?, length, ltb, ◌==◌,
}
use congestion_control.Mysticeti.Types.{
  BlockReference, BaseStatement, share, vote, vote_range, accept, StatementBlock,
  TransactionLocatorRange,
}
use congestion_control.Mysticeti.AuthoritySet.{insert}
use congestion_control.Mysticeti.Committee.{
  Authority, Committee, StakeAggregator, quorum, add, no_votes, is_quorum, is_valid, new,
  total_from, get_stake, get_public_key, u64_mod, with_thresholds,
}
use congestion_control.Mysticeti.Committee.Stake.{stake_of}
use congestion_control.Mysticeti.Committee.Quorums.{
  Gathered, nobody, voted, among, quorum_intersection,
}
use congestion_control.Mysticeti.ThresholdClock.{
  ThresholdClockAggregator, add_block, threshold_clock_valid_non_genesis,
}
use congestion_control.Mysticeti.ThresholdClock.Rounds.{
  Runs, begins, adds, UpTo, has_quorum, at_round, clock_exact,
}
use congestion_control.Mysticeti.Blocks.{
  Crypto, Verdict, ok, verify, verify_includes, verify_statements, verify_range, shared_ranges,
  ranges_from, shared_transactions, shared_from, locator,
}
use congestion_control.Mysticeti.Blocks.Ranges.{expand, IsApartFrom, shared_ranges-expand}
use congestion_control.Mysticeti.Blocks.Verified.{IsVerified, verify_iff}

abbrev member : Authority
member = record { stake = 1; public_key = 5 }

abbrev four : List Authority
four = member ∷ member ∷ member ∷ member ∷ []

abbrev committee : Committee
committee = with_thresholds four 4

run_functions : ℕ
unfolding new total_from get_stake get_public_key insert add add_block at_round stake_of
    threshold_clock_valid_non_genesis verify verify_includes verify_statements verify_range
    shared_ranges ranges_from shared_transactions shared_from
run_functions = 0

new-four : new four ≡ some committee
unfolding run_functions
new-four = refl

abbrev tally : ℕ → ℕ → StakeAggregator
tally votes stake = record { votes = votes; stake = stake }

-- The votes of three of the four, in two ways.
first_three : Gathered quorum committee (2 ∷ 1 ∷ 0 ∷ []) (tally 7 3)
unfolding run_functions
first_three =
    voted 2 (tally 7 3) true
      (voted 1 (tally 3 2) false (voted 0 (tally 1 1) false nobody refl) refl) refl

last_three : Gathered quorum committee (3 ∷ 2 ∷ 1 ∷ []) (tally 14 3)
unfolding run_functions
last_three =
    voted 3 (tally 14 3) true
      (voted 2 (tally 6 2) false (voted 1 (tally 2 1) false nobody refl) refl) refl

quorum_intersection_example :
    is_valid committee (stake_of (λ i. among (2 ∷ 1 ∷ 0 ∷ []) i && among (3 ∷ 2 ∷ 1 ∷ []) i) four)
    ≡ true
quorum_intersection_example =
    quorum_intersection four committee new-four (omega arith) first_three last_three refl refl

abbrev reference : ℕ → ℕ → BlockReference
reference authority round = record { authority = authority; round = round; digest = 0 }

abbrev genesis : List BlockReference
genesis = reference 2 0 ∷ reference 1 0 ∷ reference 0 0 ∷ []

abbrev clock : ℕ → ℕ → ℕ → ThresholdClockAggregator
clock votes stake round = record { aggregator = tally votes stake; round = round }

genesis-Runs : Runs committee 0 genesis (clock 0 0 1)
unfolding run_functions
genesis-Runs =
    adds (reference 2 0) (clock 0 0 1)
      (adds (reference 1 0) (clock 3 2 0)
        (adds (reference 0 0) (clock 1 1 0) begins (omega arith) refl) (omega arith) refl)
      (omega arith) refl

no_single :
    (v : ℕ) (a : Authority) → get_elem? four v ≡ some a → is_quorum committee a.stake ≡ false
no_single zero a h = ground arith
no_single (suc zero) a h = ground arith
no_single (suc (suc zero)) a h = ground arith
no_single (suc (suc (suc zero))) a h = ground arith
no_single (suc (suc (suc (suc v)))) a h = cc

clock_exact_example :
    UpTo 1 genesis
    × (has_quorum committee 1 genesis ≡ false)
    × ((◌≡◌ {A = ℕ} 1 0)
        ⊎ ((0 < length (at_round 1 genesis)) ⊎ ((0 < 1) × (has_quorum committee 0 genesis ≡ true))))
clock_exact_example = clock_exact four committee 0 new-four no_single genesis-Runs

-- A block of the first round after the genesis that shares three transactions and votes for one.
abbrev statements : List BaseStatement
statements =
    share (1 ∷ []) ∷ share (2 ∷ []) ∷ vote (locator (reference 1 0) 0) accept ∷ share (3 ∷ []) ∷ []

abbrev block : StatementBlock
block = record {
  reference = reference 0 1;
  includes = genesis;
  statements = statements;
  meta_creation_time_ns = 0;
  epoch_marker = false;
  signature = 9 ∷ [];
}

abbrev crypto : Crypto
crypto = record {
  block_digest = λ author round includes statements time epoch signature. 0;
  verify_block = λ key b. key == 5;
}

block_ok : verify crypto block committee ≡ some ok
unfolding run_functions
block_ok = refl

verify_iff_example :
    (v : Verdict) × (verify crypto block committee ≡ some v)
    × ((v ≡ ok) ↔ IsVerified crypto block committee)
verify_iff_example = verify_iff four committee crypto block new-four

two_ranges : length (shared_ranges block) ≡ 2
unfolding run_functions
two_ranges = refl

shared_ranges-expand_example :
    (expand (shared_ranges block) ≡ map (λ p. p.0) (shared_transactions block))
    × IsApartFrom 0 (shared_ranges block)
shared_ranges-expand_example = shared_ranges-expand block
