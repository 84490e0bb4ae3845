-- ===== src/Mysticeti/ThresholdClock.antt =====
-- threshold_clock.rs: the rounds that a validator goes through, and the check of a block's round.
pub mod Rounds
pub mod Valid
use mathlib.Core.Option
use congestion_control.Prelude.{
  ℕ, ◌+◌, ◌-◌, ◌%◌, Bool, true, false, List, [], ◌∷◌, Option, none, some, ◌==◌, ltb, leb, ◌&&◌,
  if◌then◌else◌,
}
use congestion_control.Mysticeti.Types.{BlockReference, StatementBlock}
use congestion_control.Mysticeti.Committee.{
  Committee, StakeAggregator, quorum, add, clear, no_votes, u64_mod,
}

pub record ThresholdClockAggregator : Type 0 where
  pub aggregator : StakeAggregator
  pub round : ℕ

abbrev pub new : ℕ → ThresholdClockAggregator
new round = record { aggregator = no_votes; round = round }

-- A block of a later round: its round is entered, with its vote.
jump : BlockReference → Committee → ThresholdClockAggregator → Option ThresholdClockAggregator
unfolding add
jump block c k =
    Option.map (λ r. record k { aggregator = r.0; round = block.round })
      (add quorum block.authority c (clear k.aggregator))

-- A block of the current round: a quorum of these advances the clock.
count : BlockReference → Committee → ThresholdClockAggregator → Option ThresholdClockAggregator
unfolding add
count block c k =
    Option.map
      (λ r.
        if r.1
        then record k { aggregator = clear r.0; round = (block.round + 1) % u64_mod }
        else record k { aggregator = r.0 })
      (add quorum block.authority c k.aggregator)

raise : BlockReference → ThresholdClockAggregator → ThresholdClockAggregator
raise block k = if ltb k.round block.round then record k { round = block.round } else k

-- `none` is the panic on an unknown authority.
unfoldable pub add_block :
    BlockReference → Committee → ThresholdClockAggregator → Option ThresholdClockAggregator
unfolding jump count raise
add_block block c k = Option.map (raise block) (
    if ltb block.round k.round
    then some k
    else if ltb k.round block.round
    then jump block c k
    else count block c k)

pub all_below : ℕ → List BlockReference → Bool
all_below round [] = true
all_below round (include ∷ includes) =
    if leb round include.round then false else all_below round includes

-- The loop over the includes of the round before; the last result of `add` is kept.
votes_reach : ℕ → List BlockReference → Committee → StakeAggregator → Bool → Option Bool
unfolding add
votes_reach round [] c s is_quorum = some is_quorum
votes_reach round (include ∷ includes) c s is_quorum = elim (include.round == round - 1) [
  | true ↦ elim (add quorum include.authority c s) [
    | none ↦ none
    | some (s', reached) ↦ votes_reach round includes c s' reached
  ]
  | false ↦ votes_reach round includes c s is_quorum
]

-- `none` is a failed assertion or the panic on an unknown authority.
unfoldable pub threshold_clock_valid_non_genesis : StatementBlock → Committee → Option Bool
unfolding all_below votes_reach
threshold_clock_valid_non_genesis block c =
    if ltb 0 block.reference.round
    then (if all_below block.reference.round block.includes
        then votes_reach block.reference.round block.includes c no_votes false
        else some false)
    else none
