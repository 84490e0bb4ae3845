-- ===== src/Mysticeti/Blocks.antt =====
-- types.rs and committee.rs: the ranges of the transactions that a block shares, and the
-- verification of a block. The cryptography is a parameter.
pub mod Ranges
pub mod Verified
use congestion_control.Prelude.{
  ℕ, zero, suc, ◌+◌, ◌-◌, ◌*◌, Bool, true, false, List, [], ◌∷◌, map, Option, none, some, ◌==◌, ltb,
  leb, ◌&&◌, if◌then◌else◌,
}
use congestion_control.Mysticeti.Types.{
  BlockReference, TransactionLocator, TransactionLocatorRange, BaseStatement, share, vote,
  vote_range, StatementBlock, span,
}
use congestion_control.Mysticeti.Committee.{Committee, get_public_key, known_authority}
use congestion_control.Mysticeti.ThresholdClock.{threshold_clock_valid_non_genesis}

pub record Range : Type 0 where
  pub start : ℕ
  pub end : ℕ

-- `VoteRangeBuilder`: the new builder, and the range that is complete.
unfoldable pub add : ℕ → Option Range → Option Range × Option Range
add offset none = (some (record { start = offset; end = offset + 1 }), none)
add offset (some r) =
    if r.end == offset
    then (some (record r { end = offset + 1 }), none)
    else (some (record { start = offset; end = offset + 1 }), some r)

abbrev pub locator_range : BlockReference → Range → TransactionLocatorRange
locator_range block r = record {
  block = block;
  offset_start_inclusive = r.start;
  offset_end_exclusive = r.end;
}

abbrev pub push :
    BlockReference → Option Range → List TransactionLocatorRange → List TransactionLocatorRange
push block none ranges = ranges
push block (some r) ranges = locator_range block r ∷ ranges

-- The loop over the statements, from an offset on.
unfoldable pub ranges_from :
    BlockReference → ℕ → Option Range → List BaseStatement → List TransactionLocatorRange
unfolding add
ranges_from block offset b [] = push block b []
ranges_from block offset b (share t ∷ rest) =
    push block (add offset b).1 (ranges_from block (offset + 1) (add offset b).0 rest)
ranges_from block offset b (vote l v ∷ rest) = ranges_from block (offset + 1) b rest
ranges_from block offset b (vote_range r ∷ rest) = ranges_from block (offset + 1) b rest

unfoldable pub shared_ranges : StatementBlock → List TransactionLocatorRange
shared_ranges block = ranges_from block.reference 0 none block.statements

abbrev pub locator : BlockReference → ℕ → TransactionLocator
locator block offset = record { block = block; offset = offset }

abbrev pub locators : TransactionLocatorRange → List TransactionLocator
locators r = map (locator r.block) (span r.offset_start_inclusive r.offset_end_exclusive)

unfoldable pub shared_from :
    BlockReference → ℕ → List BaseStatement → List (TransactionLocator × List ℕ)
shared_from block pos [] = []
shared_from block pos (share t ∷ rest) = (locator block pos, t) ∷ shared_from block (pos + 1) rest
shared_from block pos (vote l v ∷ rest) = shared_from block (pos + 1) rest
shared_from block pos (vote_range r ∷ rest) = shared_from block (pos + 1) rest

unfoldable pub shared_transactions : StatementBlock → List (TransactionLocator × List ℕ)
shared_transactions block = shared_from block.reference 0 block.statements

-- What the code relies on of its hash function and its signature scheme: nothing but that they are functions.
pub record Crypto : Type 0 where
  -- Author, round, includes, statements, creation time, epoch marker and signature.
  pub block_digest : ℕ → ℕ → List BlockReference → List BaseStatement → ℕ → Bool → List ℕ → ℕ
  pub verify_block : ℕ → StatementBlock → Bool

abbrev pub digest_of : Crypto → StatementBlock → ℕ
digest_of x b =
    x.block_digest b.reference.authority b.reference.round b.includes b.statements
      b.meta_creation_time_ns b.epoch_marker b.signature

pub data BlockError : Type 0 where
  digest_mismatch : BlockError
  unknown_author : BlockError
  genesis_block : BlockError
  wrong_signature : BlockError
  unknown_include : BlockReference → BlockError
  include_round : BlockReference → BlockError
  range_reversed : BlockError
  range_too_long : BlockError
  range_too_far : BlockError
  threshold_clock : BlockError

pub data Verdict : Type 0 where
  ok : Verdict
  err : BlockError → Verdict

abbrev pub max_len : ℕ
max_len = 1024 * 1024

abbrev pub and_then : Verdict → Verdict → Verdict
and_then ok v = v
and_then (err e) v = err e

-- `ensure!`
abbrev pub ensure : Bool → BlockError → Verdict
ensure true e = ok
ensure false e = err e

unfoldable pub verify_range : TransactionLocatorRange → Verdict
verify_range r =
    and_then (ensure (leb r.offset_start_inclusive r.offset_end_exclusive) range_reversed) (
      and_then
        (ensure (ltb (r.offset_end_exclusive - r.offset_start_inclusive) max_len) range_too_long)
        (ensure (ltb r.offset_end_exclusive max_len) range_too_far))

unfoldable pub verify_includes : Committee → ℕ → List BlockReference → Verdict
verify_includes c round [] = ok
verify_includes c round (i ∷ includes) =
    and_then (ensure (known_authority c i.authority) (unknown_include i))
      (and_then (ensure (ltb i.round round) (include_round i)) (verify_includes c round includes))

unfoldable pub verify_statements : List BaseStatement → Verdict
unfolding verify_range
verify_statements [] = ok
verify_statements (share t ∷ rest) = verify_statements rest
verify_statements (vote l v ∷ rest) = verify_statements rest
verify_statements (vote_range r ∷ rest) = and_then (verify_range r) (verify_statements rest)

abbrev pub threshold_verdict : Option Bool → Option Verdict
threshold_verdict none = none
threshold_verdict (some valid) = some (ensure valid threshold_clock)

abbrev pub continue : Verdict → Option Verdict → Option Verdict
continue ok rest = rest
continue (err e) rest = some (err e)

abbrev pub known_key : Crypto → StatementBlock → Option ℕ → Verdict
known_key x block none = err unknown_author
known_key x block (some key) =
    and_then (ensure (ltb 0 block.reference.round) genesis_block)
      (ensure (x.verify_block key block) wrong_signature)

-- `none` is a panic of the threshold clock's check.
unfoldable pub verify : Crypto → StatementBlock → Committee → Option Verdict
unfolding verify_includes verify_statements
verify x block c = continue (ensure (digest_of x block == block.reference.digest) digest_mismatch) (
    continue (known_key x block (get_public_key c block.reference.authority)) (
      continue (verify_includes c block.reference.round block.includes) (
        continue (verify_statements block.statements)
          (threshold_verdict (threshold_clock_valid_non_genesis block c)))))
