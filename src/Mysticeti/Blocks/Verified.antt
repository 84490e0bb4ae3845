-- ===== src/Mysticeti/Blocks/Verified.antt =====
-- What a block has passed that `StatementBlock::verify` of types.rs accepts.
use congestion_control.Prelude.{
  ℕ, ◌-◌, ◌≡◌, ◌≤◌, ◌<◌, refl, sym, ap, ◌∙◌, true, List, [], ◌∷◌, Option, none, some, arith, ◌==◌,
  ◌↔◌,
}
use congestion_control.Mysticeti.Types.{
  BlockReference, BaseStatement, share, vote, vote_range, StatementBlock,
}
use congestion_control.Mysticeti.Committee.{Authority, Committee, new, get_public_key}
use congestion_control.Mysticeti.Committee.Quorums.{IsCommittee, new-IsCommittee}
use congestion_control.Mysticeti.ThresholdClock.{threshold_clock_valid_non_genesis}
use congestion_control.Mysticeti.ThresholdClock.Rounds.{has_quorum}
use congestion_control.Mysticeti.ThresholdClock.Valid.{
  AreKnown, AreBelow, all_below-AreBelow, valid_lem,
}
use congestion_control.Mysticeti.Blocks.{
  Crypto, Verdict, ok, err, ensure, continue, known_key, threshold_verdict, digest_of,
  digest_mismatch, threshold_clock, max_len, verify, verify_includes, verify_statements,
}

-- The ranges that are voted for are in order and short.
abbrev pub AreBounded : List BaseStatement → Type 0
AreBounded [] = Unit {0}
AreBounded (share t ∷ rest) = AreBounded rest
AreBounded (vote l v ∷ rest) = AreBounded rest
AreBounded (vote_range r ∷ rest) =
    (r.offset_start_inclusive ≤ r.offset_end_exclusive)
    × (r.offset_end_exclusive < max_len)
    × AreBounded rest

abbrev pub IsSigned : Crypto → StatementBlock → Option ℕ → Type 0
IsSigned x block none = ⊥
IsSigned x block (some key) = x.verify_block key block ≡ true

pub record IsVerified (x : Crypto) (block : StatementBlock) (c : Committee) : Type 0 where
  pub digested : digest_of x block ≡ block.reference.digest
  pub signed : IsSigned x block (get_public_key c block.reference.authority)
  pub later : 0 < block.reference.round
  pub known : AreKnown c block.includes
  pub below : AreBelow block.reference.round block.includes
  pub bounded : AreBounded block.statements
  pub quorate : has_quorum c (block.reference.round - 1) block.includes ≡ true

verify_includes_iff :
    (c : Committee) (r : ℕ) (is : List BlockReference)
    → (verify_includes c r is ≡ ok) ↔ (AreKnown c is × AreBelow r is)
unfolding verify_includes
verify_includes_iff c r [] = (λ h. (tt, tt), λ h. refl)
verify_includes_iff c r (i ∷ is) = ground (arith, verify_includes_iff c r is)

verify_statements_iff : (ss : List BaseStatement) → (verify_statements ss ≡ ok) ↔ AreBounded ss
unfolding verify_statements
verify_statements_iff [] = (λ h. tt, λ h. refl)
verify_statements_iff (share t ∷ ss) = verify_statements_iff ss
verify_statements_iff (vote l v ∷ ss) = verify_statements_iff ss
verify_statements_iff (vote_range r ∷ ss) = ground (arith, verify_statements_iff ss)

known_key_iff :
    (x : Crypto) (block : StatementBlock) (o : Option ℕ)
    → (known_key x block o ≡ ok) ↔ (IsSigned x block o × (0 < block.reference.round))
known_key_iff x block none = (λ h. cc, λ h. absurd (h.0))
known_key_iff x block (some key) = ground arith

continue_total :
    (v : Verdict) (rest : Option Verdict)
    → (v ≡ ok → (w : Verdict) × (rest ≡ some w))
    → (w : Verdict) × (continue v rest ≡ some w)
continue_total ok rest h = h refl
continue_total (err e) rest h = (err e, refl)

continue_iff :
    (v : Verdict) (rest : Option Verdict)
    → (continue v rest ≡ some ok) ↔ ((v ≡ ok) × (rest ≡ some ok))
continue_iff ok rest = (λ h. (refl, h), λ h. h.1)
continue_iff (err e) rest = ground arith

module _ (x : Crypto) (block : StatementBlock) (c : Committee) (committee : IsCommittee c) where
  checked :
      verify_includes c block.reference.round block.includes ≡ ok
      → 0 < block.reference.round
      → threshold_verdict (threshold_clock_valid_non_genesis block c)
        ≡ some (ensure (has_quorum c (block.reference.round - 1) block.includes) threshold_clock)
  checked e h =
      let (k, b) = (verify_includes_iff c block.reference.round block.includes).0 e in
      let v = valid_lem c block committee h k in
      rw (v, all_below-AreBelow block.reference.round block.includes b) refl

  -- The checks, and what is left after each.
  abbrev digest_check : Verdict
  digest_check = ensure (digest_of x block == block.reference.digest) digest_mismatch

  abbrev author_check : Verdict
  author_check = known_key x block (get_public_key c block.reference.authority)

  abbrev include_check : Verdict
  include_check = verify_includes c block.reference.round block.includes

  abbrev statement_check : Verdict
  statement_check = verify_statements block.statements

  abbrev clock_check : Option Verdict
  clock_check = threshold_verdict (threshold_clock_valid_non_genesis block c)

  abbrev after_includes : Option Verdict
  after_includes = continue statement_check clock_check

  abbrev after_author : Option Verdict
  after_author = continue include_check after_includes

  abbrev after_digest : Option Verdict
  after_digest = continue author_check after_author

  author_iff : (author_check ≡ ok) ↔ (
      IsSigned x block (get_public_key c block.reference.authority) × (0 < block.reference.round))
  author_iff = known_key_iff x block (get_public_key c block.reference.authority)

  includes_iff :
      (include_check ≡ ok)
      ↔ (AreKnown c block.includes × AreBelow block.reference.round block.includes)
  includes_iff = verify_includes_iff c block.reference.round block.includes

  verify_total : (v : Verdict) × (verify x block c ≡ some v)
  unfolding verify
  verify_total = continue_total digest_check after_digest (λ d.
      continue_total author_check after_author (λ s.
        continue_total include_check after_includes (λ i.
          continue_total statement_check clock_check (λ t. (_, checked i (author_iff.0 s).1)))))

  verified : verify x block c ≡ some ok → IsVerified x block c
  unfolding verify
  verified h =
      let (d, h1) = (continue_iff digest_check after_digest).0 h in
      let (s, h2) = (continue_iff author_check after_author).0 h1 in
      let (i, h3) = (continue_iff include_check after_includes).0 h2 in
      let (t, h4) = (continue_iff statement_check clock_check).0 h3 in
      let (signed, later) = author_iff.0 s in
      let (known, below) = includes_iff.0 i in
      let q = sym (checked i later) ∙ h4 in
      record {
        digested = ground (arith, d);
        signed = signed;
        later = later;
        known = known;
        below = below;
        bounded = (verify_statements_iff block.statements).0 t;
        quorate = ground (arith, q);
      }

  accepted : IsVerified x block c → verify x block c ≡ some ok
  unfolding verify
  accepted v =
      let i = includes_iff.1 (v.known, v.below) in
      let q : clock_check ≡ some ok = checked i v.later ∙ ground (arith, v.quorate) in
      let t = (verify_statements_iff block.statements).1 v.bounded in
      let d : digest_check ≡ ok = ground (arith, v.digested) in
      (continue_iff digest_check after_digest).1 (
        d,
        (continue_iff author_check after_author).1 (
          author_iff.1 (v.signed, v.later),
          (continue_iff include_check after_includes).1
              (i, (continue_iff statement_check clock_check).1 (t, q)),
        ),
      )

some_ok : (v : Verdict) → some v ≡ some ok → v ≡ ok
some_ok v h = cc

-- The verification ends with a verdict, without a panic, and accepts a block exactly if its digest is that
-- of its fields, its author is in the committee and has signed it, it is not of the first round,
-- its includes are of members and of lower rounds, the ranges that it votes for are in order and below the
-- limit, and the authors of its includes of the round before are a quorum.
pub verify_iff :
    (m : List Authority) (c : Committee) (x : Crypto) (block : StatementBlock)
    → new m ≡ some c
    → (v : Verdict) × (verify x block c ≡ some v) × ((v ≡ ok) ↔ IsVerified x block c)
verify_iff m c x block e =
    let k = (new-IsCommittee m c e).0 in
    let (v, h) = verify_total x block c k in
    (
      v,
      h,
      (λ a. verified x block c k (h ∙ ap some a), λ a. some_ok v (sym h ∙ accepted x block c k a)),
    )
