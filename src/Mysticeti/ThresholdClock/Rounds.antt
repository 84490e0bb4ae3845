-- ===== src/Mysticeti/ThresholdClock/Rounds.antt =====
-- In which round the clock of threshold_clock.rs stands.
use congestion_control.Prelude.{
  ℕ, ◌+◌, ◌-◌, ◌≡◌, ◌≤◌, ◌<◌, refl, sym, ap, ◌∙◌, subst, Bool, true, false, List, [], ◌∷◌, some,
  arith, ◌==◌, ◌||◌, ltb, length, ◌⊎◌, inl, inr, Bool-cases, Option-cases, if◌then◌else◌, get_elem?,
}
use congestion_control.Mysticeti.Types.{BlockReference}
use congestion_control.Mysticeti.Committee.{
  Authority, Committee, StakeAggregator, quorum, add, no_votes, is_quorum, u64_mod,
  new as committee_new,
}
use congestion_control.Mysticeti.Committee.Stake.{
  stake_of, stake_of_none, stake_of_mono, stake_of-add,
}
use congestion_control.Mysticeti.Committee.Quorums.{
  Gathered, nobody, voted, IsCommittee, new-IsCommittee, add_lem, among, Gathered-stake,
}
use congestion_control.Mysticeti.ThresholdClock.{ThresholdClockAggregator, new, add_block}

-- The authors of the blocks of a round.
unfoldable pub at_round : ℕ → List BlockReference → List ℕ
at_round r [] = []
at_round r (b ∷ bs) = if b.round == r then b.authority ∷ at_round r bs else at_round r bs

abbrev pub UpTo : ℕ → List BlockReference → Type 0
UpTo r [] = Unit {0}
UpTo r (b ∷ bs) = (b.round ≤ r) × UpTo r bs

-- Whether the authors of the blocks of a round are a quorum.
abbrev pub has_quorum : Committee → ℕ → List BlockReference → Bool
has_quorum c r bs = is_quorum c (stake_of (among (at_round r bs)) c.authorities)

UpTo-trans : (r t : ℕ) (bs : List BlockReference) → r ≤ t → UpTo r bs → UpTo t bs
UpTo-trans r t [] h u = tt
UpTo-trans r t (b ∷ bs) h u = (omega arith, UpTo-trans r t bs h u.1)

at_round_above : (r t : ℕ) (bs : List BlockReference) → UpTo r bs → r < t → at_round t bs ≡ []
unfolding at_round
at_round_above r t [] u h = refl
at_round_above r t (b ∷ bs) u h = ground (arith, at_round_above r t bs u.1 h)

quorum_mono :
    (c : Committee) (r : ℕ) (b : BlockReference) (bs : List BlockReference)
    → has_quorum c r bs ≡ true
    → has_quorum c r (b ∷ bs) ≡ true
unfolding at_round
quorum_mono c r b bs h = elim (Bool-cases (b.round == r)) [
  | inr n ↦ rw n h
  | inl e ↦
      let m =
        stake_of_mono (among (at_round r bs)) (λ i. b.authority == i || among (at_round r bs) i)
          c.authorities (λ i k. ground (arith, k)) in
      rw e (ground arith)
]

-- The ways of `add_block`.
data Moved (b : BlockReference) (c : Committee) (k : ThresholdClockAggregator)
    : ThresholdClockAggregator → Type 0 where
  past : b.round < k.round → Moved b c k k
  jumps :
      (s : StakeAggregator) (r : Bool)
      → k.round < b.round
      → add quorum b.authority c no_votes ≡ some (s, r)
      → Moved b c k (record { aggregator = s; round = b.round })
  counts :
      (s : StakeAggregator)
      → b.round ≡ k.round
      → add quorum b.authority c k.aggregator ≡ some (s, false)
      → Moved b c k (record { aggregator = s; round = k.round })
  advances :
      (s : StakeAggregator)
      → b.round ≡ k.round
      → add quorum b.authority c k.aggregator ≡ some (s, true)
      → Moved b c k (record { aggregator = no_votes; round = k.round + 1 })

moved :
    (b : BlockReference) (c : Committee) (k k' : ThresholdClockAggregator)
    → b.round + 1 < u64_mod
    → add_block b c k ≡ some k'
    → Moved b c k k'
unfolding add_block
moved b c k k' h e = elim (Bool-cases (ltb b.round k.round)) [
  | inl l ↦ let e : k ≡ k' = ground arith in subst (Moved b c k) e (past (ground arith))
  | inr l ↦ elim (Bool-cases (ltb k.round b.round)) [
    | inl g ↦ elim (Option-cases (add quorum b.authority c no_votes)) [
      | inl n ↦ ground (arith, n)
      | inr (p, q) ↦ subst (Moved b c k) (ground (arith, q)) (jumps p.0 p.1 (ground arith) q)
    ]
    | inr g ↦ elim (Option-cases (add quorum b.authority c k.aggregator)) [
      | inl n ↦ ground (arith, n)
      | inr ((s, true), q) ↦ subst (Moved b c k) (ground (arith, q)) (advances s (ground arith) q)
      | inr ((s, false), q) ↦ subst (Moved b c k) (ground (arith, q)) (counts s (ground arith) q)
    ]
  ]
]

-- What the clock of a committee tells of the blocks that it has seen.
pub record Tells (c : Committee) (start : ℕ) (bs : List BlockReference)
    (k : ThresholdClockAggregator) : Type 0 where
  pub gathered : Gathered quorum c (at_round k.round bs) k.aggregator
  pub newest : UpTo k.round bs
  pub waiting : has_quorum c k.round bs ≡ false
  pub reason :
      (k.round ≡ start)
      ⊎ ((0 < length (at_round k.round bs))
          ⊎ ((0 < k.round) × (has_quorum c (k.round - 1) bs ≡ true)))

module _ (c : Committee) (start : ℕ) (committee : IsCommittee c)
    (no_single : (v : ℕ) (a : Authority)
      → get_elem? c.authorities v ≡ some a
      → is_quorum c a.stake ≡ false) where
  verdict :
      (vs : List ℕ) (v : ℕ) (s s' : StakeAggregator) (r : Bool)
      → Gathered quorum c vs s
      → add quorum v c s ≡ some (s', r)
      → is_quorum c (stake_of (among (v ∷ vs)) c.authorities) ≡ r
  verdict vs v s s' r g e =
      let (a, h, f, t, l) = add_lem quorum c v s s' r e in
      ap (is_quorum c) (sym (Gathered-stake committee (voted v s' r g e))) ∙ sym l

  none_waits : is_quorum c (stake_of (among []) c.authorities) ≡ false
  none_waits = rw (stake_of_none c.authorities) (ground arith)

  one_waits :
      (v : ℕ) (s : StakeAggregator) (r : Bool)
      → add quorum v c no_votes ≡ some (s, r)
      → is_quorum c (stake_of (among (v ∷ [])) c.authorities) ≡ false
  one_waits v s r e =
      let (a, h, f, t, l) = add_lem quorum c v no_votes s r e in
      let d = stake_of-add v (among []) c.authorities a h refl in
      let z = stake_of_none c.authorities in
      let d' : stake_of (among (v ∷ [])) c.authorities ≡ a.stake = omega arith in
      rw d' (no_single v a h)

  Moved-Tells :
      (b : BlockReference) (bs : List BlockReference) (k k' : ThresholdClockAggregator)
      → Tells c start bs k
      → Moved b c k k'
      → Tells c start (b ∷ bs) k'
  unfolding at_round
  Moved-Tells b bs k k' t (past l) =
      let same : at_round k.round (b ∷ bs) ≡ at_round k.round bs = ground arith in
      record {
        gathered = subst (λ vs. Gathered quorum c vs k.aggregator) (sym same) t.gathered;
        newest = (omega arith, t.newest);
        waiting = ap (λ vs. is_quorum c (stake_of (among vs) c.authorities)) same ∙ t.waiting;
        reason = elim t.reason [
          | inl s ↦ inl s
          | inr (inl s) ↦ inr (inl (rw same s))
          | inr (inr (s, q)) ↦ inr (inr (s, quorum_mono c (k.round - 1) b bs q))
        ];
      }
  Moved-Tells b bs k k' t (jumps s r g e) =
      let above = at_round_above k.round b.round bs t.newest g in
      let only : at_round b.round (b ∷ bs) ≡ b.authority ∷ [] = ground (arith, above) in
      record {
        gathered = subst (λ vs. Gathered quorum c vs s) (sym only) (voted b.authority s r nobody e);
        newest = (omega arith, UpTo-trans k.round b.round bs (omega arith) t.newest);
        waiting = rw only (one_waits b.authority s r e);
        reason = inr (inl (rw only (omega arith)));
      }
  Moved-Tells b bs k k' t (counts s g e) =
      let more : at_round k.round (b ∷ bs) ≡ b.authority ∷ at_round k.round bs = ground arith in
      record {
        gathered =
            subst (λ vs. Gathered quorum c vs s) (sym more)
              (voted b.authority s false t.gathered e);
        newest = (omega arith, t.newest);
        waiting =
            rw more (verdict (at_round k.round bs) b.authority k.aggregator s false t.gathered e);
        reason = inr (inl (rw more (omega arith)));
      }
  Moved-Tells b bs k k' t (advances s g e) =
      let more : at_round k.round (b ∷ bs) ≡ b.authority ∷ at_round k.round bs = ground arith in
      let up : UpTo k.round (b ∷ bs) = (omega arith, t.newest) in
      let above = at_round_above k.round (k.round + 1) (b ∷ bs) up (omega arith) in
      let back : k.round + 1 - 1 ≡ k.round = omega arith in
      record {
        gathered = subst (λ vs. Gathered quorum c vs no_votes) (sym above) nobody;
        newest = UpTo-trans k.round (k.round + 1) (b ∷ bs) (omega arith) up;
        waiting = rw above none_waits;
        reason = inr (
            inr (
              omega arith,
              subst (λ r. has_quorum c r (b ∷ bs) ≡ true) (sym back)
                  (rw more
                    (verdict (at_round k.round bs) b.authority k.aggregator s true t.gathered e)),
            ));
      }

-- The clock after `add_block` of each block of a list, the last one first.
pub data Runs (c : Committee) (start : ℕ)
    : List BlockReference → ThresholdClockAggregator → Type 0 where
  begins : Runs c start [] (new start)
  adds :
      {bs : List BlockReference} {k : ThresholdClockAggregator} (b : BlockReference)
      (k' : ThresholdClockAggregator)
      → Runs c start bs k
      → b.round + 1 < u64_mod
      → add_block b c k ≡ some k'
      → Runs c start (b ∷ bs) k'

module _ (c : Committee) (start : ℕ) (committee : IsCommittee c)
    (no_single : (v : ℕ) (a : Authority)
      → get_elem? c.authorities v ≡ some a
      → is_quorum c a.stake ≡ false) where
  Runs-Tells :
      {bs : List BlockReference} {k : ThresholdClockAggregator}
      → Runs c start bs k
      → Tells c start bs k
  unfolding at_round
  Runs-Tells begins = record {
    gathered = nobody;
    newest = tt;
    waiting = none_waits c start committee no_single;
    reason = inl refl;
  }
  Runs-Tells (adds {bs} {k} b k' r h e) =
      Moved-Tells c start committee no_single b bs k k' (Runs-Tells r) (moved b c k k' h e)

-- In a committee in which no authority is a quorum alone, the clock is never behind a block that it
-- has seen, and never waits on when the authors of the blocks of its round are a quorum. It entered its round
-- as its first, by a block of that round, or by a quorum in the round before. No round is the last of a `u64`.
pub clock_exact :
    (m : List Authority) (c : Committee) (start : ℕ) {bs : List BlockReference}
    {k : ThresholdClockAggregator}
    → committee_new m ≡ some c
    → ((v : ℕ) (a : Authority) → get_elem? c.authorities v ≡ some a → is_quorum c a.stake ≡ false)
    → Runs c start bs k
    → UpTo k.round bs
      × (has_quorum c k.round bs ≡ false)
      × ((k.round ≡ start)
          ⊎ ((0 < length (at_round k.round bs))
              ⊎ ((0 < k.round) × (has_quorum c (k.round - 1) bs ≡ true))))
clock_exact m c start e solo runs =
    let t = Runs-Tells c start (new-IsCommittee m c e).0 solo runs in
    (t.newest, t.waiting, t.reason)
