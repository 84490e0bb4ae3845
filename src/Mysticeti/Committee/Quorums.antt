-- ===== src/Mysticeti/Committee/Quorums.antt =====
-- The stake that an aggregator of committee.rs has counted, and what two quorums have in common.
use congestion_control.Prelude.{
  ℕ, zero, suc, ◌+◌, ◌*◌, ◌/◌, ◌%◌, ◌≡◌, ◌<◌, refl, sym, ◌∙◌, ap, fun_ext, Bool, true, ◌&&◌, ◌||◌,
  List, [], ◌∷◌, some, arith, ◌==◌, get_elem?, if◌then◌else◌, contains, Bool-cases, ==_iff,
  Option-cases, inl, inr,
}
use congestion_control.Prelude.Bits.{has}
use congestion_control.Mysticeti.AuthoritySet.{insert, insert-fresh, has-insert}
use congestion_control.Mysticeti.Committee.{
  Authority, Committee, Threshold, StakeAggregator, u64_mod, new, total_from, get_stake, add,
  no_votes, is_threshold, quorum, is_valid, is_quorum,
}
use congestion_control.Mysticeti.Committee.Stake.{
  stake_of, total, stake_of-le-total, stake_of_split, stake_of-add, stake_of_none, total_from_lem,
}

-- An aggregator after the votes of a list of authorities, the last one first.
pub data Gathered (th : Threshold) (c : Committee) : List ℕ → StakeAggregator → Type 0 where
  nobody : Gathered th c [] no_votes
  voted :
      {vs : List ℕ} {s : StakeAggregator} (v : ℕ) (s' : StakeAggregator) (reached : Bool)
      → Gathered th c vs s
      → add th v c s ≡ some (s', reached)
      → Gathered th c (v ∷ vs) s'

-- What `new` makes of its authorities.
pub record IsCommittee (c : Committee) : Type 0 where
  pub total_fits : total c.authorities < u64_mod
  pub validity_exact : c.validity_threshold ≡ total c.authorities / 3
  pub quorum_exact : c.quorum_threshold ≡ (2 * total c.authorities) % u64_mod / 3

pub new-IsCommittee :
    (m : List Authority) (c : Committee) → new m ≡ some c → IsCommittee c × (c.authorities ≡ m)
unfolding new
new-IsCommittee m c e = elim (Option-cases (total_from 0 m)) [
  | inl n ↦ ground (arith, n)
  | inr (t, h) ↦ let k = total_from_lem 0 m t h (omega arith) in ground (arith, h)
]

-- The voters, as a test on authorities.
abbrev pub among : List ℕ → ℕ → Bool
among vs i = contains i vs

again : (v : ℕ) (vs : List ℕ) (i : ℕ) → among vs v ≡ true → among vs i ≡ (v == i || among vs i)
again v vs i y = elim (Bool-cases (v == i)) [
  | inl e ↦
      let h = (==_iff v i).0 e in let y' : among vs i ≡ true = rw (← h) y in ground (arith, y')
  | inr n ↦ ground (arith, n)
]

-- What one vote does, where the authority is in the committee.
pub add_lem :
    (th : Threshold) (c : Committee) (v : ℕ) (s s' : StakeAggregator) (r : Bool)
    → add th v c s ≡ some (s', r)
    → (a : Authority) × (get_elem? c.authorities v ≡ some a)
      × (s'.votes ≡ (insert v s.votes).0)
      × (s'.stake ≡ (if has s.votes v then s.stake else (s.stake + a.stake) % u64_mod))
      × (r ≡ is_threshold th c s'.stake)
unfolding add get_stake
add_lem th c v s s' r e = elim (Option-cases (get_elem? c.authorities v)) [
  | inl n ↦ ground (arith, n)
  | inr (a, h) ↦
      let f = insert-fresh v s.votes in
      let e' = rw (h, f) at e in (a, h, ground (arith, f), ground (arith, f), ground (arith, f))
]

module _ {th : Threshold} {c : Committee} where
  pub Gathered-has :
      {vs : List ℕ} {s : StakeAggregator}
      → Gathered th c vs s
      → (w : ℕ) → has s.votes w ≡ among vs w
  Gathered-has nobody zero = refl
  Gathered-has nobody (suc w) = Gathered-has nobody w
  Gathered-has (voted {s = s} v s' r g e) w =
      let (a, h, f, k, l) = add_lem th c v s s' r e in
      rw f (has-insert v s.votes w ∙ ap (λ b. v == w || b) (Gathered-has g w))

  -- The stake never wraps: it is that of the voters, each once.
  pub Gathered-stake :
      IsCommittee c
      → {vs : List ℕ} {s : StakeAggregator} → Gathered th c vs s
      → s.stake ≡ stake_of (among vs) c.authorities
  Gathered-stake k nobody = sym (stake_of_none c.authorities)
  Gathered-stake k (voted {vs} {s = s} v s' r g e) =
      let (a, h, f, t, l) = add_lem th c v s s' r e in
      let ih = Gathered-stake k g in
      let b = Gathered-has g v in
      let m = stake_of-le-total (λ i. v == i || among vs i) c.authorities in
      elim (Bool-cases (among vs v)) [
        | inl y ↦
            rw (t, b, y) (ih ∙ ap (λ p. stake_of p c.authorities) (fun_ext (λ i. again v vs i y)))
        | inr n ↦
            let d = stake_of-add v (among vs) c.authorities a h n in
            let fits = k.total_fits in rw (t, b, n) (omega arith)
      ]

-- What two quorums of a committee have in common is more than the validity threshold, so that one
-- of them is not among those that the threshold allows to fail. It is for a committee whose stake can be doubled.
pub quorum_intersection :
    (m : List Authority) (c : Committee) {vs ws : List ℕ} {a b : StakeAggregator}
    → new m ≡ some c
    → 2 * total m < u64_mod
    → Gathered quorum c vs a
    → Gathered quorum c ws b
    → is_quorum c a.stake ≡ true
    → is_quorum c b.stake ≡ true
    → is_valid c (stake_of (λ i. among vs i && among ws i) m) ≡ true
quorum_intersection m c {vs} {ws} {a} {b} e d g h p q =
    let (k, same) = new-IsCommittee m c e in
    let x = Gathered-stake k g in
    let y = Gathered-stake k h in
    let x' = rw same at x in
    let y' = rw same at y in
    let v = k.validity_exact in
    let v' = rw same at v in
    let u = k.quorum_exact in
    let u' = rw same at u in
    let split = stake_of_split (among vs) (among ws) m in
    let most = stake_of-le-total (λ i. among vs i || among ws i) m in ground (arith)
