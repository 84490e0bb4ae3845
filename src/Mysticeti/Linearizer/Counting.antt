-- ===== src/Mysticeti/Linearizer/Counting.antt =====
-- How often a reference occurs among references and among blocks, for the linearizer.
use congestion_control.Prelude.{
  ℕ, ◌+◌, ◌≡◌, ◌≤◌, ◌<◌, refl, sym, true, false, not, List, [], ◌∷◌, ◌++◌, leb, arith, count_if,
  bit, inl, inr, Bool-cases,
}
use congestion_control.Mysticeti.Types.{
  BlockReference, StatementBlock, reference_eq, reference_eq_iff,
}
use congestion_control.Mysticeti.Linearizer.{holds, place, sort_by_round}

abbrev pub times : BlockReference → List BlockReference → ℕ
times r [] = 0
times r (c ∷ cs) = bit (reference_eq c r) + times r cs

abbrev pub occurs : BlockReference → List StatementBlock → ℕ
occurs r [] = 0
occurs r (b ∷ bs) = bit (reference_eq b.reference r) + occurs r bs

pub holds-times :
    (r : BlockReference) (cs : List BlockReference) → holds r cs ≡ true → 0 < times r cs
holds-times r [] h = cc
holds-times r (c ∷ cs) h = ground (arith, holds-times r cs)

pub not_holds-times :
    (r : BlockReference) (cs : List BlockReference) → holds r cs ≡ false → times r cs ≡ 0
not_holds-times r [] h = refl
not_holds-times r (c ∷ cs) h = ground (arith, not_holds-times r cs)

pub occurs-append :
    (r : BlockReference) (bs ds : List StatementBlock)
    → occurs r (bs ++ ds) ≡ occurs r bs + occurs r ds
occurs-append r [] ds = omega arith
occurs-append r (b ∷ bs) ds = omega (arith, occurs-append r bs ds)

-- How many of some references are not among others.
abbrev pub free : List BlockReference → List BlockReference → ℕ
free us cs = count_if (λ u. not (holds u cs)) us

free-le : (c : BlockReference) (us cs : List BlockReference) → free us (c ∷ cs) ≤ free us cs
free-le c [] cs = omega arith
free-le c (u ∷ us) cs = ground (arith, free-le c us cs)

pub free-lt :
    (c : BlockReference) (us cs : List BlockReference)
    → holds c us ≡ true
    → holds c cs ≡ false
    → free us (c ∷ cs) < free us cs
free-lt c [] cs h n = cc
free-lt c (u ∷ us) cs h n = elim (Bool-cases (reference_eq u c)) [
  | inl e ↦
      let same : u ≡ c = (reference_eq_iff u c).0 e in
      let new : holds u cs ≡ false = rw same n in
      let self : reference_eq c u ≡ true = (reference_eq_iff c u).1 (sym same) in
      let rest = free-le c us cs in ground (arith, new, self)
  | inr e ↦ let rest = free-lt c us cs (ground (arith, e)) n in ground (arith, rest, e)
]

-- A property of all blocks of a list.
abbrev pub AllBlocks : (StatementBlock → Type 0) → List StatementBlock → Type 0
AllBlocks P [] = Unit {0}
AllBlocks P (b ∷ bs) = P b × AllBlocks P bs

pub AllBlocks-snoc :
    (P : StatementBlock → Type 0) (bs : List StatementBlock) (b : StatementBlock)
    → AllBlocks P bs
    → P b
    → AllBlocks P (bs ++ b ∷ [])
AllBlocks-snoc P [] b h p = (p, tt)
AllBlocks-snoc P (d ∷ bs) b h p = (h.0, AllBlocks-snoc P bs b h.1 p)

pub AllBlocks-mono :
    (P Q : StatementBlock → Type 0) (bs : List StatementBlock)
    → ((b : StatementBlock) → P b → Q b)
    → AllBlocks P bs
    → AllBlocks Q bs
AllBlocks-mono P Q [] f h = tt
AllBlocks-mono P Q (b ∷ bs) f h = (f b h.0, AllBlocks-mono P Q bs f h.1)

pub AllBlocks-occurs :
    (P : StatementBlock → Type 0) (bs : List StatementBlock) (r : BlockReference)
    → AllBlocks P bs
    → 0 < occurs r bs
    → (b : StatementBlock) × P b × (b.reference ≡ r)
AllBlocks-occurs P [] r h o = absurd (omega arith)
AllBlocks-occurs P (b ∷ bs) r h o = elim (Bool-cases (reference_eq b.reference r)) [
  | inl e ↦ (b, h.0, (reference_eq_iff b.reference r).0 e)
  | inr e ↦ AllBlocks-occurs P bs r h.1 (ground (arith, e))
]

-- By round, the lowest first.
abbrev pub IsSortedFrom : ℕ → List StatementBlock → Type 0
IsSortedFrom low [] = Unit {0}
IsSortedFrom low (b ∷ bs) = (low ≤ b.reference.round) × IsSortedFrom b.reference.round bs

occurs-place :
    (r : BlockReference) (x : StatementBlock) (bs : List StatementBlock)
    → occurs r (place x bs) ≡ bit (reference_eq x.reference r) + occurs r bs
unfolding place
occurs-place r x [] = refl
occurs-place r x (b ∷ bs) = elim (Bool-cases (leb x.reference.round b.reference.round)) [
  | inl e ↦ rw e refl
  | inr e ↦ let ih = occurs-place r x bs in rw e (omega arith)
]

pub occurs-sort_by_round :
    (r : BlockReference) (bs : List StatementBlock) → occurs r (sort_by_round bs) ≡ occurs r bs
unfolding sort_by_round
occurs-sort_by_round r [] = refl
occurs-sort_by_round r (b ∷ bs) =
    let p = occurs-place r b (sort_by_round bs) in let ih = occurs-sort_by_round r bs in omega arith

AllBlocks-place :
    (P : StatementBlock → Type 0) (x : StatementBlock) (bs : List StatementBlock)
    → P x
    → AllBlocks P bs
    → AllBlocks P (place x bs)
unfolding place
AllBlocks-place P x [] p h = (p, tt)
AllBlocks-place P x (b ∷ bs) p h = elim (Bool-cases (leb x.reference.round b.reference.round)) [
  | inl e ↦ rw e (p, h)
  | inr e ↦ rw e (h.0, AllBlocks-place P x bs p h.1)
]

pub AllBlocks-sort_by_round :
    (P : StatementBlock → Type 0) (bs : List StatementBlock)
    → AllBlocks P bs
    → AllBlocks P (sort_by_round bs)
unfolding sort_by_round
AllBlocks-sort_by_round P [] h = tt
AllBlocks-sort_by_round P (b ∷ bs) h =
    AllBlocks-place P b (sort_by_round bs) h.0 (AllBlocks-sort_by_round P bs h.1)

place-IsSortedFrom :
    (low : ℕ) (x : StatementBlock) (bs : List StatementBlock)
    → low ≤ x.reference.round
    → IsSortedFrom low bs
    → IsSortedFrom low (place x bs)
unfolding place
place-IsSortedFrom low x [] l h = (l, tt)
place-IsSortedFrom low x (b ∷ bs) l h =
    elim (Bool-cases (leb x.reference.round b.reference.round)) [
      | inl e ↦ rw e (l, (ground (arith, e), h.1))
      | inr e ↦ rw e (h.0, place-IsSortedFrom b.reference.round x bs (ground (arith, e)) h.1)
    ]

pub sort_by_round-IsSortedFrom : (bs : List StatementBlock) → IsSortedFrom 0 (sort_by_round bs)
unfolding sort_by_round
sort_by_round-IsSortedFrom [] = tt
sort_by_round-IsSortedFrom (b ∷ bs) =
    place-IsSortedFrom 0 b (sort_by_round bs) (omega arith) (sort_by_round-IsSortedFrom bs)
