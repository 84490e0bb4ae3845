-- ===== src/Mysticeti/Blocks/Ranges.antt =====
-- The ranges of the shared transactions of a block of types.rs, against the transactions.
use congestion_control.Prelude.{
  ℕ, zero, suc, ◌+◌, ◌-◌, ◌≡◌, ◌≤◌, ◌<◌, refl, sym, ap, ◌∙◌, List, [], ◌∷◌, ◌++◌, map, append_assoc,
  Option, none, some, arith, ◌==◌, Bool-cases, ==_iff, inl, inr,
}
use congestion_control.Mysticeti.Types.{
  BlockReference, TransactionLocator, TransactionLocatorRange, BaseStatement, share, vote,
  vote_range, StatementBlock, span, count_up,
}
use congestion_control.Mysticeti.Blocks.{
  Range, ranges_from, shared_ranges, locator, locators, shared_from, shared_transactions,
}

-- The transactions of ranges, one after the other.
abbrev pub expand : List TransactionLocatorRange → List TransactionLocator
expand [] = []
expand (r ∷ rs) = locators r ++ expand rs

-- No range is empty, and no two could be one.
abbrev pub IsApartFrom : ℕ → List TransactionLocatorRange → Type 0
IsApartFrom low [] = Unit {0}
IsApartFrom low (r ∷ rs) =
    (low ≤ r.offset_start_inclusive)
    × (r.offset_start_inclusive < r.offset_end_exclusive)
    × IsApartFrom (r.offset_end_exclusive + 1) rs

firsts : List (TransactionLocator × List ℕ) → List TransactionLocator
firsts l = map (λ p. p.0) l

count_up-snoc : (a n : ℕ) → count_up a (suc n) ≡ count_up a n ++ (a + n) ∷ []
count_up-snoc a zero = let e : a + 0 ≡ a = omega arith in rw e
count_up-snoc a (suc n) =
    let e : suc a + n ≡ a + suc n = omega arith in
    ap (◌∷◌ a) (count_up-snoc (suc a) n ∙ ap (λ t. count_up (suc a) n ++ t ∷ []) e)

span-snoc : (a b : ℕ) → a ≤ b → span a (b + 1) ≡ span a b ++ b ∷ []
span-snoc a b h =
    let e : b + 1 - a ≡ suc (b - a) = omega arith in
    let e' : a + (b - a) ≡ b = omega arith in
    rw e (count_up-snoc a (b - a) ∙ ap (λ t. span a b ++ t ∷ []) e')

map-snoc :
    (f : ℕ → TransactionLocator) (l : List ℕ) (x : ℕ) → map f (l ++ x ∷ []) ≡ map f l ++ f x ∷ []
map-snoc f [] x = refl
map-snoc f (y ∷ l) x = ap (◌∷◌ (f y)) (map-snoc f l x)

map-span :
    (block : BlockReference) (a b : ℕ)
    → a ≤ b
    → map (locator block) (span a (b + 1)) ≡ map (locator block) (span a b) ++ locator block b ∷ []
map-span block a b h = rw (span-snoc a b h) (map-snoc (locator block) (span a b) b)

one_span :
    (block : BlockReference) (a : ℕ) → map (locator block) (span a (a + 1)) ≡ locator block a ∷ []
one_span block a = let e : a - a ≡ 0 = omega arith in map-span block a a (omega arith) ∙ rw e

-- The transactions of the range that a builder has open.
opened : BlockReference → Option Range → List TransactionLocator
opened block none = []
opened block (some r) = map (locator block) (span r.start r.end)

abbrev IsOpen : ℕ → ℕ → Option Range → Type 0
IsOpen low offset none = low ≤ offset
IsOpen low offset (some r) = (low ≤ r.start) × (r.start < r.end) × (r.end ≤ offset)

ranges_from_lem :
    (block : BlockReference) (low offset : ℕ) (b : Option Range) (ss : List BaseStatement)
    → IsOpen low offset b
    → expand (ranges_from block offset b ss)
      ≡ opened block b ++ firsts (shared_from block offset ss)
unfolding ranges_from shared_from opened firsts
ranges_from_lem block low offset none [] h = refl
ranges_from_lem block low offset (some r) [] h = refl
ranges_from_lem block low offset none (vote l v ∷ ss) h =
    ranges_from_lem block low (offset + 1) none ss (omega arith)
ranges_from_lem block low offset none (vote_range l ∷ ss) h =
    ranges_from_lem block low (offset + 1) none ss (omega arith)
ranges_from_lem block low offset (some r) (vote l v ∷ ss) h =
    ranges_from_lem block low (offset + 1) (some r) ss (omega arith)
ranges_from_lem block low offset (some r) (vote_range l ∷ ss) h =
    ranges_from_lem block low (offset + 1) (some r) ss (omega arith)
ranges_from_lem block low offset none (share t ∷ ss) h =
    let r' : Range = record { start = offset; end = offset + 1 } in
    ranges_from_lem block low (offset + 1) (some r') ss (omega arith)
    ∙ ap (λ l. l ++ firsts (shared_from block (offset + 1) ss)) (one_span block offset)
ranges_from_lem block low offset (some r) (share t ∷ ss) h = elim (Bool-cases (r.end == offset)) [
  | inl e ↦
      let same : r.end ≡ offset = (==_iff r.end offset).0 e in
      let r' : Range = record r { end = offset + 1 } in
      let ih = ranges_from_lem block low (offset + 1) (some r') ss (omega arith) in
      let m = map-span block r.start offset (omega arith) in
      rw e (
        ih
        ∙ ap (λ l. l ++ firsts (shared_from block (offset + 1) ss)) m
        ∙ append_assoc (map (locator block) (span r.start offset)) (locator block offset ∷ [])
            (firsts (shared_from block (offset + 1) ss))
        ∙ ap
            (λ x.
              map (locator block) (span r.start x)
              ++ locator block offset ∷ firsts (shared_from block (offset + 1) ss))
            (sym same))
  | inr n ↦
      let r' : Range = record { start = offset; end = offset + 1 } in
      let ih = ranges_from_lem block low (offset + 1) (some r') ss (omega arith) in
      rw n (
        ap (λ l. map (locator block) (span r.start r.end) ++ l)
          (ih ∙ ap (λ l. l ++ firsts (shared_from block (offset + 1) ss)) (one_span block offset)))
]

ranges_from-IsApartFrom :
    (block : BlockReference) (low offset : ℕ) (b : Option Range) (ss : List BaseStatement)
    → IsOpen low offset b
    → IsApartFrom low (ranges_from block offset b ss)
unfolding ranges_from
ranges_from-IsApartFrom block low offset none [] h = tt
ranges_from-IsApartFrom block low offset (some r) [] h = (omega arith, omega arith, tt)
ranges_from-IsApartFrom block low offset none (vote l v ∷ ss) h =
    ranges_from-IsApartFrom block low (offset + 1) none ss (omega arith)
ranges_from-IsApartFrom block low offset none (vote_range l ∷ ss) h =
    ranges_from-IsApartFrom block low (offset + 1) none ss (omega arith)
ranges_from-IsApartFrom block low offset (some r) (vote l v ∷ ss) h =
    ranges_from-IsApartFrom block low (offset + 1) (some r) ss (omega arith)
ranges_from-IsApartFrom block low offset (some r) (vote_range l ∷ ss) h =
    ranges_from-IsApartFrom block low (offset + 1) (some r) ss (omega arith)
ranges_from-IsApartFrom block low offset none (share t ∷ ss) h =
    ranges_from-IsApartFrom block low (offset + 1)
      (some (record { start = offset; end = offset + 1 })) ss (omega arith)
ranges_from-IsApartFrom block low offset (some r) (share t ∷ ss) h =
    elim (Bool-cases (r.end == offset)) [
      | inl e ↦
          let same : r.end ≡ offset = (==_iff r.end offset).0 e in
          rw e (
            ranges_from-IsApartFrom block low (offset + 1) (some (record r { end = offset + 1 })) ss
              (omega arith))
      | inr n ↦
          let apart : r.end < offset = ground arith in
          rw n (
            omega arith,
            omega arith,
            ranges_from-IsApartFrom block (r.end + 1) (offset + 1)
                (some (record { start = offset; end = offset + 1 })) ss (omega arith),
          )
    ]

-- The ranges of a block, written out, are the places of its shared transactions in order; no range
-- is empty, and no two are adjacent, so that there are as few as there can be.
pub shared_ranges-expand :
    (block : StatementBlock)
    → (expand (shared_ranges block) ≡ map (λ p. p.0) (shared_transactions block))
      × IsApartFrom 0 (shared_ranges block)
unfolding shared_ranges shared_transactions opened firsts
shared_ranges-expand block = (
  ranges_from_lem block.reference 0 0 none block.statements (omega arith),
  ranges_from-IsApartFrom block.reference 0 0 none block.statements (omega arith),
)
