-- ===== src/Mysticeti/Linearizer.antt =====
-- consensus/linearizer.rs: the blocks that a sequence of committed leaders commits. The stack of
-- blocks is a list with its top first, the set of committed blocks a list; `none` is a panic, or that the fuel has run out.
pub mod Counting
pub mod Collecting
pub mod Committed
use mathlib.Core.Option
use congestion_control.Prelude.{
  ℕ, zero, suc, Bool, true, false, List, [], ◌∷◌, ◌++◌, Option, none, some, leb, ◌||◌,
  if◌then◌else◌,
}
use congestion_control.Mysticeti.Types.{BlockReference, StatementBlock, reference_eq}
use congestion_control.Mysticeti.BlockStore.{BlockStore, get_block}

pub record CommittedSubDag : Type 0 where
  pub anchor : BlockReference
  pub blocks : List StatementBlock

-- `HashSet::contains`
abbrev pub holds : BlockReference → List BlockReference → Bool
holds r [] = false
holds r (c ∷ cs) = reference_eq c r || holds r cs

-- The references of a block: those not committed before are, and their blocks go on the stack.
unfoldable pub visit :
    BlockStore
    → List BlockReference
    → List BlockReference
    → List StatementBlock
    → Option (List BlockReference × List StatementBlock)
visit st [] committed buffer = some (committed, buffer)
visit st (reference ∷ includes) committed buffer = elim (get_block st reference) [
  | none ↦ none
  | some block ↦
      visit st includes (if holds reference committed then committed else reference ∷ committed)
        (if holds reference committed then buffer else block ∷ buffer)
]

-- `while let Some(x) = buffer.pop()`
unfoldable pub collect :
    ℕ
    → BlockStore
    → List BlockReference
    → List StatementBlock
    → List StatementBlock
    → Option (List BlockReference × List StatementBlock)
unfolding visit
collect zero st committed buffer to_commit = none
collect (suc fuel) st committed [] to_commit = some (committed, to_commit)
collect (suc fuel) st committed (x ∷ buffer) to_commit =
    elim (visit st x.includes committed buffer) [
      | none ↦ none
      | some (committed', buffer') ↦ collect fuel st committed' buffer' (to_commit ++ x ∷ [])
    ]

abbrev pub sub_dag : BlockReference → List StatementBlock → CommittedSubDag
sub_dag anchor blocks = record { anchor = anchor; blocks = blocks }

unfoldable pub collect_sub_dag :
    ℕ
    → BlockStore
    → StatementBlock
    → List BlockReference
    → Option (List BlockReference × CommittedSubDag)
unfolding collect
collect_sub_dag fuel st leader committed =
    if holds leader.reference committed
    then none
    else Option.map (λ p. (p.0, sub_dag leader.reference p.1))
        (collect fuel st (leader.reference ∷ committed) (leader ∷ []) [])

-- `sort_by_key` is stable.
unfoldable pub place : StatementBlock → List StatementBlock → List StatementBlock
place x [] = x ∷ []
place x (y ∷ ys) = if leb x.reference.round y.reference.round then x ∷ y ∷ ys else y ∷ place x ys

unfoldable pub sort_by_round : List StatementBlock → List StatementBlock
unfolding place
sort_by_round [] = []
sort_by_round (x ∷ xs) = place x (sort_by_round xs)

abbrev pub sorted_dag : CommittedSubDag → CommittedSubDag
sorted_dag d = record d { blocks = sort_by_round d.blocks }

unfoldable pub handle_commit :
    ℕ
    → BlockStore
    → List StatementBlock
    → List BlockReference
    → Option (List BlockReference × List CommittedSubDag)
unfolding collect_sub_dag
handle_commit fuel st [] committed = some (committed, [])
handle_commit fuel st (leader ∷ leaders) committed =
    elim (collect_sub_dag fuel st leader committed) [
      | none ↦ none
      | some (committed', d) ↦
          Option.map (λ p. (p.0, sorted_dag d ∷ p.1)) (handle_commit fuel st leaders committed')
    ]
