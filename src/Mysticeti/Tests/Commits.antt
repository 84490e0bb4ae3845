-- ===== src/Mysticeti/Tests/Commits.antt =====
-- A store of a genesis and two blocks above it, their commit, and the theorem at it.
use congestion_control.Prelude.{
  ℕ, ◌+◌, ◌≡◌, ◌≤◌, ◌<◌, refl, true, false, List, [], ◌∷◌, Option, none, some, arith, ◌⊎◌, inl, inr,
}
use congestion_control.Prelude.Maps.{lookup, insert}
use congestion_control.Mysticeti.Types.{BlockReference, StatementBlock, reference_eq_iff}
use congestion_control.Mysticeti.BlockStore.{
  BlockStore, IndexEntry, get_block, insert_block, add_own_index, update_last_seen_by_authority,
}
use congestion_control.Mysticeti.Linearizer.{
  CommittedSubDag, sub_dag, handle_commit, collect_sub_dag, collect, visit, holds, sort_by_round,
  place,
}
use congestion_control.Mysticeti.Linearizer.Counting.{times}
use congestion_control.Mysticeti.Linearizer.Collecting.{IsClosed}
use congestion_control.Mysticeti.Linearizer.Committed.{
  IsWhole, occurs_in, AreSubDags, handle_commit_lem,
}

abbrev ref : ℕ → ℕ → BlockReference
ref authority round = record { authority = authority; round = round; digest = 0 }

abbrev block : ℕ → ℕ → List BlockReference → StatementBlock
block authority round includes = record {
  reference = ref authority round;
  includes = includes;
  statements = [];
  meta_creation_time_ns = 0;
  epoch_marker = false;
  signature = [];
}

abbrev first : StatementBlock
first = block 0 1 (ref 0 0 ∷ ref 1 0 ∷ [])

abbrev second : StatementBlock
second = block 1 2 (ref 0 1 ∷ ref 1 0 ∷ [])

abbrev empty : BlockStore
empty = record {
  index = [];
  own_blocks = [];
  highest_round = 0;
  authority = 7;
  last_seen_by_authority = 0 ∷ 0 ∷ [];
  last_own_block = none;
}

abbrev entry : ℕ → StatementBlock → IndexEntry
entry position b = record { position = position; block = b }

abbrev store : BlockStore
store = record empty {
  index =
      (0, ((0, 0), entry 1 (block 0 0 [])) ∷ ((1, 0), entry 2 (block 1 0 [])) ∷ [])
      ∷ (1, ((0, 0), entry 3 first) ∷ [])
      ∷ (2, ((1, 0), entry 4 second) ∷ [])
      ∷ [];
  highest_round = 2;
  last_seen_by_authority = 1 ∷ 2 ∷ [];
}

run_functions : ℕ
unfolding lookup insert get_block insert_block add_own_index update_last_seen_by_authority
    handle_commit collect_sub_dag collect visit sort_by_round place
run_functions = 0

abbrev inserted : Option BlockStore → StatementBlock → ℕ → Option BlockStore
inserted none b p = none
inserted (some st) b p = insert_block b p st

-- The store is what the insertions make.
store_built :
    inserted
      (inserted (inserted (inserted (some empty) (block 0 0 []) 1) (block 1 0 []) 2) first 3)
      second
      4
    ≡ some store
unfolding run_functions
store_built = refl

abbrev references : List BlockReference
references = ref 0 0 ∷ ref 1 0 ∷ ref 0 1 ∷ ref 1 2 ∷ []

store-found :
    (r : BlockReference) (b : StatementBlock) → get_block store r ≡ some b → b.reference ≡ r
unfolding run_functions
store-found r b h = ground arith

store-listed :
    (r : BlockReference) (b : StatementBlock)
    → get_block store r ≡ some b
    → holds r references ≡ true
unfolding run_functions
store-listed r b h = ground arith

store-cases :
    (r : BlockReference) (b : StatementBlock)
    → get_block store r ≡ some b
    → (b.includes ≡ []) ⊎ ((b ≡ first) ⊎ (b ≡ second))
unfolding run_functions
store-cases r b h = ground arith

-- What a stored block includes is stored, at its reference.
included-one :
    (j i : BlockReference) (d : StatementBlock) (n : ℕ)
    → i ≡ j
    → get_block store j ≡ some d
    → j.round < n
    → (d : StatementBlock) × (get_block store i ≡ some d) × (i.round < n)
included-one j i d n e g l = (d, rw e g, rw e l)

two_of : (a b i : BlockReference) → holds i (a ∷ b ∷ []) ≡ true → (i ≡ a) ⊎ (i ≡ b)
two_of a b i h = ground (arith, reference_eq_iff a i, reference_eq_iff b i)

store-included :
    (r : BlockReference) (b : StatementBlock) (i : BlockReference)
    → get_block store r ≡ some b
    → holds i b.includes ≡ true
    → (d : StatementBlock) × (get_block store i ≡ some d) × (i.round < b.reference.round)
unfolding run_functions
store-included r b i h k = elim (store-cases r b h) [
  | inl z ↦ let k' = rw z at k in cc
  | inr (inl e) ↦
      let k' = rw e at k in
      rw e (elim (two_of (ref 0 0) (ref 1 0) i k') [
        | inl q ↦ included-one (ref 0 0) i (block 0 0 []) 1 q refl (omega arith)
        | inr q ↦ included-one (ref 1 0) i (block 1 0 []) 1 q refl (omega arith)
      ])
  | inr (inr e) ↦
      let k' = rw e at k in
      rw e (elim (two_of (ref 0 1) (ref 1 0) i k') [
        | inl q ↦ included-one (ref 0 1) i first 2 q refl (omega arith)
        | inr q ↦ included-one (ref 1 0) i (block 1 0 []) 2 q refl (omega arith)
      ])
]

store-IsClosed : IsClosed store references
store-IsClosed = record { found = store-found; listed = store-listed; included = store-included }

handle_commit_lem_example :
    (cs' : List BlockReference) × (ds : List CommittedSubDag) × (handle_commit 6 store
        (first ∷ second ∷ [])
        []
      ≡ some (cs', ds))
    × AreSubDags store (first ∷ second ∷ []) ds
    × ((r : BlockReference) → times r cs' ≡ times r [] + occurs_in r ds)
    × ((r : BlockReference) → times r [] ≤ 1 → times r cs' ≤ 1)
    × (IsWhole store [] → IsWhole store cs')
unfolding run_functions
handle_commit_lem_example =
    handle_commit_lem store references 6 (first ∷ second ∷ []) [] store-IsClosed (omega arith)
      (refl, refl, ((λ e. cc, omega arith), tt), (refl, refl, tt, tt))

two_dags :
    handle_commit 6 store (first ∷ second ∷ []) []
    ≡ some (
      ref 1 2 ∷ ref 1 0 ∷ ref 0 0 ∷ ref 0 1 ∷ [],
      sub_dag (ref 0 1) (block 1 0 [] ∷ block 0 0 [] ∷ first ∷ [])
          ∷ sub_dag (ref 1 2) (second ∷ [])
          ∷ [],
    )
unfolding run_functions
two_dags = refl
