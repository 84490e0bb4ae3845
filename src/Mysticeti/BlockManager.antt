-- ===== src/Mysticeti/BlockManager.antt =====
-- block_manager.rs: blocks are held back until all that they include is in the store. `none` is a
-- panic, or that the fuel has run out. A set of references is a list; the order in which a removed
-- set is iterated over, and where the log puts a block, are parameters.
pub mod Waiting
pub mod Lacking
pub mod Includes
pub mod Valid
pub mod Releasing
pub mod Unlocking
pub mod Inserted
pub mod Inserting
pub mod Pended
pub mod Steps
pub mod Added
pub mod Wanted
pub mod Tracked
pub mod Tracking
pub mod Missing
use mathlib.Core.Option
use congestion_control.Prelude.{
  ℕ, zero, suc, ◌≡◌, Bool, true, false, not, List, [], ◌∷◌, ◌++◌, Option, none, some, ◌||◌, ◌&&◌,
  ltb, length, get_or, set, replicate, if◌then◌else◌,
}
use congestion_control.Prelude.Maps.{Map, lookup, insert, has_key}
use congestion_control.Mysticeti.Types.{
  BlockReference, StatementBlock, reference_eq, block_reference_eq,
}
use congestion_control.Mysticeti.BlockStore.{BlockStore, block_exists, insert_block}
use congestion_control.Mysticeti.Linearizer.{holds}
use congestion_control.Mysticeti.Linearizer.Counting.{times}

pub record BlockManager : Type 0 where
  pub blocks_pending : Map BlockReference StatementBlock
  pub block_references_waiting : Map BlockReference (List BlockReference)
  pub missing : List (List BlockReference)
  pub block_store : BlockStore

-- What the code relies on: an iteration over a set yields its elements, each as often as the set has it.
pub record Environment : Type 0 where
  pub order : List BlockReference → List BlockReference
  pub order_times :
      (r : BlockReference) (rs : List BlockReference) → times r (order rs) ≡ times r rs
  pub position : BlockStore → StatementBlock → ℕ

unfoldable pub new : BlockStore → ℕ → BlockManager
new st committee_size = record {
  blocks_pending = [];
  block_references_waiting = [];
  missing = replicate committee_size [];
  block_store = st;
}

-- `HashSet::insert` and `HashSet::remove`
abbrev pub set_insert : BlockReference → List BlockReference → List BlockReference
set_insert r rs = if holds r rs then rs else r ∷ rs

unfoldable pub set_remove : BlockReference → List BlockReference → List BlockReference
set_remove r [] = []
set_remove r (c ∷ cs) = if reference_eq c r then set_remove r cs else c ∷ set_remove r cs

-- `HashMap::remove`
unfoldable pub remove_key {ℓ} :
    {V : Type ℓ} → BlockReference → Map BlockReference V → Map BlockReference V
remove_key k [] = []
remove_key k ((j, v) ∷ m) = if reference_eq j k then remove_key k m else (j, v) ∷ remove_key k m

abbrev pub waiting_for :
    BlockReference → Map BlockReference (List BlockReference) → List BlockReference
waiting_for r m = elim (lookup r m) [ none ↦ [] | some rs ↦ rs ]

abbrev pub note_missing : BlockReference → BlockManager → BlockManager
note_missing i m = record m {
  missing = set m.missing i.authority (set_insert i (get_or m.missing i.authority []));
}

-- A reference that is missing: the block waits for it.
unfoldable pub wait : BlockReference → BlockReference → BlockManager → Option BlockManager
wait i r m =
    let m' = record m {
      block_references_waiting =
          insert i (set_insert r (waiting_for i m.block_references_waiting))
            m.block_references_waiting;
    } in
    if has_key i m.blocks_pending
    then some m'
    else if ltb i.authority (length m.missing)
    then some (note_missing i m')
    else none

-- The loop over the includes: the manager, and whether all are in the store.
unfoldable pub wait_all :
    List BlockReference → BlockReference → BlockManager → Option (BlockManager × Bool)
unfolding wait
wait_all [] r m = some (m, true)
wait_all (i ∷ is) r m = elim (if block_exists m.block_store i then some m else wait i r m) [
  | none ↦ none
  | some m' ↦ Option.map (λ p. (p.0, p.1 && block_exists m.block_store i)) (wait_all is r m')
]

-- All that a block includes is waited for no more.
abbrev pub none_waited : List BlockReference → BlockManager → Bool
none_waited [] m = true
none_waited (i ∷ is) m = not (has_key i m.block_references_waiting) && none_waited is m

-- The blocks that waited for the one that has been processed: those that wait for nothing else go to the
-- front of the queue. A waiting reference that is not pending is the panic.
unfoldable pub unlock :
    List BlockReference
    → BlockManager
    → List StatementBlock
    → Option (BlockManager × List StatementBlock)
unlock [] m queue = some (m, queue)
unlock (w ∷ ws) m queue = elim (lookup w m.blocks_pending) [
  | none ↦ none
  | some b ↦
      let free = none_waited b.includes m in
      unlock ws (if free then record m { blocks_pending = remove_key w m.blocks_pending } else m)
        (if free then b ∷ queue else queue)
]

-- The author's entry of `missing` must be there.
abbrev pub not_missing : BlockReference → BlockManager → Option BlockManager
not_missing r m =
    if ltb r.authority (length m.missing)
    then some (record m {
      missing = set m.missing r.authority (set_remove r (get_or m.missing r.authority []));
    })
    else none

module _ (e : Environment) where
  -- A block whose includes are all in the store.
  unfoldable pub process :
      StatementBlock
      → BlockManager
      → List StatementBlock
      → Option (BlockManager × List StatementBlock)
  unfolding unlock
  process b m queue = elim (insert_block b (e.position m.block_store b) m.block_store) [
    | none ↦ none
    | some st ↦
        unlock (e.order (waiting_for b.reference m.block_references_waiting))
          (record m {
            block_store = st;
            block_references_waiting = remove_key b.reference m.block_references_waiting;
          })
          queue
  ]

  -- One round: the manager, the queue and the blocks that have been processed.
  unfoldable pub step :
      StatementBlock
      → BlockManager
      → List StatementBlock
      → Option (BlockManager × List StatementBlock × List (ℕ × StatementBlock))
  unfolding wait_all process
  step b m queue =
      if block_exists m.block_store b.reference || has_key b.reference m.blocks_pending
      then some (m, queue, [])
      else elim (wait_all b.includes b.reference m) [
        | none ↦ none
        | some (m1, processed) ↦ elim (not_missing b.reference m1) [
          | none ↦ none
          | some m2 ↦
              if processed
              then Option.map (λ p. (p.0, p.1, (e.position m2.block_store b, b) ∷ []))
                  (process b m2 queue)
              else some
                  (record m2 { blocks_pending = insert b.reference b m2.blocks_pending }, queue, [])
        ]
      ]

  -- `while let Some(block) = blocks.pop_front()`
  unfoldable pub add_blocks :
      ℕ → List StatementBlock → BlockManager → Option (BlockManager × List (ℕ × StatementBlock))
  unfolding step
  add_blocks zero queue m = none
  add_blocks (suc fuel) [] m = some (m, [])
  add_blocks (suc fuel) (b ∷ queue) m = elim (step b m queue) [
    | none ↦ none
    | some (m', queue', done) ↦ Option.map (λ p. (p.0, done ++ p.1)) (add_blocks fuel queue' m')
  ]
