-- ===== src/Mysticeti/Tests/Pending.antt =====
-- A manager over a store of two geneses that is given a block before the one it includes, and the theorem
-- at it.
use congestion_control.Prelude.{
  ℕ, ◌≡◌, ◌↔◌, ◌<◌, refl, true, false, ◌||◌, List, [], ◌∷◌, Option, none, some, arith, ◌⊎◌, map,
}
use congestion_control.Prelude.Maps.{lookup, insert, has_key}
use congestion_control.Mysticeti.Types.{
  BlockReference, StatementBlock, reference_eq_iff, block_reference_eq,
}
use congestion_control.Mysticeti.BlockStore.{
  BlockStore, get_block, block_exists, insert_block, add_own_index, update_last_seen_by_authority,
}
use congestion_control.Mysticeti.Linearizer.{holds}
use congestion_control.Mysticeti.Linearizer.Counting.{AllBlocks}
use congestion_control.Mysticeti.BlockManager.{
  BlockManager, Environment, new, remove_key, set_remove, wait, wait_all, unlock, process, step,
  add_blocks,
}
use congestion_control.Mysticeti.BlockManager.Valid.{IsForeign, IsValid, LacksOne, queued}
use congestion_control.Mysticeti.BlockManager.Pended.{produced}
use congestion_control.Mysticeti.BlockManager.Added.{new-IsValid, add_blocks_lem}
use congestion_control.Mysticeti.BlockManager.Wanted.{wanted}
use congestion_control.Mysticeti.BlockManager.Missing.{IsAwaited, new-IsAwaited, missing_exact}

abbrev ref : ℕ → ℕ → BlockReference
ref authority round = record { authority = authority; round = round; digest = 0 }

abbrev block : ℕ → ℕ → List BlockReference → StatementBlock
block authority round includes = record {
  reference = ref authority round;
  includes = includes;
  statements = [];
  meta_creation_time_ns = 0;
  epoch_marker = false;
  signature = [];
}

abbrev early : StatementBlock
early = block 0 1 (ref 0 0 ∷ ref 1 0 ∷ [])

abbrev late : StatementBlock
late = block 1 2 (ref 0 1 ∷ ref 1 0 ∷ [])

abbrev stranded : StatementBlock
stranded = block 1 3 (ref 0 2 ∷ ref 1 2 ∷ [])

abbrev genesis : BlockStore
genesis = record {
  index =
      (
        0,
        ((0, 0), record { position = 1; block = block 0 0 [] })
            ∷ ((1, 0), record { position = 2; block = block 1 0 [] })
            ∷ [],
      )
      ∷ [];
  own_blocks = [];
  highest_round = 0;
  authority = 2;
  last_seen_by_authority = 0 ∷ 0 ∷ 0 ∷ [];
  last_own_block = none;
}

-- The log's next place is the number of the rounds; sets are read in the order of the list.
abbrev plain : Environment
plain = record {
  order = λ rs. rs;
  order_times = λ r rs. refl;
  position = λ st b. b.reference.round;
}

run_functions : ℕ
unfolding lookup insert get_block block_exists insert_block add_own_index
    update_last_seen_by_authority new remove_key set_remove wait wait_all unlock process step
    add_blocks
run_functions = 0

abbrev outcome :
    Option (BlockManager × List (ℕ × StatementBlock))
    → List BlockReference × List BlockReference × List (List BlockReference)
outcome none = ([], [], [])
outcome (some (m, done)) =
    (map (λ p. p.0) m.blocks_pending, map (λ p. p.1.reference) done, m.missing)

-- The block that comes early waits for the one that it includes; one block waits for ever.
released_in_order :
    outcome (add_blocks plain 10 (late ∷ stranded ∷ early ∷ []) (new genesis 3))
    ≡ (ref 1 3 ∷ [], ref 0 1 ∷ ref 1 2 ∷ [], (ref 0 2 ∷ []) ∷ [] ∷ [] ∷ [])
unfolding run_functions
released_in_order = refl

genesis-includes :
    (r : BlockReference) (b : StatementBlock) → get_block genesis r ≡ some b → b.includes ≡ []
unfolding run_functions
genesis-includes r b h = ground arith

genesis-IsValid : IsValid 3 2 [] (new genesis 3)
genesis-IsValid =
    new-IsValid genesis 3 refl
      (λ r i b h k. let e = genesis-includes r b h in absurd (ground (arith, e, k)))

two_authors :
    (a b i : BlockReference)
    → a.authority < 3
    → b.authority < 3
    → holds i (a ∷ b ∷ []) ≡ true
    → i.authority < 3
two_authors a b i x y h = ground (arith, reference_eq_iff a i, reference_eq_iff b i)

foreign :
    (authority round : ℕ) (a b : BlockReference)
    → authority < 2
    → a.authority < 3
    → b.authority < 3
    → IsForeign 3 2 (block authority round (a ∷ b ∷ []))
foreign authority round a b l x y = record {
  author = omega arith;
  not_own = λ e. omega arith;
  authors = λ i h. two_authors a b i x y h;
}

abbrev given : List StatementBlock
given = late ∷ stranded ∷ early ∷ []

given-IsForeign : AllBlocks (IsForeign 3 2) given
given-IsForeign = (
  foreign 1 2 (ref 0 1) (ref 1 0) (omega arith) (omega arith) (omega arith),
  (
    foreign 1 3 (ref 0 2) (ref 1 2) (omega arith) (omega arith) (omega arith),
    (foreign 0 1 (ref 0 0) (ref 1 0) (omega arith) (omega arith) (omega arith), tt),
  ),
)

add_blocks_lem_example :
    (m' : BlockManager) × (done : List (ℕ × StatementBlock)) × (add_blocks plain 7 given
        (new genesis 3)
      ≡ some (m', done))
    × IsValid 3 2 [] m'
    × ((r : BlockReference)
        → (lookup r m'.blocks_pending ≡ none)
          ⊎ ((b : StatementBlock) × (lookup r m'.blocks_pending ≡ some b)
              × LacksOne m'.block_store b))
    × ((r : BlockReference)
        → (block_exists m'.block_store r || has_key r m'.blocks_pending) ≡ (
            queued r given || (block_exists genesis r || has_key r (new genesis 3).blocks_pending)))
    × ((r : BlockReference)
        → block_exists m'.block_store r ≡ (block_exists genesis r || produced r done))
unfolding run_functions
add_blocks_lem_example =
    add_blocks_lem plain 3 2 7 given (new genesis 3) genesis-IsValid given-IsForeign (omega arith)

missing_exact_example :
    (m' : BlockManager) × (done : List (ℕ × StatementBlock)) × (add_blocks plain 7 given
        (new genesis 3)
      ≡ some (m', done))
    × IsValid 3 2 [] m'
    × ((r : BlockReference) → (wanted r m' ≡ true) ↔ IsAwaited r m')
unfolding run_functions
missing_exact_example =
    missing_exact plain 3 2 7 given (new genesis 3) genesis-IsValid (new-IsAwaited genesis 3)
      given-IsForeign (omega arith)
