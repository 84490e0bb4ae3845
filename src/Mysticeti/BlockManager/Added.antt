-- ===== src/Mysticeti/BlockManager/Added.antt =====
-- What `add_blocks` of block_manager.rs leaves behind.
use congestion_control.Prelude.{
  ℕ, zero, suc, ◌+◌, ◌*◌, ◌≡◌, ◌≤◌, ◌<◌, refl, sym, ap, ◌∙◌, Bool, true, List, [], ◌∷◌, ◌++◌, none,
  some, ◌||◌, length, arith, Bool-cases, Option-cases, length-replicate, ◌⊎◌, inl, inr,
}
use congestion_control.Prelude.Maps.{lookup, has_key}
use congestion_control.Mysticeti.Types.{BlockReference, StatementBlock, block_reference_eq}
use congestion_control.Mysticeti.BlockStore.{BlockStore, block_exists, get_block}
use congestion_control.Mysticeti.Linearizer.Counting.{AllBlocks}
use congestion_control.Mysticeti.BlockManager.{BlockManager, Environment, new, step, add_blocks}
use congestion_control.Mysticeti.Linearizer.{holds}
use congestion_control.Mysticeti.BlockManager.Lacking.{all_stored}
use congestion_control.Mysticeti.BlockManager.Valid.{
  IsForeign, IsValid, LacksOne, queued, known, rounds,
}
use congestion_control.Mysticeti.BlockManager.Steps.{step-runs}
use congestion_control.Mysticeti.BlockManager.Pended.{produced}

produced-append :
    (r : BlockReference) (xs ys : List (ℕ × StatementBlock))
    → produced r (xs ++ ys) ≡ (produced r xs || produced r ys)
produced-append r [] ys = refl
produced-append r ((p, b) ∷ xs) ys = ground (arith, produced-append r xs ys)

regroup : (a b c : Bool) → ((a || b) || c) ≡ (a || (b || c))
regroup a b c = ground arith

pub record Adds (n own : ℕ) (queue : List StatementBlock) (m m' : BlockManager)
    (done : List (ℕ × StatementBlock)) : Type 0 where
  pub valid : IsValid n own [] m'
  pub same_known : (r : BlockReference) → known r [] m' ≡ known r queue m
  pub stores :
      (r : BlockReference)
      → block_exists m'.block_store r ≡ (block_exists m.block_store r || produced r done)

pub add_blocks-step :
    (e : Environment) (fuel : ℕ) (b : StatementBlock) (queue queue' : List StatementBlock)
    (m m1 m' : BlockManager) (done done' : List (ℕ × StatementBlock))
    → step e b m queue ≡ some (m1, queue', done)
    → add_blocks e fuel queue' m1 ≡ some (m', done')
    → add_blocks e (suc fuel) (b ∷ queue) m ≡ some (m', done ++ done')
unfolding add_blocks
add_blocks-step e fuel b queue queue' m m1 m' done done' h k = rw (add_blocks, h, k) refl

pub add_blocks-runs :
    (e : Environment) (n own : ℕ) (fuel : ℕ) (queue : List StatementBlock) (m : BlockManager)
    → IsValid n own [] m
    → AllBlocks (IsForeign n own) queue
    → rounds m.block_store queue + length m.blocks_pending < fuel
    → (m' : BlockManager) × (done : List (ℕ × StatementBlock)) × (add_blocks e fuel queue m
        ≡ some (m', done))
      × Adds n own queue m m' done
unfolding add_blocks
add_blocks-runs e n own zero queue m v s l = absurd (omega arith)
add_blocks-runs e n own (suc fuel) [] m v s l =
    (m, [], refl, record { valid = v; same_known = λ r. refl; stores = λ r. ground arith })
add_blocks-runs e n own (suc fuel) (b ∷ queue) m v s l =
    let (m1, queue', done, h, u) = step-runs e n own b queue s.0 s.1 m v in
    let (m', done', k, w) =
      add_blocks-runs e n own fuel queue' m1 u.valid u.foreign (let x = u.fewer in omega arith) in
    (
      m',
      done ++ done',
      add_blocks-step e fuel b queue queue' m m1 m' done done' h k,
      record {
        valid = w.valid;
        same_known = λ r. w.same_known r ∙ u.same_known r;
        stores = λ r.
            w.stores r
            ∙ ap (λ t. t || produced r done') (u.stores r)
            ∙ regroup (block_exists m.block_store r) (produced r done) (produced r done')
            ∙ ap (λ t. block_exists m.block_store r || t) (sym (produced-append r done done'));
      },
    )

pub rounds-le : (st : BlockStore) (queue : List StatementBlock) → rounds st queue ≤ 2 * length queue
rounds-le st [] = omega arith
rounds-le st (b ∷ queue) =
    let r = rounds-le st queue in
    elim (Bool-cases (all_stored st b.includes)) [
      | inl y ↦ rw y (omega arith)
      | inr x ↦ rw x (omega arith)
    ]

pub new-IsValid :
    (st : BlockStore) (n : ℕ)
    → length st.last_seen_by_authority ≡ n
    → ((r i : BlockReference) (b : StatementBlock)
        → get_block st r ≡ some b
        → holds i b.includes ≡ true
        → block_exists st i ≡ true)
    → IsValid n st.authority [] (new st n)
unfolding new lookup
new-IsValid st n l c = record {
  authorities = length-replicate n [];
  last_seen = l;
  authority = refl;
  closed = c;
  unstored = λ k h. ground (arith, h);
  waits = λ p i b h k z. ground (arith, h);
  waiter = λ k w h. absurd (ground (arith, h));
  once = λ k w. omega arith;
  foreign = λ p b h. absurd (ground (arith, h));
  blocked = λ p b h. absurd (ground (arith, h));
}

pub IsValid-lacks :
    (n own : ℕ) (m : BlockManager)
    → IsValid n own [] m
    → (r : BlockReference)
    → (lookup r m.blocks_pending ≡ none)
      ⊎ ((b : StatementBlock) × (lookup r m.blocks_pending ≡ some b) × LacksOne m.block_store b)
IsValid-lacks n own m v r = elim (Option-cases (lookup r m.blocks_pending)) [
  | inl x ↦ inl x
  | inr (b, k) ↦ elim (v.blocked r b k) [
    | inl x ↦ absurd (ground (arith, x))
    | inr y ↦ inr (b, k, y)
  ]
]

-- For blocks of other authorities of the committee whose includes have authors of the committee, and in a
-- valid state, with two rounds of fuel for each block, one for each pending block and one more,
-- `add_blocks` ends without a panic in a valid state, so that the store holds all that a stored block
-- includes. A block that is pending then lacks a block that it includes. Stored or pending are the
-- references that were so before and those of the blocks given, no more and no fewer, and the blocks
-- returned are those that the store has gained.
pub add_blocks_lem :
    (e : Environment) (n own fuel : ℕ) (blocks : List StatementBlock) (m : BlockManager)
    → IsValid n own [] m
    → AllBlocks (IsForeign n own) blocks
    → 2 * length blocks + length m.blocks_pending < fuel
    → (m' : BlockManager) × (done : List (ℕ × StatementBlock)) × (add_blocks e fuel blocks m
        ≡ some (m', done))
      × IsValid n own [] m'
      × ((r : BlockReference)
          → (lookup r m'.blocks_pending ≡ none)
            ⊎ ((b : StatementBlock) × (lookup r m'.blocks_pending ≡ some b)
                × LacksOne m'.block_store b))
      × ((r : BlockReference)
          → (block_exists m'.block_store r || has_key r m'.blocks_pending)
            ≡ (queued r blocks || (block_exists m.block_store r || has_key r m.blocks_pending)))
      × ((r : BlockReference)
          → block_exists m'.block_store r ≡ (block_exists m.block_store r || produced r done))
add_blocks_lem e n own fuel blocks m v s l =
    let l' = rounds-le m.block_store blocks in
    let (m', done, h, u) = add_blocks-runs e n own fuel blocks m v s (omega arith) in
    (m', done, h, u.valid, IsValid-lacks n own m' u.valid, u.same_known, u.stores)
