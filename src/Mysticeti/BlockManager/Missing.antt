-- ===== src/Mysticeti/BlockManager/Missing.antt =====
-- The field `missing` of block_manager.rs: what is to be fetched.
use congestion_control.Prelude.{
  ℕ, zero, suc, ◌+◌, ◌*◌, ◌≡◌, ◌<◌, ◌↔◌, sym, ◌∙◌, subst, true, false, List, [], ◌∷◌, ◌++◌, some,
  length, arith, Option-cases, inl, inr,
}
use congestion_control.Prelude.Maps.{lookup, has_key}
use congestion_control.Mysticeti.Types.{BlockReference, StatementBlock, block_reference_eq}
use congestion_control.Mysticeti.BlockStore.{BlockStore, block_exists}
use congestion_control.Mysticeti.Linearizer.{holds}
use congestion_control.Mysticeti.Linearizer.Counting.{AllBlocks}
use congestion_control.Mysticeti.BlockManager.{BlockManager, Environment, new, add_blocks}
use congestion_control.Mysticeti.BlockManager.Waiting.{has_key-waiting}
use congestion_control.Mysticeti.BlockManager.Valid.{IsForeign, IsValid}
use congestion_control.Mysticeti.BlockManager.Inserted.{no_holds}
use congestion_control.Mysticeti.BlockManager.Steps.{step-runs}
use congestion_control.Mysticeti.BlockManager.Added.{add_blocks-runs, add_blocks-step, rounds-le}
use congestion_control.Mysticeti.BlockManager.Wanted.{wanted, IsTracked}
use congestion_control.Mysticeti.BlockManager.Tracking.{
  no_result, some_first, add_blocks-none, none_replicated, IsTracked-step,
}

IsTracked-add_blocks :
    (e : Environment) (n own fuel : ℕ) (queue : List StatementBlock) (m m' : BlockManager)
    (done : List (ℕ × StatementBlock))
    → AllBlocks (IsForeign n own) queue
    → IsValid n own [] m
    → IsTracked queue m
    → add_blocks e fuel queue m ≡ some (m', done)
    → IsTracked [] m'
unfolding add_blocks
IsTracked-add_blocks e n own zero queue m m' done s v t h = absurd (no_result (m', done) h)
IsTracked-add_blocks e n own (suc fuel) [] m m' done s v t h =
    let q : m ≡ m' = ground (arith, h) in subst (IsTracked []) q t
IsTracked-add_blocks e n own (suc fuel) (b ∷ queue) m m' done s v t h =
    let (m1, queue', done1, k, u) = step-runs e n own b queue s.0 s.1 m v in
    let t1 = IsTracked-step e b queue n own m m1 queue' done1 s.0 v t k in
    elim (Option-cases (add_blocks e fuel queue' m1)) [
      | inl x ↦
          absurd
            (no_result (m', done) (sym (add_blocks-none e fuel b queue queue' m m1 done1 k x) ∙ h))
      | inr (o, x) ↦
          let q : o.0 ≡ m' =
            some_first o.0 m' (done1 ++ o.1) done
              (sym (add_blocks-step e fuel b queue queue' m m1 o.0 done1 o.1 k x) ∙ h) in
          subst (IsTracked []) q
            (IsTracked-add_blocks e n own fuel queue' m1 o.0 o.1 u.foreign u.valid t1 x)
    ]

-- Not pending, not stored, and included by a pending block.
abbrev pub IsAwaited : BlockReference → BlockManager → Type 0
IsAwaited r m =
    (has_key r m.blocks_pending ≡ false)
    × (block_exists m.block_store r ≡ false)
    × ((p : BlockReference) × (b : StatementBlock) × (lookup p m.blocks_pending ≡ some b)
        × (holds r b.includes ≡ true))

IsAwaited-IsTracked :
    (n own : ℕ) (queue : List StatementBlock) (m : BlockManager)
    → IsValid n own [] m
    → ((r : BlockReference) → (wanted r m ≡ true) ↔ IsAwaited r m)
    → IsTracked queue m
IsAwaited-IsTracked n own queue m v x = record {
  awaited = λ r h. let (p, z, (k, b, l, i)) = (x r).0 h in ((k, v.waits k r b l i z), p);
  asked = λ r w h p.
      let (b, l, i) = v.waiter r w h in
      let a =
        (x r).1
          (p, v.unstored r (has_key-waiting r w m.block_references_waiting h), (w, b, l, i)) in
      ground (arith, a);
}

IsTracked-IsAwaited :
    (n own : ℕ) (m : BlockManager)
    → IsValid n own [] m
    → IsTracked [] m
    → (r : BlockReference) → (wanted r m ≡ true) ↔ IsAwaited r m
IsTracked-IsAwaited n own m v t r = (
  λ h.
      let ((w, a), p) = t.awaited r h in
      let (b, l, i) = v.waiter r w a in
      (p, v.unstored r (has_key-waiting r w m.block_references_waiting a), (w, b, l, i)),
  λ a.
      let (p, z, (k, b, l, i)) = a in
      let u = t.asked r k (v.waits k r b l i z) p in ground (arith, u),
)

-- Nothing is missing at the beginning.
pub new-IsAwaited :
    (st : BlockStore) (n : ℕ) (r : BlockReference)
    → (wanted r (new st n) ≡ true) ↔ IsAwaited r (new st n)
unfolding new lookup
new-IsAwaited st n r = (
  λ h.
      let q : holds r [] ≡ true =
        subst (λ x. holds r x ≡ true) (none_replicated n r.authority []) h in
      absurd (no_holds r q),
  λ a. let (p, z, (k, b, l, i)) = a in absurd (ground (arith, l)),
)

-- In a valid state in which the missing references are exactly those that are neither stored nor pending and
-- that a pending block includes, and for blocks of other authorities of the committee whose includes have
-- authors of the committee, with two rounds of fuel for each block, one for each pending block and one
-- more, `add_blocks` ends in a valid state in which they are exactly these again.
pub missing_exact :
    (e : Environment) (n own fuel : ℕ) (blocks : List StatementBlock) (m : BlockManager)
    → IsValid n own [] m
    → ((r : BlockReference) → (wanted r m ≡ true) ↔ IsAwaited r m)
    → AllBlocks (IsForeign n own) blocks
    → 2 * length blocks + length m.blocks_pending < fuel
    → (m' : BlockManager) × (done : List (ℕ × StatementBlock)) × (add_blocks e fuel blocks m
        ≡ some (m', done))
      × IsValid n own [] m'
      × ((r : BlockReference) → (wanted r m' ≡ true) ↔ IsAwaited r m')
missing_exact e n own fuel blocks m v x s l =
    let l' = rounds-le m.block_store blocks in
    let (m', done, h, u) = add_blocks-runs e n own fuel blocks m v s (omega arith) in
    let t =
      IsTracked-add_blocks e n own fuel blocks m m' done s v
        (IsAwaited-IsTracked n own blocks m v x) h in
    (m', done, h, u.valid, IsTracked-IsAwaited n own m' u.valid t)
