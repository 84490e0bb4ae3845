-- ===== src/Mysticeti/BlockManager/Unlocking.antt =====
-- The loop of block_manager.rs over the blocks that waited for one that has been processed.
use congestion_control.Prelude.{
  ℕ, ◌≡◌, refl, ◌∙◌, true, false, List, [], ◌∷◌, some, arith, Bool-cases, Option-cases, inl, inr,
}
use congestion_control.Prelude.Maps.{lookup}
use congestion_control.Mysticeti.Types.{
  BlockReference, StatementBlock, reference_eq_iff, block_reference_eq,
}
use congestion_control.Mysticeti.Linearizer.Counting.{AllBlocks}
use congestion_control.Mysticeti.BlockManager.{BlockManager, none_waited, unlock}
use congestion_control.Mysticeti.BlockManager.Valid.{IsForeign, IsValid, none_waited-stored}
use congestion_control.Mysticeti.BlockManager.Releasing.{
  ArePending, Unlocks, release, IsValid-release, IsValid-stays, known-release, ArePending-tail,
  ArePending-stays, Unlocks-release,
}

pub unlock-release :
    (w : BlockReference) (ws : List BlockReference) (m : BlockManager) (b : StatementBlock)
    (queue : List StatementBlock)
    → lookup w m.blocks_pending ≡ some b
    → none_waited b.includes m ≡ true
    → unlock (w ∷ ws) m queue ≡ unlock ws (release w m) (b ∷ queue)
unfolding unlock
unlock-release w ws m b queue l f = rw (unlock, l, f) refl

pub unlock-stays :
    (w : BlockReference) (ws : List BlockReference) (m : BlockManager) (b : StatementBlock)
    (queue : List StatementBlock)
    → lookup w m.blocks_pending ≡ some b
    → none_waited b.includes m ≡ false
    → unlock (w ∷ ws) m queue ≡ unlock ws m queue
unfolding unlock
unlock-stays w ws m b queue l f = rw (unlock, l, f) refl

pub unlock-runs :
    (n own : ℕ) (ws : List BlockReference) (m : BlockManager) (queue : List StatementBlock)
    → IsValid n own ws m
    → ArePending ws m
    → AllBlocks (IsForeign n own) queue
    → (m' : BlockManager) × (queue' : List StatementBlock) × (unlock ws m queue ≡ some (m', queue'))
      × Unlocks n own m m' queue queue'
unfolding unlock
unlock-runs n own [] m queue v a s = (
  m,
  queue,
  refl,
  record { store = refl; valid = v; fewer = omega arith; foreign = s; same_known = λ r. refl },
)
unlock-runs n own (w ∷ ws) m queue v a s = elim (Option-cases (lookup w m.blocks_pending)) [
  | inl x ↦
      let h = a.pending w (ground (arith, reference_eq_iff w w)) in absurd (ground (arith, h, x))
  | inr (b, l) ↦ elim (Bool-cases (none_waited b.includes m)) [
    | inl f ↦
        let (m', queue', e, u) =
          unlock-runs n own ws (release w m) (b ∷ queue) (IsValid-release n own w ws m b v l f)
            (ArePending-tail w ws m a) ((v.foreign w b l).1, s) in
        (
          m',
          queue',
          unlock-release w ws m b queue l f ∙ e,
          Unlocks-release n own w m m' b queue queue' l
              (none_waited-stored n own (w ∷ ws) m w b v l f)
              (λ r. known-release n own w ws m b v l r queue) u,
        )
    | inr f ↦
        let (m', queue', e, u) =
          unlock-runs n own ws m queue (IsValid-stays n own w ws m b v l f)
            (ArePending-stays w ws m a) s in
        (m', queue', unlock-stays w ws m b queue l f ∙ e, u)
  ]
]
