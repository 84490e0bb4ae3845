-- ===== src/Mysticeti/BlockManager/Pended.antt =====
-- What a round of block_manager.rs changes, and that a block which lacks something is held back.
use congestion_control.Prelude.{
  ℕ, ◌+◌, ◌≡◌, ◌<◌, sym, ap, ◌∙◌, subst, Bool, true, false, List, [], ◌∷◌, some, ◌||◌, length,
  length-set, set, get_or, arith, Bool-cases, ◌⊎◌, inl, inr,
}
use congestion_control.Prelude.Maps.{Map, lookup, insert, has_key, lookup-insert}
use congestion_control.Mysticeti.Types.{
  BlockReference, StatementBlock, reference_eq, reference_eq_iff, block_reference_eq,
}
use congestion_control.Mysticeti.BlockStore.{block_exists}
use congestion_control.Mysticeti.Linearizer.{holds}
use congestion_control.Mysticeti.Linearizer.Counting.{AllBlocks}
use congestion_control.Mysticeti.BlockManager.{BlockManager, waiting_for, set_remove}
use congestion_control.Mysticeti.BlockManager.Waiting.{length-insert}
use congestion_control.Mysticeti.BlockManager.Lacking.{all_stored, Waited}
use congestion_control.Mysticeti.BlockManager.Valid.{
  IsForeign, LacksOne, IsValid, unstored-include, known, rounds,
}

-- The blocks that have been processed.
abbrev pub produced : BlockReference → List (ℕ × StatementBlock) → Bool
produced r [] = false
produced r ((p, b) ∷ done) = reference_eq b.reference r || produced r done

pub record Steps (n own : ℕ) (b : StatementBlock) (m m' : BlockManager)
    (queue queue' : List StatementBlock) (done : List (ℕ × StatementBlock)) : Type 0 where
  pub valid : IsValid n own [] m'
  pub fewer :
      rounds m'.block_store queue' + length m'.blocks_pending
      < rounds m.block_store (b ∷ queue) + length m.blocks_pending
  pub foreign : AllBlocks (IsForeign n own) queue'
  pub same_known : (r : BlockReference) → known r queue' m' ≡ known r (b ∷ queue) m
  pub stores :
      (r : BlockReference)
      → block_exists m'.block_store r ≡ (block_exists m.block_store r || produced r done)

-- The manager after the block's own reference is no longer missing.
abbrev pub found : BlockReference → BlockManager → BlockManager
found r m = record m {
  missing = set m.missing r.authority (set_remove r (get_or m.missing r.authority []));
}

pub IsValid-found :
    (n own : ℕ) (r : BlockReference) (m : BlockManager)
    → IsValid n own [] m
    → IsValid n own [] (found r m)
IsValid-found n own r m v = record {
  authorities =
      length-set m.missing r.authority (set_remove r (get_or m.missing r.authority []))
      ∙ v.authorities;
  last_seen = v.last_seen;
  authority = v.authority;
  closed = v.closed;
  unstored = v.unstored;
  waits = v.waits;
  waiter = v.waiter;
  once = v.once;
  foreign = v.foreign;
  blocked = v.blocked;
}

abbrev pub pended : StatementBlock → BlockManager → BlockManager
pended b m = record m { blocks_pending = insert b.reference b m.blocks_pending }

looked_up :
    (k j : BlockReference) (b d : StatementBlock) (m : Map BlockReference StatementBlock)
    → lookup j (insert k b m) ≡ some d
    → ((k ≡ j) × (b ≡ d)) ⊎ (lookup j m ≡ some d)
looked_up k j b d m h = elim (Bool-cases (reference_eq k j)) [
  | inl e ↦ inl ((reference_eq_iff k j).0 e, ground (arith, lookup-insert k j b m, e, h))
  | inr n ↦ inr (ground (arith, lookup-insert k j b m, n, h))
]

module _ (n own : ℕ) (b : StatementBlock) (m m1 : BlockManager) (v : IsValid n own [] m)
    (f : IsForeign n own b) (w : Waited b.includes b.reference m m1)
    (a : all_stored m.block_store b.includes ≡ false)
    (free : has_key b.reference m.blocks_pending ≡ false) where
  IsValid-pended : IsValid n own [] (record (found b.reference m1) {
    blocks_pending = insert b.reference b m.blocks_pending;
    block_store = m.block_store;
  })
  IsValid-pended = record {
    authorities =
        length-set m1.missing b.reference.authority
          (set_remove b.reference (get_or m1.missing b.reference.authority []))
        ∙ w.missing
        ∙ v.authorities;
    last_seen = v.last_seen;
    authority = v.authority;
    closed = v.closed;
    once = w.once;
    unstored = λ k h.
        let q = w.keys k in
        elim (Bool-cases (has_key k m.block_references_waiting)) [
          | inl y ↦ v.unstored k y
          | inr x ↦ ground (arith, q, x, h)
        ];
    waits = λ p i d l h z.
        let q = w.waiters i p in
        elim (looked_up b.reference p b d m.blocks_pending l) [
          | inl (s, t) ↦
              let h' : holds i b.includes ≡ true =
                subst (λ x. holds i x.includes ≡ true) (sym t) h in
              let r : reference_eq b.reference p ≡ true = (reference_eq_iff b.reference p).1 s in
              q ∙ ground (arith, h', r, z)
          | inr l' ↦ let o = v.waits p i d l' h z in q ∙ ground (arith, o)
        ];
    waiter = λ k j h.
        let q = w.waiters k j in
        elim (Bool-cases (reference_eq b.reference j)) [
          | inl y ↦
              let there : lookup j (insert b.reference b m.blocks_pending) ≡ some b =
                ground (arith, lookup-insert b.reference j b m.blocks_pending, y) in
              elim (Bool-cases (holds j (waiting_for k m.block_references_waiting))) [
                | inr x ↦ (b, there, ground (arith, q, x, h))
                | inl x ↦
                    let (d, l, i) = v.waiter k j x in
                    let l' =
                      subst (λ t. lookup t m.blocks_pending ≡ some d)
                        (sym ((reference_eq_iff b.reference j).0 y)) l in
                    absurd (ground (arith, l', free))
              ]
          | inr x ↦
              let (d, l, i) = v.waiter k j (ground (arith, q, x, h)) in
              (d, ground (arith, lookup-insert b.reference j b m.blocks_pending, x, l), i)
        ];
    foreign = λ p d l. elim (looked_up b.reference p b d m.blocks_pending l) [
      | inl (s, t) ↦ (ap (λ x. x.reference) (sym t) ∙ s, subst (IsForeign n own) t f)
      | inr l' ↦ v.foreign p d l'
    ];
    blocked = λ p d l. elim (looked_up b.reference p b d m.blocks_pending l) [
      | inl (s, t) ↦
          inr (subst (LacksOne m.block_store) t (unstored-include m.block_store b.includes a))
      | inr l' ↦ v.blocked p d l'
    ];
  }

  Steps-pended :
      (queue : List StatementBlock)
      → block_exists m.block_store b.reference ≡ false
      → AllBlocks (IsForeign n own) queue
      → Steps n own b m
          (record (found b.reference m1) {
            blocks_pending = insert b.reference b m.blocks_pending;
            block_store = m.block_store;
          })
          queue
          queue
          []
  Steps-pended queue z s = record {
    valid = IsValid-pended;
    fewer = let l = length-insert b.reference b m.blocks_pending in rw a (omega arith);
    foreign = s;
    same_known = λ r.
        let l = lookup-insert b.reference r b m.blocks_pending in
        elim (Bool-cases (reference_eq b.reference r)) [
          | inl y ↦ ground (arith, l, y)
          | inr x ↦ ground (arith, l, x)
        ];
    stores = λ r. ground arith;
  }

  pub pended-Steps :
      (queue : List StatementBlock)
      → block_exists m.block_store b.reference ≡ false
      → AllBlocks (IsForeign n own) queue
      → Steps n own b m (pended b (found b.reference m1)) queue queue []
  pended-Steps queue z s =
      subst
        (λ p.
          Steps n own b m
            (record (found b.reference m1) { blocks_pending = insert b.reference b p }) queue queue
            [])
        (sym w.pending)
        (subst
          (λ st.
            Steps n own b m
              (record (found b.reference m1) {
                blocks_pending = insert b.reference b m.blocks_pending;
                block_store = st;
              })
              queue queue [])
          (sym w.store) (Steps-pended queue z s))
