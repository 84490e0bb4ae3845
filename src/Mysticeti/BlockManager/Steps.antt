-- ===== src/Mysticeti/BlockManager/Steps.antt =====
-- One round of the loop of block_manager.rs, on every branch.
use mathlib.Core.Option
use congestion_control.Prelude.{
  ℕ, ◌+◌, ◌≡◌, ◌≢◌, ◌≤◌, ◌<◌, refl, sym, ap, ◌∙◌, subst, Bool, true, false, List, [], ◌∷◌, none,
  some, ◌||◌, length, ltb, arith, Bool-cases, inl, inr,
}
use congestion_control.Prelude.Maps.{has_key}
use congestion_control.Mysticeti.Types.{
  BlockReference, StatementBlock, reference_eq, reference_eq_iff, block_reference_eq,
}
use congestion_control.Mysticeti.BlockStore.{BlockStore, block_exists, insert_block}
use congestion_control.Mysticeti.Linearizer.Counting.{AllBlocks}
use congestion_control.Mysticeti.BlockManager.{
  BlockManager, Environment, waiting_for, process, unlock, wait_all, step,
}
use congestion_control.Mysticeti.BlockManager.Lacking.{all_stored, Waited}
use congestion_control.Mysticeti.BlockManager.Includes.{wait_all-runs}
use congestion_control.Mysticeti.BlockManager.Valid.{
  IsForeign, IsValid, rounds-grows, queued, rounds,
}
use congestion_control.Mysticeti.BlockManager.Releasing.{Unlocks}
use congestion_control.Mysticeti.BlockManager.Unlocking.{unlock-runs}
use congestion_control.Mysticeti.BlockManager.Inserted.{
  insert_block-runs, block_exists-insert_block,
}
use congestion_control.Mysticeti.BlockManager.Inserting.{
  inserted, IsValid-inserted, ArePending-inserted,
}
use congestion_control.Mysticeti.BlockManager.Pended.{
  Steps, found, IsValid-found, pended, pended-Steps,
}

rounds-next :
    (st : BlockStore) (b : StatementBlock) (queue : List StatementBlock)
    → rounds st queue < rounds st (b ∷ queue)
rounds-next st b queue = elim (Bool-cases (all_stored st b.includes)) [
  | inl y ↦ rw y (omega arith)
  | inr n ↦ rw n (omega arith)
]

processed_known : (a b c d : Bool) → (b || ((a || c) || d)) ≡ ((a || b) || (c || d))
processed_known true true c d = refl
processed_known true false c d = refl
processed_known false b c d = refl

seen_known : (a b c : Bool) → b ≡ true → (a || b) ≡ ((c || a) || b)
seen_known a b c h = ground (arith, h)

processed_stored : (a b : Bool) → (a || b) ≡ (b || (a || false))
processed_stored a b = ground arith

known_authority :
    (r : BlockReference) (m : BlockManager)
    → r.authority < length m.missing
    → ltb r.authority (length m.missing) ≡ true
known_authority r m h = ground (arith, h)

module _ (e : Environment) (n own : ℕ) (b : StatementBlock) (queue : List StatementBlock)
    (f : IsForeign n own b) (s : AllBlocks (IsForeign n own) queue) where
  Steps-processed :
      (m m' : BlockManager) (st : BlockStore) (queue' : List StatementBlock)
      → all_stored m.block_store b.includes ≡ true
      → insert_block b (e.position m.block_store b) m.block_store ≡ some st
      → Unlocks n own (inserted st b.reference m) m' queue queue'
      → Steps n own b m m' queue queue' ((e.position m.block_store b, b) ∷ [])
  Steps-processed m m' st queue' a i u =
      let x = λ (r : BlockReference).
        block_exists-insert_block b (e.position m.block_store b) m.block_store st r i in
      record {
        valid = u.valid;
        foreign = u.foreign;
        fewer =
            let g =
              rounds-grows m.block_store st queue (λ r k. let y = x r in ground (arith, y, k)) in
            let q : rounds m'.block_store queue' + length m'.blocks_pending
                ≤ rounds st queue + length m.blocks_pending =
              subst
                (λ t.
                  rounds t queue' + length m'.blocks_pending
                  ≤ rounds st queue + length m.blocks_pending)
                (sym u.store) u.fewer in
            rw a (omega arith);
        same_known = λ r.
            u.same_known r
            ∙ ap (λ t. queued r queue || (t || has_key r m.blocks_pending)) (x r)
            ∙ processed_known (reference_eq b.reference r) (queued r queue)
                (block_exists m.block_store r) (has_key r m.blocks_pending);
        stores = λ r.
            ap (λ t. block_exists t r) u.store
            ∙ x r
            ∙ processed_stored (reference_eq b.reference r) (block_exists m.block_store r);
      }

  process-runs :
      (m : BlockManager)
      → IsValid n own [] m
      → all_stored m.block_store b.includes ≡ true
      → (m' : BlockManager) × (queue' : List StatementBlock) × (process e b m queue
          ≡ some (m', queue'))
        × Steps n own b m m' queue queue' ((e.position m.block_store b, b) ∷ [])
  unfolding process
  process-runs m v a =
      let (st, i, x, y) =
        insert_block-runs b (e.position m.block_store b) m.block_store
          (subst (λ t. b.reference.authority ≢ t) (sym v.authority) f.not_own)
          (subst (λ t. b.reference.authority < t) (sym v.last_seen) f.author) in
      let ws = e.order (waiting_for b.reference m.block_references_waiting) in
      let p = e.position m.block_store b in
      let (m', queue', k, u) =
        unlock-runs n own ws (inserted st b.reference m) queue
          (IsValid-inserted e n own m v b p st i a x y) (ArePending-inserted e n own m v b p st i)
          s in
      (
        m',
        queue',
        ap (λ o. elim o [ none ↦ none | some st ↦ unlock ws (inserted st b.reference m) queue ]) i
            ∙ k,
        Steps-processed m m' st queue' a i u,
      )

  abbrev Ran : BlockManager → Type 0
  Ran m =
      (m' : BlockManager) × (queue' : List StatementBlock) × (done : List (ℕ × StatementBlock))
      × (step e b m queue ≡ some (m', queue', done))
      × Steps n own b m m' queue queue' done

  skip-runs :
      (m : BlockManager)
      → IsValid n own [] m
      → (block_exists m.block_store b.reference || has_key b.reference m.blocks_pending) ≡ true
      → Ran m
  unfolding step
  skip-runs m v k = (
    m,
    queue,
    [],
    rw (step, k) refl,
    record {
      valid = v;
      foreign = s;
      fewer = let x = rounds-next m.block_store b queue in omega arith;
      same_known = λ r. elim (Bool-cases (reference_eq b.reference r)) [
        | inr x ↦ ground (arith, x)
        | inl y ↦
            let k' : (block_exists m.block_store r || has_key r m.blocks_pending) ≡ true =
              subst (λ t. (block_exists m.block_store t || has_key t m.blocks_pending) ≡ true)
                ((reference_eq_iff b.reference r).0 y) k in
            seen_known (queued r queue) (block_exists m.block_store r || has_key r m.blocks_pending)
              (reference_eq b.reference r) k'
      ];
      stores = λ r. ground arith;
    },
  )

  pend-runs :
      (m m1 : BlockManager)
      → IsValid n own [] m
      → (block_exists m.block_store b.reference || has_key b.reference m.blocks_pending) ≡ false
      → wait_all b.includes b.reference m ≡ some (m1, all_stored m.block_store b.includes)
      → Waited b.includes b.reference m m1
      → all_stored m.block_store b.includes ≡ false
      → Ran m
  unfolding step
  pend-runs m m1 v k c w a =
      let d : ltb b.reference.authority (length m1.missing) ≡ true =
        known_authority b.reference m1
          (subst (λ t. b.reference.authority < t) (sym (w.missing ∙ v.authorities)) f.author) in
      (
        pended b (found b.reference m1),
        queue,
        [],
        rw (step, k, c ∙ ap (λ t. some (m1, t)) a, d) refl,
        pended-Steps n own b m m1 v f w a (ground (arith, k)) queue (ground (arith, k)) s,
      )

  ready-runs :
      (m : BlockManager)
      → IsValid n own [] m
      → (block_exists m.block_store b.reference || has_key b.reference m.blocks_pending) ≡ false
      → wait_all b.includes b.reference m ≡ some (m, true)
      → all_stored m.block_store b.includes ≡ true
      → Ran m
  unfolding step
  ready-runs m v k c a =
      let d : ltb b.reference.authority (length m.missing) ≡ true =
        known_authority b.reference m
          (subst (λ t. b.reference.authority < t) (sym v.authorities) f.author) in
      let (m', queue', h, u) =
        process-runs (found b.reference m) (IsValid-found n own b.reference m v) a in
      (
        m',
        queue',
        (e.position m.block_store b, b) ∷ [],
        rw (step, k, c, d)
            (ap (Option.map (λ p. (p.0, p.1, (e.position m.block_store b, b) ∷ []))) h),
        record {
          valid = u.valid;
          fewer = u.fewer;
          foreign = u.foreign;
          same_known = u.same_known;
          stores = u.stores;
        },
      )

  pub step-runs : (m : BlockManager) → IsValid n own [] m → Ran m
  step-runs m v =
      elim (Bool-cases
        (block_exists m.block_store b.reference || has_key b.reference m.blocks_pending)) [
          | inl y ↦ skip-runs m v y
          | inr k ↦
              let (m1, c, w) =
                wait_all-runs b.includes b.reference m
                  (λ i h. subst (λ t. i.authority < t) (sym v.authorities) (f.authors i h))
                  v.once in
              elim (Bool-cases (all_stored m.block_store b.includes)) [
                | inr a ↦ pend-runs m m1 v k c w a
                | inl a ↦ ready-runs m v k (c ∙ ap (λ t. some t) (rw (w.unchanged a, a) refl)) a
              ]
        ]
