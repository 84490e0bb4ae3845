-- ===== src/Mysticeti/BlockManager/Inserting.antt =====
-- The manager of block_manager.rs after a block with nothing missing has gone into the store.
use congestion_control.Prelude.{
  ℕ, ◌≡◌, ◌≤◌, ◌<◌, sym, ◌∙◌, subst, true, false, List, [], some, ◌||◌, length, if◌then◌else◌,
  arith, Bool-cases, ◌⊎◌, inl, inr,
}
use congestion_control.Prelude.Maps.{lookup, has_key}
use congestion_control.Mysticeti.Types.{
  BlockReference, StatementBlock, reference_eq, reference_eq_iff, block_reference_eq,
}
use congestion_control.Mysticeti.BlockStore.{BlockStore, block_exists, get_block, insert_block}
use congestion_control.Mysticeti.BlockStore.Lookup.{get_block-insert_block}
use congestion_control.Mysticeti.Linearizer.{holds}
use congestion_control.Mysticeti.Linearizer.Counting.{times, holds-times, not_holds-times}
use congestion_control.Mysticeti.BlockManager.{BlockManager, Environment, waiting_for, remove_key}
use congestion_control.Mysticeti.BlockManager.Waiting.{lookup-remove_key, waiting_for-remove_key}
use congestion_control.Mysticeti.BlockManager.Lacking.{all_stored}
use congestion_control.Mysticeti.BlockManager.Valid.{LacksOne, IsValid, all_stored-holds}
use congestion_control.Mysticeti.BlockManager.Releasing.{ArePending}
use congestion_control.Mysticeti.BlockManager.Inserted.{no_holds, block_exists-insert_block}

-- What is looked at after a block has been processed: what waited for it.
abbrev pub inserted : BlockStore → BlockReference → BlockManager → BlockManager
inserted st r m = record m {
  block_store = st;
  block_references_waiting = remove_key r m.block_references_waiting;
}

times-holds : (r : BlockReference) (rs : List BlockReference) → 0 < times r rs → holds r rs ≡ true
times-holds r rs t = elim (Bool-cases (holds r rs)) [
  | inl y ↦ y
  | inr n ↦ let z = not_holds-times r rs n in absurd (omega arith)
]

module _ (e : Environment) where
  holds-order :
      (r : BlockReference) (rs : List BlockReference)
      → holds r rs ≡ true
      → holds r (e.order rs) ≡ true
  holds-order r rs h =
      let t = holds-times r rs h in
      let s = e.order_times r rs in times-holds r (e.order rs) (omega arith)

  order-holds :
      (r : BlockReference) (rs : List BlockReference)
      → holds r (e.order rs) ≡ true
      → holds r rs ≡ true
  order-holds r rs h =
      let t = holds-times r (e.order rs) h in
      let s = e.order_times r rs in times-holds r rs (omega arith)

  module _ (n own : ℕ) (m : BlockManager) (v : IsValid n own [] m) (b : StatementBlock) (p : ℕ)
      (st' : BlockStore) (h : insert_block b p m.block_store ≡ some st') where
    block_exists-inserted :
        (r : BlockReference)
        → block_exists st' r ≡ (reference_eq b.reference r || block_exists m.block_store r)
    block_exists-inserted r = block_exists-insert_block b p m.block_store st' r h

    waiting_for-inserted :
        (k : BlockReference)
        → waiting_for k (remove_key b.reference m.block_references_waiting)
          ≡ (if reference_eq b.reference k then [] else waiting_for k m.block_references_waiting)
    waiting_for-inserted k = waiting_for-remove_key b.reference k m.block_references_waiting

    closed-inserted :
        all_stored m.block_store b.includes ≡ true
        → (r i : BlockReference) (d : StatementBlock) → get_block st' r ≡ some d
        → holds i d.includes ≡ true
        → block_exists st' i ≡ true
    closed-inserted a r i d g k =
        let q = get_block-insert_block b p m.block_store st' r h in
        let x = block_exists-inserted i in
        elim (Bool-cases (reference_eq b.reference r)) [
          | inl y ↦
              let same : b ≡ d = ground (arith, q, y, g) in
              let s =
                all_stored-holds m.block_store b.includes i a
                  (subst (λ t. holds i t.includes ≡ true) (sym same) k) in
              ground (arith, x, s)
          | inr z ↦ let s = v.closed r i d (ground (arith, q, z, g)) k in ground (arith, x, s)
        ]

    blocked-inserted :
        (q : BlockReference) (d : StatementBlock)
        → lookup q m.blocks_pending ≡ some d
        → (holds q (e.order (waiting_for b.reference m.block_references_waiting)) ≡ true)
          ⊎ LacksOne st' d
    blocked-inserted q d l = elim (v.blocked q d l) [
      | inl k ↦ absurd (ground (arith, k))
      | inr (i, k, z) ↦ elim (Bool-cases (reference_eq b.reference i)) [
        | inl y ↦
            let w = v.waits q i d l k z in
            inl (
              holds-order q (waiting_for b.reference m.block_references_waiting) (
                subst (λ t. holds q (waiting_for t m.block_references_waiting) ≡ true)
                  (sym ((reference_eq_iff b.reference i).0 y)) w))
        | inr x ↦ let u = block_exists-inserted i in inr (i, k, ground (arith, u, x, z))
      ]
    ]

    waiter-inserted :
        (k w : BlockReference)
        → holds w (waiting_for k (remove_key b.reference m.block_references_waiting)) ≡ true
        → (d : StatementBlock) × (lookup w m.blocks_pending ≡ some d) × (holds k d.includes ≡ true)
    waiter-inserted k w l = elim (Bool-cases (reference_eq b.reference k)) [
      | inl y ↦
          let z : waiting_for k (remove_key b.reference m.block_references_waiting) ≡ [] =
            ground (arith, waiting_for-inserted k, y) in
          absurd (no_holds w (subst (λ t. holds w t ≡ true) z l))
      | inr x ↦
          let z : waiting_for k (remove_key b.reference m.block_references_waiting)
              ≡ waiting_for k m.block_references_waiting =
            ground (arith, waiting_for-inserted k, x) in
          v.waiter k w (subst (λ t. holds w t ≡ true) z l)
    ]

    once-inserted :
        (k w : BlockReference)
        → times w (waiting_for k (remove_key b.reference m.block_references_waiting)) ≤ 1
    once-inserted k w = elim (Bool-cases (reference_eq b.reference k)) [
      | inl y ↦
          let z : waiting_for k (remove_key b.reference m.block_references_waiting) ≡ [] =
            ground (arith, waiting_for-inserted k, y) in
          subst (λ t. times w t ≤ 1) (sym z) (omega arith)
      | inr x ↦
          let z : waiting_for k (remove_key b.reference m.block_references_waiting)
              ≡ waiting_for k m.block_references_waiting =
            ground (arith, waiting_for-inserted k, x) in
          subst (λ t. times w t ≤ 1) (sym z) (v.once k w)
    ]

    waits-inserted :
        (q i : BlockReference) (d : StatementBlock)
        → lookup q m.blocks_pending ≡ some d
        → holds i d.includes ≡ true
        → block_exists st' i ≡ false
        → holds q (waiting_for i (remove_key b.reference m.block_references_waiting)) ≡ true
    waits-inserted q i d l k z =
        let u = block_exists-inserted i in
        let x : reference_eq b.reference i ≡ false = ground (arith, u, z) in
        let s : waiting_for i (remove_key b.reference m.block_references_waiting)
            ≡ waiting_for i m.block_references_waiting =
          ground (arith, waiting_for-inserted i, x) in
        subst (λ t. holds q t ≡ true) (sym s) (v.waits q i d l k (ground (arith, u, z)))

    unstored-inserted :
        (k : BlockReference)
        → has_key k (remove_key b.reference m.block_references_waiting) ≡ true
        → block_exists st' k ≡ false
    unstored-inserted k l =
        let u = block_exists-inserted k in
        let r = lookup-remove_key b.reference k m.block_references_waiting in
        elim (Bool-cases (reference_eq b.reference k)) [
          | inl y ↦ absurd (ground (arith, r, y, l))
          | inr x ↦ let z = v.unstored k (ground (arith, r, x, l)) in ground (arith, u, x, z)
        ]

    pub IsValid-inserted :
        all_stored m.block_store b.includes ≡ true
        → st'.authority ≡ m.block_store.authority
        → length st'.last_seen_by_authority ≡ length m.block_store.last_seen_by_authority
        → IsValid n own
            (e.order (waiting_for b.reference m.block_references_waiting))
            (inserted st' b.reference m)
    IsValid-inserted a x y = record {
      authorities = v.authorities;
      last_seen = y ∙ v.last_seen;
      authority = x ∙ v.authority;
      closed = closed-inserted a;
      unstored = unstored-inserted;
      waits = waits-inserted;
      waiter = waiter-inserted;
      once = once-inserted;
      foreign = v.foreign;
      blocked = blocked-inserted;
    }

    pub ArePending-inserted :
        ArePending
          (e.order (waiting_for b.reference m.block_references_waiting))
          (inserted st' b.reference m)
    ArePending-inserted = record {
      pending = λ w k.
          let (d, l, i) =
            v.waiter b.reference w
              (order-holds w (waiting_for b.reference m.block_references_waiting) k) in
          ground (arith, l);
      single = λ w.
          let t = v.once b.reference w in
          let s = e.order_times w (waiting_for b.reference m.block_references_waiting) in
          omega arith;
    }
