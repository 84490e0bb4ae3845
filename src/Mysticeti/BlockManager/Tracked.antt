-- ===== src/Mysticeti/BlockManager/Tracked.antt =====
-- A round of block_manager.rs keeps the missing references exact.
use congestion_control.Prelude.{
  ℕ, ◌≡◌, sym, ap, ◌∙◌, subst, Bool, true, false, List, [], ◌∷◌, some, ◌||◌, length, ltb, arith,
  Bool-cases, Option-cases, inl, inr,
}
use congestion_control.Prelude.Maps.{lookup, has_key, lookup-insert}
use congestion_control.Mysticeti.Types.{
  BlockReference, StatementBlock, reference_eq, reference_eq_iff, block_reference_eq,
}
use congestion_control.Mysticeti.BlockStore.{BlockStore, block_exists}
use congestion_control.Mysticeti.Linearizer.{holds}
use congestion_control.Mysticeti.BlockManager.{
  BlockManager, waiting_for, remove_key, wait, wait_all, none_waited, unlock,
}
use congestion_control.Mysticeti.BlockManager.Waiting.{
  lookup-remove_key, waiting_for-remove_key, has_key-waiting,
}
use congestion_control.Mysticeti.BlockManager.Valid.{IsValid, queued}
use congestion_control.Mysticeti.BlockManager.Releasing.{release}
use congestion_control.Mysticeti.BlockManager.Unlocking.{unlock-release, unlock-stays}
use congestion_control.Mysticeti.BlockManager.Inserted.{no_holds}
use congestion_control.Mysticeti.BlockManager.Inserting.{inserted}
use congestion_control.Mysticeti.BlockManager.Pended.{found, pended}
use congestion_control.Mysticeti.BlockManager.Wanted.{
  wanted, IsTracked, IsTracked-wait, wanted-found,
}

pub IsTracked-wait_all :
    (queue : List StatementBlock) (is : List BlockReference) (r : BlockReference)
    (m m' : BlockManager) (p : Bool)
    → IsTracked queue m
    → wait_all is r m ≡ some (m', p)
    → IsTracked queue m'
unfolding wait_all
IsTracked-wait_all queue [] r m m' p t h =
    let e : m ≡ m' = ground (arith, h) in subst (IsTracked queue) e t
IsTracked-wait_all queue (i ∷ is) r m m' p t h = elim (Bool-cases (block_exists m.block_store i)) [
  | inl y ↦ elim (Option-cases (wait_all is r m)) [
    | inl x ↦ absurd (ground (arith, y, x, h))
    | inr (o, k) ↦
        let e : o.0 ≡ m' = ground (arith, y, k, h) in
        subst (IsTracked queue) e (IsTracked-wait_all queue is r m o.0 o.1 t k)
  ]
  | inr n ↦ elim (Option-cases (wait i r m)) [
    | inl x ↦ absurd (ground (arith, n, x, h))
    | inr (m1, w) ↦ elim (Option-cases (wait_all is r m1)) [
      | inl x ↦ absurd (ground (arith, n, w, x, h))
      | inr (o, k) ↦
          let e : o.0 ≡ m' = ground (arith, n, w, k, h) in
          subst (IsTracked queue) e
            (IsTracked-wait_all queue is r m1 o.0 o.1 (IsTracked-wait queue i r m t m1 w) k)
    ]
  ]
]

pub IsTracked-found :
    (queue : List StatementBlock) (b : StatementBlock) (m : BlockManager)
    → ltb b.reference.authority (length m.missing) ≡ true
    → IsTracked (b ∷ queue) m
    → IsTracked (b ∷ queue) (found b.reference m)
IsTracked-found queue b m l t = record {
  awaited = λ k h. let s = wanted-found b.reference k m l in t.awaited k (ground (arith, s, h));
  asked = λ k w h p.
      let s = wanted-found b.reference k m l in
      let u = t.asked k w h p in
      elim (Bool-cases (reference_eq b.reference k)) [
        | inl y ↦ ground (arith, y)
        | inr n ↦
            ap (λ x. x || (reference_eq b.reference k || queued k queue)) s ∙ ground (arith, n, u)
      ];
}

pub not_wanted-found :
    (r : BlockReference) (m : BlockManager)
    → ltb r.authority (length m.missing) ≡ true
    → (k : BlockReference) → reference_eq r k ≡ true
    → wanted k (found r m) ≡ false
not_wanted-found r m l k e = wanted-found r k m l ∙ ground (arith, e)

module _ (queue : List StatementBlock) (b : StatementBlock) (m : BlockManager)
    (t : IsTracked (b ∷ queue) m)
    (z : (k : BlockReference) → reference_eq b.reference k ≡ true → wanted k m ≡ false) where
  pub IsTracked-pended : IsTracked queue (pended b m)
  IsTracked-pended = record {
    awaited = λ k h.
        let (a, p) = t.awaited k h in
        elim (Bool-cases (reference_eq b.reference k)) [
          | inl y ↦ let z' = z k y in absurd (ground (arith, z', h))
          | inr n ↦ (a, ground (arith, lookup-insert b.reference k b m.blocks_pending, n, p))
        ];
    asked = λ k w h p. elim (Bool-cases (reference_eq b.reference k)) [
      | inl y ↦ absurd (ground (arith, lookup-insert b.reference k b m.blocks_pending, y, p))
      | inr n ↦
          let u =
            t.asked k w h (ground (arith, lookup-insert b.reference k b m.blocks_pending, n, p)) in
          ground (arith, u, n)
    ];
  }

  pub IsTracked-inserted : (st : BlockStore) → IsTracked queue (inserted st b.reference m)
  IsTracked-inserted st = record {
    awaited = λ k h.
        let ((w, a), p) = t.awaited k h in
        elim (Bool-cases (reference_eq b.reference k)) [
          | inl y ↦ let z' = z k y in absurd (ground (arith, z', h))
          | inr n ↦
              let s : waiting_for k (remove_key b.reference m.block_references_waiting)
                  ≡ waiting_for k m.block_references_waiting =
                ground
                  (arith, waiting_for-remove_key b.reference k m.block_references_waiting, n) in
              ((w, ap (holds w) s ∙ a), p)
        ];
    asked = λ k w h p. elim (Bool-cases (reference_eq b.reference k)) [
      | inl y ↦
          let s : waiting_for k (remove_key b.reference m.block_references_waiting) ≡ [] =
            ground (arith, waiting_for-remove_key b.reference k m.block_references_waiting, y) in
          absurd (no_holds w (subst (λ x. holds w x ≡ true) s h))
      | inr n ↦
          let s : waiting_for k (remove_key b.reference m.block_references_waiting)
              ≡ waiting_for k m.block_references_waiting =
            ground (arith, waiting_for-remove_key b.reference k m.block_references_waiting, n) in
          let u = t.asked k w (subst (λ x. holds w x ≡ true) s h) p in ground (arith, u, n)
    ];
  }

-- The pending blocks stand under their references.
abbrev pub Keyed : BlockManager → Type 0
Keyed m =
    (p : BlockReference) (b : StatementBlock) → lookup p m.blocks_pending ≡ some b → b.reference ≡ p

IsTracked-release :
    (queue : List StatementBlock) (w : BlockReference) (b : StatementBlock) (m : BlockManager)
    → b.reference ≡ w
    → IsTracked queue m
    → IsTracked (b ∷ queue) (release w m)
IsTracked-release queue w b m e t = record {
  awaited = λ k h.
      let (a, p) = t.awaited k h in (a, ground (arith, lookup-remove_key w k m.blocks_pending, p));
  asked = λ k j h p. elim (Bool-cases (reference_eq w k)) [
    | inl y ↦
        let y' : reference_eq b.reference k ≡ true =
          subst (λ x. reference_eq x k ≡ true) (sym e) y in
        ground (arith, y')
    | inr n ↦
        let u = t.asked k j h (ground (arith, lookup-remove_key w k m.blocks_pending, n, p)) in
        ground (arith, u)
  ];
}

Keyed-release : (w : BlockReference) (m : BlockManager) → Keyed m → Keyed (release w m)
Keyed-release w m d p b h = elim (Bool-cases (reference_eq w p)) [
  | inl y ↦ absurd (ground (arith, lookup-remove_key w p m.blocks_pending, y, h))
  | inr n ↦ d p b (ground (arith, lookup-remove_key w p m.blocks_pending, n, h))
]

pub IsTracked-unlock :
    (ws : List BlockReference) (m m' : BlockManager) (queue queue' : List StatementBlock)
    → Keyed m
    → IsTracked queue m
    → unlock ws m queue ≡ some (m', queue')
    → IsTracked queue' m'
unfolding unlock
IsTracked-unlock [] m m' queue queue' d t h =
    let e : m ≡ m' = ground (arith, h) in
    let f : queue ≡ queue' = ground (arith, h) in
    subst (λ q. IsTracked q m') f (subst (IsTracked queue) e t)
IsTracked-unlock (w ∷ ws) m m' queue queue' d t h =
    elim (Option-cases (lookup w m.blocks_pending)) [
      | inl x ↦ absurd (ground (arith, x, h))
      | inr (b, l) ↦ elim (Bool-cases (none_waited b.includes m)) [
        | inl f ↦
            IsTracked-unlock ws (release w m) m' (b ∷ queue) queue' (Keyed-release w m d)
              (IsTracked-release queue w b m (d w b l) t)
              (sym (unlock-release w ws m b queue l f) ∙ h)
        | inr f ↦
            IsTracked-unlock ws m m' queue queue' d t (sym (unlock-stays w ws m b queue l f) ∙ h)
      ]
    ]

pub IsTracked-skip :
    (n own : ℕ) (queue : List StatementBlock) (b : StatementBlock) (m : BlockManager)
    → IsValid n own [] m
    → IsTracked (b ∷ queue) m
    → (block_exists m.block_store b.reference || has_key b.reference m.blocks_pending) ≡ true
    → IsTracked queue m
IsTracked-skip n own queue b m v t s = record {
  awaited = t.awaited;
  asked = λ k w h p.
      let u = t.asked k w h p in
      elim (Bool-cases (reference_eq b.reference k)) [
        | inl y ↦
            let s' : (block_exists m.block_store k || has_key k m.blocks_pending) ≡ true =
              subst (λ x. (block_exists m.block_store x || has_key x m.blocks_pending) ≡ true)
                ((reference_eq_iff b.reference k).0 y) s in
            let x = v.unstored k (has_key-waiting k w m.block_references_waiting h) in
            absurd (ground (arith, s', x, p))
        | inr n ↦ ground (arith, u, n)
      ];
}
