-- ===== src/Mysticeti/BlockManager/Releasing.antt =====
-- A pending block of block_manager.rs is released, or goes on waiting.
use congestion_control.Prelude.{
  ℕ, ◌+◌, ◌≡◌, ◌≤◌, sym, ap, ◌∙◌, subst, true, false, List, [], ◌∷◌, Option, some, length,
  if◌then◌else◌, arith, Bool-cases, inl, inr,
}
use congestion_control.Prelude.Maps.{Map, lookup, has_key}
use congestion_control.Mysticeti.Types.{
  BlockReference, StatementBlock, reference_eq, reference_eq_iff, block_reference_eq,
}
use congestion_control.Mysticeti.Linearizer.{holds}
use congestion_control.Mysticeti.Linearizer.Counting.{times, holds-times, AllBlocks}
use congestion_control.Mysticeti.BlockManager.{BlockManager, waiting_for, none_waited, remove_key}
use congestion_control.Mysticeti.BlockManager.Waiting.{
  lookup-remove_key, length-remove_key_held, has_key-waiting,
}
use congestion_control.Mysticeti.BlockManager.Lacking.{all_stored}
use congestion_control.Mysticeti.BlockManager.Valid.{
  IsForeign, IsValid, known, rounds, none_waited-holds, waited-include,
}

-- The references are of pending blocks, each once.
pub record ArePending (ws : List BlockReference) (m : BlockManager) : Type 0 where
  pub pending : (w : BlockReference) → holds w ws ≡ true → has_key w m.blocks_pending ≡ true
  pub single : (w : BlockReference) → times w ws ≤ 1

pub record Unlocks (n own : ℕ) (m m' : BlockManager) (queue queue' : List StatementBlock)
    : Type 0 where
  pub store : m'.block_store ≡ m.block_store
  pub valid : IsValid n own [] m'
  pub fewer :
      rounds m.block_store queue' + length m'.blocks_pending
      ≤ rounds m.block_store queue + length m.blocks_pending
  pub foreign : AllBlocks (IsForeign n own) queue'
  pub same_known : (r : BlockReference) → known r queue' m' ≡ known r queue m

abbrev pub release : BlockReference → BlockManager → BlockManager
release w m = record m { blocks_pending = remove_key w m.blocks_pending }

lookup-remained :
    (w p : BlockReference) (b : StatementBlock) (m : Map BlockReference StatementBlock)
    → lookup p (remove_key w m) ≡ some b
    → (reference_eq w p ≡ false) × (lookup p m ≡ some b)
lookup-remained w p b m h = elim (Bool-cases (reference_eq w p)) [
  | inl e ↦ absurd (ground (arith, lookup-remove_key w p m, e, h))
  | inr k ↦ (k, ground (arith, lookup-remove_key w p m, k, h))
]

remained-lookup :
    (w p : BlockReference) (b : StatementBlock) (m : Map BlockReference StatementBlock)
    → reference_eq w p ≡ false
    → lookup p m ≡ some b
    → lookup p (remove_key w m) ≡ some b
remained-lookup w p b m k h = ground (arith, lookup-remove_key w p m, k, h)

same_block : (a b : StatementBlock) (o : Option StatementBlock) → o ≡ some a → o ≡ some b → a ≡ b
same_block a b o h k = cc

holds-other :
    (w p : BlockReference) (ws : List BlockReference)
    → reference_eq w p ≡ false
    → holds p (w ∷ ws) ≡ true
    → holds p ws ≡ true
holds-other w p ws n h = ground (arith, n, h)

module _ (n own : ℕ) (w : BlockReference) (ws : List BlockReference) (m : BlockManager)
    (b : StatementBlock) (v : IsValid n own (w ∷ ws) m)
    (l : lookup w m.blocks_pending ≡ some b) where
  release-waiter :
      none_waited b.includes m ≡ true
      → (k j : BlockReference) → holds j (waiting_for k m.block_references_waiting) ≡ true
      → (d : StatementBlock) × (lookup j (remove_key w m.blocks_pending) ≡ some d)
        × (holds k d.includes ≡ true)
  release-waiter f k j h =
      let (d, e, i) = v.waiter k j h in
      elim (Bool-cases (reference_eq w j)) [
        | inr x ↦ (d, remained-lookup w j d m.blocks_pending x e, i)
        | inl y ↦
            let there : lookup w m.blocks_pending ≡ some d =
              subst (λ t. lookup t m.blocks_pending ≡ some d) (sym ((reference_eq_iff w j).0 y))
                e in
            let same = same_block d b (lookup w m.blocks_pending) there l in
            let held : holds k b.includes ≡ true = subst (λ t. holds k t.includes ≡ true) same i in
            let no = none_waited-holds b.includes m k f held in
            let yes = has_key-waiting k j m.block_references_waiting h in
            absurd (ground (arith, no, yes))
      ]

  pub IsValid-release : none_waited b.includes m ≡ true → IsValid n own ws (release w m)
  IsValid-release f = record {
    authorities = v.authorities;
    last_seen = v.last_seen;
    authority = v.authority;
    closed = v.closed;
    unstored = v.unstored;
    once = v.once;
    waiter = release-waiter f;
    waits = λ p i d e h s. v.waits p i d (lookup-remained w p d m.blocks_pending e).1 h s;
    foreign = λ p d e. v.foreign p d (lookup-remained w p d m.blocks_pending e).1;
    blocked = λ p d e.
        let (x, e') = lookup-remained w p d m.blocks_pending e in
        elim (v.blocked p d e') [ inl h ↦ inl (holds-other w p ws x h) | inr k ↦ inr k ];
  }

  pub IsValid-stays : none_waited b.includes m ≡ false → IsValid n own ws m
  IsValid-stays f = record {
    authorities = v.authorities;
    last_seen = v.last_seen;
    authority = v.authority;
    closed = v.closed;
    unstored = v.unstored;
    once = v.once;
    waiter = v.waiter;
    waits = v.waits;
    foreign = v.foreign;
    blocked = λ p d e. elim (Bool-cases (reference_eq w p)) [
      | inr x ↦ elim (v.blocked p d e) [ inl h ↦ inl (holds-other w p ws x h) | inr k ↦ inr k ]
      | inl y ↦
          let there : lookup w m.blocks_pending ≡ some d =
            subst (λ t. lookup t m.blocks_pending ≡ some d) (sym ((reference_eq_iff w p).0 y)) e in
          let same = same_block b d (lookup w m.blocks_pending) l there in
          let (i, h, k) = waited-include b.includes m f in
          inr (i, subst (λ t. holds i t.includes ≡ true) same h, v.unstored i k)
    ];
  }

  pub known-release :
      (r : BlockReference) (queue : List StatementBlock)
      → known r (b ∷ queue) (release w m) ≡ known r queue m
  known-release r queue =
      let same : b.reference ≡ w = (v.foreign w b l).0 in
      let q : reference_eq b.reference r ≡ reference_eq w r = ap (λ t. reference_eq t r) same in
      elim (Bool-cases (reference_eq w r)) [
        | inr x ↦ ground (arith, q, x, lookup-remove_key w r m.blocks_pending)
        | inl y ↦
            let there : lookup r m.blocks_pending ≡ some b =
              subst (λ t. lookup t m.blocks_pending ≡ some b) ((reference_eq_iff w r).0 y) l in
            ground (arith, q, y, there)
      ]

pub ArePending-tail :
    (w : BlockReference) (ws : List BlockReference) (m : BlockManager)
    → ArePending (w ∷ ws) m
    → ArePending ws (release w m)
ArePending-tail w ws m a = record {
  single = λ j. let s = a.single j in omega arith;
  pending = λ j h.
      let s = a.single j in
      let t = holds-times j ws h in
      let p = a.pending j (ground (arith, h)) in
      elim (Bool-cases (reference_eq w j)) [
        | inl y ↦ absurd (ground (arith, s, t, y))
        | inr x ↦ ground (arith, p, x, lookup-remove_key w j m.blocks_pending)
      ];
}

pub ArePending-stays :
    (w : BlockReference) (ws : List BlockReference) (m : BlockManager)
    → ArePending (w ∷ ws) m
    → ArePending ws m
ArePending-stays w ws m a = record {
  single = λ j. let s = a.single j in omega arith;
  pending = λ j h. a.pending j (ground (arith, h));
}

pub Unlocks-release :
    (n own : ℕ) (w : BlockReference) (m m' : BlockManager) (b : StatementBlock)
    (queue queue' : List StatementBlock)
    → lookup w m.blocks_pending ≡ some b
    → all_stored m.block_store b.includes ≡ true
    → ((r : BlockReference) → known r (b ∷ queue) (release w m) ≡ known r queue m)
    → Unlocks n own (release w m) m' (b ∷ queue) queue'
    → Unlocks n own m m' queue queue'
Unlocks-release n own w m m' b queue queue' l s k u = record {
  store = u.store;
  valid = u.valid;
  foreign = u.foreign;
  fewer =
      let x = length-remove_key_held w m.blocks_pending b l in
      let y : rounds m.block_store queue' + length m'.blocks_pending
          ≤ (if true then 1 else 2)
            + rounds m.block_store queue
            + length (remove_key w m.blocks_pending) =
        subst
          (λ t.
            rounds m.block_store queue' + length m'.blocks_pending
            ≤ (if t then 1 else 2)
              + rounds m.block_store queue
              + length (remove_key w m.blocks_pending))
          s u.fewer in
      omega arith;
  same_known = λ r. u.same_known r ∙ k r;
}
