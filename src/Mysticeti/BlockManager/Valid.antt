-- ===== src/Mysticeti/BlockManager/Valid.antt =====
-- The invariant of the block manager of block_manager.rs, and what the invariant says of the includes of a
-- pending block.
use congestion_control.Prelude.{
  ℕ, ◌+◌, ◌≡◌, ◌≢◌, ◌≤◌, ◌<◌, refl, subst, Bool, true, false, List, [], ◌∷◌, some, ◌||◌, length,
  if◌then◌else◌, arith, Bool-cases, ◌⊎◌, inl, inr,
}
use congestion_control.Prelude.Maps.{lookup, has_key}
use congestion_control.Mysticeti.Types.{
  BlockReference, StatementBlock, reference_eq, reference_eq_iff, block_reference_eq,
}
use congestion_control.Mysticeti.BlockStore.{BlockStore, block_exists, get_block}
use congestion_control.Mysticeti.Linearizer.{holds}
use congestion_control.Mysticeti.Linearizer.Counting.{times}
use congestion_control.Mysticeti.BlockManager.{BlockManager, waiting_for, none_waited}
use congestion_control.Mysticeti.BlockManager.Waiting.{has_key-waiting}
use congestion_control.Mysticeti.BlockManager.Lacking.{all_stored}

-- A block of one of `n` authorities, not the own one, that includes blocks of these authorities.
pub record IsForeign (n own : ℕ) (b : StatementBlock) : Type 0 where
  pub author : b.reference.authority < n
  pub not_own : b.reference.authority ≢ own
  pub authors : (i : BlockReference) → holds i b.includes ≡ true → i.authority < n

-- Something that a block includes is not in the store.
abbrev pub LacksOne : BlockStore → StatementBlock → Type 0
LacksOne st b = (i : BlockReference) × (holds i b.includes ≡ true) × (block_exists st i ≡ false)

-- The invariant, while the blocks that waited with the references `ws` are still to be looked at.
pub record IsValid (n own : ℕ) (ws : List BlockReference) (m : BlockManager) : Type 0 where
  pub authorities : length m.missing ≡ n
  pub last_seen : length m.block_store.last_seen_by_authority ≡ n
  pub authority : m.block_store.authority ≡ own
  pub closed :
      (r i : BlockReference) (b : StatementBlock)
      → get_block m.block_store r ≡ some b
      → holds i b.includes ≡ true
      → block_exists m.block_store i ≡ true
  pub unstored :
      (k : BlockReference)
      → has_key k m.block_references_waiting ≡ true
      → block_exists m.block_store k ≡ false
  pub waits :
      (p i : BlockReference) (b : StatementBlock)
      → lookup p m.blocks_pending ≡ some b
      → holds i b.includes ≡ true
      → block_exists m.block_store i ≡ false
      → holds p (waiting_for i m.block_references_waiting) ≡ true
  pub waiter :
      (k w : BlockReference)
      → holds w (waiting_for k m.block_references_waiting) ≡ true
      → (b : StatementBlock) × (lookup w m.blocks_pending ≡ some b) × (holds k b.includes ≡ true)
  pub once : (k w : BlockReference) → times w (waiting_for k m.block_references_waiting) ≤ 1
  pub foreign :
      (p : BlockReference) (b : StatementBlock)
      → lookup p m.blocks_pending ≡ some b
      → (b.reference ≡ p) × IsForeign n own b
  pub blocked :
      (p : BlockReference) (b : StatementBlock)
      → lookup p m.blocks_pending ≡ some b
      → (holds p ws ≡ true) ⊎ LacksOne m.block_store b

abbrev pub queued : BlockReference → List StatementBlock → Bool
queued r [] = false
queued r (b ∷ queue) = reference_eq b.reference r || queued r queue

-- A reference whose block is in the queue, in the store or pending.
abbrev pub known : BlockReference → List StatementBlock → BlockManager → Bool
known r queue m = queued r queue || (block_exists m.block_store r || has_key r m.blocks_pending)

-- The rounds that the queue asks for: a block that lacks something is looked at a second time.
abbrev pub rounds : BlockStore → List StatementBlock → ℕ
rounds st [] = 0
rounds st (b ∷ queue) = (if all_stored st b.includes then 1 else 2) + rounds st queue

pub all_stored-every :
    (st : BlockStore) (is : List BlockReference)
    → ((i : BlockReference) → holds i is ≡ true → block_exists st i ≡ true)
    → all_stored st is ≡ true
all_stored-every st [] h = refl
all_stored-every st (i ∷ is) h =
    let rest = all_stored-every st is (λ j k. h j (ground (arith, k))) in
    let this = h i (ground (arith, reference_eq_iff i i)) in rw (rest, this) refl

pub all_stored-holds :
    (st : BlockStore) (is : List BlockReference) (k : BlockReference)
    → all_stored st is ≡ true
    → holds k is ≡ true
    → block_exists st k ≡ true
all_stored-holds st [] k a h = cc
all_stored-holds st (i ∷ is) k a h = elim (Bool-cases (reference_eq i k)) [
  | inl e ↦
      let b : block_exists st i ≡ true = ground (arith, a) in
      subst (λ t. block_exists st t ≡ true) ((reference_eq_iff i k).0 e) b
  | inr n ↦ all_stored-holds st is k (ground (arith, a)) (ground (arith, h, n))
]

pub unstored-include :
    (st : BlockStore) (is : List BlockReference)
    → all_stored st is ≡ false
    → (i : BlockReference) × (holds i is ≡ true) × (block_exists st i ≡ false)
unstored-include st [] a = absurd (ground (arith, a))
unstored-include st (i ∷ is) a = elim (Bool-cases (block_exists st i)) [
  | inr n ↦ (i, ground (arith, reference_eq_iff i i), n)
  | inl y ↦
      let (j, h, e) = unstored-include st is (ground (arith, a, y)) in (j, ground (arith, h), e)
]

pub all_stored-grows :
    (st st' : BlockStore) (is : List BlockReference)
    → ((r : BlockReference) → block_exists st r ≡ true → block_exists st' r ≡ true)
    → all_stored st is ≡ true
    → all_stored st' is ≡ true
all_stored-grows st st' is g a = all_stored-every st' is (λ i h. g i (all_stored-holds st is i a h))

pub rounds-grows :
    (st st' : BlockStore) (queue : List StatementBlock)
    → ((r : BlockReference) → block_exists st r ≡ true → block_exists st' r ≡ true)
    → rounds st' queue ≤ rounds st queue
rounds-grows st st' [] g = omega arith
rounds-grows st st' (b ∷ queue) g =
    let rest = rounds-grows st st' queue g in
    elim (Bool-cases (all_stored st b.includes)) [
      | inl y ↦ let z = all_stored-grows st st' b.includes g y in rw (y, z) (omega arith)
      | inr n ↦ elim (Bool-cases (all_stored st' b.includes)) [
        | inl z ↦ rw (n, z) (omega arith)
        | inr z ↦ rw (n, z) (omega arith)
      ]
    ]

pub none_waited-holds :
    (is : List BlockReference) (m : BlockManager) (k : BlockReference)
    → none_waited is m ≡ true
    → holds k is ≡ true
    → has_key k m.block_references_waiting ≡ false
none_waited-holds [] m k a h = cc
none_waited-holds (i ∷ is) m k a h = elim (Bool-cases (has_key i m.block_references_waiting)) [
  | inl y ↦ absurd (ground (arith, a, y))
  | inr z ↦ elim (Bool-cases (reference_eq i k)) [
    | inl e ↦
        subst (λ t. has_key t m.block_references_waiting ≡ false) ((reference_eq_iff i k).0 e) z
    | inr n ↦ none_waited-holds is m k (ground (arith, a, z)) (ground (arith, h, n))
  ]
]

pub waited-include :
    (is : List BlockReference) (m : BlockManager)
    → none_waited is m ≡ false
    → (i : BlockReference) × (holds i is ≡ true) × (has_key i m.block_references_waiting ≡ true)
waited-include [] m a = absurd (ground (arith, a))
waited-include (i ∷ is) m a = elim (Bool-cases (has_key i m.block_references_waiting)) [
  | inl y ↦ (i, ground (arith, reference_eq_iff i i), y)
  | inr n ↦ let (j, h, e) = waited-include is m (ground (arith, a, n)) in (j, ground (arith, h), e)
]

-- A pending block for which nothing is waited has all that it includes in the store.
pub none_waited-stored :
    (n own : ℕ) (ws : List BlockReference) (m : BlockManager) (p : BlockReference)
    (b : StatementBlock)
    → IsValid n own ws m
    → lookup p m.blocks_pending ≡ some b
    → none_waited b.includes m ≡ true
    → all_stored m.block_store b.includes ≡ true
none_waited-stored n own ws m p b v l f = all_stored-every m.block_store b.includes (λ i h.
    elim (Bool-cases (block_exists m.block_store i)) [
      | inl y ↦ y
      | inr z ↦
          let k = has_key-waiting i p m.block_references_waiting (v.waits p i b l h z) in
          let d = none_waited-holds b.includes m i f h in absurd (ground (arith, k, d))
    ])
