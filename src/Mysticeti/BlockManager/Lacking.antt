-- ===== src/Mysticeti/BlockManager/Lacking.antt =====
-- What the loop of block_manager.rs over the includes of a block adds to the maps.
use congestion_control.Prelude.{
  ◌≡◌, ◌≤◌, ◌<◌, refl, sym, ap, ◌∙◌, subst, Bool, true, false, not, List, [], ◌∷◌, some, ◌||◌, ◌&&◌,
  ltb, length, length-set, get_or, arith, Bool-cases, inl, inr,
}
use congestion_control.Prelude.Maps.{Map, insert, has_key, lookup-insert}
use congestion_control.Mysticeti.Types.{
  BlockReference, reference_eq, reference_eq_iff, block_reference_eq,
}
use congestion_control.Mysticeti.BlockStore.{BlockStore, block_exists}
use congestion_control.Mysticeti.Linearizer.{holds}
use congestion_control.Mysticeti.Linearizer.Counting.{times}
use congestion_control.Mysticeti.BlockManager.{
  BlockManager, set_insert, waiting_for, wait, note_missing,
}
use congestion_control.Mysticeti.BlockManager.Waiting.{
  holds-set_insert, times-set_insert, waiting_for-insert,
}

abbrev pub all_stored : BlockStore → List BlockReference → Bool
all_stored st [] = true
all_stored st (i ∷ is) = all_stored st is && block_exists st i

-- What a block that includes `is` is to wait for.
abbrev pub lacks : BlockStore → List BlockReference → BlockReference → Bool
lacks st is k = holds k is && not (block_exists st k)

pub record Waited (is : List BlockReference) (r : BlockReference) (m m1 : BlockManager)
    : Type 0 where
  pub store : m1.block_store ≡ m.block_store
  pub pending : m1.blocks_pending ≡ m.blocks_pending
  pub missing : length m1.missing ≡ length m.missing
  pub waiters :
      (k w : BlockReference)
      → holds w (waiting_for k m1.block_references_waiting) ≡ (
          holds w (waiting_for k m.block_references_waiting)
          || (reference_eq r w && lacks m.block_store is k))
  pub keys :
      (k : BlockReference)
      → has_key k m1.block_references_waiting
        ≡ (has_key k m.block_references_waiting || lacks m.block_store is k)
  pub once : (k w : BlockReference) → times w (waiting_for k m1.block_references_waiting) ≤ 1
  pub unchanged : all_stored m.block_store is ≡ true → m1 ≡ m

pub has_key-insert :
    (k j : BlockReference) (rs : List BlockReference) (w : Map BlockReference (List BlockReference))
    → has_key j (insert k rs w) ≡ (reference_eq k j || has_key j w)
has_key-insert k j rs w = ground (arith, lookup-insert k j rs w)

pub wait-runs :
    (i r : BlockReference) (m : BlockManager)
    → i.authority < length m.missing
    → (m' : BlockManager) × (wait i r m ≡ some m')
      × (m'.block_store ≡ m.block_store)
      × (m'.blocks_pending ≡ m.blocks_pending)
      × (length m'.missing ≡ length m.missing)
      × (m'.block_references_waiting
          ≡ insert i
              (set_insert r (waiting_for i m.block_references_waiting))
              m.block_references_waiting)
unfolding wait
wait-runs i r m a =
    let m' : BlockManager = record m {
      block_references_waiting =
          insert i (set_insert r (waiting_for i m.block_references_waiting))
            m.block_references_waiting;
    } in
    elim (Bool-cases (has_key i m.blocks_pending)) [
      | inl y ↦ (m', rw y refl, refl, refl, refl, refl)
      | inr n ↦ elim (Bool-cases (ltb i.authority (length m.missing))) [
        | inr z ↦ absurd (ground (arith, z, a))
        | inl l ↦ (
          note_missing i m',
          rw (n, l) refl,
          refl,
          refl,
          length-set m.missing i.authority (set_insert i (get_or m.missing i.authority [])),
          refl,
        )
      ]
    ]

pub spread : (a b c d : Bool) → ((a || (b && c)) || (b && d)) ≡ (a || (b && (c || d)))
spread true b c d = refl
spread false true c d = refl
spread false false c d = refl

turn : (a b c : Bool) → c ≡ true → (a || b) ≡ (b || (a && c))
turn a b c h = ground (arith, h)

stay : (a b c : Bool) → c ≡ false → a ≡ (a || (b && c))
stay a b c h = ground (arith, h)

pub grouped : (a b c : Bool) → ((b || a) || c) ≡ (a || (b || c))
grouped a b c = ground arith

pub lacks-stored :
    (st : BlockStore) (i k : BlockReference) (is : List BlockReference)
    → block_exists st i ≡ true
    → lacks st (i ∷ is) k ≡ lacks st is k
lacks-stored st i k is h = elim (Bool-cases (reference_eq i k)) [
  | inl e ↦
      let z : block_exists st k ≡ true =
        subst (λ t. block_exists st t ≡ true) ((reference_eq_iff i k).0 e) h in
      ground (arith, e, z)
  | inr n ↦ rw n refl
]

pub lacks-missing :
    (st : BlockStore) (i k : BlockReference) (is : List BlockReference)
    → block_exists st i ≡ false
    → lacks st (i ∷ is) k ≡ (reference_eq i k || lacks st is k)
lacks-missing st i k is h = elim (Bool-cases (reference_eq i k)) [
  | inl e ↦
      let z : block_exists st k ≡ false =
        subst (λ t. block_exists st t ≡ false) ((reference_eq_iff i k).0 e) h in
      ground (arith, e, z)
  | inr n ↦ rw n refl
]

pub waiters-insert :
    (i k r j : BlockReference) (w : Map BlockReference (List BlockReference))
    → holds j (waiting_for k (insert i (set_insert r (waiting_for i w)) w))
      ≡ (holds j (waiting_for k w) || (reference_eq r j && reference_eq i k))
waiters-insert i k r j w =
    let f = waiting_for-insert i k (set_insert r (waiting_for i w)) w in
    elim (Bool-cases (reference_eq i k)) [
      | inl e ↦
          let same : i ≡ k = (reference_eq_iff i k).0 e in
          let new : waiting_for k (insert i (set_insert r (waiting_for i w)) w)
              ≡ set_insert r (waiting_for i w) =
            ground (arith, f, e) in
          ap (holds j) new
          ∙ holds-set_insert r j (waiting_for i w)
          ∙ ap (λ t. reference_eq r j || holds j (waiting_for t w)) same
          ∙ turn (reference_eq r j) (holds j (waiting_for k w)) (reference_eq i k) e
      | inr n ↦
          let new : waiting_for k (insert i (set_insert r (waiting_for i w)) w) ≡ waiting_for k w =
            ground (arith, f, n) in
          ap (holds j) new
          ∙ stay (holds j (waiting_for k w)) (reference_eq r j) (reference_eq i k) n
    ]

pub once-insert :
    (i k r j : BlockReference) (w : Map BlockReference (List BlockReference))
    → ((k w' : BlockReference) → times w' (waiting_for k w) ≤ 1)
    → times j (waiting_for k (insert i (set_insert r (waiting_for i w)) w)) ≤ 1
once-insert i k r j w o =
    let f = waiting_for-insert i k (set_insert r (waiting_for i w)) w in
    elim (Bool-cases (reference_eq i k)) [
      | inl e ↦
          subst (λ v. times j v ≤ 1) (sym (ground (arith, f, e)))
            (times-set_insert r j (waiting_for i w) (o i j))
      | inr n ↦ subst (λ v. times j v ≤ 1) (sym (ground (arith, f, n))) (o k j)
    ]
