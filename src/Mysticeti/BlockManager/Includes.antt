-- ===== src/Mysticeti/BlockManager/Includes.antt =====
-- What the loop of block_manager.rs over the includes of a block does.
use congestion_control.Prelude.{
  ◌≡◌, ◌≤◌, ◌<◌, refl, sym, ap, ◌∙◌, subst, true, false, List, [], ◌∷◌, some, ◌||◌, ◌&&◌, length,
  arith, Bool-cases, inl, inr,
}
use congestion_control.Prelude.Maps.{insert, has_key}
use congestion_control.Mysticeti.Types.{
  BlockReference, reference_eq, reference_eq_iff, block_reference_eq,
}
use congestion_control.Mysticeti.BlockStore.{block_exists}
use congestion_control.Mysticeti.Linearizer.{holds}
use congestion_control.Mysticeti.Linearizer.Counting.{times}
use congestion_control.Mysticeti.BlockManager.{BlockManager, set_insert, waiting_for, wait_all}
use congestion_control.Mysticeti.BlockManager.Lacking.{
  all_stored, lacks, Waited, has_key-insert, wait-runs, spread, grouped, lacks-stored,
  lacks-missing, waiters-insert, once-insert,
}

Waited-stored :
    (i r : BlockReference) (is : List BlockReference) (m m1 : BlockManager)
    → block_exists m.block_store i ≡ true
    → Waited is r m m1
    → Waited (i ∷ is) r m m1
Waited-stored i r is m m1 h w = record {
  store = w.store;
  pending = w.pending;
  missing = w.missing;
  once = w.once;
  waiters = λ k j.
      let l = lacks-stored m.block_store i k is h in
      w.waiters k j
      ∙ ap (λ b. holds j (waiting_for k m.block_references_waiting) || (reference_eq r j && b))
          (sym l);
  keys = λ k.
      let l = lacks-stored m.block_store i k is h in
      w.keys k ∙ ap (λ b. has_key k m.block_references_waiting || b) (sym l);
  unchanged = λ a. w.unchanged (ground (arith, a));
}

Waited-missing :
    (i r : BlockReference) (is : List BlockReference) (m m' m1 : BlockManager)
    → block_exists m.block_store i ≡ false
    → (m'.block_store ≡ m.block_store)
      × (m'.blocks_pending ≡ m.blocks_pending)
      × (length m'.missing ≡ length m.missing)
      × (m'.block_references_waiting
          ≡ insert i
              (set_insert r (waiting_for i m.block_references_waiting))
              m.block_references_waiting)
    → Waited is r m' m1
    → Waited (i ∷ is) r m m1
Waited-missing i r is m m' m1 h (s, p, n, q) w = record {
  store = w.store ∙ s;
  pending = w.pending ∙ p;
  missing = w.missing ∙ n;
  once = w.once;
  waiters = λ k j.
      w.waiters k j
      ∙ ap (λ b. b || (reference_eq r j && lacks m'.block_store is k))
          (ap (λ v. holds j (waiting_for k v)) q
            ∙ waiters-insert i k r j m.block_references_waiting)
      ∙ spread (holds j (waiting_for k m.block_references_waiting)) (reference_eq r j)
          (reference_eq i k) (lacks m'.block_store is k)
      ∙ ap (λ b. holds j (waiting_for k m.block_references_waiting) || (reference_eq r j && b))
          (ap (λ v. reference_eq i k || lacks v is k) s
            ∙ sym (lacks-missing m.block_store i k is h));
  keys = λ k.
      w.keys k
      ∙ ap (λ b. b || lacks m'.block_store is k)
          (ap (has_key k) q
            ∙ has_key-insert i k (set_insert r (waiting_for i m.block_references_waiting))
                m.block_references_waiting)
      ∙ grouped (has_key k m.block_references_waiting) (reference_eq i k)
          (lacks m'.block_store is k)
      ∙ ap (λ b. has_key k m.block_references_waiting || b)
          (ap (λ v. reference_eq i k || lacks v is k) s
            ∙ sym (lacks-missing m.block_store i k is h));
  unchanged = λ a. absurd (ground (arith, a, h));
}

pub wait_all-runs :
    (is : List BlockReference) (r : BlockReference) (m : BlockManager)
    → ((i : BlockReference) → holds i is ≡ true → i.authority < length m.missing)
    → ((k w : BlockReference) → times w (waiting_for k m.block_references_waiting) ≤ 1)
    → (m1 : BlockManager) × (wait_all is r m ≡ some (m1, all_stored m.block_store is))
      × Waited is r m m1
unfolding wait_all
wait_all-runs [] r m a o = (
  m,
  refl,
  record {
    store = refl;
    pending = refl;
    missing = refl;
    waiters = λ k w. ground arith;
    keys = λ k. ground arith;
    once = o;
    unchanged = λ u. refl;
  },
)
wait_all-runs (i ∷ is) r m a o = elim (Bool-cases (block_exists m.block_store i)) [
  | inl y ↦
      let (m1, e, w) = wait_all-runs is r m (λ j h. a j (ground (arith, h))) o in
      (m1, ground (arith, y, e), Waited-stored i r is m m1 y w)
  | inr n ↦
      let (m', e', s, p, l, q) = wait-runs i r m (a i (ground (arith, reference_eq_iff i i))) in
      let (m1, e, w) =
        wait_all-runs is r m' (λ j h. rw l (a j (ground (arith, h))))
          (λ k j.
            subst (λ v. times j (waiting_for k v) ≤ 1) (sym q)
              (once-insert i k r j m.block_references_waiting o)) in
      (m1, ground (arith, n, e', e, s), Waited-missing i r is m m' m1 n (s, p, l, q) w)
]
