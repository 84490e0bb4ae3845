-- ===== src/Mysticeti/BlockManager/Tracking.antt =====
-- A whole round of block_manager.rs keeps the missing references exact.
use mathlib.Core.Option
use congestion_control.Prelude.{
  ℕ, zero, suc, ◌≡◌, ◌≢◌, ◌<◌, refl, sym, ap, ◌∙◌, subst, true, false, List, [], ◌∷◌, Option, none,
  some, ◌||◌, length, ltb, get_or, replicate, arith, Bool-cases, Option-cases, inl, inr,
}
use congestion_control.Prelude.Maps.{lookup, has_key}
use congestion_control.Mysticeti.Types.{
  BlockReference, StatementBlock, reference_eq, block_reference_eq,
}
use congestion_control.Mysticeti.BlockStore.{block_exists, insert_block}
use congestion_control.Mysticeti.BlockManager.{
  BlockManager, Environment, waiting_for, wait_all, unlock, process, step, add_blocks,
}
use congestion_control.Mysticeti.BlockManager.Lacking.{all_stored}
use congestion_control.Mysticeti.BlockManager.Includes.{wait_all-runs}
use congestion_control.Mysticeti.BlockManager.Valid.{IsForeign, IsValid}
use congestion_control.Mysticeti.BlockManager.Inserting.{inserted}
use congestion_control.Mysticeti.BlockManager.Pended.{found, pended}
use congestion_control.Mysticeti.BlockManager.Wanted.{wanted, IsTracked}
use congestion_control.Mysticeti.BlockManager.Tracked.{
  Keyed, IsTracked-wait_all, IsTracked-found, not_wanted-found, IsTracked-pended,
  IsTracked-inserted, IsTracked-unlock, IsTracked-skip,
}

pub no_result {ℓ} : {A : Type ℓ} → (a : A) → none ≢ some a
no_result a h = ground (arith, h)

pub some_first {ℓ κ} :
    {A : Type ℓ}
    → {B : Type κ} → (a a' : A) (b b' : B) → ◌≡◌ {A = Option (A × B)} (some (a, b)) (some (a', b'))
    → a ≡ a'
some_first a a' b b' h = cc

known_author : (a n : ℕ) → a < n → ltb a n ≡ true
known_author a n h = ground (arith, h)

moved :
    (m m' : BlockManager) (queue queue' : List StatementBlock)
    (done done' : List (ℕ × StatementBlock))
    → ◌≡◌ {A = Option (BlockManager × List StatementBlock × List (ℕ × StatementBlock))}
        (some (m, queue, done))
        (some (m', queue', done'))
    → IsTracked queue m
    → IsTracked queue' m'
moved m m' queue queue' done done' h t =
    let f : m ≡ m' = cc in
    let g : queue ≡ queue' = cc in subst (λ q. IsTracked q m') g (subst (IsTracked queue) f t)

pub add_blocks-none :
    (e : Environment) (fuel : ℕ) (b : StatementBlock) (queue queue' : List StatementBlock)
    (m m1 : BlockManager) (done : List (ℕ × StatementBlock))
    → step e b m queue ≡ some (m1, queue', done)
    → add_blocks e fuel queue' m1 ≡ none
    → add_blocks e (suc fuel) (b ∷ queue) m ≡ none
unfolding add_blocks
add_blocks-none e fuel b queue queue' m m1 done h k = rw (add_blocks, h, k) refl

pub none_replicated {ℓ} : {A : Type ℓ} → (n i : ℕ) (a : A) → get_or (replicate n a) i a ≡ a
none_replicated zero i a = refl
none_replicated (suc n) zero a = refl
none_replicated (suc n) (suc i) a = none_replicated n i a

module _ (e : Environment) (b : StatementBlock) (queue : List StatementBlock) where
  IsTracked-process :
      (m m' : BlockManager) (queue' : List StatementBlock)
      → Keyed m
      → IsTracked (b ∷ queue) m
      → ((k : BlockReference) → reference_eq b.reference k ≡ true → wanted k m ≡ false)
      → process e b m queue ≡ some (m', queue')
      → IsTracked queue' m'
  unfolding process
  IsTracked-process m m' queue' d t z h =
      elim (Option-cases (insert_block b (e.position m.block_store b) m.block_store)) [
        | inl x ↦ absurd (
            no_result (m', queue')
              (sym (
                  ap
                    (λ o. elim o [
                      | none ↦ none
                      | some st ↦
                          unlock (e.order (waiting_for b.reference m.block_references_waiting))
                            (inserted st b.reference m) queue
                    ])
                    x)
                ∙ h))
        | inr (st, i) ↦
            IsTracked-unlock (e.order (waiting_for b.reference m.block_references_waiting))
              (inserted st b.reference m) m' queue queue' d (IsTracked-inserted queue b m t z st)
              (sym (
                  ap
                    (λ o. elim o [
                      | none ↦ none
                      | some st ↦
                          unlock (e.order (waiting_for b.reference m.block_references_waiting))
                            (inserted st b.reference m) queue
                    ])
                    i)
                ∙ h)
      ]

  step-skip :
      (m : BlockManager)
      → (block_exists m.block_store b.reference || has_key b.reference m.blocks_pending) ≡ true
      → step e b m queue ≡ some (m, queue, [])
  unfolding step
  step-skip m k = rw (step, k) refl

  step-pended :
      (m m1 : BlockManager)
      → (block_exists m.block_store b.reference || has_key b.reference m.blocks_pending) ≡ false
      → wait_all b.includes b.reference m ≡ some (m1, false)
      → ltb b.reference.authority (length m1.missing) ≡ true
      → step e b m queue ≡ some (pended b (found b.reference m1), queue, [])
  unfolding step
  step-pended m m1 k c l = rw (step, k, c, l) refl

  step-process :
      (m m1 : BlockManager)
      → (block_exists m.block_store b.reference || has_key b.reference m.blocks_pending) ≡ false
      → wait_all b.includes b.reference m ≡ some (m1, true)
      → ltb b.reference.authority (length m1.missing) ≡ true
      → step e b m queue
        ≡ Option.map
            (λ p. (p.0, p.1, (e.position m1.block_store b, b) ∷ []))
            (process e b (found b.reference m1) queue)
  unfolding step
  step-process m m1 k c l = rw (step, k, c, l) refl

  pub IsTracked-step :
      (n own : ℕ) (m m' : BlockManager) (queue' : List StatementBlock)
      (done : List (ℕ × StatementBlock))
      → IsForeign n own b
      → IsValid n own [] m
      → IsTracked (b ∷ queue) m
      → step e b m queue ≡ some (m', queue', done)
      → IsTracked queue' m'
  IsTracked-step n own m m' queue' done f v t h =
      elim (Bool-cases
        (block_exists m.block_store b.reference || has_key b.reference m.blocks_pending)) [
          | inl y ↦
              moved m m' queue queue' [] done (sym (step-skip m y) ∙ h)
                (IsTracked-skip n own queue b m v t y)
          | inr k ↦
              let (m1, c, w) =
                wait_all-runs b.includes b.reference m
                  (λ i x. subst (λ a. i.authority < a) (sym v.authorities) (f.authors i x))
                  v.once in
              let l : ltb b.reference.authority (length m1.missing) ≡ true =
                known_author b.reference.authority (length m1.missing) (
                  subst (λ a. b.reference.authority < a) (sym (w.missing ∙ v.authorities))
                    f.author) in
              let t1 = IsTracked-found queue b m1 l (
                IsTracked-wait_all (b ∷ queue) b.includes b.reference m m1
                  (all_stored m.block_store b.includes) t c) in
              let z = not_wanted-found b.reference m1 l in
              elim (Bool-cases (all_stored m.block_store b.includes)) [
                | inr a ↦
                    moved (pended b (found b.reference m1)) m' queue queue' [] done
                      (sym (step-pended m m1 k (c ∙ ap (λ x. some (m1, x)) a) l) ∙ h)
                      (IsTracked-pended queue b (found b.reference m1) t1 z)
                | inl a ↦
                    let q = sym (step-process m m1 k (c ∙ ap (λ x. some (m1, x)) a) l) ∙ h in
                    elim (Option-cases (process e b (found b.reference m1) queue)) [
                      | inl x ↦ absurd (
                          no_result (m', queue', done)
                            (sym (
                                ap
                                  (Option.map
                                    (λ p. (p.0, p.1, (e.position m1.block_store b, b) ∷ [])))
                                  x)
                              ∙ q))
                      | inr (o, x) ↦
                          let keyed : Keyed (found b.reference m1) = λ p d y.
                            (v.foreign p d (subst (λ s. lookup p s ≡ some d) w.pending y)).0 in
                          moved o.0 m' o.1 queue' ((e.position m1.block_store b, b) ∷ []) done
                            (sym (
                                ap
                                  (Option.map
                                    (λ p. (p.0, p.1, (e.position m1.block_store b, b) ∷ [])))
                                  x)
                              ∙ q)
                            (IsTracked-process (found b.reference m1) o.0 o.1 keyed t1 z x)
                    ]
              ]
        ]
