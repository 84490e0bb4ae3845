-- ===== src/Mysticeti/BlockManager/Wanted.antt =====
-- What the parts of a round of block_manager.rs do to the references that are missing.
use congestion_control.Prelude.{
  ◌≡◌, ◌==◌, ==_iff, refl, sym, ap, ◌∙◌, subst, Bool, true, false, not, List, [], ◌∷◌, some, ◌||◌,
  ◌&&◌, length, get_or, get_or-set, ltb, arith, Bool-cases, inl, inr,
}
use congestion_control.Prelude.Maps.{insert, has_key}
use congestion_control.Mysticeti.Types.{
  BlockReference, StatementBlock, reference_eq, reference_eq_iff, block_reference_eq,
}
use congestion_control.Mysticeti.Linearizer.{holds}
use congestion_control.Mysticeti.BlockManager.{
  BlockManager, set_insert, set_remove, waiting_for, note_missing, wait,
}
use congestion_control.Mysticeti.BlockManager.Waiting.{holds-set_insert}
use congestion_control.Mysticeti.BlockManager.Lacking.{waiters-insert}
use congestion_control.Mysticeti.BlockManager.Valid.{queued}
use congestion_control.Mysticeti.BlockManager.Pended.{found}

-- A reference is among those that are to be fetched.
abbrev pub wanted : BlockReference → BlockManager → Bool
wanted r m = holds r (get_or m.missing r.authority [])

-- What is missing is waited for and not pending, and the other way round, but for what is in the queue.
pub record IsTracked (queue : List StatementBlock) (m : BlockManager) : Type 0 where
  pub awaited :
      (r : BlockReference)
      → wanted r m ≡ true
      → ((w : BlockReference) × (holds w (waiting_for r m.block_references_waiting) ≡ true))
        × (has_key r m.blocks_pending ≡ false)
  pub asked :
      (r w : BlockReference)
      → holds w (waiting_for r m.block_references_waiting) ≡ true
      → has_key r m.blocks_pending ≡ false
      → (wanted r m || queued r queue) ≡ true

holds-set_remove :
    (r w : BlockReference) (rs : List BlockReference)
    → holds w (set_remove r rs) ≡ (not (reference_eq r w) && holds w rs)
unfolding set_remove
holds-set_remove r w [] = ground arith
holds-set_remove r w (c ∷ rs) = ground (
  arith,
  reference_eq_iff r w,
  reference_eq_iff c r,
  reference_eq_iff c w,
  holds-set_remove r w rs,
)

-- The set of an author is written, that of another author is as it was.
other_author :
    (i r : BlockReference) → (i.authority == r.authority) ≡ false → reference_eq i r ≡ false
other_author i r h = ground (arith, h)

wanted-noted :
    (i r : BlockReference) (m : BlockManager)
    → ltb i.authority (length m.missing) ≡ true
    → wanted r (note_missing i m) ≡ (reference_eq i r || wanted r m)
wanted-noted i r m l =
    let g =
      get_or-set m.missing i.authority r.authority (set_insert i (get_or m.missing i.authority []))
        [] in
    elim (Bool-cases (i.authority == r.authority)) [
      | inl y ↦
          let s : get_or (note_missing i m).missing r.authority []
              ≡ set_insert i (get_or m.missing i.authority []) =
            ground (arith, g, y, l) in
          ap (holds r) s
          ∙ holds-set_insert i r (get_or m.missing i.authority [])
          ∙ ap (λ a. reference_eq i r || holds r (get_or m.missing a []))
              ((==_iff i.authority r.authority).0 y)
      | inr n ↦
          let s : get_or (note_missing i m).missing r.authority []
              ≡ get_or m.missing r.authority [] =
            ground (arith, g, n) in
          ap (holds r) s ∙ ap (λ b. b || wanted r m) (sym (other_author i r n))
    ]

pub wanted-found :
    (i r : BlockReference) (m : BlockManager)
    → ltb i.authority (length m.missing) ≡ true
    → wanted r (found i m) ≡ (not (reference_eq i r) && wanted r m)
wanted-found i r m l =
    let g =
      get_or-set m.missing i.authority r.authority (set_remove i (get_or m.missing i.authority []))
        [] in
    elim (Bool-cases (i.authority == r.authority)) [
      | inl y ↦
          let s : get_or (found i m).missing r.authority []
              ≡ set_remove i (get_or m.missing i.authority []) =
            ground (arith, g, y, l) in
          ap (holds r) s
          ∙ holds-set_remove i r (get_or m.missing i.authority [])
          ∙ ap (λ a. not (reference_eq i r) && holds r (get_or m.missing a []))
              ((==_iff i.authority r.authority).0 y)
      | inr n ↦
          let s : get_or (found i m).missing r.authority [] ≡ get_or m.missing r.authority [] =
            ground (arith, g, n) in
          ap (holds r) s ∙ ap (λ b. not b && wanted r m) (sym (other_author i r n))
    ]

without : (a b c : Bool) → c ≡ false → (a || (b && c)) ≡ true → a ≡ true
without a b c n h = ground (arith, n, h)

always : (a b c : Bool) → b ≡ true → c ≡ true → (a || (b && c)) ≡ true
always a b c h k = ground (arith, h, k)

abbrev waits_too : BlockReference → BlockReference → BlockManager → BlockManager
waits_too i r m = record m {
  block_references_waiting =
      insert i (set_insert r (waiting_for i m.block_references_waiting)) m.block_references_waiting;
}

module _ (queue : List StatementBlock) (i r : BlockReference) (m : BlockManager)
    (t : IsTracked queue m) where
  IsTracked-waits : has_key i m.blocks_pending ≡ true → IsTracked queue (waits_too i r m)
  IsTracked-waits p = record {
    awaited = λ k h.
        let ((w, a), b) = t.awaited k h in
        let q = waiters-insert i k r w m.block_references_waiting in
        ((w, q ∙ ground (arith, a)), b);
    asked = λ k w h b.
        let q = waiters-insert i k r w m.block_references_waiting in
        elim (Bool-cases (reference_eq i k)) [
          | inl y ↦
              let p' : has_key k m.blocks_pending ≡ true =
                subst (λ x. has_key x m.blocks_pending ≡ true) ((reference_eq_iff i k).0 y) p in
              absurd (ground (arith, p', b))
          | inr n ↦
              t.asked k w
                (without (holds w (waiting_for k m.block_references_waiting)) (reference_eq r w)
                  (reference_eq i k) n (sym q ∙ h))
                b
        ];
  }

  IsTracked-noted :
      has_key i m.blocks_pending ≡ false
      → ltb i.authority (length m.missing) ≡ true
      → IsTracked queue (note_missing i (waits_too i r m))
  IsTracked-noted p l = record {
    awaited = λ k h.
        let s = wanted-noted i k (waits_too i r m) l in
        elim (Bool-cases (reference_eq i k)) [
          | inl y ↦
              let p' : has_key k m.blocks_pending ≡ false =
                subst (λ x. has_key x m.blocks_pending ≡ false) ((reference_eq_iff i k).0 y) p in
              let q = waiters-insert i k r r m.block_references_waiting in
              (
                (
                  r,
                  q
                      ∙ always (holds r (waiting_for k m.block_references_waiting))
                          (reference_eq r r) (reference_eq i k) ((reference_eq_iff r r).1 refl) y,
                ),
                p',
              )
          | inr n ↦
              let ((w, a), b) = t.awaited k (ground (arith, s, n, h)) in
              let q = waiters-insert i k r w m.block_references_waiting in
              ((w, q ∙ ground (arith, a)), b)
        ];
    asked = λ k w h b.
        let s = wanted-noted i k (waits_too i r m) l in
        let q = waiters-insert i k r w m.block_references_waiting in
        elim (Bool-cases (reference_eq i k)) [
          | inl y ↦ ap (λ x. x || queued k queue) s ∙ ground (arith, y)
          | inr n ↦
              let u =
                t.asked k w
                  (without (holds w (waiting_for k m.block_references_waiting)) (reference_eq r w)
                    (reference_eq i k) n (sym q ∙ h))
                  b in
              ap (λ x. x || queued k queue) s ∙ ground (arith, n, u)
        ];
  }

  pub IsTracked-wait : (m' : BlockManager) → wait i r m ≡ some m' → IsTracked queue m'
  unfolding wait
  IsTracked-wait m' h = elim (Bool-cases (has_key i m.blocks_pending)) [
    | inl y ↦
        let e : waits_too i r m ≡ m' = ground (arith, y, h) in
        subst (IsTracked queue) e (IsTracked-waits y)
    | inr n ↦ elim (Bool-cases (ltb i.authority (length m.missing))) [
      | inl l ↦
          let e : note_missing i (waits_too i r m) ≡ m' = ground (arith, n, l, h) in
          subst (IsTracked queue) e (IsTracked-noted n l)
      | inr x ↦ absurd (ground (arith, n, x, h))
    ]
  ]
