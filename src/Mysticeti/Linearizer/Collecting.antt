-- ===== src/Mysticeti/Linearizer/Collecting.antt =====
-- What the linearizer collects from a leader, over a block store that holds whole histories.
use congestion_control.Prelude.{
  ℕ, zero, suc, ◌+◌, ◌≡◌, ◌≤◌, ◌<◌, refl, sym, ◌∙◌, subst, true, false, List, [], ◌∷◌, ◌++◌, some,
  arith, length, Bool-cases, inl, inr,
}
use congestion_control.Mysticeti.Types.{
  BlockReference, StatementBlock, reference_eq, reference_eq_iff,
}
use congestion_control.Mysticeti.BlockStore.{BlockStore, get_block}
use congestion_control.Mysticeti.Linearizer.{holds, visit, collect}
use congestion_control.Mysticeti.Linearizer.Counting.{
  times, occurs, holds-times, not_holds-times, occurs-append, free, free-lt, AllBlocks,
  AllBlocks-snoc, AllBlocks-mono,
}

-- The blocks of a store are found by their references, which are among the given ones, and so are
-- the blocks that they include, which are of lower rounds.
pub record IsClosed (st : BlockStore) (us : List BlockReference) : Type 0 where
  pub found : (r : BlockReference) (b : StatementBlock) → get_block st r ≡ some b → b.reference ≡ r
  pub listed :
      (r : BlockReference) (b : StatementBlock) → get_block st r ≡ some b → holds r us ≡ true
  pub included :
      (r : BlockReference) (b : StatementBlock) (i : BlockReference)
      → get_block st r ≡ some b
      → holds i b.includes ≡ true
      → (d : StatementBlock) × (get_block st i ≡ some d) × (i.round < b.reference.round)

-- The history of a block.
pub data Reaches (st : BlockStore) (l : StatementBlock) : StatementBlock → Type 0 where
  itself : Reaches st l l
  further :
      {b : StatementBlock} (i : BlockReference) (d : StatementBlock)
      → Reaches st l b
      → holds i b.includes ≡ true
      → get_block st i ≡ some d
      → Reaches st l d

-- All that a block includes is committed.
abbrev pub Included : List BlockReference → StatementBlock → Type 0
Included cs b = (i : BlockReference) → holds i b.includes ≡ true → 0 < times i cs

pub Included-mono :
    (cs ds : List BlockReference) (b : StatementBlock)
    → ((r : BlockReference) → times r cs ≤ times r ds)
    → Included cs b
    → Included ds b
Included-mono cs ds b le h i e = let t = h i e in let u = le i in omega arith

module _ (st : BlockStore) (i : BlockReference) (d : StatementBlock) (is cs : List BlockReference)
    (bs : List StatementBlock) (g : get_block st i ≡ some d) where
  visit_old : holds i cs ≡ true → visit st (i ∷ is) cs bs ≡ visit st is cs bs
  unfolding visit
  visit_old h = ground (arith, g, h)

  visit_new : holds i cs ≡ false → visit st (i ∷ is) cs bs ≡ visit st is (i ∷ cs) (d ∷ bs)
  unfolding visit
  visit_new h = ground (arith, g, h)

module _ (st : BlockStore) (us : List BlockReference) (closed : IsClosed st us)
    (P : StatementBlock → Type 0) where
  -- What a visit leaves: each new reference once, with its block on the stack.
  pub record Visited (is cs : List BlockReference) (bs : List StatementBlock)
      (cs' : List BlockReference) (bs' : List StatementBlock) : Type 0 where
    pub conserved : (r : BlockReference) → times r cs' + occurs r bs ≡ times r cs + occurs r bs'
    pub single : (r : BlockReference) → times r cs ≤ 1 → times r cs' ≤ 1
    pub kept : (r : BlockReference) → times r cs ≤ times r cs'
    pub covered : (i : BlockReference) → holds i is ≡ true → 0 < times i cs'
    pub shrinking : free us cs' + length bs' ≤ free us cs + length bs
    pub stacked : AllBlocks P bs'

  visit_lem :
      (is cs : List BlockReference) (bs : List StatementBlock)
      → ((i : BlockReference)
          → holds i is ≡ true
          → (d : StatementBlock) × (get_block st i ≡ some d) × P d)
      → AllBlocks P bs
      → (cs' : List BlockReference) × (bs' : List StatementBlock) × (visit st is cs bs
          ≡ some (cs', bs'))
        × Visited is cs bs cs' bs'
  unfolding visit
  visit_lem [] cs bs k a = (
    cs,
    bs,
    refl,
    record {
      conserved = λ r. refl;
      single = λ r h. h;
      kept = λ r. omega arith;
      covered = λ i h. cc;
      shrinking = omega arith;
      stacked = a;
    },
  )
  visit_lem (i ∷ is) cs bs k a =
      let (d, g, p) = k i (ground (arith, reference_eq_iff i i)) in
      let k' = λ (j : BlockReference) (h : holds j is ≡ true). k j (ground (arith, h)) in
      elim (Bool-cases (holds i cs)) [
        | inl old ↦
            let (cs', bs', q, v) = visit_lem is cs bs k' a in
            (
              cs',
              bs',
              visit_old st i d is cs bs g old ∙ q,
              record {
                conserved = v.conserved;
                single = v.single;
                kept = v.kept;
                covered = λ j h. elim (Bool-cases (reference_eq i j)) [
                  | inl e ↦
                      let same : i ≡ j = (reference_eq_iff i j).0 e in
                      let t = holds-times i cs old in
                      let u = v.kept i in subst (λ r. 0 < times r cs') same (omega arith)
                  | inr e ↦ v.covered j (ground (arith, e))
                ];
                shrinking = v.shrinking;
                stacked = v.stacked;
              },
            )
        | inr new ↦
            let (cs', bs', q, v) = visit_lem is (i ∷ cs) (d ∷ bs) k' (p, a) in
            (
              cs',
              bs',
              visit_new st i d is cs bs g new ∙ q,
              record {
                conserved = λ r.
                    let f = closed.found i d g in
                    let u = v.conserved r in let u' = rw f at u in omega arith;
                single = λ r h. v.single r (elim (Bool-cases (reference_eq i r)) [
                  | inl e ↦
                      let same : i ≡ r = (reference_eq_iff i r).0 e in
                      let z : times r cs ≡ 0 =
                        subst (λ t. times t cs ≡ 0) same (not_holds-times i cs new) in
                      ground (arith, e, z)
                  | inr e ↦ ground (arith, e, h)
                ]);
                kept = λ r. let u = v.kept r in omega arith;
                covered = λ j h. elim (Bool-cases (reference_eq i j)) [
                  | inl e ↦ let u = v.kept j in ground (arith, e, u)
                  | inr e ↦ v.covered j (ground (arith, e))
                ];
                shrinking =
                    let l = free-lt i us cs (closed.listed i d g) new in
                    let u = v.shrinking in omega arith;
                stacked = v.stacked;
              },
            )
      ]

-- A block of the store, in the history of another.
abbrev pub InHistory : BlockStore → StatementBlock → StatementBlock → Type 0
InHistory st l b = (get_block st b.reference ≡ some b) × Reaches st l b

module _ (st : BlockStore) (us : List BlockReference) (closed : IsClosed st us)
    (l : StatementBlock) where
  -- What the loop makes of the committed references, the stack and the blocks to commit.
  pub record Collected (cs : List BlockReference) (bs ts : List StatementBlock)
      (cs' : List BlockReference) (ts' : List StatementBlock) : Type 0 where
    pub conserved :
        (r : BlockReference) → times r cs' + (occurs r bs + occurs r ts) ≡ times r cs + occurs r ts'
    pub single : (r : BlockReference) → times r cs ≤ 1 → times r cs' ≤ 1
    pub kept : (r : BlockReference) → times r cs ≤ times r cs'
    pub history : AllBlocks (InHistory st l) ts'
    pub whole : AllBlocks (Included cs') ts'

  includes_in :
      (x : StatementBlock)
      → InHistory st l x
      → (i : BlockReference) → holds i x.includes ≡ true
      → (d : StatementBlock) × (get_block st i ≡ some d) × InHistory st l d
  includes_in x k i h =
      let (d, g, low) = closed.included x.reference x i k.0 h in
      let self : get_block st d.reference ≡ some d =
        subst (λ r. get_block st r ≡ some d) (sym (closed.found i d g)) g in
      (d, g, (self, further i d k.1 h g))

  collect_step :
      (fuel : ℕ) (x : StatementBlock) (cs cs' : List BlockReference)
      (bs bs' ts : List StatementBlock)
      → visit st x.includes cs bs ≡ some (cs', bs')
      → collect (suc fuel) st cs (x ∷ bs) ts ≡ collect fuel st cs' bs' (ts ++ x ∷ [])
  unfolding collect
  collect_step fuel x cs cs' bs bs' ts e = ground (arith, e)

  pub collect_lem :
      (fuel : ℕ) (cs : List BlockReference) (bs ts : List StatementBlock)
      → free us cs + length bs < fuel
      → AllBlocks (InHistory st l) bs
      → AllBlocks (InHistory st l) ts
      → AllBlocks (Included cs) ts
      → (cs' : List BlockReference) × (ts' : List StatementBlock) × (collect fuel st cs bs ts
          ≡ some (cs', ts'))
        × Collected cs bs ts cs' ts'
  unfolding collect
  collect_lem zero cs bs ts h a b c = absurd (omega arith)
  collect_lem (suc fuel) cs [] ts h a b c = (
    cs,
    ts,
    refl,
    record {
      conserved = λ r. omega arith;
      single = λ r k. k;
      kept = λ r. omega arith;
      history = b;
      whole = c;
    },
  )
  collect_lem (suc fuel) cs (x ∷ bs) ts h a b c =
      let (cs1, bs1, q1, v) =
        visit_lem st us closed (InHistory st l) x.includes cs bs (includes_in x a.0) a.1 in
      let shr = v.shrinking in
      let (cs', ts', q, w) =
        collect_lem fuel cs1 bs1 (ts ++ x ∷ []) (omega arith) v.stacked
          (AllBlocks-snoc (InHistory st l) ts x b a.0)
          (AllBlocks-snoc (Included cs1) ts x
            (AllBlocks-mono (Included cs) (Included cs1) ts (λ d. Included-mono cs cs1 d v.kept) c)
            v.covered) in
      (
        cs',
        ts',
        collect_step fuel x cs cs1 bs bs1 ts q1 ∙ q,
        record {
          conserved = λ r.
              let s = occurs-append r ts (x ∷ []) in
              let t = w.conserved r in let u = v.conserved r in omega arith;
          single = λ r k. w.single r (v.single r k);
          kept = λ r. let t = w.kept r in let u = v.kept r in omega arith;
          history = w.history;
          whole = w.whole;
        },
      )
