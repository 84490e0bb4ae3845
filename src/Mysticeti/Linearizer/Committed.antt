-- ===== src/Mysticeti/Linearizer/Committed.antt =====
-- What a sequence of leaders commits through the linearizer.
use congestion_control.Prelude.{
  ℕ, ◌+◌, ◌≡◌, ◌≢◌, ◌≤◌, ◌<◌, refl, sym, ap, ◌∙◌, subst, false, List, [], ◌∷◌, some, arith, length,
  not, zero_or_pos, count_if-le-length, Bool-cases, ◌⊎◌, inl, inr,
}
use congestion_control.Mysticeti.Types.{
  BlockReference, StatementBlock, reference_eq, reference_eq_iff,
}
use congestion_control.Mysticeti.BlockStore.{BlockStore, get_block}
use congestion_control.Mysticeti.Linearizer.{
  CommittedSubDag, holds, collect_sub_dag, sub_dag, sorted_dag, handle_commit,
}
use congestion_control.Mysticeti.Linearizer.Counting.{
  times, occurs, holds-times, not_holds-times, AllBlocks, AllBlocks-occurs, AllBlocks-sort_by_round,
  occurs-sort_by_round, IsSortedFrom, sort_by_round-IsSortedFrom,
}
use congestion_control.Mysticeti.Linearizer.Collecting.{
  IsClosed, Reaches, itself, further, Included, Included-mono, InHistory, collect_lem,
}

-- The committed references hold the histories of their blocks.
abbrev pub IsWhole : BlockStore → List BlockReference → Type 0
IsWhole st cs =
    (r : BlockReference) (b : StatementBlock)
    → 0 < times r cs
    → get_block st r ≡ some b
    → Included cs b

abbrev pub occurs_in : BlockReference → List CommittedSubDag → ℕ
occurs_in r [] = 0
occurs_in r (d ∷ ds) = occurs r d.blocks + occurs_in r ds

-- The leaders are in the store, not committed, different and in the order of their rounds.
abbrev pub AreReady : BlockStore → List BlockReference → List StatementBlock → Type 0
AreReady st cs [] = Unit {0}
AreReady st cs (l ∷ ls) =
    (get_block st l.reference ≡ some l)
    × (holds l.reference cs ≡ false)
    × AllBlocks (λ m. (l.reference ≢ m.reference) × (l.reference.round ≤ m.reference.round)) ls
    × AreReady st cs ls

-- Each sub-dag is of its leader: blocks of its history, by round.
abbrev pub AreSubDags : BlockStore → List StatementBlock → List CommittedSubDag → Type 0
AreSubDags st [] [] = Unit {0}
AreSubDags st (l ∷ ls) [] = ⊥
AreSubDags st [] (d ∷ ds) = ⊥
AreSubDags st (l ∷ ls) (d ∷ ds) =
    (d.anchor ≡ l.reference)
    × AllBlocks (InHistory st l) d.blocks
    × IsSortedFrom 0 d.blocks
    × AreSubDags st ls ds

zero-holds : (r : BlockReference) (cs : List BlockReference) → times r cs ≡ 0 → holds r cs ≡ false
zero-holds r cs z = elim (Bool-cases (holds r cs)) [
  | inl y ↦ let t = holds-times r cs y in absurd (omega arith)
  | inr n ↦ n
]

some-inj : (a b : StatementBlock) → some a ≡ some b → a ≡ b
some-inj a b h = cc

leader_single :
    (l r : BlockReference) (cs : List BlockReference)
    → holds l cs ≡ false
    → times r cs ≤ 1
    → times r (l ∷ cs) ≤ 1
leader_single l r cs n k = elim (Bool-cases (reference_eq l r)) [
  | inl e ↦
      let same : l ≡ r = (reference_eq_iff l r).0 e in
      let z : times r cs ≡ 0 = subst (λ t. times t cs ≡ 0) same (not_holds-times l cs n) in
      ground (arith, e, z)
  | inr e ↦ ground (arith, e)
]

AllBlocks-both :
    (P Q : StatementBlock → Type 0) (bs : List StatementBlock)
    → AllBlocks P bs
    → AllBlocks Q bs
    → AllBlocks (λ b. P b × Q b) bs
AllBlocks-both P Q [] h k = tt
AllBlocks-both P Q (b ∷ bs) h k = ((h.0, k.0), AllBlocks-both P Q bs h.1 k.1)

module _ (st : BlockStore) (us : List BlockReference) (closed : IsClosed st us) where
  Reaches-stored :
      (l b : StatementBlock)
      → get_block st l.reference ≡ some l
      → Reaches st l b
      → get_block st b.reference ≡ some b
  Reaches-stored l b g itself = g
  Reaches-stored l b g (further i d h e k) =
      subst (λ r. get_block st r ≡ some b) (sym (closed.found i b k)) k

  -- Below a block of the store there are only lower rounds.
  Reaches-round :
      (l b : StatementBlock)
      → get_block st l.reference ≡ some l
      → Reaches st l b
      → (b ≡ l) ⊎ (b.reference.round < l.reference.round)
  Reaches-round l b g itself = inl refl
  Reaches-round l b g (further {b = a} i d h e k) =
      let (d', g', low) = closed.included a.reference a i (Reaches-stored l a g h) e in
      let same = ap (λ (r : BlockReference). r.round) (closed.found i b k) in
      elim (Reaches-round l a g h) [
        | inl q ↦ let q' = ap (λ (x : StatementBlock). x.reference.round) q in inr (omega arith)
        | inr o ↦ inr (omega arith)
      ]

  -- A later leader is not in what an earlier one commits.
  later_leader :
      (l m : StatementBlock) (cs cs' : List BlockReference) (ts : List StatementBlock)
      → get_block st l.reference ≡ some l
      → AllBlocks (InHistory st l) ts
      → ((r : BlockReference) → times r cs' ≡ times r cs + occurs r ts)
      → (l.reference ≢ m.reference) × (l.reference.round ≤ m.reference.round)
      → holds m.reference cs ≡ false
      → holds m.reference cs' ≡ false
  later_leader l m cs cs' ts g history total apart n =
      zero-holds m.reference cs' (elim (zero_or_pos (occurs m.reference ts)) [
        | inl z ↦
            let t = total m.reference in let u = not_holds-times m.reference cs n in omega arith
        | inr o ↦
            let (b, k, same) = AllBlocks-occurs (InHistory st l) ts m.reference history o in
            let rounds = ap (λ (r : BlockReference). r.round) same in
            elim (Reaches-round l b g k.1) [
              | inl e ↦ absurd (apart.0 (ap (λ (x : StatementBlock). x.reference) (sym e) ∙ same))
              | inr low ↦ absurd (omega arith)
            ]
      ])

  still_ready :
      (l : StatementBlock) (cs cs' : List BlockReference) (ts ls : List StatementBlock)
      → get_block st l.reference ≡ some l
      → AllBlocks (InHistory st l) ts
      → ((r : BlockReference) → times r cs' ≡ times r cs + occurs r ts)
      → AllBlocks (λ m. (l.reference ≢ m.reference) × (l.reference.round ≤ m.reference.round)) ls
      → AreReady st cs ls
      → AreReady st cs' ls
  still_ready l cs cs' ts [] g history total apart ready = tt
  still_ready l cs cs' ts (m ∷ ls) g history total apart ready = (
    ready.0,
    later_leader l m cs cs' ts g history total apart.0 ready.1,
    ready.2,
    still_ready l cs cs' ts ls g history total apart.1 ready.3,
  )

  -- One leader.
  record Collects (l : StatementBlock) (cs cs' : List BlockReference) (ts : List StatementBlock)
      : Type 0 where
    total : (r : BlockReference) → times r cs' ≡ times r cs + occurs r ts
    single : (r : BlockReference) → times r cs ≤ 1 → times r cs' ≤ 1
    whole : IsWhole st cs → IsWhole st cs'
    history : AllBlocks (InHistory st l) ts

  collect_sub_dag_lem :
      (fuel : ℕ) (l : StatementBlock) (cs : List BlockReference)
      → length us + 1 < fuel
      → get_block st l.reference ≡ some l
      → holds l.reference cs ≡ false
      → (cs' : List BlockReference) × (ts : List StatementBlock) × (collect_sub_dag fuel st l cs
          ≡ some (cs', sub_dag l.reference ts))
        × Collects l cs cs' ts
  unfolding collect_sub_dag
  collect_sub_dag_lem fuel l cs h g n =
      let bound = count_if-le-length (λ u. not (holds u (l.reference ∷ cs))) us in
      let (cs', ts, q, c) =
        collect_lem st us closed l fuel (l.reference ∷ cs) (l ∷ []) [] (omega arith)
          ((g, itself), tt) tt tt in
      let total : (r : BlockReference) → times r cs' ≡ times r cs + occurs r ts =
        λ r. let t = c.conserved r in omega arith in
      (
        cs',
        ts,
        ground (arith, n, q),
        record {
          total = total;
          single = λ r k. c.single r (leader_single l.reference r cs n k);
          whole = λ w r b t k. elim (zero_or_pos (times r cs)) [
            | inr p ↦ Included-mono cs cs' b (λ s. let u = total s in omega arith) (w r b p k)
            | inl z ↦
                let u = total r in
                let (d, i, same) =
                  AllBlocks-occurs _ ts r
                    (AllBlocks-both (InHistory st l) (Included cs') ts c.history c.whole)
                    (omega arith) in
                let e : get_block st r ≡ some d = subst (λ x. get_block st x ≡ some d) same i.0.0 in
                let f : d ≡ b = some-inj d b (sym e ∙ k) in subst (Included cs') f i.1
          ];
          history = c.history;
        },
      )

-- The linearizer ends without a panic, over a store of whole histories with one round for each of its
-- blocks and two more, for leaders of the store that are new, different and in the order of their rounds.
-- Each sub-dag is of its leader, holds blocks of the leader's history and is in the order of their rounds. What
-- is committed afterwards is what was committed before and what the sub-dags hold; no block is committed
-- twice, if none was; and it holds the histories of its blocks, if it did.
pub handle_commit_lem :
    (st : BlockStore) (us : List BlockReference) (fuel : ℕ) (ls : List StatementBlock)
    (cs : List BlockReference)
    → IsClosed st us
    → length us + 1 < fuel
    → AreReady st cs ls
    → (cs' : List BlockReference) × (ds : List CommittedSubDag) × (handle_commit fuel st ls cs
        ≡ some (cs', ds))
      × AreSubDags st ls ds
      × ((r : BlockReference) → times r cs' ≡ times r cs + occurs_in r ds)
      × ((r : BlockReference) → times r cs ≤ 1 → times r cs' ≤ 1)
      × (IsWhole st cs → IsWhole st cs')
unfolding handle_commit
handle_commit_lem st us fuel [] cs closed h ready =
    (cs, [], refl, tt, λ r. omega arith, λ r k. k, λ w. w)
handle_commit_lem st us fuel (l ∷ ls) cs closed h ready =
    let (cs1, ts, q1, c) = collect_sub_dag_lem st us closed fuel l cs h ready.0 ready.1 in
    let ready' =
      still_ready st us closed l cs cs1 ts ls ready.0 c.history c.total ready.2 ready.3 in
    let (cs', ds, q, dags, total, single, whole) =
      handle_commit_lem st us fuel ls cs1 closed h ready' in
    (
      cs',
      sorted_dag (sub_dag l.reference ts) ∷ ds,
      ground (arith, q1, q),
      (
        refl,
        AllBlocks-sort_by_round (InHistory st l) ts c.history,
        sort_by_round-IsSortedFrom ts,
        dags,
      ),
      λ r. let s = occurs-sort_by_round r ts in let t = total r in let u = c.total r in omega arith,
      λ r k. single r (c.single r k),
      λ w. whole (c.whole w),
    )
