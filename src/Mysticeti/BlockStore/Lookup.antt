-- ===== src/Mysticeti/BlockStore/Lookup.antt =====
-- What the block store of block_store.rs finds after an insertion.
use congestion_control.Prelude.{
  ℕ, ◌≡◌, ap, ◌∙◌, Bool, true, false, [], Option, none, some, ◌==◌, max, if◌then◌else◌, arith,
  Option-cases, Bool-cases, ==_iff, inl, inr,
}
use congestion_control.Prelude.Maps.{lookup, insert, lookup-insert, nat_eq}
use congestion_control.Mysticeti.Types.{BlockReference, StatementBlock, reference_eq}
use congestion_control.Mysticeti.BlockStore.{
  BlockStore, IndexEntry, Key, key_equality, round_blocks, author_digest, put_entry, block_exists,
  get_block, add_own_index, update_last_seen_by_authority, insert_block,
}

abbrev pub is_some {ℓ} : {A : Type ℓ} → Option A → Bool
is_some none = false
is_some (some a) = true

pub block_exists-get_block :
    (st : BlockStore) (r : BlockReference) → block_exists st r ≡ is_some (get_block st r)
unfolding block_exists get_block
block_exists-get_block st r = elim (Option-cases (lookup r.round st.index)) [
  | inl n ↦ ground (arith, n)
  | inr (m, h) ↦ elim (Option-cases (lookup (author_digest r) m)) [
    | inl n ↦ ground (arith, h, n)
    | inr (e, n) ↦ ground (arith, h, n)
  ]
]

-- Neither the own index nor the last rounds change what is found.
index-add_own_index :
    (r : BlockReference) (st st' : BlockStore)
    → add_own_index r st ≡ some st'
    → st'.index ≡ st.index
unfolding add_own_index
index-add_own_index r st st' h = ground arith

index-last_seen :
    (r : BlockReference) (st st' : BlockStore)
    → update_last_seen_by_authority r st ≡ some st'
    → st'.index ≡ st.index
unfolding update_last_seen_by_authority
index-last_seen r st st' h = ground arith

no_round_blocks :
    (st : BlockStore) (round : ℕ) (k : Key)
    → lookup round st.index ≡ none
    → lookup k (round_blocks round st) ≡ none
unfolding lookup
no_round_blocks st round k h = ap (λ o. lookup k (elim o [ none ↦ [] | some blocks ↦ blocks ])) h

get_block-index :
    (st st' : BlockStore) (r : BlockReference)
    → st'.index ≡ st.index
    → get_block st' r ≡ get_block st r
unfolding get_block
get_block-index st st' r h = ground (arith, h)

get_block-put_entry :
    (b : StatementBlock) (p : ℕ) (st : BlockStore) (r : BlockReference)
    → get_block (put_entry b.reference (record { position = p; block = b }) st) r
      ≡ (if reference_eq b.reference r then some b else get_block st r)
unfolding get_block
get_block-put_entry b p st r =
    let e : IndexEntry = record { position = p; block = b } in
    let old = round_blocks b.reference.round st in
    let outer =
      lookup-insert b.reference.round r.round (insert (author_digest b.reference) e old) st.index in
    let inner = lookup-insert (author_digest b.reference) (author_digest r) e old in
    elim (Option-cases (lookup r.round st.index)) [
      | inl n ↦ elim (Bool-cases (b.reference.round == r.round)) [
        | inl y ↦
            let same : b.reference.round ≡ r.round = (==_iff b.reference.round r.round).0 y in
            let none_yet : lookup b.reference.round st.index ≡ none = rw same n in
            ground (
              arith,
              outer,
              inner,
              n,
              none_yet,
              no_round_blocks st b.reference.round (author_digest r) none_yet,
            )
        | inr y ↦ ground (arith, outer, y)
      ]
      | inr (m, h) ↦ elim (Bool-cases (b.reference.round == r.round)) [
        | inl y ↦
            let same : b.reference.round ≡ r.round = (==_iff b.reference.round r.round).0 y in
            let there : lookup b.reference.round st.index ≡ some m = rw same h in
            ground (arith, outer, inner, h, there)
        | inr y ↦ ground (arith, outer, y)
      ]
    ]

-- After an insertion the block is found, and each other reference as before.
pub get_block-insert_block :
    (b : StatementBlock) (p : ℕ) (st st' : BlockStore) (r : BlockReference)
    → insert_block b p st ≡ some st'
    → get_block st' r ≡ (if reference_eq b.reference r then some b else get_block st r)
unfolding insert_block
get_block-insert_block b p st st' r h =
    let st0 = record st { highest_round = max st.highest_round b.reference.round } in
    elim (Option-cases (add_own_index b.reference st0)) [
      | inl n ↦ ground (arith, n)
      | inr (st1, e1) ↦ elim (Option-cases (update_last_seen_by_authority b.reference st1)) [
        | inl n ↦ ground (arith, e1, n)
        | inr (st2, e2) ↦
            let q : st' ≡ put_entry b.reference (record { position = p; block = b }) st2 =
              ground (arith, e1, e2) in
            let i =
              index-last_seen b.reference st1 st2 e2 ∙ index-add_own_index b.reference st0 st1 e1 in
            rw q (
              get_block-put_entry b p st2 r
              ∙ ap (λ o. if reference_eq b.reference r then some b else o)
                  (get_block-index st st2 r i))
      ]
    ]
