-- ===== src/Mysticeti/BlockManager/Inserted.antt =====
-- The insertion of a block of another authority into the store, for block_manager.rs.
use congestion_control.Prelude.{
  ℕ, ◌≡◌, ◌≢◌, ◌<◌, ◌==◌, ==_iff, max, refl, true, [], some, ◌||◌, length, length-set, set, ltb,
  get_or, arith, Bool-cases, inl, inr,
}
use congestion_control.Mysticeti.Types.{
  BlockReference, StatementBlock, reference_eq, block_reference_eq,
}
use congestion_control.Mysticeti.BlockStore.{
  BlockStore, block_exists, insert_block, add_own_index, update_last_seen_by_authority, put_entry,
}
use congestion_control.Mysticeti.BlockStore.Lookup.{block_exists-get_block, get_block-insert_block}
use congestion_control.Mysticeti.Linearizer.{holds}

seen_runs :
    (r : BlockReference) (st : BlockStore)
    → r.authority < length st.last_seen_by_authority
    → (st' : BlockStore) × (update_last_seen_by_authority r st ≡ some st')
      × (st'.authority ≡ st.authority)
      × (length st'.last_seen_by_authority ≡ length st.last_seen_by_authority)
unfolding update_last_seen_by_authority
seen_runs r st h =
    let l : ltb r.authority (length st.last_seen_by_authority) ≡ true = ground (arith, h) in
    elim (Bool-cases (ltb (get_or st.last_seen_by_authority r.authority 0) r.round)) [
      | inl y ↦ (
        record st { last_seen_by_authority = set st.last_seen_by_authority r.authority r.round },
        rw (l, y) refl,
        refl,
        length-set st.last_seen_by_authority r.authority r.round,
      )
      | inr n ↦ (st, rw (l, n) refl, refl, refl)
    ]

add_foreign :
    (r : BlockReference) (st : BlockStore)
    → r.authority ≢ st.authority
    → add_own_index r st ≡ some st
unfolding add_own_index
add_foreign r st f = elim (Bool-cases (r.authority == st.authority)) [
  | inl y ↦ absurd (f ((==_iff r.authority st.authority).0 y))
  | inr n ↦ rw n refl
]

pub no_holds : (w : BlockReference) → holds w [] ≢ true
no_holds w h = ground (arith, h)

-- A block of another authority goes into the store without a panic.
pub insert_block-runs :
    (b : StatementBlock) (p : ℕ) (st : BlockStore)
    → b.reference.authority ≢ st.authority
    → b.reference.authority < length st.last_seen_by_authority
    → (st' : BlockStore) × (insert_block b p st ≡ some st')
      × (st'.authority ≡ st.authority)
      × (length st'.last_seen_by_authority ≡ length st.last_seen_by_authority)
unfolding insert_block
insert_block-runs b p st f h =
    let st0 = record st { highest_round = max st.highest_round b.reference.round } in
    let own : add_own_index b.reference st0 ≡ some st0 = add_foreign b.reference st0 f in
    let (st1, e, a, l) = seen_runs b.reference st0 h in
    (
      put_entry b.reference (record { position = p; block = b }) st1,
      rw (insert_block, own, e) refl,
      a,
      l,
    )

pub block_exists-insert_block :
    (b : StatementBlock) (p : ℕ) (st st' : BlockStore) (r : BlockReference)
    → insert_block b p st ≡ some st'
    → block_exists st' r ≡ (reference_eq b.reference r || block_exists st r)
block_exists-insert_block b p st st' r h =
    let g = get_block-insert_block b p st st' r h in
    let x = block_exists-get_block st r in
    let y = block_exists-get_block st' r in
    elim (Bool-cases (reference_eq b.reference r)) [
      | inl e ↦ ground (arith, g, x, y, e)
      | inr n ↦ ground (arith, g, x, y, n)
    ]
