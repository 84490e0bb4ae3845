-- ===== src/Mysticeti/BlockStore.antt =====
-- block_store.rs: the index of the blocks. An entry stands for its block, whether that is in memory
-- or is read back from the log. `none` is a panic, where a block is inserted.
pub mod Lookup
use mathlib.Core.Option
use congestion_control.Prelude.{
  ℕ, ◌≡◌, ◌↔◌, ◌-◌, zero, suc, Bool, true, false, List, [], ◌∷◌, ◌++◌, map, Option, none, some,
  ◌==◌, ◌&&◌, ltb, max, if◌then◌else◌, arith, length, get_or, set, not, ◌||◌,
}
use congestion_control.Prelude.Maps.{Eq, Map, nat_eq, lookup, insert, lookup-insert, has_key}
use congestion_control.Mysticeti.Types.{BlockReference, StatementBlock, reference_eq, span}

abbrev pub Key : Type 0
Key = ℕ × ℕ

abbrev pub key_eq : Key → Key → Bool
key_eq a b = a.0 == b.0 && a.1 == b.1

pub key_eq_iff : (a b : Key) → (key_eq a b ≡ true) ↔ (a ≡ b)
key_eq_iff a b = ground arith

instance abbrev pub key_equality : Eq Key
key_equality = record { beq = key_eq; beq_iff = key_eq_iff }

pub record IndexEntry : Type 0 where
  pub position : ℕ
  pub block : StatementBlock

pub record BlockStore : Type 0 where
  pub index : Map ℕ (Map Key IndexEntry)
  pub own_blocks : Map ℕ ℕ
  pub highest_round : ℕ
  pub authority : ℕ
  pub last_seen_by_authority : List ℕ
  pub last_own_block : Option BlockReference

abbrev pub round_blocks : ℕ → BlockStore → Map Key IndexEntry
round_blocks round st = elim (lookup round st.index) [ none ↦ [] | some blocks ↦ blocks ]

abbrev pub author_digest : BlockReference → Key
author_digest r = (r.authority, r.digest)

unfoldable pub block_exists : BlockStore → BlockReference → Bool
block_exists st r = elim (lookup r.round st.index) [
  | none ↦ false
  | some blocks ↦ has_key (author_digest r) blocks
]

unfoldable pub get_block : BlockStore → BlockReference → Option StatementBlock
get_block st r = elim (lookup r.round st.index) [
  | none ↦ none
  | some blocks ↦ Option.map (λ (e : IndexEntry). e.block) (lookup (author_digest r) blocks)
]

abbrev values : Map Key IndexEntry → List StatementBlock
values [] = []
values ((k, e) ∷ m) = e.block ∷ values m

unfoldable pub get_blocks_by_round : BlockStore → ℕ → List StatementBlock
get_blocks_by_round st round = values (round_blocks round st)

abbrev values_of : ℕ → Map Key IndexEntry → List StatementBlock
values_of authority [] = []
values_of authority ((k, e) ∷ m) =
    if k.0 == authority then e.block ∷ values_of authority m else values_of authority m

unfoldable pub get_blocks_at_authority_round : BlockStore → ℕ → ℕ → List StatementBlock
get_blocks_at_authority_round st authority round = values_of authority (round_blocks round st)

abbrev later_own : BlockReference → Option BlockReference → Option BlockReference
later_own r none = if ltb 0 r.round then some r else none
later_own r (some l) = if ltb l.round r.round then some r else some l

-- An own block of a round that there is one of already fails the assertion.
unfoldable pub add_own_index : BlockReference → BlockStore → Option BlockStore
add_own_index r st =
    if not (r.authority == st.authority)
    then some st
    else if has_key r.round st.own_blocks
    then none
    else some (record st {
      last_own_block = later_own r st.last_own_block;
      own_blocks = insert r.round r.digest st.own_blocks;
    })

unfoldable pub update_last_seen_by_authority : BlockReference → BlockStore → Option BlockStore
update_last_seen_by_authority r st =
    if ltb r.authority (length st.last_seen_by_authority)
    then some (
        if ltb (get_or st.last_seen_by_authority r.authority 0) r.round
        then record st {
          last_seen_by_authority = set st.last_seen_by_authority r.authority r.round;
        }
        else st)
    else none

abbrev pub put_entry : BlockReference → IndexEntry → BlockStore → BlockStore
put_entry r e st = record st {
  index = insert r.round (insert (author_digest r) e (round_blocks r.round st)) st.index;
}

-- `BlockStore::insert_block`, that is `add_loaded`.
unfoldable pub insert_block : StatementBlock → ℕ → BlockStore → Option BlockStore
unfolding add_own_index update_last_seen_by_authority
insert_block block position st =
    elim (add_own_index block.reference
      (record st { highest_round = max st.highest_round block.reference.round })) [
        | none ↦ none
        | some st1 ↦
            Option.map (put_entry block.reference (record { position = position; block = block }))
              (update_last_seen_by_authority block.reference st1)
      ]
