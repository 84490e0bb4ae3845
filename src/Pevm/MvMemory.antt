-- ===== src/Pevm/MvMemory.antt =====
-- pevm/crates/pevm/src/mv_memory.rs: the multi-version memory of the values that transactions write
-- and read, without its diagnostics. Each method holds the lock of its transaction's last locations.
pub mod Ordered
pub mod Entries
pub mod Pruning
pub mod Recording
pub mod Estimates
pub mod Validation
pub mod Later
mod Tests
use congestion_control.Prelude.{
  ℕ, zero, suc, ◌+◌, ◌-◌, Bool, true, false, not, ◌&&◌, List, [], ◌∷◌, ◌++◌, Option, none, some,
  ltb, ◌==◌, if◌then◌else◌, contains, length, get_or, set, replicate,
}
use congestion_control.Prelude.Maps.{Map, nat_eq, lookup, insert}
use congestion_control.Pevm.Types.{TxVersion}
use Ordered.{put, remove, below}

pub record AccountBasic : Type 0 where
  pub balance : ℕ
  pub nonce : ℕ

pub data MemoryValue : Type 0 where
  basic : AccountBasic → MemoryValue
  code_hash storage lazy_recipient lazy_sender : ℕ → MemoryValue
  self_destructed : MemoryValue

pub data MemoryEntry : Type 0 where
  written : ℕ → MemoryValue → MemoryEntry
  estimate : MemoryEntry

pub data ReadOrigin : Type 0 where
  mv_memory : TxVersion → ReadOrigin
  from_storage : ReadOrigin

abbrev pub ReadSet : Type 0
ReadSet = Map ℕ (List ReadOrigin)

abbrev pub WriteSet : Type 0
WriteSet = List (ℕ × MemoryValue)

pub record LastLocations : Type 0 where
  pub read : ReadSet
  pub write : List ℕ

abbrev pub no_locations : LastLocations
no_locations = record { read = []; write = [] }

-- A location's entries by transaction are ordered, highest first. Addresses are numbers.
pub record MvMemory : Type 0 where
  pub entries : Map ℕ (List (ℕ × MemoryEntry))
  pub last_locations : List LastLocations
  pub lazy_addresses : List ℕ

unfoldable pub estimates : List ℕ → List (ℕ × MemoryEntry)
estimates [] = []
estimates (i ∷ is) = put i estimate (estimates is)

unfoldable pub estimate_all : List (ℕ × List ℕ) → Map ℕ (List (ℕ × MemoryEntry))
estimate_all [] = []
estimate_all ((location, is) ∷ rest) = insert location (estimates is) (estimate_all rest)

unfoldable pub add_addresses : List ℕ → List ℕ → List ℕ
add_addresses known [] = known
add_addresses known (a ∷ rest) =
    add_addresses (if contains a known then known else known ++ a ∷ []) rest

-- `new`; of a location that is estimated twice the last estimate stays, so they are given last first.
unfoldable pub new : ℕ → List (ℕ × List ℕ) → List ℕ → MvMemory
new block_size estimated lazy = record {
  entries = estimate_all estimated;
  last_locations = replicate block_size no_locations;
  lazy_addresses = add_addresses [] lazy;
}

unfoldable pub add_lazy_addresses : MvMemory → List ℕ → MvMemory
add_lazy_addresses m addresses = record m {
  lazy_addresses = add_addresses m.lazy_addresses addresses;
}

unfoldable pub consume_lazy_addresses : MvMemory → MvMemory × List ℕ
consume_lazy_addresses m = (record m { lazy_addresses = [] }, m.lazy_addresses)

-- `write_set.iter().all(|(l, _)| l != prev_location)`, negated.
abbrev pub writes : WriteSet → ℕ → Bool
writes [] l = false
writes ((k, v) ∷ ws) l = if k == l then true else writes ws l

abbrev pub drop_last : List ℕ → List ℕ
drop_last [] = []
drop_last (x ∷ []) = []
drop_last (x ∷ y ∷ xs) = x ∷ drop_last (y ∷ xs)

-- `Vec::swap_remove`: the last element takes the place of the removed one.
unfoldable pub swap_remove : List ℕ → ℕ → List ℕ
swap_remove xs i = drop_last (set xs i (get_or xs (length xs - 1) 0))

-- `if let Some(mut written_transactions) = self.data.get_mut(location)`
unfoldable pub update :
    ℕ
    → (List (ℕ × MemoryEntry) → List (ℕ × MemoryEntry))
    → Map ℕ (List (ℕ × MemoryEntry))
    → Map ℕ (List (ℕ × MemoryEntry))
update location f entries = elim (lookup location entries) [
  | none ↦ entries
  | some es ↦ insert location (f es) entries
]

-- The first loop of `record`, at index `i` of the last written locations, on fuel: what the new write
-- set lacks is removed.
unfoldable pub prune :
    ℕ
    → ℕ
    → WriteSet
    → ℕ
    → Map ℕ (List (ℕ × MemoryEntry)) × List ℕ
    → Map ℕ (List (ℕ × MemoryEntry)) × List ℕ
prune zero tx ws i s = s
prune (suc fuel) tx ws i (entries, write) =
    let l = get_or write i 0 in
    elim (ltb i (length write)) [
      | false ↦ (entries, write)
      | true ↦ elim (writes ws l) [
        | true ↦ prune fuel tx ws (i + 1) (entries, write)
        | false ↦ prune fuel tx ws i (update l (remove tx) entries, swap_remove write i)
      ]
    ]

abbrev pub entries_of : Map ℕ (List (ℕ × MemoryEntry)) → ℕ → List (ℕ × MemoryEntry)
entries_of entries l = elim (lookup l entries) [ none ↦ [] | some es ↦ es ]

-- The second loop: the flag says whether a new location was written.
unfoldable pub write_all :
    TxVersion
    → WriteSet
    → Map ℕ (List (ℕ × MemoryEntry)) × List ℕ × Bool
    → Map ℕ (List (ℕ × MemoryEntry)) × List ℕ × Bool
write_all v [] s = s
write_all v ((l, value) ∷ ws) (entries, write, fresh) =
    let entries' =
      insert l (put v.tx_idx (written v.tx_incarnation value) (entries_of entries l)) entries in
    elim (contains l write) [
      | true ↦ write_all v ws (entries', write, fresh)
      | false ↦ write_all v ws (entries', write ++ l ∷ [], true)
    ]

abbrev pub last_at : MvMemory → ℕ → LastLocations
last_at m i = get_or m.last_locations i no_locations

-- `record`, which is a word of the language.
unfoldable pub record_sets : MvMemory → TxVersion → ReadSet → WriteSet → MvMemory × Bool
record_sets m v reads ws =
    let old = (last_at m v.tx_idx).write in
    let kept = prune (length old) v.tx_idx ws 0 (m.entries, old) in
    let (entries, write, fresh) = write_all v ws (kept.0, kept.1, false) in
    (
      record m {
        entries = entries;
        last_locations = set m.last_locations v.tx_idx (record { read = reads; write = write });
      },
      fresh,
    )

-- The loop over the origins of one location, against its entries from lower transactions, the
-- highest first.
unfoldable pub check_origins : List ReadOrigin → List (ℕ × MemoryEntry) → Bool
check_origins [] es = true
check_origins (from_storage ∷ os) [] = check_origins os []
check_origins (from_storage ∷ os) (e ∷ es) = false
check_origins (mv_memory v ∷ os) [] = false
check_origins (mv_memory v ∷ os) ((i, estimate) ∷ es) = false
check_origins (mv_memory v ∷ os) ((i, written n _) ∷ es) =
    if i == v.tx_idx && n == v.tx_incarnation then check_origins os es else false

-- `prior_origins.len() == 1 && prior_origins.last() == Some(&ReadOrigin::Storage)`
abbrev pub is_storage_only : List ReadOrigin → Bool
is_storage_only (from_storage ∷ []) = true
is_storage_only _ = false

unfoldable pub check_location : Map ℕ (List (ℕ × MemoryEntry)) → ℕ → ℕ → List ReadOrigin → Bool
check_location entries i l os = elim (lookup l entries) [
  | none ↦ is_storage_only os
  | some es ↦ check_origins os (below i es)
]

unfoldable pub check_reads : Map ℕ (List (ℕ × MemoryEntry)) → ℕ → ReadSet → Bool
check_reads entries i [] = true
check_reads entries i ((l, os) ∷ rest) = check_location entries i l os && check_reads entries i rest

unfoldable pub validate_read_locations : MvMemory → ℕ → Bool
validate_read_locations m i = check_reads m.entries i (last_at m i).read

unfoldable pub mark_all :
    ℕ → List ℕ → Map ℕ (List (ℕ × MemoryEntry)) → Map ℕ (List (ℕ × MemoryEntry))
mark_all i [] entries = entries
mark_all i (l ∷ ls) entries = mark_all i ls (update l (put i estimate) entries)

unfoldable pub convert_writes_to_estimates : MvMemory → ℕ → MvMemory
convert_writes_to_estimates m i = record m { entries = mark_all i (last_at m i).write m.entries }
