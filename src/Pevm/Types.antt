-- ===== src/Pevm/Types.antt =====
-- pevm/crates/pevm/src/lib.rs: the transaction versions, statuses, tasks and flags that the
-- schedulers share.
use congestion_control.Prelude.{ℕ, ◌≡◌, Bool, true, false, ◌==◌, ◌%◌}

pub data IncarnationStatus : Type 0 where
  ready_to_execute executing executed validated aborting : IncarnationStatus

pub record TxStatus : Type 0 where
  pub incarnation : ℕ
  pub status : IncarnationStatus

pub record TxVersion : Type 0 where
  pub tx_idx : ℕ
  pub tx_incarnation : ℕ

pub data Task : Type 0 where
  execution : TxVersion → Task
  validation : TxVersion → Task

-- The derived `==` on a status, at each constructor that the code compares with.
abbrev pub is_ready : IncarnationStatus → Bool
is_ready ready_to_execute = true
is_ready _ = false

abbrev pub is_executing : IncarnationStatus → Bool
is_executing executing = true
is_executing _ = false

abbrev pub is_executed : IncarnationStatus → Bool
is_executed executed = true
is_executed _ = false

abbrev pub is_validated : IncarnationStatus → Bool
is_validated validated = true
is_validated _ = false

abbrev pub is_aborting : IncarnationStatus → Bool
is_aborting aborting = true
is_aborting _ = false

-- `matches!(status, Executed | Validated)`
abbrev pub is_done : IncarnationStatus → Bool
is_done executed = true
is_done validated = true
is_done _ = false

-- The two constants of `FinishExecFlags`.
abbrev pub need_validation : ℕ
need_validation = 0

abbrev pub wrote_new_location : ℕ
wrote_new_location = 1

-- `contains` of the bitflags crate, as documented: whether every bit of the second is set in the
-- first. The code relies on it at the two constants.
pub record BitFlags : Type 0 where
  pub contains : ℕ → ℕ → Bool
  pub contains_empty : (flags : ℕ) → contains flags 0 ≡ true
  pub contains_lowest : (flags : ℕ) → contains flags 1 ≡ (flags % 2 == 1)
