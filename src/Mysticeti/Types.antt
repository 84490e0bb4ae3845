-- ===== src/Mysticeti/Types.antt =====
-- types.rs: block references, transaction locators, statements and blocks. A digest is a number, a
-- signature and a transaction are their bytes.
use congestion_control.Prelude.{
  ℕ, suc, ◌-◌, ◌≡◌, ◌↔◌, Bool, true, List, [], ◌∷◌, ◌&&◌, ◌==◌, Option, arith, zero,
}
use congestion_control.Prelude.Maps.{Eq}

pub record BlockReference : Type 0 where
  pub authority : ℕ
  pub round : ℕ
  pub digest : ℕ

abbrev pub reference_eq : BlockReference → BlockReference → Bool
reference_eq a b = a.authority == b.authority && (a.round == b.round && a.digest == b.digest)

pub reference_eq_iff : (a b : BlockReference) → (reference_eq a b ≡ true) ↔ (a ≡ b)
reference_eq_iff a b = ground arith

instance abbrev pub block_reference_eq : Eq BlockReference
block_reference_eq = record { beq = reference_eq; beq_iff = reference_eq_iff }

pub record TransactionLocator : Type 0 where
  pub block : BlockReference
  pub offset : ℕ

pub record TransactionLocatorRange : Type 0 where
  pub block : BlockReference
  pub offset_start_inclusive : ℕ
  pub offset_end_exclusive : ℕ

pub data Vote : Type 0 where
  accept : Vote
  reject : Option TransactionLocator → Vote

pub data BaseStatement : Type 0 where
  share : List ℕ → BaseStatement
  vote : TransactionLocator → Vote → BaseStatement
  vote_range : TransactionLocatorRange → BaseStatement

pub record StatementBlock : Type 0 where
  pub reference : BlockReference
  pub includes : List BlockReference
  pub statements : List BaseStatement
  pub meta_creation_time_ns : ℕ
  pub epoch_marker : Bool
  pub signature : List ℕ

-- The numbers of a range `start..end`, in order.
abbrev pub count_up : ℕ → ℕ → List ℕ
count_up a zero = []
count_up a (suc n) = a ∷ count_up (suc a) n

abbrev pub span : ℕ → ℕ → List ℕ
span a b = count_up a (b - a)
