-- ===== src/Pevm/Node.antt =====
-- pevm/crates/pevm/src/dependency_graph.rs: transaction identifiers and graph nodes.
use congestion_control.Prelude.{ℕ, Bool, List, [], ◌&&◌, ◌==◌}

pub record TransactionId : Type 0 where
  pub id : ℕ
  pub replica : ℕ

-- The derived `==`.
abbrev pub id_eq : TransactionId → TransactionId → Bool
id_eq a b = a.id == b.id && a.replica == b.replica

pub record TransactionNode : Type 0 where
  pub id : ℕ
  pub replica : ℕ
  pub round : ℕ
  pub gas_cost : ℕ
  pub read_set : List ℕ
  pub write_set : List ℕ
  pub longest_suffix : ℕ
  pub children_indices : List ℕ
  pub parent_indices : List ℕ

abbrev pub transaction_id : TransactionNode → TransactionId
transaction_id n = record { id = n.id; replica = n.replica }

-- What a read outside the node vector gives; the source panics there.
abbrev pub no_node : TransactionNode
no_node = record {
  id = 0;
  replica = 0;
  round = 0;
  gas_cost = 0;
  read_set = [];
  write_set = [];
  longest_suffix = 0;
  children_indices = [];
  parent_indices = [];
}
