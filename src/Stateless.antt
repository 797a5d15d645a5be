-- ===== src/Stateless.antt =====
-- colossusx/dag_stateless.go: nodes computed on demand, with no DAG in memory. The pointer is not
-- nil here; a nil one has no nodes and reads nothing.
pub mod Full
use colossusx.Prelude.{
  ℕ, Bool, not, ltb, ◌==◌, if◌then◌else◌, [], ◌++◌, length, Go, ok, err, refuse, ◌>>=◌, ◌>>◌, Error,
}
use colossusx.Prelude.Slices.{Bytes}
use colossusx.Prelude.Endian.{le}
use colossusx.Crypto.{Crypto}
use colossusx.Spec.{Spec, validate, node_count}
use colossusx.Dag.{is_strict}

pub record StatelessDag : Type 0 where
  pub spec : Spec
  pub epoch_seed : Bytes

-- `NewStatelessDAG`
unfoldable pub new_stateless_dag : Spec → Bytes → Go StatelessDag
new_stateless_dag spec epoch_seed = do
  validate spec
  refuse (length epoch_seed == 0) Error.empty_seed
  ok (record { spec = spec; epoch_seed = epoch_seed })

-- `StatelessDAG.NodeCount`, and `TileCount`, which is the same
unfoldable pub stateless_node_count : StatelessDag → Go ℕ
stateless_node_count d = node_count d.spec

module _ (c : Crypto) where
  -- `researchNode`
  unfoldable pub research_node : StatelessDag → ℕ → Bytes
  research_node d i = c.keccak512 (d.epoch_seed ++ le 8 i)

  -- `strictNode`
  unfoldable pub strict_node : StatelessDag → ℕ → Bytes
  strict_node d i = c.blake3_xof (d.epoch_seed ++ le 8 i) 64

  -- `StatelessDAG.ReadNode`
  unfoldable pub stateless_read_node : StatelessDag → ℕ → Bytes
  unfolding research_node strict_node
  stateless_read_node d i = if is_strict d.spec.mode then strict_node d i else research_node d i
