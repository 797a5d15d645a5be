-- ===== src/Spec.antt =====
-- colossusx/spec.go: the protocol parameters. Numbers of type uint64 are kept as numbers, with the
-- wrap-around of every operation written out; string types are data types with a constructor for
-- each named constant, the empty string, and any other text.
pub mod Valid
pub mod Size
pub mod Epoch
use Prim.Native.String.{String}
use colossusx.Prelude.{
  ℕ, ◌+◌, ◌-◌, ◌*◌, ◌/◌, ◌%◌, ◌^◌, Bool, true, false, not, ◌&&◌, ◌||◌, ltb, if◌then◌else◌, Go, ok,
  err, refuse, panic_if, ◌>>=◌, ◌>>◌, Error,
}
use colossusx.Prelude.{◌==◌}

abbrev pub u64_mod : ℕ
u64_mod = 2 ^ 64

-- math.MaxUint64
abbrev pub max_u64 : ℕ
max_u64 = 2 ^ 64 - 1

abbrev pub strict_initial_dag_size_bytes : ℕ
strict_initial_dag_size_bytes = 8 * 1024 * 1024 * 1024

abbrev pub default_dag_growth_bytes_per_epoch : ℕ
default_dag_growth_bytes_per_epoch = 512 * 1024 * 1024

abbrev pub strict_node_size : ℕ
strict_node_size = 64

abbrev pub strict_reads_per_hash : ℕ
strict_reads_per_hash = 512

abbrev pub strict_epoch_blocks : ℕ
strict_epoch_blocks = 8000

pub data Mode : Type 0 where
  unset_mode strict research : Mode
  other_mode : String → Mode

pub data ComputePrecision : Type 0 where
  no_precision int8 fp16 : ComputePrecision
  other_precision : String → ComputePrecision

pub data MemoryModel : Type 0 where
  unset_memory any unified_shared : MemoryModel
  other_memory : String → MemoryModel

pub record Spec : Type 0 where
  pub mode : Mode
  pub dag_size_bytes : ℕ
  pub initial_dag_size_bytes : ℕ
  pub dag_growth_bytes_per_epoch : ℕ
  pub node_size : ℕ
  pub reads_per_hash : ℕ
  pub epoch_blocks : ℕ
  pub tile_size_bytes : ℕ
  pub mat_dim : ℕ
  pub compute_rounds : ℕ
  pub compute_precision : ComputePrecision
  pub memory_model_required : MemoryModel
  pub device_execution_only : Bool
  pub round_commit_interval : ℕ
  pub algorithm_version : ℕ

unfoldable pub strict_spec : Spec
strict_spec = record {
  mode = strict;
  dag_size_bytes = strict_initial_dag_size_bytes;
  initial_dag_size_bytes = strict_initial_dag_size_bytes;
  dag_growth_bytes_per_epoch = default_dag_growth_bytes_per_epoch;
  node_size = strict_node_size;
  reads_per_hash = strict_reads_per_hash;
  epoch_blocks = strict_epoch_blocks;
  tile_size_bytes = 4096;
  mat_dim = 16;
  compute_rounds = 64;
  compute_precision = int8;
  memory_model_required = unified_shared;
  device_execution_only = true;
  round_commit_interval = 8;
  algorithm_version = 2;
}

-- `if v != 0 { field = v }`
abbrev pub or_keep : ℕ → ℕ → ℕ
or_keep v old = if v == 0 then old else v

unfoldable pub research_spec_with_growth : ℕ → ℕ → ℕ → ℕ → Spec
unfolding strict_spec
research_spec_with_growth initial growth reads epoch_blocks =
    let s = strict_spec in
    record s {
      mode = research;
      tile_size_bytes = 0;
      mat_dim = 0;
      compute_rounds = 0;
      compute_precision = no_precision;
      memory_model_required = any;
      device_execution_only = false;
      round_commit_interval = 0;
      algorithm_version = 1;
      initial_dag_size_bytes = or_keep initial s.initial_dag_size_bytes;
      dag_size_bytes = or_keep initial s.dag_size_bytes;
      dag_growth_bytes_per_epoch = or_keep growth s.dag_growth_bytes_per_epoch;
      reads_per_hash = or_keep reads s.reads_per_hash;
      epoch_blocks = or_keep epoch_blocks s.epoch_blocks;
    }

unfoldable pub research_spec : ℕ → ℕ → ℕ → Spec
unfolding research_spec_with_growth
research_spec initial reads epoch_blocks =
    research_spec_with_growth initial default_dag_growth_bytes_per_epoch reads epoch_blocks

unfoldable pub initial_dag_size : Spec → ℕ
initial_dag_size s =
    if not (s.initial_dag_size_bytes == 0) then s.initial_dag_size_bytes else s.dag_size_bytes

unfoldable pub growth_dag_size_per_epoch : Spec → ℕ
growth_dag_size_per_epoch s =
    if not (s.dag_growth_bytes_per_epoch == 0)
    then s.dag_growth_bytes_per_epoch
    else default_dag_growth_bytes_per_epoch

abbrev pub is_unified_shared : MemoryModel → Bool
is_unified_shared unified_shared = true
is_unified_shared _ = false

-- `case ModeStrict` of the switch in `Validate`
unfoldable pub validate_strict : Spec → Go (Unit {0})
validate_strict s = do
  refuse
      (not (s.node_size == strict_node_size)
        || (not (s.reads_per_hash == strict_reads_per_hash)
            || not (s.epoch_blocks == strict_epoch_blocks)))
      Error.strict_shape
  refuse (not (s.algorithm_version == 2)) Error.strict_version
  refuse (not (is_unified_shared s.memory_model_required)) Error.strict_memory
  refuse (not s.device_execution_only) Error.strict_device
  refuse
      (s.tile_size_bytes == 0
        || (s.mat_dim == 0 || (s.compute_rounds == 0 || s.round_commit_interval == 0)))
      Error.strict_tensor
  ok tt

-- the switch; the empty mode stands for strict, and the assignment to the copy's version under
-- `case ModeResearch` has no effect
unfoldable pub validate_mode : Mode → Spec → Go (Unit {0})
unfolding validate_strict
validate_mode unset_mode s = validate_strict s
validate_mode strict s = validate_strict s
validate_mode research s = ok tt
validate_mode (other_mode t) s = err Error.unsupported_mode

-- `Spec.Validate`
unfoldable pub validate : Spec → Go (Unit {0})
unfolding validate_mode initial_dag_size growth_dag_size_per_epoch
validate s = do
  let initial = initial_dag_size s
  let growth = growth_dag_size_per_epoch s
  refuse (initial == 0) Error.initial_size_zero
  refuse (growth == 0) Error.growth_zero
  refuse (not (s.node_size == strict_node_size)) Error.node_size_wrong
  refuse (s.reads_per_hash == 0) Error.reads_zero
  refuse (s.epoch_blocks == 0) Error.epoch_blocks_zero
  refuse (not (initial % s.node_size == 0)) Error.initial_not_multiple
  refuse (not (growth % s.node_size == 0)) Error.growth_not_multiple
  validate_mode s.mode s

-- `math.MaxUint64 - (math.MaxUint64 % s.NodeSize)`
unfoldable pub saturated_size : Spec → Go ℕ
saturated_size s = do panic_if (s.node_size == 0); ok (max_u64 - max_u64 % s.node_size)

-- `Spec.DAGSizeForEpoch`. The growth is never 0, so its division does not panic.
unfoldable pub dag_size_for_epoch : Spec → ℕ → Go ℕ
unfolding initial_dag_size growth_dag_size_per_epoch saturated_size
dag_size_for_epoch s epoch =
    let initial = initial_dag_size s in
    let growth = growth_dag_size_per_epoch s in
    if initial == 0
    then ok 0
    else if growth == 0 || epoch == 0
    then ok initial
    else if ltb ((max_u64 - initial) / growth) epoch
    then saturated_size s
    else ok ((initial + epoch * growth % u64_mod) % u64_mod)

-- `Spec.DAGSizeForHeight`
unfoldable pub dag_size_for_height : Spec → ℕ → Go ℕ
unfolding dag_size_for_epoch
dag_size_for_height s height =
    if s.epoch_blocks == 0
    then dag_size_for_epoch s 0
    else dag_size_for_epoch s (height / s.epoch_blocks)

-- `Spec.ResolvedForHeight`
unfoldable pub resolved_for_height : Spec → ℕ → Go Spec
unfolding dag_size_for_height
resolved_for_height s height = do
  size ← dag_size_for_height s height
  ok (record s { dag_size_bytes = size })

-- `Spec.NodeCount`
unfoldable pub node_count : Spec → Go ℕ
unfolding dag_size_for_height
node_count s = do
  size ← if s.dag_size_bytes == 0 then dag_size_for_height s 0 else ok s.dag_size_bytes
  if s.node_size == 0 then ok 0 else ok (size / s.node_size)
