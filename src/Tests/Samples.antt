-- ===== src/Tests/Samples.antt =====
-- Sample data: hash functions, small research parameters, a header and a machine.
use colossusx.Prelude.{ℕ, ◌+◌, ◌*◌, ◌≡◌, ◌≢◌, refl, true, false, [], replicate, some, ok, arith}
use colossusx.Prelude.Slices.{Bytes}
use colossusx.Prelude.Endian.{le, length-le, le-bytes}
use colossusx.Prelude.Int.{pos}
use colossusx.Crypto.{Crypto}
use colossusx.Spec.{
  Spec, research, any, no_precision, validate, validate_mode, initial_dag_size,
  growth_dag_size_per_epoch,
}
use colossusx.Spec.Valid.{IsTyped, IsSized, validate_iff}
use colossusx.Spec.Size.{IsDagSize}
use colossusx.Dag.{Dag, Allocation}
use colossusx.Stateless.Full.{IsReady}
use colossusx.Types.{BlockHeader, zero_hash}
use colossusx.Hash.{fnv1a64}

-- A digest of so many bytes, from a checksum; its first byte is 1.
abbrev pub digest : ℕ → Bytes → Bytes
digest n m = le n (1 + 256 * fnv1a64 m)

abbrev pub sample_crypto : Crypto
sample_crypto = record {
  sha256 = digest 32;
  sha3_512 = digest 64;
  keccak512 = digest 64;
  blake3_256 = digest 32;
  blake3_xof = λ m n. digest n m;
  length-sha256 = λ m. length-le 32 (1 + 256 * fnv1a64 m);
  length-sha3_512 = λ m. length-le 64 (1 + 256 * fnv1a64 m);
  length-keccak512 = λ m. length-le 64 (1 + 256 * fnv1a64 m);
  length-blake3_256 = λ m. length-le 32 (1 + 256 * fnv1a64 m);
  length-blake3_xof = λ m n. length-le n (1 + 256 * fnv1a64 m);
  sha256-bytes = λ m. le-bytes 32 (1 + 256 * fnv1a64 m);
  sha3_512-bytes = λ m. le-bytes 64 (1 + 256 * fnv1a64 m);
  keccak512-bytes = λ m. le-bytes 64 (1 + 256 * fnv1a64 m);
  blake3_256-bytes = λ m. le-bytes 32 (1 + 256 * fnv1a64 m);
  blake3_xof-bytes = λ m n. le-bytes n (1 + 256 * fnv1a64 m);
}

-- Four nodes at first, one more for each epoch of four blocks.
abbrev pub sample_spec : Spec
sample_spec = record {
  mode = research;
  dag_size_bytes = 256;
  initial_dag_size_bytes = 256;
  dag_growth_bytes_per_epoch = 64;
  node_size = 64;
  reads_per_hash = 2;
  epoch_blocks = 4;
  tile_size_bytes = 0;
  mat_dim = 0;
  compute_rounds = 0;
  compute_precision = no_precision;
  memory_model_required = any;
  device_execution_only = false;
  round_commit_interval = 0;
  algorithm_version = 1;
}

pub sample_spec-valid : validate sample_spec ≡ ok tt
unfolding validate validate_mode initial_dag_size growth_dag_size_per_epoch
sample_spec-valid = refl

pub sample_spec-IsTyped : IsTyped sample_spec
sample_spec-IsTyped = record {
  dag_size = omega arith;
  initial_size = omega arith;
  growth_size = omega arith;
  epoch_blocks_size = omega arith;
  reads_size = omega arith;
}

pub sample_spec-IsSized : IsSized sample_spec
sample_spec-IsSized = ((validate_iff sample_spec).0 sample_spec-valid).0

pub sample_spec-IsDagSize : IsDagSize sample_spec 256
unfolding initial_dag_size
sample_spec-IsDagSize = record {
  whole_nodes = refl;
  at_least_initial = omega arith;
  below_limit = omega arith;
  positive = omega arith;
}

abbrev pub sample_seed : Bytes
sample_seed = replicate 32 7

pub sample_seed-ne : sample_seed ≢ []
sample_seed-ne e = ground arith

-- An array that is larger than the DAG.
abbrev pub sample_allocation : Allocation
sample_allocation = record { name = []; bytes = replicate 300 1 }

abbrev pub sample_dag : Dag
sample_dag = record { spec = sample_spec; alloc = some sample_allocation; ownership = true }

pub sample_dag-IsReady : IsReady sample_dag sample_allocation
sample_dag-IsReady = record {
  valid = sample_spec-valid;
  size = sample_spec-IsDagSize;
  allocated = refl;
  large_enough = omega arith;
  array_typed = omega arith;
}

abbrev pub easy_target : Bytes
easy_target = replicate 32 255

abbrev pub sample_header : BlockHeader
sample_header = record {
  version = 1;
  algorithm_version = 1;
  height = 0;
  parent_hash = zero_hash;
  timestamp = pos 100;
  target = easy_target;
  nonce = 3;
  epoch_seed = sample_seed;
  dag_size_bytes = 256;
  tx_root = replicate 32 5;
  state_root = replicate 32 6;
}
