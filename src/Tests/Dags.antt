-- ===== src/Tests/Dags.antt =====
-- The theorems on the DAG and the hashes at sample data.
use colossusx.Prelude.{ℕ, ◌<◌, ◌≡◌, ◌↔◌, replicate, true, some, ok, ◌>>=◌, arith}
use colossusx.Spec.{Spec, strict, strict_spec}
use colossusx.Dag.{Dag, View, worker_ranges, chunk_size, populate_dag, node}
use colossusx.Dag.Schedule.{HasAny, in_turn, in_turn-Runs}
use colossusx.Dag.Ranges.{worker_ranges-exact}
use colossusx.Stateless.{stateless_read_node}
use colossusx.Stateless.Full.{stateless, populate_dag-node}
use colossusx.Hash.{HashResult, lattice_hash_dag, hash_header_stateless}
use colossusx.Hash.Agree.{lattice_hash_dag-stateless}
use colossusx.Hash.Total.{IsResult, hash_header_stateless-IsResult}
use colossusx.Hash.{lattice_hash_view}
use colossusx.Host.{RawBuffer, new_raw_buffer, lattice_hash_shared_buffer, unified_accessor}
use colossusx.Host.Views.{shared_buffer-lattice_hash_dag}
use colossusx.Tests.Samples.{
  sample_crypto, sample_spec, sample_spec-valid, sample_spec-IsDagSize, sample_seed, sample_seed-ne,
  sample_dag, sample_dag-IsReady, sample_allocation,
}

worker_ranges-exact_example : HasAny 9 (worker_ranges 4 (chunk_size 10 4) 10 0 4) ↔ (9 < 10)
worker_ranges-exact_example = worker_ranges-exact 4 10 9 (omega arith) (omega arith)

abbrev sample_view : View
sample_view = record { array = replicate 300 1; len = 256 }

-- Strict parameters with a small DAG.
abbrev small_strict : Spec
small_strict = record sample_spec {
  mode = strict;
  reads_per_hash = 512;
  epoch_blocks = 8000;
  tile_size_bytes = 4096;
  mat_dim = 16;
  compute_rounds = 64;
  memory_model_required = colossusx.Spec.unified_shared;
  device_execution_only = true;
  round_commit_interval = 8;
  algorithm_version = 2;
}

populate_dag-node_example :
    (full : Dag) × (populate_dag sample_crypto 2 in_turn sample_dag sample_seed 3 ≡ ok full)
    × (full.spec ≡ sample_spec)
    × ((i : ℕ)
        → i < 4
        → node full i
          ≡ ok (stateless_read_node sample_crypto (stateless sample_spec sample_seed) i))
populate_dag-node_example =
    populate_dag-node sample_crypto 2 in_turn sample_dag sample_allocation sample_seed 3
      in_turn-Runs (omega arith) sample_seed-ne sample_dag-IsReady

lattice_hash_dag-stateless_example :
    (populate_dag sample_crypto 2 in_turn sample_dag sample_seed 3 >>= λ full.
    lattice_hash_dag sample_crypto full.spec (replicate 5 2) (some 8) full)
    ≡ hash_header_stateless sample_crypto sample_spec (replicate 5 2) (some 8) sample_seed
lattice_hash_dag-stateless_example =
    lattice_hash_dag-stateless sample_crypto 2 in_turn sample_dag sample_allocation sample_seed 3
      (replicate 5 2) (some 8) in_turn-Runs (omega arith) sample_seed-ne sample_dag-IsReady

hash_header_stateless-IsResult_example :
    (r : HashResult) × (hash_header_stateless sample_crypto sample_spec
        (replicate 5 2)
        (some 8)
        sample_seed
      ≡ ok r)
    × IsResult r
hash_header_stateless-IsResult_example =
    hash_header_stateless-IsResult sample_crypto sample_spec (replicate 5 2) sample_seed (some 8)
      sample_spec-valid sample_spec-IsDagSize sample_seed-ne

shared_buffer-lattice_hash_dag_example :
    (raw : RawBuffer) × (new_raw_buffer sample_dag ≡ ok raw)
    × (lattice_hash_shared_buffer sample_crypto sample_spec (replicate 5 2) (some 8) raw
        ≡ lattice_hash_dag sample_crypto sample_spec (replicate 5 2) (some 8) sample_dag)
    × (lattice_hash_view sample_crypto sample_spec (replicate 5 2) (some 8) (unified_accessor raw)
        ≡ lattice_hash_dag sample_crypto sample_spec (replicate 5 2) (some 8) sample_dag)
shared_buffer-lattice_hash_dag_example =
    shared_buffer-lattice_hash_dag sample_crypto sample_dag sample_allocation (replicate 5 2)
      (some 8) sample_dag-IsReady (omega arith)
