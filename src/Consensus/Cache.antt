-- ===== src/Consensus/Cache.antt =====
-- The DAG caches of the validator and `validatePoW`. The text of a cache key is kept as the pair
-- that it is printed from, `dagKey{seed, size}`, with the allocator's name for the second cache.
pub mod Fresh
pub mod Verdict
use colossusx.Prelude.{
  ℕ, ◌+◌, ◌-◌, ◌≤◌, Bool, true, false, not, ◌&&◌, ◌||◌, ltb, leb, ◌==◌, if◌then◌else◌, List, [],
  ◌∷◌, map, length, replicate, Option, none, some, Go, ok, err, panic, stuck, refuse, ◌>>=◌, ◌>>◌,
  Error,
}
use colossusx.Prelude.Keys.{Eq, bytes_eq, bytes_key, number_eq, pair_key}
use colossusx.Prelude.Maps.{Map, lookup, insert}
use colossusx.Prelude.Slices.{Bytes}
use colossusx.Crypto.{Crypto}
use colossusx.Spec.{Spec, resolved_for_height}
use colossusx.Dag.{Dag, Allocator, Allocation, new_dag_with_allocator, populate_dag}
use colossusx.Types.{BlockHeader, ChainConfig, encode_for_mining}
use colossusx.Target.{less_or_equal_be}
use colossusx.Hash.{HashResult, dag_accessor, strict_v2_hash, lattice_hash_dag}

-- "go-slice"
abbrev pub go_slice : Bytes
go_slice = b'g' ∷ b'o' ∷ b'-' ∷ b's' ∷ b'l' ∷ b'i' ∷ b'c' ∷ b'e' ∷ []

-- `sliceAllocator`; `make` panics above the longest slice of the machine
unfoldable pub slice_allocator : ℕ → Allocator
slice_allocator max_slice = record {
  name = go_slice;
  alloc = λ size.
      if leb size max_slice
      then ok (record { name = go_slice; bytes = replicate size 0 })
      else panic;
}

-- What a validator is given: the hash functions, the machine's processors and scheduler, its
-- configuration, backend, workers and allocators.
pub record Env : Type 0 where
  pub crypto : Crypto
  pub num_cpu : ℕ
  pub schedule : List (List ℕ) → List ℕ
  pub config : ChainConfig
  pub backend_hash : Bytes → Option ℕ → Dag → Go HashResult
  pub workers : ℕ
  pub allocator : Allocator
  pub mining_allocator : Allocator
  -- `canValidationReuseMiningDAG`, which goes by the allocator's own answer or by its name
  pub reuse : Bool

abbrev pub SharedKey : Type 0
SharedKey = Bytes × ℕ

pub record Caches : Type 0 where
  pub shared : Map SharedKey Dag
  pub fallback : Map (SharedKey × Bytes) Dag

-- `consensus.CPUBackend.Hash`
unfoldable pub cpu_hash : Crypto → Bytes → Option ℕ → Dag → Go HashResult
cpu_hash c header nonce dag =
    if leb 2 dag.spec.algorithm_version
    then strict_v2_hash c dag.spec header nonce (dag_accessor dag)
    else lattice_hash_dag c dag.spec header nonce dag

-- the comparison of `validatePoW`
abbrev pub pow_verdict : BlockHeader → HashResult → Go (Unit {0})
pow_verdict header hash =
    refuse (not (less_or_equal_be hash.pow256 header.target)) Error.invalid_pow

module _ (e : Env) where
  -- what `cachedDAGForHeader` builds for a key that is not in the cache
  unfoldable pub build_dag : Allocator → BlockHeader → Go Dag
  build_dag allocator header = do
    spec ← resolved_for_height e.config.spec header.height
    dag ←
        new_dag_with_allocator (record spec { dag_size_bytes = header.dag_size_bytes })
          (some allocator)
    populate_dag e.crypto e.num_cpu e.schedule dag header.epoch_seed e.workers

  -- `cachedDAGForHeader`; a DAG that cannot be filled is closed and not kept
  unfoldable pub cached_dag_for_header :
      {K : Type 0} ⦃key_eq : Eq K⦄ → BlockHeader → Allocator → Map K Dag → K → Map K Dag × Go Dag
  cached_dag_for_header header allocator cache key = elim (lookup key cache) [
    | some dag ↦ (cache, ok dag)
    | none ↦ elim (build_dag allocator header) [
      | ok dag ↦ (insert key dag cache, ok dag)
      | err x ↦ (cache, err x)
      | panic ↦ (cache, panic)
      | stuck ↦ (cache, stuck)
    ]
  ]

  -- `sharedDAGCacheKey`
  abbrev pub shared_key : BlockHeader → SharedKey
  shared_key header = (header.epoch_seed, header.dag_size_bytes)

  -- `sharedMiningDAGForHeader`
  unfoldable pub shared_mining_dag : Caches → BlockHeader → Caches × Go Dag
  shared_mining_dag m header =
      let (cache, r) =
        cached_dag_for_header header e.mining_allocator m.shared (shared_key header) in
      (record m { shared = cache }, r)

  -- `validationDAGForHeader`
  unfoldable pub validation_dag : Caches → BlockHeader → Caches × Go Dag
  validation_dag m header =
      if e.reuse
      then shared_mining_dag m header
      else (let (cache, r) =
            cached_dag_for_header header e.allocator m.fallback
              (shared_key header, e.allocator.name) in
          (record m { fallback = cache }, r))

  -- `validatePoW`
  unfoldable pub validate_pow : Caches → BlockHeader → Caches × Go (Unit {0})
  validate_pow m header =
      let (m', r) = validation_dag m header in
      (
        m',
        r >>= λ dag.
            e.backend_hash (encode_for_mining header) (some header.nonce) dag
            >>= pow_verdict header,
      )
