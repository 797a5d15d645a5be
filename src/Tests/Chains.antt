-- ===== src/Tests/Chains.antt =====
-- The theorems on the validator at a small chain.
use colossusx.Prelude.{
  ℕ, ◌+◌, ◌*◌, ◌/◌, ◌<◌, ◌≤◌, ◌≡◌, ◌≢◌, refl, ◌⊎◌, ◌↔◌, inl, inr, List, [], ◌∷◌, length, replicate,
  length-replicate, leb, if-true, Bool, true, false, Option, none, some, Go, ok, ◌>>=◌, arith,
}
use colossusx.Prelude.Endian.{le}
use colossusx.Prelude.Int.{pos}
use colossusx.Spec.{u64_mod}
use colossusx.Spec.Size.{planned_size}
use colossusx.Spec.Epoch.{resolved}
use colossusx.Dag.Schedule.{in_turn, in_turn-Runs}
use colossusx.Types.{Block, BlockHeader, ChainConfig, block_hash, zero_hash, encode_for_mining}
use colossusx.Types.Seed.{planned_seed}
use colossusx.Hash.{hash_header_stateless}
use colossusx.Chain.{MemoryStore, in_memory, new_memory_store}
use colossusx.Consensus.Header.{check_header, IsLinked}
use colossusx.Consensus.Accept.{IsAcceptable, check_header_iff}
use colossusx.Consensus.Cache.{Env, Caches, cpu_hash, pow_verdict, slice_allocator, validate_pow}
use colossusx.Consensus.Cache.Verdict.{
  Allocates, IsSound, Serves, IsPlanned, AreFresh, validate_pow-stateless,
}
use colossusx.Consensus.Invariant.{IsConsistent}
use colossusx.Consensus.Invariant.Result.{Insertion, insert_valid_block-Insertion}
use colossusx.Consensus.Answer.{Answer, insert_block-Answer}
use colossusx.Consensus.Setup.{MiningAllocator, set_mining_backend, set_mining_backend-IsSound}
use colossusx.Prelude.{none, some, false}
use colossusx.Tests.Samples.{
  sample_crypto, sample_spec, sample_spec-valid, sample_spec-IsTyped, sample_spec-IsSized,
  sample_header,
}

abbrev pub sample_config : ChainConfig
sample_config = record { network_id = []; spec = sample_spec }

abbrev pub first_header : BlockHeader
first_header = record sample_header { epoch_seed = planned_seed sample_crypto sample_spec 0 }

abbrev pub first_block : Block
first_block = record { header = first_header; transactions = [] }

abbrev pub sample_env : Env
sample_env = record {
  crypto = sample_crypto;
  num_cpu = 2;
  schedule = in_turn;
  config = sample_config;
  backend_hash = cpu_hash sample_crypto;
  workers = 3;
  allocator = slice_allocator 4096;
  mining_allocator = slice_allocator 4096;
  reuse = true;
}

pub slice_allocator-Allocates :
    (max size : ℕ) → size ≤ max → max < u64_mod → Allocates (slice_allocator max) size
unfolding slice_allocator
slice_allocator-Allocates max size h small = (
  record { name = _; bytes = replicate size 0 },
  (let fits : leb size max ≡ true = ground arith in if-true _ _ _ fits),
  ground (arith, length-replicate {A = ℕ} size 0),
  ground (arith, length-replicate {A = ℕ} size 0),
)

pub sample_env-IsSound : IsSound sample_env
sample_env-IsSound = record {
  fair = in_turn-Runs;
  cpus = omega arith;
  typed = sample_spec-IsTyped;
  valid = sample_spec-valid;
}

pub sample-Allocates :
    Allocates (slice_allocator 4096) (resolved sample_env.config.spec 0).dag_size_bytes
unfolding colossusx.Spec.initial_dag_size colossusx.Spec.growth_dag_size_per_epoch
sample-Allocates =
    slice_allocator-Allocates 4096 (resolved sample_env.config.spec 0).dag_size_bytes (omega arith)
      (omega arith)

pub sample_env-Serves : Serves sample_env 0
sample_env-Serves = record { own = sample-Allocates; mining = sample-Allocates }

first_header-size :
    first_header.dag_size_bytes
    ≡ planned_size sample_spec (first_header.height / sample_spec.epoch_blocks)
unfolding colossusx.Spec.initial_dag_size colossusx.Spec.growth_dag_size_per_epoch
first_header-size = refl

pub first_header-IsPlanned : IsPlanned sample_env first_header
unfolding le
first_header-IsPlanned = record {
  served = sample_env-Serves;
  size = first_header-size;
  some_seed = λ e. absurd (ground arith);
}

abbrev pub no_caches : Caches
no_caches = record { shared = []; fallback = [] }

pub no_caches-AreFresh : AreFresh sample_env no_caches
unfolding colossusx.Prelude.Maps.lookup
no_caches-AreFresh = record {
  shared_fresh = λ seed size dag e. absurd (ground arith);
  fallback_fresh = λ seed size dag e. absurd (ground arith);
}

pub empty-IsConsistent : IsConsistent sample_crypto new_memory_store
unfolding new_memory_store colossusx.Prelude.Maps.lookup
empty-IsConsistent = record {
  chain = record {
    keyed = λ k b e. absurd (ground arith);
    no_zero = refl;
    worked = λ k b e. absurd (ground arith);
    only_blocks = λ k w e. absurd (ground arith);
  };
  tip = inl (record { zero_tip = refl; nothing = λ k. refl });
}

first_header-IsLinked : IsLinked new_memory_store first_header
first_header-IsLinked = record { genesis = λ z. refl; child = λ nz. absurd (nz refl) }

pub first_block-nonzero : block_hash sample_crypto first_block ≢ zero_hash
unfolding block_hash colossusx.Types.header_hash le
first_block-nonzero e = ground arith

check_header_iff_example :
    (check_header sample_crypto sample_config new_memory_store first_header (pos 100) ≡ ok tt)
    ↔ IsAcceptable sample_crypto sample_config new_memory_store first_header (pos 100)
check_header_iff_example =
    check_header_iff sample_crypto sample_config new_memory_store first_header (pos 100)
      sample_spec-IsTyped sample_spec-IsSized

validate_pow-stateless_example :
    (m' : Caches) × (validate_pow sample_env no_caches first_header ≡ (
      m',
      hash_header_stateless sample_crypto
            (resolved sample_spec 0)
            (encode_for_mining first_header)
            (some 3)
            first_header.epoch_seed
          >>= pow_verdict first_header,
    ))
    × AreFresh sample_env m'
validate_pow-stateless_example =
    validate_pow-stateless sample_env no_caches first_header sample_env-IsSound
      first_header-IsPlanned refl no_caches-AreFresh

insert_valid_block-Insertion_example :
    Insertion sample_crypto in_memory new_memory_store first_block empty-IsConsistent
insert_valid_block-Insertion_example =
    insert_valid_block-Insertion sample_crypto in_memory new_memory_store first_block
      empty-IsConsistent first_header-IsLinked first_block-nonzero

insert_block-Answer_example :
    (m' : Caches) × (s' : MemoryStore) × (r : Go (ℕ × Bool)) × Answer sample_env sample_env-IsSound
      refl in_memory no_caches new_memory_store first_block
      (pos 100)
      m'
      s'
      r
insert_block-Answer_example =
    insert_block-Answer sample_env sample_env-IsSound refl in_memory no_caches new_memory_store
      first_block (pos 100) no_caches-AreFresh empty-IsConsistent (λ good. sample_env-Serves)
      first_block-nonzero

abbrev slices : MiningAllocator
slices = record { allocator = slice_allocator 4096; answer = none }

set_mining_backend-IsSound_example :
    IsSound (set_mining_backend (λ s. s) (λ s t. false) sample_env no_caches (some slices)).0
    × AreFresh
        (set_mining_backend (λ s. s) (λ s t. false) sample_env no_caches (some slices)).0
        (set_mining_backend (λ s. s) (λ s t. false) sample_env no_caches (some slices)).1
    × Serves (set_mining_backend (λ s. s) (λ s t. false) sample_env no_caches (some slices)).0 0
set_mining_backend-IsSound_example =
    set_mining_backend-IsSound (λ s. s) (λ s t. false) sample_env no_caches slices 0
      sample_env-IsSound no_caches-AreFresh sample_env-Serves sample-Allocates
