-- ===== src/Tests/Beginnings.antt =====
-- The theorem on `InitGenesis` at a small chain.
use colossusx.Prelude.{ℕ, ◌≡◌, ◌≢◌, refl, ap, List, [], ◌∷◌, ◌++◌, replicate, Go, arith}
use colossusx.Prelude.Endian.{le}
use colossusx.Prelude.Slices.{Bytes}
use colossusx.Prelude.Int.{pos}
use colossusx.Types.{Block, GenesisConfig, block_hash, header_hash, zero_hash}
use colossusx.Chain.{MemoryStore, Succeeds, in_memory, new_memory_store}
use colossusx.Consensus.Cache.{Caches}
use colossusx.Consensus.Cache.Verdict.{AreFresh}
use colossusx.Consensus.Invariant.{IsConsistent}
use colossusx.Consensus.Seal.{cpu_backend}
use colossusx.Consensus.Seal.Search.{EnoughTurns}
use colossusx.Node.{init_genesis}
use colossusx.Node.Genesis.{Begins, init_genesis-Begins}
use colossusx.Tests.Samples.{sample_crypto, sample_spec, easy_target}
use colossusx.Tests.Chains.{
  sample_env, sample_env-IsSound, no_caches, no_caches-AreFresh, sample_env-Serves,
  empty-IsConsistent,
}

abbrev genesis : GenesisConfig
genesis = record {
  chain_id = [];
  message = 1 ∷ [];
  timestamp = pos 50;
  bits = easy_target;
  spec = sample_spec;
  extra_data = [];
}

abbrev first_byte : Bytes → ℕ
first_byte [] = 0
first_byte (b ∷ bs) = b

no_zero : (b : Block) → block_hash sample_crypto b ≢ zero_hash
unfolding block_hash header_hash le
no_zero b h = let first = ap first_byte h in absurd (omega arith)

memory-Succeeds : Succeeds in_memory
memory-Succeeds = record { stored = λ s. refl; moved = λ s. refl }

no_tip : new_memory_store.current_tip ≡ zero_hash
unfolding new_memory_store
no_tip = refl

abbrev many_turns : List ℕ
many_turns = replicate 7 0 ++ (replicate 7 1 ++ replicate 7 2)

many_enough : EnoughTurns sample_env sample_env-IsSound refl many_turns 3
many_enough i small = ground arith

init_genesis-Begins_example :
    (m' : Caches) × (s' : MemoryStore) × (r : Go Block) × (init_genesis sample_env in_memory
        (cpu_backend sample_crypto)
        genesis
        many_turns
        3
        no_caches
        new_memory_store
      ≡ (m', s', r))
    × AreFresh sample_env m'
    × IsConsistent sample_crypto s'
    × Begins sample_env sample_env-IsSound refl in_memory memory-Succeeds genesis refl 3
        new_memory_store empty-IsConsistent no_tip sample_env-Serves s' r
init_genesis-Begins_example =
    init_genesis-Begins sample_env sample_env-IsSound refl in_memory memory-Succeeds genesis refl 3
      new_memory_store empty-IsConsistent no_tip sample_env-Serves many_turns no_caches
      (λ e. ground arith) (λ n may. no_zero _) no_caches-AreFresh many_enough
