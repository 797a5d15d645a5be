-- ===== src/Tests/Nodes.antt =====
-- The theorems on the node at a small chain.
use colossusx.Prelude.{◌≡◌, ◌≢◌, refl, true, Bool, [], ◌∷◌, ok, arith}
use colossusx.Prelude.Keys.{bytes_eq, bytes_eq_iff, bytes_key}
use colossusx.Prelude.Maps.{lookup}
use colossusx.Prelude.Int.{pos, add_int64, to_u64, of_u64}
use colossusx.Types.{BlockHeader, block_hash, zero_hash}
use colossusx.Chain.{MemoryStore, in_memory, new_memory_store, get_block, get_header}
use colossusx.Consensus.Accept.{IsAcceptable}
use colossusx.Consensus.Cache.{Caches}
use colossusx.Consensus.Cache.Verdict.{AreFresh}
use colossusx.Node.{next_header, on_new_block}
use colossusx.Node.Template.{IsTimely, next_header-IsAcceptable}
use colossusx.Node.Receive.{Handled, on_new_block-Handled}
use colossusx.Tests.Samples.{
  sample_crypto, sample_spec, sample_spec-IsTyped, sample_spec-IsSized, easy_target,
}
use colossusx.Tests.Chains.{
  sample_config, sample_env, sample_env-IsSound, first_block, first_header, no_caches,
  no_caches-AreFresh, sample_env-Serves, empty-IsConsistent,
}

-- A store with the first block only.
abbrev short_chain : MemoryStore
short_chain = record {
  genesis_hash = block_hash sample_crypto first_block;
  current_tip = block_hash sample_crypto first_block;
  blocks = (block_hash sample_crypto first_block, first_block) ∷ [];
  heights = (0, block_hash sample_crypto first_block) ∷ [];
  total_work = (block_hash sample_crypto first_block, 1) ∷ [];
}

first_stored : get_header short_chain (block_hash sample_crypto first_block) ≡ ok first_header
unfolding get_header get_block lookup
first_stored =
    let k = block_hash sample_crypto first_block in
    let same : bytes_eq k k ≡ true = (bytes_eq_iff k k).1 refl in rw same refl

pub timely : IsTimely (pos 200) (pos 100)
unfolding add_int64 to_u64 of_u64
timely = record {
  clock = (omega arith, omega arith);
  clock_room = omega arith;
  before = (omega arith, omega arith);
  before_room = omega arith;
  near = omega arith;
}

easy_target-nonzero : easy_target ≢ zero_hash
easy_target-nonzero e = ground arith

next_header-IsAcceptable_example :
    (h : BlockHeader) × (next_header sample_crypto sample_spec easy_target
        (λ n. n ∷ [])
        (pos 200)
        first_block
      ≡ ok h)
    × (h.parent_hash ≡ block_hash sample_crypto first_block)
    × IsAcceptable sample_crypto sample_config short_chain h (pos 200)
next_header-IsAcceptable_example =
    next_header-IsAcceptable sample_crypto sample_config short_chain easy_target (λ n. n ∷ [])
      (pos 200) first_block sample_spec-IsTyped sample_spec-IsSized (λ e. ground arith)
      easy_target-nonzero first_stored (omega arith) timely

on_new_block-Handled_example :
    (m' : Caches) × (s' : MemoryStore) × (sent : Bool) × (on_new_block sample_env in_memory
        no_caches new_memory_store first_block
        (pos 100)
      ≡ (m', s', sent))
    × AreFresh sample_env m'
    × Handled sample_env sample_env-IsSound refl in_memory new_memory_store first_block s'
on_new_block-Handled_example =
    on_new_block-Handled sample_env sample_env-IsSound refl in_memory no_caches new_memory_store
      first_block (pos 100) no_caches-AreFresh empty-IsConsistent (λ good. sample_env-Serves)
