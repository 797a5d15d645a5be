-- ===== src/Host.antt =====
-- backend_common.go, shared_dag_hash.go and backend_cpu.go: the hashes of the miner's backends that
-- run on the host, over views of the DAG's memory.
pub mod Views
use colossusx.Prelude.{
  ℕ, zero, suc, ◌+◌, ◌*◌, ◌%◌, ◌||◌, ltb, ◌==◌, if◌then◌else◌, List, [], ◌∷◌, ◌++◌, length, take,
  get_elem?, Option, none, some, Go, ok, err, panic, refuse, Error, ◌>>=◌, ◌>>◌,
}
use colossusx.Prelude.Slices.{Bytes}
use colossusx.Prelude.Endian.{le}
use colossusx.Crypto.{Crypto}
use colossusx.Spec.{Spec, u64_mod, node_count}
use colossusx.Nonce.{add_uint64, append_nonce}
use colossusx.Dag.{View, Dag, dag_bytes, checked_slice, node}
use colossusx.Hash.{
  HashResult, no_result, Accessor, checked_mod, fnv1a64, blake3_round_input, lattice_hash_view,
}

-- `rawContiguousDAGBuffer`; the bytes are a Go slice, whose bounds are those of its array.
pub record RawBuffer : Type 0 where
  pub bytes : View
  pub byte_len : ℕ
  pub node_size : ℕ
  pub count : ℕ

-- `newRawContiguousDAGBuffer`
unfoldable pub new_raw_buffer : Dag → Go RawBuffer
new_raw_buffer d = do
  refuse (ltb (dag_bytes d).len d.spec.dag_size_bytes) Error.short_allocation
  count ← node_count d.spec
  ok (record {
    bytes = record { array = (dag_bytes d).array; len = d.spec.dag_size_bytes };
    byte_len = d.spec.dag_size_bytes;
    node_size = d.spec.node_size;
    count = count;
  })

-- `readRawDAGNode`, and `ReadNode` of `unifiedMemoryDAGView`
unfoldable pub read_raw_node : RawBuffer → ℕ → Go Bytes
read_raw_node raw i = checked_slice (i * raw.node_size % u64_mod) raw.node_size raw.bytes.array

-- `unifiedMemoryDAGView` as an accessor
unfoldable pub unified_accessor : RawBuffer → Accessor
unified_accessor raw = record { count = ok raw.count; read = read_raw_node raw }

module _ (c : Crypto) where
  -- the loop of `latticeHashSharedBuffer`
  unfoldable pub shared_rounds : RawBuffer → ℕ → ℕ → Bytes → Go Bytes
  shared_rounds raw zero r mix = ok mix
  shared_rounds raw (suc left) r mix = do
    idx ← checked_mod (fnv1a64 (mix ++ le 8 r)) raw.count
    bytes ← read_raw_node raw idx
    shared_rounds raw left (r + 1) (c.blake3_256 (blake3_round_input mix bytes))

  -- `latticeHashSharedBuffer`
  unfoldable pub lattice_hash_shared_buffer : Spec → Bytes → Option ℕ → RawBuffer → Go HashResult
  lattice_hash_shared_buffer spec header nonce raw =
      if raw.count == 0 || raw.node_size == 0 || raw.byte_len == 0 then ok no_result else (do
        let seed512 = c.sha3_512 (append_nonce nonce header)
        mix ← shared_rounds raw spec.reads_per_hash 0 (take 32 seed512)
        let final512 = c.sha3_512 (seed512 ++ mix)
        ok (record { pow256 = take 32 final512; full512 = final512 }))

  -- the loop of `HashBatchShared`, which ends before a nonce that does not exist
  unfoldable pub hash_batch_shared : Spec → Bytes → ℕ → RawBuffer → ℕ → ℕ → Go (List HashResult)
  hash_batch_shared spec header start raw zero i = ok []
  hash_batch_shared spec header start raw (suc left) i = elim (add_uint64 start i) [
    | none ↦ ok []
    | some n ↦ lattice_hash_shared_buffer spec header (some n) raw >>= λ h.
        hash_batch_shared spec header start raw left (i + 1) >>= λ hs. ok (h ∷ hs)
  ]
