-- ===== src/Host/Views.antt =====
-- The hashes over the views of the DAG's memory against the hash over the DAG.
use colossusx.Prelude.{
  ℕ, zero, suc, ◌+◌, ◌/◌, ◌<◌, ◌≡◌, refl, ap, ◌∙◌, leb, ◌==◌, ◌||◌, false, ◌++◌, Option, Go, ok,
  ◌>>=◌, arith,
}
use colossusx.Prelude.Slices.{Bytes}
use mathlib.Core.Path.{fun_ext}
use colossusx.Prelude.Endian.{le}
use colossusx.Crypto.{Crypto}
use colossusx.Spec.{Spec}
use colossusx.Spec.Valid.{validate-IsSized}
use colossusx.Spec.Epoch.{node_count-resolved}
use colossusx.Dag.{Dag, Allocation, dag_bytes, node}
use colossusx.Stateless.Full.{IsReady, dag_bytes-IsBuffer}
use colossusx.Hash.Agree.{Agree, lattice_v1-agree}
use colossusx.Hash.{
  checked_mod, fnv1a64, blake3_round_input, lattice_rounds, lattice_v1, lattice_hash_dag,
  lattice_hash_view, dag_accessor,
}
use colossusx.Host.{
  RawBuffer, new_raw_buffer, read_raw_node, unified_accessor, shared_rounds,
  lattice_hash_shared_buffer,
}

-- The loop of the kernel is the loop of `LatticeHash` over the view.
shared_rounds-lattice :
    (c : Crypto) (raw : RawBuffer) (left r : ℕ) (mix : Bytes)
    → shared_rounds c raw left r mix ≡ lattice_rounds c (unified_accessor raw) left r mix
unfolding shared_rounds lattice_rounds unified_accessor
shared_rounds-lattice c raw zero r mix = refl
shared_rounds-lattice c raw (suc left) r mix =
    let rest = λ (f : Bytes → Go Bytes).
      checked_mod (fnv1a64 (mix ++ le 8 r)) raw.count >>= λ i. read_raw_node raw i >>= λ v. f v in
    ap rest (
      fun_ext
        (λ v. shared_rounds-lattice c raw left (r + 1) (c.blake3_256 (blake3_round_input mix v))))

shared_buffer-lattice :
    (c : Crypto) (spec : Spec) (header : Bytes) (nonce : Option ℕ) (raw : RawBuffer)
    → 0 < raw.count
    → 0 < raw.node_size
    → 0 < raw.byte_len
    → lattice_hash_shared_buffer c spec header nonce raw
      ≡ lattice_v1 c spec header nonce (unified_accessor raw)
unfolding lattice_hash_shared_buffer lattice_v1 unified_accessor
shared_buffer-lattice c spec header n raw count size len =
    let full : (raw.count == 0 || raw.node_size == 0 || raw.byte_len == 0) ≡ false = ground arith in
    let some_nodes : (raw.count == 0) ≡ false = ground arith in
    rw (full, some_nodes, shared_rounds-lattice c raw spec.reads_per_hash 0 _) refl

-- A DAG that is ready has a raw buffer, which reads the DAG's nodes.
raw_buffer-Agree :
    (d : Dag) (a : Allocation)
    → IsReady d a
    → (raw : RawBuffer) × (new_raw_buffer d ≡ ok raw)
      × Agree (d.spec.dag_size_bytes / 64) (unified_accessor raw) (dag_accessor d)
      × (raw.node_size ≡ 64)
      × (raw.byte_len ≡ d.spec.dag_size_bytes)
      × (raw.count ≡ d.spec.dag_size_bytes / 64)
unfolding new_raw_buffer unified_accessor dag_accessor read_raw_node node
raw_buffer-Agree d a r =
    let z = validate-IsSized d.spec r.valid in
    let count = node_count-resolved d.spec d.spec.dag_size_bytes z r.size in
    let enough = (dag_bytes-IsBuffer d a r).long_enough in
    let raw : RawBuffer = record {
      bytes = record { array = (dag_bytes d).array; len = d.spec.dag_size_bytes };
      byte_len = d.spec.dag_size_bytes;
      node_size = d.spec.node_size;
      count = d.spec.dag_size_bytes / 64;
    } in
    (
      raw,
      ground (arith, count, enough),
      record {
        count_left = refl;
        count_right = count;
        same = λ i h. refl;
        nonempty = omega (arith, r.size.positive, r.size.whole_nodes);
      },
      z.node_size_64,
      refl,
      refl,
    )

-- On a DAG that is ready, the host kernel over the raw buffer and `LatticeHash` over the unified view
-- compute, for any header and nonce, what `LatticeHash` computes over the DAG for the first version of
-- the algorithm.
pub shared_buffer-lattice_hash_dag :
    (c : Crypto) (d : Dag) (a : Allocation) (header : Bytes) (nonce : Option ℕ)
    → IsReady d a
    → d.spec.algorithm_version < 2
    → (raw : RawBuffer) × (new_raw_buffer d ≡ ok raw)
      × (lattice_hash_shared_buffer c d.spec header nonce raw
          ≡ lattice_hash_dag c d.spec header nonce d)
      × (lattice_hash_view c d.spec header nonce (unified_accessor raw)
          ≡ lattice_hash_dag c d.spec header nonce d)
unfolding lattice_hash_dag lattice_hash_view
shared_buffer-lattice_hash_dag c d a header nonce r one =
    let (raw, made, g, size, len, count) = raw_buffer-Agree d a r in
    let same = lattice_v1-agree g c d.spec header nonce in
    let first : leb 2 d.spec.algorithm_version ≡ false = ground arith in
    (
      raw,
      made,
      rw first (
          shared_buffer-lattice c d.spec header nonce raw (omega (arith, g.nonempty, count))
            (omega (arith, size)) (omega (arith, len, r.size.positive))
          ∙ same),
      rw first same,
    )
