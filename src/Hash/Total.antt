-- ===== src/Hash/Total.antt =====
-- The proof-of-work functions return a digest: they never divide by zero and never read outside
-- the DAG.
use colossusx.Prelude.{
  ℕ, zero, suc, ◌+◌, ◌/◌, ◌%◌, ◌<◌, ◌≡◌, ◌≢◌, refl, ◌∙◌, leb, length, length-append, length-take,
  [], ◌∷◌, ◌++◌, take, Bool-cases, either, Option, ok, arith,
}
use colossusx.Prelude.Slices.{Bytes}
use colossusx.Prelude.Endian.{le, le_value, AllBytes}
use native.Mathlib.Nat.{mod-lt}
use colossusx.Crypto.{Crypto}
use colossusx.Nonce.{append_nonce}
use colossusx.Spec.{Spec, validate}
use colossusx.Spec.Valid.{validate-IsSized}
use colossusx.Spec.Size.{IsDagSize}
use colossusx.Spec.Epoch.{node_count-resolved}
use colossusx.Target.{IsHash}
use colossusx.Stateless.{stateless_node_count, stateless_read_node}
use colossusx.Hash.{
  Accessor, HashResult, stateless_accessor, fnv1a64, strict_rounds, strict_step, strict_v2_hash,
  lattice_rounds, lattice_v1, hash_header_stateless, blake3_round_input,
}
use colossusx.Hash.Agree.{stateless_runs, checked_mod-ok}

-- Every read inside the bounds succeeds.
record Reads (n : ℕ) (a : Accessor) : Type 0 where
  counted : a.count ≡ ok n
  nonempty : 0 < n
  node_of : ℕ → Bytes
  reads : (i : ℕ) → i < n → a.read i ≡ ok (node_of i)

-- A digest has 32 and 64 bytes.
pub record IsResult (r : HashResult) : Type 0 where
  pub pow_hash : IsHash r.pow256
  pub full_width : length r.full512 ≡ 64

module _ (c : Crypto) {n : ℕ} {a : Accessor} (g : Reads n a) where
  strict_rounds-ok :
      (spec : Spec) (left r : ℕ) (state : Bytes)
      → (final : Bytes) × (strict_rounds c spec a left r state ≡ ok final)
  unfolding strict_rounds
  strict_rounds-ok spec zero r state = (state, refl)
  strict_rounds-ok spec (suc left) r state =
      let x = le_value (take 8 state) in
      let (final, run) =
        strict_rounds-ok spec left (r + 1) (strict_step c spec r state (g.node_of (x % n))) in
      (
        final,
        ground (
          arith,
          g.counted,
          checked_mod-ok x n g.nonempty,
          g.reads (x % n) (mod-lt x g.nonempty),
          run,
        ),
      )

  lattice_rounds-ok :
      (left r : ℕ) (mix : Bytes) → (final : Bytes) × (lattice_rounds c a left r mix ≡ ok final)
  unfolding lattice_rounds
  lattice_rounds-ok zero r mix = (mix, refl)
  lattice_rounds-ok (suc left) r mix =
      let x = fnv1a64 (mix ++ le 8 r) in
      let (final, run) =
        lattice_rounds-ok left (r + 1)
          (c.blake3_256 (blake3_round_input mix (g.node_of (x % n)))) in
      (
        final,
        ground (
          arith,
          g.counted,
          checked_mod-ok x n g.nonempty,
          g.reads (x % n) (mod-lt x g.nonempty),
          run,
        ),
      )

  strict_v2_hash-ok :
      (spec : Spec) (header : Bytes) (nonce : Option ℕ)
      → (r : HashResult) × (strict_v2_hash c spec header nonce a ≡ ok r) × IsResult r
  unfolding strict_v2_hash
  strict_v2_hash-ok spec header nonce =
      let seed = c.sha256 (append_nonce nonce header) in
      let (state, run) = strict_rounds-ok spec spec.compute_rounds 0 seed in
      let final = c.sha256 state in
      (
        record { pow256 = final; full512 = final ++ c.sha256 (seed ++ final) },
        ground (arith, g.counted, g.nonempty, run),
        record {
          pow_hash = record { bytes = c.sha256-bytes state; width = c.length-sha256 state };
          full_width = omega (
            arith,
            length-append {0} final (c.sha256 (seed ++ final)),
            c.length-sha256 state,
            c.length-sha256 (seed ++ final),
          );
        },
      )

  take_bytes : (k : ℕ) (v : Bytes) → AllBytes v → AllBytes (take k v)
  take_bytes zero v h = tt
  take_bytes (suc k) [] h = tt
  take_bytes (suc k) (x ∷ v) h = (h.0, take_bytes k v h.1)

  lattice_v1-ok :
      (spec : Spec) (header : Bytes) (nonce : Option ℕ)
      → (r : HashResult) × (lattice_v1 c spec header nonce a ≡ ok r) × IsResult r
  unfolding lattice_v1
  lattice_v1-ok spec header nonce =
      let seed = c.sha3_512 (append_nonce nonce header) in
      let (mix, run) = lattice_rounds-ok spec.reads_per_hash 0 (take 32 seed) in
      let final = c.sha3_512 (seed ++ mix) in
      (
        record { pow256 = take 32 final; full512 = final },
        ground (arith, g.counted, g.nonempty, run),
        record {
          pow_hash = record {
            bytes = take_bytes 32 final (c.sha3_512-bytes (seed ++ mix));
            width = omega (arith, length-take 32 final, c.length-sha3_512 (seed ++ mix));
          };
          full_width = c.length-sha3_512 (seed ++ mix);
        },
      )

stateless-Reads :
    (c : Crypto) (spec : Spec) (seed : Bytes)
    → validate spec ≡ ok tt
    → IsDagSize spec spec.dag_size_bytes
    → Reads
        (spec.dag_size_bytes / 64)
        (stateless_accessor c (record { spec = spec; epoch_seed = seed }))
unfolding stateless_accessor stateless_node_count
stateless-Reads c spec seed valid size = record {
  counted = node_count-resolved spec spec.dag_size_bytes (validate-IsSized spec valid) size;
  nonempty = omega (arith, size.whole_nodes, size.positive);
  node_of = stateless_read_node c (record { spec = spec; epoch_seed = seed });
  reads = λ i hi. refl;
}

-- On valid parameters with the size of some height and a seed, `HashHeaderStateless` returns a
-- digest: it divides by no zero, whatever the header and the nonce. The digest has 32 bytes for the
-- comparison with the target and 64 in full.
pub hash_header_stateless-IsResult :
    (c : Crypto) (spec : Spec) (header seed : Bytes) (nonce : Option ℕ)
    → validate spec ≡ ok tt
    → IsDagSize spec spec.dag_size_bytes
    → seed ≢ []
    → (r : HashResult) × (hash_header_stateless c spec header nonce seed ≡ ok r) × IsResult r
hash_header_stateless-IsResult c spec header seed nonce valid size some_seed =
    let g = stateless-Reads c spec seed valid size in
    let runs = stateless_runs c spec header seed nonce valid some_seed in
    either (Bool-cases (leb 2 spec.algorithm_version))
      (λ two.
        let (r, run, w) = strict_v2_hash-ok c g spec header nonce in (r, runs ∙ rw two run, w))
      (λ one. let (r, run, w) = lattice_v1-ok c g spec header nonce in (r, runs ∙ rw one run, w))
