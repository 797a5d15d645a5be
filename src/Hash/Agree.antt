-- ===== src/Hash/Agree.antt =====
-- Two accessors with the same nodes give the same digests, so a header can be checked without a DAG.
use colossusx.Prelude.{
  ℕ, zero, suc, ◌+◌, ◌/◌, ◌%◌, ◌<◌, ◌≡◌, ◌≢◌, refl, ap, ◌∙◌, leb, if◌then◌else◌, List, [], ◌∷◌,
  ◌++◌, take, Option, Go, ok, ◌>>=◌, arith,
}
use colossusx.Prelude.Slices.{Bytes}
use colossusx.Prelude.Endian.{le, le_value}
use mathlib.Core.Path.{fun_ext}
use colossusx.Nonce.{append_nonce}
use native.Mathlib.Nat.{mod-lt}
use colossusx.Crypto.{Crypto}
use colossusx.Spec.{Spec, validate, node_count}
use colossusx.Spec.Valid.{validate-IsSized}
use colossusx.Spec.Size.{IsDagSize}
use colossusx.Spec.Epoch.{node_count-resolved}
use colossusx.Dag.{Dag, Allocation, node, populate_dag}
use colossusx.Dag.Schedule.{Runs}
use colossusx.Stateless.{new_stateless_dag, stateless_node_count, stateless_read_node}
use colossusx.Stateless.Full.{IsReady, populate_dag-node}
use colossusx.Hash.{
  Accessor, dag_accessor, stateless_accessor, fnv1a64, checked_mod, strict_rounds, strict_step,
  blake3_round_input, strict_v2_hash, lattice_rounds, lattice_v1, lattice_hash_dag,
  lattice_hash_view, hash_header_stateless,
}

-- The accessors have `n` nodes each, and read the same bytes there.
pub record Agree (n : ℕ) (a b : Accessor) : Type 0 where
  pub count_left : a.count ≡ ok n
  pub count_right : b.count ≡ ok n
  pub same : (i : ℕ) → i < n → a.read i ≡ b.read i
  pub nonempty : 0 < n

pub checked_mod-ok : (x n : ℕ) → 0 < n → checked_mod x n ≡ ok (x % n)
checked_mod-ok x n h = ground arith

-- A round reads the same bytes through either accessor, and so do all rounds.
module _ {n : ℕ} {a b : Accessor} (g : Agree n a b) where
  read_at-agree :
      (x : ℕ) (k : Bytes → Go Bytes)
      → (a.count >>= λ count. checked_mod x count >>= λ idx. a.read idx >>= k)
        ≡ (b.count >>= λ count. checked_mod x count >>= λ idx. b.read idx >>= k)
  read_at-agree x k = rw (
    g.count_left,
    g.count_right,
    checked_mod-ok x n g.nonempty,
    g.same (x % n) (mod-lt x g.nonempty),
  )

  module _ (c : Crypto) where
    strict_rounds-agree :
        (spec : Spec) (left r : ℕ) (state : Bytes)
        → strict_rounds c spec a left r state ≡ strict_rounds c spec b left r state
    unfolding strict_rounds
    strict_rounds-agree spec zero r state = refl
    strict_rounds-agree spec (suc left) r state =
        read_at-agree (le_value (take 8 state)) _
        ∙ ap
            (λ (k : Bytes → Go Bytes). b.count >>= λ count.
              checked_mod (le_value (take 8 state)) count >>= λ idx. b.read idx >>= k)
            (fun_ext
              (λ raw. strict_rounds-agree spec left (r + 1) (strict_step c spec r state raw)))

    lattice_rounds-agree :
        (left r : ℕ) (mix : Bytes) → lattice_rounds c a left r mix ≡ lattice_rounds c b left r mix
    unfolding lattice_rounds
    lattice_rounds-agree zero r mix = refl
    lattice_rounds-agree (suc left) r mix =
        read_at-agree (fnv1a64 (mix ++ le 8 r)) _
        ∙ ap
            (λ (k : Bytes → Go Bytes). b.count >>= λ count.
              checked_mod (fnv1a64 (mix ++ le 8 r)) count >>= λ idx. b.read idx >>= k)
            (fun_ext (λ raw.
              lattice_rounds-agree left (r + 1) (c.blake3_256 (blake3_round_input mix raw))))

    strict_v2_hash-agree :
        (spec : Spec) (header : Bytes) (nonce : Option ℕ)
        → strict_v2_hash c spec header nonce a ≡ strict_v2_hash c spec header nonce b
    unfolding strict_v2_hash
    strict_v2_hash-agree spec header nonce = rw (
      strict_rounds-agree spec spec.compute_rounds 0 (c.sha256 (append_nonce nonce header)),
      g.count_left,
      g.count_right,
    )

    pub lattice_v1-agree :
        (spec : Spec) (header : Bytes) (nonce : Option ℕ)
        → lattice_v1 c spec header nonce a ≡ lattice_v1 c spec header nonce b
    unfolding lattice_v1
    lattice_v1-agree spec header nonce = rw (
      lattice_rounds-agree spec.reads_per_hash 0 (take 32 (c.sha3_512 (append_nonce nonce header))),
      g.count_left,
      g.count_right,
    )

full-Agree :
    (c : Crypto) (full : Dag) (spec : Spec) (seed : Bytes)
    → validate spec ≡ ok tt
    → IsDagSize spec spec.dag_size_bytes
    → full.spec ≡ spec
    → ((i : ℕ)
        → i < spec.dag_size_bytes / 64
        → node full i ≡ ok (stateless_read_node c (record { spec = spec; epoch_seed = seed }) i))
    → Agree
        (spec.dag_size_bytes / 64)
        (dag_accessor full)
        (stateless_accessor c (record { spec = spec; epoch_seed = seed }))
unfolding dag_accessor stateless_accessor stateless_node_count
full-Agree c full spec seed valid size same nodes =
    let counted = node_count-resolved spec spec.dag_size_bytes (validate-IsSized spec valid) size in
    record {
      count_left = ap node_count same ∙ counted;
      count_right = counted;
      same = nodes;
      nonempty = omega (arith, size.whole_nodes, size.positive);
    }

pub stateless_runs :
    (c : Crypto) (spec : Spec) (header seed : Bytes) (nonce : Option ℕ)
    → validate spec ≡ ok tt
    → seed ≢ []
    → hash_header_stateless c spec header nonce seed ≡ (
        if leb 2 spec.algorithm_version
        then strict_v2_hash c spec header nonce
            (stateless_accessor c (record { spec = spec; epoch_seed = seed }))
        else lattice_v1 c spec header nonce
            (stateless_accessor c (record { spec = spec; epoch_seed = seed })))
unfolding hash_header_stateless new_stateless_dag lattice_hash_view
stateless_runs c spec header [] n valid some_seed = absurd (some_seed refl)
stateless_runs c spec header (x ∷ seed) n valid some_seed = rw valid (ground arith)

-- Light verification: on a DAG that `PopulateDAG` filled, `LatticeHash` returns what
-- `HashHeaderStateless` computes with no DAG, for every header and nonce, in both modes and both
-- algorithm versions, for any order of the goroutines' rounds and any number of workers.
pub lattice_hash_dag-stateless :
    (c : Crypto) (num_cpu : ℕ) (schedule : List (List ℕ) → List ℕ) (d : Dag) (a : Allocation)
    (seed : Bytes) (workers : ℕ) (header : Bytes) (nonce : Option ℕ)
    → ((ls : List (List ℕ)) → Runs ls (schedule ls))
    → 0 < num_cpu
    → seed ≢ []
    → IsReady d a
    → (populate_dag c num_cpu schedule d seed workers >>= λ full.
        lattice_hash_dag c full.spec header nonce full)
      ≡ hash_header_stateless c d.spec header nonce seed
unfolding lattice_hash_dag
lattice_hash_dag-stateless c num_cpu schedule d a seed workers header nonce fair cpus some_seed r =
    let (full, run, same, nodes) =
      populate_dag-node c num_cpu schedule d a seed workers fair cpus some_seed r in
    let g = full-Agree c full d.spec seed r.valid r.size same nodes in
    let strict = strict_v2_hash-agree g c d.spec header nonce in
    let lattice = lattice_v1-agree g c d.spec header nonce in
    rw (run, same, strict, lattice, stateless_runs c d.spec header seed nonce r.valid some_seed)
