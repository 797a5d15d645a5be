-- ===== src/Hash.antt =====
-- colossusx/hash.go, hash_strict_v2.go and round_commit.go: the proof-of-work functions. An accessor
-- is what they read the DAG through.
pub mod Agree
pub mod Total
use colossusx.Prelude.{
  ℕ, zero, suc, ◌+◌, ◌-◌, ◌*◌, ◌/◌, ◌%◌, ◌^◌, Bool, true, false, not, ◌&&◌, ltb, leb, ◌==◌, bit_xor,
  if◌then◌else◌, List, [], ◌∷◌, ◌++◌, length, take, drop, get_or, replicate, Option, none, some, Go,
  ok, err, panic_if, ◌>>=◌, ◌>>◌,
}
use colossusx.Prelude.Slices.{Bytes, slice}
use colossusx.Prelude.Endian.{le, le_value}
use colossusx.Crypto.{Crypto}
use colossusx.Spec.{Spec, node_count}
use colossusx.Nonce.{append_nonce}
use colossusx.Dag.{Dag, node}
use colossusx.Stateless.{StatelessDag, new_stateless_dag, stateless_node_count, stateless_read_node}

pub record HashResult : Type 0 where
  pub pow256 : Bytes
  pub full512 : Bytes

-- the zero value of `HashResult`
abbrev pub no_result : HashResult
no_result = record { pow256 = replicate 32 0; full512 = replicate 64 0 }

-- `DAGAccessor` and `TensorDAGAccessor`: a tile is made from the bytes of a node.
pub record Accessor : Type 0 where
  pub count : Go ℕ
  pub read : ℕ → Go Bytes

unfoldable pub dag_accessor : Dag → Accessor
dag_accessor d = record { count = node_count d.spec; read = node d }

unfoldable pub stateless_accessor : Crypto → StatelessDag → Accessor
stateless_accessor c d = record {
  count = stateless_node_count d;
  read = λ i. ok (stateless_read_node c d i);
}

-- `x % n` on uint64
abbrev pub checked_mod : ℕ → ℕ → Go ℕ
checked_mod x n = do panic_if (n == 0); ok (x % n)

-- `fnv1a64`, from the state `h` on
unfoldable pub fnv_from : ℕ → Bytes → ℕ
fnv_from h [] = h
fnv_from h (b ∷ bs) = fnv_from (bit_xor h b * 1099511628211 % 2 ^ 64) bs

unfoldable pub fnv1a64 : Bytes → ℕ
unfolding fnv_from
fnv1a64 bs = fnv_from 14695981039346656037 bs

unfoldable pub xor_bytes : Bytes → Bytes → Bytes
xor_bytes [] v = []
xor_bytes (x ∷ u) [] = []
xor_bytes (x ∷ u) (y ∷ v) = bit_xor x y ∷ xor_bytes u v

-- `blake3RoundInput`: the mix against each half of the node
unfoldable pub blake3_round_input : Bytes → Bytes → Bytes
unfolding xor_bytes
blake3_round_input mix raw = xor_bytes mix (take 32 raw) ++ xor_bytes mix (drop 32 raw)

-- the bytes `f 0`, `f 1`, … of an array, from index `k` on
unfoldable pub tabulate_from : {A : Type 0} → ℕ → ℕ → (ℕ → A) → List A
tabulate_from k zero f = []
tabulate_from k (suc n) f = f k ∷ tabulate_from (k + 1) n f

abbrev pub tabulate : {A : Type 0} → ℕ → (ℕ → A) → List A
tabulate n f = tabulate_from 0 n f

-- `int32(int8(b))`, as a 32-bit pattern
abbrev pub sign_extend : ℕ → ℕ
sign_extend b = if ltb b 128 then b else b + 2 ^ 32 - 256

-- `int32` sums, differences and products on 32-bit patterns
abbrev pub add32 : ℕ → ℕ → ℕ
add32 a b = (a + b) % 2 ^ 32

abbrev pub sub32 : ℕ → ℕ → ℕ
sub32 a b = (a + 2 ^ 32 - b) % 2 ^ 32

abbrev pub mul32 : ℕ → ℕ → ℕ
mul32 a b = a * b % 2 ^ 32

-- `TensorTile`; the entries of the matrices are `int8` patterns, the biases `int32` patterns.
pub record TensorTile : Type 0 where
  pub matrix_a : Bytes
  pub matrix_b : Bytes
  pub bias : List ℕ
  pub permute : Bytes
  pub meta : Bytes

-- `ReadTensorTile`, from the bytes of the node
unfoldable pub tensor_tile : Bytes → TensorTile
unfolding tabulate_from
tensor_tile raw = record {
  matrix_a = tabulate 256 (λ j. get_or raw (j % 64) 0);
  matrix_b = tabulate 256 (λ j. get_or raw ((j + 17) % 64) 0);
  bias = tabulate 16 (λ j. sign_extend (get_or raw j 0));
  permute = take 32 raw;
  meta = slice 32 32 raw;
}

-- the inner loop over `j`, with `left` rounds to come
unfoldable pub lane_sum : TensorTile → ℕ → ℕ → ℕ → ℕ → ℕ → ℕ
lane_sum tile r i zero j acc = acc
lane_sum tile r i (suc left) j acc = lane_sum tile r i left (j + 1) (
    add32 acc (
      mul32 (sign_extend (get_or tile.matrix_a (i * 16 + j) 0))
        (sign_extend (get_or tile.matrix_b (j * 16 + (i + r) % 16) 0))))

-- `lane[i]`
unfoldable pub lane : Bytes → TensorTile → ℕ → ℕ → ℕ
unfolding lane_sum
lane state tile r i =
    lane_sum tile r i 16 0
      (sub32 (add32 (get_or tile.bias i 0) (get_or state i 0)) (get_or state (31 - i) 0))

-- `buf`, from lane `i` on
unfoldable pub lanes_from : Bytes → TensorTile → ℕ → ℕ → ℕ → Bytes
unfolding lane
lanes_from state tile r i zero = []
lanes_from state tile r i (suc left) =
    le 4 (
      bit_xor
        (bit_xor (bit_xor (lane state tile r i) (get_or tile.meta i 0)) (get_or tile.permute i 0))
        r)
    ++ lanes_from state tile r (i + 1) left

module _ (c : Crypto) where
  -- `RoundCommit`
  unfoldable pub round_commit : ℕ → Bytes → Bytes
  round_commit round state = c.sha256 (state ++ le 4 round)

  -- the state behind round `r` of `StrictV2Hash`, from the bytes of the tile that it reads
  unfoldable pub strict_step : Spec → ℕ → Bytes → Bytes → Bytes
  unfolding tensor_tile lanes_from round_commit
  strict_step spec r state raw =
      let mixed = c.sha256 (state ++ lanes_from state (tensor_tile raw) r 0 16) in
      if ltb 0 spec.round_commit_interval && (r + 1) % spec.round_commit_interval == 0
      then round_commit (r + 1) mixed
      else mixed

  -- the rounds of `StrictV2Hash` from round `r` on, with `left` to come
  unfoldable pub strict_rounds : Spec → Accessor → ℕ → ℕ → Bytes → Go Bytes
  strict_rounds spec acc zero r state = ok state
  strict_rounds spec acc (suc left) r state = do
    count ← acc.count
    idx ← checked_mod (le_value (take 8 state)) count
    raw ← acc.read idx
    strict_rounds spec acc left (r + 1) (strict_step spec r state raw)

  -- `StrictV2Hash` on an accessor that is not nil
  unfoldable pub strict_v2_hash : Spec → Bytes → Option ℕ → Accessor → Go HashResult
  strict_v2_hash spec header nonce acc = do
    count ← acc.count
    let seed = c.sha256 (append_nonce nonce header)
    if count == 0 then ok no_result else do
      state ← strict_rounds spec acc spec.compute_rounds 0 seed
      let final = c.sha256 state
      ok (record { pow256 = final; full512 = final ++ c.sha256 (seed ++ final) })

  -- the rounds of `LatticeHash` from round `r` on, with `left` to come
  unfoldable pub lattice_rounds : Accessor → ℕ → ℕ → Bytes → Go Bytes
  lattice_rounds acc zero r mix = ok mix
  lattice_rounds acc (suc left) r mix = do
    count ← acc.count
    idx ← checked_mod (fnv1a64 (mix ++ le 8 r)) count
    raw ← acc.read idx
    lattice_rounds acc left (r + 1) (c.blake3_256 (blake3_round_input mix raw))

  -- `LatticeHash` behind its first test
  unfoldable pub lattice_v1 : Spec → Bytes → Option ℕ → Accessor → Go HashResult
  lattice_v1 spec header nonce acc = do
    count ← acc.count
    let seed512 = c.sha3_512 (append_nonce nonce header)
    if count == 0 then ok no_result else do
      mix ← lattice_rounds acc spec.reads_per_hash 0 (take 32 seed512)
      let final512 = c.sha3_512 (seed512 ++ mix)
      ok (record { pow256 = take 32 final512; full512 = final512 })

  -- `LatticeHash` on a `*DAG`, which goes over to the strict function from version 2 on
  unfoldable pub lattice_hash_dag : Spec → Bytes → Option ℕ → Dag → Go HashResult
  lattice_hash_dag spec header nonce d =
      if leb 2 spec.algorithm_version
      then strict_v2_hash spec header nonce (dag_accessor d)
      else lattice_v1 spec header nonce (dag_accessor d)

  -- `LatticeHash` on any other accessor; none in the repository has an `UnderlyingDAG`
  unfoldable pub lattice_hash_view : Spec → Bytes → Option ℕ → Accessor → Go HashResult
  lattice_hash_view spec header nonce acc = lattice_v1 spec header nonce acc

  -- `HashHeaderStateless`
  unfoldable pub hash_header_stateless : Spec → Bytes → Option ℕ → Bytes → Go HashResult
  hash_header_stateless spec header nonce epoch_seed = do
    d ← new_stateless_dag spec epoch_seed
    if leb 2 spec.algorithm_version
        then strict_v2_hash spec header nonce (stateless_accessor c d)
        else lattice_hash_view spec header nonce (stateless_accessor c d)
