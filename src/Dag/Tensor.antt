-- ===== src/Dag/Tensor.antt =====
-- `GenerateTensorDAG`, the sequential generator of strict mode, and `PopulateDAG`.
use colossusx.Prelude.{
  ℕ, zero, suc, ◌+◌, ◌*◌, ◌/◌, ◌%◌, ◌<◌, ◌≤◌, ◌≡◌, refl, ap, ◌∙◌, ◌⊎◌, inl, inr, ltb, leb, ◌==◌,
  ◌&&◌, true, ◌++◌, length, drop, Bool-cases, either, ok, arith,
}
use colossusx.Prelude.Slices.{Bytes, copy_at, length-copy_at, drop-copy_at}
use colossusx.Prelude.Endian.{le}
use colossusx.Crypto.{Crypto}
use colossusx.Spec.{Spec, Mode, strict, u64_mod, validate}
use colossusx.Spec.Valid.{validate-IsSized}
use colossusx.Spec.Size.{IsDagSize}
use colossusx.Dag.{View, is_strict, tensor_loop, generate_tensor_dag}
use colossusx.Dag.Nodes.{node_at, IsFilled, IsBuffer, take_all, right_after}

module _ (c : Crypto) (spec : Spec) (seed : Bytes) where
  -- The content of a node: 64 bytes of the output of BLAKE3 on the seed and the index.
  abbrev pub strict_content : ℕ → Bytes
  strict_content i = c.blake3_xof (seed ++ le 8 i) 64

  -- The state of the loop when `tile` nodes are written.
  record AtTile (n tile : ℕ) (dag : View) : Type 0 where
    tile_le : tile ≤ n
    nodes_fit : n * 64 ≤ dag.len
    in_array : dag.len ≤ length dag.array
    array_fits : length dag.array < u64_mod

  abbrev wrote : ℕ → View → View
  wrote tile dag = record dag { array = copy_at (tile * 64) (strict_content tile) dag.array }

  round-AtTile :
      (n tile : ℕ) (dag : View)
      → AtTile n tile dag
      → tile < n
      → AtTile n (tile + 1) (wrote tile dag)
  round-AtTile n tile dag a lt =
      let len = length-copy_at (tile * 64) (strict_content tile) dag.array in
      record {
        tile_le = omega arith;
        nodes_fit = a.nodes_fit;
        in_array = omega (arith, len, a.in_array);
        array_fits = omega (arith, len, a.array_fits);
      }

  -- One round of the loop, and its end, without the wrap-around that cannot happen.
  tensor_loop-round :
      (fuel n tile : ℕ) (dag : View)
      → spec.node_size ≡ 64
      → spec.dag_size_bytes ≡ n * 64
      → AtTile n tile dag
      → tile < n
      → tensor_loop c (suc fuel) spec seed (tile * 64) tile dag
        ≡ tensor_loop c fuel spec seed ((tile + 1) * 64) (tile + 1) (wrote tile dag)
  unfolding tensor_loop
  tensor_loop-round fuel n tile dag sized size a lt =
      let same : (tile * 64 + 64) % u64_mod ≡ (tile + 1) * 64 =
        omega (arith, a.nodes_fit, a.in_array, a.array_fits) in
      let tile' : (tile + 1) % u64_mod ≡ tile + 1 =
        omega (arith, a.nodes_fit, a.in_array, a.array_fits) in
      let here : (leb ((tile + 1) * 64) dag.len && ltb (tile * 64) (n * 64)) ≡ true =
        ground (arith, a.nodes_fit) in
      rw (
        sized,
        size,
        same,
        tile',
        here,
        take_all (strict_content tile) 64 (c.length-blake3_xof _ 64),
      )

  tensor_loop-end :
      (fuel n : ℕ) (dag : View)
      → spec.dag_size_bytes ≡ n * 64
      → tensor_loop c (suc fuel) spec seed (n * 64) n dag ≡ ok dag
  unfolding tensor_loop
  tensor_loop-end fuel n dag size = ground arith

  -- From round `tile` on: the nodes before are kept, and those from it on are written.
  record Finishes (n tile : ℕ) (old new : Bytes) : Type 0 where
    right :
        (i : ℕ)
        → i < n
        → (tile ≤ i) ⊎ (node_at i old ≡ strict_content i)
        → node_at i new ≡ strict_content i
    keeps_length : length new ≡ length old
    keeps_rest : drop (n * 64) new ≡ drop (n * 64) old

  Finishes-end : (n : ℕ) (old : Bytes) → Finishes n n old old
  Finishes-end n old = record {
    right = λ i hi h. either h (λ k. absurd (omega arith)) (λ r. r);
    keeps_length = refl;
    keeps_rest = refl;
  }

  Finishes-round :
      (n tile : ℕ) (dag : View) (new : Bytes)
      → AtTile n tile dag
      → tile < n
      → Finishes n (tile + 1) (wrote tile dag).array new
      → Finishes n tile dag.array new
  Finishes-round n tile dag new a lt f = record {
    right = λ i hi h. f.right i hi (before i h);
    keeps_length = f.keeps_length ∙ length-copy_at (tile * 64) (strict_content tile) dag.array;
    keeps_rest =
        f.keeps_rest
        ∙ drop-copy_at (n * 64) (tile * 64) (strict_content tile) dag.array
            (omega (arith, c.length-blake3_xof (seed ++ le 8 tile) 64));
  }
    where
      step :
          (i : ℕ)
          → (i ≡ tile) ⊎ (node_at i dag.array ≡ strict_content i)
          → node_at i (wrote tile dag).array ≡ strict_content i
      step i =
          right_after strict_content (λ k. c.length-blake3_xof _ 64) i tile dag.array
            (omega (arith, a.nodes_fit, a.in_array))

      before :
          (i : ℕ)
          → (tile ≤ i) ⊎ (node_at i dag.array ≡ strict_content i)
          → (tile + 1 ≤ i) ⊎ (node_at i (wrote tile dag).array ≡ strict_content i)
      before i h =
          either h
            (λ le. elim (Bool-cases (i == tile)) [
              | inl e ↦ inr (step i (inl (ground arith)))
              | inr ne ↦ inl (ground arith)
            ])
            (λ r. inr (step i (inr r)))

  tensor_loop_lem :
      (fuel n left tile : ℕ) (dag : View)
      → spec.node_size ≡ 64
      → spec.dag_size_bytes ≡ n * 64
      → AtTile n tile dag
      → tile + left ≡ n
      → left < fuel
      → (new : Bytes) × (tensor_loop c fuel spec seed (tile * 64) tile dag
          ≡ ok (record dag { array = new }))
        × Finishes n tile dag.array new
  tensor_loop_lem zero n left tile dag sized size a e f = absurd (omega arith)
  tensor_loop_lem (suc fuel) n zero tile dag sized size a e f =
      let e' : tile ≡ n = omega arith in
      rw e' (dag.array, tensor_loop-end fuel n dag size, Finishes-end n dag.array)
  tensor_loop_lem (suc fuel) n (suc left) tile dag sized size a e f =
      let lt : tile < n = omega arith in
      let (new, run, fin) =
        tensor_loop_lem fuel n left (tile + 1) (wrote tile dag) sized size
          (round-AtTile n tile dag a lt) (omega arith) (omega arith) in
      (
        new,
        tensor_loop-round fuel n tile dag sized size a lt ∙ run,
        Finishes-round n tile dag new a lt fin,
      )

pub is_strict-eq : (m : Mode) → m ≡ strict → is_strict m ≡ true
is_strict-eq m e = ap is_strict e

generate_tensor_dag-loop :
    (c : Crypto) (spec : Spec) (dag : View) (seed : Bytes)
    → validate spec ≡ ok tt
    → is_strict spec.mode ≡ true
    → generate_tensor_dag c spec dag seed ≡ tensor_loop c (suc dag.len) spec seed 0 0 dag
unfolding generate_tensor_dag
generate_tensor_dag-loop c spec dag seed valid mode = rw (valid, mode)

pub generate_tensor_dag-IsFilled :
    (c : Crypto) (spec : Spec) (dag : View) (seed : Bytes)
    → validate spec ≡ ok tt
    → spec.mode ≡ strict
    → IsDagSize spec spec.dag_size_bytes
    → IsBuffer spec.dag_size_bytes dag
    → (new : Bytes) × (generate_tensor_dag c spec dag seed ≡ ok (record dag { array = new }))
      × IsFilled (spec.dag_size_bytes / 64) (strict_content c spec seed) dag.array new
generate_tensor_dag-IsFilled c spec dag seed valid mode d b =
    let n = spec.dag_size_bytes / 64 in
    let size : spec.dag_size_bytes ≡ n * 64 = omega (arith, d.whole_nodes) in
    let start : AtTile c spec seed n 0 dag = record {
      tile_le = omega arith;
      nodes_fit = omega (arith, b.long_enough);
      in_array = b.in_array;
      array_fits = b.array_typed;
    } in
    let (new, run, fin) =
      tensor_loop_lem c spec seed (suc dag.len) n n 0 dag (validate-IsSized spec valid).node_size_64
        size start (omega arith) (omega (arith, b.long_enough)) in
    (
      new,
      generate_tensor_dag-loop c spec dag seed valid (is_strict-eq spec.mode mode) ∙ run,
      record {
        filled = λ i hi. fin.right i hi (inl (omega arith));
        same_length = fin.keeps_length;
        same_rest = fin.keeps_rest;
      },
    )
