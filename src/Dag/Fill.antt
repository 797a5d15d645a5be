-- ===== src/Dag/Fill.antt =====
-- `GenerateDAG`: what stands in the buffer when every goroutine is done, in any order of their
-- rounds and for any number of them.
use colossusx.Prelude.{
  ℕ, ◌+◌, ◌*◌, ◌/◌, ◌<◌, ◌≤◌, ◌≡◌, ◌≢◌, refl, ◌∙◌, ◌⊎◌, inl, inr, ltb, ◌==◌, false, List, [], ◌∷◌,
  ◌++◌, length, drop, either, ok, arith,
}
use colossusx.Prelude.Slices.{Bytes, copy_at, length-copy_at, drop-copy_at}
use colossusx.Prelude.Endian.{le}
use colossusx.Crypto.{Crypto}
use colossusx.Spec.{Spec, u64_mod, validate}
use colossusx.Spec.Valid.{validate-IsSized}
use colossusx.Spec.Size.{IsDagSize}
use colossusx.Spec.Epoch.{node_count-resolved}
use colossusx.Dag.{
  View, write_node, write_nodes, generate_dag, worker_ranges, chunk_size, worker_count,
}
use colossusx.Dag.Nodes.{node_at, IsFilled, IsBuffer, take_all, right_after}
use colossusx.Dag.Schedule.{Has, Runs, Runs-sound, Runs-complete}
use colossusx.Dag.Ranges.{worker_ranges-exact}

module _ (c : Crypto) (spec : Spec) (seed : Bytes) where
  -- The content of a node: `keccak512(epoch_seed || little_endian(i))`.
  abbrev pub research_content : ℕ → Bytes
  research_content i = c.keccak512 (seed ++ le 8 i)

  -- One round inside the buffer does not panic, and is a plain write.
  write_node_lem :
      (i : ℕ) (array : Bytes)
      → spec.node_size ≡ 64
      → i * 64 + 64 ≤ length array
      → length array < u64_mod
      → write_node c spec seed i array ≡ ok (copy_at (i * 64) (research_content i) array)
  unfolding write_node
  write_node_lem i array sized room fits =
      rw (sized, take_all (research_content i) 64 (c.length-keccak512 _)) (ground arith)

  -- The first `n` nodes lie in the array.
  record Fits (n : ℕ) (array : Bytes) : Type 0 where
    nodes_fit : n * 64 ≤ length array
    array_fits : length array < u64_mod

  -- After some rounds: a node that was written, or was right before, is right.
  record Done (n : ℕ) (is : List ℕ) (old new : Bytes) : Type 0 where
    right :
        (i : ℕ)
        → i < n
        → Has i is ⊎ (node_at i old ≡ research_content i)
        → node_at i new ≡ research_content i
    keeps_length : length new ≡ length old
    keeps_rest : drop (n * 64) new ≡ drop (n * 64) old

  still_right :
      (i j : ℕ) (is : List ℕ) (array : Bytes)
      → j * 64 + 64 ≤ length array
      → Has i (j ∷ is) ⊎ (node_at i array ≡ research_content i)
      → Has i is ⊎ (node_at i (copy_at (j * 64) (research_content j) array) ≡ research_content i)
  still_right i j is array room h =
      let step = right_after research_content (λ k. c.length-keccak512 _) i j array room in
      either h (λ k. either k (λ e. inr (step (inl e))) inl) (λ r. inr (step (inr r)))

  write_nodes_lem :
      (n : ℕ) (is : List ℕ) (array : Bytes)
      → spec.node_size ≡ 64
      → ((i : ℕ) → Has i is → i < n)
      → Fits n array
      → (new : Bytes) × (write_nodes c spec seed is array ≡ ok new) × Done n is array new
  unfolding write_nodes
  write_nodes_lem n [] array sized inside f = (
    array,
    refl,
    record {
      right = λ i hi h. either h (λ k. absurd k) (λ r. r);
      keeps_length = refl;
      keeps_rest = refl;
    },
  )
  write_nodes_lem n (j ∷ is) array sized inside f =
      let first : j < n = inside j (inl refl) in
      let next = copy_at (j * 64) (research_content j) array in
      let len : length next ≡ length array = length-copy_at (j * 64) (research_content j) array in
      let room : j * 64 + 64 ≤ length array = omega (arith, f.nodes_fit) in
      let f' : Fits n next = record {
        nodes_fit = omega (arith, f.nodes_fit);
        array_fits = omega (arith, f.array_fits);
      } in
      let (new, run, d) = write_nodes_lem n is next sized (λ i h. inside i (inr h)) f' in
      (
        new,
        rw (write_node_lem j array sized room f.array_fits) run,
        record {
          right = λ i hi h. d.right i hi (still_right i j is array room h);
          keeps_length = d.keeps_length ∙ len;
          keeps_rest =
              d.keeps_rest
              ∙ drop-copy_at (n * 64) (j * 64) (research_content j) array
                  (omega (arith, c.length-keccak512 (seed ++ le 8 j)));
        },
      )

-- The rounds that all goroutines together make.
abbrev all_rounds : ℕ → (List (List ℕ) → List ℕ) → Spec → List ℕ
all_rounds n schedule spec =
    let count = spec.dag_size_bytes / 64 in
    schedule (worker_ranges n (chunk_size count n) count 0 n)

some_length : (seed : Bytes) → seed ≢ [] → (length seed == 0) ≡ false
some_length [] h = absurd (h refl)
some_length (x ∷ seed) h = ground arith

-- On good arguments every check passes, and the call comes to the rounds.
generate_dag_run :
    (c : Crypto) (num_cpu : ℕ) (schedule : List (List ℕ) → List ℕ) (spec : Spec) (dag : View)
    (seed : Bytes) (workers : ℕ) (new : Bytes)
    → validate spec ≡ ok tt
    → IsDagSize spec spec.dag_size_bytes
    → seed ≢ []
    → spec.dag_size_bytes ≤ dag.len
    → write_nodes c spec seed (all_rounds (worker_count num_cpu workers) schedule spec) dag.array
      ≡ ok new
    → generate_dag c num_cpu schedule spec dag seed workers ≡ ok (record dag { array = new })
unfolding generate_dag
generate_dag_run c num_cpu schedule spec dag seed workers new valid d some_seed room run = rw (
  valid,
  some_length seed some_seed,
  test,
  node_count-resolved spec spec.dag_size_bytes (validate-IsSized spec valid) d,
  run,
)
  where
    test : ltb dag.len spec.dag_size_bytes ≡ false
    test = ground arith

pub generate_dag-IsFilled :
    (c : Crypto) (num_cpu : ℕ) (schedule : List (List ℕ) → List ℕ) (spec : Spec) (dag : View)
    (seed : Bytes) (workers : ℕ)
    → ((ls : List (List ℕ)) → Runs ls (schedule ls))
    → 0 < num_cpu
    → validate spec ≡ ok tt
    → IsDagSize spec spec.dag_size_bytes
    → seed ≢ []
    → IsBuffer spec.dag_size_bytes dag
    → (new : Bytes) × (generate_dag c num_cpu schedule spec dag seed workers
        ≡ ok (record dag { array = new }))
      × IsFilled (spec.dag_size_bytes / 64) (research_content c spec seed) dag.array new
unfolding generate_dag worker_count
generate_dag-IsFilled c num_cpu schedule spec dag seed workers fair cpus valid d some_seed b =
    let n = worker_count num_cpu workers in
    let count = spec.dag_size_bytes / 64 in
    let ls = worker_ranges n (chunk_size count n) count 0 n in
    let z = validate-IsSized spec valid in
    let pos : 0 < n = ground arith in
    let exact = λ (i : ℕ). worker_ranges-exact n count i (omega (arith, d.below_limit)) pos in
    let (new, run, done) =
      write_nodes_lem c spec seed count (schedule ls) dag.array z.node_size_64
        (λ i h. (exact i).0 (Runs-sound i (fair ls) h))
        (record { nodes_fit = omega (arith, b.long_enough); array_fits = b.array_typed }) in
    (
      new,
      generate_dag_run c num_cpu schedule spec dag seed workers new valid d some_seed b.long_enough
          run,
      record {
        filled = λ i hi. done.right i hi (inl (Runs-complete i (fair ls) ((exact i).1 hi)));
        same_length = done.keeps_length;
        same_rest = done.keeps_rest;
      },
    )
