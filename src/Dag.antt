-- ===== src/Dag.antt =====
-- colossusx/dag.go and dag_tensor.go: the buffer of nodes, who owns it, and how it is filled.
-- A slice is its length and the array behind it; Go bounds an index pair by the capacity, which is
-- the length of that array.
pub mod Schedule
pub mod Ranges
pub mod Nodes
pub mod Fill
pub mod Tensor
use colossusx.Prelude.{
  ℕ, zero, suc, ◌+◌, ◌-◌, ◌*◌, ◌/◌, ◌%◌, ◌<◌, Bool, true, false, not, ◌&&◌, ◌||◌, ltb, leb, ◌==◌,
  if◌then◌else◌, List, [], ◌∷◌, ◌++◌, map, length, take, replicate, Option, none, some, Go, ok, err,
  panic, stuck, refuse, panic_if, ◌>>=◌, ◌>>◌, Error,
}
use colossusx.Prelude.Slices.{Bytes, slice, copy_at}
use colossusx.Prelude.Endian.{le}
use colossusx.Crypto.{Crypto}
use colossusx.Spec.{Spec, Mode, strict, validate, node_count, u64_mod}

pub record View : Type 0 where
  pub len : ℕ
  pub array : Bytes

-- What an `Allocation` holds: its name and its bytes.
pub record Allocation : Type 0 where
  pub name : Bytes
  pub bytes : Bytes

-- The allocators are code of drivers: an allocation or an error for each size.
pub record Allocator : Type 0 where
  pub name : Bytes
  pub alloc : ℕ → Go Allocation

pub record Dag : Type 0 where
  pub spec : Spec
  pub alloc : Option Allocation
  pub ownership : Bool

abbrev or_nil_alloc : Option Allocation → Go Allocation
or_nil_alloc none = err Error.nil_allocation
or_nil_alloc (some a) = ok a

-- `NewDAGWithAllocation`. The refused allocation, which is freed if owned, is not returned.
unfoldable pub new_dag_with_allocation : Spec → Option Allocation → Bool → Go Dag
new_dag_with_allocation spec alloc ownership = do
  validate spec
  a ← or_nil_alloc alloc
  refuse (ltb (length a.bytes) spec.dag_size_bytes) Error.short_allocation
  ok (record { spec = spec; alloc = some a; ownership = ownership })

abbrev or_nil_allocator : Option Allocator → Go Allocator
or_nil_allocator none = err Error.nil_allocator
or_nil_allocator (some a) = ok a

-- `NewDAGWithAllocator`
unfoldable pub new_dag_with_allocator : Spec → Option Allocator → Go Dag
unfolding new_dag_with_allocation
new_dag_with_allocator spec allocator = do
  a ← or_nil_allocator allocator
  alloc ← a.alloc spec.dag_size_bytes
  new_dag_with_allocation spec (some alloc) true

-- `DAG.Bytes`
unfoldable pub dag_bytes : Dag → View
dag_bytes d = elim d.alloc [
  | none ↦ record { len = 0; array = [] }
  | some a ↦ record {
    len =
        if ltb d.spec.dag_size_bytes (length a.bytes)
        then d.spec.dag_size_bytes
        else length a.bytes;
    array = a.bytes;
  }
]

-- `buf[off : off+n]` for numbers of type uint64
unfoldable pub checked_slice : ℕ → ℕ → Bytes → Go Bytes
checked_slice off n array =
    let end = (off + n) % u64_mod in
    do panic_if (ltb end off || ltb (length array) end); ok (slice off n array)

-- `DAG.Node`, and `DAG.ReadNode`, which copies its 64 bytes
unfoldable pub node : Dag → ℕ → Go Bytes
unfolding dag_bytes checked_slice
node d i = checked_slice (i * d.spec.node_size % u64_mod) d.spec.node_size (dag_bytes d).array

-- `DAG.Close`. A second call finds no allocation.
unfoldable pub close : Dag → Dag
close d = elim d.alloc [
  | none ↦ d
  | some a ↦ if d.ownership then record d { alloc = none; ownership = false } else d
]

-- The indices `from`, `from + 1`, … of `count` nodes.
unfoldable pub range_from : ℕ → ℕ → List ℕ
range_from from zero = []
range_from from (suc count) = from ∷ range_from (from + 1) count

-- The loop over the workers `w`, `w + 1`, …: the node indices of each goroutine that is started.
-- `left` counts the workers still to come.
unfoldable pub worker_ranges : ℕ → ℕ → ℕ → ℕ → ℕ → List (List ℕ)
worker_ranges workers chunk count w zero = []
worker_ranges workers chunk count w (suc left) =
    let rest = worker_ranges workers chunk count (w + 1) left in
    let from = w * chunk % u64_mod in
    let next = (from + chunk) % u64_mod in
    let to = if w == workers - 1 || ltb count next then count else next in
    if leb count from then [] else range_from from (to - from) ∷ rest

-- `chunk := nodeCount / uint64(workers)`, and 1 for more workers than nodes
unfoldable pub chunk_size : ℕ → ℕ → ℕ
chunk_size count workers = if count / workers == 0 then 1 else count / workers

-- `if workers <= 0 { workers = runtime.NumCPU() }`; 0 stands for every number that is not positive
unfoldable pub worker_count : ℕ → ℕ → ℕ
worker_count num_cpu workers = if workers == 0 then num_cpu else workers

abbrev pub is_strict : Mode → Bool
is_strict strict = true
is_strict _ = false

-- the array behind `dag.Bytes()` is the allocation's
abbrev pub with_array : Dag → Bytes → Dag
with_array d array = elim d.alloc [
  | none ↦ d
  | some a ↦ record d { alloc = some (record a { bytes = array }) }
]

module _ (c : Crypto) where
  -- One round of a goroutine: `keccak512(seed || le(i))` into node `i`.
  unfoldable pub write_node : Spec → Bytes → ℕ → Bytes → Go Bytes
  write_node spec seed i array =
      let off = i * spec.node_size % u64_mod in
      let end = (off + spec.node_size) % u64_mod in
      do
        panic_if (ltb end off || ltb (length array) end)
        ok (copy_at off (take spec.node_size (c.keccak512 (seed ++ le 8 i))) array)

  -- The rounds of all goroutines, in the order in which they happen.
  unfoldable pub write_nodes : Spec → Bytes → List ℕ → Bytes → Go Bytes
  write_nodes spec seed [] array = ok array
  write_nodes spec seed (i ∷ is) array = do
    array' ← write_node spec seed i array
    write_nodes spec seed is array'

  -- `GenerateDAG`. `schedule` is the order that the Go scheduler gives to the rounds of the
  -- goroutines: any interleaving of their lists.
  unfoldable pub generate_dag : ℕ → (List (List ℕ) → List ℕ) → Spec → View → Bytes → ℕ → Go View
  generate_dag num_cpu schedule spec dag seed workers = do
    validate spec
    refuse (length seed == 0) Error.empty_seed
    refuse (ltb dag.len spec.dag_size_bytes) Error.short_allocation
    let n = worker_count num_cpu workers
    count ← node_count spec
    array ←
        write_nodes spec seed (schedule (worker_ranges n (chunk_size count n) count 0 n)) dag.array
    ok (record dag { array = array })

  -- The loop of `GenerateTensorDAG`
  unfoldable pub tensor_loop : ℕ → Spec → Bytes → ℕ → ℕ → View → Go View
  tensor_loop zero spec seed off tile dag = stuck
  tensor_loop (suc fuel) spec seed off tile dag =
      let out = c.blake3_xof (seed ++ le 8 tile) spec.node_size in
      let rest =
        tensor_loop fuel spec seed ((off + spec.node_size) % u64_mod) ((tile + 1) % u64_mod)
          (record dag { array = copy_at off (take spec.node_size out) dag.array }) in
      if leb ((off + spec.node_size) % u64_mod) dag.len && ltb off spec.dag_size_bytes
      then rest
      else ok dag

  -- `GenerateTensorDAG`, which checks neither the seed nor the buffer. Each round writes at least a
  -- byte, so the length of the buffer is fuel enough.
  unfoldable pub generate_tensor_dag : Spec → View → Bytes → Go View
  generate_tensor_dag spec dag seed = do
    validate spec
    refuse (not (is_strict spec.mode)) Error.strict_only
    tensor_loop (suc dag.len) spec seed 0 0 dag

  -- `PopulateDAG` on a DAG that is not nil
  unfoldable pub populate_dag : ℕ → (List (List ℕ) → List ℕ) → Dag → Bytes → ℕ → Go Dag
  populate_dag num_cpu schedule d seed workers = do
    filled ←
        if is_strict d.spec.mode
        then generate_tensor_dag d.spec (dag_bytes d) seed
        else generate_dag num_cpu schedule d.spec (dag_bytes d) seed workers
    ok (with_array d filled.array)
