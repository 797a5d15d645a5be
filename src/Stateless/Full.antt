-- ===== src/Stateless/Full.antt =====
-- The DAG in memory and the stateless DAG have the same nodes.
use colossusx.Prelude.{
  ℕ, ◌/◌, ◌<◌, ◌≤◌, ◌≡◌, ◌≢◌, refl, ap, ◌∙◌, true, false, List, [], length, Bool-cases, either,
  some, ok, arith,
}
use colossusx.Prelude.Slices.{Bytes}
use colossusx.Crypto.{Crypto}
use colossusx.Spec.{Spec, Mode, strict, unset_mode, research, other_mode, u64_mod, validate}
use colossusx.Spec.Valid.{validate-IsSized}
use colossusx.Spec.Size.{IsDagSize}
use colossusx.Dag.{
  View, Dag, Allocation, is_strict, dag_bytes, node, populate_dag, generate_dag,
  generate_tensor_dag, with_array,
}
use colossusx.Dag.Schedule.{Runs}
use colossusx.Dag.Nodes.{node_at, IsFilled, IsBuffer}
use colossusx.Dag.Fill.{research_content, generate_dag-IsFilled}
use colossusx.Dag.Tensor.{strict_content, generate_tensor_dag-IsFilled}
use colossusx.Stateless.{StatelessDag, stateless_read_node}

-- A DAG that can be filled: valid parameters with the size of some height, and an allocation that
-- is large enough.
pub record IsReady (d : Dag) (a : Allocation) : Type 0 where
  pub valid : validate d.spec ≡ ok tt
  pub size : IsDagSize d.spec d.spec.dag_size_bytes
  pub allocated : d.alloc ≡ some a
  pub large_enough : d.spec.dag_size_bytes ≤ length a.bytes
  pub array_typed : length a.bytes < u64_mod

is_strict-true : (m : Mode) → is_strict m ≡ true → m ≡ strict
is_strict-true strict h = refl
is_strict-true unset_mode h = cc
is_strict-true research h = cc
is_strict-true (other_mode t) h = cc

pub dag_bytes-IsBuffer :
    (d : Dag) (a : Allocation) → IsReady d a → IsBuffer d.spec.dag_size_bytes (dag_bytes d)
unfolding dag_bytes
dag_bytes-IsBuffer d a r = rw r.allocated (record {
  long_enough = ground (arith, r.large_enough);
  in_array = ground arith;
  array_typed = r.array_typed;
})

module _ (c : Crypto) (num_cpu : ℕ) (schedule : List (List ℕ) → List ℕ) (d : Dag) where
  populate_dag-strict :
      (seed : Bytes) (workers : ℕ) {v : View}
      → is_strict d.spec.mode ≡ true
      → generate_tensor_dag c d.spec (dag_bytes d) seed ≡ ok v
      → populate_dag c num_cpu schedule d seed workers ≡ ok (with_array d v.array)
  unfolding populate_dag
  populate_dag-strict seed workers st run = rw (st, run)

  populate_dag-research :
      (seed : Bytes) (workers : ℕ) {v : View}
      → is_strict d.spec.mode ≡ false
      → generate_dag c num_cpu schedule d.spec (dag_bytes d) seed workers ≡ ok v
      → populate_dag c num_cpu schedule d seed workers ≡ ok (with_array d v.array)
  unfolding populate_dag
  populate_dag-research seed workers re run = rw (re, run)

abbrev pub stateless : Spec → Bytes → StatelessDag
stateless spec seed = record { spec = spec; epoch_seed = seed }

read_strict :
    (c : Crypto) (spec : Spec) (seed : Bytes) (i : ℕ)
    → is_strict spec.mode ≡ true
    → strict_content c spec seed i ≡ stateless_read_node c (stateless spec seed) i
unfolding stateless_read_node
read_strict c spec seed i st = rw st

read_research :
    (c : Crypto) (spec : Spec) (seed : Bytes) (i : ℕ)
    → is_strict spec.mode ≡ false
    → research_content c spec seed i ≡ stateless_read_node c (stateless spec seed) i
unfolding stateless_read_node
read_research c spec seed i re = rw re

IsFilled-content :
    (n : ℕ) (f g : ℕ → Bytes) (old new : Bytes)
    → ((i : ℕ) → f i ≡ g i)
    → IsFilled n f old new
    → IsFilled n g old new
IsFilled-content n f g old new same fill = record {
  filled = λ i hi. fill.filled i hi ∙ same i;
  same_length = fill.same_length;
  same_rest = fill.same_rest;
}

-- `PopulateDAG` succeeds on a DAG that is ready, in both modes, for any order of the goroutines'
-- rounds and any number of workers. The array then holds the nodes that the stateless DAG of the
-- same parameters and seed computes, and the bytes behind the DAG are as before.
pub populate_dag-IsFilled :
    (c : Crypto) (num_cpu : ℕ) (schedule : List (List ℕ) → List ℕ) (d : Dag) (a : Allocation)
    (seed : Bytes) (workers : ℕ)
    → ((ls : List (List ℕ)) → Runs ls (schedule ls))
    → 0 < num_cpu
    → seed ≢ []
    → IsReady d a
    → (new : Bytes) × (populate_dag c num_cpu schedule d seed workers ≡ ok (with_array d new))
      × IsFilled
          (d.spec.dag_size_bytes / 64)
          (stateless_read_node c (stateless d.spec seed))
          (dag_bytes d).array
          new
populate_dag-IsFilled c num_cpu schedule d a seed workers fair cpus some_seed r =
    let b = dag_bytes-IsBuffer d a r in
    either (Bool-cases (is_strict d.spec.mode))
      (λ st.
        let (new, run, fill) =
          generate_tensor_dag-IsFilled c d.spec (dag_bytes d) seed r.valid
            (is_strict-true d.spec.mode st) r.size b in
        (
          new,
          populate_dag-strict c num_cpu schedule d seed workers st run,
          IsFilled-content _ _ _ _ new (λ i. read_strict c d.spec seed i st) fill,
        ))
      (λ re.
        let (new, run, fill) =
          generate_dag-IsFilled c num_cpu schedule d.spec (dag_bytes d) seed workers fair cpus
            r.valid r.size some_seed b in
        (
          new,
          populate_dag-research c num_cpu schedule d seed workers re run,
          IsFilled-content _ _ _ _ new (λ i. read_research c d.spec seed i re) fill,
        ))

abbrev with_bytes : Dag → Allocation → Bytes → Dag
with_bytes d a new = record d { alloc = some (record a { bytes = new }) }

with_array-some :
    (d : Dag) (a : Allocation) (new : Bytes)
    → d.alloc ≡ some a
    → with_array d new ≡ with_bytes d a new
with_array-some d a new e = rw e

node-with_bytes :
    (d : Dag) (a : Allocation) (new : Bytes) (i : ℕ)
    → d.spec.node_size ≡ 64
    → i < d.spec.dag_size_bytes / 64
    → d.spec.dag_size_bytes ≤ length new
    → length new < u64_mod
    → node (with_bytes d a new) i ≡ ok (node_at i new)
unfolding node
node-with_bytes d a new i sized hi room fits = rw sized (ground arith)

dag_bytes-array : (d : Dag) (a : Allocation) → d.alloc ≡ some a → (dag_bytes d).array ≡ a.bytes
unfolding dag_bytes
dag_bytes-array d a e = rw e

-- Every node of a DAG that `PopulateDAG` filled reads as the node that the stateless DAG of the same
-- parameters and seed computes. The read does not panic.
pub populate_dag-node :
    (c : Crypto) (num_cpu : ℕ) (schedule : List (List ℕ) → List ℕ) (d : Dag) (a : Allocation)
    (seed : Bytes) (workers : ℕ)
    → ((ls : List (List ℕ)) → Runs ls (schedule ls))
    → 0 < num_cpu
    → seed ≢ []
    → IsReady d a
    → (full : Dag) × (populate_dag c num_cpu schedule d seed workers ≡ ok full)
      × (full.spec ≡ d.spec)
      × ((i : ℕ)
          → i < d.spec.dag_size_bytes / 64
          → node full i ≡ ok (stateless_read_node c (stateless d.spec seed) i))
populate_dag-node c num_cpu schedule d a seed workers fair cpus some_seed r =
    let (new, run, fill) =
      populate_dag-IsFilled c num_cpu schedule d a seed workers fair cpus some_seed r in
    let same = fill.same_length ∙ ap length (dag_bytes-array d a r.allocated) in
    (
      with_bytes d a new,
      run ∙ ap ok (with_array-some d a new r.allocated),
      refl,
      λ i hi.
          node-with_bytes d a new i (validate-IsSized d.spec r.valid).node_size_64 hi
            (omega (arith, same, r.large_enough)) (omega (arith, same, r.array_typed))
          ∙ ap ok (fill.filled i hi),
    )
