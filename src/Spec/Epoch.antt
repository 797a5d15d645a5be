-- ===== src/Spec/Epoch.antt =====
-- `ResolvedForHeight` and `NodeCount`: the parameters with the size of one height filled in.
use colossusx.Prelude.{ℕ, ◌+◌, ◌-◌, ◌*◌, ◌/◌, ◌^◌, ◌<◌, ◌≤◌, ◌≡◌, ◌≢◌, refl, ap, ◌⊎◌, arith, ok}
use colossusx.Spec.{
  Spec, dag_size_for_height, initial_dag_size, growth_dag_size_per_epoch, resolved_for_height,
  node_count, validate,
}
use native.Mathlib.Nat.{le-div_iff_mul-le}
use colossusx.Spec.{Mode, unset_mode, strict, research, other_mode}
use colossusx.Spec.Valid.{IsTyped, IsSized, IsStrict, ModeAccepts, validate_iff}
use colossusx.Spec.Size.{
  planned_size, dag_size_for_height-planned, IsDagSize, planned_size-IsDagSize,
}

-- What resolving yields: the same parameters, with the planned size.
abbrev pub resolved : Spec → ℕ → Spec
resolved s height = record s { dag_size_bytes = planned_size s (height / s.epoch_blocks) }

pub resolved_for_height-resolved :
    (s : Spec) (height : ℕ)
    → IsTyped s
    → IsSized s
    → resolved_for_height s height ≡ ok (resolved s height)
unfolding resolved_for_height
resolved_for_height-resolved s height t z = rw (dag_size_for_height-planned s height t z)

-- With its initial size given, the size of a height does not depend on the size field.
pub size_of_resolved :
    (s : Spec) (h k : ℕ)
    → s.initial_dag_size_bytes ≢ 0
    → dag_size_for_height (resolved s k) h ≡ dag_size_for_height s h
unfolding dag_size_for_height
size_of_resolved s h k set = ground arith

-- If the initial size is given, to resolve twice for one height is to resolve once.
pub resolved_for_height_idem :
    (s : Spec) (height : ℕ)
    → IsTyped s
    → IsSized s
    → s.initial_dag_size_bytes ≢ 0
    → (r : Spec) × (resolved_for_height s height ≡ ok r) × (resolved_for_height r height ≡ ok r)
unfolding resolved_for_height
resolved_for_height_idem s height t z set =
    let once = dag_size_for_height-planned s height t z in
    (resolved s height, rw once, rw (size_of_resolved s height height set, once))

pub resolved-IsTyped : (s : Spec) (height : ℕ) → IsTyped s → IsSized s → IsTyped (resolved s height)
resolved-IsTyped s height t z =
    let d = planned_size-IsDagSize s (height / s.epoch_blocks) t z in
    record {
      dag_size = d.below_limit;
      initial_size = t.initial_size;
      growth_size = t.growth_size;
      epoch_blocks_size = t.epoch_blocks_size;
      reads_size = t.reads_size;
    }

-- The initial size of a resolved set: the same if it is given, else the size of the height.
pub initial-resolved :
    (s : Spec) (height : ℕ)
    → (initial_dag_size (resolved s height) ≡ initial_dag_size s)
      ⊎ ((s.initial_dag_size_bytes ≡ 0)
          × (initial_dag_size (resolved s height) ≡ planned_size s (height / s.epoch_blocks)))
unfolding initial_dag_size
initial-resolved s height = ground arith

pub resolved-IsSized : (s : Spec) (height : ℕ) → IsTyped s → IsSized s → IsSized (resolved s height)
unfolding growth_dag_size_per_epoch
resolved-IsSized s height t z =
    let d = planned_size-IsDagSize s (height / s.epoch_blocks) t z in
    record {
      initial_pos = omega (arith, initial-resolved s height, d.positive, z.initial_pos);
      growth_pos = z.growth_pos;
      node_size_64 = z.node_size_64;
      reads_pos = z.reads_pos;
      epoch_pos = z.epoch_pos;
      initial_multiple =
          omega (arith, initial-resolved s height, d.whole_nodes, z.initial_multiple);
      growth_multiple = z.growth_multiple;
    }

abbrev epoch_of : Spec → ℕ → ℕ
epoch_of s height = height / s.epoch_blocks

growth_after_first :
    (s : Spec) (height : ℕ)
    → IsSized s
    → s.epoch_blocks ≤ height
    → 0 < epoch_of s height * growth_dag_size_per_epoch s
growth_after_first s height z later =
    let one : 1 ≤ epoch_of s height = (le-div_iff_mul-le z.epoch_pos).1 (omega arith) in
    grind (arith, z.growth_pos)

unset_initial :
    (s : Spec) (height : ℕ)
    → s.initial_dag_size_bytes ≡ 0
    → initial_dag_size (resolved s height) ≡ planned_size s (epoch_of s height)
unfolding initial_dag_size
unset_initial s height unset = ground arith

growth-resolved :
    (s : Spec) (height : ℕ)
    → growth_dag_size_per_epoch (resolved s height) ≡ growth_dag_size_per_epoch s
unfolding growth_dag_size_per_epoch
growth-resolved s height = refl

-- If the initial size is left to the size field, then past the first epoch to resolve a second
-- time counts the growth twice: the size is larger than after the first time, below the limit.
pub resolved_for_height_drift :
    (s : Spec) (height : ℕ)
    → IsTyped s
    → IsSized s
    → s.initial_dag_size_bytes ≡ 0
    → s.epoch_blocks ≤ height
    → initial_dag_size s + (height / s.epoch_blocks) * growth_dag_size_per_epoch s < 2 ^ 64 - 64
    → (r q : Spec) × (resolved_for_height s height ≡ ok r)
      × (resolved_for_height r height ≡ ok q)
      × (r.dag_size_bytes < q.dag_size_bytes)
resolved_for_height_drift s height t z unset later room =
    let r = resolved s height in
    (
      r,
      resolved r height,
      resolved_for_height-resolved s height t z,
      resolved_for_height-resolved r height (resolved-IsTyped s height t z)
          (resolved-IsSized s height t z),
      omega (
        arith,
        growth_after_first s height z later,
        unset_initial s height unset,
        growth-resolved s height,
        ap (λ (g : ℕ). epoch_of s height * g) (growth-resolved s height),
      ),
    )

-- The number of nodes of a resolved parameter set: positive, and the nodes fill the DAG.
pub node_count-resolved :
    (s : Spec) (size : ℕ)
    → IsSized s
    → IsDagSize s size
    → node_count (record s { dag_size_bytes = size }) ≡ ok (size / 64)
unfolding node_count
node_count-resolved s size z d = ground (arith, z.node_size_64, d.positive)

-- The size of a height, as the size of the resolved parameters.
pub resolved-IsDagSize :
    (s : Spec) (height : ℕ)
    → IsTyped s
    → IsSized s
    → IsDagSize (resolved s height) (planned_size s (height / s.epoch_blocks))
resolved-IsDagSize s height t z =
    let d = planned_size-IsDagSize s (height / s.epoch_blocks) t z in
    record {
      whole_nodes = d.whole_nodes;
      at_least_initial = omega (arith, initial-resolved s height, d.at_least_initial);
      below_limit = d.below_limit;
      positive = d.positive;
    }

-- Resolved parameters are valid if the configured ones are.
IsStrict-resolved : (s : Spec) (height : ℕ) → IsStrict s → IsStrict (resolved s height)
IsStrict-resolved s height h = record {
  reads_locked = h.reads_locked;
  epoch_locked = h.epoch_locked;
  version_locked = h.version_locked;
  memory_locked = h.memory_locked;
  device_locked = h.device_locked;
  tile_pos = h.tile_pos;
  mat_pos = h.mat_pos;
  rounds_pos = h.rounds_pos;
  commit_pos = h.commit_pos;
}

ModeAccepts-resolved :
    (m : Mode) (s : Spec) (height : ℕ) → ModeAccepts m s → ModeAccepts m (resolved s height)
ModeAccepts-resolved unset_mode s height h = IsStrict-resolved s height h
ModeAccepts-resolved strict s height h = IsStrict-resolved s height h
ModeAccepts-resolved research s height h = tt
ModeAccepts-resolved (other_mode x) s height h = h

pub validate-resolved :
    (s : Spec) (height : ℕ) → IsTyped s → validate s ≡ ok tt → validate (resolved s height) ≡ ok tt
validate-resolved s height t valid =
    let (z, mode) = (validate_iff s).0 valid in
    (validate_iff (resolved s height)).1
      (resolved-IsSized s height t z, ModeAccepts-resolved s.mode s height mode)
