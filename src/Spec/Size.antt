-- ===== src/Spec/Size.antt =====
-- The size of the DAG over the epochs: a closed form, its bounds and its growth.
use colossusx.Prelude.{ℕ, ◌+◌, ◌-◌, ◌*◌, ◌/◌, ◌%◌, ◌^◌, ◌<◌, ◌≤◌, ◌≡◌, min, ap, arith, ok}
use colossusx.Spec.{
  Spec, dag_size_for_epoch, dag_size_for_height, initial_dag_size, growth_dag_size_per_epoch,
  u64_mod, max_u64,
}
use native.Mathlib.Nat.{le-div_iff_mul-le, div-mul-le_self}
use colossusx.Spec.Valid.{IsTyped, IsSized}

-- The largest multiple of 64 below 2^64.
abbrev pub size_limit : ℕ
size_limit = 2 ^ 64 - 64

-- The size that the protocol means: linear growth, up to the limit.
abbrev pub planned_size : Spec → ℕ → ℕ
planned_size s epoch = min (initial_dag_size s + epoch * growth_dag_size_per_epoch s) size_limit

mul-mod_64 : (e g : ℕ) → g % 64 ≡ 0 → e * g % 64 ≡ 0
mul-mod_64 e g h =
    let q = g / 64 in
    let split : g ≡ 64 * q = omega arith in omega (arith, ap (λ (t : ℕ). e * t) split)

-- The guard against overflow: the product stays under the room left exactly when the epoch stays
-- under the quotient.
fits_under : (e g room : ℕ) → 0 < g → e ≤ room / g → e * g ≤ room
fits_under e g room pos h = grind (arith)

over_room : (e g room : ℕ) → 0 < g → room / g < e → room < e * g
over_room e g room pos h = grind (arith)

-- Numbers only: `i` bytes at first, `g` more an epoch, both multiples of 64.
saturates :
    (e i g : ℕ)
    → 0 < g
    → i < u64_mod
    → i % 64 ≡ 0
    → (max_u64 - i) / g < e
    → max_u64 - max_u64 % 64 ≡ min (i + e * g) size_limit
saturates e i g pos bound multiple h = omega (arith, over_room e g (max_u64 - i) pos h)

fits :
    (e i g : ℕ)
    → 0 < g
    → i < u64_mod
    → i % 64 ≡ 0
    → g % 64 ≡ 0
    → e ≤ (max_u64 - i) / g
    → (i + e * g % u64_mod) % u64_mod ≡ min (i + e * g) size_limit
fits e i g pos bound multiple gm h =
    omega (arith, fits_under e g (max_u64 - i) pos h, mul-mod_64 e g gm)

pub initial-lt : (s : Spec) → IsTyped s → initial_dag_size s < u64_mod
unfolding initial_dag_size
initial-lt s t = ground arith

-- For a valid parameter set `DAGSizeForEpoch` returns the planned size at every epoch: it never
-- panics, never wraps around, and saturates at 2^64 - 64.
pub dag_size_for_epoch-planned :
    (s : Spec) (epoch : ℕ)
    → IsTyped s
    → IsSized s
    → dag_size_for_epoch s epoch ≡ ok (planned_size s epoch)
unfolding dag_size_for_epoch
dag_size_for_epoch-planned s epoch t z = ground (
  arith,
  initial-lt s t,
  z.initial_pos,
  z.growth_pos,
  saturates epoch (initial_dag_size s) (growth_dag_size_per_epoch s) z.growth_pos,
  fits epoch (initial_dag_size s) (growth_dag_size_per_epoch s) z.growth_pos,
)

pub dag_size_for_height-planned :
    (s : Spec) (height : ℕ)
    → IsTyped s
    → IsSized s
    → dag_size_for_height s height ≡ ok (planned_size s (height / s.epoch_blocks))
unfolding dag_size_for_height
dag_size_for_height-planned s height t z =
    ground (arith, dag_size_for_epoch-planned s (height / s.epoch_blocks) t z)

growth-le :
    (s : Spec) {e f : ℕ} → e ≤ f → e * growth_dag_size_per_epoch s ≤ f * growth_dag_size_per_epoch s
growth-le s h = grind arith

-- What holds of the size of one epoch's DAG.
pub record IsDagSize (s : Spec) (size : ℕ) : Type 0 where
  pub whole_nodes : size % 64 ≡ 0
  pub at_least_initial : initial_dag_size s ≤ size
  pub below_limit : size < u64_mod
  pub positive : 0 < size

pub planned_size-IsDagSize :
    (s : Spec) (epoch : ℕ) → IsTyped s → IsSized s → IsDagSize s (planned_size s epoch)
planned_size-IsDagSize s epoch t z = record {
  whole_nodes =
      omega (
        arith,
        z.initial_multiple,
        mul-mod_64 epoch (growth_dag_size_per_epoch s) z.growth_multiple,
      );
  at_least_initial = omega (arith, initial-lt s t, z.initial_multiple);
  below_limit = omega arith;
  positive = omega (arith, z.initial_pos);
}

pub div_mono : (a b k : ℕ) → 0 < k → a ≤ b → a / k ≤ b / k
div_mono a b k pos h = (le-div_iff_mul-le pos).1 (omega (arith, div-mul-le_self a k))

-- Of two blocks of a valid chain, the later one has a DAG at least as large. Both sizes are whole
-- numbers of 64-byte nodes, at least the initial size, and below 2^64.
pub dag_size_for_height_mono :
    (s : Spec) (h k a b : ℕ)
    → IsTyped s
    → IsSized s
    → h ≤ k
    → dag_size_for_height s h ≡ ok a
    → dag_size_for_height s k ≡ ok b
    → (a ≤ b) × IsDagSize s a × IsDagSize s b
dag_size_for_height_mono s h k a b t z le p q =
    let ea : a ≡ planned_size s (h / s.epoch_blocks) = cc (dag_size_for_height-planned s h t z) in
    let eb : b ≡ planned_size s (k / s.epoch_blocks) = cc (dag_size_for_height-planned s k t z) in
    let grows = growth-le s (div_mono h k s.epoch_blocks z.epoch_pos le) in
    rw (ea, eb)
      (
        omega (arith, grows),
        planned_size-IsDagSize s (h / s.epoch_blocks) t z,
        planned_size-IsDagSize s (k / s.epoch_blocks) t z,
      )
