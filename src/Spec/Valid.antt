-- ===== src/Spec/Valid.antt =====
-- What `Spec.Validate` accepts.
use colossusx.Prelude.{◌%◌, ◌<◌, ◌≡◌, refl, ◌↔◌, true, arith, ok}
use colossusx.Spec.{
  Spec, Mode, unset_mode, strict, research, other_mode, MemoryModel, unified_shared,
  is_unified_shared, validate, validate_mode, validate_strict, initial_dag_size,
  growth_dag_size_per_epoch, u64_mod,
}

-- Every field of type uint64 that sizes a DAG is below 2^64.
pub record IsTyped (s : Spec) : Type 0 where
  pub dag_size : s.dag_size_bytes < u64_mod
  pub initial_size : s.initial_dag_size_bytes < u64_mod
  pub growth_size : s.dag_growth_bytes_per_epoch < u64_mod
  pub epoch_blocks_size : s.epoch_blocks < u64_mod
  pub reads_size : s.reads_per_hash < u64_mod

-- The sizes of a usable parameter set, in every mode.
pub record IsSized (s : Spec) : Type 0 where
  pub initial_pos : 0 < initial_dag_size s
  pub growth_pos : 0 < growth_dag_size_per_epoch s
  pub node_size_64 : s.node_size ≡ 64
  pub reads_pos : 0 < s.reads_per_hash
  pub epoch_pos : 0 < s.epoch_blocks
  pub initial_multiple : initial_dag_size s % 64 ≡ 0
  pub growth_multiple : growth_dag_size_per_epoch s % 64 ≡ 0

-- The locked parameters of strict mode.
pub record IsStrict (s : Spec) : Type 0 where
  pub reads_locked : s.reads_per_hash ≡ 512
  pub epoch_locked : s.epoch_blocks ≡ 8000
  pub version_locked : s.algorithm_version ≡ 2
  pub memory_locked : s.memory_model_required ≡ unified_shared
  pub device_locked : s.device_execution_only ≡ true
  pub tile_pos : 0 < s.tile_size_bytes
  pub mat_pos : 0 < s.mat_dim
  pub rounds_pos : 0 < s.compute_rounds
  pub commit_pos : 0 < s.round_commit_interval

abbrev pub ModeAccepts : Mode → Spec → Type 0
ModeAccepts unset_mode s = IsStrict s
ModeAccepts strict s = IsStrict s
ModeAccepts research s = Unit {0}
ModeAccepts (other_mode t) s = ⊥

is_unified_shared-true : (m : MemoryModel) → is_unified_shared m ≡ true → m ≡ unified_shared
is_unified_shared-true m h = ground arith

validate_strict-IsStrict : (s : Spec) → validate_strict s ≡ ok tt → IsStrict s
unfolding validate_strict
validate_strict-IsStrict s h = ground (arith, is_unified_shared-true s.memory_model_required)

IsStrict-validate_strict : (s : Spec) → IsSized s → IsStrict s → validate_strict s ≡ ok tt
unfolding validate_strict
IsStrict-validate_strict s z h = ground arith

mode_sound : (m : Mode) (s : Spec) → validate_mode m s ≡ ok tt → ModeAccepts m s
unfolding validate_mode
mode_sound unset_mode s h = validate_strict-IsStrict s h
mode_sound strict s h = validate_strict-IsStrict s h
mode_sound research s h = tt
mode_sound (other_mode t) s h = cc

mode_complete : (m : Mode) (s : Spec) → IsSized s → ModeAccepts m s → validate_mode m s ≡ ok tt
unfolding validate_mode
mode_complete unset_mode s z h = IsStrict-validate_strict s z h
mode_complete strict s z h = IsStrict-validate_strict s z h
mode_complete research s z h = refl
mode_complete (other_mode t) s z h = absurd h

validate-mode : (s : Spec) → validate s ≡ ok tt → IsSized s × (validate_mode s.mode s ≡ ok tt)
unfolding validate
validate-mode s h = ground arith

pub validate-IsSized : (s : Spec) → validate s ≡ ok tt → IsSized s
validate-IsSized s h = (validate-mode s h).0

validate_complete : (s : Spec) → IsSized s → validate_mode s.mode s ≡ ok tt → validate s ≡ ok tt
unfolding validate
validate_complete s z h = ground arith

-- `Validate` returns nil exactly when the sizes are positive multiples of the 64-byte node, reads
-- and epoch length are positive, and the mode is research, or is strict or empty with every
-- locked parameter of strict mode as it must be. Any other mode is refused.
pub validate_iff : (s : Spec) → (validate s ≡ ok tt) ↔ (IsSized s × ModeAccepts s.mode s)
validate_iff s = (
  λ h. ((validate-mode s h).0, mode_sound s.mode s (validate-mode s h).1),
  λ p. validate_complete s p.0 (mode_complete s.mode s p.0 p.1),
)
