-- ===== src/Tests/Params.antt =====
-- The theorems on the parameters, the nonce and the epoch seed at sample data.
use colossusx.Prelude.{◌+◌, ◌-◌, ◌*◌, ◌/◌, ◌<◌, ◌≤◌, ◌^◌, ◌≡◌, refl, ◌↔◌, ok, arith}
use colossusx.Spec.{
  Spec, validate, initial_dag_size, growth_dag_size_per_epoch, dag_size_for_epoch,
  dag_size_for_height, resolved_for_height,
}
use colossusx.Spec.Valid.{IsTyped, IsSized, ModeAccepts, validate_iff, validate-IsSized}
use colossusx.Spec.Size.{
  planned_size, IsDagSize, dag_size_for_epoch-planned, dag_size_for_height-planned,
  dag_size_for_height_mono,
}
use colossusx.Spec.Epoch.{resolved_for_height_idem, resolved_for_height_drift}
use colossusx.Tests.Samples.{sample_spec, sample_spec-IsTyped, sample_spec-IsSized}

validate_iff_example :
    (validate sample_spec ≡ ok tt)
    ↔ (IsSized sample_spec × ModeAccepts sample_spec.mode sample_spec)
validate_iff_example = validate_iff sample_spec

dag_size_for_epoch-planned_example :
    dag_size_for_epoch sample_spec 3 ≡ ok (planned_size sample_spec 3)
dag_size_for_epoch-planned_example =
    dag_size_for_epoch-planned sample_spec 3 sample_spec-IsTyped sample_spec-IsSized

dag_size_for_height_mono_example :
    (planned_size sample_spec (5 / 4) ≤ planned_size sample_spec (9 / 4))
    × IsDagSize sample_spec (planned_size sample_spec (5 / 4))
    × IsDagSize sample_spec (planned_size sample_spec (9 / 4))
dag_size_for_height_mono_example =
    dag_size_for_height_mono sample_spec 5 9 (planned_size sample_spec (5 / 4))
      (planned_size sample_spec (9 / 4)) sample_spec-IsTyped sample_spec-IsSized (omega arith)
      (dag_size_for_height-planned sample_spec 5 sample_spec-IsTyped sample_spec-IsSized)
      (dag_size_for_height-planned sample_spec 9 sample_spec-IsTyped sample_spec-IsSized)

resolved_for_height_idem_example :
    (r : Spec) × (resolved_for_height sample_spec 9 ≡ ok r) × (resolved_for_height r 9 ≡ ok r)
resolved_for_height_idem_example =
    resolved_for_height_idem sample_spec 9 sample_spec-IsTyped sample_spec-IsSized
      (λ e. ground arith)

-- The same parameters with the initial size left out.
abbrev no_initial : Spec
no_initial = record sample_spec { initial_dag_size_bytes = 0 }

no_initial-valid : validate no_initial ≡ ok tt
unfolding validate colossusx.Spec.validate_mode initial_dag_size growth_dag_size_per_epoch
no_initial-valid = refl

no_initial-IsTyped : IsTyped no_initial
no_initial-IsTyped = record {
  dag_size = omega arith;
  initial_size = omega arith;
  growth_size = omega arith;
  epoch_blocks_size = omega arith;
  reads_size = omega arith;
}

no_initial-room :
    initial_dag_size no_initial + (9 / 4) * growth_dag_size_per_epoch no_initial < 2 ^ 64 - 64
unfolding initial_dag_size growth_dag_size_per_epoch
no_initial-room = omega arith

resolved_for_height_drift_example :
    (r q : Spec) × (resolved_for_height no_initial 9 ≡ ok r)
    × (resolved_for_height r 9 ≡ ok q)
    × (r.dag_size_bytes < q.dag_size_bytes)
resolved_for_height_drift_example =
    resolved_for_height_drift no_initial 9 no_initial-IsTyped
      (validate-IsSized no_initial no_initial-valid) refl (omega arith) no_initial-room
