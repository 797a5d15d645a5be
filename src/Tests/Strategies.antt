-- ===== src/Tests/Strategies.antt =====
-- The theorems on memory strategies at a runtime with CUDA only.
use colossusx.Prelude.{◌≡◌, refl, true, none, some, Option, [], ok, err, Error, inr, arith}
use colossusx.Prelude.Keys.{bytes_eq}
use colossusx.Spec.{strict, research}
use colossusx.Dag.{Allocation}
use colossusx.Strategy.{
  Runtime, MemoryStrategy, one, cuda_managed, Externals, codes, memory_alloc, resolve,
  resolve_strict,
}
use colossusx.Strategy.Choice.{IsShared, resolve-IsShared, auto_research-allocates}

abbrev cuda_runtime : Option Runtime
cuda_runtime =
    some (record { cuda_device_ordinal = some 3; opencl_context = none; metal_context = none })

-- No allocation function of the runtime succeeds.
abbrev out_of_memory : Externals
out_of_memory = record {
  max_slice = 4096;
  alloc_pinned_host = λ size. err Error.not_ready;
  alloc_cuda_managed = λ o size. err Error.not_ready;
  alloc_opencl_svm = λ size. err Error.not_ready;
}

cuda_choice :
    resolve (λ s. s) strict cuda_runtime (codes "cuda-managed") ≡ ok (one (cuda_managed 3 true))
unfolding resolve resolve_strict bytes_eq
cuda_choice = refl

resolve-IsShared_example : IsShared cuda_runtime (one (cuda_managed 3 true))
resolve-IsShared_example =
    resolve-IsShared (λ s. s) cuda_runtime (codes "cuda-managed") (one (cuda_managed 3 true))
      cuda_choice

auto_research-allocates_example :
    (m : MemoryStrategy) × (a : Allocation) × (resolve (λ s. s) research cuda_runtime [] ≡ ok m)
    × (memory_alloc out_of_memory m 128 ≡ ok a)
auto_research-allocates_example =
    auto_research-allocates out_of_memory (λ s. s) cuda_runtime [] 128 (omega arith)
      (inr (Error.not_ready, refl)) (λ o. inr (Error.not_ready, refl)) (inr (Error.not_ready, refl))
      refl
