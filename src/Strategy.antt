-- ===== src/Strategy.antt =====
-- memory_strategy.go and strict_config.go: the choice of the DAG's allocator by mode and name. Texts
-- are lists of code points. The allocators of CUDA and OpenCL call their runtimes and are parameters;
-- so is the text function `strings.ToLower(strings.TrimSpace(…))`.
pub mod Choice
use Prim.Native.String.{String}
use Prim.Native.Char.{code}
use colossusx.Prelude.{
  ℕ, ◌+◌, Bool, true, false, not, ◌&&◌, ◌||◌, leb, if◌then◌else◌, List, [], ◌∷◌, ◌++◌, length,
  replicate, Option, none, some, Go, ok, err, panic, stuck, refuse, Error, ◌>>=◌, ◌>>◌,
}
use colossusx.Prelude.Keys.{bytes_eq}
use colossusx.Prelude.Slices.{Bytes}
use colossusx.Spec.{Mode, unset_mode, strict, research, other_mode}
use colossusx.Dag.{Allocation, Allocator, is_strict}

-- a text of the source
abbrev pub codes : String → List ℕ
codes String.[] = []
codes (String.◌∷◌ c s) = code c ∷ codes s

-- What a backend's runtime offers: a CUDA device, an OpenCL context with its `valid()`, a Metal
-- context with whether its device is there.
pub record Runtime : Type 0 where
  pub cuda_device_ordinal : Option ℕ
  pub opencl_context : Option Bool
  pub metal_context : Option Bool

-- the strategies that allocate themselves
pub data Strategy : Type 0 where
  go_heap pinned : Strategy
  cuda_managed : ℕ → Bool → Strategy
  opencl_svm : Bool → Strategy
  metal_shared : Bool → Strategy

-- `MemoryStrategy`: one of them, or a `fallbackMemoryStrategy` with its name
pub data MemoryStrategy : Type 0 where
  one : Strategy → MemoryStrategy
  fallback : Bytes → List Strategy → MemoryStrategy

-- the longest slice that `make` serves on the machine, and the allocation functions of the runtimes
pub record Externals : Type 0 where
  pub max_slice : ℕ
  pub alloc_pinned_host : ℕ → Go Allocation
  pub alloc_cuda_managed : ℕ → ℕ → Go Allocation
  pub alloc_opencl_svm : ℕ → Go Allocation

-- `make([]byte, size)` in an allocation of this name
abbrev pub slice_allocation : Externals → Bytes → ℕ → Go Allocation
slice_allocation x name size =
    if leb size x.max_slice then ok (record { name = name; bytes = replicate size 0 }) else panic

-- the methods `Alloc`
unfoldable pub strategy_alloc : Externals → Strategy → ℕ → Go Allocation
strategy_alloc x go_heap size = slice_allocation x (codes "go-heap") size
strategy_alloc x pinned size = x.alloc_pinned_host size
strategy_alloc x (cuda_managed ordinal ready) size =
    refuse (not ready) Error.not_ready >> x.alloc_cuda_managed ordinal size
strategy_alloc x (opencl_svm valid) size =
    refuse (not valid) Error.not_ready >> x.alloc_opencl_svm size
strategy_alloc x (metal_shared device) size =
    refuse (not device) Error.not_ready >> slice_allocation x (codes "metal-shared") size

-- the methods `ValidationCanReuseDAG`
unfoldable pub validation_can_reuse_dag : Strategy → Bool
validation_can_reuse_dag go_heap = true
validation_can_reuse_dag pinned = true
validation_can_reuse_dag (cuda_managed ordinal ready) = ready
validation_can_reuse_dag (opencl_svm valid) = valid
validation_can_reuse_dag (metal_shared device) = device

-- the loop of `fallbackMemoryStrategy.Alloc`, with whether some strategy failed before
unfoldable pub fallback_alloc : Externals → List Strategy → Bool → ℕ → Go Allocation
fallback_alloc x [] failed size =
    err (if failed then Error.strategies_failed else Error.no_strategies)
fallback_alloc x (s ∷ ss) failed size = elim (strategy_alloc x s size) [
  | ok a ↦ ok a
  | err e ↦ fallback_alloc x ss true size
  | panic ↦ panic
  | stuck ↦ stuck
]

unfoldable pub memory_alloc : Externals → MemoryStrategy → ℕ → Go Allocation
memory_alloc x (one s) size = strategy_alloc x s size
memory_alloc x (fallback name ss) size = fallback_alloc x ss false size

-- `cudaDeviceOrdinal`, `openclContext` and `metalContext` of a resolver, whose runtime may be nil
abbrev pub cuda_of : Option Runtime → Option Strategy
cuda_of none = none
cuda_of (some r) = elim r.cuda_device_ordinal [ none ↦ none | some o ↦ some (cuda_managed o true) ]

abbrev pub opencl_of : Option Runtime → Option Strategy
opencl_of none = none
opencl_of (some r) = elim r.opencl_context [ none ↦ none | some c ↦ some (opencl_svm c) ]

abbrev pub metal_of : Option Runtime → Option Strategy
metal_of none = none
metal_of (some r) = elim r.metal_context [ none ↦ none | some c ↦ some (metal_shared c) ]

abbrev pub one_or : Error → Option Strategy → Go MemoryStrategy
one_or e none = err e
one_or e (some s) = ok (one s)

abbrev pub to_list : Option Strategy → List Strategy
to_list none = []
to_list (some s) = s ∷ []

-- `autoStrictStrategies` and `autoResearchStrategies`
unfoldable pub auto_strict_strategies : Option Runtime → List Strategy
auto_strict_strategies r = to_list (cuda_of r) ++ to_list (opencl_of r) ++ to_list (metal_of r)

unfoldable pub auto_research_strategies : Option Runtime → List Strategy
auto_research_strategies r = auto_strict_strategies r ++ go_heap ∷ []

-- a `case` with several texts
abbrev pub is_one_of : Bytes → List Bytes → Bool
is_one_of s [] = false
is_one_of s (t ∷ ts) = bytes_eq s t || is_one_of s ts

abbrev pub is_empty : List Strategy → Bool
is_empty [] = true
is_empty (s ∷ ss) = false

unfoldable pub resolve_research : Option Runtime → Bytes → Go MemoryStrategy
resolve_research r choice =
    if bytes_eq choice (codes "auto")
    then ok (fallback (codes "auto") (auto_research_strategies r))
    else (if is_one_of choice (codes "go" ∷ codes "go-heap" ∷ [])
        then ok (one go_heap)
        else (if is_one_of choice (codes "pinned" ∷ codes "pinned-host" ∷ [])
            then ok (one pinned)
            else (if is_one_of choice (codes "cuda" ∷ codes "cuda-managed" ∷ [])
                then one_or Error.not_ready (cuda_of r)
                else (if is_one_of choice (codes "opencl" ∷ codes "opencl-svm" ∷ codes "svm" ∷ [])
                    then one_or Error.not_ready (opencl_of r)
                    else err Error.unsupported_strategy))))

unfoldable pub resolve_strict : Option Runtime → Bytes → Go MemoryStrategy
resolve_strict r choice =
    if bytes_eq choice (codes "auto")
    then (if is_empty (auto_strict_strategies r)
        then err Error.strict_allocator
        else ok (fallback (codes "auto") (auto_strict_strategies r)))
    else (if bytes_eq choice (codes "cuda-managed")
        then one_or Error.strict_allocator (cuda_of r)
        else (if bytes_eq choice (codes "opencl-svm")
            then one_or Error.strict_allocator (opencl_of r)
            else (if bytes_eq choice (codes "metal-shared")
                then one_or Error.strict_allocator (metal_of r)
                else err Error.strict_allocator)))

-- an empty name means "auto"
abbrev pub or_auto : Bytes → Bytes
or_auto [] = codes "auto"
or_auto (c ∷ cs) = c ∷ cs

module _ (to_lower_trim : Bytes → Bytes) where
  -- `Resolve`
  unfoldable pub resolve : Mode → Option Runtime → Bytes → Go MemoryStrategy
  resolve mode r dag_alloc =
      if is_strict mode
      then resolve_strict r (or_auto (to_lower_trim dag_alloc))
      else resolve_research r (or_auto (to_lower_trim dag_alloc))

  -- `ValidateStrictProductionConfig`; the backend is compared as it is
  unfoldable pub validate_strict_production_config : Mode → Bytes → Bytes → Go (Unit {0})
  validate_strict_production_config mode backend dag_alloc =
      if not (is_strict mode) then ok tt else (do
        refuse (not (is_one_of backend (codes "cuda" ∷ codes "opencl" ∷ codes "metal" ∷ [])))
            Error.strict_backend
        refuse
            (not (
              is_one_of (to_lower_trim dag_alloc) (
                []
                ∷ codes "auto"
                ∷ codes "cuda-managed"
                ∷ codes "opencl-svm"
                ∷ codes "metal-shared"
                ∷ [])))
            Error.strict_allocator)
