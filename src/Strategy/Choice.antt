-- ===== src/Strategy/Choice.antt =====
-- What a resolved strategy may be in each mode.
use colossusx.Prelude.{
  ℕ, ◌≤◌, ◌≡◌, leb, if-true, refl, subst, ◌⊎◌, inl, inr, either, replicate, Bool, true, false, List,
  [], ◌∷◌, ◌++◌, Option, none, some, Go, ok, err, Error, if◌then◌else◌, arith,
}
use colossusx.Prelude.Keys.{bytes_eq}
use colossusx.Prelude.Slices.{Bytes}
use colossusx.Spec.{strict, research}
use colossusx.Dag.{Allocation}
use colossusx.Strategy.{
  Runtime, Strategy, go_heap, pinned, cuda_managed, opencl_svm, metal_shared, MemoryStrategy, one,
  fallback, Externals, codes, slice_allocation, strategy_alloc, fallback_alloc, memory_alloc,
  cuda_of, opencl_of, metal_of, one_or, to_list, auto_strict_strategies, auto_research_strategies,
  is_empty, resolve_research, resolve_strict, or_auto, resolve,
}

-- A strategy of shared memory that the runtime offers.
abbrev pub IsOffered : Option Runtime → Strategy → Type 0
IsOffered r s = (cuda_of r ≡ some s) ⊎ (opencl_of r ≡ some s) ⊎ (metal_of r ≡ some s)

abbrev pub AllOffered : Option Runtime → List Strategy → Type 0
AllOffered r [] = Unit
AllOffered r (s ∷ ss) = IsOffered r s × AllOffered r ss

-- One strategy that is offered, or a fallback over some, at least one.
abbrev pub IsShared : Option Runtime → MemoryStrategy → Type 0
IsShared r (one s) = IsOffered r s
IsShared r (fallback name ss) = (is_empty ss ≡ false) × AllOffered r ss

AllOffered-++ :
    (r : Option Runtime) (ss ts : List Strategy)
    → AllOffered r ss
    → AllOffered r ts
    → AllOffered r (ss ++ ts)
AllOffered-++ r [] ts p q = q
AllOffered-++ r (s ∷ ss) ts p q = (p.0, AllOffered-++ r ss ts p.1 q)

to_list-AllOffered :
    (r : Option Runtime) (o : Option Strategy)
    → ((s : Strategy) → o ≡ some s → IsOffered r s)
    → AllOffered r (to_list o)
to_list-AllOffered r none h = tt
to_list-AllOffered r (some s) h = (h s refl, tt)

auto-AllOffered : (r : Option Runtime) → AllOffered r (auto_strict_strategies r)
unfolding auto_strict_strategies
auto-AllOffered r =
    AllOffered-++ r (to_list (cuda_of r) ++ to_list (opencl_of r)) (to_list (metal_of r))
      (AllOffered-++ r (to_list (cuda_of r)) (to_list (opencl_of r))
        (to_list-AllOffered r (cuda_of r) (λ s e. inl e))
        (to_list-AllOffered r (opencl_of r) (λ s e. inr (inl e))))
      (to_list-AllOffered r (metal_of r) (λ s e. inr (inr e)))

-- The answer of a single choice.
one_or-IsShared :
    (r : Option Runtime) (x : Error) (o : Option Strategy) {m : MemoryStrategy}
    → ((s : Strategy) → o ≡ some s → IsOffered r s)
    → one_or x o ≡ ok m
    → IsShared r m
one_or-IsShared r x none h e = absurd (ground arith)
one_or-IsShared r x (some s) {m = m} h e =
    let same : one s ≡ m = ground arith in subst (IsShared r) same (h s refl)

auto-IsShared :
    (r : Option Runtime) (name : Bytes) (ss : List Strategy) {m : MemoryStrategy}
    → AllOffered r ss
    → (if is_empty ss then err Error.strict_allocator else ok (fallback name ss)) ≡ ok m
    → IsShared r m
auto-IsShared r name [] all e = absurd (ground arith)
auto-IsShared r name (s ∷ ss) {m = m} all e =
    let same : fallback name (s ∷ ss) ≡ m = ground arith in subst (IsShared r) same (refl, all)

if-ok :
    {A : Type 0} (P : A → Type 0) (b : Bool) (t e : Go A) {a : A}
    → (t ≡ ok a → P a)
    → (e ≡ ok a → P a)
    → (if b then t else e) ≡ ok a
    → P a
if-ok P true t e p q h = p h
if-ok P false t e p q h = q h

resolve_strict-IsShared :
    (r : Option Runtime) (choice : Bytes) (m : MemoryStrategy)
    → resolve_strict r choice ≡ ok m
    → IsShared r m
unfolding resolve_strict
resolve_strict-IsShared r choice m =
    if-ok (IsShared r) (bytes_eq choice (codes "auto")) _ _
      (auto-IsShared r (codes "auto") (auto_strict_strategies r) (auto-AllOffered r))
      (if-ok (IsShared r) (bytes_eq choice (codes "cuda-managed")) _ _
        (one_or-IsShared r Error.strict_allocator (cuda_of r) (λ s e. inl e))
        (if-ok (IsShared r) (bytes_eq choice (codes "opencl-svm")) _ _
          (one_or-IsShared r Error.strict_allocator (opencl_of r) (λ s e. inr (inl e)))
          (if-ok (IsShared r) (bytes_eq choice (codes "metal-shared")) _ _
            (one_or-IsShared r Error.strict_allocator (metal_of r) (λ s e. inr (inr e)))
            (λ e. absurd (ground arith)))))

-- In strict mode every strategy that is resolved is CUDA managed memory, OpenCL SVM or Metal shared
-- memory that the runtime offers, alone or in a fallback that has at least one: never the Go heap
-- and never pinned memory, whatever name the configuration gives.
pub resolve-IsShared :
    (to_lower_trim : Bytes → Bytes) (r : Option Runtime) (dag_alloc : Bytes) (m : MemoryStrategy)
    → resolve to_lower_trim strict r dag_alloc ≡ ok m
    → IsShared r m
unfolding resolve
resolve-IsShared to_lower_trim r dag_alloc m h =
    resolve_strict-IsShared r (or_auto (to_lower_trim dag_alloc)) m h

-- An allocation function returns an allocation or an error.
abbrev pub Answers : (ℕ → Go Allocation) → ℕ → Type 0
Answers f size = ((a : Allocation) × (f size ≡ ok a)) ⊎ ((e : Error) × (f size ≡ err e))

fallback-heap :
    (x : Externals) (ss : List Strategy) (failed : Bool) (size : ℕ)
    → size ≤ x.max_slice
    → ((s : Strategy) → Answers (strategy_alloc x s) size)
    → (a : Allocation) × (fallback_alloc x (ss ++ go_heap ∷ []) failed size ≡ ok a)
unfolding fallback_alloc strategy_alloc
fallback-heap x [] failed size small all =
    let served : leb size x.max_slice ≡ true = ground arith in
    (record { name = codes "go-heap"; bytes = replicate size 0 }, rw (served, fallback_alloc) refl)
fallback-heap x (s ∷ ss) failed size small all =
    either (all s) (λ (a, got). (a, rw (got, fallback_alloc) refl))
      (λ (e, failure).
        (let (a, got) = fallback-heap x ss true size small all in
          (a, rw (failure, fallback_alloc) got)))

served :
    (x : Externals) (name : Bytes) (size : ℕ)
    → size ≤ x.max_slice
    → Answers (slice_allocation x name) size
served x name size small =
    let fits : leb size x.max_slice ≡ true = ground arith in inl (_, if-true _ _ _ fits)

strategy_alloc-Answers :
    (x : Externals) (size : ℕ)
    → size ≤ x.max_slice
    → Answers x.alloc_pinned_host size
    → ((o : ℕ) → Answers (x.alloc_cuda_managed o) size)
    → Answers x.alloc_opencl_svm size
    → (s : Strategy) → Answers (strategy_alloc x s) size
unfolding strategy_alloc
strategy_alloc-Answers x size small p c o go_heap = served x (codes "go-heap") size small
strategy_alloc-Answers x size small p c o pinned = p
strategy_alloc-Answers x size small p c o (cuda_managed d true) = c d
strategy_alloc-Answers x size small p c o (cuda_managed d false) = inr (_, refl)
strategy_alloc-Answers x size small p c o (opencl_svm true) = o
strategy_alloc-Answers x size small p c o (opencl_svm false) = inr (_, refl)
strategy_alloc-Answers x size small p c o (metal_shared true) =
    served x (codes "metal-shared") size small
strategy_alloc-Answers x size small p c o (metal_shared false) = inr (_, refl)

-- The automatic choice of research mode allocates every size that `make` serves: whatever the runtime
-- offers and whichever of its allocation functions fail with an error, if none of them panics, since
-- the Go heap is tried last.
pub auto_research-allocates :
    (x : Externals) (to_lower_trim : Bytes → Bytes) (r : Option Runtime) (dag_alloc : Bytes)
    (size : ℕ)
    → size ≤ x.max_slice
    → Answers x.alloc_pinned_host size
    → ((o : ℕ) → Answers (x.alloc_cuda_managed o) size)
    → Answers x.alloc_opencl_svm size
    → or_auto (to_lower_trim dag_alloc) ≡ codes "auto"
    → (m : MemoryStrategy) × (a : Allocation) × (resolve to_lower_trim research r dag_alloc ≡ ok m)
      × (memory_alloc x m size ≡ ok a)
unfolding resolve resolve_research memory_alloc auto_research_strategies bytes_eq
auto_research-allocates x to_lower_trim r dag_alloc size small p c o auto =
    let (a, got) =
      fallback-heap x (auto_strict_strategies r) false size small
        (strategy_alloc-Answers x size small p c o) in
    (fallback (codes "auto") (auto_research_strategies r), a, rw auto refl, got)
