-- ===== src/Dag/Ranges.antt =====
-- The ranges that `GenerateDAG` hands to its goroutines: together they are the nodes of the DAG.
use colossusx.Prelude.{
  ℕ, zero, suc, ◌+◌, ◌-◌, ◌*◌, ◌%◌, ◌<◌, ◌≤◌, ◌≡◌, ◌⊎◌, inl, inr, ltb, leb, ◌==◌, if◌then◌else◌,
  Bool-cases, either, ◌↔◌, arith, ◌^◌, ◌||◌, false,
}
use native.Mathlib.Nat.{div-le_self}
use colossusx.Spec.{u64_mod}
use colossusx.Dag.{range_from, worker_ranges, chunk_size}
use colossusx.Dag.Schedule.{Has, HasAny}

range_from-Has : (i from count : ℕ) → from ≤ i → i < from + count → Has i (range_from from count)
unfolding range_from
range_from-Has i from zero lo hi = absurd (omega arith)
range_from-Has i from (suc count) lo hi = elim (Bool-cases (i == from)) [
  | inl e ↦ inl (ground arith)
  | inr e ↦ inr (range_from-Has i (from + 1) count (ground arith) (omega arith))
]

Has-range_from :
    (i from count : ℕ) → Has i (range_from from count) → (from ≤ i) × (i < from + count)
unfolding range_from
Has-range_from i from zero h = absurd h
Has-range_from i from (suc count) (inl e) = omega arith
Has-range_from i from (suc count) (inr h) = omega (arith, Has-range_from i (from + 1) count h)

-- Where a goroutine's range ends.
abbrev range_end : ℕ → ℕ → ℕ → ℕ → ℕ
range_end workers chunk count w =
    let next = (w * chunk % u64_mod + chunk) % u64_mod in
    if w == workers - 1 || ltb count next then count else next

range_end-le : (workers chunk count w : ℕ) → range_end workers chunk count w ≤ count
range_end-le workers chunk count w = ground arith

-- No goroutine leaves the DAG.
pub worker_ranges-bounded :
    (workers chunk count w left i : ℕ)
    → HasAny i (worker_ranges workers chunk count w left)
    → i < count
unfolding worker_ranges
worker_ranges-bounded workers chunk count w zero i h = absurd h
worker_ranges-bounded workers chunk count w (suc left) i h =
    elim (Bool-cases (leb count (w * chunk % u64_mod))) [
      | inl past ↦ absurd (rw past at h)
      | inr more ↦
          either (rw more at h)
            (λ k. omega (
              arith,
              Has-range_from i _ (range_end workers chunk count w - w * chunk % u64_mod) k,
              range_end-le workers chunk count w,
            ))
            (worker_ranges-bounded workers chunk count (w + 1) left i)
    ]

-- The range of one worker, without the wrap-around that cannot happen.
step_here :
    (workers chunk count w left i : ℕ)
    → count < 2 ^ 63
    → w * chunk ≤ i
    → i < count
    → chunk ≤ count
    → (i < w * chunk + chunk) ⊎ (w ≡ workers - 1)
    → HasAny i (worker_ranges workers chunk count w (suc left))
unfolding worker_ranges
step_here workers chunk count w left i fits lo hi small inside =
    rw (test) (inl (range_from-Has i _ _ (omega arith) (ground arith)))
  where
    test : leb count (w * chunk % u64_mod) ≡ false
    test = ground arith

step_later :
    (workers chunk count w left i : ℕ)
    → count < 2 ^ 63
    → w * chunk ≤ i
    → i < count
    → HasAny i (worker_ranges workers chunk count (w + 1) left)
    → HasAny i (worker_ranges workers chunk count w (suc left))
unfolding worker_ranges
step_later workers chunk count w left i fits lo hi h = rw test (inr h)
  where
    test : leb count (w * chunk % u64_mod) ≡ false
    test = ground arith

-- Every node from the first of worker `w` on is in the range of `w` or of a later worker.
worker_ranges-cover :
    (workers chunk count w left i : ℕ)
    → count < 2 ^ 63
    → chunk ≤ count
    → w + left ≡ workers
    → 0 < left
    → w * chunk ≤ i
    → i < count
    → HasAny i (worker_ranges workers chunk count w left)
worker_ranges-cover workers chunk count w zero i fits small e some_left lo hi = absurd (omega arith)
worker_ranges-cover workers chunk count w (suc zero) i fits small e some_left lo hi =
    step_here workers chunk count w 0 i fits lo hi small (inr (omega arith))
worker_ranges-cover workers chunk count w (suc (suc left)) i fits small e some_left lo hi =
    elim (Bool-cases (ltb i (w * chunk + chunk))) [
      | inl here ↦
          step_here workers chunk count w (suc left) i fits lo hi small (inl (ground arith))
      | inr later ↦ step_later workers chunk count w (suc left) i fits lo hi (
          worker_ranges-cover workers chunk count (w + 1) (suc left) i fits small (omega arith)
            (omega arith) (ground arith) hi)
    ]

-- The goroutines have exactly the nodes of the DAG as their rounds.
pub worker_ranges-exact :
    (workers count i : ℕ)
    → count < 2 ^ 63
    → 0 < workers
    → HasAny i (worker_ranges workers (chunk_size count workers) count 0 workers) ↔ (i < count)
unfolding chunk_size
worker_ranges-exact workers count i fits pos = (
  worker_ranges-bounded workers (chunk_size count workers) count 0 workers i,
  λ hi.
      worker_ranges-cover workers (chunk_size count workers) count 0 workers i fits (small hi)
        (omega arith) pos (omega arith) hi,
)
  where
    small : i < count → chunk_size count workers ≤ count
    small hi = ground (arith, div-le_self count workers)
