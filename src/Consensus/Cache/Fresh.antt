-- ===== src/Consensus/Cache/Fresh.antt =====
-- `cachedDAGForHeader` cannot be told from a function that builds every DAG anew.
use colossusx.Prelude.{
  ℕ, ◌≡◌, refl, sym, ap, subst, ◌∙◌, either, Bool-cases, Option, none, some, Go, ok, err, panic,
  stuck, ◌>>=◌, arith,
}
use colossusx.Prelude.Keys.{Eq, bytes_key, number_eq, pair_key}
use colossusx.Prelude.Maps.{Map, lookup, insert, lookup-insert}
use colossusx.Prelude.Slices.{Bytes}
use colossusx.Spec.Valid.{IsTyped, IsSized}
use colossusx.Spec.Epoch.{resolved_for_height-resolved}
use colossusx.Dag.{Dag, Allocator, new_dag_with_allocator, populate_dag}
use colossusx.Types.{BlockHeader}
use colossusx.Consensus.Cache.{Env, build_dag, cached_dag_for_header}

module _ (e : Env) where
  open e use {crypto, num_cpu, schedule, workers, config}

  -- The DAG for a seed and a size, built anew.
  unfoldable pub build_at : Allocator → Bytes → ℕ → Go Dag
  build_at allocator seed size =
      new_dag_with_allocator (record config.spec { dag_size_bytes = size }) (some allocator)
      >>= λ dag. populate_dag crypto num_cpu schedule dag seed workers

  build_dag-build_at :
      (allocator : Allocator) (header : BlockHeader)
      → IsTyped config.spec
      → IsSized config.spec
      → build_dag e allocator header ≡ build_at allocator header.epoch_seed header.dag_size_bytes
  unfolding build_dag build_at
  build_dag-build_at allocator header t z =
      rw (resolved_for_height-resolved config.spec header.height t z)

  module _ {K : Type 0} ⦃q : Eq K⦄ (allocator : Allocator) (key : Bytes → ℕ → K) where
    -- Every cached DAG is the one that would be built now.
    abbrev pub IsFresh : Map K Dag → Type 0
    IsFresh cache =
        (seed : Bytes) (size : ℕ) (dag : Dag)
        → lookup (key seed size) cache ≡ some dag
        → build_at allocator seed size ≡ ok dag

    -- Keys are made of the seed and the size.
    abbrev pub IsKey : Type 0
    IsKey =
        (seed seed' : Bytes) (size size' : ℕ)
        → key seed size ≡ key seed' size'
        → (seed ≡ seed') × (size ≡ size')

    module _ (inj : IsKey) (cache : Map K Dag) (fresh : IsFresh cache) where
      insert-IsFresh :
          (seed : Bytes) (size : ℕ) (dag : Dag)
          → build_at allocator seed size ≡ ok dag
          → IsFresh (insert (key seed size) dag cache)
      insert-IsFresh seed size dag built seed' size' dag' found =
          either (Bool-cases (q.same (key seed size) (key seed' size')))
            (λ same.
              let (p, r) = inj seed seed' size size' ((q.same_iff _ _).0 same) in
              let got : dag ≡ dag' =
                ground (arith, same, lookup-insert (key seed size) (key seed' size') dag cache) in
              subst (λ (x : Bytes). build_at allocator x size' ≡ ok dag') p
                (subst (λ (x : ℕ). build_at allocator seed x ≡ ok dag') r (built ∙ ap ok got)))
            (λ other.
              fresh seed' size' dag' (
                sym (lookup-insert (key seed size) (key seed' size') dag cache ∙ rw other) ∙ found))

      cached_hit :
          (header : BlockHeader) (k : K) {dag : Dag}
          → lookup k cache ≡ some dag
          → cached_dag_for_header e header allocator cache k ≡ (cache, ok dag)
      unfolding cached_dag_for_header
      cached_hit header k hit = rw (hit, cached_dag_for_header)

      cached_miss :
          (header : BlockHeader) (k : K) (r : Go Dag)
          → lookup k cache ≡ none
          → build_dag e allocator header ≡ r
          → cached_dag_for_header e header allocator cache k
            ≡ (elim r [ ok dag ↦ insert k dag cache | _ ↦ cache ], r)
      unfolding cached_dag_for_header
      cached_miss header k (ok dag) miss built = rw (miss, cached_dag_for_header, built)
      cached_miss header k (err x) miss built = rw (miss, cached_dag_for_header, built)
      cached_miss header k panic miss built = rw (miss, cached_dag_for_header, built)
      cached_miss header k stuck miss built = rw (miss, cached_dag_for_header, built)

      kept-IsFresh :
          (seed : Bytes) (size : ℕ) (r : Go Dag)
          → build_at allocator seed size ≡ r
          → IsFresh (elim r [ ok dag ↦ insert (key seed size) dag cache | _ ↦ cache ])
      kept-IsFresh seed size (ok dag) built = insert-IsFresh seed size dag built
      kept-IsFresh seed size (err x) built = fresh
      kept-IsFresh seed size panic built = fresh
      kept-IsFresh seed size stuck built = fresh

      -- The cache cannot be seen: the result is the DAG that would be built, and stays so.
      pub cached_lem :
          (header : BlockHeader)
          → IsTyped config.spec
          → IsSized config.spec
          → (cache' : Map K Dag) × (cached_dag_for_header e header allocator cache
                (key header.epoch_seed header.dag_size_bytes)
              ≡ (cache', build_at allocator header.epoch_seed header.dag_size_bytes))
            × IsFresh cache'
      cached_lem header t z = go (lookup k cache) refl
        where
          k : K
          k = key header.epoch_seed header.dag_size_bytes

          go :
              (o : Option Dag)
              → lookup k cache ≡ o
              → (cache' : Map K Dag) × (cached_dag_for_header e header allocator cache k
                  ≡ (cache', build_at allocator header.epoch_seed header.dag_size_bytes))
                × IsFresh cache'
          go (some dag) hit = (
            cache,
            cached_hit header k hit
                ∙ ap (λ (r : Go Dag). (cache, r))
                    (sym (fresh header.epoch_seed header.dag_size_bytes dag hit)),
            fresh,
          )
          go none miss =
              let r = build_at allocator header.epoch_seed header.dag_size_bytes in
              (
                elim r [ ok dag ↦ insert k dag cache | _ ↦ cache ],
                cached_miss header k r miss (build_dag-build_at allocator header t z),
                kept-IsFresh header.epoch_seed header.dag_size_bytes r refl,
              )
