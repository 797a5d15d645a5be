-- ===== src/Consensus/Cache/Verdict.antt =====
-- The proof of work of a full node, with its DAG caches, against the check that needs no DAG.
use colossusx.Prelude.{
  ℕ, ◌/◌, ◌<◌, ◌≤◌, ◌≡◌, ◌≢◌, refl, ap, ◌∙◌, either, true, Bool-cases, List, [], length, Option,
  some, Go, ok, ◌>>=◌, >>=-assoc, if-true, if-false, arith,
}
use mathlib.Core.Path.{fun_ext}
use colossusx.Prelude.Keys.{bytes_key, number_eq, pair_key}
use colossusx.Prelude.Maps.{Map}
use colossusx.Prelude.Slices.{Bytes}
use colossusx.Crypto.{Crypto}
use colossusx.Spec.{Spec, u64_mod, validate}
use colossusx.Spec.Valid.{IsTyped, IsSized, validate-IsSized}
use colossusx.Spec.Size.{planned_size}
use colossusx.Spec.Epoch.{resolved, resolved-IsDagSize, validate-resolved}
use colossusx.Dag.{Dag, Allocator, Allocation, new_dag_with_allocator, populate_dag}
use colossusx.Dag.Schedule.{Runs}
use colossusx.Stateless.Full.{IsReady}
use colossusx.Types.{BlockHeader, encode_for_mining}
use colossusx.Hash.{HashResult, lattice_hash_dag, hash_header_stateless}
use colossusx.Hash.Agree.{lattice_hash_dag-stateless}
use colossusx.Consensus.Cache.{
  Env, Caches, SharedKey, cpu_hash, shared_mining_dag, validation_dag, pow_verdict, validate_pow,
}
use colossusx.Consensus.Cache.Fresh.{build_at, IsFresh, IsKey, cached_lem}

-- The allocator serves a request of this size with at least as many bytes as asked for.
abbrev pub Allocates : Allocator → ℕ → Type 0
Allocates a size =
    (r : Allocation) × (a.alloc size ≡ ok r) × (size ≤ length r.bytes) × (length r.bytes < u64_mod)

cpu_hash-lattice :
    (c : Crypto) (header : Bytes) (nonce : Option ℕ) (dag : Dag)
    → cpu_hash c header nonce dag ≡ lattice_hash_dag c dag.spec header nonce dag
unfolding cpu_hash lattice_hash_dag
cpu_hash-lattice c header n dag = ground arith

new_dag_ready :
    (spec : Spec) (allocator : Allocator) (a : Allocation)
    → validate spec ≡ ok tt
    → allocator.alloc spec.dag_size_bytes ≡ ok a
    → spec.dag_size_bytes ≤ length a.bytes
    → new_dag_with_allocator spec (some allocator)
      ≡ ok (record { spec = spec; alloc = some a; ownership = true })
unfolding new_dag_with_allocator
new_dag_ready spec allocator a valid got room = rw (got, valid) (ground arith)

module _ (e : Env) where
  open e use {crypto, num_cpu, schedule, workers, config, allocator, mining_allocator}

  -- What a good environment provides.
  pub record IsSound : Type 0 where
    pub fair : (ls : List (List ℕ)) → Runs ls (schedule ls)
    pub cpus : 0 < num_cpu
    pub typed : IsTyped config.spec
    pub valid : validate config.spec ≡ ok tt

  -- Both allocators serve the size that is planned for the height.
  pub record Serves (height : ℕ) : Type 0 where
    pub own : Allocates allocator (resolved config.spec height).dag_size_bytes
    pub mining : Allocates mining_allocator (resolved config.spec height).dag_size_bytes

  -- The header names the DAG that the configuration plans for its height, and the allocators serve
  -- its size.
  pub record IsPlanned (header : BlockHeader) : Type 0 where
    pub size :
        header.dag_size_bytes ≡ planned_size config.spec (header.height / config.spec.epoch_blocks)
    pub some_seed : header.epoch_seed ≢ []
    pub served : Serves header.height

  module _ (sound : IsSound) (header : BlockHeader) (plan : IsPlanned header) where
    abbrev spec_now : Spec
    spec_now = resolved config.spec header.height

    same_spec : record config.spec { dag_size_bytes = header.dag_size_bytes } ≡ spec_now
    same_spec = ap (λ (n : ℕ). record config.spec { dag_size_bytes = n }) plan.size

    ready :
        (a : Allocation)
        → spec_now.dag_size_bytes ≤ length a.bytes
        → length a.bytes < u64_mod
        → IsReady (record { spec = spec_now; alloc = some a; ownership = true }) a
    ready a room fits = record {
      valid = validate-resolved config.spec header.height sound.typed sound.valid;
      size = resolved-IsDagSize config.spec header.height sound.typed sized;
      allocated = refl;
      large_enough = room;
      array_typed = fits;
    }
      where
        sized : IsSized config.spec
        sized = validate-IsSized config.spec sound.valid

    -- The DAG of the header is built, and its digest is the stateless one.
    pub built_hash :
        (a : Allocator) (message : Bytes) (nonce : Option ℕ)
        → Allocates a spec_now.dag_size_bytes
        → (build_at e a header.epoch_seed header.dag_size_bytes >>= cpu_hash crypto message nonce)
          ≡ hash_header_stateless crypto spec_now message nonce header.epoch_seed
    unfolding build_at
    built_hash a message n serves =
        let (r, got, room, fits) = serves in
        let made =
          new_dag_ready spec_now a r
            (validate-resolved config.spec header.height sound.typed sound.valid) got room in
        let d : Dag = record { spec = spec_now; alloc = some r; ownership = true } in
        rw (same_spec, made)
          (ap (◌>>=◌ (populate_dag crypto num_cpu schedule d header.epoch_seed workers))
              (fun_ext (λ dag. cpu_hash-lattice crypto message n dag))
            ∙ lattice_hash_dag-stateless crypto num_cpu schedule d r header.epoch_seed workers
                message n sound.fair sound.cpus plan.some_seed (ready r room fits))

  abbrev pub shared_of : Bytes → ℕ → SharedKey
  shared_of seed size = (seed, size)

  abbrev pub fallback_of : Bytes → ℕ → SharedKey × Bytes
  fallback_of seed size = ((seed, size), allocator.name)

  -- Both caches hold what would be built.
  pub record AreFresh (m : Caches) : Type 0 where
    pub shared_fresh : IsFresh e mining_allocator shared_of m.shared
    pub fallback_fresh : IsFresh e allocator fallback_of m.fallback

  pub shared_IsKey : IsKey e mining_allocator shared_of
  shared_IsKey seed seed' size size' same =
      (ap (λ (k : SharedKey). k.0) same, ap (λ (k : SharedKey). k.1) same)

  fallback_IsKey : IsKey e allocator fallback_of
  fallback_IsKey seed seed' size size' same =
      (ap (λ (k : SharedKey × Bytes). k.0.0) same, ap (λ (k : SharedKey × Bytes). k.0.1) same)

  -- The DAG for validation is one built by an allocator of the environment.
  validation_dag_lem :
      (m : Caches) (header : BlockHeader)
      → IsSound
      → AreFresh m
      → Serves header.height
      → (m' : Caches) × (a : Allocator) × (validation_dag e m header
          ≡ (m', build_at e a header.epoch_seed header.dag_size_bytes))
        × AreFresh m'
        × Allocates a (resolved config.spec header.height).dag_size_bytes
  unfolding validation_dag shared_mining_dag
  validation_dag_lem m header sound f served =
      let z = validate-IsSized config.spec sound.valid in
      either (Bool-cases e.reuse)
        (λ reused.
          let (cache, run, fresh) =
            cached_lem e mining_allocator shared_of shared_IsKey m.shared f.shared_fresh header
              sound.typed z in
          (
            record m { shared = cache },
            mining_allocator,
            if-true e.reuse _ _ reused
                ∙ ap (λ (p : Map SharedKey Dag × Go Dag). (record m { shared = p.0 }, p.1)) run,
            record { shared_fresh = fresh; fallback_fresh = f.fallback_fresh },
            served.mining,
          ))
        (λ own.
          let (cache, run, fresh) =
            cached_lem e allocator fallback_of fallback_IsKey m.fallback f.fallback_fresh header
              sound.typed z in
          (
            record m { fallback = cache },
            allocator,
            if-false e.reuse _ _ own
                ∙ ap
                    (λ (p : Map (SharedKey × Bytes) Dag × Go Dag).
                      (record m { fallback = p.0 }, p.1))
                    run,
            record { shared_fresh = f.shared_fresh; fallback_fresh = fresh },
            served.own,
          ))

  -- A full node and a light verifier agree. In a sound environment (valid parameters, a processor, and
  -- a scheduler that runs every goroutine) with fresh caches (they hold only what would be built
  -- anew), for a header that names the DAG planned for its height, whose size both allocators serve,
  -- `validatePoW` with the CPU backend gives the verdict on the digest that `HashHeaderStateless` computes with no DAG,
  -- whichever of the two caches is used; and the caches are fresh again.
  pub validate_pow-stateless :
      (m : Caches) (header : BlockHeader)
      → IsSound
      → IsPlanned header
      → e.backend_hash ≡ cpu_hash crypto
      → AreFresh m
      → (m' : Caches) × (validate_pow e m header ≡ (
        m',
        hash_header_stateless crypto
              (resolved config.spec header.height)
              (encode_for_mining header)
              (some header.nonce)
              header.epoch_seed
            >>= pow_verdict header,
      ))
        × AreFresh m'
  unfolding validate_pow
  validate_pow-stateless m header sound plan cpu f =
      let (m', a, run, fresh, serves) = validation_dag_lem m header sound f plan.served in
      let digest =
        built_hash sound header plan a (encode_for_mining header) (some header.nonce) serves in
      let message = encode_for_mining header in
      let check = λ (h : Bytes → Option ℕ → Dag → Go HashResult) (dag : Dag).
        h message (some header.nonce) dag >>= pow_verdict header in
      let dag = build_at e a header.epoch_seed header.dag_size_bytes in
      (
        m',
        ap (λ (p : Caches × Go Dag). (p.0, p.1 >>= check e.backend_hash)) run
            ∙ ap (λ (h : Bytes → Option ℕ → Dag → Go HashResult). (m', dag >>= check h)) cpu
            ∙ ap (λ (r : Go (Unit {0})). (m', r))
                (>>=-assoc dag (cpu_hash crypto message (some header.nonce)) (pow_verdict header)
                  ∙ ap (λ (r : Go HashResult). r >>= pow_verdict header) digest),
        fresh,
      )
