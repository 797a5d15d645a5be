-- ===== src/Consensus/Seal/Search.antt =====
-- What `SealBlock` finds, in the terms of the light verifier.
use colossusx.Prelude.{
  ℕ, ◌+◌, ◌-◌, ◌*◌, ◌^◌, ◌<◌, ◌≤◌, ◌≡◌, refl, sym, ap, subst, ◌∙◌, ◌⊎◌, inl, inr, either, Bool,
  true, false, ◌==◌, not, if◌then◌else◌, List, Option, some, Go, ok, err, panic, stuck, refuse,
  ◌>>=◌, ◌>>◌, Error, arith,
}
use colossusx.Prelude.Keys.{bytes_key, number_eq, pair_key}
use colossusx.Prelude.Maps.{Map}
use colossusx.Prelude.Slices.{Bytes}
use colossusx.Spec.Valid.{validate-IsSized}
use colossusx.Spec.Epoch.{resolved, resolved-IsDagSize, validate-resolved}
use colossusx.Dag.{Dag}
use colossusx.Target.{less_or_equal_be}
use colossusx.Types.{Block, BlockHeader, encode_for_mining}
use colossusx.Hash.{HashResult, hash_header_stateless}
use colossusx.Hash.Total.{hash_header_stateless-IsResult}
use colossusx.Miner.{Job, is_ok, solves, is_solution}
use colossusx.Miner.Ends.{turns_of, mine_decides}
use colossusx.Consensus.Cache.{Env, Caches, SharedKey, cpu_hash, pow_verdict, shared_mining_dag}
use colossusx.Consensus.Cache.Fresh.{build_at, cached_lem}
use colossusx.Consensus.Cache.Verdict.{
  IsSound, IsPlanned, AreFresh, built_hash, shared_of, shared_IsKey,
}
use colossusx.Consensus.Answer.{light_verdict}
use colossusx.Consensus.Seal.{
  cpu_backend, with_nonce, seal_with, seal_job, seal_on, seal_search, seal_block,
}

same_message : (h : BlockHeader) (n : ℕ) → encode_for_mining (with_nonce h n) ≡ encode_for_mining h
unfolding encode_for_mining
same_message h n = refl

module _ (e : Env) (sound : IsSound e) where
  open e use {crypto, num_cpu, schedule, workers, config, mining_allocator}

  -- The digest that a light verifier computes for the header with a nonce.
  abbrev light_hash : BlockHeader → ℕ → Go HashResult
  light_hash h n =
      hash_header_stateless crypto (resolved config.spec h.height) (encode_for_mining h) (some n)
        h.epoch_seed

  light_hash-ok :
      (h : BlockHeader) (n : ℕ) → IsPlanned e h → (r : HashResult) × (light_hash h n ≡ ok r)
  light_hash-ok h n plan =
      let (r, run, _) =
        hash_header_stateless-IsResult crypto (resolved config.spec h.height) (encode_for_mining h)
          h.epoch_seed (some n) (validate-resolved config.spec h.height sound.typed sound.valid)
          (resolved-IsDagSize config.spec h.height sound.typed
            (validate-IsSized config.spec sound.valid))
          plan.some_seed in
      (r, run)

  -- The shared DAG is there, and its hashes are the light verifier's.
  shared_dag :
      (m : Caches) (h : BlockHeader)
      → IsPlanned e h
      → AreFresh e m
      → (m' : Caches) × (dag : Dag) × (shared_mining_dag e m h ≡ (m', ok dag))
        × AreFresh e m'
        × ((n : ℕ) → cpu_hash crypto (encode_for_mining h) (some n) dag ≡ light_hash h n)
  unfolding shared_mining_dag
  shared_dag m h plan f =
      let z = validate-IsSized config.spec sound.valid in
      let (cache, run, fresh) =
        cached_lem e mining_allocator (shared_of e) (shared_IsKey e) m.shared f.shared_fresh h
          sound.typed z in
      let (dag, got) = dag_of (build_at e mining_allocator h.epoch_seed h.dag_size_bytes) (all 0) in
      (
        record m { shared = cache },
        dag,
        ap (λ (p : Map SharedKey Dag × Go Dag). (record m { shared = p.0 }, p.1)) run
            ∙ ap (λ (r : Go Dag). (record m { shared = cache }, r)) got,
        record { shared_fresh = fresh; fallback_fresh = f.fallback_fresh },
        λ n.
            subst
              (λ (r : Go Dag).
                (r >>= cpu_hash crypto (encode_for_mining h) (some n)) ≡ light_hash h n)
              got (all n),
      )
    where
      all :
          (n : ℕ)
          → (build_at e mining_allocator h.epoch_seed h.dag_size_bytes
              >>= cpu_hash crypto (encode_for_mining h) (some n))
            ≡ light_hash h n
      all n =
          built_hash e sound h plan mining_allocator (encode_for_mining h) (some n)
            plan.served.mining

      dag_of :
          (r : Go Dag)
          → (r >>= cpu_hash crypto (encode_for_mining h) (some 0)) ≡ light_hash h 0
          → (dag : Dag) × (r ≡ ok dag)
      dag_of (ok dag) q = (dag, refl)
      dag_of (err x) q = let (v, run) = light_hash-ok h 0 plan in absurd (cc)
      dag_of panic q = let (v, run) = light_hash-ok h 0 plan in absurd (cc)
      dag_of stuck q = let (v, run) = light_hash-ok h 0 plan in absurd (cc)

  module _ (cpu : e.backend_hash ≡ cpu_hash crypto) where
    verdict_lem :
        (h : BlockHeader) (n : ℕ) (v : HashResult)
        → light_hash h n ≡ ok v
        → light_verdict e sound cpu (with_nonce h n)
          ≡ refuse (not (less_or_equal_be v.pow256 h.target)) Error.invalid_pow
    verdict_lem h n v got =
        ap
          (λ (message : Bytes).
            hash_header_stateless crypto (resolved config.spec h.height) message (some n)
              h.epoch_seed
            >>= pow_verdict (with_nonce h n))
          (same_message h n)
        ∙ ap (λ (r : Go HashResult). r >>= pow_verdict (with_nonce h n)) got

    module _ (h : BlockHeader) (plan : IsPlanned e h) (max_nonces : ℕ) (dag : Dag)
        (same : (n : ℕ) → cpu_hash crypto (encode_for_mining h) (some n) dag ≡ light_hash h n) where
      abbrev job : Job
      job = seal_job e (cpu_backend crypto) h max_nonces dag

      job_hash : (n : ℕ) → (v : HashResult) × (job.hash n ≡ ok v) × (light_hash h n ≡ ok v)
      job_hash n = let (v, got) = light_hash-ok h n plan in (v, same n ∙ got, got)

      job_runs : (n : ℕ) → is_ok (job.hash n) ≡ true
      job_runs n = let (v, run, _) = job_hash n in ap is_ok run

      solves-light :
          (n : ℕ) → solves job n ≡ true → light_verdict e sound cpu (with_nonce h n) ≡ ok tt
      solves-light n good =
          let (v, run, got) = job_hash n in
          let meets : less_or_equal_be v.pow256 h.target ≡ true =
            sym (ap (is_solution job) run) ∙ good in
          verdict_lem h n v got ∙ ap (λ (b : Bool). refuse (not b) Error.invalid_pow) meets

      fails-light :
          (n : ℕ)
          → solves job n ≡ false
          → light_verdict e sound cpu (with_nonce h n) ≡ err Error.invalid_pow
      fails-light n bad =
          let (v, run, got) = job_hash n in
          let above : less_or_equal_be v.pow256 h.target ≡ false =
            sym (ap (is_solution job) run) ∙ bad in
          verdict_lem h n v got ∙ ap (λ (b : Bool). refuse (not b) Error.invalid_pow) above

    -- The nonces that the job of a header may try.
    abbrev pub MayTry : ℕ → ℕ → Type 0
    MayTry max_nonces n = (n < 2 ^ 64) × ((0 < max_nonces) → n < max_nonces)

    -- The search's answer: the block with a nonce that the light verifier accepts, or no solution and
    -- the light verifier refuses every nonce that may be tried.
    abbrev pub Sealed : Block → ℕ → Go Block → Type 0
    Sealed block max_nonces r =
        ((n : ℕ) × (r ≡ ok (record block { header = with_nonce block.header n }))
          × MayTry max_nonces n
          × (light_verdict e sound cpu (with_nonce block.header n) ≡ ok tt))
        ⊎ ((r ≡ err Error.no_solution)
            × ((n : ℕ)
                → MayTry max_nonces n
                → light_verdict e sound cpu (with_nonce block.header n) ≡ err Error.invalid_pow))

    seal_on_run :
        (order : List ℕ) (block : Block) (max_nonces : ℕ) (dag : Dag) {found : Option ℕ}
        → seal_search e (cpu_backend crypto) order block.header max_nonces dag ≡ ok found
        → seal_on e (cpu_backend crypto) order block max_nonces dag ≡ seal_with block found
    unfolding seal_on
    seal_on_run order block max_nonces dag run =
        let search = seal_search e (cpu_backend crypto) order block.header max_nonces dag in
        ap (λ (v : Go (Unit {0})). v >> (search >>= seal_with block)) sound.valid
        ∙ ap (λ (r : Go (Option ℕ)). r >>= seal_with block) run

    -- Every worker gets as many turns as are surely enough.
    abbrev pub EnoughTurns : List ℕ → ℕ → Type 0
    EnoughTurns order max_nonces =
        (i : ℕ)
        → i < (if workers == 0 then num_cpu else workers)
        → 2 * (if max_nonces == 0 then 2 ^ 64 else max_nonces) + 1 ≤ turns_of i order

    some_workers : 0 < (if workers == 0 then num_cpu else workers)
    some_workers = ground (arith, sound.cpus)

    in_job :
        (max_nonces n : ℕ)
        → MayTry max_nonces n
        → (0 ≤ n) × (n < 2 ^ 64) × ((0 < max_nonces) → n - 0 < max_nonces)
    in_job max_nonces n (low, limit) = (omega arith, low, λ pos. let l = limit pos in omega arith)

    seal_on-Sealed :
        (order : List ℕ) (block : Block) (max_nonces : ℕ) (dag : Dag)
        → IsPlanned e block.header
        → ((n : ℕ)
            → cpu_hash crypto (encode_for_mining block.header) (some n) dag
              ≡ light_hash block.header n)
        → EnoughTurns order max_nonces
        → (r : Go Block) × (seal_on e (cpu_backend crypto) order block max_nonces dag ≡ r)
          × Sealed block max_nonces r
    seal_on-Sealed order block max_nonces dag plan same enough =
        either
          (mine_decides (seal_job e (cpu_backend crypto) block.header max_nonces dag) order
            (omega arith) some_workers enough)
          (λ (crash, (n, r, no_hash)).
            absurd (cc (job_runs block.header plan max_nonces dag same n)))
          (λ ends.
            either ends
              (λ (n, found, (low, high, limit), good). (
                _,
                seal_on_run order block max_nonces dag found,
                inl (
                  n,
                  refl,
                  (high, λ pos. let l = limit pos in omega arith),
                  solves-light block.header plan max_nonces dag same n good,
                ),
              ))
              (λ (nothing, all). (
                _,
                seal_on_run order block max_nonces dag nothing,
                inr (
                  refl,
                  λ n may.
                      fails-light block.header plan max_nonces dag same n
                        (all n (in_job max_nonces n may)),
                ),
              )))

    -- In a sound environment (valid parameters, a processor, and a scheduler that runs every
    -- goroutine) with fresh caches and the CPU backend for mining and validation, for a header that
    -- names the DAG planned for its height, whose size both allocators serve, `SealBlock` ends with an answer if every worker gets enough turns, in any order: the block with a nonce that a
    -- light verifier accepts, or the error that there is no solution, and then a light verifier
    -- refuses the header with every nonce that may be tried. The caches stay fresh.
    pub seal_block-Sealed :
        (order : List ℕ) (m : Caches) (block : Block) (max_nonces : ℕ)
        → IsPlanned e block.header
        → AreFresh e m
        → EnoughTurns order max_nonces
        → (m' : Caches) × (r : Go Block) × (seal_block e
              (cpu_backend crypto)
              order
              m
              block
              max_nonces
            ≡ (m', r))
          × AreFresh e m'
          × Sealed block max_nonces r
    unfolding seal_block
    seal_block-Sealed order m block max_nonces plan fresh enough =
        let (m', dag, got, fresh', same) = shared_dag m block.header plan fresh in
        let (r, run, sealed) = seal_on-Sealed order block max_nonces dag plan same enough in
        (
          m',
          r,
          ap
                (λ (p : Caches × Go Dag). (
                  p.0,
                  p.1 >>= λ dag. ok tt >> seal_on e (cpu_backend crypto) order block max_nonces dag,
                ))
                got
              ∙ ap (λ (x : Go Block). (m', x)) run,
          fresh',
          sealed,
        )
