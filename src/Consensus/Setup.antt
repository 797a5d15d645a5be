-- ===== src/Consensus/Setup.antt =====
-- `NewValidator`, `SetMiningBackend` and `canValidationReuseMiningDAG`: how a validator
-- starts, and a change of the mining allocator keeps it sound.
use colossusx.Prelude.{
  ℕ, Bool, true, ◌||◌, ◌==◌, if◌then◌else◌, List, [], ◌∷◌, Option, none, some, Go, ok, ◌>>◌, arith,
}
use colossusx.Prelude.Maps.{lookup}
use colossusx.Prelude.Slices.{Bytes}
use colossusx.Crypto.{Crypto}
use colossusx.Spec.{validate}
use colossusx.Strategy.{codes, is_one_of}
use colossusx.Dag.{Dag, Allocator}
use colossusx.Spec.Epoch.{resolved}
use colossusx.Types.{ChainConfig}
use colossusx.Hash.{HashResult}
use colossusx.Consensus.Cache.{Env, Caches, cpu_hash, slice_allocator}
use colossusx.Consensus.Cache.Fresh.{build_at}
use colossusx.Consensus.Cache.Verdict.{Allocates, IsSound, Serves, AreFresh}

-- An allocator, with its own answer if it has the method `ValidationCanReuseDAG`.
pub record MiningAllocator : Type 0 where
  pub allocator : Allocator
  pub answer : Option Bool

module _ (to_lower_trim : Bytes → Bytes) (contains : Bytes → Bytes → Bool) where
  -- `canValidationReuseMiningDAG`; `contains` is `strings.Contains`
  unfoldable pub can_validation_reuse : MiningAllocator → Bool
  can_validation_reuse a = elim a.answer [
    | some b ↦ b
    | none ↦
        let name = to_lower_trim a.allocator.name in
        is_one_of name (
          []
          ∷ codes "go"
          ∷ codes "go-slice"
          ∷ codes "go-heap"
          ∷ codes "auto"
          ∷ codes "pinned"
          ∷ codes "pinned-host"
          ∷ [])
        || contains name (codes "unified")
  ]

  -- `SetMiningBackend`: the shared cache is emptied, as its DAGs are closed. The backend that it also
  -- sets is used for mining only.
  unfoldable pub set_mining_backend : Env → Caches → Option MiningAllocator → Env × Caches
  set_mining_backend e m none = (e, record m { shared = [] })
  set_mining_backend e m (some a) = (
    record e { mining_allocator = a.allocator; reuse = can_validation_reuse a },
    record m { shared = [] },
  )

  -- Behind `SetMiningBackend` with an allocator, a sound environment is sound, and caches that were
  -- fresh are fresh for it. It serves the DAG size planned for a height, if it did so before and the
  -- new allocator does.
  pub set_mining_backend-IsSound :
      (e : Env) (m : Caches) (a : MiningAllocator) (height : ℕ)
      → IsSound e
      → AreFresh e m
      → Serves e height
      → Allocates a.allocator (resolved e.config.spec height).dag_size_bytes
      → IsSound (set_mining_backend e m (some a)).0
        × AreFresh (set_mining_backend e m (some a)).0 (set_mining_backend e m (some a)).1
        × Serves (set_mining_backend e m (some a)).0 height
  unfolding set_mining_backend lookup build_at
  set_mining_backend-IsSound e m a height s f served serves = (
    record { fair = s.fair; cpus = s.cpus; typed = s.typed; valid = s.valid },
    record {
      shared_fresh = λ seed size dag found. absurd (ground arith);
      fallback_fresh = f.fallback_fresh;
    },
    record { own = served.own; mining = serves },
  )

module _ (c : Crypto) (num_cpu : ℕ) (schedule : List (List ℕ) → List ℕ) (max_slice : ℕ) where
  abbrev pub no_caches : Caches
  no_caches = record { shared = []; fallback = [] }

  abbrev pub backend_or_cpu :
      Option (Bytes → Option ℕ → Dag → Go HashResult) → Bytes → Option ℕ → Dag → Go HashResult
  backend_or_cpu none = cpu_hash c
  backend_or_cpu (some h) = h

  abbrev pub new_env : ChainConfig → (Bytes → Option ℕ → Dag → Go HashResult) → ℕ → Env
  new_env config hash workers = record {
    crypto = c;
    num_cpu = num_cpu;
    schedule = schedule;
    config = config;
    backend_hash = hash;
    workers = workers;
    allocator = slice_allocator max_slice;
    mining_allocator = slice_allocator max_slice;
    reuse = true;
  }

  -- `NewValidator`
  unfoldable pub new_validator :
      ChainConfig → Option (Bytes → Option ℕ → Dag → Go HashResult) → ℕ → Go (Env × Caches)
  new_validator config backend workers = do
    validate config.spec
    let count = if workers == 0 then num_cpu else workers
    ok (new_env config (backend_or_cpu backend) count, no_caches)
