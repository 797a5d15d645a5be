-- ===== src/Consensus/Seal.antt =====
-- `SealBlock`: the search for a nonce on the DAG that mining and validation share. The backend is
-- behind `sealSkipPrepareBackend`, which has no `HashBatch`, so `Mine` always runs its workers.
pub mod Search
use colossusx.Prelude.{
  ℕ, ◌==◌, if◌then◌else◌, List, Option, none, some, Go, ok, err, ◌>>=◌, ◌>>◌, Error,
}
use colossusx.Prelude.Slices.{Bytes}
use colossusx.Crypto.{Crypto}
use colossusx.Spec.{validate}
use colossusx.Dag.{Dag}
use colossusx.Types.{Block, BlockHeader, encode_for_mining}
use colossusx.Hash.{HashResult}
use colossusx.Miner.{Job, mine, mine_result, start_mining}
use colossusx.Consensus.Cache.{Env, Caches, cpu_hash, shared_mining_dag}

-- `HashBackend`
pub record Backend : Type 0 where
  pub prepare : Dag → Go (Unit {0})
  pub hash : Bytes → Option ℕ → Dag → Go HashResult

-- `consensus.CPUBackend`
abbrev pub cpu_backend : Crypto → Backend
cpu_backend c = record { prepare = λ dag. ok tt; hash = cpu_hash c }

abbrev pub with_nonce : BlockHeader → ℕ → BlockHeader
with_nonce h n = record h { nonce = n }

abbrev pub seal_with : Block → Option ℕ → Go Block
seal_with block none = err Error.no_solution
seal_with block (some n) = ok (record block { header = with_nonce block.header n })

module _ (e : Env) (backend : Backend) where
  -- the job of the miner that `SealBlock` makes
  abbrev pub seal_job : BlockHeader → ℕ → Dag → Job
  seal_job header max_nonces dag = record {
    hash = λ n. backend.hash (encode_for_mining header) (some n) dag;
    target = header.target;
    start = 0;
    max_nonces = max_nonces;
    workers = if e.workers == 0 then e.num_cpu else e.workers;
  }

  -- what its search returns
  abbrev pub seal_search : List ℕ → BlockHeader → ℕ → Dag → Go (Option ℕ)
  seal_search order header max_nonces dag =
      let job = seal_job header max_nonces dag in
      mine_result job (mine job order (start_mining job))

  -- `NewMiner` and `Mine` on the DAG, and the block with the nonce that was found
  unfoldable pub seal_on : List ℕ → Block → ℕ → Dag → Go Block
  seal_on order block max_nonces dag = do
    validate e.config.spec
    found ← seal_search order block.header max_nonces dag
    seal_with block found

  -- `SealBlock`, with the workers' turns in the order of the list
  unfoldable pub seal_block : List ℕ → Caches → Block → ℕ → Caches × Go Block
  seal_block order m block max_nonces =
      let (m', r) = shared_mining_dag e m block.header in
      (m', r >>= λ dag. backend.prepare dag >> seal_on order block max_nonces dag)
